-- ===== src/Fetch/Steps.antt =====
-- How many documents the search for an inbox in internal/fetch/inboxurl.go asks for.
use activitypub_core.Common.{
  ℕ, zero, suc, ◌≤◌, ◌≡◌, String, false, Option, List, [], ◌∷◌, Option-cases, Bool-cases, inl, inr,
  length, arith,
}
use activitypub_core.Common.Exec.{Result, ok, err, failure, Result-cases}
use activitypub_core.Config.{Config, listed}
use activitypub_core.Url.{Url}
use activitypub_core.Fetch.Policy.{Policy}
use activitypub_core.Fetch.Client.{Client, policy_allows}
use activitypub_core.Fetch.Inbox.{resolve, settle, refused, after_doc, canonical, fetch_actor_doc}

-- New with respect to `seen`, and each one once.
abbrev pub Fresh : List String → List String → Type 0
Fresh seen [] = Unit
Fresh seen (u ∷ us) = (listed u seen ≡ false) × Fresh (u ∷ seen) us

after_doc-Fresh :
    (n : ℕ) (seen : List String) (canon : String) (next : String → Result String × List String)
    → ((inbox : String) → (length ((next inbox).1) ≤ n) × Fresh (canon ∷ seen) ((next inbox).1))
    → (doc : Result String) → listed canon seen ≡ false
    → (length ((after_doc canon next doc).1) ≤ suc n) × Fresh seen ((after_doc canon next doc).1)
after_doc-Fresh n seen canon next h (err e) new = (omega arith, (new, tt))
after_doc-Fresh n seen canon next h (ok inbox) new =
    let (few, fresh) = h inbox in (omega (arith, few), (new, fresh))

module _ (client : Client) (policy : Option Policy) (cfg : Option Config) where
  settle-Fresh :
      (seen : List String) (u : Url) (canon : String) (n : ℕ) (follow : Result String × List String)
      → (listed canon seen ≡ false → (length follow.1 ≤ n) × Fresh seen follow.1)
      → (length ((settle policy seen (u, canon) follow).1) ≤ n)
        × Fresh seen (settle policy seen (u, canon) follow).1
  settle-Fresh seen u canon n follow h = elim (Bool-cases (listed canon seen)) [
    | inl t ↦ ground (arith, t)
    | inr t ↦ elim (Result-cases (policy_allows policy u)) [
      | inl (_, e) ↦ ground (arith, t, e, h t)
      | inr (_, e) ↦ ground (arith, t, e)
    ]
  ]

  -- From every reference, the search asks for at most as many documents as it has steps left, for
  -- none that it has seen, and for none twice.
  pub resolve-Fresh :
      (n : ℕ) (seen : List String) (ref : String)
      → (length ((resolve client policy cfg n seen ref).1) ≤ n)
        × Fresh seen (resolve client policy cfg n seen ref).1
  unfolding resolve
  resolve-Fresh zero seen ref = elim (Option-cases (canonical ref)) [
    | inl e ↦ rw (resolve, e) (omega arith, tt)
    | inr ((u, canon), e) ↦
        rw (resolve, e)
          (settle-Fresh seen u canon zero (refused (failure "inbox: resolution exceeded"))
            (λ _. (omega arith, tt)))
  ]
  resolve-Fresh (suc n) seen ref = elim (Option-cases (canonical ref)) [
    | inl e ↦ rw (resolve, e) (omega arith, tt)
    | inr ((u, canon), e) ↦
        rw (resolve, e)
          (settle-Fresh seen u canon (suc n) _ (
            after_doc-Fresh n seen canon (λ inbox. resolve client policy cfg n (canon ∷ seen) inbox)
              (λ inbox. resolve-Fresh n (canon ∷ seen) inbox) (fetch_actor_doc client cfg canon)))
  ]
