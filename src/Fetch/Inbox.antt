-- ===== src/Fetch/Inbox.antt =====
-- internal/fetch/inboxurl.go: the inbox of an actor, by following actor documents.
use activitypub_core.Common.{
  ℕ, zero, suc, String, Bool, not, ◌||◌, Option, none, some, List, [], ◌∷◌, ◌==◌, if◌then◌else◌,
}
use activitypub_core.Common.Text.{trim_space, trim_right_slash, has_suffix, contains}
use activitypub_core.Common.Exec.{Error, Result, ok, err, failure, bind_result}
use activitypub_core.Config.{Config, listed}
use activitypub_core.Json.{Raw, no_bytes, malformed, json, struct_string}
use activitypub_core.Url.{Url, parse, to_string}
use activitypub_core.Fetch.Policy.{Policy}
use activitypub_core.Fetch.Client.{Client, prepare_actor_get_request, policy_allows, get_ok}

abbrev pub max_inbox_resolution_steps : ℕ
max_inbox_resolution_steps = 5

unfoldable pub looks_like_shared_inbox_url : Url → Bool
looks_like_shared_inbox_url u =
    has_suffix (trim_right_slash u.path) "/inbox" || contains u.path "/inbox/"

-- The reference without its fragment, and the text of it that is compared.
unfoldable pub canonical : String → Option (Url × String)
canonical ref = elim (parse (trim_space ref)) [
  | none ↦ none
  | some u ↦
      let v = record u { fragment = "" } in
      let canon = trim_right_slash (to_string v) in
      if not (u.scheme == "https" || u.scheme == "http") || canon == ""
      then none
      else some (v, canon)
]

-- The `inbox` of an actor document.
unfoldable pub doc_inbox : Raw → Result String
doc_inbox no_bytes = err (failure "decode actor json")
doc_inbox malformed = err (failure "decode actor json")
doc_inbox (json j) = elim (struct_string "inbox" j) [
  | none ↦ err (failure "decode actor json")
  | some inbox ↦ if trim_space inbox == "" then err (failure "actor missing inbox") else ok inbox
]

-- One fetch of an actor document.
unfoldable pub fetch_actor_doc : Client → Option Config → String → Result String
unfolding get_ok doc_inbox prepare_actor_get_request
fetch_actor_doc client cfg actor_url =
    bind_result (prepare_actor_get_request client cfg)
      λ _. bind_result (get_ok client actor_url) λ r. doc_inbox r.body

abbrev pub refused : Error → Result String × List String
refused e = (err e, [])

-- After the checks of a reference, `follow` being the fetch of its document.
abbrev pub settle :
    Option Policy
    → List String
    → Url × String
    → Result String × List String
    → Result String × List String
settle policy seen (u, canon) follow =
    if listed canon seen
    then refused (failure "inbox: resolution cycle")
    else elim (policy_allows policy u) [
      | err e ↦ refused e
      | ok _ ↦ if looks_like_shared_inbox_url u then (ok canon, []) else follow
    ]

abbrev pub logged : String → Result String × List String → Result String × List String
logged url (r, urls) = (r, url ∷ urls)

-- What follows the fetch of the document at `canon`; `next` goes on with its inbox.
abbrev pub after_doc :
    String → (String → Result String × List String) → Result String → Result String × List String
after_doc canon next (err e) = (err e, canon ∷ [])
after_doc canon next (ok inbox) = logged canon (next inbox)

module _ (client : Client) (policy : Option Policy) (cfg : Option Config) where
  -- `inboxURLFromReference`, with `fetchActorInbox` in it: `n` is `maxInboxResolutionSteps` less
  -- `fetchDepth`, `seen` the set of canonical texts. The result comes with the URLs of the actor
  -- documents that were asked for.
  unfoldable pub resolve : ℕ → List String → String → Result String × List String
  unfolding canonical fetch_actor_doc looks_like_shared_inbox_url
  resolve zero seen ref = elim (canonical ref) [
    | none ↦ refused (failure "invalid audience url")
    | some c ↦ settle policy seen c (refused (failure "inbox: resolution exceeded"))
  ]
  resolve (suc n) seen ref = elim (canonical ref) [
    | none ↦ refused (failure "invalid audience url")
    | some (u, canon) ↦
        settle policy seen (u, canon)
          (after_doc canon (λ inbox. resolve n (canon ∷ seen) inbox)
            (fetch_actor_doc client cfg canon))
  ]

  unfoldable pub inbox_url_from_reference : String → Result String
  unfolding resolve
  inbox_url_from_reference ref = (resolve max_inbox_resolution_steps [] ref).0
