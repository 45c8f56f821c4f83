-- ===== src/Aphttp/OutboxLaws.antt =====
-- What a post to the outbox enqueues, and what it leaves when it fails.
use activitypub_core.Common.{
  ◌≡◌, ◌≢◌, refl, subst, sym, ◌∙◌, inl, inr, ℕ, ◌+◌, String, false, ◌||◌, Option, some, List, [],
  ◌∷◌, ◌++◌, map, ◌==◌, eq_iff, arith, any_where, All, Bool-cases,
}
use activitypub_core.Common.Text.{trim_right_slash}
use activitypub_core.Common.Exec.{Exec, Error, ok, err, Result-cases}
use activitypub_core.Json.{Json, Raw, Fields}
use activitypub_core.Config.{
  Config, listed, local_shared_inbox_url, is_local_actor_followers_or_following_collection_iri,
}
use activitypub_core.Store.{JobRow, Db, DistinctBy, All-mono}
use activitypub_core.Queue.{Job, new_job, has_key, enqueue}
use activitypub_core.Fetch.Client.{Client}
use activitypub_core.Fetch.Policy.{Policy}
use activitypub_core.Fetch.Inbox.{inbox_url_from_reference}
use activitypub_core.Httpsig.Request.{Request}
use activitypub_core.Httpsig.Sign.{Platform}
use activitypub_core.Aphttp.Fields.{json_string_field, activity_type_string, Handler, Codec}
use activitypub_core.Aphttp.Inbox.{rollback}
use activitypub_core.Aphttp.Audience.{
  append_follower_cc_for_public_posts, delivery_inboxes, resolve_delivery_inboxes, audience_entries,
  skip_audience_entry,
}
use activitypub_core.Aphttp.Outbox.{
  checked_fields, marshal, deliver_job, enqueue_deliveries, transaction, insert_and_publish,
  persist_outbox_and_enqueue, deliver_fields, post_activity, post_outbox,
}

abbrev local_inbox : Config → String
local_inbox cfg = trim_right_slash (local_shared_inbox_url cfg)

-- An inbox that was not taken and is not that of this instance.
abbrev IsNew : Config → List String → String → Type 0
IsNew cfg seen n = (listed n seen ≡ false) × ((n == local_inbox cfg) ≡ false)

abbrev pub IsTargets : Config → List String → Type 0
IsTargets cfg ns = DistinctBy (λ (n : String). n) ns × All (λ n. (n == local_inbox cfg) ≡ false) ns

listed_tail :
    (n x : String) (seen : List String)
    → listed x (n ∷ seen) ≡ false
    → (n ≢ x) × (listed x seen ≡ false)
unfolding listed
listed_tail n x seen e = (λ q. ground (arith, e, (eq_iff n x).1 q), ground (arith, e))

ok_injective {ℓ} : {A : Type ℓ} {a b : A} → ok a ≡ ok b → a ≡ b
ok_injective e = cc

module _ (client : Client) (policy : Option Policy) (cfg : Config) where
  delivery_inboxes-IsNew :
      (seen es ns : List String)
      → delivery_inboxes client policy cfg seen es ≡ ok ns
      → DistinctBy (λ (n : String). n) ns × All (IsNew cfg seen) ns
  unfolding delivery_inboxes
  delivery_inboxes-IsNew seen [] ns e = rw (← ok_injective e) (tt, tt)
  delivery_inboxes-IsNew seen (x ∷ es) ns e =
      elim (Bool-cases
        (skip_audience_entry x || is_local_actor_followers_or_following_collection_iri cfg x)) [
          | inl skipped ↦ delivery_inboxes-IsNew seen es ns (ground (arith, e, skipped))
          | inr kept ↦ elim (Result-cases (inbox_url_from_reference client policy (some cfg) x)) [
            | inr (y, bad) ↦ absurd (ground (arith, e, kept, bad))
            | inl (inbox, found) ↦
                let n = trim_right_slash inbox in
                elim (Bool-cases (n == local_inbox cfg || listed n seen)) [
                  | inl old ↦
                      delivery_inboxes-IsNew seen es ns (ground (arith, e, kept, found, old))
                  | inr new ↦
                      elim (Result-cases (delivery_inboxes client policy cfg (n ∷ seen) es)) [
                        | inr (y, bad) ↦ absurd (ground (arith, e, kept, found, new, bad))
                        | inl (rest, more) ↦
                            let same : n ∷ rest ≡ ns = ground (arith, e, kept, found, new, more) in
                            let (distinct, others) =
                              delivery_inboxes-IsNew (n ∷ seen) es rest more in
                            rw (← same) (
                              (
                                All-mono (IsNew cfg (n ∷ seen)) (λ y. n ≢ y) rest
                                    (λ y h. (listed_tail n y seen h.0).0) others,
                                distinct,
                              ),
                              (
                                (ground (arith, new), ground (arith, new)),
                                All-mono (IsNew cfg (n ∷ seen)) (IsNew cfg seen) rest
                                    (λ y h. ((listed_tail n y seen h.0).1, h.1)) others,
                              ),
                            )
                      ]
                ]
          ]
        ]

  -- Where all recipients resolve, the inboxes are pairwise different, and none is the shared inbox
  -- of this instance.
  pub resolve_delivery_inboxes-IsTargets :
      (m : Fields) (ns : List String)
      → resolve_delivery_inboxes client policy cfg m ≡ ok ns
      → IsTargets cfg ns
  unfolding resolve_delivery_inboxes
  resolve_delivery_inboxes-IsTargets m ns e =
      let (distinct, new) = delivery_inboxes-IsNew [] (audience_entries m) ns e in
      (distinct, All-mono (IsNew cfg []) (λ n. (n == local_inbox cfg) ≡ false) ns (λ n h. h.1) new)

abbrev pub job_rows : ℕ → ℕ → List Job → List JobRow
job_rows id now [] = []
job_rows id now (j ∷ js) = new_job id now j ∷ job_rows (id + 1) now js

append_empty {ℓ} : {A : Type ℓ} (xs : List A) → xs ++ [] ≡ xs
append_empty [] = refl
append_empty (x ∷ xs) = rw (append_empty xs) refl

append_one {ℓ} :
    {A : Type ℓ} (xs : List A) (y : A) (ys : List A) → (xs ++ y ∷ []) ++ ys ≡ xs ++ y ∷ ys
append_one [] y ys = refl
append_one (x ∷ xs) y ys = rw (append_one xs y ys) refl

-- Where all deliveries are enqueued, the new jobs are one for each inbox, in their order.
pub enqueue_deliveries-jobs :
    (now : ℕ) (username activity_id : String) (body : Json) (inboxes : List String) (s t : Db)
    → enqueue_deliveries now username activity_id body inboxes s ≡ (ok tt, t)
    → t.jobs
      ≡ s.jobs ++ job_rows s.next_job now (map (deliver_job username activity_id body) inboxes)
unfolding enqueue_deliveries enqueue
enqueue_deliveries-jobs now username activity_id body [] s t e =
    ground (arith, e, append_empty s.jobs)
enqueue_deliveries-jobs now username activity_id body (inbox ∷ inboxes) s t e =
    let job = deliver_job username activity_id body inbox in
    elim (Bool-cases (any_where (has_key job.idempotency_key) s.jobs)) [
      | inl taken ↦ absurd (ground (arith, e, taken))
      | inr free ↦
          let row = new_job s.next_job now job in
          let u : Db = record s { next_job = s.next_job + 1; jobs = s.jobs ++ row ∷ [] } in
          let rest =
            enqueue_deliveries-jobs now username activity_id body inboxes u t
              (ground (arith, e, free)) in
          rest
          ∙ append_one s.jobs row
              (job_rows (s.next_job + 1) now (map (deliver_job username activity_id body) inboxes))
    ]

transaction-rollback :
    {A : Type 0} (m : Exec Db A) (s : Db) (e : Error)
    → (transaction m s).0 ≡ err e
    → (transaction m s).1 ≡ rollback s (transaction m s).1
transaction-rollback m s e q = elim (Result-cases (m s).0) [
  | inl (a, good) ↦ absurd (ground (arith, q, good))
  | inr (x, bad) ↦ rw (transaction, bad) refl
]

persist-rollback :
    (now : ℕ) (cfg : Config) (username : String) (actor : ℕ) (body : Json) (m : Fields)
    (inboxes : List String) (s : Db) (e : Error)
    → (persist_outbox_and_enqueue now cfg username actor body m inboxes s).0 ≡ err e
    → (persist_outbox_and_enqueue now cfg username actor body m inboxes s).1
      ≡ rollback s (persist_outbox_and_enqueue now cfg username actor body m inboxes s).1
unfolding persist_outbox_and_enqueue
persist-rollback now cfg username actor body m inboxes s e q =
    elim (Result-cases (json_string_field m "id")) [
      | inr (x, bad) ↦ rw (persist_outbox_and_enqueue, bad) refl
      | inl (id, named) ↦ elim (Result-cases (activity_type_string m)) [
        | inr (x, bad) ↦ rw (persist_outbox_and_enqueue, named, bad) refl
        | inl (typ, typed) ↦
            let run =
              transaction (insert_and_publish now cfg username actor id typ body m inboxes) s in
            let same : persist_outbox_and_enqueue now cfg username actor body m inboxes s ≡ run =
              rw (persist_outbox_and_enqueue, named, typed) refl in
            subst (λ o. o.1 ≡ rollback s o.1) (sym same)
              (transaction-rollback
                (insert_and_publish now cfg username actor id typ body m inboxes) s e
                (ground (arith, same, q)))
      ]
    ]

module _ (p : Platform) (codec : Codec p) (h : Handler) where
  deliver_fields-rollback :
      (now : ℕ) (username : String) (actor : ℕ) (m : Fields) (s : Db) (e : Error)
      → (deliver_fields p codec h now username actor m s).0 ≡ err e
      → (deliver_fields p codec h now username actor m s).1
        ≡ rollback s (deliver_fields p codec h now username actor m s).1
  unfolding deliver_fields
  deliver_fields-rollback now username actor m s e q =
      let m' = append_follower_cc_for_public_posts actor m s in
      elim (Result-cases (resolve_delivery_inboxes h.fetch_client h.fetch_policy h.cfg m')) [
        | inr (x, bad) ↦ rw (deliver_fields, bad) refl
        | inl (inboxes, found) ↦
            rw (deliver_fields, found)
              (persist-rollback now h.cfg username actor (marshal m') m' inboxes s e
                (ground (arith, q, found)))
      ]

  post_activity-rollback :
      (now : ℕ) (username : String) (actor : ℕ) (raw : Raw) (s : Db)
      → (post_activity p codec h now username actor raw s).0.status ≢ 202
      → (post_activity p codec h now username actor raw s).1
        ≡ rollback s (post_activity p codec h now username actor raw s).1
  unfolding post_activity
  post_activity-rollback now username actor raw s n =
      elim (Result-cases (checked_fields h.cfg username raw)) [
        | inr (x, bad) ↦ rw (post_activity, bad) refl
        | inl (m, good) ↦ elim (Result-cases (deliver_fields p codec h now username actor m s).0) [
          | inl (u, done) ↦ absurd (ground (arith, n, good, done))
          | inr (x, failed) ↦
              rw (post_activity, good) (deliver_fields-rollback now username actor m s x failed)
        ]
      ]

  -- An answer of the outbox other than 202 leaves every table as it was; only serials are drawn.
  pub post_outbox-rollback :
      (now : ℕ) (handle : String) (r : Request) (body : Option String) (s : Db)
      → (post_outbox p codec h now handle r body s).0.status ≢ 202
      → (post_outbox p codec h now handle r body s).1
        ≡ rollback s (post_outbox p codec h now handle r body s).1
  unfolding post_outbox
  post_outbox-rollback now handle r body s n = grind (arith, n, post_activity-rollback)
