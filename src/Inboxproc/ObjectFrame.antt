-- ===== src/Inboxproc/ObjectFrame.antt =====
-- The live objects of other actors, under the statements that the handlers run for one actor.
use activitypub_core.Common.{
  ℕ, ◌≡◌, ◌≢◌, refl, sym, ◌∙◌, ap, String, Bool, true, false, ◌||◌, none, some, List, [], ◌∷◌, ◌==◌,
  eq_iff, nat_eq, Bool-cases, Option-cases, inl, inr, arith, any_where, find_where, delete_where,
  All,
}
use activitypub_core.Common.Exec.{Exec, Keeps, pure}
use activitypub_core.Json.{Json}
use activitypub_core.Store.{
  ObjectRow, Db, All-mono, AtMostOne, AtMostOne-of_DistinctBy, DistinctBy, DistinctBy-update_where,
  DistinctBy-concat, All-of_any_where,
}
use activitypub_core.Store.Follows.{
  upsert_follow, set_follow_state_by_follow_activity_id_for_follower,
  delete_follow_by_follow_activity_id_for_follower,
}
use activitypub_core.Store.Interactions.{
  upsert_federated_like, upsert_federated_announce, upsert_federated_block,
  delete_federated_like_by_activity_id, delete_federated_announce_by_activity_id,
  delete_federated_block_by_activity_id,
}
use activitypub_core.Store.Objects.{
  same_object, live_object, typ_or_object, new_object, put_object, upsert_federated_object,
  soft_delete_federated_object_by_url, object_owner_actor_id, object_owner,
}
use activitypub_core.Queue.{enqueue}
use activitypub_core.Inboxproc.Objects.{with_owner}
use activitypub_core.Inboxproc.Follow.{answer}
use activitypub_core.Inboxproc.Closed.{IsClosed}
use activitypub_core.Inboxproc.Rest.{rest-update_where-All, rest-append}

-- Deleted, or the actor's own.
abbrev pub is_hidden : ℕ → ObjectRow → Bool
is_hidden actor r = r.deleted || nat_eq r.actor_id actor

abbrev pub others_objects : ℕ → List ObjectRow → List ObjectRow
others_objects actor rows = delete_where (is_hidden actor) rows

abbrev pub url_of : ObjectRow → String
url_of r = r.object_url

-- UNIQUE (object_url) holds, and the live objects of the other actors are those of `old`.
abbrev pub SameObjects : ℕ → Db → Db → Type 0
SameObjects actor old s =
    DistinctBy url_of s.objects
    × (others_objects actor s.objects ≡ others_objects actor old.objects)

-- Every row with the URL is hidden.
abbrev Free : ℕ → String → List ObjectRow → Type 0
Free actor url rows = All (λ x. same_object url x ≡ true → is_hidden actor x ≡ true) rows

Free-of_none :
    (actor : ℕ) (url : String) (rows : List ObjectRow)
    → find_where (live_object url) rows ≡ none
    → Free actor url rows
Free-of_none actor url [] e = tt
Free-of_none actor url (x ∷ xs) e =
    (λ t. ground (arith, e, t), Free-of_none actor url xs (ground (arith, e)))

Free-of_own :
    (actor : ℕ) (url : String) (rows : List ObjectRow) (found : ObjectRow)
    → AtMostOne (same_object url) rows
    → find_where (live_object url) rows ≡ some found
    → nat_eq found.actor_id actor ≡ true
    → Free actor url rows
Free-of_own actor url [] found one e own = tt
Free-of_own actor url (x ∷ xs) found (single, one) e own = elim (Bool-cases (same_object url x)) [
  | inr t ↦
      (λ u. ground (arith, t, u), Free-of_own actor url xs found one (ground (arith, e, t)) own)
  | inl t ↦ elim (Bool-cases (live_object url x)) [
    | inl live ↦ (
      λ _.
          let only : x ≡ found = ground (arith, e, live) in
          ground (arith, ap (λ r. nat_eq r.actor_id actor) only ∙ own),
      All-mono (λ y. same_object url y ≡ false)
          (λ y. same_object url y ≡ true → is_hidden actor y ≡ true) xs
          (λ y f u. ground (arith, f, u)) (single t),
    )
    | inr dead ↦ (
      λ _. ground (arith, t, dead),
      All-mono (λ y. same_object url y ≡ false)
          (λ y. same_object url y ≡ true → is_hidden actor y ≡ true) xs
          (λ y f u. ground (arith, f, u)) (single t),
    )
  ]
]

put_object-rest :
    (actor : ℕ) (r : ObjectRow) (rows : List ObjectRow)
    → is_hidden actor r ≡ true
    → Free actor r.object_url rows
    → others_objects actor (put_object r rows) ≡ others_objects actor rows
unfolding put_object
put_object-rest actor r rows own free =
    elim (Bool-cases (any_where (same_object r.object_url) rows)) [
      | inl t ↦
          rw (put_object, t)
            (rest-update_where-All (is_hidden actor) (same_object r.object_url) (λ _. r) rows
              (All-mono (λ x. same_object r.object_url x ≡ true → is_hidden actor x ≡ true)
                (λ x.
                  same_object r.object_url x ≡ true
                  → (is_hidden actor x ≡ true) × (is_hidden actor r ≡ true))
                rows (λ x k u. (k u, own)) free))
      | inr t ↦ rw (put_object, t) (rest-append (is_hidden actor) rows r own)
    ]

put_object-DistinctBy :
    (r : ObjectRow) (rows : List ObjectRow)
    → DistinctBy url_of rows
    → DistinctBy url_of (put_object r rows)
unfolding put_object
put_object-DistinctBy r rows d = elim (Bool-cases (any_where (same_object r.object_url) rows)) [
  | inl t ↦
      rw (put_object, t)
        (DistinctBy-update_where url_of (same_object r.object_url) (λ _. r) rows
          (λ x u. sym ((eq_iff x.object_url r.object_url).0 u)) d)
  | inr t ↦
      rw (put_object, t)
        (DistinctBy-concat url_of rows r
          (All-mono (λ x. same_object r.object_url x ≡ false) (λ x. x.object_url ≢ r.object_url)
            rows (λ x f q. ground (arith, f, (eq_iff x.object_url r.object_url).1 q))
            (All-of_any_where (same_object r.object_url) rows t))
          d)
]

module _ (actor : ℕ) (old : Db) where
  keeps_put :
      (url typ : String) (raw : Json) (s : Db)
      → Free actor url s.objects
      → SameObjects actor old s
      → SameObjects actor old ((upsert_federated_object url actor typ raw s).1)
  unfolding upsert_federated_object
  keeps_put url typ raw s free (d, h) =
      let r = new_object url actor (typ_or_object typ) raw in
      elim (Bool-cases (url == "")) [
        | inl t ↦ rw (upsert_federated_object, t) (d, h)
        | inr t ↦
            rw (upsert_federated_object, t)
              (
                put_object-DistinctBy r s.objects d,
                put_object-rest actor r s.objects (ground arith) free ∙ h,
              )
      ]

  keeps_soft_delete :
      (url : String) (s : Db)
      → Free actor url s.objects
      → SameObjects actor old s
      → SameObjects actor old ((soft_delete_federated_object_by_url url s).1)
  unfolding soft_delete_federated_object_by_url
  keeps_soft_delete url s free (d, h) = elim (Bool-cases (url == "")) [
    | inl t ↦ rw (soft_delete_federated_object_by_url, t) (d, h)
    | inr t ↦
        rw (soft_delete_federated_object_by_url, t)
          (
            DistinctBy-update_where url_of (live_object url) (λ r. record r { deleted = true })
                s.objects (λ _ _. refl) d,
            rest-update_where-All (is_hidden actor) (live_object url)
                  (λ r. record r { deleted = true }) s.objects
                  (All-mono (λ x. same_object url x ≡ true → is_hidden actor x ≡ true)
                    (λ x. live_object url x ≡ true → (is_hidden actor x ≡ true) × (true ≡ true))
                    s.objects (λ x k u. (k (ground (arith, u)), refl)) free)
                ∙ h,
          )
  ]

  -- Behind the check of the owner, a statement runs only where no other actor's live row has the
  -- URL.
  keeps_with_owner :
      (url message : String) (absent own : Exec Db (Unit {0}))
      → ((s : Db)
          → Free actor url s.objects
          → SameObjects actor old s
          → SameObjects actor old ((absent s).1))
      → ((s : Db)
          → Free actor url s.objects
          → SameObjects actor old s
          → SameObjects actor old ((own s).1))
      → Keeps (SameObjects actor old) (with_owner url actor absent own message)
  unfolding with_owner object_owner_actor_id object_owner
  keeps_with_owner url message absent own ka ko s (d, h) =
      elim (Option-cases (find_where (live_object url) s.objects)) [
        | inl e ↦
            rw (with_owner, object_owner_actor_id, object_owner, e)
              (ka s (Free-of_none actor url s.objects e) (d, h))
        | inr (r, e) ↦ elim (Bool-cases (nat_eq r.actor_id actor)) [
          | inr other ↦ rw (with_owner, object_owner_actor_id, object_owner, e, other) (d, h)
          | inl mine ↦
              let one =
                AtMostOne-of_DistinctBy url_of (same_object url) url s.objects
                  (λ x. (eq_iff x.object_url url).0) d in
              rw (with_owner, object_owner_actor_id, object_owner, e, mine)
                (ko s (Free-of_own actor url s.objects r one e mine) (d, h))
        ]
      ]

  pub SameObjects-IsClosed : IsClosed (SameObjects actor old) actor
  unfolding upsert_follow set_follow_state_by_follow_activity_id_for_follower answer enqueue
      delete_follow_by_follow_activity_id_for_follower delete_federated_like_by_activity_id
      delete_federated_announce_by_activity_id delete_federated_block_by_activity_id
      upsert_federated_like upsert_federated_announce upsert_federated_block
  SameObjects-IsClosed = record {
    follow = λ _ _ s h. ground arith;
    accept_own = λ _ _ h. h;
    answered = λ _ _ _ _ h. ground arith;
    queued = λ _ _ _ h. ground arith;
    undo_follow = λ _ _ h. h;
    undo_like = λ _ _ h. h;
    undo_announce = λ _ _ h. h;
    undo_block = λ _ _ h. h;
    like = λ _ _ _ h. ground arith;
    announce = λ _ _ _ h. ground arith;
    block = λ _ _ _ h. ground arith;
    update = λ url typ message raw.
        keeps_with_owner url message (upsert_federated_object url actor typ raw)
          (upsert_federated_object url actor typ raw) (keeps_put url typ raw)
          (keeps_put url typ raw);
    delete = λ url message.
        keeps_with_owner url message (pure tt) (soft_delete_federated_object_by_url url)
          (λ s _ h. h) (keeps_soft_delete url);
  }
