-- ===== src/Inboxproc/FollowFrame.antt =====
-- The follows that an actor has no part in, under the statements that the handlers run for it.
use activitypub_core.Common.{
  ℕ, ◌≡◌, refl, ◌∙◌, String, true, some, List, eq_iff, nat_eq, Bool-cases, Option-cases, inl, inr,
  arith, ap, find_where, update_where, delete_where,
}
use activitypub_core.Common.Exec.{Keeps}
use activitypub_core.Store.{
  FollowRow, FollowState, pending, accepted, Db, All-mono, find_where-AtMostOne,
  AtMostOne-of_DistinctBy, DistinctBy-delete_where, DistinctBy-update_where,
}
use activitypub_core.Store.Follows.{
  upsert_follow, upserted, same_follow_activity, own_follow, set_state, follow_by_activity_id,
  set_follow_state_by_follow_activity_id_for_follower,
  delete_follow_by_follow_activity_id_for_follower,
}
use activitypub_core.Store.FollowLaws.{
  IsUniqueFollows, pair_of, activity_of, upsert_follow-IsUniqueFollows,
}
use activitypub_core.Store.Interactions.{
  upsert_federated_like, upsert_federated_announce, upsert_federated_block,
  delete_federated_like_by_activity_id, delete_federated_announce_by_activity_id,
  delete_federated_block_by_activity_id,
}
use activitypub_core.Store.Objects.{upsert_federated_object, soft_delete_federated_object_by_url}
use activitypub_core.Queue.{enqueue}
use activitypub_core.Inboxproc.Objects.{with_owner}
use activitypub_core.Inboxproc.Follow.{answer}
use activitypub_core.Inboxproc.Closed.{IsClosed}
use activitypub_core.Inboxproc.Rest.{
  is_party, others_follows, follows-rest, rest-update_where, rest-update_where-All,
  rest-delete_where,
}

-- The follows keep their constraints, and those that the actor has no part in are those of `old`.
abbrev pub SameFollows : ℕ → Db → Db → Type 0
SameFollows actor old s =
    IsUniqueFollows s.follows × (others_follows actor s.follows ≡ others_follows actor old.follows)

own_follow-same :
    (id : String) (k : ℕ) (r : FollowRow)
    → own_follow id k r ≡ true
    → same_follow_activity id r ≡ true
own_follow-same id k r t = ground arith

set_state-IsUniqueFollows :
    (id : String) (k : ℕ) (state : FollowState) (rows : List FollowRow)
    → IsUniqueFollows rows
    → IsUniqueFollows (update_where (own_follow id k) (set_state state) rows)
set_state-IsUniqueFollows id k state rows u = record {
  by_key =
      DistinctBy-update_where pair_of (own_follow id k) (set_state state) rows (λ _ _. refl)
        u.by_key;
  by_other =
      DistinctBy-update_where activity_of (own_follow id k) (set_state state) rows (λ _ _. refl)
        u.by_other;
}

delete-IsUniqueFollows :
    (id : String) (k : ℕ) (rows : List FollowRow)
    → IsUniqueFollows rows
    → IsUniqueFollows (delete_where (own_follow id k) rows)
delete-IsUniqueFollows id k rows u = record {
  by_key = DistinctBy-delete_where pair_of (own_follow id k) rows u.by_key;
  by_other = DistinctBy-delete_where activity_of (own_follow id k) rows u.by_other;
}

-- The rows that an answer changes have the actor for their followee.
answered-rest :
    (actor : ℕ) (id : String) (state : FollowState) (rows : List FollowRow) (found : FollowRow)
    → IsUniqueFollows rows
    → follow_by_activity_id id rows ≡ some found
    → nat_eq found.followee_actor_id actor ≡ true
    → others_follows actor
        (update_where (own_follow id found.follower_actor_id) (set_state state) rows)
      ≡ others_follows actor rows
unfolding follow_by_activity_id
answered-rest actor id state rows found u e own =
    let p = own_follow id found.follower_actor_id in
    let one =
      AtMostOne-of_DistinctBy activity_of (same_follow_activity id) id rows
        (λ r. (eq_iff r.follow_activity_id id).0) u.by_other in
    rest-update_where-All (is_party actor) p (set_state state) rows (
      All-mono (λ r. same_follow_activity id r ≡ true → r ≡ found)
        (λ r. p r ≡ true → (is_party actor r ≡ true) × (is_party actor (set_state state r) ≡ true))
        rows
        (λ r only t.
          let same = only (own_follow-same id found.follower_actor_id r t) in
          let to_actor : nat_eq r.followee_actor_id actor ≡ true =
            ap (λ x. nat_eq x.followee_actor_id actor) same ∙ own in
          ground (arith, to_actor))
        (find_where-AtMostOne (same_follow_activity id) rows found one e))

module _ (actor : ℕ) (old : Db) where
  keeps_upsert_follow :
      (followee : ℕ) (id : String) (state : FollowState)
      → Keeps (SameFollows actor old) (upsert_follow actor followee id state)
  unfolding upsert_follow
  keeps_upsert_follow followee id state s (u, h) =
      let unique = upsert_follow-IsUniqueFollows actor followee id state s u in
      (
        unique,
        elim (Option-cases (upserted actor followee id state s.follows)) [
          | inl e ↦ ground (arith, e, h)
          | inr (after, e) ↦
              ground (arith, e, h, follows-rest actor followee id state s.follows after e)
        ],
      )

  keeps_set_state :
      (id : String) (state : FollowState)
      → Keeps
          (SameFollows actor old)
          (set_follow_state_by_follow_activity_id_for_follower id state actor)
  unfolding set_follow_state_by_follow_activity_id_for_follower
  keeps_set_state id state s (u, h) = (
    set_state-IsUniqueFollows id actor state s.follows u,
    rest-update_where (is_party actor) (own_follow id actor) (set_state state) s.follows
          (λ r t. grind arith)
        ∙ h,
  )

  keeps_undo_follow :
      (id : String)
      → Keeps (SameFollows actor old) (delete_follow_by_follow_activity_id_for_follower id actor)
  unfolding delete_follow_by_follow_activity_id_for_follower
  keeps_undo_follow id s (u, h) = (
    delete-IsUniqueFollows id actor s.follows u,
    rest-delete_where (is_party actor) (own_follow id actor) s.follows (λ r t. grind arith) ∙ h,
  )

  keeps_answer :
      (state : FollowState) (message target : String)
      → Keeps (SameFollows actor old) (answer state message actor target)
  unfolding answer follow_by_activity_id
  keeps_answer state message target s (u, h) =
      elim (Option-cases (find_where (same_follow_activity target) s.follows)) [
        | inl e ↦ rw (answer, e) (u, h)
        | inr (f, e) ↦ elim (Bool-cases (nat_eq f.followee_actor_id actor)) [
          | inr other ↦ rw (answer, e, other) (u, h)
          | inl own ↦
              rw (answer, e, own)
                (
                  set_state-IsUniqueFollows target f.follower_actor_id state s.follows u,
                  answered-rest actor target state s.follows f u e own ∙ h,
                )
        ]
      ]

  pub SameFollows-IsClosed : IsClosed (SameFollows actor old) actor
  unfolding upsert_federated_like upsert_federated_announce upsert_federated_block enqueue
      delete_federated_like_by_activity_id delete_federated_announce_by_activity_id
      delete_federated_block_by_activity_id with_owner upsert_federated_object
      soft_delete_federated_object_by_url
  SameFollows-IsClosed = record {
    follow = λ followee id. keeps_upsert_follow followee id pending;
    accept_own = λ id. keeps_set_state id accepted;
    answered = keeps_answer;
    queued = λ _ _ _ h. ground arith;
    undo_follow = keeps_undo_follow;
    undo_like = λ _ _ h. h;
    undo_announce = λ _ _ h. h;
    undo_block = λ _ _ h. h;
    like = λ _ _ _ h. ground arith;
    announce = λ _ _ _ h. ground arith;
    block = λ _ _ _ h. ground arith;
    update = λ _ _ _ _ _ h. ground arith;
    delete = λ _ _ _ h. ground arith;
  }
