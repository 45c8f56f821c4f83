-- ===== src/Inboxproc/Frames.antt =====
-- The invariants of follows, likes, announces and blocks under the statements that the handlers
-- run for one actor.
use activitypub_core.Common.{ℕ, ◌≡◌, String, nat_eq, Option-cases, inl, inr, arith}
use activitypub_core.Common.Exec.{Keeps}
use activitypub_core.Store.{Db}
use activitypub_core.Store.Follows.{
  upsert_follow, set_follow_state_by_follow_activity_id_for_follower,
  delete_follow_by_follow_activity_id_for_follower,
}
use activitypub_core.Store.Interactions as Interactions
use activitypub_core.Store.Interactions.{
  upsert_federated_like, upsert_federated_announce, upsert_federated_block,
  delete_federated_like_by_activity_id, delete_federated_announce_by_activity_id,
  delete_federated_block_by_activity_id, canonical_actor_url, own_edge,
}
use activitypub_core.Store.Objects.{upsert_federated_object, soft_delete_federated_object_by_url}
use activitypub_core.Queue.{enqueue}
use activitypub_core.Inboxproc.Objects.{with_owner}
use activitypub_core.Inboxproc.Follow.{answer}
use activitypub_core.Inboxproc.Closed.{IsClosed}
use activitypub_core.Inboxproc.Rest.{others_edges, edges-rest, rest-delete_where}

-- Edges of the other actors are those of `old`.
abbrev pub SameEdges : ℕ → Db → Db → Type 0
SameEdges actor old s =
    (others_edges actor s.likes ≡ others_edges actor old.likes)
    × (others_edges actor s.announces ≡ others_edges actor old.announces)
    × (others_edges actor s.blocks ≡ others_edges actor old.blocks)

module _ (actor : ℕ) (old : Db) where
  keeps_like : (url id : String) → Keeps (SameEdges actor old) (upsert_federated_like actor url id)
  unfolding upsert_federated_like
  keeps_like url id s h =
      elim (Option-cases (Interactions.upserted s.next_edge actor url id s.likes)) [
        | inl e ↦ ground (arith, e)
        | inr (after, e) ↦ ground (arith, e, edges-rest s.next_edge actor url id s.likes after e)
      ]

  keeps_announce :
      (url id : String) → Keeps (SameEdges actor old) (upsert_federated_announce actor url id)
  unfolding upsert_federated_announce
  keeps_announce url id s h =
      elim (Option-cases (Interactions.upserted s.next_edge actor url id s.announces)) [
        | inl e ↦ ground (arith, e)
        | inr (after, e) ↦
            ground (arith, e, edges-rest s.next_edge actor url id s.announces after e)
      ]

  keeps_block :
      (url id : String) → Keeps (SameEdges actor old) (upsert_federated_block actor url id)
  unfolding upsert_federated_block
  keeps_block url id s h =
      let target = canonical_actor_url url in
      elim (Option-cases (Interactions.upserted s.next_edge actor target id s.blocks)) [
        | inl e ↦ ground (arith, e)
        | inr (after, e) ↦
            ground (arith, e, edges-rest s.next_edge actor target id s.blocks after e)
      ]

  pub SameEdges-IsClosed : IsClosed (SameEdges actor old) actor
  unfolding upsert_follow set_follow_state_by_follow_activity_id_for_follower answer enqueue
      delete_follow_by_follow_activity_id_for_follower delete_federated_like_by_activity_id
      delete_federated_announce_by_activity_id delete_federated_block_by_activity_id with_owner
      upsert_federated_object soft_delete_federated_object_by_url
  SameEdges-IsClosed = record {
    follow = λ _ _ s h. ground arith;
    accept_own = λ _ _ h. h;
    answered = λ _ _ _ _ h. ground arith;
    queued = λ _ _ _ h. ground arith;
    undo_follow = λ _ _ h. h;
    undo_like = λ id s h. ground (
      arith,
      rest-delete_where (λ r. nat_eq r.actor_id actor) (own_edge id actor) s.likes
          (λ r t. grind arith),
    );
    undo_announce = λ id s h. ground (
      arith,
      rest-delete_where (λ r. nat_eq r.actor_id actor) (own_edge id actor) s.announces
          (λ r t. grind arith),
    );
    undo_block = λ id s h. ground (
      arith,
      rest-delete_where (λ r. nat_eq r.actor_id actor) (own_edge id actor) s.blocks
          (λ r t. grind arith),
    );
    like = keeps_like;
    announce = keeps_announce;
    block = keeps_block;
    update = λ _ _ _ _ _ h. ground arith;
    delete = λ _ _ _ h. ground arith;
  }
