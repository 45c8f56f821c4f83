-- ===== src/Inboxproc/Isolation.antt =====
-- An inbox activity changes only rows of its own actor.
use activitypub_core.Common.{
  ℕ, ◌≡◌, ◌==◌, ap, refl, String, false, Option, some, Option-cases, inl, inr, arith,
}
use activitypub_core.Common.Text.{to_lower}
use activitypub_core.Common.Exec.{ok, Keeps}
use activitypub_core.Json.{Json, Fields, as_object}
use activitypub_core.Config.{Config}
use activitypub_core.Store.{ActivityRow, Db}
use activitypub_core.Store.Activities.{get_activity_by_id}
use activitypub_core.Store.Objects.{upsert_federated_object}
use activitypub_core.Fetch.Policy.{Policy}
use activitypub_core.Fetch.Client.{Client}
use activitypub_core.Inboxproc.Process.{
  or_config_policy, effective_type, dispatch, process_row, process_inbox_activity,
  augment_local_usernames_from_db,
}
use activitypub_core.Inboxproc.Closed.{IsClosed, keeps_dispatch, keeps_create}
use activitypub_core.Store.{DistinctBy}
use activitypub_core.Store.FollowLaws.{IsUniqueFollows}
use activitypub_core.Inboxproc.Rest.{others_edges, others_follows}
use activitypub_core.Inboxproc.Frames.{SameEdges, SameEdges-IsClosed}
use activitypub_core.Inboxproc.FollowFrame.{SameFollows, SameFollows-IsClosed}
use activitypub_core.Inboxproc.ObjectFrame.{
  url_of, others_objects, SameObjects, SameObjects-IsClosed,
}

-- The creation of objects does not concern follows and edges.
object_keeps_follows :
    (actor : ℕ) (old : Db) (url : String) (owner : ℕ) (typ : String) (raw : Json)
    → Keeps (SameFollows actor old) (upsert_federated_object url owner typ raw)
unfolding upsert_federated_object
object_keeps_follows actor old url owner typ raw s h = ground arith

object_keeps_edges :
    (actor : ℕ) (old : Db) (url : String) (owner : ℕ) (typ : String) (raw : Json)
    → Keeps (SameEdges actor old) (upsert_federated_object url owner typ raw)
unfolding upsert_federated_object
object_keeps_edges actor old url owner typ raw s h = ground arith

module _ (now : ℕ) (cfg : Config) (client : Client) (policy : Option Policy)
    (row : ActivityRow) where
  row_keeps :
      (P : Db → Type 0)
      → IsClosed P row.actor_id
      → ((fields : Fields)
          → as_object row.raw_json ≡ some fields
          → Keeps P (
              dispatch now cfg client
                (or_config_policy policy cfg)
                (to_lower (effective_type row fields))
                row
                fields))
      → Keeps P (process_row now cfg client policy row)
  unfolding process_row
  row_keeps P closed run s h = elim (Option-cases (as_object row.raw_json)) [
    | inl e ↦ ground (arith, e, h)
    | inr (fields, e) ↦ ground (arith, e, h, run fields e s h)
  ]

  create_keeps :
      (P : Db → Type 0)
      → IsClosed P row.actor_id
      → ((url typ : String) (raw : Json)
          → Keeps P (upsert_federated_object url row.actor_id typ raw))
      → Keeps P (process_row now cfg client policy row)
  create_keeps P closed store = row_keeps P closed (λ fields _.
      keeps_dispatch P row closed now cfg client (or_config_policy policy cfg)
        (to_lower (effective_type row fields)) fields
        (λ _.
          keeps_create P row closed cfg fields (some client) (or_config_policy policy cfg) store))

-- Where the follows satisfy their two unique constraints, a stored activity that is processed,
-- whatever its type, changes no follow in which its actor is neither follower nor followee, and
-- the constraints still hold.
pub process_inbox_activity-others_follows :
    (now : ℕ) (cfg : Config) (client : Client) (policy : Option Policy) (id : ℕ) (row : ActivityRow)
    (s : Db)
    → get_activity_by_id id s ≡ (ok row, s)
    → IsUniqueFollows s.follows
    → let t : Db = (process_inbox_activity now cfg client policy id s).1 in
      IsUniqueFollows t.follows
      × (others_follows row.actor_id t.follows ≡ others_follows row.actor_id s.follows)
unfolding process_inbox_activity
process_inbox_activity-others_follows now cfg client policy id row s e u =
    let kept =
      create_keeps now (augment_local_usernames_from_db cfg s) client policy row
        (SameFollows row.actor_id s) (SameFollows-IsClosed row.actor_id s)
        (λ url typ raw. object_keeps_follows row.actor_id s url row.actor_id typ raw) s (u, refl) in
    rw e kept

-- Whatever its type, a stored activity that is processed changes no like, announce or block of
-- another actor.
pub process_inbox_activity-others_edges :
    (now : ℕ) (cfg : Config) (client : Client) (policy : Option Policy) (id : ℕ) (row : ActivityRow)
    (s : Db)
    → get_activity_by_id id s ≡ (ok row, s)
    → let t : Db = (process_inbox_activity now cfg client policy id s).1 in
      (others_edges row.actor_id t.likes ≡ others_edges row.actor_id s.likes)
      × (others_edges row.actor_id t.announces ≡ others_edges row.actor_id s.announces)
      × (others_edges row.actor_id t.blocks ≡ others_edges row.actor_id s.blocks)
unfolding process_inbox_activity
process_inbox_activity-others_edges now cfg client policy id row s e =
    let kept =
      create_keeps now (augment_local_usernames_from_db cfg s) client policy row
        (SameEdges row.actor_id s) (SameEdges-IsClosed row.actor_id s)
        (λ url typ raw. object_keeps_edges row.actor_id s url row.actor_id typ raw) s
        (refl, refl, refl) in
    rw e kept

-- Where object URLs are unique, a stored activity that is processed and is no Create changes no
-- live object of another actor, and object URLs stay unique.
pub process_inbox_activity-others_objects :
    (now : ℕ) (cfg : Config) (client : Client) (policy : Option Policy) (id : ℕ) (row : ActivityRow)
    (fields : Fields) (s : Db)
    → get_activity_by_id id s ≡ (ok row, s)
    → as_object row.raw_json ≡ some fields
    → (to_lower (effective_type row fields) == "create") ≡ false
    → DistinctBy url_of s.objects
    → let t : Db = (process_inbox_activity now cfg client policy id s).1 in
      DistinctBy url_of t.objects
      × (others_objects row.actor_id t.objects ≡ others_objects row.actor_id s.objects)
unfolding process_inbox_activity
process_inbox_activity-others_objects now cfg client policy id row fields s e f other d =
    let own_cfg = augment_local_usernames_from_db cfg s in
    let closed = SameObjects-IsClosed row.actor_id s in
    let kept =
      row_keeps now own_cfg client policy row (SameObjects row.actor_id s) closed
        (λ m g.
          let same : m ≡ fields = ground (arith, f, g) in
          let key = ap (λ x. to_lower (effective_type row x) == "create") same in
          keeps_dispatch (SameObjects row.actor_id s) row closed now own_cfg client
            (or_config_policy policy own_cfg) (to_lower (effective_type row m)) m
            (λ t. absurd (ground (arith, t, key, other))))
        s (d, refl) in
    rw e kept
