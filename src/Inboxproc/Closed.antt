-- ===== src/Inboxproc/Closed.antt =====
-- What an invariant of the database needs to survive the processing of an inbox activity: one
-- condition for each statement that a handler runs, in the form in which the handler runs it.
use activitypub_core.Common.{
  ℕ, ◌≡◌, String, true, Option, some, ◌==◌, Bool-cases, Option-cases, inl, inr, arith,
}
use activitypub_core.Common.Exec.{pure, Keeps}
use activitypub_core.Json.{Json, Fields}
use activitypub_core.As2.{ObjectPayload}
use activitypub_core.Config.{Config}
use activitypub_core.Url.{parse, hostname}
use activitypub_core.Common.Text.{trim_space}
use activitypub_core.Store.{ActivityRow, FollowState, pending, accepted, Db}
use activitypub_core.Store.Follows.{
  upsert_follow, set_follow_state_by_follow_activity_id_for_follower,
  delete_follow_by_follow_activity_id_for_follower,
}
use activitypub_core.Store.Interactions.{
  upsert_federated_like, upsert_federated_announce, upsert_federated_block,
  delete_federated_like_by_activity_id, delete_federated_announce_by_activity_id,
  delete_federated_block_by_activity_id,
}
use activitypub_core.Store.Objects.{upsert_federated_object, soft_delete_federated_object_by_url}
use activitypub_core.Store.Actors.{actor_profile_by_id, actor_url_by_db_id, actor_id_by_actor_url}
use activitypub_core.Store.Resolve.{
  resolve_local_followee_from_object_iri, resolve_by_config, resolve_by_path,
}
use activitypub_core.Queue.{Job, enqueue}
use activitypub_core.Fetch.Policy.{Policy}
use activitypub_core.Fetch.Client.{Client}
use activitypub_core.Inboxproc.Objects.{
  verified_actor, create_object, handle_create, with_owner, update_object, handle_update,
  delete_object, handle_delete,
}
use activitypub_core.Inboxproc.Follow.{
  auto_accept, handle_follow, answer, handle_accept, handle_reject,
}
use activitypub_core.Inboxproc.Process.{dispatch}
use activitypub_core.Inboxproc.Social.{handle_like, handle_announce, handle_block}
use activitypub_core.Inboxproc.Undo.{
  undo_bare_activity_iri, delete_undo_target, undo_embedded, handle_undo,
}

pub record IsClosed (P : Db → Type 0) (actor : ℕ) : Type 0 where
  pub follow : (followee : ℕ) (id : String) → Keeps P (upsert_follow actor followee id pending)
  pub accept_own :
      (id : String)
      → Keeps P (set_follow_state_by_follow_activity_id_for_follower id accepted actor)
  pub answered :
      (state : FollowState) (message target : String) → Keeps P (answer state message actor target)
  pub queued : (now : ℕ) (job : Job) → Keeps P (enqueue now job)
  pub undo_follow :
      (id : String) → Keeps P (delete_follow_by_follow_activity_id_for_follower id actor)
  pub undo_like : (id : String) → Keeps P (delete_federated_like_by_activity_id id actor)
  pub undo_announce : (id : String) → Keeps P (delete_federated_announce_by_activity_id id actor)
  pub undo_block : (id : String) → Keeps P (delete_federated_block_by_activity_id id actor)
  pub like : (url id : String) → Keeps P (upsert_federated_like actor url id)
  pub announce : (url id : String) → Keeps P (upsert_federated_announce actor url id)
  pub block : (url id : String) → Keeps P (upsert_federated_block actor url id)
  pub update :
      (url typ message : String) (raw : Json)
      → Keeps P (
          with_owner url actor
            (upsert_federated_object url actor typ raw)
            (upsert_federated_object url actor typ raw)
            message)
  pub delete :
      (url message : String)
      → Keeps P (with_owner url actor (pure tt) (soft_delete_federated_object_by_url url) message)

pub actor_url-same : (id : ℕ) (s : Db) → (actor_url_by_db_id id s).1 ≡ s
unfolding actor_url_by_db_id actor_profile_by_id
actor_url-same id s = ground arith

resolve_by_path-same : (domain iri : String) (s : Db) → (resolve_by_path domain iri s).1 ≡ s
unfolding resolve_by_path
resolve_by_path-same domain iri s = ground arith

resolve_by_config-same :
    (cfg : Config) (domain iri : String) (s : Db) → (resolve_by_config cfg domain iri s).1 ≡ s
unfolding resolve_by_config actor_id_by_actor_url
resolve_by_config-same cfg domain iri s = ground (arith, resolve_by_path-same domain iri s)

resolve-same :
    (cfg : Config) (iri : String) (s : Db)
    → (resolve_local_followee_from_object_iri cfg iri s).1 ≡ s
unfolding resolve_local_followee_from_object_iri
resolve-same cfg iri s = elim (Option-cases (parse (trim_space cfg.public_base_url))) [
  | inl e ↦ ground (arith, e)
  | inr (base, e) ↦ ground (arith, e, resolve_by_config-same cfg (hostname base) (trim_space iri) s)
]

module _ (P : Db → Type 0) where
  keeps_verified : (row : ActivityRow) (fields : Fields) → Keeps P (verified_actor row fields)
  unfolding verified_actor
  keeps_verified row fields s h = ground (arith, actor_url-same row.actor_id s)

module _ (P : Db → Type 0) (row : ActivityRow) (closed : IsClosed P row.actor_id) where
  keeps_update_object :
      (fields : Fields) (p : ObjectPayload) (raw : Json) → Keeps P (update_object row fields p raw)
  unfolding update_object
  keeps_update_object fields p raw s h =
      let t = (verified_actor row fields s).1 in
      let kept = keeps_verified P row fields s h in
      ground (arith, kept, closed.update p.id p.typ "update: actor does not own object" raw t kept)

  keeps_update : (cfg : Config) (fields : Fields) → Keeps P (handle_update cfg row fields)
  unfolding handle_update
  keeps_update cfg fields s h = grind (arith, keeps_update_object)

  keeps_delete_object :
      (fields : Fields) (target : String) → Keeps P (delete_object row fields target)
  unfolding delete_object
  keeps_delete_object fields target s h =
      let t = (verified_actor row fields s).1 in
      let kept = keeps_verified P row fields s h in
      ground (arith, kept, closed.delete target "delete: actor does not own object" t kept)

  keeps_delete : (cfg : Config) (fields : Fields) → Keeps P (handle_delete cfg row fields)
  unfolding handle_delete
  keeps_delete cfg fields s h = grind (arith, keeps_delete_object)

  keeps_auto_accept :
      (now : ℕ) (cfg : Config) (client : Client) (policy : Policy) (followee : ℕ) (user : String)
      → Keeps P (auto_accept now cfg client policy row followee user)
  unfolding auto_accept
  keeps_auto_accept now cfg client policy followee user s h =
      grind (arith, actor_url-same, closed.queued, closed.accept_own)

  keeps_follow :
      (now : ℕ) (cfg : Config) (client : Client) (policy : Policy) (fields : Fields)
      → Keeps P (handle_follow now cfg client policy row fields)
  unfolding handle_follow
  keeps_follow now cfg client policy fields s h =
      grind (arith, resolve-same, closed.follow, keeps_auto_accept)

  keeps_accept : (fields : Fields) → Keeps P (handle_accept row fields)
  unfolding handle_accept
  keeps_accept fields s h = grind (arith, closed.answered)

  keeps_reject : (fields : Fields) → Keeps P (handle_reject row fields)
  unfolding handle_reject
  keeps_reject fields s h = grind (arith, closed.answered)

  keeps_like : (cfg : Config) (fields : Fields) → Keeps P (handle_like cfg row fields)
  unfolding handle_like
  keeps_like cfg fields s h = grind (arith, closed.like)

  keeps_announce : (cfg : Config) (fields : Fields) → Keeps P (handle_announce cfg row fields)
  unfolding handle_announce
  keeps_announce cfg fields s h = grind (arith, closed.announce)

  keeps_block : (cfg : Config) (fields : Fields) → Keeps P (handle_block cfg row fields)
  unfolding handle_block
  keeps_block cfg fields s h = grind (arith, closed.block)

  keeps_undo_bare : (iri : String) → Keeps P (undo_bare_activity_iri row.actor_id iri)
  unfolding undo_bare_activity_iri
  keeps_undo_bare iri s h =
      grind (arith, closed.undo_follow, closed.undo_like, closed.undo_announce, closed.undo_block)

  keeps_undo_target : (m : Fields) (id : String) → Keeps P (delete_undo_target row.actor_id m id)
  unfolding delete_undo_target
  keeps_undo_target m id s h =
      grind (arith, closed.undo_follow, closed.undo_like, closed.undo_announce, closed.undo_block)

  keeps_undo : (fields : Fields) → Keeps P (handle_undo row fields)
  unfolding handle_undo undo_embedded
  keeps_undo fields s h = grind (arith, keeps_undo_bare, keeps_undo_target)

  -- Create has a condition of its own, since it has no check of the owner.
  pub keeps_dispatch :
      (now : ℕ) (cfg : Config) (client : Client) (policy : Policy) (key : String) (fields : Fields)
      → ((key == "create") ≡ true → Keeps P (handle_create cfg row fields (some client) policy))
      → Keeps P (dispatch now cfg client policy key row fields)
  unfolding dispatch
  keeps_dispatch now cfg client policy key fields create s h = elim (Bool-cases (key == "create")) [
    | inl t ↦ ground (arith, t, create t s h)
    | inr t ↦ ground (
      arith,
      t,
      h,
      keeps_update cfg fields s h,
      keeps_delete cfg fields s h,
      keeps_follow now cfg client policy fields s h,
      keeps_accept fields s h,
      keeps_reject fields s h,
      keeps_undo fields s h,
      keeps_like cfg fields s h,
      keeps_announce cfg fields s h,
      keeps_block cfg fields s h,
    )
  ]

  pub keeps_create :
      (cfg : Config) (fields : Fields) (client : Option Client) (policy : Policy)
      → ((url typ : String) (raw : Json)
          → Keeps P (upsert_federated_object url row.actor_id typ raw))
      → Keeps P (handle_create cfg row fields client policy)
  unfolding handle_create create_object
  keeps_create cfg fields client policy store s h = grind (arith, keeps_verified P row, store)
