-- ===== src/Inboxproc/Objects.antt =====
-- internal/inboxproc/create_update_delete.go: Create, Update and Delete.
use activitypub_core.Common.{ℕ, String, Bool, Option, none, some, ◌==◌, ltb, nat_eq, if◌then◌else◌}
use activitypub_core.Common.Text.{trim_space, trim_right_slash}
use activitypub_core.Common.Exec.{
  Exec, Result, ok, err, no_rows, failure, bind_result, ◌>>=◌, ◌>>◌, pure, fail, lift, check,
}
use activitypub_core.Json.{Json, Raw, json, Fields, lookup}
use activitypub_core.As2.{
  ObjectPayload, object_field_id_type, tombstone_or_object_id, actor_iri_from_activity,
  object_attributed_to_matches,
}
use activitypub_core.Config.{Config}
use activitypub_core.Store.{ActivityRow, Db}
use activitypub_core.Store.Actors.{actor_url_by_db_id}
use activitypub_core.Store.Objects.{
  upsert_federated_object, soft_delete_federated_object_by_url, object_owner_actor_id,
}
use activitypub_core.Fetch.Policy.{Policy}
use activitypub_core.Fetch.Client.{Client, fetch_activity_pub_json}
use activitypub_core.Inboxproc.Audience.{activity_should_apply_side_effects}

unfoldable pub actors_match : String → String → Bool
actors_match a b = trim_right_slash (trim_space a) == trim_right_slash (trim_space b)

-- The actor of the activity, if it is the actor of the stored row.
unfoldable pub verified_actor : ActivityRow → Fields → Exec Db String
unfolding actors_match
verified_actor row fields = do
  actor_iri ← lift (actor_iri_from_activity fields)
  signer_url ← actor_url_by_db_id row.actor_id
  check (actors_match actor_iri signer_url) "activity actor does not match stored actor"
  pure actor_iri

-- The payload of an object that was fetched by its IRI.
unfoldable pub fetched_payload : String → Raw → Result ObjectPayload
unfolding actors_match
fetched_payload id body = bind_result (object_field_id_type body) λ p.
    if actors_match p.id id
    then ok p
    else err (failure "create: fetched object id does not match IRI")

unfoldable pub fetch_limit : Config → ℕ
fetch_limit cfg =
    if ltb 0 cfg.create_object_max_fetch_bytes then cfg.create_object_max_fetch_bytes else 1048576

-- An object that is only named is fetched; `none` is the nil HTTP client.
unfoldable pub materialize : Config → Option Client → Policy → ObjectPayload → Result ObjectPayload
unfolding fetched_payload
materialize cfg none policy p = ok p
materialize cfg (some client) policy p = elim p.raw [
  | some raw ↦ ok p
  | none ↦
      if p.id == ""
      then ok p
      else bind_result
          (fetch_activity_pub_json client (some policy) p.id (some cfg) (fetch_limit cfg))
          (fetched_payload p.id)
]

abbrev pub required : String → Option Json → Result Raw
required message none = err (failure message)
required message (some raw) = ok (json raw)

-- The store of an embedded object whose author is verified.
unfoldable pub create_object : ActivityRow → Fields → ObjectPayload → Json → Exec Db (Unit {0})
unfolding verified_actor upsert_federated_object
create_object row fields p raw = do
  actor_iri ← verified_actor row fields
  check (object_attributed_to_matches raw actor_iri) "create: attributedTo does not match actor"
  upsert_federated_object p.id row.actor_id p.typ raw

unfoldable pub handle_create :
    Config → ActivityRow → Fields → Option Client → Policy → Exec Db (Unit {0})
unfolding materialize create_object
handle_create cfg row fields client policy = do
  raw_obj ← lift (required "create missing object" (lookup "object" fields))
  named ← lift (object_field_id_type raw_obj)
  p ← lift (materialize cfg client policy named)
  elim p.raw [
    | none ↦ pure tt
    | some raw ↦
        if activity_should_apply_side_effects cfg fields
        then create_object row fields p raw
        else pure tt
  ]

-- What follows the look-up of an object's owner: `absent` where no live row has the URL, `own`
-- where the row is the actor's.
abbrev if_owner :
    ℕ → Exec Db (Unit {0}) → Exec Db (Unit {0}) → String → Result ℕ → Exec Db (Unit {0})
if_owner actor absent own message (ok owner) = if nat_eq owner actor then own else fail message
if_owner actor absent own message (err no_rows) = absent
if_owner actor absent own message (err e) = lift (err e)

-- The continuation after `ObjectOwnerActorID`, which handles its error itself.
unfoldable pub with_owner :
    String → ℕ → Exec Db (Unit {0}) → Exec Db (Unit {0}) → String → Exec Db (Unit {0})
unfolding object_owner_actor_id
with_owner url actor absent own message s =
    let (r, t) = object_owner_actor_id url s in if_owner actor absent own message r t

unfoldable pub update_object : ActivityRow → Fields → ObjectPayload → Json → Exec Db (Unit {0})
unfolding verified_actor with_owner upsert_federated_object
update_object row fields p raw = do
  actor_iri ← verified_actor row fields
  check (object_attributed_to_matches raw actor_iri) "update: attributedTo does not match actor"
  with_owner p.id row.actor_id (upsert_federated_object p.id row.actor_id p.typ raw)
      (upsert_federated_object p.id row.actor_id p.typ raw) "update: actor does not own object"

unfoldable pub handle_update : Config → ActivityRow → Fields → Exec Db (Unit {0})
unfolding update_object
handle_update cfg row fields = do
  raw_obj ← lift (required "update missing object" (lookup "object" fields))
  p ← lift (object_field_id_type raw_obj)
  elim p.raw [
    | none ↦ pure tt
    | some raw ↦
        if activity_should_apply_side_effects cfg fields
        then update_object row fields p raw
        else pure tt
  ]

unfoldable pub delete_object : ActivityRow → Fields → String → Exec Db (Unit {0})
unfolding verified_actor with_owner soft_delete_federated_object_by_url
delete_object row fields target = do
  actor_iri ← verified_actor row fields
  with_owner target row.actor_id (pure tt) (soft_delete_federated_object_by_url target)
      "delete: actor does not own object"

unfoldable pub handle_delete : Config → ActivityRow → Fields → Exec Db (Unit {0})
unfolding delete_object
handle_delete cfg row fields = do
  raw_obj ← lift (required "delete missing object" (lookup "object" fields))
  target ← lift (tombstone_or_object_id raw_obj)
  if activity_should_apply_side_effects cfg fields then delete_object row fields target else pure tt
