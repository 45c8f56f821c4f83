-- ===== src/Inboxproc/Undo.antt =====
-- internal/inboxproc/undo.go: Undo of a Follow, Like, Announce or Block of the same actor.
use activitypub_core.Common.{ℕ, String, none, some, List, [], ◌∷◌, any_where, if◌then◌else◌}
use activitypub_core.Common.Text.{equal_fold}
use activitypub_core.Common.Exec.{Exec, ◌>>=◌, pure, fail, lift}
use activitypub_core.Json.{
  Json, Fields, lookup, as_string, nonempty_string, as_object, string_elems,
}
use activitypub_core.As2.{normalize_activity_type, string_field}
use activitypub_core.Store.{ActivityRow, Db}
use activitypub_core.Store.Follows.{own_follow, delete_follow_by_follow_activity_id_for_follower}
use activitypub_core.Store.Interactions.{
  own_edge, delete_federated_like_by_activity_id, delete_federated_announce_by_activity_id,
  delete_federated_block_by_activity_id,
}

-- One DELETE after another, up to the first that finds a row.
unfoldable pub undo_bare_activity_iri : ℕ → String → Exec Db (Unit {0})
unfolding delete_follow_by_follow_activity_id_for_follower delete_federated_like_by_activity_id
    delete_federated_announce_by_activity_id delete_federated_block_by_activity_id
undo_bare_activity_iri actor iri s =
    if any_where (own_follow iri actor) s.follows
    then delete_follow_by_follow_activity_id_for_follower iri actor s
    else if any_where (own_edge iri actor) s.likes
    then delete_federated_like_by_activity_id iri actor s
    else if any_where (own_edge iri actor) s.announces
    then delete_federated_announce_by_activity_id iri actor s
    else delete_federated_block_by_activity_id iri actor s

abbrev first_text : List String → String
first_text [] = ""
first_text (s ∷ ss) = normalize_activity_type s

unfoldable pub undo_target_type : Fields → String
undo_target_type m = elim (lookup "type" m) [
  | none ↦ ""
  | some raw ↦ elim (as_string raw) [
    | some s ↦ normalize_activity_type s
    | none ↦ first_text (string_elems raw)
  ]
]

unfoldable pub delete_undo_target : ℕ → Fields → String → Exec Db (Unit {0})
unfolding undo_target_type delete_follow_by_follow_activity_id_for_follower
    delete_federated_like_by_activity_id delete_federated_announce_by_activity_id
    delete_federated_block_by_activity_id
delete_undo_target actor m id =
    let t = undo_target_type m in
    if equal_fold t "Follow"
    then delete_follow_by_follow_activity_id_for_follower id actor
    else if equal_fold t "Like"
    then delete_federated_like_by_activity_id id actor
    else if equal_fold t "Announce"
    then delete_federated_announce_by_activity_id id actor
    else if equal_fold t "Block"
    then delete_federated_block_by_activity_id id actor
    else pure tt

-- The embedded activity that is undone; its id is `jsonStringFromMap(obj, "id")`.
unfoldable pub undo_embedded : ℕ → Json → Exec Db (Unit {0})
unfolding delete_undo_target
undo_embedded actor raw = elim (as_object raw) [
  | none ↦ fail "undo object"
  | some m ↦ do id ← lift (string_field m "id"); delete_undo_target actor m id
]

unfoldable pub handle_undo : ActivityRow → Fields → Exec Db (Unit {0})
unfolding undo_bare_activity_iri undo_embedded
handle_undo row fields = elim (lookup "object" fields) [
  | none ↦ fail "undo missing object"
  | some raw ↦ elim (nonempty_string raw) [
    | some s ↦ undo_bare_activity_iri row.actor_id s
    | none ↦ undo_embedded row.actor_id raw
  ]
]
