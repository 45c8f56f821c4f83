-- ===== src/Store/Objects.antt =====
-- store/federated_objects.go: copies of remote objects, with their owners and soft deletion.
use activitypub_core.Common.{
  ℕ, String, Bool, true, false, not, ◌&&◌, Option, none, some, List, [], ◌∷◌, ◌++◌, ◌==◌, any_where,
  find_where, update_where, if◌then◌else◌,
}
use activitypub_core.Common.Exec.{Exec, ok, err, no_rows, failure}
use activitypub_core.Json.{Json}
use activitypub_core.Store.Rows.{ObjectRow, Db}

abbrev pub same_object : String → ObjectRow → Bool
same_object url r = r.object_url == url

abbrev pub live_object : String → ObjectRow → Bool
live_object url r = r.object_url == url && not r.deleted

abbrev pub new_object : String → ℕ → String → Json → ObjectRow
new_object url owner typ raw = record {
  object_url = url;
  actor_id = owner;
  typ = typ;
  raw_json = raw;
  deleted = false;
}

abbrev pub typ_or_object : String → String
typ_or_object typ = if typ == "" then "Object" else typ

-- INSERT INTO objects ... ON CONFLICT (object_url) DO UPDATE: every column is written.
unfoldable pub put_object : ObjectRow → List ObjectRow → List ObjectRow
put_object r rows =
    if any_where (same_object r.object_url) rows
    then update_where (same_object r.object_url) (λ _. r) rows
    else rows ++ r ∷ []

unfoldable pub upsert_federated_object : String → ℕ → String → Json → Exec Db (Unit {0})
unfolding put_object
upsert_federated_object url owner typ raw s =
    if url == "" then (err (failure "object url required"), s) else (
      ok tt,
      record s { objects = put_object (new_object url owner (typ_or_object typ) raw) s.objects },
    )

unfoldable pub soft_delete_federated_object_by_url : String → Exec Db (Unit {0})
soft_delete_federated_object_by_url url s =
    if url == "" then (err (failure "object url required"), s) else (
      ok tt,
      record s {
        objects = update_where (live_object url) (λ r. record r { deleted = true }) s.objects;
      },
    )

unfoldable pub object_owner : String → List ObjectRow → Option ℕ
object_owner url rows = elim (find_where (live_object url) rows) [
  | none ↦ none
  | some r ↦ some r.actor_id
]

unfoldable pub object_owner_actor_id : String → Exec Db ℕ
unfolding object_owner
object_owner_actor_id url s = elim (object_owner url s.objects) [
  | none ↦ (err no_rows, s)
  | some id ↦ (ok id, s)
]
