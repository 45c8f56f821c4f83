-- ===== src/As2.antt =====
-- internal/as2: the identifiers and types of activities and their objects.
use activitypub_core.Common.{
  String, Bool, true, false, Option, none, some, List, [], ◌∷◌, ◌==◌, ◌||◌, if◌then◌else◌,
}
use activitypub_core.Common.Text.{trim_space, trim_right_slash, after_last}
use activitypub_core.Common.Exec.{Result, ok, err, failure, bind_result, or_fail}
use activitypub_core.Json.{
  Json, null, bool, num, str, arr, obj, Elems, done, item, Raw, no_bytes, malformed, json, Fields,
  members, as_string, nonempty_string, as_object, lookup, struct_string, string_elems,
}

-- types.go

unfoldable pub normalize_activity_type : String → String
normalize_activity_type t =
    let t' = trim_space t in
    if t' == "" then "" else elim (after_last b'#' t') [ some rest ↦ rest | none ↦ t' ]

-- the first text that is not empty, normalised
unfoldable pub first_type : List String → String
first_type [] = ""
first_type (s ∷ rest) = if s == "" then first_type rest else normalize_activity_type s

unfoldable pub primary_activity_type : Fields → String
unfolding nonempty_string first_type
primary_activity_type m = elim (lookup "type" m) [
  | none ↦ ""
  | some raw ↦ elim (nonempty_string raw) [
    | some s ↦ normalize_activity_type s
    | none ↦ first_type (string_elems raw)
  ]
]

-- object.go, actor.go

-- An id text, or an object with an `id`.
unfoldable pub reference_iri : Json → Option String
unfolding nonempty_string
reference_iri raw = elim (nonempty_string raw) [
  | some s ↦ some s
  | none ↦ elim (struct_string "id" raw) [
    | none ↦ none
    | some id ↦ if id == "" then none else some id
  ]
]

unfoldable pub object_iri : Fields → Result String
object_iri m = elim (lookup "object" m) [
  | none ↦ err (failure "missing object")
  | some raw ↦ or_fail (reference_iri raw) (failure "object must be id string or object with id")
]

unfoldable pub undo_object_target : Fields → Result String
undo_object_target m = object_iri m

unfoldable pub actor_iri_from_activity : Fields → Result String
actor_iri_from_activity m = elim (lookup "actor" m) [
  | none ↦ err (failure "missing actor")
  | some raw ↦
      or_fail (reference_iri raw) (failure "actor must be an id string or an object with id")
]

unfoldable pub last_path_segment : String → String
last_path_segment iri =
    let t = trim_right_slash (trim_space iri) in
    elim (after_last b'#' t) [
      | some rest ↦ rest
      | none ↦ elim (after_last b'/' t) [ some rest ↦ rest | none ↦ t ]
    ]

-- object_payload.go

-- `raw` is `none` where the object is only named.
pub record ObjectPayload : Type 0 where
  pub id : String
  pub typ : String
  pub raw : Option Json

unfoldable pub string_field : Fields → String → Result String
unfolding nonempty_string
string_field m key = elim (lookup key m) [
  | none ↦ err (failure "missing field")
  | some raw ↦ or_fail (nonempty_string raw) (failure "invalid field")
]

-- the first element whose normalised type is not empty
unfoldable pub first_normalized : List String → String
first_normalized [] = ""
first_normalized (s ∷ rest) =
    let t = normalize_activity_type s in if t == "" then first_normalized rest else t

unfoldable pub embedded_type : Fields → String
unfolding first_normalized
embedded_type m = elim (lookup "type" m) [
  | none ↦ ""
  | some raw ↦ elim (as_string raw) [
    | some s ↦ normalize_activity_type s
    | none ↦ first_normalized (string_elems raw)
  ]
]

unfoldable pub embedded_payload : Json → Result ObjectPayload
unfolding embedded_type as_object
embedded_payload raw = elim (as_object raw) [
  | none ↦ err (failure "object")
  | some m ↦
      bind_result (string_field m "id")
        λ id. ok (record { id = id; typ = embedded_type m; raw = some raw })
]

unfoldable pub object_field_id_type : Raw → Result ObjectPayload
unfolding embedded_payload nonempty_string
object_field_id_type no_bytes = err (failure "empty object")
object_field_id_type malformed = err (failure "object")
object_field_id_type (json raw) = elim (nonempty_string raw) [
  | some s ↦ ok (record { id = s; typ = ""; raw = none })
  | none ↦ embedded_payload raw
]

unfoldable pub tombstone_or_object_id : Raw → Result String
unfolding object_field_id_type
tombstone_or_object_id raw = bind_result (object_field_id_type raw) λ p. ok p.id

-- what `_, _ := stringField(m, "id")` leaves in its variable
unfoldable pub id_or_empty : Fields → String
unfolding string_field
id_or_empty m = elim (string_field m "id") [ ok id ↦ id | err _ ↦ "" ]

unfoldable pub canonical_iri : String → String
canonical_iri s = trim_right_slash (trim_space s)

unfoldable mutual
  unfolding id_or_empty canonical_iri

  pub ref_contains_actor : Json → String → Bool
  ref_contains_actor null actor = canonical_iri "" == actor
  ref_contains_actor (str s) actor = if s == "" then false else canonical_iri s == actor
  ref_contains_actor (obj ms) actor = canonical_iri (id_or_empty (members ms)) == actor
  ref_contains_actor (arr js) actor = any_contains_actor js actor
  ref_contains_actor (bool _) actor = false
  ref_contains_actor (num _) actor = false

  pub any_contains_actor : Elems → String → Bool
  any_contains_actor done actor = false
  any_contains_actor (item j js) actor = ref_contains_actor j actor || any_contains_actor js actor

unfoldable pub object_attributed_to_matches : Json → String → Bool
unfolding as_object
object_attributed_to_matches object_json actor_iri =
    let actor = canonical_iri actor_iri in
    if actor == "" then false else elim (as_object object_json) [
      | none ↦ false
      | some m ↦ elim (lookup "attributedTo" m) [
        | none ↦ true
        | some raw ↦ ref_contains_actor raw actor
      ]
    ]
