-- ===== src/Aphttp/Fields.antt =====
-- The helpers of aphttp/handlers.go and aphttp/handle.go, and the handler's settings. The source has
-- its own copy of `actorIRIFromActivity`, line for line that of internal/as2, which is used here.
use Prim.Native.String.{[], ◌∷◌}
use activitypub_core.Common.{
  ℕ, String, Bool, true, false, ◌||◌, Option, none, some, List, ◌==◌, nat_eq, if◌then◌else◌,
}
use mathlib.Core.List.{[], ◌∷◌}
use activitypub_core.Common.Text.{
  ◌⧺◌, trim_space, trim_slash, trim_right_slash, to_lower, cut, cut_prefix,
}
use activitypub_core.Common.Exec.{Result, ok, err, failure}
use activitypub_core.Json.{Json, Raw, Fields, as_string, as_array, nonempty_string, lookup}
use activitypub_core.Config.{Config, is_local_username}
use activitypub_core.Url.{parse, unescape, to_string}
use activitypub_core.Fetch.Client.{Client}
use activitypub_core.Fetch.Policy.{Policy}
use activitypub_core.Httpsig.Sign.{Platform}

-- `type Handler`. `local_actor_ids` is `none` for a nil map; `has_store` tells that `st` and `q` are
-- set, where `q` is the SQL queue. An `inbox_max_body` of 0 stands for a value that is not positive.
pub record Handler : Type 0 where
  pub cfg : Config
  pub local_actor_ids : Option (List (String × ℕ))
  pub has_store : Bool
  pub inbox_max_body : ℕ
  pub outbox_post_secret : String
  pub fetch_client : Client
  pub fetch_policy : Option Policy

-- `json.Unmarshal`, the number of bytes of a text, and the PEM form of keys in both directions.
pub record Codec (p : Platform) : Type 0 where
  pub parse_json : String → Raw
  pub byte_length : String → ℕ
  pub parse_pem : String → Option p.PublicKey
  pub public_key_pem : p.PublicKey → Option String

-- The status and the text of `http.Error`; 202 and 404 have none of the program's own.
pub record Reply : Type 0 where
  pub status : ℕ
  pub message : String

abbrev pub http_error : ℕ → String → Reply
http_error status message = record { status = status; message = message }

abbrev pub accepted_reply : Reply
accepted_reply = record { status = 202; message = "" }

abbrev pub not_found : Reply
not_found = record { status = 404; message = "404 page not found" }

abbrev pub actor_id : String → List (String × ℕ) → Option ℕ
actor_id name [] = none
actor_id name ((k, id) ∷ ids) = if k == name then some id else actor_id name ids

unfoldable pub local_actor_id : Handler → String → Option ℕ
local_actor_id h username = elim h.local_actor_ids [
  | none ↦ none
  | some ids ↦ elim (actor_id username ids) [
    | none ↦ none
    | some id ↦ if nat_eq id 0 then none else some id
  ]
]

unfoldable pub is_local_actor : Handler → String → Bool
unfolding local_actor_id is_local_username
is_local_actor h username = elim h.local_actor_ids [
  | none ↦ is_local_username h.cfg username
  | some _ ↦ elim (local_actor_id h username) [ none ↦ false | some _ ↦ true ]
]

unfoldable pub is_activity_json_content_type : String → Bool
unfolding trim_space to_lower cut
is_activity_json_content_type ct =
    let base : String = elim (cut b';' (trim_space ct)) [
      | none ↦ trim_space ct
      | some (a, _) ↦ a
    ] in
    let base = to_lower (trim_space base) in
    if trim_space ct == ""
    then false
    else base == "application/activity+json" || base == "application/ld+json"

unfoldable pub json_string_field : Fields → String → Result String
unfolding lookup as_string trim_space ◌⧺◌
json_string_field m key = elim (lookup key m) [
  | none ↦ err (failure ("missing " ⧺ key))
  | some raw ↦ elim (as_string raw) [
    | none ↦ err (failure ("invalid or empty " ⧺ key))
    | some s ↦ if trim_space s == "" then err (failure ("invalid or empty " ⧺ key)) else ok s
  ]
]

-- the first element, where it is a text that is not empty
abbrev first_string : List Json → Result String
first_string [] = err (failure "invalid type field")
first_string (j ∷ js) = elim (nonempty_string j) [
  | none ↦ err (failure "invalid type field")
  | some s ↦ ok s
]

unfoldable pub activity_type_string : Fields → Result String
unfolding lookup nonempty_string as_array
activity_type_string m = elim (lookup "type" m) [
  | none ↦ err (failure "missing type")
  | some raw ↦ elim (nonempty_string raw) [
    | some s ↦ ok s
    | none ↦ elim (as_array raw) [
      | none ↦ err (failure "invalid type field")
      | some js ↦ first_string js
    ]
  ]
]

-- Both without the fragment, which `to_string` leaves out.
unfoldable pub signing_actor_matches_key_id : String → String → Bool
unfolding parse to_string trim_right_slash
signing_actor_matches_key_id key_id actor_iri = elim (parse key_id) [
  | none ↦ false
  | some k ↦ elim (parse actor_iri) [
    | none ↦ false
    | some a ↦ trim_right_slash (to_string k) == trim_right_slash (to_string a)
  ]
]

unfoldable pub parse_at_handle : String → Option String
unfolding trim_space cut_prefix unescape trim_slash
parse_at_handle handle = elim (cut_prefix (trim_space handle) "@") [
  | none ↦ none
  | some rest ↦ if rest == "" then none else elim (unescape rest) [
    | none ↦ none
    | some u ↦ if trim_slash u == "" then none else some (trim_slash u)
  ]
]

-- `max <= 0`
abbrev pub max_or_default : ℕ → ℕ
max_or_default max = if nat_eq max 0 then 1_048_576 else max
