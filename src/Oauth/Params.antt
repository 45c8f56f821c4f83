-- ===== src/Oauth/Params.antt =====
-- mastodonapi/oauth.go: parseOAuthTokenParams and its three merges. What the standard library
-- decodes is an argument: the query of the URL, the media type with its boundary, the body, the
-- credentials of `BasicAuth`; and so are the readers of JSON and of multipart bodies.
use Prim.Native.String.{[], ◌∷◌}
use activitypub_core.Common.{
  String, code, not, ◌&&◌, ◌||◌, Option, none, some, List, ◌==◌, nat_eq, if◌then◌else◌,
}
use mathlib.Core.List.{[], ◌∷◌}
use activitypub_core.Common.Text.{trim_space, has_prefix, has_suffix}
use activitypub_core.Json.{Raw, no_bytes, malformed, json, Json, struct_string}
use activitypub_core.Url.Query.{Values, get, set, append_values, parse_query}

-- The media type and the parameter `boundary` are "" where they are missing or unreadable; a body
-- is `none` where reading it fails.
pub record TokenRequest : Type 0 where
  pub method : String
  pub query : Values
  pub media_type : String
  pub boundary : String
  pub body : Option String
  pub basic_auth : Option (String × String)

-- `json.Unmarshal`, and the named parts of a multipart body: `none` where one cannot be read.
pub record Readers : Type 0 where
  pub parse_json : String → Raw
  pub multipart_parts : String → String → Option (List (String × String))

infixl 5 ◌>>=◌
abbrev ◌>>=◌ : {A B : Type 0} → Option A → (A → Option B) → Option B
◌>>=◌ none f = none
◌>>=◌ (some a) f = f a

abbrev pub merge : String → String → Values → Values
merge key s vals =
    if not (trim_space s == "") && get key vals == "" then set key (trim_space s) vals else vals

-- the fields of the struct, each a text or missing
unfoldable pub merge_json_value : Json → Values → Option Values
unfolding struct_string get set
merge_json_value j vals = do
  grant_type ← struct_string "grant_type" j
  authorization_code ← struct_string "code" j
  client_id ← struct_string "client_id" j
  client_secret ← struct_string "client_secret" j
  redirect_uri ← struct_string "redirect_uri" j
  code_verifier ← struct_string "code_verifier" j
  scope ← struct_string "scope" j
  some (
      merge "scope" scope (
        merge "code_verifier" code_verifier (
          merge "redirect_uri" redirect_uri (
            merge "client_secret" client_secret (
              merge "client_id" client_id
                (merge "code" authorization_code (merge "grant_type" grant_type vals)))))))

unfoldable pub merge_json_fields : Readers → String → Values → Option Values
unfolding merge_json_value
merge_json_fields readers body vals = elim (readers.parse_json body) [
  | no_bytes ↦ none
  | malformed ↦ none
  | json j ↦ merge_json_value j vals
]

unfoldable pub merge_values : Values → Values → Values
unfolding get append_values
merge_values [] vals = vals
merge_values ((k, vs) ∷ q) vals =
    merge_values q (if get k vals == "" then append_values k vs vals else vals)

unfoldable pub merge_form : String → Values → Option Values
unfolding merge_values parse_query
merge_form body vals =
    let (q, readable) = parse_query body in
    if body == "" then some vals else if readable then some (merge_values q vals) else none

unfoldable pub merge_parts : List (String × String) → Values → Values
unfolding get set
merge_parts [] vals = vals
merge_parts ((name, value) ∷ parts) vals =
    merge_parts parts
      (if name == "" then vals else if get name vals == "" then set name value vals else vals)

unfoldable pub merge_multipart : Readers → String → String → Values → Option Values
unfolding merge_parts
merge_multipart readers boundary body vals =
    if boundary == "" then none else elim (readers.multipart_parts boundary body) [
      | none ↦ none
      | some parts ↦ some (merge_parts parts vals)
    ]

-- `bytes.TrimPrefix(body, []byte{0xef, 0xbb, 0xbf})`
abbrev trim_mark : String → String
trim_mark [] = ""
trim_mark (c ∷ s) = if nat_eq (code c) 0xFEFF then s else c ∷ s

-- A JSON object where no grant type was found.
abbrev or_json : Readers → String → Option Values → Option Values
or_json readers body none = none
or_json readers body (some vals) =
    if get "grant_type" vals == "" && has_prefix body "{"
    then merge_json_fields readers body vals
    else some vals

-- The switch over the media type, on a body without surrounding space.
unfoldable pub merge_body : Readers → TokenRequest → String → Values → Option Values
unfolding merge_json_fields merge_form merge_multipart get has_prefix has_suffix
merge_body readers r body vals =
    if has_prefix r.media_type "multipart/form-data"
    then or_json readers body
        (if body == "" then some vals else merge_multipart readers r.boundary body vals)
    else if r.media_type == "application/json" || has_suffix r.media_type "+json"
    then (if body == "" then some vals else merge_json_fields readers body vals)
    else if has_prefix r.media_type "application/x-www-form-urlencoded"
    then or_json readers body (if body == "" then some vals else merge_form body vals)
    else if body == ""
    then some vals
    else if has_prefix body "{"
    then merge_json_fields readers body vals
    else merge_form body vals

abbrev set_missing : String → String → Values → Values
set_missing key s vals = if get key vals == "" then set key s vals else vals

abbrev pub merge_basic_auth : Option (String × String) → Values → Values
merge_basic_auth none vals = vals
merge_basic_auth (some (id, secret)) vals =
    set_missing "client_secret" secret (set_missing "client_id" id vals)

unfoldable pub parse_oauth_token_params : Readers → TokenRequest → Option Values
unfolding merge_body get set trim_space
parse_oauth_token_params readers r = elim r.body [
  | none ↦ none
  | some raw ↦ elim (merge_body readers r (trim_mark (trim_space raw)) r.query) [
    | none ↦ none
    | some vals ↦ some (merge_basic_auth r.basic_auth vals)
  ]
]
