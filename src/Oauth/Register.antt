-- ===== src/Oauth/Register.antt =====
-- mastodonapi/post_apps.go, and postApps, actorIDFromBearer and bearer of
-- mastodonapi/mastodonapi.go: the registration of an application, and the use of a token.
use activitypub_core.Common.{
  ℕ, String, not, Option, none, some, List, [], ◌∷◌, ◌==◌, nat_eq, if◌then◌else◌,
}
use activitypub_core.Common.Text.{
  trim_space, to_lower, equal_fold, has_prefix, cut, join, replace_char, fields,
}
use activitypub_core.Common.Exec.{Result, ok, err}
use activitypub_core.Json.{
  Json, Raw, no_bytes, malformed, json, Fields, as_string, as_array, as_object, lookup,
}
use activitypub_core.Url.Query.{Values, get}
use activitypub_core.Oauth.State.{Application, OauthDb, Crypto}
use activitypub_core.Oauth.Store.{insert_oauth_application, actor_id_for_access_token}

pub record AppFields : Type 0 where
  pub client_name : String
  pub redirect_uris : String
  pub scopes : String
  pub website : String

-- The forms are `none` where `ParseMultipartForm` or `ParseForm` fails; the body is `none` where
-- reading it fails.
pub record AppsRequest : Type 0 where
  pub method : String
  pub media_type : String
  pub multipart_form : Option Values
  pub form : Option Values
  pub body : Option Raw

unfoldable pub form_app_fields : Values → AppFields
unfolding get trim_space
form_app_fields q = record {
  client_name = trim_space (get "client_name" q);
  redirect_uris = trim_space (get "redirect_uris" q);
  scopes = trim_space (get "scopes" q);
  website = trim_space (get "website" q);
}

-- `var arr []string`: null is the empty text, and any other value is an error.
unfoldable pub all_strings : List Json → Option (List String)
unfolding as_string
all_strings [] = some []
all_strings (j ∷ js) = elim (as_string j) [
  | none ↦ none
  | some s ↦ elim (all_strings js) [ none ↦ none | some rest ↦ some (s ∷ rest) ]
]

-- the texts that are not empty, without the space around them
unfoldable pub trimmed_parts : List String → List String
unfolding trim_space
trimmed_parts [] = []
trimmed_parts (u ∷ us) =
    let rest = trimmed_parts us in if trim_space u == "" then rest else trim_space u ∷ rest

unfoldable pub normalize_redirect_uris_json : Json → String
unfolding as_string as_array all_strings trimmed_parts trim_space join
normalize_redirect_uris_json j = elim (as_string j) [
  | some s ↦ trim_space s
  | none ↦ elim (as_array j) [
    | none ↦ ""
    | some js ↦ elim (all_strings js) [ none ↦ "" | some us ↦ join "\n" (trimmed_parts us) ]
  ]
]

-- A text of a member; a missing member and another value leave it empty.
abbrev text_member : String → Fields → String
text_member name m = elim (lookup name m) [
  | none ↦ ""
  | some j ↦ elim (as_string j) [ none ↦ "" | some s ↦ trim_space s ]
]

abbrev uris_member : Fields → String
uris_member m = elim (lookup "redirect_uris" m) [
  | none ↦ ""
  | some j ↦ normalize_redirect_uris_json j
]

abbrev json_app_fields : Json → Option AppFields
json_app_fields j = elim (as_object j) [
  | none ↦ none
  | some m ↦ some (record {
    client_name = text_member "client_name" m;
    redirect_uris = uris_member m;
    scopes = text_member "scopes" m;
    website = text_member "website" m;
  })
]

abbrev raw_app_fields : Raw → Option AppFields
raw_app_fields no_bytes = none
raw_app_fields malformed = none
raw_app_fields (json j) = json_app_fields j

unfoldable pub decode_apps_registration_request : AppsRequest → Option AppFields
unfolding form_app_fields normalize_redirect_uris_json trim_space to_lower has_prefix lookup
    as_string as_object
decode_apps_registration_request r =
    let ct = to_lower (trim_space r.media_type) in
    if has_prefix ct "multipart/form-data"
    then elim r.multipart_form [ none ↦ none | some q ↦ some (form_app_fields q) ]
    else if has_prefix ct "application/x-www-form-urlencoded"
    then elim r.form [ none ↦ none | some q ↦ some (form_app_fields q) ]
    else elim r.body [ none ↦ none | some raw ↦ raw_app_fields raw ]

-- The members of the answer; `redirect_uris` is the registered text without the space around it.
pub record AppReply : Type 0 where
  pub id : ℕ
  pub name : String
  pub website : String
  pub redirect_uri : String
  pub redirect_uris : String
  pub client_id : String
  pub client_secret : String

-- writeAPIError, or the answer with status 200.
pub data AppsReply : Type 0 where
  write_api_error : (status : ℕ) → (message : String) → AppsReply
  app_created : AppReply → AppsReply

abbrev first_field : String → List String → String
first_field whole [] = whole
first_field whole (part ∷ parts) = part

abbrev pub scopes_or_default : String → String
scopes_or_default s = if s == "" then "read write" else s

abbrev apps_reply : String → AppFields → Result Application → AppsReply
apps_reply secret f (err e) = write_api_error 500 "could not create app"
apps_reply secret f (ok app) = app_created (record {
  id = app.id;
  name = app.client_name;
  website = app.website;
  redirect_uri =
      first_field (trim_space f.redirect_uris)
        (fields (replace_char "\n" " " (trim_space f.redirect_uris)));
  redirect_uris = trim_space f.redirect_uris;
  client_id = app.client_id;
  client_secret = secret;
})

-- `client_id` and `secret` are the two tokens that are drawn.
unfoldable pub post_apps : Crypto → String → String → AppsRequest → OauthDb → AppsReply × OauthDb
unfolding decode_apps_registration_request trim_space fields replace_char
post_apps p client_id secret r s =
    if not (r.method == "POST")
    then (write_api_error 405 "method not allowed", s)
    else elim (decode_apps_registration_request r) [
      | none ↦ (write_api_error 400 "invalid request body", s)
      | some f ↦
          if trim_space f.redirect_uris == ""
          then (write_api_error 400 "redirect_uris required", s)
          else let (inserted, t) =
              insert_oauth_application p client_id secret f.client_name f.redirect_uris f.website
                (scopes_or_default f.scopes) s in
            (apps_reply secret f inserted, t)
    ]

-- `strings.SplitN(h, " ", 2)` is a cut at the first space. The argument is the header's value.
unfoldable pub actor_id_from_bearer : Crypto → String → OauthDb → Option ℕ
unfolding trim_space cut equal_fold
actor_id_from_bearer p header s = elim (cut b' ' (trim_space header)) [
  | none ↦ none
  | some (scheme, rest) ↦
      let token = trim_space rest in
      if not (equal_fold scheme "Bearer")
      then none
      else if token == ""
      then none
      else elim (actor_id_for_access_token p token s) [
        | err _ ↦ none
        | ok (actor, _, _) ↦ if nat_eq actor 0 then none else some actor
      ]
]

-- `next` with the actor, or the answer 401.
unfoldable pub bearer {ℓ} : {A : Type ℓ} → Crypto → String → OauthDb → A → (ℕ → A) → A
unfolding actor_id_from_bearer
bearer p header s unauthorized next = elim (actor_id_from_bearer p header s) [
  | none ↦ unauthorized
  | some actor ↦ next actor
]
