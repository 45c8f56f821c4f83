-- ===== src/Oauth/Tests.antt =====
-- Runs of the OAuth server with one application, one account and one code.
use activitypub_core.Common.{
  ◌≡◌, ◌≢◌, refl, ap, subst, eq_iff, ◌⊎◌, ◌↔◌, All, any_where, find_where, arith, true, false, none,
  some, [], ◌∷◌, ◌==◌,
}
use activitypub_core.Common.Text.{◌⧺◌, trim_space, to_upper, is_space}
use activitypub_core.Json.{no_bytes, arr, str, Elems, done, item}
use activitypub_core.Store.{Actor}
use activitypub_core.Url.Query.{Values, get, set}
use activitypub_core.Oauth.State.{Crypto, OauthDb, Application, CodeRow}
use activitypub_core.Oauth.Store.{is_valid_code, auth_code_row, redirect_uri_allowed}
use activitypub_core.Oauth.Soundness.{
  IsCodeGrant, IsClientGrant, post_oauth_token_sound, post_oauth_token-is_token, pkce_verify_sound,
}
use activitypub_core.Oauth.Consistent.{IsConsistent}
use activitypub_core.Oauth.Steps.{Reach, here, next, exchange, Reach-IsConsistent}
use activitypub_core.Oauth.SingleUse.{at_once, code_single_use}
use activitypub_core.Oauth.Redirects.{
  IsIn, oauth_scopes_subset_iff, redirect_uri_allowed-registered, actor_id_from_bearer-granted,
}
use activitypub_core.Oauth.Register.{
  all_strings, normalize_redirect_uris_json, actor_id_from_bearer,
}
use activitypub_core.Oauth.Params.{parse_oauth_token_params, Readers, TokenRequest}
use activitypub_core.Oauth.Authorize.{write_oauth_token_ok, is_token}
use activitypub_core.Oauth.Token.{
  post_oauth_token, post_oauth_token_authorization_code, pkce_verify, pkce_method,
  oauth_scopes_subset, scope_words,
}

abbrev crypto : Crypto
crypto = record {
  sha256 = λ s. s;
  raw_url_encode = λ s. s;
  generate_from_password = λ salt s. some s;
  password_matches = λ hash s. hash == s;
}

abbrev readers : Readers
readers = record { parse_json = λ _. no_bytes; multipart_parts = λ _ _. none }

abbrev alice : Actor
alice = record {
  id = 7;
  username = "alice";
  domain = "here.example";
  actor_url = "https://here.example/@alice";
  inbox_url = "";
  outbox_url = "";
  public_key_pem = "";
  private_key_pem = none;
}

abbrev app : Application
app = record {
  id = 1;
  client_id = "app";
  secret_hash = "s3";
  redirect_uris = "https://app.example/cb";
  client_name = "";
  website = "";
  scopes = "read write";
}

abbrev code_row : CodeRow
code_row = record {
  code = "c0de";
  application_id = 1;
  actor_id = 7;
  redirect_uri = "https://app.example/cb";
  scopes = "read";
  code_challenge = some "v";
  code_challenge_method = none;
  expires_at = 600;
}

abbrev db : OauthDb
db = record {
  actors = alice ∷ [];
  accounts = record { actor_id = 7; password_bcrypt = "pw" } ∷ [];
  applications = app ∷ [];
  codes = code_row ∷ [];
  tokens = [];
  next_application = 2;
}

abbrev form : Values
form =
    ("grant_type", "authorization_code" ∷ [])
    ∷ ("code", "c0de" ∷ [])
    ∷ ("client_id", "app" ∷ [])
    ∷ ("client_secret", "s3" ∷ [])
    ∷ ("redirect_uri", "https://app.example/cb" ∷ [])
    ∷ ("code_verifier", "v" ∷ [])
    ∷ []

abbrev request : TokenRequest
request = record {
  method = "POST";
  query = form;
  media_type = "";
  boundary = "";
  body = some "";
  basic_auth = none;
}

abbrev granted : OauthDb
granted = record db {
  codes = [];
  tokens =
      record { token_hash = "tok"; application_id = 1; actor_id = some 7; scopes = "read" } ∷ [];
}

exchanges :
    post_oauth_token crypto readers 100 "tok" request db
    ≡ (write_oauth_token_ok "tok" "read" 100, granted)
unfolding post_oauth_token pkce_method
exchanges = refl

post_oauth_token_sound_example :
    (vals : Values) × (parse_oauth_token_params readers request ≡ some vals)
    × (IsCodeGrant crypto 100 vals db "tok" "read" granted
        ⊎ IsClientGrant crypto 100 vals db "tok" "read" granted)
post_oauth_token_sound_example =
    post_oauth_token_sound crypto 100 readers "tok" request db granted "tok" "read" 100 exchanges

abbrev wrong_secret : TokenRequest
wrong_secret = record request { query = set "client_secret" "guess" form }

refuses : is_token (post_oauth_token crypto readers 100 "tok" wrong_secret db).0 ≡ false
unfolding post_oauth_token pkce_method set
refuses = refl

post_oauth_token-is_token_example :
    (post_oauth_token crypto readers 100 "tok" wrong_secret db).1 ≡ db
post_oauth_token-is_token_example =
    post_oauth_token-is_token crypto 100 readers "tok" wrong_secret db refuses

db-IsConsistent : IsConsistent db
unfolding redirect_uri_allowed trim_space
db-IsConsistent = record {
  clients = (tt, tt);
  ids = (omega arith, tt);
  distinct_ids = (tt, tt);
  codes = (tt, tt);
  tokens = tt;
  issued = ((refl, refl), tt);
  granted = tt;
}

granted-IsConsistent : Reach crypto db granted
granted-IsConsistent =
    subst (Reach crypto db) (ap (λ r. r.1) exchanges)
      (next here (exchange "" readers 100 "tok" request db))

Reach-IsConsistent_example : IsConsistent granted
Reach-IsConsistent_example =
    Reach-IsConsistent crypto db granted db-IsConsistent granted-IsConsistent

exchanges_form :
    post_oauth_token_authorization_code crypto 100 "tok" form db
    ≡ (write_oauth_token_ok "tok" "read" 100, granted)
unfolding post_oauth_token_authorization_code pkce_method
exchanges_form = refl

code_single_use_example :
    is_token (post_oauth_token_authorization_code crypto 101 "t2" form granted).0 ≡ false
code_single_use_example =
    code_single_use crypto 100 101 "tok" "t2" "tok" "read" 100 form form db granted granted
      db-IsConsistent exchanges_form at_once refl

pkce_verify_sound_example :
    (trim_space " v" ≢ "")
    × (((to_upper (trim_space "") ≡ "PLAIN") × (trim_space " v" ≡ "v"))
        ⊎ ((to_upper (trim_space "") ≢ "PLAIN")
            × (crypto.raw_url_encode (crypto.sha256 (trim_space " v")) ≡ "v")))
unfolding pkce_verify pkce_method
pkce_verify_sound_example =
    pkce_verify_sound crypto " v" (auth_code_row code_row)
      (λ e. ground (arith, (eq_iff "v" "").1 e)) refl

oauth_scopes_subset_iff_example :
    (oauth_scopes_subset "read" "read write" ≡ true)
    ↔ All (λ s. IsIn s (scope_words "read write")) (scope_words "read")
oauth_scopes_subset_iff_example = oauth_scopes_subset_iff "read" "read write"

scope_examples :
    (oauth_scopes_subset "read+write" "write read" ≡ true)
    × (oauth_scopes_subset "admin" "read" ≡ false)
unfolding oauth_scopes_subset
scope_examples = (refl, refl)

abbrev uris : Elems
uris = item (str "https://a.example/cb") (item (str "app://x") done)

redirect_uri_allowed-registered_example :
    redirect_uri_allowed (normalize_redirect_uris_json (arr uris)) " app://x "
    ≡ any_where (λ u. u == trim_space " app://x ") ("https://a.example/cb" ∷ "app://x" ∷ [])
unfolding all_strings is_space
redirect_uri_allowed-registered_example =
    redirect_uri_allowed-registered uris ("https://a.example/cb" ∷ "app://x" ∷ []) " app://x " refl
      (ground arith)

actor_id_from_bearer-granted_example :
    (row : CodeRow) × (find_where
        (is_valid_code 100 (trim_space (get "code" form)) (trim_space (get "redirect_uri" form)))
        db.codes
      ≡ some row)
    × (actor_id_from_bearer crypto ("Bearer " ⧺ "tok") granted ≡ some row.actor_id)
unfolding is_space
actor_id_from_bearer-granted_example =
    actor_id_from_bearer-granted crypto 100 "tok" form db granted "tok" "read" 100 exchanges_form
      (ground arith) (λ e. omega arith, tt)
