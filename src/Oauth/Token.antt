-- ===== src/Oauth/Token.antt =====
-- mastodonapi/oauth.go: postOAuthToken with its two grants, oauthScopesSubset and pkceVerify. A
-- transaction that is not committed leaves the tables as they were: those replies carry the
-- state before it.
use activitypub_core.Common.{
  ℕ, String, Bool, true, false, not, ◌||◌, Option, none, some, List, [], ◌∷◌, ◌==◌, nat_eq,
  any_where, if◌then◌else◌,
}
use activitypub_core.Common.Text.{trim_space, to_lower, to_upper, replace_char, fields}
use activitypub_core.Common.Exec.{ok, err}
use activitypub_core.Url.Query.{Values, get}
use activitypub_core.Oauth.State.{Application, OauthDb, Crypto}
use activitypub_core.Oauth.Store.{
  AuthCodeRow, oauth_application_by_client_id, verify_client_secret, redirect_uri_allowed,
  consume_authorization_code, insert_access_token_tx, insert_app_access_token_tx,
}
use activitypub_core.Oauth.Params.{TokenRequest, Readers, parse_oauth_token_params}
use activitypub_core.Oauth.Authorize.{Reply, oauth_token_error, write_oauth_token_ok}

-- `strings.Fields(strings.ReplaceAll(strings.TrimSpace(s), "+", " "))`
unfoldable pub scope_words : String → List String
unfolding fields replace_char trim_space
scope_words s = fields (replace_char "+" " " (trim_space s))

-- every requested scope is in the set
unfoldable pub all_allowed : List String → List String → Bool
all_allowed allow [] = true
all_allowed allow (s ∷ req) =
    if not (any_where (λ a. a == s) allow) then false else all_allowed allow req

unfoldable pub oauth_scopes_subset : String → String → Bool
unfolding scope_words all_allowed
oauth_scopes_subset requested allowed = all_allowed (scope_words allowed) (scope_words requested)

abbrev pub method_or_s256 : String → String
method_or_s256 m = if m == "" then "S256" else m

-- the switch over the method
unfoldable pub pkce_method : Crypto → String → String → String → Option String
pkce_method p v challenge meth =
    if meth == "S256"
    then (if p.raw_url_encode (p.sha256 v) == challenge then none else some "invalid code_verifier")
    else if meth == "PLAIN"
    then (if v == challenge then none else some "invalid code_verifier")
    else some "unsupported code_challenge_method"

-- `some message` is the error.
unfoldable pub pkce_verify : Crypto → String → AuthCodeRow → Option String
unfolding trim_space to_upper
pkce_verify p verifier row =
    let v = trim_space verifier in
    if row.challenge == ""
    then none
    else if v == ""
    then some "code_verifier required"
    else pkce_method p v row.challenge (method_or_s256 (to_upper (trim_space row.challenge_meth)))

-- From the begin of the transaction to its end, for an authenticated client.
unfoldable pub exchange_code :
    Crypto → ℕ → String → Application → String → String → String → OauthDb → Reply × OauthDb
unfolding consume_authorization_code pkce_verify insert_access_token_tx
exchange_code p now token app code redirect_uri verifier s =
    let (consumed, t) = consume_authorization_code now code redirect_uri s in
    elim consumed [
      | err _ ↦ (oauth_token_error 400 "invalid_grant" "invalid or expired authorization code", s)
      | ok row ↦
          if not (nat_eq row.application_id app.id)
          then (
            oauth_token_error 400 "invalid_grant" "authorization code was issued to another client",
            s,
          )
          else elim (pkce_verify p verifier row) [
            | some message ↦ (oauth_token_error 400 "invalid_grant" message, s)
            | none ↦
                let (inserted, u) =
                  insert_access_token_tx p token row.application_id row.actor_id row.scopes t in
                elim inserted [
                  | err _ ↦
                      (oauth_token_error 500 "server_error" "could not create access token", s)
                  | ok raw ↦ (write_oauth_token_ok raw row.scopes now, u)
                ]
          ]
    ]

unfoldable pub post_oauth_token_authorization_code :
    Crypto → ℕ → String → Values → OauthDb → Reply × OauthDb
unfolding trim_space get oauth_application_by_client_id verify_client_secret exchange_code
post_oauth_token_authorization_code p now token vals s =
    let code = trim_space (get "code" vals) in
    let client_id = trim_space (get "client_id" vals) in
    let redirect_uri = trim_space (get "redirect_uri" vals) in
    let verifier = trim_space (get "code_verifier" vals) in
    if code == "" || client_id == "" || redirect_uri == ""
    then (
      oauth_token_error 400 "invalid_request" "code, client_id, and redirect_uri are required",
      s,
    )
    else elim (oauth_application_by_client_id client_id s) [
      | err _ ↦ (oauth_token_error 401 "invalid_client" "unknown client_id", s)
      | ok app ↦
          if not (verify_client_secret p app (get "client_secret" vals))
          then (oauth_token_error 401 "invalid_client" "invalid client_secret", s)
          else exchange_code p now token app code redirect_uri verifier s
    ]

abbrev pub scope_or_read : String → String
scope_or_read s = if s == "" then "read" else s

-- The transaction that stores a token of the application.
unfoldable pub grant_client : Crypto → ℕ → String → Application → String → OauthDb → Reply × OauthDb
unfolding insert_app_access_token_tx
grant_client p now token app scope s =
    let (inserted, t) = insert_app_access_token_tx p token app.id scope s in
    elim inserted [
      | err _ ↦ (oauth_token_error 500 "server_error" "could not create access token", s)
      | ok raw ↦ (write_oauth_token_ok raw scope now, t)
    ]

unfoldable pub post_oauth_token_client_credentials :
    Crypto → ℕ → String → Values → OauthDb → Reply × OauthDb
unfolding trim_space get oauth_application_by_client_id verify_client_secret redirect_uri_allowed
    oauth_scopes_subset grant_client
post_oauth_token_client_credentials p now token vals s =
    let client_id = trim_space (get "client_id" vals) in
    let redirect_uri = trim_space (get "redirect_uri" vals) in
    let scope = scope_or_read (trim_space (get "scope" vals)) in
    if client_id == "" || redirect_uri == ""
    then (
      oauth_token_error 400 "invalid_request"
          "client_id, client_secret, and redirect_uri are required",
      s,
    )
    else elim (oauth_application_by_client_id client_id s) [
      | err _ ↦ (oauth_token_error 401 "invalid_client" "unknown client_id", s)
      | ok app ↦
          if not (verify_client_secret p app (get "client_secret" vals))
          then (oauth_token_error 401 "invalid_client" "invalid client_secret", s)
          else if not (redirect_uri_allowed app.redirect_uris redirect_uri)
          then (oauth_token_error 400 "invalid_request" "invalid redirect_uri", s)
          else if not (oauth_scopes_subset scope app.scopes)
          then (
            oauth_token_error 400 "invalid_scope"
                "The requested scope is invalid, unknown, or malformed.",
            s,
          )
          else grant_client p now token app scope s
    ]

unfoldable pub post_oauth_token :
    Crypto → Readers → ℕ → String → TokenRequest → OauthDb → Reply × OauthDb
unfolding parse_oauth_token_params trim_space to_lower get post_oauth_token_authorization_code
    post_oauth_token_client_credentials
post_oauth_token p readers now token r s =
    if not (r.method == "POST")
    then (oauth_token_error 405 "invalid_request" "method not allowed", s)
    else elim (parse_oauth_token_params readers r) [
      | none ↦ (oauth_token_error 400 "invalid_request" "invalid request body", s)
      | some vals ↦
          let grant_type = trim_space (get "grant_type" vals) in
          if grant_type == ""
          then (oauth_token_error 400 "invalid_request" "grant_type is required", s)
          else if to_lower grant_type == "authorization_code"
          then post_oauth_token_authorization_code p now token vals s
          else if to_lower grant_type == "client_credentials"
          then post_oauth_token_client_credentials p now token vals s
          else (oauth_token_error 400 "unsupported_grant_type" "grant type is not supported", s)
    ]
