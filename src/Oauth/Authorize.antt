-- ===== src/Oauth/Authorize.antt =====
-- mastodonapi/oauth.go: getOAuthAuthorize and postOAuthAuthorize, with the replies of the OAuth
-- handlers. What `net/http` decodes is an argument: the query, and the form of `ParseForm`.
use activitypub_core.Common.{
  ℕ, String, Bool, true, false, not, ◌||◌, Option, none, some, ◌==◌, if◌then◌else◌,
}
use activitypub_core.Common.Text.{trim_space}
use activitypub_core.Common.Exec.{ok, err}
use activitypub_core.Url.{Url, parse, hostname}
use activitypub_core.Url.Query.{Values, get, set, parse_query, encode}
use activitypub_core.Oauth.State.{Application, OauthDb, Crypto}
use activitypub_core.Oauth.Store.{
  oauth_application_by_client_id, redirect_uri_allowed, authenticate_local_account,
  insert_authorization_code,
}

-- The hidden fields of oauthFormHTML and the instance of its title.
pub record AuthorizeForm : Type 0 where
  pub client_id : String
  pub redirect_uri : String
  pub scope : String
  pub state : String
  pub code_challenge : String
  pub code_challenge_method : String
  pub instance_host : String

-- oauthAuthorizeHTML, the form, the redirection (302) to a URL, oauthTokenError, and
-- writeOAuthTokenOK with the token, its scopes and the clock.
pub data Reply : Type 0 where
  oauth_authorize_html : (status : ℕ) → (message : String) → Reply
  authorize_form : AuthorizeForm → Reply
  redirect_found : Url → Reply
  oauth_token_error : (status : ℕ) → (error : String) → (description : String) → Reply
  write_oauth_token_ok : (token : String) → (scope : String) → (created_at : ℕ) → Reply

abbrev pub is_token : Reply → Bool
is_token (write_oauth_token_ok token scope at) = true
is_token _ = false

unfoldable pub instance_host : String → String
unfolding parse hostname
instance_host public_base_url = elim (parse public_base_url) [ none ↦ "" | some u ↦ hostname u ]

unfoldable pub get_oauth_authorize : String → String → Values → OauthDb → Reply
unfolding get oauth_application_by_client_id redirect_uri_allowed instance_host
get_oauth_authorize public_base_url method q s =
    let client_id = get "client_id" q in
    let redirect_uri = get "redirect_uri" q in
    if not (method == "GET")
    then oauth_authorize_html 405 "Method not allowed"
    else if not (get "response_type" q == "code")
    then oauth_authorize_html 400 "response_type must be code"
    else if client_id == "" || redirect_uri == ""
    then oauth_authorize_html 400 "client_id and redirect_uri are required"
    else elim (oauth_application_by_client_id client_id s) [
      | err _ ↦ oauth_authorize_html 400 "Unknown client_id"
      | ok app ↦
          if not (redirect_uri_allowed app.redirect_uris redirect_uri)
          then oauth_authorize_html 400 "Invalid redirect_uri"
          else authorize_form (record {
            client_id = client_id;
            redirect_uri = redirect_uri;
            scope = get "scope" q;
            state = get "state" q;
            code_challenge = get "code_challenge" q;
            code_challenge_method = get "code_challenge_method" q;
            instance_host = instance_host public_base_url;
          })
    ]

-- The redirection with `code` and `state` in the query.
unfoldable pub redirect_with_code : Url → String → String → Url
unfolding parse_query set encode
redirect_with_code u code state =
    let q = set "code" code (parse_query u.raw_query).0 in
    record u { raw_query = encode (if state == "" then q else set "state" state q) }

-- After the password: the code is stored before the redirect URI is parsed.
unfoldable pub issue_code : String → ℕ → Values → Application → ℕ → OauthDb → Reply × OauthDb
unfolding get insert_authorization_code parse redirect_with_code
issue_code code now form app actor_id s =
    let scope = get "scope" form in
    let redirect_uri = get "redirect_uri" form in
    let (stored, t) =
      insert_authorization_code code now app.id actor_id redirect_uri
        (if scope == "" then app.scopes else scope) (get "code_challenge" form)
        (get "code_challenge_method" form) s in
    elim stored [
      | err _ ↦ (oauth_authorize_html 500 "Could not create authorization code", t)
      | ok _ ↦ elim (parse redirect_uri) [
        | none ↦ (oauth_authorize_html 400 "Invalid redirect URI", t)
        | some u ↦ (redirect_found (redirect_with_code u code (get "state" form)), t)
      ]
    ]

unfoldable pub post_oauth_authorize :
    Crypto → String → String → ℕ → String → Option Values → OauthDb → Reply × OauthDb
unfolding get oauth_application_by_client_id redirect_uri_allowed authenticate_local_account
    instance_host trim_space issue_code
post_oauth_authorize p public_base_url code now method none s =
    if not (method == "POST")
    then (oauth_authorize_html 405 "Method not allowed", s)
    else (oauth_authorize_html 400 "Invalid form", s)
post_oauth_authorize p public_base_url code now method (some form) s =
    if not (method == "POST")
    then (oauth_authorize_html 405 "Method not allowed", s)
    else elim (oauth_application_by_client_id (get "client_id" form) s) [
      | err _ ↦ (oauth_authorize_html 400 "Unknown client_id", s)
      | ok app ↦
          if not (redirect_uri_allowed app.redirect_uris (get "redirect_uri" form))
          then (oauth_authorize_html 400 "Invalid redirect_uri", s)
          else elim (authenticate_local_account p (instance_host public_base_url)
              (trim_space (get "username" form)) (get "password" form) s) [
                | err _ ↦ (oauth_authorize_html 401 "Invalid username or password", s)
                | ok actor_id ↦ issue_code code now form app actor_id s
              ]
    ]
