-- ===== src/Oauth/Store.antt =====
-- store/oauth.go and store/local_accounts.go: one function for each statement. The random token of
-- `randomTokenURL` and the clock are arguments; codes live for ten minutes.
use activitypub_core.Common.{
  ℕ, ◌+◌, String, Bool, false, ◌&&◌, ◌||◌, Option, none, some, List, [], ◌∷◌, ◌++◌, ◌==◌, ltb,
  nat_eq, any_where, find_where, delete_where, update_where, if◌then◌else◌,
}
use activitypub_core.Common.Text.{trim_space, fields_func}
use activitypub_core.Common.Exec.{Exec, Result, ok, err, failure, no_rows, unique_violation}
use activitypub_core.Store.{Actor}
use activitypub_core.Oauth.State.{
  Application, CodeRow, TokenRow, AccountRow, OauthDb, Crypto, null_if_empty, or_empty,
}

unfoldable pub hash_secret : Crypto → String → String
hash_secret p raw = p.sha256 raw

abbrev pub has_client_id : String → Application → Bool
has_client_id id app = app.client_id == id

-- `client_id` and `client_secret` are the two tokens that are drawn.
unfoldable pub insert_oauth_application :
    Crypto → String → String → String → String → String → String → Exec OauthDb Application
unfolding hash_secret
insert_oauth_application p client_id client_secret name redirect_uris website scopes s =
    let t = record s { next_application = s.next_application + 1 } in
    let app : Application = record {
      id = s.next_application;
      client_id = client_id;
      secret_hash = hash_secret p client_secret;
      redirect_uris = redirect_uris;
      client_name = name;
      website = website;
      scopes = scopes;
    } in
    if trim_space redirect_uris == ""
    then (err (failure "redirect_uris required"), s)
    else if any_where (has_client_id client_id) s.applications
    then (err unique_violation, t)
    else (ok app, record t { applications = s.applications ++ app ∷ [] })

unfoldable pub oauth_application_by_client_id : String → OauthDb → Result Application
oauth_application_by_client_id id s = elim (find_where (has_client_id id) s.applications) [
  | none ↦ err no_rows
  | some app ↦ ok app
]

unfoldable pub verify_client_secret : Crypto → Application → String → Bool
unfolding hash_secret
verify_client_secret p app secret =
    if secret == "" then false else app.secret_hash == hash_secret p secret

-- `r == ' ' || r == '\n' || r == '\t'`
abbrev pub is_uri_separator : ℕ → Bool
is_uri_separator c = nat_eq c 32 || nat_eq c 10 || nat_eq c 9

unfoldable pub redirect_uri_allowed : String → String → Bool
unfolding fields_func
redirect_uri_allowed registered candidate =
    let registered = trim_space registered in
    let candidate = trim_space candidate in
    if registered == "" || candidate == ""
    then false
    else any_where (λ part. trim_space part == candidate) (fields_func is_uri_separator registered)

abbrev pub has_code : String → CodeRow → Bool
has_code code r = r.code == code

-- `time.Now().UTC().Add(10 * time.Minute)`, in seconds
abbrev pub code_lifetime : ℕ
code_lifetime = 600

-- the code, the clock, and the columns in the order of the source
unfoldable pub insert_authorization_code :
    String → ℕ → ℕ → ℕ → String → String → String → String → Exec OauthDb String
insert_authorization_code code now app_id actor_id redirect_uri scopes challenge method s =
    let row : CodeRow = record {
      code = code;
      application_id = app_id;
      actor_id = actor_id;
      redirect_uri = redirect_uri;
      scopes = scopes;
      code_challenge = null_if_empty challenge;
      code_challenge_method = null_if_empty method;
      expires_at = now + code_lifetime;
    } in
    if any_where (has_code code) s.codes
    then (err unique_violation, s)
    else (ok code, record s { codes = s.codes ++ row ∷ [] })

pub record AuthCodeRow : Type 0 where
  pub application_id : ℕ
  pub actor_id : ℕ
  pub redirect_uri : String
  pub scopes : String
  pub challenge : String
  pub challenge_meth : String

-- WHERE code = $1 AND redirect_uri = $2 AND expires_at > now()
abbrev pub is_valid_code : ℕ → String → String → CodeRow → Bool
is_valid_code now code redirect_uri r =
    r.code == code && r.redirect_uri == redirect_uri && ltb now r.expires_at

abbrev pub auth_code_row : CodeRow → AuthCodeRow
auth_code_row r = record {
  application_id = r.application_id;
  actor_id = r.actor_id;
  redirect_uri = r.redirect_uri;
  scopes = r.scopes;
  challenge = or_empty r.code_challenge;
  challenge_meth = or_empty r.code_challenge_method;
}

unfoldable pub consume_authorization_code : ℕ → String → String → Exec OauthDb AuthCodeRow
consume_authorization_code now code redirect_uri s =
    elim (find_where (is_valid_code now code redirect_uri) s.codes) [
      | none ↦ (err no_rows, s)
      | some r ↦ (
        ok (auth_code_row r),
        record s { codes = delete_where (is_valid_code now code redirect_uri) s.codes },
      )
    ]

abbrev pub has_token_hash : String → TokenRow → Bool
has_token_hash h r = r.token_hash == h

-- INSERT INTO oauth_access_tokens
unfoldable pub insert_token : Crypto → String → ℕ → Option ℕ → String → Exec OauthDb String
unfolding hash_secret
insert_token p raw app_id actor_id scopes s =
    let row : TokenRow = record {
      token_hash = hash_secret p raw;
      application_id = app_id;
      actor_id = actor_id;
      scopes = scopes;
    } in
    if any_where (has_token_hash (hash_secret p raw)) s.tokens
    then (err unique_violation, s)
    else (ok raw, record s { tokens = s.tokens ++ row ∷ [] })

unfoldable pub insert_access_token : Crypto → String → ℕ → ℕ → String → Exec OauthDb String
unfolding insert_token
insert_access_token p raw app_id actor_id scopes = insert_token p raw app_id (some actor_id) scopes

unfoldable pub insert_access_token_tx : Crypto → String → ℕ → ℕ → String → Exec OauthDb String
unfolding insert_token
insert_access_token_tx p raw app_id actor_id scopes =
    insert_token p raw app_id (some actor_id) scopes

unfoldable pub insert_app_access_token_tx : Crypto → String → ℕ → String → Exec OauthDb String
unfolding insert_token
insert_app_access_token_tx p raw app_id scopes = insert_token p raw app_id none scopes

-- `(actorID, appID, scopes)`; the actor of a token of an application is 0.
unfoldable pub actor_id_for_access_token : Crypto → String → OauthDb → Result (ℕ × ℕ × String)
unfolding hash_secret
actor_id_for_access_token p raw s =
    elim (find_where (has_token_hash (hash_secret p raw)) s.tokens) [
      | none ↦ err no_rows
      | some r ↦ ok (elim r.actor_id [ none ↦ 0 | some actor ↦ actor ], r.application_id, r.scopes)
    ]

abbrev pub has_account : ℕ → AccountRow → Bool
has_account actor r = nat_eq r.actor_id actor

-- `salt` is drawn by bcrypt.
unfoldable pub upsert_local_account_password :
    Crypto → String → ℕ → String → Exec OauthDb (Unit {0})
upsert_local_account_password p salt actor password s =
    if password == ""
    then (err (failure "password required"), s)
    else elim (p.generate_from_password salt password) [
      | none ↦ (err (failure "bcrypt"), s)
      | some hash ↦ (
        ok tt,
        record s {
          accounts =
              if any_where (has_account actor) s.accounts
              then update_where (has_account actor) (λ r. record r { password_bcrypt = hash })
                  s.accounts
              else s.accounts ++ record { actor_id = actor; password_bcrypt = hash } ∷ [];
        },
      )
    ]

-- actors a JOIN local_accounts la ON la.actor_id = a.id WHERE a.username = $1 AND a.domain = $2
abbrev pub is_account_of : String → String → List AccountRow → Actor → Bool
is_account_of domain username accounts a =
    a.username == username && a.domain == domain && any_where (has_account a.id) accounts

unfoldable pub authenticate_local_account : Crypto → String → String → String → OauthDb → Result ℕ
authenticate_local_account p domain username password s =
    elim (find_where (is_account_of domain username s.accounts) s.actors) [
      | none ↦ err no_rows
      | some a ↦ elim (find_where (has_account a.id) s.accounts) [
        | none ↦ err no_rows
        | some account ↦
            if p.password_matches account.password_bcrypt password
            then ok a.id
            else err (failure "invalid credentials")
      ]
    ]

unfoldable pub local_account_exists : ℕ → OauthDb → Result Bool
local_account_exists actor s = ok (any_where (has_account actor) s.accounts)
