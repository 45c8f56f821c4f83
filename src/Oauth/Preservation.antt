-- ===== src/Oauth/Preservation.antt =====
-- Every handler and statement that writes the OAuth tables keeps them consistent.
use activitypub_core.Common.{
  ◌≡◌, refl, inl, inr, ℕ, String, Bool, true, ◌&&◌, Option, none, some, List, [], ◌∷◌, ◌++◌, ◌==◌,
  nat_eq, nat_eq_iff, arith, any_where, find_where, find_where-All, update_where, Bool-cases,
  Option-cases,
}
use activitypub_core.Common.Text.{trim_space}
use activitypub_core.Common.Exec.{ok, Result-cases}
use activitypub_core.Url.Query.{Values, get}
use activitypub_core.Oauth.State.{Application, AccountRow, OauthDb, Crypto}
use activitypub_core.Oauth.Store.{
  has_client_id, has_account, has_code, is_account_of, is_valid_code, insert_oauth_application,
  insert_authorization_code, authenticate_local_account, redirect_uri_allowed,
  oauth_application_by_client_id, upsert_local_account_password, hash_secret,
}
use activitypub_core.Oauth.Params.{TokenRequest, Readers}
use activitypub_core.Oauth.Authorize.{
  Reply, write_oauth_token_ok, oauth_authorize_html, authorize_form, redirect_found,
  oauth_token_error, is_token, issue_code, post_oauth_authorize, instance_host,
}
use activitypub_core.Oauth.Token.{post_oauth_token, oauth_scopes_subset}
use activitypub_core.Oauth.Register.{
  AppsRequest, decode_apps_registration_request, post_apps, scopes_or_default,
}
use activitypub_core.Oauth.Soundness.{
  IsExchange, IsClientGrant, post_oauth_token_sound, post_oauth_token-is_token,
}
use activitypub_core.Oauth.Consistent.{
  IsConsistent, IsIssued, any_where-append, any_where-find_where, register-IsConsistent,
  skip-IsConsistent, issue-IsConsistent, grant-IsConsistent, grant_app-IsConsistent,
  accounts-IsConsistent,
}

pub token_reply :
    (r : Reply)
    → is_token r ≡ true
    → (raw : String) × (scopes : String) × (at : ℕ) × (r ≡ write_oauth_token_ok raw scopes at)
token_reply (oauth_authorize_html n m) e = cc
token_reply (authorize_form f) e = cc
token_reply (redirect_found u) e = cc
token_reply (oauth_token_error n m d) e = cc
token_reply (write_oauth_token_ok raw scopes at) e = (raw, scopes, at, refl)

module _ (p : Crypto) (s : OauthDb) (h : IsConsistent s) where
  insert_oauth_application-IsConsistent :
      (id secret name uris website scopes : String)
      → IsConsistent (insert_oauth_application p id secret name uris website scopes s).1
  unfolding insert_oauth_application
  insert_oauth_application-IsConsistent id secret name uris website scopes =
      let app : Application = record {
        id = s.next_application;
        client_id = id;
        secret_hash = hash_secret p secret;
        redirect_uris = uris;
        client_name = name;
        website = website;
        scopes = scopes;
      } in
      elim (Bool-cases (trim_space uris == "")) [
        | inl blank ↦ rw blank h
        | inr given ↦ elim (Bool-cases (any_where (has_client_id id) s.applications)) [
          | inl taken ↦ rw (given, taken) (skip-IsConsistent s h)
          | inr free ↦ rw (given, free) (register-IsConsistent s h app free refl)
        ]
      ]

  pub post_apps-IsConsistent :
      (id secret : String) (r : AppsRequest) → IsConsistent (post_apps p id secret r s).1
  unfolding post_apps
  post_apps-IsConsistent id secret r = elim (Bool-cases (r.method == "POST")) [
    | inr other ↦ rw other h
    | inl post ↦ elim (Option-cases (decode_apps_registration_request r)) [
      | inl unreadable ↦ rw (post, unreadable) h
      | inr (f, read) ↦ elim (Bool-cases (trim_space f.redirect_uris == "")) [
        | inl blank ↦ rw (post, read, blank) h
        | inr given ↦
            rw (post, read, given)
              (insert_oauth_application-IsConsistent id secret f.client_name f.redirect_uris
                f.website (scopes_or_default f.scopes))
      ]
    ]
  ]

  insert_authorization_code-IsConsistent :
      (code : String) (now app_id actor_id : ℕ) (uri scopes challenge method : String)
      → any_where
          (λ a. nat_eq a.id app_id && redirect_uri_allowed a.redirect_uris uri)
          s.applications
        ≡ true
      → any_where (has_account actor_id) s.accounts ≡ true
      → IsConsistent
          (insert_authorization_code code now app_id actor_id uri scopes challenge method s).1
  unfolding insert_authorization_code
  insert_authorization_code-IsConsistent code now app_id actor_id uri scopes challenge method k l =
      elim (Bool-cases (any_where (has_code code) s.codes)) [
        | inl taken ↦ rw taken h
        | inr free ↦ rw free (
            issue-IsConsistent s h
              (record {
                code = code;
                application_id = app_id;
                actor_id = actor_id;
                redirect_uri = uri;
                scopes = scopes;
                code_challenge = _;
                code_challenge_method = _;
                expires_at = _;
              })
              free (k, l))
      ]

  -- The code that is stored names an application that allows its redirect URI, and the actor whose
  -- password was given.
  issue_code-IsConsistent :
      (code : String) (now : ℕ) (form : Values) (app : Application) (actor_id : ℕ)
      → any_where
          (λ a.
            nat_eq a.id app.id && redirect_uri_allowed a.redirect_uris (get "redirect_uri" form))
          s.applications
        ≡ true
      → any_where (has_account actor_id) s.accounts ≡ true
      → IsConsistent (issue_code code now form app actor_id s).1
  unfolding issue_code
  issue_code-IsConsistent code now form app actor_id k l =
      grind (arith, insert_authorization_code-IsConsistent, k, l)

  authenticate_local_account-has_account :
      (domain username password : String) (actor : ℕ)
      → authenticate_local_account p domain username password s ≡ ok actor
      → any_where (has_account actor) s.accounts ≡ true
  unfolding authenticate_local_account
  authenticate_local_account-has_account domain username password actor e =
      elim (Option-cases (find_where (is_account_of domain username s.accounts) s.actors)) [
        | inl absent ↦ absurd (ground (arith, e, absent))
        | inr (a, found) ↦ elim (Option-cases (find_where (has_account a.id) s.accounts)) [
          | inl absent ↦ absurd (ground (arith, e, found, absent))
          | inr (account, kept) ↦
              let same : a.id ≡ actor = ground (arith, e, found, kept) in
              rw (← same) (
                any_where-find_where (has_account a.id) (has_account a.id) s.accounts account kept
                  (λ t. t))
        ]
      ]

  registered_under :
      (id : String) (app : Application) (q : Application → Bool)
      → oauth_application_by_client_id id s ≡ ok app
      → q app ≡ true
      → any_where q s.applications ≡ true
  unfolding oauth_application_by_client_id
  registered_under id app q e t =
      elim (Option-cases (find_where (has_client_id id) s.applications)) [
        | inl absent ↦ absurd (ground (arith, e, absent))
        | inr (a, found) ↦
            let same : a ≡ app = ground (arith, e, found) in
            any_where-find_where (has_client_id id) q s.applications a found (λ _. rw same t)
      ]

  allowed_by_client :
      (id : String) (app : Application) (uri : String)
      → oauth_application_by_client_id id s ≡ ok app
      → redirect_uri_allowed app.redirect_uris uri ≡ true
      → any_where
          (λ a. nat_eq a.id app.id && redirect_uri_allowed a.redirect_uris uri)
          s.applications
        ≡ true
  allowed_by_client id app uri e t =
      registered_under id app (λ a. nat_eq a.id app.id && redirect_uri_allowed a.redirect_uris uri)
        e (ground (arith, t, (nat_eq_iff app.id app.id).1 refl))

  pub post_oauth_authorize-IsConsistent :
      (base code : String) (now : ℕ) (method : String) (form : Option Values)
      → IsConsistent (post_oauth_authorize p base code now method form s).1
  unfolding post_oauth_authorize
  post_oauth_authorize-IsConsistent base code now method none = grind (arith, h)
  post_oauth_authorize-IsConsistent base code now method (some form) =
      elim (Bool-cases (method == "POST")) [
        | inr other ↦ rw other h
        | inl post ↦ elim (Result-cases (oauth_application_by_client_id (get "client_id" form) s)) [
          | inr (x, unknown) ↦ rw (post, unknown) h
          | inl (app, known) ↦
              elim (Bool-cases (redirect_uri_allowed app.redirect_uris (get "redirect_uri" form))) [
                | inr refused ↦ rw (post, known, refused) h
                | inl allowed ↦
                    elim (Result-cases (
                      authenticate_local_account p (instance_host base)
                        (trim_space (get "username" form)) (get "password" form) s)) [
                          | inr (x, wrong) ↦ rw (post, known, allowed, wrong) h
                          | inl (actor, right) ↦
                              rw (post, known, allowed, right)
                                (issue_code-IsConsistent code now form app actor
                                  (allowed_by_client (get "client_id" form) app
                                    (get "redirect_uri" form) known allowed)
                                  (authenticate_local_account-has_account (instance_host base)
                                    (trim_space (get "username" form)) (get "password" form) actor
                                    right))
                        ]
              ]
        ]
      ]

  IsExchange-IsConsistent :
      (now : ℕ) (app : Application) (code uri verifier raw scopes : String) (t : OauthDb)
      → IsExchange p now app code uri verifier s raw scopes t
      → IsConsistent t
  IsExchange-IsConsistent now app code uri verifier raw scopes t x =
      let stored =
        find_where-All (IsIssued s.applications s.accounts) (is_valid_code now code uri) s.codes
          x.row x.is_stored h.issued in
      rw x.tables (
        grant-IsConsistent s h (is_valid_code now code uri)
          (record {
            token_hash = hash_secret p raw;
            application_id = x.row.application_id;
            actor_id = some x.row.actor_id;
            scopes = x.row.scopes;
          })
          x.is_new stored.0.1)

  IsClientGrant-IsConsistent :
      (now : ℕ) (vals : Values) (raw scopes : String) (t : OauthDb)
      → IsClientGrant p now vals s raw scopes t
      → IsConsistent t
  IsClientGrant-IsConsistent now vals raw scopes t x = rw x.tables (
      grant_app-IsConsistent s h
        (record {
          token_hash = hash_secret p raw;
          application_id = x.app.id;
          actor_id = none;
          scopes = scopes;
        })
        x.is_new
        (registered_under (trim_space (get "client_id" vals)) x.app
          (λ a. nat_eq a.id x.app.id && oauth_scopes_subset scopes a.scopes) x.client.is_registered
          (ground (arith, x.is_subset, (nat_eq_iff x.app.id x.app.id).1 refl))))

  pub post_oauth_token-IsConsistent :
      (readers : Readers) (now : ℕ) (token : String) (r : TokenRequest)
      → IsConsistent (post_oauth_token p readers now token r s).1
  post_oauth_token-IsConsistent readers now token r =
      elim (Bool-cases (is_token (post_oauth_token p readers now token r s).0)) [
        | inr refused ↦ rw (post_oauth_token-is_token p now readers token r s refused) h
        | inl answered ↦
            let (raw, scopes, at, e) =
              token_reply (post_oauth_token p readers now token r s).0 answered in
            let t = (post_oauth_token p readers now token r s).1 in
            let (vals, _, granted) =
              post_oauth_token_sound p now readers token r s t raw scopes at (rw (← e) refl) in
            elim granted [
              | inl (app, _, x) ↦
                  IsExchange-IsConsistent now app (trim_space (get "code" vals))
                    (trim_space (get "redirect_uri" vals)) (trim_space (get "code_verifier" vals))
                    raw scopes t x
              | inr x ↦ IsClientGrant-IsConsistent now vals raw scopes t x
            ]
      ]

  has_account-update :
      (id actor : ℕ) (hash : String) (rows : List AccountRow)
      → any_where (has_account actor) rows ≡ true
      → any_where
          (has_account actor)
          (update_where (has_account id) (λ r. record r { password_bcrypt = hash }) rows)
        ≡ true
  has_account-update id actor hash [] e = cc
  has_account-update id actor hash (r ∷ rows) e =
      ground (arith, has_account-update id actor hash rows)

  pub upsert_local_account_password-IsConsistent :
      (salt : String) (actor : ℕ) (password : String)
      → IsConsistent (upsert_local_account_password p salt actor password s).1
  unfolding upsert_local_account_password
  upsert_local_account_password-IsConsistent salt actor password =
      elim (Bool-cases (password == "")) [
        | inl empty ↦ rw empty h
        | inr given ↦ elim (Option-cases (p.generate_from_password salt password)) [
          | inl failed ↦ rw (given, failed) h
          | inr (hash, made) ↦ elim (Bool-cases (any_where (has_account actor) s.accounts)) [
            | inl there ↦
                rw (given, made, there)
                  (accounts-IsConsistent s h
                    (update_where (has_account actor) (λ r. record r { password_bcrypt = hash })
                      s.accounts)
                    (λ a. has_account-update actor a hash s.accounts))
            | inr missing ↦
                rw (given, made, missing)
                  (accounts-IsConsistent s h
                    (s.accounts ++ record { actor_id = actor; password_bcrypt = hash } ∷ [])
                    (λ a. any_where-append (has_account a) s.accounts _))
          ]
        ]
      ]
