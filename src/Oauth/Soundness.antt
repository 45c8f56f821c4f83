-- ===== src/Oauth/Soundness.antt =====
-- What a token that postOAuthToken has answered rests on: the client, its secret, and the code or
-- the scopes of the application.
use activitypub_core.Common.{
  ◌≢◌, eq_iff, subst, ◌≡◌, ◌⊎◌, inl, inr, ℕ, String, true, none, some, [], ◌∷◌, ◌++◌, ◌==◌,
  nat_eq_iff, arith, any_where, false, find_where, delete_where, Bool-cases, Option-cases,
}
use activitypub_core.Common.Text.{trim_space, to_lower, to_upper}
use activitypub_core.Common.Exec.{ok, Result-cases}
use activitypub_core.Url.Query.{Values, get}
use activitypub_core.Oauth.State.{Application, CodeRow, OauthDb, Crypto}
use activitypub_core.Oauth.Store.{
  AuthCodeRow, is_valid_code, auth_code_row, oauth_application_by_client_id, verify_client_secret,
  redirect_uri_allowed, consume_authorization_code, insert_token, insert_access_token_tx,
  insert_app_access_token_tx, hash_secret, has_token_hash,
}
use activitypub_core.Oauth.Authorize.{write_oauth_token_ok, is_token}
use activitypub_core.Oauth.Params.{TokenRequest, Readers, parse_oauth_token_params}
use activitypub_core.Oauth.Token.{
  method_or_s256, pkce_method, pkce_verify, exchange_code, post_oauth_token_authorization_code,
  grant_client, post_oauth_token_client_credentials, oauth_scopes_subset, post_oauth_token,
}

module _ (p : Crypto) (now : ℕ) where
  -- The row of the code, the proof of possession, and the change of the tables.
  pub record IsExchange (app : Application) (code redirect_uri verifier : String) (s : OauthDb)
      (raw scopes : String) (t : OauthDb) : Type 0 where
    pub row : CodeRow
    pub is_stored : find_where (is_valid_code now code redirect_uri) s.codes ≡ some row
    pub same_application : row.application_id ≡ app.id
    pub is_proved : pkce_verify p verifier (auth_code_row row) ≡ none
    pub same_scopes : scopes ≡ row.scopes
    pub is_new : any_where (has_token_hash (hash_secret p raw)) s.tokens ≡ false
    pub tables : t ≡ record s {
      codes = delete_where (is_valid_code now code redirect_uri) s.codes;
      tokens =
          s.tokens
          ++ record {
            token_hash = hash_secret p raw;
            application_id = row.application_id;
            actor_id = some row.actor_id;
            scopes = row.scopes;
          }
            ∷ [];
    }

  pub exchange_code-IsExchange :
      (token : String) (app : Application) (code redirect_uri verifier : String) (s t : OauthDb)
      (raw scopes : String) (at : ℕ)
      → exchange_code p now token app code redirect_uri verifier s
        ≡ (write_oauth_token_ok raw scopes at, t)
      → IsExchange app code redirect_uri verifier s raw scopes t
  unfolding exchange_code consume_authorization_code insert_access_token_tx insert_token
  exchange_code-IsExchange token app code redirect_uri verifier s t raw scopes at e =
      elim (Option-cases (find_where (is_valid_code now code redirect_uri) s.codes)) [
        | inl absent ↦ absurd (ground (arith, e, absent))
        | inr (row, found) ↦ record {
          row = row;
          is_stored = found;
          same_application = ground (arith, e, found, nat_eq_iff row.application_id app.id);
          is_proved = ground (arith, e, found);
          same_scopes = ground (arith, e, found);
          is_new = ground (arith, e, found);
          tables = ground (arith, e, found);
        }
      ]

  -- The application of the client, and its secret.
  pub record IsClient (vals : Values) (s : OauthDb) (app : Application) : Type 0 where
    pub is_registered :
        oauth_application_by_client_id (trim_space (get "client_id" vals)) s ≡ ok app
    pub is_authentic : verify_client_secret p app (get "client_secret" vals) ≡ true

  abbrev pub IsCodeGrant : Values → OauthDb → String → String → OauthDb → Type 0
  IsCodeGrant vals s raw scopes t =
      (app : Application) × IsClient vals s app
      × IsExchange app (trim_space (get "code" vals)) (trim_space (get "redirect_uri" vals))
          (trim_space (get "code_verifier" vals)) s raw scopes t

  -- The tables after a token of the application.
  pub record IsClientGrant (vals : Values) (s : OauthDb) (raw scopes : String) (t : OauthDb)
      : Type 0 where
    pub app : Application
    pub client : IsClient vals s app
    pub is_allowed :
        redirect_uri_allowed app.redirect_uris (trim_space (get "redirect_uri" vals)) ≡ true
    pub is_subset : oauth_scopes_subset scopes app.scopes ≡ true
    pub is_new : any_where (has_token_hash (hash_secret p raw)) s.tokens ≡ false
    pub tables : t ≡ record s {
      tokens =
          s.tokens
          ++ record {
            token_hash = hash_secret p raw;
            application_id = app.id;
            actor_id = none;
            scopes = scopes;
          }
            ∷ [];
    }

  pub post_oauth_token_authorization_code-IsCodeGrant :
      (token : String) (vals : Values) (s t : OauthDb) (raw scopes : String) (at : ℕ)
      → post_oauth_token_authorization_code p now token vals s
        ≡ (write_oauth_token_ok raw scopes at, t)
      → IsCodeGrant vals s raw scopes t
  unfolding post_oauth_token_authorization_code
  post_oauth_token_authorization_code-IsCodeGrant token vals s t raw scopes at e =
      elim (Result-cases (oauth_application_by_client_id (trim_space (get "client_id" vals)) s)) [
        | inr (x, unknown) ↦ absurd (ground (arith, e, unknown))
        | inl (app, known) ↦ (
          app,
          record { is_registered = known; is_authentic = ground (arith, e, known) },
          exchange_code-IsExchange token app (trim_space (get "code" vals))
              (trim_space (get "redirect_uri" vals)) (trim_space (get "code_verifier" vals)) s t raw
              scopes at (ground (arith, e, known)),
        )
      ]

  pub post_oauth_token_client_credentials-IsClientGrant :
      (token : String) (vals : Values) (s t : OauthDb) (raw scopes : String) (at : ℕ)
      → post_oauth_token_client_credentials p now token vals s
        ≡ (write_oauth_token_ok raw scopes at, t)
      → IsClientGrant vals s raw scopes t
  unfolding post_oauth_token_client_credentials grant_client insert_app_access_token_tx insert_token
  post_oauth_token_client_credentials-IsClientGrant token vals s t raw scopes at e =
      elim (Result-cases (oauth_application_by_client_id (trim_space (get "client_id" vals)) s)) [
        | inr (x, unknown) ↦ absurd (ground (arith, e, unknown))
        | inl (app, known) ↦ record {
          app = app;
          client = record { is_registered = known; is_authentic = ground (arith, e, known) };
          is_allowed = ground (arith, e, known);
          is_subset = ground (arith, e, known);
          is_new = ground (arith, e, known);
          tables = ground (arith, e, known);
        }
      ]

  -- An answer 200 of the token endpoint stands for one of the two grants, for the parameters that
  -- were read.
  pub post_oauth_token_sound :
      (readers : Readers) (token : String) (r : TokenRequest) (s t : OauthDb) (raw scopes : String)
      (at : ℕ)
      → post_oauth_token p readers now token r s ≡ (write_oauth_token_ok raw scopes at, t)
      → (vals : Values) × (parse_oauth_token_params readers r ≡ some vals)
        × (IsCodeGrant vals s raw scopes t ⊎ IsClientGrant vals s raw scopes t)
  unfolding post_oauth_token
  post_oauth_token_sound readers token r s t raw scopes at e =
      elim (Option-cases (parse_oauth_token_params readers r)) [
        | inl unreadable ↦ absurd (ground (arith, e, unreadable))
        | inr (vals, read) ↦ (
          vals,
          read,
          elim (Bool-cases
              (to_lower (trim_space (get "grant_type" vals)) == "authorization_code")) [
                | inl is_code ↦ inl (
                    post_oauth_token_authorization_code-IsCodeGrant token vals s t raw scopes at
                      (ground (arith, e, read, is_code)))
                | inr is_other ↦ inr (
                    post_oauth_token_client_credentials-IsClientGrant token vals s t raw scopes at
                      (ground (arith, e, read, is_other)))
              ],
        )
      ]

  exchange_code-is_token :
      (token : String) (app : Application) (code redirect_uri verifier : String) (s : OauthDb)
      → is_token (exchange_code p now token app code redirect_uri verifier s).0 ≡ false
      → (exchange_code p now token app code redirect_uri verifier s).1 ≡ s
  unfolding exchange_code
  exchange_code-is_token token app code redirect_uri verifier s n = ground (arith, n)

  authorization_code-is_token :
      (token : String) (vals : Values) (s : OauthDb)
      → is_token (post_oauth_token_authorization_code p now token vals s).0 ≡ false
      → (post_oauth_token_authorization_code p now token vals s).1 ≡ s
  unfolding post_oauth_token_authorization_code
  authorization_code-is_token token vals s n = grind (arith, n, exchange_code-is_token)

  client_credentials-is_token :
      (token : String) (vals : Values) (s : OauthDb)
      → is_token (post_oauth_token_client_credentials p now token vals s).0 ≡ false
      → (post_oauth_token_client_credentials p now token vals s).1 ≡ s
  unfolding post_oauth_token_client_credentials grant_client
  client_credentials-is_token token vals s n = ground (arith, n)

  -- An answer of the token endpoint that carries no token leaves every table as it was.
  pub post_oauth_token-is_token :
      (readers : Readers) (token : String) (r : TokenRequest) (s : OauthDb)
      → is_token (post_oauth_token p readers now token r s).0 ≡ false
      → (post_oauth_token p readers now token r s).1 ≡ s
  unfolding post_oauth_token
  post_oauth_token-is_token readers token r s n =
      grind (arith, n, authorization_code-is_token, client_credentials-is_token)

pkce_plain :
    (p : Crypto) (v challenge : String)
    → pkce_method p v challenge (method_or_s256 "PLAIN") ≡ none
    → (v == challenge) ≡ true
unfolding pkce_method
pkce_plain p v challenge e = ground (arith, e)

pkce_default :
    (p : Crypto) (v challenge : String)
    → pkce_method p v challenge (method_or_s256 "") ≡ none
    → (p.raw_url_encode (p.sha256 v) == challenge) ≡ true
unfolding pkce_method
pkce_default p v challenge e = ground (arith, e)

pkce_other :
    (p : Crypto) (v challenge meth : String)
    → (meth == "PLAIN") ≡ false
    → pkce_method p v challenge (method_or_s256 meth) ≡ none
    → (p.raw_url_encode (p.sha256 v) == challenge) ≡ true
unfolding pkce_method
pkce_other p v challenge meth n e = elim (Bool-cases (meth == "")) [
  | inl empty ↦ pkce_default p v challenge (
      subst (λ m. pkce_method p v challenge (method_or_s256 m) ≡ none) ((eq_iff meth "").0 empty) e)
  | inr given ↦ ground (arith, e, n, given)
]

-- Where the code carries a challenge, a verifier that is accepted is not empty, and it is the
-- challenge itself under the method PLAIN, and its hash is the challenge under every other method.
pub pkce_verify_sound :
    (p : Crypto) (verifier : String) (row : AuthCodeRow)
    → row.challenge ≢ ""
    → pkce_verify p verifier row ≡ none
    → (trim_space verifier ≢ "")
      × (((to_upper (trim_space row.challenge_meth) ≡ "PLAIN")
            × (trim_space verifier ≡ row.challenge))
          ⊎ ((to_upper (trim_space row.challenge_meth) ≢ "PLAIN")
              × (p.raw_url_encode (p.sha256 (trim_space verifier)) ≡ row.challenge)))
unfolding pkce_verify
pkce_verify_sound p verifier row n e =
    let meth = to_upper (trim_space row.challenge_meth) in
    let v = trim_space verifier in
    let hash = p.raw_url_encode (p.sha256 v) in
    let given : (row.challenge == "") ≡ false = elim (Bool-cases (row.challenge == "")) [
      | inr f ↦ f
      | inl t ↦ absurd (n ((eq_iff row.challenge "").0 t))
    ] in
    let proof : (v == "") ≡ false = elim (Bool-cases (v == "")) [
      | inr f ↦ f
      | inl t ↦ absurd (ground (arith, e, given, t))
    ] in
    (
      λ q. ground (arith, proof, (eq_iff v "").1 q),
      elim (Bool-cases (meth == "PLAIN")) [
        | inl plain ↦
            let is_plain = (eq_iff meth "PLAIN").0 plain in
            inl (
              is_plain,
              (eq_iff v row.challenge).0 (
                  pkce_plain p v row.challenge (
                    subst (λ m. pkce_method p v row.challenge (method_or_s256 m) ≡ none) is_plain
                      (ground (arith, e, given, proof)))),
            )
        | inr other ↦ inr (
          λ q. ground (arith, other, (eq_iff meth "PLAIN").1 q),
          (eq_iff hash row.challenge).0
              (pkce_other p v row.challenge meth other (ground (arith, e, given, proof))),
        )
      ],
    )
