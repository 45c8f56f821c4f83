-- ===== src/Oauth/SingleUse.antt =====
-- A code that was exchanged is never exchanged again.
use activitypub_core.Common.{
  ◌≡◌, ◌≢◌, ◌∙◌, sym, refl, inl, inr, ℕ, ◌+◌, String, Bool, true, false, Option, none, some, List,
  [], ◌∷◌, ◌++◌, ◌==◌, eq_iff, arith, All, any_where, find_where, find_where-All, delete_where,
  Bool-cases,
}
use activitypub_core.Common.Text.{trim_space}
use activitypub_core.Url.Query.{Values, get}
use activitypub_core.Store.{DistinctBy, All-mono}
use activitypub_core.Oauth.State.{null_if_empty, CodeRow, Application, OauthDb, Crypto}
use activitypub_core.Oauth.Store.{
  has_code, is_valid_code, upsert_local_account_password, insert_authorization_code,
  insert_oauth_application,
}
use activitypub_core.Oauth.Params.{TokenRequest, Readers}
use activitypub_core.Oauth.Authorize.{
  write_oauth_token_ok, is_token, issue_code, post_oauth_authorize,
}
use activitypub_core.Oauth.Token.{post_oauth_token, post_oauth_token_authorization_code}
use activitypub_core.Oauth.Register.{AppsRequest, post_apps}
use activitypub_core.Oauth.Soundness.{
  IsExchange, post_oauth_token_authorization_code-IsCodeGrant, post_oauth_token_sound,
  post_oauth_token-is_token,
}
use activitypub_core.Oauth.Consistent.{IsConsistent, any_where-find_where}
use activitypub_core.Oauth.Preservation.{token_reply}
use activitypub_core.Oauth.Steps.{Step, register, authorize, exchange, set_password, set_actors}

abbrev IsAbsent : String → OauthDb → Type 0
IsAbsent code s = any_where (has_code code) s.codes ≡ false

any_where-delete_where {ℓ} :
    {A : Type ℓ} (q p : A → Bool) (xs : List A)
    → any_where q xs ≡ false
    → any_where q (delete_where p xs) ≡ false
any_where-delete_where q p [] e = e
any_where-delete_where q p (x ∷ xs) e = ground (arith, any_where-delete_where q p xs)

any_where-concat {ℓ} :
    {A : Type ℓ} (q : A → Bool) (xs : List A) (new : A)
    → any_where q xs ≡ false
    → q new ≡ false
    → any_where q (xs ++ new ∷ []) ≡ false
any_where-concat q [] new e f = ground (arith, f)
any_where-concat q (x ∷ xs) new e f = ground (arith, any_where-concat q xs new)

none_where {ℓ} :
    {A : Type ℓ} (q : A → Bool) (xs : List A) → All (λ y. q y ≡ false) xs → any_where q xs ≡ false
none_where q [] h = refl
none_where q (x ∷ xs) (h, hs) = ground (arith, h, none_where q xs hs)

has_code_iff : (code : String) (r : CodeRow) → has_code code r ≡ true → r.code ≡ code
has_code_iff code r t = (eq_iff r.code code).0 t

-- Where codes are unique, none is left of one that was consumed.
consumed_absent :
    (now : ℕ) (code uri : String) (rows : List CodeRow) (r : CodeRow)
    → DistinctBy (λ (x : CodeRow). x.code) rows
    → find_where (is_valid_code now code uri) rows ≡ some r
    → any_where (has_code code) (delete_where (is_valid_code now code uri) rows) ≡ false
consumed_absent now code uri [] r d e = cc
consumed_absent now code uri (x ∷ xs) r (h, d) e =
    elim (Bool-cases (is_valid_code now code uri x)) [
      | inl valid ↦
          let same : x.code ≡ code = has_code_iff code x (ground (arith, valid)) in
          rw valid (
            any_where-delete_where (has_code code) (is_valid_code now code uri) xs (
              none_where (has_code code) xs (
                All-mono (λ y. x.code ≢ y.code) (λ y. has_code code y ≡ false) xs
                  (λ y n. elim (Bool-cases (has_code code y)) [
                    | inl t ↦ absurd (n (same ∙ sym (has_code_iff code y t)))
                    | inr f ↦ f
                  ])
                  h)))
      | inr other ↦
          let later : find_where (is_valid_code now code uri) xs ≡ some r =
            ground (arith, e, other) in
          let (n, valid) =
            find_where-All (λ y. x.code ≢ y.code) (is_valid_code now code uri) xs r later h in
          let rest = consumed_absent now code uri xs r d later in
          elim (Bool-cases (has_code code x)) [
            | inl t ↦
                absurd
                  (n (has_code_iff code x t ∙ sym (has_code_iff code r (ground (arith, valid)))))
            | inr f ↦ rw other (ground (arith, f, rest))
          ]
    ]

module _ (p : Crypto) (s : OauthDb) where
  IsExchange-IsAbsent :
      (c : String) (now : ℕ) (app : Application) (code uri verifier raw scopes : String)
      (t : OauthDb)
      → IsAbsent c s
      → IsExchange p now app code uri verifier s raw scopes t
      → IsAbsent c t
  IsExchange-IsAbsent c now app code uri verifier raw scopes t h x =
      rw x.tables (any_where-delete_where (has_code c) (is_valid_code now code uri) s.codes h)

  post_apps-codes :
      (id secret : String) (r : AppsRequest) → (post_apps p id secret r s).1.codes ≡ s.codes
  unfolding post_apps insert_oauth_application
  post_apps-codes id secret r = ground arith

  set_password-codes :
      (salt : String) (actor : ℕ) (password : String)
      → (upsert_local_account_password p salt actor password s).1.codes ≡ s.codes
  unfolding upsert_local_account_password
  set_password-codes salt actor password = ground arith

  insert-IsAbsent :
      (c code : String) (now app_id actor_id : ℕ) (uri scopes challenge method : String)
      → code ≢ c
      → IsAbsent c s
      → IsAbsent c
          (insert_authorization_code code now app_id actor_id uri scopes challenge method s).1
  unfolding insert_authorization_code
  insert-IsAbsent c code now app_id actor_id uri scopes challenge method n h =
      let other : (code == c) ≡ false = elim (Bool-cases (code == c)) [
        | inl t ↦ absurd (n ((eq_iff code c).0 t))
        | inr f ↦ f
      ] in
      ground (
        arith,
        h,
        any_where-concat (has_code c) s.codes
            (record {
              code = code;
              application_id = app_id;
              actor_id = actor_id;
              redirect_uri = uri;
              scopes = scopes;
              code_challenge = null_if_empty challenge;
              code_challenge_method = null_if_empty method;
              expires_at = now + 600;
            })
            h other,
      )

  authorize-IsAbsent :
      (c base code : String) (now : ℕ) (method : String) (form : Option Values)
      → code ≢ c
      → IsAbsent c s
      → IsAbsent c (post_oauth_authorize p base code now method form s).1
  unfolding post_oauth_authorize issue_code
  authorize-IsAbsent c base code now method none n h = ground (arith, h)
  authorize-IsAbsent c base code now method (some form) n h = grind (arith, h, n, insert-IsAbsent)

  token-IsAbsent :
      (c : String) (readers : Readers) (now : ℕ) (token : String) (r : TokenRequest)
      → IsAbsent c s
      → IsAbsent c (post_oauth_token p readers now token r s).1
  token-IsAbsent c readers now token r h =
      elim (Bool-cases (is_token (post_oauth_token p readers now token r s).0)) [
        | inr refused ↦ rw (post_oauth_token-is_token p now readers token r s refused) h
        | inl answered ↦
            let (raw, scopes, at, e) =
              token_reply (post_oauth_token p readers now token r s).0 answered in
            let t = (post_oauth_token p readers now token r s).1 in
            let (vals, _, granted) =
              post_oauth_token_sound p now readers token r s t raw scopes at (rw (← e) refl) in
            elim granted [
              | inl (app, _, x) ↦
                  IsExchange-IsAbsent c now app (trim_space (get "code" vals))
                    (trim_space (get "redirect_uri" vals)) (trim_space (get "code_verifier" vals))
                    raw scopes t h x
              | inr x ↦ rw x.tables h
            ]
      ]

-- Sequences of requests that issue no code equal to `c`.
pub data Later (p : Crypto) (c : String) (s : OauthDb) : OauthDb → Type 0 where
  at_once : Later p c s s
  then :
      {code : String} {t u : OauthDb} → Later p c s t → code ≢ c → Step p code t u → Later p c s u

module _ (p : Crypto) (c : String) where
  Step-IsAbsent :
      {code : String} {s t : OauthDb} → Step p code s t → code ≢ c → IsAbsent c s → IsAbsent c t
  Step-IsAbsent (register code id secret r s) n h = rw (post_apps-codes p s id secret r) h
  Step-IsAbsent (authorize base code now method form s) n h =
      authorize-IsAbsent p s c base code now method form n h
  Step-IsAbsent (exchange code readers now token r s) n h =
      token-IsAbsent p s c readers now token r h
  Step-IsAbsent (set_password code salt actor password s) n h =
      rw (set_password-codes p s salt actor password) h
  Step-IsAbsent (set_actors code actors s) n h = h

  Later-IsAbsent : (s t : OauthDb) → Later p c s t → IsAbsent c s → IsAbsent c t
  Later-IsAbsent s t at_once h = h
  Later-IsAbsent s t (then l n step) h = Step-IsAbsent step n (Later-IsAbsent s _ l h)

  absent_refused :
      (now : ℕ) (token : String) (vals : Values) (s : OauthDb)
      → trim_space (get "code" vals) ≡ c
      → IsAbsent c s
      → is_token (post_oauth_token_authorization_code p now token vals s).0 ≡ false
  absent_refused now token vals s e h =
      elim (Bool-cases (is_token (post_oauth_token_authorization_code p now token vals s).0)) [
        | inr refused ↦ refused
        | inl answered ↦
            let (raw, scopes, at, q) =
              token_reply (post_oauth_token_authorization_code p now token vals s).0 answered in
            let t = (post_oauth_token_authorization_code p now token vals s).1 in
            let (app, _, x) =
              post_oauth_token_authorization_code-IsCodeGrant p now token vals s t raw scopes at
                (rw (← q) refl) in
            let there =
              any_where-find_where
                (is_valid_code now (trim_space (get "code" vals))
                  (trim_space (get "redirect_uri" vals)))
                (has_code c) s.codes x.row x.is_stored (λ v. rw (← e) (ground (arith, v))) in
            cc
      ]

-- From consistent tables: a code that was exchanged once is refused ever after, whatever requests
-- come in between, as long as the same random code is not drawn again.
pub code_single_use :
    (p : Crypto) (now later : ℕ) (token other raw scopes : String) (at : ℕ) (first second : Values)
    (s t u : OauthDb)
    → IsConsistent s
    → post_oauth_token_authorization_code p now token first s
      ≡ (write_oauth_token_ok raw scopes at, t)
    → Later p (trim_space (get "code" first)) t u
    → trim_space (get "code" second) ≡ trim_space (get "code" first)
    → is_token (post_oauth_token_authorization_code p later other second u).0 ≡ false
code_single_use p now later token other raw scopes at first second s t u h e l same =
    let (app, _, x) =
      post_oauth_token_authorization_code-IsCodeGrant p now token first s t raw scopes at e in
    let code = trim_space (get "code" first) in
    absent_refused p code later other second u same (
      Later-IsAbsent p code t u l (
        rw x.tables (
          consumed_absent now code (trim_space (get "redirect_uri" first)) s.codes x.row h.codes
            x.is_stored)))
