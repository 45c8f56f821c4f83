-- ===== src/Oauth/Consistent.antt =====
-- The state of the OAuth tables that every write keeps: the unique columns, codes that were issued
-- for a redirect URI of their application, and tokens within what was granted.
use activitypub_core.Common.{
  ◌≡◌, ◌≢◌, ◌∙◌, refl, ℕ, ◌+◌, ◌<◌, String, Bool, true, false, ◌&&◌, Option, none, some, List, [],
  ◌∷◌, ◌++◌, ◌==◌, nat_eq, eq_iff, arith, All, All-append, All-delete_where, any_where, find_where,
  delete_where,
}
use activitypub_core.Store.{
  All-mono, All-of_any_where, DistinctBy, DistinctBy-concat, DistinctBy-delete_where,
}
use activitypub_core.Oauth.State.{Application, CodeRow, TokenRow, AccountRow, OauthDb}
use activitypub_core.Oauth.Store.{has_account, redirect_uri_allowed}
use activitypub_core.Oauth.Token.{oauth_scopes_subset}

module _ (applications : List Application) (accounts : List AccountRow) where
  -- The application of a code has registered its redirect URI, and its actor has a password.
  abbrev pub IsIssued : CodeRow → Type 0
  IsIssued r =
      (any_where
          (λ app.
            nat_eq app.id r.application_id && redirect_uri_allowed app.redirect_uris r.redirect_uri)
          applications
        ≡ true)
      × (any_where (has_account r.actor_id) accounts ≡ true)

  -- A token of an actor belongs to one with a password; a token without an actor has no scope that
  -- its application has not registered.
  abbrev pub IsGrantedTo : ℕ → String → Option ℕ → Type 0
  IsGrantedTo application_id scopes (some actor) = any_where (has_account actor) accounts ≡ true
  IsGrantedTo application_id scopes none =
      any_where (λ app. nat_eq app.id application_id && oauth_scopes_subset scopes app.scopes)
        applications
      ≡ true

  abbrev pub IsGranted : TokenRow → Type 0
  IsGranted r = IsGrantedTo r.application_id r.scopes r.actor_id

pub record IsConsistent (s : OauthDb) : Type 0 where
  pub clients : DistinctBy (λ (a : Application). a.client_id) s.applications
  pub ids : All (λ (a : Application). a.id < s.next_application) s.applications
  pub distinct_ids : DistinctBy (λ (a : Application). a.id) s.applications
  pub codes : DistinctBy (λ (r : CodeRow). r.code) s.codes
  pub tokens : DistinctBy (λ (r : TokenRow). r.token_hash) s.tokens
  pub issued : All (IsIssued s.applications s.accounts) s.codes
  pub granted : All (IsGranted s.applications s.accounts) s.tokens

module _ {ℓ} {A : Type ℓ} where
  pub any_where-append :
      (p : A → Bool) (xs ys : List A) → any_where p xs ≡ true → any_where p (xs ++ ys) ≡ true
  any_where-append p [] ys e = cc
  any_where-append p (x ∷ xs) ys e = ground (arith, any_where-append p xs ys)

  pub any_where-find_where :
      (p q : A → Bool) (xs : List A) (x : A)
      → find_where p xs ≡ some x
      → (p x ≡ true → q x ≡ true)
      → any_where q xs ≡ true
  any_where-find_where p q [] x e h = cc
  any_where-find_where p q (y ∷ ys) x e h = ground (arith, any_where-find_where p q ys x, h)

  -- A new row with a text that no row has.
  pub DistinctBy-insert :
      (key : A → String) (xs : List A) (new : A) (k : String)
      → key new ≡ k
      → any_where (λ r. key r == k) xs ≡ false
      → DistinctBy key xs
      → DistinctBy key (xs ++ new ∷ [])
  DistinctBy-insert key xs new k e absent = DistinctBy-concat key xs new (
      All-mono (λ y. (key y == k) ≡ false) (λ y. key y ≢ key new) xs
        (λ y f q. ground (arith, f, (eq_iff (key y) k).1 (q ∙ e)))
        (All-of_any_where (λ r. key r == k) xs absent))

-- What was issued or granted stays so when applications and accounts are added.
module _ (applications : List Application) (accounts : List AccountRow) (app : Application) where
  IsIssued-register :
      (r : CodeRow)
      → IsIssued applications accounts r
      → IsIssued (applications ++ app ∷ []) accounts r
  IsIssued-register r (h, k) = (
    any_where-append
        (λ a. nat_eq a.id r.application_id && redirect_uri_allowed a.redirect_uris r.redirect_uri)
        applications (app ∷ []) h,
    k,
  )

  IsGrantedTo-register :
      (i : ℕ) (scopes : String) (actor : Option ℕ)
      → IsGrantedTo applications accounts i scopes actor
      → IsGrantedTo (applications ++ app ∷ []) accounts i scopes actor
  IsGrantedTo-register i scopes (some actor) h = h
  IsGrantedTo-register i scopes none h =
      any_where-append (λ a. nat_eq a.id i && oauth_scopes_subset scopes a.scopes) applications
        (app ∷ []) h

-- The accounts may change as long as each actor with a password keeps one.
module _ (applications : List Application) (accounts after : List AccountRow)
    (keeps : (actor : ℕ)
      → any_where (has_account actor) accounts ≡ true
      → any_where (has_account actor) after ≡ true) where
  IsGrantedTo-accounts :
      (i : ℕ) (scopes : String) (actor : Option ℕ)
      → IsGrantedTo applications accounts i scopes actor
      → IsGrantedTo applications after i scopes actor
  IsGrantedTo-accounts i scopes (some actor) h = keeps actor h
  IsGrantedTo-accounts i scopes none h = h

module _ (s : OauthDb) (h : IsConsistent s) where
  -- A new application, under the next id.
  pub register-IsConsistent :
      (app : Application)
      → any_where (λ a. a.client_id == app.client_id) s.applications ≡ false
      → app.id ≡ s.next_application
      → IsConsistent (record s {
        applications = s.applications ++ app ∷ [];
        next_application = s.next_application + 1;
      })
  register-IsConsistent app absent e = record {
    clients =
        DistinctBy-insert (λ (a : Application). a.client_id) s.applications app app.client_id refl
          absent h.clients;
    ids =
        All-append (λ (a : Application). a.id < s.next_application + 1) s.applications (app ∷ [])
          (All-mono (λ a. a.id < s.next_application) (λ a. a.id < s.next_application + 1)
            s.applications (λ a k. omega arith) h.ids)
          (omega arith, tt);
    distinct_ids =
        DistinctBy-concat (λ (a : Application). a.id) s.applications app
          (All-mono (λ a. a.id < s.next_application) (λ a. a.id ≢ app.id) s.applications
            (λ a k q. omega arith) h.ids)
          h.distinct_ids;
    codes = h.codes;
    tokens = h.tokens;
    issued =
        All-mono (IsIssued s.applications s.accounts)
          (IsIssued (s.applications ++ app ∷ []) s.accounts) s.codes
          (IsIssued-register s.applications s.accounts app) h.issued;
    granted =
        All-mono (IsGranted s.applications s.accounts)
          (IsGranted (s.applications ++ app ∷ []) s.accounts) s.tokens
          (λ r.
            IsGrantedTo-register s.applications s.accounts app r.application_id r.scopes r.actor_id)
          h.granted;
  }

  -- A serial that is drawn and not used.
  pub skip-IsConsistent : IsConsistent (record s { next_application = s.next_application + 1 })
  skip-IsConsistent = record {
    clients = h.clients;
    ids =
        All-mono (λ (a : Application). a.id < s.next_application)
          (λ a. a.id < s.next_application + 1) s.applications (λ a k. omega arith) h.ids;
    distinct_ids = h.distinct_ids;
    codes = h.codes;
    tokens = h.tokens;
    issued = h.issued;
    granted = h.granted;
  }

  pub issue-IsConsistent :
      (row : CodeRow)
      → any_where (λ r. r.code == row.code) s.codes ≡ false
      → IsIssued s.applications s.accounts row
      → IsConsistent (record s { codes = s.codes ++ row ∷ [] })
  issue-IsConsistent row absent k = record {
    clients = h.clients;
    ids = h.ids;
    distinct_ids = h.distinct_ids;
    codes = DistinctBy-insert (λ (r : CodeRow). r.code) s.codes row row.code refl absent h.codes;
    tokens = h.tokens;
    issued = All-append (IsIssued s.applications s.accounts) s.codes (row ∷ []) h.issued (k, tt);
    granted = h.granted;
  }

  -- The codes of one test go, and a token is added.
  pub grant-IsConsistent :
      (used : CodeRow → Bool) (row : TokenRow)
      → any_where (λ r. r.token_hash == row.token_hash) s.tokens ≡ false
      → IsGranted s.applications s.accounts row
      → IsConsistent (record s { codes = delete_where used s.codes; tokens = s.tokens ++ row ∷ [] })
  grant-IsConsistent used row absent k = record {
    clients = h.clients;
    ids = h.ids;
    distinct_ids = h.distinct_ids;
    codes = DistinctBy-delete_where (λ (r : CodeRow). r.code) used s.codes h.codes;
    tokens =
        DistinctBy-insert (λ (r : TokenRow). r.token_hash) s.tokens row row.token_hash refl absent
          h.tokens;
    issued = All-delete_where (IsIssued s.applications s.accounts) used s.codes h.issued;
    granted =
        All-append (IsGranted s.applications s.accounts) s.tokens (row ∷ []) h.granted (k, tt);
  }

  pub grant_app-IsConsistent :
      (row : TokenRow)
      → any_where (λ r. r.token_hash == row.token_hash) s.tokens ≡ false
      → IsGranted s.applications s.accounts row
      → IsConsistent (record s { tokens = s.tokens ++ row ∷ [] })
  grant_app-IsConsistent row absent k = record {
    clients = h.clients;
    ids = h.ids;
    distinct_ids = h.distinct_ids;
    codes = h.codes;
    tokens =
        DistinctBy-insert (λ (r : TokenRow). r.token_hash) s.tokens row row.token_hash refl absent
          h.tokens;
    issued = h.issued;
    granted =
        All-append (IsGranted s.applications s.accounts) s.tokens (row ∷ []) h.granted (k, tt);
  }

  pub accounts-IsConsistent :
      (after : List AccountRow)
      → ((actor : ℕ)
          → any_where (has_account actor) s.accounts ≡ true
          → any_where (has_account actor) after ≡ true)
      → IsConsistent (record s { accounts = after })
  accounts-IsConsistent after keeps = record {
    clients = h.clients;
    ids = h.ids;
    distinct_ids = h.distinct_ids;
    codes = h.codes;
    tokens = h.tokens;
    issued =
        All-mono (IsIssued s.applications s.accounts) (IsIssued s.applications after) s.codes
          (λ r k. (k.0, keeps r.actor_id k.1)) h.issued;
    granted =
        All-mono (IsGranted s.applications s.accounts) (IsGranted s.applications after) s.tokens
          (λ r.
            IsGrantedTo-accounts s.applications s.accounts after keeps r.application_id r.scopes
              r.actor_id)
          h.granted;
  }
