-- ===== src/Oauth/State.antt =====
-- The tables that db/migrations/000005 and 000006 add, and the functions that the standard library
-- and bcrypt give to the statements on them. Bytes are texts of the characters with their values.
-- A column that no modelled statement reads (timestamps, `id` of codes and tokens) is left out.
use activitypub_core.Common.{ℕ, String, Bool, Option, none, some, List, ◌==◌, if◌then◌else◌}
use activitypub_core.Store.{Actor}

-- `type OAuthApplication` as it is read back: without the secret in plain text.
pub record Application : Type 0 where
  pub id : ℕ
  pub client_id : String
  pub secret_hash : String
  pub redirect_uris : String
  pub client_name : String
  pub website : String
  pub scopes : String

pub record CodeRow : Type 0 where
  pub code : String
  pub application_id : ℕ
  pub actor_id : ℕ
  pub redirect_uri : String
  pub scopes : String
  pub code_challenge : Option String
  pub code_challenge_method : Option String
  pub expires_at : ℕ

-- `actor_id` is NULL in a token of an application.
pub record TokenRow : Type 0 where
  pub token_hash : String
  pub application_id : ℕ
  pub actor_id : Option ℕ
  pub scopes : String

pub record AccountRow : Type 0 where
  pub actor_id : ℕ
  pub password_bcrypt : String

pub record OauthDb : Type 0 where
  pub actors : List Actor
  pub accounts : List AccountRow
  pub applications : List Application
  pub codes : List CodeRow
  pub tokens : List TokenRow
  pub next_application : ℕ

-- `sha256.Sum256`, `base64.RawURLEncoding.EncodeToString`, `bcrypt.GenerateFromPassword` with the
-- salt that it draws (`none` is its error) and `bcrypt.CompareHashAndPassword`.
pub record Crypto : Type 0 where
  pub sha256 : String → String
  pub raw_url_encode : String → String
  pub generate_from_password : String → String → Option String
  pub password_matches : String → String → Bool

-- NULLIF(x, '')
abbrev pub null_if_empty : String → Option String
null_if_empty s = if s == "" then none else some s

-- COALESCE(x, '')
abbrev pub or_empty : Option String → String
or_empty none = ""
or_empty (some s) = s
