-- ===== src/Oauth/Redirects.antt =====
-- The redirect URIs that an application registers, the scopes that it may ask for, and the use of a
-- token that was granted.
use activitypub_core.Common.{
  ◌≡◌, ◌≢◌, sym, refl, subst, ◌↔◌, ◌⊎◌, inl, inr, ℕ, String, code, Bool, true, false, some, List,
  [], ◌∷◌, ◌==◌, nat_eq, eq_iff, arith, All, any_where, find_where, find_where-All, Bool-cases,
}
use activitypub_core.Common.Text.{◌⧺◌, is_space, trim_space, join}
use activitypub_core.Common.TextLaws.{
  IsGiven, join-IsGiven, IsWord, NoChar, trim_space_word, trim_space_words, trim_space-join,
  fields_func-join,
}
use activitypub_core.Common.Exec.{ok}
use activitypub_core.Json.{arr, Elems, elems}
use activitypub_core.Store.{All-mono, find_where-append}
use activitypub_core.Url.Query.{Values, get}
use activitypub_core.Oauth.State.{TokenRow, Application, CodeRow, OauthDb, Crypto}
use activitypub_core.Oauth.Store.{
  is_uri_separator, redirect_uri_allowed, is_valid_code, has_token_hash, hash_secret,
  actor_id_for_access_token,
}
use activitypub_core.Oauth.Authorize.{write_oauth_token_ok}
use activitypub_core.Oauth.Token.{
  scope_words, all_allowed, oauth_scopes_subset, post_oauth_token_authorization_code,
}
use activitypub_core.Oauth.Register.{
  all_strings, trimmed_parts, normalize_redirect_uris_json, actor_id_from_bearer,
}
use activitypub_core.Oauth.Soundness.{IsExchange, post_oauth_token_authorization_code-IsCodeGrant}

abbrev pub IsIn : String → List String → Type 0
IsIn s [] = ⊥
IsIn s (x ∷ xs) = (x ≡ s) ⊎ IsIn s xs

any_where_iff : (s : String) (xs : List String) → (any_where (λ x. x == s) xs ≡ true) ↔ IsIn s xs
any_where_iff s [] = (λ e. cc, λ h. absurd h)
any_where_iff s (x ∷ xs) = (
  λ e. elim (Bool-cases (x == s)) [
    | inl t ↦ inl ((eq_iff x s).0 t)
    | inr f ↦ inr ((any_where_iff s xs).0 (ground (arith, e, f)))
  ],
  λ h. elim h [
    | inl e ↦ ground (arith, (eq_iff x s).1 e)
    | inr k ↦ ground (arith, (any_where_iff s xs).1 k)
  ],
)

all_allowed_iff :
    (allow req : List String) → (all_allowed allow req ≡ true) ↔ All (λ s. IsIn s allow) req
unfolding all_allowed
all_allowed_iff allow [] = (λ e. tt, λ h. refl)
all_allowed_iff allow (s ∷ req) = (
  λ e. (
    (any_where_iff s allow).0 (ground (arith, e)),
    (all_allowed_iff allow req).0 (ground (arith, e)),
  ),
  λ h. ground (arith, (any_where_iff s allow).1 h.0, (all_allowed_iff allow req).1 h.1),
)

-- The requested scopes are a subset of the allowed ones exactly when each requested word is one of
-- the allowed words.
pub oauth_scopes_subset_iff :
    (requested allowed : String)
    → (oauth_scopes_subset requested allowed ≡ true)
      ↔ All (λ s. IsIn s (scope_words allowed)) (scope_words requested)
unfolding oauth_scopes_subset
oauth_scopes_subset_iff requested allowed =
    all_allowed_iff (scope_words allowed) (scope_words requested)

is_uri_separator_space : (c : ℕ) → is_space c ≡ false → is_uri_separator c ≡ false
unfolding is_space
is_uri_separator_space c e = ground arith

NoChar-mono :
    (p q : ℕ → Bool) (s : String) → ((c : ℕ) → p c ≡ false → q c ≡ false) → NoChar p s → NoChar q s
NoChar-mono p q String.[] k h = tt
NoChar-mono p q (String.◌∷◌ c s) k (h, hs) = (k (code c) h, NoChar-mono p q s k hs)

IsWord-separators : (s : String) → IsWord is_space s → IsWord is_uri_separator s
IsWord-separators String.[] h = absurd h
IsWord-separators (String.◌∷◌ c s) (h, hs) = (
  is_uri_separator_space (code c) h,
  NoChar-mono is_space is_uri_separator s is_uri_separator_space hs,
)

any_trimmed :
    (u : String) (us : List String)
    → All (IsWord is_space) us
    → any_where (λ part. trim_space part == u) us ≡ any_where (λ x. x == u) us
any_trimmed u [] h = refl
any_trimmed u (x ∷ us) (h, hs) = rw (trim_space_word x h, any_trimmed u us hs) refl

word_given : (p : ℕ → Bool) (s : String) → IsWord p s → (s == "") ≡ false
word_given p s w = elim (Bool-cases (s == "")) [
  | inr f ↦ f
  | inl t ↦ absurd (subst (IsWord p) ((eq_iff s "").0 t) w)
]

trimmed_words : (us : List String) → All (IsWord is_space) us → trimmed_parts us ≡ us
unfolding trimmed_parts
trimmed_words [] h = refl
trimmed_words (u ∷ us) (h, hs) =
    rw (trim_space_word u h, trimmed_words us hs, word_given is_space u h) refl

no_empty_word : (us : List String) → All (IsWord is_space) us → any_where (λ u. u == "") us ≡ false
no_empty_word [] h = refl
no_empty_word (u ∷ us) (h, hs) = rw (word_given is_space u h, no_empty_word us hs) refl

join_words :
    (u : String) (us : List String)
    → All (IsWord is_space) (u ∷ us)
    → (join "\n" (u ∷ us) == "") ≡ false
join_words u us (h, _) = elim (Bool-cases (join "\n" (u ∷ us) == "")) [
  | inr f ↦ f
  | inl t ↦ absurd (subst IsGiven ((eq_iff (join "\n" (u ∷ us)) "").0 t) (join-IsGiven "\n" u us h))
]

nothing_registered : (candidate : String) → redirect_uri_allowed (join "\n" []) candidate ≡ false
unfolding redirect_uri_allowed trim_space join
nothing_registered candidate = refl

redirect_uri_allowed_words :
    (us : List String) (candidate : String)
    → All (IsWord is_space) us
    → redirect_uri_allowed (join "\n" us) candidate ≡ any_where (λ u. u == trim_space candidate) us
unfolding redirect_uri_allowed
redirect_uri_allowed_words [] candidate h = nothing_registered candidate
redirect_uri_allowed_words (u ∷ us) candidate h = elim (Bool-cases (trim_space candidate == "")) [
  | inl blank ↦
      let none_empty : any_where (λ x. x == trim_space candidate) (u ∷ us) ≡ false =
        subst (λ c. any_where (λ x. x == c) (u ∷ us) ≡ false)
          (sym ((eq_iff (trim_space candidate) "").0 blank)) (no_empty_word (u ∷ us) h) in
      rw (trim_space-join "\n" (u ∷ us) h, join_words u us h, blank) (sym none_empty)
  | inr given ↦
      rw
        (
          trim_space-join "\n" (u ∷ us) h,
          join_words u us h,
          given,
          fields_func-join is_uri_separator "\n" (u ∷ us) refl
              (All-mono (IsWord is_space) (IsWord is_uri_separator) (u ∷ us) IsWord-separators h),
        )
        (any_trimmed (trim_space candidate) (u ∷ us) h)
]

normalize_words :
    (js : Elems) (us : List String)
    → all_strings (elems js) ≡ some us
    → All (IsWord is_space) us
    → normalize_redirect_uris_json (arr js) ≡ join "\n" us
unfolding normalize_redirect_uris_json
normalize_words js us e h = rw (normalize_redirect_uris_json, e, trimmed_words us h) refl

-- An application that registers an array of URIs without white space may be redirected to exactly
-- these.
pub redirect_uri_allowed-registered :
    (js : Elems) (us : List String) (candidate : String)
    → all_strings (elems js) ≡ some us
    → All (IsWord is_space) us
    → redirect_uri_allowed (normalize_redirect_uris_json (arr js)) candidate
      ≡ any_where (λ u. u == trim_space candidate) us
redirect_uri_allowed-registered js us candidate e h =
    subst (λ r. redirect_uri_allowed r candidate ≡ any_where (λ u. u == trim_space candidate) us)
      (sym (normalize_words js us e h)) (redirect_uri_allowed_words us candidate h)

bearer_token :
    (p : Crypto) (raw scopes : String) (app actor : ℕ) (t : OauthDb)
    → IsWord is_space raw
    → actor ≢ 0
    → actor_id_for_access_token p raw t ≡ ok (actor, app, scopes)
    → actor_id_from_bearer p ("Bearer " ⧺ raw) t ≡ some actor
unfolding actor_id_from_bearer ◌⧺◌
bearer_token p raw scopes app actor t w n e =
    let serial : nat_eq actor 0 ≡ false = ground (arith, n) in
    rw
      (
        actor_id_from_bearer,
        trim_space_words "Bearer" " " raw (refl, (refl, (refl, (refl, (refl, (refl, tt)))))) w,
        trim_space_word raw w,
        word_given is_space raw w,
        e,
        serial,
      )
      refl

exchanged_token :
    (p : Crypto) (now : ℕ) (app : Application) (code uri verifier raw scopes : String)
    (s t : OauthDb) (x : IsExchange p now app code uri verifier s raw scopes t)
    → actor_id_for_access_token p raw t ≡ ok (x.row.actor_id, x.row.application_id, x.row.scopes)
unfolding actor_id_for_access_token
exchanged_token p now app code uri verifier raw scopes s t x =
    let row : TokenRow = record {
      token_hash = hash_secret p raw;
      application_id = x.row.application_id;
      actor_id = some x.row.actor_id;
      scopes = x.row.scopes;
    } in
    let found =
      find_where-append (has_token_hash (hash_secret p raw)) s.tokens row x.is_new
        ((eq_iff (hash_secret p raw) (hash_secret p raw)).1 refl) in
    rw (x.tables, actor_id_for_access_token, found) refl

-- A token that was granted for a code is accepted as a bearer token of the actor of the code.
pub actor_id_from_bearer-granted :
    (p : Crypto) (now : ℕ) (token : String) (vals : Values) (s t : OauthDb) (raw scopes : String)
    (at : ℕ)
    → post_oauth_token_authorization_code p now token vals s
      ≡ (write_oauth_token_ok raw scopes at, t)
    → IsWord is_space raw
    → All (λ (r : CodeRow). r.actor_id ≢ 0) s.codes
    → (row : CodeRow) × (find_where
          (is_valid_code now (trim_space (get "code" vals)) (trim_space (get "redirect_uri" vals)))
          s.codes
        ≡ some row)
      × (actor_id_from_bearer p ("Bearer " ⧺ raw) t ≡ some row.actor_id)
actor_id_from_bearer-granted p now token vals s t raw scopes at e w serials =
    let (app, _, x) =
      post_oauth_token_authorization_code-IsCodeGrant p now token vals s t raw scopes at e in
    let used =
      is_valid_code now (trim_space (get "code" vals)) (trim_space (get "redirect_uri" vals)) in
    let (serial, _) =
      find_where-All (λ (r : CodeRow). r.actor_id ≢ 0) used s.codes x.row x.is_stored serials in
    (
      x.row,
      x.is_stored,
      bearer_token p raw x.row.scopes x.row.application_id x.row.actor_id t w serial
          (exchanged_token p now app _ _ _ raw scopes s t x),
    )
