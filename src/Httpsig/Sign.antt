-- ===== src/Httpsig/Sign.antt =====
-- internal/httpsig/sign.go and digest.go. The hash, the RSA operations, base64 and the format of
-- dates are the platform's.
use activitypub_core.Common.{ℕ, String, Bool, Option, List, [], ◌∷◌, ◌==◌, if◌then◌else◌}
use activitypub_core.Common.Text.{◌⧺◌, trim_space, join}
use activitypub_core.Common.Exec.{Result, ok, err, failure, bind_result, or_fail}
use activitypub_core.Httpsig.Request.{Request, get, set_header, build_signing_string}

-- `sign` fails for a key that is too small.
pub record Platform : Type 1 where
  pub PrivateKey : Type 0
  pub PublicKey : Type 0
  pub sha256 : String → List ℕ
  pub sign : PrivateKey → List ℕ → Option (List ℕ)
  pub verify : PublicKey → List ℕ → List ℕ → Bool
  pub encode : List ℕ → String
  pub decode : String → Option (List ℕ)
  pub format_time : ℕ → String
  pub parse_time : String → Option ℕ

abbrev pub digest_prefix : String
digest_prefix = "SHA-256="

abbrev pub header_order : List String
header_order = "(request-target)" ∷ "host" ∷ "date" ∷ "digest" ∷ "content-type" ∷ []

abbrev pub get_header_order : List String
get_header_order = "(request-target)" ∷ "host" ∷ "date" ∷ "accept" ∷ []

abbrev pub activity_accept : String
activity_accept =
    "application/activity+json, application/ld+json; profile=\"https://www.w3.org/ns/activitystreams\""

-- `strings.Join(names, " ")`
unfoldable pub signature_value : String → List String → String → String
unfolding join
signature_value key_id names sig =
    "keyId=\""
    ⧺ key_id
    ⧺ "\",algorithm=\"rsa-sha256\",headers=\""
    ⧺ join " " names
    ⧺ "\",signature=\""
    ⧺ sig
    ⧺ "\""

unfoldable pub set_if_blank : String → String → Request → Request
set_if_blank name v r = if trim_space (get name r.header) == "" then set_header name v r else r

module _ (p : Platform) where
  open p use {PrivateKey, sha256, sign, encode, format_time}

  unfoldable pub digest_header : String → String
  digest_header body = digest_prefix ⧺ encode (sha256 body)

  -- The signature over the listed headers, in its header.
  unfoldable pub attach_signature : Request → List String → String → PrivateKey → Result Request
  unfolding signature_value
  attach_signature r names key_id priv = bind_result (build_signing_string r names) λ signing.
      bind_result (or_fail (sign priv (sha256 signing)) (failure "sign"))
        λ sig. ok (set_header "signature" (signature_value key_id names (encode sig)) r)

  -- The headers that `SignPost` sets before it signs.
  unfoldable pub prepare_post : Request → String → ℕ → Request
  unfolding digest_header set_if_blank
  prepare_post r body now = set_header "date" (format_time now) (
      set_header "digest" (digest_header body)
        (set_if_blank "content-type" "application/activity+json" (set_header "host" r.url_host r)))

  unfoldable pub sign_post : Request → String → String → PrivateKey → ℕ → Result Request
  unfolding prepare_post attach_signature
  sign_post r body key_id priv now =
      if r.url_host == ""
      then err (failure "request URL must include host for signing")
      else attach_signature (prepare_post r body now) header_order key_id priv

  unfoldable pub prepare_get : Request → ℕ → Request
  unfolding set_if_blank
  prepare_get r now =
      set_header "date" (format_time now)
        (set_if_blank "accept" activity_accept (set_header "host" r.url_host r))

  unfoldable pub sign_get : Request → String → PrivateKey → ℕ → Result Request
  unfolding prepare_get attach_signature
  sign_get r key_id priv now =
      if r.url_host == ""
      then err (failure "request URL must include host for signing")
      else attach_signature (prepare_get r now) get_header_order key_id priv
