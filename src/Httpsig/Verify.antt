-- ===== src/Httpsig/Verify.antt =====
-- internal/httpsig/verify.go and VerifyDigest of digest.go. Times are in nanoseconds.
use activitypub_core.Common.{
  ℕ, ◌+◌, String, Bool, true, false, not, ◌&&◌, ◌||◌, Option, none, some, List, [], ◌∷◌, ◌==◌,
  nat_eq, leb, length, if◌then◌else◌,
}
use activitypub_core.Common.Text.{trim_space, cut_prefix, equal_fold, fields}
use activitypub_core.Common.Exec.{Result, ok, err, failure, bind_result, or_fail}
use activitypub_core.Httpsig.Request.{Request, get, build_signing_string}
use activitypub_core.Httpsig.Parse.{parse_signature_header, param_or_empty}
use activitypub_core.Httpsig.Sign.{Platform, digest_prefix}

-- five minutes
abbrev pub max_clock_skew : ℕ
max_clock_skew = 300_000_000_000

-- The loop that gathers the differences of two digests of one length.
unfoldable pub same_bytes : List ℕ → List ℕ → Bool
same_bytes [] bs = true
same_bytes (a ∷ as') [] = false
same_bytes (a ∷ as') (b ∷ bs) = nat_eq a b && same_bytes as' bs

abbrev require : Bool → String → Result (Unit {0})
require b message = if b then ok tt else err (failure message)

abbrev with_prefix : Option String → Result String
with_prefix none = err (failure "Digest must use SHA-256")
with_prefix (some s) = ok s

abbrev nonempty : List String → Result (List String)
nonempty [] = err (failure "missing headers list in signature")
nonempty (h ∷ hs) = ok (h ∷ hs)

-- What the Signature header says: the signature and the list of headers.
unfoldable pub signature_params : Request → Result (String × List String)
unfolding parse_signature_header param_or_empty
signature_params r =
    let raw = get "signature" r.header in
    bind_result (require (not (raw == "")) "missing Signature header") λ _.
      bind_result (parse_signature_header raw) λ params.
        let alg = param_or_empty "algorithm" params in
        bind_result
          (require (alg == "rsa-sha256" || alg == "hs2019") "unsupported signature algorithm")
          λ _.
            let sig = param_or_empty "signature" params in
            bind_result (require (not (sig == "")) "missing signature value") λ _.
              bind_result (nonempty (fields (param_or_empty "headers" params)))
                λ names. ok (sig, names)

unfoldable pub covers_digest : List String → Bool
covers_digest [] = false
covers_digest (h ∷ hs) = equal_fold (trim_space h) "digest" || covers_digest hs

module _ (p : Platform) where
  open p use {PublicKey, sha256, verify, decode, parse_time}

  unfoldable pub verify_digest : String → String → Result (Unit {0})
  unfolding same_bytes cut_prefix
  verify_digest header body =
      let h = trim_space header in
      bind_result (require (not (h == "")) "missing Digest header") λ _.
        bind_result (with_prefix (cut_prefix h digest_prefix)) λ b64.
          bind_result (or_fail (decode b64) (failure "digest base64")) λ got.
            bind_result
              (require (nat_eq (length got) (length (sha256 body))) "digest length mismatch")
              λ _. require (same_bytes (sha256 body) got) "digest does not match request body"

  -- A date within the allowed skew of the clock, in either direction.
  unfoldable pub verify_date_header : ℕ → String → Result (Unit {0})
  verify_date_header now date =
      let d = trim_space date in
      bind_result (require (not (d == "")) "missing Date header") λ _.
        bind_result (or_fail (parse_time d) (failure "Date header")) λ t.
          require (leb now (t + max_clock_skew) && leb t (now + max_clock_skew))
            "Date outside allowed skew"

  -- The signature over the headers that the list names, and the date.
  unfoldable pub verify_signature :
      ℕ → Request → PublicKey → String × List String → Result (Unit {0})
  unfolding build_signing_string verify_date_header
  verify_signature now r key (sig_b64, names) =
      bind_result (build_signing_string r names) λ signing.
        bind_result (or_fail (decode sig_b64) (failure "signature base64")) λ sig.
          bind_result (require (verify key (sha256 signing) sig) "signature verify")
            λ _. verify_date_header now (get "date" r.header)

  unfoldable pub verify_request : ℕ → Request → String → PublicKey → Result (Unit {0})
  unfolding verify_digest signature_params verify_signature
  verify_request now r body key =
      bind_result (verify_digest (get "digest" r.header) body)
        λ _. bind_result (signature_params r) (verify_signature now r key)

  unfoldable pub verify_get : ℕ → Request → PublicKey → Result (Unit {0})
  unfolding signature_params verify_signature covers_digest
  verify_get now r key = bind_result (signature_params r) λ sp.
      bind_result (require (not (covers_digest sp.1)) "GET signature must not cover digest")
        λ _. verify_signature now r key sp
