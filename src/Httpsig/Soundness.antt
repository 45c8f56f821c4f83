-- ===== src/Httpsig/Soundness.antt =====
-- What an accepted request has been shown to be.
use activitypub_core.Common.{
  ℕ, ◌+◌, ◌≤◌, ◌≡◌, refl, sym, ap, ◌∙◌, inl, inr, String, true, false, some, List, [], ◌∷◌,
  Bool-cases, Option-cases, arith, length,
}
use activitypub_core.Common.Text.{trim_space, cut_prefix}
use activitypub_core.Common.Exec.{ok, Result-cases}
use activitypub_core.Httpsig.Request.{Request, get, build_signing_string}
use activitypub_core.Httpsig.Sign.{Platform, digest_prefix}
use activitypub_core.Httpsig.Verify.{
  max_clock_skew, same_bytes, signature_params, covers_digest, verify_digest, verify_date_header,
  verify_signature, verify_request, verify_get,
}

same_bytes_eq : (as' bs : List ℕ) → length bs ≡ length as' → same_bytes as' bs ≡ true → as' ≡ bs
unfolding same_bytes
same_bytes_eq [] [] l e = refl
same_bytes_eq [] (b ∷ bs) l e = absurd (omega (arith, l))
same_bytes_eq (a ∷ as') [] l e = cc
same_bytes_eq (a ∷ as') (b ∷ bs) l e = ground (arith, same_bytes_eq as' bs, l)

module _ (p : Platform) where
  open p use {PublicKey, sha256, verify, decode, parse_time}

  -- The header is the digest of the body.
  abbrev pub IsDigestOf : String → String → Type 0
  IsDigestOf header body =
      (b64 : String) × ((cut_prefix (trim_space header) digest_prefix ≡ some b64)
        × (decode b64 ≡ some (sha256 body)))

  -- The date lies within the skew of the clock.
  abbrev pub IsRecent : ℕ → String → Type 0
  IsRecent now date =
      (t : ℕ) × ((parse_time (trim_space date) ≡ some t)
        × (now ≤ t + max_clock_skew)
        × (t ≤ now + max_clock_skew))

  -- The key verifies the signature over the listed headers.
  abbrev pub IsSigned : Request → PublicKey → String → List String → Type 0
  IsSigned r key sig_b64 names =
      (signing : String) × ((sig : List ℕ) × ((build_signing_string r names ≡ ok signing)
          × (decode sig_b64 ≡ some sig)
          × (verify key (sha256 signing) sig ≡ true)))

  digest_sound :
      (header body : String) → verify_digest p header body ≡ ok tt → IsDigestOf header body
  unfolding verify_digest
  digest_sound header body e = elim (Option-cases (cut_prefix (trim_space header) digest_prefix)) [
    | inl f ↦ absurd (ground (arith, e, f))
    | inr (b64, f) ↦ elim (Option-cases (decode b64)) [
      | inl g ↦ absurd (ground (arith, e, f, g))
      | inr (got, g) ↦
          let sizes : length got ≡ length (sha256 body) = ground (arith, e, f, g) in
          let bytes : same_bytes (sha256 body) got ≡ true = ground (arith, e, f, g) in
          (b64, (f, g ∙ ap some (sym (same_bytes_eq (sha256 body) got sizes bytes))))
    ]
  ]

  date_sound : (now : ℕ) (date : String) → verify_date_header p now date ≡ ok tt → IsRecent now date
  unfolding verify_date_header
  date_sound now date e = elim (Option-cases (parse_time (trim_space date))) [
    | inl f ↦ absurd (ground (arith, e, f))
    | inr (t, f) ↦ (t, (f, ground (arith, e, f), ground (arith, e, f)))
  ]

  signature_sound :
      (now : ℕ) (r : Request) (key : PublicKey) (sig_b64 : String) (names : List String)
      → verify_signature p now r key (sig_b64, names) ≡ ok tt
      → IsSigned r key sig_b64 names × IsRecent now (get "date" r.header)
  unfolding verify_signature
  signature_sound now r key sig_b64 names e = elim (Result-cases (build_signing_string r names)) [
    | inr (_, f) ↦ absurd (ground (arith, e, f))
    | inl (signing, f) ↦ elim (Option-cases (decode sig_b64)) [
      | inl g ↦ absurd (ground (arith, e, f, g))
      | inr (sig, g) ↦ elim (Bool-cases (verify key (sha256 signing) sig)) [
        | inr h ↦ absurd (ground (arith, e, f, g, h))
        | inl h ↦ (
          (signing, (sig, (f, g, h))),
          date_sound now (get "date" r.header) (ground (arith, e, f, g, h)),
        )
      ]
    ]
  ]

  -- An accepted signed request has the digest of its body, a date within five minutes of the
  -- clock, and a Signature header whose signature the key verifies over the headers that it lists.
  pub verify_request_sound :
      (now : ℕ) (r : Request) (body : String) (key : PublicKey)
      → verify_request p now r body key ≡ ok tt
      → IsDigestOf (get "digest" r.header) body
        × (IsRecent now (get "date" r.header)
            × ((sig_b64 : String) × ((names : List String) × ((signature_params r
                      ≡ ok (sig_b64, names))
                    × IsSigned r key sig_b64 names))))
  unfolding verify_request
  verify_request_sound now r body key e =
      elim (Result-cases (verify_digest p (get "digest" r.header) body)) [
        | inr (_, f) ↦ absurd (ground (arith, e, f))
        | inl (_, f) ↦ elim (Result-cases (signature_params r)) [
          | inr (_, g) ↦ absurd (ground (arith, e, f, g))
          | inl ((sig_b64, names), g) ↦
              let (signed, recent) =
                signature_sound now r key sig_b64 names (ground (arith, e, f, g)) in
              (
                digest_sound (get "digest" r.header) body f,
                (recent, (sig_b64, (names, (g, signed)))),
              )
        ]
      ]

  -- An accepted GET request is signed by the key over the headers that it lists, has a date within
  -- five minutes of the clock, and its list has no digest.
  pub verify_get_sound :
      (now : ℕ) (r : Request) (key : PublicKey)
      → verify_get p now r key ≡ ok tt
      → IsRecent now (get "date" r.header)
        × ((sig_b64 : String) × ((names : List String) × ((signature_params r ≡ ok (sig_b64, names))
                × (IsSigned r key sig_b64 names × (covers_digest names ≡ false)))))
  unfolding verify_get
  verify_get_sound now r key e = elim (Result-cases (signature_params r)) [
    | inr (_, g) ↦ absurd (ground (arith, e, g))
    | inl ((sig_b64, names), g) ↦ elim (Bool-cases (covers_digest names)) [
      | inl covered ↦ absurd (ground (arith, e, g, covered))
      | inr clear ↦
          let (signed, recent) =
            signature_sound now r key sig_b64 names (ground (arith, e, g, clear)) in
          (recent, (sig_b64, (names, (g, (signed, clear)))))
    ]
  ]
