-- ===== src/Httpsig/Tests.antt =====
-- Runs of the verification on a platform with one digest.
use activitypub_core.Common.{
  ◌≡◌, refl, String, false, none, some, List, [], ◌∷◌, ◌==◌, if◌then◌else◌,
}
use activitypub_core.Common.Text.{trim_space, to_lower, fields, equal_fold}
use activitypub_core.Common.Exec.{ok}
use activitypub_core.Httpsig.Request.{Request, get}
use activitypub_core.Httpsig.Sign.{Platform}
use activitypub_core.Httpsig.Verify.{
  signature_params, covers_digest, same_bytes, verify_request, verify_get,
}
use activitypub_core.Httpsig.Soundness.{
  IsDigestOf, IsRecent, IsSigned, verify_request_sound, verify_get_sound,
}

abbrev platform : Platform
platform = record {
  PrivateKey = Unit;
  PublicKey = Unit;
  sha256 = λ _. 1 ∷ [];
  sign = λ _ d. some d;
  verify = λ _ d sig. same_bytes d sig;
  encode = λ _. "AQ==";
  decode = λ s. if s == "AQ==" then some (1 ∷ []) else none;
  format_time = λ _. "now";
  parse_time = λ s. if s == "now" then some 7 else none;
}

abbrev post : Request
post = record {
  method = "POST";
  escaped_path = "/inbox";
  raw_query = "";
  url_host = "here.example";
  host = "here.example";
  header =
      ("digest", "SHA-256=AQ==" ∷ [])
      ∷ ("date", "now" ∷ [])
      ∷ (
        "signature",
        "keyId=\"k\",algorithm=\"rsa-sha256\",headers=\"(request-target) host date digest\",signature=\"AQ==\""
            ∷ [],
      )
      ∷ [];
}

abbrev query : Request
query = record post {
  method = "GET";
  header =
      ("date", "now" ∷ [])
      ∷ (
        "signature",
        "keyId=\"k\",algorithm=\"hs2019\",headers=\"(request-target) host date\",signature=\"AQ==\""
            ∷ [],
      )
      ∷ [];
}

accepts_post : verify_request platform 9 post "{}" tt ≡ ok tt
unfolding verify_request get same_bytes trim_space to_lower fields
accepts_post = refl

accepts_get : verify_get platform 9 query tt ≡ ok tt
unfolding verify_get get same_bytes trim_space to_lower fields equal_fold
accepts_get = refl

verify_request_sound_example :
    IsDigestOf platform (get "digest" post.header) "{}"
    × (IsRecent platform 9 (get "date" post.header)
        × ((sig_b64 : String) × ((names : List String) × ((signature_params post
                  ≡ ok (sig_b64, names))
                × IsSigned platform post tt sig_b64 names))))
verify_request_sound_example = verify_request_sound platform 9 post "{}" tt accepts_post

verify_get_sound_example :
    IsRecent platform 9 (get "date" query.header)
    × ((sig_b64 : String) × ((names : List String) × ((signature_params query ≡ ok (sig_b64, names))
            × (IsSigned platform query tt sig_b64 names × (covers_digest names ≡ false)))))
verify_get_sound_example = verify_get_sound platform 9 query tt accepts_get
