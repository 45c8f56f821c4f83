-- ===== src/Fetch/Client.antt =====
-- internal/fetch/signed_get.go and objectjson.go. The HTTP client and the key files are the
-- environment's: `get` gives the reply to a GET request, with the body as far as it was read.
use activitypub_core.Common.{
  ℕ, String, Bool, not, Option, none, some, ◌==◌, ltb, nat_eq, if◌then◌else◌,
}
use activitypub_core.Common.Text.{trim_space}
use activitypub_core.Common.Exec.{Result, ok, err, failure, bind_result}
use activitypub_core.Config.{Config}
use activitypub_core.Json.{Raw}
use activitypub_core.Url.{Url, parse}
use activitypub_core.Fetch.Policy.{Policy, pre_dial_check}

-- `size` is the number of bytes of the body.
pub record Response : Type 0 where
  pub status : ℕ
  pub body : Raw
  pub size : ℕ

pub record Client : Type 0 where
  pub get : String → Option Response
  pub key_file_loads : String → Bool

-- PrepareActorGETRequest: the signature itself is in the module for internal/httpsig. A key that
-- rsa.SignPKCS1v15 refuses counts as one that does not load; of a URL without a host, which SignGet
-- refuses, `get` gives no reply.
unfoldable pub prepare_actor_get_request : Client → Option Config → Result (Unit {0})
prepare_actor_get_request client none = ok tt
prepare_actor_get_request client (some cfg) =
    let own = trim_space cfg.instance_actor_private_key_path in
    let path = if own == "" then trim_space cfg.actor_private_key_path else own in
    if not cfg.sign_outbound_get
    then ok tt
    else if path == ""
    then err (failure "AP_SIGN_GET requires a private key path")
    else if client.key_file_loads path
    then ok tt
    else err (failure "instance get signer")

abbrev pub policy_allows : Option Policy → Url → Result (Unit {0})
policy_allows none u = ok tt
policy_allows (some p) u = pre_dial_check p u

-- The reply to a GET, where it is 200.
unfoldable pub get_ok : Client → String → Result Response
get_ok client url = elim (client.get url) [
  | none ↦ err (failure "fetch")
  | some r ↦ if nat_eq r.status 200 then ok r else err (failure "fetch: status")
]

-- FetchActivityPubJSON; a limit below one is one MiB.
unfoldable pub fetch_activity_pub_json :
    Client → Option Policy → String → Option Config → ℕ → Result Raw
unfolding get_ok prepare_actor_get_request
fetch_activity_pub_json client policy doc_url cfg max_bytes =
    let url = trim_space doc_url in
    let limit = if ltb max_bytes 1 then 1048576 else max_bytes in
    if url == "" then err (failure "fetch object: empty url") else elim (parse url) [
      | none ↦ err (failure "fetch object: parse")
      | some u ↦ bind_result (policy_allows policy u) λ _.
          bind_result (prepare_actor_get_request client cfg) λ _.
            bind_result (get_ok client url) λ r.
              if ltb limit r.size then err (failure "fetch object: response larger") else ok r.body
    ]
