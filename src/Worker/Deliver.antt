-- ===== src/Worker/Deliver.antt =====
-- internal/worker/deliver.go: the signed POST of an activity to an inbox.
use activitypub_core.Common.{
  ℕ, String, not, ◌||◌, Option, none, some, List, ◌==◌, ltb, find_where, any_where, if◌then◌else◌,
}
use activitypub_core.Common.Text.{◌⧺◌, trim_space}
use activitypub_core.Common.Exec.{
  Exec, Result, ok, err, http_delivery, failure, bind_result, or_fail,
}
use activitypub_core.Json.{Json}
use activitypub_core.Config.{Config, local_actor_profile_url}
use activitypub_core.Url.{parse, hostname}
use activitypub_core.Store.{Actor, Db, Deliver}
use activitypub_core.Store.Actors.{same_name, same_name_ci}

-- The key files, the PEM decoder and the signed request are the environment's: `post` gives the
-- status of the reply to the POST of a body that is signed with a key under a keyId.
pub record Transport : Type 1 where
  pub PrivateKey : Type 0
  pub parse_private_key : String → Option PrivateKey
  pub load_private_key : String → Option PrivateKey
  pub post : String → Json → String → PrivateKey → Option ℕ

unfoldable pub signing_username_for_delivery : Deliver → Config → String
signing_username_for_delivery p cfg =
    if not (trim_space p.signing_username == "")
    then trim_space p.signing_username
    else if not (trim_space p.local_username == "")
    then trim_space p.local_username
    else cfg.local_username

-- store/actor_keys.go: ActorPrivateKeyPEMForLocalUser; an error there counts as no key.
unfoldable pub actor_private_key_pem_for_local_user : String → String → List Actor → String
actor_private_key_pem_for_local_user domain user actors =
    if trim_space domain == "" || trim_space user == ""
    then ""
    else elim (find_where (same_name_ci (trim_space domain) (trim_space user)) actors) [
      | none ↦ ""
      | some a ↦ elim a.private_key_pem [ none ↦ "" | some pem ↦ trim_space pem ]
    ]

module _ (t : Transport) where
  open t use {PrivateKey, parse_private_key, load_private_key, post}

  unfoldable pub signing_key : Config → String → Result PrivateKey
  signing_key cfg pem =
      if not (trim_space pem == "")
      then or_fail (parse_private_key pem) (failure "deliver_activity: parse actor private key")
      else if cfg.actor_private_key_path == ""
      then err (failure "AP_ACTOR_PRIVATE_KEY_PATH required for deliver_activity")
      else or_fail (load_private_key cfg.actor_private_key_path) (failure "load private key")

  abbrev reply : Option ℕ → Result (Unit {0})
  reply none = err (failure "post")
  reply (some status) =
      if ltb status 200 || ltb 299 status then err (http_delivery status) else ok tt

  -- The POST in the name of a user who has an account on this instance.
  unfoldable pub deliver_as :
      Config → String → String → List Actor → Json → String → Result (Unit {0})
  unfolding signing_key actor_private_key_pem_for_local_user
  deliver_as cfg domain user actors body inbox_url =
      let send = λ (key : PrivateKey).
        reply (post inbox_url body (local_actor_profile_url cfg user ⧺ "#main-key") key) in
      if any_where (same_name user domain) actors
      then bind_result (signing_key cfg (actor_private_key_pem_for_local_user domain user actors))
          send
      else err (failure "deliver_activity: signing user is not a local account")

  unfoldable pub deliver_activity : Config → Deliver → Exec Db (Unit {0})
  unfolding deliver_as signing_username_for_delivery
  deliver_activity cfg p s =
      let user = signing_username_for_delivery p cfg in
      let result : Result (Unit {0}) =
        if cfg.public_base_url == ""
        then err (failure "AP_PUBLIC_BASE_URL required for deliver_activity (keyId)")
        else if p.inbox_url == ""
        then err (failure "deliver_activity: inboxUrl and body required")
        else elim p.body [
          | none ↦ err (failure "deliver_activity: inboxUrl and body required")
          | some body ↦
              if user == ""
              then err (failure "deliver_activity: signing user required")
              else elim (parse cfg.public_base_url) [
                | none ↦ err (failure "deliver_activity: public base url")
                | some base ↦ deliver_as cfg (hostname base) user s.actors body p.inbox_url
              ]
        ] in
      (result, s)
