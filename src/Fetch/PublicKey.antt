-- ===== src/Fetch/PublicKey.antt =====
-- internal/fetch/actorpublickey.go: the key that a signature's keyId names. The decoding of PEM
-- (internal/actorkey, by crypto/x509) is the parameter `parse_pem`.
use activitypub_core.Common.{
  String, Bool, false, not, ◌&&◌, ◌||◌, Option, none, some, List, [], ◌∷◌, ◌==◌, if◌then◌else◌,
}
use activitypub_core.Common.Text.{equal_fold}
use activitypub_core.Common.Exec.{Result, ok, err, failure, bind_result, or_fail}
use activitypub_core.Config.{Config}
use activitypub_core.Json.{
  Json, Fields, Raw, no_bytes, malformed, json, as_array, as_object, struct_string,
}
use activitypub_core.Url.{parse, to_string}
use activitypub_core.Fetch.Policy.{Policy, check_url}
use activitypub_core.Fetch.Client.{Client, prepare_actor_get_request, get_ok}

pub record KeyObject : Type 0 where
  pub id : String
  pub pem : String

-- `var single publicKeyObj`
unfoldable pub key_object : Json → Option KeyObject
key_object j = elim (struct_string "id" j) [
  | none ↦ none
  | some id ↦ elim (struct_string "publicKeyPem" j) [
    | none ↦ none
    | some pem ↦ some (record { id = id; pem = pem })
  ]
]

unfoldable pub key_objects : List Json → Option (List KeyObject)
unfolding key_object
key_objects [] = some []
key_objects (j ∷ js) = elim (key_object j) [
  | none ↦ none
  | some k ↦ elim (key_objects js) [ none ↦ none | some ks ↦ some (k ∷ ks) ]
]

-- The member `publicKey`; names are compared without regard to case, and the last one stays.
unfoldable pub raw_member : String → Fields → Option Json
raw_member name [] = none
raw_member name ((k, j) ∷ fs) = elim (raw_member name fs) [
  | some v ↦ some v
  | none ↦ if equal_fold k name then some j else none
]

unfoldable pub doc_public_key : Raw → Result Json
unfolding raw_member
doc_public_key no_bytes = err (failure "decode actor json")
doc_public_key malformed = err (failure "decode actor json")
doc_public_key (json j) = elim (as_object j) [
  | none ↦ err (failure "decode actor json")
  | some fs ↦ or_fail (raw_member "publicKey" fs) (failure "actor missing publicKey")
]

unfoldable pub key_ids_match : String → String → Bool
key_ids_match doc_id key_id = if doc_id == "" then false else doc_id == key_id

-- The first listed key with the id and a PEM text.
unfoldable pub matching_pem : String → List KeyObject → Option String
unfolding key_ids_match
matching_pem key_id [] = none
matching_pem key_id (k ∷ ks) =
    if key_ids_match k.id key_id && not (k.pem == "") then some k.pem else matching_pem key_id ks

unfoldable pub pem_of_list : String → Json → Result String
unfolding key_objects matching_pem
pem_of_list key_id j = elim (as_array j) [
  | none ↦ err (failure "publicKey shape")
  | some js ↦ elim (key_objects js) [
    | none ↦ err (failure "publicKey shape")
    | some ks ↦ or_fail (matching_pem key_id ks) (failure "no public key in actor matches keyId")
  ]
]

unfoldable pub pem_for_key_id : String → Json → Result String
unfolding key_object pem_of_list
pem_for_key_id key_id j = elim (key_object j) [
  | none ↦ pem_of_list key_id j
  | some k ↦
      if k.pem == ""
      then pem_of_list key_id j
      else if key_ids_match k.id key_id
      then ok k.pem
      else err (failure "actor publicKey.id does not match keyId")
]

abbrev check_fetch_url : Option Policy → String → Result (Unit {0})
check_fetch_url none url = ok tt
check_fetch_url (some p) url = check_url p url

module _ {Key : Type 0} (parse_pem : String → Option Key) where
  unfoldable pub public_key_for_key_id :
      Client → Option Policy → Option Config → String → Result Key
  unfolding pem_for_key_id doc_public_key get_ok prepare_actor_get_request
  public_key_for_key_id client policy cfg key_id = elim (parse key_id) [
    | none ↦ err (failure "keyId URL")
    | some u ↦
        let fetch_url = to_string (record u { fragment = "" }) in
        if not (u.scheme == "https" || u.scheme == "http")
        then err (failure "keyId must be http(s)")
        else bind_result (check_fetch_url policy fetch_url) λ _.
          bind_result (prepare_actor_get_request client cfg) λ _.
            bind_result (get_ok client fetch_url) λ r. bind_result (doc_public_key r.body) λ j.
              bind_result (pem_for_key_id key_id j)
                λ pem. or_fail (parse_pem pem) (failure "parse public key")
  ]
