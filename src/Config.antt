-- ===== src/Config.antt =====
-- internal/config/config.go: the settings that the modelled parts read, the IRIs of local actors,
-- and the tests for what is addressed to this instance.
use activitypub_core.Common.{
  ℕ, String, Bool, true, false, not, ◌&&◌, ◌||◌, Option, none, some, List, [], ◌∷◌, ◌==◌, ltb,
  if◌then◌else◌,
}
use activitypub_core.Common.Text.{
  ◌⧺◌, trim_space, trim_right_slash, trim_slash, to_lower, equal_fold, cut, cut_prefix, split,
}
use activitypub_core.Url.{Url, parse, hostname, path_escape, unescape}

pub record Config : Type 0 where
  pub public_base_url : String
  pub local_username : String
  pub local_usernames : List String
  pub follow_auto_accept : Bool
  pub create_object_max_fetch_bytes : ℕ
  pub fetch_allow_http : Bool
  pub fetch_relax_local : Bool
  pub sign_outbound_get : Bool
  pub actor_private_key_path : String
  pub instance_actor_private_key_path : String
  pub instance_name : String
  pub delivery_max_attempts : ℕ
  pub delivery_backoff_initial_sec : ℕ
  pub delivery_backoff_max_sec : ℕ
  pub media_max_attachments_per_status : ℕ
  pub media_allowed_mime_types : List String

default_media_allowed_mime_types : List String
default_media_allowed_mime_types = "image/jpeg" ∷ "image/png" ∷ "image/gif" ∷ "image/webp" ∷ []

normalized_mime_types : List String → List String
normalized_mime_types [] = []
normalized_mime_types (m ∷ ms) =
    let rest = normalized_mime_types ms in
    let m' = trim_space (to_lower m) in if m' == "" then rest else m' ∷ rest

abbrev or_default : List String → List String → List String
or_default [] d = d
or_default (x ∷ xs) d = x ∷ xs

unfoldable pub effective_media_allowed_mime_types : Config → List String
unfolding default_media_allowed_mime_types normalized_mime_types
effective_media_allowed_mime_types c =
    or_default (normalized_mime_types c.media_allowed_mime_types) default_media_allowed_mime_types

unfoldable pub effective_media_max_attachments_per_status : Config → ℕ
effective_media_max_attachments_per_status c =
    let n =
      if ltb 0 c.media_max_attachments_per_status then c.media_max_attachments_per_status else 4 in
    if ltb n 1 then 1 else n

-- one of the names
unfoldable pub listed : String → List String → Bool
listed name [] = false
listed name (u ∷ us) = u == name || listed name us

abbrev is_nil : List String → Bool
is_nil [] = true
is_nil (x ∷ xs) = false

unfoldable pub is_local_username : Config → String → Bool
unfolding listed
is_local_username c name =
    listed name c.local_usernames
    || (is_nil c.local_usernames && not (c.local_username == "") && c.local_username == name)

abbrev root : Config → String
root c = trim_right_slash c.public_base_url

unfoldable pub local_actor_profile_url : Config → String → String
local_actor_profile_url c username = root c ⧺ "/@" ⧺ path_escape username

unfoldable pub local_actor_outbox_url : Config → String → String
local_actor_outbox_url c username = root c ⧺ "/@" ⧺ path_escape username ⧺ "/outbox"

unfoldable pub local_actor_followers_url : Config → String → String
local_actor_followers_url c username = root c ⧺ "/@" ⧺ path_escape username ⧺ "/followers"

unfoldable pub local_actor_following_url : Config → String → String
local_actor_following_url c username = root c ⧺ "/@" ⧺ path_escape username ⧺ "/following"

unfoldable pub local_actor_inbox_url : Config → String → String
local_actor_inbox_url c username = root c ⧺ "/@" ⧺ path_escape username ⧺ "/inbox"

unfoldable pub instance_actor_iri : Config → String
instance_actor_iri c = root c ⧺ "/.well-known/actor"

unfoldable pub instance_actor_key_id : Config → String
unfolding instance_actor_iri
instance_actor_key_id c = instance_actor_iri c ⧺ "#main-key"

unfoldable pub local_shared_inbox_url : Config → String
local_shared_inbox_url c = root c ⧺ "/inbox"

unfoldable pub web_finger_template_url : Config → String
web_finger_template_url c =
    trim_right_slash (trim_space c.public_base_url) ⧺ "/.well-known/webfinger?resource={uri}"

unfoldable pub instance_display_name : Config → String
unfolding hostname
instance_display_name c =
    let by_host : String = elim (parse (trim_space c.public_base_url)) [
      | none ↦ "activitypub-core"
      | some u ↦ if hostname u == "" then "activitypub-core" else hostname u
    ] in
    if trim_space c.instance_name == "" then by_host else trim_space c.instance_name

-- The names to try: the list, or the single name where the list is empty and `keep` allows it.
abbrev pub usernames_or : Bool → Config → List String
usernames_or keep c =
    if is_nil c.local_usernames
    then (if keep then c.local_username ∷ [] else [])
    else c.local_usernames

abbrev path_is : String → String → Bool
path_is iri want = elim (parse iri) [ none ↦ false | some u ↦ trim_slash u.path == want ]

any_collection : Config → String → List String → Bool
unfolding parse local_actor_followers_url local_actor_following_url
any_collection c want [] = false
any_collection c want (u ∷ us) =
    path_is (local_actor_followers_url c u) want
    || path_is (local_actor_following_url c u) want
    || any_collection c want us

-- Whether two references are on one host.
abbrev pub same_host : Url → Url → Bool
same_host a b = equal_fold (hostname a) (hostname b)

unfoldable pub is_local_actor_followers_or_following_collection_iri : Config → String → Bool
unfolding any_collection
is_local_actor_followers_or_following_collection_iri c ref =
    if trim_space c.public_base_url == "" then false else elim (parse (trim_space ref)) [
      | none ↦ false
      | some want ↦ elim (parse (root c)) [
        | none ↦ false
        | some base ↦
            not (want.host == "")
            && not (hostname base == "")
            && same_host want base
            && any_collection c (trim_slash want.path)
                (usernames_or (not (trim_space c.local_username == "")) c)
      ]
    ]

any_inbox : Config → String → List String → Bool
any_inbox c r [] = false
any_inbox c r (u ∷ us) = r == trim_right_slash (local_actor_inbox_url c u) || any_inbox c r us

unfoldable pub is_addressing_this_instance_inbox : Config → String → Bool
unfolding any_inbox
is_addressing_this_instance_inbox c ref =
    let r = trim_right_slash (trim_space ref) in
    if trim_space c.public_base_url == ""
    then false
    else if r == ""
    then false
    else r == trim_right_slash (local_shared_inbox_url c)
      || any_inbox c r (usernames_or (not (trim_space c.local_username == "")) c)

-- The first name whose profile is `want`.
unfoldable pub find_profile : Config → String → List String → Option String
find_profile c want [] = none
find_profile c want (u ∷ us) =
    if trim_right_slash (local_actor_profile_url c u) == want
    then some u
    else find_profile c want us

unfoldable pub local_username_for_actor_url : Config → String → Option String
unfolding find_profile
local_username_for_actor_url c actor_url =
    find_profile c (trim_right_slash (trim_space actor_url))
      (usernames_or (not (c.local_username == "")) c)

abbrev local_handle : Config → Option String → Option String
local_handle c none = none
local_handle c (some h) = if not (h == "") && is_local_username c h then some h else none

abbrev before_slash : String → String
before_slash s = elim (cut b'/' s) [ none ↦ s | some (a, _) ↦ a ]

-- `/users/name` in the segments of a path
abbrev users_handle : List String → Option String
users_handle (a ∷ b ∷ rest) = if a == "users" then unescape b else none
users_handle _ = none

unfoldable pub handle_of_path : Config → String → Option String
unfolding is_local_username
handle_of_path c path = elim (cut_prefix path "@") [
  | some rest ↦ local_handle c (unescape (before_slash rest))
  | none ↦ local_handle c (users_handle (split b'/' path))
]

unfoldable pub local_username_for_inbound_follow_object : Config → String → Option String
unfolding local_username_for_actor_url handle_of_path
local_username_for_inbound_follow_object c object_iri =
    elim (local_username_for_actor_url c object_iri) [
      | some u ↦ some u
      | none ↦
          let iri = trim_space object_iri in
          if iri == "" || c.public_base_url == "" then none else elim (parse iri) [
            | none ↦ none
            | some obj ↦ elim (parse c.public_base_url) [
              | none ↦ none
              | some base ↦
                  if not (obj.host == "")
                    && not (hostname base == "")
                    && same_host obj base
                    && not (trim_slash obj.path == "")
                  then handle_of_path c (trim_slash obj.path)
                  else none
            ]
          ]
    ]

abbrev same_document : Url → Url → Bool
same_document inst ref =
    not (inst.host == "")
    && not (ref.host == "")
    && same_host inst ref
    && trim_right_slash inst.path == trim_right_slash ref.path

unfoldable pub ref_addresses_local_recipient : Config → String → Bool
unfolding local_username_for_inbound_follow_object instance_actor_iri
ref_addresses_local_recipient c ref = elim (local_username_for_inbound_follow_object c ref) [
  | some u ↦ true
  | none ↦
      if c.public_base_url == "" || trim_space (instance_actor_iri c) == ""
      then false
      else elim (parse (trim_space (instance_actor_iri c))) [
        | none ↦ false
        | some inst ↦ elim (parse (trim_space ref)) [ none ↦ false | some u ↦ same_document inst u ]
      ]
]
