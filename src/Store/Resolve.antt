-- ===== src/Store/Resolve.antt =====
-- store/resolve_local_followee.go: which local actor a Follow is for.
use activitypub_core.Common.{
  ℕ, String, Bool, not, ◌&&◌, ◌||◌, Option, none, some, [], ◌∷◌, ◌==◌, find_where, if◌then◌else◌,
}
use activitypub_core.Common.Text.{
  trim_space, trim_right_slash, trim_slash, to_lower, equal_fold, cut, cut_prefix, split, contains,
}
use activitypub_core.Common.Exec.{Exec, Result, ok, err, Error, failure}
use activitypub_core.Config.{
  Config, is_local_actor_followers_or_following_collection_iri,
  local_username_for_inbound_follow_object, local_actor_profile_url,
}
use activitypub_core.Url.{parse, hostname, unescape}
use activitypub_core.Store.Rows.{Actor, Db}
use activitypub_core.Store.Interactions.{canonical_actor_url}
use activitypub_core.Store.Actors.{actor_id_by_actor_url, same_name_ci}

abbrev not_local : Error
not_local = failure "follow object is not a local actor"

abbrev collection : Error
collection = failure "follow object must be an actor, not followers/following collection"

-- trim(trailing '/' from actor_url) = $1 AND lower(domain) = lower($2)
abbrev pub is_profile_of : String → String → Actor → Bool
is_profile_of canon domain a =
    trim_right_slash a.actor_url == canon && to_lower a.domain == to_lower domain

-- The handle of `@name/...` or `users/name/...`, before decoding.
unfoldable pub raw_handle : String → Option String
raw_handle path = elim (cut_prefix path "@") [
  | some rest ↦ some (elim (cut b'/' rest) [ none ↦ rest | some (a, _) ↦ a ])
  | none ↦ elim (split b'/' path) [
    | [] ↦ none
    | a ∷ more ↦ elim more [ [] ↦ none | b ∷ _ ↦ if a == "users" then some b else none ]
  ]
]

abbrev by_handle : String → Option String → Db → Result (ℕ × String) × Db
by_handle domain none s = (err not_local, s)
by_handle domain (some handle) s =
    if trim_space handle == ""
    then (err not_local, s)
    else elim (find_where (same_name_ci domain handle) s.actors) [
      | none ↦ (err not_local, s)
      | some a ↦ (ok (a.id, a.username), s)
    ]

-- The third attempt: the path of the IRI, on this host.
unfoldable pub resolve_by_path : String → String → Exec Db (ℕ × String)
unfolding raw_handle
resolve_by_path domain iri s = elim (parse iri) [
  | none ↦ (err not_local, s)
  | some u ↦
      let path = trim_slash u.path in
      if not (equal_fold (hostname u) domain) || path == ""
      then (err not_local, s)
      else if contains path "/followers" || contains path "/following"
      then (err collection, s)
      else elim (raw_handle path) [
        | none ↦ (err not_local, s)
        | some h ↦ by_handle domain (unescape h) s
      ]
]

-- The second attempt: a configured user name.
unfoldable pub resolve_by_config : Config → String → String → Exec Db (ℕ × String)
unfolding resolve_by_path actor_id_by_actor_url
resolve_by_config cfg domain iri s =
    elim (local_username_for_inbound_follow_object cfg (canonical_actor_url iri)) [
      | none ↦ resolve_by_path domain iri s
      | some u ↦
          let (r, t) = actor_id_by_actor_url (local_actor_profile_url cfg u) s in
          elim r [ ok id ↦ (ok (id, u), t) | err e ↦ (err e, t) ]
    ]

unfoldable pub resolve_local_followee_from_object_iri : Config → String → Exec Db (ℕ × String)
unfolding resolve_by_config
resolve_local_followee_from_object_iri cfg object_iri s =
    let iri = trim_space object_iri in
    if iri == "" then (err not_local, s) else elim (parse (trim_space cfg.public_base_url)) [
      | none ↦ (err not_local, s)
      | some base ↦
          let domain = hostname base in
          if domain == ""
          then (err not_local, s)
          else if is_local_actor_followers_or_following_collection_iri cfg iri
          then (err collection, s)
          else elim (find_where (is_profile_of (canonical_actor_url iri) domain) s.actors) [
            | some a ↦ (ok (a.id, a.username), s)
            | none ↦ resolve_by_config cfg domain iri s
          ]
    ]
