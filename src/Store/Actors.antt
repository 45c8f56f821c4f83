-- ===== src/Store/Actors.antt =====
-- The table actors: EnsureLocalActor, UpsertLocalActor and EnsureRemoteActor of
-- store/federation.go, and the reads of store/activity.go, store/local_actor_domain.go and
-- internal/inboxproc/common.go.
use activitypub_core.Common.{
  ℕ, ◌+◌, String, Bool, true, false, ◌&&◌, ◌||◌, Option, none, some, List, ◌==◌, nat_eq, any_where,
  find_where, if◌then◌else◌,
}
use activitypub_core.Common.Text.{
  ◌⧺◌, trim_space, trim_left, trim_right, trim_right_slash, trim_slash, to_lower, after_last,
}
use activitypub_core.Common.Exec.{
  Exec, Result, ok, err, no_rows, unique_violation, failure, ◌>>=◌, fail, lift,
}
use activitypub_core.Config.{Config, is_local_username, local_actor_inbox_url}
use activitypub_core.Url.{parse, hostname, path_escape, unescape}
use activitypub_core.Store.Rows.{Actor, Db}
use activitypub_core.Store.Table.{upsert}
use activitypub_core.Store.Interactions.{canonical_actor_url}

abbrev pub local_actor_public_key_placeholder : String
local_actor_public_key_placeholder = "(local-public-key-unconfigured)"

abbrev pub same_name : String → String → Actor → Bool
same_name username domain a = a.username == username && a.domain == domain

abbrev pub same_url : String → Actor → Bool
same_url url a = a.actor_url == url

-- coalesce(trim(private_key_pem), '') <> '': SQL trims spaces only
abbrev has_private_key : Actor → Bool
has_private_key a = elim a.private_key_pem [
  | none ↦ false
  | some pem ↦
      if trim_right (λ c. nat_eq c 32) (trim_left (λ c. nat_eq c 32) pem) == "" then false else true
]

-- The id that RETURNING gives, after the upsert.
abbrev returning : (Actor → Bool) → Option (List Actor) → Db → Result ℕ × Db
returning p none s = (err unique_violation, record s { next_actor = s.next_actor + 1 })
returning p (some rows) s = (
  elim (find_where p rows) [ none ↦ err no_rows | some a ↦ ok a.id ],
  record s { actors = rows; next_actor = s.next_actor + 1 },
)

abbrev overwrite_local : Actor → Actor → Actor
overwrite_local new a = record a {
  actor_url = new.actor_url;
  inbox_url = new.inbox_url;
  outbox_url = new.outbox_url;
  public_key_pem = if has_private_key a then a.public_key_pem else new.public_key_pem;
}

abbrev pub set_public_key : String → Actor → Actor
set_public_key pem a = record a { public_key_pem = pem }

-- INSERT INTO actors ... ON CONFLICT (username, domain)
unfoldable pub put_local_actor : Actor → Exec Db ℕ
unfolding trim_left trim_right
put_local_actor new s =
    returning (same_name new.username new.domain)
      (upsert (same_name new.username new.domain) (same_url new.actor_url) (overwrite_local new) new
        s.actors)
      s

-- INSERT INTO actors ... ON CONFLICT (actor_url)
unfoldable pub put_remote_actor : Actor → Exec Db ℕ
put_remote_actor new s =
    returning (same_url new.actor_url)
      (upsert (same_url new.actor_url) (same_name new.username new.domain)
        (set_public_key new.public_key_pem) new s.actors)
      s

unfoldable pub upsert_local_actor : Config → String → String → Exec Db ℕ
unfolding put_local_actor
upsert_local_actor cfg username pem s =
    if cfg.public_base_url == ""
    then (err (failure "AP_PUBLIC_BASE_URL required for local actor"), s)
    else elim (parse cfg.public_base_url) [
      | none ↦ (err (failure "AP_PUBLIC_BASE_URL"), s)
      | some base ↦
          let root = trim_right_slash cfg.public_base_url in
          if hostname base == ""
          then (err (failure "AP_PUBLIC_BASE_URL missing host"), s)
          else put_local_actor
              (record {
                id = s.next_actor;
                username = username;
                domain = hostname base;
                actor_url = root ⧺ "/@" ⧺ path_escape username;
                inbox_url = local_actor_inbox_url cfg username;
                outbox_url = root ⧺ "/@" ⧺ path_escape username ⧺ "/outbox";
                public_key_pem =
                    if trim_space pem == "" then local_actor_public_key_placeholder else pem;
                private_key_pem = none;
              })
              s
    ]

unfoldable pub ensure_local_actor : Config → String → String → Exec Db ℕ
unfolding upsert_local_actor
ensure_local_actor cfg username pem =
    if is_local_username cfg username
    then upsert_local_actor cfg username pem
    else fail "username is not a configured local account"

-- The last segment of a path, decoded once more; an escape that does not decode gives "".
unfoldable pub remote_username : String → String
remote_username path =
    let p = trim_slash path in
    let segment : String = elim (after_last b'/' p) [ none ↦ p | some rest ↦ rest ] in
    elim (unescape segment) [ none ↦ "" | some name ↦ name ]

unfoldable pub ensure_remote_actor : String → String → Exec Db ℕ
unfolding put_remote_actor remote_username
ensure_remote_actor actor_url pem s = elim (parse actor_url) [
  | none ↦ (err (failure "invalid actor URL"), s)
  | some u ↦
      if u.scheme == "" || u.host == ""
      then (err (failure "invalid actor URL"), s)
      else if remote_username u.path == ""
      then (err (failure "could not derive username from actor URL"), s)
      else put_remote_actor
          (record {
            id = s.next_actor;
            username = remote_username u.path;
            domain = hostname u;
            actor_url = trim_right_slash actor_url;
            inbox_url = "";
            outbox_url = "";
            public_key_pem = pem;
            private_key_pem = none;
          })
          s
]

abbrev found : Option Actor → Db → Result Actor × Db
found none s = (err no_rows, s)
found (some a) s = (ok a, s)

-- SELECT ... FROM actors WHERE id = $1
unfoldable pub actor_profile_by_id : ℕ → Exec Db Actor
actor_profile_by_id id s = found (find_where (λ a. nat_eq a.id id) s.actors) s

-- internal/inboxproc/common.go
unfoldable pub actor_url_by_db_id : ℕ → Exec Db String
unfolding actor_profile_by_id
actor_url_by_db_id id = do a ← actor_profile_by_id id; lift (ok a.actor_url)

unfoldable pub actor_id_by_actor_url : String → Exec Db ℕ
actor_id_by_actor_url url s =
    elim (find_where (λ a. trim_right_slash a.actor_url == canonical_actor_url url) s.actors) [
      | none ↦ (err no_rows, s)
      | some a ↦ (ok a.id, s)
    ]

abbrev pub same_name_ci : String → String → Actor → Bool
same_name_ci domain username a =
    to_lower a.domain == to_lower domain && to_lower a.username == to_lower username

unfoldable pub local_actor_id_for_instance_username_ci : String → String → Exec Db ℕ
local_actor_id_for_instance_username_ci host username s =
    elim (find_where (same_name_ci (trim_space host) (trim_space username)) s.actors) [
      | none ↦ (err no_rows, s)
      | some a ↦ (ok a.id, s)
    ]

unfoldable pub local_actor_username_exists : String → String → Exec Db Bool
local_actor_username_exists domain username s =
    (ok (any_where (same_name username domain) s.actors), s)
