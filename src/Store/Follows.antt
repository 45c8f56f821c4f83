-- ===== src/Store/Follows.antt =====
-- store/follows.go: one function for each statement on the table follows.
use activitypub_core.Common.{
  ℕ, String, Bool, true, false, ◌&&◌, Option, none, some, List, ◌==◌, nat_eq, any_where, find_where,
  delete_where, update_where, if◌then◌else◌,
}
use activitypub_core.Common.Text.{trim_right_slash}
use activitypub_core.Common.Exec.{Exec, ok, err, no_rows, unique_violation, failure}
use activitypub_core.Store.Rows.{
  Actor, FollowState, pending, accepted, rejected, pending_remote, undone, FollowRow, Db,
}
use activitypub_core.Store.Table.{upsert}

abbrev pub same_pair : ℕ → ℕ → FollowRow → Bool
same_pair follower followee r =
    nat_eq r.follower_actor_id follower && nat_eq r.followee_actor_id followee

abbrev pub same_follow_activity : String → FollowRow → Bool
same_follow_activity id r = r.follow_activity_id == id

-- The rows that one follower made with one Follow activity.
abbrev pub own_follow : String → ℕ → FollowRow → Bool
own_follow id follower r = r.follow_activity_id == id && nat_eq r.follower_actor_id follower

abbrev pub set_state : FollowState → FollowRow → FollowRow
set_state state r = record r { state = state }

abbrev pub overwrite_follow : FollowState → String → FollowRow → FollowRow
overwrite_follow state id r = record r { state = state; follow_activity_id = id }

abbrev pub new_follow : ℕ → ℕ → String → FollowState → FollowRow
new_follow follower followee id state = record {
  follower_actor_id = follower;
  followee_actor_id = followee;
  state = state;
  follow_activity_id = id;
}

-- The rows after `UpsertFollow`, `none` for a violation of UNIQUE (follow_activity_id).
unfoldable pub upserted : ℕ → ℕ → String → FollowState → List FollowRow → Option (List FollowRow)
upserted follower followee id state rows =
    upsert (same_pair follower followee) (same_follow_activity id) (overwrite_follow state id)
      (new_follow follower followee id state) rows

unfoldable pub upsert_follow : ℕ → ℕ → String → FollowState → Exec Db (Unit {0})
unfolding upserted
upsert_follow follower followee id state s =
    if id == ""
    then (err (failure "follow activity id required"), s)
    else elim (upserted follower followee id state s.follows) [
      | none ↦ (err unique_violation, s)
      | some rows ↦ (ok tt, record s { follows = rows })
    ]

unfoldable pub set_follow_state_by_follow_activity_id : String → FollowState → Exec Db (Unit {0})
set_follow_state_by_follow_activity_id id state s = (
  ok tt,
  record s { follows = update_where (same_follow_activity id) (set_state state) s.follows },
)

unfoldable pub set_follow_state_by_follow_activity_id_for_follower :
    String → FollowState → ℕ → Exec Db (Unit {0})
set_follow_state_by_follow_activity_id_for_follower id state follower s = (
  ok tt,
  record s { follows = update_where (own_follow id follower) (set_state state) s.follows },
)

abbrev pub is_active : FollowState → Bool
is_active accepted = true
is_active pending = true
is_active pending_remote = true
is_active rejected = false
is_active undone = false

abbrev active_pair : ℕ → ℕ → FollowRow → Bool
active_pair follower followee r = same_pair follower followee r && is_active r.state

-- SELECT ... FROM actors WHERE id = $1
unfoldable pub actor_by_id : ℕ → List Actor → Option Actor
actor_by_id id actors = find_where (λ a. nat_eq a.id id) actors

-- The follow activity and the followee's URL; `none` is `ok = false`.
unfoldable pub lookup_active_follow_for_undo : ℕ → ℕ → Exec Db (Option (String × String))
unfolding actor_by_id
lookup_active_follow_for_undo follower followee s = (
  ok (elim (find_where (active_pair follower followee) s.follows) [
    | none ↦ none
    | some r ↦ elim (actor_by_id r.followee_actor_id s.actors) [
      | none ↦ none
      | some a ↦ some (r.follow_activity_id, trim_right_slash a.actor_url)
    ]
  ]),
  s,
)

unfoldable pub delete_follow_by_pair : ℕ → ℕ → Exec Db (Unit {0})
delete_follow_by_pair follower followee s =
    (ok tt, record s { follows = delete_where (same_pair follower followee) s.follows })

unfoldable pub delete_follow_by_follow_activity_id : String → Exec Db (Unit {0})
delete_follow_by_follow_activity_id id s =
    (ok tt, record s { follows = delete_where (same_follow_activity id) s.follows })

unfoldable pub delete_follow_by_follow_activity_id_for_follower : String → ℕ → Exec Db (Unit {0})
delete_follow_by_follow_activity_id_for_follower id follower s =
    (ok tt, record s { follows = delete_where (own_follow id follower) s.follows })

unfoldable pub follow_exists_between : ℕ → ℕ → Exec Db Bool
follow_exists_between follower followee s =
    (ok (any_where (active_pair follower followee) s.follows), s)

unfoldable pub get_follow_state : ℕ → ℕ → Exec Db FollowState
get_follow_state follower followee s = elim (find_where (same_pair follower followee) s.follows) [
  | none ↦ (err no_rows, s)
  | some r ↦ (ok r.state, s)
]

-- SELECT follower_actor_id, followee_actor_id FROM follows WHERE follow_activity_id = $1
unfoldable pub follow_by_activity_id : String → List FollowRow → Option FollowRow
follow_by_activity_id id rows = find_where (same_follow_activity id) rows
