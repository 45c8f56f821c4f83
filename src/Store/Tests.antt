-- ===== src/Store/Tests.antt =====
-- Runs of the statements on follows and likes.
use activitypub_core.Common.{true, ℕ, ◌≡◌, ◌≢◌, refl, [], ◌∷◌}
use activitypub_core.Common.Exec.{ok}
use activitypub_core.Store.Rows.{accepted, pending, Db}
use activitypub_core.Store.Follows.{upsert_follow, get_follow_state}
use activitypub_core.Common.Text.{trim_space, trim_right_slash}
use activitypub_core.Store.Interactions.{
  upsert_federated_like, actor_has_liked_object, federated_like_activity_id, canonical_actor_url,
}
use activitypub_core.Store.LikeLaws.{actor_has_liked_object-upsert_federated_like}
use activitypub_core.Store.FollowLaws.{pair, get_follow_state-upsert_follow}

abbrev db : Db
db = record {
  actors = [];
  activities = [];
  objects = [];
  follows =
      record {
        follower_actor_id = 1;
        followee_actor_id = 2;
        state = pending;
        follow_activity_id = "f";
      }
      ∷ [];
  likes = [];
  announces = [];
  blocks = [];
  jobs = [];
  next_actor = 1;
  next_activity = 1;
  next_edge = 1;
  next_job = 1;
}

abbrev after : Db
after = (upsert_follow 1 2 "g" accepted db).1

succeeds : upsert_follow 1 2 "g" accepted db ≡ (ok tt, after)
unfolding upsert_follow
succeeds = refl

get_follow_state-upsert_follow_example :
    ((get_follow_state 1 2 after).0 ≡ ok accepted)
    × ((c d : ℕ)
        → pair 1 2 ≢ pair c d
        → (get_follow_state c d after).0 ≡ (get_follow_state c d db).0)
get_follow_state-upsert_follow_example =
    get_follow_state-upsert_follow 1 2 "g" accepted db after succeeds

abbrev liked : Db
liked = (upsert_federated_like 1 "https://o.example/note" "l" db).1

is_canonical : canonical_actor_url "https://o.example/note" ≡ "https://o.example/note"
unfolding canonical_actor_url trim_space trim_right_slash
is_canonical = refl

likes : upsert_federated_like 1 "https://o.example/note" "l" db ≡ (ok tt, liked)
unfolding upsert_federated_like
likes = refl

actor_has_liked_object-upsert_federated_like_example :
    (actor_has_liked_object 1 "https://o.example/note" liked ≡ (ok true, liked))
    × (federated_like_activity_id 1 "https://o.example/note" liked ≡ (ok "l", liked))
actor_has_liked_object-upsert_federated_like_example =
    actor_has_liked_object-upsert_federated_like 1 "https://o.example/note" "l" db liked
      is_canonical likes
