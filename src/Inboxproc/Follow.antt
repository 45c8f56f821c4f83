-- ===== src/Inboxproc/Follow.antt =====
-- internal/inboxproc/follow.go: Follow, and the Accept or Reject that answers it.
use activitypub_core.Common.{ℕ, String, none, some, ◌==◌, nat_eq, is_some, if◌then◌else◌}
use activitypub_core.Common.Text.{◌⧺◌, trim_right_slash, trim_slash, replace_char}
use activitypub_core.Common.Exec.{Exec, ok, ◌>>=◌, ◌>>◌, pure, fail, lift, check}
use activitypub_core.Json.{Json, str, obj, member, last, Fields}
use activitypub_core.As2.{object_iri}
use activitypub_core.Config.{Config, local_username_for_actor_url}
use activitypub_core.Url.{parse, path_escape}
use activitypub_core.Store.{
  ActivityRow, FollowState, pending, accepted, rejected, Db, deliver_activity, deliver,
}
use activitypub_core.Store.Follows.{
  upsert_follow, follow_by_activity_id, set_follow_state_by_follow_activity_id_for_follower,
}
use activitypub_core.Store.Actors.{actor_url_by_db_id}
use activitypub_core.Store.Resolve.{resolve_local_followee_from_object_iri}
use activitypub_core.Queue.{Job, enqueue}
use activitypub_core.Fetch.Policy.{Policy}
use activitypub_core.Fetch.Client.{Client}
use activitypub_core.Fetch.Inbox.{inbox_url_from_reference}

-- The fragment of the Accept's id: the path of the Follow, with dashes for slashes.
unfoldable pub accept_fragment : String → String
accept_fragment iri = elim (parse iri) [
  | none ↦ "req"
  | some u ↦ if trim_slash u.path == "" then "req" else replace_char "/" "-" (trim_slash u.path)
]

unfoldable pub build_accept_follow : String → String → Json
unfolding accept_fragment
build_accept_follow followee_profile follow_iri = obj (
    member "@context" (str "https://www.w3.org/ns/activitystreams") (
      member "id"
        (str (
          trim_right_slash followee_profile
          ⧺ "/accepts/follows/"
          ⧺ path_escape (accept_fragment follow_iri)))
        (member "type" (str "Accept")
          (member "actor" (str followee_profile) (member "object" (str follow_iri) last)))))

abbrev accept_job : String → String → String → String → Job
accept_job inbox user profile follow_iri = record {
  job_type = deliver_activity;
  payload = deliver (record {
    inbox_url = inbox;
    body = some (build_accept_follow profile follow_iri);
    local_username = user;
    signing_username = user;
  });
  idempotency_key = "accept:" ⧺ follow_iri ⧺ ":" ⧺ inbox;
  run_after = none;
}

-- The automatic Accept of a Follow that is stored as pending. `now` is the clock of the queue.
unfoldable pub auto_accept :
    ℕ → Config → Client → Policy → ActivityRow → ℕ → String → Exec Db (Unit {0})
unfolding build_accept_follow set_follow_state_by_follow_activity_id_for_follower
auto_accept now cfg client policy row followee user = do
  followee_url ← actor_url_by_db_id followee
  check (is_some (local_username_for_actor_url cfg followee_url)) "followee not local"
  follower_url ← actor_url_by_db_id row.actor_id
  inbox ← lift (inbox_url_from_reference client (some policy) (some cfg) follower_url)
  enqueue now (accept_job inbox user followee_url row.activity_id)
  set_follow_state_by_follow_activity_id_for_follower row.activity_id accepted row.actor_id

unfoldable pub handle_follow :
    ℕ → Config → Client → Policy → ActivityRow → Fields → Exec Db (Unit {0})
unfolding auto_accept upsert_follow
handle_follow now cfg client policy row fields = do
  iri ← lift (object_iri fields)
  (followee, user) ← resolve_local_followee_from_object_iri cfg iri
  upsert_follow row.actor_id followee row.activity_id pending
  if cfg.follow_auto_accept then auto_accept now cfg client policy row followee user else pure tt

-- The answer of the followee to a stored Follow.
unfoldable pub answer : FollowState → String → ℕ → String → Exec Db (Unit {0})
unfolding follow_by_activity_id set_follow_state_by_follow_activity_id_for_follower
answer state message actor target s = elim (follow_by_activity_id target s.follows) [
  | none ↦ (ok tt, s)
  | some f ↦
      if nat_eq f.followee_actor_id actor
      then set_follow_state_by_follow_activity_id_for_follower target state f.follower_actor_id s
      else fail message s
]

unfoldable pub handle_accept : ActivityRow → Fields → Exec Db (Unit {0})
unfolding answer
handle_accept row fields = do
  target ← lift (object_iri fields)
  answer accepted "accept: activity actor is not the followee for this follow" row.actor_id target

unfoldable pub handle_reject : ActivityRow → Fields → Exec Db (Unit {0})
unfolding answer
handle_reject row fields = do
  target ← lift (object_iri fields)
  answer rejected "reject: activity actor is not the followee for this follow" row.actor_id target
