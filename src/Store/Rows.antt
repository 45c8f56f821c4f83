-- ===== src/Store/Rows.antt =====
-- The tables of db/migrations that the modelled statements read and write. A column that no
-- modelled statement reads (timestamps, and `id` of follows, objects and blocks) is left out; a
-- `BIGSERIAL` counter is kept beside its table. Actor rows are never deleted, so foreign keys hold.
use activitypub_core.Common.{ℕ, String, Bool, Option, List}
use activitypub_core.Json.{Json}

pub record Actor : Type 0 where
  pub id : ℕ
  pub username : String
  pub domain : String
  pub actor_url : String
  pub inbox_url : String
  pub outbox_url : String
  pub public_key_pem : String
  pub private_key_pem : Option String

-- `type ActivityRow`
pub record ActivityRow : Type 0 where
  pub id : ℕ
  pub activity_id : String
  pub actor_id : ℕ
  pub typ : String
  pub raw_json : Json
  pub deleted : Bool

pub record ObjectRow : Type 0 where
  pub object_url : String
  pub actor_id : ℕ
  pub typ : String
  pub raw_json : Json
  pub deleted : Bool

pub data FollowState : Type 0 where
  pending accepted rejected pending_remote undone : FollowState

pub record FollowRow : Type 0 where
  pub follower_actor_id : ℕ
  pub followee_actor_id : ℕ
  pub state : FollowState
  pub follow_activity_id : String

-- A row of federated_likes, federated_announces or federated_blocks: `target` is its `object_url`
-- or `blocked_actor_url`.
pub record EdgeRow : Type 0 where
  pub id : ℕ
  pub actor_id : ℕ
  pub target : String
  pub activity_id : String

pub data JobStatus : Type 0 where
  pending processing finished failed : JobStatus

pub data JobType : Type 0 where
  noop deliver_activity process_inbox_activity : JobType
  other : String → JobType

pub record Deliver : Type 0 where
  pub inbox_url : String
  pub body : Option Json
  pub local_username : String
  pub signing_username : String

-- The payloads of the two kinds of job that have one.
pub data Payload : Type 0 where
  no_payload : Payload
  deliver : Deliver → Payload
  process : (activity_db_id : ℕ) → Payload

pub record JobRow : Type 0 where
  pub id : ℕ
  pub job_type : JobType
  pub payload : Payload
  pub idempotency_key : Option String
  pub status : JobStatus
  pub run_after : ℕ
  pub attempts : ℕ
  pub last_error : Option String

pub record Db : Type 0 where
  pub actors : List Actor
  pub activities : List ActivityRow
  pub objects : List ObjectRow
  pub follows : List FollowRow
  pub likes : List EdgeRow
  pub announces : List EdgeRow
  pub blocks : List EdgeRow
  pub jobs : List JobRow
  pub next_actor : ℕ
  pub next_activity : ℕ
  pub next_edge : ℕ
  pub next_job : ℕ
