-- ===== src/Queue.antt =====
-- queue/queue.go and queue/sqlqueue/sqlqueue.go: jobs in the table queue_jobs. Each method is one
-- statement, or one transaction, so it is one step; `now` is the clock of the database.
pub mod Order
mod Tests
use activitypub_core.Common.{
  ℕ, ◌+◌, ◌≤◌, String, Bool, true, false, ◌&&◌, ◌||◌, Option, none, some, List, [], ◌∷◌, ◌++◌, ◌==◌,
  ltb, leb, nat_eq, any_where, find_where, update_where, if◌then◌else◌,
}
use activitypub_core.Common.Exec.{Exec, Result, ok, err, unique_violation, failure}
use activitypub_core.Store.{
  JobType, Payload, JobStatus, pending, processing, finished, failed, JobRow, Db,
}

-- `run_after` is `none` for the zero time.
pub record Job : Type 0 where
  pub job_type : JobType
  pub payload : Payload
  pub idempotency_key : String
  pub run_after : Option ℕ

pub record Lease : Type 0 where
  pub id : ℕ
  pub job_type : JobType
  pub payload : Payload
  pub attempts : ℕ

-- NULLIF(text, '')
abbrev pub nullif_empty : String → Option String
nullif_empty s = if s == "" then none else some s

abbrev pub or_now : ℕ → Option ℕ → ℕ
or_now now none = now
or_now now (some t) = t

abbrev pub has_key : String → JobRow → Bool
has_key key r = elim r.idempotency_key [ none ↦ false | some k ↦ k == key ]

abbrev pub new_job : ℕ → ℕ → Job → JobRow
new_job id now job = record {
  id = id;
  job_type = job.job_type;
  payload = job.payload;
  idempotency_key = nullif_empty job.idempotency_key;
  status = pending;
  run_after = or_now now job.run_after;
  attempts = 0;
  last_error = none;
}

-- A key that is in use violates the unique index, whatever the state of its job.
unfoldable pub enqueue : ℕ → Job → Exec Db (Unit {0})
enqueue now job s =
    let t = record s { next_job = s.next_job + 1 } in
    if any_where (has_key job.idempotency_key) s.jobs
    then (err unique_violation, t)
    else (ok tt, record t { jobs = s.jobs ++ new_job s.next_job now job ∷ [] })

abbrev pub is_due : ℕ → JobRow → Bool
is_due now r = elim r.status [ pending ↦ leb r.run_after now | _ ↦ false ]

-- ORDER BY run_after, id
abbrev pub before : JobRow → JobRow → Bool
before a b = ltb a.run_after b.run_after || (nat_eq a.run_after b.run_after && leb a.id b.id)

abbrev pub earlier : JobRow → Option JobRow → JobRow
earlier a none = a
earlier a (some b) = if before a b then a else b

unfoldable pub next_due : ℕ → List JobRow → Option JobRow
next_due now [] = none
next_due now (r ∷ rs) =
    let rest = next_due now rs in if is_due now r then some (earlier r rest) else rest

abbrev pub set_status : JobStatus → JobRow → JobRow
set_status status r = record r { status = status }

abbrev pub has_id : ℕ → JobRow → Bool
has_id id r = nat_eq r.id id

abbrev pub is_leased : ℕ → JobRow → Bool
is_leased id r = elim r.status [ processing ↦ nat_eq r.id id | _ ↦ false ]

-- One transaction: the row that FOR UPDATE SKIP LOCKED has chosen is marked before the commit.
unfoldable pub dequeue : ℕ → Exec Db (Option Lease)
unfolding next_due
dequeue now s = elim (next_due now s.jobs) [
  | none ↦ (ok none, s)
  | some r ↦ (
    ok (
        some (record {
          id = r.id;
          job_type = r.job_type;
          payload = r.payload;
          attempts = r.attempts;
        })),
    record s { jobs = update_where (has_id r.id) (set_status processing) s.jobs },
  )
]

unfoldable pub ack : ℕ → Exec Db (Unit {0})
ack id s =
    if any_where (is_leased id) s.jobs
    then (ok tt, record s { jobs = update_where (is_leased id) (set_status finished) s.jobs })
    else (err (failure "ack: no row"), s)

abbrev pub retried : ℕ → JobRow → JobRow
retried run_after r = record r {
  status = pending;
  attempts = r.attempts + 1;
  run_after = run_after;
}

unfoldable pub nack : ℕ → ℕ → Bool → Exec Db (Unit {0})
nack now id requeue s = (
  ok tt,
  record s {
    jobs = update_where (is_leased id) (if requeue then retried now else set_status failed) s.jobs;
  },
)

abbrev pub set_error : String → JobRow → JobRow
set_error e r = record r { last_error = nullif_empty e }

-- `last_err` is the message after its cut at 4096 bytes.
unfoldable pub nack_schedule : ℕ → ℕ → Bool → Option ℕ → String → Exec Db (Unit {0})
nack_schedule now id permanent run_after last_err s =
    let change : JobRow → JobRow =
      if permanent then set_status failed else retried (or_now now run_after) in
    (
      ok tt,
      record s { jobs = update_where (is_leased id) (λ r. set_error last_err (change r)) s.jobs },
    )
