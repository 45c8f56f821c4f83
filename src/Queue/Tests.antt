-- ===== src/Queue/Tests.antt =====
-- Runs of the queue.
use activitypub_core.Common.{ℕ, ◌≡◌, refl, none, some, [], ◌∷◌, All, nat_eq, delete_where, true}
use mathlib.Core.List.{Memᴰ}
use activitypub_core.Common.Exec.{ok}
use activitypub_core.Store.{JobRow, noop, no_payload, pending, processing, Db}
use activitypub_core.Queue.{Lease, dequeue}
use activitypub_core.Queue.Order.{IsLeaseFor, IsFirstDue, dequeue-IsNext}

abbrev waiting : ℕ → ℕ → JobRow
waiting id run_after = record {
  id = id;
  job_type = noop;
  payload = no_payload;
  idempotency_key = none;
  status = pending;
  run_after = run_after;
  attempts = 2;
  last_error = none;
}

abbrev db : Db
db = record {
  actors = [];
  activities = [];
  objects = [];
  follows = [];
  likes = [];
  announces = [];
  blocks = [];
  jobs = waiting 1 90 ∷ waiting 2 40 ∷ waiting 3 300 ∷ [];
  next_actor = 1;
  next_activity = 1;
  next_edge = 1;
  next_job = 4;
}

abbrev lease : Lease
lease = record { id = 2; job_type = noop; payload = no_payload; attempts = 2 }

abbrev after : Db
after = (dequeue 100 db).1

takes_second : dequeue 100 db ≡ (ok (some lease), after)
unfolding dequeue
takes_second = refl

dequeue-IsNext_example :
    ((r : JobRow) × (Memᴰ r db.jobs × (IsLeaseFor r lease × IsFirstDue 100 r db.jobs)))
    × All (λ x. nat_eq x.id 2 ≡ true → x.status ≡ processing) after.jobs
    × (delete_where (λ x. nat_eq x.id 2) after.jobs ≡ waiting 1 90 ∷ waiting 3 300 ∷ [])
dequeue-IsNext_example = dequeue-IsNext 100 db after lease takes_second
