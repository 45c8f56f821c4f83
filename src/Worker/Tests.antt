-- ===== src/Worker/Tests.antt =====
-- Runs of the delays and failures of deliveries.
use activitypub_core.Common.{◌+◌, ◌≤◌, ◌≡◌, refl, some, arith, String, false, none, [], ◌∷◌, All}
use activitypub_core.Common.Exec.{Error, ok, http_delivery}
use activitypub_core.Store.{JobRow, noop, no_payload, pending, processing, Db}
use activitypub_core.Queue.{Lease, dequeue}
use activitypub_core.Worker.Budget.{InBudget, handle_delivery_job_failure-InBudget}
use activitypub_core.Worker.Termination.{budget, FailingRounds, start, next, FailingRounds-budget}
use activitypub_core.Config.{Config}
use activitypub_core.Worker.Backoff.{handle_delivery_job_failure, next_delivery_run_after}
use activitypub_core.Worker.Retry.{next_delivery_run_after_closed_form}

abbrev config : Config
config = record {
  public_base_url = "https://here.example";
  local_username = "alice";
  local_usernames = [];
  follow_auto_accept = false;
  create_object_max_fetch_bytes = 0;
  fetch_allow_http = false;
  fetch_relax_local = false;
  sign_outbound_get = false;
  actor_private_key_path = "";
  instance_actor_private_key_path = "";
  instance_name = "";
  delivery_max_attempts = 25;
  delivery_backoff_initial_sec = 30;
  delivery_backoff_max_sec = 86400;
  media_max_attachments_per_status = 0;
  media_allowed_mime_types = [];
}

-- The fourth attempt is after four minutes.
next_delivery_run_after_closed_form_example : next_delivery_run_after 1000 3 config ≡ 240000001000
next_delivery_run_after_closed_form_example =
    next_delivery_run_after_closed_form 1000 3 config (omega arith)

-- A cap of ten thousand million seconds wraps to a negative delay.
wraps_back :
    next_delivery_run_after 9000000000000000000 3
      (record config { delivery_backoff_max_sec = 10000000000 })
    ≡ 553255926290448384
unfolding next_delivery_run_after
wraps_back = refl

abbrev running : JobRow
running = record {
  id = 4;
  job_type = noop;
  payload = no_payload;
  idempotency_key = none;
  status = processing;
  run_after = 90;
  attempts = 24;
  last_error = none;
}

abbrev db : Db
db = record {
  actors = [];
  activities = [];
  objects = [];
  follows = [];
  likes = [];
  announces = [];
  blocks = [];
  jobs = running ∷ [];
  next_actor = 1;
  next_activity = 1;
  next_edge = 1;
  next_job = 5;
}

abbrev lease : Lease
lease = record { id = 4; job_type = noop; payload = no_payload; attempts = 24 }

abbrev message : Error → String
message _ = "HTTP 500"

handle_delivery_job_failure-InBudget_example :
    All
      (InBudget config)
      ((handle_delivery_job_failure message 100 lease (http_delivery 500) config db).1.jobs)
handle_delivery_job_failure-InBudget_example =
    handle_delivery_job_failure-InBudget message 100 lease (http_delivery 500) config db
      (λ w. cc, tt) (λ _. refl, tt)

abbrev waiting_db : Db
waiting_db = record db { jobs = (record running { status = pending; attempts = 23 }) ∷ [] }

abbrev early_lease : Lease
early_lease = record lease { attempts = 23 }

abbrev claimed_db : Db
claimed_db = record db { jobs = (record running { attempts = 23 }) ∷ [] }

abbrev failed_once : Db
failed_once =
    (handle_delivery_job_failure message 130 early_lease (http_delivery 500) config claimed_db).1

handed_out : dequeue 100 waiting_db ≡ (ok (some early_lease), claimed_db)
unfolding dequeue
handed_out = refl

-- One attempt of two is left after the failure.
left_over : budget config failed_once.jobs ≡ 1
unfolding handle_delivery_job_failure
left_over = refl

one_failure : FailingRounds config message 1 waiting_db failed_once
one_failure =
    next 0 100 130 waiting_db claimed_db failed_once early_lease (http_delivery 500) handed_out
      (start failed_once)

FailingRounds-budget_example : 1 + budget config failed_once.jobs ≤ budget config waiting_db.jobs
FailingRounds-budget_example =
    FailingRounds-budget config message 1 waiting_db failed_once one_failure (tt, tt)
      (λ _. omega arith, tt)
