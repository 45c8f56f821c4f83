-- ===== src/Worker/Step.antt =====
-- internal/worker/processor.go, and one round of `workerLoop` of cmd/apw/main.go.
use activitypub_core.Common.{ℕ, String, Bool, true, false, none, some, ltb, if◌then◌else◌}
use activitypub_core.Common.Exec.{Exec, Error, Result, ok, err, pure, fail}
use activitypub_core.Config.{Config}
use activitypub_core.Store.{
  JobType, noop, deliver_activity, process_inbox_activity, other, Payload, no_payload, deliver,
  process, Db,
}
use activitypub_core.Queue.{Lease, dequeue, ack, nack}
use activitypub_core.Fetch.Client.{Client}
use activitypub_core.Inboxproc.Process as Inbox
use activitypub_core.Worker.Backoff.{handle_delivery_job_failure}
use activitypub_core.Worker.Deliver as Delivery
use activitypub_core.Worker.Deliver.{Transport}

module _ (t : Transport) (client : Client) (message : Error → String) where
  abbrev run_delivery : Config → Payload → Exec Db (Unit {0})
  run_delivery cfg (deliver p) = Delivery.deliver_activity t cfg p
  run_delivery cfg no_payload = fail "deliver_activity payload"
  run_delivery cfg (process _) = fail "deliver_activity payload"

  -- `activityDbId` must be one at least.
  abbrev run_inbox : ℕ → Config → Payload → Exec Db (Unit {0})
  run_inbox now cfg (process id) =
      if ltb id 1
      then fail "process_inbox_activity: activityDbId required"
      else Inbox.process_inbox_activity now cfg client none id
  run_inbox now cfg no_payload = fail "process_inbox_activity payload"
  run_inbox now cfg (deliver _) = fail "process_inbox_activity payload"

  unfoldable pub process_lease : ℕ → Config → Lease → Exec Db (Unit {0})
  process_lease now cfg lease = elim lease.job_type [
    | noop ↦ pure tt
    | deliver_activity ↦ run_delivery cfg lease.payload
    | process_inbox_activity ↦ run_inbox now cfg lease.payload
    | other _ ↦ pure tt
  ]

  abbrev is_delivery : JobType → Bool
  is_delivery deliver_activity = true
  is_delivery noop = false
  is_delivery process_inbox_activity = false
  is_delivery (other _) = false

  -- After a job has run; what the queue answers is only logged.
  unfoldable pub settle : ℕ → Config → Lease → Result (Unit {0}) → Db → Db
  settle now cfg lease (ok _) s = (ack lease.id s).1
  settle now cfg lease (err e) s =
      if is_delivery lease.job_type
      then (handle_delivery_job_failure message now lease e cfg s).1
      else (nack now lease.id true s).1

  -- One round; without a due job nothing happens.
  unfoldable pub worker_round : ℕ → Config → Db → Db
  unfolding settle process_lease
  worker_round now cfg s =
      let (r, s1) = dequeue now s in
      elim r [
        | err _ ↦ s1
        | ok claimed ↦ elim claimed [
          | none ↦ s1
          | some lease ↦
              let (outcome, s2) = process_lease now cfg lease s1 in settle now cfg lease outcome s2
        ]
      ]
