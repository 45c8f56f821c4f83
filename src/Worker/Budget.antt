-- ===== src/Worker/Budget.antt =====
-- The limit of attempts of internal/worker/delivery_fail.go.
use activitypub_core.Common.{
  ℕ, ◌+◌, ◌<◌, ◌≡◌, String, Bool, true, false, List, [], ◌∷◌, Bool-cases, inl, inr, leb, All,
  update_where, arith,
}
use activitypub_core.Common.Exec.{Error}
use activitypub_core.Config.{Config}
use activitypub_core.Store.{JobRow, pending, failed, Db}
use activitypub_core.Queue.{Lease, is_leased, nack_schedule, retried, set_error, set_status}
use activitypub_core.Worker.Backoff.{
  max_attempts, is_permanent_4xx, next_delivery_run_after, handle_delivery_job_failure,
}

abbrev pub is_waiting : JobRow → Bool
is_waiting r = elim r.status [ pending ↦ true | _ ↦ false ]

-- A job that waits has an attempt left.
abbrev pub InBudget : Config → JobRow → Type 0
InBudget cfg r = is_waiting r ≡ true → r.attempts < max_attempts cfg

-- The lease knows the attempts of its row.
abbrev pub IsLeaseOf : Lease → JobRow → Type 0
IsLeaseOf lease r = is_leased lease.id r ≡ true → r.attempts ≡ lease.attempts

update-InBudget :
    (cfg : Config) (lease : Lease) (f : JobRow → JobRow) (rows : List JobRow)
    → ((x : JobRow) → x.attempts ≡ lease.attempts → InBudget cfg (f x))
    → All (InBudget cfg) rows
    → All (IsLeaseOf lease) rows
    → All (InBudget cfg) (update_where (is_leased lease.id) f rows)
update-InBudget cfg lease f [] k h g = tt
update-InBudget cfg lease f (x ∷ xs) k (h, hs) (g, gs) = elim (Bool-cases (is_leased lease.id x)) [
  | inl t ↦ rw t (k x (g t), update-InBudget cfg lease f xs k hs gs)
  | inr t ↦ rw t (h, update-InBudget cfg lease f xs k hs gs)
]

-- Where every waiting job has an attempt left and the lease knows the attempts of its row, every
-- waiting job has an attempt left after the failure of the delivery, whatever the error is.
pub handle_delivery_job_failure-InBudget :
    (message : Error → String) (now : ℕ) (lease : Lease) (e : Error) (cfg : Config) (s : Db)
    → All (InBudget cfg) s.jobs
    → All (IsLeaseOf lease) s.jobs
    → All (InBudget cfg) ((handle_delivery_job_failure message now lease e cfg s).1.jobs)
unfolding handle_delivery_job_failure nack_schedule
handle_delivery_job_failure-InBudget message now lease e cfg s h k =
    let failing =
      update-InBudget cfg lease (λ r. set_error (message e) (set_status failed r)) s.jobs
        (λ x _ w. cc) h k in
    elim (Bool-cases (is_permanent_4xx e)) [
      | inl t ↦ rw (handle_delivery_job_failure, t) failing
      | inr t ↦ elim (Bool-cases (leb (max_attempts cfg) (lease.attempts + 1))) [
        | inl last ↦ rw (handle_delivery_job_failure, t, last) failing
        | inr more ↦
            rw (handle_delivery_job_failure, t, more)
              (update-InBudget cfg lease
                (λ r.
                  set_error (message e)
                    (retried (next_delivery_run_after now lease.attempts cfg) r))
                s.jobs (λ x same w. ground (arith, more, same)) h k)
      ]
    ]
