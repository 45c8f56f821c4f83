-- ===== src/Worker/Termination.antt =====
-- Rounds of failing deliveries (internal/worker/delivery_fail.go), and the attempts that the waiting
-- jobs of queue/sqlqueue/sqlqueue.go have left.
use activitypub_core.Common.{
  ℕ, ◌+◌, ◌-◌, ◌≤◌, ◌<◌, ◌≡◌, ◌||◌, refl, suc, String, true, false, some, List, [], ◌∷◌, Bool-cases,
  inl, inr, nat_eq, leb, All, All-update_where, update_where, if◌then◌else◌, arith,
}
use mathlib.Core.Path.{subst}
use activitypub_core.Common.Exec.{Error, ok}
use activitypub_core.Config.{Config}
use activitypub_core.Store.{JobRow, processing, failed, Db, All-mono}
use activitypub_core.Queue.{
  Lease, has_id, is_leased, dequeue, nack_schedule, retried, set_error, set_status,
}
use activitypub_core.Worker.Backoff.{
  max_attempts, is_permanent_4xx, next_delivery_run_after, handle_delivery_job_failure,
}
use activitypub_core.Worker.Budget.{
  InBudget, IsLeaseOf, is_waiting, handle_delivery_job_failure-InBudget,
}
use activitypub_core.Worker.Claims.{
  HasUniqueIds, rows_with, IsWaitingAt, claimed_jobs, dequeue-IsWaitingAt,
  HasUniqueIds-update_where,
}

-- The attempts that a row has left, and a table.
abbrev attempts_left : Config → JobRow → ℕ
attempts_left cfg r = if is_waiting r then max_attempts cfg - r.attempts else 0

abbrev pub budget : Config → List JobRow → ℕ
budget cfg [] = 0
budget cfg (x ∷ xs) = attempts_left cfg x + budget cfg xs

-- A change of the leased rows that leaves each one attempt less, or none.
abbrev UsesAttempt : Config → ℕ → (JobRow → JobRow) → Type 0
UsesAttempt cfg attempts g =
    (x : JobRow)
    → x.attempts ≡ attempts
    → attempts < max_attempts cfg
    → attempts_left cfg (g x) < max_attempts cfg - attempts

budget-update :
    (cfg : Config) (id attempts : ℕ) (g : JobRow → JobRow) (rows : List JobRow)
    → UsesAttempt cfg attempts g
    → All (IsWaitingAt id attempts) rows
    → All (InBudget cfg) rows
    → budget cfg
          (update_where (is_leased id) g (update_where (has_id id) (set_status processing) rows))
        + rows_with id rows
      ≤ budget cfg rows
budget-update cfg id attempts g [] uses w h = omega arith
budget-update cfg id attempts g (x ∷ xs) uses (w, ws) (h, hs) =
    let ih = budget-update cfg id attempts g xs uses ws hs in
    elim (Bool-cases (nat_eq x.id id)) [
      | inl t ↦
          let (waits, same) = w t in
          let below : attempts < max_attempts cfg =
            subst (λ n. n < max_attempts cfg) same (h waits) in
          let less = uses (set_status processing x) same below in
          rw (t, t, waits, same) (omega (arith, ih, less))
      | inr t ↦
          let idle : is_leased id x ≡ false = ground (arith, t) in rw (t, idle) (omega (arith, ih))
    ]

-- The change that the failure of a delivery makes to its row.
failure_change : (Error → String) → ℕ → Lease → Error → Config → JobRow → JobRow
failure_change message now lease e cfg r =
    if is_permanent_4xx e || leb (max_attempts cfg) (lease.attempts + 1)
    then set_error (message e) (set_status failed r)
    else set_error (message e) (retried (next_delivery_run_after now lease.attempts cfg) r)

handle_delivery_job_failure-jobs :
    (message : Error → String) (now : ℕ) (lease : Lease) (e : Error) (cfg : Config) (s : Db)
    → (handle_delivery_job_failure message now lease e cfg s).1.jobs
      ≡ update_where (is_leased lease.id) (failure_change message now lease e cfg) s.jobs
unfolding handle_delivery_job_failure nack_schedule failure_change
handle_delivery_job_failure-jobs message now lease e cfg s =
    elim (Bool-cases (is_permanent_4xx e)) [
      | inl t ↦ rw (handle_delivery_job_failure, failure_change, t) refl
      | inr t ↦ elim (Bool-cases (leb (max_attempts cfg) (lease.attempts + 1))) [
        | inl last ↦ rw (handle_delivery_job_failure, failure_change, t, last) refl
        | inr more ↦ rw (handle_delivery_job_failure, failure_change, t, more) refl
      ]
    ]

failure_change-UsesAttempt :
    (message : Error → String) (now : ℕ) (lease : Lease) (e : Error) (cfg : Config)
    → UsesAttempt cfg lease.attempts (failure_change message now lease e cfg)
unfolding failure_change
failure_change-UsesAttempt message now lease e cfg x same below =
    elim (Bool-cases (is_permanent_4xx e || leb (max_attempts cfg) (lease.attempts + 1))) [
      | inl t ↦ rw (failure_change, t) (omega (arith, below))
      | inr t ↦ rw (failure_change, t) (omega (arith, below, same))
    ]

failure_change-id :
    (message : Error → String) (now : ℕ) (lease : Lease) (e : Error) (cfg : Config) (x : JobRow)
    → (failure_change message now lease e cfg x).id ≡ x.id
unfolding failure_change
failure_change-id message now lease e cfg x =
    elim (Bool-cases (is_permanent_4xx e || leb (max_attempts cfg) (lease.attempts + 1))) [
      | inl t ↦ rw (failure_change, t) refl
      | inr t ↦ rw (failure_change, t) refl
    ]

claimed-InBudget :
    (cfg : Config) (id : ℕ) (rows : List JobRow)
    → All (InBudget cfg) rows
    → All (InBudget cfg) (claimed_jobs id rows)
claimed-InBudget cfg id rows h =
    All-update_where (InBudget cfg) (has_id id) (set_status processing) rows (λ x _ _ w. cc) h

claimed-IsLeaseOf :
    (lease : Lease) (rows : List JobRow)
    → All (IsWaitingAt lease.id lease.attempts) rows
    → All (IsLeaseOf lease) (claimed_jobs lease.id rows)
claimed-IsLeaseOf lease rows h =
    let P : JobRow → Type 0 = λ x. nat_eq x.id lease.id ≡ true → x.attempts ≡ lease.attempts in
    All-mono P (IsLeaseOf lease) (claimed_jobs lease.id rows) (λ x k w. k (ground (arith, w)))
      (All-update_where P (has_id lease.id) (set_status processing) rows (λ x _ k. k)
        (All-mono (IsWaitingAt lease.id lease.attempts) P rows (λ x k w. (k w).1) h))

module _ (cfg : Config) (message : Error → String) where
  -- Rounds of the worker in which a job is handed out at one time and its delivery fails, with
  -- any error, at another.
  pub data FailingRounds : ℕ → Db → Db → Type 0 where
    start : (s : Db) → FailingRounds 0 s s
    next :
        (n now later : ℕ) (s t u : Db) (lease : Lease) (e : Error)
        → dequeue now s ≡ (ok (some lease), t)
        → FailingRounds n ((handle_delivery_job_failure message later lease e cfg t).1) u
        → FailingRounds (suc n) s u

  round-budget :
      (now later : ℕ) (s t : Db) (lease : Lease) (e : Error)
      → dequeue now s ≡ (ok (some lease), t)
      → HasUniqueIds s.jobs
      → All (InBudget cfg) s.jobs
      → budget cfg ((handle_delivery_job_failure message later lease e cfg t).1.jobs)
        < budget cfg s.jobs
  round-budget now later s t lease e d u h =
      let (waits, (some_row, jobs)) = dequeue-IsWaitingAt now s t lease d u in
      let change = failure_change message later lease e cfg in
      rw (handle_delivery_job_failure-jobs message later lease e cfg t, jobs)
        (omega (
          arith,
          some_row,
          budget-update cfg lease.id lease.attempts change s.jobs
              (failure_change-UsesAttempt message later lease e cfg) waits h,
        ))

  round-InBudget :
      (now later : ℕ) (s t : Db) (lease : Lease) (e : Error)
      → dequeue now s ≡ (ok (some lease), t)
      → HasUniqueIds s.jobs
      → All (InBudget cfg) s.jobs
      → All (InBudget cfg) ((handle_delivery_job_failure message later lease e cfg t).1.jobs)
  round-InBudget now later s t lease e d u h =
      let (waits, (_, jobs)) = dequeue-IsWaitingAt now s t lease d u in
      handle_delivery_job_failure-InBudget message later lease e cfg t
        (rw jobs (claimed-InBudget cfg lease.id s.jobs h))
        (rw jobs (claimed-IsLeaseOf lease s.jobs waits))

  round-HasUniqueIds :
      (now later : ℕ) (s t : Db) (lease : Lease) (e : Error)
      → dequeue now s ≡ (ok (some lease), t)
      → HasUniqueIds s.jobs
      → HasUniqueIds ((handle_delivery_job_failure message later lease e cfg t).1.jobs)
  round-HasUniqueIds now later s t lease e d u =
      let (_, (_, jobs)) = dequeue-IsWaitingAt now s t lease d u in
      rw (handle_delivery_job_failure-jobs message later lease e cfg t, jobs)
        (HasUniqueIds-update_where (is_leased lease.id) (failure_change message later lease e cfg)
          (claimed_jobs lease.id s.jobs) (failure_change-id message later lease e cfg)
          (HasUniqueIds-update_where (has_id lease.id) (set_status processing) s.jobs (λ _. refl)
            u))

  -- From a queue whose ids are unique and whose waiting jobs all have an attempt left, any number
  -- of rounds in which a job is handed out and its delivery fails, whatever the errors and the
  -- clocks, is at most the attempts that the waiting jobs had left less those they have left after
  -- the rounds.
  pub FailingRounds-budget :
      (n : ℕ) (s u : Db)
      → FailingRounds n s u
      → HasUniqueIds s.jobs
      → All (InBudget cfg) s.jobs
      → n + budget cfg u.jobs ≤ budget cfg s.jobs
  FailingRounds-budget n s u (start _) ids h = omega arith
  FailingRounds-budget _ s u (next n now later _ t _ lease e d more) ids h =
      let rest =
        FailingRounds-budget n ((handle_delivery_job_failure message later lease e cfg t).1) u more
          (round-HasUniqueIds now later s t lease e d ids)
          (round-InBudget now later s t lease e d ids h) in
      omega (arith, rest, round-budget now later s t lease e d ids h)
