-- ===== src/Worker/Backoff.antt =====
-- internal/worker/delivery_fail.go: what becomes of a delivery that failed. A clock is in nanoseconds,
-- and a `time.Duration` is an int64 of nanoseconds in two's complement, which wraps as in Go.
use activitypub_core.Common.{
  ℕ, zero, suc, ◌+◌, ◌-◌, ◌*◌, ◌%◌, ◌^◌, String, Bool, true, not, false, ◌||◌, none, some, ltb, leb,
  nat_eq, if◌then◌else◌,
}
use activitypub_core.Common.Exec.{Exec, Error, no_rows, unique_violation, http_delivery, failure}
use activitypub_core.Config.{Config}
use activitypub_core.Store.{Db}
use activitypub_core.Queue.{Lease, nack_schedule}

unfoldable pub delivery_permanent_4xx : ℕ → Bool
delivery_permanent_4xx code =
    nat_eq code 400
    || nat_eq code 401
    || nat_eq code 403
    || nat_eq code 404
    || nat_eq code 405
    || nat_eq code 410
    || nat_eq code 422

-- `a > b` on int64
abbrev pub duration_gt : ℕ → ℕ → Bool
duration_gt a b = ltb ((b + 2 ^ 63) % 2 ^ 64) ((a + 2 ^ 63) % 2 ^ 64)

-- `time.Duration(n) * time.Second`
abbrev pub duration_of_sec : ℕ → ℕ
duration_of_sec n = (n * 1000000000) % 2 ^ 64

-- `t.Add(d)`: a negative duration goes back.
abbrev pub time_add : ℕ → ℕ → ℕ
time_add t d = if ltb d (2 ^ 63) then t + d else t - (2 ^ 64 - d)

-- The rounds left, the delay and its cap.
unfoldable pub backoff : ℕ → ℕ → ℕ → ℕ
backoff zero d cap = d
backoff (suc n) d cap =
    let doubled = (d * 2) % 2 ^ 64 in
    let more = backoff n (if duration_gt doubled cap then cap else doubled) cap in
    if not (duration_gt cap d) then cap else more

abbrev pub initial_sec : Config → ℕ
initial_sec cfg =
    if ltb cfg.delivery_backoff_initial_sec 1 then 30 else cfg.delivery_backoff_initial_sec

abbrev pub max_sec : Config → ℕ
max_sec cfg =
    if ltb cfg.delivery_backoff_max_sec (initial_sec cfg)
    then initial_sec cfg
    else cfg.delivery_backoff_max_sec

unfoldable pub next_delivery_run_after : ℕ → ℕ → Config → ℕ
unfolding backoff
next_delivery_run_after now prior_failures cfg =
    let exp = if ltb 20 prior_failures then 20 else prior_failures in
    time_add now (backoff exp (duration_of_sec (initial_sec cfg)) (duration_of_sec (max_sec cfg)))

abbrev pub max_attempts : Config → ℕ
max_attempts cfg = if ltb cfg.delivery_max_attempts 1 then 25 else cfg.delivery_max_attempts

unfoldable pub is_permanent_4xx : Error → Bool
unfolding delivery_permanent_4xx
is_permanent_4xx (http_delivery code) = delivery_permanent_4xx code
is_permanent_4xx no_rows = false
is_permanent_4xx unique_violation = false
is_permanent_4xx (failure _) = false

-- Over the SQL queue. `message` is the text of an error; an error of the queue is only logged.
unfoldable pub handle_delivery_job_failure :
    (Error → String) → ℕ → Lease → Error → Config → Exec Db (Unit {0})
unfolding is_permanent_4xx next_delivery_run_after nack_schedule
handle_delivery_job_failure message now lease job_err cfg =
    if is_permanent_4xx job_err
    then nack_schedule now lease.id true none (message job_err)
    else if leb (max_attempts cfg) (lease.attempts + 1)
    then nack_schedule now lease.id true none (message job_err)
    else nack_schedule now lease.id false (some (next_delivery_run_after now lease.attempts cfg))
        (message job_err)
