-- ===== src/Worker/Retry.antt =====
-- The delays and the limit of attempts of internal/worker/delivery_fail.go.
use activitypub_core.Common.{
  ℕ, zero, suc, ◌+◌, ◌*◌, ◌%◌, ◌^◌, ◌≤◌, ◌<◌, ltb, ◌≡◌, refl, subst, sym, ◌∙◌, true, Bool-cases,
  inl, inr, if◌then◌else◌, arith,
}
use Prim.Native.Nat.{min}
use native.Mathlib.Nat.{mul-le-mul_left}
use activitypub_core.Config.{Config}
use activitypub_core.Worker.Backoff.{
  duration_gt, duration_of_sec, backoff, initial_sec, max_sec, next_delivery_run_after,
}

two_pow_positive : (n : ℕ) → 1 ≤ 2 ^ n
two_pow_positive zero = omega arith
two_pow_positive (suc n) = let ih = two_pow_positive n in omega arith

-- Below 2 ^ 63 the comparison of durations is that of numbers.
duration_gt_small : (a b : ℕ) → a < 2 ^ 63 → b < 2 ^ 63 → duration_gt a b ≡ ltb b a
duration_gt_small a b ha hb = ground arith

backoff_at_cap : (n most : ℕ) → backoff n most most ≡ most
unfolding backoff
backoff_at_cap zero most = refl
backoff_at_cap (suc n) most = ground arith

double_power : (n d : ℕ) → d * 2 * 2 ^ n ≡ d * 2 ^ suc n
double_power n d = grind arith

times_power : (n d : ℕ) → d ≤ d * 2 ^ n
times_power n d = omega (arith, mul-le-mul_left d (two_pow_positive n))

-- A round below the cap: the doubling does not wrap.
backoff_round :
    (n d most : ℕ)
    → d < most
    → most ≤ 2 ^ 62
    → backoff (suc n) d most ≡ backoff n (if ltb most (d * 2) then most else d * 2) most
unfolding backoff
backoff_round n d most below small =
    let more : duration_gt most d ≡ true =
      duration_gt_small most d (omega arith) (omega arith) ∙ ground (arith, below) in
    let wraps : (d * 2) % 2 ^ 64 ≡ d * 2 = omega (arith, below, small) in
    let above = duration_gt_small (d * 2) most (omega arith) (omega arith) in
    rw (more, wraps, above) refl

-- The doubling loop started at a delay not above its cap ends at the smaller of the cap and the
-- delay times the power of two for its number of rounds; no delay of it wraps.
backoff_closed_form :
    (n d most : ℕ) → d ≤ most → most ≤ 2 ^ 62 → backoff n d most ≡ min (d * 2 ^ n) most
unfolding backoff
backoff_closed_form zero d most h small = omega arith
backoff_closed_form (suc n) d most h small = elim (Bool-cases (ltb d most)) [
  | inr full ↦
      let same : d ≡ most = ground (arith, full, h) in
      subst (λ x. backoff (suc n) x most ≡ min (x * 2 ^ suc n) most) (sym same)
        (backoff_at_cap (suc n) most ∙ omega (arith, times_power (suc n) most))
  | inl t ↦
      let below : d < most = ground (arith, t) in
      backoff_round n d most below small
      ∙ ground (
        arith,
        below,
        backoff_closed_form n (d * 2) most,
        backoff_at_cap n most,
        double_power n d,
        times_power n (d * 2),
      )
]

initial_below_max : (cfg : Config) → initial_sec cfg ≤ max_sec cfg
initial_below_max cfg = ground arith

in_seconds :
    (n a b : ℕ) → min (a * 1000000000 * 2 ^ n) (b * 1000000000) ≡ min (a * 2 ^ n) b * 1000000000
in_seconds n a b =
    let swap : a * 1000000000 * 2 ^ n ≡ a * 2 ^ n * 1000000000 = grind arith in omega (arith, swap)

-- For every clock and number of earlier failures, and every configuration whose maximal delay is at
-- most 2 ^ 62 nanoseconds, the next run of a delivery is the clock plus the smaller of the maximal
-- delay and the initial delay doubled once for each earlier failure, of which at most twenty count.
pub next_delivery_run_after_closed_form :
    (now prior : ℕ) (cfg : Config)
    → max_sec cfg * 1000000000 ≤ 2 ^ 62
    → next_delivery_run_after now prior cfg
      ≡ now + min (initial_sec cfg * 2 ^ min prior 20) (max_sec cfg) * 1000000000
unfolding next_delivery_run_after
next_delivery_run_after_closed_form now prior cfg small =
    let low = initial_below_max cfg in
    let first : duration_of_sec (initial_sec cfg) ≡ initial_sec cfg * 1000000000 = omega arith in
    let last : duration_of_sec (max_sec cfg) ≡ max_sec cfg * 1000000000 = omega arith in
    let times : ℕ = min prior 20 in
    let delay =
      backoff_closed_form times (initial_sec cfg * 1000000000) (max_sec cfg * 1000000000)
        (omega arith) small in
    let exp : (if ltb 20 prior then 20 else prior) ≡ times = ground arith in
    rw (exp, first, last, delay, in_seconds times (initial_sec cfg) (max_sec cfg))
      (let bound : min (initial_sec cfg * 2 ^ times) (max_sec cfg) ≤ max_sec cfg = omega arith in
        ground (arith, bound, small))
