-- ===== src/Retry/Schedule.antt =====
-- `calculateNextRetryTime` of modules/wallet-retry/wallet-retry-job.service.ts, in milliseconds.
-- The clock is not behind the initial failure: the subtraction stops at 0.
use chicken_road_b.Base.{
  ℕ, ◌+◌, ◌-◌, ◌*◌, ◌/◌, ◌%◌, ◌≤◌, ◌<◌, Option, none, some, ◌≡◌, ◌↔◌, arith, leb, ◌==◌,
  if◌then◌else◌,
}

abbrev pub minute_ms : ℕ
minute_ms = 60_000

abbrev pub half_hour_ms : ℕ
half_hour_ms = 1_800_000

abbrev pub two_hours_ms : ℕ
two_hours_ms = 7_200_000

abbrev pub limit_ms : ℕ
limit_ms = 259_200_000

-- `Math.ceil((elapsedHours - 0.5) / 2)`
abbrev interval_number : ℕ → ℕ
interval_number elapsed = (elapsed - half_hour_ms + (two_hours_ms - 1)) / two_hours_ms

unfoldable pub calculate_next_retry_time : ℕ → ℕ → ℕ → Option ℕ
calculate_next_retry_time now attempt initial =
    let elapsed = now - initial in
    let next = half_hour_ms + interval_number elapsed * two_hours_ms in
    if attempt == 1
    then some (initial + 5 * minute_ms)
    else if attempt == 2
    then some (initial + 15 * minute_ms)
    else if attempt == 3
    then some (initial + 30 * minute_ms)
    else if leb limit_ms elapsed
    then none
    else if leb limit_ms next
    then none
    else some (initial + next)

abbrev pub max_retries : ℕ
max_retries = 38

-- From the fourth attempt on, if the clock is not behind the failure and a next time is given,
-- that time is not in the past, is less than two hours away once half an hour has gone by since
-- the failure, lies half an hour and a whole number of two hours after the failure, and is
-- before 72 hours after it.
pub next_retry_time_bounds :
    (now attempt initial : ℕ) {t : ℕ}
    → 3 < attempt
    → initial ≤ now
    → calculate_next_retry_time now attempt initial ≡ some t
    → (now ≤ t)
      × (initial + half_hour_ms ≤ now → t < now + two_hours_ms)
      × ((t - initial) % two_hours_ms ≡ half_hour_ms)
      × (t < initial + limit_ms)
unfolding calculate_next_retry_time
next_retry_time_bounds now attempt initial {t} late order e =
    (ground arith, λ past. ground arith, ground arith, ground arith)

-- From the fourth attempt on, if the clock is not behind the failure, a job expires exactly if
-- more than 70.5 hours have gone by since the failure.
pub next_retry_time_expires :
    (now attempt initial : ℕ)
    → 3 < attempt
    → initial ≤ now
    → (calculate_next_retry_time now attempt initial ≡ none) ↔ (initial + 253_800_000 < now)
unfolding calculate_next_retry_time
next_retry_time_expires now attempt initial late order = (λ e. ground arith, λ h. ground arith)
