-- ===== src/Retry/Tests.antt =====
-- The theorems on retry jobs, at concrete times and on a table of jobs.
use chicken_road_b.Base.{ℕ, ◌+◌, ◌-◌, ◌%◌, ◌≤◌, ◌<◌, none, some, [], ◌≡◌, ◌↔◌, refl, arith}
use chicken_road_b.Js.Cents.{cents}
use chicken_road_b.Stores.{none_down}
use chicken_road_b.Stores.Assoc.{assoc, assoc-Laws}
use chicken_road_b.Enums.{settle_bet}
use chicken_road_b.Retry.{Jobs, CreateRetryJobParams, create_retry_job}
use chicken_road_b.Retry.Schedule.{
  calculate_next_retry_time, half_hour_ms, two_hours_ms, limit_ms, next_retry_time_bounds,
  next_retry_time_expires,
}
use chicken_road_b.Retry.Active.{
  HasActive, IsUnique, create_retry_job-HasActive, create_retry_job-IsUnique,
}
use chicken_road_b.Samples.{uuid, payloads}

-- One hour after the failure the fourth attempt is due at two and a half hours.
fourth_attempt_time :
    (4_600_000 ≤ 10_000_000)
    × (1_000_000 + half_hour_ms ≤ 4_600_000 → 10_000_000 < 4_600_000 + two_hours_ms)
    × ((10_000_000 - 1_000_000) % two_hours_ms ≡ half_hour_ms)
    × (10_000_000 < 1_000_000 + limit_ms)
unfolding calculate_next_retry_time
fourth_attempt_time = next_retry_time_bounds 4_600_000 4 1_000_000 (omega arith) (omega arith) refl

next_retry_time_expires_example :
    (calculate_next_retry_time 255_000_000 5 1_000_000 ≡ none)
    ↔ (1_000_000 + 253_800_000 < 255_000_000)
next_retry_time_expires_example =
    next_retry_time_expires 255_000_000 5 1_000_000 (omega arith) (omega arith)

abbrev request : CreateRetryJobParams ℕ
request = record {
  platform_tx_id = "t1";
  api_action = settle_bet;
  agent_id = "op";
  user_id = "u";
  refund_transactions = none;
  round_id = some "u100";
  bet_amount = some 2000;
  win_amount = some 2400;
  currency = some "INR";
  game_payloads = some payloads;
  wallet_audit_id = some "id0";
  error_message = some "timeout";
}

abbrev jobs : Jobs assoc ℕ
jobs = record { rows = []; next_id = 3 }

create_retry_job-HasActive_example :
    HasActive assoc "t1" settle_bet
      (create_retry_job cents assoc none_down uuid 1_000_000 request jobs).1
create_retry_job-HasActive_example =
    create_retry_job-HasActive cents assoc assoc-Laws none_down uuid 1_000_000 request jobs refl
      refl

jobs-IsUnique : IsUnique assoc jobs
jobs-IsUnique tx action k l i j e = absurd (cc)

create_retry_job-IsUnique_example :
    IsUnique assoc (create_retry_job cents assoc none_down uuid 1_000_000 request jobs).1
create_retry_job-IsUnique_example =
    create_retry_job-IsUnique cents assoc assoc-Laws none_down uuid 1_000_000 request jobs
      jobs-IsUnique
