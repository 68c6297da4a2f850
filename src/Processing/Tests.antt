-- ===== src/Processing/Tests.antt =====
-- A settlement that is tried again on the sample wallet.
use chicken_road_b.Base.{ℕ, String, none, some, [], ◌∷◌, ◌≡◌, refl, ◌⊎◌, ok}
use chicken_road_b.Js.Cents.{cents}
use chicken_road_b.Stores.{none_down}
use chicken_road_b.Stores.Assoc.{assoc, assoc-Laws}
use chicken_road_b.Enums.{settle_bet}
use chicken_road_b.Bets.{record_settlement}
use chicken_road_b.Retry.{WalletRetryJob, WalletRetryJobStatus}
use chicken_road_b.Wallet.{settle_call}
use chicken_road_b.Processing.Calls.{process_retry_job_asks}
use chicken_road_b.Wallet.Operations.{settle_bet_call}
use chicken_road_b.Processing.{RetryWorld, execute_settle_bet_retry, process_retry_job, succeeded}
use chicken_road_b.Processing.Finished.{process_retry_job_over}
use chicken_road_b.Processing.Locks.{process_retry_job-locks}
use chicken_road_b.Samples.{uuid, wallet, payloads, accepting}

abbrev job : WalletRetryJob ℕ
job = record {
  id = "j1";
  platform_tx_id = "t1";
  api_action = settle_bet;
  status = WalletRetryJobStatus.pending;
  retry_attempt = 0;
  max_retries = 38;
  next_retry_at = 300;
  initial_failure_at = 200;
  last_retry_at = none;
  agent_id = "op";
  user_id = "u";
  refund_transactions = none;
  round_id = some "u100";
  bet_amount = some "2.000";
  win_amount = some "2.400";
  currency = some "INR";
  game_payloads = some payloads;
  wallet_audit_id = none;
  error_message = none;
  completed_at = none;
  updated_at = 200;
  created_at = 200;
}

-- A job of a lost bet has no win amount: its retry reports success, and the bet stays as it was.
lost_bet_not_settled :
    let (r, w') =
      execute_settle_bet_retry cents assoc none_down uuid accepting 400 "r"
        (record job { win_amount = none })
        wallet in
    (r ≡ ok (succeeded cents assoc none_down uuid accepting 400 "r")) × (w'.bets ≡ wallet.bets)
unfolding execute_settle_bet_retry settle_bet_call record_settlement
lost_bet_not_settled = (refl, refl)

abbrev start : RetryWorld assoc ℕ
start = record { wallet = wallet; locks = [] }

process_retry_job-locks_example :
    assoc.get String
      (process_retry_job cents assoc none_down uuid accepting 400 "r" job start).1.locks
      "retry-job-lock:t1:settleBet"
    ≡ none
process_retry_job-locks_example =
    process_retry_job-locks cents assoc none_down uuid accepting 400 "r" job assoc-Laws start
      "retry-job-lock:t1:settleBet" refl

-- The job is stored with a status.
abbrev stored : WalletRetryJobStatus → RetryWorld assoc ℕ
stored status = record start {
  wallet = record wallet {
    jobs = record { rows = ("j1", record job { status = status }) ∷ []; next_id = 1 };
  };
}

-- The settlement that is tried again has been done by another worker.
abbrev finished : RetryWorld assoc ℕ
finished = stored WalletRetryJobStatus.success

process_retry_job_over_example :
    (process_retry_job cents assoc none_down uuid accepting 400 "r" job finished).1.wallet
    ≡ finished.wallet
process_retry_job_over_example =
    process_retry_job_over cents assoc none_down uuid accepting 400 "r" job assoc-Laws finished refl
      refl

process_retry_job_asks_example :
    let w' =
      (process_retry_job cents assoc none_down uuid accepting 400 "r" job
        (stored WalletRetryJobStatus.pending)).1 in
    (w'.wallet.calls ≡ []) ⊎ (w'.wallet.calls ≡ settle_call "t1" "u" 2400 2000 "u100" ∷ [])
process_retry_job_asks_example =
    process_retry_job_asks cents assoc none_down uuid accepting 400 "r" job
      (stored WalletRetryJobStatus.pending)
