-- ===== src/Processing.antt =====
-- modules/wallet-retry/wallet-retry-processor.service.ts, and `processRetryJob` of
-- wallet-retry-scheduler.service.ts: a retry job is run under a lock of its own. Of a result the
-- fields that are only logged are left out.
pub mod Jobs
pub mod Locks
pub mod Finished
pub mod Calls
mod Tests
use chicken_road_b.Base.{
  ℕ, ◌+◌, String, Bool, true, false, ◌||◌, Option, none, some, List, [], ◌∷◌, is_some, is_truthy,
  or_else, or_text, template, if◌then◌else◌, Action, Thrown, Result, ok, err, plain_error, pure,
  throw, gets, modify, catching, finally, quietly, zoom, ◌>>=◌, ◌>>◌,
}
use chicken_road_b.Js.{Js}
use chicken_road_b.Stores.{Stores, Outage, lock_set, lock_del}
use chicken_road_b.Enums.{WalletApiAction, settle_bet, refund_bet, RefundTransaction}
use chicken_road_b.Games.{GamePayloads}
use chicken_road_b.Bets.{SettlementParams, refunded}
use chicken_road_b.Bets
use chicken_road_b.Audit
use chicken_road_b.Retry.{WalletRetryJob, WalletRetryJobStatus, is_processing, is_pending}
use chicken_road_b.Retry
use chicken_road_b.Retry.Schedule.{calculate_next_retry_time}
use chicken_road_b.Fairness.Hex.{show}
use chicken_road_b.Wallet.{
  WalletCall, Reply, AgentResponse, WalletWorld, is_accepted, on_bets, on_audits, on_jobs,
}
use chicken_road_b.Wallet.Operations.{settle_bet_call, refund_bet_call}

pub record RetryResult : Type 0 where
  pub success : Bool
  pub error_message : Option String

pub record RetryWorld (st : Stores) (Num : Type 0) : Type 0 where
  pub wallet : WalletWorld st Num
  pub locks : st.Of String

abbrev pub action_name : WalletApiAction → String
action_name WalletApiAction.get_balance = "getBalance"
action_name WalletApiAction.place_bet = "placeBet"
action_name settle_bet = "settleBet"
action_name refund_bet = "refundBet"

abbrev pub no_payloads : GamePayloads
no_payloads = record {
  game_code = "";
  game_name = "";
  platform = "";
  game_type = "";
  settle_type = "";
}

module _ {Num : Type 0} (js : Js Num) (st : Stores) (down : Outage) (uuid : ℕ → String)
    (reply : WalletCall Num → Reply Num) (now : ℕ) (request_id : String) where
  abbrev Job : Type 0
  Job = WalletRetryJob Num

  abbrev Wallet : Type 0
  Wallet = WalletWorld st Num

  -- `if (walletAuditId) { try { markSuccess } catch { log } }`
  unfoldable pub audit_resolved : Option String → Action Wallet (Unit {0})
  audit_resolved none = pure tt
  audit_resolved (some id) =
      if is_truthy id
      then quietly (on_audits js st down uuid (Audit.mark_success st down uuid now id))
      else pure tt

  -- A settlement that the agent took: `String(null)` is what a missing win amount becomes.
  abbrev pub retry_settlement : Job → AgentResponse Num → SettlementParams
  retry_settlement j told = record {
    external_platform_tx_id = j.platform_tx_id;
    win_amount = or_else j.win_amount "null";
    settlement_ref_tx_id = none;
    settled_at = some now;
    balance_after_settlement = some (js.to_text told.balance);
    game_info = none;
    updated_by = j.user_id;
    final_coeff = none;
    withdraw_coeff = none;
    fairness_data = none;
  }

  abbrev pub rejected_result : String → RetryResult
  rejected_result status = record {
    success = false;
    error_message = some (template ("Agent rejected with status: " ∷ status ∷ []));
  }

  abbrev pub failed_result : Thrown → RetryResult
  failed_result e = record { success = false; error_message = some e.message }

  abbrev pub succeeded : RetryResult
  succeeded = record { success = true; error_message = none }

  unfoldable pub execute_settle_bet_retry : Job → Action Wallet RetryResult
  unfolding audit_resolved
  execute_settle_bet_retry j =
      catching
        (do
          told ←
              settle_bet_call js st down uuid reply now request_id j.agent_id j.platform_tx_id
                j.user_id (js.parse_float (or_text j.win_amount "0")) (or_text j.round_id "")
                (js.parse_float (or_text j.bet_amount "0")) (or_else j.game_payloads no_payloads)
          if is_accepted told.status
              then (do
                quietly (
                    on_bets js st down uuid
                      (Bets.record_settlement st down js now (retry_settlement j told)))
                audit_resolved j.wallet_audit_id
                pure succeeded)
              else pure (rejected_result told.status))
        (λ e. pure (failed_result e))

  -- The refund of the job's own transaction, for a job that does not carry the transactions.
  abbrev pub rebuilt : Job → RefundTransaction Num
  rebuilt j = record {
    platform_tx_id = j.platform_tx_id;
    refund_platform_tx_id = template ("refund-" ∷ j.platform_tx_id ∷ "-" ∷ show now ∷ []);
    bet_amount = js.parse_float (or_text j.bet_amount "0");
    win_amount = js.parse_float (or_text j.win_amount "0");
    round_id = or_text j.round_id "";
    currency = none;
  }

  unfoldable pub execute_refund_bet_retry : Job → Action Wallet RetryResult
  unfolding audit_resolved
  execute_refund_bet_retry j =
      catching
        (do
          told ←
              refund_bet_call js st down uuid reply now request_id j.agent_id j.user_id
                (or_else j.refund_transactions (rebuilt j ∷ []))
          if is_accepted told.status
              then (do
                quietly (
                    on_bets js st down uuid
                      (Bets.update_status st down j.platform_tx_id refunded j.user_id))
                audit_resolved j.wallet_audit_id
                pure succeeded)
              else pure (rejected_result told.status))
        (λ e. pure (failed_result e))

  unfoldable pub execute_retry : Job → Action Wallet RetryResult
  unfolding execute_settle_bet_retry execute_refund_bet_retry
  execute_retry j = elim j.api_action [
    | settle_bet ↦ execute_settle_bet_retry j
    | refund_bet ↦ execute_refund_bet_retry j
    | other ↦ pure (
        failed_result
          (plain_error (template ("Unsupported retry action: " ∷ action_name other ∷ []))))
  ]

  abbrev World : Type 0
  World = RetryWorld st Num

  abbrev pub on_wallet : {A : Type 0} → Action Wallet A → Action World A
  on_wallet = zoom (λ w. w.wallet) (λ t w. record w { wallet = t })

  abbrev pub on_retries : {A : Type 0} → Action (Retry.Jobs st Num) A → Action World A
  on_retries m = on_wallet (on_jobs js st down uuid m)

  -- What follows a run that failed: the next attempt, or the end of the job.
  unfoldable pub reschedule_at :
      Job → Option ℕ → Option String → Option String → Action World (Unit {0})
  reschedule_at j (some next) message last = do
    on_retries (
        Retry.schedule_next_retry js st down uuid now j.id (j.retry_attempt + 1) (some next)
          message)
    pure tt
  reschedule_at j none message last = do
    on_retries (Retry.mark_expired js st down uuid now j.id last)
    pure tt

  unfoldable pub reschedule : Job → Option String → Option String → Action World (Unit {0})
  unfolding reschedule_at
  reschedule j message last =
      reschedule_at j (calculate_next_retry_time now (j.retry_attempt + 1) j.initial_failure_at)
        message last

  unfoldable pub handle_result : Job → RetryResult → Action World (Unit {0})
  unfolding reschedule
  handle_result j r =
      if r.success
      then (do on_retries (Retry.mark_success js st down uuid now j.id); pure tt)
      else reschedule j r.error_message
          (some (or_text r.error_message "Retry expired after 72 hours"))

  unfoldable pub run_job : Job → Action World (Unit {0})
  unfolding execute_retry handle_result
  run_job j = do
    on_retries (Retry.update_status js st down uuid now j.id WalletRetryJobStatus.processing)
    r ← on_wallet (execute_retry j)
    handle_result j r

  -- What the job's current row allows: a stale run is taken up again, a finished job is left.
  unfoldable pub run_current : Job → Option Job → Action World (Unit {0})
  unfolding run_job
  run_current j none = pure tt
  run_current j (some current) =
      if is_processing current.status
      then (do
        on_retries (Retry.update_status js st down uuid now j.id WalletRetryJobStatus.pending)
        run_job j)
      else if is_pending current.status
      then run_job j
      else pure tt

  unfoldable pub retry_locked : Job → Action World (Unit {0})
  unfolding run_current reschedule
  retry_locked j =
      catching
        (do current ← on_retries (Retry.find_by_id js st down uuid j.id); run_current j current)
        (λ e. quietly (reschedule j (some e.message) (some e.message)))

  abbrev pub job_lock_key : Job → String
  job_lock_key j =
      template ("retry-job-lock:" ∷ j.platform_tx_id ∷ ":" ∷ action_name j.api_action ∷ [])

  unfoldable pub acquire_job_lock : String → Action World Bool
  acquire_job_lock key = do
    held ← gets (λ w. is_some (st.get String w.locks key))
    if down lock_set || held
        then pure false
        else (do modify (λ w. record w { locks = st.put String w.locks key "1" }); pure true)

  unfoldable pub release_job_lock : String → World → World
  release_job_lock key w =
      if down lock_del then w else record w { locks = st.del String w.locks key }

  unfoldable pub job_acquired : Job → Bool → Action World (Unit {0})
  unfolding retry_locked release_job_lock
  job_acquired j true = finally (retry_locked j) (release_job_lock (job_lock_key j))
  job_acquired j false = pure tt

  unfoldable pub process_retry_job : Job → Action World (Unit {0})
  unfolding acquire_job_lock job_acquired
  process_retry_job j = acquire_job_lock (job_lock_key j) >>= job_acquired j
