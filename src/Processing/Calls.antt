-- ===== src/Processing/Calls.antt =====
-- The requests to the agent while a retry job is run.
use chicken_road_b.Base.{
  or_else, or_text, [], ℕ, ◌+◌, String, true, false, Option, none, some, List, ◌∷◌, ◌≡◌, refl,
  Action, Keeps, Keeps-by, Leads, pure-Leads, catching-Leads, first-Leads, second-Leads, last-Leads,
  if-Leads, if-Keeps, pure-Keeps, quietly-Keeps, then-Keeps, ◌⊎◌, inl, inr, Bool, ◌||◌, is_some,
  Bool-cases,
}
use chicken_road_b.Js.{Js}
use chicken_road_b.Stores.{Stores, Outage, lock_set, lock_del}
use chicken_road_b.Enums.{WalletApiAction, settle_bet, refund_bet}
use chicken_road_b.Retry.{WalletRetryJob, WalletRetryJobStatus, Jobs, is_processing, is_pending}
use chicken_road_b.Retry
use chicken_road_b.Retry.Schedule.{calculate_next_retry_time}
use chicken_road_b.Wallet.{cancel_call, settle_call, WalletCall, Reply, WalletWorld}
use chicken_road_b.Wallet.Calls.{
  AsksOnce, SameCalls, bets-AsksOnce, audits-AsksOnce, settle_bet_call-AsksOnce,
  refund_bet_call-AsksOnce,
}
use chicken_road_b.Processing.{
  rebuilt, RetryResult, RetryWorld, audit_resolved, execute_settle_bet_retry,
  execute_refund_bet_retry, execute_retry, on_wallet, on_retries, reschedule_at, reschedule,
  handle_result, run_job, run_current, retry_locked, acquire_job_lock, release_job_lock,
  job_acquired, process_retry_job, job_lock_key,
}

module _ {Num : Type 0} (js : Js Num) (st : Stores) (down : Outage) (uuid : ℕ → String)
    (reply : WalletCall Num → Reply Num) (now : ℕ) (request_id : String)
    (j : WalletRetryJob Num) where
  -- What the agent is asked for a job of an action: for a settlement, its amounts and its round.
  abbrev pub own_call : WalletApiAction → WalletCall Num
  own_call refund_bet =
      cancel_call j.user_id
        (or_else j.refund_transactions (rebuilt js st down uuid reply now request_id j ∷ []))
  own_call _ =
      settle_call j.platform_tx_id j.user_id (js.parse_float (or_text j.win_amount "0"))
        (js.parse_float (or_text j.bet_amount "0")) (or_text j.round_id "")

module _ {Num : Type 0} (js : Js Num) (st : Stores) (down : Outage) (uuid : ℕ → String)
    (reply : WalletCall Num → Reply Num) (now : ℕ) (request_id : String) (j : WalletRetryJob Num)
    (before : List (WalletCall Num)) where
  abbrev Once : WalletApiAction → WalletWorld st Num → Type 0
  Once a = AsksOnce js st down uuid reply (own_call js st down uuid reply now request_id j a) before

  abbrev Same : WalletWorld st Num → Type 0
  Same = SameCalls js st down uuid reply before

  audit_resolved-Once :
      {call : WalletCall Num} (id : Option String)
      → Keeps
          (AsksOnce js st down uuid reply call before)
          (audit_resolved js st down uuid reply now request_id id)
  unfolding audit_resolved
  audit_resolved-Once none = pure-Keeps
  audit_resolved-Once (some id) =
      search (if-Keeps, pure-Keeps, quietly-Keeps, audits-AsksOnce js st down uuid reply)

  settle-Once :
      Leads Same (Once settle_bet) (execute_settle_bet_retry js st down uuid reply now request_id j)
  unfolding execute_settle_bet_retry
  settle-Once =
      search
        (
          catching-Leads,
          first-Leads,
          settle_bet_call-AsksOnce js st down uuid reply now request_id j.agent_id,
          if-Keeps,
          then-Keeps,
          pure-Keeps,
          quietly-Keeps,
          bets-AsksOnce js st down uuid reply,
          audit_resolved-Once,
        )
        depth 9

  refund-Once :
      Leads Same (Once refund_bet) (execute_refund_bet_retry js st down uuid reply now request_id j)
  unfolding execute_refund_bet_retry
  refund-Once =
      search
        (
          catching-Leads,
          first-Leads,
          refund_bet_call-AsksOnce js st down uuid reply now request_id j.agent_id,
          if-Keeps,
          then-Keeps,
          pure-Keeps,
          quietly-Keeps,
          bets-AsksOnce js st down uuid reply,
          audit_resolved-Once,
        )
        depth 9

  abbrev World : Type 0
  World = RetryWorld st Num

  abbrev After : World → Type 0
  After w = Once j.api_action w.wallet

  abbrev Before : World → Type 0
  Before w = Same w.wallet

  retries-After :
      {A : Type 0} (m : Action (Jobs st Num) A)
      → Keeps After (on_retries js st down uuid reply now request_id m)
  retries-After m = Keeps-by (λ w p. record { one = p.one })

  retries-Before :
      {A : Type 0} (m : Action (Jobs st Num) A)
      → Keeps Before (on_retries js st down uuid reply now request_id m)
  retries-Before m = Keeps-by (λ w p. p)

  wallet-Leads :
      {A : Type 0} {m : Action (WalletWorld st Num) A}
      → Leads Same (Once j.api_action) m
      → Leads Before After (on_wallet js st down uuid reply now request_id m)
  wallet-Leads k = record { lead = λ w p. k.lead w.wallet p }

  none_yet : (w : World) → Before w → After w
  none_yet w p = record { one = inl p }

  reschedule_at-After :
      (next : Option ℕ) (message last : Option String)
      → Keeps After (reschedule_at js st down uuid reply now request_id j next message last)
  unfolding reschedule_at
  reschedule_at-After (some next) message last = search (then-Keeps, pure-Keeps, retries-After)
  reschedule_at-After none message last = search (then-Keeps, pure-Keeps, retries-After)

  reschedule-After :
      (message last : Option String)
      → Keeps After (reschedule js st down uuid reply now request_id j message last)
  unfolding reschedule
  reschedule-After message last =
      reschedule_at-After (calculate_next_retry_time now (j.retry_attempt + 1) j.initial_failure_at)
        message last

  handle_result-After :
      (r : RetryResult) → Keeps After (handle_result js st down uuid reply now request_id j r)
  unfolding handle_result
  handle_result-After r = search (if-Keeps, then-Keeps, pure-Keeps, retries-After, reschedule-After)

  execute-Once :
      (a : WalletApiAction)
      → j.api_action ≡ a
      → Leads Same (Once a) (execute_retry js st down uuid reply now request_id j)
  unfolding execute_retry
  execute-Once WalletApiAction.get_balance e = rw e (pure-Leads (λ w p. record { one = inl p }))
  execute-Once WalletApiAction.place_bet e = rw e (pure-Leads (λ w p. record { one = inl p }))
  execute-Once settle_bet e = rw e settle-Once
  execute-Once refund_bet e = rw e refund-Once

  run_job-Leads : Leads Before After (run_job js st down uuid reply now request_id j)
  unfolding run_job
  run_job-Leads =
      last-Leads
        (retries-Before
          (Retry.update_status js st down uuid now j.id WalletRetryJobStatus.processing))
        none_yet
        (first-Leads
          {m = on_wallet js st down uuid reply now request_id
            (execute_retry js st down uuid reply now request_id j)}
          (wallet-Leads (execute-Once j.api_action refl)) handle_result-After)

  run_current-Leads :
      (current : Option (WalletRetryJob Num))
      → Leads Before After (run_current js st down uuid reply now request_id j current)
  unfolding run_current
  run_current-Leads none = pure-Leads none_yet
  run_current-Leads (some i) =
      search (if-Leads, last-Leads, retries-Before, none_yet, run_job-Leads, pure-Leads)

  retry_locked-Leads : Leads Before After (retry_locked js st down uuid reply now request_id j)
  unfolding retry_locked
  retry_locked-Leads = search (
    catching-Leads, second-Leads, retries-Before, none_yet, run_current-Leads, quietly-Keeps,
    reschedule-After,
  )

  acquire-Before :
      (key : String) → Keeps Before (acquire_job_lock js st down uuid reply now request_id key)
  unfolding acquire_job_lock
  acquire-Before key = Keeps-by (λ w p.
      elim (Bool-cases (down lock_set || is_some (st.get String w.locks key))) [
        | inl busy ↦ rw busy p
        | inr free ↦ rw free p
      ])

  release-After :
      (key : String) (w : World)
      → After w
      → After (release_job_lock js st down uuid reply now request_id key w)
  unfolding release_job_lock
  release-After key w p = elim (Bool-cases (down lock_del)) [
    | inl fails ↦ rw fails p
    | inr works ↦ rw works (record { one = p.one })
  ]

  job_acquired-Leads :
      (got : Bool) → Leads Before After (job_acquired js st down uuid reply now request_id j got)
  unfolding job_acquired
  job_acquired-Leads true = record {
    lead = λ w p.
        release-After (job_lock_key js st down uuid reply now request_id j) _
          (retry_locked-Leads.lead w p);
  }
  job_acquired-Leads false = pure-Leads none_yet

  process_retry_job-Leads :
      Leads Before After (process_retry_job js st down uuid reply now request_id j)
  unfolding process_retry_job
  process_retry_job-Leads =
      second-Leads (acquire-Before (job_lock_key js st down uuid reply now request_id j)) none_yet
        job_acquired-Leads

module _ {Num : Type 0} (js : Js Num) (st : Stores) (down : Outage) (uuid : ℕ → String)
    (reply : WalletCall Num → Reply Num) (now : ℕ) (request_id : String)
    (j : WalletRetryJob Num) where
  -- Whatever fails and whatever the agent answers, while a retry job has its turn the agent is
  -- not asked, or is asked exactly once: to refund its transactions, if it is a refund, and
  -- else to settle its transaction with its amounts and its round.
  pub process_retry_job_asks :
      (w : RetryWorld st Num)
      → let w' = (process_retry_job js st down uuid reply now request_id j w).1 in
        (w'.wallet.calls ≡ w.wallet.calls)
        ⊎ (w'.wallet.calls
            ≡ own_call js st down uuid reply now request_id j j.api_action ∷ w.wallet.calls)
  process_retry_job_asks w =
      ((process_retry_job-Leads js st down uuid reply now request_id j w.wallet.calls).lead w
        refl).one
