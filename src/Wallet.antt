-- ===== src/Wallet.antt =====
-- routes/single-wallet-functions/single-wallet-functions.service.ts: the calls of the agents'
-- wallet, with their audit records, retry jobs and failed bets. The HTTP client is a parameter:
-- `reply` gives what each request is answered with. The calls that the code does not await
-- (audit and retry job) are run where they are started. `request_id` is the drawn id.
pub mod Operations
pub mod Ends
pub mod Keeping
pub mod Settle
pub mod Refund
pub mod Calls
mod Tests
use chicken_road_b.Base.{
  ℕ, String, Bool, true, false, ◌&&◌, ◌||◌, not, Option, none, some, List, [], ◌∷◌, ◌++◌, str_eq,
  if◌then◌else◌, or_else, or_text, Action, Thrown, Result, ok, err, not_found, server_error,
  io_error, pure, throw, throw_if, or_throw, gets, modify, catching, quietly, zoom, template, ◌>>=◌,
  ◌>>◌,
}
use chicken_road_b.Js.{Js}
use chicken_road_b.Stores.{Stores, Outage, agent_find, game_find}
use chicken_road_b.Enums.{
  WalletApiAction, get_balance, place_bet, settle_bet, refund_bet, WalletErrorType, http_error,
  network_error, timeout_error, unknown_error, agent_rejected, RefundTransaction,
}
use chicken_road_b.Games.{GamePayloads}
use chicken_road_b.Bets.{Bet}
use chicken_road_b.Bets
use chicken_road_b.Audit.{WalletAudit, WalletAuditStatus, Audits, CreateWalletAuditParams}
use chicken_road_b.Audit
use chicken_road_b.Retry.{Jobs, CreateRetryJobParams}
use chicken_road_b.Retry

pub record Agent : Type 0 where
  pub agent_id : String
  pub callback_url : String
  pub cert : String

-- The message of a request to an agent's callback URL.
pub data WalletCall (Num : Type 0) : Type 0 where
  balance_call : String → WalletCall Num
  bet_call : String → String → Num → String → String → WalletCall Num
  settle_call : String → String → Num → Num → String → WalletCall Num
  cancel_call : String → List (RefundTransaction Num) → WalletCall Num

-- The body of a response; a status that is no text is missing here.
pub record AgentData (Num : Type 0) : Type 0 where
  pub status : Option String
  pub balance : Option Num
  pub balance_ts : Option ℕ
  pub user_id : Option String

pub data Reply (Num : Type 0) : Type 0 where
  response : ℕ → AgentData Num → Reply Num
  failed : Thrown → Reply Num

pub record AgentResponse (Num : Type 0) : Type 0 where
  pub balance : Num
  pub balance_ts : Option ℕ
  pub status : String
  pub user_id : Option String

pub record WalletWorld (st : Stores) (Num : Type 0) : Type 0 where
  pub agents : st.Of Agent
  pub bets : st.Of Bet
  pub audits : Audits st
  pub jobs : Jobs st Num
  -- the requests made, the latest first
  pub calls : List (WalletCall Num)

-- The error type that each `catch` of the service determines.
unfoldable pub error_type : Thrown → WalletErrorType
error_type e = elim e.response [
  | some r ↦ http_error
  | none ↦
      if str_eq (or_else e.code "") "ECONNREFUSED" || str_eq (or_else e.code "") "ENOTFOUND"
      then network_error
      else if str_eq (or_else e.code "") "ETIMEDOUT" || str_eq e.name "TimeoutError"
      then timeout_error
      else unknown_error
]

-- `err.response.status`
abbrev pub error_status : Thrown → Option ℕ
error_status e = elim e.response [ none ↦ none | some s ↦ s ]

abbrev pub is_accepted : String → Bool
is_accepted s = str_eq s "0000"

abbrev pub default_currency : String
default_currency = "INR"

-- What an operation writes into its audit record and its retry job.
pub record Subject (Num : Type 0) : Type 0 where
  pub request_id : String
  pub action : WalletApiAction
  pub agent_id : String
  pub user_id : String
  pub platform_tx_id : Option String
  pub round_id : Option String
  pub bet_amount : Option Num
  pub win_amount : Option Num
  pub currency : Option String
  pub game_payloads : Option GamePayloads
  pub refund_transactions : Option (List (RefundTransaction Num))

module _ {Num : Type 0} (js : Js Num) (st : Stores) (down : Outage) (uuid : ℕ → String) where
  open js use {zero_num}

  abbrev World : Type 0
  World = WalletWorld st Num

  abbrev pub on_bets : {A : Type 0} → Action (st.Of Bet) A → Action World A
  on_bets = zoom (λ w. w.bets) (λ t w. record w { bets = t })

  abbrev pub on_audits : {A : Type 0} → Action (Audits st) A → Action World A
  on_audits = zoom (λ w. w.audits) (λ t w. record w { audits = t })

  abbrev pub on_jobs : {A : Type 0} → Action (Jobs st Num) A → Action World A
  on_jobs = zoom (λ w. w.jobs) (λ t w. record w { jobs = t })

  unfoldable pub resolve_agent : String → Action World Agent
  resolve_agent agent_id = do
    throw_if (down agent_find) io_error
    or_throw (← gets (λ w. st.find Agent w.agents (λ a. str_eq a.agent_id agent_id)))
        (not_found (template ("Agent '" ∷ agent_id ∷ "' not found" ∷ [])))

  -- `http.post`, with the request noted
  unfoldable pub post :
      (WalletCall Num → Reply Num) → WalletCall Num → Action World (ℕ × AgentData Num)
  post reply call = do
    modify (λ w. record w { calls = call ∷ w.calls })
    elim (reply call) [ response code d ↦ pure (code, d) | failed e ↦ throw e ]

  unfoldable pub map_agent_response : AgentData Num → Action World (AgentResponse Num)
  map_agent_response d = do
    status ← or_throw d.status (server_error "Malformed agent response")
    pure (record {
      balance = or_else d.balance zero_num;
      balance_ts = d.balance_ts;
      status = status;
      user_id = d.user_id;
    })

  unfoldable pub audit_params :
      Subject Num
      → WalletAuditStatus
      → Option ℕ
      → Option WalletErrorType
      → Option String
      → CreateWalletAuditParams Num
  audit_params s status http_status failure_type message = record {
    request_id = s.request_id;
    agent_id = s.agent_id;
    user_id = s.user_id;
    api_action = s.action;
    status = status;
    http_status = http_status;
    failure_type = failure_type;
    error_message = message;
    platform_tx_id = s.platform_tx_id;
    round_id = s.round_id;
    bet_amount = s.bet_amount;
    win_amount = s.win_amount;
    is_retry = none;
  }

  unfoldable pub log_success : ℕ → Subject Num → Option ℕ → Action World (Unit {0})
  unfolding audit_params
  log_success now s code = quietly (
      on_audits (
        Audit.log_audit st down uuid js now
          (audit_params s WalletAuditStatus.success code none none)))

  unfoldable pub log_failure :
      ℕ → Subject Num → Option ℕ → WalletErrorType → String → Action World WalletAudit
  unfolding audit_params
  log_failure now s code type message = on_audits (
      Audit.log_audit st down uuid js now
        (audit_params s WalletAuditStatus.failure code (some type) (some message)))

  unfoldable pub job_params : Subject Num → String → String → String → CreateRetryJobParams Num
  job_params s tx audit_id message = record {
    platform_tx_id = tx;
    api_action = s.action;
    agent_id = s.agent_id;
    user_id = s.user_id;
    refund_transactions = s.refund_transactions;
    round_id = s.round_id;
    bet_amount = s.bet_amount;
    win_amount = s.win_amount;
    currency = s.currency;
    game_payloads = s.game_payloads;
    wallet_audit_id = some audit_id;
    error_message = some message;
  }

  -- `createRetryJobSafely`, for the operations that have a transaction
  unfoldable pub create_retry_job_safely :
      ℕ → Subject Num → String → String → Action World (Unit {0})
  unfolding job_params
  create_retry_job_safely now s audit_id message = elim s.platform_tx_id [
    | none ↦ pure tt
    | some tx ↦
        quietly
          (on_jobs (Retry.create_retry_job js st down uuid now (job_params s tx audit_id message)))
  ]

  -- `logAudit(…).then(create retry job).catch(log)`
  unfoldable pub log_and_retry :
      ℕ → Subject Num → Option ℕ → WalletErrorType → String → Action World (Unit {0})
  unfolding log_failure create_retry_job_safely
  log_and_retry now s code type message = quietly (do
    audit ← log_failure now s code type message
    create_retry_job_safely now s audit.id message)
