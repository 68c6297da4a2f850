-- ===== src/Wallet/Operations.antt =====
-- `getBalance`, `placeBet`, `settleBet` and `refundBet`. Each has a `try` around the request, the
-- mapping of the answer and the test for a rejection, and a `catch` that handles all three.
use chicken_road_b.Base.{
  ℕ, String, Option, none, some, List, [], ◌∷◌, or_text, Action, Thrown, server_error, pure, throw,
  catching, quietly, template, if◌then◌else◌, ◌>>=◌, ◌>>◌,
}
use chicken_road_b.Js.{Js}
use chicken_road_b.Stores.{Stores, Outage}
use chicken_road_b.Enums.{
  get_balance, place_bet, settle_bet, refund_bet, agent_rejected, RefundTransaction,
}
use chicken_road_b.Games.{GamePayloads}
use chicken_road_b.Bets
use chicken_road_b.Wallet.{
  WalletCall, balance_call, bet_call, settle_call, cancel_call, Reply, AgentResponse, WalletWorld,
  error_type, error_status, is_accepted, default_currency, Subject, on_bets, resolve_agent, post,
  map_agent_response, log_success, log_failure, log_and_retry,
}

module _ {Num : Type 0} where
  abbrev pub first_of_refunds :
      (RefundTransaction Num → String) → List (RefundTransaction Num) → Option String
  first_of_refunds field [] = none
  first_of_refunds field (x ∷ xs) = some (field x)

  abbrev pub first_currency : List (RefundTransaction Num) → Option String
  first_currency [] = none
  first_currency (x ∷ xs) = x.currency

module _ {Num : Type 0} (js : Js Num) (st : Stores) (down : Outage) (uuid : ℕ → String)
    (reply : WalletCall Num → Reply Num) where
  abbrev World : Type 0
  World = WalletWorld st Num

  -- The test for a rejection, after the answer is mapped.
  unfoldable pub answered :
      ℕ
      → Subject Num
      → String
      → (ℕ → String → Action World (Unit {0}))
      → ℕ
      → AgentResponse Num
      → Action World (AgentResponse Num)
  unfolding log_success
  answered now s verb rejected code mapped =
      let message = template ("Agent rejected " ∷ verb ∷ " with status: " ∷ mapped.status ∷ []) in
      if is_accepted mapped.status
      then (do log_success js st down uuid now s (some code); pure mapped)
      else (do rejected code message; throw (server_error message))

  -- The `try` and the `catch` that the four operations share: `rejected` and `failed` are what
  -- the operation does at a rejection and in the `catch`, besides throwing.
  unfoldable pub request :
      ℕ
      → Subject Num
      → WalletCall Num
      → String
      → (ℕ → String → Action World (Unit {0}))
      → (Thrown → Action World (Unit {0}))
      → Action World (AgentResponse Num)
  unfolding post map_agent_response answered
  request now s call verb rejected failed =
      catching
        (do
          (code, d) ← post js st down uuid reply call
          mapped ← map_agent_response js st down uuid d
          answered now s verb rejected code mapped)
        (λ e. do failed e; throw e)

  -- The audit record of a rejection, and of an exception.
  unfoldable pub audit_rejection : ℕ → Subject Num → ℕ → String → Action World (Unit {0})
  unfolding log_failure
  audit_rejection now s code message =
      quietly (log_failure js st down uuid now s (some code) agent_rejected message)

  unfoldable pub audit_exception : ℕ → Subject Num → Thrown → Action World (Unit {0})
  unfolding log_failure
  audit_exception now s e = quietly (
      log_failure js st down uuid now s (error_status e) (error_type e)
        (or_text (some e.message) "Unknown error"))

  -- The same with a retry job, and the bets marked.
  unfoldable pub retry_rejection :
      ℕ → Subject Num → Action World (Unit {0}) → ℕ → String → Action World (Unit {0})
  unfolding log_and_retry
  retry_rejection now s mark code message = do
    log_and_retry js st down uuid now s (some code) agent_rejected message
    mark

  unfoldable pub retry_exception :
      ℕ → Subject Num → Action World (Unit {0}) → Thrown → Action World (Unit {0})
  unfolding log_and_retry
  retry_exception now s mark e = do
    log_and_retry js st down uuid now s (error_status e) (error_type e)
        (or_text (some e.message) "Unknown error")
    mark

  unfoldable pub get_balance_call : ℕ → String → String → String → Action World (AgentResponse Num)
  unfolding resolve_agent request audit_rejection audit_exception
  get_balance_call now request_id agent_id user_id = do
    resolve_agent js st down uuid agent_id
    let s = subject
    request now s (balance_call user_id) "getBalance" (audit_rejection now s)
        (audit_exception now s)
    where
      subject : Subject Num
      subject = record {
        request_id = request_id;
        action = get_balance;
        agent_id = agent_id;
        user_id = user_id;
        platform_tx_id = none;
        round_id = none;
        bet_amount = none;
        win_amount = none;
        currency = none;
        game_payloads = none;
        refund_transactions = none;
      }

  abbrev pub bet_subject : String → String → String → Num → String → String → String → Subject Num
  bet_subject request_id agent_id user_id amount round_id tx currency = record {
    request_id = request_id;
    action = place_bet;
    agent_id = agent_id;
    user_id = user_id;
    platform_tx_id = some tx;
    round_id = some round_id;
    bet_amount = some amount;
    win_amount = none;
    currency = some currency;
    game_payloads = none;
    refund_transactions = none;
  }

  unfoldable pub place_bet_call :
      ℕ
      → String
      → String
      → String
      → Num
      → String
      → String
      → String
      → Action World (AgentResponse Num)
  unfolding resolve_agent request audit_rejection audit_exception
  place_bet_call now request_id agent_id user_id amount round_id tx currency = do
    resolve_agent js st down uuid agent_id
    let s = bet_subject request_id agent_id user_id amount round_id tx currency
    request now s (bet_call tx user_id amount currency round_id) "bet" (audit_rejection now s)
        (audit_exception now s)

  -- `markSettlementFailed` for one transaction; its error is logged
  unfoldable pub mark_failed : String → String → Action World (Unit {0})
  mark_failed user_id tx =
      quietly (on_bets js st down uuid (Bets.mark_settlement_failed st down tx user_id))

  abbrev pub settle_subject :
      String → String → String → String → Num → String → Num → GamePayloads → Subject Num
  settle_subject request_id agent_id tx user_id win round_id bet payloads = record {
    request_id = request_id;
    action = settle_bet;
    agent_id = agent_id;
    user_id = user_id;
    platform_tx_id = some tx;
    round_id = some round_id;
    bet_amount = some bet;
    win_amount = some win;
    currency = some default_currency;
    game_payloads = some payloads;
    refund_transactions = none;
  }

  unfoldable pub settle_bet_call :
      ℕ
      → String
      → String
      → String
      → String
      → Num
      → String
      → Num
      → GamePayloads
      → Action World (AgentResponse Num)
  unfolding resolve_agent request retry_rejection retry_exception mark_failed
  settle_bet_call now request_id agent_id tx user_id win round_id bet payloads = do
    resolve_agent js st down uuid agent_id
    let s = settle_subject request_id agent_id tx user_id win round_id bet payloads
    request now s (settle_call tx user_id win bet round_id) "settlement"
        (retry_rejection now s (mark_failed user_id tx))
        (retry_exception now s (mark_failed user_id tx))

  -- The loop over the transactions of a refund.
  unfoldable pub mark_all_failed : String → List (RefundTransaction Num) → Action World (Unit {0})
  unfolding mark_failed
  mark_all_failed user_id [] = pure tt
  mark_all_failed user_id (x ∷ xs) = do
    mark_failed user_id x.platform_tx_id
    mark_all_failed user_id xs

  -- The sums are `totalBetAmount` and `totalWinAmount`.
  abbrev pub refund_subject :
      String → String → String → Num → Num → List (RefundTransaction Num) → Subject Num
  refund_subject request_id agent_id user_id bet win xs = record {
    request_id = request_id;
    action = refund_bet;
    agent_id = agent_id;
    user_id = user_id;
    platform_tx_id = first_of_refunds (λ x. x.platform_tx_id) xs;
    round_id = first_of_refunds (λ x. x.round_id) xs;
    bet_amount = some bet;
    win_amount = some win;
    currency = some (or_text (first_currency xs) default_currency);
    game_payloads = none;
    refund_transactions = some xs;
  }

  unfoldable pub total : (RefundTransaction Num → Num) → Num → List (RefundTransaction Num) → Num
  total amount sum [] = sum
  total amount sum (x ∷ xs) = total amount (js.add sum (amount x)) xs

  unfoldable pub refund_bet_call :
      ℕ → String → String → String → List (RefundTransaction Num) → Action World (AgentResponse Num)
  unfolding resolve_agent request retry_rejection retry_exception mark_all_failed total
  refund_bet_call now request_id agent_id user_id xs = do
    resolve_agent js st down uuid agent_id
    let bet = total (λ x. x.bet_amount) js.zero_num xs
    let win = total (λ x. x.win_amount) js.zero_num xs
    let s = refund_subject request_id agent_id user_id bet win xs
    request now s (cancel_call user_id xs) "refund"
        (retry_rejection now s (mark_all_failed user_id xs))
        (retry_exception now s (mark_all_failed user_id xs))
