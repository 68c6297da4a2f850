-- ===== src/Enums.antt =====
-- common/enums/wallet.enums.ts, and the data that the wallet's callers pass around.
use chicken_road_b.Base.{String, Bool, true, false, Option}

pub data WalletApiAction : Type 0 where
  get_balance place_bet settle_bet refund_bet : WalletApiAction

pub data WalletErrorType : Type 0 where
  network_error http_error timeout_error invalid_response agent_rejected malformed_response
        unknown_error :
      WalletErrorType

abbrev pub same_action : WalletApiAction → WalletApiAction → Bool
same_action get_balance get_balance = true
same_action place_bet place_bet = true
same_action settle_bet settle_bet = true
same_action refund_bet refund_bet = true
same_action _ _ = false

-- An element of `refundTransactions`, without the fields that are only passed on to the agent.
pub record RefundTransaction (Num : Type 0) : Type 0 where
  pub platform_tx_id : String
  pub refund_platform_tx_id : String
  pub bet_amount : Num
  pub win_amount : Num
  pub round_id : String
  pub currency : Option String
