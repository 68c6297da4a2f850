-- ===== src/Processing/Jobs.antt =====
-- A settlement that is tried again, and the lock of a job.
use chicken_road_b.Base.{
  ℕ, String, true, false, some, List, ◌∷◌, ◌≡◌, or_else, or_text, Keeps-by, Keeps-by, ◌⊎◌,
}
use chicken_road_b.Js.{Js}
use chicken_road_b.Stores.{Stores, Laws, Outage, bet_find, bet_save}
use chicken_road_b.Bets.{Bet, Bets, is_settled, is_decimal, record_settlement, SettlementParams}
use chicken_road_b.Bets
use chicken_road_b.Bets.Keyed.{KeyedBets}
use chicken_road_b.Retry.{WalletRetryJob}
use chicken_road_b.Wallet.{WalletCall, Reply, AgentResponse, WalletWorld, settle_call}
use chicken_road_b.Processing.{RetryResult, retry_settlement}

module _ {Num : Type 0} (js : Js Num) (st : Stores) (laws : Laws st) (down : Outage)
    (find_up : down bet_find ≡ false) (save_up' : down bet_save ≡ false) (now : ℕ)
    (p : SettlementParams) where
  abbrev Settled : Bets st → Type 0
  Settled t =
      (b : Bet) × (st.get Bet t p.external_platform_tx_id ≡ some b) × (is_settled b.status ≡ true)

  -- With the table up, a bet that is there is settled afterwards if the column takes the amount;
  -- otherwise nothing is written.
  abbrev Outcome : Bets st → Bets st → Type 0
  Outcome t t' =
      ((is_decimal js p.win_amount ≡ true) × Settled t')
      ⊎ ((is_decimal js p.win_amount ≡ false) × (t' ≡ t))

module _ {Num : Type 0} (js : Js Num) (st : Stores) (laws : Laws st) (down : Outage)
    (find_up : down bet_find ≡ false) (save_up' : down bet_save ≡ false) (uuid : ℕ → String)
    (reply : WalletCall Num → Reply Num) (now : ℕ) (request_id : String)
    (j : WalletRetryJob Num) where
  abbrev Job : Type 0
  Job = WalletRetryJob Num

  abbrev World : Type 0
  World = WalletWorld st Num

  -- The request of the settlement that is tried again.
  abbrev pub asked : WalletCall Num
  asked =
      settle_call j.platform_tx_id j.user_id (js.parse_float (or_text j.win_amount "0"))
        (js.parse_float (or_text j.bet_amount "0")) (or_text j.round_id "")

  -- The bet of the job is settled.
  abbrev pub IsSettled : Bets st → Type 0
  IsSettled t = (b : Bet) × (st.get Bet t j.platform_tx_id ≡ some b) × (is_settled b.status ≡ true)

  -- The text that the retry records as the amount won: `String(null)` for a job without one.
  abbrev pub amount_text : String
  amount_text = or_else j.win_amount "null"

  -- The bet is settled, or the column did not take the amount and the bets are as before.
  abbrev pub Recorded : Bets st → Bets st → Type 0
  Recorded t t' =
      ((is_decimal js amount_text ≡ true) × IsSettled t')
      ⊎ ((is_decimal js amount_text ≡ false) × (t' ≡ t))

  record Done (before : Bets st) (calls : List (WalletCall Num)) (w : World) : Type 0 where
    recorded : Recorded before w.bets
    same_calls : w.calls ≡ calls

  module _ (w : World) {b : Bet} (keyed : KeyedBets st w.bets)
      (known : st.get Bet w.bets j.platform_tx_id ≡ some b) where
    abbrev Start : World → Type 0
    Start v = v ≡ w

    abbrev Told : AgentResponse Num → World → Type 0
    Told told v = (v.bets ≡ w.bets) × (v.calls ≡ asked ∷ w.calls)

    abbrev told_bets : AgentResponse Num → World → Bets st
    told_bets told v =
        (Bets.record_settlement st down js now
          (retry_settlement js st down uuid reply now request_id j told) v.bets).1

    abbrev ResultOf : RetryResult → World → Type 0
    ResultOf r v = r.success ≡ true → Done w.bets (asked ∷ w.calls) v
