-- ===== src/Bets/Keyed.antt =====
-- BetService on the unique column: each operation as a lookup and an update at one key, and
-- every operation keeps each row under its own transaction.
use chicken_road_b.Base.{
  ℕ, String, false, none, some, ◌≡◌, arith, eq_iff, if◌then◌else◌, ok, err, not_found,
}
use chicken_road_b.Js.{Js}
use chicken_road_b.Stores.{Stores, Laws, Outage, bet_find}
use chicken_road_b.Stores.Find.{IsKeyed, find_by_key}
use chicken_road_b.Bets.{
  Bet, BetStatus, Bets, SettlementParams, where_by_external_tx, save, update_status,
  record_settlement, save_settled, is_settled,
}

abbrev pub KeyedBets : (st : Stores) → Bets st → Type 0
KeyedBets st = IsKeyed st (λ b. b.external_platform_tx_id)

module _ (st : Stores) (laws : Laws st) where
  pub find_by_tx :
      (t : Bets st) (tx : String)
      → KeyedBets st t
      → st.find Bet t (where_by_external_tx tx none) ≡ st.get Bet t tx
  find_by_tx t tx keyed =
      find_by_key st laws (λ b. b.external_platform_tx_id) t (where_by_external_tx tx none) tx keyed
        (λ b h. ground (arith, eq_iff b.external_platform_tx_id tx))
        (λ b e. ground (arith, keyed tx b e, eq_iff b.external_platform_tx_id tx))

  pub put-KeyedBets :
      (t : Bets st) (b : Bet)
      → KeyedBets st t
      → KeyedBets st (st.put Bet t b.external_platform_tx_id b)
  put-KeyedBets t b keyed k v e = ground (
    arith,
    laws.get-put Bet t b.external_platform_tx_id b k,
    keyed k v,
    eq_iff b.external_platform_tx_id k,
  )

  module _ (down : Outage) (t : Bets st) (keyed : KeyedBets st t) where
    -- `updateStatus` as a lookup by key and a write at that key.
    pub update_status_lem :
        (tx : String) (status : BetStatus) (by : String)
        → down bet_find ≡ false
        → update_status st down tx status by t ≡ elim (st.get Bet t tx) [
          | none ↦ (err (not_found "Bet not found"), t)
          | some b ↦ save st down (record b { status = status; updated_by = by }) t
        ]
    unfolding update_status
    update_status_lem tx status by up = ground (arith, find_by_tx t tx keyed)

    -- `recordSettlement` likewise: a settled bet is returned as it is.
    pub record_settlement_lem :
        {Num : Type 0} (js : Js Num) (now : ℕ) (p : SettlementParams)
        → down bet_find ≡ false
        → record_settlement st down js now p t ≡ elim (st.get Bet t p.external_platform_tx_id) [
          | none ↦ (err (not_found "Bet not found for settlement"), t)
          | some b ↦ if is_settled b.status then (ok b, t) else save_settled st down js now p b t
        ]
    unfolding record_settlement
    record_settlement_lem js now p up = ground (arith, find_by_tx t p.external_platform_tx_id keyed)
