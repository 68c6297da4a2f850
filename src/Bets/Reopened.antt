-- ===== src/Bets/Reopened.antt =====
-- `recordSettlement` after an `updateStatus` of the same bet.
use chicken_road_b.Base.{
  ℕ, String, true, false, some, ◌≡◌, refl, arith, eq_iff, eq_refl, ok, if◌then◌else◌, ◌∙◌,
}
use chicken_road_b.Js.{Js}
use chicken_road_b.Stores.{Stores, Laws, Outage, bet_find, bet_save}
use chicken_road_b.Bets.{
  Bet, BetStatus, Bets, SettlementParams, update_status, record_settlement, save_settled,
  settle_row, settled_status, is_settled, is_decimal, won, lost,
}
use chicken_road_b.Bets.Keyed.{KeyedBets, record_settlement_lem}
use chicken_road_b.Bets.Settlement.{save_up}
use chicken_road_b.Bets.Placement.{update_status_any}

module _ (st : Stores) (laws : Laws st) (down : Outage) (t : Bets st) (keyed : KeyedBets st t) where
  -- An unsettled bet with an amount that the column takes is settled.
  settles_open :
      {Num : Type 0} (js : Js Num) (now : ℕ) (p : SettlementParams) {b : Bet}
      → down bet_find ≡ false
      → down bet_save ≡ false
      → is_decimal js p.win_amount ≡ true
      → st.get Bet t p.external_platform_tx_id ≡ some b
      → is_settled b.status ≡ false
      → record_settlement st down js now p t ≡ (
        ok (settle_row js now p b),
        st.put Bet t p.external_platform_tx_id (settle_row js now p b),
      )
  unfolding save_settled settle_row
  settles_open js now p {b} find_up up amount e open_bet =
      record_settlement_lem st laws down t keyed js now p find_up
      ∙ rw e (rw open_bet (rw amount (save_up st down _ t up ∙ rw (keyed _ b e) refl)))

module _ (st : Stores) (laws : Laws st) (down : Outage) (t : Bets st) (keyed : KeyedBets st t) where
  -- In a keyed table that can be read and written, a bet of whatever status, a settled one too,
  -- whose status is updated to one that is not WON or LOST is settled again by the next
  -- settlement with a decimal amount: the bet is stored with that win amount, its own bet
  -- amount and the status of the new amount.
  pub update_status_reopens :
      {Num : Type 0} (js : Js Num) (now : ℕ) (p : SettlementParams) (status : BetStatus)
      (by : String) {b : Bet}
      → down bet_find ≡ false
      → down bet_save ≡ false
      → is_settled status ≡ false
      → is_decimal js p.win_amount ≡ true
      → st.get Bet t p.external_platform_tx_id ≡ some b
      → let t' = (update_status st down p.external_platform_tx_id status by t).1 in
        (b' : Bet) × (record_settlement st down js now p t'
          ≡ (ok b', st.put Bet t' p.external_platform_tx_id b'))
        × (b'.win_amount ≡ some p.win_amount)
        × (b'.bet_amount ≡ b.bet_amount)
        × (b'.status ≡ (if js.lt_num js.zero_num (js.to_number p.win_amount) then won else lost))
  unfolding settle_row settled_status
  update_status_reopens js now p status by {b} find_up up unsettled amount e =
      let tx = p.external_platform_tx_id in
      let b₁ = record b { status = status; updated_by = by } in
      let t₁ = st.put Bet t tx b₁ in
      let stored : st.get Bet t₁ tx ≡ some b₁ =
        laws.get-put Bet t tx b₁ tx ∙ rw (eq_refl tx) refl in
      rw (update_status_any st laws down t keyed tx status by find_up up e) (
        settle_row js now p b₁,
        settles_open st laws down t₁
            (λ k v f.
              ground (arith, laws.get-put Bet t tx b₁ k, keyed k v, keyed tx b e, eq_iff tx k))
            js now p find_up up amount stored unsettled,
        refl,
        refl,
        ground arith,
      )
