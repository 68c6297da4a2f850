-- ===== src/Bets/Settlement.antt =====
-- What `recordSettlement`, `updateStatus` and `createPlacement` do to the table of bets.
use chicken_road_b.Base.{
  ℕ, String, true, false, Option, none, some, ◌≡◌, refl, arith, str_eq, eq_iff, if◌then◌else◌,
  Result, ok, err, Thrown, not_found, inl, inr, ◌∙◌, ap, Bool-cases, io_error, or_else, Bool,
}
use chicken_road_b.Js.{Js}
use chicken_road_b.Stores.{Stores, Laws, Outage, bet_find, bet_save}
use chicken_road_b.Bets.{
  Bet, Bets, SettlementParams, save, record_settlement, settle_row, is_settled, settled_status,
  save_settled, is_decimal, column_error, won, lost,
}
use chicken_road_b.Bets.Keyed.{KeyedBets, record_settlement_lem}

-- The table after a write of `b` at its own key.
abbrev pub Writes : (st : Stores) → Bet → Bets st → Bets st → Type 0
Writes st b t t' =
    (j : String)
    → st.get Bet t' j ≡ (if str_eq b.external_platform_tx_id j then some b else st.get Bet t j)

-- How `recordSettlement` may end: nothing is written on an error or for a settled bet, and
-- otherwise one row is, with the status that its amount gives.
pub data Settles {Num : Type 0} (js : Js Num) (st : Stores) (now : ℕ) (p : SettlementParams)
    (t : Bets st) (o : Result Bet × Bets st) : Type 0 where
  refused : (e : Thrown) → o.0 ≡ err e → o.1 ≡ t → Settles js st now p t o
  already :
      (b : Bet)
      → st.get Bet t p.external_platform_tx_id ≡ some b
      → is_settled b.status ≡ true
      → o.0 ≡ ok b
      → o.1 ≡ t
      → Settles js st now p t o
  settles :
      (old b : Bet)
      → st.get Bet t p.external_platform_tx_id ≡ some old
      → is_settled old.status ≡ false
      → is_decimal js p.win_amount ≡ true
      → o.0 ≡ ok b
      → b.external_platform_tx_id ≡ p.external_platform_tx_id
      → b.bet_amount ≡ old.bet_amount
      → b.win_amount ≡ some p.win_amount
      → b.status ≡ (if js.lt_num js.zero_num (js.to_number p.win_amount) then won else lost)
      → b.settled_at ≡ some (or_else p.settled_at now)
      → b.final_coeff ≡ p.final_coeff
      → b.fairness_data ≡ p.fairness_data
      → b.updated_by ≡ p.updated_by
      → Writes st b t o.1
      → Settles js st now p t o

pub save_up :
    (st : Stores) (down : Outage) (b : Bet) (t : Bets st)
    → down bet_save ≡ false
    → save st down b t ≡ (ok b, st.put Bet t b.external_platform_tx_id b)
unfolding save
save_up st down b t up = ground arith

Writes-KeyedBets :
    (st : Stores) (b : Bet) (t t' : Bets st) → Writes st b t t' → KeyedBets st t → KeyedBets st t'
Writes-KeyedBets st b t t' wr keyed k v e =
    ground (arith, wr k, keyed k v, eq_iff b.external_platform_tx_id k)

module _ (st : Stores) (laws : Laws st) (down : Outage) (t : Bets st) (keyed : KeyedBets st t) where
  module _ {Num : Type 0} (js : Js Num) where
    pub record_settlement-Settles :
        (now : ℕ) (p : SettlementParams)
        → Settles js st now p t (record_settlement st down js now p t)
    unfolding record_settlement save_settled settle_row settled_status
    record_settlement-Settles now p = elim (Bool-cases (down bet_find)) [
      | inl off ↦ refused io_error (ground arith) (ground arith)
      | inr up ↦
          rw (record_settlement_lem st laws down t keyed js now p up)
            (found (st.get Bet t p.external_platform_tx_id) refl)
    ]
      where
        amount_won :
            is_decimal js p.win_amount ≡ true
            → settled_status js p.win_amount
              ≡ (if js.lt_num js.zero_num (js.to_number p.win_amount) then won else lost)
        amount_won taken = ground arith

        written :
            (b : Bet)
            → st.get Bet t p.external_platform_tx_id ≡ some b
            → is_settled b.status ≡ false
            → is_decimal js p.win_amount ≡ true
            → Settles js st now p t (save st down (settle_row js now p b) t)
        written b e open_bet taken = elim (Bool-cases (down bet_save)) [
          | inl off ↦ refused io_error (ground arith) (ground arith)
          | inr up ↦ rw (save_up st down (settle_row js now p b) t up) (
              settles b (settle_row js now p b) e open_bet taken refl
                (keyed p.external_platform_tx_id b e) refl refl (amount_won taken) refl refl refl
                refl (λ j. laws.get-put Bet t b.external_platform_tx_id (settle_row js now p b) j))
        ]

        checked :
            (b : Bet)
            → st.get Bet t p.external_platform_tx_id ≡ some b
            → is_settled b.status ≡ false
            → Settles js st now p t (save_settled st down js now p b t)
        checked b e open_bet = elim (Bool-cases (is_decimal js p.win_amount)) [
          | inl taken ↦ rw taken (written b e open_bet taken)
          | inr bad ↦ rw bad (refused column_error refl refl)
        ]

        found :
            (o : Option Bet)
            → st.get Bet t p.external_platform_tx_id ≡ o
            → Settles js st now p t (elim o [
              | none ↦ (err (not_found "Bet not found for settlement"), t)
              | some b ↦
                  if is_settled b.status then (ok b, t) else save_settled st down js now p b t
            ])
        found none e = refused (not_found "Bet not found for settlement") refl refl
        found (some b) e = elim (Bool-cases (is_settled b.status)) [
          | inl s ↦ rw s (already b e s refl refl)
          | inr n ↦ rw n (checked b e n)
        ]

    -- A settled bet is returned as it is.
    settled_returns :
        (now : ℕ) (p : SettlementParams) {b : Bet}
        → down bet_find ≡ false
        → st.get Bet t p.external_platform_tx_id ≡ some b
        → is_settled b.status ≡ true
        → record_settlement st down js now p t ≡ (ok b, t)
    settled_returns now p up e s =
        record_settlement_lem st laws down t keyed js now p up ∙ rw e (rw s refl)

module _ (st : Stores) (laws : Laws st) (down : Outage) (t : Bets st) (keyed : KeyedBets st t) where
  module _ {Num : Type 0} (js : Js Num) where
    won_or_lost : (more : Bool) → is_settled (if more then won else lost) ≡ true
    won_or_lost more = ground arith

    Settles-KeyedBets :
        (now : ℕ) (p : SettlementParams) (o : Result Bet × Bets st)
        → Settles js st now p t o
        → KeyedBets st o.1
    Settles-KeyedBets now p o (refused e r same) = rw same keyed
    Settles-KeyedBets now p o (already b f s r same) = rw same keyed
    Settles-KeyedBets now p o (settles old b f s d r k a w u at c x y wr) =
        Writes-KeyedBets st b t o.1 wr keyed

    pub settled_row :
        (now : ℕ) (p : SettlementParams) (o : Result Bet × Bets st) {b : Bet}
        → Settles js st now p t o
        → o.0 ≡ ok b
        → (st.get Bet o.1 p.external_platform_tx_id ≡ some b) × (is_settled b.status ≡ true)
    settled_row now p o (refused e r same) h = cc
    settled_row now p o {b} (already c f s r same) h =
        let c≡ : c ≡ b = ground arith in (rw same (f ∙ ap some c≡), rw c≡ at s)
    settled_row now p o {b} (settles old c f s d r k a w u at g x y wr) h =
        let c≡ : c ≡ b = ground arith in
        (
          ground (
            arith,
            wr p.external_platform_tx_id,
            eq_iff c.external_platform_tx_id p.external_platform_tx_id,
          ),
          rw (← c≡) (rw u (won_or_lost _)),
        )

    -- In a keyed table that can be read, after a settlement that returned a bet a second one
    -- for the same transaction, with any data and at any later time, returns that bet and
    -- writes nothing.
    pub record_settlement_twice :
        (now later : ℕ) (p q : SettlementParams) {b : Bet} {t' : Bets st}
        → down bet_find ≡ false
        → q.external_platform_tx_id ≡ p.external_platform_tx_id
        → record_settlement st down js now p t ≡ (ok b, t')
        → record_settlement st down js later q t' ≡ (ok b, t')
    record_settlement_twice now later p q {b} {t'} up same e =
        let o : Settles js st now p t (ok b, t') =
          rw e at (record_settlement-Settles st laws down t keyed js now p) in
        let (f, s) = settled_row now p (ok b, t') o refl in
        settled_returns st laws down t' (Settles-KeyedBets now p (ok b, t') o) js later q up
          (rw same f) s
