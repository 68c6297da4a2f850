-- ===== src/Bets/Placement.antt =====
-- What `createPlacement` and `updateStatus` do to the table of bets, and what `findOldPlacedBets`
-- returns.
use chicken_road_b.Base.{
  ℕ, ◌-◌, ◌<◌, String, Bool, true, false, Option, none, some, List, ◌≡◌, refl, arith, Result, ok,
  err, Thrown, conflict, ◌↔◌, Bool-cases, Result-cases, io_error, inl, inr, or_else, ◌∙◌,
}
use mathlib.Core.Path.{subst, sym}
use mathlib.Core.List.{Memᴰ}
use chicken_road_b.Stores.{Stores, Laws, Outage, bet_find, bet_save}
use chicken_road_b.Games.{Game, validate_game}
use chicken_road_b.Bets.{
  Bet, BetStatus, Bets, placed, CreateBetParams, insert, update_status, create_placement, new_bet,
  is_old_placed, find_old_placed_bets, duplicate_entry, where_by_external_tx,
}
use chicken_road_b.Bets.Keyed.{KeyedBets, update_status_lem}
use chicken_road_b.Bets.Settlement.{Writes, save_up}

-- The bet's data are those that the caller gave.
pub record Stakes (p : CreateBetParams) (b : Bet) : Type 0 where
  same_user : b.user_id ≡ p.user_id
  same_round : b.round_id ≡ p.round_id
  same_operator : b.operator_id ≡ p.operator_id
  same_game : b.game_code ≡ p.game_code
  same_difficulty : b.difficulty ≡ p.difficulty
  same_amount : b.bet_amount ≡ p.bet_amount
  same_currency : b.currency ≡ p.currency
  same_time : b.bet_placed_at ≡ p.bet_placed_at
  same_balance : b.balance_after_bet ≡ p.balance_after_bet

-- How `createPlacement` may end: it changes nothing, or the game is one that `validateGame`
-- accepts, the transaction is new, and one row is added, a placed bet with the caller's data.
pub data Places (st : Stores) (down : Outage) (games : st.Of Game) (now : ℕ) (p : CreateBetParams)
    (t : Bets st) (o : Result Bet × Bets st) : Type 0 where
  refused : (e : Thrown) → o.0 ≡ err e → o.1 ≡ t → Places st down games now p t o
  places :
      (b : Bet)
      → (validate_game st down p.game_code games).0 ≡ ok tt
      → st.get Bet t p.external_platform_tx_id ≡ none
      → o.0 ≡ ok b
      → b.external_platform_tx_id ≡ p.external_platform_tx_id
      → b.status ≡ placed
      → Stakes p b
      → (b.win_amount ≡ none) × (b.settled_at ≡ none) × (b.fairness_data ≡ none)
      → (b.created_by ≡ p.created_by) × (b.updated_by ≡ p.created_by) × (b.created_at ≡ now)
      → Writes st b t o.1
      → Places st down games now p t o

module _ (st : Stores) (laws : Laws st) (down : Outage) where
  staked : (now : ℕ) (p : CreateBetParams) → Stakes p (new_bet now p)
  staked now p = record {
    same_user = refl;
    same_round = refl;
    same_operator = refl;
    same_game = refl;
    same_difficulty = refl;
    same_amount = refl;
    same_currency = refl;
    same_time = refl;
    same_balance = refl;
  }

  insert-Places :
      (games : st.Of Game) (now : ℕ) (p : CreateBetParams) (t : Bets st)
      → (validate_game st down p.game_code games).0 ≡ ok tt
      → Places st down games now p t (insert st down (new_bet now p) t)
  unfolding insert
  insert-Places games now p t valid = elim (Bool-cases (down bet_save)) [
    | inl off ↦ refused io_error (ground arith) (ground arith)
    | inr up ↦ taken (st.get Bet t p.external_platform_tx_id) refl up
  ]
    where
      taken :
          (o : Option Bet)
          → st.get Bet t p.external_platform_tx_id ≡ o
          → down bet_save ≡ false
          → Places st down games now p t (insert st down (new_bet now p) t)
      taken none e up =
          let row : insert st down (new_bet now p) t
              ≡ (ok (new_bet now p), st.put Bet t p.external_platform_tx_id (new_bet now p)) =
            ground arith in
          rw row (
            places (new_bet now p) valid e refl refl refl (staked now p) (refl, refl, refl)
              (refl, refl, refl)
              (λ j. laws.get-put Bet t p.external_platform_tx_id (new_bet now p) j))
      taken (some b) e up = refused duplicate_entry (ground arith) (ground arith)

  -- For any table and whatever call fails, a placement either throws and writes nothing, or the
  -- game exists and is active, the transaction had no row, and exactly one row is added: a
  -- placed bet with the given transaction, player, round, operator, game, difficulty, amount,
  -- currency, time and balance, that is not settled and has no win amount and no fairness data,
  -- created and last updated by the given creator, at the clock.
  pub create_placement-Places :
      (games : st.Of Game) (now : ℕ) (p : CreateBetParams) (t : Bets st)
      → Places st down games now p t (create_placement st down games now p t)
  unfolding create_placement
  create_placement-Places games now p t =
      elim (Result-cases (validate_game st down p.game_code games).0) [
        | inr (e, h) ↦ refused e (ground arith) (ground arith)
        | inl (u, h) ↦ elim (Bool-cases (down bet_find)) [
          | inl off ↦ refused io_error (ground arith) (ground arith)
          | inr up ↦ searched (st.find Bet t sought) refl h up
        ]
      ]
    where
      sought : Bet → Bool
      sought = where_by_external_tx p.external_platform_tx_id (some p.game_code)

      searched :
          (o : Option Bet)
          → st.find Bet t sought ≡ o
          → (validate_game st down p.game_code games).0 ≡ ok tt
          → down bet_find ≡ false
          → Places st down games now p t (create_placement st down games now p t)
      searched (some b) e h up =
          refused (conflict "Bet already exists (idempotent placement)") (ground arith)
            (ground arith)
      searched none e h up =
          let row : create_placement st down games now p t ≡ insert st down (new_bet now p) t =
            ground arith in
          rw row (insert-Places games now p t h)

module _ (st : Stores) (laws : Laws st) (down : Outage) (t : Bets st) (keyed : KeyedBets st t) where
  -- Whatever status the bet has: a settled bet is updated too.
  pub update_status_any :
      (tx : String) (status : BetStatus) (by : String) {b : Bet}
      → down bet_find ≡ false
      → down bet_save ≡ false
      → st.get Bet t tx ≡ some b
      → update_status st down tx status by t ≡ (
        ok (record b { status = status; updated_by = by }),
        st.put Bet t tx (record b { status = status; updated_by = by }),
      )
  update_status_any tx status by {b} f s e =
      update_status_lem st laws down t keyed tx status by f
      ∙ rw e (save_up st down _ t s ∙ rw (keyed tx b e) refl)

  -- In a keyed table, if the search for old placed bets returns a list, a bet is in it exactly
  -- if it is stored, is placed, and its placement time, or else its creation time, is before
  -- the clock less the given age.
  pub find_old_placed_bets_iff :
      (now older : ℕ) (b : Bet) {bs : List Bet}
      → find_old_placed_bets st down now older t ≡ (ok bs, t)
      → Memᴰ b bs ↔ (
          (st.get Bet t b.external_platform_tx_id ≡ some b)
          × (b.status ≡ placed)
          × (or_else b.bet_placed_at b.created_at < now - older))
  unfolding find_old_placed_bets
  find_old_placed_bets_iff now older b {bs} e = (
    λ m. let (h, (k, f)) = laws.select_sound Bet t old b (listed m) in sound k f h,
    λ h. chosen (laws.select_complete Bet t old b.external_platform_tx_id b h.0 (ground arith)),
  )
    where
      old : Bet → Bool
      old = is_old_placed (now - older)

      sound :
          (k : String)
          → st.get Bet t k ≡ some b
          → old b ≡ true
          → (st.get Bet t b.external_platform_tx_id ≡ some b)
            × (b.status ≡ placed)
            × (or_else b.bet_placed_at b.created_at < now - older)
      sound k f h =
          (subst (λ j. st.get Bet t j ≡ some b) (sym (keyed k b f)) f, ground arith, ground arith)

      bs≡ : bs ≡ st.select Bet t old
      bs≡ = ground arith

      listed : Memᴰ b bs → Memᴰ b (st.select Bet t old)
      listed m = rw bs≡ at m

      chosen : Memᴰ b (st.select Bet t old) → Memᴰ b bs
      chosen m = rw bs≡ m
