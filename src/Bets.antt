-- ===== src/Bets.antt =====
-- modules/bet/bet.service.ts and entities/bet.entity.ts: the table of bets. It is keyed by
-- `externalPlatformTxId`, its unique column. Times are milliseconds since the epoch; `now` is the
-- clock at the call. The generated `id` and `updatedAt`, which no code here reads, are left out.
pub mod Keyed
pub mod Settlement
pub mod Placement
pub mod Reopened
mod Tests
use chicken_road_b.Base.{
  sort_by, ℕ, ◌-◌, String, Bool, true, false, Option, none, some, List, [], ◌∷◌, ◌&&◌, ◌||◌, str_eq,
  ltb, leb, if◌then◌else◌, or_else, is_some, is_truthy, matches_filter, length, take, Action,
  Thrown, plain_error, not_found, conflict, io_error, pure, throw, throw_if, or_throw, gets, modify,
  zoom, ◌>>=◌, ◌>>◌,
}
use chicken_road_b.Js.{Js}
use chicken_road_b.Stores.{Stores, Outage, bet_find, bet_save, bet_delete}
use chicken_road_b.Games.{Game, validate_game}

-- The driver's error on a unique index.
abbrev pub duplicate_entry : Thrown
duplicate_entry = plain_error "ER_DUP_ENTRY"

pub data BetStatus : Type 0 where
  placed pending_settlement won lost cancelled refunded settlement_failed : BetStatus

pub data Difficulty : Type 0 where
  easy medium hard daredevil : Difficulty

-- The fairness record that is kept with a settled bet.
pub record BetFairness : Type 0 where
  pub decimal : String
  pub client_seed : String
  pub server_seed : String
  pub combined_hash : String
  pub hashed_server_seed : String

pub record Bet : Type 0 where
  pub external_platform_tx_id : String
  pub user_id : String
  pub round_id : String
  pub operator_id : String
  pub difficulty : Difficulty
  pub bet_type : Option String
  pub bet_amount : String
  pub currency : String
  pub game_code : String
  pub is_premium : Option Bool
  pub bet_placed_at : Option ℕ
  pub balance_after_bet : Option String
  pub status : BetStatus
  pub win_amount : Option String
  pub settlement_ref_tx_id : Option String
  pub settled_at : Option ℕ
  pub balance_after_settlement : Option String
  pub game_info : Option String
  pub final_coeff : Option String
  pub withdraw_coeff : Option String
  pub fairness_data : Option BetFairness
  pub created_by : String
  pub updated_by : String
  pub created_at : ℕ

pub record CreateBetParams : Type 0 where
  pub external_platform_tx_id : String
  pub user_id : String
  pub round_id : String
  pub difficulty : Difficulty
  pub bet_type : Option String
  pub bet_amount : String
  pub currency : String
  pub game_code : String
  pub is_premium : Option Bool
  pub bet_placed_at : Option ℕ
  pub balance_after_bet : Option String
  pub created_by : String
  pub operator_id : String

pub record SettlementParams : Type 0 where
  pub external_platform_tx_id : String
  pub win_amount : String
  pub settlement_ref_tx_id : Option String
  pub settled_at : Option ℕ
  pub balance_after_settlement : Option String
  pub game_info : Option String
  pub updated_by : String
  pub final_coeff : Option String
  pub withdraw_coeff : Option String
  pub fairness_data : Option BetFairness

abbrev pub is_placed : BetStatus → Bool
is_placed placed = true
is_placed _ = false

-- `status === WON || status === LOST`
abbrev pub is_settled : BetStatus → Bool
is_settled won = true
is_settled lost = true
is_settled _ = false

abbrev pub where_by_external_tx : String → Option String → Bet → Bool
where_by_external_tx tx game_code b =
    str_eq b.external_platform_tx_id tx && matches_filter game_code b.game_code

-- The row that `createPlacement` creates.
abbrev pub new_bet : ℕ → CreateBetParams → Bet
new_bet now p = record {
  external_platform_tx_id = p.external_platform_tx_id;
  user_id = p.user_id;
  round_id = p.round_id;
  operator_id = p.operator_id;
  difficulty = p.difficulty;
  bet_type = p.bet_type;
  bet_amount = p.bet_amount;
  currency = p.currency;
  game_code = p.game_code;
  is_premium = p.is_premium;
  bet_placed_at = p.bet_placed_at;
  balance_after_bet = p.balance_after_bet;
  status = placed;
  win_amount = none;
  settlement_ref_tx_id = none;
  settled_at = none;
  balance_after_settlement = none;
  game_info = none;
  final_coeff = none;
  withdraw_coeff = none;
  fairness_data = none;
  created_by = p.created_by;
  updated_by = p.created_by;
  created_at = now;
}

module _ {Num : Type 0} (js : Js Num) where
  open js use {zero_num, lt_num, to_number}

  -- `winAmount && Number(winAmount) > 0`
  unfoldable pub settled_status : String → BetStatus
  settled_status win = if is_truthy win && lt_num zero_num (to_number win) then won else lost

  unfoldable pub settle_row : ℕ → SettlementParams → Bet → Bet
  unfolding settled_status
  settle_row now p b = record b {
    win_amount = some p.win_amount;
    settlement_ref_tx_id = p.settlement_ref_tx_id;
    settled_at = some (or_else p.settled_at now);
    balance_after_settlement = p.balance_after_settlement;
    game_info = p.game_info;
    final_coeff = p.final_coeff;
    withdraw_coeff = p.withdraw_coeff;
    fairness_data = p.fairness_data;
    status = settled_status p.win_amount;
    updated_by = p.updated_by;
  }

-- The driver's error on a text that the column `winAmount`, a decimal(18, 3), does not take. That
-- a number has at most fifteen digits before the point is not tested.
abbrev pub column_error : Thrown
column_error = plain_error "ER_TRUNCATED_WRONG_VALUE_FOR_FIELD"

abbrev pub is_decimal : {Num : Type 0} → Js Num → String → Bool
is_decimal js text = is_truthy text && js.is_finite (js.to_number text)

abbrev pub Bets : Stores → Type 0
Bets st = st.Of Bet

-- `betPlacedAt < :threshold OR (betPlacedAt IS NULL AND createdAt < :threshold)`, for a placed bet
abbrev pub is_old_placed : ℕ → Bet → Bool
is_old_placed threshold b =
    is_placed b.status && ltb (or_else b.bet_placed_at b.created_at) threshold

module _ (st : Stores) (down : Outage) where
  -- `repo.findOne` and `repo.save`
  unfoldable pub find_one : (Bet → Bool) → Action (Bets st) (Option Bet)
  find_one p = do throw_if (down bet_find) io_error; gets (λ t. st.find Bet t p)

  unfoldable pub save : Bet → Action (Bets st) Bet
  save b = do
    throw_if (down bet_save) io_error
    modify (λ t. st.put Bet t b.external_platform_tx_id b)
    pure b

  -- `repo.save` of a new entity: the unique index refuses a second row with its transaction.
  unfoldable pub insert : Bet → Action (Bets st) Bet
  insert b = do
    throw_if (down bet_save) io_error
    taken ← gets (λ t. st.get Bet t b.external_platform_tx_id)
    throw_if (is_some taken) duplicate_entry
    modify (λ t. st.put Bet t b.external_platform_tx_id b)
    pure b

  -- The game's table is only read: its part of the action is handed in.
  unfoldable pub create_placement : st.Of Game → ℕ → CreateBetParams → Action (Bets st) Bet
  unfolding find_one insert
  create_placement games now p = do
    zoom (λ _. games) (λ _ t. t) (validate_game st down p.game_code)
    existing ← find_one (where_by_external_tx p.external_platform_tx_id (some p.game_code))
    throw_if (is_some existing) (conflict "Bet already exists (idempotent placement)")
    insert (new_bet now p)

  unfoldable pub update_status : String → BetStatus → String → Action (Bets st) Bet
  unfolding find_one save
  update_status tx status updated_by = do
    bet ← or_throw (← find_one (where_by_external_tx tx none)) (not_found "Bet not found")
    save (record bet { status = status; updated_by = updated_by })

  unfoldable pub mark_pending_settlement : String → String → Action (Bets st) Bet
  unfolding update_status
  mark_pending_settlement tx updated_by = update_status tx pending_settlement updated_by

  unfoldable pub mark_settlement_failed : String → String → Action (Bets st) Bet
  unfolding update_status
  mark_settlement_failed tx updated_by = update_status tx settlement_failed updated_by

  unfoldable pub get_by_external_tx_id : String → Option String → Action (Bets st) (Option Bet)
  unfolding find_one
  get_by_external_tx_id tx game_code = find_one (where_by_external_tx tx game_code)

  unfoldable pub find_bet_by_round_id : String → String → Action (Bets st) (Option Bet)
  unfolding find_one
  find_bet_by_round_id game_code round_id =
      find_one (λ b. str_eq b.game_code game_code && str_eq b.round_id round_id)

  -- The listings, the newest first.
  abbrev pub newest : ℕ → (Bet → Bool) → Action (Bets st) (List Bet)
  newest limit p = do
    throw_if (down bet_find) io_error
    gets (λ t. take limit (sort_by (λ a b. leb b.created_at a.created_at) (st.select Bet t p)))

  unfoldable pub list_user_bets : String → Option String → ℕ → Action (Bets st) (List Bet)
  list_user_bets user_id game_code limit =
      newest limit (λ b. str_eq b.user_id user_id && matches_filter game_code b.game_code)

  unfoldable pub list_user_bets_by_time_range :
      String → ℕ → ℕ → Option String → ℕ → Action (Bets st) (List Bet)
  list_user_bets_by_time_range user_id start end game_code limit = newest limit (λ b.
      str_eq b.user_id user_id
      && (leb start b.created_at && leb b.created_at end)
      && matches_filter game_code b.game_code)

  unfoldable pub delete_where : (Bet → Bool) → Action (Bets st) ℕ
  delete_where p = do
    throw_if (down bet_delete) io_error
    affected ← gets (λ t. length (st.select Bet t p))
    modify (λ t. st.remove Bet t p)
    pure affected

  unfoldable pub delete_placed_bets : Action (Bets st) ℕ
  unfolding delete_where
  delete_placed_bets = delete_where (λ b. is_placed b.status)

  unfoldable pub delete_bets_before_date : ℕ → Action (Bets st) ℕ
  unfolding delete_where
  delete_bets_before_date before_date = delete_where (λ b. ltb b.created_at before_date)

  unfoldable pub find_old_placed_bets : ℕ → ℕ → Action (Bets st) (List Bet)
  find_old_placed_bets now older_than_ms = do
    throw_if (down bet_find) io_error
    gets (λ t. st.select Bet t (is_old_placed (now - older_than_ms)))

  -- `repo.save` of a settled row, whose win amount the column must take.
  unfoldable pub save_settled :
      {Num : Type 0} → Js Num → ℕ → SettlementParams → Bet → Action (Bets st) Bet
  unfolding save
  save_settled js now p bet =
      if is_decimal js p.win_amount then save (settle_row js now p bet) else throw column_error

  unfoldable pub record_settlement :
      {Num : Type 0} → Js Num → ℕ → SettlementParams → Action (Bets st) Bet
  unfolding find_one save_settled
  record_settlement js now p = do
    bet ←
        or_throw (← find_one (where_by_external_tx p.external_platform_tx_id none))
          (not_found "Bet not found for settlement")
    if is_settled bet.status then pure bet else save_settled js now p bet
