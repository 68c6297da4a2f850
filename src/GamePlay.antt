-- ===== src/GamePlay.antt =====
-- routes/gamePlay/game-play.service.ts: a round of the game, its session in Redis, and what the
-- player is answered. A session is kept as a value: that JSON brings it back is not modelled.
-- The record of the active hazards, the parsed configuration and the outcome of class-validator
-- on the incoming message are arguments.
pub mod Flows
pub mod Requests
pub mod Account
pub mod Frames
pub mod Steps
pub mod Rounds
pub mod Payout
pub mod Turns
pub mod Answers
pub mod Outcome
pub mod Locking
pub mod Betting
mod Tests
use Prim.Native.String
use chicken_road_b.Base.{
  ℕ, zero, suc, ◌-◌, String, Bool, true, false, ◌&&◌, not, Option, none, some, List, [], ◌∷◌, ℤ,
  pos, negsuc, suc_int, same_int, is_index, below_start, at_int, includes_int, length, is_truthy,
  template, ◌==◌, if◌then◌else◌,
}
use chicken_road_b.Js.{Js, number_of, float_of}
use chicken_road_b.Bets.{Difficulty}

pub record GameSession (Num : Type 0) : Type 0 where
  pub user_id : String
  pub agent_id : String
  pub currency : String
  pub difficulty : Difficulty
  pub server_seed : Option String
  pub user_seed : Option String
  pub hashed_server_seed : Option String
  pub nonce : Option ℕ
  pub coefficients : List String
  pub current_step : ℤ
  pub win_amount : Num
  pub bet_amount : Num
  pub is_active : Bool
  pub is_win : Bool
  pub created_at : ℕ
  pub collision_columns : Option (List ℕ)
  pub platform_bet_tx_id : String
  pub round_id : String
  pub game_code : String

pub record BetStepResponse : Type 0 where
  pub is_finished : Bool
  pub coeff : String
  pub win_amount : String
  pub difficulty : Difficulty
  pub bet_amount : String
  pub currency : String
  pub line_number : Option ℤ
  pub is_win : Option Bool
  pub collision_positions : Option (List ℕ)

-- `BetStepResponse | { error }`
pub data Answer : Type 0 where
  responds : BetStepResponse → Answer
  refuses : String → Answer

pub data EndReason : Type 0 where
  win cashout hazard : EndReason

-- A message that has passed the validation.
pub record BetPayload : Type 0 where
  pub bet_amount : String
  pub difficulty : Difficulty
  pub currency : String

abbrev pub get_redis_key : String → String → String → String
get_redis_key user_id agent_id game_code =
    template ("gameSession:" ∷ user_id ∷ "-" ∷ agent_id ∷ "-" ∷ game_code ∷ [])

abbrev pub bet_lock_key : String → String → String
bet_lock_key user_id agent_id = template ("bet-lock:" ∷ user_id ∷ "-" ∷ agent_id ∷ [])

-- `text.substring(0, n)`
unfoldable pub substring : ℕ → String → String
substring zero s = ""
substring (suc n) String.[] = ""
substring (suc n) (String.◌∷◌ c s) = String.◌∷◌ c (substring n s)

abbrev pub initial_step : ℤ
initial_step = negsuc 0

module _ {Num : Type 0} (js : Js Num) where
  open js use {zero_num, one_num, mul, div, lt_num, is_finite, to_fixed}

  -- `Number(session.coefficients[step])`, 0 before the first column
  abbrev pub multiplier : GameSession Num → Num
  multiplier s =
      if is_index s.current_step
      then number_of js (at_int s.coefficients s.current_step)
      else zero_num

  unfoldable pub get_step_coeff : GameSession Num → ℤ → Num
  get_step_coeff s step =
      let val = float_of js (at_int s.coefficients step) in
      if is_index step then (if is_finite val then val else one_num) else one_num

  -- The session that stands on column `line`, with the amount that can be won there.
  unfoldable pub moved : ℤ → GameSession Num → GameSession Num
  moved line s = record s {
    current_step = line;
    win_amount = mul s.bet_amount (number_of js (at_int s.coefficients line));
  }

  -- A step onto the last column wins; any other wins nothing on a hazard, or goes on.
  unfoldable pub advance : List ℕ → ℤ → GameSession Num → GameSession Num × Option EndReason
  unfolding moved
  advance hazards line s =
      if same_int line (pos (length s.coefficients - 1))
      then (record (moved line s) { is_active = false; is_win = true }, some win)
      else if includes_int line hazards
      then (
        record s {
          is_active = false;
          is_win = false;
          win_amount = zero_num;
          collision_columns = some hazards;
          current_step = line;
        },
        some hazard,
      )
      else (moved line s, none)

  -- The session is missing or finished, has no columns, or stands before the first one.
  abbrev pub is_playable : GameSession Num → Bool
  is_playable s =
      s.is_active && not (length s.coefficients == 0) && not (below_start s.current_step)

  -- The guards of a step, in the order of the code.
  unfoldable pub refusal : Option (GameSession Num) → ℤ → Option String
  refusal none line = some "no_active_session"
  refusal (some s) line =
      if is_playable s
      then (if same_int line (suc_int s.current_step) then none else some "invalid_step_sequence")
      else some "no_active_session"

  unfoldable pub send_step_response :
      Bool
      → Bool
      → ℤ
      → Num
      → Num
      → Num
      → Difficulty
      → String
      → Option EndReason
      → Option (List ℕ)
      → BetStepResponse
  send_step_response active won step win_amount bet_amount coeff difficulty currency reason
        columns =
      record {
        is_finished = not active;
        line_number = some step;
        win_amount = to_fixed 3 win_amount;
        bet_amount = to_fixed 3 bet_amount;
        coeff = to_fixed 3 coeff;
        difficulty = difficulty;
        currency = currency;
        is_win = elim reason [ some win ↦ some true | some cashout ↦ some true | _ ↦ none ];
        collision_positions = columns;
      }

  -- `endReason`, as it is read back from a stored session
  unfoldable pub end_reason : GameSession Num → Option EndReason
  end_reason s =
      if s.is_active
      then none
      else if s.is_win
      then some win
      else elim s.collision_columns [ some l ↦ some hazard | none ↦ some cashout ]

  unfoldable pub stored_response : GameSession Num → BetStepResponse
  unfolding get_step_coeff send_step_response end_reason
  stored_response s =
      send_step_response s.is_active s.is_win s.current_step s.win_amount s.bet_amount
        (get_step_coeff s s.current_step) s.difficulty s.currency (end_reason s) s.collision_columns

  -- `withdrawCoeff` of a settlement with `amount`
  unfoldable pub withdraw_coeff : GameSession Num → Num → String
  withdraw_coeff s amount =
      let bet = js.parse_float (js.to_text s.bet_amount) in
      if lt_num zero_num bet && lt_num zero_num amount then to_fixed 3 (div amount bet) else "0"

  abbrev pub final_coeff : GameSession Num → Option String
  final_coeff s = if is_index s.current_step then at_int s.coefficients s.current_step else some "0"
