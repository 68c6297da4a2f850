-- ===== src/GamePlay/Requests.antt =====
-- The requests that `GamePlayService` answers: bet, step, cash-out, and the two that only read.
use chicken_road_b.Base.{
  ℕ, String, Bool, true, false, ◌||◌, not, Option, none, some, List, [], ◌∷◌, ℤ, ◌&&◌, is_truthy,
  gets, or_else, template, if◌then◌else◌, Action, pure, throw_if, io_error, same_int, pos, length,
  ◌-◌, finally, ◌>>=◌, ◌>>◌,
}
use chicken_road_b.Js.{Js}
use chicken_road_b.Stores.{Stores, active_hazards}
use chicken_road_b.Games.{Game, GamePayloads, get_game_payloads}
use chicken_road_b.Bets.{Difficulty, CreateBetParams}
use chicken_road_b.Bets
use chicken_road_b.Fairness.{Crypto, get_or_create_fairness}
use chicken_road_b.Fairness.Hex.{show}
use chicken_road_b.Wallet.{AgentResponse, is_accepted, on_bets}
use chicken_road_b.Wallet.Operations.{place_bet_call}
use chicken_road_b.GamePlay.{
  GameSession, BetStepResponse, Answer, responds, refuses, EndReason, cashout, hazard, BetPayload,
  get_redis_key, bet_lock_key, initial_step, multiplier, advance, refusal, send_step_response,
  stored_response,
}
use chicken_road_b.GamePlay.Flows.{
  GameWorld, Setting, on_wallet, on_seeds, on_games, get_session, set_session, acquire_lock,
  release_lock, settle, new_session,
}

-- `session && session.isActive`
abbrev pub has_active : {Num : Type 0} → Option (GameSession Num) → Bool
has_active none = false
has_active (some s) = s.is_active

module _ {Num : Type 0} (js : Js Num) (st : Stores) (crypto : Crypto) (uuid : ℕ → String)
    (at : Setting Num) where
  open at use {now, tx, down}
  open js use {zero_num, lt_num, is_finite, to_fixed}

  abbrev World : Type 0
  World = GameWorld st Num

  abbrev pub placement :
      String → String → String → BetPayload → String → AgentResponse Num → CreateBetParams
  placement user_id agent_id game_code dto amount told = record {
    external_platform_tx_id = tx;
    user_id = user_id;
    round_id = template (user_id ∷ show now ∷ []);
    difficulty = dto.difficulty;
    bet_type = none;
    bet_amount = amount;
    currency = at.to_upper_case dto.currency;
    game_code = game_code;
    is_premium = some false;
    bet_placed_at = told.balance_ts;
    balance_after_bet = if js.truthy told.balance then some (js.to_text told.balance) else none;
    created_by = user_id;
    operator_id = agent_id;
  }

  abbrev pub started : BetPayload → String → BetStepResponse
  started dto amount = record {
    is_finished = false;
    coeff = "1";
    win_amount = amount;
    difficulty = dto.difficulty;
    bet_amount = amount;
    currency = at.to_upper_case dto.currency;
    line_number = some initial_step;
    is_win = none;
    collision_positions = none;
  }

  -- `cfgPayload.coefficients[difficulty] || []`
  abbrev pub coefficients_of : String → Difficulty → List String
  coefficients_of game_code difficulty = elim (at.coefficients game_code) [
    | none ↦ []
    | some table ↦ or_else (table difficulty) []
  ]

  -- After the bet is placed at the agent and in the table: the session, for some coefficients.
  unfoldable pub open_session :
      String → String → String → Num → BetPayload → List String → Action World Answer
  unfolding set_session
  open_session user_id agent_id game_code bet dto [] = pure (refuses "invalid_difficulty_config")
  open_session user_id agent_id game_code bet dto (c ∷ cs) = do
    d ← on_seeds js st crypto uuid at (get_or_create_fairness st down crypto now user_id agent_id)
    set_session js st crypto uuid at (get_redis_key user_id agent_id game_code) (
        new_session js st crypto uuid at user_id agent_id game_code bet dto
          (at.to_upper_case dto.currency) (c ∷ cs) d)
    pure (responds (started dto (to_fixed 3 bet)))

  abbrev pub placed :
      String
      → String
      → String
      → Num
      → BetPayload
      → AgentResponse Num
      → st.Of Game
      → Action World (Unit {0})
  placed user_id agent_id game_code bet dto told games = do
    on_wallet js st crypto uuid at (
        on_bets js st down uuid (
          Bets.create_placement st down games now
            (placement user_id agent_id game_code dto (to_fixed 3 bet) told)))
    pure tt

  -- The game's table is only read by the placement.
  unfoldable pub store_placement :
      String → String → String → Num → BetPayload → AgentResponse Num → Action World (Unit {0})
  store_placement user_id agent_id game_code bet dto told = do
    games ← gets (λ w. w.games)
    placed user_id agent_id game_code bet dto told games

  unfoldable pub place : String → String → String → Num → BetPayload → Action World Answer
  unfolding open_session store_placement
  place user_id agent_id game_code bet dto = do
    payloads ← on_games js st crypto uuid at (get_game_payloads st down game_code)
    told ← on_wallet js st crypto uuid at (
        place_bet_call js st down uuid at.reply now at.request_id agent_id user_id bet
          (template (user_id ∷ show now ∷ [])) tx (at.to_upper_case dto.currency))
    if is_accepted told.status
        then (do
          store_placement user_id agent_id payloads.game_code bet dto told
          open_session user_id agent_id game_code bet dto
              (coefficients_of game_code dto.difficulty))
        else pure (refuses "agent_rejected")

  -- What is done while the lock is held. A message that fails the validation is `none`.
  unfoldable pub bet_locked : String → String → String → Option BetPayload → Action World Answer
  unfolding place get_session
  bet_locked user_id agent_id game_code incoming = do
    existing ← get_session js st crypto uuid at (get_redis_key user_id agent_id game_code)
    if has_active existing then pure (refuses "active_session_exists") else elim incoming [
      | none ↦ pure (refuses "validation_failed")
      | some dto ↦
          let bet = js.parse_float dto.bet_amount in
          if not (is_finite bet) || not (lt_num zero_num bet)
          then pure (refuses "invalid_bet_amount")
          else place user_id agent_id game_code bet dto
    ]

  unfoldable pub bet_acquired :
      String → String → String → Option BetPayload → Bool → Action World Answer
  unfolding release_lock bet_locked
  bet_acquired user_id agent_id game_code incoming true =
      finally (bet_locked user_id agent_id game_code incoming)
        (release_lock js st crypto uuid at (bet_lock_key user_id agent_id))
  bet_acquired user_id agent_id game_code incoming false = pure (refuses "active_session_exists")

  unfoldable pub perform_bet_flow :
      String → String → String → Option BetPayload → Action World Answer
  unfolding acquire_lock bet_acquired
  perform_bet_flow user_id agent_id game_code incoming =
      acquire_lock js st crypto uuid at (bet_lock_key user_id agent_id)
      >>= bet_acquired user_id agent_id game_code incoming

  abbrev pub settlement_amount : EndReason → Num → Num
  settlement_amount hazard amount = zero_num
  settlement_amount _ amount = amount

  abbrev pub shown_multiplier : GameSession Num → Option EndReason → Num
  shown_multiplier s (some hazard) = zero_num
  shown_multiplier s _ = multiplier js s

  abbrev pub collided : Option EndReason → List ℕ → Option (List ℕ)
  collided (some hazard) columns = some columns
  collided _ columns = none

  -- A step that ends the round settles the bet.
  unfoldable pub finish :
      String
      → String
      → String
      → GameSession Num
      → Option EndReason
      → GamePayloads
      → Action World (Unit {0})
  unfolding settle
  finish user_id agent_id key s none payloads = pure tt
  finish user_id agent_id key s (some r) payloads =
      settle js st crypto uuid at user_id agent_id key s (settlement_amount r s.win_amount) payloads

  -- A step that the guards let through, once the session is moved.
  unfoldable pub take_step :
      String → String → String → GameSession Num → Option EndReason → Action World Answer
  unfolding set_session finish
  take_step user_id agent_id game_code s reason =
      let key = get_redis_key user_id agent_id game_code in
      if is_truthy s.platform_bet_tx_id && is_truthy s.round_id
      then (do
        set_session js st crypto uuid at key s
        payloads ← on_games js st crypto uuid at (get_game_payloads st down game_code)
        finish user_id agent_id key s reason payloads
        pure (
            responds (
              send_step_response js s.is_active s.is_win s.current_step s.win_amount s.bet_amount
                (shown_multiplier s reason) s.difficulty s.currency reason
                (collided reason (at.hazards game_code s.difficulty)))))
      else pure (refuses "no_active_session")

  -- The active hazards are asked for on every column but the last.
  abbrev pub hazards_missed : ℤ → GameSession Num → Bool
  hazards_missed line s =
      down active_hazards && not (same_int line (pos (length s.coefficients - 1)))

  unfoldable pub step_from :
      String → String → String → ℤ → GameSession Num → Option String → Action World Answer
  unfolding take_step
  step_from user_id agent_id game_code line s (some reason) = pure (refuses reason)
  step_from user_id agent_id game_code line s none = do
    throw_if (hazards_missed line s) io_error
    let (moved, reason) = advance js (at.hazards game_code s.difficulty) line s
    take_step user_id agent_id game_code moved reason

  unfoldable pub step_found :
      String → String → String → ℤ → Option (GameSession Num) → Action World Answer
  unfolding refusal step_from
  step_found user_id agent_id game_code line none = pure (refuses "no_active_session")
  step_found user_id agent_id game_code line (some s) =
      step_from user_id agent_id game_code line s (refusal js (some s) line)

  unfoldable pub perform_step_flow : String → String → String → ℤ → Action World Answer
  unfolding get_session step_found
  perform_step_flow user_id agent_id game_code line = do
    found ← get_session js st crypto uuid at (get_redis_key user_id agent_id game_code)
    step_found user_id agent_id game_code line found

  unfoldable pub cash_out : String → String → String → GameSession Num → Action World Answer
  unfolding set_session settle
  cash_out user_id agent_id game_code s = do
    let key = get_redis_key user_id agent_id game_code
    set_session js st crypto uuid at key s
    payloads ← on_games js st crypto uuid at (get_game_payloads st down game_code)
    settle js st crypto uuid at user_id agent_id key s s.win_amount payloads
    throw_if (down active_hazards) io_error
    pure (
        responds (
          send_step_response js s.is_active s.is_win s.current_step s.win_amount s.bet_amount
            (multiplier js s) s.difficulty s.currency (some cashout)
            (some (at.hazards game_code s.difficulty))))

  abbrev pub cashed : GameSession Num → GameSession Num
  cashed s = record s { is_active = false; is_win = true }

  unfoldable pub cash_out_found :
      String → String → String → Option (GameSession Num) → Action World Answer
  unfolding cash_out
  cash_out_found user_id agent_id game_code none = pure (refuses "no_active_session")
  cash_out_found user_id agent_id game_code (some s) =
      if s.is_active
      then cash_out user_id agent_id game_code (cashed s)
      else pure (refuses "no_active_session")

  unfoldable pub perform_cash_out_flow : String → String → String → Action World Answer
  unfolding get_session cash_out_found
  perform_cash_out_flow user_id agent_id game_code = do
    found ← get_session js st crypto uuid at (get_redis_key user_id agent_id game_code)
    cash_out_found user_id agent_id game_code found

  unfoldable pub perform_get_session_flow : String → String → String → Action World Answer
  unfolding get_session
  perform_get_session_flow user_id agent_id game_code = do
    found ← get_session js st crypto uuid at (get_redis_key user_id agent_id game_code)
    elim found [
      | none ↦ pure (refuses "no_session")
      | some s ↦ pure (responds (stored_response js s))
    ]

  -- `none` for `null`
  unfoldable pub perform_get_game_state_flow :
      String → String → String → Action World (Option BetStepResponse)
  unfolding get_session
  perform_get_game_state_flow user_id agent_id game_code = do
    found ← get_session js st crypto uuid at (get_redis_key user_id agent_id game_code)
    elim found [
      | none ↦ pure none
      | some s ↦ pure (if s.is_active then some (stored_response js s) else none)
    ]
