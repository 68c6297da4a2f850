-- ===== src/GamePlay/Flows.antt =====
-- The flows of `GamePlayService`: bet, step, cash-out, and the two that only read.
use chicken_road_b.Base.{
  ℕ, String, Bool, true, false, ◌&&◌, ◌||◌, Option, none, some, List, [], ◌∷◌, or_else, or_text,
  is_some, is_truthy, template, if◌then◌else◌, Action, plain_error, io_error, pure, throw, throw_if,
  or_throw, gets, modify, catching, quietly, zoom, ◌>>=◌, ◌>>◌,
}
use chicken_road_b.Js.{Js}
use chicken_road_b.Stores.{
  Stores, Outage, lock_set, lock_del, session_get, session_set, session_del,
}
use chicken_road_b.Games.{Game, GamePayloads}
use chicken_road_b.Bets.{Bet, BetFairness, Difficulty, CreateBetParams, SettlementParams}
use chicken_road_b.Bets
use chicken_road_b.Fairness.{
  Crypto, Seeds, FairnessData, generate_fairness_data_for_bet, generate_server_seed, rotate_seeds,
}
use chicken_road_b.Fairness.Hex.{show}
use chicken_road_b.Wallet.{WalletCall, Reply, AgentResponse, WalletWorld, on_bets}
use chicken_road_b.Wallet.Operations.{settle_bet_call}
use chicken_road_b.GamePlay.{
  GameSession, BetPayload, substring, initial_step, withdraw_coeff, final_coeff,
}

pub record GameWorld (st : Stores) (Num : Type 0) : Type 0 where
  pub wallet : WalletWorld st Num
  pub games : st.Of Game
  pub seeds : Seeds st
  pub sessions : st.Of (GameSession Num)
  pub locks : st.Of String

-- What a request is run with: the clock, the drawn ids, the active hazards, the game's parsed
-- `coefficients`, the agent's answers, and which calls fail.
pub record Setting (Num : Type 0) : Type 0 where
  pub now : ℕ
  pub tx : String
  pub request_id : String
  pub hazards : String → Difficulty → List ℕ
  pub coefficients : String → Option (Difficulty → Option (List String))
  pub to_upper_case : String → String
  pub reply : WalletCall Num → Reply Num
  pub down : Outage

module _ {Num : Type 0} (js : Js Num) (st : Stores) (crypto : Crypto) (uuid : ℕ → String)
    (at : Setting Num) where
  open at use {now, down}

  abbrev World : Type 0
  World = GameWorld st Num

  abbrev pub on_wallet : {A : Type 0} → Action (WalletWorld st Num) A → Action World A
  on_wallet = zoom (λ w. w.wallet) (λ t w. record w { wallet = t })

  abbrev pub on_seeds : {A : Type 0} → Action (Seeds st) A → Action World A
  on_seeds = zoom (λ w. w.seeds) (λ t w. record w { seeds = t })

  abbrev pub on_games : {A : Type 0} → Action (st.Of Game) A → Action World A
  on_games = zoom (λ w. w.games) (λ t w. record w { games = t })

  -- modules/redis/redis.service.ts; the expiry of a key is not modelled.
  unfoldable pub get_session : String → Action World (Option (GameSession Num))
  get_session key = do
    throw_if (down session_get) io_error
    gets (λ w. st.get (GameSession Num) w.sessions key)

  unfoldable pub set_session : String → GameSession Num → Action World (Unit {0})
  set_session key s = do
    throw_if (down session_set) io_error
    modify (λ w. record w { sessions = st.put (GameSession Num) w.sessions key s })

  unfoldable pub del_session : String → Action World (Unit {0})
  del_session key = do
    throw_if (down session_del) io_error
    modify (λ w. record w { sessions = st.del (GameSession Num) w.sessions key })

  -- `SET key 1 NX`: an error counts as a lock that is not acquired.
  unfoldable pub acquire_lock : String → Action World Bool
  acquire_lock key = do
    held ← gets (λ w. is_some (st.get String w.locks key))
    if down lock_set || held
        then pure false
        else (do modify (λ w. record w { locks = st.put String w.locks key "1" }); pure true)

  unfoldable pub release_lock : String → World → World
  release_lock key w = if down lock_del then w else record w { locks = st.del String w.locks key }

  -- The fallback for a session that has no seeds draws a server seed, if that is what is missing.
  unfoldable pub generate_fairness_data :
      Option String → Option String → String → Action World BetFairness
  unfolding generate_server_seed
  generate_fairness_data user_seed server_seed round_id =
      if is_truthy (or_else user_seed "") && is_truthy (or_else server_seed "")
      then made (or_else user_seed "") (or_else server_seed "")
      else (do
        drawn ←
            if is_truthy (or_else server_seed "")
            then pure (or_else server_seed "")
            else on_seeds (generate_server_seed st down crypto)
        made (or_text (some (substring 16 round_id)) "e0b4c48b46701588") drawn)
    where
      made : String → String → Action World BetFairness
      made u s = or_throw (generate_fairness_data_for_bet crypto u s) (plain_error "SyntaxError")

  abbrev pub settlement : String → GameSession Num → Num → Num → BetFairness → SettlementParams
  settlement user_id s amount balance fairness = record {
    external_platform_tx_id = s.platform_bet_tx_id;
    win_amount = js.to_fixed 3 amount;
    settlement_ref_tx_id = none;
    settled_at = some now;
    balance_after_settlement = if js.truthy balance then some (js.to_text balance) else none;
    game_info = none;
    updated_by = user_id;
    final_coeff = final_coeff js s;
    withdraw_coeff = some (withdraw_coeff js s amount);
    fairness_data = some fairness;
  }

  -- The agent is told the amount, the bet is settled, the seeds change, and the session goes.
  unfoldable pub settled :
      String → String → String → GameSession Num → Num → AgentResponse Num → Action World (Unit {0})
  unfolding generate_fairness_data del_session
  settled user_id agent_id key s amount told = do
    fairness ← generate_fairness_data s.user_seed s.server_seed s.round_id
    on_wallet (
        on_bets js st down uuid (
          Bets.record_settlement st down js now
            (settlement user_id s amount told.balance fairness)))
    quietly (on_seeds (rotate_seeds st down crypto now user_id agent_id))
    quietly (del_session key)

  unfoldable pub settle :
      String → String → String → GameSession Num → Num → GamePayloads → Action World (Unit {0})
  unfolding settled
  settle user_id agent_id key s amount payloads =
      catching
        (do
          told ← on_wallet (
              settle_bet_call js st down uuid at.reply now at.request_id s.agent_id
                s.platform_bet_tx_id user_id amount s.round_id s.bet_amount payloads)
          settled user_id agent_id key s amount told)
        (λ e. throw (plain_error "settlement_failed Please contact support"))

  abbrev pub new_session :
      String
      → String
      → String
      → Num
      → BetPayload
      → String
      → List String
      → FairnessData
      → GameSession Num
  new_session user_id agent_id game_code bet dto currency coefficients d = record {
    user_id = user_id;
    agent_id = agent_id;
    difficulty = dto.difficulty;
    bet_amount = bet;
    currency = currency;
    current_step = initial_step;
    is_active = true;
    is_win = false;
    win_amount = bet;
    coefficients = coefficients;
    created_at = now;
    collision_columns = none;
    platform_bet_tx_id = at.tx;
    round_id = template (user_id ∷ show now ∷ []);
    user_seed = some d.user_seed;
    server_seed = some d.server_seed;
    hashed_server_seed = some d.hashed_server_seed;
    nonce = some d.nonce;
    game_code = game_code;
  }
