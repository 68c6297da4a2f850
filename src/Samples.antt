-- ===== src/Samples.antt =====
-- Concrete data on which the tests run: one game, one agent, one player.
use chicken_road_b.Base.{ℕ, String, true, false, none, some, List, [], ◌∷◌, template, pos}
use chicken_road_b.Stores.{none_down}
use chicken_road_b.Stores.Assoc.{assoc}
use chicken_road_b.Games.{Game, GamePayloads}
use chicken_road_b.Bets.{Bet, BetStatus, placed, easy, CreateBetParams, SettlementParams}
use chicken_road_b.Fairness.{Crypto}
use chicken_road_b.Fairness.Hex.{show}
use chicken_road_b.Wallet.{Agent, Reply, response, WalletCall, WalletWorld}
use chicken_road_b.GamePlay.{GameSession, BetPayload}
use chicken_road_b.GamePlay.Flows.{GameWorld, Setting}

abbrev pub game : Game
game = record {
  game_code = "road";
  game_name = "Road";
  platform = "In-out";
  game_type = "CRASH";
  settle_type = "platformTxId";
  is_active = true;
}

abbrev pub payloads : GamePayloads
payloads = record {
  game_code = "road";
  game_name = "Road";
  platform = "In-out";
  game_type = "CRASH";
  settle_type = "platformTxId";
}

abbrev pub agent : Agent
agent = record { agent_id = "op"; callback_url = "http://op"; cert = "c" }

abbrev pub bet_row : BetStatus → Bet
bet_row status = record {
  external_platform_tx_id = "t1";
  user_id = "u";
  round_id = "u100";
  operator_id = "op";
  difficulty = easy;
  bet_type = none;
  bet_amount = "2.000";
  currency = "INR";
  game_code = "road";
  is_premium = some false;
  bet_placed_at = some 100;
  balance_after_bet = none;
  status = status;
  win_amount = none;
  settlement_ref_tx_id = none;
  settled_at = none;
  balance_after_settlement = none;
  game_info = none;
  final_coeff = none;
  withdraw_coeff = none;
  fairness_data = none;
  created_by = "u";
  updated_by = "u";
  created_at = 100;
}

abbrev pub new_params : CreateBetParams
new_params = record {
  external_platform_tx_id = "t2";
  user_id = "u";
  round_id = "u200";
  difficulty = easy;
  bet_type = none;
  bet_amount = "2.000";
  currency = "INR";
  game_code = "road";
  is_premium = some false;
  bet_placed_at = some 200;
  balance_after_bet = none;
  created_by = "u";
  operator_id = "op";
}

abbrev pub settlement_of : String → SettlementParams
settlement_of win = record {
  external_platform_tx_id = "t1";
  win_amount = win;
  settlement_ref_tx_id = none;
  settled_at = some 300;
  balance_after_settlement = none;
  game_info = none;
  updated_by = "u";
  final_coeff = some "1.20";
  withdraw_coeff = none;
  fairness_data = none;
}

-- A hash and random bytes that compute.
abbrev pub crypto : Crypto
crypto = record {
  sha256 = λ s. template ("ab" ∷ "cd" ∷ []);
  random_hex = λ bytes draw. show draw;
  to_exponential = λ n. show n;
}

abbrev pub uuid : ℕ → String
uuid n = template ("id" ∷ show n ∷ [])

-- The session of the bet `t1`, on the first of three columns.
abbrev pub session : GameSession ℕ
session = record {
  user_id = "u";
  agent_id = "op";
  currency = "INR";
  difficulty = easy;
  server_seed = some "5e";
  user_seed = some "1d";
  hashed_server_seed = some "abcd";
  nonce = some 0;
  coefficients = "1.10" ∷ "1.20" ∷ "1.50" ∷ [];
  current_step = pos 0;
  win_amount = 2200;
  bet_amount = 2000;
  is_active = true;
  is_win = false;
  created_at = 100;
  collision_columns = none;
  platform_bet_tx_id = "t1";
  round_id = "u100";
  game_code = "road";
}

abbrev pub session_key : String
session_key = "gameSession:u-op-road"

abbrev pub wallet : WalletWorld assoc ℕ
wallet = record {
  agents = ("op", agent) ∷ [];
  bets = ("t1", bet_row placed) ∷ [];
  audits = record { rows = []; next_id = 0 };
  jobs = record { rows = []; next_id = 0 };
  calls = [];
}

abbrev pub world : GameWorld assoc ℕ
world = record {
  wallet = wallet;
  games = ("road", game) ∷ [];
  seeds = record { entries = []; draws = 0 };
  sessions = (session_key, session) ∷ [];
  locks = [];
}

-- An agent that accepts everything, and one that rejects everything.
abbrev pub accepting : WalletCall ℕ → Reply ℕ
accepting call =
    response 200
      (record { status = some "0000"; balance = some 5000; balance_ts = none; user_id = some "u" })

abbrev pub rejecting : WalletCall ℕ → Reply ℕ
rejecting call =
    response 200
      (record { status = some "1028"; balance = none; balance_ts = none; user_id = none })

abbrev pub setting : List ℕ → (WalletCall ℕ → Reply ℕ) → Setting ℕ
setting hazards reply = record {
  now = 500;
  tx = "t2";
  request_id = "r";
  hazards = λ code difficulty. hazards;
  coefficients = λ code. some (λ difficulty. some ("1.10" ∷ "1.20" ∷ "1.50" ∷ []));
  to_upper_case = λ s. s;
  reply = reply;
  down = none_down;
}

abbrev pub payload : BetPayload
payload = record { bet_amount = "2"; difficulty = easy; currency = "INR" }
