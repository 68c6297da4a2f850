-- ===== src/GamePlay/Account.antt =====
-- The requests of a player outside a round: the seeds, and the bets of the last days.
use chicken_road_b.Base.{
  ℕ, ◌-◌, ◌*◌, String, Bool, ◌&&◌, Option, none, some, List, [], ◌∷◌, or_text, if_truthy,
  if◌then◌else◌, Action, pure, ◌>>=◌,
}
use chicken_road_b.Js.{Js}
use chicken_road_b.Stores.{Stores}
use chicken_road_b.Bets.{Bet, BetFairness, Difficulty, list_user_bets_by_time_range}
use chicken_road_b.Fairness.{Crypto, get_or_create_fairness, set_user_seed}
use chicken_road_b.Fairness.Hex.{show}
use chicken_road_b.Wallet.{on_bets}
use chicken_road_b.GamePlay.Flows.{GameWorld, Setting, on_wallet, on_seeds, generate_fairness_data}

pub record GameSeeds : Type 0 where
  pub user_seed : String
  pub hashed_server_seed : String
  pub nonce : String

-- A row of the history; the row's number in the table and two constant fields are left out.
pub record HistoryRow (Num : Type 0) : Type 0 where
  pub created_at : ℕ
  pub fairness : BetFairness
  pub bet_amount : Num
  pub win : Num
  pub withdraw_coeff : Num
  pub operator_id : String
  pub user_id : String
  pub currency : String
  pub coeff : String
  pub difficulty : Difficulty

abbrev pub history_days : ℕ
history_days = 7

abbrev pub history_limit : ℕ
history_limit = 30

module _ {Num : Type 0} (js : Js Num) (st : Stores) (crypto : Crypto) (uuid : ℕ → String)
    (at : Setting Num) where
  open at use {now, down}

  abbrev World : Type 0
  World = GameWorld st Num

  unfoldable pub get_game_seeds : String → String → Action World GameSeeds
  get_game_seeds user_id agent_id = do
    d ← on_seeds js st crypto uuid at (get_or_create_fairness st down crypto now user_id agent_id)
    pure (record {
      user_seed = d.user_seed;
      hashed_server_seed = d.hashed_server_seed;
      nonce = show d.nonce;
    })

  -- The user seed that is stored.
  unfoldable pub set_player_seed : String → String → String → Action World String
  set_player_seed user_id agent_id user_seed = do
    d ← on_seeds js st crypto uuid at (set_user_seed st down crypto now user_id agent_id user_seed)
    pure d.user_seed

  abbrev pub has_won : Num → Num → Bool
  has_won amount win = js.lt_num js.zero_num amount && js.lt_num js.zero_num win

  -- The stored coefficients, or what the amounts give.
  abbrev pub shown_withdraw : Option String → Num → Num → Num
  shown_withdraw none amount win = if has_won amount win then js.div win amount else js.zero_num
  shown_withdraw (some t) amount win = js.parse_float t

  abbrev pub shown_coeff : Option String → Num → Num → String
  shown_coeff none amount win =
      if has_won amount win then js.to_fixed 2 (js.div win amount) else "0"
  shown_coeff (some t) amount win = t

  unfoldable pub fairness_of : String → Option BetFairness → Action World BetFairness
  fairness_of round_id (some f) = pure f
  fairness_of round_id none = generate_fairness_data js st crypto uuid at none none round_id

  unfoldable pub history_row : String → Bet → Action World (HistoryRow Num)
  history_row agent_id b = do
    let amount = js.parse_float (or_text (some b.bet_amount) "0")
    let win = js.parse_float (or_text b.win_amount "0")
    fairness ← fairness_of b.round_id b.fairness_data
    pure (record {
      created_at = b.created_at;
      fairness = fairness;
      bet_amount = amount;
      win = win;
      withdraw_coeff = shown_withdraw (if_truthy b.withdraw_coeff) amount win;
      operator_id = or_text (some b.operator_id) agent_id;
      user_id = b.user_id;
      currency = b.currency;
      coeff = shown_coeff (if_truthy b.final_coeff) amount win;
      difficulty = b.difficulty;
    })

  unfoldable pub history_rows : String → List Bet → Action World (List (HistoryRow Num))
  history_rows agent_id [] = pure []
  history_rows agent_id (b ∷ bets) = do
    row ← history_row agent_id b
    rows ← history_rows agent_id bets
    pure (row ∷ rows)

  unfoldable pub get_my_bets_history :
      String → String → Option String → Action World (List (HistoryRow Num))
  get_my_bets_history user_id agent_id game_code = do
    bets ← on_wallet js st crypto uuid at (
        on_bets js st down uuid (
          list_user_bets_by_time_range st down user_id (now - history_days * 24 * 60 * 60 * 1000)
            now game_code history_limit))
    history_rows agent_id bets
