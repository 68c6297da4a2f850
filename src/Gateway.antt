-- ===== src/Gateway.antt =====
-- routes/gamePlay/game-play.gateway.ts: the messages of a connected player. Each gets its answer
-- by the acknowledgement of the socket; a balance is sent as an event of its own. Sockets are a
-- library's: what a handler acknowledges and emits is a list. A promise that a handler does not
-- wait for is run where it starts.
pub mod Replies
pub mod Connection
pub mod Guards
mod Tests
use chicken_road_b.Base.{
  ℕ, String, Bool, true, false, ◌||◌, not, Option, none, some, List, [], ◌∷◌, ℤ, str_eq, is_truthy,
  if_truthy, or_text, or_else, if◌then◌else◌, Action, Thrown, pure, modify, catching, zoom,
  or_throw, plain_error, ◌>>=◌, ◌>>◌,
}
use chicken_road_b.Js.{Js}
use chicken_road_b.Stores.{Stores}
use chicken_road_b.Fairness.{Crypto}
use chicken_road_b.Wallet.{AgentResponse}
use chicken_road_b.Wallet.Operations.{get_balance_call}
use chicken_road_b.GamePlay.{BetPayload, BetStepResponse, Answer, responds, refuses}
use chicken_road_b.GamePlay.Flows.{GameWorld, Setting, on_wallet}
use chicken_road_b.GamePlay.Requests.{
  perform_bet_flow, perform_step_flow, perform_cash_out_flow, perform_get_session_flow,
  perform_get_game_state_flow,
}
use chicken_road_b.GamePlay.Account.{
  GameSeeds, HistoryRow, get_game_seeds, set_player_seed, get_my_bets_history,
}

-- `socket.data`
pub record Context : Type 0 where
  pub user_id : Option String
  pub agent_id : Option String
  pub game_code : Option String

pub data GameAction : Type 0 where
  bet step withdraw cashout get_game_session get_game_config : GameAction
  get_seeds set_seed get_game_state get_bets : GameAction

-- The enumeration's texts; any other text is no action.
unfoldable pub action_of : String → Option GameAction
action_of name =
    if str_eq name "bet"
    then some bet
    else if str_eq name "step"
    then some step
    else if str_eq name "withdraw"
    then some withdraw
    else if str_eq name "cashout"
    then some cashout
    else if str_eq name "get-game-session"
    then some get_game_session
    else if str_eq name "get-game-config"
    then some get_game_config
    else if str_eq name "get-game-seeds"
    then some get_seeds
    else if str_eq name "set-user-seed"
    then some set_seed
    else if str_eq name "get-game-state"
    then some get_game_state
    else if str_eq name "gameService-get-my-bets-history"
    then some get_bets
    else none

-- A message; a line number that is not finite is `none`.
pub record Message : Type 0 where
  pub action : Option String
  pub payload : Option BetPayload
  pub line_number : Option ℤ
  pub user_seed : Option String

-- What is acknowledged: a response, `{ error }`, a state or `null`, and the other requests' data.
pub data Reply (Num Config : Type 0) : Type 0 where
  answered : BetStepResponse → Reply Num Config
  refused : String → Reply Num Config
  shows_state : Option BetStepResponse → Reply Num Config
  shows_config : Config → Reply Num Config
  shows_seeds : GameSeeds → Reply Num Config
  seed_set : String → Reply Num Config
  shows_history : List (HistoryRow Num) → Reply Num Config

-- The game, what was acknowledged, and the balances that were sent, the latest first.
pub record Connected (st : Stores) (Num Config : Type 0) : Type 0 where
  pub game : GameWorld st Num
  pub replies : List (Reply Num Config)
  pub balances : List (String × String)

-- The payload of the configuration is an argument; it is missing where its lookup throws.
module _ {Num Config : Type 0} (js : Js Num) (st : Stores) (crypto : Crypto) (uuid : ℕ → String)
    (at : Setting Num) (config : String → Option Config) where
  open at use {now, down}

  abbrev World : Type 0
  World = Connected st Num Config

  abbrev pub in_game : {A : Type 0} → Action (GameWorld st Num) A → Action World A
  in_game = zoom (λ w. w.game) (λ g w. record w { game = g })

  abbrev pub ack : Reply Num Config → Action World (Unit {0})
  ack r = modify (λ w. record w { replies = r ∷ w.replies })

  abbrev pub refuse : String → Action World (Unit {0})
  refuse e = ack (refused e)

  abbrev pub balance_of : String → String → Action World (AgentResponse Num)
  balance_of user_id agent_id = in_game (
      on_wallet js st crypto uuid at
        (get_balance_call js st down uuid at.reply now at.request_id agent_id user_id))

  abbrev pub send_balance : String → AgentResponse Num → Action World (Unit {0})
  send_balance currency b =
      modify (λ w. record w { balances = (currency, js.to_text b.balance) ∷ w.balances })

  -- The agent's balance as an event, in a currency.
  unfoldable pub emit_balance : String → String → String → Action World (Unit {0})
  emit_balance user_id agent_id currency = balance_of user_id agent_id >>= send_balance currency

  -- `flow.then(f).catch(() => ack(error))`
  abbrev pub then_or :
      {A : Type 0}
      → Action (GameWorld st Num) A
      → (A → Action World (Unit {0}))
      → (Thrown → String)
      → Action World (Unit {0})
  then_or flow f error = catching (in_game flow >>= f) (λ e. refuse (error e))

  -- A bet and a cash-out answer first; the balance follows.
  unfoldable pub answer_then_balance : String → String → Answer → Action World (Unit {0})
  answer_then_balance user_id agent_id (refuses e) = refuse e
  answer_then_balance user_id agent_id (responds r) = do
    ack (answered r)
    emit_balance user_id agent_id "INR"

  -- A step that ends the round sends the balance first.
  unfoldable pub step_done : String → String → BetStepResponse → Bool → Action World (Unit {0})
  step_done user_id agent_id r true = do emit_balance user_id agent_id r.currency; ack (answered r)
  step_done user_id agent_id r false = ack (answered r)

  unfoldable pub step_answer : String → String → Answer → Action World (Unit {0})
  step_answer user_id agent_id (refuses e) = refuse e
  step_answer user_id agent_id (responds r) = step_done user_id agent_id r r.is_finished

  unfoldable pub plain_answer : Answer → Action World (Unit {0})
  plain_answer (refuses e) = refuse e
  plain_answer (responds r) = ack (answered r)

  unfoldable pub on_bet : Message → String → String → String → Action World (Unit {0})
  on_bet m user_id agent_id game_code =
      then_or (perform_bet_flow js st crypto uuid at user_id agent_id game_code m.payload)
        (answer_then_balance user_id agent_id) (λ e. "bet_failed")

  unfoldable pub on_line : Option ℤ → String → String → String → Action World (Unit {0})
  on_line none user_id agent_id game_code = refuse "invalid_line_number"
  on_line (some line) user_id agent_id game_code =
      then_or (perform_step_flow js st crypto uuid at user_id agent_id game_code line)
        (step_answer user_id agent_id) (λ e. "step_failed")

  unfoldable pub on_cash_out : String → String → String → Action World (Unit {0})
  on_cash_out user_id agent_id game_code =
      then_or (perform_cash_out_flow js st crypto uuid at user_id agent_id game_code)
        (answer_then_balance user_id agent_id) (λ e. "cashout_failed")

  unfoldable pub on_get_session : String → String → String → Action World (Unit {0})
  on_get_session user_id agent_id game_code =
      then_or (perform_get_session_flow js st crypto uuid at user_id agent_id game_code)
        plain_answer (λ e. "get_session_failed")

  abbrev pub show_state : Option BetStepResponse → Action World (Unit {0})
  show_state r = ack (shows_state r)

  -- A failure answers `null` here.
  unfoldable pub on_get_state : String → String → String → Action World (Unit {0})
  on_get_state user_id agent_id game_code =
      catching
        (in_game (perform_get_game_state_flow js st crypto uuid at user_id agent_id game_code)
          >>= show_state)
        (λ e. ack (shows_state none))

  unfoldable pub on_seeds : String → String → Action World (Unit {0})
  on_seeds user_id agent_id =
      then_or (get_game_seeds js st crypto uuid at user_id agent_id) (λ s. ack (shows_seeds s))
        (λ e. "get_game_seeds_failed")

  unfoldable pub on_set_seed : Option String → String → String → Action World (Unit {0})
  on_set_seed none user_id agent_id = refuse "missing_user_seed"
  on_set_seed (some seed) user_id agent_id =
      then_or (set_player_seed js st crypto uuid at user_id agent_id seed) (λ s. ack (seed_set s))
        (λ e. or_text (some e.message) "set_user_seed_failed")

  unfoldable pub on_history : Option String → String → String → Action World (Unit {0})
  on_history game_code user_id agent_id =
      then_or (get_my_bets_history js st crypto uuid at user_id agent_id game_code)
        (λ rows. ack (shows_history rows)) (λ e. "get_bet_history_failed")

  unfoldable pub on_config : Option String → Action World (Unit {0})
  on_config none = refuse "missing_game_code"
  on_config (some game_code) =
      then_or (or_throw (config game_code) (plain_error "no configuration"))
        (λ c. ack (shows_config c)) (λ e. "config_fetch_failed")

  -- The guards: the player and the agent are known, and for a round also the game.
  unfoldable pub for_player :
      Option String
      → Option String
      → (String → String → Action World (Unit {0}))
      → Action World (Unit {0})
  for_player (some user_id) (some agent_id) f = f user_id agent_id
  for_player _ _ f = refuse "missing_user_or_agent"

  unfoldable pub for_game :
      String
      → Option String
      → Option String
      → Option String
      → (String → String → String → Action World (Unit {0}))
      → Action World (Unit {0})
  for_game error (some user_id) (some agent_id) (some game_code) f = f user_id agent_id game_code
  for_game error _ _ _ f = refuse error

  module _ (c : Context) (m : Message) where
    abbrev user : Option String
    user = if_truthy c.user_id

    abbrev agent : Option String
    agent = if_truthy c.agent_id

    abbrev code : Option String
    code = if_truthy c.game_code

    unfoldable pub dispatch : Option GameAction → Action World (Unit {0})
    dispatch (some get_game_config) = on_config code
    dispatch (some get_seeds) = for_player user agent on_seeds
    dispatch (some set_seed) = for_player user agent (on_set_seed (if_truthy m.user_seed))
    dispatch (some bet) = for_game "missing_context" user agent code (on_bet m)
    dispatch (some step) = for_game "missing_user_or_agent" user agent code (on_line m.line_number)
    dispatch (some cashout) = for_game "missing_user_or_agent" user agent code on_cash_out
    dispatch (some withdraw) = for_game "missing_user_or_agent" user agent code on_cash_out
    dispatch (some get_game_session) =
        for_game "missing_user_or_agent" user agent code on_get_session
    dispatch (some get_game_state) = for_game "missing_user_or_agent" user agent code on_get_state
    dispatch (some get_bets) = for_player user agent (on_history c.game_code)
    dispatch none = refuse "unsupported_action"

    unfoldable pub with_action : Option String → Action World (Unit {0})
    with_action none = refuse "missing_action"
    with_action (some name) = dispatch (action_of name)

    -- Without a callback nothing is done.
    unfoldable pub ack_handler : Bool → Action World (Unit {0})
    ack_handler has_ack = if has_ack then with_action (if_truthy m.action) else pure tt

    unfoldable pub bet_history_handler : Bool → Action World (Unit {0})
    bet_history_handler has_ack =
        if has_ack then for_player user agent (on_history none) else pure tt
