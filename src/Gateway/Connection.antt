-- ===== src/Gateway/Connection.antt =====
-- handleConnection of routes/gamePlay/game-play.gateway.ts: who may connect, and what the player
-- is sent first. The verification of a token, the lookup of a user and the payload of the game's
-- configuration are arguments; a player's data is what the connection events carry.
use chicken_road_b.Base.{
  ℕ, suc, String, Bool, true, false, ◌==◌, Option, none, some, List, ◌∷◌, str_eq, if_truthy,
  or_text, if◌then◌else◌, Action, not_found, pure, modify, catching, quietly, zoom, or_throw, ◌>>=◌,
  ◌>>◌,
}
use chicken_road_b.Js.{Js}
use chicken_road_b.Stores.{Stores}
use chicken_road_b.Games.{get_game}
use chicken_road_b.Agents.{AgentRow, AgentTables, has_game_access}
use chicken_road_b.Fairness.{Crypto, get_or_create_fairness}
use chicken_road_b.Wallet.Operations.{get_balance_call}
use chicken_road_b.GamePlay.Flows.{GameWorld, Setting, on_wallet, on_seeds, on_games}
use chicken_road_b.Gateway.{Context}

-- The query of the handshake, each value the first one of its name.
pub record Handshake : Type 0 where
  pub game_mode : Option String
  pub operator_id : Option String
  pub authorization : Option String

pub record TokenPayload : Type 0 where
  pub sub : String
  pub agent_id : Option String

pub record UserData : Type 0 where
  pub username : Option String
  pub avatar : Option String

-- `socket.emit` and `socket.disconnect`; the table of currencies is constant.
pub data Event (Config : Type 0) : Type 0 where
  connection_error : String → String → Event Config
  disconnected : Event Config
  balance_change : String → String → Event Config
  bets_ranges : String → String → Event Config
  currencies : Event Config
  bet_config : Config → Event Config
  my_data : String → String → Option String → Event Config

pub record Socket (st : Stores) (Num Config : Type 0) : Type 0 where
  pub game : GameWorld st Num
  pub agents : st.Of AgentRow
  pub context : Context
  -- the latest first
  pub events : List (Event Config)

-- `rawToken.replace(/=4$/, '')`, which leaves a text that has no such end.
unfoldable pub strip_suffix : String → String
strip_suffix String.[] = ""
strip_suffix (String.◌∷◌ c s) =
    let rest = strip_suffix s in if str_eq (String.◌∷◌ c s) "=4" then "" else String.◌∷◌ c rest

unfoldable pub count_dots : String → ℕ
count_dots String.[] = 0
count_dots (String.◌∷◌ c s) =
    let rest = count_dots s in if str_eq (String.◌∷◌ c "") "." then suc rest else rest

-- A token of three parts loses the ending.
abbrev pub clean_token : String → String
clean_token raw = if count_dots raw == 2 then strip_suffix raw else raw

-- The text and the code of a refusal, if there is one.
abbrev pub inactive : Bool → Option (String × String)
inactive true = none
inactive false = some ("Game is not active", "GAME_NOT_ACTIVE")

abbrev pub denied : Bool → Option (String × String)
denied true = none
denied false = some ("Agent does not have access to this game", "AGENT_NO_ACCESS")

module _ {Num Config : Type 0} (js : Js Num) (st : Stores) (crypto : Crypto) (uuid : ℕ → String)
    (at : Setting Num) (config : String → Config) (verify_token : String → Option TokenPayload)
    (find_user : String → String → Option UserData) where
  open at use {now, down}

  abbrev World : Type 0
  World = Socket st Num Config

  abbrev pub in_game : {A : Type 0} → Action (GameWorld st Num) A → Action World A
  in_game = zoom (λ w. w.game) (λ g w. record w { game = g })

  abbrev pub in_agents : {A : Type 0} → Action (AgentTables st) A → Action World A
  in_agents =
      zoom (λ w. record { agents = w.agents; games = w.game.games })
        (λ t w. record w { agents = t.agents; game = record w.game { games = t.games } })

  abbrev pub emit : Event Config → Action World (Unit {0})
  emit e = modify (λ w. record w { events = e ∷ w.events })

  unfoldable pub emit_and_disconnect : String → String → Action World (Unit {0})
  emit_and_disconnect error code =
      modify (λ w. record w { events = disconnected ∷ connection_error error code ∷ w.events })

  unfoldable pub game_refusal : String → Action World (Option (String × String))
  game_refusal game_code =
      catching
        (do
          g ← in_game (on_games js st crypto uuid at (get_game st down game_code))
          pure (inactive g.is_active))
        (λ e. pure (some ("Game validation failed", "INVALID_GAME")))

  unfoldable pub access_refusal : String → String → Action World (Option (String × String))
  access_refusal agent_id game_code =
      catching
        (do allowed ← in_agents (has_game_access st down agent_id game_code); pure (denied allowed))
        (λ e. pure (some ("Agent access validation failed", "AGENT_NO_ACCESS")))

  -- What an accepted player is sent.
  unfoldable pub welcome : String → String → String → Action World (Unit {0})
  welcome game_code user_id agent_id = do
    b ← in_game (
        on_wallet js st crypto uuid at
          (get_balance_call js st down uuid at.reply now at.request_id agent_id user_id))
    u ← or_throw (find_user user_id agent_id) (not_found "User not found")
    quietly (
        in_game (
          on_seeds js st crypto uuid at
            (get_or_create_fairness st down crypto now user_id agent_id)))
    emit (balance_change "INR" (js.to_text b.balance))
    emit (bets_ranges "0.01" "150.00")
    emit (bet_config (config game_code))
    emit (my_data user_id (or_text u.username user_id) (if_truthy u.avatar))
    emit currencies

  unfoldable pub access_checked :
      String → String → String → Option (String × String) → Action World (Unit {0})
  access_checked game_code user_id agent_id (some (error, code)) = emit_and_disconnect error code
  access_checked game_code user_id agent_id none = welcome game_code user_id agent_id

  unfoldable pub game_checked :
      String → String → String → Option (String × String) → Action World (Unit {0})
  game_checked game_code user_id agent_id (some (error, code)) = emit_and_disconnect error code
  game_checked game_code user_id agent_id none =
      access_refusal agent_id game_code >>= access_checked game_code user_id agent_id

  unfoldable pub connect_as : String → String → Option TokenPayload → Action World (Unit {0})
  connect_as game_code operator_id none =
      emit_and_disconnect "Invalid or expired token" "INVALID_TOKEN"
  connect_as game_code operator_id (some p) = do
    let agent_id = or_text p.agent_id operator_id
    modify (λ w. record w {
      context = record {
        user_id = some p.sub;
        agent_id = some agent_id;
        game_code = some game_code;
      };
    })
    refusal ← game_refusal game_code
    game_checked game_code p.sub agent_id refusal

  unfoldable pub connect_with :
      Option String → Option String → Option String → Action World (Unit {0})
  connect_with none o a = emit_and_disconnect "Missing gameMode query parameter" "MISSING_GAMEMODE"
  connect_with (some g) none a =
      emit_and_disconnect "Missing operatorId query parameter" "MISSING_OPERATOR_ID"
  connect_with (some g) (some o) none =
      emit_and_disconnect "Missing Authorization query parameter" "MISSING_AUTH"
  connect_with (some g) (some o) (some raw) = connect_as g o (verify_token (clean_token raw))

  unfoldable pub handle_connection : Handshake → Action World (Unit {0})
  handle_connection h =
      connect_with (if_truthy h.game_mode) (if_truthy h.operator_id) (if_truthy h.authorization)
