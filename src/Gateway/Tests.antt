-- ===== src/Gateway/Tests.antt =====
-- Messages of the sample player.
use chicken_road_b.Base.{
  ℕ, String, ◌≡◌, refl, true, Option, none, some, [], ◌∷◌, str_eq, Result, ◌⊎◌, if◌then◌else◌,
}
use chicken_road_b.Js.Cents.{cents}
use chicken_road_b.Stores.Assoc.{assoc}
use chicken_road_b.Gateway.{Context, Message, refused, Connected, ack_handler, with_action}
use chicken_road_b.Agents.{AgentRow}
use chicken_road_b.Gateway.Connection.{
  Handshake, TokenPayload, UserData, Socket, handle_connection, clean_token, count_dots,
  strip_suffix,
}
use chicken_road_b.Gateway.Guards.{IsRefused, Passes, handle_connection-Passes}
use chicken_road_b.Gateway.Replies.{Acks, ack_handler-Acks}
use chicken_road_b.Samples.{crypto, uuid, world, setting, accepting}

abbrev connected : Connected assoc ℕ ℕ
connected = record { game = world; replies = []; balances = [] }

abbrev player : Context
player = record { user_id = some "u"; agent_id = some "op"; game_code = some "road" }

abbrev no_config : String → Option ℕ
no_config game_code = none

abbrev cash_out_message : Message
cash_out_message = record {
  action = some "cashout";
  payload = none;
  line_number = none;
  user_seed = none;
}

ack_handler-Acks_example : Acks cents assoc crypto uuid (setting [] accepting) no_config connected (
    ack_handler cents assoc crypto uuid
      (setting [] accepting)
      no_config
      player
      cash_out_message
      true
      connected)
ack_handler-Acks_example =
    ack_handler-Acks cents assoc crypto uuid (setting [] accepting) no_config player
      cash_out_message connected

-- Without an action, or with one that is none, the player is told so.
no_action :
    let m : Message = record cash_out_message { action = some "" } in
    (ack_handler cents assoc crypto uuid (setting [] accepting) no_config player m true connected).1
    ≡ record connected { replies = refused "missing_action" ∷ [] }
unfolding ack_handler with_action
no_action = refl

abbrev agent_row : AgentRow
agent_row = record {
  agent_id = "op";
  cert = "c";
  agent_ip_address = "10.0.0.1";
  callback_url = "http://op";
  is_whitelisted = true;
  allowed_game_codes = none;
  created_by = "admin";
  updated_by = "admin";
}

abbrev socket : Socket assoc ℕ ℕ
socket = record {
  game = world;
  agents = ("op", agent_row) ∷ [];
  context = record { user_id = none; agent_id = none; game_code = none };
  events = [];
}

abbrev handshake : Handshake
handshake = record {
  game_mode = some "road";
  operator_id = some "op";
  authorization = some "a.b.c=4";
}

-- The only token that is valid, and the only user.
abbrev verify : String → Option TokenPayload
verify token = if str_eq token "a.b.c" then some (record { sub = "u"; agent_id = none }) else none

abbrev users : String → String → Option UserData
users user_id agent_id = some (record { username = some "Ulla"; avatar = none })

abbrev connects : Result (Unit {0}) × Socket assoc ℕ ℕ
connects =
    handle_connection cents assoc crypto uuid (setting [] accepting) (λ game_code. 7) verify users
      handshake socket

handle_connection-Passes_example :
    IsRefused cents assoc crypto uuid
      (setting [] accepting)
      (λ game_code. 7)
      verify
      users
      socket
      connects
    ⊎ Passes cents assoc crypto uuid
        (setting [] accepting)
        (λ game_code. 7)
        verify
        users
        handshake
        socket
handle_connection-Passes_example =
    handle_connection-Passes cents assoc crypto uuid (setting [] accepting) (λ game_code. 7) verify
      users handshake socket

-- The suffix of the token is taken off.
stripped : clean_token "a.b.c=4" ≡ "a.b.c"
unfolding count_dots strip_suffix
stripped = refl
