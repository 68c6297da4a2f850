-- ===== src/Gateway/Guards.antt =====
-- A connection is refused, or all of its guards hold.
use chicken_road_b.Base.{
  ℕ, String, Bool, true, Option, none, some, [], ◌∷◌, ◌≡◌, ◌⊎◌, inl, inr, refl, sym, subst, ap,
  str_eq, if_truthy, or_text, ok, Result, Option-cases, Bool-cases, bind_run, Thrown, err,
  not_found, template, io_error, catching, pure, ◌∙◌, ◌>>=◌,
}
use chicken_road_b.Js.{Js}
use chicken_road_b.Stores.{Stores, game_find, agent_find}
use chicken_road_b.Games.{Game, get_game}
use chicken_road_b.Agents.{AgentRow, allows, AgentTables, has_game_access, find_one, access_of}
use chicken_road_b.Fairness.{Crypto}
use chicken_road_b.GamePlay.Flows.{Setting, on_games}
use chicken_road_b.Gateway.Connection.{
  Handshake, TokenPayload, UserData, connection_error, disconnected, Socket, clean_token,
  game_refusal, access_refusal, inactive, denied, in_game, in_agents, emit_and_disconnect,
  access_checked, game_checked, connect_as, connect_with, handle_connection,
}

module _ {Num Config : Type 0} (js : Js Num) (st : Stores) (crypto : Crypto) (uuid : ℕ → String)
    (at : Setting Num) (config : String → Config) (verify_token : String → Option TokenPayload)
    (find_user : String → String → Option UserData) where
  open at use {now, down}

  abbrev World : Type 0
  World = Socket st Num Config

  -- The game is there and active, and the agent may offer it.
  abbrev pub Playable : String → World → Type 0
  Playable code w =
      (g : Game) × (st.find Game w.game.games (λ g. str_eq g.game_code code) ≡ some g)
      × (g.is_active ≡ true)

  abbrev pub Offered : String → String → World → Type 0
  Offered agent code w =
      (a : AgentRow) × (st.get AgentRow w.agents agent ≡ some a)
      × (allows a.allowed_game_codes code ≡ true)

  -- One error and the end of the connection, and nothing else.
  abbrev pub IsRefused : World → Result (Unit {0}) × World → Type 0
  IsRefused w o =
      (o.0 ≡ ok tt)
      × (error : String) × (code : String) × (o.1.events
          ≡ disconnected ∷ connection_error error code ∷ w.events)

  -- What the lookup of a game gives.
  got_game :
      (code : String) (t : st.Of Game)
      → ((x : Thrown) × (get_game st down code t ≡ (err x, t)))
        ⊎ ((g : Game) × (st.find Game t (λ g. str_eq g.game_code code) ≡ some g)
            × (get_game st down code t ≡ (ok g, t)))
  unfolding get_game
  got_game code t = elim (Bool-cases (down game_find)) [
    | inl lost ↦ inl (io_error, rw lost refl)
    | inr up ↦ elim (Option-cases (st.find Game t (λ g. str_eq g.game_code code))) [
      | inl e ↦
          inl
            (not_found (template ("Game with code " ∷ code ∷ " not found" ∷ [])), rw up (rw e refl))
      | inr (g, e) ↦ inr (g, e, rw up (rw e refl))
    ]
  ]

  got_access :
      (agent code : String) (t : AgentTables st)
      → ((x : Thrown) × (has_game_access st down agent code t ≡ (err x, t)))
        ⊎ (has_game_access st down agent code t
            ≡ (ok (access_of st down code (st.get AgentRow t.agents agent)), t))
  unfolding has_game_access find_one
  got_access agent code t = elim (Bool-cases (down agent_find)) [
    | inl lost ↦ inl (io_error, rw lost refl)
    | inr up ↦ inr (rw up refl)
  ]

  module _ (code : String) (w : World) where
    abbrev after_game : Result Game × st.Of Game → Result (Option (String × String)) × World
    after_game o =
        catching
          (in_game js st crypto uuid at config verify_token find_user
              (on_games js st crypto uuid at (λ t. o))
            >>= λ g. pure (inactive g.is_active))
          (λ e. pure (some ("Game validation failed", "INVALID_GAME"))) w

    game_cases :
        ((r : String × String) × (game_refusal js st crypto uuid at config verify_token find_user
              code w
            ≡ (ok (some r), w)))
        ⊎ (Playable code w
            × (game_refusal js st crypto uuid at config verify_token find_user code w
                ≡ (ok none, w)))
    unfolding game_refusal
    game_cases = elim (got_game code w.game.games) [
      | inl (x, e) ↦ inl (("Game validation failed", "INVALID_GAME"), ap after_game e)
      | inr (g, there, e) ↦ elim (Bool-cases g.is_active) [
        | inl active ↦
            inr ((g, there, active), ap after_game e ∙ ap (λ b. (ok (inactive b), w)) active)
        | inr closed ↦ inl (_, ap after_game e ∙ ap (λ b. (ok (inactive b), w)) closed)
      ]
    ]

  module _ (agent code : String) (w : World) where
    abbrev tables : AgentTables st
    tables = record { agents = w.agents; games = w.game.games }

    abbrev after_access : Result Bool × AgentTables st → Result (Option (String × String)) × World
    after_access o =
        catching
          (in_agents js st crypto uuid at config verify_token find_user (λ t. o) >>= λ b.
            pure (denied b))
          (λ e. pure (some ("Agent access validation failed", "AGENT_NO_ACCESS"))) w

    access_cases :
        ((r : String × String) × (access_refusal js st crypto uuid at config verify_token find_user
              agent code w
            ≡ (ok (some r), w)))
        ⊎ (Offered agent code w
            × (access_refusal js st crypto uuid at config verify_token find_user agent code w
                ≡ (ok none, w)))
    unfolding access_refusal
    access_cases = elim (got_access agent code tables) [
      | inl (x, e) ↦ inl (("Agent access validation failed", "AGENT_NO_ACCESS"), ap after_access e)
      | inr e ↦ elim (Option-cases (st.get AgentRow w.agents agent)) [
        | inl gone ↦ inl (
          no_access,
          ap after_access e ∙ ap (λ o. (ok (denied (access_of st down code o)), w)) gone,
        )
        | inr (a, there) ↦ elim (Bool-cases (allows a.allowed_game_codes code)) [
          | inl allowed ↦ inr (
            (a, there, allowed),
            ap after_access e
                ∙ (ap (λ o. (ok (denied (access_of st down code o)), w)) there
                    ∙ ap (λ b. (ok (denied b), w)) allowed),
          )
          | inr not_allowed ↦ inl (
            no_access,
            ap after_access e
                ∙ (ap (λ o. (ok (denied (access_of st down code o)), w)) there
                    ∙ ap (λ b. (ok (denied b), w)) not_allowed),
          )
        ]
      ]
    ]
      where
        no_access : String × String
        no_access = ("Agent does not have access to this game", "AGENT_NO_ACCESS")

  refused :
      (error code : String) (w : World)
      → IsRefused w
          (emit_and_disconnect js st crypto uuid at config verify_token find_user error code w)
  unfolding emit_and_disconnect
  refused error code w = (refl, error, code, refl)

  -- The handshake is complete, its token is valid, and the game and the agent pass.
  abbrev pub Passes : Handshake → World → Type 0
  Passes h w =
      (code operator raw : String) × (p : TokenPayload) × (if_truthy h.game_mode ≡ some code)
      × (if_truthy h.operator_id ≡ some operator)
      × (if_truthy h.authorization ≡ some raw)
      × (verify_token (clean_token raw) ≡ some p)
      × Playable code w
      × Offered (or_text p.agent_id operator) code w

  access_passed :
      (code user agent : String) (w : World)
      → IsRefused w
          (game_checked js st crypto uuid at config verify_token find_user code user agent none w)
        ⊎ Offered agent code w
  unfolding game_checked access_checked
  access_passed code user agent w = elim (access_cases agent code w) [
    | inl (r, run) ↦ inl (
        subst (IsRefused w)
          (sym (
            bind_run (access_refusal js st crypto uuid at config verify_token find_user agent code)
              (access_checked js st crypto uuid at config verify_token find_user code user agent) w
              run))
          (refused r.0 r.1 w))
    | inr (offered, run) ↦ inr offered
  ]

  token_passed :
      (code operator : String) (p : TokenPayload) (w : World)
      → IsRefused w
          (connect_as js st crypto uuid at config verify_token find_user code operator (some p) w)
        ⊎ (Playable code w × Offered (or_text p.agent_id operator) code w)
  unfolding connect_as game_checked
  token_passed code operator p w = elim (game_cases code known) [
    | inl (r, run) ↦ inl (back (some r) run (refused r.0 r.1 known))
    | inr (playable, run) ↦ elim (access_passed code p.sub agent known) [
      | inl away ↦ inl (back none run away)
      | inr offered ↦ inr (playable, offered)
    ]
  ]
    where
      agent : String
      agent = or_text p.agent_id operator

      known : World
      known = record w {
        context = record { user_id = some p.sub; agent_id = some agent; game_code = some code };
      }

      back :
          (r : Option (String × String))
          → game_refusal js st crypto uuid at config verify_token find_user code known
            ≡ (ok r, known)
          → IsRefused w (
              game_checked js st crypto uuid at config verify_token find_user code p.sub agent r
                known)
          → IsRefused w (
              connect_as js st crypto uuid at config verify_token find_user code operator
                (some p)
                w)
      back r run away =
          subst (IsRefused w)
            (sym (
              bind_run (game_refusal js st crypto uuid at config verify_token find_user code)
                (game_checked js st crypto uuid at config verify_token find_user code p.sub agent)
                known run))
            away

  connects :
      (g o a : Option String) (w : World) (h : Handshake)
      → if_truthy h.game_mode ≡ g
      → if_truthy h.operator_id ≡ o
      → if_truthy h.authorization ≡ a
      → IsRefused w (connect_with js st crypto uuid at config verify_token find_user g o a w)
        ⊎ Passes h w
  unfolding connect_with connect_as
  connects none o a w h e f k = inl (refused _ _ w)
  connects (some g) none a w h e f k = inl (refused _ _ w)
  connects (some g) (some o) none w h e f k = inl (refused _ _ w)
  connects (some g) (some o) (some raw) w h e f k =
      elim (Option-cases (verify_token (clean_token raw))) [
        | inl bad ↦ inl (
            subst
              (λ t.
                IsRefused w (connect_as js st crypto uuid at config verify_token find_user g o t w))
              (sym bad) (refused _ _ w))
        | inr (p, good) ↦ elim (token_passed g o p w) [
          | inl away ↦ inl (
              subst
                (λ t.
                  IsRefused w
                    (connect_as js st crypto uuid at config verify_token find_user g o t w))
                (sym good) away)
          | inr (playable, offered) ↦ inr (g, o, raw, p, e, f, k, good, playable, offered)
        ]
      ]

  -- Whatever a client sends when it connects and whichever calls fail, either the connection is
  -- refused, with exactly one error, the end of the connection and no thrown error, or the
  -- handshake names a game and an operator and has a token that is valid once its suffix is
  -- taken off, the game exists and is active, and the agent of the token, or else the operator,
  -- is there and may offer the game.
  pub handle_connection-Passes :
      (h : Handshake) (w : World)
      → IsRefused w (handle_connection js st crypto uuid at config verify_token find_user h w)
        ⊎ Passes h w
  unfolding handle_connection
  handle_connection-Passes h w =
      connects (if_truthy h.game_mode) (if_truthy h.operator_id) (if_truthy h.authorization) w h
        refl refl refl
