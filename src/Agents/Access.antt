-- ===== src/Agents/Access.antt =====
-- Which games an agent may offer after one was added.
use chicken_road_b.Base.{
  String, false, ◌||◌, some, List, [], ◌∷◌, ◌++◌, ◌≡◌, refl, ap, ◌∙◌, arith, str_eq, includes_text,
  or_else, ok, Ends, pure-Ends, bind-Ends, then-Ends, or_throw-Ends, weaken-Ends, template,
  not_found, eq_refl,
}
use chicken_road_b.Stores.{Stores, Laws, Outage, agent_find, agent_save, game_find}
use chicken_road_b.Games.{Game, get_game}
use chicken_road_b.Agents.{
  AgentRow, AgentTables, allows, find_one, save_agent, on_games, access_of, has_game_access,
  with_game, add_game_access,
}

includes-append :
    (x y : String) (l : List String)
    → includes_text x (l ++ y ∷ []) ≡ (str_eq y x || includes_text x l)
includes-append x y [] = ground arith
includes-append x y (z ∷ l) = grind (arith, includes-append x y l)

allows-append :
    (x y : String) (l : List String)
    → allows (some (l ++ y ∷ [])) x ≡ (str_eq y x || includes_text x l)
unfolding allows
allows-append x y [] = ground arith
allows-append x y (z ∷ l) = includes-append x y (z ∷ l)

module _ (st : Stores) (laws : Laws st) (down : Outage) where
  found-Ends :
      (id : String) (w : AgentTables st)
      → down agent_find ≡ false
      → Ends (find_one st down id) w (λ o w'. (o ≡ st.get AgentRow w.agents id) × (w' ≡ w))
  unfolding find_one
  found-Ends id w up = rw up (record { value = _; after = w; run = refl; post = (refl, refl) })

  saved-Ends :
      (a : AgentRow) (w : AgentTables st)
      → down agent_save ≡ false
      → Ends
          (save_agent st down a)
          w
          (λ b w'. (b ≡ a) × (w'.agents ≡ st.put AgentRow w.agents a.agent_id a))
  unfolding save_agent
  saved-Ends a w up = rw up (record { value = a; after = _; run = refl; post = (refl, refl) })

  game-Ends :
      (code : String) (g : Game) (t : st.Of Game)
      → down game_find ≡ false
      → st.find Game t (λ g. str_eq g.game_code code) ≡ some g
      → get_game st down code t ≡ (ok g, t)
  unfolding get_game
  game-Ends code g t up e = rw up (rw e refl)

  has-Ends :
      (id code : String) (w : AgentTables st) (a : AgentRow)
      → down agent_find ≡ false
      → st.get AgentRow w.agents id ≡ some a
      → Ends (has_game_access st down id code) w (λ b w'. b ≡ allows a.allowed_game_codes code)
  unfolding has_game_access
  has-Ends id code w a up e =
      bind-Ends (found-Ends id w up)
        (λ o s (f, g). pure-Ends (access_of st down code o) s (ap (access_of st down code) (f ∙ e)))

  module _ (id code other : String) (w : AgentTables st) (a : AgentRow) (g : Game)
      (read : down agent_find ≡ false) (write : down agent_save ≡ false)
      (games : down game_find ≡ false) (keyed : a.agent_id ≡ id)
      (there : st.get AgentRow w.agents id ≡ some a)
      (game : st.find Game w.games (λ g. str_eq g.game_code code) ≡ some g) where
    abbrev Added : AgentRow → AgentTables st → Type 0
    Added b w' = st.get AgentRow w'.agents id ≡ some (with_game st down code a)

    known_game : Ends (on_games st down (get_game st down code)) w (λ x w'. w' ≡ w)
    known_game = record {
      value = g;
      after = w;
      run = ap (λ o. (o.0, record w { games = o.1 })) (game-Ends code g w.games games game);
      post = refl;
    }

    Added-Ends : Ends (add_game_access st down id code) w Added
    unfolding add_game_access
    Added-Ends = then-Ends known_game (λ x w1 e1.
        bind-Ends (found-Ends id w1 read) (λ o w2 (e2, h2).
          bind-Ends
            (or_throw-Ends o (not_found (template ("Agent with id " ∷ id ∷ " not found" ∷ []))) w2
              {a = a} (e2 ∙ (ap (λ w. st.get AgentRow w.agents id) e1 ∙ there)) refl)
            (λ b w3 e3.
              weaken-Ends (stored b w3 e3) (saved-Ends (with_game st down code b) w3 write))))
      where
        stored :
            (b : AgentRow) (w3 : AgentTables st)
            → b ≡ a
            → (c : AgentRow) (w' : AgentTables st)
            → (c ≡ with_game st down code b)
              × (w'.agents ≡ st.put AgentRow w3.agents b.agent_id (with_game st down code b))
            → Added c w'
        stored b w3 e3 c w' (h, t) =
            ap (λ m. st.get AgentRow m id) t
            ∙ (laws.get-put AgentRow w3.agents b.agent_id (with_game st down code b) id
                ∙ rw (e3, keyed, eq_refl id) refl)

    -- If the tables of agents and games can be read and the agent's row written, the game
    -- exists and the agent's row is there under its own id, then giving the agent access to the
    -- game ends without an error, and afterwards the agent has access to a game exactly if it
    -- is that one or stood in the list before; in particular an agent without a list, which had
    -- access to every game, has access to that one alone.
    pub add_game_access_lem : Ends (add_game_access st down id code) w (λ b w'.
        Ends (has_game_access st down id other) w' (λ allowed w''.
          allowed ≡ (str_eq code other || includes_text other (or_else a.allowed_game_codes []))))
    add_game_access_lem =
        weaken-Ends
          (λ b w' added.
            weaken-Ends
              (λ allowed w'' e. e ∙ allows-append other code (or_else a.allowed_game_codes []))
              (has-Ends id other w' (with_game st down code a) read added))
          Added-Ends
