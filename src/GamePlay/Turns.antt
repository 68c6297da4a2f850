-- ===== src/GamePlay/Turns.antt =====
-- Any sequence of steps and cash-outs of a player.
use chicken_road_b.Base.{
  ℕ, String, Option, none, some, List, [], ◌∷◌, ◌≡◌, refl, inl, inr, ℤ, subst, Bool-cases, ◌∙◌, ap,
}
use chicken_road_b.Js.{Js}
use chicken_road_b.Stores.{Stores, Laws, session_get}
use chicken_road_b.Fairness.{Crypto}
use chicken_road_b.GamePlay.{GameSession, refusal, get_redis_key}
use chicken_road_b.GamePlay.Flows.{GameWorld, Setting, get_session}
use chicken_road_b.GamePlay.Requests.{
  perform_step_flow, perform_cash_out_flow, step_from, step_found, cash_out_found,
}
use chicken_road_b.GamePlay.Payout.{Closed, PaidOnce, step-PaidOnce, cash_out_flow-PaidOnce}

module _ {Num : Type 0} (js : Js Num) (st : Stores) (laws : Laws st) (crypto : Crypto)
    (uuid : ℕ → String) (at : Setting Num) where
  module _ (user agent game : String) where
    abbrev key : String
    key = get_redis_key user agent game

    -- When the round is over, a step or a cash-out changes nothing.
    pub step-Closed :
        (line : ℤ) (w : GameWorld st Num)
        → Closed st key w
        → (perform_step_flow js st crypto uuid at user agent game line w).1 ≡ w
    unfolding perform_step_flow get_session step_found refusal step_from
    step-Closed line w c = elim (Bool-cases (at.down session_get)) [
      | inl down ↦ rw down refl
      | inr up ↦ rw up (found (st.get (GameSession Num) w.sessions key) refl)
    ]
      where
        found :
            (o : Option (GameSession Num))
            → st.get (GameSession Num) w.sessions key ≡ o
            → (step_found js st crypto uuid at user agent game line o w).1 ≡ w
        found none e = refl
        found (some s) e = rw (c s e) refl

    pub cash_out-Closed :
        (w : GameWorld st Num)
        → Closed st key w
        → (perform_cash_out_flow js st crypto uuid at user agent game w).1 ≡ w
    unfolding perform_cash_out_flow get_session cash_out_found
    cash_out-Closed w c = elim (Bool-cases (at.down session_get)) [
      | inl down ↦ rw down refl
      | inr up ↦ rw up (found (st.get (GameSession Num) w.sessions key) refl)
    ]
      where
        found :
            (o : Option (GameSession Num))
            → st.get (GameSession Num) w.sessions key ≡ o
            → (cash_out_found js st crypto uuid at user agent game o w).1 ≡ w
        found none e = refl
        found (some s) e = rw (c s e) refl

-- A request of the player, with the setting it is run in.
pub data Turn (Num : Type 0) : Type 0 where
  steps_to : Setting Num → ℤ → Turn Num
  cashes_out : Setting Num → Turn Num

module _ {Num : Type 0} (js : Js Num) (st : Stores) (crypto : Crypto) (uuid : ℕ → String)
    (user agent game : String) where
  abbrev pub take_turn : Turn Num → GameWorld st Num → GameWorld st Num
  take_turn (steps_to at line) w = (perform_step_flow js st crypto uuid at user agent game line w).1
  take_turn (cashes_out at) w = (perform_cash_out_flow js st crypto uuid at user agent game w).1

  abbrev pub take_turns : List (Turn Num) → GameWorld st Num → GameWorld st Num
  take_turns [] w = w
  take_turns (t ∷ ts) w = take_turns ts (take_turn t w)

  module _ (laws : Laws st) where
    abbrev Over : GameWorld st Num → Type 0
    Over = Closed st (get_redis_key user agent game)

    turn-PaidOnce :
        (t : Turn Num) (w : GameWorld st Num)
        → PaidOnce st (get_redis_key user agent game) w.wallet.calls (take_turn t w)
    turn-PaidOnce (steps_to at line) w =
        step-PaidOnce js st laws crypto uuid at user agent game line w
    turn-PaidOnce (cashes_out at) w =
        cash_out_flow-PaidOnce js st laws crypto uuid at user agent game w

    turn-Closed : (t : Turn Num) (w : GameWorld st Num) → Over w → take_turn t w ≡ w
    turn-Closed (steps_to at line) w c =
        step-Closed js st laws crypto uuid at user agent game line w c
    turn-Closed (cashes_out at) w c = cash_out-Closed js st laws crypto uuid at user agent game w c

    turns-Closed : (ts : List (Turn Num)) (w : GameWorld st Num) → Over w → take_turns ts w ≡ w
    turns-Closed [] w c = refl
    turns-Closed (t ∷ ts) w c = ap (take_turns ts) (turn-Closed t w c) ∙ turns-Closed ts w c

    -- Whatever steps and cash-outs a player sends for a game, in whatever order, each with its
    -- own clock, hazards, failing calls and answers of the agent: over all of them the agent is
    -- asked to settle at most once, and once it has been asked there is no active session of
    -- the player in that game.
    pub turns-PaidOnce :
        (ts : List (Turn Num)) (w : GameWorld st Num)
        → PaidOnce st (get_redis_key user agent game) w.wallet.calls (take_turns ts w)
    turns-PaidOnce [] w = inl refl
    turns-PaidOnce (t ∷ ts) w = joined (turn-PaidOnce t w) (turns-PaidOnce ts (take_turn t w))
      where
        joined :
            PaidOnce st (get_redis_key user agent game) w.wallet.calls (take_turn t w)
            → PaidOnce st
                (get_redis_key user agent game)
                (take_turn t w).wallet.calls
                (take_turns ts (take_turn t w))
            → PaidOnce st
                (get_redis_key user agent game)
                w.wallet.calls
                (take_turns ts (take_turn t w))
        joined (inl e) rest =
            subst
              (λ l. PaidOnce st (get_redis_key user agent game) l (take_turns ts (take_turn t w))) e
              rest
        joined (inr (c, m)) rest = rw (turns-Closed ts (take_turn t w) c) (inr (c, m))
