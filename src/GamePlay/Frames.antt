-- ===== src/GamePlay/Frames.antt =====
-- What a settlement can change of a property that reads the sessions and the agent's calls.
use chicken_road_b.Base.{
  ℕ, String, Option, ◌≡◌, refl, Action, Keeps, Keeps-by, bind-Keeps, then-Keeps, if-Keeps,
  or_throw-Keeps, pure-Keeps, quietly-Keeps, throw-Keeps, throw_if-Keeps, modify-Keeps, after_bind,
  after_catching, throw, plain_error, ◌>>=◌,
}
use chicken_road_b.Js.{Js}
use chicken_road_b.Stores.{Stores}
use chicken_road_b.Bets.{Bet}
use chicken_road_b.Games.{Game, GamePayloads}
use chicken_road_b.Fairness.{Crypto, Seeds}
use chicken_road_b.Wallet.{AgentResponse, on_bets}
use chicken_road_b.Wallet.Operations.{settle_bet_call}
use chicken_road_b.GamePlay.{GameSession}
use chicken_road_b.GamePlay.Flows.{
  GameWorld, Setting, del_session, settle, settled, generate_fairness_data, on_wallet, on_seeds,
  on_games,
}

-- A property that no other part of the world matters to, and that holds on when a session goes.
pub record Robust (st : Stores) {Num : Type 0} (P : GameWorld st Num → Type 0) : Type 0 where
  pub other :
      (w w' : GameWorld st Num)
      → w'.sessions ≡ w.sessions
      → w'.wallet.calls ≡ w.wallet.calls
      → P w
      → P w'
  pub deleted :
      (key : String) (w : GameWorld st Num)
      → P w
      → P (record w { sessions = st.del (GameSession Num) w.sessions key })

module _ {Num : Type 0} (js : Js Num) (st : Stores) (crypto : Crypto) (uuid : ℕ → String)
    (at : Setting Num) {P : GameWorld st Num → Type 0} (robust : Robust st P) where
  seeds-Keeps : {A : Type 0} (m : Action (Seeds st) A) → Keeps P (on_seeds js st crypto uuid at m)
  seeds-Keeps m = Keeps-by (λ w p. robust.other w _ refl refl p)

  pub games-Keeps :
      {A : Type 0} (m : Action (st.Of Game) A) → Keeps P (on_games js st crypto uuid at m)
  games-Keeps m = Keeps-by (λ w p. robust.other w _ refl refl p)

  bets-Keeps :
      {A : Type 0} (m : Action (st.Of Bet) A)
      → Keeps P (on_wallet js st crypto uuid at (on_bets js st at.down uuid m))
  bets-Keeps m = Keeps-by (λ w p. robust.other w _ refl refl p)

  fairness_data-Keeps :
      (u v : Option String) (r : String)
      → Keeps P (generate_fairness_data js st crypto uuid at u v r)
  unfolding generate_fairness_data
  fairness_data-Keeps u v r = search (if-Keeps, bind-Keeps, or_throw-Keeps, pure-Keeps, seeds-Keeps)

  del_session-Keeps : (key : String) → Keeps P (del_session js st crypto uuid at key)
  unfolding del_session
  del_session-Keeps key = search (then-Keeps, throw_if-Keeps, modify-Keeps, robust.deleted key)

  pub settled-Keeps :
      (user_id agent_id key : String) (s : GameSession Num) (amount : Num)
      (told : AgentResponse Num)
      → Keeps P (settled js st crypto uuid at user_id agent_id key s amount told)
  unfolding settled
  settled-Keeps user_id agent_id key s amount told = search (
    bind-Keeps, then-Keeps, fairness_data-Keeps, bets-Keeps, quietly-Keeps, seeds-Keeps,
    del_session-Keeps,
  )

  -- What holds once the agent has answered holds at the end of the settlement.
  pub settle_after :
      (user_id agent_id key : String) (s : GameSession Num) (amount : Num) (payloads : GamePayloads)
      (w : GameWorld st Num)
      → P
          (on_wallet js st crypto uuid at
            (settle_bet_call js st at.down uuid at.reply at.now at.request_id s.agent_id
              s.platform_bet_tx_id user_id amount s.round_id s.bet_amount payloads)
            w).1
      → P (settle js st crypto uuid at user_id agent_id key s amount payloads w).1
  unfolding settle
  settle_after user_id agent_id key s amount payloads w p =
      let told =
        settle_bet_call js st at.down uuid at.reply at.now at.request_id s.agent_id
          s.platform_bet_tx_id user_id amount s.round_id s.bet_amount payloads in
      after_catching {P = P}
        (on_wallet js st crypto uuid at told
          >>= settled js st crypto uuid at user_id agent_id key s amount)
        (λ e. throw (plain_error "settlement_failed Please contact support")) w
        (after_bind {P = P} (on_wallet js st crypto uuid at told)
          (settled js st crypto uuid at user_id agent_id key s amount) w p
          (settled-Keeps user_id agent_id key s amount))
        (λ e. throw-Keeps)

  -- A property that does not read the calls either.
  pub settle-Keeps :
      ((w w' : GameWorld st Num) → w'.sessions ≡ w.sessions → P w → P w')
      → (user_id agent_id key : String) (s : GameSession Num) (amount : Num)
        (payloads : GamePayloads)
      → Keeps P (settle js st crypto uuid at user_id agent_id key s amount payloads)
  settle-Keeps reads user_id agent_id key s amount payloads =
      Keeps-by (λ w p. settle_after user_id agent_id key s amount payloads w (reads w _ refl p))
