-- ===== src/GamePlay/Answers.antt =====
-- What the agent has been asked, and what the player is told, when a request is answered.
use chicken_road_b.Base.{
  ℕ, String, true, false, Option, none, some, List, ◌∷◌, ◌≡◌, refl, ℤ, then-Keeps, throw_if-Keeps,
  modify-Keeps, Yields, bind-Yields, then-Yields, rethrow-Yields, pure-Yields, Keeps-Yields,
  is_truthy, ◌&&◌, ok, ap, ◌∙◌, Bool-cases, inl, inr, err, Thrown, sym,
}
use chicken_road_b.Js.{Js}
use chicken_road_b.Stores.{Stores, session_get}
use chicken_road_b.Games.{GamePayloads, get_game_payloads}
use chicken_road_b.Fairness.{Crypto}
use chicken_road_b.Wallet.{WalletCall, settle_call}
use chicken_road_b.Wallet.Settle.{settle_accepted}
use chicken_road_b.Wallet.Operations.{settle_bet_call}
use chicken_road_b.GamePlay.{
  GameSession, EndReason, cashout, Answer, responds, refusal, get_redis_key, advance, multiplier,
  send_step_response,
}
use chicken_road_b.GamePlay.Flows.{
  GameWorld, Setting, get_session, set_session, settle, on_games, on_wallet,
}
use chicken_road_b.GamePlay.Requests.{
  perform_step_flow, perform_cash_out_flow, finish, take_step, step_from, cash_out, cashed,
  settlement_amount, step_found, cash_out_found, shown_multiplier, collided, hazards_missed,
}
use chicken_road_b.GamePlay.Frames.{Robust, games-Keeps, settled-Keeps}
use chicken_road_b.GamePlay.Steps.{advance_same}

module _ {Num : Type 0} (js : Js Num) (st : Stores) (crypto : Crypto) (uuid : ℕ → String)
    (at : Setting Num) where
  abbrev Asked : List (WalletCall Num) → GameWorld st Num → Type 0
  Asked calls w = w.wallet.calls ≡ calls

  Asked-Robust : (calls : List (WalletCall Num)) → Robust st (Asked calls)
  Asked-Robust calls = record { other = λ w w' _ f e. f ∙ e; deleted = λ key w e. e }

  abbrev asking : String → GameSession Num → Num → WalletCall Num
  asking user s amount = settle_call s.platform_bet_tx_id user amount s.bet_amount s.round_id

  set-Yields :
      {calls : List (WalletCall Num)} (key : String) (s : GameSession Num)
      → Yields (Asked calls) (λ _. Asked calls) (set_session js st crypto uuid at key s)
  unfolding set_session
  set-Yields key s = Keeps-Yields (search (then-Keeps, throw_if-Keeps, modify-Keeps))

  games-Yields :
      {calls : List (WalletCall Num)} (game : String)
      → Yields
          (Asked calls)
          (λ _. Asked calls)
          (on_games js st crypto uuid at (get_game_payloads st at.down game))
  games-Yields game =
      Keeps-Yields
        (games-Keeps js st crypto uuid at (Asked-Robust _) (get_game_payloads st at.down game))

  settle-Yields :
      {calls : List (WalletCall Num)} (user agent key : String) (s : GameSession Num) (amount : Num)
      (payloads : GamePayloads)
      → Yields
          (Asked calls)
          (λ _. Asked (asking user s amount ∷ calls))
          (settle js st crypto uuid at user agent key s amount payloads)
  unfolding settle
  settle-Yields {calls} user agent key s amount payloads = rethrow-Yields _ (
      bind-Yields (λ _. Asked (asking user s amount ∷ calls)) told
        (λ a.
          Keeps-Yields
            (settled-Keeps js st crypto uuid at (Asked-Robust _) user agent key s amount a)))
    where
      told :
          Yields
            (Asked calls)
            (λ _. Asked (asking user s amount ∷ calls))
            (on_wallet js st crypto uuid at (
              settle_bet_call js st at.down uuid at.reply at.now at.request_id s.agent_id
                s.platform_bet_tx_id user amount s.round_id s.bet_amount payloads))
      told = record {
        out = λ w a p e.
            (settle_accepted js st at.down uuid at.now at.reply at.request_id s.agent_id
              s.platform_bet_tx_id user amount s.round_id s.bet_amount payloads w.wallet e).3
            ∙ ap (λ l. asking user s amount ∷ l) p;
      }

  cash_out-Yields :
      {calls : List (WalletCall Num)} (user agent game : String) (s : GameSession Num)
      → Yields
          (Asked calls)
          (λ a w.
            Asked (asking user s s.win_amount ∷ calls) w
            × (a
                ≡ responds (
                    send_step_response js s.is_active s.is_win s.current_step s.win_amount
                      s.bet_amount
                      (multiplier js s)
                      s.difficulty
                      s.currency
                      (some cashout)
                      (some (at.hazards game s.difficulty)))))
          (cash_out js st crypto uuid at user agent game s)
  unfolding cash_out
  cash_out-Yields {calls} user agent game s =
      then-Yields (Asked calls) (set-Yields (get_redis_key user agent game) s) (
        bind-Yields (λ _. Asked calls) (games-Yields game)
          (λ payloads.
            then-Yields (Asked (asking user s s.win_amount ∷ calls))
              (settle-Yields user agent (get_redis_key user agent game) s s.win_amount payloads)
              (then-Yields (Asked (asking user s s.win_amount ∷ calls))
                (Keeps-Yields (throw_if-Keeps _ _)) (pure-Yields (λ w e. (e, refl))))))

  -- What a step that has moved the session asks for: the amount won, or nothing on a hazard.
  abbrev pub asked_by :
      String → GameSession Num → Option EndReason → List (WalletCall Num) → List (WalletCall Num)
  asked_by user s none calls = calls
  asked_by user s (some r) calls =
      asking user s (settlement_amount js st crypto uuid at r s.win_amount) ∷ calls

  finish-Yields :
      {calls : List (WalletCall Num)} (user agent key : String) (s : GameSession Num)
      (r : Option EndReason) (payloads : GamePayloads)
      → Yields
          (Asked calls)
          (λ _. Asked (asked_by user s r calls))
          (finish js st crypto uuid at user agent key s r payloads)
  unfolding finish
  finish-Yields user agent key s none payloads = pure-Yields (λ w e. e)
  finish-Yields user agent key s (some r) payloads = settle-Yields user agent key s _ payloads

  take_step-Yields :
      {calls : List (WalletCall Num)} (user agent game : String) (s : GameSession Num)
      (r : Option EndReason)
      → is_truthy s.platform_bet_tx_id && is_truthy s.round_id ≡ true
      → Yields
          (Asked calls)
          (λ a w.
            Asked (asked_by user s r calls) w
            × (a
                ≡ responds (
                    send_step_response js s.is_active s.is_win s.current_step s.win_amount
                      s.bet_amount
                      (shown_multiplier js st crypto uuid at s r)
                      s.difficulty
                      s.currency
                      r
                      (collided js st crypto uuid at r (at.hazards game s.difficulty)))))
          (take_step js st crypto uuid at user agent game s r)
  unfolding take_step
  take_step-Yields {calls} user agent game s r good = rw good (
      then-Yields (Asked calls) (set-Yields (get_redis_key user agent game) s) (
        bind-Yields (λ _. Asked calls) (games-Yields game)
          (λ payloads.
            then-Yields (Asked (asked_by user s r calls))
              (finish-Yields user agent (get_redis_key user agent game) s r payloads)
              (pure-Yields (λ w e. (e, refl))))))

  module _ (user agent game : String) (w : GameWorld st Num) where
    abbrev stored : Option (GameSession Num)
    stored = st.get (GameSession Num) w.sessions (get_redis_key user agent game)

    -- If there is an active session and a cash-out is answered without an error, the agent has
    -- been asked once, to pay the session's win amount for its transaction and round, and the
    -- answer says that the round is finished with that amount.
    pub cash_out_pays :
        (s : GameSession Num) (a : Answer)
        → stored ≡ some s
        → s.is_active ≡ true
        → (perform_cash_out_flow js st crypto uuid at user agent game w).0 ≡ ok a
        → ((perform_cash_out_flow js st crypto uuid at user agent game w).1.wallet.calls
            ≡ settle_call s.platform_bet_tx_id user s.win_amount s.bet_amount s.round_id
              ∷ w.wallet.calls)
          × (a
              ≡ responds (
                  send_step_response js false true s.current_step s.win_amount s.bet_amount
                    (multiplier js s)
                    s.difficulty
                    s.currency
                    (some cashout)
                    (some (at.hazards game s.difficulty))))
    unfolding perform_cash_out_flow get_session cash_out_found
    cash_out_pays s a e active o = elim (Bool-cases (at.down session_get)) [
      | inl down ↦ absurd (thrown (rw down at o))
      | inr up ↦
          rw (up, e, active)
            ((cash_out-Yields user agent game (cashed js st crypto uuid at s)).out w a refl
              (rw (up, e, active) at o))
    ]
      where
        thrown : {x : Thrown} {b : Answer} → err x ≡ ok b → ⊥
        thrown q = cc

    step_run :
        (line : ℤ) (s : GameSession Num) (a : Answer)
        → stored ≡ some s
        → refusal js (some s) line ≡ none
        → (perform_step_flow js st crypto uuid at user agent game line w).0 ≡ ok a
        → (at.down session_get ≡ false)
          × (perform_step_flow js st crypto uuid at user agent game line w ≡ (
              let (s', r) = advance js (at.hazards game s.difficulty) line s in
              take_step js st crypto uuid at user agent game s' r w))
    unfolding perform_step_flow get_session step_found step_from
    step_run line s a e accepted o = elim (Bool-cases (at.down session_get)) [
      | inl down ↦ absurd (thrown (rw down at o))
      | inr up ↦ elim (Bool-cases (hazards_missed js st crypto uuid at line s)) [
        | inl off ↦ absurd (thrown (rw (up, e, accepted, off) at o))
        | inr shown ↦ (up, rw (up, e, step_found, accepted, shown) refl)
      ]
    ]
      where
        thrown : {x : Thrown} {b : Answer} → err x ≡ ok b → ⊥
        thrown q = cc

    -- The same of a step, in terms of the session that it moves.
    pub step_paid :
        (line : ℤ) (s : GameSession Num) (a : Answer)
        → stored ≡ some s
        → refusal js (some s) line ≡ none
        → is_truthy s.platform_bet_tx_id && is_truthy s.round_id ≡ true
        → (perform_step_flow js st crypto uuid at user agent game line w).0 ≡ ok a
        → let (s', r) = advance js (at.hazards game s.difficulty) line s in
          ((perform_step_flow js st crypto uuid at user agent game line w).1.wallet.calls
            ≡ asked_by user s' r w.wallet.calls)
          × (a
              ≡ responds (
                  send_step_response js s'.is_active s'.is_win s'.current_step s'.win_amount
                    s'.bet_amount
                    (shown_multiplier js st crypto uuid at s' r)
                    s'.difficulty
                    s'.currency
                    r
                    (collided js st crypto uuid at r (at.hazards game s'.difficulty))))
    step_paid line s a e accepted good o =
        let (s', r) = advance js (at.hazards game s.difficulty) line s in
        let (tx, round) = advance_same js (at.hazards game s.difficulty) s line in
        let (up, run) = step_run line s a e accepted o in
        rw run (
          (take_step-Yields user agent game s' r (rw (tx, round) good)).out w a refl
            (sym (ap (λ x. x.0) run) ∙ o))
