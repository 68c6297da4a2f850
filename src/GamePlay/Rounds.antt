-- ===== src/GamePlay/Rounds.antt =====
-- Every session that the flows store is one of a round.
use chicken_road_b.Base.{
  ℕ, String, Bool, true, false, Option, none, some, List, [], ◌∷◌, ◌≡◌, refl, ℤ, Action, sym, subst,
  arith, Keeps, Keeps-by, bind-Keeps, then-Keeps, if-Keeps, pure-Keeps, throw_if-Keeps,
  modify-Keeps, finally-Keeps, is_some, ◌||◌, Bool-cases, inl, inr, pure, ◌>>=◌, if◌then◌else◌,
}
use chicken_road_b.Js.{Js}
use chicken_road_b.Stores.{Stores, Laws, session_get, lock_set, lock_del}
use chicken_road_b.Stores.Every.{Every, put-Every, del-Every}
use chicken_road_b.Games.{Game, GamePayloads}
use chicken_road_b.Fairness.{Crypto, Seeds, FairnessData}
use chicken_road_b.Wallet.{AgentResponse, WalletWorld}
use chicken_road_b.GamePlay.{GameSession, EndReason, refuses, BetPayload, refusal}
use chicken_road_b.GamePlay.Flows.{
  GameWorld, Setting, get_session, set_session, settle, acquire_lock, release_lock, new_session,
  on_wallet, on_seeds, on_games,
}
use chicken_road_b.GamePlay.Requests.{
  perform_bet_flow, perform_step_flow, perform_cash_out_flow, bet_locked, place, store_placement,
  open_session, finish, take_step, step_from, cash_out, cashed, step_found, cash_out_found,
  bet_acquired, placed,
}
use chicken_road_b.GamePlay.Frames.{Robust, settle-Keeps}
use chicken_road_b.GamePlay.Steps.{IsRound, opened, advance-IsRound, cashed-IsRound}

module _ {Num : Type 0} (js : Js Num) (st : Stores) (laws : Laws st) where
  abbrev pub AllRounds : GameWorld st Num → Type 0
  AllRounds w = Every st laws (IsRound js) w.sessions

  reads : (w w' : GameWorld st Num) → w'.sessions ≡ w.sessions → AllRounds w → AllRounds w'
  reads w w' e h = subst (Every st laws (IsRound js)) (sym e) h

  AllRounds-Robust : Robust st AllRounds
  AllRounds-Robust = record {
    other = λ w w' e _ h. reads w w' e h;
    deleted = λ key w h. del-Every st laws (IsRound js) w.sessions key h;
  }

  module _ (crypto : Crypto) (uuid : ℕ → String) (at : Setting Num) where
    any_wallet :
        {A : Type 0} (m : Action (WalletWorld st Num) A)
        → Keeps AllRounds (on_wallet js st crypto uuid at m)
    any_wallet m = Keeps-by (λ w h. h)

    any_seeds :
        {A : Type 0} (m : Action (Seeds st) A) → Keeps AllRounds (on_seeds js st crypto uuid at m)
    any_seeds m = Keeps-by (λ w h. h)

    any_games :
        {A : Type 0} (m : Action (st.Of Game) A) → Keeps AllRounds (on_games js st crypto uuid at m)
    any_games m = Keeps-by (λ w h. h)

    put_round :
        (key : String) (s : GameSession Num)
        → IsRound js s
        → (w : GameWorld st Num) → AllRounds w
        → AllRounds (record w { sessions = st.put (GameSession Num) w.sessions key s })
    put_round key s r w = put-Every st laws (IsRound js) w.sessions key s r

    set-AllRounds :
        (key : String) (s : GameSession Num)
        → IsRound js s
        → Keeps AllRounds (set_session js st crypto uuid at key s)
    unfolding set_session
    set-AllRounds key s r = search (then-Keeps, throw_if-Keeps, modify-Keeps, put_round key s r)

    settle-AllRounds :
        (user agent key : String) (s : GameSession Num) (amount : Num) (payloads : GamePayloads)
        → Keeps AllRounds (settle js st crypto uuid at user agent key s amount payloads)
    settle-AllRounds = settle-Keeps js st crypto uuid at AllRounds-Robust reads

    finish-AllRounds :
        (user agent key : String) (s : GameSession Num) (r : Option EndReason)
        (payloads : GamePayloads)
        → Keeps AllRounds (finish js st crypto uuid at user agent key s r payloads)
    unfolding finish
    finish-AllRounds user agent key s none payloads = pure-Keeps
    finish-AllRounds user agent key s (some r) payloads =
        settle-AllRounds user agent key s _ payloads

    take_step-AllRounds :
        (user agent game : String) (s : GameSession Num) (r : Option EndReason)
        → IsRound js s
        → Keeps AllRounds (take_step js st crypto uuid at user agent game s r)
    unfolding take_step
    take_step-AllRounds user agent game s r round =
        search
          (if-Keeps, then-Keeps, bind-Keeps, pure-Keeps, any_games, finish-AllRounds, set-AllRounds)

    cash_out-AllRounds :
        (user agent game : String) (s : GameSession Num)
        → IsRound js s
        → Keeps AllRounds (cash_out js st crypto uuid at user agent game s)
    unfolding cash_out
    cash_out-AllRounds user agent game s round = search (
      then-Keeps, bind-Keeps, pure-Keeps, throw_if-Keeps, any_games, settle-AllRounds,
      set-AllRounds,
    )

    store_placement-AllRounds :
        (user agent code : String) (bet : Num) (dto : BetPayload) (told : AgentResponse Num)
        → Keeps AllRounds (store_placement js st crypto uuid at user agent code bet dto told)
    unfolding store_placement
    store_placement-AllRounds user agent code bet dto told = Keeps-by (λ w. (stored w.games).run w)
      where
        stored :
            (games : st.Of Game)
            → Keeps AllRounds (placed js st crypto uuid at user agent code bet dto told games)
        stored games = search (then-Keeps, pure-Keeps, any_wallet)

    open_session-AllRounds :
        (user agent game : String) (bet : Num) (dto : BetPayload) (l : List String)
        → Keeps AllRounds (open_session js st crypto uuid at user agent game bet dto l)
    unfolding open_session
    open_session-AllRounds user agent game bet dto [] = pure-Keeps
    open_session-AllRounds user agent game bet dto (c ∷ cs) =
        search (bind-Keeps, then-Keeps, pure-Keeps, any_seeds, set-AllRounds, new_round)
      where
        new_round :
            (d : FairnessData)
            → IsRound js (
                new_session js st crypto uuid at user agent game bet dto
                  (at.to_upper_case dto.currency)
                  (c ∷ cs)
                  d)
        new_round d = opened refl refl refl refl (omega arith)

    place-AllRounds :
        (user agent game : String) (bet : Num) (dto : BetPayload)
        → Keeps AllRounds (place js st crypto uuid at user agent game bet dto)
    unfolding place
    place-AllRounds user agent game bet dto = search (
      bind-Keeps, then-Keeps, if-Keeps, pure-Keeps, any_games, any_wallet,
      store_placement-AllRounds, open_session-AllRounds,
    )

    -- Reading a session, and what is done with it.
    after_get :
        {A : Type 0} (key : String) (f : Option (GameSession Num) → Action (GameWorld st Num) A)
        → Keeps AllRounds (f none)
        → ((s : GameSession Num) → IsRound js s → Keeps AllRounds (f (some s)))
        → Keeps AllRounds (get_session js st crypto uuid at key >>= f)
    unfolding get_session
    after_get key f k l = Keeps-by (λ w h. elim (Bool-cases (at.down session_get)) [
      | inl down ↦ rw down h
      | inr up ↦ rw up (go w h (st.get (GameSession Num) w.sessions key) refl)
    ])
      where
        go :
            (w : GameWorld st Num) (h : AllRounds w) (o : Option (GameSession Num))
            → st.get (GameSession Num) w.sessions key ≡ o
            → AllRounds (f o w).1
        go w h none e = k.run w h
        go w h (some s) e = (l s (h key s e)).run w h

    bet_locked-AllRounds :
        (user agent game : String) (incoming : Option BetPayload)
        → Keeps AllRounds (bet_locked js st crypto uuid at user agent game incoming)
    unfolding bet_locked
    bet_locked-AllRounds user agent game none = search (after_get, if-Keeps, pure-Keeps)
    bet_locked-AllRounds user agent game (some dto) =
        search (after_get, if-Keeps, pure-Keeps, place-AllRounds)

    acquire-AllRounds : (key : String) → Keeps AllRounds (acquire_lock js st crypto uuid at key)
    unfolding acquire_lock
    acquire-AllRounds key = Keeps-by (λ w h.
        elim (Bool-cases (at.down lock_set || is_some (st.get String w.locks key))) [
          | inl held ↦ rw held h
          | inr free ↦ rw free h
        ])

    release-AllRounds :
        (key : String) (w : GameWorld st Num)
        → AllRounds w
        → AllRounds (release_lock js st crypto uuid at key w)
    unfolding release_lock
    release-AllRounds key w h = elim (Bool-cases (at.down lock_del)) [
      | inl down ↦ rw down h
      | inr up ↦ rw up h
    ]

    acquired-AllRounds :
        (user agent game : String) (incoming : Option BetPayload) (b : Bool)
        → Keeps AllRounds (bet_acquired js st crypto uuid at user agent game incoming b)
    unfolding bet_acquired
    acquired-AllRounds user agent game incoming true =
        search (finally-Keeps, release-AllRounds, bet_locked-AllRounds)
    acquired-AllRounds user agent game incoming false = pure-Keeps

    pub perform_bet_flow-AllRounds :
        (user agent game : String) (incoming : Option BetPayload)
        → Keeps AllRounds (perform_bet_flow js st crypto uuid at user agent game incoming)
    unfolding perform_bet_flow
    perform_bet_flow-AllRounds user agent game incoming =
        search (bind-Keeps, acquire-AllRounds, acquired-AllRounds)

    step_from-AllRounds :
        (user agent game : String) (line : ℤ) (s : GameSession Num) (o : Option String)
        → IsRound js s
        → refusal js (some s) line ≡ o
        → Keeps AllRounds (step_from js st crypto uuid at user agent game line s o)
    unfolding step_from
    step_from-AllRounds user agent game line s (some reason) r e = pure-Keeps
    step_from-AllRounds user agent game line s none r e = then-Keeps (throw_if-Keeps _ _) (
        take_step-AllRounds user agent game _ _
          (advance-IsRound js (at.hazards game s.difficulty) s line r e))

    pub perform_step_flow-AllRounds :
        (user agent game : String) (line : ℤ)
        → Keeps AllRounds (perform_step_flow js st crypto uuid at user agent game line)
    unfolding perform_step_flow step_found
    perform_step_flow-AllRounds user agent game line = search (after_get, pure-Keeps, from)
      where
        from :
            (s : GameSession Num)
            → IsRound js s
            → Keeps AllRounds
                (step_from js st crypto uuid at user agent game line s (refusal js (some s) line))
        from s r = step_from-AllRounds user agent game line s _ r refl

    pub perform_cash_out_flow-AllRounds :
        (user agent game : String)
        → Keeps AllRounds (perform_cash_out_flow js st crypto uuid at user agent game)
    unfolding perform_cash_out_flow cash_out_found
    perform_cash_out_flow-AllRounds user agent game = search (after_get, pure-Keeps, from)
      where
        from :
            (s : GameSession Num)
            → IsRound js s
            → Keeps AllRounds (
                if s.is_active
                then cash_out js st crypto uuid at user agent game (cashed js st crypto uuid at s)
                else pure (refuses "no_active_session"))
        from s r = elim (Bool-cases s.is_active) [
          | inl active ↦
              rw active (cash_out-AllRounds user agent game _ (cashed-IsRound js s r active))
          | inr done ↦ rw done pure-Keeps
        ]

    -- If every stored session is in a state of a round (bet placed and nothing walked yet, on a
    -- column before the last with that column's amount, paid, or lost with nothing won on a
    -- column that is a hazard), then this holds after a bet, after a step and after a cash-out,
    -- whatever calls fail and whatever the agent answers.
    pub requests-AllRounds :
        (user agent game : String) (incoming : Option BetPayload) (line : ℤ) (w : GameWorld st Num)
        → AllRounds w
        → AllRounds (perform_bet_flow js st crypto uuid at user agent game incoming w).1
          × AllRounds (perform_step_flow js st crypto uuid at user agent game line w).1
          × AllRounds (perform_cash_out_flow js st crypto uuid at user agent game w).1
    requests-AllRounds user agent game incoming line w h = (
      (perform_bet_flow-AllRounds user agent game incoming).run w h,
      (perform_step_flow-AllRounds user agent game line).run w h,
      (perform_cash_out_flow-AllRounds user agent game).run w h,
    )
