-- ===== src/GamePlay/Payout.antt =====
-- A round is settled at the agent at most once, however often its end is asked for.
use chicken_road_b.Base.{
  ℕ, String, true, false, Option, none, some, List, ◌∷◌, ◌≡◌, refl, ◌⊎◌, inl, inr, ℤ, Action, arith,
  sym, ◌∙◌, Keeps, Keeps-by, if-Keeps, then-Keeps, bind-Keeps, pure-Keeps, throw_if-Keeps,
  modify-Keeps, Leads, bind-Leads, then-Leads, pure-Leads, Keeps-Leads, Bool-cases, eq_refl, ◌>>=◌,
  ◌>>◌, is_truthy, ◌&&◌, ap, ◌↔◌,
}
use chicken_road_b.Js.{Js}
use chicken_road_b.Stores.{Stores, Laws, session_get, session_set}
use chicken_road_b.Games.{Game, GamePayloads, get_game_payloads}
use chicken_road_b.Fairness.{Crypto}
use chicken_road_b.Wallet.{WalletCall}
use chicken_road_b.Wallet.Settle.{settle_calls}
use chicken_road_b.GamePlay.{GameSession, EndReason, refusal, get_redis_key, advance}
use chicken_road_b.GamePlay.Flows.{GameWorld, Setting, get_session, set_session, settle, on_games}
use chicken_road_b.GamePlay.Requests.{
  perform_step_flow, perform_cash_out_flow, finish, take_step, step_from, cash_out, cashed,
  settlement_amount, hazards_missed, step_found, cash_out_found,
}
use chicken_road_b.GamePlay.Frames.{Robust, games-Keeps, settle_after}
use chicken_road_b.GamePlay.Steps.{advance_ends}

module _ {Num : Type 0} (st : Stores) (key : String) where
  -- There is no active session under the key.
  abbrev pub Closed : GameWorld st Num → Type 0
  Closed w =
      (s : GameSession Num) → st.get (GameSession Num) w.sessions key ≡ some s → s.is_active ≡ false

  module _ (calls : List (WalletCall Num)) where
    -- Before the one settlement, and after it or without it.
    abbrev Waiting : GameWorld st Num → Type 0
    Waiting w = Closed w × (w.wallet.calls ≡ calls)

    abbrev OneMore : GameWorld st Num → Type 0
    OneMore w = (c : WalletCall Num) × (w.wallet.calls ≡ c ∷ calls)

    abbrev Ended : GameWorld st Num → Type 0
    Ended w = Closed w × ((w.wallet.calls ≡ calls) ⊎ OneMore w)

    -- The agent was not asked, or it was asked once and the round is over.
    abbrev pub PaidOnce : GameWorld st Num → Type 0
    PaidOnce w = (w.wallet.calls ≡ calls) ⊎ (Closed w × OneMore w)

    Ended-PaidOnce : (w : GameWorld st Num) → Ended w → PaidOnce w
    Ended-PaidOnce w (c, inl e) = inl e
    Ended-PaidOnce w (c, inr m) = inr (c, m)

    Waiting-PaidOnce : (w : GameWorld st Num) → Waiting w → PaidOnce w
    Waiting-PaidOnce w (c, e) = inl e

module _ {Num : Type 0} (js : Js Num) (st : Stores) (laws : Laws st) (crypto : Crypto)
    (uuid : ℕ → String) (at : Setting Num) where
  Closed-other :
      (key : String) (w w' : GameWorld st Num)
      → w'.sessions ≡ w.sessions
      → Closed st key w
      → Closed st key w'
  Closed-other key w w' e c s f = c s (ap (λ t. st.get (GameSession Num) t key) (sym e) ∙ f)

  Closed-deleted :
      (key j : String) (w : GameWorld st Num)
      → Closed st key w
      → Closed st key (record w { sessions = st.del (GameSession Num) w.sessions j })
  Closed-deleted key j w c s f =
      ground (arith, laws.get-del (GameSession Num) w.sessions j key, c s)

  module _ (key : String) (calls : List (WalletCall Num)) where
    Waiting-Robust : Robust st (Waiting st key calls)
    Waiting-Robust = record {
      other = λ w w' e f (c, m). (Closed-other key w w' e c, f ∙ m);
      deleted = λ j w (c, m). (Closed-deleted key j w c, m);
    }

    Ended-Robust : Robust st (Ended st key calls)
    Ended-Robust = record {
      other = λ w w' e f (c, m). (Closed-other key w w' e c, same w w' f m);
      deleted = λ j w (c, m). (Closed-deleted key j w c, m);
    }
      where
        same :
            (w w' : GameWorld st Num)
            → w'.wallet.calls ≡ w.wallet.calls
            → (w.wallet.calls ≡ calls) ⊎ OneMore st key calls w
            → (w'.wallet.calls ≡ calls) ⊎ OneMore st key calls w'
        same w w' f (inl e) = inl (f ∙ e)
        same w w' f (inr (c, e)) = inr (c, f ∙ e)

    settle-Leads :
        (user agent : String) (s : GameSession Num) (amount : Num) (payloads : GamePayloads)
        → Leads
            (Waiting st key calls)
            (Ended st key calls)
            (settle js st crypto uuid at user agent key s amount payloads)
    settle-Leads user agent s amount payloads = record {
      lead = λ w (c, e).
          settle_after js st crypto uuid at Ended-Robust user agent key s amount payloads w (
            c,
            asked w e (
                settle_calls js st at.down uuid at.now at.reply at.request_id s.agent_id
                  s.platform_bet_tx_id user amount s.round_id s.bet_amount payloads w.wallet),
          );
    }
      where
        asked :
            (w : GameWorld st Num) {l : List (WalletCall Num)} {c : WalletCall Num}
            → w.wallet.calls ≡ calls
            → (l ≡ w.wallet.calls) ⊎ (l ≡ c ∷ w.wallet.calls)
            → (l ≡ calls) ⊎ ((c : WalletCall Num) × (l ≡ c ∷ calls))
        asked w e (inl f) = inl (f ∙ e)
        asked w {c = c} e (inr f) = inr (c, f ∙ ap (λ t. c ∷ t) e)

    -- The settlement, from the state in which the finished session has been stored.
    closing :
        {A : Type 0} (user agent game : String) (s : GameSession Num) (amount : Num)
        (rest : Action (GameWorld st Num) A)
        → Leads (Ended st key calls) (PaidOnce st key calls) rest
        → Leads (Waiting st key calls) (PaidOnce st key calls) (
            on_games js st crypto uuid at (get_game_payloads st at.down game) >>= λ payloads.
            settle js st crypto uuid at user agent key s amount payloads >> rest)
    closing user agent game s amount rest ended =
        bind-Leads (Waiting st key calls)
          (Keeps-Leads
            (games-Keeps js st crypto uuid at Waiting-Robust (get_game_payloads st at.down game)))
          (Waiting-PaidOnce st key calls)
          (λ payloads.
            then-Leads (Ended st key calls) (settle-Leads user agent s amount payloads)
              (Ended-PaidOnce st key calls) ended)

    -- Storing a finished session, and going on.
    set_then :
        {A : Type 0} (s : GameSession Num) (k : Action (GameWorld st Num) A) (w : GameWorld st Num)
        → s.is_active ≡ false
        → w.wallet.calls ≡ calls
        → Leads (Waiting st key calls) (PaidOnce st key calls) k
        → PaidOnce st key calls ((set_session js st crypto uuid at key s >> k) w).1
    unfolding set_session
    set_then s k w done e l = elim (Bool-cases (at.down session_set)) [
      | inl down ↦ rw down (inl e)
      | inr up ↦ rw up (l.lead _ (λ s' f. stored s' f, e))
    ]
      where
        stored :
            (s' : GameSession Num)
            → st.get (GameSession Num) (st.put (GameSession Num) w.sessions key s) key ≡ some s'
            → s'.is_active ≡ false
        stored s' f =
            ground (arith, laws.get-put (GameSession Num) w.sessions key s key, eq_refl key)

  same_calls_set :
      {calls : List (WalletCall Num)} (key : String) (s : GameSession Num)
      → Keeps (λ w. w.wallet.calls ≡ calls) (set_session js st crypto uuid at key s)
  unfolding set_session
  same_calls_set key s = search (then-Keeps, throw_if-Keeps, modify-Keeps)

  same_calls_games :
      {A : Type 0} {calls : List (WalletCall Num)} (m : Action (st.Of Game) A)
      → Keeps (λ w. w.wallet.calls ≡ calls) (on_games js st crypto uuid at m)
  same_calls_games m = Keeps-by (λ w e. e)

  module _ (user agent game : String) where
    abbrev key : String
    key = get_redis_key user agent game

    cash_out-PaidOnce :
        (s : GameSession Num) (w : GameWorld st Num)
        → s.is_active ≡ false
        → PaidOnce st key w.wallet.calls (cash_out js st crypto uuid at user agent game s w).1
    unfolding cash_out
    cash_out-PaidOnce s w done = set_then key w.wallet.calls s _ w done refl (
        closing key w.wallet.calls user agent game s s.win_amount _ (
          then-Leads (Ended st key w.wallet.calls) (Keeps-Leads (throw_if-Keeps _ _))
            (Ended-PaidOnce st key w.wallet.calls)
            (pure-Leads (Ended-PaidOnce st key w.wallet.calls))))

    -- What a step does with a session that it has moved: it is over exactly if there is a reason.
    take_step-PaidOnce :
        (s : GameSession Num) (r : Option EndReason) (w : GameWorld st Num)
        → (s.is_active ≡ true) ↔ (r ≡ none)
        → PaidOnce st key w.wallet.calls (take_step js st crypto uuid at user agent game s r w).1
    unfolding take_step finish
    take_step-PaidOnce s none w over = inl (walk.run w refl)
      where
        walk :
            Keeps
              (λ w'. w'.wallet.calls ≡ w.wallet.calls)
              (take_step js st crypto uuid at user agent game s none)
        walk =
            search (if-Keeps, then-Keeps, bind-Keeps, pure-Keeps, same_calls_set, same_calls_games)
    take_step-PaidOnce s (some r) w over =
        elim (Bool-cases (is_truthy s.platform_bet_tx_id && is_truthy s.round_id)) [
          | inl good ↦ rw good (
              set_then key w.wallet.calls s _ w (ground arith) refl (
                closing key w.wallet.calls user agent game s
                  (settlement_amount js st crypto uuid at r s.win_amount) _
                  (pure-Leads (Ended-PaidOnce st key w.wallet.calls))))
          | inr bad ↦ rw bad (inl refl)
        ]

    step_from-PaidOnce :
        (line : ℤ) (s : GameSession Num) (o : Option String) (w : GameWorld st Num)
        → refusal js (some s) line ≡ o
        → PaidOnce st key w.wallet.calls
            (step_from js st crypto uuid at user agent game line s o w).1
    unfolding step_from
    step_from-PaidOnce line s (some reason) w e = inl refl
    step_from-PaidOnce line s none w e =
        let (moved, reason) = advance js (at.hazards game s.difficulty) line s in
        elim (Bool-cases (hazards_missed js st crypto uuid at line s)) [
          | inl off ↦ rw off (inl refl)
          | inr up ↦ rw up (
              take_step-PaidOnce moved reason w
                (advance_ends js (at.hazards game s.difficulty) s line e).3)
        ]

    step_found-PaidOnce :
        (line : ℤ) (o : Option (GameSession Num)) (w : GameWorld st Num)
        → PaidOnce st key w.wallet.calls
            (step_found js st crypto uuid at user agent game line o w).1
    unfolding step_found
    step_found-PaidOnce line none w = inl refl
    step_found-PaidOnce line (some s) w = step_from-PaidOnce line s _ w refl

    cash_out_found-PaidOnce :
        (o : Option (GameSession Num)) (w : GameWorld st Num)
        → PaidOnce st key w.wallet.calls (cash_out_found js st crypto uuid at user agent game o w).1
    unfolding cash_out_found
    cash_out_found-PaidOnce none w = inl refl
    cash_out_found-PaidOnce (some s) w = elim (Bool-cases s.is_active) [
      | inl active ↦ rw active (cash_out-PaidOnce (cashed js st crypto uuid at s) w refl)
      | inr done ↦ rw done (inl refl)
    ]

    -- One request for a step or a cash-out asks the agent at most once, and if it does, the
    -- round is over afterwards.
    pub step-PaidOnce :
        (line : ℤ) (w : GameWorld st Num)
        → PaidOnce st key w.wallet.calls
            (perform_step_flow js st crypto uuid at user agent game line w).1
    unfolding perform_step_flow get_session
    step-PaidOnce line w = elim (Bool-cases (at.down session_get)) [
      | inl down ↦ rw down (inl refl)
      | inr up ↦ rw up (step_found-PaidOnce line (st.get (GameSession Num) w.sessions key) w)
    ]

    pub cash_out_flow-PaidOnce :
        (w : GameWorld st Num)
        → PaidOnce st key w.wallet.calls
            (perform_cash_out_flow js st crypto uuid at user agent game w).1
    unfolding perform_cash_out_flow get_session
    cash_out_flow-PaidOnce w = elim (Bool-cases (at.down session_get)) [
      | inl down ↦ rw down (inl refl)
      | inr up ↦ rw up (cash_out_found-PaidOnce (st.get (GameSession Num) w.sessions key) w)
    ]
