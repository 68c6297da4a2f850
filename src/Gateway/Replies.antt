-- ===== src/Gateway/Replies.antt =====
-- Every message with a callback is acknowledged, whatever fails.
use chicken_road_b.Base.{
  ℕ, ◌≤◌, String, Bool, true, false, Option, none, some, List, [], ◌∷◌, ◌++◌, ℤ, ◌≡◌, refl, ap,
  arith, length, Result, ok, Result-cases, inl, inr, Action, Thrown, catching, bind_keeps, ◌>>=◌,
  ◌>>◌, or_throw, plain_error, if_truthy,
}
use chicken_road_b.Js.{Js}
use chicken_road_b.Stores.{Stores}
use chicken_road_b.Fairness.{Crypto}
use chicken_road_b.GamePlay.{Answer, BetStepResponse, responds, refuses}
use chicken_road_b.GamePlay.Flows.{GameWorld, Setting}
use chicken_road_b.GamePlay.Requests.{
  perform_bet_flow, perform_step_flow, perform_cash_out_flow, perform_get_session_flow,
  perform_get_game_state_flow,
}
use chicken_road_b.GamePlay.Account.{get_game_seeds, set_player_seed, get_my_bets_history}
use chicken_road_b.Gateway.{
  GameAction, bet, step, withdraw, cashout, get_game_session, get_game_config, get_seeds, set_seed,
  get_game_state, get_bets, action_of, Context, Message, Reply, answered, refused, shows_state,
  shows_config, shows_seeds, seed_set, shows_history, Connected, in_game, ack, emit_balance,
  balance_of, send_balance, then_or, answer_then_balance, step_answer, step_done, show_state,
  plain_answer, on_bet, on_line, on_cash_out, on_get_session, on_get_state, on_seeds, on_set_seed,
  on_history, on_config, for_player, for_game, dispatch, with_action, ack_handler,
}

module _ {Num Config : Type 0} (js : Js Num) (st : Stores) (crypto : Crypto) (uuid : ℕ → String)
    (at : Setting Num) (config : String → Option Config) where
  abbrev World : Type 0
  World = Connected st Num Config

  abbrev Grown : List (Reply Num Config) → World → World → Type 0
  Grown l s s' = s'.replies ≡ l ++ s.replies

  -- A body that may throw: at most one acknowledgement, and one if it ends well.
  record Partial (s : World) (o : Result (Unit {0}) × World) : Type 0 where
    said : List (Reply Num Config)
    grown : Grown said s o.1
    most : length said ≤ 1
    done : o.0 ≡ ok tt → 1 ≤ length said

  -- No error goes on, and one or two answers were acknowledged.
  pub record Acks (s : World) (o : Result (Unit {0}) × World) : Type 0 where
    pub ends : o.0 ≡ ok tt
    pub said : List (Reply Num Config)
    pub grown : o.1.replies ≡ said ++ s.replies
    pub least : 1 ≤ length said
    pub most : length said ≤ 2

  one : (r : Reply Num Config) (s : World) → Acks s (ack js st crypto uuid at config r s)
  one r s = record {
    ends = refl;
    said = r ∷ [];
    grown = refl;
    least = omega arith;
    most = omega arith;
  }

  one_partial : (r : Reply Num Config) (s : World) → Partial s (ack js st crypto uuid at config r s)
  one_partial r s = record {
    said = r ∷ [];
    grown = refl;
    most = omega arith;
    done = λ e. omega arith;
  }

  caught :
      (m : Action World (Unit {0})) (h : Thrown → Reply Num Config) (s : World)
      → Partial s (m s)
      → Acks s (catching m (λ e. ack js st crypto uuid at config (h e)) s)
  caught m h s p = elim (Result-cases (m s).0) [
    | inl (a, e) ↦
        rw (e, catching)
          (record {
            ends = refl;
            said = p.said;
            grown = p.grown;
            least = p.done e;
            most = omega (arith, p.most);
          })
    | inr (x, e) ↦
        rw (e, catching)
          (record {
            ends = refl;
            said = h x ∷ p.said;
            grown = ap (λ l. h x ∷ l) p.grown;
            least = omega arith;
            most = omega (arith, p.most);
          })
  ]

  -- A flow of the game, and what is done with its result.
  flow :
      {A : Type 0} (m : Action (GameWorld st Num) A) (f : A → Action World (Unit {0})) (s : World)
      → ((a : A) (s' : World) → Partial s' (f a s'))
      → Partial s ((in_game js st crypto uuid at config m >>= f) s)
  flow m f s p = elim (Result-cases (m s.game).0) [
    | inl (a, e) ↦ rw (e, ◌>>=◌) (again (p a (record s { game = (m s.game).1 })))
    | inr (x, e) ↦
        rw (e, ◌>>=◌)
          (record { said = []; grown = refl; most = omega arith; done = λ h. absurd (cc) })
  ]
    where
      again :
          {o : Result (Unit {0}) × World}
          → Partial (record s { game = (m s.game).1 }) o
          → Partial s o
      again q = record { said = q.said; grown = q.grown; most = q.most; done = q.done }

  answers :
      {A : Type 0} (m : Action (GameWorld st Num) A) (f : A → Action World (Unit {0}))
      (error : Thrown → String) (s : World)
      → ((a : A) (s' : World) → Partial s' (f a s'))
      → Acks s (then_or js st crypto uuid at config m f error s)
  answers m f error s p =
      caught (in_game js st crypto uuid at config m >>= f) (λ e. refused (error e)) s (flow m f s p)

  balance_replies :
      (user_id agent_id currency : String) (s : World)
      → (emit_balance js st crypto uuid at config user_id agent_id currency s).1.replies ≡ s.replies
  unfolding emit_balance
  balance_replies user_id agent_id currency s =
      bind_keeps (λ s'. s'.replies ≡ s.replies)
        (balance_of js st crypto uuid at config user_id agent_id)
        (send_balance js st crypto uuid at config currency) s refl (λ a e. refl)

  module _ (user_id agent_id : String) where
    told_first :
        (a : Answer) (s : World)
        → Partial s (answer_then_balance js st crypto uuid at config user_id agent_id a s)
    unfolding answer_then_balance
    told_first (refuses e) s = one_partial (refused e) s
    told_first (responds r) s = record {
      said = answered r ∷ [];
      grown =
          balance_replies user_id agent_id "INR" (record s { replies = answered r ∷ s.replies });
      most = omega arith;
      done = λ e. omega arith;
    }

    done-Partial :
        (r : BetStepResponse) (b : Bool) (s : World)
        → Partial s (step_done js st crypto uuid at config user_id agent_id r b s)
    unfolding step_done
    done-Partial r false s = one_partial (answered r) s
    done-Partial r true s = elim (Result-cases (emit s).0) [
      | inl (a, e) ↦
          rw (e, ◌>>=◌, ◌>>◌)
            (record {
              said = answered r ∷ [];
              grown = ap (λ l. answered r ∷ l) (balance_replies user_id agent_id r.currency s);
              most = omega arith;
              done = λ e. omega arith;
            })
      | inr (x, e) ↦
          rw (e, ◌>>=◌, ◌>>◌)
            (record {
              said = [];
              grown = balance_replies user_id agent_id r.currency s;
              most = omega arith;
              done = λ h. absurd (cc);
            })
    ]
      where
        emit : Action World (Unit {0})
        emit = emit_balance js st crypto uuid at config user_id agent_id r.currency

    told_last :
        (a : Answer) (s : World)
        → Partial s (step_answer js st crypto uuid at config user_id agent_id a s)
    unfolding step_answer
    told_last (refuses e) s = one_partial (refused e) s
    told_last (responds r) s = done-Partial r r.is_finished s

  told : (a : Answer) (s : World) → Partial s (plain_answer js st crypto uuid at config a s)
  unfolding plain_answer
  told (refuses e) s = one_partial (refused e) s
  told (responds r) s = one_partial (answered r) s

  for_player-Acks :
      (u a : Option String) (f : String → String → Action World (Unit {0})) (s : World)
      → ((x y : String) → Acks s (f x y s))
      → Acks s (for_player js st crypto uuid at config u a f s)
  unfolding for_player
  for_player-Acks none none f s h = one _ s
  for_player-Acks none (some y) f s h = one _ s
  for_player-Acks (some x) none f s h = one _ s
  for_player-Acks (some x) (some y) f s h = h x y

  for_game-Acks :
      (error : String) (u a g : Option String)
      (f : String → String → String → Action World (Unit {0})) (s : World)
      → ((x y z : String) → Acks s (f x y z s))
      → Acks s (for_game js st crypto uuid at config error u a g f s)
  unfolding for_game
  for_game-Acks error none a g f s h = one (refused error) s
  for_game-Acks error (some x) none g f s h = one (refused error) s
  for_game-Acks error (some x) (some y) none f s h = one (refused error) s
  for_game-Acks error (some x) (some y) (some z) f s h = h x y z

  set_seed-Acks :
      (seed : Option String) (x y : String) (s : World)
      → Acks s (on_set_seed js st crypto uuid at config seed x y s)
  unfolding on_set_seed
  set_seed-Acks none x y s = one (refused "missing_user_seed") s
  set_seed-Acks (some seed) x y s =
      answers (set_player_seed js st crypto uuid at x y seed) _ _ s
        (λ a s'. one_partial (seed_set a) s')

  config-Acks : (g : Option String) (s : World) → Acks s (on_config js st crypto uuid at config g s)
  unfolding on_config
  config-Acks none s = one (refused "missing_game_code") s
  config-Acks (some g) s =
      answers (or_throw (config g) (plain_error "no configuration")) _ _ s
        (λ a s'. one_partial (shows_config a) s')

  line-Acks :
      (line : Option ℤ) (x y z : String) (s : World)
      → Acks s (on_line js st crypto uuid at config line x y z s)
  unfolding on_line
  line-Acks none x y z s = one (refused "invalid_line_number") s
  line-Acks (some n) x y z s =
      answers (perform_step_flow js st crypto uuid at x y z n) _ _ s (told_last x y)

  module _ (x y z : String) (s : World) where
    bet-Acks : (m : Message) → Acks s (on_bet js st crypto uuid at config m x y z s)
    unfolding on_bet
    bet-Acks m =
        answers (perform_bet_flow js st crypto uuid at x y z m.payload) _ _ s (told_first x y)

    cash_out-Acks : Acks s (on_cash_out js st crypto uuid at config x y z s)
    unfolding on_cash_out
    cash_out-Acks =
        answers (perform_cash_out_flow js st crypto uuid at x y z) _ _ s (told_first x y)

    session-Acks : Acks s (on_get_session js st crypto uuid at config x y z s)
    unfolding on_get_session
    session-Acks = answers (perform_get_session_flow js st crypto uuid at x y z) _ _ s told

    state-Acks : Acks s (on_get_state js st crypto uuid at config x y z s)
    unfolding on_get_state
    state-Acks =
        caught
          (in_game js st crypto uuid at config
              (perform_get_game_state_flow js st crypto uuid at x y z)
            >>= show_state js st crypto uuid at config)
          (λ e. shows_state none) s
          (flow (perform_get_game_state_flow js st crypto uuid at x y z)
            (show_state js st crypto uuid at config) s (λ a s'. one_partial (shows_state a) s'))

    seeds-Acks : Acks s (on_seeds js st crypto uuid at config x y s)
    unfolding on_seeds
    seeds-Acks =
        answers (get_game_seeds js st crypto uuid at x y) _ _ s
          (λ a s'. one_partial (shows_seeds a) s')

    history-Acks : (g : Option String) → Acks s (on_history js st crypto uuid at config g x y s)
    unfolding on_history
    history-Acks g =
        answers (get_my_bets_history js st crypto uuid at x y g) _ _ s
          (λ a s'. one_partial (shows_history a) s')

  module _ (c : Context) (m : Message) (s : World) where
    dispatch-Acks : (a : Option GameAction) → Acks s (dispatch js st crypto uuid at config c m a s)
    unfolding dispatch
    dispatch-Acks (some get_game_config) = config-Acks _ s
    dispatch-Acks (some get_seeds) = for_player-Acks _ _ _ s (λ x y. seeds-Acks x y "" s)
    dispatch-Acks (some set_seed) = for_player-Acks _ _ _ s (λ x y. set_seed-Acks _ x y s)
    dispatch-Acks (some bet) = for_game-Acks _ _ _ _ _ s (λ x y z. bet-Acks x y z s m)
    dispatch-Acks (some step) = for_game-Acks _ _ _ _ _ s (λ x y z. line-Acks m.line_number x y z s)
    dispatch-Acks (some cashout) = for_game-Acks _ _ _ _ _ s (λ x y z. cash_out-Acks x y z s)
    dispatch-Acks (some withdraw) = for_game-Acks _ _ _ _ _ s (λ x y z. cash_out-Acks x y z s)
    dispatch-Acks (some get_game_session) =
        for_game-Acks _ _ _ _ _ s (λ x y z. session-Acks x y z s)
    dispatch-Acks (some get_game_state) = for_game-Acks _ _ _ _ _ s (λ x y z. state-Acks x y z s)
    dispatch-Acks (some get_bets) =
        for_player-Acks _ _ _ s (λ x y. history-Acks x y "" s c.game_code)
    dispatch-Acks none = one (refused "unsupported_action") s

    with_action-Acks :
        (action : Option String) → Acks s (with_action js st crypto uuid at config c m action s)
    unfolding with_action
    with_action-Acks none = one (refused "missing_action") s
    with_action-Acks (some name) = dispatch-Acks (action_of name)

    -- Whatever message with a callback a connected player sends, in whatever state of the game
    -- and whichever calls and answers of the agent fail, the handler of the message throws no
    -- error on, and acknowledges the message once or twice.
    pub ack_handler-Acks : Acks s (ack_handler js st crypto uuid at config c m true s)
    unfolding ack_handler
    ack_handler-Acks = with_action-Acks (if_truthy m.action)
