-- ===== src/GamePlay/Betting.antt =====
-- `performBetFlow`: the lock around it, and the bets that it refuses before the agent is asked.
use chicken_road_b.Base.{
  ℕ, String, true, false, Option, none, some, List, [], ◌∷◌, ◌≡◌, refl, Action, Keeps, Keeps-by,
  bind-Keeps, then-Keeps, if-Keeps, pure-Keeps, throw_if-Keeps, modify-Keeps, Bool-cases, inl, inr,
  ok, err, io_error, ◌⊎◌, bind_run,
}
use chicken_road_b.Js.{Js}
use chicken_road_b.Stores.{Stores, Laws, session_get, lock_del}
use chicken_road_b.Games.{Game}
use chicken_road_b.Fairness.{Crypto, Seeds}
use chicken_road_b.Wallet.{WalletWorld, AgentResponse}
use chicken_road_b.GamePlay.{GameSession, BetPayload, refuses, get_redis_key, bet_lock_key}
use chicken_road_b.GamePlay.Locking.{is_busy, locked, held, taken, freed, release_keeps}
use chicken_road_b.GamePlay.Flows.{
  GameWorld, Setting, get_session, set_session, acquire_lock, release_lock, on_wallet, on_seeds,
  on_games,
}
use chicken_road_b.GamePlay.Requests.{
  perform_bet_flow, bet_locked, place, placed, store_placement, open_session, bet_acquired,
}

module _ {Num : Type 0} (js : Js Num) (st : Stores) (crypto : Crypto) (uuid : ℕ → String)
    (at : Setting Num) where
  -- What is done under the lock does not touch the locks.
  abbrev Locks : st.Of String → GameWorld st Num → Type 0
  Locks l w = w.locks ≡ l

  module _ {l : st.Of String} where
    wallet-Locks :
        {A : Type 0} (m : Action (WalletWorld st Num) A)
        → Keeps (Locks l) (on_wallet js st crypto uuid at m)
    wallet-Locks m = Keeps-by (λ w e. e)

    seeds-Locks :
        {A : Type 0} (m : Action (Seeds st) A) → Keeps (Locks l) (on_seeds js st crypto uuid at m)
    seeds-Locks m = Keeps-by (λ w e. e)

    games-Locks :
        {A : Type 0} (m : Action (st.Of Game) A) → Keeps (Locks l) (on_games js st crypto uuid at m)
    games-Locks m = Keeps-by (λ w e. e)

    get-Locks : (key : String) → Keeps (Locks l) (get_session js st crypto uuid at key)
    unfolding get_session
    get-Locks key =
        Keeps-by (λ w e. elim (Bool-cases (at.down session_get)) [
          | inl down ↦ rw down e
          | inr up ↦ rw up e
        ])

    set-Locks :
        (key : String) (s : GameSession Num)
        → Keeps (Locks l) (set_session js st crypto uuid at key s)
    unfolding set_session
    set-Locks key s = search (then-Keeps, throw_if-Keeps, modify-Keeps)

    store-Locks :
        (user agent code : String) (bet : Num) (dto : BetPayload) (told : AgentResponse Num)
        → Keeps (Locks l) (store_placement js st crypto uuid at user agent code bet dto told)
    unfolding store_placement
    store-Locks user agent code bet dto told = Keeps-by (λ w. (stored w.games).run w)
      where
        stored :
            (games : st.Of Game)
            → Keeps (Locks l) (placed js st crypto uuid at user agent code bet dto told games)
        stored games = search (then-Keeps, pure-Keeps, wallet-Locks)

    open-Locks :
        (user agent game : String) (bet : Num) (dto : BetPayload) (cs : List String)
        → Keeps (Locks l) (open_session js st crypto uuid at user agent game bet dto cs)
    unfolding open_session
    open-Locks user agent game bet dto [] = pure-Keeps
    open-Locks user agent game bet dto (c ∷ cs) =
        search (bind-Keeps, then-Keeps, pure-Keeps, seeds-Locks, set-Locks)

    place-Locks :
        (user agent game : String) (bet : Num) (dto : BetPayload)
        → Keeps (Locks l) (place js st crypto uuid at user agent game bet dto)
    unfolding place
    place-Locks user agent game bet dto = search (
      bind-Keeps, then-Keeps, if-Keeps, pure-Keeps, games-Locks, wallet-Locks, store-Locks,
      open-Locks,
    )

    bet-Locks :
        (user agent game : String) (incoming : Option BetPayload)
        → Keeps (Locks l) (bet_locked js st crypto uuid at user agent game incoming)
    unfolding bet_locked
    bet-Locks user agent game none = search (bind-Keeps, if-Keeps, pure-Keeps, get-Locks)
    bet-Locks user agent game (some dto) =
        search (bind-Keeps, if-Keeps, pure-Keeps, get-Locks, place-Locks)

  module _ (laws : Laws st) (user agent game : String) (incoming : Option BetPayload)
      (w : GameWorld st Num) where
    abbrev lock : String
    lock = bet_lock_key user agent

    -- A lock that is held, or that cannot be taken: the bet is refused and nothing changes.
    pub bet_busy :
        is_busy js st crypto uuid at lock w ≡ true
        → perform_bet_flow js st crypto uuid at user agent game incoming w
          ≡ (ok (refuses "active_session_exists"), w)
    unfolding perform_bet_flow bet_acquired
    bet_busy busy =
        bind_run (acquire_lock js st crypto uuid at lock)
          (bet_acquired js st crypto uuid at user agent game incoming) w
          (held js st crypto uuid at lock w busy)

    bet_free :
        is_busy js st crypto uuid at lock w ≡ false
        → perform_bet_flow js st crypto uuid at user agent game incoming w ≡ (
            let (r, w') =
              bet_locked js st crypto uuid at user agent game incoming
                (locked js st crypto uuid at lock w) in
            (r, release_lock js st crypto uuid at lock w'))
    unfolding perform_bet_flow bet_acquired
    bet_free free =
        bind_run (acquire_lock js st crypto uuid at lock)
          (bet_acquired js st crypto uuid at user agent game incoming) w
          (taken js st crypto uuid at lock w free)

    -- If a lock can be deleted, a bet flow leaves every lock as it found it, on every path and
    -- whatever else fails: the lock that it took is free again, and a lock that another request
    -- holds is not released.
    pub perform_bet_flow-locks :
        (k : String)
        → at.down lock_del ≡ false
        → st.get String (perform_bet_flow js st crypto uuid at user agent game incoming w).1.locks k
          ≡ st.get String w.locks k
    perform_bet_flow-locks k up = elim (Bool-cases (is_busy js st crypto uuid at lock w)) [
      | inl busy ↦ rw (bet_busy busy) refl
      | inr free ↦ rw (bet_free free) (
          freed js st crypto uuid at lock w laws k _
            ((bet-Locks user agent game incoming).run (locked js st crypto uuid at lock w) refl)
            free up)
    ]

    -- If the player has an active session in the game, then a bet, whatever its message and
    -- whichever calls fail, does not place anything: the wallet's world (the bets, the audits,
    -- the retry jobs and the requests to the agent), the sessions and the seeds are as before,
    -- and it is refused with active_session_exists or, if a call fails, throws that error.
    pub bet_in_round :
        {s : GameSession Num}
        → st.get (GameSession Num) w.sessions (get_redis_key user agent game) ≡ some s
        → s.is_active ≡ true
        → let (r, w') = perform_bet_flow js st crypto uuid at user agent game incoming w in
          (w'.wallet ≡ w.wallet)
          × (w'.sessions ≡ w.sessions)
          × (w'.seeds ≡ w.seeds)
          × ((r ≡ ok (refuses "active_session_exists")) ⊎ (r ≡ err io_error))
    unfolding bet_locked get_session
    bet_in_round e active = elim (Bool-cases (is_busy js st crypto uuid at lock w)) [
      | inl busy ↦ rw (bet_busy busy) (refl, refl, refl, inl refl)
      | inr free ↦ rw (bet_free free) (elim (Bool-cases (at.down session_get)) [
        | inl off ↦ rw off (
          release_keeps js st crypto uuid at lock (λ v. v.wallet) _ (λ t. refl),
          release_keeps js st crypto uuid at lock (λ v. v.sessions) _ (λ t. refl),
          release_keeps js st crypto uuid at lock (λ v. v.seeds) _ (λ t. refl),
          inr refl,
        )
        | inr up ↦
            rw (up, e, active)
              (
                release_keeps js st crypto uuid at lock (λ v. v.wallet) _ (λ t. refl),
                release_keeps js st crypto uuid at lock (λ v. v.sessions) _ (λ t. refl),
                release_keeps js st crypto uuid at lock (λ v. v.seeds) _ (λ t. refl),
                inl refl,
              )
      ])
    ]
