-- ===== src/Rotation/Live.antt =====
-- What the leader answers with: a state whose time has not run out.
use chicken_road_b.Base.{
  ℕ, ◌<◌, ◌+◌, String, Bool, true, false, ◌||◌, Option, none, some, ◌≡◌, refl, sym, ap, ap₂, ◌∙◌,
  arith, Ends, pure-Ends, bind-Ends, then-Ends, gets-bind-Ends, weaken-Ends, catching-Ends,
  known-Ends, if-Ends, finally-Ends, subst, is_some, leb, ◌>>=◌,
}
use chicken_road_b.Stores.{Stores, lock_set}
use chicken_road_b.Bets.{Difficulty}
use chicken_road_b.Hazard.{HazardState}
use chicken_road_b.Rotation.{
  Server, Site, GameConfig, or_number, default_refresh_ms, redis_key, state_key, state_of,
}
use chicken_road_b.Rotation.Current.{
  local, lock_key, acquire_lock, acquire_as, release_lock, fresh_state, create, init_checked,
  init_body, init_locked, init_shared, init_missing, initialize_game_difficulty, is_stale,
  take_shared, refreshed, renewed_as, renewed, made_as, made, get_current_state, fallback,
}
use chicken_road_b.Rotation.Calls.{
  View, config_at, view_of, At, Up, refresh_of, with_state, count-Ends, refresh-Ends, get-Ends,
  total-Ends, draw-Ends, set_state-Ends, set-Ends, history-Ends, listen-Ends, schedule-Ends,
  leader-Ends,
}
use chicken_road_b.Rotation.Turnover.{rotate-Ends, in_memory}

or_number-Positive : (a b : ℕ) → 0 < b → 0 < or_number a b
or_number-Positive a b h = ground arith

module _ (st : Stores) (at : Site st) where
  open at use {now, down}

  -- The state is there, and its time has not run out.
  abbrev pub Live : Option HazardState → Type 0
  Live o = (s : HazardState) × (o ≡ some s) × (now < s.change_at)

  -- The lock of an initialization can be taken.
  abbrev pub Free : String → Difficulty → View st → Type 0
  Free game d v = (down lock_set ≡ false) × (st.get String v.locks (lock_key st at game d) ≡ none)

module _ (st : Stores) (at : Site st) (game : String) (d : Difficulty) (c : GameConfig) where
  open at use {now, down}

  later : now < now + refresh_of st at game d c
  later = grind (arith, or_number-Positive c.hazard_refresh_ms default_refresh_ms (omega arith))

  abbrev state_in : View st → Option HazardState
  state_in v = v.states (state_key game d)

  -- Nobody has a state yet.
  abbrev Missing : View st → Type 0
  Missing v = (state_in v ≡ none) × (st.get HazardState v.shared (redis_key game d) ≡ none)

  module _ (up : Up st at game d c) where
    module _ (v : View st) (w : Server st) (p : At st at game d c v w) where
      local-Ends : Ends (local st at game d) w (λ o s. (o ≡ state_in v) × At st at game d c v s)
      local-Ends = record { value = _; after = w; run = refl; post = (ap state_in p.2, p) }

      fresh-Ends :
          Ends
            (fresh_state st at game d)
            w
            (λ s w'. (now < s.change_at) × At st at game d c (with_state st at game d s v) w')
      unfolding fresh_state
      fresh-Ends = bind-Ends (count-Ends st at game d c v w p) (λ n s1 (e1, p1).
          bind-Ends (refresh-Ends st at game d c v s1 p1) (λ r s2 (e2, p2).
            bind-Ends (total-Ends st at game d c v s2 p2) (λ t s3 (e3, p3).
              bind-Ends (draw-Ends st at game d c v s3 p3 up n t e1 e3) (λ cur s4 p4.
                bind-Ends (draw-Ends st at game d c v s4 p4 up n t e1 e3) (λ nxt s5 p5.
                  then-Ends
                    (set_state-Ends st at game d c v s5 p5 (state_of st at game d n r cur nxt))
                    (λ a s6 p6.
                      pure-Ends (state_of st at game d n r cur nxt) s6
                        (subst (λ r. now < now + r) (sym e2) later, p6)))))))

      create-Ends : Ends (create st at game d) w (λ a w'. Live st at (w'.states (state_key game d)))
      unfolding create
      create-Ends = bind-Ends fresh-Ends (λ s s1 (live, p1).
          then-Ends (set-Ends st at game d c _ s1 p1 up s) (λ a s2 p2.
            then-Ends (history-Ends st at game d c _ s2 p2 s) (λ a s3 p3.
              then-Ends (listen-Ends st at game d c _ s3 p3) (λ a s4 p4.
                weaken-Ends (λ a s5 q. (s, ap state_in q.2 ∙ in_memory st at game d c s v, live))
                  (schedule-Ends st at game d c _ s4 p4 up)))))

    -- What an initialization leaves in memory is live.
    abbrev Initialized : Unit {0} → Server st → Type 0
    Initialized a w = Live st at (w.states (state_key game d))

    release_states : (key : String) (w : Server st) → (release_lock st at key w).states ≡ w.states
    unfolding release_lock
    release_states key w = ground arith

    module _ (v : View st) (w : Server st) (p : At st at game d c v w) (missing : Missing v) where
      body-Ends : Ends (init_body st at game d) w Initialized
      unfolding init_body init_checked
      body-Ends =
          bind-Ends (get-Ends st at game d c v w p up) (λ o s (e, q).
            known-Ends (init_checked st at game d) (e ∙ missing.1) (create-Ends v s q))

      locked-Ends : Ends (init_locked st at game d true) w Initialized
      unfolding init_locked
      locked-Ends = finally-Ends (release_lock st at (lock_key st at game d)) (
          weaken-Ends
            (λ a s live.
              subst (λ m. Live st at (m (state_key game d)))
                (sym (release_states (lock_key st at game d) s)) live)
            body-Ends)

    module _ (v : View st) (w : Server st) (p : At st at game d c v w) (missing : Missing v)
        (free : Free st at game d v) where
      acquire-Ends : Ends (acquire_lock st at (lock_key st at game d)) w (λ b s.
          (b ≡ true)
          × At st at game d c
              (record v { locks = st.put String v.locks (lock_key st at game d) "1" })
              s)
      unfolding acquire_lock acquire_as
      acquire-Ends =
          gets-bind-Ends (λ w. is_some (st.get String w.locks (lock_key st at game d))) w
            (λ held e.
              known-Ends (acquire_as st at (lock_key st at game d)) (open_lock held e) (record {
                value = true;
                after = _;
                run = refl;
                post = (refl, (p.0, p.1, ap lock p.2));
              }))
        where
          lock : View st → View st
          lock v = record v { locks = st.put String v.locks (lock_key st at game d) "1" }

          open_lock :
              (held : Bool)
              → held ≡ is_some (st.get String w.locks (lock_key st at game d))
              → (down lock_set || held) ≡ false
          open_lock held e =
              let free_here =
                ap (λ v. st.get String v.locks (lock_key st at game d)) p.2 ∙ free.1 in
              ap₂ (λ a b. a || b) free.0 (e ∙ ap is_some free_here)

      shared-Ends : Ends (init_shared st at game d none) w Initialized
      unfolding init_shared
      shared-Ends =
          bind-Ends acquire-Ends
            (λ b s (e, q). known-Ends (init_locked st at game d) e (locked-Ends _ s q missing))

    module _ (v : View st) (w : Server st) (p : At st at game d c v w) (missing : Missing v)
        (free : Free st at game d v) where
      initialize-Ends : Ends (initialize_game_difficulty st at game d) w Initialized
      unfolding initialize_game_difficulty init_missing
      initialize-Ends = bind-Ends (local-Ends v w p) (λ o s (e, q).
          known-Ends (init_missing st at game d) (e ∙ missing.0) (
            bind-Ends (get-Ends st at game d c v s q up) (λ o s' (e', q').
              known-Ends (init_shared st at game d) (e' ∙ missing.1)
                (shared-Ends v s' q' missing free))))

      made_as-Ends : Ends (made_as st at game d true) w (λ o s. Live st at o)
      unfolding made_as
      made_as-Ends =
          catching-Ends (λ e. fallback st at game d)
            (then-Ends initialize-Ends
              (λ a s live. record { value = _; after = s; run = refl; post = live }))

    -- What the look into memory and Redis finds; if it is nothing, then there is nothing there.
    abbrev Looked : View st → Option HazardState → Server st → Type 0
    Looked v found s =
        (v' : View st) × At st at game d c v' s × (v'.locks ≡ v.locks) × (found ≡ none → Missing v')

    module _ (v : View st) (old : Option HazardState) (here : old ≡ state_in v) where
      take-Ends :
          (w : Server st)
          → At st at game d c v w
          → (o : Option HazardState) → o ≡ st.get HazardState v.shared (redis_key game d)
          → Ends (take_shared st at game d old o) w (Looked v)
      unfolding take_shared
      take-Ends w p none e = pure-Ends old w (v, p, refl, λ h. (sym here ∙ h, sym e))
      take-Ends w p (some s) e =
          then-Ends (set_state-Ends st at game d c v w p s) (λ a s' q.
            pure-Ends (some s) s' (with_state st at game d s v, q, refl, λ h. absurd (cc)))

      refreshed-Ends :
          (w : Server st) → At st at game d c v w → Ends (refreshed st at game d old) w (Looked v)
      unfolding refreshed
      refreshed-Ends w p =
          if-Ends (is_stale st at old)
            (λ stale.
              bind-Ends (get-Ends st at game d c v w p up) (λ o s (e, q). take-Ends s q o e))
            (λ fresh. pure-Ends old w (v, p, refl, λ h. absurd (cc (rw h at fresh))))

    module _ (v : View st) (w : Server st) (p : At st at game d c v w) where
      renewed-Ends :
          (s : HazardState) → Ends (renewed st at game d (some s)) w (λ o s'. Live st at o)
      unfolding renewed renewed_as
      renewed-Ends s =
          if-Ends (leb s.change_at now)
            (λ expired. bind-Ends (leader-Ends st at game d c v w p up) (λ b s1 (e, q).
              known-Ends (renewed_as st at game d s) e (
                then-Ends (rotate-Ends st at game d c up v s1 q) (λ a s2 (n, turned, q2).
                  weaken-Ends
                    (λ o s3 (e3, q3). (
                      n,
                      e3 ∙ in_memory st at game d c n v,
                      subst (λ t. now < t) (sym turned.due) later,
                    ))
                    (local-Ends _ s2 q2)))))
            (λ lives. pure-Ends (some s) w (s, refl, ground arith))

      made-Ends :
          Missing v → Free st at game d v → Ends (made st at game d none) w (λ o s. Live st at o)
      unfolding made
      made-Ends missing free =
          bind-Ends (leader-Ends st at game d c v w p up)
            (λ b s (e, q). known-Ends (made_as st at game d) e (made_as-Ends v s q missing free))

      rest-Ends :
          (found : Option HazardState)
          → (found ≡ none → Missing v)
          → Free st at game d v
          → Ends (renewed st at game d found >>= made st at game d) w (λ o s. Live st at o)
      unfolding made renewed
      rest-Ends none missing free = made-Ends (missing refl) free
      rest-Ends (some s) missing free = bind-Ends (renewed-Ends s) (λ o s1 (n, e, lives).
          known-Ends (made st at game d) e (pure-Ends (some n) s1 (n, refl, lives)))

module _ (st : Stores) (at : Site st) (game : String) (d : Difficulty) where
  -- If the server holds the lease, the calls of Redis for the lease and the states work, every
  -- draw of a pattern by the configuration ends, and the lock of an initialization is free,
  -- then getCurrentState ends without an error and answers with a state whose time has not run
  -- out, whatever memory and Redis had before: a live state, one that has run out, or none.
  pub get_current_state-Live :
      (w : Server st)
      → w.leadership.lease ≡ some at.server_id
      → Up st at game d (config_at st at game d w)
      → Free st at game d (view_of st at game d w)
      → Ends (get_current_state st at game d) w (λ o w'. Live st at o)
  unfolding get_current_state
  get_current_state-Live w mine up free =
      gets-bind-Ends (λ w. w.states (state_key game d)) w
        (λ old here.
          bind-Ends (refreshed-Ends st at game d c up v old here w (refl, mine, refl))
            (λ found s (v', p, locks, missing).
              rest-Ends st at game d c up v' s p found missing
                (free.0, ap (λ l. st.get String l (lock_key st at game d)) locks ∙ free.1)))
    where
      c : GameConfig
      c = config_at st at game d w

      v : View st
      v = view_of st at game d w
