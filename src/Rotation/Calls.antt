-- ===== src/Rotation/Calls.antt =====
-- What each call of the scheduler does while Redis works and the server holds the lease: its
-- result, and the parts of the server that it writes.
use chicken_road_b.Base.{
  ℕ, suc, String, Bool, true, false, Option, none, some, List, ◌≡◌, refl, sym, ap, or_else, eq_refl,
  ◌∙◌, Bool-cases, inl, inr, includes_text, Ends, pure-Ends, bind-Ends, gets-bind-Ends,
  modify-then-Ends, or_throw-Ends, plain_error, weaken-Ends,
}
use chicken_road_b.Stores.{
  Stores, leader_get, hazard_get, hazard_set, publish, history_push, subscribe,
}
use chicken_road_b.Bets.{Difficulty}
use chicken_road_b.Leader.{note_leader}
use chicken_road_b.Leader.Lease.{asked, noted_lease}
use chicken_road_b.Hazard.{HazardState, generate_random_pattern}
use chicken_road_b.Rotation.{
  Server, Site, GameConfig, parse_config, load_found, load_game_config, set_at, or_number,
  default_columns, default_hazards, default_refresh_ms, get_hazard_count, get_refresh_ms,
  get_total_columns, redis_get, redis_set, redis_key, state_key, is_leader, draw, notify_rotation,
  add_to_history, ensure_rotation_listener, schedule_rotation, schedule_as, listen_as, next_or_draw,
  set_state, rotation_channel,
}

-- The parts of a server that decide which state it answers with.
pub record View (st : Stores) : Type 0 where
  pub shared : st.Of HazardState
  pub states : String → Option HazardState
  pub locks : st.Of String

module _ (st : Stores) (at : Site st) (game : String) (d : Difficulty) where
  open at use {now, down, raw_config, picks}

  -- The configuration that the server uses for the game, and its numbers.
  abbrev pub config_at : Server st → GameConfig
  config_at w = or_else (w.configs game) (parse_config (raw_config game))

  abbrev pub count_of : GameConfig → ℕ
  count_of c = or_number (c.hazards d) (default_hazards d)

  abbrev pub total_of : GameConfig → ℕ
  total_of c = or_number (c.total_columns d) (default_columns d)

  abbrev pub refresh_of : GameConfig → ℕ
  refresh_of c = or_number c.hazard_refresh_ms default_refresh_ms

  abbrev pub view_of : Server st → View st
  view_of w = record { shared = w.shared; states = w.states; locks = w.locks }

  abbrev pub with_state : HazardState → View st → View st
  with_state s v = record v { states = set_at (state_key game d) (some s) v.states }

  abbrev pub with_shared : HazardState → View st → View st
  with_shared s v = record v { shared = st.put HazardState v.shared (redis_key game d) s }

  -- The server uses the configuration, holds the lease, and shows the view.
  abbrev pub At : GameConfig → View st → Server st → Type 0
  At c v w = (config_at w ≡ c) × (w.leadership.lease ≡ some at.server_id) × (view_of w ≡ v)

  -- The calls of Redis that a state needs work, and every draw ends.
  pub record Up (c : GameConfig) : Type 0 where
    pub leader : down leader_get ≡ false
    pub read : down hazard_get ≡ false
    pub write : down hazard_set ≡ false
    pub drawn :
        (n : ℕ)
        → (l : List ℕ) × (generate_random_pattern (count_of c) (total_of c) (picks n (total_of c))
            ≡ some l)

  module _ (c : GameConfig) where
    found_Ends :
        (o : Option GameConfig) (v : View st) (w : Server st)
        → w.configs game ≡ o
        → At c v w
        → Ends (load_found st at game o) w (λ a s. (a ≡ c) × At c v s)
    unfolding load_found
    found_Ends none v w e (used, mine, shown) =
        modify-then-Ends fill w (pure-Ends made _ (known, (rw (eq_refl game) known, mine, shown)))
      where
        made : GameConfig
        made = parse_config (raw_config game)

        fill : Server st → Server st
        fill w = record w { configs = set_at game (some made) w.configs }

        known : made ≡ c
        known = rw e at used
    found_Ends (some c') v w e (used, p, q) = pure-Ends c' w (rw e at used, (used, p, q))

    load-Ends :
        (v : View st) (w : Server st)
        → At c v w
        → Ends (load_game_config st at game) w (λ a s. (a ≡ c) × At c v s)
    unfolding load_game_config
    load-Ends v w p = gets-bind-Ends (λ w. w.configs game) w (λ a e. found_Ends a v w (sym e) p)

    module _ (v : View st) (w : Server st) (p : At c v w) where
      pub count-Ends : Ends (get_hazard_count st at game d) w (λ a s. (a ≡ count_of c) × At c v s)
      unfolding get_hazard_count
      count-Ends =
          bind-Ends (load-Ends v w p) (λ a s (e, q). pure-Ends (count_of a) s (ap count_of e, q))

      pub total-Ends : Ends (get_total_columns st at game d) w (λ a s. (a ≡ total_of c) × At c v s)
      unfolding get_total_columns
      total-Ends =
          bind-Ends (load-Ends v w p) (λ a s (e, q). pure-Ends (total_of a) s (ap total_of e, q))

      pub refresh-Ends : Ends (get_refresh_ms st at game) w (λ a s. (a ≡ refresh_of c) × At c v s)
      unfolding get_refresh_ms
      refresh-Ends =
          bind-Ends (load-Ends v w p)
            (λ a s (e, q). pure-Ends (refresh_of a) s (ap refresh_of e, q))

      -- What is only tried ends well, and leaves the view.
      pub notify-Ends :
          (s : HazardState) → Ends (notify_rotation st at game d s) w (λ a s. At c v s)
      unfolding notify_rotation
      notify-Ends s = elim (Bool-cases (down publish)) [
        | inl lost ↦ rw lost (record { value = tt; after = w; run = refl; post = p })
        | inr sent ↦ rw sent (record { value = tt; after = _; run = refl; post = p })
      ]

      pub history-Ends :
          (s : HazardState) → Ends (add_to_history st at game d s) w (λ a s. At c v s)
      unfolding add_to_history
      history-Ends s = elim (Bool-cases (down history_push)) [
        | inl lost ↦ rw lost (record { value = tt; after = w; run = refl; post = p })
        | inr sent ↦ rw sent (record { value = tt; after = _; run = refl; post = p })
      ]

      listen_as-Ends : (b : Bool) → Ends (listen_as st at game d b) w (λ a s. At c v s)
      unfolding listen_as
      listen_as-Ends true = pure-Ends tt w p
      listen_as-Ends false = elim (Bool-cases (down subscribe)) [
        | inl lost ↦ rw lost (record { value = tt; after = w; run = refl; post = p })
        | inr works ↦ rw works (record { value = tt; after = _; run = refl; post = p })
      ]

      pub listen-Ends : Ends (ensure_rotation_listener st at game d) w (λ a s. At c v s)
      unfolding ensure_rotation_listener
      listen-Ends =
          gets-bind-Ends (λ w. includes_text (rotation_channel game d) w.subscribed) w
            (λ b e. listen_as-Ends b)

      schedule_as-Ends : (b : Bool) → Ends (schedule_as st at game d b) w (λ a s. At c v s)
      unfolding schedule_as
      schedule_as-Ends true = record { value = tt; after = _; run = refl; post = p }
      schedule_as-Ends false = record { value = tt; after = _; run = refl; post = p }

      pub set_state-Ends :
          (s : HazardState)
          → Ends (set_state st at (state_key game d) s) w (λ a s'. At c (with_state s v) s')
      set_state-Ends s =
          let (used, mine, shown) = p in
          record { value = tt; after = _; run = refl; post = (used, mine, ap (with_state s) shown) }

      module _ (up : Up c) where
        pub set-Ends :
            (s : HazardState)
            → Ends (redis_set st at (redis_key game d) s) w (λ a s'. At c (with_shared s v) s')
        unfolding redis_set
        set-Ends s =
            let (used, mine, shown) = p in
            rw up.write (record {
              value = tt;
              after = _;
              run = refl;
              post = (used, mine, ap (with_shared s) shown);
            })

        pub get-Ends :
            Ends
              (redis_get st at (redis_key game d))
              w
              (λ a s. (a ≡ st.get HazardState v.shared (redis_key game d)) × At c v s)
        unfolding redis_get
        get-Ends =
            let (used, mine, shown) = p in
            rw up.read (record {
              value = _;
              after = w;
              run = refl;
              post = (ap (λ v. st.get HazardState v.shared (redis_key game d)) shown, p);
            })

        pub draw-Ends :
            (count total : ℕ)
            → count ≡ count_of c
            → total ≡ total_of c
            → Ends (draw st at count total) w (λ a s. At c v s)
        unfolding draw
        draw-Ends count total e f =
            gets-bind-Ends (λ w. w.draws) w
              (λ n h.
                let (l, ends) = up.drawn n in
                modify-then-Ends (λ w. record w { draws = suc w.draws }) w
                  (or_throw-Ends (generate_random_pattern count total (picks n total))
                    (plain_error "no picks") _ {a = l} (rw (e, f) ends) p))

        pub next-Ends :
            (count total : ℕ) (o : Option HazardState)
            → count ≡ count_of c
            → total ≡ total_of c
            → Ends
                (next_or_draw st at count total o)
                w
                (λ l s. ((prev : HazardState) → o ≡ some prev → l ≡ prev.next) × At c v s)
        unfolding next_or_draw
        next-Ends count total none e f =
            weaken-Ends (λ l s q. (λ prev h. absurd (cc), q)) (draw-Ends count total e f)
        next-Ends count total (some prev) e f = pure-Ends prev.next w (λ prev' h. cc, p)

        pub leader-Ends : Ends (is_leader st at) w (λ a s. (a ≡ true) × At c v s)
        unfolding is_leader
        leader-Ends =
            let (used, mine, shown) = p in
            record {
              value = true;
              after = record w { leadership = note_leader down at.server_id true w.leadership };
              run =
                  ap (λ o. (o.0, record w { leadership = o.1 }))
                    (asked true down at.server_id w.leadership up.leader mine);
              post = (
                refl,
                (used, noted_lease true down at.server_id true w.leadership ∙ mine, shown),
              );
            }

  -- What follows a call of which the view is known.
  pub schedule-Ends :
      (c : GameConfig) (v : View st) (w : Server st)
      → At c v w
      → Up c
      → Ends (schedule_rotation st at game d) w (λ a s. At c v s)
  unfolding schedule_rotation
  schedule-Ends c v w p up = bind-Ends (refresh-Ends c v w p) (λ r s (e, q).
      bind-Ends (leader-Ends c v s q up) (λ b s' (f, q'). schedule_as-Ends c v s' q' b))
