-- ===== src/Rotation/Turnover.antt =====
-- A rotation by the leader.
use chicken_road_b.Base.{
  ℕ, ◌<◌, ◌≤◌, ◌+◌, String, true, Option, some, ◌≡◌, refl, sym, ap, ap₂, List, ◌∙◌, arith, Ends,
  bind-Ends, then-Ends, gets-bind-Ends, modify-then-Ends, weaken-Ends, subst, eq_refl,
  if◌then◌else◌,
}
use chicken_road_b.Stores.{Stores, Laws}
use chicken_road_b.Bets.{Difficulty}
use chicken_road_b.Hazard.{HazardState, get_active_pattern}
use chicken_road_b.Rotation.{
  Server, Site, GameConfig, or_state, redis_key, state_key, rotate_as, publish_state,
  rotate_game_difficulty, state_of,
}
use chicken_road_b.Rotation.Calls.{
  View, config_at, view_of, At, Up, refresh_of, with_state, with_shared, count-Ends, refresh-Ends,
  get-Ends, total-Ends, next-Ends, draw-Ends, set_state-Ends, set-Ends, notify-Ends, history-Ends,
  schedule-Ends, leader-Ends,
}

module _ (st : Stores) (at : Site st) (game : String) (d : Difficulty) where
  -- The state from which a rotation goes on: that of Redis, or else the one in memory.
  abbrev pub previous : View st → Option HazardState
  previous v =
      or_state st at (st.get HazardState v.shared (redis_key game d)) (v.states (state_key game d))

module _ (st : Stores) (at : Site st) (game : String) (d : Difficulty) (c : GameConfig) where
  open at use {now}

  -- The state that a rotation makes: what came next is current, until the next rotation is due.
  pub record Turned (v : View st) (s : HazardState) : Type 0 where
    pub due : s.change_at ≡ now + refresh_of st at game d c
    pub moved : (prev : HazardState) → previous st at game d v ≡ some prev → s.current ≡ prev.next

  -- It is in memory and in Redis.
  abbrev pub Rotated : View st → Server st → Type 0
  Rotated v w =
      (s : HazardState) × Turned v s
      × At st at game d c (with_shared st at game d s (with_state st at game d s v)) w

  module _ (up : Up st at game d c) (v : View st) (w : Server st) (p : At st at game d c v w) where
    publish-Ends :
        (s : HazardState)
        → Ends (publish_state st at game d s) w (λ a w'.
          At st at game d c (with_shared st at game d s (with_state st at game d s v)) w')
    unfolding publish_state
    publish-Ends s = then-Ends (set_state-Ends st at game d c v w p s) (λ a w1 p1.
        then-Ends (set-Ends st at game d c _ w1 p1 up s) (λ a w2 p2.
          then-Ends (notify-Ends st at game d c _ w2 p2 s) (λ a w3 p3.
            then-Ends (history-Ends st at game d c _ w3 p3 s)
              (λ a w4 p4. schedule-Ends st at game d c _ w4 p4 up))))

  module _ (up : Up st at game d c) (v : View st) (w : Server st) (p : At st at game d c v w) where
    turned :
        (n r : ℕ) (o : Option HazardState) (cur nxt : List ℕ)
        → r ≡ refresh_of st at game d c
        → o ≡ previous st at game d v
        → ((prev : HazardState) → o ≡ some prev → cur ≡ prev.next)
        → Turned v (state_of st at game d n r cur nxt)
    turned n r o cur nxt e f k = record {
      due = ap (λ r. now + r) e;
      moved = λ prev h. k prev (f ∙ h);
    }

    rotate_as-Ends : Ends (rotate_as st at game d true) w (λ a s. Rotated v s)
    unfolding rotate_as
    rotate_as-Ends =
        modify-then-Ends (λ w. record w { leads = true }) w
          (bind-Ends (count-Ends st at game d c v _ p) (λ n s1 (e1, p1).
            bind-Ends (refresh-Ends st at game d c v s1 p1) (λ r s2 (e2, p2).
              bind-Ends (get-Ends st at game d c v s2 p2 up) (λ stored s3 (e3, p3).
                gets-bind-Ends (λ w. w.states (state_key game d)) s3
                  (λ local e4. bind-Ends (total-Ends st at game d c v s3 p3) (λ t s5 (e5, p5).
                    bind-Ends
                      (next-Ends st at game d c v s5 p5 up n t (or_state st at stored local) e1 e5)
                      (λ cur s6 (k, p6).
                        bind-Ends (draw-Ends st at game d c v s6 p6 up n t e1 e5) (λ nxt s7 p7.
                          weaken-Ends
                            (λ a s8 p8. (
                              _,
                              turned n r (or_state st at stored local) cur nxt e2
                                  (ap₂ (or_state st at) e3
                                    (e4 ∙ ap (λ v. v.states (state_key game d)) (p3.2)))
                                  k,
                              p8,
                            ))
                            (publish-Ends up v s7 p7 (state_of st at game d n r cur nxt))))))))))

  module _ (up : Up st at game d c) (v : View st) (w : Server st) (p : At st at game d c v w) where
    as_leader :
        (s : Server st)
        → At st at game d c v s
        → Ends (rotate_as st at game d true) s (λ a s. Rotated v s)
    as_leader s q = rotate_as-Ends up v s q

    pub rotate-Ends : Ends (rotate_game_difficulty st at game d) w (λ a s. Rotated v s)
    unfolding rotate_game_difficulty
    rotate-Ends = bind-Ends (leader-Ends st at game d c v w p up) (λ b s (e, q).
        subst (λ b. Ends (rotate_as st at game d b) s (λ a s. Rotated v s)) (sym e) (as_leader s q))

  -- In the view after it, both places hold the state.
  pub in_memory :
      (s : HazardState) (v : View st)
      → (with_shared st at game d s (with_state st at game d s v)).states (state_key game d)
        ≡ some s
  in_memory s v = rw (eq_refl (state_key game d)) refl

  pub in_redis :
      (laws : Laws st) (s : HazardState) (v : View st)
      → st.get HazardState
          (with_shared st at game d s (with_state st at game d s v)).shared
          (redis_key game d)
        ≡ some s
  in_redis laws s v =
      laws.get-put HazardState v.shared (redis_key game d) s (redis_key game d)
      ∙ ap (λ b. if b then some s else st.get HazardState v.shared (redis_key game d))
          (eq_refl (redis_key game d))

-- Between two rotations the state before and the state after have the same active columns.
same_active :
    (t : ℕ) (prev s : HazardState)
    → prev.change_at ≤ t
    → t < s.change_at
    → s.current ≡ prev.next
    → get_active_pattern t (some s) ≡ get_active_pattern t (some prev)
unfolding get_active_pattern
same_active t prev s h k e = ground (arith, e)

module _ (st : Stores) (at : Site st) (game : String) (d : Difficulty) where
  -- If the server holds the lease, the calls of Redis for the lease and the states work, every
  -- draw of a pattern by the configuration ends, and Redis, or else the memory, has a state,
  -- then a rotation ends without an error with one new state both in memory and in Redis. Its
  -- current columns are the next ones of the state before, and it is due the refresh time
  -- later; at every time from the end of the state before to the end of the new one, a server
  -- that still has the state before and one that has the new one see the same active columns.
  pub rotate_game_difficulty_lem :
      (laws : Laws st) (w : Server st) (prev : HazardState) (t : ℕ)
      → w.leadership.lease ≡ some at.server_id
      → Up st at game d (config_at st at game d w)
      → previous st at game d (view_of st at game d w) ≡ some prev
      → prev.change_at ≤ t
      → t < at.now + refresh_of st at game d (config_at st at game d w)
      → Ends (rotate_game_difficulty st at game d) w (λ a w'.
        (s : HazardState) × (w'.states (state_key game d) ≡ some s)
        × (st.get HazardState w'.shared (redis_key game d) ≡ some s)
        × (s.change_at ≡ at.now + refresh_of st at game d (config_at st at game d w))
        × (s.current ≡ prev.next)
        × (get_active_pattern t (some s) ≡ get_active_pattern t (some prev)))
  rotate_game_difficulty_lem laws w prev t mine up before late early =
      weaken-Ends
        (λ a w' (s, turned, (used, mine', shown)). (
          s,
          ap (λ v. v.states (state_key game d)) shown ∙ in_memory st at game d c s v,
          ap (λ v. st.get HazardState v.shared (redis_key game d)) shown
              ∙ in_redis st at game d c laws s v,
          turned.due,
          turned.moved prev before,
          same_active t prev s late (subst (λ n. t < n) (sym turned.due) early)
              (turned.moved prev before),
        ))
        (rotate-Ends st at game d c up v w (refl, mine, refl))
    where
      c : GameConfig
      c = config_at st at game d w

      v : View st
      v = view_of st at game d w
