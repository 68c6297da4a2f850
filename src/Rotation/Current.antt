-- ===== src/Rotation/Current.antt =====
-- The state that a server answers with: from memory, from Redis, by a rotation if it has expired,
-- or by an initialization if there is none; and the calls that force one of these.
use chicken_road_b.Base.{
  ℕ, String, Bool, true, false, ◌&&◌, ◌||◌, not, Option, none, some, List, [], ◌∷◌, template,
  includes_text, is_some, ltb, leb, ◌==◌, if◌then◌else◌, Action, plain_error, pure, throw, gets,
  modify, catching, finally, quietly, ◌>>=◌, ◌>>◌,
}
use chicken_road_b.Stores.{Stores, lock_set, lock_del}
use chicken_road_b.Bets.{Difficulty, easy, medium, hard, daredevil}
use chicken_road_b.Hazard.{HazardState, get_active_pattern, is_column_hazard}
use chicken_road_b.Rotation.{
  Server, Site, GameConfig, redis_key, state_key, set_at, is_leader, set_state, redis_get,
  redis_set, wait, get_hazard_count, get_refresh_ms, get_total_columns, draw, state_of,
  add_to_history, ensure_rotation_listener, schedule_rotation, rotate_game_difficulty,
}

-- The bounds of `updateRefreshInterval`.
abbrev pub refresh_min_ms : ℕ
refresh_min_ms = 2000

abbrev pub refresh_max_ms : ℕ
refresh_max_ms = 30000

module _ (st : Stores) (at : Site st) where
  open at use {now, down}

  abbrev World : Type 0
  World = Server st

  abbrev pub local : String → Difficulty → Action World (Option HazardState)
  local game d = gets (λ w. w.states (state_key game d))

  abbrev pub lock_key : String → Difficulty → String
  lock_key game d = template ("lock:" ∷ redis_key game d ∷ [])

  -- `SET key 1 NX`: an error counts as a lock that is not acquired.
  unfoldable pub acquire_as : String → Bool → Action World Bool
  acquire_as key true = pure false
  acquire_as key false = do
    modify (λ w. record w { locks = st.put String w.locks key "1" })
    pure true

  unfoldable pub acquire_lock : String → Action World Bool
  acquire_lock key = do
    held ← gets (λ w. is_some (st.get String w.locks key))
    acquire_as key (down lock_set || held)

  unfoldable pub release_lock : String → World → World
  release_lock key w = if down lock_del then w else record w { locks = st.del String w.locks key }

  -- A state that was found in Redis is kept in memory.
  unfoldable pub adopt : String → Difficulty → HazardState → Action World (Unit {0})
  adopt game d s = do set_state st at (state_key game d) s; ensure_rotation_listener st at game d

  -- A state of two drawn patterns, kept in memory.
  unfoldable pub fresh_state : String → Difficulty → Action World HazardState
  fresh_state game d = do
    count ← get_hazard_count st at game d
    refresh ← get_refresh_ms st at game
    total ← get_total_columns st at game d
    current ← draw st at count total
    next ← draw st at count total
    let s = state_of st at game d count refresh current next
    set_state st at (state_key game d) s
    pure s

  unfoldable pub create : String → Difficulty → Action World (Unit {0})
  create game d = do
    s ← fresh_state game d
    redis_set st at (redis_key game d) s
    add_to_history st at game d s
    ensure_rotation_listener st at game d
    schedule_rotation st at game d

  -- What the check under the lock finds; what the look into Redis after the wait finds; whether
  -- the lock was acquired; what the look into Redis and the one into memory find.
  unfoldable pub init_checked : String → Difficulty → Option HazardState → Action World (Unit {0})
  init_checked game d (some s) = adopt game d s
  init_checked game d none = create game d

  unfoldable pub init_body : String → Difficulty → Action World (Unit {0})
  init_body game d = redis_get st at (redis_key game d) >>= init_checked game d

  unfoldable pub init_waited : String → Difficulty → Option HazardState → Action World (Unit {0})
  init_waited game d (some s) = adopt game d s
  init_waited game d none = init_body game d

  unfoldable pub init_locked : String → Difficulty → Bool → Action World (Unit {0})
  init_locked game d true = finally (init_body game d) (release_lock (lock_key game d))
  init_locked game d false = do
    wait st at
    found ← redis_get st at (redis_key game d)
    init_waited game d found

  unfoldable pub init_shared : String → Difficulty → Option HazardState → Action World (Unit {0})
  init_shared game d (some s) = adopt game d s
  init_shared game d none = acquire_lock (lock_key game d) >>= init_locked game d

  unfoldable pub init_missing : String → Difficulty → Option HazardState → Action World (Unit {0})
  init_missing game d (some s) = pure tt
  init_missing game d none = redis_get st at (redis_key game d) >>= init_shared game d

  unfoldable pub initialize_game_difficulty : String → Difficulty → Action World (Unit {0})
  initialize_game_difficulty game d = local game d >>= init_missing game d

  -- `!state || (state.changeAt && now >= state.changeAt)`
  abbrev pub is_stale : Option HazardState → Bool
  is_stale none = true
  is_stale (some s) = not (s.change_at == 0) && leb s.change_at now

  -- A state of Redis replaces the one in memory.
  unfoldable pub take_shared :
      String
      → Difficulty
      → Option HazardState
      → Option HazardState
      → Action World (Option HazardState)
  take_shared game d old none = pure old
  take_shared game d old (some s) = do set_state st at (state_key game d) s; pure (some s)

  unfoldable pub refreshed :
      String → Difficulty → Option HazardState → Action World (Option HazardState)
  refreshed game d old =
      if is_stale old
      then (redis_get st at (redis_key game d) >>= take_shared game d old)
      else pure old

  -- A follower takes the state of Redis if it is a later one.
  unfoldable pub take_newer :
      String → Difficulty → HazardState → Option HazardState → Action World (Option HazardState)
  take_newer game d s none = pure (some s)
  take_newer game d s (some fresh) =
      if ltb s.change_at fresh.change_at
      then (do set_state st at (state_key game d) fresh; pure (some fresh))
      else pure (some s)

  unfoldable pub renewed_as :
      String → Difficulty → HazardState → Bool → Action World (Option HazardState)
  renewed_as game d s true = do rotate_game_difficulty st at game d; local game d
  renewed_as game d s false = redis_get st at (redis_key game d) >>= take_newer game d s

  unfoldable pub renewed :
      String → Difficulty → Option HazardState → Action World (Option HazardState)
  renewed game d none = pure none
  renewed game d (some s) =
      if leb s.change_at now then (is_leader st at >>= renewed_as game d s) else pure (some s)

  -- The state that is made if the initialization fails; it stands even if Redis cannot store it.
  unfoldable pub fallback : String → Difficulty → Action World (Option HazardState)
  fallback game d =
      catching
        (do s ← fresh_state game d; quietly (redis_set st at (redis_key game d) s); pure (some s))
        (λ e. pure none)

  -- What an initialization by a follower left in memory.
  unfoldable pub follower_made :
      String → Difficulty → Option HazardState → Action World (Option HazardState)
  follower_made game d (some s) = pure (some s)
  follower_made game d none = do
    s ← fresh_state game d
    quietly (do redis_set st at (redis_key game d) s; ensure_rotation_listener st at game d)
    pure (some s)

  -- What a follower finds in Redis after it has waited for the leader.
  unfoldable pub follower_found :
      String → Difficulty → Option HazardState → Action World (Option HazardState)
  follower_found game d (some s) = do adopt game d s; pure (some s)
  follower_found game d none =
      catching
        (do initialize_game_difficulty game d; made ← local game d; follower_made game d made)
        (λ e. pure none)

  unfoldable pub made_as : String → Difficulty → Bool → Action World (Option HazardState)
  made_as game d true =
      catching (do initialize_game_difficulty game d; local game d) (λ e. fallback game d)
  made_as game d false = do
    wait st at
    found ← redis_get st at (redis_key game d)
    follower_found game d found

  unfoldable pub made : String → Difficulty → Option HazardState → Action World (Option HazardState)
  made game d (some s) = pure (some s)
  made game d none = is_leader st at >>= made_as game d

  unfoldable pub get_current_state : String → Difficulty → Action World (Option HazardState)
  get_current_state game d = do
    old ← local game d
    found ← refreshed game d old
    live ← renewed game d found
    made game d live

  unfoldable pub get_active_hazards : String → Difficulty → Action World (List ℕ)
  get_active_hazards game d = do s ← get_current_state game d; pure (get_active_pattern now s)

  unfoldable pub is_hazard : String → Difficulty → ℕ → Action World Bool
  is_hazard game d column = do s ← get_current_state game d; pure (is_column_hazard now column s)

  unfoldable pub get_all_states_for_game :
      String → Action World (List (Difficulty × Option HazardState))
  get_all_states_for_game game = do
    a ← get_current_state game easy
    b ← get_current_state game medium
    c ← get_current_state game hard
    e ← get_current_state game daredevil
    pure ((easy, a) ∷ (medium, b) ∷ (hard, c) ∷ (daredevil, e) ∷ [])

  unfoldable pub force_rotate : String → Difficulty → Action World (Option HazardState)
  force_rotate game d = do
    leader ← is_leader st at
    if leader
        then (do rotate_game_difficulty st at game d; local game d)
        else throw (plain_error "Cannot force rotate: not leader.")

  unfoldable pub or_failed : Option HazardState → Action World HazardState
  or_failed (some s) = pure s
  or_failed none = throw (plain_error "Failed to initialize hazards")

  unfoldable pub force_initialize : String → Difficulty → Action World HazardState
  force_initialize game d = do
    initialize_game_difficulty game d
    made ← local game d
    or_failed made

  unfoldable pub load_initial_state_from_redis :
      String → Difficulty → Action World (Option HazardState)
  load_initial_state_from_redis game d =
      catching (redis_get st at (redis_key game d) >>= take_shared game d none) (λ e. pure none)

  -- A timer that runs is set again.
  unfoldable pub reschedule : String → Difficulty → Action World (Unit {0})
  reschedule game d = do
    running ← gets (λ w. includes_text (state_key game d) w.timers)
    if running then schedule_rotation st at game d else pure tt

  abbrev pub with_refresh : ℕ → Option GameConfig → Option GameConfig
  with_refresh ms none = none
  with_refresh ms (some c) = some (record c { hazard_refresh_ms = ms })

  unfoldable pub update_refresh_interval : String → ℕ → Action World (Unit {0})
  update_refresh_interval game ms =
      if ltb ms refresh_min_ms || ltb refresh_max_ms ms
      then throw (plain_error "Refresh interval must be between 2000ms and 30000ms")
      else (do
        modify
            (λ w. record w { configs = set_at game (with_refresh ms (w.configs game)) w.configs })
        reschedule game easy
        reschedule game medium
        reschedule game hard
        reschedule game daredevil)
