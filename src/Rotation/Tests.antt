-- ===== src/Rotation/Tests.antt =====
-- A server `a` that leads, with the default configuration: a first state, and a rotation of it.
use chicken_road_b.Base.{
  ◌+◌, ◌≡◌, refl, arith, true, none, some, [], ◌∷◌, ok, Ends, sort_by, insert_by,
}
use chicken_road_b.Stores.{none_down}
use chicken_road_b.Stores.Assoc.{assoc, assoc-Laws}
use chicken_road_b.Bets.{easy}
use chicken_road_b.Hazard.{HazardState, collect, get_active_pattern, generate_random_pattern}
use chicken_road_b.Leader
use chicken_road_b.Leader.{note_leader, read_lease}
use chicken_road_b.Rotation.{
  Server, Site, parse_config, state_key, redis_key, rotate_game_difficulty, redis_get, is_leader,
  add_to_history, draw, ensure_rotation_listener, get_hazard_count, get_refresh_ms,
  get_total_columns, listen_as, load_found, load_game_config, redis_set, schedule_as,
  schedule_rotation,
}
use chicken_road_b.Rotation.Calls.{Up, config_at}
use chicken_road_b.Rotation.Current.{
  get_current_state, refreshed, take_shared, renewed, made, made_as, initialize_game_difficulty,
  init_missing, init_shared, acquire_lock, acquire_as, init_locked, init_body, init_checked, create,
  fresh_state, release_lock,
}
use chicken_road_b.Rotation.Turnover.{rotate_game_difficulty_lem}
use chicken_road_b.Rotation.Live.{Live, get_current_state-Live}

abbrev site : Site assoc
site = record {
  now = 9000;
  server_id = "a";
  picks = λ n total. 7 ∷ 7 ∷ 12 ∷ 5 ∷ 6 ∷ [];
  raw_config = λ game. none;
  down = none_down;
  others = λ t. t;
}

abbrev first : HazardState
first = record {
  game_code = "road";
  difficulty = easy;
  current = 1 ∷ 2 ∷ 3 ∷ [];
  next = 4 ∷ 5 ∷ 6 ∷ [];
  change_at = 9000;
  hazard_count = 3;
  generated_at = 4000;
}

abbrev server : Server assoc
server = record {
  leadership = record { lease = some "a"; is_currently_leader = true; renewing = true };
  leads = true;
  states = λ k. none;
  configs = λ game. none;
  timers = [];
  subscribed = [];
  shared = [];
  history = [];
  locks = [];
  published = [];
  draws = 0;
}

abbrev later : Server assoc
later = record server { shared = (redis_key "road" easy, first) ∷ [] }

site-Up : Up assoc site "road" easy (config_at assoc site "road" easy server)
unfolding parse_config generate_random_pattern sort_by
site-Up = record { leader = refl; read = refl; write = refl; drawn = λ n. (5 ∷ 7 ∷ 12 ∷ [], refl) }

rotate_game_difficulty_example : Ends (rotate_game_difficulty assoc site "road" easy) later (λ a w'.
    (s : HazardState) × (w'.states (state_key "road" easy) ≡ some s)
    × (assoc.get HazardState w'.shared (redis_key "road" easy) ≡ some s)
    × (s.change_at ≡ 9000 + 5000)
    × (s.current ≡ 4 ∷ 5 ∷ 6 ∷ [])
    × (get_active_pattern 13999 (some s) ≡ get_active_pattern 13999 (some first)))
unfolding parse_config
rotate_game_difficulty_example =
    rotate_game_difficulty_lem assoc site "road" easy assoc-Laws later first 13999 refl site-Up refl
      (omega arith) (omega arith)

get_current_state-Live_example :
    Ends (get_current_state assoc site "road" easy) server (λ o w'. Live assoc site o)
get_current_state-Live_example =
    get_current_state-Live assoc site "road" easy server refl site-Up (refl, refl)

-- The first answer of a server that has nothing.
made_state :
    (get_current_state assoc site "road" easy server).0
    ≡ ok (
        some (record first {
          current = 5 ∷ 7 ∷ 12 ∷ [];
          next = 5 ∷ 7 ∷ 12 ∷ [];
          change_at = 14000;
          generated_at = 9000;
        }))
unfolding get_current_state refreshed redis_get take_shared renewed made is_leader Leader.is_leader
    made_as initialize_game_difficulty init_missing init_shared acquire_lock acquire_as init_locked
    init_body init_checked create fresh_state insert_by sort_by collect generate_random_pattern
    note_leader read_lease release_lock add_to_history draw ensure_rotation_listener
    get_hazard_count get_refresh_ms get_total_columns listen_as load_found load_game_config
    parse_config redis_set schedule_as schedule_rotation
made_state = refl
