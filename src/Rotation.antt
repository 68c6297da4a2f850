-- ===== src/Rotation.antt =====
-- modules/hazard/hazard-scheduler.service.ts: which columns are hazards now, and which come next,
-- for each game and difficulty. Each server keeps states in memory; Redis has the shared ones, and
-- the leader replaces them in time. Timers are a set of keys; `setTimeout` itself, the expiry of a
-- key in Redis and what is only logged are left out. A draw of a pattern that would not end is an
-- error here.
pub mod Current
mod Calls
mod Turnover
mod Live
mod Tests
use chicken_road_b.Base.{
  ℕ, suc, ◌+◌, ◌*◌, String, Bool, true, false, ◌&&◌, ◌||◌, not, Option, none, some, List, [], ◌∷◌,
  str_eq, template, includes_text, is_some, or_else, take, ltb, leb, ◌==◌, if◌then◌else◌, Action,
  plain_error, io_error, pure, throw, throw_if, or_throw, gets, modify, catching, finally, quietly,
  zoom, ◌>>=◌, ◌>>◌,
}
use chicken_road_b.Stores.{
  Stores, Outage, lock_set, lock_del, hazard_get, hazard_set, history_push, publish, subscribe,
}
use chicken_road_b.Bets.{Difficulty, easy, medium, hard, daredevil}
use chicken_road_b.Hazard.{HazardState, generate_random_pattern}
use chicken_road_b.Leader.{Leadership}
use chicken_road_b.Leader

-- `totalColumns` of the stored configuration: one number, one for each difficulty, or missing.
pub data Columns : Type 0 where
  legacy : ℕ → Columns
  columns : (Difficulty → ℕ) → Columns
  no_columns : Columns

-- The stored `hazardConfig`; a number that is missing is 0 here, and 0 counts as missing there.
pub record RawConfig : Type 0 where
  pub total_columns : Columns
  pub hazard_refresh_ms : ℕ
  pub hazards : Option (Difficulty → ℕ)

pub record GameConfig : Type 0 where
  pub total_columns : Difficulty → ℕ
  pub hazard_refresh_ms : ℕ
  pub hazards : Difficulty → ℕ

abbrev pub default_columns : Difficulty → ℕ
default_columns easy = 30
default_columns medium = 25
default_columns hard = 22
default_columns daredevil = 18

abbrev pub default_hazards : Difficulty → ℕ
default_hazards easy = 3
default_hazards medium = 4
default_hazards hard = 5
default_hazards daredevil = 7

abbrev pub default_refresh_ms : ℕ
default_refresh_ms = 5000

-- `a || b` on numbers
abbrev pub or_number : ℕ → ℕ → ℕ
or_number a b = if a == 0 then b else a

abbrev pub columns_of : Columns → Difficulty → ℕ
columns_of (legacy n) d = n
columns_of (columns f) d = f d
columns_of no_columns d = default_columns d

-- A configuration that cannot be read, is missing or is no JSON is `none`.
unfoldable pub parse_config : Option RawConfig → GameConfig
parse_config none = record {
  total_columns = default_columns;
  hazard_refresh_ms = default_refresh_ms;
  hazards = default_hazards;
}
parse_config (some raw) = record {
  total_columns = columns_of raw.total_columns;
  hazard_refresh_ms = or_number raw.hazard_refresh_ms default_refresh_ms;
  hazards = or_else raw.hazards default_hazards;
}

abbrev pub difficulty_name : Difficulty → String
difficulty_name easy = "EASY"
difficulty_name medium = "MEDIUM"
difficulty_name hard = "HARD"
difficulty_name daredevil = "DAREDEVIL"

abbrev pub redis_key : String → Difficulty → String
redis_key game d = template ("hazards-" ∷ game ∷ "-" ∷ difficulty_name d ∷ [])

abbrev pub state_key : String → Difficulty → String
state_key game d = template (game ∷ "-" ∷ difficulty_name d ∷ [])

abbrev pub rotation_channel : String → Difficulty → String
rotation_channel game d = template ("hazard-rotation-" ∷ game ∷ "-" ∷ difficulty_name d ∷ [])

abbrev pub history_key : String → Difficulty → String
history_key game d = template ("hazards-history-" ∷ game ∷ "-" ∷ difficulty_name d ∷ [])

-- What one server sees: its own fields, and what it shares with the others.
pub record Server (st : Stores) : Type 0 where
  pub leadership : Leadership
  pub leads : Bool
  pub states : String → Option HazardState
  pub configs : String → Option GameConfig
  pub timers : List String
  pub subscribed : List String
  pub shared : st.Of HazardState
  pub history : st.Of (List HazardState)
  pub locks : st.Of String
  -- the rotations that were announced, the latest first
  pub published : List (String × HazardState)
  pub draws : ℕ

-- The clock, the server's id, the columns that the `n`-th draw picks on a board of a size, the
-- stored configurations, which calls fail, and what other servers write while this one waits.
pub record Site (st : Stores) : Type 0 where
  pub now : ℕ
  pub server_id : String
  pub picks : ℕ → ℕ → List ℕ
  pub raw_config : String → Option RawConfig
  pub down : Outage
  pub others : st.Of HazardState → st.Of HazardState

abbrev pub set_at : {V : Type 0} → String → Option V → (String → Option V) → String → Option V
set_at k v m j = if str_eq k j then v else m j

abbrev pub without : String → List String → List String
without k [] = []
without k (x ∷ xs) = let rest = without k xs in if str_eq x k then rest else x ∷ rest

abbrev pub with_text : String → List String → List String
with_text k xs = if includes_text k xs then xs else k ∷ xs

module _ (st : Stores) (at : Site st) where
  open at use {now, down}

  abbrev World : Type 0
  World = Server st

  abbrev pub on_leadership : {A : Type 0} → Action Leadership A → Action World A
  on_leadership = zoom (λ w. w.leadership) (λ l w. record w { leadership = l })

  unfoldable pub is_leader : Action World Bool
  is_leader = on_leadership (Leader.is_leader down at.server_id)

  abbrev pub set_state : String → HazardState → Action World (Unit {0})
  set_state key s = modify (λ w. record w { states = set_at key (some s) w.states })

  unfoldable pub redis_get : String → Action World (Option HazardState)
  redis_get key = do
    throw_if (down hazard_get) io_error
    gets (λ w. st.get HazardState w.shared key)

  unfoldable pub redis_set : String → HazardState → Action World (Unit {0})
  redis_set key s = do
    throw_if (down hazard_set) io_error
    modify (λ w. record w { shared = st.put HazardState w.shared key s })

  abbrev pub wait : Action World (Unit {0})
  wait = modify (λ w. record w { shared = at.others w.shared })

  unfoldable pub invalidate_game_config : String → World → World
  invalidate_game_config game w = record w { configs = set_at game none w.configs }

  -- The cached configuration, or the one that is read and then cached.
  unfoldable pub load_found : String → Option GameConfig → Action World GameConfig
  load_found game (some c) = pure c
  load_found game none = do
    let c = parse_config (at.raw_config game)
    modify (λ w. record w { configs = set_at game (some c) w.configs })
    pure c

  unfoldable pub load_game_config : String → Action World GameConfig
  load_game_config game = do found ← gets (λ w. w.configs game); load_found game found

  unfoldable pub get_total_columns : String → Difficulty → Action World ℕ
  get_total_columns game d = do
    c ← load_game_config game
    pure (or_number (c.total_columns d) (default_columns d))

  unfoldable pub get_hazard_count : String → Difficulty → Action World ℕ
  get_hazard_count game d = do
    c ← load_game_config game
    pure (or_number (c.hazards d) (default_hazards d))

  unfoldable pub get_refresh_ms : String → Action World ℕ
  get_refresh_ms game = do
    c ← load_game_config game
    pure (or_number c.hazard_refresh_ms default_refresh_ms)

  unfoldable pub draw : ℕ → ℕ → Action World (List ℕ)
  draw count total = do
    n ← gets (λ w. w.draws)
    modify (λ w. record w { draws = suc w.draws })
    or_throw (generate_random_pattern count total (at.picks n total)) (plain_error "no picks")

  -- Only the leader has a timer set, in place of the one that runs.
  unfoldable pub schedule_as : String → Difficulty → Bool → Action World (Unit {0})
  schedule_as game d true =
      modify (λ w. record w { leads = true; timers = with_text (state_key game d) w.timers })
  schedule_as game d false = modify (λ w. record w { leads = false })

  unfoldable pub schedule_rotation : String → Difficulty → Action World (Unit {0})
  schedule_rotation game d = do
    refresh ← get_refresh_ms game
    leader ← is_leader
    schedule_as game d leader

  unfoldable pub add_to_history : String → Difficulty → HazardState → Action World (Unit {0})
  add_to_history game d s = quietly (do
    throw_if (down history_push) io_error
    modify (λ w. record w {
      history =
          st.put (List HazardState) w.history (history_key game d)
            (take 20 (s ∷ or_else (st.get (List HazardState) w.history (history_key game d)) []));
    }))

  unfoldable pub notify_rotation : String → Difficulty → HazardState → Action World (Unit {0})
  notify_rotation game d s = quietly (do
    throw_if (down publish) io_error
    modify (λ w. record w { published = (rotation_channel game d, s) ∷ w.published }))

  unfoldable pub listen_as : String → Difficulty → Bool → Action World (Unit {0})
  listen_as game d true = pure tt
  listen_as game d false = quietly (do
    throw_if (down subscribe) io_error
    modify (λ w. record w { subscribed = rotation_channel game d ∷ w.subscribed }))

  unfoldable pub ensure_rotation_listener : String → Difficulty → Action World (Unit {0})
  ensure_rotation_listener game d = do
    subscribed ← gets (λ w. includes_text (rotation_channel game d) w.subscribed)
    listen_as game d subscribed

  -- The listener: a message that is JSON clears the local state.
  unfoldable pub on_rotation : String → Difficulty → Bool → World → World
  on_rotation game d is_json w =
      if is_json then record w { states = set_at (state_key game d) none w.states } else w

  abbrev pub state_of : String → Difficulty → ℕ → ℕ → List ℕ → List ℕ → HazardState
  state_of game d count refresh current next = record {
    game_code = game;
    difficulty = d;
    current = current;
    next = next;
    change_at = now + refresh;
    hazard_count = count;
    generated_at = now;
  }

  unfoldable pub stop_game_difficulty : String → Difficulty → World → World
  stop_game_difficulty game d w = record w { timers = without (state_key game d) w.timers }

  unfoldable pub stop_all : World → World
  stop_all w = record w { timers = [] }

  unfoldable pub on_module_init : Action World (Unit {0})
  on_module_init = do
    became ← on_leadership (Leader.try_become_leader down at.server_id)
    modify (λ w. record w { leads = became })

  -- `prevState?.next`, or a pattern that is drawn
  unfoldable pub next_or_draw : ℕ → ℕ → Option HazardState → Action World (List ℕ)
  next_or_draw count total none = draw count total
  next_or_draw count total (some prev) = pure prev.next

  abbrev pub or_state : Option HazardState → Option HazardState → Option HazardState
  or_state none s = s
  or_state (some r) s = some r

  unfoldable pub publish_state : String → Difficulty → HazardState → Action World (Unit {0})
  publish_state game d s = do
    set_state (state_key game d) s
    redis_set (redis_key game d) s
    notify_rotation game d s
    add_to_history game d s
    schedule_rotation game d

  unfoldable pub rotate_as : String → Difficulty → Bool → Action World (Unit {0})
  rotate_as game d false = modify (λ w. record w { leads = false })
  rotate_as game d true = do
    modify (λ w. record w { leads = true })
    count ← get_hazard_count game d
    refresh ← get_refresh_ms game
    stored ← redis_get (redis_key game d)
    local ← gets (λ w. w.states (state_key game d))
    total ← get_total_columns game d
    current ← next_or_draw count total (or_state stored local)
    next ← draw count total
    publish_state game d (state_of game d count refresh current next)

  unfoldable pub rotate_game_difficulty : String → Difficulty → Action World (Unit {0})
  rotate_game_difficulty game d = is_leader >>= rotate_as game d
