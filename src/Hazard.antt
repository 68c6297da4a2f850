-- ===== src/Hazard.antt =====
-- modules/hazard/hazard-generator.service.ts and interfaces/hazard-state.interface.ts: the columns
-- that end a round. `Math.random` is not this repository's code: the columns it picks,
-- `Math.floor(Math.random() * totalColumns)`, are an argument.
pub mod Pattern
mod Tests
use chicken_road_b.Base.{
  ℕ, ◌-◌, ◌+◌, String, Bool, true, false, ◌&&◌, Option, none, some, List, [], ◌∷◌, ◌++◌, ltb, leb,
  ◌==◌, if◌then◌else◌, length, includes, sort_by, template,
}
use chicken_road_b.Bets.{Difficulty}

pub record HazardState : Type 0 where
  pub game_code : String
  pub difficulty : Difficulty
  pub current : List ℕ
  pub next : List ℕ
  pub change_at : ℕ
  pub hazard_count : ℕ
  pub generated_at : ℕ

abbrev pub min_of : ℕ → ℕ → ℕ
min_of a b = if leb a b then a else b

-- `Set.prototype.add`, in the order of insertion
abbrev pub add : ℕ → List ℕ → List ℕ
add x l = if includes x l then l else x ∷ l

-- The `while` loop; `none` where the picks run out first.
unfoldable pub collect : ℕ → List ℕ → List ℕ → Option (List ℕ)
collect count hazards [] = if ltb (length hazards) count then none else some hazards
collect count hazards (x ∷ picks) =
    let rest = collect count (add x hazards) picks in
    if ltb (length hazards) count then rest else some hazards

abbrev pub sorted : Option (List ℕ) → Option (List ℕ)
sorted none = none
sorted (some l) = some (sort_by leb l)

unfoldable pub generate_random_pattern : ℕ → ℕ → List ℕ → Option (List ℕ)
unfolding collect
generate_random_pattern hazard_count total_columns picks =
    sorted (collect (min_of hazard_count total_columns) [] picks)

unfoldable pub get_active_pattern : ℕ → Option HazardState → List ℕ
get_active_pattern now none = []
get_active_pattern now (some s) = if ltb now s.change_at then s.current else s.next

unfoldable pub is_column_hazard : ℕ → ℕ → Option HazardState → Bool
unfolding get_active_pattern
is_column_hazard now column none = false
is_column_hazard now column (some s) = includes column (get_active_pattern now (some s))

unfoldable pub get_time_until_change : ℕ → Option HazardState → ℕ
get_time_until_change now none = 0
get_time_until_change now (some s) = s.change_at - now

-- `changeAt > 0` and `hazardCount > 0`, for a state whose fields have their types
unfoldable pub validate_state : Option HazardState → Bool
validate_state none = false
validate_state (some s) = ltb 0 s.change_at && ltb 0 s.hazard_count

abbrev every_same : List ℕ → List ℕ → Bool
every_same [] [] = true
every_same (x ∷ l) (y ∷ m) = x == y && every_same l m
every_same _ _ = false

unfoldable pub patterns_equal : List ℕ → List ℕ → Bool
patterns_equal l m = length l == length m && every_same (sort_by leb l) (sort_by leb m)
