-- ===== src/Hazard/Tests.antt =====
-- A pattern of three columns out of five.
use chicken_road_b.Base.{ℕ, ◌<◌, some, List, [], ◌∷◌, ◌≡◌, refl, arith, All, length, sort_by}
use chicken_road_b.Hazard.{min_of, generate_random_pattern}
use chicken_road_b.Hazard.Pattern.{Ascending, generate_random_pattern_lem}

abbrev picks : List ℕ
picks = 4 ∷ 1 ∷ 4 ∷ 0 ∷ 3 ∷ []

generate_random_pattern_example :
    (l : List ℕ) × (generate_random_pattern 3 5 picks ≡ some l)
    × (length l ≡ min_of 3 5)
    × Ascending l
    × All (λ x. x < 5) l
generate_random_pattern_example =
    generate_random_pattern_lem 3 5 picks
      (omega arith, (omega arith, (omega arith, (omega arith, (omega arith, tt))))) (omega arith)

three_of_five : generate_random_pattern 3 5 picks ≡ some (0 ∷ 1 ∷ 4 ∷ [])
unfolding generate_random_pattern sort_by
three_of_five = refl
