-- ===== src/Fairness/Tests.antt =====
-- The theorems on seeds, applied to one player's entry.
use chicken_road_b.Base.{ℕ, ◌+◌, ◌<◌, true, some, [], ◌∷◌, ◌≡◌, refl, arith, ok, template, eq_iff}
use Prim.Native.Nat.{◌^◌}
use chicken_road_b.Stores.{none_down}
use chicken_road_b.Stores.Assoc.{assoc, assoc-Laws}
use chicken_road_b.Bets.{BetFairness}
use chicken_road_b.Fairness.{
  FairnessData, Seeds, get_or_create_fairness, set_user_seed, rotate_seeds,
  generate_fairness_data_for_bet,
}
use chicken_road_b.Fairness.Hex.{
  is_seed, to_lower_case, hex_value, show, calculate_decimal, to_lower_case-is_seed,
  calculate_decimal-eq_show,
}
use chicken_road_b.Fairness.Commitment.{
  IsCommitted, operations-IsCommitted, get_or_create_twice, rotate_seeds_lem, set_user_seed_keeps,
  generate_fairness_data_verifies,
}
use chicken_road_b.Samples.{crypto}

abbrev entry : FairnessData
entry = record {
  user_seed = "0123456789abcdef";
  server_seed = "5e";
  hashed_server_seed = "abcd";
  nonce = 4;
  created_at = 1;
  updated_at = 1;
}

abbrev seeds : Seeds assoc
seeds = record { entries = ("fairness:u-op", entry) ∷ []; draws = 7 }

seeds-IsCommitted : IsCommitted assoc crypto seeds
seeds-IsCommitted k d e = ground (arith, eq_iff "fairness:u-op" k)

operations-IsCommitted_example :
    IsCommitted assoc crypto (get_or_create_fairness assoc none_down crypto 9 "u" "op" seeds).1
    × IsCommitted assoc crypto
        (set_user_seed assoc none_down crypto 9 "u" "op" "ABCDEF0123456789" seeds).1
    × IsCommitted assoc crypto (rotate_seeds assoc none_down crypto 9 "u" "op" seeds).1
operations-IsCommitted_example =
    operations-IsCommitted assoc assoc-Laws none_down crypto 9 "u" "op" "ABCDEF0123456789" seeds
      seeds-IsCommitted

-- The player has rotated no seed, but others have been drawn.
get_or_create_twice_example :
    get_or_create_fairness assoc none_down crypto 20 "u" "op" (record seeds { draws = 9 })
    ≡ (ok entry, record seeds { draws = 9 })
unfolding get_or_create_fairness
get_or_create_twice_example =
    get_or_create_twice assoc assoc-Laws none_down crypto 9 20 "u" "op" seeds
      (record seeds { draws = 9 }) refl refl

rotate_seeds_example :
    let (r, s') = rotate_seeds assoc none_down crypto 9 "u" "op" seeds in
    (d : FairnessData) × (r ≡ ok d)
    × (assoc.get FairnessData s'.entries "fairness:u-op" ≡ some d)
    × (d.nonce ≡ 4 + 1)
    × (d.user_seed ≡ "0123456789abcdef")
    × (d.server_seed ≡ crypto.random_hex 32 7)
    × (d.hashed_server_seed ≡ crypto.sha256 (crypto.random_hex 32 7))
    × (s'.draws ≡ 7 + 1)
rotate_seeds_example =
    rotate_seeds_lem assoc assoc-Laws none_down crypto 9 "u" "op" seeds {old = entry} refl refl refl

upper_case_seed_kept :
    let (r, s') = set_user_seed assoc none_down crypto 9 "u" "op" "ABCDEF0123456789" seeds in
    (d : FairnessData) × (r ≡ ok d)
    × (assoc.get FairnessData s'.entries "fairness:u-op" ≡ some d)
    × (is_seed d.user_seed ≡ true)
    × (d.server_seed ≡ "5e")
    × (d.hashed_server_seed ≡ "abcd")
    × (d.nonce ≡ 4)
unfolding is_seed
upper_case_seed_kept =
    set_user_seed_keeps assoc assoc-Laws none_down crypto 9 "u" "op" "ABCDEF0123456789" seeds
      {old = entry} refl refl refl refl

abbrev revealed : BetFairness
revealed = record {
  decimal = "43981";
  client_seed = "0123456789abcdef";
  server_seed = "5e";
  combined_hash = "abcd";
  hashed_server_seed = "abcd";
}

generate_fairness_data_verifies_example :
    (revealed.client_seed ≡ "0123456789abcdef")
    × (revealed.server_seed ≡ "5e")
    × (revealed.hashed_server_seed ≡ entry.hashed_server_seed)
    × (crypto.sha256 "5e" ≡ entry.hashed_server_seed)
    × (revealed.combined_hash ≡ crypto.sha256 (template ("0123456789abcdef" ∷ "5e" ∷ [])))
    × (generate_fairness_data_for_bet crypto "0123456789abcdef" "5e" ≡ some revealed)
    × ((v : ℕ) × (hex_value 20 0 (crypto.sha256 (template ("0123456789abcdef" ∷ "5e" ∷ [])))
          ≡ some v)
        × (revealed.decimal ≡ show v))
unfolding generate_fairness_data_for_bet calculate_decimal
generate_fairness_data_verifies_example =
    generate_fairness_data_verifies crypto entry {f = revealed} refl refl

to_lower_case-is_seed_example : is_seed (to_lower_case "ABCDEF0123456789") ≡ true
unfolding is_seed
to_lower_case-is_seed_example = to_lower_case-is_seed "ABCDEF0123456789" refl

calculate_decimal-eq_show_example :
    (v : ℕ) × (hex_value 20 0 "abcd" ≡ some v) × (v < 16 ^ 20) × ("43981" ≡ show v)
unfolding calculate_decimal
calculate_decimal-eq_show_example = calculate_decimal-eq_show (λ n. "") "abcd" refl
