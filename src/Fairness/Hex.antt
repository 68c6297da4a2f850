-- ===== src/Fairness/Hex.antt =====
-- Hexadecimal texts: the format of a user seed, and the decimal value of a hash's first digits.
use Prim.Native.Char.{Char, code}
use Prim.Native.String.{String}
use chicken_road_b.Base.{
  ℕ, zero, suc, ◌+◌, ◌*◌, ◌-◌, ◌/◌, ◌%◌, ◌<◌, Bool, true, false, Option, none, some, ◌≡◌, refl,
  ◌&&◌, ◌||◌, arith, ltb, leb, ◌==◌, if◌then◌else◌, inl, inr, Bool-cases, ap₂,
}
use Prim.Native.Nat.{◌^◌}
use native.Mathlib.Nat.{one-le-pow, pow-succ', mul_assoc}

is_digit : Char → Bool
is_digit c = leb 48 (code c) && leb (code c) 57

is_lower_hex : Char → Bool
is_lower_hex c = leb 97 (code c) && leb (code c) 102

is_upper_hex : Char → Bool
is_upper_hex c = leb 65 (code c) && leb (code c) 70

-- `[0-9a-fA-F]`
is_hex : Char → Bool
unfolding is_digit is_lower_hex is_upper_hex
is_hex c = is_digit c || (is_lower_hex c || is_upper_hex c)

hex_run : ℕ → String → Bool
hex_run zero String.[] = true
hex_run zero (String.◌∷◌ c s) = false
hex_run (suc n) String.[] = false
hex_run (suc n) (String.◌∷◌ c s) = is_hex c && hex_run n s

-- `/^[0-9a-fA-F]{16}$/.test(seed)`
unfoldable pub is_seed : String → Bool
unfolding hex_run is_hex
is_seed s = hex_run 16 s

-- `toLowerCase` on the letters that a seed can have.
lower_char : Char → Char
lower_char c =
    if code c == 65
    then "a"
    else if code c == 66
    then "b"
    else if code c == 67
    then "c"
    else if code c == 68
    then "d"
    else if code c == 69
    then "e"
    else if code c == 70
    then "f"
    else c

unfoldable pub to_lower_case : String → String
unfolding lower_char
to_lower_case String.[] = String.[]
to_lower_case (String.◌∷◌ c s) = String.◌∷◌ (lower_char c) (to_lower_case s)

-- What holds of the six letters and of every character that is left alone.
lower_char_cases :
    (P : Char → Type 0) (c : Char)
    → P "a"
    → P "b"
    → P "c"
    → P "d"
    → P "e"
    → P "f"
    → (lower_char c ≡ c → P c)
    → P (lower_char c)
unfolding lower_char
lower_char_cases P c pa pb pc pd pe pf fixed = elim (Bool-cases (code c == 65)) [
  | inl e ↦ rw (e, lower_char) pa
  | inr n0 ↦ elim (Bool-cases (code c == 66)) [
    | inl e ↦ rw (n0, e, lower_char) pb
    | inr n1 ↦ elim (Bool-cases (code c == 67)) [
      | inl e ↦ rw (n0, n1, e, lower_char) pc
      | inr n2 ↦ elim (Bool-cases (code c == 68)) [
        | inl e ↦ rw (n0, n1, n2, e, lower_char) pd
        | inr n3 ↦ elim (Bool-cases (code c == 69)) [
          | inl e ↦ rw (n0, n1, n2, n3, e, lower_char) pe
          | inr n4 ↦ elim (Bool-cases (code c == 70)) [
            | inl e ↦ rw (n0, n1, n2, n3, n4, e, lower_char) pf
            | inr n5 ↦
                rw (n0, n1, n2, n3, n4, n5, lower_char)
                  (fixed (rw (n0, n1, n2, n3, n4, n5, lower_char) refl))
          ]
        ]
      ]
    ]
  ]
]

lower_char-is_hex : (c : Char) → is_hex c ≡ true → is_hex (lower_char c) ≡ true
unfolding is_hex
lower_char-is_hex c h =
    lower_char_cases (λ d. is_hex d ≡ true) c refl refl refl refl refl refl (λ _. h)

lower_char_idem : (c : Char) → lower_char (lower_char c) ≡ lower_char c
unfolding lower_char
lower_char_idem c =
    lower_char_cases (λ d. lower_char d ≡ d) c refl refl refl refl refl refl (λ e. e)

hex_run-to_lower_case :
    (n : ℕ) (s : String) → hex_run n s ≡ true → hex_run n (to_lower_case s) ≡ true
unfolding hex_run to_lower_case
hex_run-to_lower_case zero String.[] h = refl
hex_run-to_lower_case zero (String.◌∷◌ c s) h = cc
hex_run-to_lower_case (suc n) String.[] h = cc
hex_run-to_lower_case (suc n) (String.◌∷◌ c s) h =
    ground (arith, lower_char-is_hex c, hex_run-to_lower_case n s)

-- The seed that is stored is again a valid seed, and lowering it once more changes nothing.
pub to_lower_case-is_seed : (s : String) → is_seed s ≡ true → is_seed (to_lower_case s) ≡ true
unfolding is_seed
to_lower_case-is_seed s h = hex_run-to_lower_case 16 s h

pub to_lower_case_idem : (s : String) → to_lower_case (to_lower_case s) ≡ to_lower_case s
unfolding to_lower_case
to_lower_case_idem String.[] = refl
to_lower_case_idem (String.◌∷◌ c s) = ap₂ String.◌∷◌ (lower_char_idem c) (to_lower_case_idem s)

digit_value : Char → Option ℕ
unfolding is_digit is_lower_hex is_upper_hex
digit_value c =
    if is_digit c
    then some (code c - 48)
    else if is_lower_hex c
    then some (code c - 87)
    else if is_upper_hex c
    then some (code c - 55)
    else none

-- The value of the first `n` digits; `none` where the text has another character among them.
pub hex_value : ℕ → ℕ → String → Option ℕ
hex_value zero acc s = some acc
hex_value (suc n) acc String.[] = some acc
hex_value (suc n) acc (String.◌∷◌ c s) = elim (digit_value c) [
  | none ↦ none
  | some d ↦ hex_value n (acc * 16 + d) s
]

decimal_digit : ℕ → Char
decimal_digit n =
    if n == 0
    then "0"
    else if n == 1
    then "1"
    else if n == 2
    then "2"
    else if n == 3
    then "3"
    else if n == 4
    then "4"
    else if n == 5
    then "5"
    else if n == 6
    then "6"
    else if n == 7
    then "7"
    else if n == 8
    then "8"
    else "9"

show_from : ℕ → ℕ → String → String
unfolding decimal_digit
show_from zero n acc = acc
show_from (suc fuel) n acc =
    let acc' = String.◌∷◌ (decimal_digit (n % 10)) acc in
    let rest = show_from fuel (n / 10) acc' in if n / 10 == 0 then acc' else rest

-- `BigInt(n).toString()`: twenty-five digits hold every number below 16 ^ 20.
unfoldable pub show : ℕ → String
unfolding show_from
show n = show_from 25 n ""

-- `none` stands for the SyntaxError of `BigInt` on a text that is not hexadecimal or is empty.
unfoldable pub calculate_decimal : (ℕ → String) → String → Option String
unfolding hex_value digit_value show
calculate_decimal to_exponential String.[] = none
calculate_decimal to_exponential (String.◌∷◌ c s) = elim (hex_value 20 0 (String.◌∷◌ c s)) [
  | none ↦ none
  | some v ↦ if ltb (10 ^ 100) v then some (to_exponential v) else some (show v)
]

digit_value-lt : (c : Char) {d : ℕ} → digit_value c ≡ some d → d < 16
unfolding digit_value is_digit is_lower_hex is_upper_hex
digit_value-lt c e = ground arith

hex_value-lt :
    (n acc bound : ℕ) (s : String) {v : ℕ}
    → acc < bound
    → hex_value n acc s ≡ some v
    → v < bound * 16 ^ n
unfolding hex_value
hex_value-lt zero acc bound s h e = ground arith
hex_value-lt (suc n) acc bound String.[] h e = grind (arith, one-le-pow (suc n) 16 (omega arith))
hex_value-lt (suc n) acc bound (String.◌∷◌ c s) {v} h e =
    next (λ d. hex_value-lt n (acc * 16 + d) (bound * 16) s) (digit_value c) refl e
  where
    next :
        ((d : ℕ)
          → acc * 16 + d < bound * 16
          → hex_value n (acc * 16 + d) s ≡ some v
          → v < bound * 16 * 16 ^ n)
        → (o : Option ℕ) → digit_value c ≡ o
        → elim o [ none ↦ none | some d ↦ hex_value n (acc * 16 + d) s ] ≡ some v
        → v < bound * 16 ^ suc n
    next ih none q r = cc
    next ih (some d) q r =
        rw (pow-succ' 16 n)
          (omega (arith, mul_assoc bound 16 (16 ^ n), ih d (omega (arith, digit_value-lt c q)) r))

-- If the decimal of a hash is computed, it is the decimal notation of the value of the hash's
-- first twenty hexadecimal digits, which is below 16 ^ 20: the exponential notation is never
-- used.
pub calculate_decimal-eq_show :
    (to_exponential : ℕ → String) (hash : String) {r : String}
    → calculate_decimal to_exponential hash ≡ some r
    → (v : ℕ) × (hex_value 20 0 hash ≡ some v) × (v < 16 ^ 20) × (r ≡ show v)
unfolding calculate_decimal
calculate_decimal-eq_show to_exponential String.[] e = cc
calculate_decimal-eq_show to_exponential (String.◌∷◌ c s) {r} e =
    valued (hex_value 20 0 (String.◌∷◌ c s)) refl e
  where
    valued :
        (o : Option ℕ)
        → hex_value 20 0 (String.◌∷◌ c s) ≡ o
        → elim o [
          | none ↦ none
          | some v ↦ if ltb (10 ^ 100) v then some (to_exponential v) else some (show v)
        ]
          ≡ some r
        → (v : ℕ) × (hex_value 20 0 (String.◌∷◌ c s) ≡ some v) × (v < 16 ^ 20) × (r ≡ show v)
    valued none q h = cc
    valued (some v) q h =
        let small : v < 16 ^ 20 =
          omega (arith, hex_value-lt 20 0 1 (String.◌∷◌ c s) (omega arith) q) in
        (v, q, small, ground (arith))
