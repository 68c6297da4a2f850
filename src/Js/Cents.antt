-- ===== src/Js/Cents.antt =====
-- Amounts in thousandths: an instance of `Js` that computes, for amounts that are not negative.
use Prim.Native.Char.{code}
use chicken_road_b.Base.{
  ℕ, ◌+◌, ◌-◌, ◌*◌, ◌/◌, ◌%◌, String, Bool, true, not, leb, ◌&&◌, ◌||◌, [], ◌∷◌, ltb, ◌==◌,
  if◌then◌else◌, template,
}
use chicken_road_b.Js.{Js}
use chicken_road_b.Fairness.Hex.{show}

abbrev fraction : ℕ → ℕ → String → ℕ
fraction scale acc String.[] = acc
fraction scale acc (String.◌∷◌ c s) = fraction (scale / 10) (acc + scale * (code c - 48)) s

abbrev decimal : ℕ → String → ℕ
decimal acc String.[] = acc * 1000
decimal acc (String.◌∷◌ c s) =
    let rest = decimal (acc * 10 + (code c - 48)) s in
    if code c == 46 then fraction 100 (acc * 1000) s else rest

unfoldable pub fixed : ℕ → String
fixed n =
    template (show (n / 1000) ∷ "." ∷ show (n / 100 % 10) ∷ show (n / 10 % 10) ∷ show (n % 10) ∷ [])

-- A text of digits and points. What is no number is a number beyond all amounts.
abbrev is_numeral : String → Bool
is_numeral String.[] = true
is_numeral (String.◌∷◌ c s) = (code c == 46 || (leb 48 (code c) && leb (code c) 57)) && is_numeral s

abbrev no_number : ℕ
no_number = 1_000_000_000_000_000_000

abbrev pub cents : Js ℕ
cents = record {
  zero_num = 0;
  one_num = 1000;
  nan = no_number;
  add = λ a b. a + b;
  mul = λ a b. a * b / 1000;
  div = λ a b. a * 1000 / b;
  lt_num = λ a b. ltb a b && ltb b no_number;
  truthy = λ a. not (a == 0) && ltb a no_number;
  is_finite = λ a. ltb a no_number;
  parse_float = decimal 0;
  to_number = λ t. if is_numeral t then decimal 0 t else no_number;
  to_fixed = λ digits a. fixed a;
  to_text = fixed;
}
