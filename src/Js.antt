-- ===== src/Js.antt =====
-- JavaScript numbers: IEEE doubles are not among the kernel's numbers, so the type and the
-- operations that the code uses on it are a parameter. No law is built in: a theorem that needs
-- one states it among its hypotheses. `Js.Cents` has an instance that computes.
pub mod Cents
use chicken_road_b.Base.{ℕ, String, Bool, Option, none, some}

pub record Js (Num : Type 0) : Type 0 where
  pub zero_num : Num
  pub one_num : Num
  pub nan : Num
  pub add : Num → Num → Num
  pub mul : Num → Num → Num
  pub div : Num → Num → Num
  -- `a < b`, false when either is NaN
  pub lt_num : Num → Num → Bool
  -- a number as a condition: false for 0 and NaN
  pub truthy : Num → Bool
  pub is_finite : Num → Bool
  -- `parseFloat(text)` and `Number(text)`
  pub parse_float : String → Num
  pub to_number : String → Num
  -- `x.toFixed(digits)` and `String(x)`
  pub to_fixed : ℕ → Num → String
  pub to_text : Num → String

-- `Number(t)` and `parseFloat(t)`, where `t` may be `undefined`
module _ {Num : Type 0} (js : Js Num) where
  abbrev pub number_of : Option String → Num
  number_of none = js.nan
  number_of (some t) = js.to_number t

  abbrev pub float_of : Option String → Num
  float_of none = js.nan
  float_of (some t) = js.parse_float t
