-- ===== src/Refunds/Keys.antt =====
-- The key of a group, taken apart again.
use Prim.Native.String.{◌++◌ as join}
use text.Mathlib.TextLemmas.{nil-append, cons-append, append-nil}
use chicken_road_b.Base.{String, Bool, false, ◌||◌, ◌≡◌, refl, arith, str_eq, ◌∙◌, ap, ap₂}
use chicken_road_b.Bets.{Bet}
use chicken_road_b.Refunds.{group_key, split_key, before_colon, after_colon}

abbrev pub has_colon : String → Bool
has_colon String.[] = false
has_colon (String.◌∷◌ c s) = str_eq (String.◌∷◌ c "") ":" || has_colon s

module _ (r : String) where
  colon_first : join ":" r ≡ String.◌∷◌ ":" r
  colon_first = cons-append ":" "" r ∙ ap (λ t. String.◌∷◌ ":" t) (nil-append r)

  before_colon_lem : (s : String) → has_colon s ≡ false → before_colon (join s (join ":" r)) ≡ s
  unfolding before_colon
  before_colon_lem String.[] h = rw (nil-append (join ":" r), colon_first) refl
  before_colon_lem (String.◌∷◌ c s) h =
      rw (cons-append c s (join ":" r)) (ground (arith, before_colon_lem s))

  after_colon_lem : (s : String) → has_colon s ≡ false → after_colon (join s (join ":" r)) ≡ r
  unfolding after_colon
  after_colon_lem String.[] h = rw (nil-append (join ":" r), colon_first) refl
  after_colon_lem (String.◌∷◌ c s) h =
      rw (cons-append c s (join ":" r)) (ground (arith, after_colon_lem s))

before_colon_none : (s : String) → has_colon s ≡ false → before_colon s ≡ s
unfolding before_colon
before_colon_none String.[] h = refl
before_colon_none (String.◌∷◌ c s) h = ground (arith, before_colon_none s)

-- A bet whose player and operator have no colon in their ids.
abbrev pub IsPlain : Bet → Type 0
IsPlain b = (has_colon b.user_id ≡ false) × (has_colon b.operator_id ≡ false)

pub split_key-group_key :
    (b : Bet) → IsPlain b → split_key (group_key b) ≡ (b.user_id, b.operator_id)
unfolding split_key
split_key-group_key b (u, o) =
    ap₂ (λ x y. (x, y)) (before_colon_lem (join b.operator_id "") b.user_id u)
      (rw (after_colon_lem (join b.operator_id "") b.user_id u, append-nil b.operator_id)
        (before_colon_none b.operator_id o))
