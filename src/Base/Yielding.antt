-- ===== src/Base/Yielding.antt =====
-- What holds of the result and of the state when an action ends without an error.
use mathlib.Core.Path.{◌≡◌, ◌∙◌}
use mathlib.Core.Logic.{inl, inr}
use mathlib.Core.Bool.{Bool, true, false}
use chicken_road_b.Base.Tests.{if◌then◌else◌}
use chicken_road_b.Base.Effects.{
  Thrown, ok, err, Action, pure, throw, catching, ◌>>=◌, ◌>>◌, Result-cases,
}
use chicken_road_b.Base.Keeping.{Keeps}

pub record Yields {S A : Type 0} (P : S → Type 0) (Q : A → S → Type 0) (m : Action S A)
    : Type 0 where
  pub out : (s : S) (a : A) → P s → (m s).0 ≡ ok a → Q a (m s).1

module _ {S : Type 0} {P : S → Type 0} where
  pub bind-Yields :
      {A B : Type 0} (Q : A → S → Type 0) {R : B → S → Type 0} {m : Action S A} {f : A → Action S B}
      → Yields P Q m
      → ((a : A) → Yields (Q a) R (f a))
      → Yields P R (m >>= f)
  bind-Yields Q {R} {m} {f} k l = record {
    out = λ s b p e. elim (Result-cases (m s).0) [
      | inl (a, h) ↦ rw (h, ◌>>=◌) ((l a).out (m s).1 b (k.out s a p h) (rw (h, ◌>>=◌) at e))
      | inr (x, h) ↦ absurd (thrown (rw (h, ◌>>=◌) at e))
    ];
  }
    where
      thrown : {C : Type 0} {x : Thrown} {b : C} → err x ≡ ok b → ⊥
      thrown q = cc

  pub then-Yields :
      {A B : Type 0} (Q : S → Type 0) {R : B → S → Type 0} {m : Action S A} {f : Action S B}
      → Yields P (λ _. Q) m
      → Yields Q R f
      → Yields P R (m >> f)
  then-Yields Q k l = bind-Yields (λ _. Q) k (λ _. l)

  -- An action whose errors are replaced by another one.
  pub rethrow-Yields :
      {A : Type 0} {Q : A → S → Type 0} {m : Action S A} (x : Thrown)
      → Yields P Q m
      → Yields P Q (catching m (λ e. throw x))
  rethrow-Yields {m = m} x k = record {
    out = λ s a p e. elim (Result-cases (m s).0) [
      | inl (b, h) ↦ rw (h, catching) (k.out s a p (h ∙ (rw (h, catching) at e)))
      | inr (y, h) ↦ absurd (thrown (rw (h, catching) at e))
    ];
  }
    where
      thrown : {C : Type 0} {x : Thrown} {b : C} → err x ≡ ok b → ⊥
      thrown q = cc

  pub if-Yields :
      {A : Type 0} {Q : A → S → Type 0} (b : Bool) {m n : Action S A}
      → Yields P Q m
      → Yields P Q n
      → Yields P Q (if b then m else n)
  if-Yields true k l = k
  if-Yields false k l = l

  pub Keeps-Yields : {A : Type 0} {m : Action S A} → Keeps P m → Yields P (λ (_ : A). P) m
  Keeps-Yields k = record { out = λ s a p _. k.run s p }

  pub pure-Yields :
      {A : Type 0} {Q : A → S → Type 0} {a : A} → ((s : S) → P s → Q a s) → Yields P Q (pure a)
  pure-Yields {Q = Q} h = record { out = λ s b p e. rw (same e) (h s p) }
    where
      same : {A : Type 0} {a b : A} → ok a ≡ ok b → b ≡ a
      same q = cc

-- An action whose errors become results.
pub recover-Yields :
    {S A : Type 0} {P : S → Type 0} {Q : A → S → Type 0} {m : Action S A} {h : Thrown → A}
    → Yields P Q m
    → ((e : Thrown) (s : S) → Q (h e) s)
    → Yields P Q (catching m (λ e. pure (h e)))
recover-Yields {Q = Q} {m = m} {h = h} k l = record {
  out = λ s a p e. elim (Result-cases (m s).0) [
    | inl (b, g) ↦ rw (g, catching) (k.out s a p (g ∙ (rw (g, catching) at e)))
    | inr (x, g) ↦ rw (g, catching) (rw (same (rw (g, catching) at e)) (l x (m s).1))
  ];
}
  where
    same : {C : Type 0} {a b : C} → ok a ≡ ok b → b ≡ a
    same q = cc
