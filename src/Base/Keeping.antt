-- ===== src/Base/Keeping.antt =====
-- Properties of the state that an action keeps, put together the way the action is.
use mathlib.Core.Bool.{Bool, true, false}
use mathlib.Core.Logic.{inl, inr}
use mathlib.Core.Option.{Option, none, some}
use chicken_road_b.Base.Tests.{if◌then◌else◌}
use chicken_road_b.Base.Effects.{
  Thrown, Action, pure, throw, or_throw, throw_if, catching, finally, ◌>>=◌, ◌>>◌, quietly,
  Result-cases, modify,
}

pub record Keeps {S A : Type 0} (P : S → Type 0) (m : Action S A) : Type 0 where
  pub run : (s : S) → P s → P (m s).1

module _ {S : Type 0} {P : S → Type 0} where
  -- An action after which the property holds by the property before, such as one that does not
  -- touch the state, or only the part of it that the property does not read.
  pub Keeps-by : {A : Type 0} {m : Action S A} → ((s : S) → P s → P (m s).1) → Keeps P m
  Keeps-by h = record { run = h }

  pub pure-Keeps : {A : Type 0} {a : A} → Keeps P (pure a)
  pure-Keeps = Keeps-by (λ s p. p)

  pub throw-Keeps : {A : Type 0} {e : Thrown} → Keeps {A = A} P (throw e)
  throw-Keeps = Keeps-by (λ s p. p)

  pub bind-Keeps :
      {A B : Type 0} {m : Action S A} {f : A → Action S B}
      → Keeps P m
      → ((a : A) → Keeps P (f a))
      → Keeps P (m >>= f)
  bind-Keeps {m = m} k l = Keeps-by (λ s p. elim (Result-cases (m s).0) [
    | inl (a, e) ↦ rw (e, ◌>>=◌) ((l a).run (m s).1 (k.run s p))
    | inr (x, e) ↦ rw (e, ◌>>=◌) (k.run s p)
  ])

  pub then-Keeps :
      {A B : Type 0} {m : Action S A} {f : Action S B} → Keeps P m → Keeps P f → Keeps P (m >> f)
  then-Keeps {m = m} k l = Keeps-by (λ s p. elim (Result-cases (m s).0) [
    | inl (a, e) ↦ rw (e, ◌>>=◌, ◌>>◌) (l.run (m s).1 (k.run s p))
    | inr (x, e) ↦ rw (e, ◌>>=◌, ◌>>◌) (k.run s p)
  ])

  pub catching-Keeps :
      {A : Type 0} {m : Action S A} {h : Thrown → Action S A}
      → Keeps P m
      → ((e : Thrown) → Keeps P (h e))
      → Keeps P (catching m h)
  catching-Keeps {m = m} k l = Keeps-by (λ s p. elim (Result-cases (m s).0) [
    | inl (a, e) ↦ rw (e, catching) (k.run s p)
    | inr (x, e) ↦ rw (e, catching) ((l x).run (m s).1 (k.run s p))
  ])

  pub finally-Keeps :
      {A : Type 0} {m : Action S A} {f : S → S}
      → Keeps P m
      → ((s : S) → P s → P (f s))
      → Keeps P (finally m f)
  finally-Keeps {m = m} k l = Keeps-by (λ s p. l (m s).1 (k.run s p))

  pub if-Keeps :
      {A : Type 0} (b : Bool) {m n : Action S A}
      → Keeps P m
      → Keeps P n
      → Keeps P (if b then m else n)
  if-Keeps true k l = k
  if-Keeps false k l = l

  pub or_throw-Keeps : {A : Type 0} (o : Option A) (e : Thrown) → Keeps P (or_throw o e)
  or_throw-Keeps none e = Keeps-by (λ s p. p)
  or_throw-Keeps (some a) e = Keeps-by (λ s p. p)

  pub throw_if-Keeps : (b : Bool) (e : Thrown) → Keeps P (throw_if b e)
  throw_if-Keeps true e = Keeps-by (λ s p. p)
  throw_if-Keeps false e = Keeps-by (λ s p. p)

  -- A change of the state after which the property holds again.
  pub modify-Keeps : {f : S → S} → ((s : S) → P s → P (f s)) → Keeps P (modify f)
  modify-Keeps h = Keeps-by h

  pub quietly-Keeps : {A : Type 0} {m : Action S A} → Keeps P m → Keeps P (quietly m)
  quietly-Keeps k = Keeps-by k.run

  -- The same from the state that a first action leaves.
  pub after_bind :
      {A B : Type 0} (m : Action S A) (f : A → Action S B) (s : S)
      → P (m s).1
      → ((a : A) → Keeps P (f a))
      → P ((m >>= f) s).1
  after_bind m f s p l = elim (Result-cases (m s).0) [
    | inl (a, e) ↦ rw (e, ◌>>=◌) ((l a).run (m s).1 p)
    | inr (x, e) ↦ rw (e, ◌>>=◌) p
  ]

  pub after_catching :
      {A : Type 0} (m : Action S A) (h : Thrown → Action S A) (s : S)
      → P (m s).1
      → ((e : Thrown) → Keeps P (h e))
      → P (catching m h s).1
  after_catching m h s p l = elim (Result-cases (m s).0) [
    | inl (a, e) ↦ rw (e, catching) p
    | inr (x, e) ↦ rw (e, catching) ((l x).run (m s).1 p)
  ]

-- From one property to another.
pub record Leads {S A : Type 0} (P Q : S → Type 0) (m : Action S A) : Type 0 where
  pub lead : (s : S) → P s → Q (m s).1

module _ {S : Type 0} {P : S → Type 0} (Q : S → Type 0) {R : S → Type 0} where
  -- `Q` holds after the first action; it implies `R`, for the case that the first one throws.
  pub bind-Leads :
      {A B : Type 0} {m : Action S A} {f : A → Action S B}
      → Leads P Q m
      → ((s : S) → Q s → R s)
      → ((a : A) → Leads Q R (f a))
      → Leads P R (m >>= f)
  bind-Leads {m = m} k imp l = record {
    lead = λ s p. elim (Result-cases (m s).0) [
      | inl (a, e) ↦ rw (e, ◌>>=◌) ((l a).lead (m s).1 (k.lead s p))
      | inr (x, e) ↦ rw (e, ◌>>=◌) (imp (m s).1 (k.lead s p))
    ];
  }

  pub then-Leads :
      {A B : Type 0} {m : Action S A} {f : Action S B}
      → Leads P Q m
      → ((s : S) → Q s → R s)
      → Leads Q R f
      → Leads P R (m >> f)
  then-Leads {m = m} k imp l = record {
    lead = λ s p. elim (Result-cases (m s).0) [
      | inl (a, e) ↦ rw (e, ◌>>=◌, ◌>>◌) (l.lead (m s).1 (k.lead s p))
      | inr (x, e) ↦ rw (e, ◌>>=◌, ◌>>◌) (imp (m s).1 (k.lead s p))
    ];
  }

pub pure-Leads :
    {S A : Type 0} {P Q : S → Type 0} {a : A} → ((s : S) → P s → Q s) → Leads P Q (pure {S = S} a)
pure-Leads h = record { lead = h }

pub Keeps-Leads : {S A : Type 0} {P : S → Type 0} {m : Action S A} → Keeps P m → Leads P P m
Keeps-Leads k = record { lead = k.run }

module _ {S A : Type 0} {P Q : S → Type 0} where
  pub catching-Leads :
      {m : Action S A} {h : Thrown → Action S A}
      → Leads P Q m
      → ((e : Thrown) → Keeps Q (h e))
      → Leads P Q (catching m h)
  catching-Leads {m} {h} k l = record { lead = λ s p. after_catching m h s (k.lead s p) l }

  -- The first action leads to the property, and the rest keeps it.
  pub first-Leads :
      {B : Type 0} {m : Action S A} {f : A → Action S B}
      → Leads P Q m
      → ((a : A) → Keeps Q (f a))
      → Leads P Q (m >>= f)
  first-Leads {m = m} {f = f} k l = record { lead = λ s p. after_bind m f s (k.lead s p) l }

  -- The first action keeps the property before, from which the rest leads on.
  pub second-Leads :
      {B : Type 0} {m : Action S A} {f : A → Action S B}
      → Keeps P m
      → ((s : S) → P s → Q s)
      → ((a : A) → Leads P Q (f a))
      → Leads P Q (m >>= f)
  second-Leads k imp l = bind-Leads P (Keeps-Leads k) imp l

  pub last-Leads :
      {B : Type 0} {m : Action S A} {f : Action S B}
      → Keeps P m
      → ((s : S) → P s → Q s)
      → Leads P Q f
      → Leads P Q (m >> f)
  last-Leads k imp l = then-Leads P (Keeps-Leads k) imp l

  pub if-Leads :
      (b : Bool) {m n : Action S A} → Leads P Q m → Leads P Q n → Leads P Q (if b then m else n)
  if-Leads true k l = k
  if-Leads false k l = l
