-- ===== src/Base/Effects.antt =====
-- An asynchronous method: state and exceptions. What was written before a throw stays written.
-- A record stands for every JavaScript error, with the fields that the code reads.
use Prim.Native.Nat.{ℕ}
use Prim.Native.String.{String}
use mathlib.Core.Bool.{Bool, true, false}
use mathlib.Core.Path.{◌≡◌, refl, ap}
use mathlib.Core.Logic.{◌⊎◌, inl, inr}
use mathlib.Core.Option.{Option, none, some}

pub record Thrown : Type 0 where
  -- `err.response`, and in it `err.response.status`
  pub response : Option (Option ℕ)
  pub code : Option String
  pub name : String
  pub message : String

-- `new Error(message)`
abbrev pub plain_error : String → Thrown
plain_error m = record { response = none; code = none; name = "Error"; message = m }

-- An exception class of the framework: its `response` is an object that has no `status`.
abbrev pub http_exception : String → String → Thrown
http_exception n m = record { response = some none; code = none; name = n; message = m }

abbrev pub not_found : String → Thrown
not_found = http_exception "NotFoundException"

abbrev pub conflict : String → Thrown
conflict = http_exception "ConflictException"

abbrev pub server_error : String → Thrown
server_error = http_exception "InternalServerErrorException"

-- What a client of Redis or of the database throws when the call fails.
abbrev pub io_error : Thrown
io_error = plain_error "connection lost"

pub data Result (A : Type 0) : Type 0 where
  ok : A → Result A
  err : Thrown → Result A

abbrev pub Action : Type 0 → Type 0 → Type 0
Action S A = S → Result A × S

module _ {S A : Type 0} where
  abbrev pub pure : A → Action S A
  pure a s = (ok a, s)

  abbrev pub throw : Thrown → Action S A
  throw e s = (err e, s)

  abbrev pub gets : (S → A) → Action S A
  gets f s = (ok (f s), s)

  abbrev pub or_throw : Option A → Thrown → Action S A
  or_throw none e = throw e
  or_throw (some a) e = pure a

  -- `try { m } catch (e) { h }`
  abbrev pub catching : Action S A → (Thrown → Action S A) → Action S A
  catching m h s = let (r, s') = m s in elim r [ ok a ↦ (ok a, s') | err e ↦ h e s' ]

  -- `try { m } finally { f }`, for an `f` that does not throw
  abbrev pub finally : Action S A → (S → S) → Action S A
  finally m f s = let (r, s') = m s in (r, f s')

infixl 5 ◌>>=◌ ◌>>◌
abbrev pub ◌>>=◌ : {S A B : Type 0} → Action S A → (A → Action S B) → Action S B
◌>>=◌ m f s = let (r, s') = m s in elim r [ ok a ↦ f a s' | err e ↦ (err e, s') ]

abbrev pub ◌>>◌ : {S A B : Type 0} → Action S A → Action S B → Action S B
m >> k = m >>= λ _. k

module _ {S : Type 0} where
  abbrev pub modify : (S → S) → Action S (Unit {0})
  modify f s = (ok tt, f s)

  -- A call that throws if the outside is down, and has no effect here otherwise.
  abbrev pub throw_if : Bool → Thrown → Action S (Unit {0})
  throw_if true e s = (err e, s)
  throw_if false e s = (ok tt, s)

  -- `try { m } catch { log }`
  abbrev pub quietly : {A : Type 0} → Action S A → Action S (Unit {0})
  quietly m s = (ok tt, (m s).1)

-- A service's action on its part of a larger state.
module _ {S T A : Type 0} where
  abbrev pub zoom : (S → T) → (T → S → S) → Action T A → Action S A
  zoom view update m s = let (r, t') = m (view s) in (r, update t' s)

pub Result-cases :
    {A : Type 0} (r : Result A) → ((a : A) × (r ≡ ok a)) ⊎ ((e : Thrown) × (r ≡ err e))
Result-cases (ok a) = inl (a, refl)
Result-cases (err e) = inr (e, refl)

-- An invariant of the state through a sequence, and the result of one that ends well.
module _ {S A B : Type 0} where
  pub bind_keeps :
      (P : S → Type 0) (m : Action S A) (f : A → Action S B) (s : S)
      → P (m s).1
      → ((a : A) → (m s).0 ≡ ok a → P (f a (m s).1).1)
      → P ((m >>= f) s).1
  bind_keeps P m f s h k = elim (Result-cases (m s).0) [
    | inl (a, e) ↦ rw (e, ◌>>=◌) (k a e)
    | inr (x, e) ↦ rw (e, ◌>>=◌) h
  ]

  pub bind_ok :
      (m : Action S A) (f : A → Action S B) (s : S) {b : B}
      → ((m >>= f) s).0 ≡ ok b
      → (a : A) × ((m s).0 ≡ ok a) × ((f a (m s).1).0 ≡ ok b)
  bind_ok m f s {b} h = elim (Result-cases (m s).0) [
    | inl (a, e) ↦ (a, e, rw (e, ◌>>=◌) at h)
    | inr (x, e) ↦ absurd (cc (rw (e, ◌>>=◌) at h))
  ]

-- A lookup that finds its row lets the action go on.
pub after_found :
    {S A B : Type 0} {a : A} (o : Option A) (e : Thrown) (k : S → Result B × S) {s : S}
    → o ≡ some a
    → (or_throw o e >> k) s ≡ k s
after_found (some a') e k f = refl
after_found none e k f = absurd (cc)

pub after_missing :
    {S A B : Type 0} (o : Option A) (e : Thrown) (k : S → Result B × S) {s : S}
    → o ≡ none
    → (or_throw o e >> k) s ≡ (err e, s)
after_missing none e k f = refl
after_missing (some a') e k f = absurd (cc)

-- A sequence whose first action is known to end well.
pub bind_run :
    {S A B : Type 0} (m : Action S A) (f : A → Action S B) (s : S) {a : A} {s' : S}
    → m s ≡ (ok a, s')
    → (m >>= f) s ≡ f a s'
bind_run {S} {A} {B} m f s e =
    ap
      (λ (o : Result A × S). (elim o.0 as (λ _. Result B × S) [
        | ok a ↦ f a o.1
        | err x ↦ (err x, o.1)
      ]))
      e

-- A `try` whose body is known to end well, or to throw.
module _ {S A : Type 0} (m : Action S A) (h : Thrown → Action S A) (s : S) {s' : S} where
  pub catching_ok : {a : A} → m s ≡ (ok a, s') → catching m h s ≡ (ok a, s')
  catching_ok {a} e = rw (catching, e) (ap (λ o. (ok a, o.1)) e)

  pub catching_err : {x : Thrown} → m s ≡ (err x, s') → catching m h s ≡ h x s'
  catching_err {x} e = rw (catching, e) (ap (λ o. h x o.1) e)
