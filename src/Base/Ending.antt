-- ===== src/Base/Ending.antt =====
-- An action that ends well, with what holds of its result and of the state after it.
use mathlib.Core.Bool.{Bool, true, false}
use mathlib.Core.Path.{◌≡◌, refl, sym, ap, subst, ◌∙◌}
use mathlib.Core.Option.{Option, none, some}
use chicken_road_b.Base.Effects.{
  Action, Thrown, ok, pure, gets, modify, or_throw, catching, finally, ◌>>=◌, ◌>>◌, bind_run,
  catching_ok,
}
use chicken_road_b.Base.Tests.{if◌then◌else◌}

pub record Ends {S A : Type 0} (m : Action S A) (s : S) (Q : A → S → Type 0) : Type 0 where
  pub value : A
  pub after : S
  pub run : m s ≡ (ok value, after)
  pub post : Q value after

module _ {S A : Type 0} where
  pub pure-Ends : {Q : A → S → Type 0} (a : A) (s : S) → Q a s → Ends (pure a) s Q
  pure-Ends a s q = record { value = a; after = s; run = refl; post = q }

  pub gets-Ends : (f : S → A) (s : S) → Ends (gets f) s (λ a s'. (a ≡ f s) × (s' ≡ s))
  gets-Ends f s = record { value = f s; after = s; run = refl; post = (refl, refl) }

  pub or_throw-Ends :
      {Q : A → S → Type 0} (o : Option A) (e : Thrown) (s : S) {a : A}
      → o ≡ some a
      → Q a s
      → Ends (or_throw o e) s Q
  or_throw-Ends none e s h q = absurd (cc)
  or_throw-Ends {Q} (some b) e s {a} h q = pure-Ends b s (subst (λ x. Q x s) (same h) q)
    where
      same : some b ≡ some a → a ≡ b
      same h = cc

  pub if-Ends :
      {Q : A → S → Type 0} (b : Bool) {m k : Action S A} {s : S}
      → ((b ≡ true) → Ends m s Q)
      → ((b ≡ false) → Ends k s Q)
      → Ends (if b then m else k) s Q
  if-Ends true p q = p refl
  if-Ends false p q = q refl

  pub catching-Ends :
      {Q : A → S → Type 0} {m : Action S A} (h : Thrown → Action S A) {s : S}
      → Ends m s Q
      → Ends (catching m h) s Q
  catching-Ends {m = m} h {s} r = record {
    value = r.value;
    after = r.after;
    run = catching_ok m h s r.run;
    post = r.post;
  }

  pub finally-Ends :
      {Q : A → S → Type 0} {m : Action S A} (f : S → S) {s : S}
      → Ends m s (λ a s'. Q a (f s'))
      → Ends (finally m f) s Q
  finally-Ends f r = record {
    value = r.value;
    after = f r.after;
    run = ap (λ o. (o.0, f o.1)) r.run;
    post = r.post;
  }

module _ {S : Type 0} where
  pub modify-Ends : (f : S → S) (s : S) → Ends (modify f) s (λ a s'. s' ≡ f s)
  modify-Ends f s = record { value = tt; after = f s; run = refl; post = refl }

module _ {S A B : Type 0} {Q : A → S → Type 0} {R : B → S → Type 0} {s : S} where
  pub bind-Ends :
      {m : Action S A} {f : A → Action S B}
      → Ends m s Q
      → ((a : A) (s' : S) → Q a s' → Ends (f a) s' R)
      → Ends (m >>= f) s R
  bind-Ends {m} {f} r k =
      let q = k r.value r.after r.post in
      record { value = q.value; after = q.after; run = bind_run m f s r.run ∙ q.run; post = q.post }

  pub then-Ends :
      {m : Action S A} {k : Action S B}
      → Ends m s Q
      → ((a : A) (s' : S) → Q a s' → Ends k s' R)
      → Ends (m >> k) s R
  then-Ends {m} {k} r h =
      let q = h r.value r.after r.post in
      record {
        value = q.value;
        after = q.after;
        run = bind_run m (λ _. k) s r.run ∙ q.run;
        post = q.post;
      }

-- A read, and a write, before the rest.
module _ {S B : Type 0} {R : B → S → Type 0} where
  pub gets-bind-Ends :
      {A : Type 0} {k : A → Action S B} (f : S → A) (s : S)
      → ((a : A) → a ≡ f s → Ends (k a) s R)
      → Ends (gets f >>= k) s R
  gets-bind-Ends f s h =
      let q = h (f s) refl in
      record { value = q.value; after = q.after; run = q.run; post = q.post }

  pub modify-then-Ends :
      {k : Action S B} (f : S → S) (s : S) → Ends k (f s) R → Ends (modify f >> k) s R
  modify-then-Ends f s q = record { value = q.value; after = q.after; run = q.run; post = q.post }

-- A rest that depends on a value which is known.
pub known-Ends :
    {S A B : Type 0} {R : B → S → Type 0} {s : S} (f : A → Action S B) {a x : A}
    → x ≡ a
    → Ends (f a) s R
    → Ends (f x) s R
known-Ends {R = R} {s} f e r = subst (λ y. Ends (f y) s R) (sym e) r

pub weaken-Ends :
    {S A : Type 0} {s : S} {Q Q' : A → S → Type 0} {m : Action S A}
    → ((a : A) (s' : S) → Q a s' → Q' a s')
    → Ends m s Q
    → Ends m s Q'
weaken-Ends h r = record {
  value = r.value;
  after = r.after;
  run = r.run;
  post = h r.value r.after r.post;
}
