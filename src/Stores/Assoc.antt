-- ===== src/Stores/Assoc.antt =====
-- Stores as association lists: they satisfy the laws and compute.
use chicken_road_b.Base.{
  String, Bool, true, false, Option, none, some, List, [], ◌∷◌, ◌≡◌, refl, arith, str_eq, eq_iff,
  if◌then◌else◌, includes_text, ap, sym, inl, inr, Bool-cases, eq_refl,
}
use mathlib.Core.List.{Memᴰ}
use chicken_road_b.Stores.{Stores, Laws, unless}

abbrev Rows : Type 0 → Type 0
Rows V = List (String × V)

module _ {V : Type 0} where
  abbrev pub lookup : String → Rows V → Option V
  lookup k [] = none
  lookup k ((j, v) ∷ t) = if str_eq j k then some v else lookup k t

  abbrev pub erase : String → Rows V → Rows V
  erase k [] = []
  erase k ((j, v) ∷ t) = let rest = erase k t in if str_eq j k then rest else (j, v) ∷ rest

  -- The values that are not shadowed by an earlier row of their key.
  abbrev pub values : (V → Bool) → List String → Rows V → List V
  values p seen [] = []
  values p seen ((k, v) ∷ t) =
      let rest = values p (k ∷ seen) t in
      if includes_text k seen then rest else if p v then v ∷ rest else rest

  abbrev pub sift : (V → Bool) → List String → Rows V → Rows V
  sift p seen [] = []
  sift p seen ((k, v) ∷ t) =
      let rest = sift p (k ∷ seen) t in
      if includes_text k seen then rest else if p v then rest else (k, v) ∷ rest

  lookup-erase :
      (k j : String) (t : Rows V) → lookup j (erase k t) ≡ (if str_eq k j then none else lookup j t)
  lookup-erase k j [] = ground arith
  lookup-erase k j ((i, v) ∷ t) =
      ground (arith, eq_iff i k, eq_iff i j, eq_iff k j, lookup-erase k j t)

  lookup-sift :
      (p : V → Bool) (seen : List String) (t : Rows V) (k : String)
      → lookup k (sift p seen t) ≡ (if includes_text k seen then none else unless p (lookup k t))
  lookup-sift p seen [] k = ground arith
  lookup-sift p seen ((j, v) ∷ t) k = ground (arith, eq_iff j k, lookup-sift p (j ∷ seen) t k)

  -- A value that satisfies `p`, with the key under which it is found.
  abbrev Found : (V → Bool) → List String → Rows V → V → Type 0
  Found p seen t v =
      (p v ≡ true) × ((k : String) × (lookup k t ≡ some v) × (includes_text k seen ≡ false))

  Found-cons :
      (p : V → Bool) (seen : List String) (j : String) (w : V) (t : Rows V) (v : V)
      → Found p (j ∷ seen) t v
      → Found p seen ((j, w) ∷ t) v
  Found-cons p seen j w t v (h, (k, e, n)) = (h, (k, ground arith, ground arith))

  values_sound :
      (p : V → Bool) (seen : List String) (t : Rows V) (v : V)
      → Memᴰ v (values p seen t)
      → Found p seen t v
  values_sound p seen [] v m = elim m [ ]
  values_sound p seen ((j, w) ∷ t) v m = elim (Bool-cases (includes_text j seen)) [
    | inl old ↦ Found-cons p seen j w t v (values_sound p (j ∷ seen) t v (rw (old, values) at m))
    | inr new ↦ elim (Bool-cases (p w)) [
      | inl holds ↦ split new holds (values_sound p (j ∷ seen) t v) (rw (new, holds, values) at m)
      | inr fails ↦
          Found-cons p seen j w t v (values_sound p (j ∷ seen) t v (rw (new, fails, values) at m))
    ]
  ]
    where
      split :
          includes_text j seen ≡ false
          → p w ≡ true
          → (Memᴰ v (values p (j ∷ seen) t) → Found p (j ∷ seen) t v)
          → Memᴰ v (w ∷ values p (j ∷ seen) t)
          → Found p seen ((j, w) ∷ t) v
      split new holds ih (Memᴰ.head e) = (rw e holds, (j, rw (eq_refl j) (ap some (sym e)), new))
      split new holds ih (Memᴰ.tail m) = Found-cons p seen j w t v (ih m)

  values_complete :
      (p : V → Bool) (seen : List String) (t : Rows V) (k : String) (v : V)
      → lookup k t ≡ some v
      → includes_text k seen ≡ false
      → p v ≡ true
      → Memᴰ v (values p seen t)
  values_complete p seen [] k v e h q = cc
  values_complete p seen ((j, w) ∷ t) k v e h q = elim (Bool-cases (str_eq j k)) [
    | inl same ↦
        let new : includes_text j seen ≡ false = rw ((eq_iff j k).0 same) h in
        let v≡ : w ≡ v = ground arith in rw (new, values) (rw v≡ (rw q (Memᴰ.head refl)))
    | inr other ↦ shown (values_complete p (j ∷ seen) t k v (ground arith) (ground arith) q)
  ]
    where
      shown : Memᴰ v (values p (j ∷ seen) t) → Memᴰ v (values p seen ((j, w) ∷ t))
      shown m = elim (Bool-cases (includes_text j seen)) [
        | inl old ↦ rw (old, values) m
        | inr new ↦ elim (Bool-cases (p w)) [
          | inl holds ↦ rw (new, holds, values) (Memᴰ.tail m)
          | inr fails ↦ rw (new, fails, values) m
        ]
      ]

  abbrev pub first : List V → Option V
  first [] = none
  first (x ∷ l) = some x

  first_of_some : (l : List V) (v : V) → first l ≡ some v → Memᴰ v l
  first_of_some [] v e = cc
  first_of_some (x ∷ l) v e = Memᴰ.head (cc)

  first_of_none : (l : List V) (v : V) → first l ≡ none → ¬ (Memᴰ v l)
  first_of_none [] v e m = elim m [ ]
  first_of_none (x ∷ l) v e m = cc

abbrev pub assoc : Stores
assoc = record {
  Of = Rows;
  get = λ V t k. lookup k t;
  put = λ V t k v. (k, v) ∷ t;
  del = λ V t k. erase k t;
  find = λ V t p. first (values p [] t);
  select = λ V t p. values p [] t;
  remove = λ V t p. sift p [] t;
}

pub assoc-Laws : Laws assoc
assoc-Laws = record {
  get-put = λ V t k v j. refl;
  get-del = λ V t k j. lookup-erase k j t;
  find_sound =
      λ V t p v e. let (h, (k, f, _)) = values_sound p [] t v (first_of_some _ v e) in (h, (k, f));
  find_complete = λ V t p k v e f. elim (Bool-cases (p v)) [
    | inl h ↦ absurd (first_of_none _ v e (values_complete p [] t k v f refl h))
    | inr h ↦ h
  ];
  select_sound = λ V t p v m. let (h, (k, e, _)) = values_sound p [] t v m in (h, (k, e));
  select_complete = λ V t p k v e h. values_complete p [] t k v e refl h;
  get-remove = λ V t p k. lookup-sift p [] t k;
}
