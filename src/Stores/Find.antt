-- ===== src/Stores/Find.antt =====
-- `findOne` on a unique column is a lookup by key.
use chicken_road_b.Base.{String, Bool, true, false, some, ◌≡◌, Option-cases, sym, inl, inr, ◌∙◌}
use chicken_road_b.Stores.{Stores, Laws}

module _ (st : Stores) where
  -- Every row is kept under the value of its unique column.
  abbrev pub IsKeyed : {V : Type 0} → (V → String) → st.Of V → Type 0
  IsKeyed key t = (k : String) (v : _) → st.get _ t k ≡ some v → key v ≡ k

module _ (st : Stores) (laws : Laws st) where
  -- A condition that pins the unique column finds the row of that key, if it has the rest too.
  pub find_by_key :
      {V : Type 0} (key : V → String) (t : st.Of V) (p : V → Bool) (k : String)
      → IsKeyed st key t
      → ((v : V) → p v ≡ true → key v ≡ k)
      → ((v : V) → st.get V t k ≡ some v → p v ≡ true)
      → st.find V t p ≡ st.get V t k
  find_by_key {V} key t p k keyed pins holds = elim (Option-cases (st.find V t p)) [
    | inl missing ↦ elim (Option-cases (st.get V t k)) [
      | inl absent ↦ missing ∙ sym absent
      | inr (v, e) ↦ absurd (no (holds v e) (laws.find_complete V t p k v missing e))
    ]
    | inr (v, e) ↦
        let (h, (j, f)) = laws.find_sound V t p v e in
        let same : j ≡ k = sym (keyed j v f) ∙ pins v h in e ∙ sym (rw same at f)
  ]
    where
      no : {b : Bool} → b ≡ true → b ≡ false → ⊥
      no p q = cc
