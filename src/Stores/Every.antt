-- ===== src/Stores/Every.antt =====
-- A property of every value of a store, through the operations on it.
use chicken_road_b.Base.{String, none, some, ◌≡◌, str_eq, Bool-cases, inl, inr, subst}
use chicken_road_b.Stores.{Stores, Laws}

module _ (st : Stores) (laws : Laws st) {V : Type 0} (P : V → Type 0) where
  abbrev pub Every : st.Of V → Type 0
  Every t = (k : String) (v : V) → st.get V t k ≡ some v → P v

  pub put-Every : (t : st.Of V) (k : String) (v : V) → P v → Every t → Every (st.put V t k v)
  put-Every t k v p h j w e = elim (Bool-cases (str_eq k j)) [
    | inl same ↦ subst P (some_inj (rw same at (rw (laws.get-put V t k v j) at e))) p
    | inr other ↦ h j w (rw other at (rw (laws.get-put V t k v j) at e))
  ]
    where
      some_inj : {a b : V} → some a ≡ some b → a ≡ b
      some_inj q = cc

  pub del-Every : (t : st.Of V) (k : String) → Every t → Every (st.del V t k)
  del-Every t k h j w e = elim (Bool-cases (str_eq k j)) [
    | inl same ↦ absurd (missing (rw same at (rw (laws.get-del V t k j) at e)))
    | inr other ↦ h j w (rw other at (rw (laws.get-del V t k j) at e))
  ]
    where
      missing : {a : V} → none ≡ some a → ⊥
      missing q = cc
