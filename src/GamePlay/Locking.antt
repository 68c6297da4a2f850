-- ===== src/GamePlay/Locking.antt =====
-- A lock that an action takes, and gives back when it ends.
use chicken_road_b.Base.{
  ℕ, String, Bool, true, false, ◌||◌, ◌≡◌, refl, arith, is_some, ok, ◌∙◌, Bool-cases, inl, inr,
  eq_iff,
}
use chicken_road_b.Js.{Js}
use chicken_road_b.Stores.{Stores, Laws, lock_set, lock_del}
use chicken_road_b.Fairness.{Crypto}
use chicken_road_b.GamePlay.Flows.{GameWorld, Setting, acquire_lock, release_lock}

module _ {Num : Type 0} (js : Js Num) (st : Stores) (crypto : Crypto) (uuid : ℕ → String)
    (at : Setting Num) (lock : String) (w : GameWorld st Num) where
  -- The lock is held, or cannot be taken.
  abbrev pub is_busy : Bool
  is_busy = at.down lock_set || is_some (st.get String w.locks lock)

  abbrev pub locked : GameWorld st Num
  locked = record w { locks = st.put String w.locks lock "1" }

  pub held : is_busy ≡ true → acquire_lock js st crypto uuid at lock w ≡ (ok false, w)
  unfolding acquire_lock
  held busy = rw busy refl

  pub taken : is_busy ≡ false → acquire_lock js st crypto uuid at lock w ≡ (ok true, locked)
  unfolding acquire_lock
  taken free = rw free refl

  -- Whatever the action did to the rest, the locks are again those before.
  pub freed :
      (laws : Laws st) (k : String) (w' : GameWorld st Num)
      → w'.locks ≡ locked.locks
      → is_busy ≡ false
      → at.down lock_del ≡ false
      → st.get String (release_lock js st crypto uuid at lock w').locks k ≡ st.get String w.locks k
  unfolding release_lock
  freed laws k w' e free up = rw up (
      laws.get-del String w'.locks lock k
      ∙ ground (arith, e, laws.get-put String w.locks lock "1" k, eq_iff lock k))

module _ {Num : Type 0} (js : Js Num) (st : Stores) (crypto : Crypto) (uuid : ℕ → String)
    (at : Setting Num) (lock : String) where
  pub release_keeps :
      {A : Type 0} (f : GameWorld st Num → A) (w : GameWorld st Num)
      → ((t : st.Of String) → f (record w { locks = t }) ≡ f w)
      → f (release_lock js st crypto uuid at lock w) ≡ f w
  unfolding release_lock
  release_keeps f w same = elim (Bool-cases (at.down lock_del)) [
    | inl fails ↦ rw fails refl
    | inr works ↦ rw works (same (st.del String w.locks lock))
  ]
