-- ===== src/Stores.antt =====
-- Redis and the database are not this repository's code: they are a parameter, one family of
-- keyed stores. A Redis value is kept under its key; a row of a table is kept under its unique
-- column. `Laws` states what the code relies on.
pub mod Assoc
pub mod Find
pub mod Every
use chicken_road_b.Base.{
  String, Bool, true, false, Option, none, some, List, ◌≡◌, str_eq, if◌then◌else◌,
}
use mathlib.Core.List.{Memᴰ}

pub record Stores : Type 1 where
  pub Of : Type 0 → Type 0
  -- `GET`, `SET`, `DEL`; a row by its unique column, `save`
  pub get : (V : Type 0) → Of V → String → Option V
  pub put : (V : Type 0) → Of V → String → V → Of V
  pub del : (V : Type 0) → Of V → String → Of V
  -- `findOne({ where })`, `find({ where })`, `delete({ where })`
  pub find : (V : Type 0) → Of V → (V → Bool) → Option V
  pub select : (V : Type 0) → Of V → (V → Bool) → List V
  pub remove : (V : Type 0) → Of V → (V → Bool) → Of V

-- A row goes if the condition holds of it.
abbrev pub unless : {V : Type 0} → (V → Bool) → Option V → Option V
unless p none = none
unless p (some v) = if p v then none else some v

pub record Laws (st : Stores) : Type 1 where
  pub get-put :
      (V : Type 0) (t : st.Of V) (k : String) (v : V) (j : String)
      → st.get V (st.put V t k v) j ≡ (if str_eq k j then some v else st.get V t j)
  pub get-del :
      (V : Type 0) (t : st.Of V) (k j : String)
      → st.get V (st.del V t k) j ≡ (if str_eq k j then none else st.get V t j)
  pub find_sound :
      (V : Type 0) (t : st.Of V) (p : V → Bool) (v : V)
      → st.find V t p ≡ some v
      → (p v ≡ true) × ((k : String) × (st.get V t k ≡ some v))
  pub find_complete :
      (V : Type 0) (t : st.Of V) (p : V → Bool) (k : String) (v : V)
      → st.find V t p ≡ none
      → st.get V t k ≡ some v
      → p v ≡ false
  pub select_sound :
      (V : Type 0) (t : st.Of V) (p : V → Bool) (v : V)
      → Memᴰ v (st.select V t p)
      → (p v ≡ true) × ((k : String) × (st.get V t k ≡ some v))
  pub select_complete :
      (V : Type 0) (t : st.Of V) (p : V → Bool) (k : String) (v : V)
      → st.get V t k ≡ some v
      → p v ≡ true
      → Memᴰ v (st.select V t p)
  pub get-remove :
      (V : Type 0) (t : st.Of V) (p : V → Bool) (k : String)
      → st.get V (st.remove V t p) k ≡ unless p (st.get V t k)

-- The calls that can fail. Which of them fail during an operation is an argument of it.
pub data Call : Type 0 where
  lock_set lock_del session_get session_set session_del fairness_get fairness_set : Call
  config_get game_find game_save bet_find bet_save bet_delete job_find job_save audit_find
        audit_save leader_get leader_set leader_del hazard_get hazard_set history_push publish
        subscribe :
      Call
  agent_find agent_save agent_delete last_run_get last_run_set active_hazards : Call

abbrev pub Outage : Type 0
Outage = Call → Bool

abbrev pub none_down : Outage
none_down c = false
