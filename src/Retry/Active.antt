-- ===== src/Retry/Active.antt =====
-- Retry jobs: at most one is active for a transaction and an action, and after `createRetryJob`
-- there is one.
use chicken_road_b.Base.{
  ℕ, suc, ◌+◌, String, true, false, none, some, ◌≡◌, refl, arith, eq_iff, eq_refl, ok, Bool-cases,
  Option-cases, ◌⊎◌, inl, inr,
}
use chicken_road_b.Js.{Js}
use chicken_road_b.Stores.{Stores, Laws, Outage, job_find, job_save}
use chicken_road_b.Enums.{
  WalletApiAction, get_balance, place_bet, settle_bet, refund_bet, same_action,
}
use chicken_road_b.Retry.{
  WalletRetryJob, Jobs, CreateRetryJobParams, is_active_for, create_retry_job, new_job,
}
use chicken_road_b.Retry.Schedule.{calculate_next_retry_time}

-- A job that waits for a transaction and an action.
abbrev pub HasActive :
    (st : Stores) {Num : Type 0} → String → WalletApiAction → Jobs st Num → Type 0
HasActive st {Num} tx action s =
    (k : String) × ((j : WalletRetryJob Num) × (st.get (WalletRetryJob Num) s.rows k ≡ some j)
      × (is_active_for tx action j ≡ true))

abbrev pub IsUnique : (st : Stores) {Num : Type 0} → Jobs st Num → Type 0
IsUnique st {Num} s =
    (tx : String) (action : WalletApiAction) (k l : String) (i j : WalletRetryJob Num)
    → st.get (WalletRetryJob Num) s.rows k ≡ some i
    → st.get (WalletRetryJob Num) s.rows l ≡ some j
    → is_active_for tx action i ≡ true
    → is_active_for tx action j ≡ true
    → k ≡ l

same_action_refl : (a : WalletApiAction) → same_action a a ≡ true
same_action_refl get_balance = refl
same_action_refl place_bet = refl
same_action_refl settle_bet = refl
same_action_refl refund_bet = refl

same_action_eq : (a b : WalletApiAction) → same_action a b ≡ true → a ≡ b
same_action_eq a b h = ground arith

module _ {Num : Type 0} (js : Js Num) (st : Stores) (laws : Laws st) (down : Outage)
    (uuid : ℕ → String) (now : ℕ) (p : CreateRetryJobParams Num) (s : Jobs st Num) where
  abbrev Job : Type 0
  Job = WalletRetryJob Num

  -- What is inserted: a job due five minutes from now, under the next drawn id.
  abbrev made : Job
  made = new_job js st down uuid (uuid s.next_id) now (now + 300_000) p

  create_new :
      down job_find ≡ false
      → down job_save ≡ false
      → st.find Job s.rows (is_active_for p.platform_tx_id p.api_action) ≡ none
      → create_retry_job js st down uuid now p s ≡ (
        ok made,
        record s { rows = st.put Job s.rows (uuid s.next_id) made; next_id = suc s.next_id },
      )
  unfolding create_retry_job calculate_next_retry_time
  create_new f g e = ground arith

  create_found :
      {j : Job}
      → down job_find ≡ false
      → st.find Job s.rows (is_active_for p.platform_tx_id p.api_action) ≡ some j
      → create_retry_job js st down uuid now p s ≡ (ok j, s)
  unfolding create_retry_job
  create_found f e = ground arith

  -- If the table of retry jobs can be read and written, after the creation of a retry job there
  -- is an active job for its transaction and action.
  pub create_retry_job-HasActive :
      down job_find ≡ false
      → down job_save ≡ false
      → HasActive st p.platform_tx_id p.api_action (create_retry_job js st down uuid now p s).1
  create_retry_job-HasActive f g =
      elim (Option-cases (st.find Job s.rows (is_active_for p.platform_tx_id p.api_action))) [
        | inl missing ↦ rw (create_new f g missing) (
          uuid s.next_id,
          (
            made,
            rw (laws.get-put Job s.rows (uuid s.next_id) made (uuid s.next_id))
                (rw (eq_refl (uuid s.next_id)) refl),
            rw (eq_refl p.platform_tx_id) (rw (same_action_refl p.api_action) refl),
          ),
        )
        | inr (j, e) ↦
            let (h, (k, at)) = laws.find_sound Job s.rows _ j e in
            rw (create_found f e) (k, (j, at, h))
      ]

  create_unchanged :
      (down job_find ≡ true) ⊎ (down job_save ≡ true)
      → (create_retry_job js st down uuid now p s).1 ≡ s
  unfolding create_retry_job calculate_next_retry_time
  create_unchanged off = ground arith

  -- No row of the table is active for the new job's transaction and action.
  none_active :
      st.find Job s.rows (is_active_for p.platform_tx_id p.api_action) ≡ none
      → (tx : String) (action : WalletApiAction) (l : String) (j : Job)
      → st.get Job s.rows l ≡ some j
      → is_active_for tx action made ≡ true
      → is_active_for tx action j ≡ true
      → ⊥
  none_active missing tx action l j e h q =
      let clash =
        laws.find_complete Job s.rows (is_active_for p.platform_tx_id p.api_action) l j missing e in
      ground (
        arith,
        eq_iff p.platform_tx_id tx,
        eq_iff j.platform_tx_id tx,
        eq_iff j.platform_tx_id p.platform_tx_id,
        same_action_eq p.api_action action,
        same_action_eq j.api_action action,
        same_action_refl p.api_action,
      )

  added-IsUnique :
      st.find Job s.rows (is_active_for p.platform_tx_id p.api_action) ≡ none
      → IsUnique st s
      → IsUnique st
          (record s { rows = st.put Job s.rows (uuid s.next_id) made; next_id = suc s.next_id })
  added-IsUnique missing u tx action k l i j e f h q = ground (
    arith,
    laws.get-put Job s.rows (uuid s.next_id) made k,
    laws.get-put Job s.rows (uuid s.next_id) made l,
    eq_iff (uuid s.next_id) k,
    eq_iff (uuid s.next_id) l,
    none_active missing tx action l j,
    none_active missing tx action k i,
    u tx action k l i j,
  )

  -- If no transaction and action have two active retry jobs, this holds after the creation of a
  -- job, whatever call fails.
  pub create_retry_job-IsUnique :
      IsUnique st s → IsUnique st (create_retry_job js st down uuid now p s).1
  create_retry_job-IsUnique u = elim (Bool-cases (down job_find)) [
    | inl off ↦ rw (create_unchanged (inl off)) u
    | inr f ↦ elim (Bool-cases (down job_save)) [
      | inl off ↦ rw (create_unchanged (inr off)) u
      | inr g ↦
          elim (Option-cases (st.find Job s.rows (is_active_for p.platform_tx_id p.api_action))) [
            | inl missing ↦ rw (create_new f g missing) (added-IsUnique missing u)
            | inr (j, e) ↦ rw (create_found f e) u
          ]
    ]
  ]
