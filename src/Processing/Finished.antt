-- ===== src/Processing/Finished.antt =====
-- A job that is over when its turn comes.
use chicken_road_b.Base.{
  ℕ, String, Bool, false, ◌||◌, Option, none, some, ◌≡◌, refl, arith, is_some, str_eq, ok,
  Bool-cases, inl, inr, ◌∙◌, bind_run, catching_ok, ◌>>=◌, quietly,
}
use chicken_road_b.Js.{Js}
use chicken_road_b.Stores.{Stores, Laws, Outage, lock_set, lock_del, job_find}
use chicken_road_b.Retry.{WalletRetryJob, is_pending, is_processing, find_by_id}
use chicken_road_b.Wallet.{WalletCall, Reply}
use chicken_road_b.Processing.{
  RetryWorld, on_retries, run_current, retry_locked, job_lock_key, reschedule, release_job_lock,
  process_retry_job,
}
use chicken_road_b.Processing.Locks.{job_busy, job_free}

-- The job is waiting, or its run was broken off.
abbrev pub is_live : {Num : Type 0} → Option (WalletRetryJob Num) → Bool
is_live none = false
is_live (some j) = is_pending j.status || is_processing j.status

module _ {Num : Type 0} (js : Js Num) (st : Stores) (down : Outage) (uuid : ℕ → String)
    (reply : WalletCall Num → Reply Num) (now : ℕ) (request_id : String)
    (j : WalletRetryJob Num) where
  abbrev World : Type 0
  World = RetryWorld st Num

  -- The job's row.
  abbrev pub stored : World → Option (WalletRetryJob Num)
  stored w = st.find (WalletRetryJob Num) w.wallet.jobs.rows (λ i. str_eq i.id j.id)

  over_run :
      (current : Option (WalletRetryJob Num)) (w : World)
      → is_live current ≡ false
      → run_current js st down uuid reply now request_id j current w ≡ (ok tt, w)
  unfolding run_current
  over_run none w over = refl
  over_run (some i) w over = ground (arith)

  found :
      (w : World)
      → down job_find ≡ false
      → on_retries js st down uuid reply now request_id (find_by_id js st down uuid j.id) w
        ≡ (ok (stored w), w)
  unfolding find_by_id
  found w up = rw up refl

  locked_over :
      (w : World)
      → down job_find ≡ false
      → is_live (stored w) ≡ false
      → retry_locked js st down uuid reply now request_id j w ≡ (ok tt, w)
  unfolding retry_locked
  locked_over w up over =
      catching_ok
        (on_retries js st down uuid reply now request_id (find_by_id js st down uuid j.id)
          >>= run_current js st down uuid reply now request_id j)
        (λ e.
          quietly
            (reschedule js st down uuid reply now request_id j (some e.message) (some e.message)))
        w
        (bind_run
            (on_retries js st down uuid reply now request_id (find_by_id js st down uuid j.id))
            (run_current js st down uuid reply now request_id j) w (found w up)
          ∙ over_run (stored w) w over)

  released :
      (k : String) (w : World)
      → (release_job_lock js st down uuid reply now request_id k w).wallet ≡ w.wallet
  unfolding release_job_lock
  released k w = elim (Bool-cases (down lock_del)) [
    | inl fails ↦ rw fails refl
    | inr works ↦ rw works refl
  ]

  -- If the retry jobs can be read and a job, when its turn comes, has no row or its row is
  -- neither PENDING nor PROCESSING, then it is not run: the agent is not asked, and no bet,
  -- audit or retry job changes.
  pub process_retry_job_over :
      (laws : Laws st) (w : World)
      → down job_find ≡ false
      → is_live (stored w) ≡ false
      → (process_retry_job js st down uuid reply now request_id j w).1.wallet ≡ w.wallet
  process_retry_job_over laws w up over =
      let key = job_lock_key js st down uuid reply now request_id j in
      elim (Bool-cases (down lock_set || is_some (st.get String w.locks key))) [
        | inl busy ↦ rw (job_busy js st down uuid reply now request_id j laws w busy) refl
        | inr free ↦
            let held = record w { locks = st.put String w.locks key "1" } in
            rw
              (
                job_free js st down uuid reply now request_id j laws w free,
                locked_over held up over,
              )
              (released key held)
      ]
