-- ===== src/Processing/Locks.antt =====
-- The lock under which a retry job is run.
use chicken_road_b.Base.{
  ℕ, ◌+◌, String, true, false, ◌||◌, Option, none, some, ◌≡◌, refl, arith, is_some, ok, Action,
  Keeps, Keeps-by, if-Keeps, pure-Keeps, quietly-Keeps, bind-Keeps, then-Keeps, catching-Keeps,
  Bool-cases, inl, inr, ◌∙◌, bind_run, eq_iff,
}
use chicken_road_b.Js.{Js}
use chicken_road_b.Stores.{Stores, Laws, Outage, lock_set, lock_del}
use chicken_road_b.Retry.{WalletRetryJob, Jobs}
use chicken_road_b.Wallet.{WalletCall, Reply, WalletWorld}
use chicken_road_b.Processing.{
  RetryResult, RetryWorld, on_wallet, on_retries, reschedule_at, reschedule, handle_result, run_job,
  run_current, retry_locked, acquire_job_lock, release_job_lock, job_acquired, process_retry_job,
  job_lock_key,
}
use chicken_road_b.Retry.Schedule.{calculate_next_retry_time}

module _ {Num : Type 0} (js : Js Num) (st : Stores) (down : Outage) (uuid : ℕ → String)
    (reply : WalletCall Num → Reply Num) (now : ℕ) (request_id : String)
    (j : WalletRetryJob Num) where
  abbrev World : Type 0
  World = RetryWorld st Num

  abbrev Locks : st.Of String → World → Type 0
  Locks l w = w.locks ≡ l

  module _ {l : st.Of String} where
    wallet-Locks :
        {A : Type 0} (m : Action (WalletWorld st Num) A)
        → Keeps (Locks l) (on_wallet js st down uuid reply now request_id m)
    wallet-Locks m = Keeps-by (λ w e. e)

    retries-Locks :
        {A : Type 0} (m : Action (Jobs st Num) A)
        → Keeps (Locks l) (on_retries js st down uuid reply now request_id m)
    retries-Locks m = Keeps-by (λ w e. e)

    reschedule_at-Locks :
        (next : Option ℕ) (message last : Option String)
        → Keeps (Locks l) (reschedule_at js st down uuid reply now request_id j next message last)
    unfolding reschedule_at
    reschedule_at-Locks (some next) message last = search (then-Keeps, pure-Keeps, retries-Locks)
    reschedule_at-Locks none message last = search (then-Keeps, pure-Keeps, retries-Locks)

    reschedule-Locks :
        (message last : Option String)
        → Keeps (Locks l) (reschedule js st down uuid reply now request_id j message last)
    unfolding reschedule
    reschedule-Locks message last =
        reschedule_at-Locks
          (calculate_next_retry_time now (j.retry_attempt + 1) j.initial_failure_at) message last

    handle_result-Locks :
        (r : RetryResult) → Keeps (Locks l) (handle_result js st down uuid reply now request_id j r)
    unfolding handle_result
    handle_result-Locks r =
        search (if-Keeps, then-Keeps, pure-Keeps, retries-Locks, reschedule-Locks)

    run_job-Locks : Keeps (Locks l) (run_job js st down uuid reply now request_id j)
    unfolding run_job
    run_job-Locks =
        search (then-Keeps, bind-Keeps, retries-Locks, wallet-Locks, handle_result-Locks)

    run_current-Locks :
        (current : Option (WalletRetryJob Num))
        → Keeps (Locks l) (run_current js st down uuid reply now request_id j current)
    unfolding run_current
    run_current-Locks none = pure-Keeps
    run_current-Locks (some current) =
        search (if-Keeps, then-Keeps, pure-Keeps, retries-Locks, run_job-Locks)

    retry_locked-Locks : Keeps (Locks l) (retry_locked js st down uuid reply now request_id j)
    unfolding retry_locked
    retry_locked-Locks = search (
      catching-Keeps, bind-Keeps, quietly-Keeps, retries-Locks, run_current-Locks, reschedule-Locks,
    )

  module _ (laws : Laws st) (w : World) where
    abbrev pub lock : String
    lock = job_lock_key js st down uuid reply now request_id j

    held :
        down lock_set || is_some (st.get String w.locks lock) ≡ true
        → acquire_job_lock js st down uuid reply now request_id lock w ≡ (ok false, w)
    unfolding acquire_job_lock
    held busy = rw busy refl

    taken :
        down lock_set || is_some (st.get String w.locks lock) ≡ false
        → acquire_job_lock js st down uuid reply now request_id lock w
          ≡ (ok true, record w { locks = st.put String w.locks lock "1" })
    unfolding acquire_job_lock
    taken free = rw free refl

    pub job_busy :
        down lock_set || is_some (st.get String w.locks lock) ≡ true
        → process_retry_job js st down uuid reply now request_id j w ≡ (ok tt, w)
    unfolding process_retry_job job_acquired
    job_busy busy =
        bind_run (acquire_job_lock js st down uuid reply now request_id lock)
          (job_acquired js st down uuid reply now request_id j) w (held busy)

    pub job_free :
        down lock_set || is_some (st.get String w.locks lock) ≡ false
        → process_retry_job js st down uuid reply now request_id j w ≡ (
            let (r, w') =
              retry_locked js st down uuid reply now request_id j
                (record w { locks = st.put String w.locks lock "1" }) in
            (r, release_job_lock js st down uuid reply now request_id lock w'))
    unfolding process_retry_job job_acquired
    job_free free =
        bind_run (acquire_job_lock js st down uuid reply now request_id lock)
          (job_acquired js st down uuid reply now request_id j) w (taken free)

    -- If a lock can be deleted, the processing of a retry job leaves every lock as it found it,
    -- whatever fails: the job's lock is free again if it was taken, and is not released if
    -- another worker holds it.
    pub process_retry_job-locks :
        (k : String)
        → down lock_del ≡ false
        → st.get String (process_retry_job js st down uuid reply now request_id j w).1.locks k
          ≡ st.get String w.locks k
    unfolding release_job_lock
    process_retry_job-locks k up =
        elim (Bool-cases (down lock_set || is_some (st.get String w.locks lock))) [
          | inl busy ↦ rw (job_busy busy) refl
          | inr free ↦
              rw (job_free free, up)
                (freed _
                  (retry_locked-Locks.run (record w { locks = st.put String w.locks lock "1" })
                    refl)
                  free)
        ]
      where
        freed :
            (t : st.Of String)
            → t ≡ st.put String w.locks lock "1"
            → down lock_set || is_some (st.get String w.locks lock) ≡ false
            → st.get String (st.del String t lock) k ≡ st.get String w.locks k
        freed t e free =
            laws.get-del String t lock k
            ∙ ground (arith, e, laws.get-put String w.locks lock "1" k, eq_iff lock k)
