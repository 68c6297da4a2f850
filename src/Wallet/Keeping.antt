-- ===== src/Wallet/Keeping.antt =====
-- What the records of a call leave alone: bets, retry jobs and requests.
use chicken_road_b.Base.{
  ℕ, String, false, Option, some, ◌≡◌, refl, Option-cases, inl, inr, bind_keeps,
}
use chicken_road_b.Js.{Js}
use chicken_road_b.Stores.{Stores, Laws, Outage, job_find, job_save, audit_save}
use chicken_road_b.Enums.{WalletErrorType}
use chicken_road_b.Bets.{mark_settlement_failed}
use chicken_road_b.Audit
use chicken_road_b.Retry.Active.{HasActive, create_retry_job-HasActive}
use chicken_road_b.Wallet.{
  WalletCall, Reply, WalletWorld, Subject, log_success, log_and_retry, job_params,
  create_retry_job_safely, log_failure,
}
use chicken_road_b.Wallet.Operations.{mark_failed}

module _ {Num : Type 0} (js : Js Num) (st : Stores) (down : Outage) (uuid : ℕ → String)
    (now : ℕ) where
  abbrev World : Type 0
  World = WalletWorld st Num

  pub log_success_keeps :
      (s : Subject Num) (code : Option ℕ) (w : World)
      → let w' = (log_success js st down uuid now s code w).1 in
        (w'.bets ≡ w.bets) × (w'.jobs ≡ w.jobs) × (w'.calls ≡ w.calls)
  unfolding log_success
  log_success_keeps s code w = (refl, refl, refl)

  pub create_retry_job_safely_keeps :
      (s : Subject Num) (id m : String) (w : World)
      → let w' = (create_retry_job_safely js st down uuid now s id m w).1 in
        (w'.bets ≡ w.bets) × (w'.calls ≡ w.calls)
  unfolding create_retry_job_safely
  create_retry_job_safely_keeps s id m w = elim (Option-cases s.platform_tx_id) [
    | inl missing ↦ rw missing (refl, refl)
    | inr (tx, e) ↦ rw e (refl, refl)
  ]

  pub log_and_retry_keeps :
      (s : Subject Num) (code : Option ℕ) (type : WalletErrorType) (m : String) (w : World)
      → let w' = (log_and_retry js st down uuid now s code type m w).1 in
        (w'.bets ≡ w.bets) × (w'.calls ≡ w.calls)
  unfolding log_and_retry
  log_and_retry_keeps s code type m w =
      bind_keeps (λ w'. (w'.bets ≡ w.bets) × (w'.calls ≡ w.calls))
        (log_failure js st down uuid now s code type m)
        (λ a. create_retry_job_safely js st down uuid now s a.id m) w (refl, refl)
        (λ a _.
          create_retry_job_safely_keeps s a.id m
            (log_failure js st down uuid now s code type m w).1)

  pub mark_failed_keeps :
      (reply : WalletCall Num → Reply Num) (user tx : String) (w : World)
      → let w' = (mark_failed js st down uuid reply user tx w).1 in
        (w'.jobs ≡ w.jobs)
        × (w'.calls ≡ w.calls)
        × (w'.bets ≡ (mark_settlement_failed st down tx user w.bets).1)
  unfolding mark_failed
  mark_failed_keeps reply user tx w = (refl, refl, refl)

  -- With the audit and job tables up, the failure of an operation on `tx` leaves a retry job.
  pub log_and_retry-HasActive :
      (laws : Laws st) (s : Subject Num) {tx : String} (code : Option ℕ) (type : WalletErrorType)
      (m : String) (w : World)
      → s.platform_tx_id ≡ some tx
      → down audit_save ≡ false
      → down job_find ≡ false
      → down job_save ≡ false
      → HasActive st tx s.action (log_and_retry js st down uuid now s code type m w).1.jobs
  unfolding log_and_retry create_retry_job_safely log_failure Audit.log_audit
  log_and_retry-HasActive laws s {tx} code type m w e a f g =
      rw (a, e, log_and_retry, create_retry_job_safely, log_failure, Audit.log_audit)
        (create_retry_job-HasActive js st laws down uuid now
          (job_params js st down uuid s tx (uuid w.audits.next_id) m) w.jobs f g)
