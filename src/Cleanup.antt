-- ===== src/Cleanup.antt =====
-- modules/bet-cleanup/bet-cleanup-scheduler.service.ts and
-- modules/wallet-audit/wallet-audit-cleanup.service.ts: the monthly deletion of old rows, under a
-- lock, once a day at most. The calendar of `Date` in the server's time zone is an argument.
mod Tests
use chicken_road_b.Base.{
  ℕ, zero, suc, String, Bool, true, false, Option, none, some, List, [], ◌∷◌, ℤ, pos, negsuc,
  str_eq, template, if◌then◌else◌, Action, io_error, pure, throw_if, gets, modify, finally, zoom,
  ◌>>=◌, ◌>>◌,
}
use chicken_road_b.Js.{Js}
use chicken_road_b.Stores.{Stores, last_run_get, last_run_set}
use chicken_road_b.Bets
use chicken_road_b.Audit
use chicken_road_b.Retry
use chicken_road_b.Fairness.{Crypto}
use chicken_road_b.Fairness.Hex.{show}
use chicken_road_b.Wallet.{on_bets, on_audits, on_jobs}
use chicken_road_b.GamePlay.Flows.{GameWorld, Setting, on_wallet, acquire_lock, release_lock}

-- `getFullYear`, `getMonth` from 0, `getDate`, and `new Date(year, month, 1)`, where a month below
-- 0 is one of the years before.
pub record Calendar : Type 0 where
  pub full_year : ℕ → ℕ
  pub month : ℕ → ℕ
  pub date : ℕ → ℕ
  pub start_of_month : ℕ → ℤ → ℕ

pub record CleanupWorld (st : Stores) (Num : Type 0) : Type 0 where
  pub game : GameWorld st Num
  -- the day of the last run, by the key of the service
  pub last_runs : st.Of String

abbrev pub two_before : ℕ → ℤ
two_before (suc (suc m)) = pos m
two_before (suc zero) = negsuc 0
two_before zero = negsuc 1

abbrev pub get_today_key : Calendar → ℕ → String
get_today_key cal now =
    template
      (show (cal.full_year now) ∷ "-" ∷ show (cal.month now) ∷ "-" ∷ show (cal.date now) ∷ [])

-- The start of the month two before the current one.
abbrev pub cutoff_date : Calendar → ℕ → ℕ
cutoff_date cal now = cal.start_of_month (cal.full_year now) (two_before (cal.month now))

module _ {Num : Type 0} (js : Js Num) (st : Stores) (crypto : Crypto) (uuid : ℕ → String)
    (at : Setting Num) (cal : Calendar) where
  open at use {now, down}

  abbrev World : Type 0
  World = CleanupWorld st Num

  abbrev in_game : {A : Type 0} → Action (GameWorld st Num) A → Action World A
  in_game = zoom (λ w. w.game) (λ g w. record w { game = g })

  unfoldable pub get_last_run : String → Action World (Option String)
  get_last_run key = do
    throw_if (down last_run_get) io_error
    gets (λ w. st.get String w.last_runs key)

  unfoldable pub set_last_run : String → Action World (Unit {0})
  set_last_run key = do
    throw_if (down last_run_set) io_error
    modify (λ w. record w { last_runs = st.put String w.last_runs key (get_today_key cal now) })

  abbrev pub ran_today : Option String → Bool
  ran_today none = false
  ran_today (some day) = str_eq day (get_today_key cal now)

  -- Both services: the key of the last run, and what is deleted before the cutoff.
  unfoldable pub clean_unless : String → Action World (Unit {0}) → Bool → Action World (Unit {0})
  clean_unless key purge true = pure tt
  clean_unless key purge false = do purge; set_last_run key

  unfoldable pub clean_locked :
      String → String → Action World (Unit {0}) → Bool → Action World (Unit {0})
  clean_locked lock key purge true =
      finally (do last ← get_last_run key; clean_unless key purge (ran_today last))
        (λ w. record w { game = release_lock js st crypto uuid at lock w.game })
  clean_locked lock key purge false = pure tt

  unfoldable pub run_with : String → String → Action World (Unit {0}) → Action World (Unit {0})
  run_with lock key purge = do
    acquired ← in_game (acquire_lock js st crypto uuid at lock)
    clean_locked lock key purge acquired

  unfoldable pub delete_bets : Action World ℕ
  delete_bets = in_game (
      on_wallet js st crypto uuid at
        (on_bets js st down uuid (Bets.delete_bets_before_date st down (cutoff_date cal now))))

  unfoldable pub delete_audits : Action World ℕ
  delete_audits = in_game (
      on_wallet js st crypto uuid at
        (on_audits js st down uuid (Audit.delete_older_than st down uuid (cutoff_date cal now))))

  unfoldable pub delete_jobs : Action World ℕ
  delete_jobs = in_game (
      on_wallet js st crypto uuid at
        (on_jobs js st down uuid (Retry.delete_older_than js st down uuid (cutoff_date cal now))))

  unfoldable pub run_bet_cleanup : Action World (Unit {0})
  run_bet_cleanup =
      run_with "bet-cleanup-scheduler-lock" "bet-cleanup-last-run" (do delete_bets; pure tt)

  unfoldable pub run_wallet_cleanup : Action World (Unit {0})
  run_wallet_cleanup =
      run_with "wallet-audit-cleanup-lock" "wallet-audit-cleanup-last-run"
        (do delete_audits; delete_jobs; pure tt)

  -- The rows are deleted again after the run, without the lock.
  unfoldable pub manual_bet_cleanup : Action World ℕ
  manual_bet_cleanup = do run_bet_cleanup; delete_bets

  unfoldable pub manual_wallet_cleanup : Action World (ℕ × ℕ)
  manual_wallet_cleanup = do
    run_wallet_cleanup
    audits ← delete_audits
    jobs ← delete_jobs
    pure (audits, jobs)
