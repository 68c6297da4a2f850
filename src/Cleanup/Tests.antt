-- ===== src/Cleanup/Tests.antt =====
-- A run on the sample world, whose bet is old, and a second one on the same day.
use chicken_road_b.Base.{ℕ, ◌*◌, ◌≡◌, refl, [], ◌∷◌, pos, negsuc}
use chicken_road_b.Js.Cents.{cents}
use chicken_road_b.Stores.Assoc.{assoc}
use chicken_road_b.Bets.{delete_bets_before_date, delete_where}
use chicken_road_b.Fairness.Hex.{show}
use chicken_road_b.GamePlay.Flows.{acquire_lock, release_lock}
use chicken_road_b.Cleanup.{
  Calendar, CleanupWorld, run_bet_cleanup, run_with, clean_locked, clean_unless, get_last_run,
  set_last_run, delete_bets,
}
use chicken_road_b.Samples.{crypto, uuid, world, setting, accepting}

-- A year of twelve months of a thousand milliseconds each; the third month starts at 2000.
abbrev calendar : Calendar
calendar = record {
  full_year = λ t. 2025;
  month = λ t. 11;
  date = λ t. 1;
  start_of_month = λ y m. elim m [ pos n ↦ n * 1000 | negsuc n ↦ 0 ];
}

abbrev start : CleanupWorld assoc ℕ
start = record { game = world; last_runs = [] }

abbrev once : CleanupWorld assoc ℕ
once = (run_bet_cleanup cents assoc crypto uuid (setting [] accepting) calendar start).1

bets_gone : once.game.wallet.bets ≡ []
unfolding run_bet_cleanup run_with clean_locked clean_unless get_last_run set_last_run delete_bets
    delete_bets_before_date delete_where acquire_lock release_lock
bets_gone = refl

-- The same day the run deletes nothing.
kept :
    (run_bet_cleanup cents assoc crypto uuid
      (setting [] accepting)
      calendar
      (record start { last_runs = ("bet-cleanup-last-run", "2025-11-1") ∷ [] })).1.game.wallet.bets
    ≡ world.wallet.bets
unfolding run_bet_cleanup run_with clean_locked clean_unless get_last_run set_last_run delete_bets
    delete_bets_before_date delete_where acquire_lock release_lock show
kept = refl
