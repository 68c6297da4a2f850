-- ===== src/Refunds/Tests.antt =====
-- Runs of the refund scheduler on the sample world, whose bet `t1` is old.
use mathlib.Core.List.{Perm}
use chicken_road_b.Base.{ℕ, String, Bool, true, List, [], ◌∷◌, ◌≡◌, refl, arith, eq_iff, All}
use chicken_road_b.Js.Cents.{cents}
use chicken_road_b.Stores.Assoc.{assoc, assoc-Laws}
use chicken_road_b.Bets.{Bet, placed, update_status, find_old_placed_bets}
use chicken_road_b.Bets.Keyed.{KeyedBets}
use chicken_road_b.Wallet.{WalletCall, cancel_call}
use chicken_road_b.Wallet.Operations.{refund_bet_call}
use chicken_road_b.GamePlay.Flows.{GameWorld, acquire_lock, release_lock, get_session}
use chicken_road_b.Refunds.{group_bets, refund_bets, process_refunds, refund_of}
use chicken_road_b.Refunds.Batches.{batches, all_bets, IsBatch, batches_lem}
use chicken_road_b.Refunds.Runs.{AsksForOld, process_refunds_asks}
use chicken_road_b.Refunds.Marked.{Marks, refund_bets-Marks}
use chicken_road_b.Samples.{crypto, uuid, world, setting, accepting, bet_row}

abbrev other : Bet
other = record (bet_row placed) { external_platform_tx_id = "t2"; user_id = "v" }

batches_lem_example :
    let bs = batches (group_bets [] (bet_row placed ∷ other ∷ [])) in
    Perm (all_bets bs) (bet_row placed ∷ other ∷ []) × All IsBatch bs
batches_lem_example = batches_lem (bet_row placed ∷ other ∷ []) ((refl, refl), ((refl, refl), tt))

abbrev json : String → Bool
json t = true

-- The session is gone.
abbrev expired : GameWorld assoc ℕ
expired = record world { sessions = [] }

expired-KeyedBets : KeyedBets assoc expired.wallet.bets
expired-KeyedBets k v e = ground (arith, eq_iff "t1" k)

refund_bets-Marks_example :
    Marks cents assoc assoc-Laws crypto uuid
      (setting [] accepting)
      json
      refl
      refl
      (bet_row placed)
      []
      expired
      (refund_bets cents assoc crypto uuid
        (setting [] accepting)
        json
        (bet_row placed ∷ [])
        expired).1
unfolding refund_bets refund_bet_call update_status
refund_bets-Marks_example =
    refund_bets-Marks cents assoc assoc-Laws crypto uuid (setting [] accepting) json refl refl
      (bet_row placed) [] expired expired-KeyedBets refl

process_refunds_asks_example :
    AsksForOld cents assoc crypto uuid
      (setting [] accepting)
      json
      100
      expired
      (process_refunds cents assoc crypto uuid
        (setting [] accepting)
        json
        100
        expired).1.wallet.calls
process_refunds_asks_example =
    process_refunds_asks cents assoc crypto uuid (setting [] accepting) json 100 expired

-- A round that still goes on is left alone, and the same bet is refunded without its session.
abbrev calls_of : GameWorld assoc ℕ → List (WalletCall ℕ)
calls_of w =
    (process_refunds cents assoc crypto uuid (setting [] accepting) json 100 w).1.wallet.calls

round_goes_on : calls_of world ≡ []
unfolding process_refunds acquire_lock release_lock find_old_placed_bets get_session
round_goes_on = refl

round_is_gone :
    calls_of expired
    ≡ cancel_call "u"
        (refund_of cents assoc crypto uuid (setting [] accepting) json (bet_row placed) ∷ [])
      ∷ []
unfolding process_refunds acquire_lock release_lock find_old_placed_bets get_session refund_bet_call
round_is_gone = refl
