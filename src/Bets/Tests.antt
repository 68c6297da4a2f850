-- ===== src/Bets/Tests.antt =====
-- The theorems on the table of bets, applied to a table with one bet.
use chicken_road_b.Base.{◌-◌, ◌<◌, some, [], ◌∷◌, ◌≡◌, refl, arith, ok, ◌↔◌, eq_iff}
use mathlib.Core.List.{Memᴰ}
use chicken_road_b.Js.Cents.{cents}
use chicken_road_b.Stores.{none_down}
use chicken_road_b.Stores.Assoc.{assoc, assoc-Laws}
use chicken_road_b.Bets.{
  Bet, Bets, placed, won, record_settlement, create_placement, find_old_placed_bets, update_status,
  settlement_failed, settle_row,
}
use chicken_road_b.Bets.Keyed.{KeyedBets}
use chicken_road_b.Bets.Settlement.{record_settlement_twice}
use chicken_road_b.Bets.Placement.{Places, create_placement-Places, find_old_placed_bets_iff}
use chicken_road_b.Bets.Reopened.{update_status_reopens}
use chicken_road_b.Samples.{bet_row, settlement_of, new_params, game}

abbrev table : Bets assoc
table = ("t1", bet_row placed) ∷ []

table-KeyedBets : KeyedBets assoc table
table-KeyedBets k v e = ground (arith, eq_iff "t1" k)

abbrev settled_row : Bet
settled_row = settle_row cents 300 (settlement_of "2.400") (bet_row placed)

record_settlement_twice_example :
    record_settlement assoc none_down cents 900
      (settlement_of "9.000")
      (("t1", settled_row) ∷ table)
    ≡ (ok settled_row, ("t1", settled_row) ∷ table)
unfolding record_settlement settle_row
record_settlement_twice_example =
    record_settlement_twice assoc assoc-Laws none_down table table-KeyedBets cents 300 900
      (settlement_of "2.400") (settlement_of "9.000") refl refl refl

create_placement-Places_example :
    Places assoc none_down
      (("road", game) ∷ [])
      200
      new_params
      table
      (create_placement assoc none_down (("road", game) ∷ []) 200 new_params table)
create_placement-Places_example =
    create_placement-Places assoc assoc-Laws none_down (("road", game) ∷ []) 200 new_params table

update_status_reopens_example :
    (b' : Bet) × (record_settlement assoc none_down cents 900
        (settlement_of "9.000")
        (update_status assoc none_down "t1" settlement_failed "u" (("t1", bet_row won) ∷ [])).1
      ≡ (
        ok b',
        assoc.put Bet
            (update_status assoc none_down "t1" settlement_failed "u" (("t1", bet_row won) ∷ [])).1
            "t1"
            b',
      ))
    × (b'.win_amount ≡ some "9.000")
    × (b'.bet_amount ≡ (bet_row won).bet_amount)
    × (b'.status ≡ won)
update_status_reopens_example =
    update_status_reopens assoc assoc-Laws none_down (("t1", bet_row won) ∷ [])
      (λ k v e. ground (arith, eq_iff "t1" k)) cents 900 (settlement_of "9.000") settlement_failed
      "u" {b = bet_row won} refl refl refl refl refl

find_old_placed_bets_iff_example :
    Memᴰ (bet_row placed) (bet_row placed ∷ [])
    ↔ ((assoc.get Bet table "t1" ≡ some (bet_row placed)) × (placed ≡ placed) × (100 < 5000 - 1000))
unfolding find_old_placed_bets
find_old_placed_bets_iff_example =
    find_old_placed_bets_iff assoc assoc-Laws none_down table table-KeyedBets 5000 1000
      (bet_row placed) refl
