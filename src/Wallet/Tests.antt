-- ===== src/Wallet/Tests.antt =====
-- Settlements on the sample wallet, with an agent that accepts and with one that rejects.
use chicken_road_b.Base.{ℕ, none, some, [], ◌∷◌, ◌≡◌, refl, arith, server_error, ◌⊎◌, eq_iff}
use chicken_road_b.Js.Cents.{cents}
use chicken_road_b.Stores.{none_down}
use chicken_road_b.Stores.Assoc.{assoc, assoc-Laws}
use chicken_road_b.Enums.{settle_bet}
use chicken_road_b.Bets.{placed}
use chicken_road_b.Bets.Keyed.{KeyedBets}
use chicken_road_b.Retry.Active.{HasActive}
use chicken_road_b.Wallet.{settle_call, AgentResponse}
use chicken_road_b.Wallet.Operations.{settle_bet_call}
use chicken_road_b.Wallet.Settle.{HasFailed, settle_accepted, settle_calls, settle_failed}
use chicken_road_b.Samples.{uuid, wallet, payloads, accepting, rejecting, bet_row, agent}

abbrev answer : AgentResponse ℕ
answer = record { balance = 5000; balance_ts = none; status = "0000"; user_id = some "u" }

wallet-KeyedBets : KeyedBets assoc wallet.bets
wallet-KeyedBets k v e = ground (arith, eq_iff "t1" k)

settle_accepted_example :
    let w' =
      (settle_bet_call cents assoc none_down uuid accepting 500 "r" "op" "t1" "u" 2400 "u100" 2000
        payloads wallet).1 in
    (answer.status ≡ "0000")
    × (w'.bets ≡ wallet.bets)
    × (w'.jobs ≡ wallet.jobs)
    × (w'.calls ≡ settle_call "t1" "u" 2400 2000 "u100" ∷ [])
unfolding settle_bet_call
settle_accepted_example =
    settle_accepted cents assoc none_down uuid 500 accepting "r" "op" "t1" "u" 2400 "u100" 2000
      payloads wallet {m = answer} refl

rejected_settlement_calls :
    let w' =
      (settle_bet_call cents assoc none_down uuid rejecting 500 "r" "op" "t1" "u" 2400 "u100" 2000
        payloads wallet).1 in
    (w'.calls ≡ []) ⊎ (w'.calls ≡ settle_call "t1" "u" 2400 2000 "u100" ∷ [])
rejected_settlement_calls =
    settle_calls cents assoc none_down uuid 500 rejecting "r" "op" "t1" "u" 2400 "u100" 2000
      payloads wallet

settle_failed_example :
    let w' =
      (settle_bet_call cents assoc none_down uuid rejecting 500 "r" "op" "t1" "u" 2400 "u100" 2000
        payloads wallet).1 in
    HasFailed assoc "t1" (bet_row placed) w'.bets
    × HasActive assoc "t1" settle_bet w'.jobs
    × (w'.calls ≡ settle_call "t1" "u" 2400 2000 "u100" ∷ [])
unfolding settle_bet_call
settle_failed_example =
    settle_failed cents assoc assoc-Laws none_down uuid 500 rejecting refl refl refl refl refl refl
      "r" "op" "t1" "u" 2400 "u100" 2000 payloads wallet {agent = agent}
      {x = server_error "Agent rejected settlement with status: 1028"} {b = bet_row placed} refl
      wallet-KeyedBets refl refl
