-- ===== src/GamePlay/Tests.antt =====
-- The flows on the sample world: runs, and the theorems applied to them.
use chicken_road_b.Base.{
  ℕ, String, true, false, none, some, List, [], ◌∷◌, ◌≡◌, refl, arith, pos, ok, err, io_error, ◌⊎◌,
  ◌↔◌, ◌≢◌, includes_int, length, at_int, ◌<◌, ◌-◌, suc_int,
}
use chicken_road_b.Js.{number_of}
use chicken_road_b.Js.Cents.{cents, fixed}
use chicken_road_b.Stores.{active_hazards}
use chicken_road_b.Stores.Assoc.{assoc, assoc-Laws}
use chicken_road_b.Stores.Every.{put-Every}
use chicken_road_b.Fairness.{generate_fairness_data_for_bet}
use chicken_road_b.Fairness.Hex.{calculate_decimal}
use chicken_road_b.Games.{get_game_payloads}
use chicken_road_b.Bets.{record_settlement}
use chicken_road_b.Wallet.Operations.{settle_bet_call}
use chicken_road_b.Wallet.{settle_call}
use chicken_road_b.GamePlay.{
  win, hazard, cashout, Answer, responds, refuses, refusal, advance, end_reason, send_step_response,
  multiplier,
}
use chicken_road_b.GamePlay.Flows.{Setting}
use chicken_road_b.GamePlay.Requests.{perform_bet_flow, perform_step_flow, perform_cash_out_flow}
use chicken_road_b.GamePlay.Steps.{
  IsRound, walking, refusal-none_iff, advance-IsRound, advance_ends, end_reason_round,
}
use chicken_road_b.GamePlay.Rounds.{AllRounds, requests-AllRounds}
use chicken_road_b.GamePlay.Payout.{PaidOnce}
use chicken_road_b.GamePlay.Turns.{Turn, steps_to, cashes_out, take_turns, turns-PaidOnce}
use chicken_road_b.GamePlay.Answers.{cash_out_pays}
use chicken_road_b.GamePlay.Outcome.{Stepped, step_pays}
use chicken_road_b.GamePlay.Betting.{perform_bet_flow-locks, bet_in_round}
use chicken_road_b.Samples.{
  crypto, uuid, session, session_key, world, accepting, rejecting, setting, payload,
}

session-IsRound : IsRound cents session
session-IsRound = walking 0 refl refl refl refl (omega arith)

world-AllRounds : AllRounds cents assoc assoc-Laws world
world-AllRounds =
    put-Every assoc assoc-Laws (IsRound cents) [] session_key session session-IsRound
      (λ k v e. absurd (cc))

abbrev calm : Setting ℕ
calm = setting [] accepting

abbrev turns : List (Turn ℕ)
turns =
    cashes_out (setting [] rejecting)
    ∷ steps_to calm (pos 1)
    ∷ cashes_out calm
    ∷ steps_to calm (pos 2)
    ∷ []

turns-PaidOnce_example :
    PaidOnce assoc session_key [] (take_turns cents assoc crypto uuid "u" "op" "road" turns world)
turns-PaidOnce_example =
    turns-PaidOnce cents assoc crypto uuid "u" "op" "road" assoc-Laws turns world

requests-AllRounds_example :
    AllRounds cents assoc assoc-Laws
      (perform_bet_flow cents assoc crypto uuid calm "u" "op" "road" (some payload) world).1
    × AllRounds cents assoc assoc-Laws
        (perform_step_flow cents assoc crypto uuid calm "u" "op" "road" (pos 1) world).1
    × AllRounds cents assoc assoc-Laws
        (perform_cash_out_flow cents assoc crypto uuid calm "u" "op" "road" world).1
requests-AllRounds_example =
    requests-AllRounds cents assoc assoc-Laws crypto uuid calm "u" "op" "road" (some payload)
      (pos 1) world world-AllRounds

advance-IsRound_example : IsRound cents (advance cents (1 ∷ []) (pos 1) session).0
unfolding refusal
advance-IsRound_example = advance-IsRound cents (1 ∷ []) session (pos 1) session-IsRound refl

refusal-none_iff_example : (refusal cents (some session) (pos 1) ≡ none) ↔ (
    (session.is_active ≡ true)
    × (0 < length session.coefficients)
    × ((n : ℕ) × (pos 1 ≡ pos n))
    × (pos 1 ≡ suc_int session.current_step))
refusal-none_iff_example = refusal-none_iff cents session (pos 1)

end_reason_round_example :
    ((end_reason cents session ≡ none) ↔ (session.is_active ≡ true))
    × (end_reason cents session ≢ some cashout)
    × ((end_reason cents session ≡ some hazard) → (session.win_amount ≡ cents.zero_num))
end_reason_round_example = end_reason_round cents session session-IsRound

perform_bet_flow-locks_example :
    assoc.get String
      (perform_bet_flow cents assoc crypto uuid calm "u" "op" "road" (some payload) world).1.locks
      "bet-lock:u-op"
    ≡ none
perform_bet_flow-locks_example =
    perform_bet_flow-locks cents assoc crypto uuid calm assoc-Laws "u" "op" "road" (some payload)
      world "bet-lock:u-op" refl

advance_ends_example :
    let (s', reason) = advance cents (1 ∷ []) (pos 1) session in
    ((reason ≡ some win) ↔ (pos 1 ≡ pos (length session.coefficients - 1)))
    × ((reason ≡ some hazard) ↔ (
        (includes_int (pos 1) (1 ∷ []) ≡ true) × (pos 1 ≢ pos (length session.coefficients - 1))))
    × (s'.current_step ≡ pos 1)
    × (s'.is_active ≡ true ↔ reason ≡ none)
    × ((reason ≡ some hazard) → (s'.win_amount ≡ cents.zero_num))
    × ((reason ≢ some hazard)
        → (s'.win_amount
            ≡ cents.mul session.bet_amount (number_of cents (at_int session.coefficients (pos 1)))))
unfolding refusal
advance_ends_example = advance_ends cents (1 ∷ []) session (pos 1) refl

-- The agent accepts: the cash-out on the first column pays 2.200.
abbrev cash_out_answer : Answer
cash_out_answer = responds (
    send_step_response cents false true (pos 0) 2200 2000 1100 session.difficulty "INR"
      (some cashout) (some []))

cash_out_pays_example :
    ((perform_cash_out_flow cents assoc crypto uuid calm "u" "op" "road" world).1.wallet.calls
      ≡ settle_call "t1" "u" 2200 2000 "u100" ∷ [])
    × (cash_out_answer
        ≡ responds (
            send_step_response cents false true
              (pos 0)
              2200
              2000
              (multiplier cents session)
              session.difficulty
              "INR"
              (some cashout)
              (some [])))
unfolding perform_cash_out_flow get_game_payloads settle_bet_call generate_fairness_data_for_bet
    calculate_decimal record_settlement fixed
cash_out_pays_example =
    cash_out_pays cents assoc crypto uuid calm "u" "op" "road" world session cash_out_answer refl
      refl refl

-- A step onto a hazard.
abbrev step_answer : Answer
step_answer = responds (
    send_step_response cents false false (pos 1) 0 2000 0 session.difficulty "INR" (some hazard)
      (some (1 ∷ [])))

step_pays_example :
    Stepped cents "u"
      (1 ∷ [])
      session
      (pos 1)
      []
      (perform_step_flow cents assoc crypto uuid
        (setting (1 ∷ []) accepting)
        "u"
        "op"
        "road"
        (pos 1)
        world).1.wallet.calls
      step_answer
unfolding perform_step_flow refusal advance get_game_payloads settle_bet_call
    generate_fairness_data_for_bet calculate_decimal record_settlement fixed
step_pays_example =
    step_pays cents assoc crypto uuid (setting (1 ∷ []) accepting) "u" "op" "road" world (pos 1)
      session step_answer refl refl refl refl

bet_in_round_example :
    let (r, w') =
      perform_bet_flow cents assoc crypto uuid calm "u" "op" "road" (some payload) world in
    (w'.wallet ≡ world.wallet)
    × (w'.sessions ≡ world.sessions)
    × (w'.seeds ≡ world.seeds)
    × ((r ≡ ok (refuses "active_session_exists")) ⊎ (r ≡ err io_error))
bet_in_round_example =
    bet_in_round cents assoc crypto uuid calm assoc-Laws "u" "op" "road" (some payload) world
      {s = session} refl refl

-- A whole round: a step that is safe, then the last column.
wins_round :
    (take_turns cents assoc crypto uuid "u" "op" "road"
      (steps_to calm (pos 1) ∷ steps_to calm (pos 2) ∷ [])
      world).wallet.calls
    ≡ settle_call "t1" "u" 3000 2000 "u100" ∷ []
unfolding perform_step_flow advance get_game_payloads settle_bet_call generate_fairness_data_for_bet
    calculate_decimal record_settlement fixed
wins_round = refl

-- The hazards cannot be read after a cash-out: the player is told an error, and the agent has
-- been asked to pay all the same.
abbrev blind : Setting ℕ
blind = record calm { down = λ c. elim c [ active_hazards ↦ true | _ ↦ false ] }

cash_out_paid_with_error :
    let (r, w') = perform_cash_out_flow cents assoc crypto uuid blind "u" "op" "road" world in
    (r ≡ err io_error) × (w'.wallet.calls ≡ settle_call "t1" "u" 2200 2000 "u100" ∷ [])
unfolding perform_cash_out_flow get_game_payloads settle_bet_call generate_fairness_data_for_bet
    calculate_decimal record_settlement fixed
cash_out_paid_with_error = (refl, refl)
