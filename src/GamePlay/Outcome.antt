-- ===== src/GamePlay/Outcome.antt =====
-- What a step comes to for the player: what the agent is asked to pay, and what the answer says.
use chicken_road_b.Base.{
  ℕ, ◌-◌, String, true, false, none, some, List, ◌∷◌, ◌≡◌, ◌≢◌, refl, ℤ, pos, is_index, is_truthy,
  ◌&&◌, at_int, includes_int, same_int, same_int_iff, length, Option, ok, Bool-cases, inl, inr,
}
use chicken_road_b.Js.{Js, number_of}
use chicken_road_b.Stores.{Stores}
use chicken_road_b.Fairness.{Crypto}
use chicken_road_b.Wallet.{WalletCall, settle_call}
use chicken_road_b.GamePlay.{
  GameSession, EndReason, Answer, responds, refusal, get_redis_key, advance, moved,
  send_step_response,
}
use chicken_road_b.GamePlay.Flows.{GameWorld, Setting}
use chicken_road_b.GamePlay.Requests.{perform_step_flow, shown_multiplier, collided}
use chicken_road_b.GamePlay.Steps.{refusal-none_iff}
use chicken_road_b.GamePlay.Answers.{step_paid, asked_by}

module _ {Num : Type 0} (js : Js Num) where
  -- A step from session `s` onto column `line`, with these active hazards: the requests to the
  -- agent before and after it, and the answer.
  pub data Stepped (user : String) (hazards : List ℕ) (s : GameSession Num) (line : ℤ)
      (before after : List (WalletCall Num)) (a : Answer) : Type 0 where
    wins :
        line ≡ pos (length s.coefficients - 1)
        → after
          ≡ settle_call s.platform_bet_tx_id user
              (js.mul s.bet_amount (number_of js (at_int s.coefficients line)))
              s.bet_amount
              s.round_id
            ∷ before
        → a
          ≡ responds (record {
            is_finished = true;
            line_number = some line;
            win_amount =
                js.to_fixed 3 (js.mul s.bet_amount (number_of js (at_int s.coefficients line)));
            bet_amount = js.to_fixed 3 s.bet_amount;
            coeff = js.to_fixed 3 (number_of js (at_int s.coefficients line));
            difficulty = s.difficulty;
            currency = s.currency;
            is_win = some true;
            collision_positions = none;
          })
        → Stepped user hazards s line before after a
    loses :
        line ≢ pos (length s.coefficients - 1)
        → includes_int line hazards ≡ true
        → after ≡ settle_call s.platform_bet_tx_id user js.zero_num s.bet_amount s.round_id ∷ before
        → a
          ≡ responds (record {
            is_finished = true;
            line_number = some line;
            win_amount = js.to_fixed 3 js.zero_num;
            bet_amount = js.to_fixed 3 s.bet_amount;
            coeff = js.to_fixed 3 js.zero_num;
            difficulty = s.difficulty;
            currency = s.currency;
            is_win = none;
            collision_positions = some hazards;
          })
        → Stepped user hazards s line before after a
    goes_on :
        line ≢ pos (length s.coefficients - 1)
        → includes_int line hazards ≡ false
        → after ≡ before
        → a
          ≡ responds (record {
            is_finished = false;
            line_number = some line;
            win_amount =
                js.to_fixed 3 (js.mul s.bet_amount (number_of js (at_int s.coefficients line)));
            bet_amount = js.to_fixed 3 s.bet_amount;
            coeff = js.to_fixed 3 (number_of js (at_int s.coefficients line));
            difficulty = s.difficulty;
            currency = s.currency;
            is_win = none;
            collision_positions = none;
          })
        → Stepped user hazards s line before after a

  -- A column that the guards let through is an index.
  accepted_index :
      (s : GameSession Num) (line : ℤ) → refusal js (some s) line ≡ none → is_index line ≡ true
  accepted_index s line h =
      let (active, more, (n, e), next) = (refusal-none_iff js s line).0 h in rw e refl

  other_column :
      (s : GameSession Num) (line : ℤ)
      → same_int line (pos (length s.coefficients - 1)) ≡ false
      → line ≢ pos (length s.coefficients - 1)
  other_column s line go_on e =
      let same = (same_int_iff line (pos (length s.coefficients - 1))).1 e in cc

  module _ (st : Stores) (crypto : Crypto) (uuid : ℕ → String) (at : Setting Num)
      (user game : String) (s : GameSession Num) (line : ℤ) (before after : List (WalletCall Num))
      (a : Answer) where
    abbrev Paid : GameSession Num × Option EndReason → Type 0
    Paid (s', r) =
        (after ≡ asked_by js st crypto uuid at user s' r before)
        × (a
            ≡ responds (
                send_step_response js s'.is_active s'.is_win s'.current_step s'.win_amount
                  s'.bet_amount (shown_multiplier js st crypto uuid at s' r) s'.difficulty
                  s'.currency r (collided js st crypto uuid at r (at.hazards game s'.difficulty))))

    advance-Stepped :
        s.is_active ≡ true
        → is_index line ≡ true
        → Paid (advance js (at.hazards game s.difficulty) line s)
        → Stepped user (at.hazards game s.difficulty) s line before after a
    unfolding advance moved send_step_response
    advance-Stepped active index paid =
        elim (Bool-cases (same_int line (pos (length s.coefficients - 1)))) [
          | inl last ↦
              let (calls, told) = rw (last, index) at paid in
              wins ((same_int_iff line (pos (length s.coefficients - 1))).0 last) calls told
          | inr go_on ↦ elim (Bool-cases (includes_int line (at.hazards game s.difficulty))) [
            | inl hit ↦
                let (calls, told) = rw (go_on, hit) at paid in
                loses (other_column s line go_on) hit calls told
            | inr miss ↦
                let (calls, told) = rw (go_on, miss, index, active) at paid in
                goes_on (other_column s line go_on) miss calls told
          ]
        ]

module _ {Num : Type 0} (js : Js Num) (st : Stores) (crypto : Crypto) (uuid : ℕ → String)
    (at : Setting Num) (user agent game : String) (w : GameWorld st Num) where
  -- If the stored session's guards let a step through, its transaction and round are not empty,
  -- and the step is answered without an error, then one of three things has happened. On the
  -- last column the agent has been asked once, to pay the bet times that column's coefficient
  -- for the session's transaction and round, and the answer says that the round is finished and
  -- won, with that amount and coefficient. On a hazard that is not the last column the agent
  -- has been asked once, to pay 0, and the answer says that the round is finished, with amount
  -- and coefficient 0, no isWin and the hazards. On any other column the agent has not been
  -- asked, and the answer says that the round goes on, with the bet times the column's
  -- coefficient, no isWin and no hazards.
  pub step_pays :
      (line : ℤ) (s : GameSession Num) (a : Answer)
      → st.get (GameSession Num) w.sessions (get_redis_key user agent game) ≡ some s
      → refusal js (some s) line ≡ none
      → is_truthy s.platform_bet_tx_id && is_truthy s.round_id ≡ true
      → (perform_step_flow js st crypto uuid at user agent game line w).0 ≡ ok a
      → Stepped js user
          (at.hazards game s.difficulty)
          s
          line
          w.wallet.calls
          (perform_step_flow js st crypto uuid at user agent game line w).1.wallet.calls
          a
  step_pays line s a e accepted good o =
      advance-Stepped js st crypto uuid at user game s line w.wallet.calls
        (perform_step_flow js st crypto uuid at user agent game line w).1.wallet.calls a
        ((refusal-none_iff js s line).0 accepted).0 (accepted_index js s line accepted)
        (step_paid js st crypto uuid at user agent game w line s a e accepted good o)
