-- ===== src/GamePlay/Steps.antt =====
-- What a session can be during a round, and what a step makes of it.
use chicken_road_b.Base.{
  ℕ, ◌+◌, ◌-◌, ◌<◌, true, false, none, some, List, ◌≡◌, refl, arith, ℤ, pos, suc_int, same_int,
  same_int_iff, at_int, includes_int, length, Bool-cases, inl, inr, ◌↔◌, ◌≢◌, ap, negsuc, zero, suc,
  below_start, sym, ◌∙◌, false,
}
use chicken_road_b.Js.{Js, number_of}
use chicken_road_b.GamePlay.{
  GameSession, win, cashout, hazard, initial_step, advance, refusal, is_playable, moved, end_reason,
}

module _ {Num : Type 0} (js : Js Num) where
  -- The states of a round: bet placed, on a column that is not the last, ended with a payout, or
  -- ended on a hazard.
  pub data IsRound (s : GameSession Num) : Type 0 where
    opened :
        s.is_active ≡ true
        → s.current_step ≡ initial_step
        → s.win_amount ≡ s.bet_amount
        → s.collision_columns ≡ none
        → 0 < length s.coefficients
        → IsRound s
    walking :
        (i : ℕ)
        → s.is_active ≡ true
        → s.current_step ≡ pos i
        → s.win_amount ≡ js.mul s.bet_amount (number_of js (at_int s.coefficients (pos i)))
        → s.collision_columns ≡ none
        → i + 1 < length s.coefficients
        → IsRound s
    paid : s.is_active ≡ false → s.is_win ≡ true → s.collision_columns ≡ none → IsRound s
    lost :
        (l : List ℕ)
        → s.is_active ≡ false
        → s.is_win ≡ false
        → s.win_amount ≡ js.zero_num
        → s.collision_columns ≡ some l
        → includes_int s.current_step l ≡ true
        → IsRound s

  next_index : (z : ℤ) → (below_start z ≡ false) ↔ ((n : ℕ) × (suc_int z ≡ pos n))
  next_index (pos i) = ((λ h. (i + 1, refl)), (λ h. refl))
  next_index (negsuc zero) = ((λ h. (0, refl)), (λ h. refl))
  next_index (negsuc (suc i)) = ((λ h. absurd (cc)), (λ (n, h). absurd (cc)))

  -- The guards of a step let a stored session through exactly if it is active, it has
  -- coefficients, the column asked for is an index (0 or more), and it is the one after the
  -- column that the session stands on.
  pub refusal-none_iff :
      (s : GameSession Num) (line : ℤ)
      → (refusal js (some s) line ≡ none) ↔ (
          (s.is_active ≡ true)
          × (0 < length s.coefficients)
          × ((n : ℕ) × (line ≡ pos n))
          × (line ≡ suc_int s.current_step))
  unfolding refusal
  refusal-none_iff s line = (
    (λ h.
        let e : line ≡ suc_int s.current_step =
          (ground (arith, same_int_iff line (suc_int s.current_step))) in
        let (n, f) = (next_index s.current_step).0 (ground arith) in
        (ground arith, ground arith, (n, e ∙ f), e)),
    (λ (active, more, (n, f), e).
        let placed : below_start s.current_step ≡ false =
          (next_index s.current_step).1 (n, sym e ∙ f) in
        ground (arith, same_int_iff line (suc_int s.current_step))),
  )

  -- An active round's session passes the guards that look at the session itself.
  pub active-IsPlayable :
      (s : GameSession Num) → IsRound s → s.is_active ≡ true → is_playable js s ≡ true
  active-IsPlayable s (opened a e w c l) h = ground arith
  active-IsPlayable s (walking i a e w c l) h = ground arith
  active-IsPlayable s (paid a w c) h = ground arith
  active-IsPlayable s (lost l a w z c i) h = ground arith

  -- The column that a step goes to lies in the table of coefficients.
  next_column :
      (s : GameSession Num) (line : ℤ)
      → IsRound s
      → s.is_active ≡ true
      → line ≡ suc_int s.current_step
      → (i : ℕ) × (line ≡ pos i) × (i < length s.coefficients)
  next_column s line (opened a e w c l) h f = (0, rw (f, e) refl, l)
  next_column s line (walking i a e w c l) h f = (i + 1, rw (f, e) refl, l)
  next_column s line (paid a w c) h f = absurd (cc)
  next_column s line (lost l a w z c i) h f = absurd (cc)

  no_collision : (s : GameSession Num) → IsRound s → s.is_active ≡ true → s.collision_columns ≡ none
  no_collision s (opened a e w c l) h = c
  no_collision s (walking i a e w c l) h = c
  no_collision s (paid a w c) h = absurd (cc)
  no_collision s (lost l a w z c i) h = absurd (cc)

  accepted :
      (s : GameSession Num) (line : ℤ)
      → refusal js (some s) line ≡ none
      → (s.is_active ≡ true) × (line ≡ suc_int s.current_step)
  accepted s line h = let (active, more, index, e) = (refusal-none_iff s line).0 h in (active, e)

  -- A step that the guards let through leads from a state of a round to a state of a round.
  pub advance-IsRound :
      (hazards : List ℕ) (s : GameSession Num) (line : ℤ)
      → IsRound s
      → refusal js (some s) line ≡ none
      → IsRound (advance js hazards line s).0
  unfolding advance moved
  advance-IsRound hazards s line r h =
      let (a, e) = accepted s line h in
      let (i, f, l) = next_column s line r a e in
      let c = no_collision s r a in
      elim (Bool-cases (same_int line (pos (length s.coefficients - 1)))) [
        | inl last ↦ rw last (paid refl refl c)
        | inr go_on ↦ elim (Bool-cases (includes_int line hazards)) [
          | inl hit ↦ rw (go_on, hit) (lost hazards refl refl refl refl hit)
          | inr miss ↦
              rw (go_on, miss)
                (walking i a f
                  (ap (λ x. js.mul s.bet_amount (number_of js (at_int s.coefficients x))) f) c
                  (ground (arith, same_int_iff line (pos (length s.coefficients - 1)))))
        ]
      ]

  -- A cash-out leads from an active round to one that is paid, with its amount unchanged.
  pub cashed-IsRound :
      (s : GameSession Num)
      → IsRound s
      → s.is_active ≡ true
      → IsRound (record s { is_active = false; is_win = true })
  cashed-IsRound s r a = paid refl refl (no_collision s r a)

  -- For a session and a column that the guards let through: the round is won exactly on the
  -- last column, whatever the hazards are; it is lost exactly on a hazard that is not the last
  -- column, with nothing won; the session stands on the column asked for and is active exactly
  -- if neither happened; and unless it is lost the amount is the bet times the column's
  -- coefficient.
  pub advance_ends :
      (hazards : List ℕ) (s : GameSession Num) (line : ℤ)
      → refusal js (some s) line ≡ none
      → let (s', reason) = advance js hazards line s in
        ((reason ≡ some win) ↔ (line ≡ pos (length s.coefficients - 1)))
        × ((reason ≡ some hazard)
            ↔ ((includes_int line hazards ≡ true) × (line ≢ pos (length s.coefficients - 1))))
        × (s'.current_step ≡ line)
        × (s'.is_active ≡ true ↔ reason ≡ none)
        × ((reason ≡ some hazard) → (s'.win_amount ≡ js.zero_num))
        × ((reason ≢ some hazard)
            → (s'.win_amount ≡ js.mul s.bet_amount (number_of js (at_int s.coefficients line))))
  unfolding advance moved
  advance_ends hazards s line h =
      let last_iff = same_int_iff line (pos (length s.coefficients - 1)) in
      elim (Bool-cases (same_int line (pos (length s.coefficients - 1)))) [
        | inl last ↦ rw last (ground (arith, last_iff))
        | inr go_on ↦ elim (Bool-cases (includes_int line hazards)) [
          | inl hit ↦ rw (go_on, hit) (ground (arith, last_iff))
          | inr miss ↦ rw (go_on, miss) (ground (arith, last_iff, (accepted s line h).0))
        ]
      ]

  -- For a stored session in a state of a round: it is reported as unfinished exactly if it is
  -- active, it is never reported as cashed out, and if it is reported as ended by a hazard
  -- nothing was won.
  pub end_reason_round :
      (s : GameSession Num)
      → IsRound s
      → ((end_reason js s ≡ none) ↔ (s.is_active ≡ true))
        × (end_reason js s ≢ some cashout)
        × ((end_reason js s ≡ some hazard) → (s.win_amount ≡ js.zero_num))
  unfolding end_reason
  end_reason_round s (opened a e w c l) = ground arith
  end_reason_round s (walking i a e w c l) = ground arith
  end_reason_round s (paid a w c) = ground arith
  end_reason_round s (lost l a w z c i) = ground arith

  -- A step leaves the transaction and the round of the session alone.
  pub advance_same :
      (hazards : List ℕ) (s : GameSession Num) (line : ℤ)
      → let s' = (advance js hazards line s).0 in
        (s'.platform_bet_tx_id ≡ s.platform_bet_tx_id) × (s'.round_id ≡ s.round_id)
  unfolding advance moved
  advance_same hazards s line =
      elim (Bool-cases (same_int line (pos (length s.coefficients - 1)))) [
        | inl last ↦ rw last (refl, refl)
        | inr go_on ↦ elim (Bool-cases (includes_int line hazards)) [
          | inl hit ↦ rw (go_on, hit) (refl, refl)
          | inr miss ↦ rw (go_on, miss) (refl, refl)
        ]
      ]
