-- ===== src/Wallet/Settle.antt =====
-- `settleBet`: what is left behind by a settlement that the agent takes, and by one that fails.
use chicken_road_b.Base.{
  ℕ, String, false, Option, none, some, ◌∷◌, [], ◌≡◌, refl, arith, str_eq, eq_iff, eq_refl, or_text,
  server_error, subst, after_found, after_missing, not_found, template, Action, Thrown, Result, ok,
  err, Option-cases, Bool-cases, io_error, true, inl, inr, ◌⊎◌, ◌∙◌, sym, ap,
}
use chicken_road_b.Js.{Js}
use chicken_road_b.Stores.{
  Stores, Laws, Outage, agent_find, bet_find, bet_save, job_find, job_save, audit_save,
}
use chicken_road_b.Enums.{settle_bet, WalletErrorType, agent_rejected}
use chicken_road_b.Games.{GamePayloads}
use chicken_road_b.Bets.{Bet, settlement_failed, mark_settlement_failed}
use chicken_road_b.Bets
use chicken_road_b.Bets.Keyed.{KeyedBets}
use chicken_road_b.Bets.Placement.{update_status_any}
use chicken_road_b.Retry.Active.{HasActive}
use chicken_road_b.Wallet.{
  WalletCall, settle_call, Reply, AgentResponse, WalletWorld, Agent, Subject, resolve_agent,
  log_and_retry, error_status, error_type,
}
use chicken_road_b.Wallet.Keeping.{
  log_success_keeps, log_and_retry_keeps, mark_failed_keeps, log_and_retry-HasActive,
}
use chicken_road_b.Wallet.Ends.{Ends, accepts, rejects, breaks, request-Ends, noted}
use chicken_road_b.Wallet.Operations.{
  request, settle_bet_call, settle_subject, mark_failed, retry_rejection, retry_exception,
}

-- The bet stays what it was, but for its status and who updated it.
abbrev pub HasFailed : (st : Stores) → String → Bet → Bets.Bets st → Type 0
HasFailed st tx b t =
    (b' : Bet) × (st.get Bet t tx ≡ some b')
    × (b'.status ≡ settlement_failed)
    × (b'.bet_amount ≡ b.bet_amount)
    × (b'.user_id ≡ b.user_id)

module _ {Num : Type 0} (js : Js Num) (st : Stores) (down : Outage) (uuid : ℕ → String) (now : ℕ)
    (reply : WalletCall Num → Reply Num) where
  module _ (s : Subject Num) (tx user : String) where
    reject_quiet :
        (code : ℕ) (m : String) (w : WalletWorld st Num)
        → (retry_rejection js st down uuid reply now s
            (mark_failed js st down uuid reply user tx)
            code
            m
            w).0
          ≡ ok tt
    unfolding retry_rejection log_and_retry mark_failed
    reject_quiet code m w = refl

    fail_quiet :
        (e : Thrown) (w : WalletWorld st Num)
        → (retry_exception js st down uuid reply now s
            (mark_failed js st down uuid reply user tx)
            e
            w).0
          ≡ ok tt
    unfolding retry_exception log_and_retry mark_failed
    fail_quiet e w = refl

    reject_calls :
        (code : ℕ) (m : String) (w : WalletWorld st Num)
        → (retry_rejection js st down uuid reply now s
            (mark_failed js st down uuid reply user tx)
            code
            m
            w).1.calls
          ≡ w.calls
    unfolding retry_rejection
    reject_calls code m w =
        (mark_failed_keeps js st down uuid now reply user tx _).1
        ∙ (log_and_retry_keeps js st down uuid now s (some code) agent_rejected m w).1

    fail_calls :
        (e : Thrown) (w : WalletWorld st Num)
        → (retry_exception js st down uuid reply now s
            (mark_failed js st down uuid reply user tx)
            e
            w).1.calls
          ≡ w.calls
    unfolding retry_exception
    fail_calls e w =
        (mark_failed_keeps js st down uuid now reply user tx _).1
        ∙ (log_and_retry_keeps js st down uuid now s (error_status e) (error_type e)
            (or_text (some e.message) "Unknown error") w).1

  module _ (request_id agent_id tx user_id : String) (win : Num) (round_id : String) (bet : Num)
      (payloads : GamePayloads) where
    abbrev settled : WalletWorld st Num → Result (AgentResponse Num) × WalletWorld st Num
    settled =
        settle_bet_call js st down uuid reply now request_id agent_id tx user_id win round_id bet
          payloads

    abbrev subject : Subject Num
    subject =
        settle_subject js st down uuid reply request_id agent_id tx user_id win round_id bet
          payloads

    abbrev marked : Action (WalletWorld st Num) (Unit {0})
    marked = mark_failed js st down uuid reply user_id tx

    abbrev call : WalletCall Num
    call = settle_call tx user_id win bet round_id

    settled_run :
        (w : WalletWorld st Num) {agent : Agent}
        → down agent_find ≡ false
        → st.find Agent w.agents (λ a. str_eq a.agent_id agent_id) ≡ some agent
        → settled w
          ≡ request js st down uuid reply now subject call "settlement"
              (retry_rejection js st down uuid reply now subject marked)
              (retry_exception js st down uuid reply now subject marked)
              w
    unfolding settle_bet_call resolve_agent
    settled_run w up known = rw up (
        after_found _ _
          (request js st down uuid reply now subject call "settlement"
            (retry_rejection js st down uuid reply now subject marked)
            (retry_exception js st down uuid reply now subject marked))
          known)

    stopped :
        (w : WalletWorld st Num)
        → down agent_find ≡ false
        → st.find Agent w.agents (λ a. str_eq a.agent_id agent_id) ≡ none
        → settled w ≡ (err (not_found (template ("Agent '" ∷ agent_id ∷ "' not found" ∷ []))), w)
    unfolding settle_bet_call resolve_agent
    stopped w up unknown = rw up (
        after_missing _ _
          (request js st down uuid reply now subject call "settlement"
            (retry_rejection js st down uuid reply now subject marked)
            (retry_exception js st down uuid reply now subject marked))
          unknown)

    -- The table of agents cannot be read: nothing is asked, marked or left to be tried again.
    unreadable : (w : WalletWorld st Num) → down agent_find ≡ true → settled w ≡ (err io_error, w)
    unfolding settle_bet_call resolve_agent
    unreadable w off = rw off refl

    settled-Ends :
        (w : WalletWorld st Num) {agent : Agent}
        → down agent_find ≡ false
        → st.find Agent w.agents (λ a. str_eq a.agent_id agent_id) ≡ some agent
        → Ends js st down uuid reply now subject call
            (retry_rejection js st down uuid reply now subject marked)
            (retry_exception js st down uuid reply now subject marked)
            w
            (settled w)
    settled-Ends w up known =
        subst
          (Ends js st down uuid reply now subject call
            (retry_rejection js st down uuid reply now subject marked)
            (retry_exception js st down uuid reply now subject marked) w)
          (sym (settled_run w up known))
          (request-Ends js st down uuid reply now subject call "settlement"
            (retry_rejection js st down uuid reply now subject marked)
            (retry_exception js st down uuid reply now subject marked)
            (reject_quiet subject tx user_id) (fail_quiet subject tx user_id) w)

    -- Whatever fails and whatever the agent answers, a settlement makes no request to the agent
    -- or exactly the one that carries its transaction, player, win amount, bet amount and
    -- round.
    pub settle_calls :
        (w : WalletWorld st Num)
        → let w' = (settled w).1 in (w'.calls ≡ w.calls) ⊎ (w'.calls ≡ call ∷ w.calls)
    settle_calls w = elim (Bool-cases (down agent_find)) [
      | inl off ↦ inl (ap (λ o. o.1.calls) (unreadable w off))
      | inr up ↦ elim (Option-cases (st.find Agent w.agents (λ a. str_eq a.agent_id agent_id))) [
        | inl unknown ↦ inl (ap (λ o. o.1.calls) (stopped w up unknown))
        | inr (agent, known) ↦ elim (settled-Ends w up known) [
          | accepts code m o good s ↦ inr (
              ap (λ w. w.calls) s
              ∙ (log_success_keeps js st down uuid now subject (some code)
                  (noted js st down uuid reply call w)).2)
          | rejects code m o s ↦ inr (
              ap (λ w. w.calls) s
              ∙ fail_calls subject tx user_id (server_error m) _
              ∙ reject_calls subject tx user_id code m (noted js st down uuid reply call w))
          | breaks x o s ↦ inr (
              ap (λ w. w.calls) s
              ∙ fail_calls subject tx user_id x (noted js st down uuid reply call w))
        ]
      ]
    ]

    -- If a settlement returns an answer, its status is 0000, the agent was asked once, and the
    -- bets and the retry jobs are as before.
    pub settle_accepted :
        (w : WalletWorld st Num) {m : AgentResponse Num}
        → (settled w).0 ≡ ok m
        → let w' = (settled w).1 in
          (m.status ≡ "0000")
          × (w'.bets ≡ w.bets)
          × (w'.jobs ≡ w.jobs)
          × (w'.calls ≡ call ∷ w.calls)
    settle_accepted w {m = m} e = elim (Bool-cases (down agent_find)) [
      | inl off ↦ absurd (thrown (unreadable w off))
      | inr up ↦ elim (Option-cases (st.find Agent w.agents (λ a. str_eq a.agent_id agent_id))) [
        | inl unknown ↦ absurd (thrown (stopped w up unknown))
        | inr (agent, known) ↦ elim (settled-Ends w up known) [
          | accepts code m' o good s ↦
              let (a, b, c) =
                log_success_keeps js st down uuid now subject (some code)
                  (noted js st down uuid reply call w) in
              (
                rw (ok_inj (sym e ∙ o)) good,
                ap (λ w. w.bets) s ∙ a,
                ap (λ w. w.jobs) s ∙ b,
                ap (λ w. w.calls) s ∙ c,
              )
          | rejects code m' o s ↦ absurd (cc)
          | breaks x o s ↦ absurd (cc)
        ]
      ]
    ]
      where
        ok_inj : {a b : AgentResponse Num} → ok a ≡ ok b → a ≡ b
        ok_inj p = cc

        thrown : {x : Thrown} → settled w ≡ (err x, w) → ⊥
        thrown f = cc (sym e ∙ ap (λ o. o.0) f)

module _ {Num : Type 0} (js : Js Num) (st : Stores) (laws : Laws st) (down : Outage)
    (uuid : ℕ → String) (now : ℕ) (reply : WalletCall Num → Reply Num)
    (agents_up : down agent_find ≡ false) (find_up : down bet_find ≡ false)
    (save_up : down bet_save ≡ false) (audit_up : down audit_save ≡ false)
    (job_find_up : down job_find ≡ false) (job_save_up : down job_save ≡ false) where
  -- What a handler of a failure does from `w` on.
  record Handled (s : Subject Num) (tx : String) (b : Bet) (w w' : WalletWorld st Num)
      : Type 0 where
    keyed : KeyedBets st w'.bets
    failed_bet : HasFailed st tx b w'.bets
    waiting : HasActive st tx s.action w'.jobs
    same_calls : w'.calls ≡ w.calls

  mark_row :
      (t : Bets.Bets st) (tx user : String) {b : Bet}
      → KeyedBets st t
      → st.get Bet t tx ≡ some b
      → let t' = (mark_settlement_failed st down tx user t).1 in
        KeyedBets st t' × HasFailed st tx b t'
  unfolding mark_settlement_failed
  mark_row t tx user {b} keyed e =
      let b' = record b { status = settlement_failed; updated_by = user } in
      rw (update_status_any st laws down t keyed tx settlement_failed user find_up save_up e) (
        (λ k v f. ground (arith, laws.get-put Bet t tx b' k, keyed k v, keyed tx b e, eq_iff tx k)),
        (b', rw (laws.get-put Bet t tx b' tx) (rw (eq_refl tx) refl), refl, refl, refl),
      )

  handled :
      (s : Subject Num) (tx user : String) (code : Option ℕ) (type : WalletErrorType) (m : String)
      (w : WalletWorld st Num) {b : Bet}
      → s.platform_tx_id ≡ some tx
      → KeyedBets st w.bets
      → st.get Bet w.bets tx ≡ some b
      → Handled s tx b w
          (mark_failed js st down uuid reply user tx
            (log_and_retry js st down uuid now s code type m w).1).1
  handled s tx user code type m w {b} at keyed e =
      let w' = (log_and_retry js st down uuid now s code type m w).1 in
      let (bets, calls) = log_and_retry_keeps js st down uuid now s code type m w in
      let (jobs, calls', marked) = mark_failed_keeps js st down uuid now reply user tx w' in
      let row = mark_row w'.bets tx user {b = b} (rw bets keyed) (rw bets e) in
      record {
        keyed = rw marked row.0;
        failed_bet = rw marked row.1;
        waiting = rw jobs (
            log_and_retry-HasActive js st down uuid now laws s code type m w at audit_up job_find_up
              job_save_up);
        same_calls = calls' ∙ calls;
      }

  module _ (s : Subject Num) (tx user : String) where
    -- The world that the `catch` leaves, from the one it starts in.
    caught :
        (e : Thrown) (w : WalletWorld st Num) {b : Bet}
        → s.platform_tx_id ≡ some tx
        → KeyedBets st w.bets
        → st.get Bet w.bets tx ≡ some b
        → Handled s tx b w
            (retry_exception js st down uuid reply now s
              (mark_failed js st down uuid reply user tx)
              e
              w).1
    unfolding retry_exception
    caught e w {b} at keyed f =
        handled s tx user (error_status e) (error_type e) (or_text (some e.message) "Unknown error")
          w {b = b} at keyed f

    refused :
        (code : ℕ) (m : String) (w : WalletWorld st Num) {b : Bet}
        → s.platform_tx_id ≡ some tx
        → KeyedBets st w.bets
        → st.get Bet w.bets tx ≡ some b
        → Handled s tx b w
            (retry_rejection js st down uuid reply now s
              (mark_failed js st down uuid reply user tx)
              code
              m
              w).1
    unfolding retry_rejection
    refused code m w {b} at keyed f =
        handled s tx user (some code) agent_rejected m w {b = b} at keyed f

  module _ (request_id agent_id tx user_id : String) (win : Num) (round_id : String) (bet : Num)
      (payloads : GamePayloads) where
    abbrev run : WalletWorld st Num → Result (AgentResponse Num) × WalletWorld st Num
    run =
        settle_bet_call js st down uuid reply now request_id agent_id tx user_id win round_id bet
          payloads

    abbrev about : Subject Num
    about =
        settle_subject js st down uuid reply request_id agent_id tx user_id win round_id bet
          payloads

    abbrev asked : WalletCall Num
    asked = settle_call tx user_id win bet round_id

    -- If the agent is known, the bet is in a keyed table, the table of agents can be read and
    -- those of bets, audits and retry jobs read and written, and a settlement throws (the agent
    -- cannot be reached, answers without a status, or rejects), then the agent was asked once,
    -- the bet is marked settlement_failed with its amount and player unchanged, and an active
    -- retry job for the transaction and for settling exists.
    pub settle_failed :
        (w : WalletWorld st Num) {agent : Agent} {x : Thrown} {b : Bet}
        → st.find Agent w.agents (λ a. str_eq a.agent_id agent_id) ≡ some agent
        → KeyedBets st w.bets
        → st.get Bet w.bets tx ≡ some b
        → (run w).0 ≡ err x
        → let w' = (run w).1 in
          HasFailed st tx b w'.bets
          × HasActive st tx settle_bet w'.jobs
          × (w'.calls ≡ asked ∷ w.calls)
    settle_failed w {b = b} known keyed f e =
        elim (settled-Ends js st down uuid now reply request_id agent_id tx user_id win round_id bet
          payloads w agents_up known) [
            | accepts code m' o good s ↦ absurd (cc)
            | rejects code m o s ↦
                let first =
                  refused about tx user_id code m (noted js st down uuid reply asked w) {b = b} refl
                    keyed f in
                let (b', g, _, amount, user) = first.failed_bet in
                let second =
                  caught about tx user_id (server_error m) _ {b = b'} refl first.keyed g in
                let (b'', g', failed, amount', user') = second.failed_bet in
                rw s (
                  (b'', g', failed, amount' ∙ amount, user' ∙ user),
                  second.waiting,
                  second.same_calls ∙ first.same_calls,
                )
            | breaks x o s ↦
                let h =
                  caught about tx user_id x (noted js st down uuid reply asked w) {b = b} refl keyed
                    f in
                rw s (h.failed_bet, h.waiting, h.same_calls)
          ]
