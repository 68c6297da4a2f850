-- ===== src/Wallet/Refund.antt =====
-- `refundBet`: what a refund that the agent takes leaves behind.
use chicken_road_b.Base.{
  ℕ, String, none, some, List, [], ◌∷◌, ◌≡◌, refl, str_eq, after_found, after_missing, not_found,
  template, Action, Thrown, ok, err, Option-cases, Bool-cases, true, false, io_error, inl, inr, ◌∙◌,
  sym, ap,
}
use chicken_road_b.Js.{Js}
use chicken_road_b.Stores.{Stores, Outage, agent_find}
use chicken_road_b.Enums.{RefundTransaction}
use chicken_road_b.Wallet.{
  WalletCall, cancel_call, Reply, AgentResponse, WalletWorld, Agent, Subject, resolve_agent,
  log_and_retry,
}
use chicken_road_b.Wallet.Keeping.{log_success_keeps}
use chicken_road_b.Wallet.Ends.{accepts, rejects, breaks, request-Ends, noted}
use chicken_road_b.Wallet.Operations.{
  request, refund_bet_call, refund_subject, total, mark_failed, mark_all_failed, retry_rejection,
  retry_exception,
}

module _ {Num : Type 0} (js : Js Num) (st : Stores) (down : Outage) (uuid : ℕ → String) (now : ℕ)
    (reply : WalletCall Num → Reply Num) where
  mark_all_quiet :
      (user : String) (xs : List (RefundTransaction Num)) (w : WalletWorld st Num)
      → (mark_all_failed js st down uuid reply user xs w).0 ≡ ok tt
  unfolding mark_all_failed mark_failed
  mark_all_quiet user [] w = refl
  mark_all_quiet user (x ∷ xs) w =
      mark_all_quiet user xs (mark_failed js st down uuid reply user x.platform_tx_id w).1

  module _ (request_id agent_id user_id : String) (xs : List (RefundTransaction Num))
      (w : WalletWorld st Num) where
    abbrev marked : Action (WalletWorld st Num) (Unit {0})
    marked = mark_all_failed js st down uuid reply user_id xs

    abbrev subject : Subject Num
    subject =
        refund_subject js st down uuid reply request_id agent_id user_id
          (total js st down uuid reply (λ x. x.bet_amount) js.zero_num xs)
          (total js st down uuid reply (λ x. x.win_amount) js.zero_num xs) xs

    abbrev requested : Action (WalletWorld st Num) (AgentResponse Num)
    requested =
        request js st down uuid reply now subject (cancel_call user_id xs) "refund"
          (retry_rejection js st down uuid reply now subject marked)
          (retry_exception js st down uuid reply now subject marked)

    reject_quiet :
        (code : ℕ) (m : String) (w : WalletWorld st Num)
        → (retry_rejection js st down uuid reply now subject marked code m w).0 ≡ ok tt
    unfolding retry_rejection log_and_retry
    reject_quiet code m w = mark_all_quiet user_id xs _

    fail_quiet :
        (e : Thrown) (w : WalletWorld st Num)
        → (retry_exception js st down uuid reply now subject marked e w).0 ≡ ok tt
    unfolding retry_exception log_and_retry
    fail_quiet e w = mark_all_quiet user_id xs _

    refund_run :
        {agent : Agent}
        → down agent_find ≡ false
        → st.find Agent w.agents (λ a. str_eq a.agent_id agent_id) ≡ some agent
        → refund_bet_call js st down uuid reply now request_id agent_id user_id xs w ≡ requested w
    unfolding refund_bet_call resolve_agent
    refund_run up known = rw up (after_found _ _ requested known)

    stopped :
        down agent_find ≡ false
        → st.find Agent w.agents (λ a. str_eq a.agent_id agent_id) ≡ none
        → (refund_bet_call js st down uuid reply now request_id agent_id user_id xs w).0
          ≡ err (not_found (template ("Agent '" ∷ agent_id ∷ "' not found" ∷ [])))
    unfolding refund_bet_call resolve_agent
    stopped up unknown = rw up (ap (λ o. o.0) (after_missing _ _ requested unknown))

    unreadable :
        down agent_find ≡ true
        → (refund_bet_call js st down uuid reply now request_id agent_id user_id xs w).0
          ≡ err io_error
    unfolding refund_bet_call resolve_agent
    unreadable off = rw off refl

    requested_accepted :
        {m : AgentResponse Num}
        → (requested w).0 ≡ ok m
        → (m.status ≡ "0000")
          × ((requested w).1.bets ≡ w.bets)
          × ((requested w).1.calls ≡ cancel_call user_id xs ∷ w.calls)
    requested_accepted {m} e =
        elim (request-Ends js st down uuid reply now subject (cancel_call user_id xs) "refund"
          (retry_rejection js st down uuid reply now subject marked)
          (retry_exception js st down uuid reply now subject marked) reject_quiet fail_quiet w) [
            | accepts code m' o good s ↦
                let (a, b, c) =
                  log_success_keeps js st down uuid now subject (some code)
                    (noted js st down uuid reply (cancel_call user_id xs) w) in
                (rw (same (sym e ∙ o)) good, ap (λ w. w.bets) s ∙ a, ap (λ w. w.calls) s ∙ c)
            | rejects code m' o s ↦ absurd (cc)
            | breaks x o s ↦ absurd (cc)
          ]
      where
        same : {a b : AgentResponse Num} → ok a ≡ ok b → a ≡ b
        same p = cc

    -- A refund that returns an answer has asked the agent once, and left the bets as they were.
    pub refund_accepted :
        {m : AgentResponse Num}
        → (refund_bet_call js st down uuid reply now request_id agent_id user_id xs w).0 ≡ ok m
        → let w' = (refund_bet_call js st down uuid reply now request_id agent_id user_id xs w).1 in
          (m.status ≡ "0000") × (w'.bets ≡ w.bets) × (w'.calls ≡ cancel_call user_id xs ∷ w.calls)
    refund_accepted {m} e = elim (Bool-cases (down agent_find)) [
      | inl off ↦ absurd (cc (sym e ∙ unreadable off))
      | inr up ↦ elim (Option-cases (st.find Agent w.agents (λ a. str_eq a.agent_id agent_id))) [
        | inl unknown ↦ absurd (cc (sym e ∙ stopped up unknown))
        | inr (agent, known) ↦
            let run = refund_run up known in
            rw run (requested_accepted (ap (λ o. o.0) (sym run) ∙ e))
      ]
    ]
