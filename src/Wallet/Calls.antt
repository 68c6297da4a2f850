-- ===== src/Wallet/Calls.antt =====
-- The requests of an operation to the agent: what an action keeps of the list of requests, and
-- that an operation makes one at most.
use chicken_road_b.Base.{
  ℕ, String, str_eq, Option-cases, Bool-cases, Option, some, List, [], ◌∷◌, ◌≡◌, Action, Thrown,
  Keeps, Keeps-by, if-Keeps, pure-Keeps, throw-Keeps, or_throw-Keeps, bind-Keeps, then-Keeps, Leads,
  catching-Leads, first-Leads, second-Leads, ◌∙◌, or_text, pure, throw, ap, ◌>>◌, ◌>>=◌, ◌⊎◌, inl,
  inr,
}
use chicken_road_b.Js.{Js}
use chicken_road_b.Stores.{Stores, Outage, agent_find}
use chicken_road_b.Enums.{agent_rejected, WalletErrorType, RefundTransaction}
use chicken_road_b.Games.{GamePayloads}
use chicken_road_b.Bets.{Bets}
use chicken_road_b.Audit.{Audits}
use chicken_road_b.Retry.{Jobs}
use chicken_road_b.Wallet.{
  WalletCall, settle_call, cancel_call, Agent, resolve_agent, Reply, response, failed,
  AgentResponse, AgentData, WalletWorld, Subject, error_status, error_type, is_accepted, on_bets,
  on_audits, on_jobs, log_success, log_and_retry, post, map_agent_response,
}
use chicken_road_b.Wallet.Operations.{
  answered, request, retry_rejection, retry_exception, mark_failed, mark_all_failed, refund_subject,
  total, refund_bet_call, settle_bet_call,
}
use chicken_road_b.Wallet.Keeping.{log_and_retry_keeps}
use chicken_road_b.Wallet.Settle.{settle_calls}

module _ {Num : Type 0} (js : Js Num) (st : Stores) (down : Outage) (uuid : ℕ → String)
    (reply : WalletCall Num → Reply Num) where
  abbrev World : Type 0
  World = WalletWorld st Num

  -- Since the list of requests was `before`, no request has been made or this one.
  pub record AsksOnce (call : WalletCall Num) (before : List (WalletCall Num)) (w : World)
      : Type 0 where
    pub one : (w.calls ≡ before) ⊎ (w.calls ≡ call ∷ before)

  module _ {call : WalletCall Num} {before : List (WalletCall Num)} where
    pub bets-AsksOnce :
        {A : Type 0} (m : Action (Bets st) A)
        → Keeps (AsksOnce call before) (on_bets js st down uuid m)
    bets-AsksOnce m = Keeps-by (λ w p. record { one = p.one })

    pub audits-AsksOnce :
        {A : Type 0} (m : Action (Audits st) A)
        → Keeps (AsksOnce call before) (on_audits js st down uuid m)
    audits-AsksOnce m = Keeps-by (λ w p. record { one = p.one })

    pub jobs-AsksOnce :
        {A : Type 0} (m : Action (Jobs st Num) A)
        → Keeps (AsksOnce call before) (on_jobs js st down uuid m)
    jobs-AsksOnce m = Keeps-by (λ w p. record { one = p.one })

    log_success-AsksOnce :
        (now : ℕ) (s : Subject Num) (code : Option ℕ)
        → Keeps (AsksOnce call before) (log_success js st down uuid now s code)
    unfolding log_success
    log_success-AsksOnce now s code = Keeps-by (λ w p. record { one = p.one })

    log_and_retry-AsksOnce :
        (now : ℕ) (s : Subject Num) (code : Option ℕ) (type : WalletErrorType) (m : String)
        → Keeps (AsksOnce call before) (log_and_retry js st down uuid now s code type m)
    log_and_retry-AsksOnce now s code type m = Keeps-by (λ w p.
        let same = (log_and_retry_keeps js st down uuid now s code type m w).1 in
        record { one = rw same p.one })

    mark_failed-AsksOnce :
        (user tx : String)
        → Keeps (AsksOnce call before) (mark_failed js st down uuid reply user tx)
    unfolding mark_failed
    mark_failed-AsksOnce user tx = Keeps-by (λ w p. record { one = p.one })

    mark_all_failed-AsksOnce :
        (user : String) (xs : List (RefundTransaction Num))
        → Keeps (AsksOnce call before) (mark_all_failed js st down uuid reply user xs)
    unfolding mark_all_failed
    mark_all_failed-AsksOnce user [] = pure-Keeps
    mark_all_failed-AsksOnce user (x ∷ xs) =
        then-Keeps (mark_failed-AsksOnce user x.platform_tx_id) (mark_all_failed-AsksOnce user xs)

    module _ (now : ℕ) (s : Subject Num) {mark : Action World (Unit {0})}
        (marks : Keeps (AsksOnce call before) mark) where
      pub retry_rejection-AsksOnce :
          (code : ℕ) (m : String)
          → Keeps (AsksOnce call before) (retry_rejection js st down uuid reply now s mark code m)
      unfolding retry_rejection
      retry_rejection-AsksOnce code m =
          then-Keeps (log_and_retry-AsksOnce now s (some code) agent_rejected m) marks

      pub retry_exception-AsksOnce :
          (e : Thrown)
          → Keeps (AsksOnce call before) (retry_exception js st down uuid reply now s mark e)
      unfolding retry_exception
      retry_exception-AsksOnce e =
          then-Keeps
            (log_and_retry-AsksOnce now s (error_status e) (error_type e)
              (or_text (some e.message) "Unknown error"))
            marks

    map_agent_response-AsksOnce :
        (d : AgentData Num) → Keeps (AsksOnce call before) (map_agent_response js st down uuid d)
    unfolding map_agent_response
    map_agent_response-AsksOnce d = search (bind-Keeps, or_throw-Keeps, pure-Keeps)

    replied-AsksOnce :
        (r : Reply Num)
        → Keeps {S = World} {A = ℕ × AgentData Num}
            (AsksOnce call before)
            (elim r [ response code d ↦ pure (code, d) | failed e ↦ throw e ])
    replied-AsksOnce (response code d) = pure-Keeps
    replied-AsksOnce (failed e) = throw-Keeps

    post-AsksOnce :
        (w : World) → w.calls ≡ before → AsksOnce call before (post js st down uuid reply call w).1
    unfolding post
    post-AsksOnce w p =
        (replied-AsksOnce (reply call)).run (record w { calls = call ∷ w.calls })
          (record { one = inr (ap (λ l. call ∷ l) p) })

    answered-AsksOnce :
        (now : ℕ) (s : Subject Num) (verb : String) (rejects : ℕ → String → Action World (Unit {0}))
        (code : ℕ) (m : AgentResponse Num)
        → ((code : ℕ) (m : String) → Keeps (AsksOnce call before) (rejects code m))
        → Keeps (AsksOnce call before) (answered js st down uuid reply now s verb rejects code m)
    unfolding answered
    answered-AsksOnce now s verb rejects code m rejected =
        if-Keeps (is_accepted m.status)
          (then-Keeps (log_success-AsksOnce now s (some code)) pure-Keeps)
          (then-Keeps (rejected code _) throw-Keeps)

    pub request-AsksOnce :
        (now : ℕ) (s : Subject Num) (verb : String) (rejects : ℕ → String → Action World (Unit {0}))
        (fails : Thrown → Action World (Unit {0}))
        → ((code : ℕ) (m : String) → Keeps (AsksOnce call before) (rejects code m))
        → ((e : Thrown) → Keeps (AsksOnce call before) (fails e))
        → Leads
            (λ w. w.calls ≡ before)
            (AsksOnce call before)
            (request js st down uuid reply now s call verb rejects fails)
    unfolding request
    request-AsksOnce now s verb rejects fails rejected thrown =
        let rest = λ (r : ℕ × AgentData Num).
          map_agent_response js st down uuid r.1
          >>= answered js st down uuid reply now s verb rejects r.0 in
        catching-Leads {h = λ e. fails e >> throw e}
          (first-Leads {m = post js st down uuid reply call} {f = rest}
            (record { lead = post-AsksOnce })
            (λ (code, d).
              bind-Keeps (map_agent_response-AsksOnce d)
                (λ m. answered-AsksOnce now s verb rejects code m rejected)))
          (λ e. then-Keeps (thrown e) throw-Keeps)

  -- The requests are as they were.
  abbrev pub SameCalls : List (WalletCall Num) → World → Type 0
  SameCalls before w = w.calls ≡ before

  module _ (now : ℕ) (request_id agent_id : String) {before : List (WalletCall Num)} where
    resolve_agent-SameCalls : Keeps (SameCalls before) (resolve_agent js st down uuid agent_id)
    unfolding resolve_agent
    resolve_agent-SameCalls = Keeps-by (λ w p. elim (Bool-cases (down agent_find)) [
      | inl off ↦ rw off p
      | inr up ↦ elim (Option-cases (st.find Agent w.agents (λ a. str_eq a.agent_id agent_id))) [
        | inl unknown ↦ rw up (rw unknown p)
        | inr (a, known) ↦ rw up (rw known p)
      ]
    ])

    pub refund_bet_call-AsksOnce :
        (user_id : String) (xs : List (RefundTransaction Num))
        → Leads
            (SameCalls before)
            (AsksOnce (cancel_call user_id xs) before)
            (refund_bet_call js st down uuid reply now request_id agent_id user_id xs)
    unfolding refund_bet_call
    refund_bet_call-AsksOnce user_id xs =
        let bet = total js st down uuid reply (λ x. x.bet_amount) js.zero_num xs in
        let win = total js st down uuid reply (λ x. x.win_amount) js.zero_num xs in
        let s = refund_subject js st down uuid reply request_id agent_id user_id bet win xs in
        let rejects =
          retry_rejection js st down uuid reply now s
            (mark_all_failed js st down uuid reply user_id xs) in
        let fails =
          retry_exception js st down uuid reply now s
            (mark_all_failed js st down uuid reply user_id xs) in
        second-Leads resolve_agent-SameCalls (λ w p. record { one = inl p })
          (λ _.
            request-AsksOnce now s "refund" rejects fails
              (retry_rejection-AsksOnce now s (mark_all_failed-AsksOnce user_id xs))
              (retry_exception-AsksOnce now s (mark_all_failed-AsksOnce user_id xs)))

    pub settle_bet_call-AsksOnce :
        (tx user_id : String) (win : Num) (round_id : String) (bet : Num) (payloads : GamePayloads)
        → Leads (SameCalls before) (AsksOnce (settle_call tx user_id win bet round_id) before) (
            settle_bet_call js st down uuid reply now request_id agent_id tx user_id win round_id
              bet payloads)
    settle_bet_call-AsksOnce tx user_id win round_id bet payloads = record {
      lead = λ w p.
          elim (settle_calls js st down uuid now reply request_id agent_id tx user_id win round_id
            bet payloads w) [
              | inl same ↦ record { one = inl (same ∙ p) }
              | inr more ↦ record {
                one = inr (more ∙ ap (λ l. settle_call tx user_id win bet round_id ∷ l) p);
              }
            ];
    }
