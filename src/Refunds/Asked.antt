-- ===== src/Refunds/Asked.antt =====
-- What the agents are asked in a run of the refund scheduler.
use chicken_road_b.Base.{
  ℕ, String, Bool, true, false, ◌||◌, List, [], ◌∷◌, map, ◌≡◌, refl, ok, Action, Keeps, Keeps-by,
  if-Keeps, throw-Keeps, Leads, if-Leads, first-Leads, Bool-cases, inl, inr, ◌⊎◌, ◌∙◌, ap, sym,
  subst, bind_run, ◌>>=◌, if◌then◌else◌, pure,
}
use chicken_road_b.Js.{Js}
use chicken_road_b.Stores.{Stores, session_get}
use chicken_road_b.Bets.{Bet}
use chicken_road_b.Fairness.{Crypto}
use chicken_road_b.Wallet.{WalletCall, cancel_call, AgentResponse, is_accepted}
use chicken_road_b.Wallet.Calls.{refund_bet_call-AsksOnce}
use chicken_road_b.GamePlay.{GameSession, get_redis_key}
use chicken_road_b.GamePlay.Flows.{GameWorld, Setting, on_wallet, get_session}
use chicken_road_b.Wallet.Operations.{refund_bet_call}
use chicken_road_b.Refunds.{
  holds_bet, session_exists_for_bet, any_active, refund_of, mark_refunded, mark_all, refund_told,
  all_readable, refund_bets, process_batch,
}
use chicken_road_b.Refunds.Batches.{Batch}

module _ {Num : Type 0} (js : Js Num) (st : Stores) (crypto : Crypto) (uuid : ℕ → String)
    (at : Setting Num) (json : String → Bool) where
  open at use {down}

  abbrev World : Type 0
  World = GameWorld st Num

  abbrev Sessions : Type 0
  Sessions = st.Of (GameSession Num)

  -- A bet has an active session, or the sessions cannot be read.
  abbrev pub has_round : Sessions → String → String → Bet → Bool
  has_round s u o b =
      down session_get
      || holds_bet js st crypto uuid at json b.external_platform_tx_id
          (st.get (GameSession Num) s (get_redis_key u o b.game_code))

  abbrev pub waits : Sessions → String → String → List Bet → Bool
  waits s u o [] = false
  waits s u o (b ∷ bs) = has_round s u o b || waits s u o bs

  abbrev pub refund_call : Bet → List Bet → WalletCall Num
  refund_call b bs = cancel_call b.user_id (map (refund_of js st crypto uuid at json) (b ∷ bs))

  -- From the requests `c` to the requests `d`: of the batches in their order each is asked for
  -- once or not at all, and not if it waits.
  pub data Asked (s : Sessions)
      : List Batch → List (WalletCall Num) → List (WalletCall Num) → Type 0 where
    done : (c : List (WalletCall Num)) → Asked s [] c c
    passed :
        (b : Batch) {bs : List Batch} {c d : List (WalletCall Num)}
        → Asked s bs c d
        → Asked s (b ∷ bs) c d
    asked :
        (b : Batch) {bs : List Batch} {c d : List (WalletCall Num)} (x : Bet) (xs : List Bet)
        → b.bets ≡ x ∷ xs
        → waits s b.user_id b.operator_id b.bets ≡ false
        → Asked s bs (refund_call x xs ∷ c) d
        → Asked s (b ∷ bs) c d

  exists_run :
      (u o : String) (b : Bet) (w : World)
      → session_exists_for_bet js st crypto uuid at json u o b.game_code b.external_platform_tx_id w
        ≡ (ok (has_round w.sessions u o b), w)
  unfolding session_exists_for_bet get_session
  exists_run u o b w = elim (Bool-cases (down session_get)) [
    | inl fails ↦ rw fails refl
    | inr works ↦ rw works refl
  ]

  any_run :
      (u o : String) (bs : List Bet) (w : World)
      → any_active js st crypto uuid at json u o bs w ≡ (ok (waits w.sessions u o bs), w)
  unfolding any_active
  any_run u o [] w = refl
  any_run u o (b ∷ bs) w =
      let others = any_active js st crypto uuid at json u o bs in
      bind_run
        (session_exists_for_bet js st crypto uuid at json u o b.game_code b.external_platform_tx_id)
        (λ active. others >>= λ more. pure (active || more)) w (exists_run u o b w)
      ∙ bind_run others (λ more. pure (has_round w.sessions u o b || more)) w (any_run u o bs w)

  -- The sessions are these, and no request or this one has been made.
  record After (s : Sessions) (call : WalletCall Num) (c : List (WalletCall Num)) (w : World)
      : Type 0 where
    same : w.sessions ≡ s
    one : (w.wallet.calls ≡ c) ⊎ (w.wallet.calls ≡ call ∷ c)

  abbrev Before : Sessions → List (WalletCall Num) → World → Type 0
  Before s c w = (w.sessions ≡ s) × (w.wallet.calls ≡ c)

  module _ {s : Sessions} {call : WalletCall Num} {c : List (WalletCall Num)} where
    mark_all-After :
        (bs : List Bet) → Keeps (After s call c) (mark_all js st crypto uuid at json bs)
    unfolding mark_all
    mark_all-After [] = Keeps-by (λ w p. p)
    mark_all-After (b ∷ bs) = Keeps-by (λ w p.
        (mark_all-After bs).run (mark_refunded js st crypto uuid at json b w).1
          (record { same = p.same; one = p.one }))

    refund_told-After :
        (bs : List Bet) (told : AgentResponse Num)
        → Keeps (After s call c) (refund_told js st crypto uuid at json bs told)
    unfolding refund_told
    refund_told-After bs told = if-Keeps (is_accepted told.status) (mark_all-After bs) throw-Keeps

  refund_bets-Leads :
      {s : Sessions} {c : List (WalletCall Num)} (x : Bet) (xs : List Bet)
      → Leads
          (Before s c)
          (After s (refund_call x xs) c)
          (refund_bets js st crypto uuid at json (x ∷ xs))
  unfolding refund_bets
  refund_bets-Leads {s} {c} x xs =
      let told = on_wallet js st crypto uuid at (
        refund_bet_call js st down uuid at.reply at.now at.request_id x.operator_id x.user_id
          (map (refund_of js st crypto uuid at json) (x ∷ xs))) in
      if-Leads (all_readable js st crypto uuid at json (x ∷ xs))
        (first-Leads {m = told}
          (record {
            lead = λ w (p, q).
                let r =
                  (refund_bet_call-AsksOnce js st down uuid at.reply at.now at.request_id
                      x.operator_id x.user_id
                      (map (refund_of js st crypto uuid at json) (x ∷ xs))).lead
                    w.wallet q in
                record { same = p; one = r.one };
          })
          (refund_told-After (x ∷ xs)))
        (record { lead = λ w (p, q). record { same = p; one = inl q } })

  module _ (s : Sessions) (b : Batch) (bs : List Batch) (d : List (WalletCall Num))
      (w : World) where
    -- The world after the batch: what is asked for the other batches is asked for all of them.
    abbrev pub Passes : World → Type 0
    Passes w' =
        (w'.sessions ≡ s) × (Asked s bs w'.wallet.calls d → Asked s (b ∷ bs) w.wallet.calls d)

    refunds_batch :
        (l : List Bet)
        → b.bets ≡ l
        → w.sessions ≡ s
        → waits s b.user_id b.operator_id b.bets ≡ false
        → Passes (refund_bets js st crypto uuid at json l w).1
    unfolding refund_bets
    refunds_batch [] e same quiet = (same, passed b)
    refunds_batch (x ∷ xs) e same quiet =
        let r = (refund_bets-Leads x xs).lead w (same, refl) in
        (
          r.same,
          elim r.one [
            | inl none_made ↦ λ rest. passed b (subst (λ c. Asked s bs c d) none_made rest)
            | inr made ↦ λ rest. asked b x xs e quiet (subst (λ c. Asked s bs c d) made rest)
          ],
        )

    attempt : Bool → Action World (Unit {0})
    attempt active = if active then pure tt else refund_bets js st crypto uuid at json b.bets

    attempted :
        (active : Bool)
        → w.sessions ≡ s
        → waits s b.user_id b.operator_id b.bets ≡ active
        → Passes (attempt active w).1
    unfolding attempt
    attempted true same active = (same, passed b)
    attempted false same quiet = refunds_batch b.bets refl same quiet

    pub batch_asks :
        w.sessions ≡ s
        → Passes (process_batch js st crypto uuid at json b.user_id b.operator_id b.bets w).1
    unfolding process_batch attempt
    batch_asks same =
        subst Passes
          (sym (
            ap (λ o. o.1)
              (bind_run (any_active js st crypto uuid at json b.user_id b.operator_id b.bets)
                attempt w (any_run b.user_id b.operator_id b.bets w))))
          (attempted (waits w.sessions b.user_id b.operator_id b.bets) same
            (ap (λ s. waits s b.user_id b.operator_id b.bets) (sym same)))
