-- ===== src/Refunds/Marked.antt =====
-- The bets of a batch whose refund went through.
use chicken_road_b.Base.{
  ℕ, String, Bool, true, false, none, some, List, [], ◌∷◌, map, ◌≡◌, refl, arith, Result, ok, err,
  Action, Bool-cases, Option-cases, bind_ok, bind_run, inl, inr, ◌∙◌, ap, sym, subst, All, eq_iff,
  str_eq, eq_refl, not_found, ◌>>=◌,
}
use chicken_road_b.Js.{Js}
use chicken_road_b.Stores.{Stores, Laws, Outage, bet_find, bet_save}
use chicken_road_b.Bets.{Bet, Bets, refunded}
use chicken_road_b.Bets
use chicken_road_b.Bets.Keyed.{KeyedBets, update_status_lem}
use chicken_road_b.Bets.Placement.{update_status_any}
use chicken_road_b.Fairness.{Crypto}
use chicken_road_b.Wallet.{AgentResponse, is_accepted}
use chicken_road_b.Wallet.Operations.{refund_bet_call}
use chicken_road_b.Wallet.Refund.{refund_accepted}
use chicken_road_b.GamePlay.Flows.{GameWorld, Setting, on_wallet}
use chicken_road_b.Refunds.{
  refund_of, mark_refunded, first_error, mark_all, refund_told, all_readable, refund_bets,
}
use chicken_road_b.Refunds.Asked.{refund_call}

abbrev pub IsRefunded : (st : Stores) → Bets st → String → Type 0
IsRefunded st t tx = (b : Bet) × (st.get Bet t tx ≡ some b) × (b.status ≡ refunded)

-- From one table of bets to the next: more bets are refunded.
record Refunds (st : Stores) (txs : List String) (t t' : Bets st) : Type 0 where
  keyed : KeyedBets st t'
  marked : All (IsRefunded st t') txs
  kept : (k : String) → IsRefunded st t k → IsRefunded st t' k

abbrev by : String
by = "refund-scheduler"

module _ (st : Stores) (laws : Laws st) (down : Outage) (find_up : down bet_find ≡ false)
    (save_up : down bet_save ≡ false) (t : Bets st) (keyed : KeyedBets st t) (tx : String) where
  update_found :
      (b : Bet)
      → st.get Bet t tx ≡ some b
      → Refunds st (tx ∷ []) t (Bets.update_status st down tx refunded by t).1
  update_found b e =
      let row = record b { status = refunded; updated_by = by } in
      rw (update_status_any st laws down t keyed tx refunded by find_up save_up e) (record {
        keyed = λ k v f.
            ground (arith, laws.get-put Bet t tx row k, keyed k v, keyed tx b e, eq_iff tx k);
        marked = ((row, rw (laws.get-put Bet t tx row tx) (rw (eq_refl tx) refl), refl), tt);
        kept = λ k (b', f, g). elim (Bool-cases (str_eq tx k)) [
          | inl same ↦ (row, rw (laws.get-put Bet t tx row k) (rw same refl), refl)
          | inr other ↦ (b', rw (laws.get-put Bet t tx row k) (rw other f), g)
        ];
      })

  update_lost :
      st.get Bet t tx ≡ none
      → (Bets.update_status st down tx refunded by t).0 ≡ err (not_found "Bet not found")
  update_lost e = rw (update_status_lem st laws down t keyed tx refunded by find_up) (rw e refl)

  update_Refunds :
      {b : Bet}
      → (Bets.update_status st down tx refunded by t).0 ≡ ok b
      → Refunds st (tx ∷ []) t (Bets.update_status st down tx refunded by t).1
  update_Refunds h = elim (Option-cases (st.get Bet t tx)) [
    | inl lost ↦ absurd (cc (sym h ∙ update_lost lost))
    | inr (b, e) ↦ update_found b e
  ]

module _ {Num : Type 0} (js : Js Num) (st : Stores) (laws : Laws st) (crypto : Crypto)
    (uuid : ℕ → String) (at : Setting Num) (json : String → Bool)
    (find_up : at.down bet_find ≡ false) (save_up : at.down bet_save ≡ false) where
  abbrev World : Type 0
  World = GameWorld st Num

  mark_all_calls :
      (bs : List Bet) (w : World)
      → (mark_all js st crypto uuid at json bs w).1.wallet.calls ≡ w.wallet.calls
  unfolding mark_all
  mark_all_calls [] w = refl
  mark_all_calls (b ∷ bs) w = mark_all_calls bs (mark_refunded js st crypto uuid at json b w).1

  first_error_ok :
      (r : Result Bet) (rest : Result (Unit {0}))
      → first_error js st crypto uuid at json r rest ≡ ok tt
      → ((b : Bet) × (r ≡ ok b)) × (rest ≡ ok tt)
  first_error_ok (ok b) rest h = ((b, refl), h)
  first_error_ok (err e) rest h = absurd (cc)

  mark_all-Refunds :
      (bs : List Bet) (w : World)
      → KeyedBets st w.wallet.bets
      → (mark_all js st crypto uuid at json bs w).0 ≡ ok tt
      → Refunds st
          (map (λ b. b.external_platform_tx_id) bs)
          w.wallet.bets
          (mark_all js st crypto uuid at json bs w).1.wallet.bets
  unfolding mark_all
  mark_all-Refunds [] w keyed h = record { keyed = keyed; marked = tt; kept = λ k p. p }
  mark_all-Refunds (b ∷ bs) w keyed h =
      let (r, w₁) = mark_refunded js st crypto uuid at json b w in
      let ((b', e), rest) = first_error_ok r (mark_all js st crypto uuid at json bs w₁).0 h in
      let first =
        update_Refunds st laws at.down find_up save_up w.wallet.bets keyed b.external_platform_tx_id
          {b = b'} e in
      let others = mark_all-Refunds bs w₁ first.keyed rest in
      record {
        keyed = others.keyed;
        marked = (others.kept b.external_platform_tx_id first.marked.0, others.marked);
        kept = λ k p. others.kept k (first.kept k p);
      }

  told_ok :
      (bs : List Bet) (told : AgentResponse Num) (w : World)
      → (refund_told js st crypto uuid at json bs told w).0 ≡ ok tt
      → refund_told js st crypto uuid at json bs told w ≡ mark_all js st crypto uuid at json bs w
  unfolding refund_told
  told_ok bs told w h = elim (Bool-cases (is_accepted told.status)) [
    | inl good ↦ rw good refl
    | inr bad ↦ absurd (cc (rw bad at h))
  ]

  -- The agent has been asked once, for the whole batch, and each of its bets is refunded.
  abbrev pub Marks : Bet → List Bet → World → World → Type 0
  Marks b bs w w' =
      (w'.wallet.calls ≡ refund_call js st crypto uuid at json b bs ∷ w.wallet.calls)
      × All (IsRefunded st w'.wallet.bets) (map (λ b. b.external_platform_tx_id) (b ∷ bs))

  -- If the table of bets is keyed and can be read and written, and the refund of a batch that
  -- is not empty ends without an error, then the agent has been asked exactly once, for all
  -- bets of the batch, and each of them is stored with the status REFUNDED.
  pub refund_bets-Marks :
      (b : Bet) (bs : List Bet) (w : World)
      → KeyedBets st w.wallet.bets
      → (refund_bets js st crypto uuid at json (b ∷ bs) w).0 ≡ ok tt
      → Marks b bs w (refund_bets js st crypto uuid at json (b ∷ bs) w).1
  unfolding refund_bets
  refund_bets-Marks b bs w keyed h =
      elim (Bool-cases (all_readable js st crypto uuid at json (b ∷ bs))) [
        | inl good ↦
            let run = ap (λ m. m w) (readable good) in
            subst (λ o. Marks b bs w o.1) (sym run) (asked (ap (λ o. o.0) (sym run) ∙ h))
        | inr bad ↦ absurd (cc (rw bad at h))
      ]
    where
      ask : Action World (AgentResponse Num)
      ask = on_wallet js st crypto uuid at (
          refund_bet_call js st at.down uuid at.reply at.now at.request_id b.operator_id b.user_id
            (map (refund_of js st crypto uuid at json) (b ∷ bs)))

      readable :
          all_readable js st crypto uuid at json (b ∷ bs) ≡ true
          → refund_bets js st crypto uuid at json (b ∷ bs)
            ≡ (ask >>= refund_told js st crypto uuid at json (b ∷ bs))
      readable good = rw good refl

      asked :
          ((ask >>= refund_told js st crypto uuid at json (b ∷ bs)) w).0 ≡ ok tt
          → Marks b bs w ((ask >>= refund_told js st crypto uuid at json (b ∷ bs)) w).1
      asked h =
          let (told, e, rest) = bind_ok ask (refund_told js st crypto uuid at json (b ∷ bs)) w h in
          let (good, same, calls) =
            refund_accepted js st at.down uuid at.now at.reply at.request_id b.operator_id b.user_id
              (map (refund_of js st crypto uuid at json) (b ∷ bs)) w.wallet e in
          let w₁ = (ask w).1 in
          let run =
            bind_run ask (refund_told js st crypto uuid at json (b ∷ bs)) w {a = told} {s' = w₁}
              (ap (λ r. (r, w₁)) e)
            ∙ told_ok (b ∷ bs) told w₁ rest in
          let all_ok = ap (λ o. o.0) (sym (told_ok (b ∷ bs) told w₁ rest)) ∙ rest in
          subst (λ o. Marks b bs w o.1) (sym run)
            (
              mark_all_calls (b ∷ bs) w₁ ∙ calls,
              (mark_all-Refunds (b ∷ bs) w₁ (subst (KeyedBets st) (sym same) keyed) all_ok).marked,
            )
