-- ===== src/Refunds/Runs.antt =====
-- A whole run of the refund scheduler.
use chicken_road_b.Base.{
  ℕ, ◌-◌, String, Bool, true, false, List, [], ◌∷◌, ◌++◌, ◌≡◌, refl, ok, Bool-cases, inl, inr, ◌⊎◌,
  ap, sym, subst, bind_run, length,
}
use chicken_road_b.Js.{Js}
use chicken_road_b.Stores.{Stores, bet_find}
use chicken_road_b.Bets.{Bet, is_old_placed}
use chicken_road_b.Bets
use chicken_road_b.Fairness.{Crypto}
use chicken_road_b.Wallet.{WalletCall, on_bets}
use chicken_road_b.GamePlay.{GameSession}
use chicken_road_b.GamePlay.Locking.{is_busy, locked, held, taken, release_keeps}
use chicken_road_b.GamePlay.Flows.{GameWorld, Setting, on_wallet, acquire_lock}
use chicken_road_b.Refunds.{
  Groups, process_batch, process_batches, process_groups, slices, split_key, group_bets,
  process_old_bets, process_acquired, process_refunds, lock_key,
}
use chicken_road_b.Refunds.Asked.{Asked, done, batch_asks}
use chicken_road_b.Refunds.Batches.{Batch, batches_of, batches}

module _ {Num : Type 0} (js : Js Num) (st : Stores) (crypto : Crypto) (uuid : ℕ → String)
    (at : Setting Num) (json : String → Bool) where
  open at use {down}

  abbrev World : Type 0
  World = GameWorld st Num

  abbrev Sessions : Type 0
  Sessions = st.Of (GameSession Num)

  batches_ok :
      (u o : String) (ls : List (List Bet)) (w : World)
      → (process_batches js st crypto uuid at json u o ls w).0 ≡ ok tt
  unfolding process_batches process_batch
  batches_ok u o [] w = refl
  batches_ok u o (l ∷ ls) w = batches_ok u o ls (process_batch js st crypto uuid at json u o l w).1

  module _ (s : Sessions) where
    batches_ask :
        (u o : String) (ls : List (List Bet)) (bs : List Batch) (d : List (WalletCall Num))
        (w : World)
        → w.sessions ≡ s
        → let w' = (process_batches js st crypto uuid at json u o ls w).1 in
          (w'.sessions ≡ s)
          × (Asked js st crypto uuid at json s bs w'.wallet.calls d
              → Asked js st crypto uuid at json s (batches_of u o ls ++ bs) w.wallet.calls d)
    unfolding process_batches process_batch
    batches_ask u o [] bs d w same = (same, λ a. a)
    batches_ask u o (l ∷ ls) bs d w same =
        let b : Batch = record { user_id = u; operator_id = o; bets = l } in
        let w₁ = (process_batch js st crypto uuid at json u o l w).1 in
        let (same₁, first) =
          batch_asks js st crypto uuid at json s b (batches_of u o ls ++ bs) d w same in
        let (same₂, rest) = batches_ask u o ls bs d w₁ same₁ in (same₂, λ a. first (rest a))

    groups_ask :
        (gs : Groups) (w : World)
        → w.sessions ≡ s
        → Asked js st crypto uuid at json s
            (batches gs)
            w.wallet.calls
            (process_groups js st crypto uuid at json gs w).1.wallet.calls
    unfolding process_groups
    groups_ask [] w same = done w.wallet.calls
    groups_ask ((key, bets) ∷ gs) w same =
        let ls = slices (length bets) bets in
        let run =
          process_batches js st crypto uuid at json (split_key key).0 (split_key key).1 ls in
        let w₁ = (run w).1 in
        let rest = process_groups js st crypto uuid at json gs in
        let (same₁, first) =
          batches_ask (split_key key).0 (split_key key).1 ls (batches gs) (rest w₁).1.wallet.calls w
            same in
        subst
          (λ o.
            Asked js st crypto uuid at json s (batches ((key, bets) ∷ gs)) w.wallet.calls
              o.1.wallet.calls)
          (sym (
            bind_run run (λ _. rest) w {s' = w₁}
              (ap (λ r. (r, w₁)) (batches_ok (split_key key).0 (split_key key).1 ls w))))
          (first (groups_ask gs w₁ same₁))

  old_asks :
      (older_than_ms : ℕ) (old : List Bet) (w : World)
      → (Bets.find_old_placed_bets st down at.now older_than_ms w.wallet.bets)
        ≡ (ok old, w.wallet.bets)
      → Asked js st crypto uuid at json w.sessions
          (batches (group_bets [] old))
          w.wallet.calls
          (process_old_bets js st crypto uuid at json older_than_ms w).1.wallet.calls
  unfolding process_old_bets
  old_asks older_than_ms old w found =
      subst
        (λ o.
          Asked js st crypto uuid at json w.sessions (batches (group_bets [] old)) w.wallet.calls
            o.1.wallet.calls)
        (sym (
          bind_run
            (on_wallet js st crypto uuid at
              (on_bets js st down uuid (Bets.find_old_placed_bets st down at.now older_than_ms)))
            (λ old. process_groups js st crypto uuid at json (group_bets [] old)) w {a = old}
            {s' = w} (ap (λ o. (o.0, record w { wallet = record w.wallet { bets = o.1 } })) found)))
        (groups_ask w.sessions (group_bets [] old) w refl)

  -- No request, or those for the batches of the old bets.
  abbrev pub AsksForOld : ℕ → World → List (WalletCall Num) → Type 0
  AsksForOld older_than_ms w calls =
      (calls ≡ w.wallet.calls)
      ⊎ ((old : List Bet) × ((Bets.find_old_placed_bets st down at.now older_than_ms
              w.wallet.bets).0
            ≡ ok old)
          × Asked js st crypto uuid at json w.sessions (batches (group_bets [] old)) w.wallet.calls
              calls)

  process_asks :
      (older_than_ms : ℕ) (w : World)
      → AsksForOld older_than_ms w
          (process_old_bets js st crypto uuid at json older_than_ms w).1.wallet.calls
  process_asks older_than_ms w = elim (Bool-cases (down bet_find)) [
    | inl fails ↦ inl (lost fails)
    | inr works ↦
        let old = st.select Bet w.wallet.bets (is_old_placed (at.now - older_than_ms)) in
        inr (old, ap (λ o. o.0) (read works), old_asks older_than_ms old w (read works))
  ]
    where
      lost :
          down bet_find ≡ true
          → (process_old_bets js st crypto uuid at json older_than_ms w).1.wallet.calls
            ≡ w.wallet.calls
      lost fails = unfold process_old_bets Bets.find_old_placed_bets in rw fails refl

      read :
          down bet_find ≡ false
          → Bets.find_old_placed_bets st down at.now older_than_ms w.wallet.bets ≡ (
            ok (st.select Bet w.wallet.bets (is_old_placed (at.now - older_than_ms))),
            w.wallet.bets,
          )
      read works = unfold Bets.find_old_placed_bets in rw works refl

  acquired_asks :
      (older_than_ms : ℕ) (got : Bool) (w : World)
      → AsksForOld older_than_ms w
          (process_acquired js st crypto uuid at json older_than_ms got w).1.wallet.calls
  unfolding process_acquired
  acquired_asks older_than_ms true w =
      subst (AsksForOld older_than_ms w)
        (sym (
          release_keeps js st crypto uuid at lock_key (λ w. w.wallet.calls)
            (process_old_bets js st crypto uuid at json older_than_ms w).1 (λ t. refl)))
        (process_asks older_than_ms w)
  acquired_asks older_than_ms false w = inl refl

  -- Whatever fails and whatever the agents answer, a run of the refund scheduler makes no
  -- request, or the search for old placed bets gave a list and the requests are refunds of its
  -- batches, in their order, each batch asked for once or not at all; a batch of which one bet
  -- has an active session, or whose sessions cannot be read, is not asked for.
  pub process_refunds_asks :
      (older_than_ms : ℕ) (w : World)
      → AsksForOld older_than_ms w
          (process_refunds js st crypto uuid at json older_than_ms w).1.wallet.calls
  unfolding process_refunds
  process_refunds_asks older_than_ms w =
      let acquire = acquire_lock js st crypto uuid at lock_key in
      let rest = process_acquired js st crypto uuid at json older_than_ms in
      elim (Bool-cases (is_busy js st crypto uuid at lock_key w)) [
        | inl busy ↦
            rw (bind_run acquire rest w (held js st crypto uuid at lock_key w busy))
              (acquired_asks older_than_ms false w)
        | inr free ↦
            rw (bind_run acquire rest w (taken js st crypto uuid at lock_key w free))
              (acquired_asks older_than_ms true (locked js st crypto uuid at lock_key w))
      ]
