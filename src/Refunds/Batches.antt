-- ===== src/Refunds/Batches.antt =====
-- How the old bets are parted into batches.
use mathlib.Core.List.{append_assoc, append-nil, perm_middle}
use mathlib.Core.List.Perm
use chicken_road_b.Base.{
  ℕ, zero, suc, ◌≤◌, String, List, [], ◌∷◌, ◌++◌, ◌≡◌, refl, arith, str_eq, eq_iff, length, take,
  drop, All, ◌∙◌, ap, sym, Bool-cases, inl, inr,
}
use mathlib.Core.List.{Perm}
use chicken_road_b.Bets.{Bet}
use chicken_road_b.Refunds.Keys.{IsPlain, split_key-group_key}
use chicken_road_b.Refunds.{Groups, batch_size, group_key, push_bet, group_bets, slices, split_key}

-- A batch, with the player and the operator that its sessions are looked for under.
pub record Batch : Type 0 where
  pub user_id : String
  pub operator_id : String
  pub bets : List Bet

abbrev pub batches_of : String → String → List (List Bet) → List Batch
batches_of user_id operator_id [] = []
batches_of user_id operator_id (bets ∷ rest) =
    record { user_id = user_id; operator_id = operator_id; bets = bets }
    ∷ batches_of user_id operator_id rest

abbrev pub batches : Groups → List Batch
batches [] = []
batches ((key, bets) ∷ groups) =
    batches_of (split_key key).0 (split_key key).1 (slices (length bets) bets) ++ batches groups

abbrev pub all_bets : List Batch → List Bet
all_bets [] = []
all_bets (b ∷ bs) = b.bets ++ all_bets bs

abbrev grouped : Groups → List Bet
grouped [] = []
grouped ((key, bets) ∷ groups) = bets ++ grouped groups

take-append-drop : (n : ℕ) (bs : List Bet) → take n bs ++ drop n bs ≡ bs
take-append-drop zero bs = refl
take-append-drop (suc n) [] = refl
take-append-drop (suc n) (b ∷ bs) = ap (λ l. b ∷ l) (take-append-drop n bs)

length-drop-le : (n : ℕ) (bs : List Bet) → length (drop n bs) ≤ length bs
length-drop-le zero bs = omega arith
length-drop-le (suc n) [] = omega arith
length-drop-le (suc n) (b ∷ bs) = omega (arith, length-drop-le n bs)

length-take-le : (n : ℕ) (bs : List Bet) → length (take n bs) ≤ n
length-take-le zero bs = omega arith
length-take-le (suc n) [] = omega arith
length-take-le (suc n) (b ∷ bs) = omega (arith, length-take-le n bs)

all_bets-append : (xs ys : List Batch) → all_bets (xs ++ ys) ≡ all_bets xs ++ all_bets ys
all_bets-append [] ys = refl
all_bets-append (x ∷ xs) ys =
    ap (λ l. x.bets ++ l) (all_bets-append xs ys)
    ∙ sym (append_assoc x.bets (all_bets xs) (all_bets ys))

-- With as many rounds as bets, the slices are the bets.
all_bets-slices :
    (u o : String) (rounds : ℕ) (bs : List Bet)
    → length bs ≤ rounds
    → all_bets (batches_of u o (slices rounds bs)) ≡ bs
unfolding slices
all_bets-slices u o zero [] h = refl
all_bets-slices u o zero (b ∷ bs) h = absurd (omega arith)
all_bets-slices u o (suc rounds) [] h = refl
all_bets-slices u o (suc rounds) (b ∷ bs) h =
    ap (λ l. take batch_size (b ∷ bs) ++ l)
      (all_bets-slices u o rounds (drop batch_size (b ∷ bs)) (omega (arith, length-drop-le 4 bs)))
    ∙ take-append-drop batch_size (b ∷ bs)

all_bets-batches : (gs : Groups) → all_bets (batches gs) ≡ grouped gs
all_bets-batches [] = refl
all_bets-batches ((key, bs) ∷ gs) =
    all_bets-append (batches_of (split_key key).0 (split_key key).1 (slices (length bs) bs))
      (batches gs)
    ∙ rw (
      all_bets-slices (split_key key).0 (split_key key).1 (length bs) bs (omega arith),
      all_bets-batches gs,
    )

push_bet-Perm : (b : Bet) (gs : Groups) → Perm (grouped (push_bet b gs)) (b ∷ grouped gs)
unfolding push_bet
push_bet-Perm b [] = Perm.rfl
push_bet-Perm b ((k, bs) ∷ gs) = elim (Bool-cases (str_eq k (group_key b))) [
  | inl same ↦ rw (same, append_assoc bs (b ∷ []) (grouped gs)) (perm_middle bs (grouped gs))
  | inr other ↦
      rw other (Perm.trans (Perm.append_left bs (push_bet-Perm b gs)) (perm_middle bs (grouped gs)))
]

group_bets-Perm :
    (gs : Groups) (bs : List Bet) → Perm (grouped (group_bets gs bs)) (grouped gs ++ bs)
unfolding group_bets
group_bets-Perm gs [] = rw (append-nil (grouped gs)) Perm.rfl
group_bets-Perm gs (b ∷ bs) = Perm.trans (group_bets-Perm (push_bet b gs) bs) (
    Perm.trans (Perm.append_right bs (push_bet-Perm b gs))
      (Perm.symm (perm_middle (grouped gs) bs)))

-- Each bet of a group has the group's key.
abbrev Fits : String → Bet → Type 0
Fits key b = (group_key b ≡ key) × IsPlain b

abbrev Keyed : Groups → Type 0
Keyed [] = Unit
Keyed ((key, bets) ∷ groups) = All (Fits key) bets × Keyed groups

All-snoc :
    (k : String) (b : Bet) (l : List Bet) → All (Fits k) l → Fits k b → All (Fits k) (l ++ (b ∷ []))
All-snoc k b [] a e = (e, tt)
All-snoc k b (x ∷ l) (p, a) e = (p, All-snoc k b l a e)

push_bet-Keyed : (b : Bet) (gs : Groups) → IsPlain b → Keyed gs → Keyed (push_bet b gs)
unfolding push_bet
push_bet-Keyed b [] plain h = (((refl, plain), tt), tt)
push_bet-Keyed b ((k, bs) ∷ gs) plain (h, hs) = elim (Bool-cases (str_eq k (group_key b))) [
  | inl same ↦ rw same (All-snoc k b bs h (sym ((eq_iff k (group_key b)).0 same), plain), hs)
  | inr other ↦ rw other (h, push_bet-Keyed b gs plain hs)
]

group_bets-Keyed :
    (gs : Groups) (bs : List Bet) → All IsPlain bs → Keyed gs → Keyed (group_bets gs bs)
unfolding group_bets
group_bets-Keyed gs [] plain h = h
group_bets-Keyed gs (b ∷ bs) (p, plain) h =
    group_bets-Keyed (push_bet b gs) bs plain (push_bet-Keyed b gs p h)

-- At most five bets, and all of the player and the operator.
pub record IsBatch (b : Batch) : Type 0 where
  pub size : length b.bets ≤ batch_size
  pub owners : All (λ x. (x.user_id ≡ b.user_id) × (x.operator_id ≡ b.operator_id)) b.bets

module _ (P : Bet → Type 0) where
  All-take : (n : ℕ) (bs : List Bet) → All P bs → All P (take n bs)
  All-take zero bs a = tt
  All-take (suc n) [] a = tt
  All-take (suc n) (b ∷ bs) (p, a) = (p, All-take n bs a)

  All-drop : (n : ℕ) (bs : List Bet) → All P bs → All P (drop n bs)
  All-drop zero bs a = a
  All-drop (suc n) [] a = tt
  All-drop (suc n) (b ∷ bs) (p, a) = All-drop n bs a

owners_of :
    (key : String) (bs : List Bet)
    → All (Fits key) bs
    → All (λ x. (x.user_id ≡ (split_key key).0) × (x.operator_id ≡ (split_key key).1)) bs
owners_of key [] a = tt
owners_of key (b ∷ bs) ((e, plain), a) =
    let same = split_key-group_key b plain in
    (
      (
        ap (λ p. p.0) (sym same) ∙ ap (λ k. (split_key k).0) e,
        ap (λ p. p.1) (sym same) ∙ ap (λ k. (split_key k).1) e,
      ),
      owners_of key bs a,
    )

slices-IsBatch :
    (key : String) (rounds : ℕ) (bs : List Bet)
    → All (Fits key) bs
    → All IsBatch (batches_of (split_key key).0 (split_key key).1 (slices rounds bs))
unfolding slices
slices-IsBatch key zero bs a = tt
slices-IsBatch key (suc rounds) [] a = tt
slices-IsBatch key (suc rounds) (b ∷ bs) a = (
  record {
    size = length-take-le batch_size (b ∷ bs);
    owners = owners_of key (take batch_size (b ∷ bs)) (All-take (Fits key) batch_size (b ∷ bs) a);
  },
  slices-IsBatch key rounds (drop batch_size (b ∷ bs)) (All-drop (Fits key) batch_size (b ∷ bs) a),
)

All-append : (xs ys : List Batch) → All IsBatch xs → All IsBatch ys → All IsBatch (xs ++ ys)
All-append [] ys a b = b
All-append (x ∷ xs) ys (p, a) b = (p, All-append xs ys a b)

batches-IsBatch : (gs : Groups) → Keyed gs → All IsBatch (batches gs)
batches-IsBatch [] h = tt
batches-IsBatch ((key, bs) ∷ gs) (h, hs) =
    All-append (batches_of (split_key key).0 (split_key key).1 (slices (length bs) bs)) (batches gs)
      (slices-IsBatch key (length bs) bs h) (batches-IsBatch gs hs)

-- If the ids of the players and operators have no colon, the batches of a run are a
-- rearrangement of the bets that were found: each bet is in one batch, as often as it was
-- found; each batch has at most five bets, all of the player and the operator under whom its
-- sessions are looked for.
pub batches_lem :
    (old : List Bet)
    → All IsPlain old
    → Perm (all_bets (batches (group_bets [] old))) old × All IsBatch (batches (group_bets [] old))
batches_lem old plain = (
  rw (all_bets-batches (group_bets [] old)) (group_bets-Perm [] old),
  batches-IsBatch (group_bets [] old) (group_bets-Keyed [] old plain tt),
)
