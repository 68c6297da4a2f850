-- ===== src/Hazard/Pattern.antt =====
-- A generated pattern: as many columns as asked for, each once, in order, and on the board.
use chicken_road_b.Base.{
  ℕ, suc, ◌<◌, ◌≤◌, false, ◌||◌, some, List, [], ◌∷◌, ◌≡◌, refl, arith, ltb, leb, ◌==◌, length,
  includes, sort_by, insert_by, All, Bool-cases, inl, inr, ◌∙◌,
}
use chicken_road_b.Hazard.{collect, add, min_of, generate_random_pattern}

-- Each element is smaller than all that follow.
abbrev pub Ascending : List ℕ → Type 0
Ascending [] = Unit
Ascending (x ∷ l) = All (λ y. x < y) l × Ascending l

abbrev Distinct : List ℕ → Type 0
Distinct [] = Unit
Distinct (x ∷ l) = (includes x l ≡ false) × Distinct l

length-insert_by : (x : ℕ) (l : List ℕ) → length (insert_by leb x l) ≡ suc (length l)
unfolding insert_by
length-insert_by x [] = refl
length-insert_by x (y ∷ l) = ground (arith, length-insert_by x l)

length-sort_by : (l : List ℕ) → length (sort_by leb l) ≡ length l
unfolding sort_by
length-sort_by [] = refl
length-sort_by (x ∷ l) = omega (arith, length-insert_by x (sort_by leb l), length-sort_by l)

includes-insert_by :
    (z x : ℕ) (l : List ℕ) → includes z (insert_by leb x l) ≡ (x == z || includes z l)
unfolding insert_by
includes-insert_by z x [] = refl
includes-insert_by z x (y ∷ l) = ground (arith, includes-insert_by z x l)

includes-sort_by : (z : ℕ) (l : List ℕ) → includes z (sort_by leb l) ≡ includes z l
unfolding sort_by
includes-sort_by z [] = refl
includes-sort_by z (x ∷ l) =
    ground (arith, includes-insert_by z x (sort_by leb l), includes-sort_by z l)

module _ (P : ℕ → Type 0) where
  All-insert_by : (x : ℕ) (l : List ℕ) → P x → All P l → All P (insert_by leb x l)
  unfolding insert_by
  All-insert_by x [] p h = (p, tt)
  All-insert_by x (y ∷ l) p (q, h) = elim (Bool-cases (leb x y)) [
    | inl small ↦ rw small (p, (q, h))
    | inr large ↦ rw large (q, All-insert_by x l p h)
  ]

  All-sort_by : (l : List ℕ) → All P l → All P (sort_by leb l)
  unfolding sort_by
  All-sort_by [] h = tt
  All-sort_by (x ∷ l) (p, h) = All-insert_by x (sort_by leb l) p (All-sort_by l h)

All-below : (x y : ℕ) (l : List ℕ) → x < y → All (λ z. y < z) l → All (λ z. x < z) l
All-below x y [] h a = tt
All-below x y (z ∷ l) h (b, a) = (omega arith, All-below x y l h a)

insert_by-Ascending :
    (x : ℕ) (l : List ℕ) → includes x l ≡ false → Ascending l → Ascending (insert_by leb x l)
unfolding insert_by
insert_by-Ascending x [] new a = (tt, tt)
insert_by-Ascending x (y ∷ l) new (b, a) = elim (Bool-cases (leb x y)) [
  | inl small ↦ rw small ((ground arith, All-below x y l (ground arith) b), (b, a))
  | inr large ↦
      rw large
        (All-insert_by (λ z. y < z) x l (ground arith) b, insert_by-Ascending x l (ground arith) a)
]

sort_by-Ascending : (l : List ℕ) → Distinct l → Ascending (sort_by leb l)
unfolding sort_by
sort_by-Ascending [] d = tt
sort_by-Ascending (x ∷ l) (new, d) =
    insert_by-Ascending x (sort_by leb l) (rw (includes-sort_by x l) new) (sort_by-Ascending l d)

-- The columns that the loop holds are distinct, on the board, and not more than asked for.
record Holds (count total : ℕ) (l : List ℕ) : Type 0 where
  distinct : Distinct l
  on_board : All (λ x. x < total) l
  bounded : length l ≤ count

add-Holds :
    (count total x : ℕ) (l : List ℕ)
    → x < total
    → length l < count
    → Holds count total l
    → Holds count total (add x l)
add-Holds count total x l h few p = elim (Bool-cases (includes x l)) [
  | inl old ↦ rw old p
  | inr new ↦
      rw new
        (record { distinct = (new, p.distinct); on_board = (h, p.on_board); bounded = omega arith })
]

collect-Holds :
    (count total : ℕ) (hazards picks : List ℕ) {l : List ℕ}
    → All (λ x. x < total) picks
    → Holds count total hazards
    → collect count hazards picks ≡ some l
    → Holds count total l × (length l ≡ count)
unfolding collect
collect-Holds count total hazards [] {l} a p e = elim (Bool-cases (ltb (length hazards) count)) [
  | inl few ↦ absurd (cc (rw few at e))
  | inr full ↦ rw (same (rw full at e)) (p, ground (arith, p.bounded))
]
  where
    same : some hazards ≡ some l → l ≡ hazards
    same q = cc
collect-Holds count total hazards (x ∷ picks) {l} (h, a) p e =
    elim (Bool-cases (ltb (length hazards) count)) [
      | inl few ↦
          collect-Holds count total (add x hazards) picks a
            (add-Holds count total x hazards h (ground arith) p) (rw few at e)
      | inr full ↦ rw (same (rw full at e)) (p, ground (arith, p.bounded))
    ]
  where
    same : some hazards ≡ some l → l ≡ hazards
    same q = cc

-- The picks, each once.
abbrev pub distinct_picks : List ℕ → List ℕ → List ℕ
distinct_picks hazards [] = hazards
distinct_picks hazards (x ∷ picks) = distinct_picks (add x hazards) picks

collect_enough :
    (count : ℕ) (hazards picks : List ℕ)
    → count ≤ length (distinct_picks hazards picks)
    → (l : List ℕ) × (collect count hazards picks ≡ some l)
unfolding collect
collect_enough count hazards [] h = (hazards, ground arith)
collect_enough count hazards (x ∷ picks) h = elim (Bool-cases (ltb (length hazards) count)) [
  | inl few ↦ rw few (collect_enough count (add x hazards) picks h)
  | inr full ↦ (hazards, rw full refl)
]

-- If every pick is a column of the board and the picks have enough different columns among
-- them, the generation ends with a pattern of exactly min(hazardCount, totalColumns) columns,
-- in ascending order and so each once, all on the board.
pub generate_random_pattern_lem :
    (hazard_count total_columns : ℕ) (picks : List ℕ)
    → All (λ x. x < total_columns) picks
    → min_of hazard_count total_columns ≤ length (distinct_picks [] picks)
    → (l : List ℕ) × (generate_random_pattern hazard_count total_columns picks ≡ some l)
      × (length l ≡ min_of hazard_count total_columns)
      × Ascending l
      × All (λ x. x < total_columns) l
unfolding generate_random_pattern
generate_random_pattern_lem hazard_count total_columns picks a h =
    let count = min_of hazard_count total_columns in
    let (l, e) = collect_enough count [] picks h in
    let (p, n) =
      collect-Holds count total_columns [] picks {l = l} a
        (record { distinct = tt; on_board = tt; bounded = omega arith }) e in
    (
      sort_by leb l,
      rw e refl,
      length-sort_by l ∙ n,
      sort_by-Ascending l p.distinct,
      All-sort_by (λ x. x < total_columns) l p.on_board,
    )
