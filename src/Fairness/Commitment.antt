-- ===== src/Fairness/Commitment.antt =====
-- FairnessService keeps each published hash true to the seed behind it, and counts the rounds.
use chicken_road_b.Base.{
  ℕ, suc, ◌+◌, String, true, false, some, Option-cases, ◌≡◌, refl, arith, eq_refl, ok, err,
  Bool-cases, ◌>>=◌, bind_keeps, inl, inr, template, [], ◌∷◌,
}
use chicken_road_b.Stores.{Stores, Laws, Outage, fairness_get, fairness_set}
use chicken_road_b.Bets.{BetFairness}
use chicken_road_b.Fairness.{
  FairnessData, Crypto, Seeds, get_fairness_key, get_or_create_fairness, set_user_seed,
  rotate_seeds, generate_server_seed, store, fresh, rotated, bad_seed,
  generate_fairness_data_for_bet,
}
use chicken_road_b.Fairness.Hex.{
  is_seed, to_lower_case, to_lower_case-is_seed, hex_value, show, calculate_decimal,
  calculate_decimal-eq_show,
}

-- Every entry's published hash is the hash of its server seed.
abbrev pub IsCommitted : (st : Stores) → Crypto → Seeds st → Type 0
IsCommitted st crypto s =
    (k : String) (d : FairnessData)
    → st.get FairnessData s.entries k ≡ some d
    → d.hashed_server_seed ≡ crypto.sha256 d.server_seed

module _ (st : Stores) (laws : Laws st) (down : Outage) (crypto : Crypto) where
  store-IsCommitted :
      (key : String) (d : FairnessData) (s : Seeds st)
      → d.hashed_server_seed ≡ crypto.sha256 d.server_seed
      → IsCommitted st crypto s
      → IsCommitted st crypto (store st down crypto key d s).1
  unfolding store
  store-IsCommitted key d s h c k e =
      λ f. ground (arith, laws.get-put FairnessData s.entries key d k, c k e)

  get_or_create-IsCommitted :
      (now : ℕ) (user agent : String) (s : Seeds st)
      → IsCommitted st crypto s
      → IsCommitted st crypto (get_or_create_fairness st down crypto now user agent s).1
  unfolding get_or_create_fairness
  get_or_create-IsCommitted now user agent s c k d e =
      let key = get_fairness_key user agent in
      let made =
        fresh st down crypto now (crypto.random_hex 8 s.draws)
          (crypto.random_hex 32 (suc s.draws)) in
      ground (arith, laws.get-put FairnessData s.entries key made k, c k d)

  -- What `getOrCreateFairness` returns is committed too.
  get_or_create_committed :
      (now : ℕ) (user agent : String) (s : Seeds st) {d : FairnessData}
      → IsCommitted st crypto s
      → (get_or_create_fairness st down crypto now user agent s).0 ≡ ok d
      → d.hashed_server_seed ≡ crypto.sha256 d.server_seed
  unfolding get_or_create_fairness
  get_or_create_committed now user agent s {d} c e =
      ground (arith, c (get_fairness_key user agent) d)

  set_user_seed-IsCommitted :
      (now : ℕ) (user agent seed : String) (s : Seeds st)
      → IsCommitted st crypto s
      → IsCommitted st crypto (set_user_seed st down crypto now user agent seed s).1
  unfolding set_user_seed
  set_user_seed-IsCommitted now user agent seed s c = elim (Bool-cases (is_seed seed)) [
    | inr bad ↦ rw bad c
    | inl good ↦ rw good (
        bind_keeps (IsCommitted st crypto) (get_or_create_fairness st down crypto now user agent)
          (λ d.
            store st down crypto (get_fairness_key user agent)
              (record d { user_seed = to_lower_case seed; updated_at = now }))
          s (get_or_create-IsCommitted now user agent s c)
          (λ d e.
            store-IsCommitted _ _ _ (get_or_create_committed now user agent s c e)
              (get_or_create-IsCommitted now user agent s c)))
  ]

  rotate_seeds-IsCommitted :
      (now : ℕ) (user agent : String) (s : Seeds st)
      → IsCommitted st crypto s
      → IsCommitted st crypto (rotate_seeds st down crypto now user agent s).1
  unfolding rotate_seeds
  rotate_seeds-IsCommitted now user agent s c =
      bind_keeps (IsCommitted st crypto) (get_or_create_fairness st down crypto now user agent)
        (λ d. generate_server_seed st down crypto >>= λ seed.
          store st down crypto (get_fairness_key user agent) (rotated st down crypto now seed d))
        s (get_or_create-IsCommitted now user agent s c)
        (λ d e. store-IsCommitted _ _ _ refl (get_or_create-IsCommitted now user agent s c))

  -- If the published hash of every entry is the hash of its server seed, this holds after
  -- getting or creating an entry, after setting a user seed and after a rotation, whatever call
  -- fails.
  pub operations-IsCommitted :
      (now : ℕ) (user agent seed : String) (s : Seeds st)
      → IsCommitted st crypto s
      → IsCommitted st crypto (get_or_create_fairness st down crypto now user agent s).1
        × IsCommitted st crypto (set_user_seed st down crypto now user agent seed s).1
        × IsCommitted st crypto (rotate_seeds st down crypto now user agent s).1
  operations-IsCommitted now user agent seed s c = (
    get_or_create-IsCommitted now user agent s c,
    set_user_seed-IsCommitted now user agent seed s c,
    rotate_seeds-IsCommitted now user agent s c,
  )

  -- If getting or creating an entry ends with an entry, doing it again at any later time, with
  -- whatever else having changed, returns that entry and changes nothing, no new seed is drawn,
  -- as long as Redis has under the player's key what the first call left there. (It keeps an
  -- entry seven days after it was stored.)
  pub get_or_create_twice :
      (now later : ℕ) (user agent : String) (s s'' : Seeds st) {d : FairnessData} {s' : Seeds st}
      → get_or_create_fairness st down crypto now user agent s ≡ (ok d, s')
      → st.get FairnessData s''.entries (get_fairness_key user agent)
        ≡ st.get FairnessData s'.entries (get_fairness_key user agent)
      → get_or_create_fairness st down crypto later user agent s'' ≡ (ok d, s'')
  unfolding get_or_create_fairness
  get_or_create_twice now later user agent s s'' {d} {s'} e still = ground (
    arith,
    still,
    laws.get-put FairnessData s.entries (get_fairness_key user agent) d
        (get_fairness_key user agent),
    eq_refl (get_fairness_key user agent),
  )

  -- With the store up and an entry of the player, a rotation stores and returns an entry with a
  -- newly drawn server seed, the hash of that seed, the same user seed and the nonce one
  -- higher.
  pub rotate_seeds_lem :
      (now : ℕ) (user agent : String) (s : Seeds st) {old : FairnessData}
      → down fairness_get ≡ false
      → down fairness_set ≡ false
      → st.get FairnessData s.entries (get_fairness_key user agent) ≡ some old
      → let seed = crypto.random_hex 32 s.draws in
        let (r, s') = rotate_seeds st down crypto now user agent s in
        (d : FairnessData) × (r ≡ ok d)
        × (st.get FairnessData s'.entries (get_fairness_key user agent) ≡ some d)
        × (d.nonce ≡ old.nonce + 1)
        × (d.user_seed ≡ old.user_seed)
        × (d.server_seed ≡ seed)
        × (d.hashed_server_seed ≡ crypto.sha256 seed)
        × (s'.draws ≡ s.draws + 1)
  unfolding rotate_seeds get_or_create_fairness store
  rotate_seeds_lem now user agent s {old} f g e = (
    rotated st down crypto now (crypto.random_hex 32 s.draws) old,
    ground arith,
    ground (
      arith,
      laws.get-put FairnessData s.entries (get_fairness_key user agent)
          (rotated st down crypto now (crypto.random_hex 32 s.draws) old)
          (get_fairness_key user agent),
      eq_refl (get_fairness_key user agent),
    ),
    refl,
    refl,
    refl,
    refl,
    ground arith,
  )

  -- `setUserSeed` takes exactly the texts of sixteen hexadecimal digits; on another it throws and
  -- changes nothing. What it stores is the seed in lower case, a valid seed again, beside the
  -- server seed, hash and nonce that were there.
  pub set_user_seed_rejects :
      (now : ℕ) (user agent seed : String) (s : Seeds st)
      → is_seed seed ≡ false
      → set_user_seed st down crypto now user agent seed s ≡ (err (bad_seed st down crypto), s)
  unfolding set_user_seed
  set_user_seed_rejects now user agent seed s bad = rw bad

  -- With the store up and an entry of the player, setting a seed of sixteen hexadecimal digits
  -- stores and returns an entry whose user seed is again sixteen hexadecimal digits, with the
  -- server seed, the hash and the nonce unchanged.
  pub set_user_seed_keeps :
      (now : ℕ) (user agent seed : String) (s : Seeds st) {old : FairnessData}
      → is_seed seed ≡ true
      → down fairness_get ≡ false
      → down fairness_set ≡ false
      → st.get FairnessData s.entries (get_fairness_key user agent) ≡ some old
      → let (r, s') = set_user_seed st down crypto now user agent seed s in
        (d : FairnessData) × (r ≡ ok d)
        × (st.get FairnessData s'.entries (get_fairness_key user agent) ≡ some d)
        × (is_seed d.user_seed ≡ true)
        × (d.server_seed ≡ old.server_seed)
        × (d.hashed_server_seed ≡ old.hashed_server_seed)
        × (d.nonce ≡ old.nonce)
  unfolding set_user_seed get_or_create_fairness store
  set_user_seed_keeps now user agent seed s {old} good f g e =
      let d = record old { user_seed = to_lower_case seed; updated_at = now } in
      (
        d,
        ground arith,
        ground (
          arith,
          laws.get-put FairnessData s.entries (get_fairness_key user agent) d
              (get_fairness_key user agent),
          eq_refl (get_fairness_key user agent),
        ),
        to_lower_case-is_seed seed good,
        refl,
        refl,
        refl,
      )

-- If an entry's published hash is the hash of its server seed and the record to be kept with a
-- bet can be made of the entry's seeds, then a player can verify the round from that record:
-- its client and server seed are the entry's two seeds, the server seed in it hashes to the
-- published hash, its combined hash is that of the user seed followed by the server seed, its
-- decimal is the decimal notation of that hash's first twenty digits, and making the record
-- again from its own two seeds gives the same record.
pub generate_fairness_data_verifies :
    (crypto : Crypto) (d : FairnessData) {f : BetFairness}
    → d.hashed_server_seed ≡ crypto.sha256 d.server_seed
    → generate_fairness_data_for_bet crypto d.user_seed d.server_seed ≡ some f
    → (f.client_seed ≡ d.user_seed)
      × (f.server_seed ≡ d.server_seed)
      × (f.hashed_server_seed ≡ d.hashed_server_seed)
      × (crypto.sha256 f.server_seed ≡ d.hashed_server_seed)
      × (f.combined_hash ≡ crypto.sha256 (template (d.user_seed ∷ d.server_seed ∷ [])))
      × (generate_fairness_data_for_bet crypto f.client_seed f.server_seed ≡ some f)
      × ((v : ℕ) × (hex_value 20 0 (crypto.sha256 (template (d.user_seed ∷ d.server_seed ∷ [])))
            ≡ some v)
          × (f.decimal ≡ show v))
unfolding generate_fairness_data_for_bet
generate_fairness_data_verifies crypto d {f} h e =
    let hash = crypto.sha256 (template (d.user_seed ∷ d.server_seed ∷ [])) in
    elim (Option-cases (calculate_decimal crypto.to_exponential hash)) [
      | inl none_made ↦ absurd (ground arith)
      | inr (text, made) ↦
          let (v, value, small, shown) =
            calculate_decimal-eq_show crypto.to_exponential hash made in
          (
            ground arith,
            ground arith,
            ground arith,
            ground arith,
            ground arith,
            ground arith,
            (v, value, ground arith),
          )
    ]
