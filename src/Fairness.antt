-- ===== src/Fairness.antt =====
-- modules/fairness/fairness.service.ts: the seeds of a user, in Redis under
-- `fairness:<user>-<agent>`. The hash and the random bytes are the platform's: they are a
-- parameter, and the state counts the draws. Redis drops a key seven days after it was stored
-- (FAIRNESS_TTL): that is no operation of the service, and is not modelled.
mod Tests
pub mod Hex
pub mod Commitment
use chicken_road_b.Base.{
  ℕ, zero, suc, ◌+◌, ◌*◌, String, Bool, Option, none, some, List, [], ◌∷◌, ◌&&◌, template, is_some,
  Action, ok, Thrown, plain_error, io_error, pure, throw_if, or_throw, gets, modify, ◌>>=◌, ◌>>◌,
  not,
}
use chicken_road_b.Stores.{Stores, Outage, fairness_get, fairness_set}
use chicken_road_b.Bets.{BetFairness}
use mathlib.Core.Option
use Hex.{is_seed, to_lower_case, calculate_decimal}

pub record FairnessData : Type 0 where
  pub user_seed : String
  pub server_seed : String
  pub hashed_server_seed : String
  pub nonce : ℕ
  pub created_at : ℕ
  pub updated_at : ℕ

pub record Crypto : Type 0 where
  -- `createHash('sha256').update(text).digest('hex')`
  pub sha256 : String → String
  -- `randomBytes(n).toString('hex')`, at the given draw
  pub random_hex : ℕ → ℕ → String
  -- `x.toExponential()`
  pub to_exponential : ℕ → String

pub record Seeds (st : Stores) : Type 0 where
  pub entries : st.Of FairnessData
  pub draws : ℕ

abbrev pub get_fairness_key : String → String → String
get_fairness_key user_id agent_id = template ("fairness:" ∷ user_id ∷ "-" ∷ agent_id ∷ [])

module _ (st : Stores) (down : Outage) (crypto : Crypto) where
  open crypto use {sha256, random_hex}

  draw : ℕ → Action (Seeds st) String
  draw bytes s = (ok (random_hex bytes s.draws), record s { draws = suc s.draws })

  unfoldable pub generate_user_seed : Action (Seeds st) String
  unfolding draw
  generate_user_seed = draw 8

  unfoldable pub generate_server_seed : Action (Seeds st) String
  unfolding draw
  generate_server_seed = draw 32

  unfoldable pub get_fairness : String → String → Action (Seeds st) (Option FairnessData)
  get_fairness user_id agent_id = do
    throw_if (down fairness_get) io_error
    gets (λ s. st.get FairnessData s.entries (get_fairness_key user_id agent_id))

  unfoldable pub store : String → FairnessData → Action (Seeds st) FairnessData
  store key d = do
    throw_if (down fairness_set) io_error
    modify (λ s. record s { entries = st.put FairnessData s.entries key d })
    pure d

  abbrev pub fresh : ℕ → String → String → FairnessData
  fresh now user_seed server_seed = record {
    user_seed = user_seed;
    server_seed = server_seed;
    hashed_server_seed = sha256 server_seed;
    nonce = 0;
    created_at = now;
    updated_at = now;
  }

  unfoldable pub create_fairness : ℕ → String → Action (Seeds st) FairnessData
  unfolding generate_user_seed generate_server_seed store
  create_fairness now key = do
    user_seed ← generate_user_seed
    server_seed ← generate_server_seed
    store key (fresh now user_seed server_seed)

  unfoldable pub or_create : ℕ → String → Option FairnessData → Action (Seeds st) FairnessData
  unfolding create_fairness
  or_create now key none = create_fairness now key
  or_create now key (some d) = pure d

  unfoldable pub get_or_create_fairness : ℕ → String → String → Action (Seeds st) FairnessData
  unfolding get_fairness or_create
  get_or_create_fairness now user_id agent_id = do
    existing ← get_fairness user_id agent_id
    or_create now (get_fairness_key user_id agent_id) existing

  abbrev pub bad_seed : Thrown
  bad_seed = plain_error "Invalid user seed format. Must be 16 hexadecimal characters."

  unfoldable pub set_user_seed : ℕ → String → String → String → Action (Seeds st) FairnessData
  set_user_seed now user_id agent_id user_seed = do
    throw_if (not (is_seed user_seed)) bad_seed
    existing ← get_or_create_fairness now user_id agent_id
    store (get_fairness_key user_id agent_id)
        (record existing { user_seed = to_lower_case user_seed; updated_at = now })

  abbrev pub rotated : ℕ → String → FairnessData → FairnessData
  rotated now server_seed d = record d {
    server_seed = server_seed;
    hashed_server_seed = sha256 server_seed;
    nonce = d.nonce + 1;
    updated_at = now;
  }

  unfoldable pub rotate_seeds : ℕ → String → String → Action (Seeds st) FairnessData
  unfolding generate_server_seed
  rotate_seeds now user_id agent_id = do
    existing ← get_or_create_fairness now user_id agent_id
    server_seed ← generate_server_seed
    store (get_fairness_key user_id agent_id) (rotated now server_seed existing)

module _ (crypto : Crypto) where
  open crypto use {sha256, to_exponential}

  unfoldable pub calculate_combined_hash : String → String → String
  calculate_combined_hash user_seed server_seed = sha256 (template (user_seed ∷ server_seed ∷ []))

  -- `none` where `BigInt` throws.
  unfoldable pub generate_fairness_data_for_bet : String → String → Option BetFairness
  unfolding calculate_combined_hash
  generate_fairness_data_for_bet user_seed server_seed =
      let combined = calculate_combined_hash user_seed server_seed in
      Option.map
        (λ (decimal : String). record {
          decimal = decimal;
          client_seed = user_seed;
          server_seed = server_seed;
          combined_hash = combined;
          hashed_server_seed = sha256 server_seed;
        })
        (calculate_decimal to_exponential combined)
