-- ===== src/Refunds.antt =====
-- modules/refund-scheduler/refund-scheduler.service.ts: placed bets whose round did not come back
-- are refunded, a few at a time for one player. `json` tells whether `JSON.parse` takes a text.
-- What a batch does at the same time (`Promise.all`) is run in the order of the batch, every part
-- of it also after one has failed; the counts that are only logged are left out.
pub mod Keys
pub mod Batches
pub mod Asked
pub mod Runs
pub mod Marked
mod Tests
use chicken_road_b.Base.{
  ℕ, zero, suc, ◌+◌, ◌*◌, String, Bool, true, false, ◌&&◌, ◌||◌, not, Option, none, some, List, [],
  ◌∷◌, ◌++◌, map, str_eq, or_text, template, is_truthy, if◌then◌else◌, length, take, drop, Action,
  Result, ok, err, plain_error, pure, throw, catching, finally, quietly, ◌>>=◌, ◌>>◌,
}
use chicken_road_b.Js.{Js}
use chicken_road_b.Stores.{Stores}
use chicken_road_b.Enums.{RefundTransaction}
use chicken_road_b.Bets.{Bet, BetStatus, refunded}
use chicken_road_b.Bets
use chicken_road_b.Fairness.{Crypto}
use chicken_road_b.Wallet.{AgentResponse, on_bets, is_accepted}
use chicken_road_b.Wallet.Operations.{refund_bet_call}
use chicken_road_b.GamePlay.{GameSession, get_redis_key}
use chicken_road_b.GamePlay.Flows.{
  GameWorld, Setting, on_wallet, get_session, acquire_lock, release_lock,
}

abbrev pub batch_size : ℕ
batch_size = 5

-- `sessionTTLMs + bufferMs`
unfoldable pub interval_ms : ℕ → ℕ
interval_ms ttl_seconds = ttl_seconds * 1000 + 2 * 60 * 1000

abbrev pub lock_key : String
lock_key = "refund-scheduler-lock"

-- The text before the first colon, and the text between the first and the second one.
unfoldable pub before_colon : String → String
before_colon String.[] = ""
before_colon (String.◌∷◌ c s) =
    let rest = before_colon s in if str_eq (String.◌∷◌ c "") ":" then "" else String.◌∷◌ c rest

unfoldable pub after_colon : String → String
after_colon String.[] = ""
after_colon (String.◌∷◌ c s) =
    let rest = after_colon s in if str_eq (String.◌∷◌ c "") ":" then s else rest

-- `const [userId, operatorId] = key.split(':')`
unfoldable pub split_key : String → String × String
unfolding before_colon after_colon
split_key key = (before_colon key, before_colon (after_colon key))

abbrev pub group_key : Bet → String
group_key b = template (b.user_id ∷ ":" ∷ b.operator_id ∷ [])

-- The groups in the order of their first bets, as a `Map` keeps them.
abbrev pub Groups : Type 0
Groups = List (String × List Bet)

unfoldable pub push_bet : Bet → Groups → Groups
push_bet b [] = (group_key b, b ∷ []) ∷ []
push_bet b ((k, bs) ∷ gs) =
    let rest = push_bet b gs in
    if str_eq k (group_key b) then (k, bs ++ (b ∷ [])) ∷ gs else (k, bs) ∷ rest

unfoldable pub group_bets : Groups → List Bet → Groups
unfolding push_bet
group_bets gs [] = gs
group_bets gs (b ∷ bs) = group_bets (push_bet b gs) bs

-- The slices that the loop over a group takes; there are no more of them than bets.
unfoldable pub slices : ℕ → List Bet → List (List Bet)
slices zero bets = []
slices (suc rounds) [] = []
slices (suc rounds) (b ∷ bs) = take batch_size (b ∷ bs) ∷ slices rounds (drop batch_size (b ∷ bs))

module _ {Num : Type 0} (js : Js Num) (st : Stores) (crypto : Crypto) (uuid : ℕ → String)
    (at : Setting Num) (json : String → Bool) where
  open at use {now, down}

  abbrev World : Type 0
  World = GameWorld st Num

  -- The deprecated test, which the code no longer calls.
  unfoldable pub session_exists : String → String → String → Action World Bool
  session_exists user_id operator_id game_code =
      catching
        (do
          session ← get_session js st crypto uuid at (get_redis_key user_id operator_id game_code)
          pure (elim session [ none ↦ false | some s ↦ true ]))
        (λ e. pure true)

  -- An active session of this very bet.
  abbrev pub holds_bet : String → Option (GameSession Num) → Bool
  holds_bet tx none = false
  holds_bet tx (some s) = s.is_active && str_eq s.platform_bet_tx_id tx

  unfoldable pub session_exists_for_bet : String → String → String → String → Action World Bool
  session_exists_for_bet user_id operator_id game_code tx =
      catching
        (do
          session ← get_session js st crypto uuid at (get_redis_key user_id operator_id game_code)
          pure (holds_bet tx session))
        (λ e. pure true)

  -- `hasActiveSession.some(active => active)`
  unfoldable pub any_active : String → String → List Bet → Action World Bool
  unfolding session_exists_for_bet
  any_active user_id operator_id [] = pure false
  any_active user_id operator_id (b ∷ bs) = do
    active ← session_exists_for_bet user_id operator_id b.game_code b.external_platform_tx_id
    others ← any_active user_id operator_id bs
    pure (active || others)

  abbrev pub refund_of : Bet → RefundTransaction Num
  refund_of b = record {
    platform_tx_id = b.external_platform_tx_id;
    refund_platform_tx_id = b.external_platform_tx_id;
    bet_amount = js.to_number b.bet_amount;
    win_amount = js.zero_num;
    round_id = b.round_id;
    currency = some (or_text (some b.currency) "INR");
  }

  -- `bet.gameInfo ? JSON.parse(bet.gameInfo) : undefined` does not throw.
  abbrev pub is_readable : Bet → Bool
  is_readable b = elim b.game_info [ none ↦ true | some t ↦ not (is_truthy t) || json t ]

  abbrev pub all_readable : List Bet → Bool
  all_readable [] = true
  all_readable (b ∷ bs) = is_readable b && all_readable bs

  abbrev pub mark_refunded : Bet → Action World Bet
  mark_refunded b = on_wallet js st crypto uuid at (
      on_bets js st down uuid
        (Bets.update_status st down b.external_platform_tx_id refunded "refund-scheduler"))

  abbrev pub first_error : Result Bet → Result (Unit {0}) → Result (Unit {0})
  first_error (ok b) rest = rest
  first_error (err e) rest = err e

  -- `Promise.all(updatePromises)`
  unfoldable pub mark_all : List Bet → Action World (Unit {0})
  mark_all [] w = (ok tt, w)
  mark_all (b ∷ bs) w =
      let (r, w') = mark_refunded b w in let (s, w'') = mark_all bs w' in (first_error r s, w'')

  -- What follows the answer of the agent.
  unfoldable pub refund_told : List Bet → AgentResponse Num → Action World (Unit {0})
  unfolding mark_all
  refund_told bets told =
      if is_accepted told.status
      then mark_all bets
      else throw (plain_error (template ("Agent rejected refund with status: " ∷ told.status ∷ [])))

  unfoldable pub refund_bets : List Bet → Action World (Unit {0})
  unfolding refund_told
  refund_bets [] = pure tt
  refund_bets (b ∷ bs) =
      if all_readable (b ∷ bs)
      then (do
        told ← on_wallet js st crypto uuid at (
            refund_bet_call js st down uuid at.reply now at.request_id b.operator_id b.user_id
              (map refund_of (b ∷ bs)))
        refund_told (b ∷ bs) told)
      else throw (plain_error "SyntaxError")

  -- The `try` around a batch: an active session of one of its bets lets the whole batch wait.
  unfoldable pub process_batch : String → String → List Bet → Action World (Unit {0})
  unfolding any_active refund_bets
  process_batch user_id operator_id batch = quietly (do
    active ← any_active user_id operator_id batch
    if active then pure tt else refund_bets batch)

  unfoldable pub process_batches : String → String → List (List Bet) → Action World (Unit {0})
  unfolding process_batch
  process_batches user_id operator_id [] = pure tt
  process_batches user_id operator_id (batch ∷ rest) = do
    process_batch user_id operator_id batch
    process_batches user_id operator_id rest

  unfoldable pub process_groups : Groups → Action World (Unit {0})
  unfolding process_batches slices split_key
  process_groups [] = pure tt
  process_groups ((key, bets) ∷ groups) = do
    process_batches (split_key key).0 (split_key key).1 (slices (length bets) bets)
    process_groups groups

  unfoldable pub process_old_bets : ℕ → Action World (Unit {0})
  unfolding process_groups group_bets
  process_old_bets older_than_ms = do
    old ←
        on_wallet js st crypto uuid at
          (on_bets js st down uuid (Bets.find_old_placed_bets st down now older_than_ms))
    process_groups (group_bets [] old)

  unfoldable pub process_acquired : ℕ → Bool → Action World (Unit {0})
  unfolding process_old_bets
  process_acquired older_than_ms true =
      finally (quietly (process_old_bets older_than_ms))
        (release_lock js st crypto uuid at lock_key)
  process_acquired older_than_ms false = pure tt

  unfoldable pub process_refunds : ℕ → Action World (Unit {0})
  unfolding process_acquired
  process_refunds older_than_ms =
      acquire_lock js st crypto uuid at lock_key >>= process_acquired older_than_ms

  -- The run at the start; the timer then repeats it every `interval_ms`.
  unfoldable pub start_scheduler : ℕ → Action World ℕ
  unfolding process_refunds interval_ms
  start_scheduler ttl_seconds = do
    process_refunds (ttl_seconds * 1000)
    pure (interval_ms ttl_seconds)
