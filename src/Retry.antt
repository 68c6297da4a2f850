-- ===== src/Retry.antt =====
-- WalletRetryJobService of modules/wallet-retry/wallet-retry-job.service.ts: the table of retry
-- jobs, keyed by `id`, which the database draws. Of the request's payload only the stored refund
-- transactions are kept.
pub mod Schedule
pub mod Active
mod Tests
use chicken_road_b.Base.{
  ℕ, suc, ◌-◌, String, Bool, true, false, ◌&&◌, ◌||◌, Option, none, some, List, str_eq,
  if◌then◌else◌, is_some, or_text, if_truthy, sort_by, ◌==◌, ltb, leb, length, take, Action,
  plain_error, not_found, io_error, pure, throw_if, or_throw, gets, modify, Thrown, template, [],
  ◌∷◌, ◌>>=◌, ◌>>◌, matches_filter,
}
use chicken_road_b.Js.{Js}
use chicken_road_b.Stores.{Stores, Outage, job_find, job_save}
use chicken_road_b.Enums.{WalletApiAction, same_action, RefundTransaction}
use chicken_road_b.Games.{GamePayloads}
use chicken_road_b.Audit.{text_if_truthy}
use Schedule.{calculate_next_retry_time, max_retries}

pub data WalletRetryJobStatus : Type 0 where
  pending processing success failed expired : WalletRetryJobStatus

pub record WalletRetryJob (Num : Type 0) : Type 0 where
  pub id : String
  pub platform_tx_id : String
  pub api_action : WalletApiAction
  pub status : WalletRetryJobStatus
  pub retry_attempt : ℕ
  pub max_retries : ℕ
  pub next_retry_at : ℕ
  pub initial_failure_at : ℕ
  pub last_retry_at : Option ℕ
  pub agent_id : String
  pub user_id : String
  pub refund_transactions : Option (List (RefundTransaction Num))
  pub round_id : Option String
  pub bet_amount : Option String
  pub win_amount : Option String
  pub currency : Option String
  pub game_payloads : Option GamePayloads
  pub wallet_audit_id : Option String
  pub error_message : Option String
  pub completed_at : Option ℕ
  pub updated_at : ℕ
  pub created_at : ℕ

pub record CreateRetryJobParams (Num : Type 0) : Type 0 where
  pub platform_tx_id : String
  pub api_action : WalletApiAction
  pub agent_id : String
  pub user_id : String
  pub refund_transactions : Option (List (RefundTransaction Num))
  pub round_id : Option String
  pub bet_amount : Option Num
  pub win_amount : Option Num
  pub currency : Option String
  pub game_payloads : Option GamePayloads
  pub wallet_audit_id : Option String
  pub error_message : Option String

-- `status IN (PENDING, PROCESSING)`
abbrev pub is_active : WalletRetryJobStatus → Bool
is_active pending = true
is_active processing = true
is_active _ = false

abbrev pub is_pending : WalletRetryJobStatus → Bool
is_pending pending = true
is_pending _ = false

abbrev pub is_processing : WalletRetryJobStatus → Bool
is_processing processing = true
is_processing _ = false

abbrev pub stale_ms : ℕ
stale_ms = 600_000

module _ {Num : Type 0} where
  -- The condition of `createRetryJob`'s search.
  abbrev pub is_active_for : String → WalletApiAction → WalletRetryJob Num → Bool
  is_active_for tx action j =
      str_eq j.platform_tx_id tx && (same_action j.api_action action && is_active j.status)

  -- The condition of `findDueRetries`.
  abbrev pub is_due : ℕ → WalletRetryJob Num → Bool
  is_due now j =
      (is_pending j.status && leb j.next_retry_at now)
      || (is_processing j.status && ltb j.updated_at (now - stale_ms))

-- `ORDER BY nextRetryAt ASC, updatedAt ASC`
abbrev pub runs_before : {Num : Type 0} → WalletRetryJob Num → WalletRetryJob Num → Bool
runs_before i j =
    ltb i.next_retry_at j.next_retry_at
    || (i.next_retry_at == j.next_retry_at && leb i.updated_at j.updated_at)

pub record Jobs (st : Stores) (Num : Type 0) : Type 0 where
  pub rows : st.Of (WalletRetryJob Num)
  pub next_id : ℕ

module _ {Num : Type 0} (js : Js Num) (st : Stores) (down : Outage) (uuid : ℕ → String) where
  abbrev Job : Type 0
  Job = WalletRetryJob Num

  unfoldable pub find_one : (Job → Bool) → Action (Jobs st Num) (Option Job)
  find_one p = do throw_if (down job_find) io_error; gets (λ s. st.find Job s.rows p)

  unfoldable pub save : Job → Action (Jobs st Num) Job
  save j = do
    throw_if (down job_save) io_error
    modify (λ s. record s { rows = st.put Job s.rows j.id j })
    pure j

  abbrev pub new_job : String → ℕ → ℕ → CreateRetryJobParams Num → Job
  new_job id now next p = record {
    id = id;
    platform_tx_id = p.platform_tx_id;
    api_action = p.api_action;
    status = pending;
    retry_attempt = 0;
    max_retries = max_retries;
    next_retry_at = next;
    initial_failure_at = now;
    last_retry_at = none;
    agent_id = p.agent_id;
    user_id = p.user_id;
    refund_transactions = p.refund_transactions;
    round_id = p.round_id;
    bet_amount = text_if_truthy js p.bet_amount;
    win_amount = text_if_truthy js p.win_amount;
    currency = p.currency;
    game_payloads = p.game_payloads;
    wallet_audit_id = p.wallet_audit_id;
    error_message = p.error_message;
    completed_at = none;
    updated_at = now;
    created_at = now;
  }

  -- A new row takes the next drawn id.
  insert : (String → Job) → Action (Jobs st Num) Job
  insert make = do
    throw_if (down job_save) io_error
    job ← gets (λ s. make (uuid s.next_id))
    modify (λ s. record s { rows = st.put Job s.rows job.id job; next_id = suc s.next_id })
    pure job

  create_unless : ℕ → CreateRetryJobParams Num → Option Job → Action (Jobs st Num) Job
  unfolding insert
  create_unless now p (some existing) = pure existing
  create_unless now p none = do
    next ←
        or_throw (calculate_next_retry_time now 1 now)
          (plain_error "Cannot create retry job: already expired")
    insert (λ id. new_job id now next p)

  unfoldable pub create_retry_job : ℕ → CreateRetryJobParams Num → Action (Jobs st Num) Job
  unfolding find_one create_unless
  create_retry_job now p = do
    existing ← find_one (is_active_for p.platform_tx_id p.api_action)
    create_unless now p existing

  unfoldable pub find_due_retries : ℕ → Action (Jobs st Num) (List Job)
  find_due_retries now = do
    throw_if (down job_find) io_error
    gets (λ s. take 500 (sort_by runs_before (st.select Job s.rows (is_due now))))

  unfoldable pub find_by_id : String → Action (Jobs st Num) (Option Job)
  unfolding find_one
  find_by_id id = find_one (λ j. str_eq j.id id)

  -- The search that each of the updates below begins with.
  require_job : String → Action (Jobs st Num) Job
  unfolding find_one
  require_job id = do
    or_throw (← find_one (λ j. str_eq j.id id))
        (plain_error (template ("Retry job not found: " ∷ id ∷ [])))

  unfoldable pub update_status : ℕ → String → WalletRetryJobStatus → Action (Jobs st Num) Job
  unfolding require_job save
  update_status now id status = do
    j ← require_job id
    save (record j {
      status = status;
      updated_at = now;
      last_retry_at = if is_processing status then some now else j.last_retry_at;
    })

  expired_job : ℕ → Option String → Job → Job
  expired_job now message j = record j {
    status = expired;
    completed_at = some now;
    error_message = some (or_text message "Retry expired after 72 hours");
    updated_at = now;
  }

  rescheduled_job : ℕ → ℕ → ℕ → Option String → Job → Job
  rescheduled_job now next_attempt next message j = record j {
    status = pending;
    retry_attempt = next_attempt;
    next_retry_at = next;
    error_message = if_truthy message;
    updated_at = now;
  }

  unfoldable pub schedule_next_retry :
      ℕ → String → ℕ → Option ℕ → Option String → Action (Jobs st Num) Job
  unfolding require_job save expired_job rescheduled_job
  schedule_next_retry now id next_attempt next_retry_at message = do
    j ← require_job id
    save (elim next_retry_at [
      | none ↦ expired_job now message j
      | some next ↦ rescheduled_job now next_attempt next message j
    ])

  unfoldable pub mark_success : ℕ → String → Action (Jobs st Num) Job
  unfolding require_job save
  mark_success now id = do
    j ← require_job id
    save (record j { status = success; completed_at = some now; updated_at = now })

  unfoldable pub mark_expired : ℕ → String → Option String → Action (Jobs st Num) Job
  unfolding require_job save expired_job
  mark_expired now id message = do j ← require_job id; save (expired_job now message j)

  unfoldable pub delete_older_than : ℕ → Action (Jobs st Num) ℕ
  delete_older_than cutoff = do
    throw_if (down job_save) io_error
    affected ← gets (λ s. length (st.select Job s.rows (λ j. ltb j.created_at cutoff)))
    modify (λ s. record s { rows = st.remove Job s.rows (λ j. ltb j.created_at cutoff) })
    pure affected
