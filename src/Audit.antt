-- ===== src/Audit.antt =====
-- modules/wallet-audit/wallet-audit.service.ts: the audit records. The table is keyed by `id`,
-- which the database draws; `uuid` gives the drawn texts.
use chicken_road_b.Base.{
  leb, take, sort_by, ℕ, suc, String, Bool, true, false, not, ◌&&◌, Option, none, some, List,
  str_eq, if◌then◌else◌, or_else, length, ltb, matches_filter, Action, io_error, pure, throw_if,
  gets, modify, ◌>>=◌, ◌>>◌,
}
use chicken_road_b.Js.{Js}
use chicken_road_b.Stores.{Stores, Outage, audit_find, audit_save}
use chicken_road_b.Enums.{WalletApiAction, WalletErrorType}

pub data WalletAuditStatus : Type 0 where
  success failure : WalletAuditStatus

abbrev pub is_failure : WalletAuditStatus → Bool
is_failure failure = true
is_failure success = false

pub record WalletAudit : Type 0 where
  pub id : String
  pub request_id : String
  pub agent_id : String
  pub user_id : String
  pub api_action : WalletApiAction
  pub status : WalletAuditStatus
  pub http_status : Option ℕ
  pub failure_type : Option WalletErrorType
  pub error_message : Option String
  pub platform_tx_id : Option String
  pub round_id : Option String
  pub bet_amount : Option String
  pub win_amount : Option String
  pub is_retry : Bool
  pub resolved : Bool
  pub resolved_at : Option ℕ
  pub created_at : ℕ

pub record CreateWalletAuditParams (Num : Type 0) : Type 0 where
  pub request_id : String
  pub agent_id : String
  pub user_id : String
  pub api_action : WalletApiAction
  pub status : WalletAuditStatus
  pub http_status : Option ℕ
  pub failure_type : Option WalletErrorType
  pub error_message : Option String
  pub platform_tx_id : Option String
  pub round_id : Option String
  pub bet_amount : Option Num
  pub win_amount : Option Num
  pub is_retry : Option Bool

pub record Audits (st : Stores) : Type 0 where
  pub rows : st.Of WalletAudit
  pub next_id : ℕ

-- `x ? String(x) : undefined`
abbrev pub text_if_truthy : {Num : Type 0} → Js Num → Option Num → Option String
text_if_truthy js none = none
text_if_truthy js (some n) = if js.truthy n then some (js.to_text n) else none

-- The row that `logAudit` creates.
abbrev pub new_audit :
    {Num : Type 0} → Js Num → ℕ → String → CreateWalletAuditParams Num → WalletAudit
new_audit js now id p = record {
  id = id;
  request_id = p.request_id;
  agent_id = p.agent_id;
  user_id = p.user_id;
  api_action = p.api_action;
  status = p.status;
  http_status = p.http_status;
  failure_type = p.failure_type;
  error_message = p.error_message;
  platform_tx_id = p.platform_tx_id;
  round_id = p.round_id;
  bet_amount = text_if_truthy js p.bet_amount;
  win_amount = text_if_truthy js p.win_amount;
  is_retry = or_else p.is_retry false;
  resolved = false;
  resolved_at = none;
  created_at = now;
}

module _ (st : Stores) (down : Outage) (uuid : ℕ → String) where
  unfoldable pub log_audit :
      {Num : Type 0} → Js Num → ℕ → CreateWalletAuditParams Num → Action (Audits st) WalletAudit
  log_audit js now p = do
    throw_if (down audit_save) io_error
    id ← gets (λ s. uuid s.next_id)
    let audit = new_audit js now id p
    modify (λ s. record s { rows = st.put WalletAudit s.rows id audit; next_id = suc s.next_id })
    pure audit

  resolve : ℕ → String → Option WalletAudit → Action (Audits st) (Option WalletAudit)
  resolve now id none = pure none
  resolve now id (some a) = do
    throw_if (down audit_save) io_error
    let a' = record a { status = success; resolved = true; resolved_at = some now }
    modify (λ s. record s { rows = st.put WalletAudit s.rows id a' })
    pure (some a')

  -- A missing record is reported as `null`, not as an error.
  unfoldable pub mark_success : ℕ → String → Action (Audits st) (Option WalletAudit)
  unfolding resolve
  mark_success now id = do
    throw_if (down audit_find) io_error
    found ← gets (λ s. st.find WalletAudit s.rows (λ a. str_eq a.id id))
    resolve now id found

  -- `order: { createdAt: 'DESC' }`
  abbrev pub newer_first : WalletAudit → WalletAudit → Bool
  newer_first a b = leb b.created_at a.created_at

  unfoldable pub find_failures : ℕ → Action (Audits st) (List WalletAudit)
  find_failures limit = do
    throw_if (down audit_find) io_error
    gets (λ s. take limit (
        sort_by newer_first
          (st.select WalletAudit s.rows (λ a. is_failure a.status && not a.resolved))))

  unfoldable pub find_by_platform_tx_id : String → Action (Audits st) (List WalletAudit)
  find_by_platform_tx_id tx = do
    throw_if (down audit_find) io_error
    gets (λ s. sort_by newer_first (
        st.select WalletAudit s.rows
          (λ a. elim a.platform_tx_id [ none ↦ false | some t ↦ str_eq t tx ])))

  unfoldable pub find_by_user : String → Option String → ℕ → Action (Audits st) (List WalletAudit)
  find_by_user user_id agent_id limit = do
    throw_if (down audit_find) io_error
    gets (λ s. take limit (
        sort_by newer_first (
          st.select WalletAudit s.rows
            (λ a. str_eq a.user_id user_id && matches_filter agent_id a.agent_id))))

  unfoldable pub delete_older_than : ℕ → Action (Audits st) ℕ
  delete_older_than cutoff = do
    throw_if (down audit_save) io_error
    affected ← gets (λ s. length (st.select WalletAudit s.rows (λ a. ltb a.created_at cutoff)))
    modify (λ s. record s { rows = st.remove WalletAudit s.rows (λ a. ltb a.created_at cutoff) })
    pure affected
