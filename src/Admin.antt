-- ===== src/Admin.antt =====
-- The administration of the engine: the state that its routes share, and the audit log of
-- src/audit.rs. The tables are irl.api_tokens, irl.system_config (its row "shadow_mode"),
-- irl.agent_registry and irl.admin_audit_log; beside them stand the caches of the running process.
pub mod Tokens
pub mod Auth
pub mod Shadow
pub mod Registration
pub mod Erasure
pub mod Logs
pub mod Audit
use irl_engine_ax.Prelude.{
  ℕ, ℤ, Text, codes, Bool, true, false, List, [], ◌∷◌, Option, Result, ok, err, Action,
}
use irl_engine_ax.Prelude.Effects.{modify, ◌>>◌}
use irl_engine_ax.Errors.{AppError, database}
use irl_engine_ax.Json.{Json}
use irl_engine_ax.Store.{Db}
use irl_engine_ax.Registry.{Agents}
use irl_engine_ax.RateLimit.{RateLimiter}

-- A row of irl.api_tokens. `last_used_at` is written in the background and read by nothing.
pub record ApiToken : Type 0 where
  pub token_hash : Text
  pub client_name : Text
  pub source : Text
  pub status : Text
  pub role : Text
  pub last_used_at : Option ℤ

-- The row "shadow_mode" of irl.system_config.
pub record ConfigRow : Type 0 where
  pub value_bool : Option Bool
  pub updated_at : ℤ
  pub updated_by : Text

pub data AuditAction : Type 0 where
  agent_register agent_suspend agent_activate agent_status_change : AuditAction
  token_issue token_revoke shadow_mode_change gdpr_erasure : AuditAction

-- A row of irl.admin_audit_log, without the id and time that the database adds.
pub record AuditRow (F : Type 0) : Type 0 where
  pub operator_id : Text
  pub action : Text
  pub target_type : Text
  pub target_id : Option Text
  pub details_json : Option (Json F)
  pub ip_address : Option Text

-- What the administration routes read and write; a statement that the database refuses is the next
-- `true` of `faults`.
pub record AppState (F : Type 0) : Type 0 where
  pub api_tokens : List ApiToken
  pub token_cache : List Text  -- TokenManager::cache
  pub last_bumped : List (Text × ℤ)  -- TokenManager::last_bumped
  pub rate_limiter : RateLimiter
  pub shadow_row : Option ConfigRow
  pub shadow_mode : Bool  -- ShadowModeCache::value
  pub agents : Agents F
  pub store : Db F
  pub audit_log : List (AuditRow F)
  pub faults : List Bool

abbrev pub Handler : Type 0 → Type 0 → Type 0
Handler F A = Action (AppState F) (AppError F) A

-- `AuditAction::as_str`
unfoldable pub as_str : AuditAction → Text
as_str agent_register = codes "AGENT_REGISTER"
as_str agent_suspend = codes "AGENT_SUSPEND"
as_str agent_activate = codes "AGENT_ACTIVATE"
as_str agent_status_change = codes "AGENT_STATUS_CHANGE"
as_str token_issue = codes "TOKEN_ISSUE"
as_str token_revoke = codes "TOKEN_REVOKE"
as_str shadow_mode_change = codes "SHADOW_MODE_CHANGE"
as_str gdpr_erasure = codes "GDPR_ERASURE"

-- `AuditAction::target_type`
unfoldable pub target_type_of : AuditAction → Text
target_type_of agent_register = codes "AGENT"
target_type_of agent_suspend = codes "AGENT"
target_type_of agent_activate = codes "AGENT"
target_type_of agent_status_change = codes "AGENT"
target_type_of gdpr_erasure = codes "AGENT"
target_type_of token_issue = codes "TOKEN"
target_type_of token_revoke = codes "TOKEN"
target_type_of shadow_mode_change = codes "SHADOW_MODE"

-- An operator's request: who, and from where.
pub record Operator : Type 0 where
  pub operator : Text  -- OperatorId
  pub client_ip : Option Text

module _ {F : Type 0} where
  abbrev pub take_fault : List Bool → AppState F → Result (AppError F) (Unit {0}) × AppState F
  take_fault [] s = (ok tt, s)
  take_fault (true ∷ fs) s = (err database, record s { faults = fs })
  take_fault (false ∷ fs) s = (ok tt, record s { faults = fs })

  -- One statement is sent: the database runs it or fails.
  unfoldable pub query : Handler F (Unit {0})
  query s = take_fault s.faults s

  unfoldable pub audit_row : Operator → AuditAction → Option Text → Option (Json F) → AuditRow F
  audit_row who action target_id details_json = record {
    operator_id = who.operator;
    action = as_str action;
    target_type = target_type_of action;
    target_id = target_id;
    details_json = details_json;
    ip_address = who.client_ip;
  }

  abbrev pub log : AuditRow F → AppState F → AppState F
  log row s = record s { audit_log = row ∷ s.audit_log }

  unfoldable pub insert_audit_log :
      Operator → AuditAction → Option Text → Option (Json F) → Handler F (Unit {0})
  unfolding query audit_row
  insert_audit_log who action target_id details_json =
      query >> modify (log (audit_row who action target_id details_json))
