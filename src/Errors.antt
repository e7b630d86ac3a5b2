-- ===== src/Errors.antt =====
-- The error types of src/errors.rs, their machine-readable codes, and the HTTP response that
-- each becomes. `F` is the type of 64-bit floats.
pub mod Response
use irl_engine_ax.Prelude.{ℕ, Text, codes}

pub data HeartbeatError : Type 0 where
  stale_sequence : ℕ → ℕ → HeartbeatError
  latency_threshold_exceeded : ℕ → ℕ → HeartbeatError
  invalid_signature : HeartbeatError
  missing : HeartbeatError
  mta_ref_mismatch : Text → Text → HeartbeatError

pub data PolicyError (F : Type 0) : Type 0 where
  regime_violation : Text → Text → Text → Text → PolicyError F
  notional_exceeds_limit : F → F → Text → Text → PolicyError F
  agent_not_found : PolicyError F
  model_hash_mismatch : PolicyError F
  regime_unauthorized : ℕ → PolicyError F
  agent_not_active : PolicyError F
  mta_pubkey_unauthorized : Text → PolicyError F

-- `database` leaves out the driver's error, which the engine never inspects.
pub data AppError (F : Type 0) : Type 0 where
  bi_temporal_violation : AppError F
  mta_signature_invalid : AppError F
  mta_fetch_failed : Text → AppError F
  heartbeat : HeartbeatError → AppError F
  policy : PolicyError F → AppError F
  database : AppError F
  serialization : Text → AppError F
  trace_not_found : Text → AppError F
  unauthorized : AppError F
  rate_limit_exceeded : AppError F
  trace_already_bound : Text → Text → AppError F
  encryption : Text → AppError F
  forbidden : AppError F

-- `AppError::error_code`
unfoldable pub error_code : {F : Type 0} → AppError F → Text
error_code bi_temporal_violation = codes "BITEMPORAL_VIOLATION"
error_code mta_signature_invalid = codes "MTA_SIGNATURE_INVALID"
error_code (mta_fetch_failed _) = codes "MTA_FETCH_FAILED"
error_code (heartbeat missing) = codes "HEARTBEAT_MISSING"
error_code (heartbeat (stale_sequence _ _)) = codes "HEARTBEAT_STALE_SEQUENCE"
error_code (heartbeat (latency_threshold_exceeded _ _)) = codes "HEARTBEAT_DRIFT_EXCEEDED"
error_code (heartbeat invalid_signature) = codes "HEARTBEAT_SIGNATURE_INVALID"
error_code (heartbeat (mta_ref_mismatch _ _)) = codes "HEARTBEAT_MTA_REF_MISMATCH"
error_code (policy (regime_violation _ _ _ _)) = codes "REGIME_VIOLATION"
error_code (policy (notional_exceeds_limit _ _ _ _)) = codes "NOTIONAL_EXCEEDS_LIMIT"
error_code (policy agent_not_found) = codes "AGENT_NOT_FOUND"
error_code (policy model_hash_mismatch) = codes "MODEL_HASH_MISMATCH"
error_code (policy (regime_unauthorized _)) = codes "REGIME_UNAUTHORIZED"
error_code (policy agent_not_active) = codes "AGENT_NOT_ACTIVE"
error_code (policy (mta_pubkey_unauthorized _)) = codes "MTA_PUBKEY_UNAUTHORIZED"
error_code database = codes "DATABASE_ERROR"
error_code (serialization _) = codes "SERIALIZATION_ERROR"
error_code (trace_not_found _) = codes "TRACE_NOT_FOUND"
error_code unauthorized = codes "UNAUTHORIZED"
error_code rate_limit_exceeded = codes "RATE_LIMIT_EXCEEDED"
error_code (trace_already_bound _ _) = codes "TRACE_ALREADY_BOUND"
error_code (encryption _) = codes "ENCRYPTION_ERROR"
error_code forbidden = codes "FORBIDDEN"
