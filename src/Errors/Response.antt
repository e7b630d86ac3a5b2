-- ===== src/Errors/Response.antt =====
-- `IntoResponse for AppError` of src/errors.rs: status, code and message of the JSON body.
use irl_engine_ax.Prelude.{ℕ, Text, codes, ◌++◌, ◌≡◌, refl, ◌≤◌, ◌<◌, arith}
use irl_engine_ax.Errors.{
  HeartbeatError, stale_sequence, latency_threshold_exceeded, invalid_signature, missing,
  mta_ref_mismatch, PolicyError, regime_violation, notional_exceeds_limit, agent_not_found,
  model_hash_mismatch, regime_unauthorized, agent_not_active, mta_pubkey_unauthorized, AppError,
  bi_temporal_violation, mta_signature_invalid, mta_fetch_failed, heartbeat, policy, database,
  serialization, trace_not_found, unauthorized, rate_limit_exceeded, trace_already_bound,
  encryption, forbidden, error_code,
}

pub record Response : Type 0 where
  pub status : ℕ
  pub error : Text
  pub message : Text

abbrev respond : ℕ → Text → Text → Response
respond s e m = record { status = s; error = e; message = m }

-- `to_string` is the `Display` that `thiserror` derives from the `#[error]` attributes.
module _ {F : Type 0} (to_string : AppError F → Text) where
  policy_response : PolicyError F → Text → Response
  policy_response (regime_violation _ _ _ _) m = respond 403 (codes "REGIME_VIOLATION") m
  policy_response (notional_exceeds_limit _ _ _ _) m =
      respond 403 (codes "NOTIONAL_EXCEEDS_LIMIT") m
  policy_response agent_not_found m = respond 404 (codes "AGENT_NOT_FOUND") m
  policy_response model_hash_mismatch m = respond 403 (codes "MODEL_HASH_MISMATCH") m
  policy_response (regime_unauthorized _) m = respond 403 (codes "REGIME_UNAUTHORIZED") m
  policy_response agent_not_active m = respond 403 (codes "AGENT_NOT_ACTIVE") m
  policy_response (mta_pubkey_unauthorized _) m = respond 403 (codes "MTA_PUBKEY_UNAUTHORIZED") m

  heartbeat_response : HeartbeatError → Text → Response
  heartbeat_response missing m = respond 400 (codes "HEARTBEAT_MISSING") m
  heartbeat_response (stale_sequence _ _) m = respond 400 (codes "HEARTBEAT_STALE_SEQUENCE") m
  heartbeat_response (latency_threshold_exceeded _ _) m =
      respond 400 (codes "HEARTBEAT_DRIFT_EXCEEDED") m
  heartbeat_response invalid_signature m = respond 403 (codes "HEARTBEAT_SIGNATURE_INVALID") m
  heartbeat_response (mta_ref_mismatch _ _) m = respond 403 (codes "HEARTBEAT_MTA_REF_MISMATCH") m

  unfoldable pub into_response : AppError F → Response
  unfolding policy_response heartbeat_response
  into_response bi_temporal_violation =
      respond 400 (codes "BITEMPORAL_VIOLATION") (to_string bi_temporal_violation)
  into_response mta_signature_invalid =
      respond 403 (codes "MTA_SIGNATURE_INVALID") (to_string mta_signature_invalid)
  into_response (mta_fetch_failed t) =
      respond 502 (codes "MTA_FETCH_FAILED") (to_string (mta_fetch_failed t))
  into_response (heartbeat e) = heartbeat_response e (to_string (heartbeat e))
  into_response (policy e) = policy_response e (to_string (policy e))
  into_response database = respond 500 (codes "DATABASE_ERROR") (codes "Internal storage error")
  into_response (serialization _) =
      respond 500 (codes "SERIALIZATION_ERROR") (codes "Internal serialization error")
  into_response (trace_not_found id) =
      respond 404 (codes "TRACE_NOT_FOUND") (codes "Trace not found: " ++ id)
  into_response unauthorized =
      respond 401 (codes "UNAUTHORIZED") (codes "Invalid or missing bearer token")
  into_response rate_limit_exceeded =
      respond 429 (codes "RATE_LIMIT_EXCEEDED") (codes "Rate limit exceeded")
  into_response (trace_already_bound id status) =
      respond 409 (codes "TRACE_ALREADY_BOUND")
        (codes "Trace " ++ id ++ codes " is already bound (status: " ++ status ++ codes ")")
  into_response (encryption detail) =
      respond 500 (codes "ENCRYPTION_ERROR") (codes "Internal encryption error")
  into_response forbidden =
      respond 403 (codes "FORBIDDEN") (codes "Forbidden: insufficient permissions")

  -- For every error, the code in the JSON body is the code that `error_code` gives (the label of
  -- the metrics), and the status is that of a client or server error, 400 to 599.
  pub into_response-error_code :
      (e : AppError F)
      → ((into_response e).error ≡ error_code e)
        × (400 ≤ (into_response e).status)
        × ((into_response e).status < 600)
  unfolding into_response error_code
  into_response-error_code bi_temporal_violation = (refl, omega arith, omega arith)
  into_response-error_code mta_signature_invalid = (refl, omega arith, omega arith)
  into_response-error_code (heartbeat missing) = (refl, omega arith, omega arith)
  into_response-error_code (heartbeat _) = (refl, omega arith, omega arith)
  into_response-error_code (policy agent_not_found) = (refl, omega arith, omega arith)
  into_response-error_code (policy _) = (refl, omega arith, omega arith)
  into_response-error_code _ = (refl, omega arith, omega arith)
