-- ===== src/Config.antt =====
-- src/config.rs and src/time.rs: the configuration and the clock that it selects.
use irl_engine_ax.Prelude.{ℕ, ℤ, Text, codes, Bool, List, Option}

pub data TimeSource : Type 0 where
  system ntp_synced : TimeSource

pub data KmsProvider : Type 0 where
  none local aws vault : KmsProvider

pub data MtaMode : Type 0 where
  macro_pulse mock none : MtaMode

pub record Config (F : Type 0) : Type 0 where
  pub database_url : Text
  pub mta_mode : MtaMode
  pub mta_url : Text
  pub mta_pubkey : List ℕ
  pub irl_api_tokens : List Text
  pub time_source : TimeSource
  pub max_heartbeat_drift_ms : ℕ
  pub layer2_enabled : Bool
  pub bind_size_tolerance : F
  pub trace_expiry_ms : ℕ
  pub port : ℕ
  pub shadow_mode : Bool
  pub metrics_enabled : Bool
  pub rate_limit_per_second : ℕ
  pub max_body_bytes : ℕ
  pub kms_provider : KmsProvider
  pub kms_key_id : Option Text
  pub kms_key_version : ℤ
  pub mtls_enabled : Bool
  pub mtls_required : Bool
  pub tls_cert_path : Option Text
  pub tls_key_path : Option Text
  pub tls_ca_cert_path : Option Text
  pub mtls_dev_certs : Bool

-- `format!("{:?}", cfg.time_source)`
unfoldable pub time_source_debug : TimeSource → Text
time_source_debug system = codes "System"
time_source_debug ntp_synced = codes "NtpSynced"

-- `time::now_ms`, at the reading of the system clock: both sources read it.
unfoldable pub ntp_attested_ms : ℤ → ℤ
ntp_attested_ms utc_ms = utc_ms

unfoldable pub now_ms : TimeSource → ℤ → ℤ
unfolding ntp_attested_ms
now_ms system utc_ms = utc_ms
now_ms ntp_synced utc_ms = ntp_attested_ms utc_ms
