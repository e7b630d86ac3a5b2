-- ===== src/Snapshot.antt =====
-- src/snapshot.rs: trade actions and their direction, the sealed snapshot, the stored trace, and
-- the request body of POST /irl/authorize. `SignedHeartbeat` is that of src/heartbeat.rs.
pub mod Fingerprint
use irl_engine_ax.Prelude.{
  ℕ, ℤ, Text, codes, Bool, ◌||◌, ◌++◌, Option, List, if◌then◌else◌, text_eq, to_ascii_lowercase,
  trim, starts_with, contains, as_bytes,
}
use irl_engine_ax.Platform.{Float64, Externals}

pub data TradeAction (F : Type 0) : Type 0 where
  long short : F → TradeAction F
  neutral : TradeAction F
  custom : Text → TradeAction F

-- Keywords over the trimmed, lower-case text.
unfoldable pub custom_keywords : Text → Text
custom_keywords lower =
    if contains lower (codes "long")
      || starts_with lower (codes "buy")
      || text_eq lower (codes "open")
      || contains lower (codes "open_long")
    then codes "long"
    else if contains lower (codes "short")
        || starts_with lower (codes "sell")
        || text_eq lower (codes "close")
        || text_eq lower (codes "exit")
        || text_eq lower (codes "reverse")
        || contains lower (codes "close_short")
    then codes "short"
    else if text_eq lower (codes "neutral")
        || text_eq lower (codes "flat")
        || text_eq lower (codes "cancel")
        || text_eq lower (codes "hold")
    then codes "neutral"
    else codes "unknown"

unfoldable pub resolve_custom_direction : Text → Text
resolve_custom_direction s = custom_keywords (trim (to_ascii_lowercase s))

-- `TradeAction::direction`
unfoldable pub direction : {F : Type 0} → TradeAction F → Text
direction (long _) = codes "long"
direction (short _) = codes "short"
direction neutral = codes "neutral"
direction (custom s) = resolve_custom_direction s

-- `Display for TradeAction`
unfoldable pub action_text : {F : Type 0} ⦃fl : Float64 F⦄ → TradeAction F → Text
action_text ⦃fl⦄ (long s) = codes "Long(" ++ fl.display s ++ codes ")"
action_text ⦃fl⦄ (short s) = codes "Short(" ++ fl.display s ++ codes ")"
action_text neutral = codes "Neutral"
action_text (custom s) = s

pub data OrderType : Type 0 where
  market limit stop stop_limit twap vwap ioc fok post_only pegged trailing_stop iceberg : OrderType
  custom : Text → OrderType

-- `Display for OrderType`
unfoldable pub order_type_text : OrderType → Text
order_type_text OrderType.market = codes "MARKET"
order_type_text OrderType.limit = codes "LIMIT"
order_type_text OrderType.stop = codes "STOP"
order_type_text OrderType.stop_limit = codes "STOP_LIMIT"
order_type_text OrderType.twap = codes "TWAP"
order_type_text OrderType.vwap = codes "VWAP"
order_type_text OrderType.ioc = codes "IOC"
order_type_text OrderType.fok = codes "FOK"
order_type_text OrderType.post_only = codes "POST_ONLY"
order_type_text OrderType.pegged = codes "PEGGED"
order_type_text OrderType.trailing_stop = codes "TRAILING_STOP"
order_type_text OrderType.iceberg = codes "ICEBERG"
order_type_text (OrderType.custom s) = s

pub record ExecutionIntent (F : Type 0) : Type 0 where
  pub action : TradeAction F
  pub asset : Text
  pub order_type : OrderType
  pub venue_id : Text
  pub quantity : F
  pub notional : F
  pub notional_currency : Text
  pub multiplier : F
  pub limit_price : Option F
  pub stop_price : Option F
  pub client_order_id : Text

pub record SignedHeartbeat : Type 0 where
  pub sequence_id : ℕ  -- u64
  pub timestamp_ms : ℕ  -- u64
  pub regime_id : ℕ  -- u8
  pub mta_ref : Text
  pub signature : List ℕ

-- Times are Unix milliseconds, an i64 each.
pub record CognitiveSnapshot (F : Type 0) : Type 0 where
  pub trace_id : ℕ
  pub mta_regime_id : ℕ
  pub mta_version : Text
  pub mta_hash : Text
  pub latent_fingerprint : Text
  pub feature_schema_id : Text
  pub execution : ExecutionIntent F
  pub valid_time : ℤ
  pub txn_time : ℤ
  pub heartbeat : SignedHeartbeat

pub record RegulatoryBlock : Type 0 where
  pub mifid_algo_id : Option Text
  pub mifid_decision_maker : Option Text
  pub cftc_cti_code : Option Text
  pub cftc_account_type : Option Text
  pub cat_order_id : Option Text
  pub jurisdiction : Option Text

pub record AuthorizeRequest (F : Type 0) : Type 0 where
  pub agent_id : ℕ
  pub model_hash_hex : Text
  pub model_id : Text
  pub prompt_version : Text
  pub feature_schema_id : Text
  pub hyperparameter_checksum : Text
  pub action : TradeAction F
  pub asset : Text
  pub order_type : OrderType
  pub venue_id : Text
  pub quantity : F
  pub notional : F
  pub notional_currency : Text
  pub multiplier : F
  pub limit_price : Option F
  pub stop_price : Option F
  pub client_order_id : Text
  pub agent_valid_time : ℤ
  pub heartbeat : Option SignedHeartbeat
  pub reduce_only : Bool
  pub regulatory : Option RegulatoryBlock

unfoldable pub compute_latent_fingerprint : ⦃ex : Externals⦄ → Text → Text → Text → Text → Text
compute_latent_fingerprint ⦃ex⦄ model_id prompt_version feature_schema_id hyperparameter_checksum =
    ex.hex_encode (
      ex.sha256 (
        as_bytes model_id
        ++ (as_bytes (codes "||")
            ++ (as_bytes prompt_version
                ++ (as_bytes (codes "||")
                    ++ (as_bytes feature_schema_id
                        ++ (as_bytes (codes "||") ++ as_bytes hyperparameter_checksum)))))))

pub record BiTemporalBlock : Type 0 where
  pub valid_time : ℤ
  pub txn_time : ℤ
  pub time_source : Text

pub record MtaBlock (F : Type 0) : Type 0 where
  pub regime_id : ℕ
  pub regime_label : Text
  pub risk_level : F
  pub max_notional_scale : F
  pub allowed_sides : List Text
  pub version : Text
  pub hash : Text
  pub signature_valid : Bool

pub record AgentBlock : Type 0 where
  pub agent_id : ℕ
  pub latent_fingerprint : Text
  pub feature_schema_id : Text

pub record ExecutionBlock (F : Type 0) : Type 0 where
  pub action : Text
  pub asset : Text
  pub order_type : Text
  pub venue_id : Text
  pub quantity : F
  pub notional : F
  pub notional_currency : Text
  pub multiplier : F
  pub limit_price : Option F
  pub stop_price : Option F
  pub client_order_id : Text

pub record HeartbeatBlock : Type 0 where
  pub sequence_id : ℕ
  pub signature_valid : Bool
  pub drift_ms : ℤ

pub record PolicyBlock : Type 0 where
  pub id : Text
  pub version : Text
  pub hash : Text
  pub result : Text

pub record IntegrityBlock : Type 0 where
  pub reasoning_hash : Text
  pub final_proof : Option Text
  pub verification_status : Text
  pub execution_status : Option Text

pub record ReasoningTrace (F : Type 0) : Type 0 where
  pub trace_id : ℕ
  pub version : Text
  pub bitemporal : BiTemporalBlock
  pub mta : MtaBlock F
  pub agent : AgentBlock
  pub execution : ExecutionBlock F
  pub heartbeat : HeartbeatBlock
  pub policy : PolicyBlock
  pub integrity : IntegrityBlock
  pub regulatory : Option RegulatoryBlock
