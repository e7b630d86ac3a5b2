-- ===== src/Authorize/Request.antt =====
-- What src/routes/authorize.rs reads of a request and of the shared state: the inputs, the
-- heartbeat, the order, the snapshot, and the checks of the parts that need no order of steps.
use irl_engine_ax.Prelude.{
  ℕ, ℤ, pos, i64_as_u64, ◌==◌, not, ◌&&◌, Text, text_eq, Bool, true, false, List, [], Option, none,
  some, Result, ok, err, ok_or, and_then, map_err, if◌then◌else◌, length, Action,
}
use irl_engine_ax.Platform.{Externals}
use irl_engine_ax.Errors.{
  AppError, heartbeat, policy, missing, mta_ref_mismatch, model_hash_mismatch,
}
use irl_engine_ax.Json.{Json}
use irl_engine_ax.Snapshot.{
  TradeAction, long, short, neutral, custom, ExecutionIntent, SignedHeartbeat, CognitiveSnapshot,
  AuthorizeRequest, compute_latent_fingerprint,
}
use irl_engine_ax.Config.{Config, now_ms}
use irl_engine_ax.Mta.{MtaState}
use irl_engine_ax.Heartbeat.{HeartbeatValidator, validate}
use irl_engine_ax.Registry.{Agents, AgentProfile}
use irl_engine_ax.Encryption.{KeyProvider}
use irl_engine_ax.Store.{Db, Codec}

-- The shared state that the handler reads and writes.
pub record World (F : Type 0) : Type 0 where
  pub db : Db F
  pub agents : Agents F
  pub validator : HeartbeatValidator
  pub heartbeat_rows : List (ℕ × ℤ)
  pub shadow_mode : Bool

-- What one request takes from outside. `mta` is the answer of the anchor client.
pub record Inputs (F : Type 0) : Type 0 where
  pub cert_cn : Option Text
  pub heartbeat_clock : ℤ
  pub heartbeat_db_up : Bool
  pub mta : Result (AppError F) (MtaState F)
  pub registry_up : Bool
  pub clock : ℤ
  pub trace_id : ℕ
  pub nonce : List ℕ

-- Serialisation, and the key provider if one is configured.
pub record Services (F : Type 0) : Type 0 where
  pub to_string : Json F → Result Text Text
  pub snapshot_to_value : CognitiveSnapshot F → Result Text (Json F)
  pub codec : Codec F
  pub key_provider : Option KeyProvider

pub record AuthorizeResponse : Type 0 where
  pub trace_id : ℕ
  pub reasoning_hash : Text
  pub authorized : Bool
  pub shadow_blocked : Bool

-- A statement sequence on the database, as a step of the handler.
abbrev pub on_db : {F A : Type 0} → Action (Db F) (AppError F) A → Action (World F) (AppError F) A
on_db m w = let (r, db') = m w.db in (r, record w { db = db' })

abbrev pub cert_matches : ⦃ex : Externals⦄ → Option Text → ℕ → Bool
cert_matches none agent = true
cert_matches ⦃ex⦄ (some cn) agent = text_eq cn (ex.uuid_text agent)

-- The heartbeat of the request, or the empty one of a Layer 1 agent.
abbrev pub heartbeat_of :
    {F : Type 0} → Bool → Option SignedHeartbeat → ℤ → Result (AppError F) SignedHeartbeat
heartbeat_of layer2 (some hb) valid_time = ok hb
heartbeat_of true none valid_time = err (heartbeat missing)
heartbeat_of false none valid_time = ok (record {
  sequence_id = 0;
  timestamp_ms = i64_as_u64 valid_time;
  regime_id = 0;
  mta_ref = [];
  signature = [];
})

-- The action with the request's quantity in place of its own.
unfoldable pub with_quantity : {F : Type 0} → TradeAction F → F → TradeAction F
with_quantity (long _) q = long q
with_quantity (short _) q = short q
with_quantity neutral q = neutral
with_quantity (custom s) q = custom s

unfoldable pub intent_of : {F : Type 0} → AuthorizeRequest F → ExecutionIntent F
unfolding with_quantity
intent_of req = record {
  action = with_quantity req.action req.quantity;
  asset = req.asset;
  order_type = req.order_type;
  venue_id = req.venue_id;
  quantity = req.quantity;
  notional = req.notional;
  notional_currency = req.notional_currency;
  multiplier = req.multiplier;
  limit_price = req.limit_price;
  stop_price = req.stop_price;
  client_order_id = req.client_order_id;
}

module _ {F : Type 0} ⦃ex : Externals⦄ where
  abbrev pub decode_model_hash : Text → Result (AppError F) (List ℕ)
  decode_model_hash hex =
      and_then (ok_or (ex.hex_decode hex) (policy model_hash_mismatch))
        λ bytes. if length bytes == 32 then ok bytes else err (policy model_hash_mismatch)

  unfoldable pub snapshot_of :
      Config F → Inputs F → AuthorizeRequest F → MtaState F → SignedHeartbeat → CognitiveSnapshot F
  unfolding intent_of
  snapshot_of cfg inp req mta hb = record {
    trace_id = inp.trace_id;
    mta_regime_id = mta.regime_id;
    mta_version = mta.version;
    mta_hash = mta.hash;
    latent_fingerprint =
        compute_latent_fingerprint req.model_id req.prompt_version req.feature_schema_id
          req.hyperparameter_checksum;
    feature_schema_id = req.feature_schema_id;
    execution = intent_of req;
    valid_time = req.agent_valid_time;
    txn_time = now_ms cfg.time_source inp.clock;
    heartbeat = hb;
  }

  -- Layer 2: the validator runs when it is enabled; else the drift is 0.
  unfoldable pub check_heartbeat :
      Bool → Inputs F → ℕ → SignedHeartbeat → Action (World F) (AppError F) ℤ
  check_heartbeat false inp agent hb w = (ok (pos 0), w)
  check_heartbeat true inp agent hb w =
      let (r, v, rows) =
        validate w.validator w.heartbeat_rows hb agent inp.heartbeat_clock inp.heartbeat_db_up in
      (map_err heartbeat r, record w { validator = v; heartbeat_rows = rows })

  -- L2-01: a reference that is not empty is the current anchor's hash.
  abbrev pub check_mta_ref : Bool → SignedHeartbeat → MtaState F → Result (AppError F) (Unit {0})
  check_mta_ref layer2 hb mta =
      if layer2 && not (text_eq hb.mta_ref []) && not (text_eq hb.mta_ref mta.hash)
      then err (heartbeat (mta_ref_mismatch hb.mta_ref mta.hash))
      else ok tt

-- What the gate hands on: everything that was established before the policy is asked.
pub record Cleared (F : Type 0) : Type 0 where
  pub snapshot : CognitiveSnapshot F
  pub mta : MtaState F
  pub profile : AgentProfile F
  pub drift_ms : ℤ
