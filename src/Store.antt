-- ===== src/Store.antt =====
-- src/db.rs and the tables of migrations/: the rows of irl.reasoning_traces and
-- irl.agent_positions and the statements that change and read them. A statement that the
-- database refuses is the next `true` of `faults`. Money columns are NUMERIC; what a read of them
-- gives is `fl.column` of the float that was written.
pub mod Prepared
pub mod Insertion
pub mod Ledger
use irl_engine_ax.Prelude.{
  ltb_ℤ, leb_ℤ, ◌||◌, not, ℕ, ℤ, ◌==◌, ◌&&◌, not, Text, codes, text_eq, Bool, true, false, List, [],
  ◌∷◌, ◌++◌, Option, none, some, Result, ok, err, map_err, ok_or, and_then, if◌then◌else◌, map,
  select, find, any, update_where, Action, pure, raise, lift, ◌>>=◌, ◌>>◌, u64_as_i64,
}
use irl_engine_ax.Platform.{Float64, Externals, zero, one}
use irl_engine_ax.Errors.{
  AppError, database, serialization, trace_not_found, policy, notional_exceeds_limit,
}
use irl_engine_ax.Snapshot.{CognitiveSnapshot, ReasoningTrace, action_text, order_type_text}
use irl_engine_ax.Policy.{PolicyDecision, policy_result_text}
use irl_engine_ax.Binding.{BindExecutionRequest, BindExecutionResult, verification_status_text}
use irl_engine_ax.Json.{Json, Fields, object, string, null, field, end, insert_field, get_field}
use irl_engine_ax.Encryption.{
  Aead, JsonBytes, KeyProvider, StoredJson, encode_trace, decrypt_if_needed,
}

-- A row of irl.reasoning_traces.
pub record TraceRow (F : Type 0) : Type 0 where
  pub trace_id : ℕ
  pub valid_time : ℤ
  pub txn_time : ℤ
  pub mta_regime_id : ℕ
  pub mta_version : Text
  pub mta_hash : Text
  pub latent_fingerprint : Text
  pub feature_schema_id : Text
  pub execution_action : Text
  pub execution_asset : Text
  pub client_order_id : Text
  pub execution_order_type : Text
  pub execution_venue_id : Option Text
  pub execution_quantity : F
  pub execution_notional : F
  pub execution_limit_price : Option F
  pub execution_notional_currency : Option Text
  pub execution_multiplier : Option F
  pub execution_stop_price : Option F
  pub heartbeat_seq : ℤ
  pub policy_id : Text
  pub policy_version : Text
  pub policy_hash : Text
  pub policy_result : Text
  pub reasoning_hash : Text
  pub trace_json : StoredJson F
  pub agent_id : Option ℕ
  pub mta_pubkey_used : Option Text
  pub exchange_tx_id : Option Text
  pub verification_status : Text
  pub execution_status : Option Text
  pub execution_price : Option F
  pub execution_time : Option ℤ
  pub final_proof : Option Text
  pub gdpr_erased_at : Option ℤ
  pub gdpr_request_id : Option ℕ

-- A row of irl.agent_positions.
pub record Position (F : Type 0) : Type 0 where
  pub agent_id : ℕ
  pub asset : Text
  pub venue_id : Text
  pub currency : Text
  pub net_quantity : F
  pub notional : F
  pub average_price : Option F
  pub multiplier : F
  pub last_trace_id : ℕ

pub record Db (F : Type 0) : Type 0 where
  pub traces : List (TraceRow F)
  pub positions : List (Position F)
  pub faults : List Bool

-- What the insertion takes from serde and from the cryptographic libraries.
pub record Codec (F : Type 0) : Type 0 where
  pub to_value : ReasoningTrace F → Result Text (Json F)
  pub aead : Aead
  pub bytes : JsonBytes F

-- What one insertion stores: the arguments of `insert_trace`, with the nonce that is drawn.
pub record Entry (F : Type 0) : Type 0 where
  pub snapshot : CognitiveSnapshot F
  pub reasoning_hash : Text
  pub decision : PolicyDecision
  pub trace : ReasoningTrace F
  pub agent_id : Option ℕ
  pub nonce : List ℕ
  pub mta_pubkey_used : Option Text

abbrev pub same_time : ℤ → ℤ → Bool
same_time a b = not (ltb_ℤ a b || ltb_ℤ b a)

module _ {F : Type 0} where
  abbrev pub take_fault : List Bool → Db F → Result (AppError F) (Unit {0}) × Db F
  take_fault [] db = (ok tt, db)
  take_fault (true ∷ fs) db = (err database, record db { faults = fs })
  take_fault (false ∷ fs) db = (ok tt, record db { faults = fs })

  -- One statement is sent: the database runs it or fails.
  unfoldable pub statement : Action (Db F) (AppError F) (Unit {0})
  statement db = take_fault db.faults db

  -- The primary key (trace_id, txn_time), and the check that valid_time < txn_time.
  abbrev pub conflicts : TraceRow F → TraceRow F → Bool
  conflicts new old = new.trace_id == old.trace_id && same_time new.txn_time old.txn_time

  abbrev pub violates : TraceRow F → List (TraceRow F) → Bool
  violates row rows = any (conflicts row) rows || leb_ℤ row.txn_time row.valid_time

  unfoldable pub insert_row : TraceRow F → Action (Db F) (AppError F) (Unit {0})
  insert_row row db =
      if violates row db.traces
      then (err database, db)
      else (ok tt, record db { traces = row ∷ db.traces })

  -- PENDING rows of an agent.
  abbrev pub pending_of : ℕ → TraceRow F → Bool
  pending_of agent row = elim row.agent_id [
    | none ↦ false
    | some a ↦ a == agent && text_eq row.verification_status (codes "PENDING")
  ]

  abbrev pub notional_of : TraceRow F → F
  notional_of row = row.execution_notional

module _ {F : Type 0} ⦃fl : Float64 F⦄ where
  abbrev pub column_opt : Option F → Option F
  column_opt none = none
  column_opt (some x) = some (fl.column x)

  -- COALESCE(SUM(execution_notional), 0.0)::float8 over them
  abbrev pub pending_sum : ℕ → Db F → F
  pending_sum agent db = fl.sum (map notional_of (select (pending_of agent) db.traces))

  unfoldable pub get_pending_notional : ℕ → Action (Db F) (AppError F) F
  get_pending_notional agent = statement >> λ db. (ok (pending_sum agent db), db)

module _ {F : Type 0} ⦃fl : Float64 F⦄ ⦃ex : Externals⦄ (codec : Codec F) where
  -- The values that the INSERT binds, with the defaults of the columns that it leaves out.
  unfoldable pub row_of : Entry F → StoredJson F → ℤ → ℤ → TraceRow F
  row_of e stored valid_time txn_time = record {
    trace_id = e.snapshot.trace_id;
    valid_time = valid_time;
    txn_time = txn_time;
    mta_regime_id = e.snapshot.mta_regime_id;
    mta_version = e.snapshot.mta_version;
    mta_hash = e.snapshot.mta_hash;
    latent_fingerprint = e.snapshot.latent_fingerprint;
    feature_schema_id = e.snapshot.feature_schema_id;
    execution_action = action_text e.snapshot.execution.action;
    execution_asset = e.snapshot.execution.asset;
    client_order_id = e.snapshot.execution.client_order_id;
    execution_order_type = order_type_text e.snapshot.execution.order_type;
    execution_venue_id = some e.snapshot.execution.venue_id;
    execution_quantity = fl.column e.snapshot.execution.quantity;
    execution_notional = fl.column e.snapshot.execution.notional;
    execution_limit_price = column_opt e.snapshot.execution.limit_price;
    execution_notional_currency = some e.snapshot.execution.notional_currency;
    execution_multiplier = some (fl.column e.snapshot.execution.multiplier);
    execution_stop_price = column_opt e.snapshot.execution.stop_price;
    heartbeat_seq = u64_as_i64 e.snapshot.heartbeat.sequence_id;
    policy_id = e.decision.policy_id;
    policy_version = e.decision.policy_version;
    policy_hash = e.decision.policy_hash;
    policy_result = policy_result_text e.decision.result;
    reasoning_hash = e.reasoning_hash;
    trace_json = stored;
    agent_id = e.agent_id;
    mta_pubkey_used = e.mta_pubkey_used;
    exchange_tx_id = none;
    verification_status = codes "PENDING";
    execution_status = none;
    execution_price = none;
    execution_time = none;
    final_proof = none;
    gdpr_erased_at = none;
    gdpr_request_id = none;
  }

  -- The row that is to be written, or the failure before the INSERT is sent.
  unfoldable pub prepare_row : Option KeyProvider → Entry F → Result (AppError F) (TraceRow F)
  prepare_row key_provider e =
      and_then (map_err serialization (codec.to_value e.trace)) λ trace_json.
        and_then (encode_trace codec.aead codec.bytes key_provider e.nonce trace_json) λ stored.
          and_then
            (ok_or (ex.timestamp_millis_opt e.snapshot.valid_time)
              (serialization (codes "invalid valid_time timestamp")))
            λ valid_time.
              and_then
                (ok_or (ex.timestamp_millis_opt e.snapshot.txn_time)
                  (serialization (codes "invalid txn_time timestamp")))
                λ txn_time. ok (row_of e stored valid_time txn_time)

  unfoldable pub insert_trace : Option KeyProvider → Entry F → Action (Db F) (AppError F) (Unit {0})
  insert_trace key_provider e =
      lift (prepare_row key_provider e) >>= λ row. statement >> insert_row row
