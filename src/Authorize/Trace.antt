-- ===== src/Authorize/Trace.antt =====
-- `build_trace` of src/routes/authorize.rs.
use irl_engine_ax.Prelude.{ℕ, ℤ, pos, Text, codes, true, Option, none, some}
use irl_engine_ax.Platform.{Float64, Externals}
use irl_engine_ax.Snapshot.{
  CognitiveSnapshot, ReasoningTrace, RegulatoryBlock, action_text, order_type_text,
}
use irl_engine_ax.Config.{TimeSource, time_source_debug}
use irl_engine_ax.Mta.{MtaState}
use irl_engine_ax.Policy.{PolicyDecision, policy_result_text}

-- `timestamp_millis_opt(…).single().unwrap_or_default()`
abbrev pub time_or_epoch : ⦃ex : Externals⦄ → ℤ → ℤ
time_or_epoch ⦃ex⦄ ms = elim (ex.timestamp_millis_opt ms) [ none ↦ pos 0 | some t ↦ t ]

module _ {F : Type 0} ⦃fl : Float64 F⦄ ⦃ex : Externals⦄ where
  unfoldable pub build_trace :
      CognitiveSnapshot F
      → MtaState F
      → ℤ
      → PolicyDecision
      → Text
      → TimeSource
      → ℕ
      → Option RegulatoryBlock
      → ReasoningTrace F
  build_trace snap mta drift_ms decision reasoning_hash time_source agent_id regulatory = record {
    trace_id = snap.trace_id;
    version = codes "1.0.0";
    bitemporal = record {
      valid_time = time_or_epoch snap.valid_time;
      txn_time = time_or_epoch snap.txn_time;
      time_source = time_source_debug time_source;
    };
    mta = record {
      regime_id = mta.regime_id;
      regime_label = mta.regime_label;
      risk_level = mta.risk_level;
      max_notional_scale = mta.max_notional_scale;
      allowed_sides = mta.allowed_sides;
      version = mta.version;
      hash = mta.hash;
      signature_valid = true;
    };
    agent = record {
      agent_id = agent_id;
      latent_fingerprint = snap.latent_fingerprint;
      feature_schema_id = snap.feature_schema_id;
    };
    execution = record {
      action = action_text snap.execution.action;
      asset = snap.execution.asset;
      order_type = order_type_text snap.execution.order_type;
      venue_id = snap.execution.venue_id;
      quantity = snap.execution.quantity;
      notional = snap.execution.notional;
      notional_currency = snap.execution.notional_currency;
      multiplier = snap.execution.multiplier;
      limit_price = snap.execution.limit_price;
      stop_price = snap.execution.stop_price;
      client_order_id = snap.execution.client_order_id;
    };
    heartbeat = record {
      sequence_id = snap.heartbeat.sequence_id;
      signature_valid = true;
      drift_ms = drift_ms;
    };
    policy = record {
      id = decision.policy_id;
      version = decision.policy_version;
      hash = decision.policy_hash;
      result = policy_result_text decision.result;
    };
    integrity = record {
      reasoning_hash = reasoning_hash;
      final_proof = none;
      verification_status = codes "PENDING";
      execution_status = none;
    };
    regulatory = regulatory;
  }
