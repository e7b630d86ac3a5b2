-- ===== src/Authorize.antt =====
-- src/routes/authorize.rs: the handler of POST /irl/authorize and the trace that it builds. What
-- one request reads from outside (certificate, clocks, the anchor client's answer, the fresh id
-- and nonce, whether the side queries run) is an argument; metrics and logs are left out.
pub mod Request
pub mod Trace
pub mod Gate
pub mod Decision
pub mod Halt
unfoldable pub use Request.*
use irl_engine_ax.Prelude.{
  ℕ, ℤ, pos, i64_as_u64, ◌==◌, not, ◌&&◌, Text, codes, text_eq, Bool, true, false, List, [], Option,
  none, some, Result, ok, err, ok_or, and_then, map_err, guard, if◌then◌else◌, length, Action, pure,
  raise, lift, check, ◌>>=◌, ◌>>◌,
}
use irl_engine_ax.Platform.{Float64, Externals}
use irl_engine_ax.Errors.{
  AppError, HeartbeatError, heartbeat, policy, forbidden, missing, mta_ref_mismatch,
  model_hash_mismatch,
}
use irl_engine_ax.Json.{Json}
use irl_engine_ax.Snapshot.{
  TradeAction, long, short, neutral, custom, ExecutionIntent, SignedHeartbeat, CognitiveSnapshot,
  AuthorizeRequest, compute_latent_fingerprint,
}
use irl_engine_ax.Config.{Config, now_ms}
use irl_engine_ax.Mta.{MtaState}
use irl_engine_ax.Heartbeat.{HeartbeatValidator, validate}
use irl_engine_ax.Registry.{Agents, AgentProfile, authorize_agent}
use irl_engine_ax.Policy.{
  PolicyDecision, PolicyResult, shadow_halted, enforce, evaluate, effective_cap,
}
use irl_engine_ax.Seal.{verify_bitemporal, seal}
use irl_engine_ax.Encryption.{KeyProvider}
use irl_engine_ax.Store.{Db, Codec, Entry, insert_trace}
use irl_engine_ax.Store.Insertion.{insert_trace_atomic}
use irl_engine_ax.Authorize.Trace.{build_trace}

-- The handler up to the bitemporal check, in the order of its steps: each continues with what the
-- ones before it found.
module _ {F : Type 0} ⦃ex : Externals⦄ (cfg : Config F) (inp : Inputs F)
    (req : AuthorizeRequest F) where
  unfoldable pub with_profile :
      SignedHeartbeat → ℤ → MtaState F → AgentProfile F → Action (World F) (AppError F) (Cleared F)
  with_profile hb drift_ms mta profile =
      lift (verify_bitemporal (snapshot_of cfg inp req mta hb))
      >> pure (record {
        snapshot = snapshot_of cfg inp req mta hb;
        mta = mta;
        profile = profile;
        drift_ms = drift_ms;
      })

  abbrev pub identify : MtaState F → List ℕ → Action (World F) (AppError F) (AgentProfile F)
  identify mta model_hash w = (
    authorize_agent inp.registry_up w.agents req.agent_id model_hash mta.regime_id
        mta.pubkey_fingerprint,
    w,
  )

  unfoldable pub with_model :
      SignedHeartbeat → ℤ → MtaState F → List ℕ → Action (World F) (AppError F) (Cleared F)
  unfolding with_profile
  with_model hb drift_ms mta model_hash = identify mta model_hash >>= with_profile hb drift_ms mta

  unfoldable pub with_reference :
      SignedHeartbeat → ℤ → MtaState F → Action (World F) (AppError F) (Cleared F)
  unfolding with_model
  with_reference hb drift_ms mta =
      lift (decode_model_hash req.model_hash_hex) >>= with_model hb drift_ms mta

  unfoldable pub with_anchor :
      SignedHeartbeat → ℤ → MtaState F → Action (World F) (AppError F) (Cleared F)
  unfolding with_reference
  with_anchor hb drift_ms mta =
      lift (check_mta_ref cfg.layer2_enabled hb mta) >> with_reference hb drift_ms mta

  unfoldable pub with_drift : SignedHeartbeat → ℤ → Action (World F) (AppError F) (Cleared F)
  unfolding with_anchor
  with_drift hb drift_ms = lift inp.mta >>= with_anchor hb drift_ms

  unfoldable pub with_heartbeat : SignedHeartbeat → Action (World F) (AppError F) (Cleared F)
  unfolding with_drift
  with_heartbeat hb = check_heartbeat cfg.layer2_enabled inp req.agent_id hb >>= with_drift hb

  unfoldable pub clear : Action (World F) (AppError F) (Cleared F)
  unfolding with_heartbeat
  clear =
      check (cert_matches inp.cert_cn req.agent_id) forbidden
      >> (lift (heartbeat_of cfg.layer2_enabled req.heartbeat req.agent_valid_time)
          >>= with_heartbeat)

-- `let _ = …`: the failure is dropped, what was written stays.
abbrev pub ignore {ℓ κ} : {S : Type ℓ} {E : Type κ} → Action S E (Unit {0}) → Action S E (Unit {0})
ignore m s = (ok tt, (m s).1)

module _ {F : Type 0} ⦃fl : Float64 F⦄ ⦃ex : Externals⦄ (cfg : Config F)
    (services : Services F) where
  abbrev pub seal_snapshot : CognitiveSnapshot F → Result (AppError F) Text
  seal_snapshot = seal services.to_string services.snapshot_to_value

  abbrev pub entry_of : Inputs F → AuthorizeRequest F → Cleared F → PolicyDecision → Text → Entry F
  entry_of inp req c decision reasoning_hash = record {
    snapshot = c.snapshot;
    reasoning_hash = reasoning_hash;
    decision = decision;
    trace =
        build_trace c.snapshot c.mta c.drift_ms decision reasoning_hash cfg.time_source req.agent_id
          req.regulatory;
    agent_id = some req.agent_id;
    nonce = inp.nonce;
    mta_pubkey_used = some c.mta.pubkey_fingerprint;
  }

  abbrev pub portfolio_check : AuthorizeRequest F → Cleared F → Bool → Option (F × Text)
  portfolio_check req c shadow_blocked =
      if not req.reduce_only && not shadow_blocked
      then some (effective_cap c.mta c.profile.max_notional, c.mta.regime_label)
      else none

  -- Lines 243 to 293: the trace is sealed and inserted, and the response is made.
  unfoldable pub commit_trace :
      Inputs F
      → AuthorizeRequest F
      → Cleared F
      → PolicyDecision
      → Bool
      → Action (World F) (AppError F) AuthorizeResponse
  commit_trace inp req c decision shadow_blocked =
      lift (seal_snapshot c.snapshot) >>= λ reasoning_hash.
      on_db (
        insert_trace_atomic services.codec services.key_provider
          (portfolio_check req c shadow_blocked) (entry_of inp req c decision reasoning_hash))
      >> pure (record {
        trace_id = c.snapshot.trace_id;
        reasoning_hash = reasoning_hash;
        authorized = true;
        shadow_blocked = shadow_blocked;
      })

  abbrev pub evaluated : AuthorizeRequest F → Cleared F → PolicyDecision
  evaluated req c =
      evaluate c.mta (with_quantity req.action req.quantity) req.notional c.profile.max_notional
        req.reduce_only

  -- Lines 199 to 238: the halted trace is inserted and the violation returned.
  unfoldable pub halt_trace :
      Inputs F
      → AuthorizeRequest F
      → Cleared F
      → AppError F
      → Action (World F) (AppError F) AuthorizeResponse
  halt_trace inp req c e = lift (seal_snapshot c.snapshot) >>= λ reasoning_hash.
      ignore (
        on_db (
          insert_trace services.codec services.key_provider
            (entry_of inp req c (evaluated req c) reasoning_hash)))
      >> raise e

  -- The two ways to go on after a refusal, by the shadow switch.
  unfoldable pub refuse :
      Inputs F
      → AuthorizeRequest F
      → Cleared F
      → AppError F
      → Bool
      → Action (World F) (AppError F) AuthorizeResponse
  refuse inp req c e true =
      commit_trace inp req c (record (evaluated req c) { result = shadow_halted }) true
  refuse inp req c e false = halt_trace inp req c e

  unfoldable pub decide :
      Inputs F
      → AuthorizeRequest F
      → Cleared F
      → Result (AppError F) PolicyDecision
      → Action (World F) (AppError F) AuthorizeResponse
  unfolding refuse
  decide inp req c (ok decision) w = commit_trace inp req c decision false w
  decide inp req c (err e) w = refuse inp req c e w.shadow_mode w

  abbrev pub enforced : AuthorizeRequest F → Cleared F → Result (AppError F) PolicyDecision
  enforced req c =
      enforce c.mta (with_quantity req.action req.quantity) req.notional c.profile.max_notional
        req.reduce_only

  unfoldable pub authorize :
      Inputs F → AuthorizeRequest F → Action (World F) (AppError F) AuthorizeResponse
  unfolding decide clear
  authorize inp req = clear cfg inp req >>= λ c. decide inp req c (enforced req c)
