-- ===== src/Tests/Parts.antt =====
-- Heartbeats, policy, anchor, registry and rate limit at concrete inputs.
use irl_engine_ax.Prelude.{
  err, some, ℕ, ℤ, pos, ◌+ℤ◌, ◌-ℤ◌, wrap_i64, u64_as_i64, ◌+◌, ◌≤◌, arith, codes, true, false, List,
  [], ◌∷◌, ◌++◌, none, some, ok, err, ◌≡◌, refl, ◌⊎◌, ◌↔◌, find, All, as_bytes, trim,
  to_ascii_lowercase,
}
use irl_engine_ax.Errors.{AppError, policy, regime_violation}
use irl_engine_ax.Json.{null}
use irl_engine_ax.Snapshot.{
  long, short, custom, direction, action_text, resolve_custom_direction, custom_keywords,
  SignedHeartbeat,
}
use irl_engine_ax.Mta.{MtaState, Wire, RawMtaResponse, CachedMta, regime_constraints}
use irl_engine_ax.Mta.Breaker.{FetchCall, Answered, fetches, fetches-attested, ResultIsAttested}
use irl_engine_ax.Heartbeat.{HeartbeatValidator, check, verify_signature, signed_payload}
use irl_engine_ax.Heartbeat.Replay.{Call, Increasing, accepted, accepted-Increasing}
use irl_engine_ax.Heartbeat
use irl_engine_ax.Heartbeat.Race.{Shared, Reach, both_accepted, idle, finished}
use irl_engine_ax.Heartbeat.Payload.{signed_payload-injective}
use irl_engine_ax.Policy.{
  enforce, evaluate, decision_of, allowed, halted, side_allowed, policy_id_const,
  policy_version_const,
}
use irl_engine_ax.Policy.Limits.{enforce_iff, enforce-evaluate}
use irl_engine_ax.Policy.Sides.{enforce-unknown}
use irl_engine_ax.Registry.{authorize_agent, is_agent}
use irl_engine_ax.Registry.Identity.{authorize_agent_iff, MayAct}
use irl_engine_ax.RateLimit.{new}
use irl_engine_ax.RateLimit.Window.{passed, spent, passed-limit}
use irl_engine_ax.Tests.Fixtures.{whole, outside, validator, long_only, test_agent, bytes_32}

abbrev signature_64 : List ℕ
signature_64 = bytes_32 ++ bytes_32

abbrev beat : ℕ → SignedHeartbeat
beat n = record {
  sequence_id = n;
  timestamp_ms = 1990;
  regime_id = 0;
  mta_ref = [];
  signature = signature_64;
}

abbrev call : ℕ → Call
call n = record { hb = beat n; agent = 7; now = pos 2000; db_up = true }

accepted-Increasing_example :
    Increasing 0 (accepted ⦃ex = outside⦄ validator [] 7 (call 1 ∷ call 1 ∷ call 3 ∷ call 2 ∷ []))
accepted-Increasing_example =
    accepted-Increasing ⦃ex = outside⦄ validator [] 7 (call 1 ∷ call 1 ∷ call 3 ∷ call 2 ∷ [])

-- A validator that was built from a table with the agent's row, and a number of 2^63.
abbrev hydrated : List (ℕ × ℤ) → HeartbeatValidator
hydrated rows = Heartbeat.new validator.max_drift_ms validator.pubkey (some rows)

abbrev old_row : List (ℕ × ℤ)
old_row = (7, pos 5) ∷ []

both_accepted_example :
    (t : Shared) × Reach ⦃ex = outside⦄
      (beat 1)
      7
      (pos 2000)
      (record { validator = validator; first = idle; second = idle })
      t
    × (t.first ≡ finished (ok (pos 10)))
    × (t.second ≡ finished (ok (pos 10)))
unfolding check verify_signature signed_payload wrap_i64 u64_as_i64 ◌-ℤ◌ ◌+ℤ◌
both_accepted_example = both_accepted ⦃ex = outside⦄ (beat 1) 7 (pos 2000) validator (pos 10) refl

signed_payload-injective_example :
    ((beat 1).sequence_id ≡ 1)
    × ((beat 1).timestamp_ms ≡ 1990)
    × ((beat 1).regime_id ≡ 0)
    × (as_bytes (beat 1).mta_ref ≡ as_bytes [])
unfolding signed_payload
signed_payload-injective_example =
    signed_payload-injective (beat 1) (record (beat 1) { signature = [] }) (omega arith)
      (omega arith) (omega arith) (omega arith) refl

enforce_iff_example :
    (enforce ⦃fl = whole⦄ ⦃ex = outside⦄ long_only (long (pos 2)) (pos 100) (pos 1000) false
      ≡ ok (decision_of ⦃fl = whole⦄ ⦃ex = outside⦄ long_only allowed))
    ↔ (((false ≡ true) ⊎ (side_allowed ⦃fl = whole⦄ long_only (long (pos 2)) ≡ true))
        × (whole.gt (pos 100) (whole.mul (pos 1000) (pos 1)) ≡ false))
enforce_iff_example =
    enforce_iff ⦃fl = whole⦄ ⦃ex = outside⦄ long_only (long (pos 2)) (pos 100) (pos 1000) false

enforce-evaluate_example :
    let r =
      enforce ⦃fl = whole⦄ ⦃ex = outside⦄ long_only (short (pos 2)) (pos 100) (pos 1000) false in
    let d =
      evaluate ⦃fl = whole⦄ ⦃ex = outside⦄ long_only (short (pos 2)) (pos 100) (pos 1000) false in
    ((r ≡ ok d) × (d.result ≡ allowed)) ⊎ ((e : AppError ℤ) × (r ≡ err e) × (d.result ≡ halted))
enforce-evaluate_example =
    enforce-evaluate ⦃fl = whole⦄ ⦃ex = outside⦄ long_only (short (pos 2)) (pos 100) (pos 1000)
      false

abbrev expansion : MtaState ℤ
expansion = record long_only { allowed_sides = codes "long" ∷ codes "short" ∷ codes "neutral" ∷ [] }

enforce-unknown_example :
    enforce ⦃fl = whole⦄ ⦃ex = outside⦄ expansion (custom (codes "foo")) (pos 1) (pos 1000) false
    ≡ err (
        policy (
          regime_violation
            (action_text ⦃fl = whole⦄ (custom (codes "foo")))
            (codes "EXPANSION")
            policy_id_const
            policy_version_const))
unfolding regime_constraints direction resolve_custom_direction custom_keywords trim
    to_ascii_lowercase
enforce-unknown_example =
    enforce-unknown ⦃fl = whole⦄ ⦃ex = outside⦄ expansion 0 (custom (codes "foo")) (pos 1)
      (pos 1000) refl refl

authorize_agent_iff_example :
    (authorize_agent ⦃ex = outside⦄ true (test_agent ∷ []) 7 bytes_32 0 (codes "k") ≡ ok test_agent)
    ↔ ((find (is_agent 7) (test_agent ∷ []) ≡ some test_agent)
        × MayAct ⦃ex = outside⦄ test_agent bytes_32 0 (codes "k"))
authorize_agent_iff_example =
    authorize_agent_iff ⦃ex = outside⦄ (test_agent ∷ []) 7 test_agent bytes_32 0 (codes "k")

passed-limit_example :
    passed ℤ (codes "t") 9 (codes "t" ∷ codes "u" ∷ codes "t" ∷ codes "t" ∷ []) (new 2)
      + spent (new 2) (codes "t") 9
    ≤ (new 2).max_per_second
unfolding new
passed-limit_example =
    passed-limit ℤ (codes "t") 9 (codes "t" ∷ codes "u" ∷ codes "t" ∷ codes "t" ∷ []) (new 2)
      (λ e. ground (arith, e)) (omega arith)

abbrev raw_response : RawMtaResponse
raw_response = record {
  regime_id = 0;
  macro_regime = codes "EXPANSION";
  version = none;
  broadcast_time = pos 0;
  signature = signature_64;
}

abbrev test_wire : Wire ℤ
test_wire = record {
  raw_from_slice = λ b. ok raw_response;
  value_from_slice = λ b. ok null;
  to_string = λ v. ok (codes "x");
  base64_decode = λ t. some t;
}

abbrev two_calls : List FetchCall
two_calls = (0, 1, ok (codes "body")) ∷ (5, 6, err (codes "down")) ∷ []

fetches-attested_example :
    All
      (ResultIsAttested ⦃fl = whole⦄ ⦃ex = outside⦄ test_wire [] (Answered two_calls))
      (fetches ⦃fl = whole⦄ ⦃ex = outside⦄ test_wire [] none two_calls)
fetches-attested_example = fetches-attested ⦃fl = whole⦄ ⦃ex = outside⦄ test_wire [] two_calls

abbrev old_cache : CachedMta ℤ
old_cache = record { state = long_only; fetched_at = 0 }
