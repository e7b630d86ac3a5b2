-- ===== src/Heartbeat.antt =====
-- src/heartbeat.rs: the signed payload of a heartbeat and the validator's anti-replay state, with
-- the table irl.heartbeat_sequences behind it. A row of the table holds an i64.
pub mod Payload
pub mod Replay
pub mod Recovery
pub mod Race
use irl_engine_ax.Prelude.{
  ℕ, ℤ, pos, negsuc, ◌-ℤ◌, ltb_ℤ, wrap_i64, u64_as_i64, i64_as_u64, unsigned_abs, ◌%◌, ◌/◌, ◌^◌,
  ltb, leb, ◌==◌, Text, Bool, true, false, List, [], ◌∷◌, ◌++◌, Option, none, some, Result, ok, err,
  and_then, guard, if◌then◌else◌, as_bytes, length, lookup, insert,
}
use irl_engine_ax.Platform.{Externals}
use irl_engine_ax.Errors.{
  HeartbeatError, stale_sequence, latency_threshold_exceeded, invalid_signature,
}
use irl_engine_ax.Snapshot.{SignedHeartbeat}

-- `u64::to_be_bytes`
abbrev pub u64_to_be_bytes : ℕ → List ℕ
u64_to_be_bytes n =
    (n / 2 ^ 56 % 256)
    ∷ (n / 2 ^ 48 % 256)
    ∷ (n / 2 ^ 40 % 256)
    ∷ (n / 2 ^ 32 % 256)
    ∷ (n / 2 ^ 24 % 256)
    ∷ (n / 2 ^ 16 % 256)
    ∷ (n / 2 ^ 8 % 256)
    ∷ (n % 256)
    ∷ []

-- `SignedHeartbeat::signed_payload`
unfoldable pub signed_payload : SignedHeartbeat → List ℕ
signed_payload hb =
    u64_to_be_bytes hb.sequence_id
    ++ (u64_to_be_bytes hb.timestamp_ms ++ (hb.regime_id ∷ as_bytes hb.mta_ref))

pub record HeartbeatValidator : Type 0 where
  pub sequences : List (ℕ × ℕ)
  pub max_drift_ms : ℕ
  pub pubkey : List ℕ

-- `HeartbeatValidator::new`, at the rows that the query gave, or none if it failed.
unfoldable pub hydrate : List (ℕ × ℕ) → List (ℕ × ℤ) → List (ℕ × ℕ)
hydrate sequences [] = sequences
hydrate sequences ((agent, seq) ∷ rows) = hydrate (insert agent (i64_as_u64 seq) sequences) rows

unfoldable pub new : ℕ → List ℕ → Option (List (ℕ × ℤ)) → HeartbeatValidator
new max_drift_ms pubkey none = record {
  sequences = [];
  max_drift_ms = max_drift_ms;
  pubkey = pubkey;
}
new max_drift_ms pubkey (some rows) = record {
  sequences = hydrate [] rows;
  max_drift_ms = max_drift_ms;
  pubkey = pubkey;
}

-- INSERT … ON CONFLICT (agent_id) DO UPDATE … WHERE last_sequence < EXCLUDED.last_sequence
unfoldable pub upsert_sequence : ℕ → ℤ → List (ℕ × ℤ) → List (ℕ × ℤ)
upsert_sequence agent seq [] = (agent, seq) ∷ []
upsert_sequence agent seq ((j, last) ∷ rows) =
    let rest = upsert_sequence agent seq rows in
    if j == agent
    then (if ltb_ℤ last seq then (j, seq) ∷ rows else (j, last) ∷ rows)
    else (j, last) ∷ rest

-- `sequences.get(&agent_id).map(|r| *r).unwrap_or(0)`
abbrev pub last_sequence : HeartbeatValidator → ℕ → ℕ
last_sequence v agent = elim (lookup agent v.sequences) [ none ↦ 0 | some n ↦ n ]

-- `current_ms - hb.timestamp_ms as i64`, in wrapping arithmetic
abbrev pub drift : ℤ → SignedHeartbeat → ℤ
drift current_ms hb = wrap_i64 (current_ms -ℤ u64_as_i64 hb.timestamp_ms)

abbrev pub drift_too_large : ℤ → ℕ → Bool
drift_too_large (negsuc n) max = true
drift_too_large (pos n) max = ltb max n

-- `self.sequences.insert(agent_id, hb.sequence_id)`
unfoldable pub commit : HeartbeatValidator → SignedHeartbeat → ℕ → HeartbeatValidator
commit v hb agent = record v { sequences = insert agent hb.sequence_id v.sequences }

-- The persisted rows after a success; a failing statement is only logged.
abbrev pub persist : Bool → ℕ → SignedHeartbeat → List (ℕ × ℤ) → List (ℕ × ℤ)
persist true agent hb rows = upsert_sequence agent (u64_as_i64 hb.sequence_id) rows
persist false agent hb rows = rows

abbrev pub finish :
    HeartbeatValidator
    → List (ℕ × ℤ)
    → SignedHeartbeat
    → ℕ
    → Bool
    → Result HeartbeatError ℤ
    → Result HeartbeatError ℤ × HeartbeatValidator × List (ℕ × ℤ)
finish v rows hb agent db_up (ok d) = (ok d, commit v hb agent, persist db_up agent hb rows)
finish v rows hb agent db_up (err e) = (err e, v, rows)

module _ ⦃ex : Externals⦄ where
  unfoldable pub verify_signature :
      HeartbeatValidator → SignedHeartbeat → Result HeartbeatError (Unit {0})
  verify_signature v hb =
      and_then (guard (length hb.signature == 64) invalid_signature)
        λ _. guard (ex.ed25519_verify v.pubkey (signed_payload hb) hb.signature) invalid_signature

  -- The checks of `validate`, at the last sequence number that it read.
  unfoldable pub check : HeartbeatValidator → SignedHeartbeat → ℤ → ℕ → Result HeartbeatError ℤ
  check v hb current_ms last = and_then (verify_signature v hb) λ _.
      if leb hb.sequence_id last
      then err (stale_sequence hb.sequence_id last)
      else if drift_too_large (drift current_ms hb) v.max_drift_ms
      then err (latency_threshold_exceeded (unsigned_abs (drift current_ms hb)) v.max_drift_ms)
      else ok (drift current_ms hb)

  -- `HeartbeatValidator::validate`, one call at a time: `current_ms` is the clock's reading and
  -- `db_up` whether the upsert runs. The result, the validator and the table's rows.
  unfoldable pub validate :
      HeartbeatValidator
      → List (ℕ × ℤ)
      → SignedHeartbeat
      → ℕ
      → ℤ
      → Bool
      → Result HeartbeatError ℤ × HeartbeatValidator × List (ℕ × ℤ)
  validate v rows hb agent current_ms db_up =
      finish v rows hb agent db_up (check v hb current_ms (last_sequence v agent))
