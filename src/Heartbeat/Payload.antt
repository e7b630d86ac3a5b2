-- ===== src/Heartbeat/Payload.antt =====
-- The signed bytes determine the heartbeat.
use irl_engine_ax.Prelude.{
  ℕ, ◌+◌, ◌*◌, ◌<◌, ◌^◌, ◌≡◌, ap, sym, ◌∙◌, List, [], ◌∷◌, ◌++◌, arith, as_bytes, drop,
}
use irl_engine_ax.Snapshot.{SignedHeartbeat}
use irl_engine_ax.Heartbeat.{u64_to_be_bytes, signed_payload}

-- The number that the first eight bytes stand for, the highest first.
abbrev be_value : List ℕ → ℕ
be_value (a ∷ b ∷ c ∷ d ∷ e ∷ f ∷ g ∷ h ∷ rest) =
    a * 2 ^ 56 + b * 2 ^ 48 + c * 2 ^ 40 + d * 2 ^ 32 + e * 2 ^ 24 + f * 2 ^ 16 + g * 2 ^ 8 + h
be_value _ = 0

abbrev head_or_zero : List ℕ → ℕ
head_or_zero [] = 0
head_or_zero (a ∷ rest) = a

be_value-u64 : (n : ℕ) (rest : List ℕ) → n < 2 ^ 64 → be_value (u64_to_be_bytes n ++ rest) ≡ n
be_value-u64 n rest h = omega arith

-- Two heartbeats whose numbers fit their u64 fields and whose signed payloads are the same bytes
-- have the same sequence number, timestamp and regime, and the same bytes of `mta_ref`: a
-- signature over one payload attests one heartbeat.
pub signed_payload-injective :
    (a b : SignedHeartbeat)
    → a.sequence_id < 2 ^ 64
    → b.sequence_id < 2 ^ 64
    → a.timestamp_ms < 2 ^ 64
    → b.timestamp_ms < 2 ^ 64
    → signed_payload a ≡ signed_payload b
    → (a.sequence_id ≡ b.sequence_id)
      × (a.timestamp_ms ≡ b.timestamp_ms)
      × (a.regime_id ≡ b.regime_id)
      × (as_bytes a.mta_ref ≡ as_bytes b.mta_ref)
unfolding signed_payload
signed_payload-injective a b ha hb ka kb e = (
  sym (be_value-u64 a.sequence_id [] ha) ∙ ap be_value e ∙ be_value-u64 b.sequence_id [] hb,
  sym (be_value-u64 a.timestamp_ms [] ka)
      ∙ ap (λ p. be_value (drop 8 p)) e
      ∙ be_value-u64 b.timestamp_ms [] kb,
  ap (λ p. head_or_zero (drop 16 p)) e,
  ap (drop 17) e,
)
