-- ===== src/Store/Prepared.antt =====
-- What `insert_trace` and `insert_trace_atomic` are about to write.
use irl_engine_ax.Prelude.{
  ℤ, ◌≡◌, refl, sym, ok-injective, codes, Option, ok, Result-cases, Option-cases, arith, inl, inr,
}
use irl_engine_ax.Platform.{Float64, Externals}
use irl_engine_ax.Policy.{policy_result_text}
use irl_engine_ax.Encryption.{KeyProvider, StoredJson, encode_trace}
use irl_engine_ax.Store.{TraceRow, Codec, Entry, prepare_row, row_of}

module _ {F : Type 0} ⦃fl : Float64 F⦄ ⦃ex : Externals⦄ (codec : Codec F) where
  -- A prepared row is that of the entry, for some stored form and times.
  pub prepare_row-row_of :
      (kms : Option KeyProvider) (e : Entry F) (row : TraceRow F)
      → prepare_row codec kms e ≡ ok row
      → (stored : StoredJson F) × ((valid : ℤ) × ((txn : ℤ) × (row
              ≡ row_of codec e stored valid txn)))
  unfolding prepare_row
  prepare_row-row_of kms e row h = elim (Result-cases (codec.to_value e.trace)) [
    | inr (x, a) ↦ ground (arith, rw a at h)
    | inl (json, a) ↦ elim (Result-cases (encode_trace codec.aead codec.bytes kms e.nonce json)) [
      | inr (x, b) ↦ ground (arith, rw (a, b) at h)
      | inl (stored, b) ↦ elim (Option-cases (ex.timestamp_millis_opt e.snapshot.valid_time)) [
        | inl c ↦ ground (arith, rw (a, b, c) at h)
        | inr (valid, c) ↦ elim (Option-cases (ex.timestamp_millis_opt e.snapshot.txn_time)) [
          | inl d ↦ ground (arith, rw (a, b, c, d) at h)
          | inr (txn, d) ↦ (stored, (valid, (txn, ok-injective (sym (rw (a, b, c, d) at h)))))
        ]
      ]
    ]
  ]

  -- Its columns that the handlers read later.
  pub prepare_row-columns :
      (kms : Option KeyProvider) (e : Entry F) (row : TraceRow F)
      → prepare_row codec kms e ≡ ok row
      → (row.trace_id ≡ e.snapshot.trace_id)
        × ((row.verification_status ≡ codes "PENDING")
            × ((row.agent_id ≡ e.agent_id)
                × ((row.execution_notional ≡ fl.column e.snapshot.execution.notional)
                    × ((row.reasoning_hash ≡ e.reasoning_hash)
                        × (row.policy_result ≡ policy_result_text e.decision.result)))))
  unfolding row_of
  prepare_row-columns kms e row h =
      let (stored, (valid, (txn, same))) = prepare_row-row_of kms e row h in
      rw same (refl, (refl, (refl, (refl, (refl, refl)))))
