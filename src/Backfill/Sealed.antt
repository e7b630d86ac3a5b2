-- ===== src/Backfill/Sealed.antt =====
-- A run of the backfill keeps what every row says: the UPDATE, the batch, the loop.
use irl_engine_ax.Prelude.{
  ℕ, ℤ, zero, suc, ◌+◌, ◌==◌, Bool, true, Text, List, [], ◌∷◌, Option, none, some, ◌≡◌, arith,
  Bool-cases, inl, inr, length, All, any, ==_iff,
}
use irl_engine_ax.Prelude.Effects.{gets, modify}
use irl_engine_ax.Json.{Json}
use irl_engine_ax.Encryption.{Aead, JsonBytes}
use irl_engine_ax.Store.{TraceRow, statement}
use irl_engine_ax.Gdpr.{Draws}
use irl_engine_ax.Gdpr.Rows.{DrawLaws}
use irl_engine_ax.Backfill.{
  KeyedDb, Traffic, on_db, upsert_kms_key_metadata, waiting, plaintext_batch, last_id,
  change_traces, encrypt_where, affected, encrypted_json, encrypt_one_row, register_key,
  same_version, encrypt_rows, run_batches, run_backfill,
}
use irl_engine_ax.Backfill.Rows.{Steps, Steps-refl, PlainAs, encrypt_where-Steps}
use irl_engine_ax.Backfill.Cursor.{batch-All}
use irl_engine_ax.Backfill.Seals.{
  Seals, Seals-pure, Seals-gets, Seals-modify, Seals-statement, Seals-bind, Seals-gets-bind,
  Seals-lift-bind,
}

module _ {F : Type 0} (aead : Aead) (bytes : JsonBytes F) (draws : Draws)
    (json_of : ℕ → Json F) where
  -- A row of a batch carries the plaintext of its trace.
  abbrev pub Taken : TraceRow F → Type 0
  Taken r = r.trace_json.stored_json ≡ json_of r.trace_id

  waiting-Taken :
      (locked : TraceRow F → Bool) (cursor : Option ℕ) (rows : List (TraceRow F))
      → All (PlainAs aead bytes draws json_of) rows
      → All (λ x. waiting locked cursor x ≡ true → Taken x) rows
  waiting-Taken locked cursor [] p = tt
  waiting-Taken locked cursor (x ∷ rows) (p, ps) = (
    λ e. p (ground (arith, e, ==_iff x.trace_json.enc_version 0)),
    waiting-Taken locked cursor rows ps,
  )

  pub batch-Taken :
      (locked : TraceRow F → Bool) (cursor : Option ℕ) (s : KeyedDb F)
      → All (PlainAs aead bytes draws json_of) s.db.traces
      → All Taken (plaintext_batch locked cursor s)
  batch-Taken locked cursor s p =
      batch-All Taken locked cursor s (waiting-Taken locked cursor s.db.traces p)

  module _ (laws : DrawLaws aead bytes draws) (traffic : Traffic F)
      (others_seal : (n : ℕ) (rows : List (TraceRow F))
        → Steps aead bytes draws rows (traffic.others n rows))
      (provider_name path : Text) where
    pub encrypt_one_row-Seals :
        (n : ℕ) (r : TraceRow F)
        → Taken r
        → Seals aead bytes draws json_of
            (encrypt_one_row aead bytes draws traffic provider_name path n r)
    unfolding encrypt_one_row
    encrypt_one_row-Seals n r t =
        Seals-lift-bind aead bytes draws json_of
          (encrypted_json aead bytes draws n r.trace_json.stored_json) _
          λ a made.
            Seals-bind aead bytes draws json_of (modify (change_traces (traffic.others n))) _
              (Seals-modify aead bytes draws json_of (change_traces (traffic.others n))
                (λ s p. others_seal n s.db.traces))
              λ _.
                Seals-bind aead bytes draws json_of (on_db statement) _
                  (Seals-statement aead bytes draws json_of)
                  λ _.
                    Seals-bind aead bytes draws json_of (gets (affected r.trace_id a.1)) _
                      (Seals-gets aead bytes draws json_of (affected r.trace_id a.1))
                      λ key_version.
                        Seals-bind aead bytes draws json_of
                          (modify (change_traces (encrypt_where r.trace_id a.0))) _
                          (Seals-modify aead bytes draws json_of
                            (change_traces (encrypt_where r.trace_id a.0))
                            λ s p.
                              encrypt_where-Steps aead bytes draws json_of laws n r a.0 a.1 made t
                                s.db.traces p)
                          λ _. Seals-pure aead bytes draws json_of key_version

    pub register_key-Seals :
        (registered : List ℤ) (kv : Option ℤ)
        → Seals aead bytes draws json_of
            (register_key aead bytes draws traffic provider_name path registered kv)
    unfolding register_key upsert_kms_key_metadata
    register_key-Seals registered none = Seals-pure aead bytes draws json_of registered
    register_key-Seals registered (some kv) = elim (Bool-cases (any (same_version kv) registered)) [
      | inl e ↦ rw e (Seals-pure aead bytes draws json_of registered)
      | inr e ↦ rw e (
          Seals-bind aead bytes draws json_of (upsert_kms_key_metadata kv provider_name path) _
            (Seals-bind aead bytes draws json_of (on_db statement) _
              (Seals-statement aead bytes draws json_of)
              λ _.
                Seals-modify aead bytes draws json_of _
                  (λ s p. Steps-refl aead bytes draws s.db.traces))
            λ _. Seals-pure aead bytes draws json_of (kv ∷ registered))
    ]

    pub encrypt_rows-Seals :
        (rows : List (TraceRow F))
        → All Taken rows
        → (n : ℕ) (registered : List ℤ)
        → Seals aead bytes draws json_of
            (encrypt_rows aead bytes draws traffic provider_name path rows n registered)
    unfolding encrypt_rows
    encrypt_rows-Seals [] t n registered = Seals-pure aead bytes draws json_of registered
    encrypt_rows-Seals (r ∷ rows) (t, ts) n registered =
        Seals-bind aead bytes draws json_of _ _
          (Seals-bind aead bytes draws json_of _ _ (encrypt_one_row-Seals n r t)
            (register_key-Seals registered))
          (encrypt_rows-Seals rows ts (n + 1))

    pub run_batches-Seals :
        (fuel total : ℕ) (cursor : Option ℕ) (registered : List ℤ)
        → Seals aead bytes draws json_of
            (run_batches aead bytes draws traffic provider_name path fuel total cursor registered)
    unfolding run_batches
    run_batches-Seals zero total cursor registered = Seals-pure aead bytes draws json_of total
    run_batches-Seals (suc fuel) total cursor registered =
        Seals-bind aead bytes draws json_of (on_db statement) _
          (Seals-statement aead bytes draws json_of)
          λ _.
            Seals-gets-bind aead bytes draws json_of (plaintext_batch (traffic.locked total) cursor)
              _
              λ s p.
                let rows = plaintext_batch (traffic.locked total) cursor s in
                elim (Bool-cases (length rows == 0)) [
                  | inl e ↦ rw e (Seals-pure aead bytes draws json_of total)
                  | inr e ↦ rw e (
                      Seals-bind aead bytes draws json_of
                        (encrypt_rows aead bytes draws traffic provider_name path rows total
                          registered)
                        _
                        (encrypt_rows-Seals rows (batch-Taken (traffic.locked total) cursor s p)
                          total registered)
                        (run_batches-Seals fuel (total + length rows) (last_id rows)))
                ]

    -- Every row of the table is as it was before a run of the backfill, or it was plaintext, is now
    -- marked as encrypted, reads as the JSON that it held, and differs in no other column: whatever
    -- rows are locked, whatever statement fails, and however another writer that does no more than
    -- this encrypts rows between the statements, so that no row is encrypted twice. The rows of a
    -- trace that are in plaintext hold the same JSON, and the encryption keeps its laws.
    pub run_backfill-encrypts_once :
        (s : KeyedDb F)
        → All (PlainAs aead bytes draws json_of) s.db.traces
        → Steps aead bytes draws s.db.traces
            (run_backfill aead bytes draws traffic provider_name path s).1.db.traces
    unfolding run_backfill
    run_backfill-encrypts_once s p = (run_batches-Seals (suc (length s.db.traces)) 0 none []).at s p
