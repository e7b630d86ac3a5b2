-- ===== src/Tests/Backfills.antt =====
-- The backfill at a table of two rows, one of which is in plaintext.
use irl_engine_ax.Prelude.{ℕ, ℤ, codes, false, List, [], ◌∷◌, none, ok, ◌≡◌, refl, All}
use irl_engine_ax.Prelude.Effects.{◌>>=◌, gets, lift, modify, pure}
use irl_engine_ax.Json.{Json}
use irl_engine_ax.Encryption.{encrypt_trace, wrap_ciphertext_for_jsonb, local_generate_dek}
use irl_engine_ax.Store.{TraceRow, statement}
use irl_engine_ax.Backfill.{
  KeyedDb, Traffic, insert_by_id, sort_by_id, plaintext_batch, last_id, to_encrypt, encrypt_where,
  encrypted_json, encrypt_one_row, register_key, upsert_kms_key_metadata, encrypt_rows, run_batches,
  run_backfill, plaintext,
}
use irl_engine_ax.Backfill.Rows.{PlainAs, Steps, Steps-refl}
use irl_engine_ax.Backfill.Sealed.{run_backfill-encrypts_once}
use irl_engine_ax.Backfill.Passed.{Unlocked}
use irl_engine_ax.Backfill.Complete.{run_backfill_complete}
use irl_engine_ax.Tests.Fixtures.{plain_aead}
use irl_engine_ax.Tests.Privacy.{
  agent_bytes, test_draws, test-DrawLaws, erased_agent, row_of_agent, is_erased, only_null, is_null,
}

abbrev quiet : Traffic ℤ
quiet = record { locked = λ n x. false; others = λ n rows. rows }

abbrev stored_plain : ℕ → TraceRow ℤ
stored_plain id = record (row_of_agent id 7) {
  trace_json = record {
    stored_json = erased_agent;
    nonce_bytes = none;
    enc_dek_bytes = none;
    key_ver = none;
    enc_version = 0;
  };
}

abbrev legacy : KeyedDb ℤ
legacy = record {
  db = record { traces = stored_plain 2 ∷ stored_plain 1 ∷ []; positions = []; faults = [] };
  keys = [];
}

abbrev same_json : ℕ → Json ℤ
same_json id = erased_agent

legacy-PlainAs : All (PlainAs plain_aead agent_bytes test_draws same_json) legacy.db.traces
legacy-PlainAs = (λ h. refl, (λ h. refl, tt))

quiet-Steps :
    (n : ℕ) (rows : List (TraceRow ℤ))
    → Steps plain_aead agent_bytes test_draws rows (quiet.others n rows)
quiet-Steps n rows = Steps-refl plain_aead agent_bytes test_draws rows

run_backfill-encrypts_once_example :
    Steps plain_aead agent_bytes test_draws legacy.db.traces
      (run_backfill plain_aead agent_bytes test_draws quiet
        (codes "local")
        (codes "local")
        legacy).1.db.traces
run_backfill-encrypts_once_example =
    run_backfill-encrypts_once plain_aead agent_bytes test_draws same_json test-DrawLaws quiet
      quiet-Steps (codes "local") (codes "local") legacy legacy-PlainAs

-- The run: two rows are taken, and one key version is registered.
two_encrypted :
    let out =
      run_backfill plain_aead agent_bytes test_draws quiet (codes "local") (codes "local") legacy in
    out ≡ (ok 2, out.1)
unfolding run_backfill run_batches ◌>>=◌ gets lift modify pure statement plaintext_batch sort_by_id
    insert_by_id encrypt_rows encrypt_one_row register_key upsert_kms_key_metadata encrypted_json
    to_encrypt encrypt_where last_id encrypt_trace local_generate_dek wrap_ciphertext_for_jsonb
    is_erased only_null is_null
two_encrypted = refl

run_backfill_complete_example :
    let out =
      run_backfill plain_aead agent_bytes test_draws quiet (codes "local") (codes "local") legacy in
    All (λ x. Unlocked quiet x → plaintext x ≡ false) out.1.db.traces
run_backfill_complete_example =
    run_backfill_complete plain_aead agent_bytes test_draws same_json test-DrawLaws quiet
      quiet-Steps (codes "local") (codes "local") legacy legacy-PlainAs 2
      (run_backfill plain_aead agent_bytes test_draws quiet (codes "local") (codes "local")
        legacy).1
      two_encrypted
