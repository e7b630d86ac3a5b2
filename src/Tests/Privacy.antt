-- ===== src/Tests/Privacy.antt =====
-- The erasure of an agent's personal fields at a table of two rows.
use irl_engine_ax.Prelude.{
  ℕ, ℤ, pos, ◌&&◌, Text, codes, text_eq, text_eq→eq, Bool, true, false, List, [], ◌∷◌, none, some,
  ok, err, if◌then◌else◌, ◌≡◌, refl, sym, ap, arith, Pairwise, count_where, Bool-cases, inl, inr,
}
use irl_engine_ax.Prelude.Effects.{◌>>=◌, gets, lift, modify, pure}
use irl_engine_ax.Json.{Json, Fields, object, string, null, field, end, bool, int, real, array}
use irl_engine_ax.Encryption.{
  JsonBytes, StoredJson, LocalDevProvider, decrypt_if_needed, encode_trace, encrypt_trace,
  wrap_ciphertext_for_jsonb, local_generate_dek, local_decrypt_dek,
}
use irl_engine_ax.Encryption.RoundTrip.{local_provider-KeyLaw}
use irl_engine_ax.Store.{Db, TraceRow, statement}
use irl_engine_ax.Gdpr.Ordered.{ReadsTable}
use irl_engine_ax.Gdpr.{
  Source, Draws, of_agent, erase_batches, sort_by_time, erase_rows, erased_json, null_pii_fields,
  gdpr_erase_agent,
}
use irl_engine_ax.Gdpr.Rows.{DrawLaws, Step}
use irl_engine_ax.Gdpr.Erasure.{Unique, ErasedFor, gdpr_erase_agent-erases}
use irl_engine_ax.Tests.Fixtures.{plain_aead, plain_laws, bytes_12, bytes_32}

unfoldable pub is_null : Json ℤ → Bool
is_null null = true
is_null _ = false

is_null-null : (j : Json ℤ) → is_null j ≡ true → j ≡ null
unfolding is_null
is_null-null null h = refl
is_null-null (bool b) h = ground arith
is_null-null (int n) h = ground arith
is_null-null (real x) h = ground arith
is_null-null (string s) h = ground arith
is_null-null (array xs) h = ground arith
is_null-null (object fs) h = ground arith

abbrev nulls : List Text → Fields ℤ
nulls [] = end
nulls (k ∷ ks) = field k null (nulls ks)

unfoldable pub only_null : List Text → Fields ℤ → Bool
only_null [] end = true
only_null [] (field j v fs) = false
only_null (k ∷ ks) end = false
only_null (k ∷ ks) (field j v fs) = text_eq j k && (is_null v && only_null ks fs)

only_null-nulls : (ks : List Text) (fs : Fields ℤ) → only_null ks fs ≡ true → fs ≡ nulls ks
unfolding only_null
only_null-nulls [] end h = refl
only_null-nulls [] (field j v fs) h = ground arith
only_null-nulls (k ∷ ks) end h = ground arith
only_null-nulls (k ∷ ks) (field j v fs) h =
    ground (arith, text_eq→eq j k, is_null-null v, only_null-nulls ks fs)

abbrev personal : List Text
personal = codes "agent_id" ∷ codes "latent_fingerprint" ∷ codes "feature_schema_id" ∷ []

-- A codec of one value: an agent whose three personal fields are null.
abbrev pub erased_agent : Json ℤ
erased_agent = object (field (codes "agent") (object (nulls personal)) end)

unfoldable pub is_erased : Json ℤ → Bool
is_erased (object (field k (object fs) end)) = text_eq k (codes "agent") && only_null personal fs
is_erased _ = false

is_erased-erased : (j : Json ℤ) → is_erased j ≡ true → j ≡ erased_agent
unfolding is_erased
is_erased-erased (object (field k (object fs) end)) h =
    ground (arith, text_eq→eq k (codes "agent"), only_null-nulls personal fs)
is_erased-erased _ h = ground arith

abbrev pub agent_bytes : JsonBytes ℤ
agent_bytes = record {
  to_vec = λ j. (if is_erased j then ok (1 ∷ []) else err (codes "not the erased agent"));
  from_slice = λ b. ok erased_agent;
}

agent_parses :
    (j : Json ℤ) (b : List ℕ) → agent_bytes.to_vec j ≡ ok b → agent_bytes.from_slice b ≡ ok j
agent_parses j b h = elim (Bool-cases (is_erased j)) [
  | inl e ↦ ap ok (sym (is_erased-erased j e))
  | inr e ↦ ground (arith, rw e at h)
]

abbrev wrapping : LocalDevProvider
wrapping = record { wrapping_key = bytes_32; key_version = pos 1 }

abbrev pub test_draws : Draws
test_draws = record {
  unwrap = local_decrypt_dek plain_aead wrapping;
  fresh_dek = λ n. local_generate_dek plain_aead wrapping bytes_32 bytes_12;
  fresh_nonce = λ n. bytes_12;
}

pub test-DrawLaws : DrawLaws plain_aead agent_bytes test_draws
test-DrawLaws = record {
  aead_laws = plain_laws;
  key_law =
      λ n. local_provider-KeyLaw plain_aead plain_laws wrapping bytes_32 bytes_12 refl refl refl;
  nonce_12 = λ n. refl;
  parses = agent_parses;
}

abbrev named_agent : StoredJson ℤ
named_agent = record {
  stored_json = object (
      field (codes "agent")
        (object (
          field (codes "agent_id") (string (codes "7")) (
            field (codes "latent_fingerprint") (string (codes "fp"))
              (field (codes "feature_schema_id") (string (codes "f")) end))))
        end);
  nonce_bytes = none;
  enc_dek_bytes = none;
  key_ver = none;
  enc_version = 0;
}

abbrev pub row_of_agent : ℕ → ℕ → TraceRow ℤ
row_of_agent trace agent = record {
  trace_id = trace;
  valid_time = pos 900;
  txn_time = pos 1000;
  mta_regime_id = 0;
  mta_version = codes "1";
  mta_hash = codes "h";
  latent_fingerprint = codes "fp";
  feature_schema_id = codes "f";
  execution_action = codes "Long";
  execution_asset = codes "BTC";
  client_order_id = codes "o";
  execution_order_type = codes "MARKET";
  execution_venue_id = some (codes "V");
  execution_quantity = pos 2;
  execution_notional = pos 100;
  execution_limit_price = none;
  execution_notional_currency = some (codes "USD");
  execution_multiplier = some (pos 1);
  execution_stop_price = none;
  heartbeat_seq = pos 1;
  policy_id = codes "p";
  policy_version = codes "1";
  policy_hash = codes "ph";
  policy_result = codes "ALLOWED";
  reasoning_hash = codes "r";
  trace_json = named_agent;
  agent_id = some agent;
  mta_pubkey_used = none;
  exchange_tx_id = none;
  verification_status = codes "PENDING";
  execution_status = none;
  execution_price = none;
  execution_time = none;
  final_proof = none;
  gdpr_erased_at = none;
  gdpr_request_id = none;
}

abbrev pub two_rows : Db ℤ
two_rows = record { traces = row_of_agent 1 7 ∷ row_of_agent 2 8 ∷ []; positions = []; faults = [] }

-- The table, in the order of the times.
abbrev pub table_source : Source ℤ
table_source = record { legacy = none; order = λ offset rows. sort_by_time rows }

table_source-ReadsTable : ReadsTable table_source
table_source-ReadsTable = record { no_view = refl; by_time = λ offset rows d. refl }

different : Unique two_rows.traces
different = ground arith

gdpr_erase_agent-erases_example :
    let out =
      gdpr_erase_agent plain_aead agent_bytes test_draws (pos 5000) 3 table_source 7 two_rows in
    Pairwise (Step plain_aead agent_bytes test_draws (pos 5000) 3 7) two_rows.traces out.1.traces
    × ((n : ℕ)
        → out.0 ≡ ok n
        → (n ≡ count_where (of_agent 7) two_rows.traces)
          × Pairwise
              (ErasedFor plain_aead agent_bytes test_draws (pos 5000) 3 7)
              two_rows.traces
              out.1.traces)
gdpr_erase_agent-erases_example =
    gdpr_erase_agent-erases plain_aead agent_bytes test_draws (pos 5000) 3 7 test-DrawLaws
      table_source table_source-ReadsTable two_rows different (tt, tt)

-- The run: one row is erased.
erased_count :
    (gdpr_erase_agent plain_aead agent_bytes test_draws (pos 5000) 3 table_source 7 two_rows).0
    ≡ ok 1
unfolding gdpr_erase_agent ◌>>=◌ statement erase_batches gets sort_by_time erase_rows lift
    erased_json decrypt_if_needed encode_trace is_erased only_null is_null modify pure
    null_pii_fields encrypt_trace local_generate_dek wrap_ciphertext_for_jsonb
erased_count = refl
