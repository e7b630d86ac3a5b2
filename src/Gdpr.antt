-- ===== src/Gdpr.antt =====
-- src/gdpr.rs and `gdpr_erase_handler` of src/routes/admin.rs: the erasure of an agent's personal
-- fields from its stored traces. The UPDATE reaches the rows of irl.reasoning_traces; the SELECT reads
-- the unified view while it exists. What the key provider draws for the n-th row, and its nonce, are arguments.
pub mod Nulling
pub mod Rows
pub mod Pages
pub mod Ordered
pub mod Batch
pub mod Kept
pub mod Loop
pub mod Erasure
use irl_engine_ax.Prelude.{
  ℕ, ℤ, zero, suc, ◌+◌, ◌==◌, ◌&&◌, ltb, ltb_ℤ, Text, codes, Bool, true, false, List, [], ◌∷◌, ◌++◌,
  Option, none, some, Result, ok, err, and_then, if◌then◌else◌, select, take, drop, length,
  update_where, Action,
}
use irl_engine_ax.Prelude.Effects.{pure, lift, gets, modify, ◌>>=◌, ◌>>◌}
use irl_engine_ax.Errors.{AppError, encryption}
use irl_engine_ax.Json.{Json, object, null, get_field, insert_field, Fields}
use irl_engine_ax.Encryption.{
  Aead, JsonBytes, KeyProvider, StoredJson, encode_trace, decrypt_if_needed,
}
use irl_engine_ax.Store.{Db, TraceRow, statement, same_time}

module _ {F : Type 0} where
  -- `obj.insert(k, Value::Null)`
  abbrev pub set_null : Text → Fields F → Fields F
  set_null k fs = insert_field k null fs

  unfoldable pub null_agent : Json F → Json F
  null_agent (object fs) = object (
      set_null (codes "feature_schema_id")
        (set_null (codes "latent_fingerprint") (set_null (codes "agent_id") fs)))
  null_agent v = v

  unfoldable pub null_execution : Json F → Json F
  null_execution (object fs) =
      object (set_null (codes "venue_id") (set_null (codes "client_order_id") fs))
  null_execution v = v

  -- A change of the value under a key, where there is one.
  abbrev pub put_back : Text → (Json F → Json F) → Fields F → Option (Json F) → Fields F
  put_back k f fs none = fs
  put_back k f fs (some v) = insert_field k (f v) fs

  abbrev pub at_field : Text → (Json F → Json F) → Fields F → Fields F
  at_field k f fs = put_back k f fs (get_field k fs)

  abbrev pub at_key : Text → (Json F → Json F) → Json F → Json F
  at_key k f (object fs) = object (at_field k f fs)
  at_key k f v = v

  unfoldable pub null_pii_fields : Json F → Json F
  unfolding null_agent null_execution
  null_pii_fields json =
      at_key (codes "execution") null_execution (at_key (codes "agent") null_agent json)

-- The key provider of one run: its unwrapping, and the key and the nonce drawn for each row.
pub record Draws : Type 0 where
  pub unwrap : List ℕ → ℤ → Result Text (List ℕ)
  pub fresh_dek : ℕ → Result Text (List ℕ × List ℕ × ℤ)
  pub fresh_nonce : ℕ → List ℕ

abbrev pub provider : Draws → ℕ → KeyProvider
provider draws n = record { generate_dek = draws.fresh_dek n; decrypt_dek = draws.unwrap }

abbrev pub batch_size : ℕ
batch_size = 100

-- `WHERE agent_id = $1`
abbrev pub of_agent : {F : Type 0} → ℕ → TraceRow F → Bool
of_agent agent row = elim row.agent_id [ none ↦ false | some a ↦ a == agent ]

-- What the SELECT reads from: the rows of reasoning_traces_legacy, while the unified view exists, and
-- the order in which the query at an offset gives its rows, which `ORDER BY txn_time ASC` leaves to
-- the database where times are the same.
pub record Source (F : Type 0) : Type 0 where
  pub legacy : Option (List (TraceRow F))
  pub order : ℕ → List (TraceRow F) → List (TraceRow F)

module _ {F : Type 0} where
  -- Rows by `txn_time`
  unfoldable pub insert_by_time : TraceRow F → List (TraceRow F) → List (TraceRow F)
  insert_by_time row [] = row ∷ []
  insert_by_time row (r ∷ rows) =
      let rest = insert_by_time row rows in
      if ltb_ℤ r.txn_time row.txn_time then r ∷ rest else row ∷ r ∷ rows

  unfoldable pub sort_by_time : List (TraceRow F) → List (TraceRow F)
  unfolding insert_by_time
  sort_by_time [] = []
  sort_by_time (row ∷ rows) = insert_by_time row (sort_by_time rows)

  -- The rows that the SELECT reads: the unified view, which has the rows of reasoning_traces_legacy
  -- too, or the table.
  abbrev pub source_rows : Source F → Db F → List (TraceRow F)
  source_rows source db = elim source.legacy [ none ↦ db.traces | some old ↦ old ++ db.traces ]

  -- The SELECT at an offset.
  abbrev pub page : Source F → ℕ → ℕ → Db F → List (TraceRow F)
  page source agent offset db =
      take batch_size
        (drop offset (source.order offset (select (of_agent agent) (source_rows source db))))

  -- `WHERE trace_id = $7 AND txn_time = $8`
  abbrev pub same_key : TraceRow F → TraceRow F → Bool
  same_key a row = row.trace_id == a.trace_id && same_time row.txn_time a.txn_time

  -- The columns that the UPDATE sets.
  abbrev pub erased_row : ℤ → ℕ → StoredJson F → TraceRow F → TraceRow F
  erased_row now request stored row = record row {
    trace_json = stored;
    gdpr_erased_at = some now;
    gdpr_request_id = some request;
  }

  abbrev pub write_erased : ℤ → ℕ → TraceRow F → StoredJson F → Db F → Db F
  write_erased now request row stored db = record db {
    traces = update_where (same_key row) (erased_row now request stored) db.traces;
  }

module _ {F : Type 0} (aead : Aead) (bytes : JsonBytes F) (draws : Draws) where
  -- `gdpr::decrypt_trace_json`, which repeats `decrypt_if_needed` at a provider
  unfoldable pub decrypt_trace_json : StoredJson F → Result (AppError F) (Json F)
  decrypt_trace_json stored = decrypt_if_needed aead bytes stored (some (provider draws 0))

  -- Steps a to f for the n-th row.
  unfoldable pub erased_json : ℕ → StoredJson F → Result (AppError F) (StoredJson F)
  unfolding decrypt_trace_json
  erased_json n stored = and_then (decrypt_trace_json stored) λ decrypted.
      encode_trace aead bytes (some (provider draws n)) (draws.fresh_nonce n)
        (null_pii_fields decrypted)

  module _ (now : ℤ) (request : ℕ) where
    -- The rows of one batch; the number is `total_erased`.
    unfoldable pub erase_rows : List (TraceRow F) → ℕ → Action (Db F) (AppError F) ℕ
    erase_rows [] total = pure total
    erase_rows (row ∷ rows) total = lift (erased_json total row.trace_json) >>= λ stored.
        statement >> (modify (write_erased now request row stored) >> erase_rows rows (total + 1))

    -- One turn of the loop, at the rows of its batch; `next` is the turn after it.
    abbrev pub take_batch :
        (List (TraceRow F) → ℕ → Action (Db F) (AppError F) ℕ)
        → ℕ
        → List (TraceRow F)
        → Action (Db F) (AppError F) ℕ
    take_batch next total rows =
        if length rows == 0
        then pure total
        else erase_rows rows total >>= λ total.
            (if ltb (length rows) batch_size then pure total else next rows total)

    -- The loop, on fuel.
    unfoldable pub erase_batches : Source F → ℕ → ℕ → ℕ → ℕ → Action (Db F) (AppError F) ℕ
    erase_batches source agent zero offset total = pure total
    erase_batches source agent (suc fuel) offset total =
        let next = λ (rows : List (TraceRow F)) (total : ℕ).
          erase_batches source agent fuel (offset + length rows) total in
        statement >> (gets (page source agent offset) >>= take_batch next total)

    -- One statement asks which table to read; each batch but the last takes 100 rows.
    unfoldable pub gdpr_erase_agent : Source F → ℕ → Action (Db F) (AppError F) ℕ
    gdpr_erase_agent source agent =
        statement >> λ db. erase_batches source agent (suc (length (source_rows source db))) 0 0 db

-- `gdpr_erase_handler` of src/routes/admin.rs up to its entry in the audit log, which
-- Admin.Erasure adds; without a provider nothing is erased.
module _ {F : Type 0} (aead : Aead) (bytes : JsonBytes F) where
  unfoldable pub erase_with : ℤ → ℕ → Option Draws → Source F → ℕ → Action (Db F) (AppError F) ℕ
  erase_with now request none source agent =
      lift
        (err (encryption (codes "KMS provider required for GDPR erasure — configure KMS_PROVIDER")))
  erase_with now request (some draws) source agent =
      gdpr_erase_agent aead bytes draws now request source agent
