-- ===== src/Backfill.antt =====
-- src/backfill.rs and `upsert_kms_key_metadata` of src/db.rs: the encryption in place of the rows
-- that were stored in plaintext. What the key provider draws for the n-th row, the rows that are
-- locked when a batch is selected, and what other writers do before an UPDATE are arguments. The
-- estimate that is only logged, and the pause between batches, are left out.
pub mod Rows
pub mod Cursor
pub mod Seals
pub mod Sealed
pub mod Cleared
pub mod Remaining
pub mod Passed
pub mod Complete
use irl_engine_ax.Prelude.{
  ℕ, ℤ, zero, suc, ◌+◌, ◌==◌, ◌&&◌, not, ltb, Text, codes, text_eq, Bool, true, false, List, [],
  ◌∷◌, ◌++◌, Option, none, some, Result, ok, map_err, and_then, if◌then◌else◌, select, take, any,
  length, update_where, Action,
}
use irl_engine_ax.Prelude.Effects.{pure, lift, gets, modify, ◌>>=◌, ◌>>◌}
use irl_engine_ax.Errors.{AppError, encryption, serialization}
use irl_engine_ax.Json.{Json}
use irl_engine_ax.Encryption.{
  Aead, JsonBytes, StoredJson, encrypt_trace, no_panic, wrap_ciphertext_for_jsonb,
}
use irl_engine_ax.Store.{Db, TraceRow, statement, same_time}
use irl_engine_ax.Gdpr.{Draws}

-- A row of irl.kms_key_metadata.
pub record KeyMetadata : Type 0 where
  pub key_version : ℤ
  pub provider : Text
  pub key_arn_or_path : Text
  pub status : Text

-- The tables that the backfill uses.
pub record KeyedDb (F : Type 0) : Type 0 where
  pub db : Db F
  pub keys : List KeyMetadata

-- What happens at the database beside the backfill, by the number of rows it has taken.
pub record Traffic (F : Type 0) : Type 0 where
  pub locked : ℕ → TraceRow F → Bool
  pub others : ℕ → List (TraceRow F) → List (TraceRow F)

-- `==` at an i32
abbrev same_version : ℤ → ℤ → Bool
same_version a b = same_time a b

abbrev batch_size : ℕ
batch_size = 500

abbrev pub Backfilling : Type 0 → Type 0 → Type 0
Backfilling F A = Action (KeyedDb F) (AppError F) A

-- `ON CONFLICT (key_version, provider) DO NOTHING`
abbrev pub add_key : KeyMetadata → List KeyMetadata → List KeyMetadata
add_key row keys =
    if any (λ k. same_version k.key_version row.key_version && text_eq k.provider row.provider) keys
    then keys
    else keys ++ row ∷ []

module _ {F : Type 0} where
  abbrev pub on_db : {A : Type 0} → Action (Db F) (AppError F) A → Backfilling F A
  on_db m s = ((m s.db).0, record s { db = (m s.db).1 })

  unfoldable pub upsert_kms_key_metadata : ℤ → Text → Text → Backfilling F (Unit {0})
  upsert_kms_key_metadata kv provider_name path =
      on_db statement
      >> modify (λ s. record s {
        keys =
            add_key
              (record {
                key_version = kv;
                provider = provider_name;
                key_arn_or_path = path;
                status = codes "active";
              })
              s.keys;
      })

  -- `ORDER BY trace_id`
  unfoldable pub insert_by_id : TraceRow F → List (TraceRow F) → List (TraceRow F)
  insert_by_id row [] = row ∷ []
  insert_by_id row (r ∷ rows) =
      let rest = insert_by_id row rows in
      if ltb r.trace_id row.trace_id then r ∷ rest else row ∷ r ∷ rows

  unfoldable pub sort_by_id : List (TraceRow F) → List (TraceRow F)
  unfolding insert_by_id
  sort_by_id [] = []
  sort_by_id (row ∷ rows) = insert_by_id row (sort_by_id rows)

  abbrev pub plaintext : TraceRow F → Bool
  plaintext row = row.trace_json.enc_version == 0

  -- `$1::uuid IS NULL OR trace_id > $1`
  abbrev pub beyond : Option ℕ → TraceRow F → Bool
  beyond none row = true
  beyond (some id) row = ltb id row.trace_id

  -- A row that the SELECT may take; SKIP LOCKED leaves out the locked ones.
  abbrev pub waiting : (TraceRow F → Bool) → Option ℕ → TraceRow F → Bool
  waiting locked cursor row = plaintext row && (beyond cursor row && not (locked row))

  unfoldable pub plaintext_batch : (TraceRow F → Bool) → Option ℕ → KeyedDb F → List (TraceRow F)
  plaintext_batch locked cursor s =
      take batch_size (sort_by_id (select (waiting locked cursor) s.db.traces))

  -- `rows.last().map(|(id, _)| *id)`
  unfoldable pub last_id : List (TraceRow F) → Option ℕ
  last_id [] = none
  last_id (row ∷ []) = some row.trace_id
  last_id (row ∷ r ∷ rows) = last_id (r ∷ rows)

  -- `WHERE trace_id = $5 AND encryption_version = 0`
  unfoldable pub to_encrypt : ℕ → TraceRow F → Bool
  to_encrypt id row = row.trace_id == id && plaintext row

  -- The columns that the UPDATE sets.
  abbrev pub with_stored : StoredJson F → TraceRow F → TraceRow F
  with_stored stored row = record row { trace_json = stored }

  abbrev pub change_traces : (List (TraceRow F) → List (TraceRow F)) → KeyedDb F → KeyedDb F
  change_traces f s = record s { db = record s.db { traces = f s.db.traces } }

  unfoldable pub encrypt_where : ℕ → StoredJson F → List (TraceRow F) → List (TraceRow F)
  encrypt_where id stored rows = update_where (to_encrypt id) (with_stored stored) rows

  -- `rows_affected() == 0` is `None`.
  abbrev pub affected : ℕ → ℤ → KeyedDb F → Option ℤ
  affected id kv s = if any (to_encrypt id) s.db.traces then some kv else none

module _ {F : Type 0} (aead : Aead) (bytes : JsonBytes F) (draws : Draws) where
  -- Steps 1 to 4 for the n-th row, with the version of the key.
  unfoldable pub encrypted_json : ℕ → Json F → Result (AppError F) (StoredJson F × ℤ)
  encrypted_json n trace_json =
      and_then (map_err encryption (draws.fresh_dek n)) λ (dek, enc_dek, kv).
        and_then (map_err serialization (bytes.to_vec trace_json)) λ plaintext_bytes.
          and_then (no_panic (encrypt_trace aead (draws.fresh_nonce n) plaintext_bytes dek)) λ blob.
            ok (
              record {
                stored_json = wrap_ciphertext_for_jsonb aead blob.ciphertext;
                nonce_bytes = some blob.nonce;
                enc_dek_bytes = some enc_dek;
                key_ver = some kv;
                enc_version = 1;
              },
              kv,
            )

  module _ (traffic : Traffic F) (provider_name path : Text) where
    -- The row is the one that the batch selected, which others may have changed since.
    unfoldable pub encrypt_one_row : ℕ → TraceRow F → Backfilling F (Option ℤ)
    encrypt_one_row n row = lift (encrypted_json n row.trace_json.stored_json) >>= λ (stored, kv).
        modify (change_traces (traffic.others n))
        >> (on_db statement
            >> (gets (affected row.trace_id kv) >>= λ key_version.
                modify (change_traces (encrypt_where row.trace_id stored)) >> pure key_version))

    -- One upsert for each key version of the run.
    unfoldable pub register_key : List ℤ → Option ℤ → Backfilling F (List ℤ)
    register_key registered none = pure registered
    register_key registered (some kv) =
        if any (same_version kv) registered
        then pure registered
        else upsert_kms_key_metadata kv provider_name path >> pure (kv ∷ registered)

    -- The rows of one batch.
    unfoldable pub encrypt_rows : List (TraceRow F) → ℕ → List ℤ → Backfilling F (List ℤ)
    encrypt_rows [] n registered = pure registered
    encrypt_rows (row ∷ rows) n registered =
        (encrypt_one_row n row >>= register_key registered) >>= encrypt_rows rows (n + 1)

    -- One turn of the loop at its batch; `next` is the turn after it.
    abbrev pub take_batch :
        (List (TraceRow F) → List ℤ → Backfilling F ℕ)
        → ℕ
        → List ℤ
        → List (TraceRow F)
        → Backfilling F ℕ
    take_batch next total registered rows =
        if length rows == 0 then pure total else encrypt_rows rows total registered >>= next rows

    -- The loop, on fuel.
    unfoldable pub run_batches : ℕ → ℕ → Option ℕ → List ℤ → Backfilling F ℕ
    run_batches zero total last_trace_id registered = pure total
    run_batches (suc fuel) total last_trace_id registered =
        let next = λ (rows : List (TraceRow F)) (registered : List ℤ).
          run_batches fuel (total + length rows) (last_id rows) registered in
        on_db statement
        >> (gets (plaintext_batch (traffic.locked total) last_trace_id)
            >>= take_batch next total registered)

    -- Each batch but the last, which is empty, takes a row beyond the cursor.
    unfoldable pub run_backfill : Backfilling F ℕ
    run_backfill s = run_batches (suc (length s.db.traces)) 0 none [] s
