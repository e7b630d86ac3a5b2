-- ===== src/Lib.antt =====
-- IRL engine: pre-trade authorization of agents, post-trade binding, and the audit trail.
--
-- An agent asks to trade (POST /irl/authorize), the engine validates the agent's heartbeat, reads
-- the Market Truth Anchor, checks the agent's identity, seals a snapshot of the intent, applies
-- the constraint policy, and stores the trace. After the trade the agent reports the execution
-- (POST /irl/bind-execution), which is reconciled with the intent and closes the trace. A worker
-- expires traces that are never bound, and another anchors the sealed hashes in a Merkle tree.
--
-- Which file models which part (paths from the repository's root):
--   Authorize        src/routes/authorize.rs: `authorize`, as `clear` (up to the bitemporal check)
--                    and `decide`; Authorize.Request holds the inputs and the state, Authorize.Trace
--                    `build_trace`
--   Bind             src/routes/bind.rs: `bind_execution`, split where it has read the intent
--   Binding          src/binding.rs: `reconcile`, `resolve_direction`
--   Asset            src/asset.rs
--   Store            src/db.rs and the tables of migrations/: Store.Insertion is
--                    `insert_trace_atomic`, Store.Ledger the binding statements and the positions,
--                    Store.Ledger.Overlay `get_trace_json`, Store.Ledger.Expiry src/verifier.rs
--   Registry         src/registry.rs
--   Heartbeat        src/heartbeat.rs
--   Policy           src/policy.rs
--   Mta              src/mta.rs
--   Seal, Json       src/seal.rs, and the JSON values that it and src/mta.rs print
--   Snapshot         src/snapshot.rs
--   Errors           src/errors.rs
--   Encryption       src/encryption.rs, the local provider of src/kms.rs, the encryption in src/db.rs
--   Config           src/config.rs (the record), src/time.rs
--   RateLimit        src/rate_limit.rs
--   Merkle           src/merkle.rs: the tree and the failover over calendars
--   Admin            the administration: its state and src/audit.rs; Admin.Tokens is
--                    src/token_manager.rs and src/routes/tokens.rs, Admin.Auth src/auth.rs and the
--                    layers of src/lib.rs, Admin.Shadow src/shadow_mode.rs and the switch routes of
--                    src/routes/admin.rs, Admin.Registration src/routes/agents.rs
--   Gdpr             src/gdpr.rs and its route
--   Backfill         src/backfill.rs, with `upsert_kms_key_metadata` of src/db.rs
--   Merkle.Anchor    src/merkle.rs: the anchoring and retry cycles
--   Platform         what comes from outside: floats, hashing, signatures, calendar time
--   Prelude, Tests   shared helpers; the theorems at concrete inputs
--
-- How the code is modelled. Handlers are functions from a state to a result and a state; what was
-- written before a failure stays written. The database is its rows and a list of the statements
-- that fail; a transaction that fails before its COMMIT restores the rows, and one whose COMMIT fails
-- may have taken effect or not. Text is its list of Unicode scalar values.
-- A 64-bit float is a type with operations and no laws; a theorem that needs one states it. Integers
-- of a width keep their wrap-around where the code casts. Clock readings, fresh ids and nonces, the
-- answers of remote services and serde's conversions are arguments. The advisory lock of
-- `insert_trace_atomic` is modelled by running the transactions of an agent one after another.
--
-- The administration runs its requests one after another; its handlers use the combinators of
-- Prelude.Effects, which stay shut in proofs.
--
-- Fuel: the loop of `compute_merkle_root` runs on the number of hashes, which is enough since each
-- turn leaves at most half of the nodes, rounded up; the loop of `gdpr_erase_agent` on the number of
-- rows and one more, which is enough since each turn but the last takes 100 rows; the loop of
-- `run_backfill` on the number of rows and one more, which is enough since each batch that is not
-- empty moves the cursor past a row. Everything else is
-- structural recursion.
--
-- Not modelled: the list queries and the query of the audit log, the reading of the
-- environment, the AWS and Vault key providers; metrics, logs, routing, TLS and certificates, which
-- call libraries.
pub mod Prelude
pub mod Platform
pub mod Errors
pub mod Snapshot
pub mod Json
pub mod Seal
pub mod Mta
pub mod Policy
pub mod Heartbeat
pub mod Config
pub mod Encryption
pub mod Asset
pub mod Binding
pub mod Store
pub mod Gdpr
pub mod Backfill
pub mod Registry
pub mod Admin
pub mod Authorize
pub mod Bind
pub mod RateLimit
pub mod Merkle
pub mod Tests
