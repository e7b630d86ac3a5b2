-- ===== src/Store/Ledger/Overlay.antt =====
-- `db::get_trace_json`: the stored trace, decrypted where it is encrypted, with the live binding
-- columns laid over it.
use irl_engine_ax.Prelude.{
  ℕ, Text, codes, Option, none, some, Result, ok, err, and_then, Action, ◌>>◌, find,
}
use irl_engine_ax.Platform.{Externals}
use irl_engine_ax.Errors.{AppError, trace_not_found}
use irl_engine_ax.Json.{Json, object, string, null, get_field, insert_field}
use irl_engine_ax.Encryption.{KeyProvider, decrypt_if_needed}
use irl_engine_ax.Store.{Db, TraceRow, Codec, statement}
use irl_engine_ax.Store.Ledger.{has_id}

-- `Option<String>` as a JSON value
abbrev pub opt_string : {F : Type 0} → Option Text → Json F
opt_string none = null
opt_string (some s) = string s

module _ {F : Type 0} where
  unfoldable pub overlay_integrity : Option Text → Text → Json F → Json F
  overlay_integrity final_proof status (object fs) = object (
      insert_field (codes "verification_status") (string status)
        (insert_field (codes "final_proof") (opt_string final_proof) fs))
  overlay_integrity final_proof status v = v

  unfoldable pub overlay : Option Text → Text → Json F → Json F
  unfolding overlay_integrity
  overlay final_proof status (object fs) = elim (get_field (codes "integrity") fs) [
    | none ↦ object fs
    | some integrity ↦
        object
          (insert_field (codes "integrity") (overlay_integrity final_proof status integrity) fs)
  ]
  overlay final_proof status v = v

  abbrev pub read_trace :
      Codec F → Option KeyProvider → Text → Option (TraceRow F) → Result (AppError F) (Json F)
  read_trace codec key_provider id none = err (trace_not_found id)
  read_trace codec key_provider id (some row) =
      and_then (decrypt_if_needed codec.aead codec.bytes row.trace_json key_provider)
        (λ json. ok (overlay row.final_proof row.verification_status json))

  unfoldable pub get_trace_json :
      ⦃ex : Externals⦄ → Codec F → Option KeyProvider → ℕ → Action (Db F) (AppError F) (Json F)
  unfolding overlay
  get_trace_json ⦃ex⦄ codec key_provider trace_id = statement >> λ db.
      (read_trace codec key_provider (ex.uuid_text trace_id) (find (has_id trace_id) db.traces), db)
