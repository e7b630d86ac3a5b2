-- ===== src/Admin/Erasure.antt =====
-- `gdpr_erase_handler` of src/routes/admin.rs: the erasure of an agent's traces and its entry in the
-- audit log.
use irl_engine_ax.Prelude.{ℕ, ℤ, pos, codes, Option, some, Action}
use irl_engine_ax.Prelude.Effects.{pure, ◌>>=◌, ◌>>◌}
use irl_engine_ax.Platform.{Externals}
use irl_engine_ax.Errors.{AppError}
use irl_engine_ax.Json.{Json, object, field, end, string, int}
use irl_engine_ax.Encryption.{Aead, JsonBytes}
use irl_engine_ax.Store.{Db}
use irl_engine_ax.Gdpr.{Draws, Source, erase_with}
use irl_engine_ax.Admin.{Handler, Operator, gdpr_erasure, insert_audit_log}

module _ {F : Type 0} where
  -- A part of a handler that runs on the tables of the store.
  unfoldable pub on_store : {A : Type 0} → Action (Db F) (AppError F) A → Handler F A
  on_store m s = let (r, db) = m s.store in (r, record s { store = db })

  module _ ⦃ex : Externals⦄ where
    abbrev pub erasure_details : ℕ → ℕ → Option (Json F)
    erasure_details request total = some (
        object (
          field (codes "gdpr_request_id") (string (ex.uuid_text request))
            (field (codes "traces_erased") (int (pos total)) end)))

    -- POST /irl/admin/gdpr-erase/:agent_id; `request` is the id that is drawn.
    unfoldable pub gdpr_erase_handler :
        Aead → JsonBytes F → Operator → ℤ → ℕ → Option Draws → Source F → ℕ → Handler F ℕ
    gdpr_erase_handler aead bytes who now request draws source agent =
        on_store (erase_with aead bytes now request draws source agent) >>= λ total.
        insert_audit_log who gdpr_erasure (some (ex.uuid_text agent))
          (erasure_details request total)
        >> pure total
