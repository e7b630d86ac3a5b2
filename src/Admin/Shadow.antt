-- ===== src/Admin/Shadow.antt =====
-- src/shadow_mode.rs and the shadow-mode routes of src/routes/admin.rs: the switch with its row in
-- irl.system_config.
use irl_engine_ax.Prelude.{ℤ, Text, codes, Bool, false, Option, none, some}
use irl_engine_ax.Prelude.Effects.{pure, raise, gets, modify, ◌>>=◌, ◌>>◌}
use irl_engine_ax.Errors.{database}
use irl_engine_ax.Json.{Json, object, field, end, string, bool, null}
use irl_engine_ax.Admin.{
  AppState, ConfigRow, Handler, Operator, shadow_mode_change, query, insert_audit_log,
}

pub record SetShadowModeRequest : Type 0 where
  pub enabled : Bool
  pub reason : Option Text

-- The INSERT … ON CONFLICT DO NOTHING of an absent row.
abbrev pub seed_row : Bool → ℤ → Option ConfigRow → Option ConfigRow
seed_row env_default now none =
    some (record { value_bool = some env_default; updated_at = now; updated_by = codes "system" })
seed_row env_default now (some row) = some row

abbrev pub write_row : Bool → ℤ → Text → Option ConfigRow → Option ConfigRow
write_row new_value now updated_by none = none
write_row new_value now updated_by (some row) =
    some (record { value_bool = some new_value; updated_at = now; updated_by = updated_by })

abbrev pub reread : Option ConfigRow → Bool → Bool
reread none current = current
reread (some row) current = elim row.value_bool [ none ↦ current | some v ↦ v ]

module _ {F : Type 0} where
  abbrev pub store_flag : Bool → AppState F → AppState F
  store_flag b s = record s { shadow_mode = b }

  abbrev pub initial : Bool → ℤ → Option ConfigRow → Handler F Bool
  initial env_default now none =
      query
      >> modify (λ s. record s { shadow_row = seed_row env_default now s.shadow_row })
      >> pure env_default
  initial env_default now (some row) =
      pure (elim row.value_bool [ none ↦ env_default | some v ↦ v ])

  -- `ShadowModeCache::new`
  unfoldable pub new : Bool → ℤ → Handler F (Unit {0})
  unfolding query
  new env_default now = query >> gets (λ s. s.shadow_row) >>= λ row.
      initial env_default now row >>= λ current. modify (store_flag current)

  -- `ShadowModeCache::set`
  unfoldable pub set : Bool → Text → ℤ → Handler F (Unit {0})
  unfolding query
  set new_value updated_by now =
      query
      >> modify (λ s. record s { shadow_row = write_row new_value now updated_by s.shadow_row })
      >> modify (store_flag new_value)

  -- `ShadowModeCache::refresh`
  unfoldable pub refresh : Handler F (Unit {0})
  unfolding query
  refresh = query >> modify (λ s. store_flag (reread s.shadow_row s.shadow_mode) s)

  -- GET /irl/admin/shadow-mode: the flag with its time and author. A NULL flag does not decode.
  abbrev pub read_row : Option ConfigRow → Handler F (Bool × Option ℤ × Option Text)
  read_row none = pure (false, none, none)
  read_row (some row) = elim row.value_bool [
    | none ↦ raise database
    | some enabled ↦ pure (enabled, some row.updated_at, some row.updated_by)
  ]

  unfoldable pub shadow_mode_get : Handler F (Bool × Option ℤ × Option Text)
  unfolding query
  shadow_mode_get = query >> gets (λ s. s.shadow_row) >>= read_row

  abbrev pub reason_json : Option Text → Json F
  reason_json none = null
  reason_json (some r) = string r

  abbrev pub switch_details : Bool → SetShadowModeRequest → Option (Json F)
  switch_details old req = some (
      object (
        field (codes "new_value") (bool req.enabled) (
          field (codes "old_value") (bool old)
            (field (codes "reason") (reason_json req.reason) end))))

  -- POST /irl/admin/shadow-mode
  unfoldable pub shadow_mode_set : Operator → ℤ → SetShadowModeRequest → Handler F (Bool × Text)
  unfolding set
  shadow_mode_set who now req = gets (λ s. s.shadow_mode) >>= λ old.
      set req.enabled who.operator now
      >> insert_audit_log who shadow_mode_change none (switch_details old req)
      >> pure (req.enabled, who.operator)
