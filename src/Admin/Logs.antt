-- ===== src/Admin/Logs.antt =====
-- The handlers of the administration routes, each with the one entry that it writes to the log.
use mathlib.Core.Path.{subst}
use irl_engine_ax.Prelude.{
  ℕ, ℤ, Text, Bool, true, false, List, [], ◌∷◌, Result, ok, err, is_ok, ◌≡◌, refl, arith, Action,
  Option, continue,
}
use irl_engine_ax.Prelude.Effects.{
  pure, modify, ◌>>=◌, Leaves, Leaves-bind, Leaves-modify, leaves_rules,
}
use irl_engine_ax.Platform.{Float64, Externals}
use irl_engine_ax.Errors.{AppError}
use irl_engine_ax.Json.{Json}
use irl_engine_ax.Registry.{Agents, RegisterAgentRequest}
use irl_engine_ax.Encryption.{Aead, JsonBytes}
use irl_engine_ax.Store.{Db}
use irl_engine_ax.Gdpr.{Draws, Source}
use irl_engine_ax.Admin.Erasure.{on_store, gdpr_erase_handler}
use irl_engine_ax.Admin.{
  gdpr_erasure, ApiToken, AppState, AuditAction, AuditRow, Handler, Operator, as_str, token_issue,
  token_revoke, shadow_mode_change, agent_register, query, insert_audit_log, take_fault, audit_row,
  log,
}
use irl_engine_ax.Admin.Tokens.{
  token_issue_route, token_revoke_route, refresh_cache, insert_token, insert_unique,
}
use irl_engine_ax.Admin.Shadow.{SetShadowModeRequest, shadow_mode_set, set}
use irl_engine_ax.Admin.Registration.{
  register_agent_route, update_agent_status, status_action, on_agents,
}

-- Who did what, as the log has it.
abbrev pub signature : {F : Type 0} → AuditRow F → Text × Text
signature row = (row.operator_id, row.action)

module _ {F : Type 0} where
  abbrev log_of : AppState F → List (AuditRow F)
  log_of s = s.audit_log

  -- One entry if the action succeeds, none if it fails.
  pub data Entered (who : Operator) (action : AuditAction) (before : List (AuditRow F))
      : Bool → List (AuditRow F) → Type 0 where
    entered :
        (row : AuditRow F)
        → signature row ≡ (who.operator, as_str action)
        → Entered who action before true (row ∷ before)
    nothing : Entered who action before false before

  pub record Logs {A : Type 0} (who : Operator) (action : AuditAction) (m : Handler F A)
      : Type 0 where
    pub at : (s : AppState F) → Entered who action s.audit_log (is_ok (m s).0) (m s).1.audit_log

  module _ {A B : Type 0} {who : Operator} {action : AuditAction} where
    continue-Logs :
        (r : Result (AppError F) A) (f : A → Handler F B)
        → ((a : A) → Logs who action (f a))
        → (s : AppState F)
        → Entered who action s.audit_log (is_ok (continue r f s).0) (continue r f s).1.audit_log
    continue-Logs (ok a) f h s = (h a).at s
    continue-Logs (err e) f h s = nothing

    bind-Logs :
        (m : Handler F A) (f : A → Handler F B)
        → Leaves log_of m
        → ((a : A) → Logs who action (f a))
        → Logs who action (m >>= f)
    unfolding ◌>>=◌
    bind-Logs m f h k = record {
      at = λ s.
          subst
            (λ before. Entered who action before (is_ok ((m >>= f) s).0) ((m >>= f) s).1.audit_log)
            (h.at s) (continue-Logs (m s).0 f k (m s).1);
    }

    continue-pure :
        (before : List (AuditRow F)) (r : Result (AppError F) A) (g : A → B) (s : AppState F)
        → Entered who action before (is_ok r) s.audit_log
        → let out = continue r (λ a. pure (g a)) s in
          Entered who action before (is_ok out.0) out.1.audit_log
    unfolding pure
    continue-pure before (ok a) g s h = h
    continue-pure before (err e) g s h = h

    -- A last step that only computes an answer.
    pub pure-Logs :
        (m : Handler F A) (g : A → B) → Logs who action m → Logs who action (m >>= λ a. pure (g a))
    unfolding ◌>>=◌
    pure-Logs m g h = record { at = λ s. continue-pure s.audit_log (m s).0 g (m s).1 (h.at s) }

  Leaves-take_fault :
      (fs : List Bool) (s : AppState F) → (take_fault fs s).1.audit_log ≡ s.audit_log
  Leaves-take_fault [] s = refl
  Leaves-take_fault (true ∷ fs) s = refl
  Leaves-take_fault (false ∷ fs) s = refl

  Leaves-query : Leaves log_of query
  unfolding query
  Leaves-query = record { at = λ s. Leaves-take_fault s.faults s }

  insert-Logs :
      (who : Operator) (action : AuditAction) (target : Option Text) (details : Option (Json F))
      → Logs who action (insert_audit_log who action target details)
  unfolding insert_audit_log audit_row modify
  insert-Logs who action target details =
      bind-Logs query (λ _. modify (log (audit_row who action target details))) Leaves-query
        (λ _. record { at = λ s. entered (audit_row who action target details) refl })

  Leaves-refresh : Leaves log_of refresh_cache
  unfolding refresh_cache
  Leaves-refresh = Leaves-bind query _ Leaves-query (λ _. Leaves-modify _ (λ s. refl))

  Leaves-unique :
      (row : ApiToken) (s : AppState F) → (insert_unique row s).1.audit_log ≡ s.audit_log
  Leaves-unique row s = ground arith

  Leaves-insert_token : (row : ApiToken) → Leaves log_of (insert_token row)
  unfolding insert_token
  Leaves-insert_token row =
      Leaves-bind query _ Leaves-query (λ _. record { at = Leaves-unique row })

  Leaves-on_agents :
      {A : Type 0} (m : Action (Agents F) (AppError F) A) → Leaves log_of (on_agents m)
  unfolding on_agents
  Leaves-on_agents m = Leaves-bind query _ Leaves-query (λ _. record { at = λ s. refl })

  Leaves-set : (new_value : Bool) (who : Text) (now : ℤ) → Leaves log_of (set new_value who now)
  unfolding set
  Leaves-set new_value who now =
      Leaves-bind _ _ (Leaves-bind query _ Leaves-query (λ _. Leaves-modify _ (λ s. refl)))
        (λ _. Leaves-modify _ (λ s. refl))

  Leaves-on_store : {A : Type 0} (m : Action (Db F) (AppError F) A) → Leaves log_of (on_store m)
  unfolding on_store
  Leaves-on_store m = record { at = λ s. refl }

  ruleset logs_rules = (
    leaves_rules, Leaves-query, Leaves-on_store, Leaves-refresh, Leaves-insert_token,
    Leaves-on_agents, Leaves-set, insert-Logs, pure-Logs, bind-Logs,
  )

  pub issue-Logs :
      ⦃ex : Externals⦄ (who : Operator) (client_name : Text) (raw_bytes : List ℕ)
      → Logs who token_issue (token_issue_route who client_name raw_bytes)
  unfolding token_issue_route
  issue-Logs who client_name raw_bytes = search logs_rules

  pub shadow-Logs :
      (who : Operator) (now : ℤ) (req : SetShadowModeRequest)
      → Logs who shadow_mode_change (shadow_mode_set who now req)
  unfolding shadow_mode_set
  shadow-Logs who now req = search logs_rules

  pub register-Logs :
      ⦃fl : Float64 F⦄ ⦃ex : Externals⦄ (who : Operator) (agent : ℕ) (req : RegisterAgentRequest F)
      → Logs who agent_register (register_agent_route who agent req)
  unfolding register_agent_route
  register-Logs who agent req = search logs_rules

  pub status-Logs :
      ⦃ex : Externals⦄ (who : Operator) (agent : ℕ) (new : Text)
      → Logs who (status_action new) (update_agent_status who agent new)
  unfolding update_agent_status
  status-Logs who agent new = search logs_rules

  pub revoke-Logs :
      (who : Operator) (token_id : Text) → Logs who token_revoke (token_revoke_route who token_id)
  unfolding token_revoke_route
  revoke-Logs who token_id = bind-Logs _ _ (search (leaves_rules, Leaves-query)) (λ row.
      pure-Logs _ _ (
        bind-Logs _ _
          (Leaves-bind _ _ (Leaves-bind query _ Leaves-query (λ _. Leaves-modify _ (λ s. refl)))
            (λ _. Leaves-refresh))
          (λ _. insert-Logs who token_revoke _ _)))

  pub erase-Logs :
      ⦃ex : Externals⦄ (aead : Aead) (bytes : JsonBytes F) (who : Operator) (now : ℤ) (request : ℕ)
      (draws : Option Draws) (source : Source F) (agent : ℕ)
      → Logs who gdpr_erasure (gdpr_erase_handler aead bytes who now request draws source agent)
  unfolding gdpr_erase_handler
  erase-Logs aead bytes who now request draws source agent = search logs_rules
