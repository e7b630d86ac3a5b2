-- ===== src/Admin/Audit.antt =====
-- What the administration routes write to the audit log.
use mathlib.Core.List.{append-nil, append_assoc, map-append}
use irl_engine_ax.Prelude.{
  ℕ, ℤ, Text, Bool, Option, List, [], ◌∷◌, ◌++◌, map, is_ok, if◌then◌else◌, ◌≡◌, refl, sym, ◌∙◌,
}
use irl_engine_ax.Prelude.Effects.{pure, ◌>>◌}
use irl_engine_ax.Platform.{Float64, Externals}
use irl_engine_ax.Registry.{RegisterAgentRequest}
use irl_engine_ax.Encryption.{Aead, JsonBytes}
use irl_engine_ax.Gdpr.{Draws, Source}
use irl_engine_ax.Admin.Erasure.{gdpr_erase_handler}
use irl_engine_ax.Admin.{
  AppState, AuditAction, AuditRow, Handler, Operator, as_str, token_issue, token_revoke,
  shadow_mode_change, agent_register, gdpr_erasure,
}
use irl_engine_ax.Admin.Tokens.{token_issue_route, token_revoke_route}
use irl_engine_ax.Admin.Shadow.{SetShadowModeRequest, shadow_mode_set}
use irl_engine_ax.Admin.Registration.{register_agent_route, update_agent_status, status_action}
use irl_engine_ax.Admin.Logs.{
  Entered, entered, nothing, Logs, pure-Logs, issue-Logs, shadow-Logs, register-Logs, status-Logs,
  revoke-Logs, erase-Logs, signature,
}

-- A request that changes something.
pub data AdminRequest (F : Type 0) : Type 0 where
  issue : Text → List ℕ → AdminRequest F
  revoke : Text → AdminRequest F
  shadow : ℤ → SetShadowModeRequest → AdminRequest F
  register : ℕ → RegisterAgentRequest F → AdminRequest F
  status : ℕ → Text → AdminRequest F
  erase : ℤ → ℕ → Option Draws → Source F → ℕ → AdminRequest F

abbrev pub action_of : {F : Type 0} → AdminRequest F → AuditAction
action_of (issue _ _) = token_issue
action_of (revoke _) = token_revoke
action_of (shadow _ _) = shadow_mode_change
action_of (register _ _) = agent_register
action_of (status _ s) = status_action s
action_of (erase _ _ _ _ _) = gdpr_erasure

module _ {F : Type 0} ⦃fl : Float64 F⦄ ⦃ex : Externals⦄ (aead : Aead) (bytes : JsonBytes F) where
  abbrev pub serve : Operator → AdminRequest F → Handler F (Unit {0})
  serve who (issue client_name raw_bytes) = token_issue_route who client_name raw_bytes >> pure tt
  serve who (revoke token_id) = token_revoke_route who token_id >> pure tt
  serve who (shadow now req) = shadow_mode_set who now req >> pure tt
  serve who (register agent req) = register_agent_route who agent req >> pure tt
  serve who (status agent new) = update_agent_status who agent new >> pure tt
  serve who (erase now request draws source agent) =
      gdpr_erase_handler aead bytes who now request draws source agent >> pure tt

  serve-Logs : (who : Operator) (req : AdminRequest F) → Logs who (action_of req) (serve who req)
  serve-Logs who (issue client_name raw_bytes) =
      pure-Logs _ _ (issue-Logs who client_name raw_bytes)
  serve-Logs who (revoke token_id) = pure-Logs _ _ (revoke-Logs who token_id)
  serve-Logs who (shadow now req) = pure-Logs _ _ (shadow-Logs who now req)
  serve-Logs who (register agent req) = pure-Logs _ _ (register-Logs who agent req)
  serve-Logs who (status agent new) = pure-Logs _ _ (status-Logs who agent new)
  serve-Logs who (erase now request draws source agent) =
      pure-Logs _ _ (erase-Logs aead bytes who now request draws source agent)

  -- Requests one after another, with the signatures of those that succeed, the last first.
  pub serve_all :
      List (Operator × AdminRequest F)
      → List (Text × Text)
      → AppState F
      → List (Text × Text) × AppState F
  serve_all [] acc s = (acc, s)
  serve_all ((who, req) ∷ rest) acc s =
      let (r, s') = serve who req s in
      serve_all rest (if is_ok r then (who.operator, as_str (action_of req)) ∷ acc else acc) s'

  Entered-signed :
      (who : Operator) (action : AuditAction) (before after : List (AuditRow F)) (b : Bool)
      → Entered who action before b after
      → (new : List (AuditRow F)) × ((after ≡ new ++ before)
          × ((acc : List (Text × Text))
              → (if b then (who.operator, as_str action) ∷ acc else acc)
                ≡ map signature new ++ acc))
  Entered-signed who action before after b (entered row h) = (row ∷ [], (refl, λ acc. rw h))
  Entered-signed who action before after b nothing = ([], (refl, λ acc. refl))

  grown :
      (later first before after : List (AuditRow F))
      → after ≡ first ++ before
      → later ++ after ≡ (later ++ first) ++ before
  grown later first before after e = rw e (sym (append_assoc later first before))

  signed :
      (later first : List (AuditRow F)) (acc acc' : List (Text × Text))
      → acc' ≡ map signature first ++ acc
      → map signature later ++ acc' ≡ map signature (later ++ first) ++ acc
  signed later first acc acc' e =
      rw (e, map-append signature later first)
        (sym (append_assoc (map signature later) (map signature first) acc))

  serve_all-from :
      (reqs : List (Operator × AdminRequest F)) (acc : List (Text × Text)) (s : AppState F)
      → (new : List (AuditRow F)) × (((serve_all reqs acc s).1.audit_log ≡ new ++ s.audit_log)
          × ((serve_all reqs acc s).0 ≡ map signature new ++ acc))
  unfolding serve_all
  serve_all-from [] acc s = ([], (refl, refl))
  serve_all-from ((who, req) ∷ rest) acc s =
      let (first, (e, c)) = Entered-signed who (action_of req) _ _ _ ((serve-Logs who req).at s) in
      let (later, (f, d)) =
        serve_all-from rest
          (if is_ok (serve who req s).0 then (who.operator, as_str (action_of req)) ∷ acc else acc)
          (serve who req s).1 in
      (
        later ++ first,
        (f ∙ grown later first s.audit_log _ e, d ∙ signed later first acc _ (c acc)),
      )

  -- However a sequence of administration requests goes (tokens issued and revoked, the shadow switch
  -- set, agents registered, their status changed, their traces erased), the log keeps every entry that it had, in
  -- place, and gains exactly one for each request that succeeded, in their order, with the operator
  -- and the action of that request; a request that fails adds none.
  pub serve_all-audited :
      (reqs : List (Operator × AdminRequest F)) (s : AppState F)
      → (new : List (AuditRow F)) × (((serve_all reqs [] s).1.audit_log ≡ new ++ s.audit_log)
          × ((serve_all reqs [] s).0 ≡ map signature new))
  serve_all-audited reqs s =
      let (new, (e, c)) = serve_all-from reqs [] s in (new, (e, c ∙ append-nil (map signature new)))
