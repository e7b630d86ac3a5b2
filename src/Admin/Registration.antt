-- ===== src/Admin/Registration.antt =====
-- src/routes/agents.rs: the routes that register agents and change their status.
use irl_engine_ax.Prelude.{
  ℕ, ◌==◌, ◌&&◌, Text, codes, text_eq, as_bytes, Bool, true, false, List, [], ◌∷◌, Option, none,
  some, ok, if◌then◌else◌, any, length, Action,
}
use irl_engine_ax.Prelude.Effects.{pure, check, ◌>>=◌, ◌>>◌}
use irl_engine_ax.Platform.{Float64, Externals}
use irl_engine_ax.Errors.{AppError, serialization}
use irl_engine_ax.Json.{Json, object, field, end, string, real, null}
use irl_engine_ax.Registry.{
  AgentProfile, RegisterAgentRequest, Agents, register_agent, update_status, fetch_profile,
  or_value,
}
use irl_engine_ax.Admin.{
  Handler, Operator, AuditAction, agent_register, agent_suspend, agent_activate,
  agent_status_change, query, insert_audit_log,
}

abbrev pub is_some : {A : Type 0} → Option A → Bool
is_some none = false
is_some (some a) = true

abbrev pub valid_model_hash : ⦃ex : Externals⦄ → Text → Bool
valid_model_hash ⦃ex⦄ model_hash_hex =
    (length (as_bytes model_hash_hex) == 64) && is_some (ex.hex_decode model_hash_hex)

abbrev pub valid_statuses : List Text
valid_statuses = codes "Active" ∷ codes "Suspended" ∷ codes "Deregistered" ∷ []

abbrev pub status_action : Text → AuditAction
status_action status =
    if text_eq status (codes "Suspended")
    then agent_suspend
    else if text_eq status (codes "Active")
    then agent_activate
    else agent_status_change

module _ {F : Type 0} where
  -- A statement on the registry.
  abbrev pub at_agents : {A : Type 0} → Action (Agents F) (AppError F) A → Handler F A
  at_agents m s = let (r, agents) = m s.agents in (r, record s { agents = agents })

  unfoldable pub on_agents : {A : Type 0} → Action (Agents F) (AppError F) A → Handler F A
  on_agents m = query >> at_agents m

  abbrev pub opt_text : Option Text → Json F
  opt_text none = null
  opt_text (some t) = string t

  module _ ⦃fl : Float64 F⦄ ⦃ex : Externals⦄ where
    abbrev pub registration : RegisterAgentRequest F → Option (Json F)
    registration req = some (
        object (
          field (codes "max_notional") (real (or_value req.max_notional (fl.decimal 1000000 0))) (
            field (codes "model_hash_hex") (string req.model_hash_hex) (
              field (codes "name") (string req.name)
                (field (codes "policy_module_id") (opt_text req.policy_module_id) end)))))

    -- POST /irl/agents; `agent` is the id that the database draws.
    unfoldable pub register_agent_route : Operator → ℕ → RegisterAgentRequest F → Handler F ℕ
    unfolding on_agents
    register_agent_route who agent req =
        check (valid_model_hash req.model_hash_hex) (
          serialization
            (codes "model_hash_hex must be a 64-character hex string (32 bytes SHA-256)"))
        >> on_agents (register_agent true agent req)
        >>= λ agent_id.
            insert_audit_log who agent_register (some (ex.uuid_text agent_id)) (registration req)
            >> pure agent_id

  -- GET /irl/agents/:id, before the profile is printed
  unfoldable pub get_agent : ℕ → Handler F (AgentProfile F)
  unfolding on_agents
  get_agent agent = on_agents (λ agents. (fetch_profile true agents agent, agents))

  -- GET /irl/agents: the newest registration first
  unfoldable pub list_agents : Handler F (Agents F)
  unfolding on_agents
  list_agents = on_agents (λ agents. (ok agents, agents))

  abbrev pub status_details : Text → Text → Option (Json F)
  status_details old new = some (
      object
        (field (codes "new_status") (string new) (field (codes "old_status") (string old) end)))

  -- PATCH /irl/agents/:id/status
  unfoldable pub update_agent_status : ⦃ex : Externals⦄ → Operator → ℕ → Text → Handler F (ℕ × Text)
  unfolding on_agents
  update_agent_status ⦃ex⦄ who agent status =
      check (any (λ v. text_eq v status) valid_statuses)
        (serialization (codes "status must be one of: Active, Suspended, Deregistered"))
      >> on_agents (update_status true agent status)
      >>= λ old_status.
          insert_audit_log who (status_action status) (some (ex.uuid_text agent))
            (status_details old_status status)
          >> pure (agent, status)
