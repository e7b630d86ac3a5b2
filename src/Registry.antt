-- ===== src/Registry.antt =====
-- src/registry.rs: the agents, their registration and status, and the identity check of an
-- authorize request.
pub mod Identity
use irl_engine_ax.Prelude.{
  ℕ, ◌==◌, not, Text, codes, text_eq, Bool, true, false, List, [], ◌∷◌, Option, none, some, Result,
  ok, err, ok_or, and_then, guard, if◌then◌else◌, any, find, update_where, Action, gets, ◌>>=◌,
  ◌>>◌,
}
use irl_engine_ax.Platform.{Float64, Externals}
use irl_engine_ax.Errors.{
  AppError, policy, database, serialization, agent_not_found, agent_not_active, model_hash_mismatch,
  regime_unauthorized, mta_pubkey_unauthorized,
}

-- A row of irl.agent_registry.
pub record AgentProfile (F : Type 0) : Type 0 where
  pub agent_id : ℕ
  pub name : Text
  pub model_hash_hex : Text
  pub policy_module_id : Text
  pub allowed_regimes : Option (List ℕ)
  pub max_notional : F
  pub max_leverage : F
  pub allowed_venues : Option (List Text)
  pub status : Text
  pub allowed_mta_pubkeys : Option (List Text)

pub record RegisterAgentRequest (F : Type 0) : Type 0 where
  pub name : Text
  pub model_hash_hex : Text
  pub policy_module_id : Option Text
  pub allowed_regimes : Option (List ℕ)
  pub max_notional : Option F
  pub max_leverage : Option F
  pub allowed_venues : Option (List Text)
  pub allowed_mta_pubkeys : Option (List Text)

abbrev pub Agents : Type 0 → Type 0
Agents F = List (AgentProfile F)

abbrev pub bytes_eq : List ℕ → List ℕ → Bool
bytes_eq = text_eq

abbrev pub is_agent : {F : Type 0} → ℕ → AgentProfile F → Bool
is_agent agent profile = profile.agent_id == agent

-- `None` allows everything.
abbrev pub regime_allowed : Option (List ℕ) → ℕ → Bool
regime_allowed none regime = true
regime_allowed (some allowed) regime = any (λ r. r == regime) allowed

abbrev pub pubkey_allowed : Option (List Text) → Text → Bool
pubkey_allowed none fingerprint = true
pubkey_allowed (some keys) fingerprint = any (λ k. text_eq k fingerprint) keys

module _ {F : Type 0} where
  -- Each query is an argument `up`: whether the database runs it.
  unfoldable pub fetch_profile : Bool → Agents F → ℕ → Result (AppError F) (AgentProfile F)
  fetch_profile up agents agent =
      and_then (guard up database)
        λ _. ok_or (find (is_agent agent) agents) (policy agent_not_found)

  unfoldable pub check_profile :
      ⦃ex : Externals⦄ → AgentProfile F → List ℕ → ℕ → Text → Result (AppError F) (AgentProfile F)
  check_profile ⦃ex⦄ profile observed_model_hash current_regime fingerprint =
      if not (text_eq profile.status (codes "Active"))
      then err (policy agent_not_active)
      else and_then
          (ok_or (ex.hex_decode profile.model_hash_hex)
            (serialization (codes "Corrupted model_hash_hex in agent registry")))
          λ registered_hash.
            if not (bytes_eq registered_hash observed_model_hash)
            then err (policy model_hash_mismatch)
            else if not (regime_allowed profile.allowed_regimes current_regime)
            then err (policy (regime_unauthorized current_regime))
            else if not (pubkey_allowed profile.allowed_mta_pubkeys fingerprint)
            then err (policy (mta_pubkey_unauthorized fingerprint))
            else ok profile

  unfoldable pub authorize_agent :
      ⦃ex : Externals⦄
      → Bool
      → Agents F
      → ℕ
      → List ℕ
      → ℕ
      → Text
      → Result (AppError F) (AgentProfile F)
  unfolding fetch_profile check_profile
  authorize_agent up agents agent observed_model_hash current_regime fingerprint =
      and_then (fetch_profile up agents agent)
        λ profile. check_profile profile observed_model_hash current_regime fingerprint

-- `Option::unwrap_or`
abbrev pub or_value {ℓ} : {A : Type ℓ} → Option A → A → A
or_value none d = d
or_value (some a) d = a

module _ {F : Type 0} ⦃fl : Float64 F⦄ where
  -- The row that the INSERT makes, with the column's default status; the database draws the id.
  unfoldable pub new_profile : ℕ → RegisterAgentRequest F → AgentProfile F
  new_profile agent req = record {
    agent_id = agent;
    name = req.name;
    model_hash_hex = req.model_hash_hex;
    policy_module_id = or_value req.policy_module_id (codes "default");
    allowed_regimes = req.allowed_regimes;
    max_notional = fl.column (or_value req.max_notional (fl.decimal 1000000 0));
    max_leverage = fl.column (or_value req.max_leverage (fl.decimal 4 0));
    allowed_venues = req.allowed_venues;
    status = codes "Active";
    allowed_mta_pubkeys = req.allowed_mta_pubkeys;
  }

  unfoldable pub register_agent :
      Bool → ℕ → RegisterAgentRequest F → Action (Agents F) (AppError F) ℕ
  unfolding new_profile
  register_agent up agent req agents =
      if up then (ok agent, new_profile agent req ∷ agents) else (err database, agents)

abbrev pub set_status : {F : Type 0} → Text → AgentProfile F → AgentProfile F
set_status status profile = record profile { status = status }

-- The old status, which the common table expression reads before the UPDATE.
unfoldable pub update_status : {F : Type 0} → Bool → ℕ → Text → Action (Agents F) (AppError F) Text
update_status up agent status agents = elim (find (is_agent agent) agents) [
  | none ↦ (if up then (err (policy agent_not_found), agents) else (err database, agents))
  | some old ↦
      if up
      then (ok old.status, update_where (is_agent agent) (set_status status) agents)
      else (err database, agents)
]
