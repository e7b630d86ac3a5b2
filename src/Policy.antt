-- ===== src/Policy.antt =====
-- src/policy.rs: the constraint policy. A regime gives the sides that are open and the scale of
-- each agent's notional cap.
pub mod Limits
pub mod Sides
use irl_engine_ax.Prelude.{
  ℕ, Text, codes, Bool, not, ◌&&◌, ◌%◌, ◌/◌, ◌^◌, List, [], ◌∷◌, ◌++◌, Result, ok, err, and_then,
  if◌then◌else◌, any, eq_ignore_ascii_case, as_bytes,
}
use irl_engine_ax.Platform.{Float64, Externals}
use irl_engine_ax.Errors.{AppError, policy, regime_violation, notional_exceeds_limit}
use irl_engine_ax.Snapshot.{TradeAction, direction, action_text}
use irl_engine_ax.Mta.{MtaState}

pub data PolicyResult : Type 0 where
  allowed halted shadow_halted : PolicyResult

-- `Display for PolicyResult`
unfoldable pub policy_result_text : PolicyResult → Text
policy_result_text allowed = codes "ALLOWED"
policy_result_text halted = codes "HALTED"
policy_result_text shadow_halted = codes "SHADOW_HALTED"

pub record PolicyDecision : Type 0 where
  pub result : PolicyResult
  pub policy_id : Text
  pub policy_version : Text
  pub policy_hash : Text

abbrev pub policy_id_const : Text
policy_id_const = codes "IrlConstraintPolicy"

abbrev pub policy_version_const : Text
policy_version_const = codes "1.0.0"

-- The bytes of a u64, the lowest first.
abbrev u64_to_le_bytes : ℕ → List ℕ
u64_to_le_bytes n =
    (n % 256)
    ∷ (n / 2 ^ 8 % 256)
    ∷ (n / 2 ^ 16 % 256)
    ∷ (n / 2 ^ 24 % 256)
    ∷ (n / 2 ^ 32 % 256)
    ∷ (n / 2 ^ 40 % 256)
    ∷ (n / 2 ^ 48 % 256)
    ∷ (n / 2 ^ 56 % 256)
    ∷ []

side_bytes : List Text → List ℕ
side_bytes [] = []
side_bytes (s ∷ ss) = as_bytes s ++ (as_bytes (codes ",") ++ side_bytes ss)

module _ {F : Type 0} ⦃fl : Float64 F⦄ where
  unfoldable pub action_side : TradeAction F → Text
  action_side action = direction action

  unfoldable pub constraint_hash : ⦃ex : Externals⦄ → MtaState F → Text
  unfolding side_bytes
  constraint_hash ⦃ex⦄ mta =
      let bar = as_bytes (codes "|") in
      ex.hex_encode (
        ex.sha256 (
          (mta.regime_id ∷ [])
          ++ (bar
              ++ (as_bytes mta.version
                  ++ (bar
                      ++ (u64_to_le_bytes (fl.to_bits mta.risk_level)
                          ++ (bar
                              ++ (u64_to_le_bytes (fl.to_bits mta.max_notional_scale)
                                  ++ (bar ++ side_bytes mta.allowed_sides)))))))))

  -- `allowed_sides.iter().any(|s| s.eq_ignore_ascii_case(side))`
  abbrev pub side_allowed : MtaState F → TradeAction F → Bool
  side_allowed mta action = any (λ s. eq_ignore_ascii_case s (action_side action)) mta.allowed_sides

  abbrev pub effective_cap : MtaState F → F → F
  effective_cap mta agent_notional_cap = fl.mul agent_notional_cap mta.max_notional_scale

  unfoldable pub check_constraints :
      MtaState F → TradeAction F → F → F → Bool → Result (AppError F) (Unit {0})
  check_constraints mta action notional agent_notional_cap reduce_only =
      if not reduce_only && not (side_allowed mta action)
      then err (
          policy (
            regime_violation (action_text action) mta.regime_label policy_id_const
              policy_version_const))
      else if fl.gt notional (effective_cap mta agent_notional_cap)
      then err (
          policy (
            notional_exceeds_limit notional (effective_cap mta agent_notional_cap) mta.regime_label
              policy_id_const))
      else ok tt

  module _ ⦃ex : Externals⦄ where
    abbrev pub decision_of : MtaState F → PolicyResult → PolicyDecision
    decision_of mta result = record {
      result = result;
      policy_id = policy_id_const;
      policy_version = policy_version_const;
      policy_hash = constraint_hash mta;
    }

    abbrev pub verdict : Result (AppError F) (Unit {0}) → PolicyResult
    verdict (ok _) = allowed
    verdict (err _) = halted

    unfoldable pub evaluate : MtaState F → TradeAction F → F → F → Bool → PolicyDecision
    evaluate mta action notional agent_notional_cap reduce_only =
        decision_of mta
          (verdict (check_constraints mta action notional agent_notional_cap reduce_only))

    unfoldable pub enforce :
        MtaState F → TradeAction F → F → F → Bool → Result (AppError F) PolicyDecision
    enforce mta action notional agent_notional_cap reduce_only =
        and_then (check_constraints mta action notional agent_notional_cap reduce_only)
          (λ _. ok (decision_of mta allowed))
