-- ===== src/Policy/Limits.antt =====
-- What the policy lets through.
use irl_engine_ax.Prelude.{Bool, true, false, ◌≡◌, ◌↔◌, ◌⊎◌, ok, err, arith}
use irl_engine_ax.Platform.{Float64, Externals}
use irl_engine_ax.Errors.{AppError}
use irl_engine_ax.Snapshot.{TradeAction}
use irl_engine_ax.Mta.{MtaState}
use irl_engine_ax.Policy.{
  allowed, halted, check_constraints, evaluate, enforce, side_allowed, decision_of,
}

module _ {F : Type 0} ⦃fl : Float64 F⦄ ⦃ex : Externals⦄ where
  -- An order passes the policy exactly when its side is open in the regime or it only reduces a
  -- position, and its notional is not above the agent's cap times the regime's scale.
  pub enforce_iff :
      (mta : MtaState F) (action : TradeAction F) (notional cap : F) (reduce_only : Bool)
      → (enforce mta action notional cap reduce_only ≡ ok (decision_of mta allowed)) ↔ (
          ((reduce_only ≡ true) ⊎ (side_allowed mta action ≡ true))
          × (fl.gt notional (fl.mul cap mta.max_notional_scale) ≡ false))
  unfolding enforce check_constraints
  enforce_iff mta action notional cap reduce_only = ground arith

  -- `evaluate` records the verdict on which `enforce` acts: an order is enforced with a decision
  -- exactly as `evaluate` gives it, and it is refused exactly when `evaluate` records a halt.
  pub enforce-evaluate :
      (mta : MtaState F) (action : TradeAction F) (notional cap : F) (reduce_only : Bool)
      → ((enforce mta action notional cap reduce_only
            ≡ ok (evaluate mta action notional cap reduce_only))
          × ((evaluate mta action notional cap reduce_only).result ≡ allowed))
        ⊎ ((e : AppError F) × (enforce mta action notional cap reduce_only ≡ err e)
            × ((evaluate mta action notional cap reduce_only).result ≡ halted))
  unfolding enforce evaluate check_constraints
  enforce-evaluate mta action notional cap reduce_only = ground arith
