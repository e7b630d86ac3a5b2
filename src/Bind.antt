-- ===== src/Bind.antt =====
-- src/routes/bind.rs: the handler of POST /irl/bind-execution, which binds an exchange's report
-- to a pending trace and moves the agent's position.
pub mod Idempotent
pub mod Once
pub mod Race
use irl_engine_ax.Prelude.{
  ℕ, ℤ, not, ◌||◌, Text, codes, text_eq, to_ascii_lowercase, trim, starts_with, contains, Bool,
  true, false, Option, none, some, ok, err, if◌then◌else◌, Action, pure, lift, check, guard, ◌>>=◌,
  ◌>>◌,
}
use irl_engine_ax.Platform.{Float64, Externals, zero}
use irl_engine_ax.Errors.{AppError, trace_already_bound}
use irl_engine_ax.Asset.{AliasMap}
use irl_engine_ax.Binding.{
  BindExecutionRequest, BindExecutionResult, VerificationStatus, matched, reconcile,
}
use irl_engine_ax.Store.{Db}
use irl_engine_ax.Store.Ledger.{
  Intent, Fill, or_default, get_intent_for_binding, update_binding, upsert_position,
}

-- The handler's own keyword tests, in its order.
abbrev pub long_fill : Text → Bool
long_fill lower =
    starts_with lower (codes "long")
    || contains lower (codes "open_long")
    || starts_with lower (codes "buy")
    || text_eq lower (codes "open")

abbrev pub short_fill : Text → Bool
short_fill lower =
    starts_with lower (codes "short")
    || contains lower (codes "close_short")
    || starts_with lower (codes "sell")
    || text_eq lower (codes "close")
    || text_eq lower (codes "exit")
    || text_eq lower (codes "reverse")

unfoldable pub quantity_delta : {F : Type 0} ⦃fl : Float64 F⦄ → Text → F → F
quantity_delta ⦃fl⦄ action fill_qty =
    let lower = trim (to_ascii_lowercase action) in
    if long_fill lower then fill_qty else if short_fill lower then fl.neg fill_qty else zero

abbrev pub is_matched : VerificationStatus → Bool
is_matched matched = true
is_matched _ = false

module _ {F : Type 0} ⦃fl : Float64 F⦄ ⦃ex : Externals⦄ (div : F → F → F)
    (aliases : Option AliasMap) (bind_size_tolerance : F) where
  abbrev pub fill_of : BindExecutionRequest F → Intent F → ℕ → Fill F
  fill_of req intent agent = record {
    agent_id = agent;
    asset = intent.asset;
    venue_id = intent.venue_id;
    currency = intent.notional_currency;
    quantity_delta = quantity_delta intent.action (or_default req.executed_quantity zero);
    fill_price = req.execution_price;
    multiplier = intent.multiplier;
    trace_id = req.trace_id;
  }

  -- Lines 68 to 110: the position of a matched fill.
  unfoldable pub move_position :
      BindExecutionRequest F
      → Intent F
      → BindExecutionResult
      → Option ℕ
      → Action (Db F) (AppError F) (Unit {0})
  move_position req intent result none = pure tt
  move_position req intent result (some agent) =
      if is_matched result.verification_status
      then (if fl.eq (fill_of req intent agent).quantity_delta zero
          then pure tt
          else upsert_position div (fill_of req intent agent))
      else pure tt

  abbrev pub reconciled : ℤ → BindExecutionRequest F → Intent F → BindExecutionResult
  reconciled now req intent =
      reconcile aliases now req.trace_id intent.reasoning_hash req intent.asset intent.action
        intent.quantity bind_size_tolerance

  -- What follows the reading of the intent, which another call may come between.
  unfoldable pub bind_intent :
      ℤ → BindExecutionRequest F → Intent F → Action (Db F) (AppError F) BindExecutionResult
  unfolding move_position
  bind_intent now req intent =
      check (text_eq intent.verification_status (codes "PENDING"))
        (trace_already_bound (ex.uuid_text req.trace_id) intent.verification_status)
      >> update_binding (reconciled now req intent) req
      >> move_position req intent (reconciled now req intent) intent.agent_id
      >> pure (reconciled now req intent)

  unfoldable pub bind_execution :
      ℤ → BindExecutionRequest F → Action (Db F) (AppError F) BindExecutionResult
  unfolding bind_intent
  bind_execution now req =
      get_intent_for_binding req.trace_id >>= λ intent. bind_intent now req intent
