-- ===== src/Binding.antt =====
-- src/binding.rs: what is reported of an execution, and its reconciliation with the intent. Times
-- are Unix milliseconds; `now` is the reading of the wall clock.
pub mod Verdict
pub mod Sides
use irl_engine_ax.Prelude.{
  ℕ, ℤ, Text, codes, text_eq, to_ascii_lowercase, trim, starts_with, contains, eq_ignore_ascii_case,
  Bool, true, false, not, ◌&&◌, ◌||◌, Option, none, some, if◌then◌else◌, ◌++◌,
}
use irl_engine_ax.Platform.{Float64, Externals, zero}
use irl_engine_ax.Seal.{compute_final_proof}
use irl_engine_ax.Asset.{AliasMap, assets_match}

pub data VerificationStatus : Type 0 where
  pending matched divergent orphan expired mismatch : VerificationStatus

-- `Display for VerificationStatus`
unfoldable pub verification_status_text : VerificationStatus → Text
verification_status_text pending = codes "PENDING"
verification_status_text matched = codes "MATCHED"
verification_status_text divergent = codes "DIVERGENT"
verification_status_text orphan = codes "ORPHAN"
verification_status_text expired = codes "EXPIRED"
verification_status_text mismatch = codes "MISMATCH"

pub data ExecutionStatus : Type 0 where
  filled rejected partial : ExecutionStatus

-- `Display for ExecutionStatus`
unfoldable pub execution_status_text : ExecutionStatus → Text
execution_status_text filled = codes "FILLED"
execution_status_text rejected = codes "REJECTED"
execution_status_text partial = codes "PARTIAL"

pub record BindExecutionRequest (F : Type 0) : Type 0 where
  pub trace_id : ℕ
  pub exchange_tx_id : Text
  pub execution_status : ExecutionStatus
  pub asset : Option Text
  pub executed_quantity : Option F
  pub execution_price : Option F
  pub executed_side : Option Text
  pub execution_time_ms : Option ℤ

pub record BindExecutionResult : Type 0 where
  pub trace_id : ℕ
  pub final_proof : Text
  pub verification_status : VerificationStatus
  pub execution_status : Text
  pub execution_time : ℤ
  pub divergence_reason : Option Text

-- The two keyword tests, over the lower-case trimmed text.
abbrev pub long_keyword : Text → Bool
long_keyword lower =
    starts_with lower (codes "long")
    || starts_with lower (codes "buy")
    || contains lower (codes "open_long")
    || text_eq lower (codes "open")

abbrev pub short_keyword : Text → Bool
short_keyword lower =
    starts_with lower (codes "short")
    || starts_with lower (codes "sell")
    || contains lower (codes "close_short")
    || text_eq lower (codes "close")
    || text_eq lower (codes "exit")
    || text_eq lower (codes "reverse")

unfoldable pub resolve_direction : Text → Text
resolve_direction action =
    let lower = trim (to_ascii_lowercase action) in
    if long_keyword lower
    then codes "long"
    else if short_keyword lower
    then codes "short"
    else codes "neutral"

-- The three checks of `reconcile`, each with the reason that it gives.
unfoldable pub asset_check : Option AliasMap → Option Text → Text → Option Text
asset_check aliases none intent_asset = none
asset_check aliases (some exec_asset) intent_asset =
    if not (assets_match aliases exec_asset intent_asset)
    then some
        (codes "Asset mismatch: authorized " ++ intent_asset ++ codes ", executed " ++ exec_asset)
    else none

unfoldable pub side_check : Option Text → Text → Option Text
side_check none intent_action = none
side_check (some exec_side) intent_action =
    let intent_side = resolve_direction intent_action in
    if not (eq_ignore_ascii_case exec_side intent_side)
    then some
        (codes "Side mismatch: authorized " ++ intent_side ++ codes ", executed " ++ exec_side)
    else none

-- The first reason found.
abbrev pub or_else : Option Text → Option Text → Option Text
or_else (some r) other = some r
or_else none other = other

abbrev pub status_for : Option Text → VerificationStatus
status_for none = matched
status_for (some _) = divergent

-- The exchange's fill time if it is given and in range.
abbrev pub fill_time : ⦃ex : Externals⦄ → Option ℤ → ℤ → ℤ
fill_time none now = now
fill_time ⦃ex⦄ (some ms) now = elim (ex.timestamp_millis_opt ms) [ none ↦ now | some t ↦ t ]

module _ {F : Type 0} ⦃fl : Float64 F⦄ where
  unfoldable pub quantity_check : Option F → F → F → Option Text
  quantity_check none intent_quantity size_tolerance = none
  quantity_check (some executed_qty) intent_quantity size_tolerance =
      let delta = fl.abs (fl.sub intent_quantity executed_qty) in
      if fl.gt intent_quantity zero && fl.gt delta (fl.mul intent_quantity size_tolerance)
      then some (
          codes "Quantity outside tolerance: authorized "
          ++ fl.fixed 4 intent_quantity
          ++ codes ", executed "
          ++ fl.fixed 4 executed_qty
          ++ codes ", delta "
          ++ fl.fixed 4 delta)
      else none

  unfoldable pub reconcile :
      ⦃ex : Externals⦄
      → Option AliasMap
      → ℤ
      → ℕ
      → Text
      → BindExecutionRequest F
      → Text
      → Text
      → F
      → F
      → BindExecutionResult
  unfolding asset_check side_check quantity_check
  reconcile aliases now trace_id reasoning_hash req intent_asset intent_action intent_quantity tol =
      let reason = or_else (asset_check aliases req.asset intent_asset) (
        or_else (side_check req.executed_side intent_action)
          (quantity_check req.executed_quantity intent_quantity tol)) in
      record {
        trace_id = trace_id;
        final_proof = compute_final_proof reasoning_hash req.exchange_tx_id;
        verification_status = status_for reason;
        execution_status = execution_status_text req.execution_status;
        execution_time = fill_time req.execution_time_ms now;
        divergence_reason = reason;
      }
