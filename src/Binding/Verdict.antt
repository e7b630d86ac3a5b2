-- ===== src/Binding/Verdict.antt =====
-- When a reconciliation ends in MATCHED: `reconcile` of src/binding.rs.
use irl_engine_ax.Prelude.{
  ℤ, ℕ, Text, true, false, Option, none, some, ◌≡◌, refl, ◌↔◌, ◌⊎◌, inl, inr, eq_ignore_ascii_case,
  arith,
}
use irl_engine_ax.Platform.{Float64, Externals, zero}
use irl_engine_ax.Seal.{compute_final_proof}
use irl_engine_ax.Asset.{AliasMap, assets_match}
use irl_engine_ax.Binding.{
  BindExecutionRequest, matched, divergent, reconcile, resolve_direction, asset_check, side_check,
  quantity_check, or_else, status_for,
}

-- The three conditions on a report; what it leaves out is not checked.
abbrev pub AssetAgrees : Option AliasMap → Option Text → Text → Type 0
AssetAgrees aliases none intent_asset = Unit
AssetAgrees aliases (some a) intent_asset = assets_match aliases a intent_asset ≡ true

abbrev pub SideAgrees : Option Text → Text → Type 0
SideAgrees none intent_action = Unit
SideAgrees (some s) intent_action = eq_ignore_ascii_case s (resolve_direction intent_action) ≡ true

abbrev pub QuantityAgrees : {F : Type 0} ⦃fl : Float64 F⦄ → Option F → F → F → Type 0
QuantityAgrees none intended tol = Unit
QuantityAgrees ⦃fl⦄ (some q) intended tol =
    (fl.gt intended zero ≡ false)
    ⊎ (fl.gt (fl.abs (fl.sub intended q)) (fl.mul intended tol) ≡ false)

asset_check_iff :
    (aliases : Option AliasMap) (a : Option Text) (intended : Text)
    → (asset_check aliases a intended ≡ none) ↔ AssetAgrees aliases a intended
unfolding asset_check
asset_check_iff aliases none intended = ground arith
asset_check_iff aliases (some a) intended = ground arith

side_check_iff :
    (s : Option Text) (action : Text) → (side_check s action ≡ none) ↔ SideAgrees s action
unfolding side_check
side_check_iff none action = ground arith
side_check_iff (some s) action = ground arith

quantity_check_iff :
    {F : Type 0} ⦃fl : Float64 F⦄ (q : Option F) (intended tol : F)
    → (quantity_check q intended tol ≡ none) ↔ QuantityAgrees q intended tol
unfolding quantity_check
quantity_check_iff none intended tol = ground arith
quantity_check_iff (some q) intended tol = ground arith

matched_iff : (r : Option Text) → (status_for r ≡ matched) ↔ (r ≡ none)
matched_iff r = ground arith

or_else_iff : (a b : Option Text) → (or_else a b ≡ none) ↔ ((a ≡ none) × (b ≡ none))
or_else_iff a b = ground arith

combine :
    (a b c : Option Text) {A B C : Type 0}
    → (a ≡ none) ↔ A
    → (b ≡ none) ↔ B
    → (c ≡ none) ↔ C
    → (status_for (or_else a (or_else b c)) ≡ matched) ↔ (A × (B × C))
combine a b c (fa, ga) (fb, gb) (fc, gc) = (
  λ m.
      let (ha, hbc) =
        (or_else_iff a (or_else b c)).0 ((matched_iff (or_else a (or_else b c))).0 m) in
      let (hb, hc) = (or_else_iff b c).0 hbc in (fa ha, (fb hb, fc hc)),
  λ (ha, (hb, hc)).
      (matched_iff (or_else a (or_else b c))).1
        ((or_else_iff a (or_else b c)).1 (ga ha, (or_else_iff b c).1 (gb hb, gc hc))),
)

outcome :
    (r : Option Text)
    → ((status_for r ≡ matched) × (r ≡ none))
      ⊎ ((status_for r ≡ divergent) × ((why : Text) × (r ≡ some why)))
outcome none = inl (refl, refl)
outcome (some why) = inr (refl, (why, refl))

module _ {F : Type 0} ⦃fl : Float64 F⦄ ⦃ex : Externals⦄ where
  -- What a reconciliation says of a report.
  abbrev pub Verdict :
      Option AliasMap → ℤ → ℕ → Text → BindExecutionRequest F → Text → Text → F → F → Type 0
  Verdict aliases now trace_id reasoning_hash req asset action quantity tol =
      let r = reconcile aliases now trace_id reasoning_hash req asset action quantity tol in
      ((r.verification_status ≡ matched) ↔ (
        AssetAgrees aliases req.asset asset
        × (SideAgrees req.executed_side action
            × QuantityAgrees req.executed_quantity quantity tol)))
      × (((r.verification_status ≡ matched) × (r.divergence_reason ≡ none))
          ⊎ ((r.verification_status ≡ divergent)
              × ((why : Text) × (r.divergence_reason ≡ some why))))
      × (r.final_proof ≡ compute_final_proof reasoning_hash req.exchange_tx_id)

  -- A report is MATCHED exactly when the asset and the side, each where it is reported, agree with
  -- the intent, and the quantity, where it is reported and the intended one is positive, differs from
  -- it by no more than the tolerance times the intended one; else it is DIVERGENT, with a reason. The
  -- final proof is that of the reasoning hash and the exchange's id either way.
  pub reconcile-matched_iff :
      (aliases : Option AliasMap) (now : ℤ) (trace_id : ℕ) (reasoning_hash : Text)
      (req : BindExecutionRequest F) (asset action : Text) (quantity tol : F)
      → Verdict aliases now trace_id reasoning_hash req asset action quantity tol
  unfolding reconcile
  reconcile-matched_iff aliases now trace_id reasoning_hash req asset action quantity tol =
      let a = asset_check aliases req.asset asset in
      let b = side_check req.executed_side action in
      let c = quantity_check req.executed_quantity quantity tol in
      (
        combine a b c (asset_check_iff aliases req.asset asset)
            (side_check_iff req.executed_side action)
            (quantity_check_iff req.executed_quantity quantity tol),
        outcome (or_else a (or_else b c)),
        refl,
      )
