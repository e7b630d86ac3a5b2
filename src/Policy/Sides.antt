-- ===== src/Policy/Sides.antt =====
-- Orders whose direction is not known.
use irl_engine_ax.Prelude.{
  ℕ, ◌==◌, ◌≡◌, refl, ap, ◌∙◌, Text, codes, Bool, false, List, err, any, eq_ignore_ascii_case,
  Bool-cases, inl, inr,
}
use irl_engine_ax.Platform.{Float64, Externals}
use irl_engine_ax.Errors.{policy, regime_violation}
use irl_engine_ax.Snapshot.{TradeAction, direction, action_text}
use irl_engine_ax.Mta.{MtaState, regime_constraints}
use irl_engine_ax.Policy.{
  enforce, check_constraints, action_side, side_allowed, policy_id_const, policy_version_const,
}

abbrev open_to : List Text → Text → Bool
open_to sides side = any (λ s. eq_ignore_ascii_case s side) sides

regime_sides-unknown :
    (F : Type 0) ⦃fl : Float64 F⦄ (id : ℕ)
    → open_to (regime_constraints {F = F} id).2 (codes "unknown") ≡ false
unfolding regime_constraints eq_ignore_ascii_case
regime_sides-unknown F id = elim (Bool-cases (id == 0)) [
  | inl e ↦ rw e refl
  | inr e ↦ elim (Bool-cases (id == 1)) [
    | inl f ↦ rw (e, f) refl
    | inr f ↦ elim (Bool-cases (id == 2)) [
      | inl g ↦ rw (e, f, g) refl
      | inr g ↦ elim (Bool-cases (id == 3)) [
        | inl h ↦ rw (e, f, g, h) refl
        | inr h ↦ rw (e, f, g, h) refl
      ]
    ]
  ]
]

module _ {F : Type 0} ⦃fl : Float64 F⦄ where
  -- Under the sides of every MacroPulse regime, an order whose direction is "unknown" and that does
  -- not reduce a position is refused as a regime violation.
  pub enforce-unknown :
      ⦃ex : Externals⦄ (mta : MtaState F) (id : ℕ) (action : TradeAction F) (notional cap : F)
      → mta.allowed_sides ≡ (regime_constraints {F = F} id).2
      → direction action ≡ codes "unknown"
      → enforce mta action notional cap false
        ≡ err (
            policy (
              regime_violation
                (action_text action)
                mta.regime_label
                policy_id_const
                policy_version_const))
  unfolding enforce check_constraints action_side
  enforce-unknown mta id action notional cap sides unknown =
      let closed : side_allowed mta action ≡ false =
        ap (λ x. open_to x (direction action)) sides
        ∙ ap (open_to (regime_constraints {F = F} id).2) unknown
        ∙ regime_sides-unknown F id in
      rw closed
