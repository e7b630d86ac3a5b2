-- ===== src/Bind/Race.antt =====
-- Two calls that both read the trace before either binds it: nothing in the UPDATE of
-- `db::update_binding` asks that the trace is still PENDING.
use irl_engine_ax.Prelude.{ℤ, ◌≡◌, refl, codes, text_eq, true, [], Option, some, ok, find}
use irl_engine_ax.Platform.{Float64, Externals}
use irl_engine_ax.Asset.{AliasMap}
use irl_engine_ax.Seal.{compute_final_proof}
use irl_engine_ax.Binding.{BindExecutionRequest, reconcile}
use irl_engine_ax.Store.{Db, TraceRow}
use irl_engine_ax.Store.Ledger.{intent_of, bound_row, has_id}
use irl_engine_ax.Bind.{bind_intent, reconciled}
use irl_engine_ax.Bind.Idempotent.{bind_intent-ok, intent-status}

module _ {F : Type 0} ⦃fl : Float64 F⦄ ⦃ex : Externals⦄ (div : F → F → F)
    (aliases : Option AliasMap) (tol : F) where
  bound_row-final_proof :
      (now : ℤ) (req : BindExecutionRequest F) (row other : TraceRow F)
      → (bound_row (reconciled div aliases tol now req (intent_of row)) req other).final_proof
        ≡ some (compute_final_proof row.reasoning_hash req.exchange_tx_id)
  unfolding bound_row reconcile intent_of
  bound_row-final_proof now req row other = refl

  -- Two calls under one reading of a row both succeed, and the last proof written is the second's.
  abbrev pub BothBound :
      ℤ → ℤ → BindExecutionRequest F → BindExecutionRequest F → Db F → TraceRow F → Type 0
  BothBound now_a now_b a b db row =
      let first = bind_intent div aliases tol now_a a (intent_of row) db in
      let second = bind_intent div aliases tol now_b b (intent_of row) first.1 in
      (first.0 ≡ ok (reconciled div aliases tol now_a a (intent_of row)))
      × (second.0 ≡ ok (reconciled div aliases tol now_b b (intent_of row)))
      × ((last : TraceRow F) × ((find (has_id b.trace_id) second.1.traces ≡ some last)
            × (last.final_proof ≡ some (compute_final_proof row.reasoning_hash b.exchange_tx_id))))

  -- Two calls that read a PENDING trace before either of them has bound it both succeed, and the
  -- final proof of the one that writes last replaces the other's.
  pub bind_intent-both :
      (now_a now_b : ℤ) (a b : BindExecutionRequest F) (db : Db F) (row : TraceRow F)
      → db.faults ≡ []
      → find (has_id a.trace_id) db.traces ≡ some row
      → b.trace_id ≡ a.trace_id
      → text_eq row.verification_status (codes "PENDING") ≡ true
      → BothBound now_a now_b a b db row
  bind_intent-both now_a now_b a b db row nf found same h =
      let pending = intent-status div aliases tol row h in
      let bound = bound_row (reconciled div aliases tol now_a a (intent_of row)) a row in
      let (db1, (e1, (nf1, found1))) =
        bind_intent-ok div aliases tol now_a a (intent_of row) db row nf found pending in
      let (db2, (e2, (nf2, found2))) =
        bind_intent-ok div aliases tol now_b b (intent_of row) db1 bound nf1 (rw same found1)
          pending in
      let last = bound_row (reconciled div aliases tol now_b b (intent_of row)) b bound in
      rw (e1, e2) (refl, refl, (last, (found2, bound_row-final_proof now_b b row bound)))
