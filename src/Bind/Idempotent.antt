-- ===== src/Bind/Idempotent.antt =====
-- What binding under a PENDING intent does in a database that runs every statement.
use irl_engine_ax.Prelude.{
  ℕ, ℤ, ◌==◌, ◌≡◌, refl, ap, ◌∙◌, inl, inr, Text, codes, text_eq, true, false, List, [], ◌∷◌,
  Option, none, some, ok, find, update_where, Bool-cases, arith,
}
use irl_engine_ax.Platform.{Float64, Externals, zero}
use irl_engine_ax.Asset.{AliasMap}
use irl_engine_ax.Binding.{
  BindExecutionRequest, BindExecutionResult, verification_status_text, reconcile, status_for,
}
use irl_engine_ax.Store.{Db, TraceRow, statement}
use irl_engine_ax.Store.Ledger.{
  Intent, intent_of, get_intent_for_binding, update_binding, bound_row, has_id, upsert_position,
}
use irl_engine_ax.Bind.{bind_intent, move_position, reconciled, fill_of, is_matched}

module _ {F : Type 0} where
  -- The row that a query by id finds after an update by id.
  pub find-update_where :
      (id : ℕ) (f : TraceRow F → TraceRow F) (rows : List (TraceRow F)) (row : TraceRow F)
      → ((r : TraceRow F) → (f r).trace_id ≡ r.trace_id)
      → find (has_id id) rows ≡ some row
      → find (has_id id) (update_where (has_id id) f rows) ≡ some (f row)
  find-update_where id f [] row keeps h = ground arith
  find-update_where id f (r ∷ rows) row keeps h = elim (Bool-cases (r.trace_id == id)) [
    | inl e ↦
        (let q = rw e at h in
          let hit : has_id id (f r) ≡ true = ap (λ n. n == id) (keeps r) ∙ e in rw (e, hit) cc)
    | inr e ↦ rw (e, e) (find-update_where id f rows row keeps (rw e at h))
  ]

  pub bound_row-trace_id :
      ⦃fl : Float64 F⦄ (result : BindExecutionResult) (req : BindExecutionRequest F)
      (r : TraceRow F)
      → (bound_row result req r).trace_id ≡ r.trace_id
  unfolding bound_row
  bound_row-trace_id result req r = refl

module _ {F : Type 0} ⦃fl : Float64 F⦄ ⦃ex : Externals⦄ (div : F → F → F)
    (aliases : Option AliasMap) (tol : F) where
  pub status-final :
      (r : Option Text)
      → text_eq (verification_status_text (status_for r)) (codes "PENDING") ≡ false
  unfolding verification_status_text
  status-final none = refl
  status-final (some why) = refl

  -- With a database that runs every statement, moving the position touches no trace.
  move_position-ok :
      (req : BindExecutionRequest F) (intent : Intent F) (result : BindExecutionResult)
      (agent : Option ℕ) (db : Db F)
      → db.faults ≡ []
      → (db' : Db F) × ((move_position div aliases tol req intent result agent db ≡ (ok tt, db'))
          × ((db'.faults ≡ []) × (db'.traces ≡ db.traces)))
  unfolding move_position upsert_position statement
  move_position-ok req intent result none db nf = (db, (refl, (nf, refl)))
  move_position-ok req intent result (some agent) db nf =
      let fill = fill_of div aliases tol req intent agent in
      elim (Bool-cases (is_matched result.verification_status)) [
        | inr e ↦ (db, (rw e, (nf, refl)))
        | inl e ↦ elim (Bool-cases (fl.eq fill.quantity_delta zero)) [
          | inl g ↦ (db, (rw (e, g), (nf, refl)))
          | inr g ↦ ((upsert_position div fill db).1, (rw (e, g, nf), (rw nf, rw nf)))
        ]
      ]

  update_binding-ok :
      (result : BindExecutionResult) (req : BindExecutionRequest F) (db : Db F)
      → db.faults ≡ []
      → update_binding result req db ≡ (
        ok tt,
        record {
          traces = update_where (has_id result.trace_id) (bound_row result req) db.traces;
          positions = db.positions;
          faults = [];
        },
      )
  unfolding update_binding statement
  update_binding-ok result req db nf = rw nf

  get_intent-ok :
      (id : ℕ) (db : Db F) (row : TraceRow F)
      → db.faults ≡ []
      → find (has_id id) db.traces ≡ some row
      → get_intent_for_binding id db ≡ (ok (intent_of row), db)
  unfolding get_intent_for_binding statement
  get_intent-ok id db row nf found = rw (nf, found)

  -- What binding under a PENDING intent does, whatever happened since the intent was read.
  pub bind_intent-ok :
      (now : ℤ) (req : BindExecutionRequest F) (intent : Intent F) (db : Db F) (row : TraceRow F)
      → db.faults ≡ []
      → find (has_id req.trace_id) db.traces ≡ some row
      → text_eq intent.verification_status (codes "PENDING") ≡ true
      → let result = reconciled div aliases tol now req intent in
        (db' : Db F) × ((bind_intent div aliases tol now req intent db ≡ (ok result, db'))
          × ((db'.faults ≡ [])
              × (find (has_id req.trace_id) db'.traces ≡ some (bound_row result req row))))
  unfolding bind_intent reconcile
  bind_intent-ok now req intent db row nf found h =
      let result = reconciled div aliases tol now req intent in
      let (db', (moved, (nf', same))) =
        move_position-ok req intent result intent.agent_id
          (record {
            traces = update_where (has_id req.trace_id) (bound_row result req) db.traces;
            positions = db.positions;
            faults = [];
          })
          refl in
      let later =
        find-update_where req.trace_id (bound_row result req) db.traces row
          (bound_row-trace_id result req) found in
      (db', (rw (h, update_binding-ok result req db nf, moved), (nf', rw same later)))

  pub intent-status :
      (row : TraceRow F)
      → text_eq row.verification_status (codes "PENDING") ≡ true
      → text_eq (intent_of row).verification_status (codes "PENDING") ≡ true
  unfolding intent_of
  intent-status row h = h
