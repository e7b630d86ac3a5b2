-- ===== src/Bind/Once.antt =====
-- A trace is bound once: what later calls, for any traces, and sweeps of the expiry worker do to a
-- row that is not PENDING, whatever statements fail.
use irl_engine_ax.Prelude.{
  continue, pure, ok-injective, ℕ, ℤ, ◌==◌, ◌≡◌, refl, sym, ap, ◌∙◌, ◌⊎◌, inl, inr, Text, codes,
  text_eq, Bool, true, false, List, [], ◌∷◌, Option, none, some, Result, ok, err, find,
  update_where, Bool-cases, Option-cases, arith, ==_iff,
}
use mathlib.Core.Path.{subst}
use irl_engine_ax.Platform.{Float64, Externals, zero}
use irl_engine_ax.Errors.{AppError, database, trace_already_bound}
use irl_engine_ax.Asset.{AliasMap}
use irl_engine_ax.Binding.{
  BindExecutionRequest, BindExecutionResult, verification_status_text, reconcile,
}
use irl_engine_ax.Store.{Db, TraceRow, statement, take_fault}
use irl_engine_ax.Store.Ledger.{
  Intent, intent_of, get_intent_for_binding, update_binding, bound_row, has_id, upsert_position,
}
use irl_engine_ax.Store.Ledger.Expiry.{expire_pending, is_stale, expire_row}
use irl_engine_ax.Bind.{bind_execution, bind_intent, move_position, reconciled, fill_of, is_matched}
use irl_engine_ax.Bind.Idempotent.{find-update_where, bound_row-trace_id, status-final}

-- What follows the reading of an intent, or the sweep.
module _ {F : Type 0} where
  -- A statement runs or fails, and changes no row.
  abbrev Sent : Db F → Type 0
  Sent db =
      (db' : Db F) × (db'.traces ≡ db.traces)
      × ((statement db ≡ (err database, db')) ⊎ (statement db ≡ (ok tt, db')))

  take_fault-Sent :
      (fs : List Bool) (db : Db F)
      → (db' : Db F) × (db'.traces ≡ db.traces)
        × ((take_fault fs db ≡ (err database, db')) ⊎ (take_fault fs db ≡ (ok tt, db')))
  take_fault-Sent [] db = (db, refl, inr refl)
  take_fault-Sent (true ∷ fs) db = (record db { faults = fs }, refl, inl refl)
  take_fault-Sent (false ∷ fs) db = (record db { faults = fs }, refl, inr refl)

  sent : (db : Db F) → Sent db
  unfolding statement
  sent db = take_fault-Sent db.faults db

  -- A query by id gives a row that is not PENDING.
  abbrev pub Final : ℕ → TraceRow F → Db F → Type 0
  Final id row db =
      (find (has_id id) db.traces ≡ some row)
      × (text_eq row.verification_status (codes "PENDING") ≡ false)

  moved :
      (id : ℕ) (row : TraceRow F) (db db' : Db F)
      → db'.traces ≡ db.traces
      → Final id row db
      → Final id row db'
  moved id row db db' e (h, k) = (ap (find (has_id id)) e ∙ h, k)

  found-id :
      (id : ℕ) (rows : List (TraceRow F)) (row : TraceRow F)
      → find (has_id id) rows ≡ some row
      → row.trace_id ≡ id
  found-id id [] row h = ground arith
  found-id id (r ∷ rows) row h = elim (Bool-cases (r.trace_id == id)) [
    | inl e ↦ ground (arith, rw e at h, ==_iff r.trace_id id)
    | inr e ↦ found-id id rows row (rw e at h)
  ]

  -- An update of another trace's rows.
  find-update_other :
      (id other : ℕ) (f : TraceRow F → TraceRow F) (rows : List (TraceRow F)) (row : TraceRow F)
      → ((r : TraceRow F) → (f r).trace_id ≡ r.trace_id)
      → (other == id) ≡ false
      → find (has_id id) rows ≡ some row
      → find (has_id id) (update_where (has_id other) f rows) ≡ some row
  find-update_other id other f [] row keeps ne h = ground arith
  find-update_other id other f (r ∷ rows) row keeps ne h = elim (Bool-cases (r.trace_id == other)) [
    | inl e ↦
        (let away : (r.trace_id == id) ≡ false =
            ground (arith, ne, (==_iff r.trace_id other).0 e) in
          let away' : has_id id (f r) ≡ false = ap (λ n. n == id) (keeps r) ∙ away in
          rw (e, away') (find-update_other id other f rows row keeps ne (rw away at h)))
    | inr e ↦ elim (Bool-cases (r.trace_id == id)) [
      | inl g ↦ rw (e, g) (rw g at h)
      | inr g ↦ rw (e, g) (find-update_other id other f rows row keeps ne (rw g at h))
    ]
  ]

  -- A sweep leaves a row that is not PENDING.
  find-sweep :
      (now : ℤ) (secs id : ℕ) (rows : List (TraceRow F)) (row : TraceRow F)
      → find (has_id id) rows ≡ some row
      → text_eq row.verification_status (codes "PENDING") ≡ false
      → find (has_id id) (update_where (is_stale now secs) expire_row rows) ≡ some row
  find-sweep now secs id [] row h k = ground arith
  find-sweep now secs id (r ∷ rows) row h k = elim (Bool-cases (r.trace_id == id)) [
    | inl e ↦
        (let same : r ≡ row = ground (arith, rw e at h) in
          let fresh : is_stale now secs r ≡ false =
            subst (λ x. is_stale now secs x ≡ false) (sym same) (ground (arith, k)) in
          rw (fresh, e) (ap some same))
    | inr e ↦ elim (Bool-cases (is_stale now secs r)) [
      | inl g ↦ rw (g, e) (find-sweep now secs id rows row (rw e at h) k)
      | inr g ↦ rw (g, e) (find-sweep now secs id rows row (rw e at h) k)
    ]
  ]

  expire_pending-Final :
      (now : ℤ) (secs id : ℕ) (row : TraceRow F) (db : Db F)
      → Final id row db
      → Final id row (expire_pending now secs db).1
  unfolding expire_pending
  expire_pending-Final now secs id row db (h, k) =
      let (db', same, how) = sent db in
      elim how [
        | inl e ↦ rw e (moved id row db db' same (h, k))
        | inr e ↦ rw e (find-sweep now secs id db'.traces row (ap (find (has_id id)) same ∙ h) k, k)
      ]

module _ {F : Type 0} ⦃fl : Float64 F⦄ ⦃ex : Externals⦄ (div : F → F → F)
    (aliases : Option AliasMap) (tol : F) where
  move_position-traces :
      (req : BindExecutionRequest F) (intent : Intent F) (result : BindExecutionResult)
      (agent : Option ℕ) (db : Db F)
      → (move_position div aliases tol req intent result agent db).1.traces ≡ db.traces
  unfolding move_position upsert_position
  move_position-traces req intent result none db = refl
  move_position-traces req intent result (some agent) db =
      elim (Bool-cases (is_matched result.verification_status)) [
        | inr e ↦ rw e refl
        | inl e ↦
            elim (Bool-cases
              (fl.eq (fill_of div aliases tol req intent agent).quantity_delta zero)) [
                | inl g ↦ rw (e, g) refl
                | inr g ↦
                    (let (db', same, how) = sent db in
                      elim how [ inl s ↦ rw (e, g, s) same | inr s ↦ rw (e, g, s) same ])
              ]
      ]

  -- A call on the trace itself: refused, and no row changes.
  abbrev pub Refused :
      BindExecutionRequest F → Text → Db F → Result (AppError F) BindExecutionResult × Db F → Type 0
  Refused req status db out =
      ((out.0 ≡ err database)
        ⊎ (out.0 ≡ err (trace_already_bound (ex.uuid_text req.trace_id) status)))
      × (out.1.traces ≡ db.traces)

  bind_execution-Refused :
      (now : ℤ) (req : BindExecutionRequest F) (db : Db F) (row : TraceRow F)
      → Final req.trace_id row db
      → Refused req row.verification_status db (bind_execution div aliases tol now req db)
  unfolding bind_execution get_intent_for_binding bind_intent
  bind_execution-Refused now req db row (h, k) =
      let (db', same, how) = sent db in
      elim how [
        | inl e ↦ rw e (inl refl, same)
        | inr e ↦
            (let found = ap (find (has_id req.trace_id)) same ∙ h in
              rw (e, found, k) (inr refl, same))
      ]

  continue-pure :
      (r : Result (AppError F) (Unit {0})) (a : BindExecutionResult) (db : Db F)
      → ((continue r (λ _. pure a) db).1 ≡ db)
        × ((b : BindExecutionResult) → (continue r (λ _. pure a) db).0 ≡ ok b → b ≡ a)
  continue-pure (ok u) a db = (refl, λ b h. sym (ok-injective h))
  continue-pure (err e) a db = (refl, λ b h. absurd (ground (arith, h)))

  -- What a call does once it has read an intent: nothing and it fails, or it binds the rows of its
  -- trace; a result that it gives is the reconciliation's.
  abbrev Outcome :
      ℤ
      → BindExecutionRequest F
      → Intent F
      → Db F
      → Result (AppError F) BindExecutionResult × Db F
      → Type 0
  Outcome now req intent db out =
      let result = reconciled div aliases tol now req intent in
      ((out.1.traces ≡ db.traces) × ((b : BindExecutionResult) → out.0 ≡ ok b → ⊥))
      ⊎ ((out.1.traces ≡ update_where (has_id req.trace_id) (bound_row result req) db.traces)
          × ((b : BindExecutionResult) → out.0 ≡ ok b → b ≡ result))

  bind_intent-Outcome :
      (now : ℤ) (req : BindExecutionRequest F) (intent : Intent F) (db : Db F)
      → Outcome now req intent db (bind_intent div aliases tol now req intent db)
  unfolding bind_intent update_binding reconcile
  bind_intent-Outcome now req intent db =
      elim (Bool-cases (text_eq intent.verification_status (codes "PENDING"))) [
        | inr k ↦ rw k (inl (refl, λ b h. absurd (ground (arith, h))))
        | inl k ↦
            (let (db1, same, how) = sent db in
              elim how [
                | inl e ↦ rw (k, e) (inl (same, λ b h. absurd (ground (arith, h))))
                | inr e ↦
                    rw (k, e)
                      (inr (
                        let result = reconciled div aliases tol now req intent in
                        let change = update_where (has_id req.trace_id) (bound_row result req) in
                        let db2 = record db1 { traces = change db1.traces } in
                        let out =
                          move_position div aliases tol req intent result intent.agent_id db2 in
                        let (left, gives) = continue-pure out.0 result out.1 in
                        (
                          ap (λ d. d.traces) left
                              ∙ move_position-traces req intent result intent.agent_id db2
                              ∙ ap change same,
                          gives,
                        )))
              ])
      ]

  bind_intent-Final :
      (now : ℤ) (req : BindExecutionRequest F) (intent : Intent F) (db : Db F) (id : ℕ)
      (row : TraceRow F)
      → (req.trace_id == id) ≡ false
      → Final id row db
      → Final id row (bind_intent div aliases tol now req intent db).1
  bind_intent-Final now req intent db id row ne (h, k) =
      let result = reconciled div aliases tol now req intent in
      elim (bind_intent-Outcome now req intent db) [
        | inl (same, _) ↦ (ap (find (has_id id)) same ∙ h, k)
        | inr (written, _) ↦ (
          ap (find (has_id id)) written
              ∙ find-update_other id req.trace_id (bound_row result req) db.traces row
                  (bound_row-trace_id result req) ne h,
          k,
        )
      ]

  -- A call on any trace leaves a row that is not PENDING.
  bind_execution-Final :
      (now : ℤ) (req : BindExecutionRequest F) (db : Db F) (id : ℕ) (row : TraceRow F)
      → Final id row db
      → Final id row (bind_execution div aliases tol now req db).1
  unfolding bind_execution get_intent_for_binding
  bind_execution-Final now req db id row (h, k) = elim (Bool-cases (req.trace_id == id)) [
    | inl own ↦
        (let mine : find (has_id req.trace_id) db.traces ≡ some row =
            ap (λ n. find (has_id n) db.traces) ((==_iff _ _).0 own) ∙ h in
          let (_, same) = bind_execution-Refused now req db row (mine, k) in
          (ap (find (has_id id)) same ∙ h, k))
    | inr ne ↦
        (let (db', same, how) = sent db in
          let later = moved id row db db' same (h, k) in
          elim how [
            | inl e ↦ rw e later
            | inr e ↦ elim (Option-cases (find (has_id req.trace_id) db'.traces)) [
              | inl f ↦ rw (e, f) later
              | inr (r, f) ↦ rw (e, f) (bind_intent-Final now req (intent_of r) db' id row ne later)
            ]
          ])
  ]

  -- A call that succeeds leaves a row of its trace with the status that it gives.
  bind_execution-bound :
      (now : ℤ) (req : BindExecutionRequest F) (db : Db F) (result : BindExecutionResult)
      → (bind_execution div aliases tol now req db).0 ≡ ok result
      → (row : TraceRow F) × Final req.trace_id row (bind_execution div aliases tol now req db).1
        × (row.verification_status ≡ verification_status_text result.verification_status)
  unfolding bind_execution get_intent_for_binding bound_row reconcile
  bind_execution-bound now req db result h =
      let (db', same, how) = sent db in
      elim how [
        | inl e ↦ absurd (ground (arith, rw e at h))
        | inr e ↦ elim (Option-cases (find (has_id req.trace_id) db'.traces)) [
          | inl f ↦ absurd (ground (arith, rw (e, f) at h))
          | inr (r, f) ↦
              rw (e, f)
                (elim (bind_intent-Outcome now req (intent_of r) db') [
                  | inl (_, fails) ↦ absurd (fails result (rw (e, f) at h))
                  | inr (written, gives) ↦
                      let verdict = reconciled div aliases tol now req (intent_of r) in
                      (
                        bound_row verdict req r,
                        (
                          ap (find (has_id req.trace_id)) written
                              ∙ find-update_where req.trace_id (bound_row verdict req) db'.traces r
                                  (bound_row-trace_id verdict req) f,
                          status-final div aliases tol _,
                        ),
                        ap (λ v. verification_status_text v.verification_status)
                            (sym (gives result (rw (e, f) at h))),
                      )
                ])
        ]
      ]

  -- What may happen between two calls on a trace: calls on any traces, and sweeps of the expiry
  -- worker.
  pub data BindEvent : Type 0 where
    bind : ℤ → BindExecutionRequest F → BindEvent
    sweep : ℤ → ℕ → BindEvent

  abbrev pub run_events : List BindEvent → Db F → Db F
  run_events [] db = db
  run_events (bind now req ∷ events) db =
      run_events events (bind_execution div aliases tol now req db).1
  run_events (sweep now secs ∷ events) db = run_events events (expire_pending now secs db).1

  run_events-Final :
      (events : List BindEvent) (id : ℕ) (row : TraceRow F) (db : Db F)
      → Final id row db
      → Final id row (run_events events db)
  run_events-Final [] id row db h = h
  run_events-Final (bind now req ∷ events) id row db h =
      run_events-Final events id row (bind_execution div aliases tol now req db).1
        (bind_execution-Final now req db id row h)
  run_events-Final (sweep now secs ∷ events) id row db h =
      run_events-Final events id row (expire_pending now secs db).1
        (expire_pending-Final now secs id row db h)

  -- Once a call has bound a trace, and whatever calls on any traces and sweeps of the expiry worker
  -- follow, a call on that trace fails and changes no row: with the status MATCHED or DIVERGENT
  -- that the first call gave, or because the database refuses its statement. The calls run one
  -- after another, and any statement may fail.
  pub bind_execution-once :
      (now later : ℤ) (req again : BindExecutionRequest F) (db : Db F)
      (result : BindExecutionResult) (events : List BindEvent)
      → (bind_execution div aliases tol now req db).0 ≡ ok result
      → again.trace_id ≡ req.trace_id
      → let db' = run_events events (bind_execution div aliases tol now req db).1 in
        Refused again
          (verification_status_text result.verification_status)
          db'
          (bind_execution div aliases tol later again db')
  bind_execution-once now later req again db result events h same =
      let (row, final, status) = bind_execution-bound now req db result h in
      let first = (bind_execution div aliases tol now req db).1 in
      let db' = run_events events first in
      let kept = run_events-Final events req.trace_id row first final in
      subst (λ t. Refused again t db' (bind_execution div aliases tol later again db')) status
        (bind_execution-Refused later again db' row (subst (λ n. Final n row db') (sym same) kept))
