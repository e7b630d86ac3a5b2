-- ===== src/Store/Insertion/Atomic.antt =====
-- The insertion transaction over any pattern of failing statements: all or nothing.
use irl_engine_ax.Prelude.{
  ℕ, ◌≡◌, refl, sym, ap, ◌∙◌, ◌⊎◌, inl, inr, Text, Bool, true, false, List, [], ◌∷◌, Option, none,
  some, Result, ok, err, Action, continue, Bool-cases, arith, lift, ◌>>=◌, ◌>>◌,
}
use mathlib.Core.Path.{subst}
use irl_engine_ax.Platform.{Float64, Externals}
use irl_engine_ax.Errors.{AppError}
use irl_engine_ax.Encryption.{KeyProvider}
use irl_engine_ax.Store.{
  Db, TraceRow, Codec, Entry, statement, take_fault, insert_row, prepare_row, pending_sum, violates,
}
use irl_engine_ax.Store.Insertion.{
  transaction, take_lock, check_portfolio, within_cap, guarded_insert, insert_trace_atomic, close,
  unsettled, end_commit,
}

module _ {F : Type 0} where
  -- The rows of both tables are the same.
  abbrev Same : Db F → Db F → Type 0
  Same db db' = (db'.traces ≡ db.traces) × (db'.positions ≡ db.positions)

  Same-trans : (a b c : Db F) → Same a b → Same b c → Same a c
  Same-trans a b c (h, k) (h', k') = (h' ∙ h, k' ∙ k)

  -- A step that succeeds, between its two parts.
  inverted :
      {A B : Type 0} (out : Result (AppError F) A × Db F) (f : A → Action (Db F) (AppError F) B)
      (b : B) (final : Db F)
      → continue out.0 f out.1 ≡ (ok b, final)
      → (a : A) × (mid : Db F) × (out ≡ (ok a, mid)) × (f a mid ≡ (ok b, final))
  inverted (ok a, mid) f b final h = (a, mid, refl, h)
  inverted (err e, mid) f b final h = absurd (ground (arith, h))

  take_fault-Same : (fs : List Bool) (db : Db F) → Same db (take_fault fs db).1
  take_fault-Same [] db = (refl, refl)
  take_fault-Same (true ∷ fs) db = (refl, refl)
  take_fault-Same (false ∷ fs) db = (refl, refl)

  statement-Same :
      (db : Db F) (r : Result (AppError F) (Unit {0})) (db' : Db F)
      → statement db ≡ (r, db')
      → Same db db'
  unfolding statement
  statement-Same db r db' h = subst (λ o. Same db o.1) h (take_fault-Same db.faults db)

  take_lock-Same :
      (agent : Option ℕ) (db db' : Db F) → take_lock agent db ≡ (ok tt, db') → Same db db'
  unfolding take_lock
  take_lock-Same none db db' h = subst (λ o. Same db o.1) h (refl, refl)
  take_lock-Same (some agent) db db' h = statement-Same db (ok tt) db' h

module _ {F : Type 0} ⦃fl : Float64 F⦄ where
  -- The cap that is checked is not exceeded by the agent's pending notional with the new one.
  abbrev pub InCap : Option ℕ → Option (F × Text) → F → Db F → Type 0
  InCap agent portfolio notional db =
      (a : ℕ) (limit : F) (label : Text)
      → agent ≡ some a
      → portfolio ≡ some (limit, label)
      → fl.gt (fl.add (pending_sum a db) notional) limit ≡ false

  check_portfolio-ok :
      (agent : Option ℕ) (portfolio : Option (F × Text)) (notional : F) (db db' : Db F)
      → check_portfolio agent portfolio notional db ≡ (ok tt, db')
      → Same db db' × InCap agent portfolio notional db
  unfolding check_portfolio within_cap
  check_portfolio-ok (some a) (some (limit, label)) notional db db' h =
      let (u, mid, sent, checked) =
        inverted (statement db) (λ _ db. (within_cap (pending_sum a db) notional limit label, db))
          tt db' h in
      let same = statement-Same db (ok u) mid sent in
      elim (Bool-cases (fl.gt (fl.add (pending_sum a mid) notional) limit)) [
        | inl e ↦ absurd (ground (arith, rw e at checked))
        | inr e ↦ (
          subst (λ o. Same db o) (ap (λ o. o.1) checked) same,
          λ b other label' h k. ground (arith, e, h, k, same.0),
        )
      ]
  check_portfolio-ok (some a) none notional db db' h =
      (subst (λ o. Same db o.1) h (refl, refl), λ b limit label h k. absurd (ground (arith, k)))
  check_portfolio-ok none portfolio notional db db' h =
      (subst (λ o. Same db o.1) h (refl, refl), λ b limit label h k. absurd (ground (arith, h)))

  -- The row that is stored: the prepared one, whose key is new, within the cap.
  abbrev pub Stored :
      Option ℕ → Option (F × Text) → F → Result (AppError F) (TraceRow F) → Db F → Db F → Type 0
  Stored agent portfolio notional prepared before after =
      (row : TraceRow F) × (prepared ≡ ok row)
      × (violates row before.traces ≡ false)
      × InCap agent portfolio notional before
      × (after.traces ≡ row ∷ before.traces)
      × (after.positions ≡ before.positions)

  insert_row-ok :
      (row : TraceRow F) (db db' : Db F)
      → insert_row row db ≡ (ok tt, db')
      → (violates row db.traces ≡ false)
        × (db'.traces ≡ row ∷ db.traces)
        × (db'.positions ≡ db.positions)
  unfolding insert_row
  insert_row-ok row db db' h = elim (Bool-cases (violates row db.traces)) [
    | inl e ↦ absurd (ground (arith, rw e at h))
    | inr e ↦
        (let done = ap (λ o. o.1) (rw e at h) in
          (e, sym (ap (λ d. d.traces) done), sym (ap (λ d. d.positions) done)))
  ]

  moved :
      (agent : Option ℕ) (portfolio : Option (F × Text)) (notional : F) (a b : Db F)
      → Same a b
      → InCap agent portfolio notional b
      → InCap agent portfolio notional a
  moved agent portfolio notional a b (t, p) h n limit label e f =
      subst
        (λ rows. fl.gt (fl.add (pending_sum n (record b { traces = rows })) notional) limit ≡ false)
        t (h n limit label e f)

  guarded_insert-Stored :
      (agent : Option ℕ) (portfolio : Option (F × Text)) (notional : F)
      (prepared : Result (AppError F) (TraceRow F)) (db db' : Db F)
      → guarded_insert agent portfolio notional prepared db ≡ (ok tt, db')
      → Stored agent portfolio notional prepared db db'
  unfolding guarded_insert
  guarded_insert-Stored agent portfolio notional prepared db db' h =
      let rest = λ (u : Unit {0}). (lift prepared >>= λ row. statement >> insert_row row) in
      let (u, ready, both, after) =
        inverted ((take_lock agent >> check_portfolio agent portfolio notional) db) rest tt db' h in
      let (u', locked, lock, checked) =
        inverted (take_lock agent db) (λ _. check_portfolio agent portfolio notional) u ready
          both in
      let (row, mid, prep, sending) =
        inverted (lift prepared ready) (λ row. statement >> insert_row row) tt db' after in
      let (u'', sent_db, send, inserted) =
        inverted (statement mid) (λ _. insert_row row) tt db' sending in
      let is_mid = ap (λ o. o.1) prep in
      let (same_checked, cap) = check_portfolio-ok agent portfolio notional locked ready checked in
      let same_locked = take_lock-Same agent db locked lock in
      let same_ready = Same-trans db locked ready same_locked same_checked in
      let same_mid = subst (Same db) is_mid same_ready in
      let (t, p) = Same-trans db mid sent_db same_mid (statement-Same mid (ok tt) sent_db send) in
      let (fresh, written, kept) = insert_row-ok row sent_db db' inserted in
      (
        row,
        ap (λ o. o.0) prep,
        subst (λ rows. violates row rows ≡ false) t fresh,
        moved agent portfolio notional db locked same_locked cap,
        written ∙ ap (λ rows. row ∷ rows) t,
        kept ∙ p,
      )

  -- All or nothing: no row changes and the transaction fails, or the row is stored.
  abbrev pub Atomic :
      Option ℕ
      → Option (F × Text)
      → F
      → Result (AppError F) (TraceRow F)
      → Db F
      → Result (AppError F) (Unit {0}) × Db F
      → Type 0
  Atomic agent portfolio notional prepared before out =
      ((out.1.traces ≡ before.traces) × (out.1.positions ≡ before.positions) × (out.0 ≡ ok tt → ⊥))
      ⊎ Stored agent portfolio notional prepared before out.1

  module _ (agent : Option ℕ) (portfolio : Option (F × Text)) (notional : F)
      (prepared : Result (AppError F) (TraceRow F)) where
    Stored-Same :
        (before a b : Db F)
        → Same a b
        → Stored agent portfolio notional prepared before a
        → Stored agent portfolio notional prepared before b
    Stored-Same before a b (t, p) (row, e, f, c, written, kept) =
        (row, e, f, c, t ∙ written, p ∙ kept)

    unsettled-Atomic :
        (before after : Db F) (fs : List Bool) (e : AppError F)
        → Stored agent portfolio notional prepared before after
        → Atomic agent portfolio notional prepared before (err e, unsettled before fs after)
    unsettled-Atomic before after [] e h = inl (refl, refl, λ k. absurd (ground (arith, k)))
    unsettled-Atomic before after (true ∷ fs) e h = inr h
    unsettled-Atomic before after (false ∷ fs) e h =
        inl (refl, refl, λ k. absurd (ground (arith, k)))

    end_commit-Atomic :
        (before after : Db F) (out : Result (AppError F) (Unit {0}) × Db F)
        → statement after ≡ out
        → Stored agent portfolio notional prepared before after
        → Atomic agent portfolio notional prepared before (end_commit before tt out)
    end_commit-Atomic before after (ok u, db) e h =
        inr (Stored-Same before after db (statement-Same after (ok u) db e) h)
    end_commit-Atomic before after (err x, db) e h =
        unsettled-Atomic before db db.faults x
          (Stored-Same before after db (statement-Same after (err x) db e) h)

    close-Atomic :
        (before : Db F) (out : Result (AppError F) (Unit {0}) × Db F)
        → ((after : Db F)
            → out ≡ (ok tt, after)
            → Stored agent portfolio notional prepared before after)
        → Atomic agent portfolio notional prepared before (close before out)
    close-Atomic before (err x, db) h = inl (refl, refl, λ k. absurd (ground (arith, k)))
    close-Atomic before (ok tt, db) h = end_commit-Atomic before db (statement db) refl (h db refl)

    transaction-Atomic :
        (db : Db F)
        → Atomic agent portfolio notional prepared db
            (transaction (guarded_insert agent portfolio notional prepared) db)
    unfolding transaction
    transaction-Atomic db =
        let m = guarded_insert agent portfolio notional prepared in
        close-Atomic db ((statement >> m) db) (λ after h.
          let (u, begun, begin, inserted) = inverted (statement db) (λ _. m) tt after h in
          let (t, p) = statement-Same db (ok u) begun begin in
          let (row, e, fresh, cap, written, kept) =
            guarded_insert-Stored agent portfolio notional prepared begun after inserted in
          (
            row,
            e,
            subst (λ rows. violates row rows ≡ false) t fresh,
            moved agent portfolio notional db begun (t, p) cap,
            written ∙ ap (λ rows. row ∷ rows) t,
            kept ∙ p,
          ))

module _ {F : Type 0} ⦃fl : Float64 F⦄ ⦃ex : Externals⦄ (codec : Codec F) where
  -- Whatever statements of an insertion fail, its COMMIT too, and whether a COMMIT that failed took
  -- effect or not: either no trace and no position changed and the insertion fails, or exactly the
  -- prepared row stands before the others, its key was new, no position changed, and, where a cap
  -- is checked for an agent, the agent's pending notional with the new one was not above it.
  pub insert_trace_atomic-Atomic :
      (kms : Option KeyProvider) (cap : Option (F × Text)) (e : Entry F) (db : Db F)
      → Atomic e.agent_id cap e.snapshot.execution.notional
          (prepare_row codec kms e)
          db
          (insert_trace_atomic codec kms cap e db)
  unfolding insert_trace_atomic
  insert_trace_atomic-Atomic kms cap e db =
      transaction-Atomic e.agent_id cap e.snapshot.execution.notional (prepare_row codec kms e) db
