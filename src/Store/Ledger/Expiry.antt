-- ===== src/Store/Ledger/Expiry.antt =====
-- The expiry sweep of src/verifier.rs: PENDING rows that are older than the limit become EXPIRED.
use irl_engine_ax.Prelude.{
  ◌<ℤ◌, ◌≤ℤ◌, sym, ◌∙◌, false, eq→text_eq, if◌then◌else◌, ℕ, ℤ, pos, ◌&&◌, ◌*◌, ◌/◌, ◌-ℤ◌, ltb_ℤ,
  ◌≡◌, refl, ◌⊎◌, codes, text_eq, Bool, true, List, [], ◌∷◌, ok, count_where, update_where, Action,
  ◌>>◌, ap, Bool-cases, inl, inr, arith, Pairwise, text_eq→eq,
}
use irl_engine_ax.Errors.{AppError}
use irl_engine_ax.Store.{Db, TraceRow, statement}

-- `txn_time < now() - make_interval(secs => $1)`, in milliseconds
abbrev pub is_stale : {F : Type 0} → ℤ → ℕ → TraceRow F → Bool
is_stale now expiry_secs row =
    text_eq row.verification_status (codes "PENDING")
    && ltb_ℤ row.txn_time (now -ℤ pos (expiry_secs * 1000))

abbrev pub expire_row : {F : Type 0} → TraceRow F → TraceRow F
expire_row row = record row { verification_status = codes "EXPIRED" }

module _ {F : Type 0} where
  -- The rows after the UPDATE, and how many it touched.
  unfoldable pub expire_pending : ℤ → ℕ → Action (Db F) (AppError F) ℕ
  expire_pending now expiry_secs = statement >> λ db. (
    ok (count_where (is_stale now expiry_secs) db.traces),
    record db { traces = update_where (is_stale now expiry_secs) expire_row db.traces },
  )

-- `run_expiry_worker` turns the configured milliseconds into whole seconds.
unfoldable pub expiry_secs_of : ℕ → ℕ
expiry_secs_of expiry_ms = expiry_ms / 1000

false-true : false ≡ true → ⊥
false-true h = cc

-- What a sweep does to a row: a PENDING row whose transaction time is before the limit becomes
-- EXPIRED, and a row that is not PENDING, or not before the limit, stays.
abbrev pub Swept : {F : Type 0} → ℤ → TraceRow F → TraceRow F → Type 0
Swept limit before after =
    ((before.verification_status ≡ codes "PENDING")
      × (before.txn_time <ℤ limit)
      × (after ≡ record before { verification_status = codes "EXPIRED" }))
    ⊎ ((after ≡ before)
        × ((before.verification_status ≡ codes "PENDING" → ⊥) ⊎ (limit ≤ℤ before.txn_time)))

module _ {F : Type 0} where
  row-Swept :
      (now : ℤ) (secs : ℕ) (row : TraceRow F)
      → Swept (now -ℤ pos (secs * 1000)) row (if is_stale now secs row then expire_row row else row)
  row-Swept now secs row = elim (Bool-cases (text_eq row.verification_status (codes "PENDING"))) [
    | inr e ↦ rw e (inr (refl, inl (λ p. false-true (sym e ∙ eq→text_eq _ _ p))))
    | inl e ↦ elim (Bool-cases (ltb_ℤ row.txn_time (now -ℤ pos (secs * 1000)))) [
      | inr f ↦ rw (e, f) (inr (refl, inr (ground arith)))
      | inl f ↦ rw (e, f) (inl (text_eq→eq _ _ e, ground arith, refl))
    ]
  ]

  all-Swept :
      (now : ℤ) (secs : ℕ) (rows : List (TraceRow F))
      → Pairwise
          (Swept (now -ℤ pos (secs * 1000)))
          rows
          (update_where (is_stale now secs) expire_row rows)
        × (count_where (is_stale now secs) (update_where (is_stale now secs) expire_row rows) ≡ 0)
  all-Swept now secs [] = (tt, refl)
  all-Swept now secs (row ∷ rows) =
      let (p, q) = all-Swept now secs rows in
      (
        (row-Swept now secs row, p),
        elim (Bool-cases (is_stale now secs row)) [
          | inl e ↦ rw (e, q) refl
          | inr e ↦ rw e (rw (e, q) refl)
        ],
      )

  -- A sweep that the database runs makes a row EXPIRED exactly where it was PENDING and its
  -- transaction time is before the clock's reading less the limit, and changes no other row and no
  -- other column; a second sweep at the same time finds none.
  pub expire_pending-Swept :
      (now : ℤ) (secs : ℕ) (db : Db F)
      → db.faults ≡ []
      → Pairwise (Swept (now -ℤ pos (secs * 1000))) db.traces (expire_pending now secs db).1.traces
        × ((expire_pending now secs (expire_pending now secs db).1).0 ≡ ok 0)
  unfolding expire_pending statement
  expire_pending-Swept now secs db h =
      let (p, q) = all-Swept now secs db.traces in rw h (p, ap ok q)
