-- ===== src/Backfill/Passed.antt =====
-- What the batches of the backfill leave behind the cursor: rows that are encrypted, where they were
-- not locked.
use mathlib.Core.Path.{subst}
use irl_engine_ax.Prelude.{
  ℕ, ◌≤◌, ◌==◌, Bool, true, false, List, [], ◌∷◌, Option, none, some, ◌≡◌, refl, sym, inl, inr,
  arith, Bool-cases, length, All, select, take, ==_iff,
}
use irl_engine_ax.Encryption.{Aead, JsonBytes}
use irl_engine_ax.Store.{TraceRow}
use irl_engine_ax.Gdpr.{Draws}
use irl_engine_ax.Backfill.{
  KeyedDb, Traffic, waiting, beyond, plaintext, plaintext_batch, last_id, to_encrypt, sort_by_id,
}
use irl_engine_ax.Backfill.Rows.{Steps}
use irl_engine_ax.Backfill.Cursor.{has_id, batch-covers, select-All, All-sort}
use irl_engine_ax.Backfill.Cleared.{NoPlain, Step-kept}

module _ {F : Type 0} where
  All-empty : (rows : List (TraceRow F)) → (length (take 500 rows) == 0) ≡ true → All (λ x. ⊥) rows
  All-empty [] h = tt
  All-empty (x ∷ rows) h = absurd (ground (arith, h))

  -- Where a batch is empty, no row waits.
  pub none-waiting :
      (locked : TraceRow F → Bool) (cursor : Option ℕ) (s : KeyedDb F)
      → (length (plaintext_batch locked cursor s) == 0) ≡ true
      → All (λ x. waiting locked cursor x ≡ true → ⊥) s.db.traces
  unfolding plaintext_batch
  none-waiting locked cursor s h =
      let found = select (waiting locked cursor) s.db.traces in
      select-All (waiting locked cursor) (λ x. ⊥) s.db.traces
        (All-sort (λ x. ⊥) found (All-empty (sort_by_id found) h))

  abbrev pub Done : List (TraceRow F) → TraceRow F → Type 0
  Done rows y = has_id y.trace_id rows ≡ true → plaintext y ≡ false

  none-Done : (b : List (TraceRow F)) → All (Done []) b
  none-Done [] = tt
  none-Done (y ∷ b) = (λ h. absurd (ground (arith, h)), none-Done b)

  more-Done :
      (r : TraceRow F) (rows b : List (TraceRow F))
      → NoPlain r.trace_id b
      → All (Done rows) b
      → All (Done (r ∷ rows)) b
  unfolding to_encrypt
  more-Done r rows [] h d = tt
  more-Done r rows (y ∷ b) (h, hs) (d, ds) = (
    λ k. elim (Bool-cases (has_id y.trace_id rows)) [
      | inl e ↦ d e
      | inr e ↦ ground (arith, e, k, h, ==_iff y.trace_id r.trace_id, ==_iff r.trace_id y.trace_id)
    ],
    more-Done r rows b hs ds,
  )

  pub All-Done :
      (rows b : List (TraceRow F)) → All (λ r. NoPlain r.trace_id b) rows → All (Done rows) b
  All-Done [] b h = none-Done b
  All-Done (r ∷ rows) b (h, hs) = more-Done r rows b h (All-Done rows b hs)

  -- The rows up to the last of a batch are in it, where they wait.
  unfoldable pub Covered :
      (TraceRow F → Bool) → Option ℕ → List (TraceRow F) → ℕ → TraceRow F → Type 0
  Covered locked cursor rows c x =
      waiting locked cursor x ≡ true → x.trace_id ≤ c → has_id x.trace_id rows ≡ true

  pub All-Covered :
      (locked : TraceRow F → Bool) (cursor : Option ℕ) (s : KeyedDb F) (c : ℕ)
      → last_id (plaintext_batch locked cursor s) ≡ some c
      → All (Covered locked cursor (plaintext_batch locked cursor s) c) s.db.traces
  unfolding plaintext_batch Covered
  All-Covered locked cursor s c e =
      let found = select (waiting locked cursor) s.db.traces in
      select-All (waiting locked cursor)
        (λ x. x.trace_id ≤ c → has_id x.trace_id (take 500 (sort_by_id found)) ≡ true) s.db.traces
        (batch-covers 499 c found e)

module _ {F : Type 0} (traffic : Traffic F) where
  -- No other transaction locks the row when a batch is selected.
  abbrev pub Unlocked : TraceRow F → Type 0
  Unlocked x = (n : ℕ) → traffic.locked n x ≡ false

  -- An unlocked row that the cursor has passed is encrypted.
  abbrev pub Behind : Option ℕ → TraceRow F → Type 0
  Behind cursor x = Unlocked x → beyond cursor x ≡ false → plaintext x ≡ false

  pub nothing-Behind : (rows : List (TraceRow F)) → All (Behind none) rows
  nothing-Behind [] = tt
  nothing-Behind (x ∷ rows) = (λ u h. absurd (ground (arith, h)), nothing-Behind rows)

  pub at-end :
      (n : ℕ) (cursor : Option ℕ) (rows : List (TraceRow F))
      → All (λ x. waiting (traffic.locked n) cursor x ≡ true → ⊥) rows
      → All (Behind cursor) rows
      → All (λ x. Unlocked x → plaintext x ≡ false) rows
  at-end n cursor [] w h = tt
  at-end n cursor (x ∷ rows) (w, ws) (h, hs) = (
    λ u. elim (Bool-cases (plaintext x)) [
      | inr e ↦ e
      | inl e ↦ elim (Bool-cases (beyond cursor x)) [
        | inr f ↦ h u f
        | inl f ↦ absurd (w (rw (e, f, u n) refl))
      ]
    ],
    at-end n cursor rows ws hs,
  )

  module _ (aead : Aead) (bytes : JsonBytes F) (draws : Draws) where
    pub Steps-Behind :
        (cursor : Option ℕ) (a b : List (TraceRow F))
        → Steps aead bytes draws a b
        → All (Behind cursor) a
        → All (Behind cursor) b
    Steps-Behind cursor [] [] st h = tt
    Steps-Behind cursor [] (y ∷ b) st h = absurd st
    Steps-Behind cursor (x ∷ a) [] st h = absurd st
    Steps-Behind cursor (x ∷ a) (y ∷ b) (st, sts) (h, hs) = (
      elim (Step-kept aead bytes draws x y st) [
        | inl e ↦ subst (Behind cursor) (sym e) h
        | inr e ↦ λ u k. e
      ],
      Steps-Behind cursor a b sts hs,
    )

    passed :
        (n : ℕ) (cursor : Option ℕ) (rows : List (TraceRow F)) (c : ℕ) (x : TraceRow F)
        → Covered (traffic.locked n) cursor rows c x
        → Behind cursor x
        → Done rows x
        → Behind (some c) x
    unfolding Covered
    passed n cursor rows c x cov h d u k = elim (Bool-cases (plaintext x)) [
      | inr e ↦ e
      | inl e ↦ elim (Bool-cases (beyond cursor x)) [
        | inr f ↦ h u f
        | inl f ↦ d (cov (rw (e, f, u n) refl) (ground (arith, k)))
      ]
    ]

    -- A batch moves the cursor on past rows that it has encrypted.
    pub Behind-next :
        (n : ℕ) (cursor : Option ℕ) (rows : List (TraceRow F)) (c : ℕ) (a b : List (TraceRow F))
        → Steps aead bytes draws a b
        → All (Covered (traffic.locked n) cursor rows c) a
        → All (Behind cursor) a
        → All (Done rows) b
        → All (Behind (some c)) b
    Behind-next n cursor rows c [] [] st cov h d = tt
    Behind-next n cursor rows c [] (y ∷ b) st cov h d = absurd st
    Behind-next n cursor rows c (x ∷ a) [] st cov h d = absurd st
    Behind-next n cursor rows c (x ∷ a) (y ∷ b) (st, sts) (cov, covs) (h, hs) (d, ds) = (
      elim (Step-kept aead bytes draws x y st) [
        | inr e ↦ λ u k. e
        | inl e ↦
            subst (Behind (some c)) (sym e) (passed n cursor rows c x cov h (subst (Done rows) e d))
      ],
      Behind-next n cursor rows c a b sts covs hs ds,
    )
