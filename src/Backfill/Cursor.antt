-- ===== src/Backfill/Cursor.antt =====
-- The batches and their cursor: a batch takes the rows in the order of their ids, so that no row
-- that waits is left behind the cursor, and each batch moves the cursor on.
use mathlib.Core.Path.{subst}
use irl_engine_ax.Prelude.{
  ℕ, zero, suc, ◌≤◌, ◌==◌, ltb, Bool, true, false, List, [], ◌∷◌, Option, some, ◌≡◌, refl, arith,
  Bool-cases, inl, inr, length, All, select, take, any, ==_iff, ltb→lt,
}
use irl_engine_ax.Store.{TraceRow}
use irl_engine_ax.Gdpr.Pages.{All-take}
use irl_engine_ax.Backfill.{KeyedDb, waiting, plaintext_batch, insert_by_id, sort_by_id, last_id}

some-injective : (a b : ℕ) → Path (Option ℕ) (some a) (some b) → a ≡ b
some-injective a b h = cc

module _ {F : Type 0} where
  abbrev pub has_id : ℕ → List (TraceRow F) → Bool
  has_id id rows = any (λ r. r.trace_id == id) rows

  abbrev Ascending : List (TraceRow F) → Type 0
  Ascending [] = Unit
  Ascending (x ∷ rows) = All (λ y. x.trace_id ≤ y.trace_id) rows × Ascending rows

  insert-All :
      (P : TraceRow F → Type 0) (r : TraceRow F) (rows : List (TraceRow F))
      → P r
      → All P rows
      → All P (insert_by_id r rows)
  unfolding insert_by_id
  insert-All P r [] h k = (h, tt)
  insert-All P r (x ∷ rows) h (k, ks) = elim (Bool-cases (ltb x.trace_id r.trace_id)) [
    | inl e ↦ rw e (k, insert-All P r rows h ks)
    | inr e ↦ rw e (h, (k, ks))
  ]

  All-insert :
      (P : TraceRow F → Type 0) (r : TraceRow F) (rows : List (TraceRow F))
      → All P (insert_by_id r rows)
      → P r × All P rows
  unfolding insert_by_id
  All-insert P r [] = λ h. h
  All-insert P r (x ∷ rows) = elim (Bool-cases (ltb x.trace_id r.trace_id)) [
    | inl e ↦ rw e (λ h. let (a, b) = All-insert P r rows h.1 in (a, (h.0, b)))
    | inr e ↦ rw e (λ h. h)
  ]

  pub sort-All :
      (P : TraceRow F → Type 0) (rows : List (TraceRow F)) → All P rows → All P (sort_by_id rows)
  unfolding sort_by_id
  sort-All P [] h = tt
  sort-All P (x ∷ rows) (h, hs) = insert-All P x (sort_by_id rows) h (sort-All P rows hs)

  pub All-sort :
      (P : TraceRow F → Type 0) (rows : List (TraceRow F)) → All P (sort_by_id rows) → All P rows
  unfolding sort_by_id
  All-sort P [] h = tt
  All-sort P (x ∷ rows) h =
      let (a, b) = All-insert P x (sort_by_id rows) h in (a, All-sort P rows b)

  above-above :
      (a b : ℕ)
      → a ≤ b
      → (rows : List (TraceRow F)) → All (λ y. b ≤ y.trace_id) rows
      → All (λ y. a ≤ y.trace_id) rows
  above-above a b h [] k = tt
  above-above a b h (x ∷ rows) (k, ks) = (omega (arith, h, k), above-above a b h rows ks)

  insert-Ascending :
      (r : TraceRow F) (rows : List (TraceRow F)) → Ascending rows → Ascending (insert_by_id r rows)
  unfolding insert_by_id
  insert-Ascending r [] h = (tt, tt)
  insert-Ascending r (x ∷ rows) (h, hs) = elim (Bool-cases (ltb x.trace_id r.trace_id)) [
    | inl e ↦ rw e (
      insert-All (λ y. x.trace_id ≤ y.trace_id) r rows
          (ground (arith, ltb→lt x.trace_id r.trace_id e)) h,
      insert-Ascending r rows hs,
    )
    | inr e ↦
        (let le : r.trace_id ≤ x.trace_id = ground (arith, e) in
          rw e ((le, above-above r.trace_id x.trace_id le rows h), (h, hs)))
  ]

  sort-Ascending : (rows : List (TraceRow F)) → Ascending (sort_by_id rows)
  unfolding sort_by_id
  sort-Ascending [] = tt
  sort-Ascending (x ∷ rows) = insert-Ascending x (sort_by_id rows) (sort-Ascending rows)

  only-above :
      (x : TraceRow F) (rows : List (TraceRow F))
      → All (λ y. x.trace_id ≤ y.trace_id) rows
      → All (λ y. y.trace_id ≤ x.trace_id → has_id y.trace_id (x ∷ []) ≡ true) rows
  only-above x [] h = tt
  only-above x (y ∷ rows) (h, hs) =
      (λ k. ground (arith, h, k, ==_iff x.trace_id y.trace_id), only-above x rows hs)

  also :
      (c : ℕ) (x : TraceRow F) (batch rows : List (TraceRow F))
      → All (λ y. y.trace_id ≤ c → has_id y.trace_id batch ≡ true) rows
      → All (λ y. y.trace_id ≤ c → has_id y.trace_id (x ∷ batch) ≡ true) rows
  also c x batch [] h = tt
  also c x batch (y ∷ rows) (h, hs) = (λ k. ground (arith, h k), also c x batch rows hs)

  own-id : (x : TraceRow F) (rows : List (TraceRow F)) → has_id x.trace_id (x ∷ rows) ≡ true
  own-id x rows = ground (arith, ==_iff x.trace_id x.trace_id)

  first-covers :
      (c : ℕ) (x : TraceRow F) (rows : List (TraceRow F))
      → All (λ y. x.trace_id ≤ y.trace_id) rows
      → x.trace_id ≡ c
      → All (λ y. y.trace_id ≤ c → has_id y.trace_id (x ∷ []) ≡ true) rows
  first-covers c x rows h e =
      subst (λ c. All (λ y. y.trace_id ≤ c → has_id y.trace_id (x ∷ []) ≡ true) rows) e
        (only-above x rows h)

  -- A batch of rows in order has the id of every row up to its last one.
  take-covers :
      (k c : ℕ) (rows : List (TraceRow F))
      → Ascending rows
      → last_id (take (suc k) rows) ≡ some c
      → All (λ y. y.trace_id ≤ c → has_id y.trace_id (take (suc k) rows) ≡ true) rows
  unfolding last_id
  take-covers k c [] h e = tt
  take-covers zero c (x ∷ rows) (h, hs) e =
      (λ _. own-id x [], first-covers c x rows h (some-injective _ _ e))
  take-covers (suc k) c (x ∷ []) (h, hs) e = (λ _. own-id x [], tt)
  take-covers (suc k) c (x ∷ z ∷ rows) (h, hs) e = (
    λ _. own-id x (take (suc k) (z ∷ rows)),
    also c x (take (suc k) (z ∷ rows)) (z ∷ rows) (take-covers k c (z ∷ rows) hs e),
  )

  pub batch-covers :
      (k c : ℕ) (rows : List (TraceRow F))
      → last_id (take (suc k) (sort_by_id rows)) ≡ some c
      → All (λ y. y.trace_id ≤ c → has_id y.trace_id (take (suc k) (sort_by_id rows)) ≡ true) rows
  batch-covers k c rows e =
      All-sort (λ y. y.trace_id ≤ c → has_id y.trace_id (take (suc k) (sort_by_id rows)) ≡ true)
        rows (take-covers k c (sort_by_id rows) (sort-Ascending rows) e)

  -- What holds of the rows that are selected, and what it says of all.
  pub All-select :
      (w : TraceRow F → Bool) (P : TraceRow F → Type 0) (rows : List (TraceRow F))
      → All (λ x. w x ≡ true → P x) rows
      → All P (select w rows)
  All-select w P [] h = tt
  All-select w P (x ∷ rows) (h, hs) = elim (Bool-cases (w x)) [
    | inr e ↦ rw e (All-select w P rows hs)
    | inl e ↦ rw e (h e, All-select w P rows hs)
  ]

  pub select-All :
      (w : TraceRow F → Bool) (P : TraceRow F → Type 0) (rows : List (TraceRow F))
      → All P (select w rows)
      → All (λ x. w x ≡ true → P x) rows
  select-All w P [] = λ _. tt
  select-All w P (x ∷ rows) = elim (Bool-cases (w x)) [
    | inr e ↦ rw e (λ h. (λ k. absurd (ground (arith, k)), select-All w P rows h))
    | inl e ↦ rw e (λ h. (λ _. h.0, select-All w P rows h.1))
  ]

  pub last-All :
      (c : ℕ) (P : ℕ → Type 0) (rows : List (TraceRow F))
      → last_id rows ≡ some c
      → All (λ x. P x.trace_id) rows
      → P c
  unfolding last_id
  last-All c P [] e h = absurd (ground (arith, e))
  last-All c P (x ∷ []) e (h, hs) = subst P (some-injective _ _ e) h
  last-All c P (x ∷ z ∷ rows) e (h, hs) = last-All c P (z ∷ rows) e hs

  pub last-some :
      (rows : List (TraceRow F)) → (length rows == 0) ≡ false → (c : ℕ) × (last_id rows ≡ some c)
  unfolding last_id
  last-some [] h = absurd (ground (arith, h))
  last-some (x ∷ []) h = (x.trace_id, refl)
  last-some (x ∷ z ∷ rows) h = last-some (z ∷ rows) (ground arith)

  -- What holds of the rows that wait holds of a batch.
  pub batch-All :
      (P : TraceRow F → Type 0) (locked : TraceRow F → Bool) (cursor : Option ℕ) (s : KeyedDb F)
      → All (λ x. waiting locked cursor x ≡ true → P x) s.db.traces
      → All P (plaintext_batch locked cursor s)
  unfolding plaintext_batch
  batch-All P locked cursor s h =
      All-take P 500 (sort_by_id (select (waiting locked cursor) s.db.traces)) (
        sort-All P (select (waiting locked cursor) s.db.traces)
          (All-select (waiting locked cursor) P s.db.traces h))
