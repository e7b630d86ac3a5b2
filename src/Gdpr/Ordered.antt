-- ===== src/Gdpr/Ordered.antt =====
-- What `ORDER BY txn_time` fixes: the order of rows whose times are different.
use irl_engine_ax.Prelude.{
  ℕ, List, [], ◌∷◌, none, ◌≡◌, sym, ap, ◌∙◌, All, Pairwise, Bool-cases, inl, inr, select, take,
  drop,
}
use irl_engine_ax.Store.{Db, TraceRow}
use irl_engine_ax.Gdpr.{Source, page, of_agent, sort_by_time, batch_size}
use irl_engine_ax.Gdpr.Pages.{SameKey, ordered_page}

-- No two of the rows have the same time.
abbrev pub DistinctTimes : {F : Type 0} → List (TraceRow F) → Type 0
DistinctTimes [] = Unit
DistinctTimes (x ∷ rows) = All (λ y. y.txn_time ≡ x.txn_time → ⊥) rows × DistinctTimes rows

-- The table is read, and rows with different times are given in the order of their times.
pub record ReadsTable {F : Type 0} (source : Source F) : Type 0 where
  pub no_view : source.legacy ≡ none
  pub by_time :
      (offset : ℕ) (rows : List (TraceRow F))
      → DistinctTimes rows
      → source.order offset rows ≡ sort_by_time rows

module _ {F : Type 0} (agent : ℕ) where
  others-SameKey :
      (x y : TraceRow F) (a b : List (TraceRow F))
      → y.txn_time ≡ x.txn_time
      → Pairwise (SameKey agent) a b
      → All (λ r. r.txn_time ≡ x.txn_time → ⊥) a
      → All (λ r. r.txn_time ≡ y.txn_time → ⊥) b
  others-SameKey x y [] [] e h d = tt
  others-SameKey x y [] (s ∷ b) e h d = absurd h
  others-SameKey x y (r ∷ a) [] e h d = absurd h
  others-SameKey x y (r ∷ a) (s ∷ b) e (h, hs) (d, ds) =
      (λ k. d (sym h.1 ∙ k ∙ e), others-SameKey x y a b e hs ds)

  DistinctTimes-SameKey :
      (a b : List (TraceRow F)) → Pairwise (SameKey agent) a b → DistinctTimes a → DistinctTimes b
  DistinctTimes-SameKey [] [] h d = tt
  DistinctTimes-SameKey [] (y ∷ b) h d = absurd h
  DistinctTimes-SameKey (x ∷ a) [] h d = absurd h
  DistinctTimes-SameKey (x ∷ a) (y ∷ b) (h, hs) (d, ds) =
      (others-SameKey x y a b h.1 hs d, DistinctTimes-SameKey a b hs ds)

  select-SameKey :
      (a b : List (TraceRow F))
      → Pairwise (SameKey agent) a b
      → Pairwise (SameKey agent) (select (of_agent agent) a) (select (of_agent agent) b)
  select-SameKey [] [] h = tt
  select-SameKey [] (y ∷ b) h = absurd h
  select-SameKey (x ∷ a) [] h = absurd h
  select-SameKey (x ∷ a) (y ∷ b) (h, hs) =
      let same : of_agent agent y ≡ of_agent agent x = rw (h.2) in
      elim (Bool-cases (of_agent agent x)) [
        | inl e ↦ rw (same, e) (h, select-SameKey a b hs)
        | inr e ↦ rw (same, e) (select-SameKey a b hs)
      ]

  -- The times of the agent's rows are different.
  abbrev pub Orderly : List (TraceRow F) → Type 0
  Orderly rows = DistinctTimes (select (of_agent agent) rows)

  pub Orderly-SameKey :
      (a b : List (TraceRow F)) → Pairwise (SameKey agent) a b → Orderly a → Orderly b
  Orderly-SameKey a b h d =
      DistinctTimes-SameKey (select (of_agent agent) a) (select (of_agent agent) b)
        (select-SameKey a b h) d

  pub page-ordered :
      (source : Source F)
      → ReadsTable source
      → (offset : ℕ) (db : Db F) → Orderly db.traces
      → page source agent offset db ≡ ordered_page agent offset db.traces
  page-ordered source reads offset db d = rw (reads.no_view) (
      ap (λ rows. take batch_size (drop offset rows))
        (reads.by_time offset (select (of_agent agent) db.traces) d))
