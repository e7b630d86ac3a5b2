-- ===== src/Gdpr/Loop.antt =====
-- The loop over batches: from an offset on, all rows ahead are erased or the loop fails.
use mathlib.Core.Path.{subst}
use irl_engine_ax.Prelude.{
  ℕ, ℤ, zero, suc, ◌+◌, ◌≤◌, ◌<◌, ◌==◌, ltb, false, List, [], ◌∷◌, ◌++◌, Result, ok, err,
  if◌then◌else◌, ◌≡◌, refl, sym, ap, ◌∙◌, inl, inr, arith, Bool-cases, length, length-append, drop,
  All, Pairwise, Action, continue, ok-injective, ==_iff, ltb→lt,
}
use irl_engine_ax.Prelude.Effects.{gets, pure, ◌>>=◌}
use irl_engine_ax.Errors.{AppError, database}
use irl_engine_ax.Encryption.{Aead, JsonBytes}
use irl_engine_ax.Store.{Db, TraceRow}
use irl_engine_ax.Gdpr.{Draws, Source, page, erase_rows, take_batch, erase_batches, batch_size}
use irl_engine_ax.Gdpr.Ordered.{ReadsTable, Orderly, Orderly-SameKey, page-ordered}
use irl_engine_ax.Gdpr.Rows.{DrawLaws, Good, all_refl, all_trans}
use irl_engine_ax.Gdpr.Pages.{
  agent_rows, ordered_page, take-drop-length, take_short, drop-add, All-append, All-take, All-drop,
  Pairwise-drop, Pairwise-length, All→agent_rows, SameKey, agent_rows-SameKey,
}
use irl_engine_ax.Gdpr.Kept.{AgentGood, AgentGood-Steps, SameKey-Steps, All-DoneKey}
use irl_engine_ax.Gdpr.Batch.{
  AllGood, statement-rule, DoneKey, Steps, Steps-DoneKey, Outcome, erase_rows-Outcome, err-ne-ok,
}

no-rows : {A : Type 0} (xs : List A) → length xs ≡ 0 → xs ≡ []
no-rows [] h = refl
no-rows (x ∷ xs) h = absurd (omega arith)

full-batch : (n : ℕ) → ltb n batch_size ≡ false → 1 ≤ n
full-batch n h = ground arith

module _ {F : Type 0} (aead : Aead) (bytes : JsonBytes F) (draws : Draws) (now : ℤ)
    (request agent : ℕ) where
  -- The rows that the loop has before it.
  abbrev pub ahead : ℕ → List (TraceRow F) → List (TraceRow F)
  ahead offset rows = drop offset (agent_rows agent rows)

  -- What the loop leaves, from an offset on.
  pub record Loop (offset total : ℕ) (before : List (TraceRow F))
      (out : Result (AppError F) ℕ × Db F) : Type 0 where
    pub steps : Steps aead bytes draws now request agent before out.1.traces
    pub done :
        (m : ℕ)
        → out.0 ≡ ok m
        → (m ≡ total + length (ahead offset before))
          × All (DoneKey aead bytes draws now request out.1.traces) (ahead offset before)

  page-AllGood :
      (offset : ℕ) (db : Db F)
      → AgentGood aead bytes draws now request agent db.traces db.traces
      → AllGood aead bytes draws now request agent db.traces (ordered_page agent offset db.traces)
  page-AllGood offset db g =
      let P = λ (r : TraceRow F). All (Good aead bytes draws now request agent r) db.traces in
      All-take P batch_size (ahead offset db.traces)
        (All-drop P offset (agent_rows agent db.traces) (All→agent_rows agent P db.traces g))

  later-DoneKey :
      (a b rs : List (TraceRow F))
      → Steps aead bytes draws now request agent a b
      → All (DoneKey aead bytes draws now request a) rs
      → All (DoneKey aead bytes draws now request b) rs
  later-DoneKey a b [] st d = tt
  later-DoneKey a b (r ∷ rs) st (d, ds) =
      (Steps-DoneKey aead bytes draws now request agent r a b st d, later-DoneKey a b rs st ds)

  ahead-SameKey :
      (offset : ℕ) (a b : List (TraceRow F))
      → Steps aead bytes draws now request agent a b
      → Pairwise (SameKey agent) (ahead offset a) (ahead offset b)
  ahead-SameKey offset a b st =
      Pairwise-drop (SameKey agent) offset (agent_rows agent a) (agent_rows agent b)
        (agent_rows-SameKey agent a b (SameKey-Steps aead bytes draws now request agent a b st))

  -- What is ahead is the page and what is ahead after it.
  ahead-page :
      (offset : ℕ) (db : Db F)
      → ordered_page agent offset db.traces
          ++ ahead (offset + length (ordered_page agent offset db.traces)) db.traces
        ≡ ahead offset db.traces
  ahead-page offset db =
      ap (λ t. ordered_page agent offset db.traces ++ t)
        (drop-add offset (length (ordered_page agent offset db.traces))
          (agent_rows agent db.traces))
      ∙ take-drop-length batch_size (ahead offset db.traces)

  -- A batch that succeeds, and the loop after it.
  then-Loop :
      (offset total mid : ℕ) (db db' : Db F) (out : Result (AppError F) ℕ × Db F)
      → Outcome aead bytes draws now request agent
          (ordered_page agent offset db.traces)
          total
          db.traces
          (ok mid, db')
      → Loop (offset + length (ordered_page agent offset db.traces)) mid db'.traces out
      → Loop offset total db.traces out
  then-Loop offset total mid db db' out o l =
      let rows = ordered_page agent offset db.traces in
      let after = offset + length rows in
      let keys = ahead-SameKey after db.traces db'.traces o.steps in
      let same_length =
        Pairwise-length (SameKey agent) (ahead after db.traces) (ahead after db'.traces) keys in
      let (counted, erased) = o.done mid refl in
      let total_length =
        ap length (sym (ahead-page offset db)) ∙ length-append rows (ahead after db.traces) in
      record {
        steps =
            all_trans aead bytes draws now request agent db.traces db'.traces out.1.traces o.steps
              l.steps;
        done = λ m e. (
          omega (arith, (l.done m e).0, counted, same_length, total_length),
          subst (All (DoneKey aead bytes draws now request out.1.traces)) (ahead-page offset db) (
              All-append (DoneKey aead bytes draws now request out.1.traces) rows
                (ahead after db.traces) (later-DoneKey db'.traces out.1.traces rows l.steps erased)
                (All-DoneKey aead bytes draws now request agent out.1.traces (ahead after db.traces)
                  (ahead after db'.traces) keys (l.done m e).1)),
        );
      }

  -- The last batch.
  last-Loop :
      (offset total mid : ℕ) (db db' : Db F)
      → length (ordered_page agent offset db.traces) < batch_size
      → Outcome aead bytes draws now request agent
          (ordered_page agent offset db.traces)
          total
          db.traces
          (ok mid, db')
      → Loop offset total db.traces (ok mid, db')
  last-Loop offset total mid db db' short o =
      let whole = take_short batch_size (ahead offset db.traces) short in
      record {
        steps = o.steps;
        done = λ m e. (
          ok-injective (sym e) ∙ (o.done mid refl).0 ∙ ap (λ t. total + length t) whole,
          subst (All (DoneKey aead bytes draws now request db'.traces)) whole (o.done mid refl).1,
        );
      }

  pub failed-Loop :
      (offset total : ℕ) (before : List (TraceRow F)) (x : AppError F) (db : Db F)
      → Steps aead bytes draws now request agent before db.traces
      → Loop offset total before (err x, db)
  failed-Loop offset total before x db st = record {
    steps = st;
    done = λ m h. absurd (err-ne-ok h);
  }

  empty-Loop :
      (offset total : ℕ) (db : Db F)
      → length (ordered_page agent offset db.traces) ≡ 0
      → Loop offset total db.traces (ok total, db)
  empty-Loop offset total db none_left =
      let whole = take_short batch_size (ahead offset db.traces) (omega (arith, none_left)) in
      let all_done = no-rows (ordered_page agent offset db.traces) none_left in
      record {
        steps = all_refl aead bytes draws now request agent db.traces;
        done = λ m e. (
          omega (arith, ok-injective e, none_left, ap length whole),
          subst (All (DoneKey aead bytes draws now request db.traces)) whole
              (subst (All (DoneKey aead bytes draws now request db.traces)) (sym all_done) tt),
        );
      }

  -- The rows of the agent are good for all rows, and their times are different.
  abbrev pub Ready : List (TraceRow F) → Type 0
  Ready rows = AgentGood aead bytes draws now request agent rows rows × Orderly agent rows

  Ready-Steps :
      (a b : List (TraceRow F)) → Steps aead bytes draws now request agent a b → Ready a → Ready b
  Ready-Steps a b st (g, d) = (
    AgentGood-Steps aead bytes draws now request agent a b a b st st g,
    Orderly-SameKey agent a b (SameKey-Steps aead bytes draws now request agent a b st) d,
  )

  module _ (source : Source F) (reads : ReadsTable source) where
    -- The turn that is taken after a batch of 100 rows.
    abbrev turn_after : ℕ → ℕ → List (TraceRow F) → ℕ → Action (Db F) (AppError F) ℕ
    turn_after fuel offset rows total =
        erase_batches aead bytes draws now request source agent fuel (offset + length rows) total

    module _ (laws : DrawLaws aead bytes draws) (fuel offset total : ℕ)
        (later : (offset total : ℕ) (db : Db F)
          → Ready db.traces
          → length (ahead offset db.traces) < fuel
          → Loop offset total db.traces
              (erase_batches aead bytes draws now request source agent fuel offset total db)) where
      after-batch :
          (db : Db F)
          → Ready db.traces
          → length (ahead offset db.traces) < suc fuel
          → (r : Result (AppError F) ℕ) (db' : Db F)
          → Outcome aead bytes draws now request agent
              (ordered_page agent offset db.traces)
              total
              db.traces
              (r, db')
          → Loop offset total db.traces (
              continue r
                (λ total.
                  (if ltb (length (ordered_page agent offset db.traces)) batch_size
                    then pure total
                    else turn_after fuel offset (ordered_page agent offset db.traces) total))
                db')
      unfolding pure
      after-batch db good enough (err x) db' o = failed-Loop offset total db.traces x db' o.steps
      after-batch db good enough (ok mid) db' o =
          let rows = ordered_page agent offset db.traces in
          let after = offset + length rows in
          elim (Bool-cases (ltb (length rows) batch_size)) [
            | inl e ↦ rw e (last-Loop offset total mid db db' (ltb→lt _ _ e) o)
            | inr e ↦ rw e (
                let keys = ahead-SameKey after db.traces db'.traces o.steps in
                let same =
                  Pairwise-length (SameKey agent) (ahead after db.traces) (ahead after db'.traces)
                    keys in
                let sum =
                  ap length (sym (ahead-page offset db))
                  ∙ length-append rows (ahead after db.traces) in
                let full = full-batch (length rows) e in
                then-Loop offset total mid db db' _ o (
                  later after mid db' (Ready-Steps db.traces db'.traces o.steps good)
                    (omega (arith, same, sum, full, enough))))
          ]

      turn-Loop :
          (db : Db F)
          → Ready db.traces
          → length (ahead offset db.traces) < suc fuel
          → Loop offset total db.traces (
              take_batch aead bytes draws now request
                (turn_after fuel offset)
                total
                (ordered_page agent offset db.traces)
                db)
      unfolding ◌>>=◌ pure
      turn-Loop db good enough =
          let rows = ordered_page agent offset db.traces in
          elim (Bool-cases (length rows == 0)) [
            | inl e ↦ rw e (empty-Loop offset total db ((==_iff _ _).0 e))
            | inr e ↦ rw e (
                let out = erase_rows aead bytes draws now request rows total db in
                after-batch db good enough out.0 out.1 (
                  erase_rows-Outcome aead bytes draws now request agent laws rows total db
                    (page-AllGood offset db good.0)))
          ]

    pub erase_batches-Loop :
        DrawLaws aead bytes draws
        → (fuel offset total : ℕ) (db : Db F) → Ready db.traces
        → length (ahead offset db.traces) < fuel
        → Loop offset total db.traces
            (erase_batches aead bytes draws now request source agent fuel offset total db)
    unfolding erase_batches gets ◌>>=◌
    erase_batches-Loop laws zero offset total db good enough = absurd (omega arith)
    erase_batches-Loop laws (suc fuel) offset total db good enough =
        statement-rule (Loop offset total db.traces)
          (gets (page source agent offset)
            >>= take_batch aead bytes draws now request (turn_after fuel offset) total)
          db
          (λ db' same. failed-Loop offset total db.traces database db' (
            subst (λ rows. Steps aead bytes draws now request agent db.traces rows) (sym same)
              (all_refl aead bytes draws now request agent db.traces)))
          (λ db' same.
            let turn = λ (rows : List (TraceRow F)).
              take_batch aead bytes draws now request (turn_after fuel offset) total rows db' in
            let ready = subst Ready (sym same) good in
            let seen = page-ordered agent source reads offset db' ready.1 in
            subst (λ rows. Loop offset total rows (turn (page source agent offset db'))) same
              (subst (λ rows. Loop offset total db'.traces (turn rows)) (sym seen)
                (turn-Loop laws fuel offset total (erase_batches-Loop laws fuel) db' ready
                  (subst (λ rows. length (ahead offset rows) < suc fuel) (sym same) enough))))
