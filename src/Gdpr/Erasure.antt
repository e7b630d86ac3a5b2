-- ===== src/Gdpr/Erasure.antt =====
-- A whole erasure: which rows it leaves as they were, and what it makes of the others.
use mathlib.Core.Path.{subst}
use irl_engine_ax.Prelude.{
  ℕ, ℤ, suc, ◌==◌, ◌&&◌, true, List, [], ◌∷◌, some, ok, and_then, ◌≡◌, refl, sym, ap, ◌∙◌, arith,
  length, All, Pairwise, count_where,
}
use irl_engine_ax.Errors.{database}
use irl_engine_ax.Encryption.{Aead, JsonBytes}
use irl_engine_ax.Store.{Db, TraceRow, same_time}
use irl_engine_ax.Gdpr.Ordered.{ReadsTable, Orderly}
use irl_engine_ax.Gdpr.{
  Source, source_rows, Draws, null_pii_fields, decrypt_trace_json, same_key, of_agent,
  erase_batches, gdpr_erase_agent,
}
use irl_engine_ax.Gdpr.Rows.{DrawLaws, Step, Step-viewed, Step-key, Good, viewed, all_refl}
use irl_engine_ax.Gdpr.Pages.{agent_rows→All, length-agent_rows, count-le-length}
use irl_engine_ax.Gdpr.Loop.{Loop, erase_batches-Loop, failed-Loop}
use irl_engine_ax.Gdpr.Kept.{AgentGood}
use irl_engine_ax.Gdpr.Batch.{statement-rule, DoneKey, Steps}

-- The primary key (trace_id, txn_time): rows with one key are one row.
abbrev pub Unique : {F : Type 0} → List (TraceRow F) → Type 0
Unique rows = All (λ r. All (λ x. same_key r x ≡ true → x ≡ r) rows) rows

same_key_refl : {F : Type 0} (x : TraceRow F) → same_key x x ≡ true
same_key_refl x = ground arith

table_rows :
    {F : Type 0} (source : Source F)
    → ReadsTable source
    → (db : Db F) → source_rows source db ≡ db.traces
table_rows source reads db = rw (reads.no_view) refl

module _ {F : Type 0} (aead : Aead) (bytes : JsonBytes F) (draws : Draws) (now : ℤ)
    (request agent : ℕ) where
  one-Good :
      (r : TraceRow F) (rows : List (TraceRow F))
      → of_agent agent r ≡ true
      → All (λ x. same_key r x ≡ true → x ≡ r) rows
      → All (Good aead bytes draws now request agent r) rows
  one-Good r [] mine u = tt
  one-Good r (x ∷ rows) mine (u, us) = (
    λ e. (ap (viewed aead bytes draws now request) (u e), ap (of_agent agent) (u e) ∙ mine),
    one-Good r rows mine us,
  )

  Unique-AgentGood :
      (rows rs : List (TraceRow F))
      → All (λ r. All (λ x. same_key r x ≡ true → x ≡ r) rows) rs
      → AgentGood aead bytes draws now request agent rows rs
  Unique-AgentGood rows [] u = tt
  Unique-AgentGood rows (r ∷ rs) (u, us) =
      (λ mine. one-Good r rows mine u, Unique-AgentGood rows rs us)

  -- A row of the agent before and after: its JSON now reads as before with the personal fields
  -- nulled, and it carries the time and the request.
  abbrev pub ErasedFor : TraceRow F → TraceRow F → Type 0
  ErasedFor old new =
      of_agent agent old ≡ true
      → (decrypt_trace_json aead bytes draws new.trace_json
          ≡ and_then (decrypt_trace_json aead bytes draws old.trace_json)
              (λ json. ok (null_pii_fields json)))
        × (new.gdpr_erased_at ≡ some now)
        × (new.gdpr_request_id ≡ some request)

  tail-DoneKey :
      (y : TraceRow F) (b a : List (TraceRow F))
      → All (λ x. of_agent agent x ≡ true → DoneKey aead bytes draws now request (y ∷ b) x) a
      → All (λ x. of_agent agent x ≡ true → DoneKey aead bytes draws now request b x) a
  tail-DoneKey y b [] h = tt
  tail-DoneKey y b (x ∷ a) (h, hs) = (λ e. (h e).1, tail-DoneKey y b a hs)

  All-ErasedFor :
      (a b : List (TraceRow F))
      → Steps aead bytes draws now request agent a b
      → All (λ x. of_agent agent x ≡ true → DoneKey aead bytes draws now request b x) a
      → Pairwise ErasedFor a b
  All-ErasedFor [] [] st h = tt
  All-ErasedFor [] (y ∷ b) st h = absurd st
  All-ErasedFor (x ∷ a) [] st h = absurd st
  All-ErasedFor (x ∷ a) (y ∷ b) (st, sts) (h, hs) = (
    λ mine.
        (let k = Step-key aead bytes draws now request agent x y st in
          let found = ap (λ c. c.0 == x.trace_id && same_time c.1 x.txn_time) k ∙ same_key_refl x in
          let d = (h mine).0 found in
          (d.0 ∙ Step-viewed aead bytes draws now request agent x y st, d.1, d.2)),
    All-ErasedFor a b sts (tail-DoneKey y b a hs),
  )

  whole-Loop :
      DrawLaws aead bytes draws
      → (source : Source F) → ReadsTable source
      → (db : Db F) → Unique db.traces
      → Orderly agent db.traces
      → Loop aead bytes draws now request agent 0 0 db.traces
          (gdpr_erase_agent aead bytes draws now request source agent db)
  unfolding gdpr_erase_agent
  whole-Loop laws source reads db u d =
      statement-rule (Loop aead bytes draws now request agent 0 0 db.traces)
        (λ db.
          erase_batches aead bytes draws now request source agent
            (suc (length (source_rows source db))) 0 0 db)
        db
        (λ db' same. failed-Loop aead bytes draws now request agent 0 0 db.traces database db' (
          subst (λ rows. Steps aead bytes draws now request agent db.traces rows) (sym same)
            (all_refl aead bytes draws now request agent db.traces)))
        (λ db' same.
          let rows = db'.traces in
          let fuel = suc (length (source_rows source db')) in
          let run = erase_batches aead bytes draws now request source agent fuel 0 0 db' in
          let read = table_rows source reads db' in
          subst (λ t. Loop aead bytes draws now request agent 0 0 t run) same
            (erase_batches-Loop aead bytes draws now request agent source reads laws fuel 0 0 db'
              (
                Unique-AgentGood rows rows (subst Unique (sym same) u),
                subst (Orderly agent) (sym same) d,
              )
              (omega
                (arith, length-agent_rows agent rows, count-le-length agent rows, ap length read))))

  -- After the cutover, when the table is read and not the unified view, and for an agent whose rows
  -- have different times, which is what fixes the order of its pages: however an erasure ends, each row of the table is as it was, or it is a row of the agent whose
  -- JSON reads as before with the personal fields nulled, which carries the time and the request,
  -- and which is otherwise the same. If it succeeds, every row of the agent is of the second kind
  -- and their number is returned. Rows have different keys, encryption and the key provider keep
  -- their laws, and no other statement runs in between.
  pub gdpr_erase_agent-erases :
      DrawLaws aead bytes draws
      → (source : Source F) → ReadsTable source
      → (db : Db F) → Unique db.traces
      → Orderly agent db.traces
      → let out = gdpr_erase_agent aead bytes draws now request source agent db in
        Pairwise (Step aead bytes draws now request agent) db.traces out.1.traces
        × ((n : ℕ)
            → out.0 ≡ ok n
            → (n ≡ count_where (of_agent agent) db.traces)
              × Pairwise ErasedFor db.traces out.1.traces)
  gdpr_erase_agent-erases laws source reads db u d =
      let out = gdpr_erase_agent aead bytes draws now request source agent db in
      let l = whole-Loop laws source reads db u d in
      (
        l.steps,
        λ n e. (
          omega (arith, (l.done n e).0, length-agent_rows agent db.traces),
          All-ErasedFor db.traces out.1.traces l.steps (
              agent_rows→All agent (DoneKey aead bytes draws now request out.1.traces) db.traces
                (l.done n e).1),
        ),
      )
