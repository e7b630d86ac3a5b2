-- ===== src/Gdpr/Batch.antt =====
-- One batch of an erasure: the rows of the table are erased or left alone, and after a batch that
-- succeeds every row with the key of one of its rows is erased.
use mathlib.Core.Path.{subst}
use irl_engine_ax.Prelude.{
  ℕ, ℤ, ◌+◌, ◌==◌, ◌&&◌, Bool, true, false, List, [], ◌∷◌, some, Result, ok, err, and_then, ◌≡◌,
  refl, sym, ap, ◌∙◌, inl, inr, arith, Bool-cases, Result-cases, length, All, Pairwise,
  update_where, Action, continue, ok-injective,
}
use irl_engine_ax.Prelude.Effects.{lift, modify, pure, ◌>>=◌, ◌>>◌}
use irl_engine_ax.Errors.{AppError, database}
use irl_engine_ax.Encryption.{Aead, JsonBytes, StoredJson}
use irl_engine_ax.Store.{Db, TraceRow, same_time, statement, take_fault}
use irl_engine_ax.Gdpr.{
  Draws, null_pii_fields, decrypt_trace_json, erased_json, erased_row, write_erased, same_key,
  erase_rows,
}
use irl_engine_ax.Gdpr.Nulling.{null_pii_fields_twice}
use irl_engine_ax.Gdpr.Rows.{
  DrawLaws, Erased, Step, Step-key, Good, viewed, all_refl, all_trans, All-Good, All-write,
  erased-reads,
}

pub err-ne-ok : {E A : Type 0} {x : E} {a : A} → Path (Result E A) (err x) (ok a) → ⊥
err-ne-ok h = cc

false-true : false ≡ true → ⊥
false-true h = cc

module _ {F : Type 0} where
  fault-rule :
      {A : Type 0} (Q : Result (AppError F) A × Db F → Type 0) (m : Action (Db F) (AppError F) A)
      (fs : List Bool) (db : Db F)
      → ((db' : Db F) → db'.traces ≡ db.traces → Q (err database, db'))
      → ((db' : Db F) → db'.traces ≡ db.traces → Q (m db'))
      → Q (continue (take_fault fs db).0 (λ _. m) (take_fault fs db).1)
  fault-rule Q m [] db bad good = good db refl
  fault-rule Q m (true ∷ fs) db bad good = bad _ refl
  fault-rule Q m (false ∷ fs) db bad good = good _ refl

  -- What holds after a statement and the rest: the statement changes no row.
  pub statement-rule :
      {A : Type 0} (Q : Result (AppError F) A × Db F → Type 0) (m : Action (Db F) (AppError F) A)
      (db : Db F)
      → ((db' : Db F) → db'.traces ≡ db.traces → Q (err database, db'))
      → ((db' : Db F) → db'.traces ≡ db.traces → Q (m db'))
      → Q ((statement >> m) db)
  unfolding ◌>>=◌ statement
  statement-rule Q m db bad good = fault-rule Q m db.faults db bad good

module _ {F : Type 0} (aead : Aead) (bytes : JsonBytes F) (draws : Draws) (now : ℤ)
    (request : ℕ) where
  abbrev Row : Type 0
  Row = TraceRow F

  -- An erased row: it reads with the personal fields nulled, and carries the time and the request.
  abbrev pub Done : TraceRow F → Type 0
  Done x =
      (decrypt_trace_json aead bytes draws x.trace_json ≡ viewed aead bytes draws now request x)
      × (x.gdpr_erased_at ≡ some now)
      × (x.gdpr_request_id ≡ some request)

  Erased-Done : (x y : TraceRow F) → Erased aead bytes draws now request x y → Done y
  Erased-Done x y h = (
    h.reads
        ∙ sym (
            ap (λ r. and_then r (λ j. ok (null_pii_fields j))) h.reads
            ∙ ap ok (null_pii_fields_twice h.json)),
    ap (λ r. r.gdpr_erased_at) h.only,
    ap (λ r. r.gdpr_request_id) h.only,
  )

  pub Step-Done :
      (agent : ℕ) (x y : TraceRow F) → Step aead bytes draws now request agent x y → Done x → Done y
  Step-Done agent x y (inl e) d = subst Done (sym e) d
  Step-Done agent x y (inr (mine, h)) d = Erased-Done x y h

  -- Every row with the key of a given row is erased.
  abbrev pub DoneKey : List (TraceRow F) → TraceRow F → Type 0
  DoneKey rows r = All (λ x. same_key r x ≡ true → Done x) rows

  module _ (agent : ℕ) where
    abbrev pub Steps : List (TraceRow F) → List (TraceRow F) → Type 0
    Steps a b = Pairwise (Step aead bytes draws now request agent) a b

    pub Steps-DoneKey :
        (r : TraceRow F) (a b : List (TraceRow F)) → Steps a b → DoneKey a r → DoneKey b r
    Steps-DoneKey r [] [] h d = tt
    Steps-DoneKey r [] (y ∷ b) h d = absurd h
    Steps-DoneKey r (x ∷ a) [] h d = absurd h
    Steps-DoneKey r (x ∷ a) (y ∷ b) (h, hs) (d, ds) = (
      λ e. Step-Done agent x y h (
          d (
            sym (
              ap (λ k. k.0 == r.trace_id && same_time k.1 r.txn_time)
                (Step-key aead bytes draws now request agent x y h))
            ∙ e)),
      Steps-DoneKey r a b hs ds,
    )

    -- The UPDATE of a row's key leaves no row with that key unerased.
    written-DoneKey :
        DrawLaws aead bytes draws
        → (n : ℕ) (r : TraceRow F) (new : StoredJson F)
        → erased_json aead bytes draws n r.trace_json ≡ ok new
        → (rows : List (TraceRow F))
        → DoneKey (update_where (same_key r) (erased_row now request new) rows) r
    written-DoneKey laws n r new h [] = tt
    written-DoneKey laws n r new h (x ∷ rows) = (
      (let (j, was, reads) = erased-reads aead bytes draws laws n r.trace_json new h in
          elim (Bool-cases (same_key r x)) [
            | inl e ↦ rw e (λ _. (
              reads
                  ∙ sym (
                      ap (λ q. and_then q (λ j. ok (null_pii_fields j))) reads
                      ∙ ap ok (null_pii_fields_twice j)),
              refl,
              refl,
            ))
            | inr e ↦ rw e (λ f. absurd (false-true (sym e ∙ f)))
          ]),
      written-DoneKey laws n r new h rows,
    )

    -- What a batch leaves.
    pub record Outcome (pending : List (TraceRow F)) (n : ℕ) (before : List (TraceRow F))
        (out : Result (AppError F) ℕ × Db F) : Type 0 where
      pub steps : Steps before out.1.traces
      pub done :
          (m : ℕ) → out.0 ≡ ok m → (m ≡ n + length pending) × All (DoneKey out.1.traces) pending

    abbrev pub AllGood : List (TraceRow F) → List (TraceRow F) → Type 0
    AllGood rows pending = All (λ r. All (Good aead bytes draws now request agent r) rows) pending

    pending-Good :
        (a b pending : List (TraceRow F)) → Steps a b → AllGood a pending → AllGood b pending
    pending-Good a b [] h g = tt
    pending-Good a b (r ∷ rs) h (g, gs) =
        (All-Good aead bytes draws now request agent r a b h g, pending-Good a b rs h gs)

    -- One row more in front of a batch.
    first-Outcome :
        DrawLaws aead bytes draws
        → (r : TraceRow F) (rs : List (TraceRow F)) (n : ℕ) (new : StoredJson F)
        → erased_json aead bytes draws n r.trace_json ≡ ok new
        → (rows : List (TraceRow F)) → All (Good aead bytes draws now request agent r) rows
        → (out : Result (AppError F) ℕ × Db F)
        → Outcome rs (n + 1) (update_where (same_key r) (erased_row now request new) rows) out
        → Outcome (r ∷ rs) n rows out
    first-Outcome laws r rs n new h rows g out o =
        let written = update_where (same_key r) (erased_row now request new) rows in
        record {
          steps =
              all_trans aead bytes draws now request agent rows written out.1.traces
                (All-write aead bytes draws now request agent laws n r new h rows g) o.steps;
          done = λ m e. (
            omega (arith, (o.done m e).0),
            (
              Steps-DoneKey r written out.1.traces o.steps (written-DoneKey laws n r new h rows),
              (o.done m e).1,
            ),
          );
        }

    pub stopped :
        (pending : List (TraceRow F)) (n : ℕ) (before : List (TraceRow F)) (x : AppError F)
        (db : Db F)
        → db.traces ≡ before
        → Outcome pending n before (err x, db)
    stopped pending n before x db same = record {
      steps =
          subst (λ rows. Steps before rows) (sym same)
            (all_refl aead bytes draws now request agent before);
      done = λ m h. absurd (err-ne-ok h);
    }

    -- A batch whose rows are good at the start is taken through, or ends by an error between rows.
    pub erase_rows-Outcome :
        DrawLaws aead bytes draws
        → (pending : List (TraceRow F)) (n : ℕ) (db : Db F) → AllGood db.traces pending
        → Outcome pending n db.traces (erase_rows aead bytes draws now request pending n db)
    unfolding erase_rows ◌>>=◌ lift modify pure
    erase_rows-Outcome laws [] n db g = record {
      steps = all_refl aead bytes draws now request agent db.traces;
      done = λ m e. (omega (arith, ok-injective e), tt);
    }
    erase_rows-Outcome laws (r ∷ rs) n db (g, gs) =
        elim (Result-cases (erased_json aead bytes draws n r.trace_json)) [
          | inr (x, e) ↦ rw e (stopped (r ∷ rs) n db.traces x db refl)
          | inl (new, e) ↦ rw e (
              statement-rule (Outcome (r ∷ rs) n db.traces)
                (modify (write_erased now request r new)
                  >> erase_rows aead bytes draws now request rs (n + 1))
                db (λ db' same. stopped (r ∷ rs) n db.traces database db' same)
                (λ db' same.
                  let rows = db'.traces in
                  let g' =
                    subst (λ t. All (Good aead bytes draws now request agent r) t) (sym same) g in
                  let gs' = subst (λ t. AllGood t rs) (sym same) gs in
                  let db'' = write_erased now request r new db' in
                  let st = All-write aead bytes draws now request agent laws n r new e rows g' in
                  let rest =
                    erase_rows-Outcome laws rs (n + 1) db''
                      (pending-Good rows db''.traces rs st gs') in
                  subst
                    (λ t.
                      Outcome (r ∷ rs) n t
                        (erase_rows aead bytes draws now request rs (n + 1) db''))
                    same (first-Outcome laws r rs n new e rows g' _ rest)))
        ]
