-- ===== src/Backfill/Complete.antt =====
-- The loop of the backfill to its end.
use mathlib.Core.Path.{subst}
use irl_engine_ax.Prelude.{
  ℕ, ℤ, zero, suc, ◌+◌, ◌<◌, ◌==◌, false, Text, List, [], ◌∷◌, Option, none, some, ok, ◌≡◌, refl,
  sym, ◌∙◌, inl, inr, arith, Bool-cases, length, All,
}
use irl_engine_ax.Prelude.Effects.{pure, gets, ◌>>=◌, between}
use irl_engine_ax.Json.{Json}
use irl_engine_ax.Encryption.{Aead, JsonBytes}
use irl_engine_ax.Store.{TraceRow, statement}
use irl_engine_ax.Gdpr.{Draws}
use irl_engine_ax.Gdpr.Rows.{DrawLaws}
use irl_engine_ax.Backfill.{
  KeyedDb, Traffic, Backfilling, on_db, plaintext, plaintext_batch, last_id, encrypt_rows,
  take_batch, run_batches, run_backfill,
}
use irl_engine_ax.Backfill.Rows.{Steps, PlainAs, Steps-PlainAs}
use irl_engine_ax.Backfill.Seals.{Seals-statement}
use irl_engine_ax.Backfill.Sealed.{batch-Taken, encrypt_rows-Seals}
use irl_engine_ax.Backfill.Cursor.{last-some}
use irl_engine_ax.Backfill.Cleared.{mid-Steps, encrypt_rows-NoPlain}
use irl_engine_ax.Backfill.Remaining.{
  free, remaining, last-beyond, last-named, remaining-Steps, remaining-decreases,
}
use irl_engine_ax.Backfill.Passed.{
  Unlocked, Behind, none-waiting, All-Done, All-Covered, nothing-Behind, at-end, Steps-Behind,
  Behind-next,
}

gets->>= :
    {F A B : Type 0} (f : KeyedDb F → A) (k : A → Backfilling F B) (s : KeyedDb F)
    → (gets f >>= k) s ≡ k (f s) s
unfolding gets ◌>>=◌
gets->>= f k s = refl

select-length : {F : Type 0} (rows : List (TraceRow F)) → remaining none rows < suc (length rows)
select-length [] = omega arith
select-length (x ∷ rows) =
    let ih = select-length rows in
    elim (Bool-cases (free none x)) [
      | inl e ↦ rw e (omega (arith, ih))
      | inr e ↦ rw e (omega (arith, ih))
    ]

module _ {F : Type 0} (aead : Aead) (bytes : JsonBytes F) (draws : Draws) (json_of : ℕ → Json F)
    (laws : DrawLaws aead bytes draws) (traffic : Traffic F)
    (others_seal : (n : ℕ) (rows : List (TraceRow F))
      → Steps aead bytes draws rows (traffic.others n rows))
    (provider_name path : Text) where
  abbrev AllEncrypted : List (TraceRow F) → Type 0
  AllEncrypted rows = All (λ x. Unlocked traffic x → plaintext x ≡ false) rows

  -- What a turn of the loop may rely on.
  record Ready (fuel : ℕ) (cursor : Option ℕ) (s : KeyedDb F) : Type 0 where
    plain : All (PlainAs aead bytes draws json_of) s.db.traces
    behind : All (Behind traffic cursor) s.db.traces
    enough : remaining cursor s.db.traces < fuel

  abbrev run : ℕ → ℕ → Option ℕ → List ℤ → Backfilling F ℕ
  run fuel total cursor registered =
      run_batches aead bytes draws traffic provider_name path fuel total cursor registered

  abbrev Encrypts : ℕ → Type 0
  Encrypts fuel =
      (total : ℕ) (cursor : Option ℕ) (registered : List ℤ) (s : KeyedDb F)
      → Ready fuel cursor s
      → (v : ℕ) (s' : KeyedDb F) → run fuel total cursor registered s ≡ (ok v, s')
      → AllEncrypted s'.db.traces

  -- The state after a batch that is not empty.
  next-Ready :
      (fuel total : ℕ) (cursor : Option ℕ) (s : KeyedDb F)
      → Ready (suc fuel) cursor s
      → (registered v : List ℤ) (s' : KeyedDb F)
      → encrypt_rows aead bytes draws traffic provider_name path
          (plaintext_batch (traffic.locked total) cursor s)
          total
          registered
          s
        ≡ (ok v, s')
      → (c : ℕ) → last_id (plaintext_batch (traffic.locked total) cursor s) ≡ some c
      → Ready fuel (some c) s'
  next-Ready fuel total cursor s h registered v s' e c l =
      let locked = traffic.locked total in
      let rows = plaintext_batch locked cursor s in
      let batch = encrypt_rows aead bytes draws traffic provider_name path rows total registered in
      let taken = batch-Taken aead bytes draws json_of locked cursor s h.plain in
      let seals =
        encrypt_rows-Seals aead bytes draws json_of laws traffic others_seal provider_name path rows
          taken total registered in
      let st =
        mid-Steps aead bytes draws json_of laws traffic others_seal provider_name path batch seals s
          h.plain (ok v) s' e in
      let cleared =
        encrypt_rows-NoPlain aead bytes draws json_of laws traffic others_seal provider_name path
          rows taken total registered s h.plain v s' e in
      let less =
        remaining-decreases aead bytes draws cursor c (last-beyond locked cursor s c l) s.db.traces
          s'.db.traces st (last-named locked cursor s c l) in
      record {
        plain = Steps-PlainAs aead bytes draws json_of s.db.traces s'.db.traces st h.plain;
        behind =
            Behind-next traffic aead bytes draws total cursor rows c s.db.traces s'.db.traces st
              (All-Covered locked cursor s c l) h.behind (All-Done rows s'.db.traces cleared);
        enough = omega (arith, less, h.enough);
      }

  turn :
      (fuel : ℕ)
      → Encrypts fuel
      → (total : ℕ) (cursor : Option ℕ) (registered : List ℤ) (s : KeyedDb F)
      → Ready (suc fuel) cursor s
      → (v : ℕ) (s' : KeyedDb F)
      → take_batch aead bytes draws traffic provider_name path
          (λ rows registered. run fuel (total + length rows) (last_id rows) registered)
          total
          registered
          (plaintext_batch (traffic.locked total) cursor s)
          s
        ≡ (ok v, s')
      → AllEncrypted s'.db.traces
  unfolding pure
  turn fuel later total cursor registered s h v s' =
      let rows = plaintext_batch (traffic.locked total) cursor s in
      elim (Bool-cases (length rows == 0)) [
        | inl f ↦ rw f (λ e.
            subst (λ o. AllEncrypted o.1.db.traces) e
              (at-end traffic total cursor s.db.traces
                (none-waiting (traffic.locked total) cursor s f) h.behind))
        | inr f ↦ rw f (λ e.
            let batch =
              encrypt_rows aead bytes draws traffic provider_name path rows total registered in
            let b = between batch (run fuel (total + length rows) (last_id rows)) s v s' e in
            let (c, l) = last-some rows f in
            later (total + length rows) (last_id rows) b.value b.middle
              (subst (λ o. Ready fuel o b.middle) (sym l)
                (next-Ready fuel total cursor s h registered b.value b.middle b.before c l))
              v s' b.after)
      ]

  run_batches-Encrypts : (fuel : ℕ) → Encrypts fuel
  unfolding run_batches
  run_batches-Encrypts zero total cursor registered s h v s' e = absurd (omega (arith, h.enough))
  run_batches-Encrypts (suc fuel) total cursor registered s h v s' e =
      let f = plaintext_batch (traffic.locked total) cursor in
      let k =
        take_batch aead bytes draws traffic provider_name path
          (λ rows registered. run fuel (total + length rows) (last_id rows) registered) total
          registered in
      let b = between (on_db statement) (λ _. gets f >>= k) s v s' e in
      let seals = Seals-statement aead bytes draws json_of in
      let st =
        mid-Steps aead bytes draws json_of laws traffic others_seal provider_name path
          (on_db statement) seals s h.plain (ok b.value) b.middle b.before in
      let few =
        remaining-Steps aead bytes draws cursor cursor (λ x beyond_it. beyond_it) s.db.traces
          b.middle.db.traces st in
      turn fuel (run_batches-Encrypts fuel) total cursor registered b.middle
        (record {
          plain = Steps-PlainAs aead bytes draws json_of s.db.traces b.middle.db.traces st h.plain;
          behind =
              Steps-Behind traffic aead bytes draws cursor s.db.traces b.middle.db.traces st
                h.behind;
          enough = omega (arith, few, h.enough);
        })
        v s' (sym (gets->>= f k b.middle) ∙ b.after)

  -- After a run of the backfill that succeeds, every row that no other transaction had locked when a
  -- batch was selected is encrypted: no turn of the loop passes over one, and the loop runs until no
  -- row is left to take. The other writers only encrypt rows, the rows of a trace that are in
  -- plaintext hold the same JSON, and the encryption keeps its laws.
  pub run_backfill_complete :
      (s : KeyedDb F)
      → All (PlainAs aead bytes draws json_of) s.db.traces
      → (total : ℕ) (s' : KeyedDb F)
      → run_backfill aead bytes draws traffic provider_name path s ≡ (ok total, s')
      → All (λ x. Unlocked traffic x → plaintext x ≡ false) s'.db.traces
  unfolding run_backfill
  run_backfill_complete s p total s' e =
      run_batches-Encrypts (suc (length s.db.traces)) 0 none [] s
        (record {
          plain = p;
          behind = nothing-Behind traffic s.db.traces;
          enough = select-length s.db.traces;
        })
        total s' e
