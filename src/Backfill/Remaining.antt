-- ===== src/Backfill/Remaining.antt =====
-- The rows that a run of the backfill has still before it: those of a batch, and how they become
-- fewer from one batch to the next.
use irl_engine_ax.Prelude.{
  ℕ, ◌<◌, ◌≤◌, ◌==◌, ◌&&◌, ltb, Bool, true, false, List, [], ◌∷◌, Option, none, some, ◌≡◌, refl,
  sym, inl, inr, arith, Bool-cases, length, All, select, any, ==_iff, ltb→lt,
}
use mathlib.Core.Path.{subst}
use irl_engine_ax.Encryption.{Aead, JsonBytes}
use irl_engine_ax.Store.{TraceRow}
use irl_engine_ax.Gdpr.{Draws}
use irl_engine_ax.Backfill.{KeyedDb, waiting, beyond, plaintext, plaintext_batch, last_id}
use irl_engine_ax.Backfill.Rows.{Step, Steps}
use irl_engine_ax.Backfill.Cursor.{batch-All, last-All}
use irl_engine_ax.Backfill.Cleared.{Step-kept}

module _ {F : Type 0} where
  -- The plaintext rows beyond a cursor.
  abbrev pub free : Option ℕ → TraceRow F → Bool
  free cursor x = plaintext x && beyond cursor x

  abbrev pub remaining : Option ℕ → List (TraceRow F) → ℕ
  remaining cursor rows = length (select (free cursor) rows)

  All-beyond :
      (locked : TraceRow F → Bool) (cursor : Option ℕ) (rows : List (TraceRow F))
      → All (λ x. waiting locked cursor x ≡ true → beyond cursor x ≡ true) rows
  All-beyond locked cursor [] = tt
  All-beyond locked cursor (x ∷ rows) = (λ h. ground (arith, h), All-beyond locked cursor rows)

  -- The last id of a batch is beyond the cursor.
  pub last-beyond :
      (locked : TraceRow F → Bool) (cursor : Option ℕ) (s : KeyedDb F) (c : ℕ)
      → last_id (plaintext_batch locked cursor s) ≡ some c
      → (x : TraceRow F) → beyond (some c) x ≡ true
      → beyond cursor x ≡ true
  last-beyond locked none s c e x h = refl
  last-beyond locked (some d) s c e x h =
      let lt =
        last-All c (λ id. ltb d id ≡ true) (plaintext_batch locked (some d) s) e
          (batch-All (λ r. ltb d r.trace_id ≡ true) locked (some d) s
            (All-beyond locked (some d) s.db.traces)) in
      ground (arith, ltb→lt d c lt, ltb→lt c x.trace_id h)

  abbrev pub named : Option ℕ → ℕ → TraceRow F → Bool
  named cursor c x = free cursor x && x.trace_id == c

  none-named :
      (locked : TraceRow F → Bool) (cursor : Option ℕ) (c : ℕ) (rows : List (TraceRow F))
      → any (named cursor c) rows ≡ false
      → All (λ x. waiting locked cursor x ≡ true → (x.trace_id == c) ≡ false) rows
  none-named locked cursor c [] h = tt
  none-named locked cursor c (x ∷ rows) h =
      (λ w. ground (arith, h, w), none-named locked cursor c rows (ground (arith, h)))

  -- A row of the table has the last id of a batch.
  pub last-named :
      (locked : TraceRow F → Bool) (cursor : Option ℕ) (s : KeyedDb F) (c : ℕ)
      → last_id (plaintext_batch locked cursor s) ≡ some c
      → any (named cursor c) s.db.traces ≡ true
  last-named locked cursor s c e = elim (Bool-cases (any (named cursor c) s.db.traces)) [
    | inl h ↦ h
    | inr h ↦
        (let other =
            last-All c (λ id. (id == c) ≡ false) (plaintext_batch locked cursor s) e
              (batch-All (λ r. (r.trace_id == c) ≡ false) locked cursor s
                (none-named locked cursor c s.db.traces h)) in
          absurd (ground (arith, other, ==_iff c c)))
  ]

module _ {F : Type 0} (aead : Aead) (bytes : JsonBytes F) (draws : Draws) where
  Step-free :
      (cursor later : Option ℕ)
      → ((x : TraceRow F) → beyond later x ≡ true → beyond cursor x ≡ true)
      → (x y : TraceRow F) → Step aead bytes draws x y
      → free later y ≡ true
      → free cursor x ≡ true
  Step-free cursor later h x y st k = elim (Step-kept aead bytes draws x y st) [
    | inr e ↦ ground (arith, e, k)
    | inl e ↦
        (let k' = subst (λ r. free later r ≡ true) e k in
          let b = h x (ground (arith, k')) in ground (arith, k', b))
  ]

  pub remaining-Steps :
      (cursor later : Option ℕ)
      → ((x : TraceRow F) → beyond later x ≡ true → beyond cursor x ≡ true)
      → (a b : List (TraceRow F)) → Steps aead bytes draws a b
      → remaining later b ≤ remaining cursor a
  remaining-Steps cursor later h [] [] st = omega arith
  remaining-Steps cursor later h [] (y ∷ b) st = absurd st
  remaining-Steps cursor later h (x ∷ a) [] st = absurd st
  remaining-Steps cursor later h (x ∷ a) (y ∷ b) (st, sts) =
      let ih = remaining-Steps cursor later h a b sts in
      elim (Bool-cases (free later y)) [
        | inl e ↦ rw (e, Step-free cursor later h x y st e) (omega (arith, ih))
        | inr e ↦ elim (Bool-cases (free cursor x)) [
          | inl f ↦ rw (e, f) (omega (arith, ih))
          | inr f ↦ rw (e, f) ih
        ]
      ]

  named-gone :
      (cursor : Option ℕ) (c : ℕ) (x y : TraceRow F)
      → Step aead bytes draws x y
      → named cursor c x ≡ true
      → free (some c) y ≡ false
  named-gone cursor c x y st h = elim (Step-kept aead bytes draws x y st) [
    | inr e ↦ ground (arith, e)
    | inl e ↦ subst (λ r. free (some c) r ≡ false) (sym e) (ground (arith, h, ==_iff x.trace_id c))
  ]

  -- The cursor moves to the id of a row that was remaining: that row remains no longer.
  pub remaining-decreases :
      (cursor : Option ℕ) (c : ℕ)
      → ((x : TraceRow F) → beyond (some c) x ≡ true → beyond cursor x ≡ true)
      → (a b : List (TraceRow F)) → Steps aead bytes draws a b
      → any (named cursor c) a ≡ true
      → remaining (some c) b < remaining cursor a
  remaining-decreases cursor c h [] b st k = absurd (ground (arith, k))
  remaining-decreases cursor c h (x ∷ a) [] st k = absurd st
  remaining-decreases cursor c h (x ∷ a) (y ∷ b) (st, sts) k =
      elim (Bool-cases (named cursor c x)) [
        | inl n ↦
            (let le = remaining-Steps cursor (some c) h a b sts in
              let mine : free cursor x ≡ true = ground (arith, n) in
              rw (mine, named-gone cursor c x y st n) (omega (arith, le)))
        | inr n ↦
            (let ih = remaining-decreases cursor c h a b sts (ground (arith, n, k)) in
              elim (Bool-cases (free (some c) y)) [
                | inl e ↦ rw (e, Step-free cursor (some c) h x y st e) (omega (arith, ih))
                | inr e ↦ elim (Bool-cases (free cursor x)) [
                  | inl f ↦ rw (e, f) (omega (arith, ih))
                  | inr f ↦ rw (e, f) ih
                ]
              ])
      ]
