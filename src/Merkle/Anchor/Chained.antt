-- ===== src/Merkle/Anchor/Chained.antt =====
-- How the anchors follow one another, and a cycle of anchoring that adds one.
use mathlib.Core.Path.{subst}
use irl_engine_ax.Prelude.{
  ℕ, ℤ, pos, ◌+◌, ◌&&◌, ltb_ℤ, leb_ℤ, ◌<ℤ◌, Text, Bool, true, false, List, [], ◌∷◌, map, some,
  Result, ok, err, if◌then◌else◌, ◌≡◌, refl, sym, ap, ◌∙◌, arith, ltb→lt, Bool-cases, Option-cases,
  inl, inr, length, select, count_where, Action, continue,
}
use irl_engine_ax.Prelude.Effects.{pure, gets, modify, ◌>>=◌, ◌>>◌}
use irl_engine_ax.Platform.{Externals}
use irl_engine_ax.Store.{TraceRow}
use irl_engine_ax.Gdpr.{sort_by_time}
use irl_engine_ax.Merkle.Anchor.{
  AnchorRow, Anchoring, CycleInputs, last_end, or_epoch, in_period, hashes_in, send, anchor_row,
  anchor_hashes, run_anchor_cycle, is_zero, as_i32,
}

false-true : false ≡ true → ⊥
false-true h = cc

-- Each anchor begins where the one before it ended, the first at the epoch, and ends later.
abbrev pub Chained : List AnchorRow → Type 0
Chained [] = Unit
Chained (a ∷ rest) =
    (a.period_start ≡ or_epoch (last_end rest)) × (a.period_start <ℤ a.period_end) × Chained rest

abbrev pub covers : ℤ → AnchorRow → Bool
covers t a = ltb_ℤ a.period_start t && leb_ℤ t a.period_end

last_end-Chained :
    (a : AnchorRow) (rest : List AnchorRow)
    → Chained (a ∷ rest)
    → last_end (a ∷ rest) ≡ some a.period_end
unfolding last_end
last_end-Chained a rest (h, k, c) = elim (Option-cases (last_end rest)) [
  | inl e ↦ rw e
  | inr (x, e) ↦ rw e (later x (h ∙ ap or_epoch e))
]
  where
    later :
        (x : ℤ)
        → a.period_start ≡ x
        → some (if ltb_ℤ x a.period_end then a.period_end else x) ≡ some a.period_end
    later x s = ground arith

-- A time after the epoch is in one period up to the end of the last, and in none after it.
pub covered :
    (t : ℤ) (anchors : List AnchorRow)
    → pos 0 <ℤ t
    → Chained anchors
    → count_where (covers t) anchors ≡ (if leb_ℤ t (or_epoch (last_end anchors)) then 1 else 0)
unfolding last_end
covered t [] h c = ground arith
covered t (a ∷ rest) h c =
    let ih = covered t rest h (c.2) in
    let start : or_epoch (last_end rest) ≡ a.period_start = sym (c.0) in
    let end : or_epoch (last_end (a ∷ rest)) ≡ a.period_end =
      ap or_epoch (last_end-Chained a rest c) in
    one t a.period_start a.period_end _ _ _ (c.1) start end ih
  where
    one :
        (t start end e0 e1 : ℤ) (n : ℕ)
        → start <ℤ end
        → e0 ≡ start
        → e1 ≡ end
        → n ≡ (if leb_ℤ t e0 then 1 else 0)
        → (if ltb_ℤ start t && leb_ℤ t end then 1 else 0) + n ≡ (if leb_ℤ t e1 then 1 else 0)
    one t start end e0 e1 n h p q r = ground arith

-- A period that ends before it starts has no rows.
no_period :
    {F : Type 0} (start end : ℤ) (rows : List (TraceRow F))
    → ltb_ℤ start end ≡ false
    → select (in_period start end) rows ≡ []
no_period start end [] h = refl
no_period start end (r ∷ rows) h =
    let out : in_period start end r ≡ false = outside r.txn_time in
    rw out (no_period start end rows h)
  where
    outside : (t : ℤ) → (ltb_ℤ start t && leb_ℤ t end) ≡ false
    outside t = ground arith

module _ {F : Type 0} where
  pub send-anchors : (message : Text) (s : Anchoring F) → (send message s).1.anchors ≡ s.anchors
  unfolding send
  send-anchors message s = refl

  -- A statement and the rest: the statement leaves the anchors alone.
  send-rule :
      {A : Type 0} (Q : Result Text A × Anchoring F → Type 0) (message : Text)
      (m : Action (Anchoring F) Text A) (s : Anchoring F)
      → ((s' : Anchoring F) (e : Text) → s'.anchors ≡ s.anchors → Q (err e, s'))
      → ((s' : Anchoring F) → s'.anchors ≡ s.anchors → Q (m s'))
      → Q ((send message >> m) s)
  unfolding ◌>>=◌
  send-rule Q message m s bad good =
      by_result (send message s).0 (send message s).1 (send-anchors message s)
    where
      by_result :
          (r : Result Text (Unit {0})) (s' : Anchoring F)
          → s'.anchors ≡ s.anchors
          → Q (continue r (λ _. m) s')
      by_result (ok u) s' e = good s' e
      by_result (err x) s' e = bad s' x e

  module _ ⦃ex : Externals⦄ where
    abbrev ChainedAfter : {A : Type 0} → Result Text A × Anchoring F → Type 0
    ChainedAfter out = Chained out.1.anchors

    anchored-Chained :
        (start : ℤ) (inp : CycleInputs) (rows : List (TraceRow F)) (hashes : List Text)
        (s : Anchoring F)
        → hashes
          ≡ map
              (λ r. r.reasoning_hash)
              (sort_by_time (select (in_period start inp.period_end) rows))
        → start ≡ or_epoch (last_end s.anchors)
        → Chained s.anchors
        → Chained (anchor_hashes start inp hashes s).1.anchors
    unfolding anchor_hashes pure modify anchor_row sort_by_time
    anchored-Chained start inp rows hashes s from first c =
        elim (Bool-cases (is_zero (as_i32 (length hashes)))) [
          | inl e ↦ rw e c
          | inr e ↦ elim (Bool-cases (ltb_ℤ start inp.period_end)) [
            | inr f ↦
                (let empty : hashes ≡ [] =
                    from
                    ∙ ap (λ l. map (λ (r : TraceRow F). r.reasoning_hash) (sort_by_time l))
                        (no_period start inp.period_end rows f) in
                  absurd (false-true (sym e ∙ ap (λ h. is_zero (as_i32 (length h))) empty)))
            | inl f ↦ rw e (
                send-rule ChainedAfter _ _ s (λ s' x same. subst Chained (sym same) c)
                  (λ s' same. (
                    first ∙ ap (λ l. or_epoch (last_end l)) (sym same),
                    ltb→lt _ _ f,
                    subst Chained (sym same) c,
                  )))
          ]
        ]

    -- One cycle, at any clock and with any answers.
    pub cycle-Chained :
        (inp : CycleInputs) (s : Anchoring F)
        → Chained s.anchors
        → Chained (run_anchor_cycle inp s).1.anchors
    unfolding run_anchor_cycle gets hashes_in ◌>>=◌
    cycle-Chained inp s c =
        send-rule ChainedAfter _ _ s (λ s' x same. subst Chained (sym same) c)
          (λ s' same.
            send-rule ChainedAfter _ _ s' (λ s2 x same2. subst Chained (sym (same2 ∙ same)) c)
              (λ s2 same2.
                anchored-Chained (or_epoch (last_end s'.anchors)) inp s2.db.traces _ s2 refl
                  (ap (λ l. or_epoch (last_end l)) (sym same2))
                  (subst Chained (sym (same2 ∙ same)) c)))
