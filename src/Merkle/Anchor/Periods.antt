-- ===== src/Merkle/Anchor/Periods.antt =====
-- Which times the anchors cover.
use mathlib.Core.Path.{subst}
use irl_engine_ax.Prelude.{
  ℕ, ℤ, pos, leb_ℤ, ◌<ℤ◌, Text, codes, Bool, true, false, List, [], ◌∷◌, map, Result, ok, err,
  if◌then◌else◌, ◌≡◌, refl, sym, ap, ◌∙◌, arith, Bool-cases, inl, inr, count_where, update_where,
  Action,
}
use irl_engine_ax.Prelude.Effects.{Leaves, Leaves-bind, Leaves-modify, Leaves-pure, Leaves-gets}
use irl_engine_ax.Platform.{Externals}
use irl_engine_ax.Store.{Db}
use irl_engine_ax.Merkle.Anchor.{
  AnchorRow, Anchoring, CycleInputs, last_end, later_end, or_epoch, send, run_anchor_cycle,
  run_ots_upgrade_cycle, retry_anchors, record_retry, valid_root, has_anchor_id, with_receipt,
}
use irl_engine_ax.Merkle.Anchor.Chained.{Chained, covers, covered, send-anchors, cycle-Chained}

-- The bounds of the periods.
abbrev bounds : AnchorRow → ℤ × ℤ
bounds a = (a.period_start, a.period_end)

last_end-bounds : (a b : List AnchorRow) → map bounds a ≡ map bounds b → last_end a ≡ last_end b
unfolding last_end
last_end-bounds [] [] h = refl
last_end-bounds [] (y ∷ b) h = ground arith
last_end-bounds (x ∷ a) [] h = ground arith
last_end-bounds (x ∷ a) (y ∷ b) h =
    let ih = last_end-bounds a b in
    let same : last_end a ≡ last_end b = ih (cc) in
    let this : x.period_end ≡ y.period_end = cc in
    ap (λ e. later_end e (last_end a)) this ∙ ap (later_end y.period_end) same

Chained-bounds : (a b : List AnchorRow) → map bounds a ≡ map bounds b → Chained a → Chained b
Chained-bounds [] [] h c = tt
Chained-bounds [] (y ∷ b) h c = absurd (ground arith)
Chained-bounds (x ∷ a) [] h c = absurd (ground arith)
Chained-bounds (x ∷ a) (y ∷ b) h (c, k, cs) =
    let rest : map bounds a ≡ map bounds b = cc in
    let start : x.period_start ≡ y.period_start = cc in
    let end : x.period_end ≡ y.period_end = cc in
    (
      sym start ∙ c ∙ ap or_epoch (last_end-bounds a b rest),
      subst (λ e. y.period_start <ℤ e) end (subst (λ s. s <ℤ x.period_end) start k),
      Chained-bounds a b rest cs,
    )

receipt-bounds :
    (id : ℕ) (receipt : List ℕ) (now : ℤ) (anchors : List AnchorRow)
    → map bounds (update_where (has_anchor_id id) (with_receipt receipt now) anchors)
      ≡ map bounds anchors
receipt-bounds id receipt now [] = refl
receipt-bounds id receipt now (a ∷ rest) =
    let ih = receipt-bounds id receipt now rest in
    elim (Bool-cases (has_anchor_id id a)) [
      | inl e ↦ rw e (ap (λ t. bounds a ∷ t) ih)
      | inr e ↦ rw e (ap (λ t. bounds a ∷ t) ih)
    ]

module _ {F : Type 0} ⦃ex : Externals⦄ (now : ℤ) (answers : ℕ → List (Result Text (List ℕ))) where
  abbrev bounds_of : Anchoring F → List (ℤ × ℤ)
  bounds_of s = map bounds s.anchors

  Leaves-send : (message : Text) → Leaves bounds_of (send message)
  Leaves-send message = record { at = λ s. ap (map bounds) (send-anchors message s) }

  Leaves-record :
      (id : ℕ) (r : Result Text (List ℕ)) → Leaves bounds_of (record_retry now answers id r)
  Leaves-record id (ok receipt) =
      Leaves-bind _ _ (Leaves-send (codes "DB error updating anchor"))
        (λ _. Leaves-modify _ (λ s. receipt-bounds id receipt now s.anchors))
  Leaves-record id (err e) = Leaves-pure tt

  Leaves-if :
      (b : Bool) (m n : Action (Anchoring F) Text (Unit {0}))
      → Leaves bounds_of m
      → Leaves bounds_of n
      → Leaves bounds_of (if b then m else n)
  Leaves-if true m n h k = h
  Leaves-if false m n h k = k

  Leaves-retry : (anchors : List AnchorRow) → Leaves bounds_of (retry_anchors now answers anchors)
  unfolding retry_anchors
  Leaves-retry [] = Leaves-pure tt
  Leaves-retry (a ∷ rest) =
      Leaves-bind _ _ (Leaves-if (valid_root a) _ _ (Leaves-record a.id _) (Leaves-pure tt))
        (λ _. Leaves-retry rest)

  Leaves-upgrade : Leaves bounds_of (run_ots_upgrade_cycle now answers)
  unfolding run_ots_upgrade_cycle
  Leaves-upgrade =
      Leaves-bind _ _ (Leaves-send (codes "DB error fetching unanchored rows"))
        (λ _. Leaves-bind _ _ (Leaves-gets _) (λ rows. Leaves-retry rows))

module _ {F : Type 0} ⦃ex : Externals⦄ where
  -- What happens to the store and the anchors: rows are written, and the two workers run.
  pub data Event : Anchoring F → Anchoring F → Type 0 where
    write : (s : Anchoring F) (db : Db F) → Event s (record s { db = db })
    anchor : (s : Anchoring F) (inp : CycleInputs) → Event s (run_anchor_cycle inp s).1
    upgrade :
        (s : Anchoring F) (now : ℤ) (answers : ℕ → List (Result Text (List ℕ)))
        → Event s (run_ots_upgrade_cycle now answers s).1

  pub data History (s : Anchoring F) : Anchoring F → Type 0 where
    start : History s s
    next : {t u : Anchoring F} → History s t → Event t u → History s u

  Event-Chained : {s t : Anchoring F} → Event s t → Chained s.anchors → Chained t.anchors
  Event-Chained (write s db) c = c
  Event-Chained (anchor s inp) c = cycle-Chained inp s c
  Event-Chained (upgrade s now answers) c =
      Chained-bounds _ _ (sym ((Leaves-upgrade now answers).at s)) c

  History-Chained : {s t : Anchoring F} → History s t → Chained s.anchors → Chained t.anchors
  History-Chained start c = c
  History-Chained (next h e) c = Event-Chained e (History-Chained h c)

  -- Whatever is written to the store and however often the two workers run, at whatever readings of
  -- the clock and with whatever failures, from no anchors on: each time after the epoch lies in the
  -- period of exactly one anchor if it is not after the end of the last, and in none otherwise. A
  -- period leaves out its start and includes its end.
  pub History-covered :
      (s t : Anchoring F) (time : ℤ)
      → s.anchors ≡ []
      → History s t
      → pos 0 <ℤ time
      → count_where (covers time) t.anchors
        ≡ (if leb_ℤ time (or_epoch (last_end t.anchors)) then 1 else 0)
  History-covered s t time none_yet h after =
      covered time t.anchors after (History-Chained h (subst Chained (sym none_yet) tt))
