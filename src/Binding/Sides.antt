-- ===== src/Binding/Sides.antt =====
-- The side that a stored action stands for: the keywords of src/binding.rs, of src/routes/bind.rs
-- and of src/snapshot.rs against one another.
use irl_engine_ax.Prelude.{
  ℕ, [], ◌∷◌, ◌++◌, Text, codes, Bool, true, false, ◌≡◌, refl, ap, ◌⊎◌, inl, inr, Bool-cases, arith,
  ◌||◌, text_eq, starts_with, contains, to_ascii_lowercase, trim, if◌then◌else◌,
}
use irl_engine_ax.Platform.{Float64, zero}
use irl_engine_ax.Snapshot.{resolve_custom_direction, custom_keywords}
use irl_engine_ax.Binding.{resolve_direction, long_keyword, short_keyword}
use irl_engine_ax.Bind.{quantity_delta}

contains-starts_with : (t p : Text) → starts_with t p ≡ true → contains t p ≡ true
contains-starts_with [] p h = h
contains-starts_with (c ∷ t) p h = ground arith

contains-later : (c : ℕ) (t p : Text) → contains t p ≡ true → contains (c ∷ t) p ≡ true
contains-later c t p h = ground arith

starts_with-suffix : (t p q : Text) → starts_with t (p ++ q) ≡ true → contains t q ≡ true
starts_with-suffix t [] q h = contains-starts_with t q h
starts_with-suffix [] (d ∷ p) q h = ground arith
starts_with-suffix (c ∷ t) (d ∷ p) q h =
    contains-later c t q (starts_with-suffix t p q (ground arith))

contains-suffix : (t p q : Text) → contains t (p ++ q) ≡ true → contains t q ≡ true
contains-suffix [] p q h = starts_with-suffix [] p q h
contains-suffix (c ∷ t) p q h = elim (Bool-cases (starts_with (c ∷ t) (p ++ q))) [
  | inl e ↦ starts_with-suffix (c ∷ t) p q e
  | inr e ↦ contains-later c t q (contains-suffix t p q (ground arith))
]

long_keyword-custom : (l : Text) → long_keyword l ≡ true → custom_keywords l ≡ codes "long"
unfolding custom_keywords
long_keyword-custom l h =
    let s = contains-starts_with l (codes "long") in
    let c = contains-suffix l (codes "open_") (codes "long") in ground arith

reorder :
    (a b c d e f g : Bool)
    → (a ≡ true → g ≡ true)
    → (a || b || c || d || e || f) ≡ true
    → (g || b || d || e || f || c) ≡ true
reorder a b c d e f g k h = ground arith

second :
    (a b : Bool) (x y z : Text)
    → b ≡ true
    → ((if a then x else if b then y else z) ≡ y) ⊎ ((if a then x else if b then y else z) ≡ x)
second a b x y z h = ground arith

short_keyword-custom :
    (l : Text)
    → short_keyword l ≡ true
    → (custom_keywords l ≡ codes "short") ⊎ (custom_keywords l ≡ codes "long")
unfolding custom_keywords
short_keyword-custom l h = second _ _ _ _ _ (
    reorder (starts_with l (codes "short")) (starts_with l (codes "sell"))
      (contains l (codes "close_short")) (text_eq l (codes "close")) (text_eq l (codes "exit"))
      (text_eq l (codes "reverse")) (contains l (codes "short"))
      (contains-starts_with l (codes "short")) h)

swap : (a b c : Bool) → (a || c || b) ≡ (a || b || c)
swap true b c = refl
swap false true true = refl
swap false true false = refl
swap false false true = refl
swap false false false = refl

swap_long : (a b c d : Bool) → (a || c || b || d) ≡ (a || b || c || d)
swap_long a b c d = ap (λ z. z || d) (swap a b c)

swap_short : (a b c d e f : Bool) → (a || c || b || d || e || f) ≡ (a || b || c || d || e || f)
swap_short a b c d e f = ap (λ z. z || d || e || f) (swap a b c)

-- The handler of src/routes/bind.rs tests the same keywords in another order.
quantity_delta-keywords :
    {F : Type 0} ⦃fl : Float64 F⦄ (action : Text) (fill : F)
    → let l = trim (to_ascii_lowercase action) in
      quantity_delta action fill
      ≡ (if long_keyword l then fill else if short_keyword l then fl.neg fill else zero)
unfolding quantity_delta
quantity_delta-keywords action fill =
    let l = trim (to_ascii_lowercase action) in
    rw (
      swap_long (starts_with l (codes "long")) (starts_with l (codes "buy"))
          (contains l (codes "open_long")) (text_eq l (codes "open")),
      swap_short (starts_with l (codes "short")) (starts_with l (codes "sell"))
          (contains l (codes "close_short")) (text_eq l (codes "close")) (text_eq l (codes "exit"))
          (text_eq l (codes "reverse")),
    )

-- What the two keyword tests decide, for a direction `c` and the moves `x`, `y`, `z`.
decided :
    {F : Type 0} (a b : Bool) (c : Text) (x y z : F)
    → (a ≡ true → c ≡ codes "long")
    → (b ≡ true → (c ≡ codes "short") ⊎ (c ≡ codes "long"))
    → let side = if a then codes "long" else if b then codes "short" else codes "neutral" in
      let move = if a then x else if b then y else z in
      ((side ≡ codes "long") × ((c ≡ codes "long") × (move ≡ x)))
      ⊎ (((side ≡ codes "short") × (((c ≡ codes "short") ⊎ (c ≡ codes "long")) × (move ≡ y)))
          ⊎ ((side ≡ codes "neutral") × (move ≡ z)))
decided true b c x y z f g = inl (refl, (f refl, refl))
decided false true c x y z f g = inr (inl (refl, (g refl, refl)))
decided false false c x y z f g = inr (inr (refl, refl))

-- Binding resolves an action to "long", "short" or "neutral", and the position moves by the fill,
-- its negation or nothing accordingly. What it takes for "long" is "long" to authorization too,
-- and what it takes for "short" is "short" or "long" there, never neutral or unknown.
pub resolve_direction-agrees :
    {F : Type 0} ⦃fl : Float64 F⦄ (action : Text) (fill : F)
    → ((resolve_direction action ≡ codes "long")
        × ((resolve_custom_direction action ≡ codes "long") × (quantity_delta action fill ≡ fill)))
      ⊎ (((resolve_direction action ≡ codes "short")
            × (((resolve_custom_direction action ≡ codes "short")
                  ⊎ (resolve_custom_direction action ≡ codes "long"))
                × (quantity_delta action fill ≡ fl.neg fill)))
          ⊎ ((resolve_direction action ≡ codes "neutral") × (quantity_delta action fill ≡ zero)))
unfolding resolve_direction resolve_custom_direction
resolve_direction-agrees ⦃fl⦄ action fill =
    let l = trim (to_ascii_lowercase action) in
    rw (quantity_delta-keywords action fill) (
      decided (long_keyword l) (short_keyword l) (custom_keywords l) fill (fl.neg fill) zero
        (long_keyword-custom l) (short_keyword-custom l))
