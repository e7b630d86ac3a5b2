-- ===== src/Json/Order.antt =====
-- The order of keys is total, and insertion by distinct keys commutes.
use irl_engine_ax.Prelude.{Text, true, false, List, [], ◌∷◌, ◌≡◌, refl, arith, text_eq}
use irl_engine_ax.Json.{text_leb, insert_by_key}

pub text_leb_total : (s t : Text) → text_leb s t ≡ false → text_leb t s ≡ true
unfolding text_leb
text_leb_total [] t h = ground arith
text_leb_total (c ∷ s) [] h = refl
text_leb_total (c ∷ s) (d ∷ t) h = ground (arith, text_leb_total s t)

pub text_leb_trans :
    (s t u : Text) → text_leb s t ≡ true → text_leb t u ≡ true → text_leb s u ≡ true
unfolding text_leb
text_leb_trans [] t u h k = refl
text_leb_trans (c ∷ s) [] u h k = ground arith
text_leb_trans (c ∷ s) (d ∷ t) [] h k = ground arith
text_leb_trans (c ∷ s) (d ∷ t) (e ∷ u) h k = ground (arith, text_leb_trans s t u)

pub text_leb_antisymm :
    (s t : Text) → text_leb s t ≡ true → text_leb t s ≡ true → text_eq s t ≡ true
unfolding text_leb
text_leb_antisymm [] [] h k = refl
text_leb_antisymm [] (d ∷ t) h k = ground arith
text_leb_antisymm (c ∷ s) [] h k = ground arith
text_leb_antisymm (c ∷ s) (d ∷ t) h k = ground (arith, text_leb_antisymm s t)

module _ {ℓ} {A : Type ℓ} where
  -- Two entries with different keys may be inserted in either order.
  pub insert_by_key_comm :
      (x y : Text × A) (s : List (Text × A))
      → text_eq x.0 y.0 ≡ false
      → insert_by_key x (insert_by_key y s) ≡ insert_by_key y (insert_by_key x s)
  unfolding insert_by_key
  insert_by_key_comm x y [] ne = ground (arith, text_leb_total x.0 y.0, text_leb_antisymm x.0 y.0)
  insert_by_key_comm x y (h ∷ t) ne = ground (
    arith,
    insert_by_key_comm x y t,
    text_leb_total x.0 y.0,
    text_leb_antisymm x.0 y.0,
    text_leb_total x.0 h.0,
    text_leb_total y.0 h.0,
    text_leb_trans x.0 y.0 h.0,
    text_leb_trans y.0 x.0 h.0,
    text_leb_trans x.0 h.0 y.0,
    text_leb_trans y.0 h.0 x.0,
  )
