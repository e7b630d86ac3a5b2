-- ===== src/Prelude/Results.antt =====
-- Errors as values, and actions that change a state and may fail. What was written before a
-- failure stays written.
use mathlib.Core.Path.{◌≡◌, refl}
use mathlib.Core.Bool.{Bool, true, false}
use mathlib.Core.Option.{Option, none, some}
use native.Mathlib.Omega.{arith}
use mathlib.Core.Logic.{◌⊎◌, inl, inr}

pub data Result {ℓ κ} (E : Type ℓ) (A : Type κ) : Type (ℓ ⊔ κ) where
  ok : A → Result E A
  err : E → Result E A

module _ {ℓ κ} {E : Type ℓ} {A : Type κ} where
  -- `Option::ok_or`
  abbrev pub ok_or : Option A → E → Result E A
  ok_or none e = err e
  ok_or (some a) e = ok a

  pub Result-cases : (r : Result E A) → ((a : A) × (r ≡ ok a)) ⊎ ((e : E) × (r ≡ err e))
  Result-cases (ok a) = inl (a, refl)
  Result-cases (err e) = inr (e, refl)

  abbrev pub is_ok : Result E A → Bool
  is_ok (ok a) = true
  is_ok (err e) = false

pub ok-injective {ℓ κ} :
    {E : Type ℓ} {A : Type κ} {a b : A} → Path (Result E A) (ok a) (ok b) → a ≡ b
ok-injective h = cc

-- `Result::map_err`
abbrev pub map_err {ℓ κ μ} :
    {E : Type ℓ} {F : Type κ} {A : Type μ} → (E → F) → Result E A → Result F A
map_err f (ok a) = ok a
map_err f (err e) = err (f e)

-- The `?` operator.
abbrev pub and_then {ℓ κ μ} :
    {E : Type ℓ} {A : Type κ} {B : Type μ} → Result E A → (A → Result E B) → Result E B
and_then (ok a) f = f a
and_then (err e) f = err e

abbrev pub guard {ℓ} : {E : Type ℓ} → Bool → E → Result E (Unit {0})
guard true e = ok tt
guard false e = err e

abbrev pub Action {ℓ κ μ} : Type ℓ → Type κ → Type μ → Type (ℓ ⊔ κ ⊔ μ)
Action S E A = S → Result E A × S

module _ {ℓ κ μ} {S : Type ℓ} {E : Type κ} {A : Type μ} where
  abbrev pub pure : A → Action S E A
  pure a s = (ok a, s)

  abbrev pub raise : E → Action S E A
  raise e s = (err e, s)

  abbrev pub lift : Result E A → Action S E A
  lift r s = (r, s)

  abbrev pub gets : (S → A) → Action S E A
  gets f s = (ok (f s), s)

module _ {ℓ κ} {S : Type ℓ} {E : Type κ} where
  abbrev pub modify : (S → S) → Action S E (Unit {0})
  modify f s = (ok tt, f s)

  abbrev pub check : Bool → E → Action S E (Unit {0})
  check b e s = (guard b e, s)

module _ {ℓ κ μ ν} {S : Type ℓ} {E : Type κ} {A : Type μ} {B : Type ν} where
  abbrev pub continue : Result E A → (A → Action S E B) → Action S E B
  continue (ok a) f s = f a s
  continue (err e) f s = (err e, s)

  infixl 5 ◌>>=◌ ◌>>◌
  abbrev pub ◌>>=◌ : Action S E A → (A → Action S E B) → Action S E B
  ◌>>=◌ m f s = let (r, s') = m s in continue r f s'

  abbrev pub ◌>>◌ : Action S E A → Action S E B → Action S E B
  ◌>>◌ m k = m >>= λ _. k

  -- What a chain of actions that succeeds went through.
  pub continue-ok :
      (r : Result E A) (f : A → Action S E B) (s : S) (b : B)
      → (continue r f s).0 ≡ ok b
      → (a : A) × ((r ≡ ok a) × ((f a s).0 ≡ ok b))
  continue-ok (ok a) f s b h = (a, (refl, h))
  continue-ok (err e) f s b h = ground arith

  pub bind-ok :
      (m : Action S E A) (f : A → Action S E B) (s : S) (b : B)
      → ((m >>= f) s).0 ≡ ok b
      → (a : A) × (((m s).0 ≡ ok a) × ((f a (m s).1).0 ≡ ok b))
  bind-ok m f s b h = continue-ok (m s).0 f (m s).1 b h
