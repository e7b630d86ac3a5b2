-- ===== src/Prelude/Effects.antt =====
-- The actions of Results with their combinators shut: proofs about long handlers go by rules, one
-- for each combinator, and do not unfold the chain.
use mathlib.Core.Path.{◌≡◌, refl, ◌∙◌}
use mathlib.Core.Bool.{Bool}
use native.Mathlib.Omega.{arith}
use irl_engine_ax.Prelude.Results.{Result, ok, err, Action, continue, guard}

module _ {ℓ κ μ} {S : Type ℓ} {E : Type κ} {A : Type μ} where
  unfoldable pub pure : A → Action S E A
  pure a s = (ok a, s)

  unfoldable pub raise : E → Action S E A
  raise e s = (err e, s)

  unfoldable pub lift : Result E A → Action S E A
  lift r s = (r, s)

  unfoldable pub gets : (S → A) → Action S E A
  gets f s = (ok (f s), s)

  -- A step that reads the state and may fail.
  unfoldable pub reads : (S → Result E A) → Action S E A
  reads f s = (f s, s)

module _ {ℓ κ} {S : Type ℓ} {E : Type κ} where
  unfoldable pub modify : (S → S) → Action S E (Unit {0})
  modify f s = (ok tt, f s)

  unfoldable pub check : Bool → E → Action S E (Unit {0})
  check b e s = (guard b e, s)

module _ {ℓ κ μ ν} {S : Type ℓ} {E : Type κ} {A : Type μ} {B : Type ν} where
  infixl 5 ◌>>=◌ ◌>>◌
  unfoldable pub ◌>>=◌ : Action S E A → (A → Action S E B) → Action S E B
  ◌>>=◌ m f s = continue (m s).0 f (m s).1

  abbrev pub ◌>>◌ : Action S E A → Action S E B → Action S E B
  m >> k = m >>= λ _. k

-- An action that leaves a part of the state as it is, whether it succeeds or fails.
pub record Leaves {ℓ κ μ ν} {S : Type ℓ} {E : Type κ} {P : Type ν} {A : Type μ} (part : S → P)
    (m : Action S E A) : Type (ℓ ⊔ ν) where
  pub at : (s : S) → part (m s).1 ≡ part s

module _ {ℓ κ μ ν} {S : Type ℓ} {E : Type κ} {P : Type ν} {A : Type μ} {part : S → P} where
  pub Leaves-pure : (a : A) → Leaves {E = E} part (pure a)
  unfolding pure
  Leaves-pure a = record { at = λ s. refl }

  pub Leaves-raise : (e : E) → Leaves {A = A} part (raise e)
  unfolding raise
  Leaves-raise e = record { at = λ s. refl }

  pub Leaves-lift : (r : Result E A) → Leaves part (lift r)
  unfolding lift
  Leaves-lift r = record { at = λ s. refl }

  pub Leaves-gets : (f : S → A) → Leaves {E = E} part (gets f)
  unfolding gets
  Leaves-gets f = record { at = λ s. refl }

  pub Leaves-reads : (f : S → Result E A) → Leaves part (reads f)
  unfolding reads
  Leaves-reads f = record { at = λ s. refl }

module _ {ℓ κ ν} {S : Type ℓ} {E : Type κ} {P : Type ν} {part : S → P} where
  pub Leaves-modify : (f : S → S) → ((s : S) → part (f s) ≡ part s) → Leaves {E = E} part (modify f)
  unfolding modify
  Leaves-modify f h = record { at = h }

  pub Leaves-check : (b : Bool) (e : E) → Leaves part (check b e)
  unfolding check
  Leaves-check b e = record { at = λ s. refl }

module _ {ℓ κ μ ν ρ} {S : Type ℓ} {E : Type κ} {P : Type ν} {A : Type μ} {B : Type ρ}
    {part : S → P} where
  Leaves-continue :
      (r : Result E A) (f : A → Action S E B)
      → ((a : A) → Leaves part (f a))
      → (s : S) → part (continue r f s).1 ≡ part s
  Leaves-continue (ok a) f h s = (h a).at s
  Leaves-continue (err e) f h s = refl

  pub Leaves-bind :
      (m : Action S E A) (f : A → Action S E B)
      → Leaves part m
      → ((a : A) → Leaves part (f a))
      → Leaves part (m >>= f)
  unfolding ◌>>=◌
  Leaves-bind m f h k = record { at = λ s. Leaves-continue (m s).0 f k (m s).1 ∙ h.at s }

pub ruleset leaves_rules =
    (Leaves-pure, Leaves-raise, Leaves-lift, Leaves-gets, Leaves-reads, Leaves-check, Leaves-bind)

module _ {ℓ κ μ ν} {S : Type ℓ} {E : Type κ} {A : Type μ} {B : Type ν} where
  -- The step between two actions of a chain that succeeds.
  pub record Between (m : Action S E A) (f : A → Action S E B) (s : S) (b : B) (final : S)
      : Type (ℓ ⊔ κ ⊔ μ ⊔ ν) where
    pub value : A
    pub middle : S
    pub before : m s ≡ (ok value, middle)
    pub after : f value middle ≡ (ok b, final)

  Between-continue :
      (m : Action S E A) (f : A → Action S E B) (s : S) (b : B) (final : S) (r : Result E A)
      (s' : S)
      → m s ≡ (r, s')
      → continue r f s' ≡ (ok b, final)
      → Between m f s b final
  Between-continue m f s b final (ok a) s' e h = record {
    value = a;
    middle = s';
    before = e;
    after = h;
  }
  Between-continue m f s b final (err x) s' e h = ground arith

  pub between :
      (m : Action S E A) (f : A → Action S E B) (s : S) (b : B) (final : S)
      → (m >>= f) s ≡ (ok b, final)
      → Between m f s b final
  unfolding ◌>>=◌
  between m f s b final h = Between-continue m f s b final (m s).0 (m s).1 refl h
