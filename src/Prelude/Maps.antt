-- ===== src/Prelude/Maps.antt =====
-- Maps with numeric keys (UUIDs) as association lists.
use Prim.Native.Nat.{ℕ}
use mathlib.Core.Path.{◌≡◌, refl}
use mathlib.Core.List.{List, [], ◌∷◌}
use mathlib.Core.Option.{Option, none, some}
use native.Mathlib.Omega.{arith}
use irl_engine_ax.Prelude.Tests.{◌==◌, if◌then◌else◌}

module _ {ℓ} {V : Type ℓ} where
  abbrev pub lookup : ℕ → List (ℕ × V) → Option V
  lookup key [] = none
  lookup key (e ∷ rest) = if e.0 == key then some e.1 else lookup key rest

  -- `insert` of a map: the entry of the key is replaced where it stands.
  abbrev pub insert : ℕ → V → List (ℕ × V) → List (ℕ × V)
  insert key value [] = (key, value) ∷ []
  insert key value (e ∷ rest) =
      let behind = insert key value rest in if e.0 == key then (key, value) ∷ rest else e ∷ behind

  pub lookup-insert :
      (key other : ℕ) (value : V) (entries : List (ℕ × V))
      → lookup other (insert key value entries)
        ≡ (if key == other then some value else lookup other entries)
  lookup-insert key other value [] = refl
  lookup-insert key other value (e ∷ rest) =
      let ih = lookup-insert key other value rest in ground arith
