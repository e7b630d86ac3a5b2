-- ===== src/Asset.antt =====
-- src/asset.rs: the alias map and the comparison of asset symbols.
pub mod Matching
use irl_engine_ax.Prelude.{
  ℕ, ◌==◌, Text, text_eq, trim, Bool, true, List, [], ◌∷◌, Option, none, some, if◌then◌else◌, ◌||◌,
}

-- `HashMap<String, String>`
abbrev pub AliasMap : Type 0
AliasMap = List (Text × Text)

unfoldable pub get : Text → AliasMap → Option Text
get k [] = none
get k ((j, v) ∷ m) = if text_eq j k then some v else get k m

unfoldable pub insert_alias : Text → Text → AliasMap → AliasMap
insert_alias k v [] = (k, v) ∷ []
insert_alias k v ((j, w) ∷ m) =
    let rest = insert_alias k v m in if text_eq j k then (k, v) ∷ m else (j, w) ∷ rest

-- The text before the first `c`, and what follows it if there is one.
unfoldable pub split_once : ℕ → Text → Text × Option Text
split_once c [] = ([], none)
split_once c (x ∷ t) = let (a, b) = split_once c t in if x == c then ([], some t) else (x ∷ a, b)

-- `str::split`
unfoldable pub split : ℕ → Text → List Text
split c [] = [] ∷ []
split c (x ∷ t) = if x == c then [] ∷ split c t else prepend x (split c t)
  where
    prepend : ℕ → List Text → List Text
    prepend x [] = (x ∷ []) ∷ []
    prepend x (p ∷ ps) = (x ∷ p) ∷ ps

-- One pair of the configured text; a text with no `|` is left out.
unfoldable pub add_pair : Text × Option Text → AliasMap → AliasMap
unfolding insert_alias
add_pair (alias, none) m = m
add_pair (alias, some canonical) m = insert_alias (trim alias) (trim canonical) m

unfoldable pub add_pairs : List Text → AliasMap → AliasMap
unfolding add_pair split_once
add_pairs [] m = m
add_pairs (pair ∷ pairs) m = add_pairs pairs (add_pair (split_once 124 pair) m)

-- `init`: the global map is set once, and a second call leaves it as it is.
unfoldable pub init : Text → Option AliasMap → Option AliasMap
unfolding add_pairs split
init raw none = some (add_pairs (split 44 raw) [])
init raw (some m) = some m

unfoldable pub canonicalize : Option AliasMap → Text → Text
unfolding get
canonicalize none asset = asset
canonicalize (some m) asset = elim (get asset m) [ none ↦ asset | some canonical ↦ canonical ]

unfoldable pub assets_match : Option AliasMap → Text → Text → Bool
unfolding canonicalize
assets_match m a b = if text_eq a b then true else text_eq (canonicalize m a) (canonicalize m b)
