-- ===== src/Json.antt =====
-- `serde_json::Value`, and the parts of the canonical printers of src/seal.rs and src/mta.rs that
-- the two share: stable sorting of entries by key, collection of results, joining. Keys compare
-- by scalar values, which is the order of their UTF-8 bytes.
pub mod Order
use irl_engine_ax.Prelude.{
  ℕ, ℤ, Text, codes, Bool, true, false, ◌&&◌, ◌||◌, List, [], ◌∷◌, ◌++◌, Option, none, some, Result,
  ok, err, and_then, ltb, ◌==◌, if◌then◌else◌, text_eq,
}

mutual
  pub data Json (F : Type 0) : Type 0 where
    null : Json F
    bool : Bool → Json F
    int : ℤ → Json F
    real : F → Json F
    string : Text → Json F
    array : Items F → Json F
    object : Fields F → Json F

  pub data Items (F : Type 0) : Type 0 where
    nil : Items F
    cons : Json F → Items F → Items F

  pub data Fields (F : Type 0) : Type 0 where
    end : Fields F
    field : Text → Json F → Fields F → Fields F

-- `Ord for str`
unfoldable pub text_leb : Text → Text → Bool
text_leb [] t = true
text_leb (c ∷ s) [] = false
text_leb (c ∷ s) (d ∷ t) = ltb c d || (c == d && text_leb s t)

module _ {ℓ} {A : Type ℓ} where
  unfoldable pub insert_by_key : Text × A → List (Text × A) → List (Text × A)
  insert_by_key e [] = e ∷ []
  insert_by_key e (h ∷ t) =
      let rest = insert_by_key e t in if text_leb e.0 h.0 then e ∷ h ∷ t else h ∷ rest

  -- `slice::sort_by_key`, which is stable
  unfoldable pub sort_by_key : List (Text × A) → List (Text × A)
  unfolding insert_by_key
  sort_by_key [] = []
  sort_by_key (e ∷ es) = insert_by_key e (sort_by_key es)

-- `collect::<Result<Vec<_>, _>>`
unfoldable pub collect {ℓ κ} : {E : Type ℓ} {A : Type κ} → List (Result E A) → Result E (List A)
collect [] = ok []
collect (r ∷ rs) = let rest = collect rs in and_then r (λ a. and_then rest (λ as'. ok (a ∷ as')))

-- `[String]::join`
unfoldable pub join : Text → List Text → Text
join sep [] = []
join sep (t ∷ []) = t
join sep (t ∷ u ∷ ts) = t ++ (sep ++ join sep (u ∷ ts))

module _ {F : Type 0} where
  -- `Map::get`
  abbrev pub get_field : Text → Fields F → Option (Json F)
  get_field k end = none
  get_field k (field j v fs) = if text_eq j k then some v else get_field k fs

  -- `Map::remove`
  abbrev pub remove_field : Text → Fields F → Fields F
  remove_field k end = end
  remove_field k (field j v fs) =
      let rest = remove_field k fs in if text_eq j k then rest else field j v rest

  -- `Map::insert`, which overwrites the value of a key that is there
  abbrev pub insert_field : Text → Json F → Fields F → Fields F
  insert_field k v end = field k v end
  insert_field k v (field j w fs) =
      let rest = insert_field k v fs in if text_eq j k then field j v fs else field j w rest
