-- ===== src/Mta/Canonical.antt =====
-- src/seal.rs and src/mta.rs each have a printer of canonical JSON: they are the same function.
use irl_engine_ax.Prelude.{
  Text, codes, ◌≡◌, refl, Result, ok, err, and_then, map_err, List, map, [], ◌∷◌, Result-cases,
  Bool-cases, inl, inr, ◌++◌,
}
use irl_engine_ax.Errors.{AppError, serialization}
use irl_engine_ax.Json.{
  Json, Items, Fields, null, bool, int, real, string, array, object, nil, cons, end, field,
  sort_by_key, insert_by_key, collect, join, text_leb,
}
use irl_engine_ax.Seal.{canonicalize_json, canonical_items, canonical_fields, entry}
use irl_engine_ax.Mta.{canonical_json, json_items, json_fields, pair_text, print}

-- The error forgotten.
abbrev forget {ℓ κ} : {E : Type ℓ} {A : Type κ} → Result E A → Result (Unit {0}) A
forget r = map_err (λ _. tt) r

collect-forget {ℓ κ} :
    {E : Type ℓ} {A : Type κ} (rs : List (Result E A))
    → collect (map forget rs) ≡ forget (collect rs)
unfolding collect
collect-forget [] = refl
collect-forget (ok a ∷ rs) =
    rw (collect-forget rs)
      (elim (Result-cases (collect rs)) [ inl (x, e) ↦ rw e | inr (x, e) ↦ rw e ])
collect-forget (err e ∷ rs) = refl

module _ {F : Type 0} (to_string : Json F → Result Text Text) where
  abbrev forget_values :
      List (Text × Result (AppError F) Text) → List (Text × Result (Unit {0}) Text)
  forget_values [] = []
  forget_values ((k, r) ∷ es) = (k, forget r) ∷ forget_values es

  insert-forget :
      (e : Text × Result (AppError F) Text) (es : List (Text × Result (AppError F) Text))
      → insert_by_key (e.0, forget e.1) (forget_values es) ≡ forget_values (insert_by_key e es)
  unfolding insert_by_key
  insert-forget e [] = refl
  insert-forget e (h ∷ t) = elim (Bool-cases (text_leb e.0 h.0)) [
    | inl le ↦ rw le
    | inr gt ↦ rw (gt, insert-forget e t)
  ]

  sort-forget :
      (es : List (Text × Result (AppError F) Text))
      → sort_by_key (forget_values es) ≡ forget_values (sort_by_key es)
  unfolding sort_by_key
  sort-forget [] = refl
  sort-forget (e ∷ es) = rw (sort-forget es) (insert-forget e (sort_by_key es))

  pair_text-forget :
      (k : Text) (v : Result (AppError F) Text)
      → pair_text to_string (k, forget v) ≡ forget (entry to_string (k, v))
  pair_text-forget k v = elim (Result-cases (to_string (string k))) [
    | inl (x, e) ↦ rw e (elim (Result-cases v) [ inl (y, f) ↦ rw f | inr (y, f) ↦ rw f ])
    | inr (x, e) ↦ rw e
  ]

  map-pair_text :
      (es : List (Text × Result (AppError F) Text))
      → map (pair_text to_string) (forget_values es) ≡ map forget (map (entry to_string) es)
  map-pair_text [] = refl
  map-pair_text ((k, v) ∷ es) = rw (pair_text-forget k v, map-pair_text es)

  abbrev sealed_print : Json F → Result (AppError F) Text
  sealed_print v = map_err serialization (to_string v)

  print-forget : (v : Json F) → print to_string v ≡ forget (sealed_print v)
  print-forget v = elim (Result-cases (to_string v)) [ inl (y, f) ↦ rw f | inr (y, f) ↦ rw f ]

  join-forget :
      (l r : Text) (m : Result (AppError F) (List Text))
      → and_then (forget m) (λ inner. ok (l ++ (join (codes ",") inner ++ r)))
        ≡ forget (and_then m (λ inner. ok (l ++ (join (codes ",") inner ++ r))))
  join-forget l r (ok a) = refl
  join-forget l r (err e) = refl

  mutual
    unfolding canonicalize_json canonical_json

    canonical-forget :
        (v : Json F) → canonical_json to_string v ≡ forget (canonicalize_json to_string v)
    canonical-forget (object fs) =
        rw
          (
            fields-forget fs,
            sort-forget (canonical_fields to_string fs),
            map-pair_text (sort_by_key (canonical_fields to_string fs)),
            collect-forget (map (entry to_string) (sort_by_key (canonical_fields to_string fs))),
          )
          (join-forget (codes "{") (codes "}") _)
    canonical-forget (array xs) =
        rw (items-forget xs, collect-forget (canonical_items to_string xs))
          (join-forget (codes "[") (codes "]") _)
    canonical-forget null = print-forget null
    canonical-forget (bool b) = print-forget (bool b)
    canonical-forget (int n) = print-forget (int n)
    canonical-forget (real x) = print-forget (real x)
    canonical-forget (string s) = print-forget (string s)

    items-forget :
        (xs : Items F) → json_items to_string xs ≡ map forget (canonical_items to_string xs)
    items-forget nil = refl
    items-forget (cons v xs) = rw (canonical-forget v, items-forget xs)

    fields-forget :
        (fs : Fields F) → json_fields to_string fs ≡ forget_values (canonical_fields to_string fs)
    fields-forget end = refl
    fields-forget (field k v fs) = rw (canonical-forget v, fields-forget fs)

  -- The printer that checks the anchor's signature and the printer that seals snapshots give the
  -- same canonical text on every JSON value, and fail on the same ones.
  pub canonical_json-canonicalize_json :
      (v : Json F) → canonical_json to_string v ≡ map_err (λ _. tt) (canonicalize_json to_string v)
  canonical_json-canonicalize_json v = canonical-forget v
