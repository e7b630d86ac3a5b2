-- ===== src/Seal/KeyOrder.antt =====
-- The canonical text of a JSON value does not depend on the order in which an object stores its
-- entries, at any depth.
use irl_engine_ax.Prelude.{Text, false, ◌≡◌, refl, ◌∙◌, Result, text_eq}
use irl_engine_ax.Json.{Json, Items, Fields, array, object, nil, cons, end, field, sort_by_key}
use irl_engine_ax.Json.Order.{insert_by_key_comm}
use irl_engine_ax.Seal.{canonicalize_json, canonical_items, canonical_fields}

-- Two values that differ only in the order of entries with different keys, at any depth.
mutual
  pub data Same (F : Type 0) : Json F → Json F → Type 0 where
    same : {v : Json F} → Same F v v
    in_array : {xs ys : Items F} → SameItems F xs ys → Same F (array xs) (array ys)
    in_object : {fs gs : Fields F} → SameFields F fs gs → Same F (object fs) (object gs)

  pub data SameItems (F : Type 0) : Items F → Items F → Type 0 where
    no_items : SameItems F nil nil
    items :
        {v w : Json F} {xs ys : Items F}
        → Same F v w
        → SameItems F xs ys
        → SameItems F (cons v xs) (cons w ys)

  pub data SameFields (F : Type 0) : Fields F → Fields F → Type 0 where
    no_fields : SameFields F end end
    fields :
        {k : Text} {v w : Json F} {fs gs : Fields F}
        → Same F v w
        → SameFields F fs gs
        → SameFields F (field k v fs) (field k w gs)
    swapped :
        {j k : Text} {v w : Json F} {fs : Fields F}
        → text_eq j k ≡ false
        → SameFields F (field j v (field k w fs)) (field k w (field j v fs))
    trans : {fs gs hs : Fields F} → SameFields F fs gs → SameFields F gs hs → SameFields F fs hs

module _ {F : Type 0} (to_string : Json F → Result Text Text) where
  mutual
    unfolding canonicalize_json sort_by_key

    canonicalize-Same :
        {v w : Json F} → Same F v w → canonicalize_json to_string v ≡ canonicalize_json to_string w
    canonicalize-Same same = refl
    canonicalize-Same (in_array s) = rw (items-Same s)
    canonicalize-Same (in_object s) = rw (fields-Same s)

    items-Same :
        {xs ys : Items F}
        → SameItems F xs ys
        → canonical_items to_string xs ≡ canonical_items to_string ys
    items-Same no_items = refl
    items-Same (items s t) = rw (canonicalize-Same s, items-Same t)

    fields-Same :
        {fs gs : Fields F}
        → SameFields F fs gs
        → sort_by_key (canonical_fields to_string fs) ≡ sort_by_key (canonical_fields to_string gs)
    fields-Same no_fields = refl
    fields-Same (fields s t) = rw (canonicalize-Same s, fields-Same t)
    fields-Same (swapped {j = j} {k = k} {v = v} {w = w} {fs = fs} ne) =
        insert_by_key_comm (j, canonicalize_json to_string v) (k, canonicalize_json to_string w)
          (sort_by_key (canonical_fields to_string fs)) ne
    fields-Same (trans s t) = fields-Same s ∙ fields-Same t

  -- Two JSON values that differ only in the order of object entries with different keys, at any
  -- depth, have the same canonical text or fail with the same error.
  pub canonicalize_json-key_order :
      (v w : Json F) → Same F v w → canonicalize_json to_string v ≡ canonicalize_json to_string w
  canonicalize_json-key_order v w s = canonicalize-Same s
