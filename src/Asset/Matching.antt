-- ===== src/Asset/Matching.antt =====
-- Asset matching under a fixed alias map.
use mathlib.Core.Path.{subst}
use irl_engine_ax.Prelude.{
  [], ◌∷◌, none, some, ◌↔◌, trim, ◌≡◌, refl, sym, ap, ◌∙◌, ◌⊎◌, inl, inr, Text, text_eq, text_eq→eq,
  eq→text_eq, true, false, Option, Bool-cases,
}
use irl_engine_ax.Asset.{AliasMap, get, insert_alias, add_pair, assets_match, canonicalize}

-- Two symbols match exactly when they have one canonical form.
assets_match→canonical :
    (m : Option AliasMap) (a b : Text)
    → assets_match m a b ≡ true
    → canonicalize m a ≡ canonicalize m b
unfolding assets_match
assets_match→canonical m a b h = elim (Bool-cases (text_eq a b)) [
  | inl e ↦ ap (canonicalize m) (text_eq→eq a b e)
  | inr e ↦ text_eq→eq (canonicalize m a) (canonicalize m b) (rw e at h)
]

canonical→assets_match :
    (m : Option AliasMap) (a b : Text)
    → canonicalize m a ≡ canonicalize m b
    → assets_match m a b ≡ true
unfolding assets_match
canonical→assets_match m a b h = elim (Bool-cases (text_eq a b)) [
  | inl e ↦ rw e refl
  | inr e ↦ rw e (eq→text_eq (canonicalize m a) (canonicalize m b) h)
]

false-true : false ≡ true → ⊥
false-true h = cc

-- What a symbol stands for under an alias map: the value of its first entry, or itself.
abbrev pub Resolves : AliasMap → Text → Text → Type 0
Resolves [] a c = c ≡ a
Resolves ((k, v) ∷ m) a c = ((k ≡ a) × (c ≡ v)) ⊎ ((k ≡ a → ⊥) × Resolves m a c)

text_ne : (j k : Text) → text_eq j k ≡ false → j ≡ k → ⊥
text_ne j k e h = false-true (sym e ∙ eq→text_eq j k h)

abbrev or_self : Text → Option Text → Text
or_self a o = elim o [ none ↦ a | some c ↦ c ]

canonicalize-get : (m : AliasMap) (a : Text) → canonicalize (some m) a ≡ or_self a (get a m)
unfolding canonicalize
canonicalize-get m a = refl

get-hit : (k v a : Text) (m : AliasMap) → text_eq k a ≡ true → get a ((k, v) ∷ m) ≡ some v
unfolding get
get-hit k v a m e = rw e refl

get-miss : (k v a : Text) (m : AliasMap) → text_eq k a ≡ false → get a ((k, v) ∷ m) ≡ get a m
unfolding get
get-miss k v a m e = rw e refl

canonicalize-hit :
    (k v a : Text) (m : AliasMap) → text_eq k a ≡ true → canonicalize (some ((k, v) ∷ m)) a ≡ v
canonicalize-hit k v a m e = canonicalize-get ((k, v) ∷ m) a ∙ ap (or_self a) (get-hit k v a m e)

canonicalize-miss :
    (k v a : Text) (m : AliasMap)
    → text_eq k a ≡ false
    → canonicalize (some ((k, v) ∷ m)) a ≡ canonicalize (some m) a
canonicalize-miss k v a m e =
    canonicalize-get ((k, v) ∷ m) a
    ∙ ap (or_self a) (get-miss k v a m e)
    ∙ sym (canonicalize-get m a)

canonicalize-empty : (a : Text) → canonicalize (some []) a ≡ a
unfolding canonicalize get
canonicalize-empty a = refl

canonicalize-Resolves : (m : AliasMap) (a : Text) → Resolves m a (canonicalize (some m) a)
canonicalize-Resolves [] a = canonicalize-empty a
canonicalize-Resolves ((k, v) ∷ m) a = elim (Bool-cases (text_eq k a)) [
  | inl e ↦ inl (text_eq→eq k a e, canonicalize-hit k v a m e)
  | inr e ↦ inr (
    text_ne k a e,
    subst (Resolves m a) (sym (canonicalize-miss k v a m e)) (canonicalize-Resolves m a),
  )
]

Resolves-unique : (m : AliasMap) (a c d : Text) → Resolves m a c → Resolves m a d → c ≡ d
Resolves-unique [] a c d h k = h ∙ sym k
Resolves-unique ((j, v) ∷ m) a c d (inl (e, h)) (inl (f, k)) = h ∙ sym k
Resolves-unique ((j, v) ∷ m) a c d (inl (e, h)) (inr (f, k)) = absurd (f e)
Resolves-unique ((j, v) ∷ m) a c d (inr (e, h)) (inl (f, k)) = absurd (e f)
Resolves-unique ((j, v) ∷ m) a c d (inr (e, h)) (inr (f, k)) = Resolves-unique m a c d h k

insert_alias-own : (k v : Text) (m : AliasMap) → Resolves (insert_alias k v m) k v
unfolding insert_alias
insert_alias-own k v [] = inl (refl, refl)
insert_alias-own k v ((j, w) ∷ m) = elim (Bool-cases (text_eq j k)) [
  | inl e ↦ rw e (inl (refl, refl))
  | inr e ↦ rw e (inr (text_ne j k e, insert_alias-own k v m))
]

-- Two symbols match exactly when they stand for the same symbol under the alias map: each for the
-- value of its entry, or for itself where it has none; with no map, exactly when they are equal.
-- After a pair of an alias and its canonical symbol is configured, the alias stands for that symbol
-- (both without the blanks around them), whatever was configured before.
pub assets_match_iff :
    (m : AliasMap) (a b alias canonical : Text)
    → ((assets_match (some m) a b ≡ true) ↔ ((c : Text) × Resolves m a c × Resolves m b c))
      × ((assets_match none a b ≡ true) ↔ (a ≡ b))
      × Resolves (add_pair (alias, some canonical) m) (trim alias) (trim canonical)
unfolding add_pair canonicalize
assets_match_iff m a b alias canonical = (
  (
    λ h. (
      canonicalize (some m) a,
      canonicalize-Resolves m a,
      subst (Resolves m b) (sym (assets_match→canonical (some m) a b h))
          (canonicalize-Resolves m b),
    ),
    λ (c, h, k). canonical→assets_match (some m) a b (
        Resolves-unique m a (canonicalize (some m) a) c (canonicalize-Resolves m a) h
        ∙ sym (Resolves-unique m b (canonicalize (some m) b) c (canonicalize-Resolves m b) k)),
  ),
  (assets_match→canonical none a b, canonical→assets_match none a b),
  insert_alias-own (trim alias) (trim canonical) m,
)
