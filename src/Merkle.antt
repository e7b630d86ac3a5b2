-- ===== src/Merkle.antt =====
-- src/merkle.rs: the Merkle root over the sealed hashes, and the calendars that are asked in turn.
-- `Sha256` and the HTTP exchange with a calendar are arguments.
pub mod Root
pub mod Anchor
use irl_engine_ax.Prelude.{
  ℕ, zero, suc, ◌==◌, ◌%◌, ltb, Text, codes, Bool, List, [], ◌∷◌, ◌++◌, map, Option, none, some,
  Result, ok, err, if◌then◌else◌, length, last, as_bytes,
}
use irl_engine_ax.Platform.{Externals}

-- `[0u8; 32]`
abbrev pub zeros : List ℕ
zeros =
    0 ∷ 0 ∷ 0 ∷ 0 ∷ 0 ∷ 0 ∷ 0 ∷ 0 ∷ 0 ∷ 0 ∷ 0 ∷ 0 ∷ 0 ∷ 0 ∷ 0 ∷ 0 ∷ 0 ∷ 0 ∷ 0 ∷ 0 ∷ 0 ∷ 0 ∷ 0 ∷ 0
    ∷ 0 ∷ 0 ∷ 0 ∷ 0 ∷ 0 ∷ 0 ∷ 0 ∷ 0 ∷ []

module _ ⦃ex : Externals⦄ where
  abbrev pub fallback_leaf : Text → List ℕ
  fallback_leaf h = ex.sha256 (as_bytes h)

  unfoldable pub leaf : Text → List ℕ
  leaf h = elim (ex.hex_decode h) [
    | none ↦ fallback_leaf h
    | some bytes ↦ (if length bytes == 32 then bytes else fallback_leaf h)
  ]

  -- `chunks(2)`, each pair hashed. A chunk of one, which the duplication leaves out, would panic.
  unfoldable pub hash_pairs : List (List ℕ) → List (List ℕ)
  hash_pairs [] = []
  hash_pairs (a ∷ []) = []
  hash_pairs (a ∷ b ∷ rest) = ex.sha256 (a ++ b) ∷ hash_pairs rest

  -- The last node is duplicated if their number is odd.
  unfoldable pub duplicate_last : List (List ℕ) → List (List ℕ)
  duplicate_last nodes =
      if length nodes % 2 == 1
      then elim (last nodes) [ none ↦ nodes | some n ↦ nodes ++ (n ∷ []) ]
      else nodes

  unfoldable pub level : List (List ℕ) → List (List ℕ)
  unfolding hash_pairs duplicate_last
  level nodes = hash_pairs (duplicate_last nodes)

  -- The loop, on fuel: each turn more than halves what is above one node.
  unfoldable pub reduce : ℕ → List (List ℕ) → List (List ℕ)
  unfolding level
  reduce zero nodes = nodes
  reduce (suc fuel) nodes =
      let rest = reduce fuel (level nodes) in if ltb 1 (length nodes) then rest else nodes

  abbrev pub first_node : List (List ℕ) → List ℕ
  first_node [] = zeros
  first_node (n ∷ _) = n

  unfoldable pub compute_merkle_root : List Text → List ℕ
  unfolding reduce leaf
  compute_merkle_root hashes = first_node (reduce (length hashes) (map leaf hashes))

-- `post_to_opentimestamps`, over what each endpoint answers in turn.
unfoldable pub post_to_opentimestamps : {A : Type 0} → List (Result Text A) → Text → Result Text A
post_to_opentimestamps [] last_error =
    err (codes "all 3 OTS endpoints failed; last error: " ++ last_error)
post_to_opentimestamps (ok receipt ∷ answers) last_error = ok receipt
post_to_opentimestamps (err e ∷ answers) last_error = post_to_opentimestamps answers e
