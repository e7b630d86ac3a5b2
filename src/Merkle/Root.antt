-- ===== src/Merkle/Root.antt =====
-- The loop of `compute_merkle_root` ends with one node, and which lists share a root.
use irl_engine_ax.Prelude.{
  none, ℕ, zero, suc, ◌+◌, ◌/◌, ◌%◌, ◌≤◌, ◌==◌, ltb, ◌≡◌, refl, ap, sym, ◌∙◌, Text, true, false,
  List, [], ◌∷◌, ◌++◌, map, some, length, last, length-append, arith, Bool-cases, inl, inr, lt→ltb,
  ==_iff, ltb→lt, Option-cases,
}
use irl_engine_ax.Platform.{Externals}
use irl_engine_ax.Merkle.{
  leaf, hash_pairs, duplicate_last, level, reduce, first_node, compute_merkle_root,
}

module _ ⦃ex : Externals⦄ where
  length-hash_pairs : (nodes : List (List ℕ)) → length (hash_pairs nodes) ≡ length nodes / 2
  unfolding hash_pairs
  length-hash_pairs [] = omega arith
  length-hash_pairs (a ∷ []) = omega arith
  length-hash_pairs (a ∷ b ∷ rest) = omega (arith, length-hash_pairs rest)

  last-none : (nodes : List (List ℕ)) → last nodes ≡ none → length nodes ≡ 0
  last-none [] h = refl
  last-none (x ∷ []) h = ground (arith, h)
  last-none (x ∷ y ∷ nodes) h = absurd (omega (arith, last-none (y ∷ nodes) h))

  length-duplicate_last :
      (nodes : List (List ℕ)) → length (duplicate_last nodes) ≡ length nodes + length nodes % 2
  unfolding duplicate_last
  length-duplicate_last nodes = elim (Bool-cases (length nodes % 2 == 1)) [
    | inr e ↦ rw e (ground (arith, e, ==_iff (length nodes % 2) 1))
    | inl e ↦
        (let odd = (==_iff (length nodes % 2) 1).0 e in
          elim (Option-cases (last nodes)) [
            | inl f ↦ absurd (omega (arith, odd, last-none nodes f))
            | inr (n, f) ↦ rw (e, f) (omega (arith, odd, length-append nodes (n ∷ [])))
          ])
  ]

  length-level : (nodes : List (List ℕ)) → length (level nodes) ≡ (length nodes + 1) / 2
  unfolding level
  length-level nodes =
      omega (arith, length-hash_pairs (duplicate_last nodes), length-duplicate_last nodes)

  one-left :
      (fuel : ℕ) (nodes : List (List ℕ))
      → length nodes ≤ fuel + 1
      → 1 ≤ length nodes
      → length (reduce fuel nodes) ≡ 1
  unfolding reduce
  one-left zero nodes h k = omega (arith, h, k)
  one-left (suc fuel) nodes h k = elim (Bool-cases (ltb 1 (length nodes))) [
    | inl e ↦ rw e (
        let l = length-level nodes in
        let g = ltb→lt 1 (length nodes) e in
        one-left fuel (level nodes) (omega (arith, l, g, h)) (omega (arith, l, g)))
    | inr e ↦ rw e (ground (arith, h, k, e))
  ]

  -- More fuel gives the same.
  reduce-more :
      (fuel : ℕ) (nodes : List (List ℕ))
      → length nodes ≤ fuel + 1
      → reduce (suc fuel) nodes ≡ reduce fuel nodes
  unfolding reduce
  reduce-more zero nodes h = ground arith
  reduce-more (suc fuel) nodes h = elim (Bool-cases (ltb 1 (length nodes))) [
    | inl e ↦
        (let r = reduce-more fuel (level nodes) (
            let l = length-level nodes in
            let g = ltb→lt 1 (length nodes) e in omega (arith, l, g, h)) in
          rw e r)
    | inr e ↦ rw e refl
  ]

  still :
      (more fuel : ℕ) (nodes : List (List ℕ))
      → length nodes ≤ fuel + 1
      → reduce (more + fuel) nodes ≡ reduce fuel nodes
  still zero fuel nodes h = let e : zero + fuel ≡ fuel = omega arith in ap (λ k. reduce k nodes) e
  still (suc more) fuel nodes h =
      let e : suc more + fuel ≡ suc (more + fuel) = omega arith in
      ap (λ k. reduce k nodes) e
      ∙ reduce-more (more + fuel) nodes (omega (arith, h))
      ∙ still more fuel nodes h

  -- From n nodes a turn of the loop leaves n / 2 of them, rounded up. The loop from n nodes, at
  -- least one, has ended after n - 1 turns: it has left exactly one node, and any number of further
  -- turns would leave the same.
  pub reduce-ends :
      (fuel more : ℕ) (nodes : List (List ℕ))
      → 1 ≤ length nodes
      → length nodes ≤ fuel + 1
      → (length (level nodes) ≡ (length nodes + 1) / 2)
        × (length (reduce fuel nodes) ≡ 1)
        × (reduce (more + fuel) nodes ≡ reduce fuel nodes)
  reduce-ends fuel more nodes some_node enough =
      (length-level nodes, one-left fuel nodes enough some_node, still more fuel nodes enough)

  last-append : (xs : List (List ℕ)) (n : List ℕ) → last (xs ++ (n ∷ [])) ≡ some n
  last-append [] n = refl
  last-append (x ∷ []) n = refl
  last-append (x ∷ y ∷ xs) n = last-append (y ∷ xs) n

  map-append :
      (f : Text → List ℕ) (xs : List Text) (x : Text)
      → map f (xs ++ (x ∷ [])) ≡ map f xs ++ (f x ∷ [])
  map-append f [] x = refl
  map-append f (y ∷ xs) x = ap (λ zs. f y ∷ zs) (map-append f xs x)

  length-map : (f : Text → List ℕ) (xs : List Text) → length (map f xs) ≡ length xs
  length-map f [] = refl
  length-map f (x ∷ xs) = ap suc (length-map f xs)

  -- After an odd number of nodes, a copy of the last makes no difference to the next level.
  level-duplicate :
      (nodes : List (List ℕ)) (n : List ℕ)
      → length nodes % 2 ≡ 0
      → level ((nodes ++ (n ∷ [])) ++ (n ∷ [])) ≡ level (nodes ++ (n ∷ []))
  unfolding level duplicate_last
  level-duplicate nodes n h =
      let once = length-append nodes (n ∷ []) in
      let twice = length-append (nodes ++ (n ∷ [])) (n ∷ []) in
      let odd : (length (nodes ++ (n ∷ [])) % 2 == 1) ≡ true =
        (==_iff (length (nodes ++ (n ∷ [])) % 2) 1).1 (omega (arith, once, h)) in
      let rest : length ((nodes ++ (n ∷ [])) ++ (n ∷ [])) % 2 ≡ 0 = omega (arith, once, twice, h) in
      let even : (length ((nodes ++ (n ∷ [])) ++ (n ∷ [])) % 2 == 1) ≡ false = rw rest refl in
      rw (odd, even, last-append nodes n)

  reduce-step :
      (fuel : ℕ) (nodes : List (List ℕ))
      → ltb 1 (length nodes) ≡ true
      → reduce (suc fuel) nodes ≡ reduce fuel (level nodes)
  unfolding reduce
  reduce-step fuel nodes h = rw h refl

  reduce-duplicate :
      (nodes : List (List ℕ)) (n : List ℕ) (fuel : ℕ)
      → length nodes % 2 ≡ 0
      → 1 ≤ length nodes
      → length nodes ≤ fuel
      → reduce (suc (suc fuel)) ((nodes ++ (n ∷ [])) ++ (n ∷ []))
        ≡ reduce (suc fuel) (nodes ++ (n ∷ []))
  reduce-duplicate nodes n fuel even some_node enough =
      let once = length-append nodes (n ∷ []) in
      let twice = length-append (nodes ++ (n ∷ [])) (n ∷ []) in
      let a = lt→ltb 1 (length (nodes ++ (n ∷ []))) (omega (arith, once, some_node)) in
      let b = lt→ltb 1 (length ((nodes ++ (n ∷ [])) ++ (n ∷ []))) (omega (arith, once, twice)) in
      let l = length-level (nodes ++ (n ∷ [])) in
      reduce-step (suc fuel) ((nodes ++ (n ∷ [])) ++ (n ∷ [])) b
      ∙ ap (reduce (suc fuel)) (level-duplicate nodes n even)
      ∙ reduce-more fuel (level (nodes ++ (n ∷ []))) (omega (arith, l, once, enough))
      ∙ sym (reduce-step fuel (nodes ++ (n ∷ [])) a)

  -- Two lists of hashes have one root where the first has an even number of hashes, at least two,
  -- and then one more, and the second has this last hash twice.
  pub compute_merkle_root-duplicate :
      (hashes : List Text) (h : Text)
      → length hashes % 2 ≡ 0
      → 1 ≤ length hashes
      → compute_merkle_root ((hashes ++ (h ∷ [])) ++ (h ∷ []))
        ≡ compute_merkle_root (hashes ++ (h ∷ []))
  unfolding compute_merkle_root
  compute_merkle_root-duplicate hashes h even some_hash =
      let n = length-map leaf hashes in
      let once : length (hashes ++ (h ∷ [])) ≡ suc (length hashes) =
        omega (arith, length-append hashes (h ∷ [])) in
      let twice : length ((hashes ++ (h ∷ [])) ++ (h ∷ [])) ≡ suc (suc (length hashes)) =
        omega (arith, once, length-append (hashes ++ (h ∷ [])) (h ∷ [])) in
      let one = hashes ++ (h ∷ []) in
      let two = one ++ (h ∷ []) in
      let m = map-append leaf hashes h in
      let k = length hashes in
      ap (λ z. first_node (reduce z (map leaf two))) twice
      ∙ ap (λ z. first_node (reduce (suc (suc k)) z))
          (map-append leaf one h ∙ ap (λ z. z ++ (leaf h ∷ [])) m)
      ∙ ap first_node (
          reduce-duplicate (map leaf hashes) (leaf h) k (rw n even) (rw n some_hash)
            (omega (arith, n)))
      ∙ ap (λ z. first_node (reduce (suc k) z)) (sym m)
      ∙ ap (λ z. first_node (reduce z (map leaf one))) (sym once)
