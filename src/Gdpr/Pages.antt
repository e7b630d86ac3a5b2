-- ===== src/Gdpr/Pages.antt =====
-- The pages of an agent's rows: together they are all its rows, and an erasure keeps their order.
use irl_engine_ax.Prelude.{
  ℕ, zero, suc, ◌+◌, ◌≤◌, ◌<◌, ltb_ℤ, true, false, List, [], ◌∷◌, ◌++◌, ◌≡◌, refl, sym, ap, ◌∙◌,
  arith, Bool-cases, inl, inr, length, take, drop, select, All, Pairwise, count_where,
}
use irl_engine_ax.Store.{TraceRow}
use irl_engine_ax.Gdpr.{of_agent, insert_by_time, sort_by_time, batch_size}

-- The rows of an agent by time, and the page of them at an offset.
abbrev pub agent_rows : {F : Type 0} → ℕ → List (TraceRow F) → List (TraceRow F)
agent_rows agent rows = sort_by_time (select (of_agent agent) rows)

abbrev pub ordered_page : {F : Type 0} → ℕ → ℕ → List (TraceRow F) → List (TraceRow F)
ordered_page agent offset rows = take batch_size (drop offset (agent_rows agent rows))

true-false : true ≡ false → ⊥
true-false h = cc

module _ {A : Type 0} where
  pub take-drop-length : (n : ℕ) (xs : List A) → take n xs ++ drop (length (take n xs)) xs ≡ xs
  take-drop-length zero xs = refl
  take-drop-length (suc n) [] = refl
  take-drop-length (suc n) (x ∷ xs) = ap (λ t. x ∷ t) (take-drop-length n xs)

  -- A page that is not full is the last.
  pub take_short : (n : ℕ) (xs : List A) → length (take n xs) < n → take n xs ≡ xs
  take_short zero xs h = absurd (omega arith)
  take_short (suc n) [] h = refl
  take_short (suc n) (x ∷ xs) h = ap (λ t. x ∷ t) (take_short n xs (omega (arith, h)))

  drop-nil : (n : ℕ) → drop {A = A} n [] ≡ []
  drop-nil zero = refl
  drop-nil (suc n) = refl

  pub drop-add : (o k : ℕ) (xs : List A) → drop (o + k) xs ≡ drop k (drop o xs)
  drop-add zero k xs = let none_first : 0 + k ≡ k = omega arith in ap (λ n. drop n xs) none_first
  drop-add (suc o) k [] = drop-nil (suc o + k) ∙ sym (drop-nil k)
  drop-add (suc o) k (x ∷ xs) =
      let step : suc o + k ≡ suc (o + k) = omega arith in
      ap (λ n. drop n (x ∷ xs)) step ∙ drop-add o k xs

  module _ (P : A → Type 0) where
    pub All-append : (xs ys : List A) → All P xs → All P ys → All P (xs ++ ys)
    All-append [] ys h k = k
    All-append (x ∷ xs) ys (h, hs) k = (h, All-append xs ys hs k)

    pub All-take : (n : ℕ) (xs : List A) → All P xs → All P (take n xs)
    All-take zero xs h = tt
    All-take (suc n) [] h = tt
    All-take (suc n) (x ∷ xs) (h, hs) = (h, All-take n xs hs)

    pub All-drop : (n : ℕ) (xs : List A) → All P xs → All P (drop n xs)
    All-drop zero xs h = h
    All-drop (suc n) [] h = tt
    All-drop (suc n) (x ∷ xs) (h, hs) = All-drop n xs hs

  module _ (R : A → A → Type 0) where
    pub Pairwise-drop :
        (n : ℕ) (xs ys : List A) → Pairwise R xs ys → Pairwise R (drop n xs) (drop n ys)
    Pairwise-drop zero xs ys h = h
    Pairwise-drop (suc n) [] [] h = tt
    Pairwise-drop (suc n) [] (y ∷ ys) h = absurd h
    Pairwise-drop (suc n) (x ∷ xs) [] h = absurd h
    Pairwise-drop (suc n) (x ∷ xs) (y ∷ ys) (h, hs) = Pairwise-drop n xs ys hs

    pub Pairwise-length : (xs ys : List A) → Pairwise R xs ys → length ys ≡ length xs
    Pairwise-length [] [] h = refl
    Pairwise-length [] (y ∷ ys) h = absurd h
    Pairwise-length (x ∷ xs) [] h = absurd h
    Pairwise-length (x ∷ xs) (y ∷ ys) (h, hs) = omega (arith, Pairwise-length xs ys hs)

module _ {F : Type 0} (agent : ℕ) where
  module _ (P : TraceRow F → Type 0) where
    insert-All :
        (r : TraceRow F) (rows : List (TraceRow F))
        → P r
        → All P rows
        → All P (insert_by_time r rows)
    unfolding insert_by_time
    insert-All r [] h hs = (h, tt)
    insert-All r (x ∷ rows) h (k, ks) = elim (Bool-cases (ltb_ℤ x.txn_time r.txn_time)) [
      | inl e ↦ rw e (k, insert-All r rows h ks)
      | inr e ↦ rw e (h, (k, ks))
    ]

    All-insert :
        (r : TraceRow F) (rows : List (TraceRow F))
        → All P (insert_by_time r rows)
        → P r × All P rows
    unfolding insert_by_time
    All-insert r [] h = h
    All-insert r (x ∷ rows) h = elim (Bool-cases (ltb_ℤ x.txn_time r.txn_time)) [
      | inl e ↦ (let (k, ks) = rw e at h in let (a, as') = All-insert r rows ks in (a, (k, as')))
      | inr e ↦ rw e at h
    ]

    -- What holds of the rows of an agent holds of the rows that the query gives,
    pub All→agent_rows :
        (rows : List (TraceRow F))
        → All (λ r. of_agent agent r ≡ true → P r) rows
        → All P (agent_rows agent rows)
    unfolding sort_by_time
    All→agent_rows [] h = tt
    All→agent_rows (r ∷ rows) (h, hs) = elim (Bool-cases (of_agent agent r)) [
      | inl e ↦ rw e (insert-All r (agent_rows agent rows) (h e) (All→agent_rows rows hs))
      | inr e ↦ rw e (All→agent_rows rows hs)
    ]

    -- and conversely.
    pub agent_rows→All :
        (rows : List (TraceRow F))
        → All P (agent_rows agent rows)
        → All (λ r. of_agent agent r ≡ true → P r) rows
    unfolding sort_by_time
    agent_rows→All [] h = tt
    agent_rows→All (r ∷ rows) h = elim (Bool-cases (of_agent agent r)) [
      | inl e ↦
          (let (k, ks) = All-insert r (agent_rows agent rows) (rw e at h) in
            (λ _. k, agent_rows→All rows ks))
      | inr e ↦ (λ f. absurd (true-false (sym f ∙ e)), agent_rows→All rows (rw e at h))
    ]

  length-insert :
      (r : TraceRow F) (rows : List (TraceRow F))
      → length (insert_by_time r rows) ≡ suc (length rows)
  unfolding insert_by_time
  length-insert r [] = refl
  length-insert r (x ∷ rows) = elim (Bool-cases (ltb_ℤ x.txn_time r.txn_time)) [
    | inl e ↦ rw e (ap suc (length-insert r rows))
    | inr e ↦ rw e
  ]

  -- The query gives as many rows as the agent has.
  pub length-agent_rows :
      (rows : List (TraceRow F))
      → length (agent_rows agent rows) ≡ count_where (of_agent agent) rows
  unfolding sort_by_time
  length-agent_rows [] = refl
  length-agent_rows (r ∷ rows) = elim (Bool-cases (of_agent agent r)) [
    | inl e ↦ rw e (omega (arith, length-insert r (agent_rows agent rows), length-agent_rows rows))
    | inr e ↦ rw e (omega (arith, length-agent_rows rows))
  ]

  pub count-le-length : (rows : List (TraceRow F)) → count_where (of_agent agent) rows ≤ length rows
  count-le-length [] = omega arith
  count-le-length (r ∷ rows) = elim (Bool-cases (of_agent agent r)) [
    | inl e ↦ rw e (omega (arith, count-le-length rows))
    | inr e ↦ rw e (omega (arith, count-le-length rows))
  ]

  -- Two rows that the query cannot tell apart.
  abbrev pub SameKey : TraceRow F → TraceRow F → Type 0
  SameKey x y = (y.trace_id ≡ x.trace_id) × (y.txn_time ≡ x.txn_time) × (y.agent_id ≡ x.agent_id)

  insert-SameKey :
      (x y : TraceRow F) (xs ys : List (TraceRow F))
      → SameKey x y
      → Pairwise SameKey xs ys
      → Pairwise SameKey (insert_by_time x xs) (insert_by_time y ys)
  unfolding insert_by_time
  insert-SameKey x y [] [] h hs = (h, tt)
  insert-SameKey x y [] (b ∷ ys) h hs = absurd hs
  insert-SameKey x y (a ∷ xs) [] h hs = absurd hs
  insert-SameKey x y (a ∷ xs) (b ∷ ys) h (k, ks) =
      let same : ltb_ℤ b.txn_time y.txn_time ≡ ltb_ℤ a.txn_time x.txn_time = rw (h.1, k.1) in
      elim (Bool-cases (ltb_ℤ a.txn_time x.txn_time)) [
        | inl e ↦ rw (same, e) (k, insert-SameKey x y xs ys h ks)
        | inr e ↦ rw (same, e) (h, (k, ks))
      ]

  pub agent_rows-SameKey :
      (xs ys : List (TraceRow F))
      → Pairwise SameKey xs ys
      → Pairwise SameKey (agent_rows agent xs) (agent_rows agent ys)
  unfolding sort_by_time
  agent_rows-SameKey [] [] h = tt
  agent_rows-SameKey [] (y ∷ ys) h = absurd h
  agent_rows-SameKey (x ∷ xs) [] h = absurd h
  agent_rows-SameKey (x ∷ xs) (y ∷ ys) (h, hs) =
      let same : of_agent agent y ≡ of_agent agent x = rw (h.2) in
      elim (Bool-cases (of_agent agent x)) [
        | inl e ↦
            rw (same, e)
              (insert-SameKey x y (agent_rows agent xs) (agent_rows agent ys) h
                (agent_rows-SameKey xs ys hs))
        | inr e ↦ rw (same, e) (agent_rows-SameKey xs ys hs)
      ]
