-- ===== src/RateLimit/Window.antt =====
-- How many requests of one token pass in one second.
use irl_engine_ax.Prelude.{
  ℕ, ◌+◌, ◌≤◌, ◌==◌, ◌≡◌, ◌≢◌, sym, text_eq→eq, ◌∙◌, Text, text_eq, text_eq_refl, text_eq_comm,
  false, List, [], ◌∷◌, none, some, if◌then◌else◌, arith, Bool-cases, Option-cases, inl, inr, is_ok,
}
use irl_engine_ax.RateLimit.{RateLimiter, check}

-- What a token has spent in a second.
abbrev pub spent : RateLimiter → Text → ℕ → ℕ
spent l token sec = elim (l.counters token) [ none ↦ 0 | some e ↦ (if e.0 == sec then e.1 else 0) ]

-- How many calls with the token pass, of calls that all fall into one second.
unfoldable pub passed : (F : Type 0) → Text → ℕ → List Text → RateLimiter → ℕ
passed F token sec [] l = 0
passed F token sec (t ∷ ts) l =
    let (r, l') = check {F = F} t sec l in
    (if text_eq t token then (if is_ok r then 1 else 0) else 0) + passed F token sec ts l'

module _ (F : Type 0) where
  -- A call with the token that passes is counted; one that does not changes nothing.
  check-spent :
      (token : Text) (sec : ℕ) (l : RateLimiter)
      → l.max_per_second ≢ 0
      → spent l token sec ≤ l.max_per_second
      → let out = check {F = F} token sec l in
        ((if is_ok out.0 then 1 else 0) + spent l token sec ≡ spent out.1 token sec)
        × ((spent out.1 token sec ≤ l.max_per_second) × (out.1.max_per_second ≡ l.max_per_second))
  unfolding check
  check-spent token sec l nz h = elim (Option-cases (l.counters token)) [
    | inl e ↦ (let r = text_eq_refl token in ground arith)
    | inr ((window, count), e) ↦ (let r = text_eq_refl token in ground arith)
  ]

  check-other :
      (other token : Text) (sec : ℕ) (l : RateLimiter)
      → text_eq other token ≡ false
      → let out = check {F = F} other sec l in
        (spent out.1 token sec ≡ spent l token sec) × (out.1.max_per_second ≡ l.max_per_second)
  unfolding check
  check-other other token sec l ne = (let r = text_eq_comm token other ∙ ne in ground arith)

  -- Of calls that fall into one second, of this token and others, and with a limit that is not 0,
  -- those of the token that pass and what it had spent are together not above the limit.
  pub passed-limit :
      (token : Text) (sec : ℕ) (calls : List Text) (l : RateLimiter)
      → l.max_per_second ≢ 0
      → spent l token sec ≤ l.max_per_second
      → passed F token sec calls l + spent l token sec ≤ l.max_per_second
  unfolding passed
  passed-limit token sec [] l nz h = omega (arith, h)
  passed-limit token sec (t ∷ ts) l nz h = elim (Bool-cases (text_eq t token)) [
    | inl e ↦
        (let same = text_eq→eq t token e in
          let (a, (b, c)) = check-spent token sec l nz h in
          let l' = (check {F = F} token sec l).1 in
          let rest = passed-limit token sec ts l' (λ z. nz (sym c ∙ z)) (rw c b) in
          rw (same, text_eq_refl token) (omega (arith, a, rest, c)))
    | inr e ↦
        (let (a, b) = check-other t token sec l e in
          let l' = (check {F = F} t sec l).1 in
          let rest = passed-limit token sec ts l' (λ z. nz (sym b ∙ z)) (rw (a, b) h) in
          rw e (omega (arith, a, b, rest)))
  ]
