-- ===== src/Admin/Auth/Bearer.antt =====
-- Who passes the checks before a route.
use irl_engine_ax.Prelude.{
  ℕ, ℤ, Text, codes, starts_with, text_eq→eq, drop, length, take, Bool, true, false, List, [], ◌∷◌,
  ◌++◌, Option, none, some, Result, ok, ok-injective, find, update_where, ◌≡◌, refl, sym, ap, ◌∙◌,
  arith, Bool-cases, inl, inr, guard,
}
use irl_engine_ax.Prelude.Effects.{pure, lift, check, reads, between}
use irl_engine_ax.Platform.{Externals}
use irl_engine_ax.Errors.{AppError, unauthorized, forbidden}
use irl_engine_ax.RateLimit
use irl_engine_ax.Admin.{ApiToken, AppState, Operator, query, take_fault}
use irl_engine_ax.Admin.Tokens.{
  sha256_hex, has_hash, is_active_hash, is_valid, get_token_role, role_of, answer_role,
}
use irl_engine_ax.Admin.Auth.{
  Header, value, Request, extract_bearer, limit, bump_last_used, require_bearer, require_owner,
  owner_role, should_bump, bumped_at, admin_gate,
}

starts_with-append : (s p : Text) → starts_with s p ≡ true → s ≡ p ++ drop (length p) s
starts_with-append s [] h = refl
starts_with-append [] (d ∷ p) h = ground arith
starts_with-append (c ∷ s) (d ∷ p) h = ground (arith, starts_with-append s p)

bearer-of :
    (F : Type 0) (header : Header) (token : Text)
    → Path (Result (AppError F) Text) (extract_bearer header) (ok token)
    → header ≡ value (codes "Bearer " ++ token)
unfolding extract_bearer
bearer-of F Header.absent token h = ground arith
bearer-of F Header.opaque token h = ground arith
bearer-of F (value header) token h = elim (Bool-cases (starts_with header (codes "Bearer "))) [
  | inr e ↦ ground (arith, rw e at h)
  | inl e ↦
      (let it : drop (length (codes "Bearer ")) header ≡ token = ok-injective (rw e at h) in
        ap value
          (starts_with-append header (codes "Bearer ") e ∙ ap (λ t. codes "Bearer " ++ t) it))
]

-- The use of a token changes no role.
role-touched :
    (g hash : Text) (t : Option ℤ) (rows : List ApiToken)
    → role_of (
        find
          (is_active_hash hash)
          (update_where (has_hash g) (λ row. record row { last_used_at = t }) rows))
      ≡ role_of (find (is_active_hash hash) rows)
role-touched g hash t [] = refl
role-touched g hash t (row ∷ rows) =
    let ih = role-touched g hash t rows in
    elim (Bool-cases (has_hash g row)) [
      | inl e ↦
          rw e (elim (Bool-cases (is_active_hash hash row)) [ inl f ↦ rw f | inr f ↦ rw (f, ih) ])
      | inr e ↦
          rw e (elim (Bool-cases (is_active_hash hash row)) [ inl f ↦ rw f | inr f ↦ rw (f, ih) ])
    ]

owner-some : (role : Option Text) → owner_role role ≡ true → role ≡ some (codes "owner")
owner-some none h = ground arith
owner-some (some r) h = ap (λ t. some t) (text_eq→eq r (codes "owner") h)

module _ {F : Type 0} ⦃ex : Externals⦄ where
  -- What the bearer check found, and what it left of the roles.
  record Passed (req : Request) (now_sec : ℕ) (s : AppState F) (who : Operator) (s' : AppState F)
      : Type 0 where
    token : Text
    presented : req.authorization ≡ value (codes "Bearer " ++ token)
    valid : is_valid token s ≡ true
    limited : (RateLimit.check {F = F} token now_sec s.rate_limiter).0 ≡ ok tt
    named : who.operator ≡ take 12 (sha256_hex token)
    roles :
        (hash : Text)
        → role_of (find (is_active_hash hash) s'.api_tokens)
          ≡ role_of (find (is_active_hash hash) s.api_tokens)

  bump-roles :
      (token : Text) (now_ms wall_ms : ℤ) (written : Bool) (s : AppState F) (hash : Text)
      → role_of
          (find (is_active_hash hash) (bump_last_used token now_ms wall_ms written s).1.api_tokens)
        ≡ role_of (find (is_active_hash hash) s.api_tokens)
  unfolding bump_last_used
  bump-roles token now_ms wall_ms true s hash =
      elim (Bool-cases (should_bump now_ms (bumped_at (sha256_hex token) s.last_bumped))) [
        | inl e ↦ rw e (role-touched (sha256_hex token) hash (some wall_ms) s.api_tokens)
        | inr e ↦ rw e
      ]
  bump-roles token now_ms wall_ms false s hash =
      elim (Bool-cases (should_bump now_ms (bumped_at (sha256_hex token) s.last_bumped))) [
        | inl e ↦ rw e
        | inr e ↦ rw e
      ]

  guard-ok :
      (test : AppState F → Bool) (e : AppError F) (s : AppState F) (u : Unit {0}) (s' : AppState F)
      → reads (λ s. guard (test s) e) s ≡ (ok u, s')
      → (test s ≡ true) × (s ≡ s')
  unfolding reads
  guard-ok test e s u s' h = elim (Bool-cases (test s)) [
    | inl t ↦ (t, ap (λ p. p.1) h)
    | inr t ↦ ground (arith, rw t at h)
  ]

  -- The owner check passes on an active row with the role "owner" alone.
  role-answered :
      (hash : Text) (fs : List Bool) (s : AppState F) (role : Option Text) (s' : AppState F)
      → answer_role hash (take_fault fs s) ≡ (ok role, s')
      → owner_role role ≡ true
      → owner_role (role_of (find (is_active_hash hash) s.api_tokens)) ≡ true
  role-answered hash [] s role s' h o = ap owner_role (ok-injective (ap (λ p. p.0) h)) ∙ o
  role-answered hash (true ∷ fs) s role s' h o =
      cc (o, ap owner_role (ok-injective (ap (λ p. p.0) h)))
  role-answered hash (false ∷ fs) s role s' h o = ap owner_role (ok-injective (ap (λ p. p.0) h)) ∙ o

  roles-kept :
      (token : Text) (now_ms wall_ms : ℤ) (written : Bool) (hash : Text) (s s' m : AppState F)
      → s'.api_tokens ≡ (bump_last_used token now_ms wall_ms written m).1.api_tokens
      → m.api_tokens ≡ s.api_tokens
      → role_of (find (is_active_hash hash) s'.api_tokens)
        ≡ role_of (find (is_active_hash hash) s.api_tokens)
  roles-kept token now_ms wall_ms written hash s s' m e f =
      ap (λ rows. role_of (find (is_active_hash hash) rows)) e
      ∙ bump-roles token now_ms wall_ms written m hash
      ∙ ap (λ rows. role_of (find (is_active_hash hash) rows)) f

  bearer-Passed :
      (req : Request) (now_sec : ℕ) (now_ms wall_ms : ℤ) (written : Bool) (s : AppState F)
      (who : Operator) (s' : AppState F)
      → require_bearer req now_sec now_ms wall_ms written s ≡ (ok who, s')
      → Passed req now_sec s who s'
  unfolding require_bearer lift pure limit
  bearer-Passed req now_sec now_ms wall_ms written s who s' h =
      let a = between (lift (extract_bearer req.authorization)) _ s who s' h in
      let b = between _ _ a.middle who s' a.after in
      let c =
        between _ (λ _. bump_last_used a.value now_ms wall_ms written) a.middle b.value b.middle
          b.before in
      let d = between _ (λ _. limit a.value now_sec) a.middle c.value c.middle c.before in
      let (known, same) =
        guard-ok (λ s. is_valid a.value s) unauthorized a.middle d.value d.middle d.before in
      let start : s ≡ a.middle = ap (λ p. p.1) a.before in
      let whole : s ≡ d.middle = start ∙ same in
      record {
        token = a.value;
        presented = bearer-of F req.authorization a.value (ap (λ p. p.0) a.before);
        valid = ap (λ m. is_valid a.value m) start ∙ known;
        limited =
            ap (λ m. (RateLimit.check {F = F} a.value now_sec m.rate_limiter).0) whole
            ∙ ap (λ p. p.0) d.after;
        named = sym (ap (λ w. w.operator) (ok-injective (ap (λ p. p.0) b.after)));
        roles = λ hash.
            roles-kept a.value now_ms wall_ms written hash s s' c.middle
              (ap (λ p. p.1.api_tokens) (sym b.after) ∙ ap (λ p. p.1.api_tokens) (sym c.after))
              (ap (λ p. p.1.api_tokens) (sym d.after) ∙ ap (λ m. m.api_tokens) (sym whole));
      }

  extract-presented :
      (header : Header) (token : Text)
      → header ≡ value (codes "Bearer " ++ token)
      → Path (Result (AppError F) Text) (extract_bearer header) (ok token)
  unfolding extract_bearer
  extract-presented header token e = rw e

  check-ok :
      (b : Bool) (e : AppError F) (s : AppState F) (u : Unit {0}) (s' : AppState F)
      → check b e s ≡ (ok u, s')
      → b ≡ true
  unfolding check
  check-ok true e s u s' h = refl
  check-ok false e s u s' h = ground arith

  owner-passed :
      (req : Request) (token : Text) (s : AppState F) (u : Unit {0}) (s' : AppState F)
      → Path (Result (AppError F) Text) (extract_bearer req.authorization) (ok token)
      → require_owner req s ≡ (ok u, s')
      → role_of (find (is_active_hash (sha256_hex token)) s.api_tokens) ≡ some (codes "owner")
  unfolding require_owner lift get_token_role query
  owner-passed req token s u s' e h =
      let a = between (lift (extract_bearer req.authorization)) _ s u s' h in
      let b =
        between (get_token_role a.value) (λ role. check (owner_role role) forbidden) a.middle u s'
          a.after in
      let start : s ≡ a.middle = ap (λ p. p.1) a.before in
      let same : a.value ≡ token = ok-injective (sym (ap (λ p. p.0) a.before) ∙ e) in
      let owned = check-ok _ forbidden b.middle u s' b.after in
      let role = owner-some _ (
        role-answered (sha256_hex a.value) a.middle.faults a.middle b.value b.middle b.before
          owned) in
      ap (λ t. role_of (find (is_active_hash (sha256_hex t)) s.api_tokens)) (sym same)
      ∙ ap (λ m. role_of (find (is_active_hash (sha256_hex a.value)) m.api_tokens)) start
      ∙ role

  -- Who passes both layers before an administration route presented, as "Bearer " and the token, a
  -- token that the cache holds, was within its rate, is named by the first 12 characters of the
  -- token's hash, and the table has that hash active with the role "owner".
  pub admin_gate-owner :
      (req : Request) (now_sec : ℕ) (now_ms wall_ms : ℤ) (written : Bool) (s : AppState F)
      (who : Operator) (s' : AppState F)
      → admin_gate req now_sec now_ms wall_ms written s ≡ (ok who, s')
      → (token : Text) × (req.authorization ≡ value (codes "Bearer " ++ token))
        × (is_valid token s ≡ true)
        × ((RateLimit.check {F = F} token now_sec s.rate_limiter).0 ≡ ok tt)
        × (who.operator ≡ take 12 (sha256_hex token))
        × (role_of (find (is_active_hash (sha256_hex token)) s.api_tokens) ≡ some (codes "owner"))
  unfolding admin_gate pure
  admin_gate-owner req now_sec now_ms wall_ms written s who s' h =
      let a = between (require_bearer req now_sec now_ms wall_ms written) _ s who s' h in
      let p = bearer-Passed req now_sec now_ms wall_ms written s a.value a.middle a.before in
      let b = between (require_owner req) (λ _. pure a.value) a.middle who s' a.after in
      (
        p.token,
        p.presented,
        p.valid,
        p.limited,
        ap (λ w. w.operator) (sym (ok-injective (ap (λ q. q.0) b.after))) ∙ p.named,
        sym (p.roles (sha256_hex p.token))
            ∙ owner-passed req p.token a.middle b.value b.middle
                (extract-presented req.authorization p.token p.presented) b.before,
      )
