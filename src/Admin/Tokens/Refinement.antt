-- ===== src/Admin/Tokens/Refinement.antt =====
-- The token cache against its specification: the set of the hashes that are active in the table.
use irl_engine_ax.Prelude.{
  ℕ, Text, text_eq, text_eq_refl, text_eq→eq, text_eq_comm, Bool, true, false, not, ◌&&◌, ◌||◌,
  List, [], ◌∷◌, Option, some, ok, if◌then◌else◌, any, select, map, find, take, update_where, ◌≡◌,
  refl, sym, ap, ◌∙◌, arith, Bool-cases, inl, inr,
}
use irl_engine_ax.Prelude.Effects.{pure, ◌>>◌}
use irl_engine_ax.Platform.{Externals}
use irl_engine_ax.Admin.{ApiToken, AppState, Handler, Operator}
use irl_engine_ax.Admin.Tokens.Views.{view, refreshed, before_pure, issue-view, revoke-view}
use irl_engine_ax.Admin.Tokens.{
  sha256_hex, hash_of, is_active, has_hash, is_active_hash, cached, refresh_cache, is_valid,
  api_row, token_issue_route, token_revoke_route, has_token_id, revoke_row,
}

-- The hashes that the table allows.
abbrev pub allowed : List ApiToken → Text → Bool
allowed rows hash = any (is_active_hash hash) rows

-- A refreshed cache holds just these.
cached-refreshed :
    (rows : List ApiToken) (hash : Text)
    → cached (map hash_of (select is_active rows)) hash ≡ allowed rows hash
cached-refreshed [] hash = refl
cached-refreshed (row ∷ rows) hash =
    let ih = cached-refreshed rows hash in
    elim (Bool-cases (is_active row)) [ inl e ↦ rw e (ground arith) | inr e ↦ rw e (ground arith) ]

differ :
    (row : ApiToken) (g hash : Text)
    → text_eq row.token_hash g ≡ false
    → text_eq g hash ≡ true
    → text_eq row.token_hash hash ≡ false
differ row g hash e h = rw (← text_eq→eq g hash h) e

revoked-row :
    (g hash : Text) (row : ApiToken)
    → is_active_hash hash (if has_hash g row then revoke_row row else row)
      ≡ (is_active_hash hash row && not (text_eq g hash))
revoked-row g hash row = elim (Bool-cases (text_eq row.token_hash g)) [
  | inl e ↦
      (let same = text_eq→eq row.token_hash g e in
        let swap = ap (λ t. text_eq t hash) same in rw e (ground (arith, swap)))
  | inr e ↦
      rw e (ground (arith, text_eq→eq g hash, text_eq_comm row.token_hash g, differ row g hash e))
]

allowed-revoked :
    (g hash : Text) (rows : List ApiToken)
    → allowed (update_where (has_hash g) revoke_row rows) hash
      ≡ (allowed rows hash && not (text_eq g hash))
allowed-revoked g hash [] = refl
allowed-revoked g hash (row ∷ rows) =
    let ih = allowed-revoked g hash rows in let one = revoked-row g hash row in ground arith

some-injective : {A : Type 0} {a b : A} → Path (Option A) (some a) (some b) → a ≡ b
some-injective h = cc

or-true : (b : Bool) → (b || true) ≡ true
or-true b = ground arith

found-allowed :
    (id : Text) (row : ApiToken) (rows : List ApiToken)
    → find (has_token_id id) rows ≡ some row
    → (allowed rows row.token_hash ≡ true) × (text_eq (take 12 row.token_hash) id ≡ true)
found-allowed id row [] h = ground arith
found-allowed id row (r ∷ rows) h =
    let same = text_eq_refl r.token_hash in
    let later = found-allowed id row rows in
    elim (Bool-cases (has_token_id id r)) [
      | inl e ↦
          (let it : r ≡ row = some-injective (rw e at h) in rw (← it) (ground arith, ground arith))
      | inr e ↦ (let (a, b) = later (rw e at h) in (rw a (or-true _), b))
    ]

issued :
    (new client_name hash : Text) (rows : List ApiToken) (b : Bool)
    → b ≡ allowed (api_row new client_name ∷ rows) hash
    → b ≡ (text_eq new hash || allowed rows hash)
unfolding api_row
issued new client_name hash rows b h = ground arith

-- A change of the tokens.
pub data TokenChange : Type 0 where
  issue : Text → List ℕ → TokenChange
  revoke : Text → TokenChange
  refresh : TokenChange

-- The specification, on sets of hashes: issuing adds the hash of the new token, revoking removes
-- one active hash whose id was given, a refresh changes nothing.
abbrev pub Specified : ⦃ex : Externals⦄ → TokenChange → (Text → Bool) → (Text → Bool) → Type 0
Specified ⦃ex⦄ (issue client_name raw_bytes) before after =
    (hash : Text)
    → after hash ≡ (text_eq (sha256_hex (ex.hex_encode raw_bytes)) hash || before hash)
Specified (revoke token_id) before after =
    (g : Text) × (before g ≡ true)
    × (text_eq (take 12 g) token_id ≡ true)
    × ((hash : Text) → after hash ≡ (before hash && not (text_eq g hash)))
Specified refresh before after = (hash : Text) → after hash ≡ before hash

module _ {F : Type 0} ⦃ex : Externals⦄ where
  unfoldable pub perform : Operator → TokenChange → Handler F (Unit {0})
  perform who (issue client_name raw_bytes) = token_issue_route who client_name raw_bytes >> pure tt
  perform who (revoke token_id) = token_revoke_route who token_id >> pure tt
  perform who refresh = refresh_cache

  -- A state's set of allowed hashes.
  abbrev pub allowed_in : AppState F → Text → Bool
  allowed_in s = allowed s.api_tokens

  -- A cache made of its table holds what the table allows.
  from-view :
      (s' : AppState F) (rows : List ApiToken) (hash : Text)
      → view s' ≡ (rows, map hash_of (select is_active rows))
      → (cached s'.token_cache hash ≡ allowed s'.api_tokens hash)
        × (allowed s'.api_tokens hash ≡ allowed rows hash)
  from-view s' rows hash e =
      let table = ap (λ p. allowed p.0 hash) e in
      (ap (λ p. cached p.1 hash) e ∙ cached-refreshed rows hash ∙ sym table, table)

  -- A successful change of the tokens does what the specification says to the set of hashes that
  -- the table allows: issuing adds the new token's hash, revoking removes one hash that was allowed
  -- and begins with the given id, and no other, a refresh changes nothing. After it a raw token
  -- passes `is_valid`, which reads the cache alone, exactly when the table allows its hash.
  pub perform-refines :
      (who : Operator) (change : TokenChange) (s s' : AppState F)
      → perform who change s ≡ (ok tt, s')
      → Specified change (allowed_in s) (allowed_in s')
        × ((raw_token : Text) → is_valid raw_token s' ≡ allowed_in s' (sha256_hex raw_token))
  unfolding perform is_valid
  perform-refines who (issue client_name raw_bytes) s s' h =
      let (answer, e) =
        before_pure (token_issue_route who client_name raw_bytes) (λ _. tt) s tt s' h in
      let v = issue-view who client_name raw_bytes s answer s' e in
      (
        λ hash. issued _ client_name hash s.api_tokens _ (from-view s' _ hash v).1,
        λ raw. (from-view s' _ (sha256_hex raw) v).0,
      )
  perform-refines who (revoke token_id) s s' h =
      let (answer, e) = before_pure (token_revoke_route who token_id) (λ _. tt) s tt s' h in
      let (row, found, v) = revoke-view who token_id s answer s' e in
      let (was, id) = found-allowed token_id row s.api_tokens found in
      (
        (
          row.token_hash,
          was,
          id,
          λ hash. (from-view s' _ hash v).1 ∙ allowed-revoked row.token_hash hash s.api_tokens,
        ),
        λ raw. (from-view s' _ (sha256_hex raw) v).0,
      )
  perform-refines who refresh s s' h =
      let v = refreshed s s' h in
      (λ hash. (from-view s' _ hash v).1, λ raw. (from-view s' _ (sha256_hex raw) v).0)
