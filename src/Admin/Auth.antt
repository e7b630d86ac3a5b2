-- ===== src/Admin/Auth.antt =====
-- src/auth.rs: the bearer check before every route and the owner check before the administration
-- routes, and `bump_last_used` of src/token_manager.rs. `now_sec` and `now_ms` are readings of the
-- wall clock and of the monotonic clock.
pub mod Bearer
use irl_engine_ax.Prelude.{
  ℕ, ℤ, pos, ◌-ℤ◌, leb_ℤ, not, Text, codes, text_eq, strip_prefix, Bool, true, false, List, [], ◌∷◌,
  Option, none, some, Result, ok, err, ok_or, and_then, if◌then◌else◌, take, update_where, Action,
  guard,
}
use irl_engine_ax.Prelude.Effects.{pure, lift, modify, check, ◌>>=◌, ◌>>◌, reads}
use irl_engine_ax.Platform.{Externals}
use irl_engine_ax.Errors.{AppError, unauthorized, forbidden}
use irl_engine_ax.RateLimit
use irl_engine_ax.Admin.{ApiToken, AppState, Handler, Operator}
use irl_engine_ax.Admin.Tokens.{sha256_hex, has_hash, is_valid, get_token_role}

-- The Authorization header: absent, not visible ASCII, or a text.
pub data Header : Type 0 where
  absent opaque : Header
  value : Text → Header

-- What of a request the checks read.
pub record Request : Type 0 where
  pub authorization : Header
  pub peer_ip : Option Text

-- `DashMap::get` at last_bumped
abbrev pub bumped_at : Text → List (Text × ℤ) → Option ℤ
bumped_at hash [] = none
bumped_at hash ((h, t) ∷ rest) = if text_eq h hash then some t else bumped_at hash rest

abbrev pub should_bump : ℤ → Option ℤ → Bool
should_bump now_ms none = true
should_bump now_ms (some t) = leb_ℤ (pos 60000) (now_ms -ℤ t)

abbrev pub owner_role : Option Text → Bool
owner_role none = false
owner_role (some role) = text_eq role (codes "owner")

module _ {F : Type 0} where
  unfoldable pub extract_bearer : Header → Result (AppError F) Text
  extract_bearer absent = err unauthorized
  extract_bearer opaque = err unauthorized
  extract_bearer (value header) = ok_or (strip_prefix header (codes "Bearer ")) unauthorized

  abbrev pub touch : Text → ℤ → AppState F → AppState F
  touch hash wall_ms s = record s {
    api_tokens =
        update_where (has_hash hash) (λ row. record row { last_used_at = some wall_ms })
          s.api_tokens;
  }

  -- The spawned UPDATE is run at once; `written` is whether the database runs it.
  unfoldable pub bump_last_used : ⦃ex : Externals⦄ → Text → ℤ → ℤ → Bool → Handler F (Unit {0})
  unfolding sha256_hex
  bump_last_used raw_token now_ms wall_ms written s =
      let hash = sha256_hex raw_token in
      if not (should_bump now_ms (bumped_at hash s.last_bumped))
      then (ok tt, s)
      else let s' = record s { last_bumped = (hash, now_ms) ∷ s.last_bumped } in
        (ok tt, if written then touch hash wall_ms s' else s')

  unfoldable pub limit : Text → ℕ → Handler F (Unit {0})
  limit token now_sec s =
      let (r, limiter) = RateLimit.check {F = F} token now_sec s.rate_limiter in
      (r, record s { rate_limiter = limiter })

  -- `require_bearer`, up to the call of the next handler: the operator that it records.
  unfoldable pub require_bearer : ⦃ex : Externals⦄ → Request → ℕ → ℤ → ℤ → Bool → Handler F Operator
  unfolding limit bump_last_used
  require_bearer req now_sec now_ms wall_ms written =
      lift (extract_bearer req.authorization) >>= λ token.
      reads (λ s. guard (is_valid token s) unauthorized)
      >> limit token now_sec
      >> bump_last_used token now_ms wall_ms written
      >> pure (record { operator = take 12 (sha256_hex token); client_ip = req.peer_ip })

  -- `require_owner`, which runs after `require_bearer`
  unfoldable pub require_owner : ⦃ex : Externals⦄ → Request → Handler F (Unit {0})
  require_owner req = lift (extract_bearer req.authorization) >>= λ token.
      get_token_role token >>= λ role. check (owner_role role) forbidden

  -- The layers of the administration routes in src/lib.rs: the bearer check, then the owner check.
  unfoldable pub admin_gate : ⦃ex : Externals⦄ → Request → ℕ → ℤ → ℤ → Bool → Handler F Operator
  admin_gate req now_sec now_ms wall_ms written =
      require_bearer req now_sec now_ms wall_ms written >>= λ who.
      require_owner req >>= λ _. pure who
