-- ===== src/Admin/Tokens.antt =====
-- src/token_manager.rs and src/routes/tokens.rs: the token table with its cache of active hashes,
-- and the routes that issue and revoke tokens. Random bytes are an argument.
pub mod Views
pub mod Refinement
use irl_engine_ax.Prelude.{
  ℕ, ℤ, ◌==◌, not, ◌&&◌, Text, codes, text_eq, as_bytes, trim, Bool, true, false, List, [], ◌∷◌,
  ◌++◌, map, Option, none, some, Result, ok, err, if◌then◌else◌, any, select, find, take, length,
  update_where, Action, leb_ℤ, ◌-ℤ◌, pos,
}
use irl_engine_ax.Prelude.Effects.{pure, raise, lift, modify, check, ◌>>=◌, ◌>>◌, reads}
use irl_engine_ax.Platform.{Externals}
use irl_engine_ax.Errors.{AppError, database, serialization}
use irl_engine_ax.Json.{Json, object, field, end, string}
use irl_engine_ax.Admin.{
  ApiToken, AppState, Handler, Operator, AuditAction, token_issue, token_revoke, query,
  insert_audit_log,
}

unfoldable pub sha256_hex : ⦃ex : Externals⦄ → Text → Text
sha256_hex ⦃ex⦄ input = ex.hex_encode (ex.sha256 (as_bytes input))

abbrev pub hash_of : ApiToken → Text
hash_of row = row.token_hash

abbrev pub is_active : ApiToken → Bool
is_active row = text_eq row.status (codes "active")

abbrev pub has_hash : Text → ApiToken → Bool
has_hash hash row = text_eq row.token_hash hash

abbrev pub is_active_hash : Text → ApiToken → Bool
is_active_hash hash row = has_hash hash row && is_active row

-- `DashMap::contains_key` at the cache
abbrev pub cached : List Text → Text → Bool
cached cache hash = any (λ h. text_eq h hash) cache

-- `Option<String>::map` over the role column
abbrev pub role_of : Option ApiToken → Option Text
role_of none = none
role_of (some row) = some row.role

-- ON CONFLICT (token_hash) DO NOTHING; the columns left out take their defaults.
unfoldable pub env_row : Text → ApiToken
env_row hash = record {
  token_hash = hash;
  client_name = codes "env-loaded";
  source = codes "env";
  status = codes "active";
  role = codes "client";
  last_used_at = none;
}

abbrev pub upsert_env : Text → List ApiToken → List ApiToken
upsert_env hash rows = if any (has_hash hash) rows then rows else env_row hash ∷ rows

unfoldable pub api_row : Text → Text → ApiToken
api_row hash client_name = record {
  token_hash = hash;
  client_name = client_name;
  source = codes "api";
  status = codes "active";
  role = codes "client";
  last_used_at = none;
}

abbrev pub blank : Text → Bool
blank t = length (trim t) == 0

-- `LEFT(token_hash, 12) = $1 AND status = 'active'`
abbrev pub has_token_id : Text → ApiToken → Bool
has_token_id token_id row = text_eq (take 12 row.token_hash) token_id && is_active row

abbrev pub revoke_row : ApiToken → ApiToken
revoke_row row = record row { status = codes "revoked" }

module _ {F : Type 0} where
  -- The cache is cleared and filled again.
  unfoldable pub refresh_cache : Handler F (Unit {0})
  unfolding query
  refresh_cache =
      query >> modify (λ s. record s { token_cache = map hash_of (select is_active s.api_tokens) })

  unfoldable pub sync_env_tokens : ⦃ex : Externals⦄ → List Text → Handler F (Unit {0})
  unfolding query sha256_hex env_row
  sync_env_tokens [] = pure tt
  sync_env_tokens (token ∷ tokens) =
      query
      >> modify (λ s. record s { api_tokens = upsert_env (sha256_hex token) s.api_tokens })
      >> sync_env_tokens tokens

  -- `TokenManager::new`
  unfoldable pub new : ⦃ex : Externals⦄ → List Text → Handler F (Unit {0})
  unfolding sync_env_tokens refresh_cache
  new env_tokens =
      modify (λ s. record s { token_cache = []; last_bumped = [] })
      >> sync_env_tokens env_tokens
      >> refresh_cache

  unfoldable pub is_valid : ⦃ex : Externals⦄ → Text → AppState F → Bool
  unfolding sha256_hex
  is_valid raw_token s = cached s.token_cache (sha256_hex raw_token)

  -- A query that fails gives no role.
  abbrev pub answer_role :
      Text
      → Result (AppError F) (Unit {0}) × AppState F
      → Result (AppError F) (Option Text) × AppState F
  answer_role hash (ok _, s) = (ok (role_of (find (is_active_hash hash) s.api_tokens)), s)
  answer_role hash (err _, s) = (ok none, s)

  -- `get_token_role`
  unfoldable pub get_token_role : ⦃ex : Externals⦄ → Text → Handler F (Option Text)
  unfolding query sha256_hex
  get_token_role raw_token s = answer_role (sha256_hex raw_token) (query s)

  -- Two texts in an object, as `json!` prints them for the log.
  abbrev pub client_details : Text → Option (Json F)
  client_details client_name = some (object (field (codes "client_name") (string client_name) end))

  -- The column token_hash is UNIQUE.
  abbrev pub insert_unique : ApiToken → Handler F (Unit {0})
  insert_unique row s =
      if any (has_hash row.token_hash) s.api_tokens
      then (err database, s)
      else (ok tt, record s { api_tokens = row ∷ s.api_tokens })

  unfoldable pub insert_token : ApiToken → Handler F (Unit {0})
  unfolding query
  insert_token row = query >> insert_unique row

  -- POST /irl/admin/tokens: the token's id and the raw token. `raw_bytes` are the random bytes.
  unfoldable pub token_issue_route :
      ⦃ex : Externals⦄ → Operator → Text → List ℕ → Handler F (Text × Text)
  unfolding sha256_hex insert_token refresh_cache
  token_issue_route ⦃ex⦄ who client_name raw_bytes =
      let raw_token = ex.hex_encode raw_bytes in
      let hash = sha256_hex raw_token in
      check (not (blank client_name)) (serialization (codes "client_name must not be empty"))
      >> insert_token (api_row hash client_name)
      >> refresh_cache
      >> insert_audit_log who token_issue (some (take 12 hash)) (client_details client_name)
      >> pure (take 12 hash, raw_token)

  abbrev pub found_token : Text → Option ApiToken → Result (AppError F) ApiToken
  found_token token_id none =
      err (serialization (codes "No active token found with id: " ++ token_id))
  found_token token_id (some row) = ok row

  abbrev pub revoke_hash : Text → AppState F → AppState F
  revoke_hash hash s = record s {
    api_tokens = update_where (has_hash hash) revoke_row s.api_tokens;
  }

  -- DELETE /irl/admin/tokens/:token_id. `len` of a text is the number of its bytes.
  unfoldable pub token_revoke_route : Operator → Text → Handler F (Text × Text)
  unfolding query refresh_cache
  token_revoke_route who token_id =
      check (length (as_bytes token_id) == 12)
        (serialization (codes "token_id must be exactly 12 characters"))
      >> query
      >> reads (λ s. found_token token_id (find (has_token_id token_id) s.api_tokens))
      >>= λ row.
          query
          >> modify (revoke_hash row.token_hash)
          >> refresh_cache
          >> insert_audit_log who token_revoke (some token_id) (client_details row.client_name)
          >> pure (token_id, codes "revoked")
