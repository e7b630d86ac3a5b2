-- ===== src/Tests/Admin.antt =====
-- Tokens, the checks before a route and the audit log at concrete inputs.
use irl_engine_ax.Prelude.{
  ℤ, pos, Text, codes, true, false, List, [], ◌∷◌, ◌++◌, map, none, some, ok, ◌≡◌, refl, find, take,
  as_bytes,
}
use irl_engine_ax.Prelude.Effects.{pure, lift, modify, check, reads, ◌>>=◌}
use irl_engine_ax.Platform.{Externals, Float64}
use irl_engine_ax.RateLimit
use irl_engine_ax.Admin.{AppState, ApiToken, AuditRow, Operator, insert_audit_log}
use irl_engine_ax.Admin.Tokens.{
  sha256_hex, is_valid, role_of, is_active_hash, token_revoke_route, get_token_role,
}
use irl_engine_ax.Admin.Tokens.Refinement.{
  TokenChange, revoke, perform, Specified, allowed_in, perform-refines,
}
use irl_engine_ax.Admin.Auth.{
  Request, value, admin_gate, require_bearer, extract_bearer, require_owner,
}
use irl_engine_ax.Admin.Auth.Bearer.{admin_gate-owner}
use irl_engine_ax.Admin.Logs.{signature}
use irl_engine_ax.Admin.Audit.{AdminRequest, serve_all, serve_all-audited}
use irl_engine_ax.Tests.Fixtures.{whole, outside, plain_aead}
use irl_engine_ax.Tests.Privacy.{two_rows, agent_bytes, test_draws, table_source}

instance abbrev services : Externals
services = outside

instance abbrev numbers : Float64 ℤ
numbers = whole

abbrev owner_token : ApiToken
owner_token = record {
  token_hash = codes "operator-token";
  client_name = codes "ops";
  source = codes "env";
  status = codes "active";
  role = codes "owner";
  last_used_at = none;
}

abbrev test_app : AppState ℤ
test_app = record {
  api_tokens = owner_token ∷ [];
  token_cache = codes "operator-token" ∷ [];
  last_bumped = [];
  rate_limiter = record { counters = λ t. none; max_per_second = 0 };
  shadow_row = none;
  shadow_mode = false;
  agents = [];
  store = two_rows;
  audit_log = [];
  faults = [];
}

abbrev ops : Operator
ops = record { operator = codes "operator-tok"; client_ip = none }

abbrev revoke_it : TokenChange
revoke_it = revoke (codes "operator-tok")

perform-refines_example :
    let s' = (perform {F = ℤ} ops revoke_it test_app).1 in
    Specified revoke_it (allowed_in test_app) (allowed_in s')
    × ((raw_token : Text) → is_valid raw_token s' ≡ allowed_in s' (sha256_hex raw_token))
unfolding perform ◌>>=◌ token_revoke_route check as_bytes reads modify insert_audit_log pure
perform-refines_example =
    perform-refines ops revoke_it test_app (perform {F = ℤ} ops revoke_it test_app).1 refl

abbrev asked : Request
asked = record { authorization = value (codes "Bearer operator-token"); peer_ip = none }

admin_gate-owner_example :
    (token : Text) × (asked.authorization ≡ value (codes "Bearer " ++ token))
    × (is_valid token test_app ≡ true)
    × ((RateLimit.check {F = ℤ} token 5 test_app.rate_limiter).0 ≡ ok tt)
    × (ops.operator ≡ take 12 (sha256_hex token))
    × (role_of (find (is_active_hash (sha256_hex token)) test_app.api_tokens)
        ≡ some (codes "owner"))
unfolding admin_gate ◌>>=◌ require_bearer lift extract_bearer reads is_valid as_bytes
    RateLimit.check pure require_owner get_token_role check
admin_gate-owner_example =
    admin_gate-owner asked 5 (pos 0) (pos 0) true test_app ops
      (admin_gate {F = ℤ} asked 5 (pos 0) (pos 0) true test_app).1 refl

abbrev requests : List (Operator × AdminRequest ℤ)
requests =
    (ops, AdminRequest.issue (codes "c") (1 ∷ []))
    ∷ (ops, AdminRequest.revoke (codes "short"))
    ∷ (ops, AdminRequest.revoke (codes "operator-tok"))
    ∷ (ops, AdminRequest.erase (pos 5000) 3 (some test_draws) table_source 7)
    ∷ []

serve_all-audited_example :
    (new : List (AuditRow ℤ)) × (((serve_all plain_aead agent_bytes requests []
          test_app).1.audit_log
        ≡ new ++ [])
      × ((serve_all plain_aead agent_bytes requests [] test_app).0 ≡ map signature new))
serve_all-audited_example = serve_all-audited plain_aead agent_bytes requests test_app
