-- ===== src/Tests/Fixtures.antt =====
-- Small instances of what the engine takes from outside: whole numbers for floats, a hash and an
-- encryption that keep their input, and a signature check that accepts one byte.
use irl_engine_ax.Prelude.{
  ℕ, ℤ, pos, ◌+ℤ◌, ◌-ℤ◌, ◌*ℤ◌, ltb_ℤ, unsigned_abs, ◌/◌, ◌^◌, Text, codes, Bool, true, false, not,
  ◌||◌, List, [], ◌∷◌, none, some, ok, refl, sym,
}
use irl_engine_ax.Platform.{Float64, Externals}
use irl_engine_ax.Json.{null, int}
use irl_engine_ax.Snapshot.{TradeAction, OrderType, AuthorizeRequest}
use irl_engine_ax.Config.{Config, system, KmsProvider, MtaMode}
use irl_engine_ax.Mta.{MtaState}
use irl_engine_ax.Heartbeat.{HeartbeatValidator}
use irl_engine_ax.Encryption.{Aead, JsonBytes}
use irl_engine_ax.Encryption.RoundTrip.{AeadLaws}
use irl_engine_ax.Store.{Db, Codec}
use irl_engine_ax.Binding.{BindExecutionRequest, filled}
use irl_engine_ax.Registry.{AgentProfile}
use irl_engine_ax.Authorize.{World, Inputs, Services}

abbrev pub sum_ℤ : List ℤ → ℤ
sum_ℤ [] = pos 0
sum_ℤ (x ∷ xs) = sum_ℤ xs +ℤ x

abbrev pub whole : Float64 ℤ
whole = record {
  decimal = λ m k. pos (m / 10 ^ k);
  add = λ a b. a +ℤ b;
  sub = λ a b. a -ℤ b;
  mul = λ a b. a *ℤ b;
  neg = λ a. pos 0 -ℤ a;
  abs = λ a. pos (unsigned_abs a);
  gt = λ a b. ltb_ℤ b a;
  eq = λ a b. not (ltb_ℤ a b || ltb_ℤ b a);
  sum = sum_ℤ;
  column = λ a. a;
  to_bits = unsigned_abs;
  display = λ a. unsigned_abs a ∷ [];
  fixed = λ n a. unsigned_abs a ∷ [];
}

abbrev pub outside : Externals
outside = record {
  sha256 = λ b. b;
  hex_encode = λ b. b;
  hex_decode = λ t. some t;
  ed25519_verify = λ k m s. true;
  uuid_text = λ n. n ∷ [];
  timestamp_millis_opt = λ t. some t;
}

abbrev pub plain_aead : Aead
plain_aead = record {
  seal = λ k n p. some p;
  unseal = λ k n c. some c;
  base64_encode = λ b. b;
  base64_decode = λ t. some t;
}

pub plain_laws : AeadLaws plain_aead
plain_laws = record { unseal-seal = λ k n p c e. sym e; decode-encode = λ b. refl }

abbrev pub bytes_32 : List ℕ
bytes_32 =
    1 ∷ 2 ∷ 3 ∷ 4 ∷ 5 ∷ 6 ∷ 7 ∷ 8 ∷ 9 ∷ 10 ∷ 11 ∷ 12 ∷ 13 ∷ 14 ∷ 15 ∷ 16 ∷ 17 ∷ 18 ∷ 19 ∷ 20 ∷ 21
    ∷ 22 ∷ 23 ∷ 24 ∷ 25 ∷ 26 ∷ 27 ∷ 28 ∷ 29 ∷ 30 ∷ 31 ∷ 32 ∷ []

abbrev pub bytes_12 : List ℕ
bytes_12 = 1 ∷ 2 ∷ 3 ∷ 4 ∷ 5 ∷ 6 ∷ 7 ∷ 8 ∷ 9 ∷ 10 ∷ 11 ∷ 12 ∷ []

abbrev pub null_bytes : JsonBytes ℤ
null_bytes = record { to_vec = λ v. ok (7 ∷ []); from_slice = λ b. ok null }

abbrev pub test_codec : Codec ℤ
test_codec = record { to_value = λ t. ok null; aead = plain_aead; bytes = null_bytes }

abbrev pub test_services : Services ℤ
test_services = record {
  to_string = λ v. ok (codes "x");
  snapshot_to_value = λ s. ok (int (pos s.trace_id));
  codec = test_codec;
  key_provider = none;
}

abbrev pub layer1 : Config ℤ
layer1 = record {
  database_url = [];
  mta_mode = MtaMode.mock;
  mta_url = [];
  mta_pubkey = [];
  irl_api_tokens = [];
  time_source = system;
  max_heartbeat_drift_ms = 50;
  layer2_enabled = false;
  bind_size_tolerance = pos 0;
  trace_expiry_ms = 3600000;
  port = 4000;
  shadow_mode = false;
  metrics_enabled = false;
  rate_limit_per_second = 100;
  max_body_bytes = 65536;
  kms_provider = KmsProvider.none;
  kms_key_id = none;
  kms_key_version = pos 1;
  mtls_enabled = false;
  mtls_required = false;
  tls_cert_path = none;
  tls_key_path = none;
  tls_ca_cert_path = none;
  mtls_dev_certs = false;
}

abbrev pub long_only : MtaState ℤ
long_only = record {
  regime_id = 0;
  regime_label = codes "EXPANSION";
  risk_level = pos 1;
  max_notional_scale = pos 1;
  allowed_sides = codes "long" ∷ [];
  version = codes "1";
  hash = codes "h";
  broadcast_time = pos 0;
  pubkey_fingerprint = codes "k";
  signal_mode = codes "regime";
}

abbrev pub test_agent : AgentProfile ℤ
test_agent = record {
  agent_id = 7;
  name = codes "a";
  model_hash_hex = bytes_32;
  policy_module_id = codes "default";
  allowed_regimes = some (0 ∷ []);
  max_notional = pos 1000;
  max_leverage = pos 4;
  allowed_venues = none;
  status = codes "Active";
  allowed_mta_pubkeys = none;
}

abbrev pub test_db : Db ℤ
test_db = record { traces = []; positions = []; faults = [] }

abbrev pub validator : HeartbeatValidator
validator = record { sequences = []; max_drift_ms = 50; pubkey = [] }

abbrev pub test_world : Bool → World ℤ
test_world shadow = record {
  db = test_db;
  agents = test_agent ∷ [];
  validator = validator;
  heartbeat_rows = [];
  shadow_mode = shadow;
}

abbrev pub test_inputs : Inputs ℤ
test_inputs = record {
  cert_cn = some (7 ∷ []);
  heartbeat_clock = pos 2000;
  heartbeat_db_up = true;
  mta = ok long_only;
  registry_up = true;
  clock = pos 2000;
  trace_id = 42;
  nonce = bytes_12;
}

abbrev pub order : TradeAction ℤ → AuthorizeRequest ℤ
order action = record {
  agent_id = 7;
  model_hash_hex = bytes_32;
  model_id = codes "m";
  prompt_version = codes "p";
  feature_schema_id = codes "f";
  hyperparameter_checksum = codes "c";
  action = action;
  asset = codes "BTC";
  order_type = OrderType.market;
  venue_id = codes "V";
  quantity = pos 2;
  notional = pos 100;
  notional_currency = codes "USD";
  multiplier = pos 1;
  limit_price = none;
  stop_price = none;
  client_order_id = codes "o";
  agent_valid_time = pos 1000;
  heartbeat = none;
  reduce_only = false;
  regulatory = none;
}

abbrev pub fill_report : Text → BindExecutionRequest ℤ
fill_report tx = record {
  trace_id = 42;
  exchange_tx_id = tx;
  execution_status = filled;
  asset = some (codes "BTC");
  executed_quantity = some (pos 2);
  execution_price = some (pos 50);
  executed_side = some (codes "Long");
  execution_time_ms = none;
}
