-- ===== src/Mta.antt =====
-- src/mta.rs: the Market Truth Anchor. The state that the engine consumes, the MacroPulse client
-- (fetch, signature check, regime table, cache and circuit breaker), and the two static clients.
-- `Wire` holds what the client calls in serde_json and base64. Instants are nanoseconds of a
-- monotonic clock.
pub mod Breaker
pub mod Canonical
use irl_engine_ax.Prelude.{
  ℕ, ℤ, pos, ◌-ℤ◌, suc, ◌+◌, ◌-◌, ◌*◌, ◌/◌, Text, codes, Bool, ◌==◌, ltb, ◌++◌, List, [], ◌∷◌, map,
  Option, none, some, Result, ok, err, and_then, map_err, ok_or, guard, if◌then◌else◌, as_bytes,
  length,
}
use irl_engine_ax.Platform.{Float64, Externals, zero, one}
use irl_engine_ax.Errors.{AppError, mta_fetch_failed, mta_signature_invalid}
use irl_engine_ax.Json.{
  Json, Items, Fields, null, bool, int, real, string, array, object, nil, cons, end, field,
  sort_by_key, collect, join, remove_field,
}

pub record MtaState (F : Type 0) : Type 0 where
  pub regime_id : ℕ
  pub regime_label : Text
  pub risk_level : F
  pub max_notional_scale : F
  pub allowed_sides : List Text
  pub version : Text
  pub hash : Text
  pub broadcast_time : ℤ
  pub pubkey_fingerprint : Text
  pub signal_mode : Text

pub record RawMtaResponse : Type 0 where
  pub regime_id : ℕ
  pub macro_regime : Text
  pub version : Option Text
  pub broadcast_time : ℤ
  pub signature : Text

pub record Wire (F : Type 0) : Type 0 where
  pub raw_from_slice : List ℕ → Result Text RawMtaResponse
  pub value_from_slice : List ℕ → Result Text (Json F)
  pub to_string : Json F → Result Text Text
  pub base64_decode : Text → Option (List ℕ)

pub record CachedMta (F : Type 0) : Type 0 where
  pub state : MtaState F
  pub fetched_at : ℕ

abbrev pub cache_ttl_ms : ℕ
cache_ttl_ms = 100

abbrev pub fallback_ttl_secs : ℕ
fallback_ttl_secs = 60

-- MacroPulse's regimes, as (risk_level, max_notional_scale, allowed_sides).
unfoldable pub regime_constraints : {F : Type 0} ⦃fl : Float64 F⦄ → ℕ → F × F × List Text
regime_constraints ⦃fl⦄ id =
    if id == 0
    then (one, one, codes "long" ∷ codes "short" ∷ codes "neutral" ∷ [])
    else if id == 1
    then (fl.decimal 75 2, fl.decimal 75 2, codes "long" ∷ codes "short" ∷ codes "neutral" ∷ [])
    else if id == 2
    then (fl.decimal 30 2, fl.decimal 25 2, codes "short" ∷ codes "neutral" ∷ [])
    else if id == 3
    then (zero, zero, codes "neutral" ∷ [])
    else (zero, zero, codes "neutral" ∷ [])

module _ {F : Type 0} (to_string : Json F → Result Text Text) where
  -- `serde_json::to_string(…).map_err(|_| ())`
  abbrev pub print : Json F → Result (Unit {0}) Text
  print v = map_err (λ _. tt) (to_string v)

  abbrev pub pair_text : Text × Result (Unit {0}) Text → Result (Unit {0}) Text
  pair_text (k, v) =
      and_then (print (string k)) (λ key. and_then v (λ val. ok (key ++ (codes ":" ++ val))))

  unfoldable mutual
    pub canonical_json : Json F → Result (Unit {0}) Text
    canonical_json (object fs) =
        and_then (collect (map pair_text (sort_by_key (json_fields fs))))
          (λ inner. ok (codes "{" ++ (join (codes ",") inner ++ codes "}")))
    canonical_json (array xs) =
        and_then (collect (json_items xs))
          (λ inner. ok (codes "[" ++ (join (codes ",") inner ++ codes "]")))
    canonical_json null = print null
    canonical_json (bool b) = print (bool b)
    canonical_json (int n) = print (int n)
    canonical_json (real x) = print (real x)
    canonical_json (string s) = print (string s)

    pub json_items : Items F → List (Result (Unit {0}) Text)
    json_items nil = []
    json_items (cons v xs) = canonical_json v ∷ json_items xs

    pub json_fields : Fields F → List (Text × Result (Unit {0}) Text)
    json_fields end = []
    json_fields (field k v fs) = (k, canonical_json v) ∷ json_fields fs

-- `if let Some(obj) = json_val.as_object_mut() { obj.remove("signature"); }`
abbrev pub strip_signature : {F : Type 0} → Json F → Json F
strip_signature (object fs) = object (remove_field (codes "signature") fs)
strip_signature v = v

-- `version.unwrap_or_else(|| "unknown".to_string())`
abbrev pub version_or_unknown : Option Text → Text
version_or_unknown none = codes "unknown"
version_or_unknown (some v) = v

module _ {F : Type 0} ⦃fl : Float64 F⦄ ⦃ex : Externals⦄ (wire : Wire F) (pubkey : List ℕ) where
  unfoldable pub verify_signature : List ℕ → RawMtaResponse → Result (AppError F) (Unit {0})
  verify_signature body_bytes raw =
      and_then (ok_or (wire.base64_decode raw.signature) mta_signature_invalid) λ sig_bytes.
        and_then (guard (length sig_bytes == 64) mta_signature_invalid) λ _.
          and_then (map_err (λ _. mta_signature_invalid) (wire.value_from_slice body_bytes))
            λ json_val.
              and_then
                (map_err (λ _. mta_signature_invalid)
                  (canonical_json wire.to_string (strip_signature json_val)))
                λ canonical.
                  guard (ex.ed25519_verify pubkey (as_bytes canonical) sig_bytes)
                    mta_signature_invalid

  -- The state that a response body stands for.
  unfoldable pub adapt : List ℕ → RawMtaResponse → MtaState F
  adapt body_bytes raw =
      let (risk_level, max_notional_scale, allowed_sides) = regime_constraints raw.regime_id in
      record {
        regime_id = raw.regime_id;
        regime_label = raw.macro_regime;
        risk_level = risk_level;
        max_notional_scale = max_notional_scale;
        allowed_sides = allowed_sides;
        version = version_or_unknown raw.version;
        hash = ex.hex_encode (ex.sha256 body_bytes);
        broadcast_time = raw.broadcast_time;
        pubkey_fingerprint = ex.hex_encode pubkey;
        signal_mode = codes "live";
      }

  -- `response` is what the GET gave: the body, or the transport's error.
  unfoldable pub fetch_and_verify : Result Text (List ℕ) → Result (AppError F) (MtaState F)
  fetch_and_verify response = and_then (map_err mta_fetch_failed response) λ body_bytes.
      and_then
        (map_err (λ e. mta_fetch_failed (codes "Invalid MTA JSON: " ++ e))
          (wire.raw_from_slice body_bytes))
        λ raw. and_then (verify_signature body_bytes raw) λ _. ok (adapt body_bytes raw)

  abbrev pub is_fresh : Option (CachedMta F) → ℕ → Bool
  is_fresh none now = Bool.false
  is_fresh (some c) now = ltb (now - c.fetched_at) (cache_ttl_ms * 1000000)

  -- The circuit breaker: the last known state, while it is younger than the fallback window.
  unfoldable pub fall_back :
      Option (CachedMta F) → ℕ → AppError F → Result (AppError F) (MtaState F)
  fall_back none now e = err e
  fall_back (some c) now e =
      if ltb ((now - c.fetched_at) / 1000000000) fallback_ttl_secs then ok c.state else err e

  -- The slow path, at the outcome of the fetch.
  unfoldable pub settle :
      Option (CachedMta F)
      → ℕ
      → Result (AppError F) (MtaState F)
      → Result (AppError F) (MtaState F) × Option (CachedMta F)
  settle cache after (ok state) = (ok state, some (record { state = state; fetched_at = after }))
  settle cache after (err e) = (fall_back cache after e, cache)

  -- `cached_state` reads the fast path's hit.
  abbrev pub cached_state : Option (CachedMta F) → AppError F → Result (AppError F) (MtaState F)
  cached_state none e = err e
  cached_state (some c) e = ok c.state

  -- `MtaClient::fetch_verified`: `now` is the instant of the first read, `after` that of the
  -- second, when the GET has given `response`.
  unfoldable pub fetch_verified :
      Option (CachedMta F)
      → ℕ
      → ℕ
      → Result Text (List ℕ)
      → Result (AppError F) (MtaState F) × Option (CachedMta F)
  fetch_verified cache now after response =
      if is_fresh cache now
      then (cached_state cache mta_signature_invalid, cache)
      else settle cache after (fetch_and_verify response)

abbrev pub all_sides : List Text
all_sides = codes "long" ∷ codes "short" ∷ codes "neutral" ∷ []

-- `MockMtaClient::fetch_verified`; `now` is `Utc::now()` in milliseconds.
unfoldable pub mock_state : {F : Type 0} ⦃fl : Float64 F⦄ → ℤ → MtaState F
mock_state now = record {
  regime_id = 0;
  regime_label = codes "expansion";
  risk_level = one;
  max_notional_scale = one;
  allowed_sides = all_sides;
  version = codes "mock-v0";
  hash = codes "mock0000000000000000000000000000000000000000000000000000000000000000";
  broadcast_time = now -ℤ pos 50;
  pubkey_fingerprint = codes "0000000000000000000000000000000000000000000000000000000000000000";
  signal_mode = codes "mock";
}

-- `NullMtaClient::fetch_verified`
unfoldable pub null_state : {F : Type 0} ⦃fl : Float64 F⦄ → ℤ → MtaState F
null_state now = record {
  regime_id = 0;
  regime_label = codes "unconstrained";
  risk_level = one;
  max_notional_scale = one;
  allowed_sides = all_sides;
  version = codes "none";
  hash = codes "none0000000000000000000000000000000000000000000000000000000000000000";
  broadcast_time = now;
  pubkey_fingerprint = codes "0000000000000000000000000000000000000000000000000000000000000000";
  signal_mode = codes "none";
}
