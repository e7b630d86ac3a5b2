-- ===== src/Seal.antt =====
-- src/seal.rs: the bitemporal check, the canonical JSON of a snapshot, its hash, and the final
-- proof. `to_string` is serde_json's printer of scalars and strings, `to_value` its conversion of
-- a snapshot.
pub mod KeyOrder
use irl_engine_ax.Prelude.{
  ℕ, ℤ, leb_ℤ, Text, codes, ◌++◌, List, [], ◌∷◌, map, Result, ok, err, and_then, map_err,
  if◌then◌else◌, as_bytes,
}
use irl_engine_ax.Platform.{Externals}
use irl_engine_ax.Errors.{AppError, bi_temporal_violation, serialization}
use irl_engine_ax.Snapshot.{CognitiveSnapshot}
use irl_engine_ax.Json.{
  Json, Items, Fields, null, bool, int, real, string, array, object, nil, cons, end, field,
  sort_by_key, collect, join,
}

unfoldable pub verify_bitemporal :
    {F : Type 0} → CognitiveSnapshot F → Result (AppError F) (Unit {0})
verify_bitemporal snapshot =
    if leb_ℤ snapshot.txn_time snapshot.valid_time then err bi_temporal_violation else ok tt

unfoldable pub compute_final_proof : ⦃ex : Externals⦄ → Text → Text → Text
compute_final_proof ⦃ex⦄ reasoning_hash exchange_tx_id =
    ex.hex_encode
      (ex.sha256 (as_bytes reasoning_hash ++ (as_bytes (codes "||") ++ as_bytes exchange_tx_id)))

module _ {F : Type 0} (to_string : Json F → Result Text Text) where
  -- The closure that prints one entry `key:value`.
  abbrev pub entry : Text × Result (AppError F) Text → Result (AppError F) Text
  entry (k, v) =
      and_then (map_err serialization (to_string (string k)))
        (λ key. and_then v (λ val. ok (key ++ (codes ":" ++ val))))

  unfoldable mutual
    pub canonicalize_json : Json F → Result (AppError F) Text
    canonicalize_json (object fs) =
        and_then (collect (map entry (sort_by_key (canonical_fields fs))))
          (λ inner. ok (codes "{" ++ (join (codes ",") inner ++ codes "}")))
    canonicalize_json (array xs) =
        and_then (collect (canonical_items xs))
          (λ inner. ok (codes "[" ++ (join (codes ",") inner ++ codes "]")))
    canonicalize_json null = map_err serialization (to_string null)
    canonicalize_json (bool b) = map_err serialization (to_string (bool b))
    canonicalize_json (int n) = map_err serialization (to_string (int n))
    canonicalize_json (real x) = map_err serialization (to_string (real x))
    canonicalize_json (string s) = map_err serialization (to_string (string s))

    pub canonical_items : Items F → List (Result (AppError F) Text)
    canonical_items nil = []
    canonical_items (cons v xs) = canonicalize_json v ∷ canonical_items xs

    -- The entries in stored order, each value printed.
    pub canonical_fields : Fields F → List (Text × Result (AppError F) Text)
    canonical_fields end = []
    canonical_fields (field k v fs) = (k, canonicalize_json v) ∷ canonical_fields fs

  module _ ⦃ex : Externals⦄ (to_value : CognitiveSnapshot F → Result Text (Json F)) where
    unfoldable pub seal : CognitiveSnapshot F → Result (AppError F) Text
    seal snapshot = and_then (map_err serialization (to_value snapshot)) λ value.
        and_then (canonicalize_json value)
          λ canonical. ok (ex.hex_encode (ex.sha256 (as_bytes canonical)))
