-- ===== src/Tests/Codecs.antt =====
-- Canonical text, encryption, assets, sides, Merkle roots and responses at concrete inputs.
use irl_engine_ax.Prelude.{
  ◌↔◌, trim, none, List, ℕ, ◌/◌, ◌+◌, ℤ, pos, ◌≤◌, ◌<◌, arith, Text, codes, true, [], ◌∷◌, ◌++◌,
  Option, some, Result, ok, map_err, ◌≡◌, refl, ◌⊎◌, length,
}
use irl_engine_ax.Platform.{zero}
use irl_engine_ax.Errors.{AppError, error_code, forbidden}
use irl_engine_ax.Errors.Response.{into_response, into_response-error_code}
use irl_engine_ax.Json.{Json, object, field, end, null, bool, string}
use irl_engine_ax.Snapshot.{resolve_custom_direction, compute_latent_fingerprint}
use irl_engine_ax.Snapshot.Fingerprint.{compute_latent_fingerprint-shift}
use irl_engine_ax.Seal.{canonicalize_json}
use irl_engine_ax.Seal.KeyOrder.{in_object, swapped, canonicalize_json-key_order}
use irl_engine_ax.Mta.{canonical_json}
use irl_engine_ax.Mta.Canonical.{canonical_json-canonicalize_json}
use irl_engine_ax.Asset.{add_pair, AliasMap, assets_match}
use irl_engine_ax.Asset.Matching.{assets_match_iff, Resolves}
use irl_engine_ax.Binding.{resolve_direction}
use irl_engine_ax.Binding.Sides.{resolve_direction-agrees}
use irl_engine_ax.Bind.{quantity_delta}
use irl_engine_ax.Encryption.{
  KeyProvider, StoredJson, local_provider, LocalDevProvider, encode_trace, encrypt_trace,
  decrypt_if_needed, local_generate_dek, local_decrypt_dek, wrap_ciphertext_for_jsonb,
}
use irl_engine_ax.Encryption.RoundTrip.{
  decrypt-encode_trace, local_decrypt_dek-generate, local_provider-KeyLaw,
}
use irl_engine_ax.Merkle.{level, compute_merkle_root, reduce}
use irl_engine_ax.Merkle.Root.{reduce-ends, compute_merkle_root-duplicate}
use irl_engine_ax.Tests.Fixtures.{
  whole, outside, plain_aead, plain_laws, null_bytes, bytes_12, bytes_32,
}

abbrev ab : Json ℤ
ab = object (field (codes "a") null (field (codes "b") (bool true) end))

abbrev ba : Json ℤ
ba = object (field (codes "b") (bool true) (field (codes "a") null end))

abbrev printer : Json ℤ → Result Text Text
printer (string s) = ok s
printer _ = ok (codes "x")

canonicalize_json-key_order_example : canonicalize_json printer ab ≡ canonicalize_json printer ba
canonicalize_json-key_order_example =
    canonicalize_json-key_order printer ab ba (in_object (swapped refl))

canonical_json-canonicalize_json_example :
    canonical_json printer ab ≡ map_err (λ _. tt) (canonicalize_json printer ab)
canonical_json-canonicalize_json_example = canonical_json-canonicalize_json printer ab

abbrev dev : LocalDevProvider
dev = record { wrapping_key = bytes_32; key_version = pos 1 }

abbrev test_kms : KeyProvider
test_kms = local_provider plain_aead dev bytes_32 bytes_12

abbrev sealed_row : StoredJson ℤ
sealed_row = record {
  stored_json = wrap_ciphertext_for_jsonb plain_aead (7 ∷ []);
  nonce_bytes = some bytes_12;
  enc_dek_bytes = some (bytes_12 ++ bytes_32);
  key_ver = some (pos 1);
  enc_version = 1;
}

decrypt-encode_trace_example :
    decrypt_if_needed plain_aead null_bytes sealed_row (some test_kms) ≡ ok null
unfolding encode_trace encrypt_trace local_generate_dek
decrypt-encode_trace_example =
    decrypt-encode_trace plain_aead null_bytes test_kms plain_laws
      (local_provider-KeyLaw plain_aead plain_laws dev bytes_32 bytes_12 refl refl refl) bytes_12
      refl null (λ b h. refl) sealed_row refl

local_decrypt_dek-generate_example :
    (local_decrypt_dek plain_aead dev (bytes_12 ++ bytes_32) (pos 3) ≡ ok bytes_32)
    × (bytes_32 ≡ bytes_32)
unfolding local_generate_dek encrypt_trace
local_decrypt_dek-generate_example =
    local_decrypt_dek-generate plain_aead plain_laws dev bytes_32 bytes_12 bytes_32
      (bytes_12 ++ bytes_32) (pos 1) (pos 3) refl refl refl

abbrev aliases : Option AliasMap
aliases = some ((codes "AAPL.USD", codes "AAPL") ∷ (codes "APPLE", codes "AAPL") ∷ [])

assets_match_iff_example :
    let m : AliasMap = (codes "AAPL.USD", codes "AAPL") ∷ [] in
    let a = codes "AAPL.USD" in
    let b = codes "AAPL" in
    ((assets_match (some m) a b ≡ true) ↔ ((c : Text) × Resolves m a c × Resolves m b c))
    × ((assets_match none a b ≡ true) ↔ (a ≡ b))
    × Resolves (add_pair (codes " APPLE", some b) m) (trim (codes " APPLE")) (trim b)
assets_match_iff_example =
    assets_match_iff ((codes "AAPL.USD", codes "AAPL") ∷ []) (codes "AAPL.USD") (codes "AAPL")
      (codes " APPLE") (codes "AAPL")

resolve_direction-agrees_example :
    let action = codes "close_short" in
    let fill = pos 2 in
    ((resolve_direction action ≡ codes "long")
      × ((resolve_custom_direction action ≡ codes "long")
          × (quantity_delta ⦃fl = whole⦄ action fill ≡ fill)))
    ⊎ (((resolve_direction action ≡ codes "short")
          × (((resolve_custom_direction action ≡ codes "short")
                ⊎ (resolve_custom_direction action ≡ codes "long"))
              × (quantity_delta ⦃fl = whole⦄ action fill ≡ whole.neg fill)))
        ⊎ ((resolve_direction action ≡ codes "neutral")
            × (quantity_delta ⦃fl = whole⦄ action fill ≡ zero ⦃fl = whole⦄)))
resolve_direction-agrees_example =
    resolve_direction-agrees ⦃fl = whole⦄ (codes "close_short") (pos 2)

reduce-ends_example :
    let nodes : List (List ℕ) = (1 ∷ []) ∷ (2 ∷ []) ∷ (3 ∷ []) ∷ [] in
    (length (level ⦃ex = outside⦄ nodes) ≡ (length nodes + 1) / 2)
    × (length (reduce ⦃ex = outside⦄ 2 nodes) ≡ 1)
    × (reduce ⦃ex = outside⦄ (5 + 2) nodes ≡ reduce ⦃ex = outside⦄ 2 nodes)
reduce-ends_example =
    reduce-ends ⦃ex = outside⦄ 2 5 ((1 ∷ []) ∷ (2 ∷ []) ∷ (3 ∷ []) ∷ []) (omega arith) (omega arith)

compute_merkle_root-duplicate_example :
    compute_merkle_root ⦃ex = outside⦄ (codes "a" ∷ codes "b" ∷ codes "c" ∷ codes "c" ∷ [])
    ≡ compute_merkle_root ⦃ex = outside⦄ (codes "a" ∷ codes "b" ∷ codes "c" ∷ [])
compute_merkle_root-duplicate_example =
    compute_merkle_root-duplicate ⦃ex = outside⦄ (codes "a" ∷ codes "b" ∷ []) (codes "c") refl
      (omega arith)

compute_latent_fingerprint-shift_example :
    compute_latent_fingerprint ⦃ex = outside⦄ (codes "m") (codes "p||q") (codes "f") (codes "c")
    ≡ compute_latent_fingerprint ⦃ex = outside⦄ (codes "m") (codes "p") (codes "q||f") (codes "c")
compute_latent_fingerprint-shift_example =
    compute_latent_fingerprint-shift ⦃ex = outside⦄ (codes "m") (codes "p") (codes "q") (codes "f")
      (codes "c")

abbrev shown : AppError ℤ → Text
shown e = codes "e"

into_response-error_code_example :
    ((into_response shown forbidden).error ≡ error_code {F = ℤ} forbidden)
    × (400 ≤ (into_response shown forbidden).status)
    × ((into_response shown forbidden).status < 600)
into_response-error_code_example = into_response-error_code shown forbidden
