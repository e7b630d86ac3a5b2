-- ===== src/Encryption.antt =====
-- src/encryption.rs, the row encryption of src/db.rs and the local key provider of src/kms.rs.
-- AES-256-GCM, base64 and the serialisation of a JSON value to bytes are interfaces; nonces and
-- fresh keys, which come from the operating system, are arguments.
pub mod RoundTrip
use irl_engine_ax.Prelude.{
  ℕ, ℤ, pos, ltb, ◌==◌, Text, codes, text_eq, Bool, true, false, List, [], ◌∷◌, ◌++◌, Option, none,
  some, Result, ok, err, and_then, map_err, ok_or, guard, if◌then◌else◌, length, take, drop,
}
use irl_engine_ax.Errors.{AppError, encryption, serialization}
use irl_engine_ax.Json.{Json, int, string, object, end, field, get_field, Fields}

-- `seal key nonce plaintext` and `open key nonce ciphertext`; `open` fails on a tag mismatch.
pub record Aead : Type 0 where
  pub seal : List ℕ → List ℕ → List ℕ → Option (List ℕ)
  pub unseal : List ℕ → List ℕ → List ℕ → Option (List ℕ)
  pub base64_encode : List ℕ → Text
  pub base64_decode : Text → Option (List ℕ)

-- `serde_json::to_vec` and `from_slice`.
pub record JsonBytes (F : Type 0) : Type 0 where
  pub to_vec : Json F → Result Text (List ℕ)
  pub from_slice : List ℕ → Result Text (Json F)

-- `KeyProvider`: a data key with its wrapped form and key version, and the unwrapping.
pub record KeyProvider : Type 0 where
  pub generate_dek : Result Text (List ℕ × List ℕ × ℤ)
  pub decrypt_dek : List ℕ → ℤ → Result Text (List ℕ)

pub record EncryptedBlob : Type 0 where
  pub ciphertext : List ℕ
  pub nonce : List ℕ

-- `v == 1` at an i64.
abbrev is_one : ℤ → Bool
is_one (pos n) = n == 1
is_one v = false

module _ (aead : Aead) where
  -- `none` stands for the panic of the assertion on the key's length.
  unfoldable pub encrypt_trace : List ℕ → List ℕ → List ℕ → Option (Result Text EncryptedBlob)
  encrypt_trace nonce plaintext dek =
      if length dek == 32
      then some (
          and_then (ok_or (aead.seal dek nonce plaintext) (codes "AES-GCM encryption failed"))
            (λ ciphertext. ok (record { ciphertext = ciphertext; nonce = nonce })))
      else none

  unfoldable pub decrypt_trace : List ℕ → List ℕ → List ℕ → Option (Result Text (List ℕ))
  decrypt_trace ciphertext nonce dek =
      if length dek == 32
      then some (
          if length nonce == 12
          then ok_or (aead.unseal dek nonce ciphertext)
              (codes "AES-GCM decryption failed: authentication tag mismatch")
          else err (codes "Nonce must be exactly 12 bytes"))
      else none

  module _ {F : Type 0} where
    unfoldable pub wrap_ciphertext_for_jsonb : List ℕ → Json F
    wrap_ciphertext_for_jsonb ciphertext = object (
        field (codes "data") (string (aead.base64_encode ciphertext))
          (field (codes "v") (int (pos 1)) end))

    -- `value.get(k)`
    abbrev get : Text → Json F → Option (Json F)
    get k (object fs) = get_field k fs
    get k v = none

    abbrev as_i64 : Option (Json F) → Option ℤ
    as_i64 (some (int n)) = some n
    as_i64 v = none

    abbrev as_str : Option (Json F) → Option Text
    as_str (some (string s)) = some s
    as_str v = none

    unfoldable pub extract_ciphertext_from_jsonb : Json F → Result Text (List ℕ)
    extract_ciphertext_from_jsonb value =
        and_then (ok_or (as_i64 (get (codes "v") value)) (codes "JSONB wrapper missing 'v' field"))
          λ v. and_then (guard (is_one v) (codes "Unsupported JSONB wrapper version")) λ _.
            and_then
              (ok_or (as_str (get (codes "data") value))
                (codes "JSONB wrapper missing 'data' string field"))
              λ data_str.
                ok_or (aead.base64_decode data_str)
                  (codes "JSONB wrapper 'data' is not valid base64")

-- The encryption columns of a row, as `insert_trace` writes them.
pub record StoredJson (F : Type 0) : Type 0 where
  pub stored_json : Json F
  pub nonce_bytes : Option (List ℕ)
  pub enc_dek_bytes : Option (List ℕ)
  pub key_ver : Option ℤ
  pub enc_version : ℕ

-- A panic ends the request without a result; it is the same failure for every caller.
abbrev pub no_panic : {F A : Type 0} → Option (Result Text A) → Result (AppError F) A
no_panic none = err (encryption (codes "panic: DEK must be exactly 32 bytes for AES-256-GCM"))
no_panic (some r) = map_err encryption r

module _ {F : Type 0} (aead : Aead) (bytes : JsonBytes F) where
  abbrev pub encrypted : KeyProvider → List ℕ → Json F → Result (AppError F) (StoredJson F)
  encrypted kms nonce trace_json =
      and_then (map_err serialization (bytes.to_vec trace_json)) λ plaintext_bytes.
        and_then (map_err encryption kms.generate_dek) λ (dek, enc_dek, kv).
          and_then (no_panic (encrypt_trace aead nonce plaintext_bytes dek)) λ blob. ok (record {
            stored_json = wrap_ciphertext_for_jsonb aead blob.ciphertext;
            nonce_bytes = some blob.nonce;
            enc_dek_bytes = some enc_dek;
            key_ver = some kv;
            enc_version = 1;
          })

  -- The first half of `insert_trace` and of the insertion in `insert_trace_atomic`.
  unfoldable pub encode_trace :
      Option KeyProvider → List ℕ → Json F → Result (AppError F) (StoredJson F)
  encode_trace none nonce trace_json = ok (record {
    stored_json = trace_json;
    nonce_bytes = none;
    enc_dek_bytes = none;
    key_ver = none;
    enc_version = 0;
  })
  encode_trace (some kms) nonce trace_json = encrypted kms nonce trace_json

  -- `key_version.unwrap_or(1)`
  abbrev pub version_or_one : Option ℤ → ℤ
  version_or_one none = pos 1
  version_or_one (some kv) = kv

  -- `db::decrypt_if_needed`
  unfoldable pub decrypt_if_needed :
      StoredJson F → Option KeyProvider → Result (AppError F) (Json F)
  decrypt_if_needed row key_provider =
      if row.enc_version == 0
      then ok row.stored_json
      else if row.enc_version == 1
      then (and_then
          (ok_or key_provider
            (encryption (codes "encryption_version=1 but no key_provider configured")))
          λ kms.
            and_then
              (ok_or row.enc_dek_bytes
                (encryption (codes "encrypted_dek is NULL for encryption_version=1")))
              λ enc_dek.
                and_then
                  (ok_or row.nonce_bytes
                    (encryption (codes "trace_nonce is NULL for encryption_version=1")))
                  λ nonce.
                    and_then
                      (map_err encryption (kms.decrypt_dek enc_dek (version_or_one row.key_ver)))
                      λ dek.
                        and_then
                          (map_err encryption (extract_ciphertext_from_jsonb aead row.stored_json))
                          λ ciphertext.
                            and_then (no_panic (decrypt_trace aead ciphertext nonce dek))
                              λ plaintext. map_err serialization (bytes.from_slice plaintext))
      else err (encryption (codes "unknown encryption_version"))

-- `LocalDevProvider`: the data key encrypted under the wrapping key, as nonce ‖ ciphertext.
pub record LocalDevProvider : Type 0 where
  pub wrapping_key : List ℕ
  pub key_version : ℤ

-- A panic of the assertion is the failure of the call here too.
abbrev pub flat : {A : Type 0} → Option (Result Text A) → Result Text A
flat none = err (codes "panic: DEK must be exactly 32 bytes for AES-256-GCM")
flat (some r) = r

module _ (aead : Aead) where
  unfoldable pub local_generate_dek :
      LocalDevProvider → List ℕ → List ℕ → Result Text (List ℕ × List ℕ × ℤ)
  local_generate_dek p dek_bytes nonce =
      and_then (flat (encrypt_trace aead nonce dek_bytes p.wrapping_key))
        λ blob. ok (dek_bytes, blob.nonce ++ blob.ciphertext, p.key_version)

  unfoldable pub local_decrypt_dek : LocalDevProvider → List ℕ → ℤ → Result Text (List ℕ)
  local_decrypt_dek p encrypted_dek _ =
      if ltb (length encrypted_dek) 12
      then err (codes "LocalDevProvider: encrypted_dek too short to contain nonce")
      else flat (decrypt_trace aead (drop 12 encrypted_dek) (take 12 encrypted_dek) p.wrapping_key)

  -- The provider as the interface sees it, at the key and nonce that it draws next.
  abbrev pub local_provider : LocalDevProvider → List ℕ → List ℕ → KeyProvider
  local_provider p dek_bytes nonce = record {
    generate_dek = local_generate_dek p dek_bytes nonce;
    decrypt_dek = local_decrypt_dek p;
  }
