-- ===== src/Encryption/RoundTrip.antt =====
-- What is stored encrypted is read back as it was.
use irl_engine_ax.Prelude.{
  ℕ, ℤ, false, List, some, ok, err, ◌≡◌, sym, ◌++◌, arith, Result-cases, Option-cases, inl, inr,
  length, take, drop, length-append, take-length-append, drop-length-append, ltb,
}
use irl_engine_ax.Json.{Json}
use irl_engine_ax.Encryption.{
  Aead, JsonBytes, KeyProvider, StoredJson, encrypt_trace, decrypt_trace, wrap_ciphertext_for_jsonb,
  extract_ciphertext_from_jsonb, encode_trace, decrypt_if_needed, LocalDevProvider, local_provider,
  local_generate_dek, local_decrypt_dek, EncryptedBlob,
}

-- What the engine relies on in AES-GCM and base64: opening undoes sealing, decoding encoding.
pub record AeadLaws (aead : Aead) : Type 0 where
  pub unseal-seal :
      (key nonce plaintext ciphertext : List ℕ)
      → aead.seal key nonce plaintext ≡ some ciphertext
      → aead.unseal key nonce ciphertext ≡ some plaintext
  pub decode-encode : (b : List ℕ) → aead.base64_decode (aead.base64_encode b) ≡ some b

-- What it relies on in a key provider: unwrapping gives the key back, and keys have 32 bytes.
abbrev pub KeyLaw : KeyProvider → Type 0
KeyLaw kms =
    (dek enc_dek : List ℕ) (kv : ℤ)
    → kms.generate_dek ≡ ok (dek, enc_dek, kv)
    → (kms.decrypt_dek enc_dek kv ≡ ok dek) × (length dek ≡ 32)

module _ (aead : Aead) (laws : AeadLaws aead) where
  encrypt-ok :
      (nonce plaintext dek : List ℕ) (blob : EncryptedBlob)
      → encrypt_trace aead nonce plaintext dek ≡ some (ok blob)
      → (blob.nonce ≡ nonce)
        × (length dek ≡ 32)
        × (aead.seal dek nonce plaintext ≡ some blob.ciphertext)
  unfolding encrypt_trace
  encrypt-ok nonce plaintext dek blob h = ground arith

  decrypt-ok :
      (nonce plaintext dek ciphertext : List ℕ)
      → length dek ≡ 32
      → length nonce ≡ 12
      → aead.unseal dek nonce ciphertext ≡ some plaintext
      → decrypt_trace aead ciphertext nonce dek ≡ some (ok plaintext)
  unfolding decrypt_trace
  decrypt-ok nonce plaintext dek ciphertext h k e = ground arith

  -- Whatever ciphertext is wrapped for the JSONB column is extracted from it again.
  pub extract-wrap :
      (F : Type 0) (ciphertext : List ℕ)
      → extract_ciphertext_from_jsonb aead (wrap_ciphertext_for_jsonb aead {F = F} ciphertext)
        ≡ ok ciphertext
  unfolding extract_ciphertext_from_jsonb wrap_ciphertext_for_jsonb
  extract-wrap F ciphertext = rw (laws.decode-encode ciphertext)

-- What was at hand when a row was written under a provider.
pub record Encoding {F : Type 0} (aead : Aead) (bytes : JsonBytes F) (kms : KeyProvider)
    (nonce : List ℕ) (json : Json F) (row : StoredJson F) : Type 0 where
  pub plain : List ℕ
  pub dek : List ℕ
  pub enc : List ℕ
  pub kv : ℤ
  pub blob : EncryptedBlob
  pub serialized : bytes.to_vec json ≡ ok plain
  pub generated : kms.generate_dek ≡ ok (dek, enc, kv)
  pub sealed : encrypt_trace aead nonce plain dek ≡ some (ok blob)
  pub written : row ≡ record {
    stored_json = wrap_ciphertext_for_jsonb aead blob.ciphertext;
    nonce_bytes = some blob.nonce;
    enc_dek_bytes = some enc;
    key_ver = some kv;
    enc_version = 1;
  }

module _ {F : Type 0} (aead : Aead) (bytes : JsonBytes F) (kms : KeyProvider) where
  encode-Encoding :
      (nonce : List ℕ) (json : Json F) (row : StoredJson F)
      → encode_trace aead bytes (some kms) nonce json ≡ ok row
      → Encoding aead bytes kms nonce json row
  unfolding encode_trace
  encode-Encoding nonce json row h = elim (Result-cases (bytes.to_vec json)) [
    | inr (t, e) ↦ ground arith
    | inl (b, e) ↦ elim (Result-cases kms.generate_dek) [
      | inr (t, f) ↦ ground arith
      | inl ((dek, enc, kv), f) ↦ elim (Option-cases (encrypt_trace aead nonce b dek)) [
        | inl g ↦ ground arith
        | inr (err t, g) ↦ ground arith
        | inr (ok blob, g) ↦ record {
          plain = b;
          dek = dek;
          enc = enc;
          kv = kv;
          blob = blob;
          serialized = e;
          generated = f;
          sealed = g;
          written = ground arith;
        }
      ]
    ]
  ]

  -- A trace that is encoded for storage under a key provider is decrypted to the same JSON value.
  -- The provider unwraps what it wrapped, the nonce has 12 bytes, and the bytes of the value parse
  -- back.
  pub decrypt-encode_trace :
      AeadLaws aead
      → KeyLaw kms
      → (nonce : List ℕ) → length nonce ≡ 12
      → (json : Json F) → ((b : List ℕ) → bytes.to_vec json ≡ ok b → bytes.from_slice b ≡ ok json)
      → (row : StoredJson F) → encode_trace aead bytes (some kms) nonce json ≡ ok row
      → decrypt_if_needed aead bytes row (some kms) ≡ ok json
  unfolding decrypt_if_needed
  decrypt-encode_trace laws key nonce len json parse row h =
      let c = encode-Encoding nonce json row h in
      let (dec, len_dek) = key c.dek c.enc c.kv c.generated in
      let (n, _, s) = encrypt-ok aead laws nonce c.plain c.dek c.blob c.sealed in
      let u = laws.unseal-seal c.dek nonce c.plain c.blob.ciphertext s in
      let d = decrypt-ok aead laws nonce c.plain c.dek c.blob.ciphertext len_dek len u in
      let x = extract-wrap aead laws F c.blob.ciphertext in
      let p = parse c.plain c.serialized in rw (c.written, n, dec, x, d, p)

take_12 : (nonce rest : List ℕ) → length nonce ≡ 12 → take 12 (nonce ++ rest) ≡ nonce
take_12 nonce rest h = rw (sym h, take-length-append nonce rest)

drop_12 : (nonce rest : List ℕ) → length nonce ≡ 12 → drop 12 (nonce ++ rest) ≡ rest
drop_12 nonce rest h = rw (sym h, drop-length-append nonce rest)

-- The wrapped form of a data key is the nonce and then the ciphertext.
local_generate_dek-ok :
    (aead : Aead) (p : LocalDevProvider) (dek_bytes nonce dek enc : List ℕ) (kv : ℤ)
    → local_generate_dek aead p dek_bytes nonce ≡ ok (dek, enc, kv)
    → (blob : EncryptedBlob) × ((encrypt_trace aead nonce dek_bytes p.wrapping_key ≡ some (ok blob))
        × ((dek ≡ dek_bytes) × (enc ≡ blob.nonce ++ blob.ciphertext)))
unfolding local_generate_dek
local_generate_dek-ok aead p d n dek enc kv h =
    elim (Option-cases (encrypt_trace aead n d p.wrapping_key)) [
      | inl g ↦ ground arith
      | inr (err t, g) ↦ ground arith
      | inr (ok blob, g) ↦ (blob, (g, ground arith))
    ]

local_decrypt_dek-ok :
    (aead : Aead)
    → AeadLaws aead
    → (p : LocalDevProvider) (nonce ciphertext dek : List ℕ) (kv : ℤ) → length p.wrapping_key ≡ 32
    → length nonce ≡ 12
    → aead.unseal p.wrapping_key nonce ciphertext ≡ some dek
    → local_decrypt_dek aead p (nonce ++ ciphertext) kv ≡ ok dek
unfolding local_decrypt_dek
local_decrypt_dek-ok aead laws p nonce c dek kv wk ln u =
    let long_enough : ltb (length (nonce ++ c)) 12 ≡ false =
      (let l = length-append nonce c in ground arith) in
    rw (
      long_enough,
      take_12 nonce c ln,
      drop_12 nonce c ln,
      decrypt-ok aead laws nonce dek p.wrapping_key c wk ln u,
    )

-- The local provider unwraps, under any key version, each data key that it wrapped, and the key
-- that it hands out is the one drawn. Its wrapping key has 32 bytes and the nonce 12.
pub local_decrypt_dek-generate :
    (aead : Aead)
    → AeadLaws aead
    → (p : LocalDevProvider) (dek_bytes nonce dek enc : List ℕ) (kv version : ℤ)
    → length p.wrapping_key ≡ 32
    → length nonce ≡ 12
    → local_generate_dek aead p dek_bytes nonce ≡ ok (dek, enc, kv)
    → (local_decrypt_dek aead p enc version ≡ ok dek) × (dek ≡ dek_bytes)
local_decrypt_dek-generate aead laws p d n dek enc kv version wk ln h =
    let (blob, (g, (same, joined))) = local_generate_dek-ok aead p d n dek enc kv h in
    let (nonce, _, s) = encrypt-ok aead laws n d p.wrapping_key blob g in
    let u = laws.unseal-seal p.wrapping_key n d blob.ciphertext s in
    (
      rw (
        joined,
        nonce,
        same,
        local_decrypt_dek-ok aead laws p n blob.ciphertext d version wk ln u,
      ),
      same,
    )

-- So it keeps the law of a key provider, when the drawn keys have 32 bytes.
pub local_provider-KeyLaw :
    (aead : Aead)
    → AeadLaws aead
    → (p : LocalDevProvider) (dek_bytes nonce : List ℕ) → length p.wrapping_key ≡ 32
    → length dek_bytes ≡ 32
    → length nonce ≡ 12
    → KeyLaw (local_provider aead p dek_bytes nonce)
local_provider-KeyLaw aead laws p d n wk ld ln dek enc kv h =
    let (a, b) = local_decrypt_dek-generate aead laws p d n dek enc kv kv wk ln h in (a, rw (b, ld))
