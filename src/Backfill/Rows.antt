-- ===== src/Backfill/Rows.antt =====
-- What the backfill may do to a row, and to a table in which a trace has one plaintext.
use mathlib.Core.Path.{subst}
use irl_engine_ax.Prelude.{
  ℕ, ℤ, List, [], ◌∷◌, some, ok, err, if◌then◌else◌, ◌≡◌, refl, sym, ap, ◌∙◌, ◌⊎◌, inl, inr, arith,
  Bool-cases, Result-cases, Option-cases, All, Pairwise, ◌==◌, ==_iff,
}
use irl_engine_ax.Json.{Json}
use irl_engine_ax.Encryption.{
  Aead, JsonBytes, StoredJson, decrypt_if_needed, encode_trace, encrypt_trace,
}
use irl_engine_ax.Encryption.RoundTrip.{decrypt-encode_trace}
use irl_engine_ax.Store.{TraceRow}
use irl_engine_ax.Gdpr.{Draws, provider, decrypt_trace_json}
use irl_engine_ax.Gdpr.Rows.{DrawLaws}
use irl_engine_ax.Backfill.{encrypted_json, to_encrypt, with_stored, encrypt_where}

module _ {F : Type 0} (aead : Aead) (bytes : JsonBytes F) (draws : Draws) where
  pub encrypted-encoded :
      (n : ℕ) (json : Json F) (stored : StoredJson F) (kv : ℤ)
      → encrypted_json aead bytes draws n json ≡ ok (stored, kv)
      → (encode_trace aead bytes (some (provider draws n)) (draws.fresh_nonce n) json ≡ ok stored)
        × (stored.enc_version ≡ 1)
  unfolding encrypted_json encode_trace
  encrypted-encoded n json stored kv h = elim (Result-cases (draws.fresh_dek n)) [
    | inr (t, e) ↦ ground arith
    | inl ((dek, enc, v), e) ↦ elim (Result-cases (bytes.to_vec json)) [
      | inr (t, f) ↦ ground arith
      | inl (b, f) ↦ elim (Option-cases (encrypt_trace aead (draws.fresh_nonce n) b dek)) [
        | inl g ↦ ground arith
        | inr (err t, g) ↦ ground arith
        | inr (ok blob, g) ↦ ground arith
      ]
    ]
  ]

  -- A plaintext row that was encrypted: it reads as it did, is marked, and differs in nothing else.
  pub record Encrypted (old new : TraceRow F) : Type 0 where
    pub was_plain : old.trace_json.enc_version ≡ 0
    pub reads : decrypt_trace_json aead bytes draws new.trace_json ≡ ok old.trace_json.stored_json
    pub marked : new.trace_json.enc_version ≡ 1
    pub only : new ≡ with_stored new.trace_json old

  abbrev pub Step : TraceRow F → TraceRow F → Type 0
  Step old new = (new ≡ old) ⊎ Encrypted old new

  abbrev pub Steps : List (TraceRow F) → List (TraceRow F) → Type 0
  Steps a b = Pairwise Step a b

  Step-trans : (x y z : TraceRow F) → Step x y → Step y z → Step x z
  Step-trans x y z (inl e) st = subst (λ r. Step r z) e st
  Step-trans x y z (inr h) (inl e) = rw e (inr h)
  Step-trans x y z (inr h) (inr k) = absurd (omega (arith, h.marked, k.was_plain))

  pub Steps-refl : (rows : List (TraceRow F)) → Steps rows rows
  Steps-refl [] = tt
  Steps-refl (x ∷ rows) = (inl refl, Steps-refl rows)

  pub Steps-trans : (a b c : List (TraceRow F)) → Steps a b → Steps b c → Steps a c
  Steps-trans [] [] [] h k = tt
  Steps-trans [] [] (z ∷ c) h k = k
  Steps-trans [] (y ∷ b) c h k = absurd h
  Steps-trans (x ∷ a) [] c h k = absurd h
  Steps-trans (x ∷ a) (y ∷ b) [] h k = k
  Steps-trans (x ∷ a) (y ∷ b) (z ∷ c) (h, hs) (k, ks) =
      (Step-trans x y z h k, Steps-trans a b c hs ks)

  module _ (json_of : ℕ → Json F) where
    -- The plaintext of a row is the one of its trace.
    abbrev pub PlainAs : TraceRow F → Type 0
    PlainAs x = x.trace_json.enc_version ≡ 0 → x.trace_json.stored_json ≡ json_of x.trace_id

    Step-PlainAs : (x y : TraceRow F) → Step x y → PlainAs x → PlainAs y
    Step-PlainAs x y (inl e) p = subst PlainAs (sym e) p
    Step-PlainAs x y (inr h) p = λ z. absurd (omega (arith, h.marked, z))

    pub Steps-PlainAs : (a b : List (TraceRow F)) → Steps a b → All PlainAs a → All PlainAs b
    Steps-PlainAs [] [] h p = tt
    Steps-PlainAs [] (y ∷ b) h p = absurd h
    Steps-PlainAs (x ∷ a) [] h p = absurd h
    Steps-PlainAs (x ∷ a) (y ∷ b) (h, hs) (p, ps) = (Step-PlainAs x y h p, Steps-PlainAs a b hs ps)

    module _ (laws : DrawLaws aead bytes draws) (n : ℕ) (r : TraceRow F) (stored : StoredJson F)
        (kv : ℤ)
        (made : encrypted_json aead bytes draws n r.trace_json.stored_json ≡ ok (stored, kv))
        (plain : r.trace_json.stored_json ≡ json_of r.trace_id) where
      stored-reads : decrypt_trace_json aead bytes draws stored ≡ ok (json_of r.trace_id)
      unfolding decrypt_trace_json decrypt_if_needed
      stored-reads =
          let json = r.trace_json.stored_json in
          decrypt-encode_trace aead bytes (provider draws n) laws.aead_laws (laws.key_law n)
            (draws.fresh_nonce n) (laws.nonce_12 n) json (laws.parses json) stored
            (encrypted-encoded n json stored kv made).0
          ∙ ap ok plain

      write-Step :
          (x : TraceRow F)
          → PlainAs x
          → Step x (if to_encrypt r.trace_id x then with_stored stored x else x)
      unfolding to_encrypt
      write-Step x p = elim (Bool-cases (x.trace_id == r.trace_id)) [
        | inr e ↦ rw e (inl refl)
        | inl e ↦ elim (Bool-cases (x.trace_json.enc_version == 0)) [
          | inr f ↦ rw (e, f) (inl refl)
          | inl f ↦
              rw (e, f)
                (inr (
                  let zero_version = (==_iff _ _).0 f in
                  let id = (==_iff _ _).0 e in
                  record {
                    was_plain = zero_version;
                    reads = stored-reads ∙ ap ok (sym (p zero_version ∙ ap json_of id));
                    marked = (encrypted-encoded n r.trace_json.stored_json stored kv made).1;
                    only = refl;
                  }))
        ]
      ]

      pub encrypt_where-Steps :
          (rows : List (TraceRow F))
          → All PlainAs rows
          → Steps rows (encrypt_where r.trace_id stored rows)
      unfolding encrypt_where
      encrypt_where-Steps [] p = tt
      encrypt_where-Steps (x ∷ rows) (p, ps) = (write-Step x p, encrypt_where-Steps rows ps)
