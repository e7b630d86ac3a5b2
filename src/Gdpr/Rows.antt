-- ===== src/Gdpr/Rows.antt =====
-- What one erasure does to a row, and to a table whose rows have different keys.
use mathlib.Core.Path.{subst}
use irl_engine_ax.Prelude.{
  ℕ, ℤ, Bool, true, false, List, [], ◌∷◌, Option, none, some, Result, ok, and_then, if◌then◌else◌,
  ◌≡◌, refl, sym, ap, ◌∙◌, ◌⊎◌, inl, inr, arith, Bool-cases, Result-cases, length, All, Pairwise,
  update_where, ok-injective, ◌==◌, ◌&&◌,
}
use irl_engine_ax.Errors.{AppError}
use irl_engine_ax.Json.{Json}
use irl_engine_ax.Encryption.{Aead, JsonBytes, StoredJson, decrypt_if_needed}
use irl_engine_ax.Encryption.RoundTrip.{AeadLaws, KeyLaw, decrypt-encode_trace}
use irl_engine_ax.Store.{TraceRow, same_time}
use irl_engine_ax.Gdpr.{
  Draws, provider, null_pii_fields, decrypt_trace_json, erased_json, erased_row, of_agent, same_key,
}
use irl_engine_ax.Gdpr.Nulling.{null_pii_fields_twice}

-- What the erasure relies on: the laws of encryption, a provider that unwraps what it wrapped, nonces
-- of 12 bytes, and JSON that parses back from its bytes.
pub record DrawLaws {F : Type 0} (aead : Aead) (bytes : JsonBytes F) (draws : Draws) : Type 0 where
  pub aead_laws : AeadLaws aead
  pub key_law : (n : ℕ) → KeyLaw (provider draws n)
  pub nonce_12 : (n : ℕ) → length (draws.fresh_nonce n) ≡ 12
  pub parses :
      (json : Json F) (b : List ℕ) → bytes.to_vec json ≡ ok b → bytes.from_slice b ≡ ok json

abbrev pub owned : ℕ → Option ℕ → Bool
owned agent o = elim o [ none ↦ false | some a ↦ a == agent ]

module _ {F : Type 0} (aead : Aead) (bytes : JsonBytes F) (draws : Draws) where
  -- A row's JSON reads back with the personal fields nulled.
  pub erased-reads :
      DrawLaws aead bytes draws
      → (n : ℕ) (stored new : StoredJson F) → erased_json aead bytes draws n stored ≡ ok new
      → (json : Json F) × (decrypt_trace_json aead bytes draws stored ≡ ok json)
        × (decrypt_trace_json aead bytes draws new ≡ ok (null_pii_fields json))
  unfolding erased_json decrypt_trace_json decrypt_if_needed
  erased-reads laws n stored new h =
      elim (Result-cases (decrypt_trace_json aead bytes draws stored)) [
        | inr (e, x) ↦ ground (arith, rw x at h)
        | inl (json, x) ↦ (
          json,
          x,
          decrypt-encode_trace aead bytes (provider draws n) laws.aead_laws (laws.key_law n)
              (draws.fresh_nonce n) (laws.nonce_12 n) (null_pii_fields json)
              (laws.parses (null_pii_fields json)) new (rw x at h),
        )
      ]

  module _ (now : ℤ) (request : ℕ) where
    -- A row before and after: its JSON reads as before with the personal fields nulled, it carries
    -- the time and the request, and no other column changed.
    pub record Erased (old new : TraceRow F) : Type 0 where
      pub json : Json F
      pub was : decrypt_trace_json aead bytes draws old.trace_json ≡ ok json
      pub reads : decrypt_trace_json aead bytes draws new.trace_json ≡ ok (null_pii_fields json)
      pub only : new ≡ erased_row now request new.trace_json old

    abbrev pub Step : ℕ → TraceRow F → TraceRow F → Type 0
    Step agent old new = (new ≡ old) ⊎ ((of_agent agent old ≡ true) × Erased old new)

    Erased-trans : (a b c : TraceRow F) → Erased a b → Erased b c → Erased a c
    Erased-trans a b c h k =
        let same = ok-injective (sym h.reads ∙ k.was) in
        record {
          json = h.json;
          was = h.was;
          reads = k.reads ∙ ap ok (ap null_pii_fields (sym same) ∙ null_pii_fields_twice h.json);
          only = k.only ∙ ap (λ r. erased_row now request c.trace_json r) h.only;
        }

    -- What of a row's JSON an erasure leaves.
    abbrev pub viewed : TraceRow F → Result (AppError F) (Json F)
    viewed row =
        and_then (decrypt_trace_json aead bytes draws row.trace_json) (λ j. ok (null_pii_fields j))

    -- A row that has the key of a row to be erased is that row, as far as an erasure sees.
    abbrev pub Good : ℕ → TraceRow F → TraceRow F → Type 0
    Good agent r x = same_key r x ≡ true → (viewed x ≡ viewed r) × (of_agent agent x ≡ true)

    viewed-ok :
        (row : TraceRow F) (json : Json F)
        → viewed row ≡ ok (null_pii_fields json)
        → (j : Json F) × (decrypt_trace_json aead bytes draws row.trace_json ≡ ok j)
          × (null_pii_fields j ≡ null_pii_fields json)
    viewed-ok row json h =
        elim (Result-cases (decrypt_trace_json aead bytes draws row.trace_json)) [
          | inl (j, e) ↦ (j, e, ok-injective (rw e at h))
          | inr (x, e) ↦ ground (arith, rw e at h)
        ]

    pub write-Step :
        DrawLaws aead bytes draws
        → (agent n : ℕ) (r : TraceRow F) (new : StoredJson F)
        → erased_json aead bytes draws n r.trace_json ≡ ok new
        → (x : TraceRow F) → Good agent r x
        → Step agent x (if same_key r x then erased_row now request new x else x)
    write-Step laws agent n r new h x good = elim (Bool-cases (same_key r x)) [
      | inr e ↦ rw e (inl refl)
      | inl e ↦
          (let (view, mine) = good e in
            let (j, was, reads) = erased-reads laws n r.trace_json new h in
            let (jx, was_x, same) = viewed-ok x j (view ∙ rw was) in
            rw e (
              inr (
                mine,
                record { json = jx; was = was_x; reads = reads ∙ ap ok (sym same); only = refl },
              )))
    ]

    pub Step-viewed : (agent : ℕ) (x y : TraceRow F) → Step agent x y → viewed y ≡ viewed x
    Step-viewed agent x y (inl e) = ap viewed e
    Step-viewed agent x y (inr (mine, h)) =
        let a = ap (λ r. and_then r (λ j. ok (null_pii_fields j))) h.reads in
        let b = ap (λ r. and_then r (λ j. ok (null_pii_fields j))) h.was in
        a ∙ ap ok (null_pii_fields_twice h.json) ∙ sym b

    -- The columns by which rows are found.
    abbrev pub key : TraceRow F → ℕ × ℤ × Option ℕ
    key x = (x.trace_id, x.txn_time, x.agent_id)

    pub Step-key : (agent : ℕ) (x y : TraceRow F) → Step agent x y → key y ≡ key x
    Step-key agent x y (inl e) = ap key e
    Step-key agent x y (inr (mine, h)) = ap key h.only

    pub Step-Good :
        (agent : ℕ) (r x y : TraceRow F) → Step agent x y → Good agent r x → Good agent r y
    Step-Good agent r x y st good e =
        let k = Step-key agent x y st in
        let found = ap (λ c. c.0 == r.trace_id && same_time c.1 r.txn_time) k in
        let owner = ap (λ c. owned agent c.2) k in
        let (v, mine) = good (sym found ∙ e) in (Step-viewed agent x y st ∙ v, owner ∙ mine)

    pub Step-trans :
        (agent : ℕ) (x y z : TraceRow F) → Step agent x y → Step agent y z → Step agent x z
    Step-trans agent x y z (inl e) st = subst (λ r. Step agent r z) e st
    Step-trans agent x y z (inr (mine, h)) (inl e) = rw e (inr (mine, h))
    Step-trans agent x y z (inr (mine, h)) (inr (mine', k)) = inr (mine, Erased-trans x y z h k)

    module _ (agent : ℕ) where
      pub all_refl : (rows : List (TraceRow F)) → Pairwise (Step agent) rows rows
      all_refl [] = tt
      all_refl (x ∷ rows) = (inl refl, all_refl rows)

      pub all_trans :
          (a b c : List (TraceRow F))
          → Pairwise (Step agent) a b
          → Pairwise (Step agent) b c
          → Pairwise (Step agent) a c
      all_trans [] [] [] h k = tt
      all_trans [] [] (z ∷ c) h k = k
      all_trans [] (y ∷ b) c h k = absurd h
      all_trans (x ∷ a) [] c h k = absurd h
      all_trans (x ∷ a) (y ∷ b) [] h k = k
      all_trans (x ∷ a) (y ∷ b) (z ∷ c) (h, hs) (k, ks) =
          (Step-trans agent x y z h k, all_trans a b c hs ks)

      pub All-Good :
          (r : TraceRow F) (a b : List (TraceRow F))
          → Pairwise (Step agent) a b
          → All (Good agent r) a
          → All (Good agent r) b
      All-Good r [] [] h g = tt
      All-Good r [] (y ∷ b) h g = absurd h
      All-Good r (x ∷ a) [] h g = absurd h
      All-Good r (x ∷ a) (y ∷ b) (h, hs) (g, gs) = (Step-Good agent r x y h g, All-Good r a b hs gs)

      pub All-write :
          DrawLaws aead bytes draws
          → (n : ℕ) (r : TraceRow F) (new : StoredJson F)
          → erased_json aead bytes draws n r.trace_json ≡ ok new
          → (rows : List (TraceRow F)) → All (Good agent r) rows
          → Pairwise (Step agent) rows (update_where (same_key r) (erased_row now request new) rows)
      All-write laws n r new h [] g = tt
      All-write laws n r new h (x ∷ rows) (g, gs) =
          (write-Step laws agent n r new h x g, All-write laws n r new h rows gs)
