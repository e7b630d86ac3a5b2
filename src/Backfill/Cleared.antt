-- ===== src/Backfill/Cleared.antt =====
-- A run of the backfill that succeeds leaves no plaintext: the UPDATE of a row, the batch, the loop.
use mathlib.Core.Path.{subst}
use irl_engine_ax.Prelude.{
  ℕ, ℤ, ◌+◌, false, Text, List, [], ◌∷◌, Result, ok, ◌≡◌, refl, sym, ap, ◌⊎◌, inl, inr, arith,
  Bool-cases, All,
}
use irl_engine_ax.Prelude.Effects.{pure, lift, gets, modify, ◌>>=◌, ◌>>◌, between}
use irl_engine_ax.Errors.{AppError}
use irl_engine_ax.Json.{Json}
use irl_engine_ax.Encryption.{Aead, JsonBytes, StoredJson}
use irl_engine_ax.Store.{TraceRow, statement}
use irl_engine_ax.Gdpr.{Draws}
use irl_engine_ax.Gdpr.Rows.{DrawLaws}
use irl_engine_ax.Backfill.{
  KeyedDb, Traffic, Backfilling, on_db, plaintext, to_encrypt, change_traces, encrypt_where,
  affected, encrypted_json, encrypt_one_row, register_key, encrypt_rows,
}
use irl_engine_ax.Backfill.Rows.{Step, Steps, PlainAs, Steps-PlainAs, encrypted-encoded}
use irl_engine_ax.Backfill.Seals.{Seals}
use irl_engine_ax.Backfill.Sealed.{
  Taken, encrypt_one_row-Seals, register_key-Seals, encrypt_rows-Seals,
}

module _ {F : Type 0} where
  -- No row of a trace is in plaintext.
  abbrev pub NoPlain : ℕ → List (TraceRow F) → Type 0
  NoPlain id rows = All (λ x. to_encrypt id x ≡ false) rows

  encrypt_where-NoPlain :
      (id : ℕ) (stored : StoredJson F)
      → stored.enc_version ≡ 1
      → (rows : List (TraceRow F)) → NoPlain id (encrypt_where id stored rows)
  unfolding encrypt_where to_encrypt
  encrypt_where-NoPlain id stored h [] = tt
  encrypt_where-NoPlain id stored h (x ∷ rows) = (
    elim (Bool-cases (to_encrypt id x)) [ inl e ↦ rw e (ground (arith, h)) | inr e ↦ rw e e ],
    encrypt_where-NoPlain id stored h rows,
  )

  -- An action after which, where it succeeds, no row of a trace is in plaintext.
  record Clears {A : Type 0} (id : ℕ) (m : Backfilling F A) : Type 0 where
    at : (s : KeyedDb F) (v : A) (s' : KeyedDb F) → m s ≡ (ok v, s') → NoPlain id s'.db.traces

  module _ {A B : Type 0} (id : ℕ) where
    Clears-after :
        (m : Backfilling F A) (k : A → Backfilling F B)
        → ((a : A) → Clears id (k a))
        → Clears id (m >>= k)
    Clears-after m k h = record {
      at = λ s v s' e. let b = between m k s v s' e in (h b.value).at b.middle v s' b.after;
    }

    Clears-lift :
        (r : Result (AppError F) A) (k : A → Backfilling F B)
        → ((a : A) → r ≡ ok a → Clears id (k a))
        → Clears id (lift r >>= k)
    unfolding lift
    Clears-lift r k h = record {
      at = λ s v s' e.
          let b = between (lift r) k s v s' e in
          (h b.value (ap (λ p. p.0) b.before)).at b.middle v s' b.after;
    }

  Clears-last :
      {A : Type 0} (id : ℕ) (f : KeyedDb F → KeyedDb F) (a : A)
      → ((s : KeyedDb F) → NoPlain id (f s).db.traces)
      → Clears id (modify f >> pure a)
  unfolding ◌>>=◌ modify pure
  Clears-last id f a h = record { at = λ s v s' e. subst (λ p. NoPlain id p.1.db.traces) e (h s) }

module _ {F : Type 0} (aead : Aead) (bytes : JsonBytes F) (draws : Draws) where
  pub Step-kept : (x y : TraceRow F) → Step aead bytes draws x y → (y ≡ x) ⊎ (plaintext y ≡ false)
  Step-kept x y (inl e) = inl e
  Step-kept x y (inr h) = inr (rw h.marked refl)

  Steps-NoPlain :
      (id : ℕ) (a b : List (TraceRow F)) → Steps aead bytes draws a b → NoPlain id a → NoPlain id b
  unfolding to_encrypt
  Steps-NoPlain id [] [] st h = tt
  Steps-NoPlain id [] (y ∷ b) st h = absurd st
  Steps-NoPlain id (x ∷ a) [] st h = absurd st
  Steps-NoPlain id (x ∷ a) (y ∷ b) (st, sts) (h, hs) = (
    elim (Step-kept x y st) [
      | inl e ↦ subst (λ r. to_encrypt id r ≡ false) (sym e) h
      | inr e ↦ ground (arith, e)
    ],
    Steps-NoPlain id a b sts hs,
  )

  module _ (json_of : ℕ → Json F) (laws : DrawLaws aead bytes draws) (traffic : Traffic F)
      (others_seal : (n : ℕ) (rows : List (TraceRow F))
        → Steps aead bytes draws rows (traffic.others n rows))
      (provider_name path : Text) where
    encrypt_one_row-Clears :
        (n : ℕ) (r : TraceRow F)
        → Clears r.trace_id (encrypt_one_row aead bytes draws traffic provider_name path n r)
    unfolding encrypt_one_row
    encrypt_one_row-Clears n r =
        Clears-lift r.trace_id (encrypted_json aead bytes draws n r.trace_json.stored_json) _
          λ a made. Clears-after r.trace_id (modify (change_traces (traffic.others n))) _ λ _.
            Clears-after r.trace_id (on_db statement) _ λ _.
              Clears-after r.trace_id (gets (affected r.trace_id a.1)) _ λ key_version.
                Clears-last r.trace_id (change_traces (encrypt_where r.trace_id a.0)) key_version
                  λ s.
                    encrypt_where-NoPlain r.trace_id a.0
                      (encrypted-encoded aead bytes draws n r.trace_json.stored_json a.0 a.1 made).1
                      s.db.traces

    -- What an action that only encrypts does, where its result is known.
    pub mid-Steps :
        {A : Type 0} (m : Backfilling F A)
        → Seals aead bytes draws json_of m
        → (s : KeyedDb F) → All (PlainAs aead bytes draws json_of) s.db.traces
        → (r : Result (AppError F) A) (s' : KeyedDb F) → m s ≡ (r, s')
        → Steps aead bytes draws s.db.traces s'.db.traces
    mid-Steps m h s p r s' e =
        subst (λ o. Steps aead bytes draws s.db.traces o.1.db.traces) e (h.at s p)

    pub mid-PlainAs :
        {A : Type 0} (m : Backfilling F A)
        → Seals aead bytes draws json_of m
        → (s : KeyedDb F) → All (PlainAs aead bytes draws json_of) s.db.traces
        → (r : Result (AppError F) A) (s' : KeyedDb F) → m s ≡ (r, s')
        → All (PlainAs aead bytes draws json_of) s'.db.traces
    mid-PlainAs m h s p r s' e =
        Steps-PlainAs aead bytes draws json_of s.db.traces s'.db.traces (mid-Steps m h s p r s' e) p

    pub encrypt_rows-NoPlain :
        (rows : List (TraceRow F))
        → All (Taken aead bytes draws json_of) rows
        → (n : ℕ) (registered : List ℤ) (s : KeyedDb F)
        → All (PlainAs aead bytes draws json_of) s.db.traces
        → (v : List ℤ) (s' : KeyedDb F)
        → encrypt_rows aead bytes draws traffic provider_name path rows n registered s ≡ (ok v, s')
        → All (λ r. NoPlain r.trace_id s'.db.traces) rows
    unfolding encrypt_rows
    encrypt_rows-NoPlain [] t n registered s p v s' e = tt
    encrypt_rows-NoPlain (r ∷ rows) (t, ts) n registered s p v s' e =
        let one = encrypt_one_row aead bytes draws traffic provider_name path n r in
        let reg = register_key aead bytes draws traffic provider_name path registered in
        let rest = encrypt_rows aead bytes draws traffic provider_name path rows (n + 1) in
        let b = between (one >>= reg) rest s v s' e in
        let a = between one reg s b.value b.middle b.before in
        let row_seals =
          encrypt_one_row-Seals aead bytes draws json_of laws traffic others_seal provider_name path
            n r t in
        let reg_seals =
          register_key-Seals aead bytes draws json_of laws traffic others_seal provider_name path
            registered a.value in
        let rest_seals =
          encrypt_rows-Seals aead bytes draws json_of laws traffic others_seal provider_name path
            rows ts (n + 1) b.value in
        let p_a = mid-PlainAs one row_seals s p (ok a.value) a.middle a.before in
        let p_b = mid-PlainAs (reg a.value) reg_seals a.middle p_a (ok b.value) b.middle a.after in
        let cleared = (encrypt_one_row-Clears n r).at s a.value a.middle a.before in
        let still =
          Steps-NoPlain r.trace_id a.middle.db.traces b.middle.db.traces
            (mid-Steps (reg a.value) reg_seals a.middle p_a (ok b.value) b.middle a.after)
            cleared in
        (
          Steps-NoPlain r.trace_id b.middle.db.traces s'.db.traces
              (mid-Steps (rest b.value) rest_seals b.middle p_b (ok v) s' b.after) still,
          encrypt_rows-NoPlain rows ts (n + 1) b.value b.middle p_b v s' b.after,
        )
