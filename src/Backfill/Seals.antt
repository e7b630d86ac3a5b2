-- ===== src/Backfill/Seals.antt =====
-- Actions that only encrypt rows, with a rule for each combinator.
use irl_engine_ax.Prelude.{
  ℕ, Bool, true, false, List, [], ◌∷◌, Result, ok, err, ◌≡◌, refl, All, continue,
}
use irl_engine_ax.Prelude.Effects.{pure, lift, gets, modify, ◌>>=◌}
use irl_engine_ax.Errors.{AppError}
use irl_engine_ax.Json.{Json}
use irl_engine_ax.Encryption.{Aead, JsonBytes}
use irl_engine_ax.Store.{Db, statement, take_fault}
use irl_engine_ax.Gdpr.{Draws}
use irl_engine_ax.Backfill.{KeyedDb, Backfilling, on_db}
use irl_engine_ax.Backfill.Rows.{Steps, Steps-refl, Steps-trans, PlainAs, Steps-PlainAs}

module _ {F : Type 0} (aead : Aead) (bytes : JsonBytes F) (draws : Draws)
    (json_of : ℕ → Json F) where
  -- An action that only encrypts rows, at a table where a trace has one plaintext.
  pub record Seals {A : Type 0} (m : Backfilling F A) : Type 0 where
    pub at :
        (s : KeyedDb F)
        → All (PlainAs aead bytes draws json_of) s.db.traces
        → Steps aead bytes draws s.db.traces (m s).1.db.traces

  pub Seals-pure : {A : Type 0} (a : A) → Seals (pure a)
  unfolding pure
  Seals-pure a = record { at = λ s p. Steps-refl aead bytes draws s.db.traces }

  pub Seals-gets : {A : Type 0} (f : KeyedDb F → A) → Seals (gets f)
  unfolding gets
  Seals-gets f = record { at = λ s p. Steps-refl aead bytes draws s.db.traces }

  pub Seals-modify :
      (f : KeyedDb F → KeyedDb F)
      → ((s : KeyedDb F)
          → All (PlainAs aead bytes draws json_of) s.db.traces
          → Steps aead bytes draws s.db.traces (f s).db.traces)
      → Seals (modify f)
  unfolding modify
  Seals-modify f h = record { at = h }

  take_fault-Steps :
      (fs : List Bool) (db : Db F) → Steps aead bytes draws db.traces (take_fault fs db).1.traces
  take_fault-Steps [] db = Steps-refl aead bytes draws db.traces
  take_fault-Steps (true ∷ fs) db = Steps-refl aead bytes draws db.traces
  take_fault-Steps (false ∷ fs) db = Steps-refl aead bytes draws db.traces

  pub Seals-statement : Seals (on_db statement)
  unfolding statement
  Seals-statement = record { at = λ s p. take_fault-Steps s.db.faults s.db }

  pub Seals-continue :
      {A B : Type 0} (r : Result (AppError F) A) (f : A → Backfilling F B)
      → ((a : A) → Seals (f a))
      → (s : KeyedDb F) → All (PlainAs aead bytes draws json_of) s.db.traces
      → Steps aead bytes draws s.db.traces (continue r f s).1.db.traces
  Seals-continue (ok a) f h s p = (h a).at s p
  Seals-continue (err e) f h s p = Steps-refl aead bytes draws s.db.traces

  pub Seals-bind :
      {A B : Type 0} (m : Backfilling F A) (f : A → Backfilling F B)
      → Seals m
      → ((a : A) → Seals (f a))
      → Seals (m >>= f)
  unfolding ◌>>=◌
  Seals-bind m f h k = record {
    at = λ s p.
        let mid = (m s).1 in
        let st = h.at s p in
        Steps-trans aead bytes draws s.db.traces mid.db.traces (continue (m s).0 f mid).1.db.traces
          st
          (Seals-continue (m s).0 f k mid
            (Steps-PlainAs aead bytes draws json_of s.db.traces mid.db.traces st p));
  }

  -- What is read of a table with one plaintext for a trace may be relied on.
  pub Seals-gets-bind :
      {A B : Type 0} (f : KeyedDb F → A) (k : A → Backfilling F B)
      → ((s : KeyedDb F) → All (PlainAs aead bytes draws json_of) s.db.traces → Seals (k (f s)))
      → Seals (gets f >>= k)
  unfolding ◌>>=◌ gets
  Seals-gets-bind f k h = record { at = λ s p. (h s p).at s p }

  lift-continue :
      {A B : Type 0} (r q : Result (AppError F) A) (k : A → Backfilling F B)
      → ((a : A) → r ≡ ok a → Seals (k a))
      → r ≡ q
      → (s : KeyedDb F) → All (PlainAs aead bytes draws json_of) s.db.traces
      → Steps aead bytes draws s.db.traces (continue q k s).1.db.traces
  lift-continue r (ok a) k h e s p = (h a e).at s p
  lift-continue r (err x) k h e s p = Steps-refl aead bytes draws s.db.traces

  pub Seals-lift-bind :
      {A B : Type 0} (r : Result (AppError F) A) (k : A → Backfilling F B)
      → ((a : A) → r ≡ ok a → Seals (k a))
      → Seals (lift r >>= k)
  unfolding ◌>>=◌ lift
  Seals-lift-bind r k h = record { at = lift-continue r r k h refl }
