-- ===== src/Store/Insertion.antt =====
-- `db::insert_trace_atomic`: the transaction that checks an agent's cap and inserts its trace. The
-- advisory lock makes the transactions of one agent run one after another, which is how the
-- model runs them. A transaction that fails before its COMMIT changes no row; where the COMMIT itself
-- fails, the database may have taken it or not.
pub mod Cap
pub mod Atomic
use irl_engine_ax.Prelude.{
  ℕ, Text, codes, Bool, true, false, List, [], ◌∷◌, Option, none, some, Result, ok, err,
  if◌then◌else◌, Action, pure, lift, ◌>>=◌, ◌>>◌,
}
use irl_engine_ax.Platform.{Float64, Externals}
use irl_engine_ax.Errors.{AppError, policy, notional_exceeds_limit}
use irl_engine_ax.Encryption.{KeyProvider}
use irl_engine_ax.Store.{
  Db, TraceRow, Codec, Entry, statement, insert_row, prepare_row, pending_sum,
}

module _ {F : Type 0} where
  abbrev pub rollback : Db F → Db F → Db F
  rollback before after = record after { traces = before.traces; positions = before.positions }

  -- A COMMIT whose answer does not come: whether it took effect is the next of `faults`.
  abbrev pub unsettled : Db F → List Bool → Db F → Db F
  unsettled before [] after = rollback before after
  unsettled before (true ∷ fs) after = record after { faults = fs }
  unsettled before (false ∷ fs) after = record (rollback before after) { faults = fs }

  abbrev pub end_commit :
      {A : Type 0} → Db F → A → Result (AppError F) (Unit {0}) × Db F → Result (AppError F) A × Db F
  end_commit before a (ok u, after) = (ok a, after)
  end_commit before a (err e, after) = (err e, unsettled before after.faults after)

  abbrev pub close :
      {A : Type 0} → Db F → Result (AppError F) A × Db F → Result (AppError F) A × Db F
  close before (ok a, after) = end_commit before a (statement after)
  close before (err e, after) = (err e, rollback before after)

  unfoldable pub transaction :
      {A : Type 0} → Action (Db F) (AppError F) A → Action (Db F) (AppError F) A
  transaction m db = close db ((statement >> m) db)

  unfoldable pub take_lock : Option ℕ → Action (Db F) (AppError F) (Unit {0})
  take_lock none = pure tt
  take_lock (some agent) = statement

module _ {F : Type 0} ⦃fl : Float64 F⦄ where
  -- The comparison inside the lock.
  unfoldable pub within_cap : F → F → F → Text → Result (AppError F) (Unit {0})
  within_cap pending notional cap regime_label =
      if fl.gt (fl.add pending notional) cap
      then err (
          policy (
            notional_exceeds_limit (fl.add pending notional) cap regime_label
              (codes "IrlConstraintPolicy")))
      else ok tt

  unfoldable pub check_portfolio :
      Option ℕ → Option (F × Text) → F → Action (Db F) (AppError F) (Unit {0})
  unfolding within_cap
  check_portfolio (some agent) (some (cap, regime_label)) notional =
      statement >> λ db. (within_cap (pending_sum agent db) notional cap regime_label, db)
  check_portfolio (some agent) none notional = pure tt
  check_portfolio none check notional = pure tt

  -- What runs inside the transaction, at the row that the insertion would write.
  unfoldable pub guarded_insert :
      Option ℕ
      → Option (F × Text)
      → F
      → Result (AppError F) (TraceRow F)
      → Action (Db F) (AppError F) (Unit {0})
  unfolding take_lock check_portfolio
  guarded_insert agent portfolio notional prepared =
      take_lock agent
      >> check_portfolio agent portfolio notional
      >> (lift prepared >>= λ row. statement >> insert_row row)

module _ {F : Type 0} ⦃fl : Float64 F⦄ ⦃ex : Externals⦄ (codec : Codec F) where
  unfoldable pub insert_trace_atomic :
      Option KeyProvider → Option (F × Text) → Entry F → Action (Db F) (AppError F) (Unit {0})
  unfolding transaction guarded_insert
  insert_trace_atomic key_provider portfolio e = transaction (
      guarded_insert e.agent_id portfolio e.snapshot.execution.notional
        (prepare_row codec key_provider e))
