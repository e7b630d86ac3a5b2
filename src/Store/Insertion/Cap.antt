-- ===== src/Store/Insertion/Cap.antt =====
-- An insertion under a cap in a database that runs every statement.
use irl_engine_ax.Prelude.{ℕ, ◌≡◌, Bool, false, List, ◌∷◌, Result, ok}
use irl_engine_ax.Platform.{Float64}
use irl_engine_ax.Errors.{AppError}
use irl_engine_ax.Store.{Db, TraceRow, pending_sum}

module _ {F : Type 0} ⦃fl : Float64 F⦄ where
  -- What an insertion under a cap wrote, and what it compared.
  abbrev pub Admitted : ℕ → F → F → Result (AppError F) (TraceRow F) → Db F → Db F → Type 0
  Admitted agent limit notional prepared db db' =
      (row : TraceRow F) × ((prepared ≡ ok row)
        × ((db'.traces ≡ row ∷ db.traces)
            × (fl.gt (fl.add (pending_sum agent db) notional) limit ≡ false)))

  abbrev quiet : Db F → List Bool → Db F
  quiet db faults = record { traces = db.traces; positions = db.positions; faults = faults }
