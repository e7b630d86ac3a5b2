-- ===== src/Authorize/Halt.antt =====
-- What a refused order leaves behind.
use irl_engine_ax.Prelude.{select, Result, ◌≡◌, codes, ◌∷◌, err}
use irl_engine_ax.Platform.{Float64, Externals}
use irl_engine_ax.Errors.{AppError}
use irl_engine_ax.Snapshot.{AuthorizeRequest}
use irl_engine_ax.Config.{Config}
use irl_engine_ax.Store.{TraceRow, pending_of}
use irl_engine_ax.Authorize.{World, Inputs, Services, AuthorizeResponse}

module _ {F : Type 0} ⦃fl : Float64 F⦄ ⦃ex : Externals⦄ (cfg : Config F) (services : Services F)
    (inp : Inputs F) (req : AuthorizeRequest F) where
  -- What a refused request leaves: its row before the others, HALTED, and first among the rows that
  -- the agent's next cap check adds up.
  abbrev pub Halted :
      AppError F → World F → TraceRow F → Result (AppError F) AuthorizeResponse × World F → Type 0
  Halted e w row out =
      (out.0 ≡ err e)
      × (out.1.db.traces ≡ row ∷ w.db.traces)
      × (row.policy_result ≡ codes "HALTED")
      × (select (pending_of req.agent_id) out.1.db.traces
          ≡ row ∷ select (pending_of req.agent_id) w.db.traces)
