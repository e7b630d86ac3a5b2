-- ===== src/Store/Ledger.antt =====
-- The statements of src/db.rs that read a trace and that bind it, the position ledger, and the
-- expiry sweep of src/verifier.rs.
pub mod Expiry
pub mod Overlay
use irl_engine_ax.Prelude.{
  ℕ, ℤ, ◌==◌, ◌&&◌, ◌+◌, ◌*◌, ◌/◌, not, Text, codes, text_eq, Bool, true, false, List, [], ◌∷◌,
  Option, none, some, Result, ok, err, ok_or, and_then, if◌then◌else◌, find, any, update_where,
  count_where, Action, lift, ◌>>=◌, ◌>>◌, pos, ltb_ℤ, ◌-ℤ◌,
}
use irl_engine_ax.Platform.{Float64, Externals, zero, one}
use irl_engine_ax.Errors.{AppError, trace_not_found}
use irl_engine_ax.Binding.{BindExecutionRequest, BindExecutionResult, verification_status_text}
use irl_engine_ax.Json.{Json, Fields, object, string, null, get_field, insert_field, field, end}
use irl_engine_ax.Encryption.{KeyProvider, decrypt_if_needed}
use irl_engine_ax.Store.{Db, TraceRow, Position, Codec, statement, column_opt}

-- `get_intent_for_binding`'s tuple.
pub record Intent (F : Type 0) : Type 0 where
  pub reasoning_hash : Text
  pub asset : Text
  pub action : Text
  pub quantity : F
  pub verification_status : Text
  pub agent_id : Option ℕ
  pub venue_id : Text
  pub notional_currency : Text
  pub multiplier : F

abbrev pub or_default {ℓ} : {A : Type ℓ} → Option A → A → A
or_default none d = d
or_default (some a) d = a

abbrev pub has_id : {F : Type 0} → ℕ → TraceRow F → Bool
has_id trace_id row = row.trace_id == trace_id

module _ {F : Type 0} ⦃fl : Float64 F⦄ where
  unfoldable pub intent_of : TraceRow F → Intent F
  intent_of row = record {
    reasoning_hash = row.reasoning_hash;
    asset = row.execution_asset;
    action = row.execution_action;
    quantity = row.execution_quantity;
    verification_status = row.verification_status;
    agent_id = row.agent_id;
    venue_id = or_default row.execution_venue_id (codes "UNKNOWN");
    notional_currency = or_default row.execution_notional_currency (codes "USD");
    multiplier = or_default row.execution_multiplier one;
  }

  abbrev pub read_intent : Text → Option (TraceRow F) → Result (AppError F) (Intent F)
  read_intent id none = err (trace_not_found id)
  read_intent id (some row) = ok (intent_of row)

  unfoldable pub get_intent_for_binding :
      ⦃ex : Externals⦄ → ℕ → Action (Db F) (AppError F) (Intent F)
  unfolding intent_of
  get_intent_for_binding ⦃ex⦄ trace_id = statement >> λ db.
      (read_intent (ex.uuid_text trace_id) (find (has_id trace_id) db.traces), db)

  -- The columns that `update_binding` sets.
  unfoldable pub bound_row : BindExecutionResult → BindExecutionRequest F → TraceRow F → TraceRow F
  bound_row result req row = record row {
    exchange_tx_id = some req.exchange_tx_id;
    verification_status = verification_status_text result.verification_status;
    execution_status = some result.execution_status;
    execution_price = column_opt req.execution_price;
    execution_time = some result.execution_time;
    final_proof = some result.final_proof;
  }

  unfoldable pub update_binding :
      BindExecutionResult → BindExecutionRequest F → Action (Db F) (AppError F) (Unit {0})
  unfolding bound_row
  update_binding result req = statement >> λ db. (
    ok tt,
    record db { traces = update_where (has_id result.trace_id) (bound_row result req) db.traces },
  )

-- The fill that `upsert_position` records. `div` is the division of NUMERIC columns.
pub record Fill (F : Type 0) : Type 0 where
  pub agent_id : ℕ
  pub asset : Text
  pub venue_id : Text
  pub currency : Text
  pub quantity_delta : F
  pub fill_price : Option F
  pub multiplier : F
  pub trace_id : ℕ

module _ {F : Type 0} ⦃fl : Float64 F⦄ (div : F → F → F) where
  abbrev pub same_position : Fill F → Position F → Bool
  same_position fill p =
      p.agent_id == fill.agent_id
      && text_eq p.asset fill.asset
      && text_eq p.venue_id fill.venue_id
      && text_eq p.currency fill.currency

  unfoldable pub fill_notional : Fill F → F
  fill_notional fill = elim fill.fill_price [
    | none ↦ zero
    | some p ↦ fl.mul (fl.mul (fl.abs fill.quantity_delta) p) fill.multiplier
  ]

  -- The CASE expression of the UPDATE.
  unfoldable pub average_after : Fill F → Position F → Option F
  average_after fill p = elim fill.fill_price [
    | none ↦ p.average_price
    | some price ↦
        let quantity = fl.add p.net_quantity fill.quantity_delta in
        if fl.eq quantity zero
        then p.average_price
        else some (
            div
              (fl.add (fl.mul (or_default p.average_price zero) (fl.abs p.net_quantity))
                (fl.mul price (fl.abs fill.quantity_delta)))
              (fl.abs quantity))
  ]

  unfoldable pub first_position : Fill F → Position F
  unfolding fill_notional
  first_position fill = record {
    agent_id = fill.agent_id;
    asset = fill.asset;
    venue_id = fill.venue_id;
    currency = fill.currency;
    net_quantity = fill.quantity_delta;
    notional = fill_notional fill;
    average_price = if fl.eq fill.quantity_delta zero then none else fill.fill_price;
    multiplier = fill.multiplier;
    last_trace_id = fill.trace_id;
  }

  unfoldable pub next_position : Fill F → Position F → Position F
  unfolding fill_notional average_after
  next_position fill p = record p {
    net_quantity = fl.add p.net_quantity fill.quantity_delta;
    notional = fl.add p.notional (fill_notional fill);
    average_price = average_after fill p;
    multiplier = fill.multiplier;
    last_trace_id = fill.trace_id;
  }

  unfoldable pub upsert_position : Fill F → Action (Db F) (AppError F) (Unit {0})
  unfolding first_position next_position
  upsert_position fill = statement >> λ db. (
    ok tt,
    record db {
      positions =
          if any (same_position fill) db.positions
          then update_where (same_position fill) (next_position fill) db.positions
          else first_position fill ∷ db.positions;
    },
  )
