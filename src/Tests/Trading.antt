-- ===== src/Tests/Trading.antt =====
-- Authorizing, binding and expiring at concrete requests.
use irl_engine_ax.Prelude.{
  ◌-ℤ◌, ◌*◌, List, trim, ◌+ℤ◌, ◌*ℤ◌, ℤ, pos, Text, codes, Bool, true, false, [], ◌∷◌, none, some,
  Result, ok, ◌≡◌, refl, Pairwise, if◌then◌else◌, as_bytes, eq_ignore_ascii_case,
}
use irl_engine_ax.Errors.{AppError, policy, regime_violation}
use irl_engine_ax.Json.{null}
use irl_engine_ax.Snapshot.{long, short, direction, action_text}
use irl_engine_ax.Seal.{verify_bitemporal, seal, canonicalize_json}
use irl_engine_ax.Config.{now_ms}
use irl_engine_ax.Registry.{authorize_agent, fetch_profile, check_profile}
use irl_engine_ax.Policy.{
  enforce, check_constraints, action_side, policy_id_const, policy_version_const,
}
use irl_engine_ax.Encryption.{encode_trace}
use irl_engine_ax.Binding.{
  verification_status_text, BindExecutionResult, reconcile, asset_check, side_check, quantity_check,
  resolve_direction,
}
use irl_engine_ax.Asset.{assets_match}
use irl_engine_ax.Store.{statement, insert_row, Db, TraceRow, Entry, prepare_row, row_of}
use irl_engine_ax.Store.Insertion.{
  insert_trace_atomic, transaction, guarded_insert, take_lock, check_portfolio, within_cap,
}
use irl_engine_ax.Store.Insertion.Atomic.{insert_trace_atomic-Atomic, Atomic}
use irl_engine_ax.Store.Ledger.Expiry.{expire_pending, expire_pending-Swept, Swept}
use irl_engine_ax.Authorize.{
  AuthorizeResponse, Cleared, authorize, clear, decide, refuse, with_heartbeat, with_drift,
  with_anchor, with_reference, with_model, with_profile, check_heartbeat, intent_of, with_quantity,
  commit_trace, entry_of, evaluated, snapshot_of,
}
use irl_engine_ax.Authorize.Decision.{authorize-ok, Authorized}
use irl_engine_ax.Bind.{bind_execution, bind_intent, move_position, reconciled}
use irl_engine_ax.Bind
use irl_engine_ax.Store.Ledger
use irl_engine_ax.Store.Ledger.{get_intent_for_binding, update_binding, upsert_position}
use irl_engine_ax.Bind.Once.{BindEvent, run_events, Refused, bind_execution-once}
use irl_engine_ax.Bind.Race.{bind_intent-both, BothBound}
use irl_engine_ax.Binding.Verdict.{reconcile-matched_iff, Verdict}
use irl_engine_ax.Tests.Fixtures.{
  whole, outside, layer1, test_services, test_inputs, test_world, test_codec, test_agent, long_only,
  order, fill_report,
}

abbrev granted : AuthorizeResponse
granted = record {
  trace_id = 42;
  reasoning_hash = codes "x";
  authorized = true;
  shadow_blocked = false;
}

authorize-ok_example :
    Authorized ⦃fl = whole⦄ ⦃ex = outside⦄ layer1 test_services test_inputs
      (order (long (pos 2)))
      (test_world false)
      granted
unfolding authorize decide refuse clear with_heartbeat with_drift with_anchor with_reference
    with_model with_profile check_heartbeat snapshot_of intent_of with_quantity verify_bitemporal
    now_ms authorize_agent fetch_profile check_profile enforce check_constraints action_side
    direction eq_ignore_ascii_case commit_trace seal canonicalize_json as_bytes insert_trace_atomic
    transaction guarded_insert take_lock check_portfolio within_cap statement insert_row prepare_row
    encode_trace row_of ◌+ℤ◌ ◌*ℤ◌
authorize-ok_example =
    authorize-ok ⦃fl = whole⦄ ⦃ex = outside⦄ layer1 test_services test_inputs (order (long (pos 2)))
      (test_world false) granted refl

-- A cleared request: `shorts` is refused by the regime, `longs` is allowed.
abbrev cleared : Bool → Cleared ℤ
cleared shorts = record {
  snapshot =
      snapshot_of ⦃ex = outside⦄ layer1 test_inputs
        (order (if shorts then short (pos 2) else long (pos 2))) long_only
        (record {
          sequence_id = 0;
          timestamp_ms = 1000;
          regime_id = 0;
          mta_ref = [];
          signature = [];
        });
  mta = long_only;
  profile = test_agent;
  drift_ms = pos 0;
}

abbrev entry : Bool → Entry ℤ
entry shorts =
    entry_of ⦃fl = whole⦄ ⦃ex = outside⦄ layer1 test_services test_inputs
      (order (if shorts then short (pos 2) else long (pos 2))) (cleared shorts)
      (evaluated ⦃fl = whole⦄ ⦃ex = outside⦄ layer1 test_services
        (order (if shorts then short (pos 2) else long (pos 2))) (cleared shorts))
      (codes "x")

abbrev row : Bool → TraceRow ℤ
row shorts =
    row_of ⦃fl = whole⦄ ⦃ex = outside⦄ test_codec (entry shorts)
      (record {
        stored_json = null;
        nonce_bytes = none;
        enc_dek_bytes = none;
        key_ver = none;
        enc_version = 0;
      })
      (pos 1000) (pos 2000)

abbrev violation : AppError ℤ
violation = policy (
    regime_violation (action_text ⦃fl = whole⦄ (short (pos 2))) (codes "EXPANSION") policy_id_const
      policy_version_const)

-- The COMMIT fails, and did not take effect.
abbrev lost_commit : Db ℤ
lost_commit = record {
  traces = [];
  positions = [];
  faults = false ∷ false ∷ false ∷ false ∷ true ∷ false ∷ [];
}

insert_trace_atomic-Atomic_example :
    Atomic ⦃fl = whole⦄
      (some 7)
      (some (pos 1000, codes "EXPANSION"))
      (entry false).snapshot.execution.notional
      (prepare_row ⦃fl = whole⦄ ⦃ex = outside⦄ test_codec none (entry false))
      lost_commit
      (insert_trace_atomic ⦃fl = whole⦄ ⦃ex = outside⦄ test_codec none
        (some (pos 1000, codes "EXPANSION"))
        (entry false)
        lost_commit)
insert_trace_atomic-Atomic_example =
    insert_trace_atomic-Atomic ⦃fl = whole⦄ ⦃ex = outside⦄ test_codec none
      (some (pos 1000, codes "EXPANSION")) (entry false) lost_commit

abbrev stored : Db ℤ
stored = record { traces = row false ∷ []; positions = []; faults = [] }

abbrev bind : Text → Db ℤ → Result (AppError ℤ) BindExecutionResult × Db ℤ
bind tx db =
    bind_execution ⦃fl = whole⦄ ⦃ex = outside⦄ (λ a b. a) none (pos 0) (pos 3000) (fill_report tx)
      db

-- Between the two calls: one on another trace, and a sweep.
abbrev between_them : List (BindEvent ⦃fl = whole⦄ ⦃ex = outside⦄ (λ a b. a) none (pos 0))
between_them =
    BindEvent.bind (pos 3500) (record (fill_report (codes "o")) { trace_id = 43 })
    ∷ BindEvent.sweep (pos 9000) 1
    ∷ []

abbrev after_bind : Db ℤ
after_bind =
    run_events ⦃fl = whole⦄ ⦃ex = outside⦄ (λ a b. a) none (pos 0) between_them
      (bind (codes "t") stored).1

abbrev first_result : BindExecutionResult
first_result =
    reconciled ⦃fl = whole⦄ ⦃ex = outside⦄ (λ a b. a) none (pos 0) (pos 3000)
      (fill_report (codes "t")) (Ledger.intent_of ⦃fl = whole⦄ (row false))

bind_execution-once_example :
    Refused ⦃fl = whole⦄ ⦃ex = outside⦄
      (λ a b. a)
      none
      (pos 0)
      (fill_report (codes "u"))
      (verification_status_text first_result.verification_status)
      after_bind
      (bind (codes "u") after_bind)
unfolding bind_execution statement get_intent_for_binding bind_intent update_binding move_position
    reconcile upsert_position row_of snapshot_of intent_of asset_check side_check quantity_check
    assets_match resolve_direction Bind.quantity_delta Ledger.intent_of eq_ignore_ascii_case trim
    action_text ◌*ℤ◌ ◌-ℤ◌
bind_execution-once_example =
    bind_execution-once ⦃fl = whole⦄ ⦃ex = outside⦄ (λ a b. a) none (pos 0) (pos 3000) (pos 3000)
      (fill_report (codes "t")) (fill_report (codes "u")) stored first_result between_them refl refl

bind_intent-both_example :
    BothBound ⦃fl = whole⦄ ⦃ex = outside⦄
      (λ a b. a)
      none
      (pos 0)
      (pos 3000)
      (pos 3001)
      (fill_report (codes "t"))
      (fill_report (codes "u"))
      stored
      (row false)
unfolding row_of snapshot_of intent_of
bind_intent-both_example =
    bind_intent-both ⦃fl = whole⦄ ⦃ex = outside⦄ (λ a b. a) none (pos 0) (pos 3000) (pos 3001)
      (fill_report (codes "t")) (fill_report (codes "u")) stored (row false) refl refl refl refl

reconcile-matched_iff_example :
    Verdict ⦃fl = whole⦄ ⦃ex = outside⦄ none
      (pos 3000)
      42
      (codes "x")
      (fill_report (codes "t"))
      (codes "BTC")
      (codes "Short(2)")
      (pos 2)
      (pos 0)
reconcile-matched_iff_example =
    reconcile-matched_iff ⦃fl = whole⦄ ⦃ex = outside⦄ none (pos 3000) 42 (codes "x")
      (fill_report (codes "t")) (codes "BTC") (codes "Short(2)") (pos 2) (pos 0)

expire_pending-Swept_example :
    Pairwise
      (Swept (pos 9000 -ℤ pos (1 * 1000)))
      stored.traces
      (expire_pending (pos 9000) 1 stored).1.traces
    × ((expire_pending (pos 9000) 1 (expire_pending (pos 9000) 1 stored).1).0 ≡ ok 0)
expire_pending-Swept_example = expire_pending-Swept (pos 9000) 1 stored refl
