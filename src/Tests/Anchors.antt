-- ===== src/Tests/Anchors.antt =====
-- The anchoring of a table of two rows, whose first post fails.
use irl_engine_ax.Prelude.{
  ℤ, pos, ◌≡◌, refl, arith, codes, [], ◌∷◌, ok, err, leb_ℤ, if◌then◌else◌, count_where,
}
use irl_engine_ax.Platform.{Externals}
use irl_engine_ax.Merkle.Anchor.{
  Anchoring, CycleInputs, run_anchor_cycle, run_ots_upgrade_cycle, last_end, or_epoch,
}
use irl_engine_ax.Merkle.Anchor.Chained.{covers}
use irl_engine_ax.Merkle.Anchor.Periods.{Event, History, History-covered}
use irl_engine_ax.Tests.Fixtures.{outside}
use irl_engine_ax.Tests.Privacy.{two_rows}

instance abbrev services : Externals
services = outside

abbrev fresh : Anchoring ℤ
fresh = record { db = two_rows; anchors = [] }

abbrev first_cycle : CycleInputs
first_cycle = record {
  period_end = pos 2000;
  now = pos 2001;
  answers = err (codes "down") ∷ [];
  new_id = 1;
}

abbrev anchored : Anchoring ℤ
anchored = (run_anchor_cycle first_cycle fresh).1

abbrev retried : Anchoring ℤ
retried = (run_ots_upgrade_cycle (pos 3000) (λ id. ok (1 ∷ []) ∷ []) anchored).1

History-covered_example :
    count_where (covers (pos 1000)) retried.anchors
    ≡ (if leb_ℤ (pos 1000) (or_epoch (last_end retried.anchors)) then 1 else 0)
History-covered_example =
    History-covered fresh retried (pos 1000) refl
      (History.next (History.next History.start (Event.anchor fresh first_cycle))
        (Event.upgrade anchored (pos 3000) (λ id. ok (1 ∷ []) ∷ [])))
      (omega arith)
