-- ===== src/Merkle/Anchor.antt =====
-- The database cycles of src/merkle.rs: the anchoring of the hashes since the last anchor, and the
-- retry of anchors that have no receipt. Clock readings, the id that the database draws and the
-- calendars' answers are arguments; a message leaves out the driver's text.
pub mod Chained
pub mod Periods
use irl_engine_ax.Prelude.{
  ℕ, ℤ, pos, negsuc, ◌-◌, ◌%◌, ◌^◌, ◌==◌, ◌&&◌, ltb, ltb_ℤ, leb_ℤ, Text, codes, Bool, true, false,
  List, [], ◌∷◌, map, Option, none, some, Result, ok, err, map_err, if◌then◌else◌, select, take,
  length, update_where, Action,
}
use irl_engine_ax.Prelude.Effects.{pure, gets, modify, ◌>>=◌, ◌>>◌}
use irl_engine_ax.Platform.{Externals}
use irl_engine_ax.Store.{Db, TraceRow, statement}
use irl_engine_ax.Gdpr.{sort_by_time}
use irl_engine_ax.Merkle.{compute_merkle_root, post_to_opentimestamps}

-- A row of irl.merkle_anchors.
pub record AnchorRow : Type 0 where
  pub id : ℕ
  pub period_start : ℤ
  pub period_end : ℤ
  pub leaf_count : ℤ
  pub merkle_root : Text
  pub ots_receipt : Option (List ℕ)
  pub ots_error : Option Text
  pub ots_upgraded_at : Option ℤ

-- The store and the anchors, the newest first.
pub record Anchoring (F : Type 0) : Type 0 where
  pub db : Db F
  pub anchors : List AnchorRow

-- `usize as i32`
abbrev pub as_i32 : ℕ → ℤ
as_i32 n = let m = n % 2 ^ 32 in if ltb m (2 ^ 31) then pos m else negsuc (2 ^ 32 - m - 1)

abbrev pub is_zero : ℤ → Bool
is_zero (pos n) = n == 0
is_zero (negsuc n) = false

abbrev pub later_end : ℤ → Option ℤ → Option ℤ
later_end a none = some a
later_end a (some e) = some (if ltb_ℤ e a then a else e)

-- `ORDER BY period_end DESC LIMIT 1`
unfoldable pub last_end : List AnchorRow → Option ℤ
last_end [] = none
last_end (a ∷ as') = later_end a.period_end (last_end as')

-- `unwrap_or_else` of the Unix epoch
abbrev pub or_epoch : Option ℤ → ℤ
or_epoch none = pos 0
or_epoch (some t) = t

-- `txn_time > $1 AND txn_time <= $2`
abbrev pub in_period : {F : Type 0} → ℤ → ℤ → TraceRow F → Bool
in_period start end row = ltb_ℤ start row.txn_time && leb_ℤ row.txn_time end

abbrev pub hash_of : {F : Type 0} → TraceRow F → Text
hash_of row = row.reasoning_hash

-- What one cycle takes from outside.
pub record CycleInputs : Type 0 where
  pub period_end : ℤ
  pub now : ℤ
  pub answers : List (Result Text (List ℕ))
  pub new_id : ℕ

abbrev pub receipt_of : Result Text (List ℕ) → Option (List ℕ)
receipt_of (ok bytes) = some bytes
receipt_of (err e) = none

abbrev pub error_of : Result Text (List ℕ) → Option Text
error_of (ok bytes) = none
error_of (err e) = some e

abbrev pub upgraded_of : ℤ → Result Text (List ℕ) → Option ℤ
upgraded_of now (ok bytes) = some now
upgraded_of now (err e) = none

unfoldable pub anchor_row :
    ⦃ex : Externals⦄ → ℤ → CycleInputs → List Text → Result Text (List ℕ) → AnchorRow
anchor_row ⦃ex⦄ start inp hashes posted = record {
  id = inp.new_id;
  period_start = start;
  period_end = inp.period_end;
  leaf_count = as_i32 (length hashes);
  merkle_root = ex.hex_encode (compute_merkle_root hashes);
  ots_receipt = receipt_of posted;
  ots_error = error_of posted;
  ots_upgraded_at = upgraded_of inp.now posted;
}

-- The retry. `ORDER BY period_end DESC LIMIT 10` over rows without a receipt.
abbrev pub unanchored : AnchorRow → Bool
unanchored a = elim a.ots_receipt [
  | none ↦ elim a.ots_upgraded_at [ none ↦ true | some t ↦ false ]
  | some r ↦ false
]

unfoldable pub insert_by_end : AnchorRow → List AnchorRow → List AnchorRow
insert_by_end a [] = a ∷ []
insert_by_end a (b ∷ rest) =
    let behind = insert_by_end a rest in
    if ltb_ℤ a.period_end b.period_end then b ∷ behind else a ∷ b ∷ rest

unfoldable pub sort_by_end : List AnchorRow → List AnchorRow
unfolding insert_by_end
sort_by_end [] = []
sort_by_end (a ∷ rest) = insert_by_end a (sort_by_end rest)

abbrev pub to_retry : List AnchorRow → List AnchorRow
to_retry anchors = take 10 (sort_by_end (select unanchored anchors))

abbrev pub has_anchor_id : ℕ → AnchorRow → Bool
has_anchor_id id a = a.id == id

abbrev pub with_receipt : List ℕ → ℤ → AnchorRow → AnchorRow
with_receipt receipt now a = record a {
  ots_receipt = some receipt;
  ots_error = none;
  ots_upgraded_at = some now;
}

-- A root that decodes to 32 bytes.
abbrev pub valid_root : ⦃ex : Externals⦄ → AnchorRow → Bool
valid_root ⦃ex⦄ a = elim (ex.hex_decode a.merkle_root) [ none ↦ false | some b ↦ length b == 32 ]

module _ {F : Type 0} where
  -- A statement, whose failure is reported by a message.
  unfoldable pub send : Text → Action (Anchoring F) Text (Unit {0})
  send message s = let (r, db) = statement s.db in (map_err (λ _. message) r, record s { db = db })

  -- The hashes of a period, in order of time.
  unfoldable pub hashes_in : ℤ → ℤ → Anchoring F → List Text
  hashes_in start end s = map hash_of (sort_by_time (select (in_period start end) s.db.traces))

  module _ ⦃ex : Externals⦄ where
    abbrev pub add_anchor : AnchorRow → Anchoring F → Anchoring F
    add_anchor row s = record s { anchors = row ∷ s.anchors }

    -- From the hashes on.
    unfoldable pub anchor_hashes :
        ℤ → CycleInputs → List Text → Action (Anchoring F) Text (Unit {0})
    anchor_hashes start inp hashes =
        if is_zero (as_i32 (length hashes))
        then pure tt
        else send (codes "DB error storing anchor")
          >> modify
              (add_anchor (anchor_row start inp hashes (post_to_opentimestamps inp.answers [])))

    unfoldable pub run_anchor_cycle : CycleInputs → Action (Anchoring F) Text (Unit {0})
    run_anchor_cycle inp =
        send (codes "DB error fetching last anchor")
        >> (gets (λ s. or_epoch (last_end s.anchors)) >>= λ start.
            send (codes "DB error fetching hashes")
            >> (gets (hashes_in start inp.period_end) >>= anchor_hashes start inp))

  module _ ⦃ex : Externals⦄ (now : ℤ) (answers : ℕ → List (Result Text (List ℕ))) where
    abbrev pub set_receipt : ℕ → List ℕ → Anchoring F → Anchoring F
    set_receipt id receipt s = record s {
      anchors = update_where (has_anchor_id id) (with_receipt receipt now) s.anchors;
    }

    abbrev pub record_retry : ℕ → Result Text (List ℕ) → Action (Anchoring F) Text (Unit {0})
    record_retry id (ok receipt) =
        send (codes "DB error updating anchor") >> modify (set_receipt id receipt)
    record_retry id (err e) = pure tt

    unfoldable pub retry_anchors : List AnchorRow → Action (Anchoring F) Text (Unit {0})
    retry_anchors [] = pure tt
    retry_anchors (a ∷ rest) =
        (if valid_root a
          then record_retry a.id (post_to_opentimestamps (answers a.id) [])
          else pure tt)
        >> retry_anchors rest

    unfoldable pub run_ots_upgrade_cycle : Action (Anchoring F) Text (Unit {0})
    run_ots_upgrade_cycle =
        send (codes "DB error fetching unanchored rows")
        >> (gets (λ s. to_retry s.anchors) >>= retry_anchors)
