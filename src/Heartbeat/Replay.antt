-- ===== src/Heartbeat/Replay.antt =====
-- Anti-replay: what the validator accepts, over one call and over any sequence of calls.
use irl_engine_ax.Prelude.{
  ℕ, ℤ, pos, ◌≤◌, ◌<◌, Bool, true, false, List, [], ◌∷◌, Result, ok, err, ◌≡◌, refl, ap, ◌∙◌,
  ==_iff, ◌⊎◌, inl, inr, arith, lookup-insert, Result-cases, Bool-cases, if◌then◌else◌, ◌==◌,
}
use mathlib.Core.Path.{subst}
use irl_engine_ax.Platform.{Externals}
use irl_engine_ax.Errors.{HeartbeatError}
use irl_engine_ax.Snapshot.{SignedHeartbeat}
use irl_engine_ax.Heartbeat.{
  HeartbeatValidator, verify_signature, last_sequence, check, commit, drift, validate,
}

pub commit-last :
    (v : HeartbeatValidator) (hb : SignedHeartbeat) (agent j : ℕ)
    → last_sequence (commit v hb agent) j
      ≡ (if agent == j then hb.sequence_id else last_sequence v j)
unfolding commit
commit-last v hb agent j = ground (arith, lookup-insert agent j hb.sequence_id v.sequences)

pub record Call : Type 0 where
  pub hb : SignedHeartbeat
  pub agent : ℕ
  pub now : ℤ
  pub db_up : Bool

abbrev accepted_by : Result HeartbeatError ℤ → Bool
accepted_by (ok d) = true
accepted_by (err e) = false

module _ ⦃ex : Externals⦄ where
  -- A successful check: the signature holds, the number is new, the drift lies in the window.
  pub check-ok :
      (v : HeartbeatValidator) (hb : SignedHeartbeat) (now : ℤ) (last : ℕ) (d : ℤ)
      → check v hb now last ≡ ok d
      → (verify_signature v hb ≡ ok tt)
        × (d ≡ drift now hb)
        × (last < hb.sequence_id)
        × ((n : ℕ) × (d ≡ pos n) × (n ≤ v.max_drift_ms))
  unfolding check
  check-ok v hb now last d h = ground arith

  -- What one call does: all of an acceptance, or a refusal that changes nothing.
  abbrev pub Effect : HeartbeatValidator → List (ℕ × ℤ) → SignedHeartbeat → ℕ → ℤ → Bool → Type 0
  Effect v rows hb agent now db_up =
      let (r, v', rows') = validate v rows hb agent now db_up in
      ((d : ℤ) × (r ≡ ok d)
        × (d ≡ drift now hb)
        × (verify_signature v hb ≡ ok tt)
        × (last_sequence v agent < hb.sequence_id)
        × ((n : ℕ) × (d ≡ pos n) × (n ≤ v.max_drift_ms))
        × ((j : ℕ)
            → last_sequence v' j ≡ (if agent == j then hb.sequence_id else last_sequence v j)))
      ⊎ ((e : HeartbeatError) × (r ≡ err e) × (v' ≡ v) × (rows' ≡ rows))

  pub validate-Effect :
      (v : HeartbeatValidator) (rows : List (ℕ × ℤ)) (hb : SignedHeartbeat) (agent : ℕ) (now : ℤ)
      (db_up : Bool)
      → Effect v rows hb agent now db_up
  unfolding validate
  validate-Effect v rows hb agent now db_up =
      elim (Result-cases (check v hb now (last_sequence v agent))) [
        | inl (d, e) ↦
            let facts = check-ok v hb now (last_sequence v agent) d e in
            inl (d, rw e, facts.1, facts.0, facts.2, facts.3, λ j. rw e (commit-last v hb agent j))
        | inr (x, e) ↦ inr (x, rw e, rw e, rw e)
      ]

  -- The sequence numbers that a run of calls accepts for one agent, in order.
  unfoldable pub accepted : HeartbeatValidator → List (ℕ × ℤ) → ℕ → List Call → List ℕ
  accepted v rows agent [] = []
  accepted v rows agent (c ∷ cs) =
      let (r, v', rows') = validate v rows c.hb c.agent c.now c.db_up in
      let rest = accepted v' rows' agent cs in
      if accepted_by r then (if c.agent == agent then c.hb.sequence_id ∷ rest else rest) else rest

abbrev pub Increasing : ℕ → List ℕ → Type 0
Increasing n [] = Unit
Increasing n (x ∷ xs) = (n < x) × Increasing x xs

module _ ⦃ex : Externals⦄ where
  -- Over any sequence of calls, for any agents and at any clock readings, the sequence numbers
  -- accepted for one agent strictly increase, from above its last number at the start: no
  -- heartbeat is accepted twice, and none after a later one.
  pub accepted-Increasing :
      (v : HeartbeatValidator) (rows : List (ℕ × ℤ)) (agent : ℕ) (calls : List Call)
      → Increasing (last_sequence v agent) (accepted v rows agent calls)
  unfolding accepted
  accepted-Increasing v rows agent [] = tt
  accepted-Increasing v rows agent (c ∷ cs) =
      let ih =
        accepted-Increasing (validate v rows c.hb c.agent c.now c.db_up).1
          (validate v rows c.hb c.agent c.now c.db_up).2 agent cs in
      elim (validate-Effect v rows c.hb c.agent c.now c.db_up) [
        | inl (d, e, _, _, above, _, last) ↦
            let v' = (validate v rows c.hb c.agent c.now c.db_up).1 in
            rw e (elim (Bool-cases (c.agent == agent)) [
              | inl same ↦
                  let now_last : last_sequence v' agent ≡ c.hb.sequence_id =
                    last agent ∙ rw same refl in
                  rw same (
                    subst (λ j. last_sequence v j < c.hb.sequence_id)
                        ((==_iff c.agent agent).0 same) above,
                    rw now_last at ih,
                  )
              | inr other ↦
                  let still : last_sequence v' agent ≡ last_sequence v agent =
                    last agent ∙ rw other refl in
                  rw other (rw still at ih)
            ])
        | inr (x, e, kept, _) ↦
            let v' = (validate v rows c.hb c.agent c.now c.db_up).1 in
            let still : last_sequence v' agent ≡ last_sequence v agent =
              ap (λ w. last_sequence w agent) kept in
            rw e (rw still at ih)
      ]
