-- ===== src/Heartbeat/Race.antt =====
-- `validate` reads the agent's last sequence number and writes the new one in two separate steps,
-- so two requests may interleave between them.
use irl_engine_ax.Prelude.{ℕ, ℤ, Result, ok, err, ◌≡◌, refl, ap}
use irl_engine_ax.Platform.{Externals}
use irl_engine_ax.Errors.{HeartbeatError}
use irl_engine_ax.Snapshot.{SignedHeartbeat}
use irl_engine_ax.Heartbeat.{HeartbeatValidator, last_sequence, verify_signature, check, commit}

-- Where a request stands: before its read, after it, or at its end.
pub data Task : Type 0 where
  idle : Task
  has_read : ℕ → Task
  finished : Result HeartbeatError ℤ → Task

pub record Shared : Type 0 where
  pub validator : HeartbeatValidator
  pub first : Task
  pub second : Task

abbrev after_check :
    HeartbeatValidator → SignedHeartbeat → ℕ → Result HeartbeatError ℤ → HeartbeatValidator
after_check v hb agent (ok d) = commit v hb agent
after_check v hb agent (err e) = v

-- The steps of two requests that carry heartbeat `hb` of one agent, at clock reading `now`.
module _ ⦃ex : Externals⦄ (hb : SignedHeartbeat) (agent : ℕ) (now : ℤ) where
  pub data Step (s t : Shared) : Type 0 where
    first_reads :
        s.first ≡ idle
        → t ≡ record s { first = has_read (last_sequence s.validator agent) }
        → Step s t
    second_reads :
        s.second ≡ idle
        → t ≡ record s { second = has_read (last_sequence s.validator agent) }
        → Step s t
    first_ends :
        (n : ℕ)
        → s.first ≡ has_read n
        → t ≡ record s {
          validator = after_check s.validator hb agent (check s.validator hb now n);
          first = finished (check s.validator hb now n);
        }
        → Step s t
    second_ends :
        (n : ℕ)
        → s.second ≡ has_read n
        → t ≡ record s {
          validator = after_check s.validator hb agent (check s.validator hb now n);
          second = finished (check s.validator hb now n);
        }
        → Step s t

  pub data Reach (s : Shared) : Shared → Type 0 where
    here : Reach s s
    next : {t u : Shared} → Reach s t → Step t u → Reach s u

  check-after :
      (v : HeartbeatValidator) (n : ℕ) (d : ℤ)
      → check v hb now n ≡ ok d
      → check (commit v hb agent) hb now n ≡ ok d
  unfolding check commit verify_signature
  check-after v n d e = e

  -- Two requests that carry the same heartbeat are both accepted in some interleaving of their
  -- reads and writes, whenever the validator would accept the heartbeat once.
  pub both_accepted :
      (v : HeartbeatValidator) (d : ℤ)
      → check v hb now (last_sequence v agent) ≡ ok d
      → (t : Shared) × Reach (record { validator = v; first = idle; second = idle }) t
        × (t.first ≡ finished (ok d))
        × (t.second ≡ finished (ok d))
  both_accepted v d e =
      let last : ℕ = last_sequence v agent in
      let v' : HeartbeatValidator = after_check v hb agent (check v hb now last) in
      let r : Result HeartbeatError ℤ = check v' hb now last in
      (
        record {
          validator = after_check v' hb agent r;
          first = finished (check v hb now last);
          second = finished r;
        },
        next
            (next (next (next here (first_reads refl refl)) (second_reads refl refl))
              (first_ends last refl refl))
            (second_ends last refl refl),
        ap finished e,
        rw e (ap finished (check-after v last d e)),
      )
