-- ===== src/Authorize/Decision.antt =====
-- What an authorize request that succeeds was decided on.
use irl_engine_ax.Prelude.{
  ℕ, ℤ, ◌≡◌, refl, sym, ap, ◌∙◌, ◌⊎◌, inl, inr, Text, Bool, check, List, true, false, Result, ok,
  err, pure, lift, Action, continue, ◌>>=◌, ◌>>◌, bind-ok, ok-injective, Result-cases, arith,
}
use irl_engine_ax.Platform.{Float64, Externals}
use irl_engine_ax.Errors.{AppError, forbidden}
use irl_engine_ax.Snapshot.{AuthorizeRequest, SignedHeartbeat}
use irl_engine_ax.Config.{Config}
use irl_engine_ax.Mta.{MtaState}
use irl_engine_ax.Policy.{PolicyDecision}
use irl_engine_ax.Seal.{verify_bitemporal}
use irl_engine_ax.Store.Insertion.{insert_trace_atomic}
use irl_engine_ax.Authorize.{
  World, Inputs, Services, Cleared, AuthorizeResponse, clear, with_heartbeat, with_drift,
  with_anchor, with_reference, with_model, with_profile, check_heartbeat, cert_matches,
  heartbeat_of, check_mta_ref, decode_model_hash, identify, snapshot_of, authorize, decide, refuse,
  commit_trace, halt_trace, enforced, on_db, seal_snapshot, entry_of, portfolio_check,
}
use irl_engine_ax.Authorize.Gate.{Passed, clear-Passed}

module _ {F : Type 0} where
  -- Steps that leave the tables of traces and the shadow switch alone.
  abbrev pub Keeps : {A : Type 0} → Action (World F) (AppError F) A → Type 0
  Keeps m = (w : World F) → ((m w).1.db ≡ w.db) × ((m w).1.shadow_mode ≡ w.shadow_mode)

  continue-Keeps :
      {A B : Type 0} (r : Result (AppError F) A) (f : A → Action (World F) (AppError F) B)
      → ((a : A) → Keeps (f a))
      → Keeps (continue r f)
  continue-Keeps (ok a) f k w = k a w
  continue-Keeps (err e) f k w = (refl, refl)

  bind-Keeps :
      {A B : Type 0} (m : Action (World F) (AppError F) A) (f : A → Action (World F) (AppError F) B)
      → Keeps m
      → ((a : A) → Keeps (f a))
      → Keeps (m >>= f)
  bind-Keeps m f k l w =
      let (a, b) = k w in let (c, d) = continue-Keeps (m w).0 f l (m w).1 in (c ∙ a, d ∙ b)

  check_heartbeat-Keeps :
      ⦃ex : Externals⦄ (layer2 : Bool) (inp : Inputs F) (agent : ℕ) (hb : SignedHeartbeat)
      → Keeps (check_heartbeat layer2 inp agent hb)
  unfolding check_heartbeat
  check_heartbeat-Keeps false inp agent hb w = (refl, refl)
  check_heartbeat-Keeps true inp agent hb w = (refl, refl)

module _ {F : Type 0} ⦃fl : Float64 F⦄ ⦃ex : Externals⦄ (cfg : Config F) (inp : Inputs F)
    (req : AuthorizeRequest F) where
  model-Keeps :
      (hb : SignedHeartbeat) (d : ℤ) (mta : MtaState F) (hash : List ℕ)
      → Keeps (with_model cfg inp req hb d mta hash)
  unfolding with_model with_profile
  model-Keeps hb d mta hash =
      bind-Keeps (identify cfg inp req mta hash) (with_profile cfg inp req hb d mta)
        (λ w. (refl, refl))
        (λ p.
          bind-Keeps (lift (verify_bitemporal (snapshot_of cfg inp req mta hb))) (λ _. pure _)
            (λ w. (refl, refl)) (λ _ w. (refl, refl)))

  anchor-Keeps :
      (hb : SignedHeartbeat) (d : ℤ) (mta : MtaState F) → Keeps (with_anchor cfg inp req hb d mta)
  unfolding with_anchor with_reference
  anchor-Keeps hb d mta =
      bind-Keeps (lift (check_mta_ref cfg.layer2_enabled hb mta))
        (λ _. with_reference cfg inp req hb d mta) (λ w. (refl, refl))
        (λ _.
          bind-Keeps (lift (decode_model_hash req.model_hash_hex)) (with_model cfg inp req hb d mta)
            (λ w. (refl, refl)) (model-Keeps hb d mta))

  heartbeat-Keeps : (hb : SignedHeartbeat) → Keeps (with_heartbeat cfg inp req hb)
  unfolding with_heartbeat with_drift
  heartbeat-Keeps hb =
      bind-Keeps (check_heartbeat cfg.layer2_enabled inp req.agent_id hb)
        (with_drift cfg inp req hb) (check_heartbeat-Keeps cfg.layer2_enabled inp req.agent_id hb)
        (λ d.
          bind-Keeps (lift inp.mta) (with_anchor cfg inp req hb d) (λ w. (refl, refl))
            (anchor-Keeps hb d))

  -- The steps before the policy write no trace and leave the shadow switch as it is.
  pub clear-Keeps : Keeps (clear cfg inp req)
  unfolding clear
  clear-Keeps =
      bind-Keeps (check {E = AppError F} (cert_matches inp.cert_cn req.agent_id) forbidden)
        (λ _.
          lift (heartbeat_of cfg.layer2_enabled req.heartbeat req.agent_valid_time)
          >>= with_heartbeat cfg inp req)
        (λ w. (refl, refl))
        (λ _.
          bind-Keeps (lift (heartbeat_of cfg.layer2_enabled req.heartbeat req.agent_valid_time))
            (with_heartbeat cfg inp req) (λ w. (refl, refl)) heartbeat-Keeps)

module _ {F : Type 0} ⦃fl : Float64 F⦄ ⦃ex : Externals⦄ (cfg : Config F) (services : Services F)
    (inp : Inputs F) (req : AuthorizeRequest F) where
  commit_trace-ok :
      (c : Cleared F) (d : PolicyDecision) (shadow : Bool) (w : World F) (resp : AuthorizeResponse)
      → (commit_trace cfg services inp req c d shadow w).0 ≡ ok resp
      → (seal_snapshot cfg services c.snapshot ≡ ok resp.reasoning_hash)
        × ((resp.trace_id ≡ c.snapshot.trace_id) × (resp.shadow_blocked ≡ shadow))
  unfolding commit_trace
  commit_trace-ok c d shadow w resp h =
      let write : Text → Action (World F) (AppError F) (Unit {0}) = λ reasoning_hash. on_db (
        insert_trace_atomic services.codec services.key_provider
          (portfolio_check cfg services req c shadow)
          (entry_of cfg services inp req c d reasoning_hash)) in
      let (hash, (s, r)) =
        bind-ok (lift (seal_snapshot cfg services c.snapshot))
          (λ reasoning_hash.
            write reasoning_hash
            >> pure (record {
              trace_id = c.snapshot.trace_id;
              reasoning_hash = reasoning_hash;
              authorized = true;
              shadow_blocked = shadow;
            }))
          w resp h in
      let (_, (_, q)) = bind-ok (write hash) (λ _. pure _) w resp r in
      let same = ok-injective q in
      (
        s ∙ ap ok (ap (λ x. x.reasoning_hash) same),
        (sym (ap (λ x. x.trace_id) same), sym (ap (λ x. x.shadow_blocked) same)),
      )

  halt_trace-err :
      (c : Cleared F) (e : AppError F) (w : World F) (resp : AuthorizeResponse)
      → (halt_trace cfg services inp req c e w).0 ≡ ok resp
      → ⊥
  unfolding halt_trace
  halt_trace-err c e w resp h = elim (Result-cases (seal_snapshot cfg services c.snapshot)) [
    | inl (x, s) ↦ ground (arith, rw s at h)
    | inr (x, s) ↦ ground (arith, rw s at h)
  ]

  refuse-ok :
      (c : Cleared F) (e : AppError F) (shadow : Bool) (w : World F) (resp : AuthorizeResponse)
      → (refuse cfg services inp req c e shadow w).0 ≡ ok resp
      → ((seal_snapshot cfg services c.snapshot ≡ ok resp.reasoning_hash)
          × ((resp.trace_id ≡ c.snapshot.trace_id) × (resp.shadow_blocked ≡ true)))
        × (shadow ≡ true)
  unfolding refuse
  refuse-ok c e true w resp h = (commit_trace-ok c _ true w resp h, refl)
  refuse-ok c e false w resp h = absurd (halt_trace-err c e w resp h)

  decide-ok :
      (c : Cleared F) (r : Result (AppError F) PolicyDecision) (w : World F)
      (resp : AuthorizeResponse)
      → (decide cfg services inp req c r w).0 ≡ ok resp
      → ((seal_snapshot cfg services c.snapshot ≡ ok resp.reasoning_hash)
          × (resp.trace_id ≡ c.snapshot.trace_id))
        × (((resp.shadow_blocked ≡ false) × ((d : PolicyDecision) × (r ≡ ok d)))
            ⊎ ((resp.shadow_blocked ≡ true)
                × ((w.shadow_mode ≡ true) × ((e : AppError F) × (r ≡ err e)))))
  unfolding decide
  decide-ok c (ok d) w resp h =
      let (s, (t, b)) = commit_trace-ok c d false w resp h in ((s, t), inl (b, (d, refl)))
  decide-ok c (err e) w resp h =
      let ((s, (t, b)), on) = refuse-ok c e w.shadow_mode w resp h in
      ((s, t), inr (b, (on, (e, refl))))

  -- What an answer to an authorize request says.
  abbrev pub Authorized : World F → AuthorizeResponse → Type 0
  Authorized w resp =
      (c : Cleared F) × (Passed cfg inp req w c
        × (((seal_snapshot cfg services c.snapshot ≡ ok resp.reasoning_hash)
              × (resp.trace_id ≡ inp.trace_id))
            × (((resp.shadow_blocked ≡ false)
                  × ((d : PolicyDecision) × (enforced cfg services req c ≡ ok d)))
                ⊎ ((resp.shadow_blocked ≡ true)
                    × ((w.shadow_mode ≡ true)
                        × ((e : AppError F) × (enforced cfg services req c ≡ err e)))))))

  -- A request that is authorized passed every check: certificate, heartbeat, anchor, reference,
  -- model, agent and bitemporal order. The response carries the snapshot's id and its seal. And
  -- either the policy allowed the trade, or it refused, shadow mode was on, and the response says
  -- that the trade is shadow-blocked.
  pub authorize-ok :
      (w : World F) (resp : AuthorizeResponse)
      → (authorize cfg services inp req w).0 ≡ ok resp
      → Authorized w resp
  unfolding authorize snapshot_of
  authorize-ok w resp h =
      let (c, (cleared, r)) =
        bind-ok (clear cfg inp req)
          (λ c. decide cfg services inp req c (enforced cfg services req c)) w resp h in
      let passed = clear-Passed cfg inp req w c cleared in
      let (_, switch) = clear-Keeps cfg inp req w in
      let ((s, t), out) =
        decide-ok c (enforced cfg services req c) (clear cfg inp req w).1 resp r in
      (c, (passed, ((s, t ∙ ap (λ x. x.trace_id) passed.sealed_as ∙ refl), rw switch at out)))
