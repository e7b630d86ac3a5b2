-- ===== src/Authorize/Gate.antt =====
-- What an authorize request that succeeds has gone through.
use irl_engine_ax.Prelude.{
  ℕ, ℤ, leb_ℤ, ◌≡◌, refl, ap, ◌∙◌, ◌⊎◌, inl, inr, Bool, true, false, List, ok, guard, check, lift,
  pure, ◌>>=◌, bind-ok, ok-injective, Result-cases, arith,
}
use mathlib.Core.Path.{subst}
use irl_engine_ax.Platform.{Float64, Externals}
use irl_engine_ax.Errors.{AppError, forbidden}
use irl_engine_ax.Snapshot.{AuthorizeRequest, SignedHeartbeat, CognitiveSnapshot}
use irl_engine_ax.Config.{Config}
use irl_engine_ax.Heartbeat.{validate, check as check_hb, last_sequence}
use irl_engine_ax.Seal.{verify_bitemporal}
use irl_engine_ax.Registry.{authorize_agent}
use irl_engine_ax.Authorize.{
  World, Inputs, Cleared, clear, with_heartbeat, with_drift, with_anchor, with_reference,
  with_model, with_profile, identify, snapshot_of, cert_matches, heartbeat_of, check_heartbeat,
  check_mta_ref, decode_model_hash,
}

-- Everything that was established before the policy was asked.
pub record Passed {F : Type 0} ⦃fl : Float64 F⦄ ⦃ex : Externals⦄ (cfg : Config F) (inp : Inputs F)
    (req : AuthorizeRequest F) (w : World F) (c : Cleared F) : Type 0 where
  pub hb : SignedHeartbeat
  pub model_hash : List ℕ
  pub certified : cert_matches inp.cert_cn req.agent_id ≡ true
  pub carried : heartbeat_of {F = F} cfg.layer2_enabled req.heartbeat req.agent_valid_time ≡ ok hb
  pub fresh :
      (cfg.layer2_enabled ≡ false)
      ⊎ (check_hb w.validator hb inp.heartbeat_clock (last_sequence w.validator req.agent_id)
          ≡ ok c.drift_ms)
  pub anchored : inp.mta ≡ ok c.mta
  pub referenced : check_mta_ref cfg.layer2_enabled hb c.mta ≡ ok tt
  pub decoded : decode_model_hash {F = F} req.model_hash_hex ≡ ok model_hash
  pub identified :
      authorize_agent inp.registry_up w.agents req.agent_id model_hash c.mta.regime_id
        c.mta.pubkey_fingerprint
      ≡ ok c.profile
  pub sealed_as : c.snapshot ≡ snapshot_of cfg inp req c.mta hb
  pub bitemporal : leb_ℤ c.snapshot.txn_time c.snapshot.valid_time ≡ false

module _ {F : Type 0} ⦃fl : Float64 F⦄ ⦃ex : Externals⦄ where
  guard-ok : (b : Bool) (e : AppError F) → guard b e ≡ ok tt → b ≡ true
  guard-ok b e h = ground arith

  check_heartbeat-ok :
      (layer2 : Bool) (inp : Inputs F) (agent : ℕ) (hb : SignedHeartbeat) (w : World F) (d : ℤ)
      → (check_heartbeat layer2 inp agent hb w).0 ≡ ok d
      → ((layer2 ≡ false)
          ⊎ (check_hb w.validator hb inp.heartbeat_clock (last_sequence w.validator agent) ≡ ok d))
        × ((check_heartbeat layer2 inp agent hb w).1.agents ≡ w.agents)
  unfolding check_heartbeat validate
  check_heartbeat-ok false inp agent hb w d h = (inl refl, refl)
  check_heartbeat-ok true inp agent hb w d h =
      elim (Result-cases
        (check_hb w.validator hb inp.heartbeat_clock (last_sequence w.validator agent))) [
          | inl (x, e) ↦ (inr (e ∙ ap ok (ok-injective (rw e at h))), refl)
          | inr (x, e) ↦ ground (arith, rw e at h)
        ]

  verify_bitemporal-ok :
      (s : CognitiveSnapshot F)
      → verify_bitemporal s ≡ ok tt
      → leb_ℤ s.txn_time s.valid_time ≡ false
  unfolding verify_bitemporal
  verify_bitemporal-ok s h = ground arith

module _ {F : Type 0} ⦃fl : Float64 F⦄ ⦃ex : Externals⦄ (cfg : Config F) (inp : Inputs F)
    (req : AuthorizeRequest F) where
  pub clear-Passed :
      (w : World F) (c : Cleared F) → (clear cfg inp req w).0 ≡ ok c → Passed cfg inp req w c
  unfolding clear with_heartbeat with_drift with_anchor with_reference with_model with_profile
  clear-Passed w c h =
      let (_, (h1, r1)) =
        bind-ok (check {E = AppError F} (cert_matches inp.cert_cn req.agent_id) forbidden)
          (λ _.
            lift (heartbeat_of cfg.layer2_enabled req.heartbeat req.agent_valid_time)
            >>= with_heartbeat cfg inp req)
          w c h in
      let (hb, (h2, r2)) =
        bind-ok (lift (heartbeat_of cfg.layer2_enabled req.heartbeat req.agent_valid_time))
          (with_heartbeat cfg inp req) w c r1 in
      let (drift, (h3, r3)) =
        bind-ok (check_heartbeat cfg.layer2_enabled inp req.agent_id hb) (with_drift cfg inp req hb)
          w c r2 in
      let w' = (check_heartbeat cfg.layer2_enabled inp req.agent_id hb w).1 in
      let (fresh, agents) = check_heartbeat-ok cfg.layer2_enabled inp req.agent_id hb w drift h3 in
      let (mta, (h4, r4)) = bind-ok (lift inp.mta) (with_anchor cfg inp req hb drift) w' c r3 in
      let (_, (h5, r5)) =
        bind-ok (lift (check_mta_ref cfg.layer2_enabled hb mta))
          (λ _. with_reference cfg inp req hb drift mta) w' c r4 in
      let (hash, (h6, r6)) =
        bind-ok (lift (decode_model_hash req.model_hash_hex)) (with_model cfg inp req hb drift mta)
          w' c r5 in
      let (profile, (h7, r7)) =
        bind-ok (identify cfg inp req mta hash) (with_profile cfg inp req hb drift mta) w' c r6 in
      let (_, (h8, r8)) =
        bind-ok (lift (verify_bitemporal (snapshot_of cfg inp req mta hb))) (λ _. pure _) w' c r7 in
      let same = ok-injective r8 in
      subst (λ d. Passed cfg inp req w d) same
        (record {
          hb = hb;
          model_hash = hash;
          certified = guard-ok _ _ h1;
          carried = h2;
          fresh = fresh;
          anchored = h4;
          referenced = h5;
          decoded = h6;
          identified = rw agents at h7;
          sealed_as = refl;
          bitemporal = verify_bitemporal-ok (snapshot_of cfg inp req mta hb) h8;
        })
