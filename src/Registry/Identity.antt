-- ===== src/Registry/Identity.antt =====
-- Which agents the identity check lets through.
use irl_engine_ax.Prelude.{
  ℕ, ◌≡◌, sym, ok-injective, ◌↔◌, inl, inr, Text, codes, text_eq, true, List, some, ok, find, arith,
  Option-cases, Bool-cases,
}
use irl_engine_ax.Platform.{Externals}
use irl_engine_ax.Registry.{
  AgentProfile, Agents, authorize_agent, fetch_profile, check_profile, is_agent, regime_allowed,
  pubkey_allowed, bytes_eq,
}

module _ {F : Type 0} ⦃ex : Externals⦄ where
  -- A profile that may act: active, with the observed model, in the regime, under the operator.
  abbrev pub MayAct : AgentProfile F → List ℕ → ℕ → Text → Type 0
  MayAct p model_hash regime fingerprint =
      (text_eq p.status (codes "Active") ≡ true)
      × (((h : List ℕ) × ((ex.hex_decode p.model_hash_hex ≡ some h)
              × (bytes_eq h model_hash ≡ true)))
          × ((regime_allowed p.allowed_regimes regime ≡ true)
              × (pubkey_allowed p.allowed_mta_pubkeys fingerprint ≡ true)))

  -- The checks in order, over the answers that they read.
  check_profile-forward :
      (p q : AgentProfile F) (model_hash : List ℕ) (regime : ℕ) (fingerprint : Text)
      → check_profile p model_hash regime fingerprint ≡ ok q
      → (q ≡ p) × MayAct p model_hash regime fingerprint
  unfolding check_profile
  check_profile-forward p q model_hash regime fingerprint h =
      elim (Bool-cases (text_eq p.status (codes "Active"))) [
        | inr e ↦ ground (arith, rw e at h)
        | inl e ↦ elim (Option-cases (ex.hex_decode p.model_hash_hex)) [
          | inl f ↦ ground (arith, rw (e, f) at h)
          | inr (hash, f) ↦ elim (Bool-cases (bytes_eq hash model_hash)) [
            | inr g ↦ ground (arith, rw (e, f, g) at h)
            | inl g ↦ elim (Bool-cases (regime_allowed p.allowed_regimes regime)) [
              | inr i ↦ ground (arith, rw (e, f, g, i) at h)
              | inl i ↦ elim (Bool-cases (pubkey_allowed p.allowed_mta_pubkeys fingerprint)) [
                | inr k ↦ ground (arith, rw (e, f, g, i, k) at h)
                | inl k ↦
                    (ok-injective (sym (rw (e, f, g, i, k) at h)), (e, ((hash, (f, g)), (i, k))))
              ]
            ]
          ]
        ]
      ]

  check_profile-backward :
      (p : AgentProfile F) (model_hash : List ℕ) (regime : ℕ) (fingerprint : Text)
      → MayAct p model_hash regime fingerprint
      → check_profile p model_hash regime fingerprint ≡ ok p
  unfolding check_profile
  check_profile-backward p model_hash regime fingerprint (e, ((hash, (f, g)), (i, k))) =
      rw (e, f, g, i, k)

  -- With a database that answers, an agent is let through exactly when it is registered, active,
  -- with the observed model hash, and both the current regime and the anchor's operator are among
  -- those that it allows; the profile handed on is the registered one.
  pub authorize_agent_iff :
      (agents : Agents F) (agent : ℕ) (p : AgentProfile F) (model_hash : List ℕ) (regime : ℕ)
      (fingerprint : Text)
      → (authorize_agent true agents agent model_hash regime fingerprint ≡ ok p)
        ↔ ((find (is_agent agent) agents ≡ some p) × MayAct p model_hash regime fingerprint)
  unfolding authorize_agent fetch_profile
  authorize_agent_iff agents agent p model_hash regime fingerprint = (
    λ h. elim (Option-cases (find (is_agent agent) agents)) [
      | inl e ↦ ground (arith, rw e at h)
      | inr (q, e) ↦
          (let (same, may) = check_profile-forward q p model_hash regime fingerprint (rw e at h) in
            rw same (e, may))
    ],
    λ (e, may). rw e (check_profile-backward p model_hash regime fingerprint may),
  )
