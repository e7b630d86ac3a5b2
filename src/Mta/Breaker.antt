-- ===== src/Mta/Breaker.antt =====
-- The cache and the circuit breaker of the MacroPulse client.
use irl_engine_ax.Prelude.{
  Option-cases, length, as_bytes, ◌==◌, ==_iff, true, ◌⊎◌, ℕ, ◌-◌, ◌/◌, Text, List, [], ◌∷◌, Option,
  none, some, Result, ok, err, ◌≡◌, refl, inl, inr, arith, Result-cases, Bool-cases, All, ltb,
}
use irl_engine_ax.Platform.{Float64, Externals}
use irl_engine_ax.Errors.{AppError}
use irl_engine_ax.Json.{Json}
use irl_engine_ax.Mta.{
  canonical_json, strip_signature, MtaState, RawMtaResponse, Wire, CachedMta, fallback_ttl_secs,
  verify_signature, adapt, fetch_and_verify, is_fresh, fall_back, settle, fetch_verified,
}

-- A call: the two clock readings and the outcome of the GET.
abbrev pub FetchCall : Type 0
FetchCall = ℕ × ℕ × Result Text (List ℕ)

-- The network answered one of the calls with this body.
abbrev pub Answered : List FetchCall → List ℕ → Type 0
Answered [] body = ⊥
Answered ((now, after, response) ∷ calls) body = (response ≡ ok body) ⊎ Answered calls body

module _ {F : Type 0} ⦃fl : Float64 F⦄ ⦃ex : Externals⦄ (wire : Wire F) (pubkey : List ℕ) where
  -- A body carries a signature of the key: 64 bytes that verify against the canonical text of the
  -- body's JSON without its signature field.
  abbrev pub IsSigned : List ℕ → RawMtaResponse → Type 0
  IsSigned body raw =
      (sig : List ℕ) × (json : Json F) × (text : Text) × (wire.base64_decode raw.signature
        ≡ some sig)
      × (length sig ≡ 64)
      × (wire.value_from_slice body ≡ ok json)
      × (canonical_json wire.to_string (strip_signature json) ≡ ok text)
      × (ex.ed25519_verify pubkey (as_bytes text) sig ≡ true)

  verify_signature-IsSigned :
      (body : List ℕ) (raw : RawMtaResponse)
      → verify_signature wire pubkey body raw ≡ ok tt
      → IsSigned body raw
  unfolding verify_signature
  verify_signature-IsSigned body raw h = elim (Option-cases (wire.base64_decode raw.signature)) [
    | inl a ↦ ground (arith, rw a at h)
    | inr (sig, a) ↦ elim (Bool-cases (length sig == 64)) [
      | inr b ↦ ground (arith, rw (a, b) at h)
      | inl b ↦ elim (Result-cases (wire.value_from_slice body)) [
        | inr (t, c) ↦ ground (arith, rw (a, b, c) at h)
        | inl (json, c) ↦
            elim (Result-cases (canonical_json wire.to_string (strip_signature json))) [
              | inr (t, d) ↦ ground (arith, rw (a, b, c, d) at h)
              | inl (text, d) ↦ elim (Bool-cases (ex.ed25519_verify pubkey (as_bytes text) sig)) [
                | inr f ↦ ground (arith, rw (a, b, c, d, f) at h)
                | inl f ↦ (sig, json, text, a, (==_iff (length sig) 64).0 b, c, d, f)
              ]
            ]
      ]
    ]
  ]

  module _ (P : List ℕ → Type 0) where
    -- The state is what a signed body, one of some, stands for.
    abbrev pub IsAttested : MtaState F → Type 0
    IsAttested s =
        (body : List ℕ) × (raw : RawMtaResponse) × P body
        × (wire.raw_from_slice body ≡ ok raw)
        × IsSigned body raw
        × (s ≡ adapt wire pubkey body raw)

    abbrev CacheIsAttested : Option (CachedMta F) → Type 0
    CacheIsAttested none = Unit
    CacheIsAttested (some c) = IsAttested c.state

    abbrev pub ResultIsAttested : Result (AppError F) (MtaState F) → Type 0
    ResultIsAttested (ok s) = IsAttested s
    ResultIsAttested (err e) = Unit

    -- A body that the network gives is one of them.
    abbrev Given : Result Text (List ℕ) → Type 0
    Given response = (body : List ℕ) → response ≡ ok body → P body

    fetch_and_verify-IsAttested :
        (response : Result Text (List ℕ))
        → Given response
        → (r : Result (AppError F) (MtaState F)) → fetch_and_verify wire pubkey response ≡ r
        → ResultIsAttested r
    unfolding fetch_and_verify
    fetch_and_verify-IsAttested response g (err e) h = tt
    fetch_and_verify-IsAttested (err t) g (ok s) h = ground arith
    fetch_and_verify-IsAttested (ok body) g (ok s) h =
        elim (Result-cases (wire.raw_from_slice body)) [
          | inr (t, e) ↦ ground arith
          | inl (raw, e) ↦ elim (Result-cases (verify_signature wire pubkey body raw)) [
            | inr (t, f) ↦ ground arith
            | inl (tt, f) ↦
                (body, raw, g body refl, e, verify_signature-IsSigned body raw f, ground arith)
          ]
        ]

    fall_back-IsAttested :
        (cache : Option (CachedMta F)) (now : ℕ) (e : AppError F)
        → CacheIsAttested cache
        → ResultIsAttested (fall_back wire pubkey cache now e)
    unfolding fall_back
    fall_back-IsAttested none now e h = tt
    fall_back-IsAttested (some c) now e h =
        elim (Bool-cases (ltb ((now - c.fetched_at) / 1000000000) fallback_ttl_secs)) [
          | inl young ↦ rw young h
          | inr old ↦ rw old tt
        ]

    settle-IsAttested :
        (cache : Option (CachedMta F)) (after : ℕ) (r : Result (AppError F) (MtaState F))
        → CacheIsAttested cache
        → ResultIsAttested r
        → ResultIsAttested (settle wire pubkey cache after r).0
          × CacheIsAttested (settle wire pubkey cache after r).1
    unfolding settle
    settle-IsAttested cache after (ok s) h k = (k, k)
    settle-IsAttested cache after (err e) h k = (fall_back-IsAttested cache after e h, h)

    fetch-IsAttested :
        (cache : Option (CachedMta F)) (now after : ℕ) (response : Result Text (List ℕ))
        → Given response
        → CacheIsAttested cache
        → ResultIsAttested (fetch_verified wire pubkey cache now after response).0
          × CacheIsAttested (fetch_verified wire pubkey cache now after response).1
    unfolding fetch_verified
    fetch-IsAttested none now after response g h =
        settle-IsAttested none after (fetch_and_verify wire pubkey response) h
          (fetch_and_verify-IsAttested response g _ refl)
    fetch-IsAttested (some c) now after response g h =
        elim (Bool-cases (is_fresh wire pubkey (some c) now)) [
          | inl fresh ↦ rw fresh (h, h)
          | inr stale ↦ rw stale (
              settle-IsAttested (some c) after (fetch_and_verify wire pubkey response) h
                (fetch_and_verify-IsAttested response g _ refl))
        ]

  -- The calls of a client from a given cache.
  abbrev pub fetches :
      Option (CachedMta F) → List FetchCall → List (Result (AppError F) (MtaState F))
  fetches cache [] = []
  fetches cache ((now, after, response) ∷ calls) =
      let (r, cache') = fetch_verified wire pubkey cache now after response in
      r ∷ fetches cache' calls

  fetches-from :
      (P : List ℕ → Type 0) (cache : Option (CachedMta F)) (calls : List FetchCall)
      → ((body : List ℕ) → Answered calls body → P body)
      → CacheIsAttested P cache
      → All (ResultIsAttested P) (fetches cache calls)
  fetches-from P cache [] g h = tt
  fetches-from P cache ((now, after, response) ∷ calls) g h =
      let step = fetch-IsAttested P cache now after response (λ body e. g body (inl e)) h in
      (
        step.0,
        fetches-from P (fetch_verified wire pubkey cache now after response).1 calls
            (λ body e. g body (inr e)) step.1,
      )

  -- Over any sequence of calls from an empty cache, whatever the network answers, every state that
  -- the MacroPulse client returns, cached or not, is the reading of a body that the network gave to
  -- one of the calls, with a signature of 64 bytes that verifies under the operator's key against
  -- the canonical text of the body without its signature field.
  pub fetches-attested :
      (calls : List FetchCall) → All (ResultIsAttested (Answered calls)) (fetches none calls)
  fetches-attested calls = fetches-from (Answered calls) none calls (λ body e. e) tt
