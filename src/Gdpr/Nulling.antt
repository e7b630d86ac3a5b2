-- ===== src/Gdpr/Nulling.antt =====
-- What the nulling of personal fields does to a JSON value.
use irl_engine_ax.Prelude.{
  Text, codes, text_eq, text_eq_refl, text_eq→eq, false, Option, none, some, ◌≡◌, refl, ap, ◌∙◌,
  arith, Bool-cases, inl, inr,
}
use irl_engine_ax.Json.{
  Json, Fields, object, null, end, field, get_field, insert_field, array, string, real, int, bool,
}
use irl_engine_ax.Gdpr.{set_null, null_agent, null_execution, put_back, at_field, null_pii_fields}

some-injective : {A : Type 0} {a b : A} → Path (Option A) (some a) (some b) → a ≡ b
some-injective h = cc

module _ {F : Type 0} where
  pub get-insert_self :
      (k : Text) (v : Json F) (fs : Fields F) → get_field k (insert_field k v fs) ≡ some v
  get-insert_self k v end = rw (text_eq_refl k)
  get-insert_self k v (field j w fs) = elim (Bool-cases (text_eq j k)) [
    | inl e ↦ rw (e, e)
    | inr e ↦ rw (e, e) (get-insert_self k v fs)
  ]

  pub get-insert_other :
      (k j : Text) (v : Json F) (fs : Fields F)
      → text_eq k j ≡ false
      → get_field j (insert_field k v fs) ≡ get_field j fs
  get-insert_other k j v end ne = rw ne
  get-insert_other k j v (field i w fs) ne = elim (Bool-cases (text_eq i k)) [
    | inl e ↦ (let other : text_eq i j ≡ false = rw (text_eq→eq i k e) ne in rw (e, other))
    | inr e ↦ rw e (elim (Bool-cases (text_eq i j)) [
      | inl g ↦ rw g
      | inr g ↦ rw g (get-insert_other k j v fs ne)
    ])
  ]

  -- A value that is there already is written in vain.
  insert-same :
      (k : Text) (v : Json F) (fs : Fields F) → get_field k fs ≡ some v → insert_field k v fs ≡ fs
  insert-same k v end h = ground arith
  insert-same k v (field j w fs) h = elim (Bool-cases (text_eq j k)) [
    | inl e ↦ (let same : w ≡ v = some-injective (rw e at h) in rw (e, same))
    | inr e ↦ rw e (ap (λ t. field j w t) (insert-same k v fs (rw e at h)))
  ]

  insert-insert :
      (k : Text) (v w : Json F) (fs : Fields F)
      → insert_field k w (insert_field k v fs) ≡ insert_field k w fs
  insert-insert k v w end = rw (text_eq_refl k)
  insert-insert k v w (field j x fs) = elim (Bool-cases (text_eq j k)) [
    | inl e ↦ rw (e, e)
    | inr e ↦ rw (e, e) (ap (λ t. field j x t) (insert-insert k v w fs))
  ]

  set-kept :
      (k j : Text) (fs : Fields F)
      → get_field j fs ≡ some null
      → get_field j (set_null k fs) ≡ some null
  set-kept k j fs h = elim (Bool-cases (text_eq k j)) [
    | inl e ↦ rw (text_eq→eq k j e) (get-insert_self j null fs)
    | inr e ↦ get-insert_other k j null fs e ∙ h
  ]

  set_twice :
      (a b : Text) (fs : Fields F)
      → get_field a fs ≡ some null
      → get_field b fs ≡ some null
      → set_null b (set_null a fs) ≡ fs
  set_twice a b fs h k = rw (insert-same a null fs h) (insert-same b null fs k)

  pub null_execution_twice : (j : Json F) → null_execution (null_execution j) ≡ null_execution j
  unfolding null_execution
  null_execution_twice (object fs) =
      let client = get-insert_self (codes "client_order_id") null fs in
      let once = set_null (codes "client_order_id") fs in
      let venue = get-insert_self (codes "venue_id") null once in
      ap object (
        set_twice (codes "client_order_id") (codes "venue_id") (set_null (codes "venue_id") once)
          (set-kept (codes "venue_id") (codes "client_order_id") once client) venue)
  null_execution_twice null = refl
  null_execution_twice (bool b) = refl
  null_execution_twice (int n) = refl
  null_execution_twice (real x) = refl
  null_execution_twice (string s) = refl
  null_execution_twice (array xs) = refl

  pub null_agent_twice : (j : Json F) → null_agent (null_agent j) ≡ null_agent j
  unfolding null_agent
  null_agent_twice (object fs) =
      let a = set_null (codes "agent_id") fs in
      let b = set_null (codes "latent_fingerprint") a in
      let c = set_null (codes "feature_schema_id") b in
      let ha = set-kept (codes "feature_schema_id") (codes "agent_id") b (
        set-kept (codes "latent_fingerprint") (codes "agent_id") a
          (get-insert_self (codes "agent_id") null fs)) in
      let hb =
        set-kept (codes "feature_schema_id") (codes "latent_fingerprint") b
          (get-insert_self (codes "latent_fingerprint") null a) in
      ap object (
        ap (set_null (codes "feature_schema_id"))
          (set_twice (codes "agent_id") (codes "latent_fingerprint") c ha hb)
        ∙ insert-same (codes "feature_schema_id") null c
            (get-insert_self (codes "feature_schema_id") null b))
  null_agent_twice null = refl
  null_agent_twice (bool b) = refl
  null_agent_twice (int n) = refl
  null_agent_twice (real x) = refl
  null_agent_twice (string s) = refl
  null_agent_twice (array xs) = refl

  abbrev pub map_opt : (Json F → Json F) → Option (Json F) → Option (Json F)
  map_opt f none = none
  map_opt f (some v) = some (f v)

  put_back-get :
      (k : Text) (f : Json F → Json F) (fs : Fields F) (o : Option (Json F))
      → get_field k fs ≡ o
      → get_field k (put_back k f fs o) ≡ map_opt f o
  put_back-get k f fs none e = e
  put_back-get k f fs (some v) e = get-insert_self k (f v) fs

  at-get :
      (k : Text) (f : Json F → Json F) (fs : Fields F)
      → get_field k (at_field k f fs) ≡ map_opt f (get_field k fs)
  at-get k f fs = put_back-get k f fs (get_field k fs) refl

  put_back-other :
      (k j : Text) (f : Json F → Json F) (fs : Fields F) (o : Option (Json F))
      → text_eq k j ≡ false
      → get_field j (put_back k f fs o) ≡ get_field j fs
  put_back-other k j f fs none ne = refl
  put_back-other k j f fs (some v) ne = get-insert_other k j (f v) fs ne

  -- Where the value is already the result of an idempotent change, the change does nothing.
  put_back-fixed :
      (k : Text) (f : Json F → Json F) (fs : Fields F) (o : Option (Json F))
      → ((v : Json F) → f (f v) ≡ f v)
      → get_field k fs ≡ map_opt f o
      → put_back k f fs (map_opt f o) ≡ fs
  put_back-fixed k f fs none h e = refl
  put_back-fixed k f fs (some v) h e = rw (h v) (insert-same k (f v) fs e)

  at-fixed :
      (k : Text) (f : Json F → Json F) (fs : Fields F) (o : Option (Json F))
      → ((v : Json F) → f (f v) ≡ f v)
      → get_field k fs ≡ map_opt f o
      → at_field k f fs ≡ fs
  at-fixed k f fs o h e = ap (put_back k f fs) e ∙ put_back-fixed k f fs o h e

  -- Nulling the personal fields a second time changes nothing.
  pub null_pii_fields_twice : (j : Json F) → null_pii_fields (null_pii_fields j) ≡ null_pii_fields j
  unfolding null_pii_fields
  null_pii_fields_twice (object fs) =
      let one = at_field (codes "agent") null_agent fs in
      let two = at_field (codes "execution") null_execution one in
      let agent =
        at-fixed (codes "agent") null_agent two (get_field (codes "agent") fs) null_agent_twice (
          put_back-other (codes "execution") (codes "agent") null_execution one _ refl
          ∙ at-get (codes "agent") null_agent fs) in
      let execution =
        at-fixed (codes "execution") null_execution two (get_field (codes "execution") one)
          null_execution_twice (at-get (codes "execution") null_execution one) in
      ap object (ap (at_field (codes "execution") null_execution) agent ∙ execution)
  null_pii_fields_twice null = refl
  null_pii_fields_twice (bool b) = refl
  null_pii_fields_twice (int n) = refl
  null_pii_fields_twice (real x) = refl
  null_pii_fields_twice (string s) = refl
  null_pii_fields_twice (array xs) = refl
