-- ===== src/Admin/Tokens/Views.antt =====
-- What the token operations of Admin.Tokens do to the table and the cache.
use irl_engine_ax.Prelude.{
  ℕ, Text, codes, Bool, true, false, List, [], ◌∷◌, Option, none, some, Result, ok, any, select,
  map, find, update_where, ◌≡◌, refl, sym, ap, ◌∙◌, arith, Bool-cases, inl, inr,
}
use irl_engine_ax.Prelude.Effects.{
  pure, modify, check, reads, ◌>>=◌, ◌>>◌, Leaves, Leaves-bind, Leaves-modify, Leaves-check,
  between,
}
use irl_engine_ax.Platform.{Externals}
use irl_engine_ax.Errors.{AppError}
use irl_engine_ax.Json.{Json}
use irl_engine_ax.Admin.{
  ApiToken, AppState, AuditAction, token_revoke, Handler, Operator, query, insert_audit_log,
  take_fault,
}
use irl_engine_ax.Admin.Tokens.{
  sha256_hex, hash_of, is_active, has_hash, refresh_cache, api_row, insert_token, insert_unique,
  token_issue_route, token_revoke_route, has_token_id, found_token, client_details, revoke_row,
  revoke_hash,
}

module _ {F : Type 0} where
  -- The two places that hold tokens.
  abbrev pub view : AppState F → List ApiToken × List Text
  view s = (s.api_tokens, s.token_cache)

  kept :
      {A : Type 0} (m : Handler F A)
      → Leaves view m
      → (s : AppState F) (a : A) (s' : AppState F) → m s ≡ (ok a, s')
      → view s' ≡ view s
  kept m h s a s' e = sym (ap (λ p. view p.1) e) ∙ h.at s

  Leaves-take_fault : (fs : List Bool) (s : AppState F) → view (take_fault fs s).1 ≡ view s
  Leaves-take_fault [] s = refl
  Leaves-take_fault (true ∷ fs) s = refl
  Leaves-take_fault (false ∷ fs) s = refl

  Leaves-query : Leaves view query
  unfolding query
  Leaves-query = record { at = λ s. Leaves-take_fault s.faults s }

  Leaves-audit :
      (who : Operator) (action : AuditAction) (target : Option Text) (details : Option (Json F))
      → Leaves view (insert_audit_log who action target details)
  unfolding insert_audit_log
  Leaves-audit who action target details =
      Leaves-bind query _ Leaves-query (λ _. Leaves-modify _ (λ s. refl))

  -- A successful refresh: the table as it was, the cache made of it.
  pub refreshed :
      (s s' : AppState F)
      → refresh_cache s ≡ (ok tt, s')
      → view s' ≡ (s.api_tokens, map hash_of (select is_active s.api_tokens))
  unfolding refresh_cache modify
  refreshed s s' h =
      let b = between query _ s tt s' h in
      let tables = ap (λ p. p.0) (kept query Leaves-query s b.value b.middle b.before) in
      sym (ap (λ p. view p.1) b.after)
      ∙ ap (λ rows. (rows, map hash_of (select is_active rows))) tables

  modified :
      (f : AppState F → AppState F) (s s' : AppState F)
      → modify {E = AppError F} f s ≡ (ok tt, s')
      → s' ≡ f s
  unfolding modify
  modified f s s' h = sym (ap (λ p. p.1) h)

  -- A row that is inserted stands in front.
  inserted :
      (row : ApiToken) (s s' : AppState F)
      → insert_token row s ≡ (ok tt, s')
      → s'.api_tokens ≡ row ∷ s.api_tokens
  unfolding insert_token
  inserted row s s' h =
      let b = between query _ s tt s' h in
      let tables = ap (λ p. p.0) (kept query Leaves-query s b.value b.middle b.before) in
      unique b.middle tables b.after
    where
      unique :
          (m : AppState F)
          → m.api_tokens ≡ s.api_tokens
          → insert_unique row m ≡ (ok tt, s')
          → s'.api_tokens ≡ row ∷ s.api_tokens
      unique m e k = elim (Bool-cases (any (has_hash row.token_hash) m.api_tokens)) [
        | inl f ↦ ground (arith, rw f at k)
        | inr f ↦ sym (ap (λ p. p.1.api_tokens) (rw f at k)) ∙ ap (λ rows. row ∷ rows) e
      ]

  -- A chain that ends by computing an answer.
  pub before_pure :
      {A B : Type 0} (m : Handler F A) (g : A → B) (s : AppState F) (b : B) (s' : AppState F)
      → (m >>= λ a. pure (g a)) s ≡ (ok b, s')
      → (a : A) × (m s ≡ (ok a, s'))
  unfolding pure
  before_pure m g s b s' h =
      let c = between m _ s b s' h in (c.value, c.before ∙ ap (λ p. (ok c.value, p.1)) c.after)

  -- A chain that ends by an entry in the log, and then an answer.
  before_audit :
      {A B : Type 0} (m : Handler F A) (who : Operator) (action : AuditAction)
      (target : Option Text) (details : Option (Json F)) (b : B) (s : AppState F) (c : B)
      (s' : AppState F)
      → (m >> insert_audit_log who action target details >> pure b) s ≡ (ok c, s')
      → (a : A) × (mid : AppState F) × (m s ≡ (ok a, mid)) × (view s' ≡ view mid)
  before_audit m who action target details b s c s' h =
      let (u, e) =
        before_pure (m >> insert_audit_log who action target details) (λ _. b) s c s' h in
      let d = between m (λ _. insert_audit_log who action target details) s u s' e in
      (
        d.value,
        d.middle,
        d.before,
        kept _ (Leaves-audit who action target details) d.middle u s' d.after,
      )

  -- What an operation makes of the active hashes.
  pub issue-view :
      ⦃ex : Externals⦄ (who : Operator) (client_name : Text) (raw_bytes : List ℕ) (s : AppState F)
      (answer : Text × Text) (s' : AppState F)
      → token_issue_route who client_name raw_bytes s ≡ (ok answer, s')
      → let rows = api_row (sha256_hex (ex.hex_encode raw_bytes)) client_name ∷ s.api_tokens in
        view s' ≡ (rows, map hash_of (select is_active rows))
  unfolding token_issue_route check
  issue-view ⦃ex⦄ who client_name raw_bytes s answer s' h =
      let row = api_row (sha256_hex (ex.hex_encode raw_bytes)) client_name in
      let (u, mid, e, v) = before_audit _ who _ _ _ _ s answer s' h in
      let r = between _ (λ _. refresh_cache) s u mid e in
      let i = between _ (λ _. insert_token row) s r.value r.middle r.before in
      let same = ap (λ p. p.1.api_tokens) i.before in
      let rows = inserted row i.middle r.middle i.after ∙ ap (λ t. row ∷ t) (sym same) in
      v ∙ refreshed r.middle mid r.after ∙ ap (λ t. (t, map hash_of (select is_active t))) rows

  found-some :
      (id : Text) (o : Option ApiToken) (row : ApiToken)
      → Path (Result (AppError F) ApiToken) (found_token id o) (ok row)
      → o ≡ some row
  found-some id none row h = ground arith
  found-some id (some r) row h = ground arith

  -- The second half of a revocation, from the row that was found.
  revoked-view :
      (who : Operator) (token_id : Text) (row : ApiToken) (s : AppState F) (answer : Text × Text)
      (s' : AppState F)
      → (query
            >> modify (revoke_hash row.token_hash)
            >> refresh_cache
            >> insert_audit_log who token_revoke (some token_id) (client_details row.client_name)
            >> pure (token_id, codes "revoked"))
          s
        ≡ (ok answer, s')
      → let rows = update_where (has_hash row.token_hash) revoke_row s.api_tokens in
        view s' ≡ (rows, map hash_of (select is_active rows))
  revoked-view who token_id row s answer s' h =
      let (u, mid, e, v) = before_audit _ who _ _ _ _ s answer s' h in
      let r = between _ (λ _. refresh_cache) s u mid e in
      let w =
        between query (λ _. modify (revoke_hash row.token_hash)) s r.value r.middle r.before in
      let old = ap (λ p. p.0) (kept query Leaves-query s w.value w.middle w.before) in
      let rows =
        ap (λ m. m.api_tokens) (modified _ w.middle r.middle w.after)
        ∙ ap (λ t. update_where (has_hash row.token_hash) revoke_row t) old in
      v ∙ refreshed r.middle mid r.after ∙ ap (λ t. (t, map hash_of (select is_active t))) rows

  pub revoke-view :
      (who : Operator) (token_id : Text) (s : AppState F) (answer : Text × Text) (s' : AppState F)
      → token_revoke_route who token_id s ≡ (ok answer, s')
      → (row : ApiToken) × (find (has_token_id token_id) s.api_tokens ≡ some row)
        × (let rows = update_where (has_hash row.token_hash) revoke_row s.api_tokens in
            view s' ≡ (rows, map hash_of (select is_active rows)))
  unfolding token_revoke_route reads
  revoke-view who token_id s answer s' h =
      let c = between _ _ s answer s' h in
      let d =
        between _
          (λ _. reads (λ m. found_token token_id (find (has_token_id token_id) m.api_tokens))) s
          c.value c.middle c.before in
      let old : view d.middle ≡ view s =
        kept _ (Leaves-bind _ _ (Leaves-check _ _) (λ _. Leaves-query)) s d.value d.middle
          d.before in
      let same : d.middle ≡ c.middle = ap (λ p. p.1) d.after in
      let rows : c.middle.api_tokens ≡ s.api_tokens =
        ap (λ m. m.api_tokens) (sym same) ∙ ap (λ p. p.0) old in
      let found = found-some token_id _ c.value (ap (λ p. p.0) d.after) in
      (
        c.value,
        ap (λ t. find (has_token_id token_id) t) (sym (ap (λ p. p.0) old)) ∙ found,
        revoked-view who token_id c.value c.middle answer s' c.after
            ∙ ap
                (λ t.
                  (let rows = update_where (has_hash c.value.token_hash) revoke_row t in
                    (rows, map hash_of (select is_active rows))))
                rows,
      )
