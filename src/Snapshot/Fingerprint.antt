-- ===== src/Snapshot/Fingerprint.antt =====
-- Which inputs of `compute_latent_fingerprint` are told apart.
use irl_engine_ax.Prelude.{
  ℕ, ◌≡◌, refl, sym, ap, ◌∙◌, Text, codes, List, [], ◌∷◌, ◌++◌, as_bytes, utf8_char,
}
use irl_engine_ax.Platform.{Externals}
use irl_engine_ax.Snapshot.{compute_latent_fingerprint}

append_assoc : (a b c : List ℕ) → (a ++ b) ++ c ≡ a ++ (b ++ c)
append_assoc [] b c = refl
append_assoc (x ∷ a) b c = ap (λ z. x ∷ z) (append_assoc a b c)

as_bytes-append : (s t : Text) → as_bytes (s ++ t) ≡ as_bytes s ++ as_bytes t
unfolding as_bytes
as_bytes-append [] t = refl
as_bytes-append (c ∷ s) t =
    ap (λ z. utf8_char c ++ z) (as_bytes-append s t)
    ∙ sym (append_assoc (utf8_char c) (as_bytes s) (as_bytes t))

regrouped :
    (p m s rest : List ℕ) (bar : List ℕ)
    → (p ++ (bar ++ m)) ++ (bar ++ (s ++ rest)) ≡ p ++ (bar ++ ((m ++ (bar ++ s)) ++ rest))
regrouped p m s rest bar = simp (append_assoc)

separated :
    (prompt moved schema : Text) (rest : List ℕ)
    → as_bytes (prompt ++ (codes "||" ++ moved))
        ++ (as_bytes (codes "||") ++ (as_bytes schema ++ rest))
      ≡ as_bytes prompt
        ++ (as_bytes (codes "||") ++ (as_bytes (moved ++ (codes "||" ++ schema)) ++ rest))
separated prompt moved schema rest =
    let a = as_bytes-append prompt (codes "||" ++ moved) in
    let b = as_bytes-append (codes "||") moved in
    let c = as_bytes-append moved (codes "||" ++ schema) in
    let d = as_bytes-append (codes "||") schema in
    rw (a, b, c, d)
      (regrouped (as_bytes prompt) (as_bytes moved) (as_bytes schema) rest (as_bytes (codes "||")))

module _ ⦃ex : Externals⦄ where
  -- A separator inside a part is not told from the one between parts: a text moved from the end
  -- of the prompt version to the start of the schema id, with its separator, leaves the fingerprint
  -- as it is.
  pub compute_latent_fingerprint-shift :
      (model prompt moved schema checksum : Text)
      → compute_latent_fingerprint model (prompt ++ (codes "||" ++ moved)) schema checksum
        ≡ compute_latent_fingerprint model prompt (moved ++ (codes "||" ++ schema)) checksum
  unfolding compute_latent_fingerprint
  compute_latent_fingerprint-shift model prompt moved schema checksum =
      ap (λ z. ex.hex_encode (ex.sha256 (as_bytes model ++ (as_bytes (codes "||") ++ z))))
        (separated prompt moved schema (as_bytes (codes "||") ++ as_bytes checksum))
