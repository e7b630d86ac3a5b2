-- ===== src/Gdpr/Kept.antt =====
-- What the steps of an erasure keep: the goodness of rows, and the keys by which they are found.
use irl_engine_ax.Prelude.{ℕ, ℤ, ◌==◌, ◌&&◌, true, List, [], ◌∷◌, ◌≡◌, sym, ap, ◌∙◌, All, Pairwise}
use irl_engine_ax.Encryption.{Aead, JsonBytes}
use irl_engine_ax.Store.{TraceRow, same_time}
use irl_engine_ax.Gdpr.{Draws, of_agent}
use irl_engine_ax.Gdpr.Rows.{Step, Step-viewed, Step-key, Good, owned, All-Good}
use irl_engine_ax.Gdpr.Pages.{SameKey}
use irl_engine_ax.Gdpr.Batch.{DoneKey, Steps}

module _ {F : Type 0} (aead : Aead) (bytes : JsonBytes F) (draws : Draws) (now : ℤ)
    (request agent : ℕ) where
  -- The rows of the agent are good, each for all rows.
  abbrev pub AgentGood : List (TraceRow F) → List (TraceRow F) → Type 0
  AgentGood rows rs =
      All (λ r. of_agent agent r ≡ true → All (Good aead bytes draws now request agent r) rows) rs

  Good-Step :
      (r r' x : TraceRow F)
      → Step aead bytes draws now request agent r r'
      → Good aead bytes draws now request agent r x
      → Good aead bytes draws now request agent r' x
  Good-Step r r' x st g e =
      let k = Step-key aead bytes draws now request agent r r' st in
      let found = ap (λ c. x.trace_id == c.0 && same_time x.txn_time c.1) k in
      let (v, mine) = g (sym found ∙ e) in
      (v ∙ sym (Step-viewed aead bytes draws now request agent r r' st), mine)

  All-Good-Step :
      (r r' : TraceRow F) (rows : List (TraceRow F))
      → Step aead bytes draws now request agent r r'
      → All (Good aead bytes draws now request agent r) rows
      → All (Good aead bytes draws now request agent r') rows
  All-Good-Step r r' [] st g = tt
  All-Good-Step r r' (x ∷ rows) st (g, gs) = (Good-Step r r' x st g, All-Good-Step r r' rows st gs)

  pub AgentGood-Steps :
      (a b rs rs' : List (TraceRow F))
      → Steps aead bytes draws now request agent a b
      → Steps aead bytes draws now request agent rs rs'
      → AgentGood a rs
      → AgentGood b rs'
  AgentGood-Steps a b [] [] h k g = tt
  AgentGood-Steps a b [] (r' ∷ rs') h k g = absurd k
  AgentGood-Steps a b (r ∷ rs) [] h k g = absurd k
  AgentGood-Steps a b (r ∷ rs) (r' ∷ rs') h (k, ks) (g, gs) = (
    λ e.
        (let mine =
            ap (λ c. owned agent c.2) (Step-key aead bytes draws now request agent r r' k) in
          All-Good-Step r r' b k
            (All-Good aead bytes draws now request agent r a b h (g (sym mine ∙ e)))),
    AgentGood-Steps a b rs rs' h ks gs,
  )

  pub SameKey-Steps :
      (a b : List (TraceRow F))
      → Steps aead bytes draws now request agent a b
      → Pairwise (SameKey agent) a b
  SameKey-Steps [] [] h = tt
  SameKey-Steps [] (y ∷ b) h = absurd h
  SameKey-Steps (x ∷ a) [] h = absurd h
  SameKey-Steps (x ∷ a) (y ∷ b) (h, hs) =
      let k = Step-key aead bytes draws now request agent x y h in
      ((ap (λ c. c.0) k, ap (λ c. c.1) k, ap (λ c. c.2) k), SameKey-Steps a b hs)

  -- Being done depends on the key alone.
  DoneKey-SameKey :
      (r r' : TraceRow F) (rows : List (TraceRow F))
      → SameKey agent r r'
      → DoneKey aead bytes draws now request rows r'
      → DoneKey aead bytes draws now request rows r
  DoneKey-SameKey r r' [] k d = tt
  DoneKey-SameKey r r' (x ∷ rows) k (d, ds) =
      (λ e. d (rw (k.0, k.1) e), DoneKey-SameKey r r' rows k ds)

  pub All-DoneKey :
      (rows a b : List (TraceRow F))
      → Pairwise (SameKey agent) a b
      → All (DoneKey aead bytes draws now request rows) b
      → All (DoneKey aead bytes draws now request rows) a
  All-DoneKey rows [] [] h d = tt
  All-DoneKey rows [] (y ∷ b) h d = absurd h
  All-DoneKey rows (x ∷ a) [] h d = absurd h
  All-DoneKey rows (x ∷ a) (y ∷ b) (h, hs) (d, ds) =
      (DoneKey-SameKey x y rows h d, All-DoneKey rows a b hs ds)
