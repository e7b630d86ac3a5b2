-- ===== src/RateLimit.antt =====
-- src/rate_limit.rs: a fixed window of one second for each token. The map is a function from
-- tokens; `now_sec` is the reading of the clock in whole seconds.
pub mod Window
use irl_engine_ax.Prelude.{
  ℕ, ◌+◌, ◌==◌, not, ltb, Text, text_eq, Bool, true, false, Option, none, some, Result, ok, err,
  if◌then◌else◌, Action,
}
use irl_engine_ax.Errors.{AppError, rate_limit_exceeded}

pub record RateLimiter : Type 0 where
  pub counters : Text → Option (ℕ × ℕ)
  pub max_per_second : ℕ  -- u32

unfoldable pub new : ℕ → RateLimiter
new max_per_second = record { counters = λ _. none; max_per_second = max_per_second }

abbrev pub entry : RateLimiter → Text → ℕ → ℕ × ℕ
entry l token now_sec = elim (l.counters token) [ none ↦ (now_sec, 0) | some e ↦ e ]

abbrev pub put : RateLimiter → Text → ℕ × ℕ → RateLimiter
put l token e = record l { counters = λ t. if text_eq t token then some e else l.counters t }

-- `RateLimiter::check`, one call at a time
unfoldable pub check : {F : Type 0} → Text → ℕ → Action RateLimiter (AppError F) (Unit {0})
check token now_sec l =
    let (window, count) = entry l token now_sec in
    if l.max_per_second == 0
    then (ok tt, l)
    else if not (window == now_sec)
    then (ok tt, put l token (now_sec, 1))
    else if ltb count l.max_per_second
    then (ok tt, put l token (window, count + 1))
    else (err rate_limit_exceeded, l)
