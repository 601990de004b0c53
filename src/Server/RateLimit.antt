-- ===== src/Server/RateLimit.antt =====
-- The rate limiter of internal/server/middleware.go. Keys stand as numbers, and instants as numbers of
-- nanoseconds. The mutex makes each call one step.
pub mod Budget
use district_scheduler.Common.{
  ℕ, zero, suc, ◌+◌, Bool, true, false, not, ◌&&◌, ◌||◌, Option, none, some, List, [], ◌∷◌, ltb,
  leb, ◌==◌, if◌then◌else◌,
}
use district_scheduler.Common.Maps.{lookup, insert}

-- `rlWindow`
pub record Window : Type 0 where
  pub count : ℕ
  pub expires_at : ℕ

pub record RateLimiter : Type 0 where
  pub windows : List (ℕ × Window)
  pub limit : ℕ
  pub period : ℕ

abbrev pub opened : ℕ → ℕ → RateLimiter → Bool × RateLimiter
opened now key rl = (
  true,
  record rl {
    windows = insert key (record { count = 1; expires_at = now + rl.period }) rl.windows;
  },
)

-- What `allow` does with the window that it finds.
abbrev pub decide : ℕ → ℕ → RateLimiter → Option Window → Bool × RateLimiter
decide now key rl none = opened now key rl
decide now key rl (some w) =
    if ltb w.expires_at now
    then opened now key rl
    else if leb rl.limit w.count
    then (false, rl)
    else (true, record rl { windows = insert key (record w { count = suc w.count }) rl.windows })

unfoldable pub allow : ℕ → ℕ → RateLimiter → Bool × RateLimiter
unfolding lookup insert
allow now key rl = decide now key rl (lookup key rl.windows)

unfoldable pub sweep : ℕ → List (ℕ × Window) → List (ℕ × Window)
sweep now [] = []
sweep now ((k, w) ∷ m) =
    let rest = sweep now m in if ltb w.expires_at now then rest else (k, w) ∷ rest

-- One round of `cleanup`.
unfoldable pub cleanup : ℕ → RateLimiter → RateLimiter
unfolding sweep
cleanup now rl = record rl { windows = sweep now rl.windows }
