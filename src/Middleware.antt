-- ===== src/Middleware.antt =====
-- api/middleware/ratelimit.go: the limit on the requests of each caller. The answer of a request is
-- whether it is handed on; the cache that the limiter holds is not used.
mod Tests
pub mod Window
use orjanda.Prelude.{
  ℕ, zero, suc, ◌+◌, String, Bool, true, false, ◌==◌, List, [], ◌∷◌, ◌++◌, Option, none, some, Dict,
  lookup, insert, length, keep, if◌then◌else◌, ltb, leb,
}
use orjanda.Prelude.Int.{ℤ, pos, negsuc, leb_ℤ}
use orjanda.Auth.{Context, from_context}

pub record RateLimiter : Type 0 where
  pub requests : Dict (List ℕ)
  pub limit : ℤ
  pub window : ℕ

abbrev pub positive_or : ℤ → ℕ → ℕ
positive_or (pos zero) default = default
positive_or (pos (suc n)) default = suc n
positive_or (negsuc n) default = default

-- RateLimit, with the defaults of 1000 requests and a minute of nanoseconds
unfoldable pub new_rate_limiter : ℤ → ℤ → RateLimiter
new_rate_limiter limit window = record {
  requests = [];
  limit = pos (positive_or limit 1000);
  window = positive_or window 60000000000;
}

-- the caller's user, or the address of the request
unfoldable pub caller_key : Context → String → String
caller_key ctx remote_addr =
    let user = (from_context ctx).user_id in if user == "" then remote_addr else user

abbrev pub times_or_empty : Option (List ℕ) → List ℕ
times_or_empty none = []
times_or_empty (some times) = times

-- `t.After(cutoff)`, with the window on the other side
unfoldable pub recent : ℕ → ℕ → List ℕ → List ℕ
recent window now times = keep (λ (t : ℕ). ltb now (t + window)) times

-- the handler, up to the next one: whether the request passes
unfoldable pub admit : ℕ → String → RateLimiter → Bool × RateLimiter
admit now key rl =
    let valid = recent rl.window now (times_or_empty (lookup key rl.requests)) in
    if leb_ℤ rl.limit (pos (length valid))
    then (false, record rl { requests = insert key valid rl.requests })
    else (true, record rl { requests = insert key (valid ++ now ∷ []) rl.requests })
