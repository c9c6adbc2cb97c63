-- ===== src/Middleware/Tests.antt =====
-- Runs of the limiter of api/middleware/ratelimit.go.
use orjanda.Prelude.{ℕ, String, List, [], ◌∷◌, ◌≡◌, refl, arith}
use orjanda.Prelude.Int.{pos, negsuc}
use orjanda.Middleware.{new_rate_limiter, recent}
use orjanda.Middleware.Window.{serve, windows, new_rate_limiter-windows}

abbrev calls : List (String × ℕ)
calls = ("ann", 1) ∷ ("bob", 2) ∷ ("ann", 3) ∷ ("ann", 4) ∷ ("ann", 12) ∷ []

-- Two in ten ticks: the third of ann's is held back, and her last comes when the first has aged out.
two_of_ten : windows (pos 2) 10 calls [] ≡ (("ann", 12) ∷ ("ann", 3) ∷ ("bob", 2) ∷ ("ann", 1) ∷ [])
unfolding windows recent
two_of_ten = refl

negative_limit : (new_rate_limiter (negsuc 4) (pos 10)).limit ≡ pos 1000
unfolding new_rate_limiter
negative_limit = refl

new_rate_limiter-windows_example :
    serve calls (new_rate_limiter (pos 2) (pos 10)) []
    ≡ windows
        (new_rate_limiter (pos 2) (pos 10)).limit
        (new_rate_limiter (pos 2) (pos 10)).window
        calls
        []
new_rate_limiter-windows_example =
    new_rate_limiter-windows (pos 2) (pos 10) calls
      (omega arith, (omega arith, (omega arith, (omega arith, (omega arith, tt)))))
