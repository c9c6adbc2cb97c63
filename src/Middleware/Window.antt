-- ===== src/Middleware/Window.antt =====
-- Which requests the limiter of api/middleware/ratelimit.go hands on, over time and for many callers.
use orjanda.Prelude.{
  ℕ, ◌+◌, ◌≤◌, String, true, false, ◌==◌, eq_iff, List, [], ◌∷◌, ◌++◌, lookup, insert, length,
  if◌then◌else◌, ltb, lookup-insert, ◌≡◌, refl, sym, ◌∙◌, ap, inl, inr, arith, Bool-cases,
}
use orjanda.Prelude.Int.{ℤ, pos, leb_ℤ}
use orjanda.Middleware.{RateLimiter, new_rate_limiter, times_or_empty, recent, admit}

-- The requests that passed, the latest first, each with its caller and its time.
abbrev pub Log : Type 0
Log = List (String × ℕ)

abbrev times_of : String → Log → List ℕ
times_of key [] = []
times_of key ((k, t) ∷ log) = if k == key then t ∷ times_of key log else times_of key log

-- requests with their callers and times, one after the other
unfoldable pub serve : List (String × ℕ) → RateLimiter → Log → Log
serve [] rl log = log
serve ((key, now) ∷ calls) rl log =
    let (passes, after) = admit now key rl in
    serve calls after (if passes then (key, now) ∷ log else log)

-- A sliding window for each caller, by the log alone.
unfoldable pub windows : ℤ → ℕ → List (String × ℕ) → Log → Log
windows limit window [] log = log
windows limit window ((key, now) ∷ calls) log = windows limit window calls (
    if leb_ℤ limit (pos (length (recent window now (times_of key log))))
    then log
    else (key, now) ∷ log)

-- The clock does not run back.
abbrev pub Clock : ℕ → List (String × ℕ) → Type 0
Clock last [] = Unit
Clock last ((key, now) ∷ calls) = (last ≤ now) × Clock now calls

recent-recent :
    (w a b : ℕ) (times : List ℕ) → a ≤ b → recent w b (recent w a times) ≡ recent w b times
unfolding recent
recent-recent w a b [] h = refl
recent-recent w a b (t ∷ times) h = elim (Bool-cases (ltb a (t + w))) [
  | inl fresh ↦ rw fresh (ground (arith, recent-recent w a b times h))
  | inr old ↦ rw old (ground (arith, recent-recent w a b times h))
]

recent-append :
    (w now : ℕ) (xs ys : List ℕ)
    → length (recent w now (xs ++ ys)) ≡ length (recent w now xs) + length (recent w now ys)
unfolding recent
recent-append w now [] ys = omega arith
recent-append w now (x ∷ xs) ys = ground (arith, recent-append w now xs ys)

abbrev stamps : String → RateLimiter → List ℕ
stamps key rl = times_or_empty (lookup key rl.requests)

-- The limiter knows of each caller's passed requests what any later window can see of them.
Knows : ℕ → RateLimiter → Log → Type 0
Knows last rl log =
    (key : String) (now : ℕ)
    → last ≤ now
    → length (recent rl.window now (stamps key rl))
      ≡ length (recent rl.window now (times_of key log))

-- Another caller's stamps do not change.
stamps-insert :
    (key other : String) (times : List ℕ) (rl : RateLimiter)
    → stamps other (record rl { requests = insert key times rl.requests })
      ≡ (if key == other then times else stamps other rl)
stamps-insert key other times rl = elim (Bool-cases (key == other)) [
  | inl same ↦ rw (lookup-insert key other times rl.requests) (rw same)
  | inr apart ↦ rw (lookup-insert key other times rl.requests) (rw apart)
]

denied-Knows :
    (last now : ℕ) (key : String) (rl : RateLimiter) (log : Log)
    → last ≤ now
    → Knows last rl log
    → Knows now
        (record rl { requests = insert key (recent rl.window now (stamps key rl)) rl.requests })
        log
unfolding Knows
denied-Knows last now key rl log h k other later le =
    ap (λ (times : List ℕ). length (recent rl.window later times))
      (stamps-insert key other (recent rl.window now (stamps key rl)) rl)
    ∙ elim (Bool-cases (key == other)) [
      | inl same ↦ rw same (
          ap (λ (times : List ℕ). length times)
            (recent-recent rl.window now later (stamps key rl) le)
          ∙ ap (λ (j : String). length (recent rl.window later (stamps j rl)))
              ((eq_iff key other).0 same)
          ∙ k other later (omega arith))
      | inr apart ↦ rw apart (k other later (omega arith))
    ]

passed-Knows :
    (last now : ℕ) (key : String) (rl : RateLimiter) (log : Log)
    → last ≤ now
    → Knows last rl log
    → Knows now
        (record rl {
          requests = insert key (recent rl.window now (stamps key rl) ++ now ∷ []) rl.requests;
        })
        ((key, now) ∷ log)
unfolding Knows
passed-Knows last now key rl log h k other later le =
    ap (λ (times : List ℕ). length (recent rl.window later times))
      (stamps-insert key other (recent rl.window now (stamps key rl) ++ now ∷ []) rl)
    ∙ elim (Bool-cases (key == other)) [
      | inl same ↦
          let parts =
            recent-append rl.window later (recent rl.window now (stamps key rl)) (now ∷ []) in
          let kept =
            ap (λ (times : List ℕ). length times)
              (recent-recent rl.window now later (stamps key rl) le) in
          let own =
            ap (λ (j : String). length (recent rl.window later (stamps j rl)))
              ((eq_iff key other).0 same) in
          let known = k other later (omega arith) in
          rw same
            (omega arith ∙ sym (recent-append rl.window later (now ∷ []) (times_of other log)))
      | inr apart ↦ rw apart (k other later (omega arith))
    ]

Knows-at :
    (last now : ℕ) (key : String) (rl : RateLimiter) (log : Log)
    → last ≤ now
    → Knows last rl log
    → length (recent rl.window now (stamps key rl))
      ≡ length (recent rl.window now (times_of key log))
unfolding Knows
Knows-at last now key rl log le k = k key now le

serve-windows :
    (last : ℕ) (calls : List (String × ℕ)) (rl : RateLimiter) (log : Log)
    → Clock last calls
    → Knows last rl log
    → serve calls rl log ≡ windows rl.limit rl.window calls log
unfolding serve windows admit
serve-windows last [] rl log c k = refl
serve-windows last ((key, now) ∷ calls) rl log (le, c) k =
    let same = Knows-at last now key rl log le k in
    elim (Bool-cases (leb_ℤ rl.limit (pos (length (recent rl.window now (stamps key rl)))))) [
      | inl full ↦
          let denied : leb_ℤ rl.limit (pos (length (recent rl.window now (times_of key log))))
              ≡ true =
            ground arith in
          rw full
            (rw denied (serve-windows now calls _ log c (denied-Knows last now key rl log le k)))
      | inr free ↦
          let passes : leb_ℤ rl.limit (pos (length (recent rl.window now (times_of key log))))
              ≡ false =
            ground arith in
          rw free (
            rw passes (
              serve-windows now calls _ ((key, now) ∷ log) c
                (passed-Knows last now key rl log le k)))
    ]

-- Of the requests after a new limiter is made, by a clock that does not run back and for any callers,
-- those pass whose caller had fewer than the limit of passed requests in the window before, and no others.
pub new_rate_limiter-windows :
    (limit window : ℤ) (calls : List (String × ℕ))
    → Clock 0 calls
    → serve calls (new_rate_limiter limit window) []
      ≡ windows
          (new_rate_limiter limit window).limit
          (new_rate_limiter limit window).window
          calls
          []
unfolding new_rate_limiter Knows lookup
new_rate_limiter-windows limit window calls c =
    serve-windows 0 calls (new_rate_limiter limit window) [] c (λ key now le. refl)
