-- ===== src/Safety/Window.antt =====
-- What the calls that CheckRateLimit (agent/safety/safety.go) lets pass amount to over time.
use orjanda.Prelude.{
  ℕ, ◌+◌, ◌≤◌, false, List, [], ◌∷◌, ◌++◌, length, keep, All, if◌then◌else◌, ◌≡◌, refl, ltb, inl,
  inr, arith, Bool-cases,
}
use Prim.Native.Nat.{◌/◌}
use native.Mathlib.Nat.{le-div_iff_mul-le, div-mul-le_self}
use orjanda.Prelude.Int.{ℤ, pos, leb_ℤ}
use orjanda.Safety.Rate.{milli, is_recent, recent, minute}

-- A sliding window: a call passes when fewer than `limit` calls passed in the minute before it. The
-- list holds the times of those that passed, the latest first.
unfoldable pub sliding_window : ℤ → List ℕ → List ℕ → List ℕ
sliding_window limit [] passed = passed
sliding_window limit (now ∷ times) passed =
    sliding_window limit times
      (if leb_ℤ limit (pos (length (recent now passed))) then passed else milli now ∷ passed)

pub milli_mono : {a b : ℕ} → a ≤ b → milli a ≤ milli b
unfolding milli
milli_mono {a} {b} h =
    (le-div_iff_mul-le {k = 1000000} {x = a / 1000000} {y = b} (omega arith)).1
      (omega (arith, div-mul-le_self a 1000000, h))

milli-minute : (a b : ℕ) → a + minute ≤ b → milli a + 60000 ≤ milli b
unfolding milli
milli-minute a b h =
    (le-div_iff_mul-le {k = 1000000} {x = a / 1000000 + 60000} {y = b} (omega arith)).1
      (omega (arith, div-mul-le_self a 1000000, h))

-- What is not recent stays so.
is_recent_later : {a b : ℕ} (ts : ℕ) → a ≤ b → is_recent a ts ≡ false → is_recent b ts ≡ false
unfolding is_recent
is_recent_later ts h old = ground (arith, milli_mono h)

pub recent-recent :
    (a b : ℕ) (stamps : List ℕ) → a ≤ b → recent b (recent a stamps) ≡ recent b stamps
unfolding recent
recent-recent a b [] h = refl
recent-recent a b (ts ∷ stamps) h = elim (Bool-cases (is_recent a ts)) [
  | inl fresh ↦ rw fresh (ground (arith, recent-recent a b stamps h))
  | inr old ↦ rw old (rw (is_recent_later ts h old) (recent-recent a b stamps h))
]

pub recent-append :
    (now : ℕ) (xs ys : List ℕ)
    → length (recent now (xs ++ ys)) ≡ length (recent now xs) + length (recent now ys)
unfolding recent
recent-append now [] ys = omega arith
recent-append now (x ∷ xs) ys = ground (arith, recent-append now xs ys)

-- Nothing is left in the window of what passed more than a minute ago.
pub recent_past :
    (now later : ℕ) (passed : List ℕ)
    → now + minute ≤ later
    → All (λ (ts : ℕ). ts ≤ milli now) passed
    → length (recent later passed) ≡ 0
unfolding recent is_recent
recent_past now later [] h past = refl
recent_past now later (ts ∷ passed) h (p, past) =
    ground (arith, recent_past now later passed h past, milli-minute now later h)

-- Of the calls in the list, the latest first, each had fewer than `limit` others in the minute before.
abbrev pub Throttled : ℤ → List ℕ → Type 0
Throttled limit [] = Unit
Throttled limit (ts ∷ passed) =
    (leb_ℤ limit (pos (length (keep (λ (older : ℕ). ltb ts (older + 60000)) passed))) ≡ false)
    × Throttled limit passed

pub sliding_window-Throttled :
    (limit : ℤ) (times passed : List ℕ)
    → Throttled limit passed
    → Throttled limit (sliding_window limit times passed)
unfolding sliding_window recent is_recent
sliding_window-Throttled limit [] passed h = h
sliding_window-Throttled limit (now ∷ times) passed h =
    elim (Bool-cases (leb_ℤ limit (pos (length (recent now passed))))) [
      | inl full ↦ rw full (sliding_window-Throttled limit times passed h)
      | inr free ↦ rw free (sliding_window-Throttled limit times (milli now ∷ passed) (free, h))
    ]
