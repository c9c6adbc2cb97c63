-- ===== src/Safety/Passed.antt =====
-- The calls that CheckRateLimit (agent/safety/safety.go) lets pass are those of a sliding window.
use orjanda.Prelude.{
  ℕ, ◌≤◌, true, false, List, [], ◌∷◌, ◌++◌, Option, some, length, ◌≡◌, refl, sym, subst, inl, inr,
  arith, Bool-cases,
}
use orjanda.Prelude.Int.{ℤ, pos, leb_ℤ}
use orjanda.Errors.{Result, ok, err}
use orjanda.Auth.{Identity, Context}
use orjanda.Cache.{Store, new_lru_store, get, set}
use orjanda.Safety.{Layer}
use orjanda.Safety.Rate.{milli, recent, minute, rate_key, is_limited, throttle, check_rate_limit}
use orjanda.Safety.Window.{sliding_window, Throttled, sliding_window-Throttled}
use orjanda.Safety.Memory.{Remembers, start-Remembers, seen-Remembers, note-Remembers, stamps_at}

abbrev note : Result (Unit {0}) → ℕ → List ℕ → List ℕ
note (ok _) ts passed = ts ∷ passed
note (err _) ts passed = passed

-- the times of the calls that CheckRateLimit lets pass, one call after the other, the latest first
unfoldable pub calls_passed :
    Layer → Context → Identity → List ℕ → Option (Store (List ℕ)) → List ℕ → List ℕ
calls_passed l ctx id [] s passed = passed
calls_passed l ctx id (now ∷ times) s passed =
    let (result, after) = check_rate_limit l now ctx id s in
    calls_passed l ctx id times after (note result (milli now) passed)

-- A clock does not run back.
abbrev pub Clock : ℕ → List ℕ → Type 0
Clock last [] = Unit
Clock last (now ∷ times) = (last ≤ now) × Clock now times

module _ (l : Layer) (ctx : Context) (id : Identity) (limited : is_limited l ctx id ≡ true) where
  calls_passed-sliding_window :
      (last : ℕ) (times : List ℕ) (s : Store (List ℕ)) (passed : List ℕ)
      → Clock last times
      → Remembers (rate_key l ctx id) last s passed
      → calls_passed l ctx id times (some s) passed
        ≡ sliding_window l.policy.rate_limit.operations_per_minute times passed
  unfolding calls_passed check_rate_limit throttle sliding_window
  calls_passed-sliding_window last [] s passed c r = refl
  calls_passed-sliding_window last (now ∷ times) s passed (le, c) r =
      let key = rate_key l ctx id in
      let limit = l.policy.rate_limit.operations_per_minute in
      let same = r.agrees now now le (omega arith) in
      elim (Bool-cases (leb_ℤ limit (pos (length (recent now (stamps_at key now s)))))) [
        | inl full ↦
            let denied : leb_ℤ limit (pos (length (recent now passed))) ≡ true = ground arith in
            rw limited (
              rw full (
                rw denied (
                  calls_passed-sliding_window now times (get now key s).1 passed c
                    (seen-Remembers key last now s passed le r))))
        | inr free ↦
            let passes : leb_ℤ limit (pos (length (recent now passed))) ≡ false = ground arith in
            rw limited (
              rw free (
                rw passes (
                  calls_passed-sliding_window now times
                    (set now key (recent now (stamps_at key now s) ++ milli now ∷ []) minute
                      (get now key s).1)
                    (milli now ∷ passed) c (note-Remembers key last now s passed le r))))
      ]

  -- Of one caller's calls after a new cache is made, by a clock that does not run back, those pass that
  -- had fewer than the limit of passed calls in the minute before them, and no others.
  pub check_rate_limit-sliding_window :
      (n : ℤ) (times : List ℕ)
      → Clock 0 times
      → calls_passed l ctx id times (some (new_lru_store n)) []
        ≡ sliding_window l.policy.rate_limit.operations_per_minute times []
  check_rate_limit-sliding_window n times c =
      calls_passed-sliding_window 0 times (new_lru_store n) [] c
        (start-Remembers (rate_key l ctx id) n)

  -- In no minute that ends with a call that passed did more than the limit of the caller's calls pass.
  pub check_rate_limit-Throttled :
      (n : ℤ) (times : List ℕ)
      → Clock 0 times
      → Throttled l.policy.rate_limit.operations_per_minute
          (calls_passed l ctx id times (some (new_lru_store n)) [])
  check_rate_limit-Throttled n times c =
      subst (Throttled l.policy.rate_limit.operations_per_minute)
        (sym (check_rate_limit-sliding_window n times c))
        (sliding_window-Throttled l.policy.rate_limit.operations_per_minute times [] tt)
