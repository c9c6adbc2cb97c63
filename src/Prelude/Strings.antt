-- ===== src/Prelude/Strings.antt =====
-- What the program uses of Go's package `strings`, over texts whose letters are those of ASCII.
use Prim.Native.Nat.{ℕ, ◌+◌, ◌-◌}
use Prim.Native.Char.{Char, code}
use Prim.Native.String.{String, [], ◌∷◌, char_at}
use mathlib.Core.Path.{◌≡◌, refl}
use mathlib.Core.Bool.{Bool, true, false, ◌&&◌}
use mathlib.Core.Option.{Option, none, some}
use native.Mathlib.Omega.{arith}
use orjanda.Prelude.Tests.{leb, eqb, if◌then◌else◌}

unfoldable pub is_upper : ℕ → Bool
is_upper c = leb b'A' c && leb c b'Z'

unfoldable pub is_lower : ℕ → Bool
is_lower c = leb b'a' c && leb c b'z'

unfoldable pub is_digit : ℕ → Bool
is_digit c = leb b'0' c && leb c b'9'

-- the letter that stands for both cases of itself
unfoldable pub fold_code : ℕ → ℕ
unfolding is_upper
fold_code c = if is_upper c then c + 32 else c

-- strings.EqualFold
unfoldable pub equal_fold : String → String → Bool
unfolding fold_code
equal_fold [] [] = true
equal_fold (c ∷ s) (d ∷ t) = eqb (fold_code (code c)) (fold_code (code d)) && equal_fold s t
equal_fold _ _ = false

unfoldable pub lower_char : Char → Char
unfolding is_upper
lower_char c = if is_upper (code c) then char_at "abcdefghijklmnopqrstuvwxyz" (code c - b'A') else c

-- strings.ToLower
unfoldable pub to_lower : String → String
unfolding lower_char
to_lower [] = []
to_lower (c ∷ s) = lower_char c ∷ to_lower s

pub equal_fold_refl : (s : String) → equal_fold s s ≡ true
unfolding equal_fold
equal_fold_refl [] = refl
equal_fold_refl (c ∷ s) = ground (arith, equal_fold_refl s)

pub equal_fold_sym : (s t : String) → equal_fold s t ≡ equal_fold t s
unfolding equal_fold
equal_fold_sym [] [] = refl
equal_fold_sym (c ∷ s) (d ∷ t) = ground (arith, equal_fold_sym s t)
equal_fold_sym [] (d ∷ t) = refl
equal_fold_sym (c ∷ s) [] = refl

pub equal_fold_trans :
    (s t u : String) → equal_fold s t ≡ true → equal_fold t u ≡ true → equal_fold s u ≡ true
unfolding equal_fold
equal_fold_trans [] [] [] h k = refl
equal_fold_trans (c ∷ s) (d ∷ t) (e ∷ u) h k = ground (arith, equal_fold_trans s t u)
equal_fold_trans [] [] (e ∷ u) h k = k
equal_fold_trans [] (d ∷ t) u h k = cc
equal_fold_trans (c ∷ s) [] u h k = cc
equal_fold_trans (c ∷ s) (d ∷ t) [] h k = k

-- strings.HasPrefix
unfoldable pub has_prefix : String → String → Bool
has_prefix s [] = true
has_prefix [] (d ∷ t) = false
has_prefix (c ∷ s) (d ∷ t) = eqb (code c) (code d) && has_prefix s t

cons_before : Char → Option String → Option String
cons_before c none = none
cons_before c (some s) = some (c ∷ s)

-- what stands before the first character with the given code, if there is one
unfoldable pub before : ℕ → String → Option String
unfolding cons_before
before mark [] = none
before mark (c ∷ s) =
    let rest = before mark s in if eqb (code c) mark then some [] else cons_before c rest

unfoldable pub upper_char : Char → Char
unfolding is_lower
upper_char c = if is_lower (code c) then char_at "ABCDEFGHIJKLMNOPQRSTUVWXYZ" (code c - b'a') else c

-- strings.ToUpper
unfoldable pub to_upper : String → String
unfolding upper_char
to_upper [] = []
to_upper (c ∷ s) = upper_char c ∷ to_upper s
