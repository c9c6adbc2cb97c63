-- ===== src/Prelude/Sorting.antt =====
-- The order of texts that `sort.Strings` puts them in.
use Prim.Native.Nat.{Ordering}
use Prim.Native.String.{String, compare}
use native.Mathlib.Omega.{arith}
use mathlib.Core.Path.{◌≡◌, refl}
use mathlib.Core.Bool.{◌||◌}
use mathlib.Core.List.{List, [], ◌∷◌}
use text.Mathlib.Text.{◌==◌}
use orjanda.Prelude.Lists.{All, member}

-- sort.Strings
unfoldable pub insert_sorted : String → List String → List String
insert_sorted s [] = s ∷ []
insert_sorted s (t ∷ ts) =
    let rest = insert_sorted s ts in elim (compare t s) [ Ordering.gt ↦ s ∷ t ∷ ts | _ ↦ t ∷ rest ]

unfoldable pub sort_strings : List String → List String
sort_strings [] = []
sort_strings (s ∷ ss) = insert_sorted s (sort_strings ss)

All-insert_sorted {κ} :
    (P : String → Type κ) (s : String) (ss : List String)
    → P s
    → All P ss
    → All P (insert_sorted s ss)
unfolding insert_sorted
All-insert_sorted P s [] p h = (p, tt)
All-insert_sorted P s (t ∷ ts) p (q, h) =
    elim (compare t s)
      as (λ (o : Ordering).
        All P (elim o [ Ordering.gt ↦ s ∷ t ∷ ts | _ ↦ t ∷ insert_sorted s ts ])) [
          | Ordering.gt ↦ (p, (q, h))
          | Ordering.lt ↦ (q, All-insert_sorted P s ts p h)
          | Ordering.eq ↦ (q, All-insert_sorted P s ts p h)
        ]

pub All-sort_strings {κ} :
    (P : String → Type κ) (ss : List String) → All P ss → All P (sort_strings ss)
unfolding sort_strings
All-sort_strings P [] h = tt
All-sort_strings P (s ∷ ss) (p, h) =
    All-insert_sorted P s (sort_strings ss) p (All-sort_strings P ss h)

member-insert_sorted :
    (k s : String) (ss : List String) → member k (insert_sorted s ss) ≡ (s == k || member k ss)
unfolding insert_sorted
member-insert_sorted k s [] = refl
member-insert_sorted k s (t ∷ ts) =
    elim (compare t s)
      as (λ (o : Ordering).
        member k (elim o [ Ordering.gt ↦ s ∷ t ∷ ts | _ ↦ t ∷ insert_sorted s ts ])
        ≡ (s == k || member k (t ∷ ts))) [
          | Ordering.gt ↦ refl
          | Ordering.lt ↦ ground (arith, member-insert_sorted k s ts)
          | Ordering.eq ↦ ground (arith, member-insert_sorted k s ts)
        ]

pub member-sort_strings : (k : String) (ss : List String) → member k (sort_strings ss) ≡ member k ss
unfolding sort_strings
member-sort_strings k [] = refl
member-sort_strings k (s ∷ ss) =
    ground (arith, member-insert_sorted k s (sort_strings ss), member-sort_strings k ss)
