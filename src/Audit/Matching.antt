-- ===== src/Audit/Matching.antt =====
-- What a query of the in-memory log (audit/audit.go) answers.
use orjanda.Prelude.{
  ℕ, zero, suc, ◌+◌, Bool, true, false, ◌&&◌, List, [], ◌∷◌, ◌++◌, length, keep, ◌≡◌, refl, ◌∙◌,
  sym, ap, arith, inl, inr, Bool-cases, length-append,
}
use orjanda.Prelude.Int.{ℤ, pos, negsuc, ltb_ℤ, leb_ℤ}
use orjanda.Errors.{ok}
use orjanda.Audit.{Entry, QueryFilter, matches, query_loop, query}

abbrev take : ℕ → List Entry → List Entry
take zero es = []
take (suc n) [] = []
take (suc n) (e ∷ es) = e ∷ take n es

-- a positive limit cuts, any other does not
abbrev pub limited : ℤ → List Entry → List Entry
limited (pos zero) es = es
limited (pos (suc n)) es = take (suc n) es
limited (negsuc n) es = es

append_assoc : (xs ys zs : List Entry) → (xs ++ ys) ++ zs ≡ xs ++ (ys ++ zs)
append_assoc [] ys zs = refl
append_assoc (x ∷ xs) ys zs = ap (λ (es : List Entry). x ∷ es) (append_assoc xs ys zs)

append_nil : (xs : List Entry) → xs ++ [] ≡ xs
append_nil [] = refl
append_nil (x ∷ xs) = ap (λ (es : List Entry). x ∷ es) (append_nil xs)

query_loop-unlimited :
    (f : QueryFilter) (es out : List Entry)
    → ltb_ℤ (pos 0) f.limit ≡ false
    → query_loop f es out ≡ out ++ keep (matches f) es
unfolding query_loop
query_loop-unlimited f [] out h = sym (append_nil out)
query_loop-unlimited f (e ∷ es) out h = elim (Bool-cases (matches f e)) [
  | inl hit ↦ rw hit (
      rw h (
        query_loop-unlimited f es (out ++ e ∷ []) h
        ∙ append_assoc out (e ∷ []) (keep (matches f) es)))
  | inr miss ↦ rw miss (query_loop-unlimited f es out h)
]

-- the test for the limit, after one more entry
abbrev is_last : ℕ → List Entry → Bool
is_last n out = ltb_ℤ (pos 0) (pos n) && leb_ℤ (pos n) (pos (length out))

is_full :
    (n : ℕ) (out : List Entry) (e : Entry) → length out + 1 ≡ n → is_last n (out ++ e ∷ []) ≡ true
is_full n out e room = ground (arith, length-append out (e ∷ []))

has_room :
    (n left : ℕ) (out : List Entry) (e : Entry)
    → length out + suc (suc left) ≡ n
    → is_last n (out ++ e ∷ []) ≡ false
has_room n left out e room = ground (arith, length-append out (e ∷ []))

query_loop-limited :
    (f : QueryFilter) (n left : ℕ) (es out : List Entry)
    → f.limit ≡ pos n
    → length out + suc left ≡ n
    → query_loop f es out ≡ out ++ take (suc left) (keep (matches f) es)
unfolding query_loop
query_loop-limited f n left [] out h room = sym (append_nil out)
query_loop-limited f n zero (e ∷ es) out h room = elim (Bool-cases (matches f e)) [
  | inl hit ↦ rw hit (rw h (rw (is_full n out e room) refl))
  | inr miss ↦ rw miss (query_loop-limited f n zero es out h room)
]
query_loop-limited f n (suc left) (e ∷ es) out h room = elim (Bool-cases (matches f e)) [
  | inl hit ↦ rw hit (
      rw h (
        rw (has_room n left out e room) (
          query_loop-limited f n left es (out ++ e ∷ []) h
            (omega (arith, room, length-append out (e ∷ [])))
          ∙ append_assoc out (e ∷ []) (take (suc left) (keep (matches f) es)))))
  | inr miss ↦ rw miss (query_loop-limited f n (suc left) es out h room)
]

-- A query answers the entries that match, in the order in which they were written, and of those no
-- more than a positive limit.
pub query_lem :
    (f : QueryFilter) (entries : List Entry)
    → query f entries ≡ ok (limited f.limit (keep (matches f) entries))
unfolding query
query_lem f entries = ap ok (go f.limit refl)
  where
    go :
        (limit : ℤ)
        → f.limit ≡ limit
        → query_loop f entries [] ≡ limited limit (keep (matches f) entries)
    go (pos zero) h = query_loop-unlimited f entries [] (rw h refl)
    go (pos (suc n)) h = query_loop-limited f (suc n) n entries [] h (omega arith)
    go (negsuc n) h = query_loop-unlimited f entries [] (rw h (ground arith))
