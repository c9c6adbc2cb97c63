-- ===== src/Cache/Reads.antt =====
-- A reading of cache/cache.go's store and the next reading of the same key.
use orjanda.Prelude.{
  ℕ, ◌≤◌, String, true, ◌==◌, eq_iff, eq_refl, Option, none, some, lookup, List, [], ◌∷◌, ◌≡◌, refl,
  sym, ◌∙◌, ap, arith, inl, inr, Bool-cases, Option-cases,
}
use orjanda.Prelude.Int.{ℤ}
use orjanda.Cache.{Store, new_lru_store, expired_at, get, get_id}
use orjanda.Cache.Recency.{Entry, find_key, remove_key, read_entry, read, view}
use orjanda.Cache.Links.{member-remove_key}
use orjanda.Cache.Valid.{IsValid}
use orjanda.Cache.Steps.{get-IsValid}
use orjanda.Cache.Refines.{get-Refines, find_key_absent}

expired_at_later :
    {now later : ℕ} (o : Option ℕ)
    → now ≤ later
    → expired_at now o ≡ true
    → expired_at later o ≡ true
unfolding expired_at
expired_at_later none h old = cc
expired_at_later (some t) h old = ground arith

module _ {V : Type 0} where
  eq_iff_true : (k : String) (e : Entry V) → e.key ≡ k → (e.key == k) ≡ true
  eq_iff_true k e same = (eq_iff e.key k).1 same

  find_key-key :
      (k : String) (es : List (Entry V)) {e : Entry V} → find_key k es ≡ some e → e.key ≡ k
  unfolding find_key
  find_key-key k [] h = cc
  find_key-key k (f ∷ es) {e} h = elim (Bool-cases (f.key == k)) [
    | inl same ↦
        let this : f ≡ e = ground arith in
        sym (ap (λ (x : Entry V). x.key) this) ∙ (eq_iff f.key k).0 same
    | inr other ↦ find_key-key k es {e = e} (ground arith)
  ]

  read-read :
      (now later : ℕ) (k : String) (es : List (Entry V))
      → now ≤ later
      → find_key k (remove_key k es) ≡ none
      → (read later k (read now k es).1).0 ≡ (read later k es).0
  unfolding read read_entry find_key
  read-read now later k es h gone = elim (Option-cases (find_key k es)) [
    | inl missing ↦ rw missing (rw missing)
    | inr (e, found) ↦ rw found (elim (Bool-cases (expired_at now e.expires)) [
      | inl old ↦
          rw old (rw (find_key-key k es found) (rw gone (rw (expired_at_later e.expires h old))))
      | inr fresh ↦ rw fresh (
          rw (eq_iff_true k e (find_key-key k es found))
            (elim (Bool-cases (expired_at later e.expires)) [
              | inl old ↦ rw old
              | inr still ↦ rw still
            ]))
    ])
  ]

  -- Reading a key does not change what a later reading of it answers.
  pub get-get :
      (now later : ℕ) (k : String) (s : Store V)
      → IsValid s
      → now ≤ later
      → (get later k (get now k s).1).0 ≡ (get later k s).0
  unfolding view
  get-get now later k s w h =
      (get-Refines later k (get now k s).1 (get-IsValid now k s w)).0
      ∙ ap (λ es. (read later k es).0) (get-Refines now k s w).1
      ∙ read-read now later k (view s) h (
          find_key_absent k (remove_key k (view s))
            (ground (arith, eq_refl k, member-remove_key k k s.order w.distinct)))
      ∙ sym (get-Refines later k s w).0

  pub get-new_lru_store :
      (now : ℕ) (k : String) (n : ℤ) → (get now k (new_lru_store {V = V} n)).0 ≡ none
  unfolding get get_id new_lru_store lookup
  get-new_lru_store now k n = refl
