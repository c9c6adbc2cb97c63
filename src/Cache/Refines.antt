-- ===== src/Cache/Refines.antt =====
-- The store of cache/cache.go does what its abstract description (Recency) says, entry by entry.
use orjanda.Prelude.{
  ℕ, suc, String, true, false, ◌==◌, none, some, List, [], ◌∷◌, lookup, has_key, leb, length, ◌≡◌,
  refl, sym, ◌∙◌, ap, inl, inr, arith, member, Bool-cases, Option-cases,
}
use orjanda.Cache.{
  Node, Store, remove_node, back, expired, expired_at, remove_element, evict_node, evict_lru,
  get_node, get_id, get, expiry, set_node, push_front, set_id, set, delete_id, node_of, delete_key,
}
use orjanda.Cache.Recency.{
  Entry, keys, find_key, remove_key, drop_last, read_entry, read, write, entry_of, strip, view,
}
use orjanda.Cache.Links.{IsAt, strip-remove_back}
use orjanda.Cache.Valid.{IsValid, IsAt-key}
use orjanda.Cache.Steps.{has_key_of_member}

module _ {V : Type 0} where
  length-strip : (ns : List (Node V)) → length (strip ns) ≡ length ns
  unfolding strip
  length-strip [] = refl
  length-strip (n ∷ ns) = ap suc (length-strip ns)

  pub find_key_absent :
      (k : String) (es : List (Entry V)) → member k (keys es) ≡ false → find_key k es ≡ none
  unfolding keys find_key
  find_key_absent k [] h = refl
  find_key_absent k (e ∷ es) h = ground (arith, find_key_absent k es)

  remove_key_absent :
      (k : String) (es : List (Entry V)) → member k (keys es) ≡ false → remove_key k es ≡ es
  unfolding keys remove_key
  remove_key_absent k [] h = refl
  remove_key_absent k (e ∷ es) h = ground (arith, remove_key_absent k es)

  member-find_key :
      (k : String) (es : List (Entry V)) {e : Entry V}
      → find_key k es ≡ some e
      → member k (keys es) ≡ true
  unfolding keys find_key
  member-find_key k [] h = cc
  member-find_key k (f ∷ es) {e} h = elim (Bool-cases (f.key == k)) [
    | inl same ↦ ground arith
    | inr other ↦ ground (arith, member-find_key k es {e = e} (ground arith))
  ]

  missing_key :
      (s : Store V) (k : String)
      → IsValid s
      → lookup k s.items ≡ none
      → member k (keys (strip s.order)) ≡ false
  unfolding has_key
  missing_key s k v missing = ground (arith, has_key_of_member s.items k s.order v.linked)

  -- A node that is found leaves its list as its entry leaves the view.
  strip-remove_at :
      (k : String) (id : ℕ) (ns : List (Node V)) (at : IsAt k id ns)
      → strip (remove_node at.node.id ns) ≡ remove_key k (strip ns)
  strip-remove_at k id ns at = ap (λ (i : ℕ). strip (remove_node i ns)) at.placed ∙ at.removed

  back-none : (ns : List (Node V)) → back ns ≡ none → ns ≡ []
  unfolding back
  back-none [] h = refl
  back-none (m ∷ []) h = cc
  back-none (m ∷ l ∷ ls) h = let none_left = back-none (l ∷ ls) h in cc

  view-evict_lru : (s : Store V) → IsValid s → view (evict_lru s) ≡ drop_last (view s)
  unfolding view evict_lru evict_node remove_element drop_last strip back
  view-evict_lru s v = elim (Option-cases (back s.order)) [
    | inl nothing ↦ rw nothing (rw (back-none s.order nothing))
    | inr (n, last) ↦ rw last (strip-remove_back s.order v.distinct last)
  ]

  -- On a well-formed store, reading a key answers what the abstract list answers, and leaves what it leaves.
  pub get-Refines :
      (now : ℕ) (k : String) (s : Store V)
      → IsValid s
      → ((get now k s).0 ≡ (read now k (view s)).0)
        × (view (get now k s).1 ≡ (read now k (view s)).1)
  unfolding get get_id get_node view read read_entry strip entry_of remove_element expired
  get-Refines now k s v = elim (Option-cases (lookup k s.items)) [
    | inl missing ↦
        rw missing (rw (find_key_absent k (strip s.order) (missing_key s k v missing)) (refl, refl))
    | inr (id, found) ↦
        let at = IsAt-key s k id v found in
        let gone = strip-remove_at k id s.order at in
        let there : strip (remove_node at.node.id s.order) ≡ remove_key at.node.key (view s) =
          gone ∙ ap (λ (j : String). remove_key j (strip s.order)) (sym at.named) in
        rw found (
          rw at.found (
            rw at.seen (elim (Bool-cases (expired_at now at.node.expires)) [
              | inl old ↦ rw old (refl, there)
              | inr fresh ↦
                  rw fresh (refl, ap (λ (es : List (Entry V)). entry_of at.node ∷ es) there)
            ])))
  ]

  -- On a well-formed store, writing a key writes it in the abstract list.
  pub set-Refines :
      (now : ℕ) (k : String) (value : V) (ttl : ℕ) (s : Store V)
      → IsValid s
      → view (set now k value ttl s) ≡ write s.max_items now k value ttl (view s)
  unfolding set set_id set_node push_front view write strip entry_of
  set-Refines now k value ttl s v = elim (Option-cases (lookup k s.items)) [
    | inl missing ↦ rw missing (
        rw (missing_key s k v missing) (
          rw (length-strip s.order) (
            rw (← v.sized) (elim (Bool-cases (leb s.max_items (length s.items))) [
              | inl full ↦ rw full (ap (λ (es : List (Entry V)). new ∷ es) (view-evict_lru s v))
              | inr space ↦ rw space
            ]))))
    | inr (id, found) ↦
        let at = IsAt-key s k id v found in
        rw found (
          rw at.found (
            rw (member-find_key k (strip s.order) at.seen) (
              rw at.named
                (ap (λ (es : List (Entry V)). new ∷ es) (strip-remove_at k id s.order at)))))
  ]
    where
      new : Entry V
      new = record { key = k; value = value; expires = expiry now ttl }

  -- On a well-formed store, deleting a key deletes it in the abstract list.
  pub delete_key-Refines :
      (k : String) (s : Store V) → IsValid s → view (delete_key k s) ≡ remove_key k (view s)
  unfolding delete_key delete_id node_of view remove_element
  delete_key-Refines k s v = elim (Option-cases (lookup k s.items)) [
    | inl missing ↦
        rw missing (sym (remove_key_absent k (strip s.order) (missing_key s k v missing)))
    | inr (id, found) ↦
        let at = IsAt-key s k id v found in rw found (rw at.found (strip-remove_at k id s.order at))
  ]
