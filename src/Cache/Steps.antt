-- ===== src/Cache/Steps.antt =====
-- Every operation of the store (cache/cache.go) keeps its map and its list in agreement and within
-- the capacity.
use orjanda.Prelude.{
  ℕ, suc, ◌<◌, String, true, false, ◌==◌, eq_iff, Option, some, List, [], ◌∷◌, Dict, lookup, delete,
  has_key, leb, length, ◌≡◌, refl, ap, subst, ltb, eq_refl, inl, inr, arith, member, All, All-imp,
  lookup-insert, Bool-cases, Option-cases, has_key-delete, has_key-insert, HasUniqueKeys-insert,
  length-insert_new,
}
use orjanda.Cache.{
  Node, Store, remove_node, back, expired, remove_element, evict_node, evict_lru, get_node, get_id,
  get, expiry, set_node, push_front, set_id, set, delete_id, node_of, delete_key,
}
use orjanda.Cache.Recency.{keys, strip}
use orjanda.Cache.Links.{has_id, Linked, IsAt, length-remove_node, All-back, back-some}
use orjanda.Cache.Valid.{
  IsValid, IsAt-key, remove_element-IsValid, to_front-IsValid, found_self, Linked-insert,
}

module _ {V : Type 0} where
  get_node-IsValid :
      (now : ℕ) (s : Store V) (k : String) (id : ℕ)
      → IsValid s
      → lookup k s.items ≡ some id
      → (at : IsAt k id s.order) → IsValid (get_node now (some at.node) s).1
  unfolding get_node
  get_node-IsValid now s k id v found at = elim (Bool-cases (expired now at.node)) [
    | inl old ↦ rw old (remove_element-IsValid s k id v found at)
    | inr fresh ↦ rw fresh (to_front-IsValid s k id v found at at.node refl refl)
  ]

  pub get-IsValid : (now : ℕ) (k : String) (s : Store V) → IsValid s → IsValid (get now k s).1
  unfolding get get_id
  get-IsValid now k s v = elim (Option-cases (lookup k s.items)) [
    | inl missing ↦ rw missing v
    | inr (id, found) ↦
        let at = IsAt-key s k id v found in
        rw found (rw at.found (get_node-IsValid now s k id v found at))
  ]

  pub delete_key-IsValid : (k : String) (s : Store V) → IsValid s → IsValid (delete_key k s)
  unfolding delete_key delete_id node_of
  delete_key-IsValid k s v = elim (Option-cases (lookup k s.items)) [
    | inl missing ↦ rw missing v
    | inr (id, found) ↦
        let at = IsAt-key s k id v found in
        rw found (rw at.found (remove_element-IsValid s k id v found at))
  ]

  remove_element_same :
      (n m : Node V) (s : Store V)
      → n.key ≡ m.key
      → n.id ≡ m.id
      → remove_element n s ≡ remove_element m s
  unfolding remove_element
  remove_element_same n m s p q =
      λ i. record s { items = delete (p i) s.items; order = remove_node (q i) s.order }

  length-remove_element :
      (s : Store V) (k : String) (id : ℕ) (at : IsAt k id s.order)
      → suc (length (remove_element at.node s).order) ≡ length s.order
  unfolding remove_element
  length-remove_element s k id at = length-remove_node at.node.id s.order (found_self s k id at)

  remove_back :
      (s : Store V) (n : Node V)
      → IsValid s
      → back s.order ≡ some n
      → IsValid (remove_element n s) × (suc (length (remove_element n s).order) ≡ length s.order)
  remove_back s n v last =
      let held =
        All-back (λ (m : Node V). lookup m.key s.items ≡ some m.id) s.order v.linked last in
      let at = IsAt-key s n.key n.id v held in
      subst (λ t. IsValid t × (suc (length t.order) ≡ length s.order))
        (remove_element_same at.node n s at.named at.placed)
        (remove_element-IsValid s n.key n.id v held at, length-remove_element s n.key n.id at)

  -- The node at the back leaves, and there is room for one more.
  evict_lru-IsValid :
      (s : Store V) → IsValid s → IsValid (evict_lru s) × (length (evict_lru s).order < s.max_items)
  unfolding evict_lru evict_node
  evict_lru-IsValid s v = elim (Option-cases (back s.order)) [
    | inl nothing ↦ rw nothing (
      v,
      elim (Bool-cases (ltb 0 (length s.order))) [
        | inl some_left ↦ let (n, last) = back-some s.order (ground arith) in absurd (ground arith)
        | inr empty ↦ ground (arith, v.positive)
      ],
    )
    | inr (n, last) ↦
        let (valid, shorter) = remove_back s n v last in
        rw last (valid, omega (arith, shorter, v.bounded))
  ]

  pub evict_lru-max_items : (s : Store V) → (evict_lru s).max_items ≡ s.max_items
  unfolding evict_lru evict_node remove_element
  evict_lru-max_items s = elim (Option-cases (back s.order)) [
    | inl nothing ↦ rw nothing
    | inr (n, last) ↦ rw last
  ]

  evict_lru-absent :
      (k : String) (s : Store V) → has_key k s.items ≡ false → has_key k (evict_lru s).items ≡ false
  unfolding evict_lru evict_node remove_element
  evict_lru-absent k s h = elim (Option-cases (back s.order)) [
    | inl nothing ↦ rw nothing h
    | inr (n, last) ↦ rw last (ground (arith, has_key-delete n.key k s.items))
  ]

  pub has_key_of_member :
      (items : Dict ℕ) (k : String) (ns : List (Node V))
      → Linked items ns
      → member k (keys (strip ns)) ≡ true
      → has_key k items ≡ true
  unfolding strip keys has_key
  has_key_of_member items k [] l m = cc
  has_key_of_member items k (n ∷ ns) (p, l) m = elim (Bool-cases (n.key == k)) [
    | inl same ↦ ground (arith, ap (λ (j : String). lookup j items) ((eq_iff n.key k).0 same))
    | inr other ↦ has_key_of_member items k ns l (ground arith)
  ]

  has_id_below :
      (b : ℕ) (ns : List (Node V)) → All (λ (n : Node V). n.id < b) ns → has_id b ns ≡ false
  has_id_below b [] h = refl
  has_id_below b (n ∷ ns) (p, h) = ground (arith, has_id_below b ns h)

  push_front-IsValid :
      (key : String) (value : V) (expires : Option ℕ) (s : Store V)
      → IsValid s
      → has_key key s.items ≡ false
      → length s.order < s.max_items
      → IsValid (push_front key value expires s)
  unfolding push_front
  push_front-IsValid key value expires s v new room =
      let fresh : member key (keys (strip s.order)) ≡ false =
        ground (arith, has_key_of_member s.items key s.order v.linked) in
      record {
        linked = (
          ground (arith, lookup-insert key key s.next s.items, eq_refl key),
          Linked-insert s.items key s.next s.order fresh v.linked,
        );
        listed = λ j h.
            unfold keys strip in ground (arith, has_key-insert key j s.next s.items, v.listed j);
        distinct = (fresh, has_id_below s.next s.order v.below, v.distinct);
        below = (omega arith, All-imp (λ n lt. omega arith) s.order v.below);
        unique = HasUniqueKeys-insert key s.next s.items v.unique;
        sized = omega (arith, length-insert_new key s.next s.items new, v.sized);
        bounded = omega arith;
        positive = v.positive;
      }

  pub set-IsValid :
      (now : ℕ) (k : String) (value : V) (ttl : ℕ) (s : Store V)
      → IsValid s
      → IsValid (set now k value ttl s)
  unfolding set set_id set_node
  set-IsValid now k value ttl s v = elim (Option-cases (lookup k s.items)) [
    | inl missing ↦ rw missing (elim (Bool-cases (leb s.max_items (length s.items))) [
      | inl full ↦
          let (valid, room) = evict_lru-IsValid s v in
          rw full (
            push_front-IsValid k value (expiry now ttl) (evict_lru s) valid
              (evict_lru-absent k s (unfold has_key in rw missing))
              (omega (arith, room, evict_lru-max_items s)))
      | inr space ↦ rw space (
          push_front-IsValid k value (expiry now ttl) s v (unfold has_key in rw missing)
            (ground (arith, v.sized)))
    ])
    | inr (id, found) ↦
        let at = IsAt-key s k id v found in
        rw found (
          rw at.found (
            to_front-IsValid s k id v found at
              (record at.node { value = value; expires = expiry now ttl }) refl refl))
  ]
