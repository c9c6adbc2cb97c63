-- ===== src/Cache/Valid.antt =====
-- When the map and the list of the store (cache/cache.go) agree, and what a node's removal and its
-- move to the front keep of that.
use orjanda.Prelude.{
  ℕ, zero, suc, ◌≤◌, ◌<◌, String, true, false, ◌==◌, eq_iff, some, List, [], ◌∷◌, Dict, lookup,
  insert, delete, has_key, length, if◌then◌else◌, ◌≡◌, refl, sym, ◌∙◌, ap, arith, member, All,
  lookup-insert, lookup-delete, has_key-delete, HasUniqueKeys, HasUniqueKeys-delete, length-delete,
}
use orjanda.Prelude.Int.{ℤ, pos, negsuc}
use orjanda.Cache.{Node, Store, capacity, new_lru_store, find_node, remove_node, remove_element}
use orjanda.Cache.Recency.{Entry, keys, strip}
use orjanda.Cache.Links.{
  has_id, Linked, Distinct, IsAt, IsAt-of_key, All-remove_node, has_id-remove_node_self,
  Distinct-remove_node, length-remove_node, All-find_node, member-remove_key,
}

has_key_of : (k : String) (m : Dict ℕ) {id : ℕ} → lookup k m ≡ some id → has_key k m ≡ true
unfolding has_key
has_key_of k m h = rw h

capacity-pos : (n : ℤ) → 0 < capacity n
unfolding capacity
capacity-pos (pos zero) = omega arith
capacity-pos (pos (suc n)) = omega arith
capacity-pos (negsuc n) = omega arith

module _ {V : Type 0} where
  pub record IsValid (s : Store V) : Type 0 where
    pub linked : Linked s.items s.order
    pub listed : (k : String) → has_key k s.items ≡ true → member k (keys (strip s.order)) ≡ true
    pub distinct : Distinct s.order
    pub below : All (λ (n : Node V). n.id < s.next) s.order
    pub unique : HasUniqueKeys s.items
    pub sized : length s.items ≡ length s.order
    pub bounded : length s.order ≤ s.max_items
    pub positive : 0 < s.max_items

  pub new_lru_store-IsValid : (n : ℤ) → IsValid (new_lru_store n)
  unfolding new_lru_store has_key lookup
  new_lru_store-IsValid n = record {
    linked = tt;
    listed = λ k h. cc;
    distinct = tt;
    below = tt;
    unique = tt;
    sized = refl;
    bounded = omega arith;
    positive = capacity-pos n;
  }

  -- A key of the map is at its address.
  pub IsAt-key :
      (s : Store V) (k : String) (id : ℕ)
      → IsValid s
      → lookup k s.items ≡ some id
      → IsAt k id s.order
  unfolding has_key
  IsAt-key s k id v found =
      IsAt-of_key s.items k id s.order v.linked v.distinct found (v.listed k (ground arith))

  Linked-delete :
      (items : Dict ℕ) (k : String) (ns : List (Node V))
      → member k (keys (strip ns)) ≡ false
      → Linked items ns
      → Linked (delete k items) ns
  unfolding strip keys
  Linked-delete items k [] fresh l = tt
  Linked-delete items k (n ∷ ns) fresh (p, l) = (
    ground (arith, lookup-delete k n.key items, eq_iff k n.key, eq_iff n.key k),
    Linked-delete items k ns (ground arith) l,
  )

  pub Linked-insert :
      (items : Dict ℕ) (k : String) (id : ℕ) (ns : List (Node V))
      → member k (keys (strip ns)) ≡ false
      → Linked items ns
      → Linked (insert k id items) ns
  unfolding strip keys
  Linked-insert items k id [] fresh l = tt
  Linked-insert items k id (n ∷ ns) fresh (p, l) = (
    ground (arith, lookup-insert k n.key id items, eq_iff k n.key, eq_iff n.key k),
    Linked-insert items k id ns (ground arith) l,
  )

  -- The keys that are left when a node is taken out.
  keys_left :
      (s : Store V) (k j : String) (id : ℕ) (at : IsAt k id s.order)
      → IsValid s
      → member j (keys (strip (remove_node at.node.id s.order)))
        ≡ (if k == j then false else member j (keys (strip s.order)))
  keys_left s k j id at v =
      ap (λ (i : ℕ). member j (keys (strip (remove_node i s.order)))) at.placed
      ∙ ap (λ (es : List (Entry V)). member j (keys es)) at.removed
      ∙ member-remove_key k j s.order v.distinct

  pub found_self :
      (s : Store V) (k : String) (id : ℕ) (at : IsAt k id s.order)
      → find_node at.node.id s.order ≡ some at.node
  found_self s k id at = ap (λ (i : ℕ). find_node i s.order) at.placed ∙ at.found

  key_gone :
      (s : Store V) (k : String) (id : ℕ) (at : IsAt k id s.order)
      → IsValid s
      → member at.node.key (keys (strip (remove_node at.node.id s.order))) ≡ false
  key_gone s k id at v =
      ground (arith, keys_left s k at.node.key id at v, eq_iff k at.node.key, at.named)

  key_held :
      (s : Store V) (k : String) (id : ℕ) (at : IsAt k id s.order)
      → lookup k s.items ≡ some id
      → lookup at.node.key s.items ≡ some at.node.id
  key_held s k id at found =
      ap (λ (j : String). lookup j s.items) at.named ∙ found ∙ ap some (sym at.placed)

  pub remove_element-IsValid :
      (s : Store V) (k : String) (id : ℕ)
      → IsValid s
      → lookup k s.items ≡ some id
      → (at : IsAt k id s.order) → IsValid (remove_element at.node s)
  unfolding remove_element
  remove_element-IsValid s k id v found at =
      let held = key_held s k id at found in
      let size = length-remove_node at.node.id s.order (found_self s k id at) in
      record {
        linked =
            Linked-delete s.items at.node.key (remove_node at.node.id s.order)
              (key_gone s k id at v)
              (All-remove_node (λ (n : Node V). lookup n.key s.items ≡ some n.id) at.node.id s.order
                v.linked);
        listed = λ j h. ground (
          arith,
          keys_left s k j id at v,
          has_key-delete at.node.key j s.items,
          v.listed j,
          at.named,
          eq_iff k j,
          eq_iff at.node.key j,
        );
        distinct = Distinct-remove_node at.node.id s.order v.distinct;
        below = All-remove_node (λ (n : Node V). n.id < s.next) at.node.id s.order v.below;
        unique = HasUniqueKeys-delete at.node.key s.items v.unique;
        sized = omega (
          arith,
          length-delete at.node.key s.items v.unique (has_key_of at.node.key s.items held),
          size,
          v.sized,
        );
        bounded = omega (arith, size, v.bounded);
        positive = v.positive;
      }

  -- A node that is taken out comes back at the front, with the same key and address.
  pub to_front-IsValid :
      (s : Store V) (k : String) (id : ℕ)
      → IsValid s
      → lookup k s.items ≡ some id
      → (at : IsAt k id s.order) (n : Node V) → n.key ≡ at.node.key
      → n.id ≡ at.node.id
      → IsValid (record s { order = n ∷ remove_node at.node.id s.order })
  to_front-IsValid s k id v found at n same_key same_id =
      let held = key_held s k id at found in
      let size = length-remove_node at.node.id s.order (found_self s k id at) in
      let left = remove_node at.node.id s.order in
      let here : lookup n.key s.items ≡ some n.id =
        ap (λ (j : String). lookup j s.items) same_key ∙ held ∙ ap some (sym same_id) in
      let node_below : at.node.id < s.next =
        All-find_node (λ (m : Node V). m.id < s.next) at.node.id s.order v.below
          (found_self s k id at) in
      let below_next : n.id < s.next = omega (arith, same_id, node_below) in
      record {
        linked = (
          here,
          All-remove_node (λ (m : Node V). lookup m.key s.items ≡ some m.id) at.node.id s.order
              v.linked,
        );
        listed = λ j h.
            unfold keys strip in
            ground (
              arith,
              keys_left s k j id at v,
              v.listed j h,
              at.named,
              same_key,
              eq_iff k j,
              eq_iff n.key j,
            );
        distinct = (
          ap (λ (j : String). member j (keys (strip left))) same_key ∙ key_gone s k id at v,
          ap (λ (i : ℕ). has_id i left) same_id
              ∙ has_id-remove_node_self at.node.id s.order v.distinct,
          Distinct-remove_node at.node.id s.order v.distinct,
        );
        below = (
          below_next,
          All-remove_node (λ (m : Node V). m.id < s.next) at.node.id s.order v.below,
        );
        unique = v.unique;
        sized = omega (arith, size, v.sized);
        bounded = omega (arith, size, v.bounded);
        positive = v.positive;
      }
