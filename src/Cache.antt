-- ===== src/Cache.antt =====
-- cache/cache.go: the in-process LRU store. A node of the linked list is named by a number, which
-- stands for its address; `items` maps a key to its node. Time is in nanoseconds, and a duration
-- that is not positive is 0. Values are copied on the way in and out.
pub mod Recency
pub mod Links
pub mod Valid
pub mod Steps
pub mod Refines
pub mod Runs
pub mod Reads
mod Tests
use orjanda.Prelude.{
  ℕ, zero, suc, ◌+◌, String, Bool, true, false, Option, none, some, List, [], ◌∷◌, Dict, lookup,
  insert, delete, ltb, leb, eqb, length, if◌then◌else◌,
}
use orjanda.Prelude.Int.{ℤ, pos, negsuc}

-- lruEntry with its cacheEntry; no expiry is the zero time
pub record Node (V : Type 0) : Type 0 where
  pub id : ℕ
  pub key : String
  pub value : V
  pub expires : Option ℕ

-- The front of `order` is the most recently used; `next` is an address not yet in use.
pub record Store (V : Type 0) : Type 0 where
  pub max_items : ℕ
  pub items : Dict ℕ
  pub order : List (Node V)
  pub next : ℕ

abbrev default_items : ℕ
default_items = 1024

unfoldable pub capacity : ℤ → ℕ
capacity (pos zero) = default_items
capacity (pos (suc n)) = suc n
capacity (negsuc n) = default_items

-- `!e.expires.IsZero() && now.After(e.expires)`
unfoldable pub expired_at : ℕ → Option ℕ → Bool
expired_at now none = false
expired_at now (some t) = ltb t now

unfoldable pub expiry : ℕ → ℕ → Option ℕ
expiry now ttl = if ltb 0 ttl then some (now + ttl) else none

module _ {V : Type 0} where
  unfoldable pub new_lru_store : ℤ → Store V
  unfolding capacity
  new_lru_store n = record { max_items = capacity n; items = []; order = []; next = 0 }

  -- the node at an address
  unfoldable pub find_node : ℕ → List (Node V) → Option (Node V)
  find_node id [] = none
  find_node id (n ∷ ns) = if eqb n.id id then some n else find_node id ns

  -- list.Remove
  unfoldable pub remove_node : ℕ → List (Node V) → List (Node V)
  remove_node id [] = []
  remove_node id (n ∷ ns) = let rest = remove_node id ns in if eqb n.id id then ns else n ∷ rest

  -- list.Back
  unfoldable pub back : List (Node V) → Option (Node V)
  back [] = none
  back (n ∷ []) = some n
  back (n ∷ m ∷ ns) = back (m ∷ ns)

  unfoldable pub expired : ℕ → Node V → Bool
  expired now n = expired_at now n.expires

  -- removeElement
  unfoldable pub remove_element : Node V → Store V → Store V
  remove_element n s = record s { items = delete n.key s.items; order = remove_node n.id s.order }

  evict_node : Option (Node V) → Store V → Store V
  evict_node none s = s
  evict_node (some n) s = remove_element n s

  -- evictLRU
  unfoldable pub evict_lru : Store V → Store V
  unfolding evict_node
  evict_lru s = evict_node (back s.order) s

  -- an address that `items` holds is that of a node: the case `none` does not arise
  get_node : ℕ → Option (Node V) → Store V → Option V × Store V
  get_node now none s = (none, s)
  get_node now (some n) s =
      if expired now n
      then (none, remove_element n s)
      else (some n.value, record s { order = n ∷ remove_node n.id s.order })

  get_id : ℕ → Option ℕ → Store V → Option V × Store V
  unfolding get_node
  get_id now none s = (none, s)
  get_id now (some id) s = get_node now (find_node id s.order) s

  unfoldable pub get : ℕ → String → Store V → Option V × Store V
  unfolding get_id
  get now key s = get_id now (lookup key s.items) s

  -- an existing key: the node is written in place and moved to the front
  set_node : Option (Node V) → V → Option ℕ → Store V → Store V
  set_node none value expires s = s
  set_node (some n) value expires s = record s {
    order = record n { value = value; expires = expires } ∷ remove_node n.id s.order;
  }

  -- a new key, after the eviction
  push_front : String → V → Option ℕ → Store V → Store V
  push_front key value expires s = record s {
    items = insert key s.next s.items;
    order = record { id = s.next; key = key; value = value; expires = expires } ∷ s.order;
    next = suc s.next;
  }

  set_id : Option ℕ → String → V → Option ℕ → Store V → Store V
  unfolding set_node push_front
  set_id (some id) key value expires s = set_node (find_node id s.order) value expires s
  set_id none key value expires s =
      push_front key value expires (if leb s.max_items (length s.items) then evict_lru s else s)

  unfoldable pub set : ℕ → String → V → ℕ → Store V → Store V
  unfolding set_id
  set now key value ttl s = set_id (lookup key s.items) key value (expiry now ttl) s

  delete_id : Option (Node V) → Store V → Store V
  delete_id none s = s
  delete_id (some n) s = remove_element n s

  node_of : Option ℕ → List (Node V) → Option (Node V)
  node_of none order = none
  node_of (some id) order = find_node id order

  unfoldable pub delete_key : String → Store V → Store V
  unfolding delete_id node_of
  delete_key key s = delete_id (node_of (lookup key s.items) s.order) s
