-- ===== src/Cache/Runs.antt =====
-- Sequences of operations on a store of cache/cache.go, from the moment it is made.
use orjanda.Prelude.{
  ℕ, String, Option, none, some, List, [], ◌∷◌, lookup, leb, length, if◌then◌else◌, ◌≡◌, refl, ◌∙◌,
  ap, eq_refl, inl, inr, Bool-cases, Option-cases,
}
use orjanda.Prelude.Int.{ℤ}
use orjanda.Cache.{
  Node, Store, capacity, new_lru_store, find_node, expired, expired_at, remove_element, get_node,
  get_id, get, expiry, set_node, push_front, set_id, set, delete_id, node_of, delete_key,
}
use orjanda.Cache.Recency.{Entry, find_key, remove_key, read_entry, read, write, strip, view}
use orjanda.Cache.Valid.{IsValid, new_lru_store-IsValid}
use orjanda.Cache.Steps.{get-IsValid, set-IsValid, delete_key-IsValid, evict_lru-max_items}
use orjanda.Cache.Refines.{get-Refines, set-Refines, delete_key-Refines}

-- A call of the store, with the clock at that time
pub data Call (V : Type 0) : Type 0 where
  get_call : ℕ → String → Call V
  set_call : ℕ → String → V → ℕ → Call V
  delete_call : String → Call V

module _ {V : Type 0} where
  unfoldable pub call : Call V → Store V → Store V
  call (get_call now k) s = (get now k s).1
  call (set_call now k v ttl) s = set now k v ttl s
  call (delete_call k) s = delete_key k s

  unfoldable pub spec_call : ℕ → Call V → List (Entry V) → List (Entry V)
  spec_call cap (get_call now k) es = (read now k es).1
  spec_call cap (set_call now k v ttl) es = write cap now k v ttl es
  spec_call cap (delete_call k) es = remove_key k es

  unfoldable pub run : List (Call V) → Store V → Store V
  unfolding call
  run [] s = s
  run (c ∷ cs) s = run cs (call c s)

  unfoldable pub spec_run : ℕ → List (Call V) → List (Entry V) → List (Entry V)
  unfolding spec_call
  spec_run cap [] es = es
  spec_run cap (c ∷ cs) es = spec_run cap cs (spec_call cap c es)

  get_node-max_items :
      (now : ℕ) (o : Option (Node V)) (s : Store V) → (get_node now o s).1.max_items ≡ s.max_items
  unfolding get_node remove_element
  get_node-max_items now none s = refl
  get_node-max_items now (some n) s = elim (Bool-cases (expired now n)) [
    | inl old ↦ rw old
    | inr fresh ↦ rw fresh
  ]

  get-max_items : (now : ℕ) (k : String) (s : Store V) → (get now k s).1.max_items ≡ s.max_items
  unfolding get get_id
  get-max_items now k s = elim (Option-cases (lookup k s.items)) [
    | inl missing ↦ rw missing
    | inr (id, found) ↦ rw found (get_node-max_items now (find_node id s.order) s)
  ]

  set_node-max_items :
      (o : Option (Node V)) (v : V) (e : Option ℕ) (s : Store V)
      → (set_node o v e s).max_items ≡ s.max_items
  unfolding set_node
  set_node-max_items none v e s = refl
  set_node-max_items (some n) v e s = refl

  set-max_items :
      (now : ℕ) (k : String) (v : V) (ttl : ℕ) (s : Store V)
      → (set now k v ttl s).max_items ≡ s.max_items
  unfolding set set_id push_front
  set-max_items now k v ttl s = elim (Option-cases (lookup k s.items)) [
    | inl missing ↦ rw missing (elim (Bool-cases (leb s.max_items (length s.items))) [
      | inl full ↦ rw full (evict_lru-max_items s)
      | inr space ↦ rw space
    ])
    | inr (id, found) ↦ rw found (set_node-max_items (find_node id s.order) v (expiry now ttl) s)
  ]

  delete_id-max_items :
      (o : Option (Node V)) (s : Store V) → (delete_id o s).max_items ≡ s.max_items
  unfolding delete_id remove_element
  delete_id-max_items none s = refl
  delete_id-max_items (some n) s = refl

  delete_key-max_items : (k : String) (s : Store V) → (delete_key k s).max_items ≡ s.max_items
  unfolding delete_key
  delete_key-max_items k s = delete_id-max_items (node_of (lookup k s.items) s.order) s

  call-max_items : (c : Call V) (s : Store V) → (call c s).max_items ≡ s.max_items
  unfolding call
  call-max_items (get_call now k) s = get-max_items now k s
  call-max_items (set_call now k v ttl) s = set-max_items now k v ttl s
  call-max_items (delete_call k) s = delete_key-max_items k s

  call-IsValid : (c : Call V) (s : Store V) → IsValid s → IsValid (call c s)
  unfolding call
  call-IsValid (get_call now k) s w = get-IsValid now k s w
  call-IsValid (set_call now k v ttl) s w = set-IsValid now k v ttl s w
  call-IsValid (delete_call k) s w = delete_key-IsValid k s w

  view-call :
      (c : Call V) (s : Store V) → IsValid s → view (call c s) ≡ spec_call s.max_items c (view s)
  unfolding call spec_call
  view-call (get_call now k) s w = (get-Refines now k s w).1
  view-call (set_call now k v ttl) s w = set-Refines now k v ttl s w
  view-call (delete_call k) s w = delete_key-Refines k s w

  run-Refines :
      (cap : ℕ) (cs : List (Call V)) (s : Store V)
      → s.max_items ≡ cap
      → IsValid s
      → IsValid (run cs s) × (view (run cs s) ≡ spec_run cap cs (view s))
  unfolding run spec_run
  run-Refines cap [] s m w = (w, refl)
  run-Refines cap (c ∷ cs) s m w =
      let (valid, same) =
        run-Refines cap cs (call c s) (call-max_items c s ∙ m) (call-IsValid c s w) in
      (
        valid,
        same ∙ ap (spec_run cap cs) (view-call c s w ∙ ap (λ (b : ℕ). spec_call b c (view s)) m),
      )

  -- Whatever calls are made on a new store, its map and its list stay in agreement and within its
  -- capacity, and its entries are those of the abstract list after the same calls.
  pub run-new_lru_store :
      (n : ℤ) (cs : List (Call V))
      → IsValid (run cs (new_lru_store n))
        × (view (run cs (new_lru_store n)) ≡ spec_run (capacity n) cs [])
  unfolding new_lru_store view strip
  run-new_lru_store n cs =
      run-Refines (capacity n) cs (new_lru_store n) refl (new_lru_store-IsValid n)

  read-write :
      (cap now later : ℕ) (k : String) (v : V) (ttl : ℕ) (es : List (Entry V))
      → (read later k (write cap now k v ttl es)).0
        ≡ (if expired_at later (expiry now ttl) then none else some v)
  unfolding read write find_key read_entry
  read-write cap now later k v ttl es =
      rw (eq_refl k) (elim (Bool-cases (expired_at later (expiry now ttl))) [
        | inl old ↦ rw old
        | inr fresh ↦ rw fresh
      ])

  -- On a well-formed store, a key that was just set reads as its value, until the end of its time.
  pub get-set :
      (now later : ℕ) (k : String) (v : V) (ttl : ℕ) (s : Store V)
      → IsValid s
      → (get later k (set now k v ttl s)).0
        ≡ (if expired_at later (expiry now ttl) then none else some v)
  get-set now later k v ttl s w =
      (get-Refines later k (set now k v ttl s) (set-IsValid now k v ttl s w)).0
      ∙ ap (λ es. (read later k es).0) (set-Refines now k v ttl s w)
      ∙ read-write s.max_items now later k v ttl (view s)
