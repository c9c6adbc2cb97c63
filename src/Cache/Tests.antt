-- ===== src/Cache/Tests.antt =====
-- A store of cache/cache.go with room for two entries.
use orjanda.Prelude.{ℕ, none, some, List, [], ◌∷◌, lookup, insert, delete, ◌≡◌, refl}
use orjanda.Prelude.Int.{pos}
use orjanda.Cache.{
  Store, capacity, new_lru_store, find_node, remove_node, back, expired, expired_at, expiry,
  remove_element, evict_node, evict_lru, get_node, get_id, get, set_node, push_front, set_id, set,
  delete_id, node_of, delete_key,
}
use orjanda.Cache.Recency.{
  keys, find_key, remove_key, drop_last, read_entry, read, write, entry_of, strip, view,
}
use orjanda.Cache.Valid.{IsValid}
use orjanda.Cache.Refines.{get-Refines, set-Refines}
use orjanda.Cache.Runs.{
  Call, get_call, set_call, delete_call, call, spec_call, run, spec_run, run-new_lru_store, get-set,
}

engine : Unit {0}
unfolding capacity new_lru_store find_node remove_node back expired expired_at expiry remove_element
    evict_node evict_lru get_node get_id get set_node push_front set_id set delete_id node_of
    delete_key keys find_key remove_key drop_last read_entry read write entry_of strip view call
    spec_call run spec_run lookup insert delete
engine = tt

abbrev calls : List (Call ℕ)
calls =
    set_call 10 "a" 1 0
    ∷ set_call 11 "b" 2 5
    ∷ get_call 12 "a"
    ∷ set_call 13 "c" 3 0
    ∷ delete_call "x"
    ∷ []

abbrev used : Store ℕ
used = run calls (new_lru_store (pos 2))

-- "b" is the least recently used, so it makes room for "c".
used-keys : keys (view used) ≡ ("c" ∷ "a" ∷ [])
unfolding engine
used-keys = refl

old_value : (get 20 "b" (set 11 "b" 2 5 used)).0 ≡ none
unfolding engine
old_value = refl

run-new_lru_store_example :
    IsValid (run calls (new_lru_store (pos 2)))
    × (view (run calls (new_lru_store (pos 2))) ≡ spec_run (capacity (pos 2)) calls [])
run-new_lru_store_example = run-new_lru_store (pos 2) calls

used-IsValid : IsValid used
used-IsValid = (run-new_lru_store (pos 2) calls).0

get-set_example : (get 12 "b" (set 11 "b" 2 5 used)).0 ≡ some 2
unfolding expired_at expiry
get-set_example = get-set 11 12 "b" 2 5 used used-IsValid

get-Refines_example :
    ((get 12 "a" used).0 ≡ (read 12 "a" (view used)).0)
    × (view (get 12 "a" used).1 ≡ (read 12 "a" (view used)).1)
get-Refines_example = get-Refines 12 "a" used used-IsValid

set-Refines_example : view (set 14 "d" 4 0 used) ≡ write used.max_items 14 "d" 4 0 (view used)
set-Refines_example = set-Refines 14 "d" 4 0 used used-IsValid
