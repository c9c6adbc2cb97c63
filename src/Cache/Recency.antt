-- ===== src/Cache/Recency.antt =====
-- What the store of cache/cache.go promises: a list of entries, most recently used first, without
-- addresses or a map.
use orjanda.Prelude.{
  ℕ, String, ◌==◌, Option, none, some, List, [], ◌∷◌, leb, length, if◌then◌else◌, member,
}
use orjanda.Cache.{Node, Store, expired_at, expiry}

pub record Entry (V : Type 0) : Type 0 where
  pub key : String
  pub value : V
  pub expires : Option ℕ

module _ {V : Type 0} where
  unfoldable pub keys : List (Entry V) → List String
  keys [] = []
  keys (e ∷ es) = e.key ∷ keys es

  unfoldable pub find_key : String → List (Entry V) → Option (Entry V)
  find_key k [] = none
  find_key k (e ∷ es) = if e.key == k then some e else find_key k es

  unfoldable pub remove_key : String → List (Entry V) → List (Entry V)
  remove_key k [] = []
  remove_key k (e ∷ es) = let rest = remove_key k es in if e.key == k then es else e ∷ rest

  unfoldable pub drop_last : List (Entry V) → List (Entry V)
  drop_last [] = []
  drop_last (e ∷ []) = []
  drop_last (e ∷ f ∷ es) = e ∷ drop_last (f ∷ es)

  unfoldable pub read_entry : ℕ → Option (Entry V) → List (Entry V) → Option V × List (Entry V)
  read_entry now none es = (none, es)
  read_entry now (some e) es =
      if expired_at now e.expires
      then (none, remove_key e.key es)
      else (some e.value, e ∷ remove_key e.key es)

  unfoldable pub read : ℕ → String → List (Entry V) → Option V × List (Entry V)
  read now k es = read_entry now (find_key k es) es

  unfoldable pub write : ℕ → ℕ → String → V → ℕ → List (Entry V) → List (Entry V)
  write cap now k v ttl es =
      record { key = k; value = v; expires = expiry now ttl }
      ∷ (if member k (keys es)
          then remove_key k es
          else if leb cap (length es)
          then drop_last es
          else es)

  -- the entries of a store, without their addresses
  unfoldable pub entry_of : Node V → Entry V
  entry_of n = record { key = n.key; value = n.value; expires = n.expires }

  unfoldable pub strip : List (Node V) → List (Entry V)
  unfolding entry_of
  strip [] = []
  strip (n ∷ ns) = entry_of n ∷ strip ns

  unfoldable pub view : Store V → List (Entry V)
  view s = strip s.order
