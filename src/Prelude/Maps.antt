-- ===== src/Prelude/Maps.antt =====
-- Go maps with text keys as association lists. The list's order stands for the order in which a
-- `range` over the map meets the keys, which Go leaves open.
use Prim.Native.String.{String}
use mathlib.Core.Path.{◌≡◌, refl}
use mathlib.Core.Bool.{Bool}
use mathlib.Core.Logic.{inl, inr}
use mathlib.Core.Option.{Option, none, some}
use mathlib.Core.List.{List, [], ◌∷◌}
use native.Mathlib.Omega.{arith}
use text.Mathlib.Text.{◌==◌}
use text.Mathlib.TextEquality.{eq_iff}
use mathlib.Core.Bool.{true, false}
use Prim.Native.Nat.{suc}
use orjanda.Prelude.Tests.{if◌then◌else◌, is_some, Bool-cases}
use orjanda.Prelude.Lists.{length}

abbrev pub Dict {ℓ} : Type ℓ → Type ℓ
Dict V = List (String × V)

module _ {ℓ} {V : Type ℓ} where
  abbrev pub keys : Dict V → List String
  keys [] = []
  keys ((k, v) ∷ m) = k ∷ keys m

  -- `v, ok := m[k]`
  unfoldable pub lookup : String → Dict V → Option V
  lookup k [] = none
  lookup k ((key, held) ∷ rest) = if key == k then some held else lookup k rest

  -- `m[k] = v`
  unfoldable pub insert : String → V → Dict V → Dict V
  insert k new [] = (k, new) ∷ []
  insert k new ((key, held) ∷ rest) =
      let later = insert k new rest in if key == k then (key, new) ∷ rest else (key, held) ∷ later

  -- `delete(m, k)`
  unfoldable pub delete : String → Dict V → Dict V
  delete k [] = []
  delete k ((j, v) ∷ m) = let rest = delete k m in if j == k then rest else (j, v) ∷ rest

  -- `_, ok := m[k]`
  unfoldable pub has_key : String → Dict V → Bool
  unfolding lookup
  has_key k m = is_some (lookup k m)

  -- `for k, v := range m { out[k] = v }`
  unfoldable pub overlay : Dict V → Dict V → Dict V
  unfolding insert
  overlay out [] = out
  overlay out ((k, v) ∷ m) = overlay (insert k v out) m

  pub lookup-insert :
      (k sought : String) (new : V) (m : Dict V)
      → lookup sought (insert k new m) ≡ (if k == sought then some new else lookup sought m)
  unfolding lookup insert
  lookup-insert k sought new [] = refl
  lookup-insert k sought new ((key, held) ∷ rest) =
      ground
        (arith, lookup-insert k sought new rest, eq_iff key sought, eq_iff k sought, eq_iff key k)

  pub lookup-delete :
      (k j : String) (m : Dict V) → lookup j (delete k m) ≡ (if k == j then none else lookup j m)
  unfolding lookup delete
  lookup-delete k j [] = ground arith
  lookup-delete k j ((i, v) ∷ m) =
      ground (arith, lookup-delete k j m, eq_iff i k, eq_iff i j, eq_iff k j)

pub ruleset dict_laws = (lookup-insert, lookup-delete)

module _ {ℓ} {V : Type ℓ} where
  -- A map holds each key once.
  abbrev pub HasUniqueKeys : Dict V → Type 0
  HasUniqueKeys [] = Unit
  HasUniqueKeys ((k, v) ∷ m) = (has_key k m ≡ false) × HasUniqueKeys m

  pub has_key-insert :
      (k j : String) (v : V) (m : Dict V)
      → has_key j (insert k v m) ≡ (if k == j then true else has_key j m)
  unfolding has_key
  has_key-insert k j v m = ground (arith, lookup-insert k j v m)

  pub has_key-delete :
      (k j : String) (m : Dict V) → has_key j (delete k m) ≡ (if k == j then false else has_key j m)
  unfolding has_key
  has_key-delete k j m = ground (arith, lookup-delete k j m)

  pub HasUniqueKeys-insert :
      (k : String) (v : V) (m : Dict V) → HasUniqueKeys m → HasUniqueKeys (insert k v m)
  unfolding insert
  HasUniqueKeys-insert k v [] u = (unfold has_key lookup in refl, tt)
  HasUniqueKeys-insert k v ((j, w) ∷ m) (p, u) = elim (Bool-cases (j == k)) [
    | inl same ↦ rw same (p, u)
    | inr other ↦ rw other (
      ground (arith, has_key-insert k j v m, eq_iff j k, eq_iff k j),
      HasUniqueKeys-insert k v m u,
    )
  ]

  pub HasUniqueKeys-delete :
      (k : String) (m : Dict V) → HasUniqueKeys m → HasUniqueKeys (delete k m)
  unfolding delete
  HasUniqueKeys-delete k [] u = tt
  HasUniqueKeys-delete k ((j, w) ∷ m) (p, u) = elim (Bool-cases (j == k)) [
    | inl same ↦ rw same (HasUniqueKeys-delete k m u)
    | inr other ↦ rw other (ground (arith, has_key-delete k j m), HasUniqueKeys-delete k m u)
  ]

  pub length-insert_new :
      (k : String) (v : V) (m : Dict V)
      → has_key k m ≡ false
      → length (insert k v m) ≡ suc (length m)
  unfolding insert has_key lookup
  length-insert_new k v [] h = refl
  length-insert_new k v ((j, w) ∷ m) h = ground (arith, length-insert_new k v m)

  delete_absent : (k : String) (m : Dict V) → has_key k m ≡ false → delete k m ≡ m
  unfolding delete has_key lookup
  delete_absent k [] h = refl
  delete_absent k ((j, w) ∷ m) h = ground (arith, delete_absent k m)

  pub length-delete :
      (k : String) (m : Dict V)
      → HasUniqueKeys m
      → has_key k m ≡ true
      → suc (length (delete k m)) ≡ length m
  unfolding delete has_key lookup
  length-delete k [] u h = cc
  length-delete k ((j, w) ∷ m) (p, u) h =
      ground (arith, length-delete k m u, delete_absent k m, eq_iff j k)
