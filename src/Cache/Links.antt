-- ===== src/Cache/Links.antt =====
-- The map and the list of cache/cache.go agree: what a store keeps between its operations.
use orjanda.Prelude.{
  ℕ, suc, ◌<◌, String, Bool, true, false, ◌||◌, ◌==◌, eq_iff, some, List, [], ◌∷◌, Dict, lookup,
  eqb, length, if◌then◌else◌, ◌≡◌, refl, ap, subst, inl, inr, arith, member, All, Bool-cases,
}
use orjanda.Cache.{Node, find_node, remove_node, back}
use orjanda.Cache.Recency.{Entry, keys, find_key, remove_key, drop_last, entry_of, strip}

module _ {V : Type 0} where
  abbrev pub has_id : ℕ → List (Node V) → Bool
  has_id id [] = false
  has_id id (n ∷ ns) = eqb n.id id || has_id id ns

  -- The map sends the key of each node to the node.
  abbrev pub Linked : Dict ℕ → List (Node V) → Type 0
  Linked items ns = All (λ (n : Node V). lookup n.key items ≡ some n.id) ns

  -- No key and no address stands twice.
  abbrev pub Distinct : List (Node V) → Type 0
  Distinct [] = Unit
  Distinct (n ∷ ns) =
      (member n.key (keys (strip ns)) ≡ false) × (has_id n.id ns ≡ false) × Distinct ns

  -- The key `k` is that of the node at the address `id`.
  pub record IsAt (k : String) (id : ℕ) (ns : List (Node V)) : Type 0 where
    pub node : Node V
    pub found : find_node id ns ≡ some node
    pub named : node.key ≡ k
    pub placed : node.id ≡ id
    pub seen : find_key k (strip ns) ≡ some (entry_of node)
    pub removed : strip (remove_node id ns) ≡ remove_key k (strip ns)

  has_id_of_key :
      (items : Dict ℕ) (k : String) (id : ℕ) (ns : List (Node V))
      → Linked items ns
      → lookup k items ≡ some id
      → member k (keys (strip ns)) ≡ true
      → has_id id ns ≡ true
  unfolding strip keys
  has_id_of_key items k id [] l at m = cc
  has_id_of_key items k id (n ∷ ns) (p, l) at m = elim (Bool-cases (n.key == k)) [
    | inl same ↦ ground (arith, ap (λ (j : String). lookup j items) ((eq_iff n.key k).0 same))
    | inr other ↦ ground (arith, has_id_of_key items k id ns l at)
  ]

  pub IsAt-of_key :
      (items : Dict ℕ) (k : String) (id : ℕ) (ns : List (Node V))
      → Linked items ns
      → Distinct ns
      → lookup k items ≡ some id
      → member k (keys (strip ns)) ≡ true
      → IsAt k id ns
  unfolding find_node remove_node find_key remove_key strip keys
  IsAt-of_key items k id [] l d at m = cc
  IsAt-of_key items k id (n ∷ ns) (p, l) (fresh, apart, d) at m = elim (Bool-cases (n.key == k)) [
    | inl same ↦
        let here : n.id ≡ id =
          ground (arith, ap (λ (j : String). lookup j items) ((eq_iff n.key k).0 same)) in
        record {
          node = n;
          found = ground arith;
          named = (eq_iff n.key k).0 same;
          placed = here;
          seen = ground arith;
          removed = ground arith;
        }
    | inr other ↦
        let later : member k (keys (strip ns)) ≡ true = ground arith in
        let held = has_id_of_key items k id ns l at later in
        let i = IsAt-of_key items k id ns l d at later in
        let away : eqb n.id id ≡ false =
          ground (arith, ap (λ (j : ℕ). has_id j ns) {x = n.id} {y = id}) in
        record {
          node = i.node;
          found = ground (arith, i.found);
          named = i.named;
          placed = i.placed;
          seen = ground (arith, i.seen);
          removed = ground (arith, i.removed);
        }
  ]

  -- What holds of all nodes holds of those that are left.
  pub All-remove_node {κ} :
      (P : Node V → Type κ) (id : ℕ) (ns : List (Node V)) → All P ns → All P (remove_node id ns)
  unfolding remove_node
  All-remove_node P id [] h = tt
  All-remove_node P id (n ∷ ns) (p, h) =
      elim (eqb n.id id) as (λ b. All P (if b then ns else n ∷ remove_node id ns)) [
        | true ↦ h
        | false ↦ (p, All-remove_node P id ns h)
      ]

  has_id-remove_node :
      (id j : ℕ) (ns : List (Node V)) → has_id j ns ≡ false → has_id j (remove_node id ns) ≡ false
  unfolding remove_node
  has_id-remove_node id j [] h = refl
  has_id-remove_node id j (n ∷ ns) h = ground (arith, has_id-remove_node id j ns)

  pub has_id-remove_node_self :
      (id : ℕ) (ns : List (Node V)) → Distinct ns → has_id id (remove_node id ns) ≡ false
  unfolding remove_node
  has_id-remove_node_self id [] d = refl
  has_id-remove_node_self id (n ∷ ns) (fresh, apart, d) = elim (Bool-cases (eqb n.id id)) [
    | inl same ↦ let e : n.id ≡ id = ground arith in rw same (rw (← e) apart)
    | inr other ↦ ground (arith, has_id-remove_node_self id ns d)
  ]

  member-remove_node :
      (id : ℕ) (k : String) (ns : List (Node V))
      → member k (keys (strip ns)) ≡ false
      → member k (keys (strip (remove_node id ns))) ≡ false
  unfolding remove_node strip keys
  member-remove_node id k [] h = refl
  member-remove_node id k (n ∷ ns) h = ground (arith, member-remove_node id k ns)

  pub Distinct-remove_node :
      (id : ℕ) (ns : List (Node V)) → Distinct ns → Distinct (remove_node id ns)
  unfolding remove_node
  Distinct-remove_node id [] d = tt
  Distinct-remove_node id (n ∷ ns) (fresh, apart, d) =
      elim (eqb n.id id) as (λ b. Distinct (if b then ns else n ∷ remove_node id ns)) [
        | true ↦ d
        | false ↦ (
          member-remove_node id n.key ns fresh,
          has_id-remove_node id n.id ns apart,
          Distinct-remove_node id ns d,
        )
      ]

  pub length-remove_node :
      (id : ℕ) (ns : List (Node V)) {n : Node V}
      → find_node id ns ≡ some n
      → suc (length (remove_node id ns)) ≡ length ns
  unfolding remove_node find_node
  length-remove_node id [] h = cc
  length-remove_node id (m ∷ ns) {n} h = elim (Bool-cases (eqb m.id id)) [
    | inl same ↦ rw same
    | inr other ↦ ground (arith, length-remove_node id ns {n = n} (ground arith))
  ]

  -- A key that is taken out is gone, and the others stay.
  pub member-remove_key :
      (k j : String) (ns : List (Node V))
      → Distinct ns
      → member j (keys (remove_key k (strip ns)))
        ≡ (if k == j then false else member j (keys (strip ns)))
  unfolding remove_key strip keys
  member-remove_key k j [] d = ground arith
  member-remove_key k j (n ∷ ns) (fresh, apart, d) =
      ground (arith, member-remove_key k j ns d, eq_iff n.key k, eq_iff n.key j, eq_iff k j)

  pub All-find_node {κ} :
      (P : Node V → Type κ) (id : ℕ) (ns : List (Node V)) {n : Node V}
      → All P ns
      → find_node id ns ≡ some n
      → P n
  unfolding find_node
  All-find_node P id [] h found = cc
  All-find_node P id (m ∷ ms) {n} (p, h) found = elim (Bool-cases (eqb m.id id)) [
    | inl same ↦ let e : m ≡ n = ground arith in subst P e p
    | inr other ↦ All-find_node P id ms h (ground arith)
  ]

  pub All-back {κ} :
      (P : Node V → Type κ) (ns : List (Node V)) {n : Node V} → All P ns → back ns ≡ some n → P n
  unfolding back
  All-back P [] h e = cc
  All-back P (m ∷ []) {n} (p, h) e = let same : m ≡ n = cc in subst P same p
  All-back P (m ∷ l ∷ ls) (p, h) e = All-back P (l ∷ ls) h e

  pub back-some : (ns : List (Node V)) → 0 < length ns → (n : Node V) × (back ns ≡ some n)
  unfolding back
  back-some [] h = absurd (omega arith)
  back-some (m ∷ []) h = (m, refl)
  back-some (m ∷ l ∷ ls) h = back-some (l ∷ ls) (omega arith)

  back-has_id : (ns : List (Node V)) {n : Node V} → back ns ≡ some n → has_id n.id ns ≡ true
  unfolding back
  back-has_id [] e = cc
  back-has_id (m ∷ []) {n} e =
      let same : m ≡ n = cc in ground (arith, ap (λ (k : Node V). k.id) same)
  back-has_id (m ∷ l ∷ ls) {n} e =
      let later = back-has_id (l ∷ ls) {n = n} e in ground (arith, later)

  -- The node at the back is the last, so it is the last entry that goes.
  pub strip-remove_back :
      (ns : List (Node V)) {n : Node V}
      → Distinct ns
      → back ns ≡ some n
      → strip (remove_node n.id ns) ≡ drop_last (strip ns)
  unfolding back remove_node strip drop_last
  strip-remove_back [] d e = cc
  strip-remove_back (m ∷ []) {n} d e =
      let same : m ≡ n = cc in ground (arith, ap (λ (k : Node V). k.id) same)
  strip-remove_back (m ∷ l ∷ ls) {n} (fresh, apart, d) e =
      let later = strip-remove_back (l ∷ ls) {n = n} d e in
      let held = back-has_id (l ∷ ls) {n = n} e in
      let other : eqb m.id n.id ≡ false =
        ground (arith, ap (λ (i : ℕ). has_id i (l ∷ ls)) {x = m.id} {y = n.id}) in
      rw other (ap (λ (es : List (Entry V)). entry_of m ∷ es) later)
