-- ===== src/App/Outcome.antt =====
-- ResolveDAG (app/app.go) fails exactly when a dependency is missing or goes in a circle.
use orjanda.Prelude.{
  ℕ, suc, ◌<◌, String, true, ◌||◌, ◌==◌, eq_iff, Option, none, some, List, [], ◌∷◌, Dict, lookup,
  insert, if◌then◌else◌, ◌≡◌, refl, ◌≢◌, ◌⊎◌, inl, inr, arith, Bool-cases, length, member, All,
  All-imp, All-of_member, member-All, is_some, lookup-insert, ap, ◌∙◌, subst,
}
use orjanda.Errors.{Result, ok, err, Error, coded, internal, validation}
use orjanda.App.{
  Definition, mark_of, Outcome, visit, app_map, dependency_names, definition_names, start, order_of,
  resolve_dag,
}
use orjanda.App.Marks.{Ordered, start-Inv}
use orjanda.App.Order.{IsNamed, visit-IsSound, app_map-IsNamed, resolve_dag-Ordered}
use orjanda.App.Fuel.{resolve_dag-ne-none}
use orjanda.App.Cycle.{Edge, Needs, direct, through, visit_each-explained, visit-IsExplained}

-- the position of a name in an order
rank : String → List Definition → ℕ
rank k [] = 0
rank k (d ∷ ds) = let later = suc (rank k ds) in if d.name == k then 0 else later

Ordered-rank :
    (seen : List String) (ds : List Definition) (d : Definition) (dep : String)
    → Ordered seen ds
    → All (λ (e : Definition). (e.name ≡ d.name) → e ≡ d) ds
    → member d.name (definition_names ds) ≡ true
    → member dep (dependency_names d.dependencies) ≡ true
    → (member dep seen ≡ true)
      ⊎ ((member dep (definition_names ds) ≡ true) × (rank dep ds < rank d.name ds))
unfolding rank definition_names
Ordered-rank seen [] d dep o unique m n = cc
Ordered-rank seen (e ∷ es) d dep (p, q, o) (u, us) m n = elim (Bool-cases (e.name == d.name)) [
  | inl same ↦
      let e≡d = u ((eq_iff e.name d.name).0 same) in
      inl (
        member-All (λ x. member x seen ≡ true) dep (dependency_names e.dependencies) q (simp e≡d n))
  | inr other ↦ elim (Ordered-rank (e.name ∷ seen) es d dep o us (ground arith) n) [
    | inl before ↦ ground (arith, eq_iff e.name dep)
    | inr (later, lt) ↦ ground (arith, eq_iff e.name dep)
  ]
]

abbrev IsKnown : Dict Definition → List Definition → Type 0
IsKnown apps ds = All (λ (d : Definition). lookup d.name apps ≡ some d) ds

-- A member of a known order is found in the map.
IsKnown-unique :
    (apps : Dict Definition) (ds : List Definition) (d : Definition)
    → lookup d.name apps ≡ some d
    → IsKnown apps ds
    → All (λ (e : Definition). (e.name ≡ d.name) → e ≡ d) ds
IsKnown-unique apps ds d found known =
    All-imp (λ e k same. cc (k, ap (λ (n : String). lookup n apps) same, found)) ds known

module _ (apps : Dict Definition) (order : List Definition) (o : Ordered [] order)
    (known : IsKnown apps order) (named : IsNamed apps) where
  Edge-rank :
      (a b : String)
      → member a (definition_names order) ≡ true
      → Edge apps a b
      → (member b (definition_names order) ≡ true) × (rank b order < rank a order)
  Edge-rank a b m (d, found, dep) =
      let same : d.name ≡ a = named a d found in
      let found' : lookup d.name apps ≡ some d = ap (λ (n : String). lookup n apps) same ∙ found in
      let listed : member d.name (definition_names order) ≡ true =
        ap (λ (n : String). member n (definition_names order)) same ∙ m in
      elim (Ordered-rank [] order d b o (IsKnown-unique apps order d found' known) listed dep) [
        | inl nowhere ↦ cc
        | inr below ↦
            subst (λ x. (member b (definition_names order) ≡ true) × (rank b order < rank x order))
              same below
      ]

  Needs-rank :
      {a b : String}
      → member a (definition_names order) ≡ true
      → Needs apps a b
      → (member b (definition_names order) ≡ true) × (rank b order < rank a order)
  Needs-rank {a} {b} m (direct e) = Edge-rank a b m e
  Needs-rank {a} {b} m (through {b = c} p e) =
      let (m', lt) = Needs-rank m p in let (m'', lt') = Edge-rank c b m' e in (m'', omega arith)

member-IsKnown :
    (apps : Dict Definition) (ds : List Definition) (k : String)
    → IsKnown apps ds
    → member k (definition_names ds) ≡ true
    → lookup k apps ≢ none
unfolding definition_names
member-IsKnown apps [] k known m = cc
member-IsKnown apps (d ∷ ds) k (found, known) m = elim (Bool-cases (d.name == k)) [
  | inl same ↦ λ e. cc (ap (λ (n : String). lookup n apps) ((eq_iff d.name k).0 same), found, e)
  | inr other ↦ member-IsKnown apps ds k known (ground arith)
]

lookup-app_map :
    (ds : List Definition) (m : Dict Definition) (k : String) (d : Definition)
    → lookup k (app_map ds m) ≡ some d
    → (member k (definition_names ds) ≡ true) ⊎ (lookup k m ≡ some d)
unfolding app_map definition_names
lookup-app_map [] m k d h = inr h
lookup-app_map (e ∷ es) m k d h = elim (lookup-app_map es (insert e.name e m) k d h) [
  | inl later ↦ inl (ground arith)
  | inr now ↦ ground (arith, lookup-insert e.name k e m)
]

Needs-source :
    (apps : Dict Definition) {a b : String}
    → Needs apps a b
    → (d : Definition) × (lookup a apps ≡ some d)
Needs-source apps (direct (d, found, dep)) = (d, found)
Needs-source apps (through p e) = Needs-source apps p

-- Some application depends on itself, through others or not.
abbrev pub HasCycle : List Definition → Type 0
HasCycle apps = (j : String) × Needs (app_map apps []) j j

-- Some application depends on one that is not given.
abbrev pub LacksDependency : List Definition → Type 0
LacksDependency apps =
    (i : String) × (j : String) × Needs (app_map apps []) i j × (lookup j (app_map apps []) ≡ none)

module _ (apps order : List Definition) (h : resolve_dag apps ≡ some (ok order)) where
  resolved :
      {a b : String}
      → Needs (app_map apps []) a b
      → (member b (definition_names order) ≡ true) × (rank b order < rank a order)
  resolved {a} {b} p =
      let m = app_map apps [] in
      let (o, listed, known) = resolve_dag-Ordered apps order h in
      let (d, found) = Needs-source m p in
      elim (lookup-app_map apps [] a d found) [
        | inl given ↦
            Needs-rank m order o known (app_map-IsNamed apps)
              (member-All (λ n. member n (definition_names order) ≡ true) a (definition_names apps)
                listed given)
              p
        | inr nothing ↦ unfold lookup in cc
      ]

  resolved_acyclic : ¬ HasCycle apps
  resolved_acyclic (j, p) = omega (arith, (resolved p).1)

  resolved_complete : ¬ LacksDependency apps
  resolved_complete (i, j, p, missing) =
      let (o, listed, known) = resolve_dag-Ordered apps order h in
      member-IsKnown (app_map apps []) order j known (resolved p).0 missing

app_map-found :
    (ds : List Definition) (m : Dict Definition) (k : String)
    → (member k (definition_names ds) || is_some (lookup k m)) ≡ true
    → is_some (lookup k (app_map ds m)) ≡ true
unfolding app_map definition_names
app_map-found [] m k h = h
app_map-found (d ∷ ds) m k h =
    app_map-found ds (insert d.name d m) k (ground (arith, lookup-insert d.name k d m))

order_of-err : (o : Outcome) {x : Error} → order_of o ≡ some (err x) → o ≡ some (err x)
order_of-err none h = cc
order_of-err (some (err y)) h = cc
order_of-err (some (ok w)) h = cc

start-unmarked : (j : String) → mark_of j start.visited ≢ 1
unfolding mark_of lookup
start-unmarked j h = omega arith

start-explained :
    (apps : List Definition) (x : Error)
    → resolve_dag apps ≡ some (err x)
    → ((x ≡ coded internal) × HasCycle apps) ⊎ ((x ≡ coded validation) × LacksDependency apps)
unfolding resolve_dag
start-explained apps x h =
    let m = app_map apps [] in
    let fuel = suc (suc (length apps)) in
    let names = definition_names apps in
    let (k, listed, found) =
      visit_each-explained m (visit fuel m) (visit-IsSound m (app_map-IsNamed apps) fuel)
        (visit-IsExplained m (app_map-IsNamed apps) fuel) names start x (start-Inv m)
        (All-of_member names (λ n _ j marked. absurd (start-unmarked j marked)))
        (order_of-err _ h) in
    elim found [
      | inl cycle ↦ inl cycle
      | inr (c, (j, missing, inl same)) ↦
          absurd (ground (arith, app_map-found apps [] k, ap (λ (n : String). lookup n m) same))
      | inr (c, (j, missing, inr needs)) ↦ inr (c, (k, j, needs, missing))
    ]

resolve_dag_cases :
    (apps : List Definition) (r : Option (Result (List Definition)))
    → resolve_dag apps ≡ r
    → ((order : List Definition) × (resolve_dag apps ≡ some (ok order))
        × (¬ HasCycle apps)
        × (¬ LacksDependency apps))
      ⊎ (((resolve_dag apps ≡ some (err (coded internal))) × HasCycle apps)
          ⊎ ((resolve_dag apps ≡ some (err (coded validation))) × LacksDependency apps))
resolve_dag_cases apps none h = absurd (resolve_dag-ne-none apps h)
resolve_dag_cases apps (some (ok order)) h =
    inl (order, h, resolved_acyclic apps order h, resolved_complete apps order h)
resolve_dag_cases apps (some (err x)) h = elim (start-explained apps x h) [
  | inl (e, cycle) ↦ inr (inl (h ∙ ap (λ (y : Error). some (err y)) e, cycle))
  | inr (e, missing) ↦ inr (inr (h ∙ ap (λ (y : Error). some (err y)) e, missing))
]

-- ResolveDAG returns an order exactly when no application depends on itself, directly or through
-- others, and none depends on one that is not given; it fails with the internal code only if some
-- application depends on itself, and with the validation code only if a dependency is not given.
pub resolve_dag_lem :
    (apps : List Definition)
    → ((order : List Definition) × (resolve_dag apps ≡ some (ok order))
        × (¬ HasCycle apps)
        × (¬ LacksDependency apps))
      ⊎ (((resolve_dag apps ≡ some (err (coded internal))) × HasCycle apps)
          ⊎ ((resolve_dag apps ≡ some (err (coded validation))) × LacksDependency apps))
resolve_dag_lem apps = resolve_dag_cases apps (resolve_dag apps) refl
