-- ===== src/App.antt =====
-- app/app.go: applications and the order in which ResolveDAG puts them. The Hooks value, a Go
-- value of any type that is only asserted to an interface, is left out.
pub mod Marks
pub mod Order
mod Fuel
pub mod Cycle
pub mod Outcome
mod Tests
use orjanda.Prelude.{
  ℕ, zero, suc, String, Bool, Option, none, some, List, [], ◌∷◌, ◌++◌, Dict, lookup, insert, eqb,
  length, if◌then◌else◌,
}
use orjanda.Errors.{Result, ok, err, fail, internal, validation}

pub record Dependency : Type 0 where
  pub app : String
  pub min_version : String

pub record Part : Type 0 where
  pub name : String
  pub title : String

pub record Definition : Type 0 where
  pub name : String
  pub title : String
  pub version : String
  pub description : String
  pub publisher : String
  pub parts : List Part
  pub dependencies : List Dependency

-- The variables that `visit` closes over: the marks (0 unvisited, 1 visiting, 2 visited; a name
-- with no mark has 0) and the applications in order.
pub record Walk : Type 0 where
  pub visited : Dict ℕ
  pub result : List Definition

abbrev or_zero : Option ℕ → ℕ
or_zero none = 0
or_zero (some n) = n

-- `visited[name]`
unfoldable pub mark_of : String → Dict ℕ → ℕ
mark_of name visited = or_zero (lookup name visited)

-- `visited[name] = 1`
unfoldable pub enter : String → Walk → Walk
enter name w = record w { visited = insert name 1 w.visited }

-- `visited[name] = 2` and `result = append(result, appDef)`
unfoldable pub leave : String → Definition → Walk → Walk
leave name def w = record { visited = insert name 2 w.visited; result = w.result ++ def ∷ [] }

-- What a walk with fuel gives: `none` if the fuel ran out.
abbrev pub Outcome : Type 0
Outcome = Option (Result Walk)

abbrev pub and_then : Outcome → (Walk → Outcome) → Outcome
and_then none k = none
and_then (some (err e)) k = some (err e)
and_then (some (ok w)) k = k w

-- the loop over the names that are visited in turn
unfoldable pub visit_each : (String → Walk → Outcome) → List String → Walk → Outcome
visit_each visit_one [] w = some (ok w)
visit_each visit_one (name ∷ names) w =
    and_then (visit_one name w) (λ w'. visit_each visit_one names w')

unfoldable pub dependency_names : List Dependency → List String
dependency_names [] = []
dependency_names (d ∷ ds) = d.app ∷ dependency_names ds

-- what follows the tests on the mark
unfoldable pub visit_new : (String → Walk → Outcome) → Option Definition → String → Walk → Outcome
visit_new visit_one none name w = some (fail validation)
visit_new visit_one (some def) name w =
    and_then (visit_each visit_one (dependency_names def.dependencies) (enter name w))
      (λ w'. some (ok (leave name def w')))

-- `visit`, with fuel for the depth of its recursion
unfoldable pub visit : ℕ → Dict Definition → String → Walk → Outcome
visit zero apps name w = none
visit (suc fuel) apps name w =
    let further = visit_new (visit fuel apps) (lookup name apps) name w in
    if eqb (mark_of name w.visited) 2
    then some (ok w)
    else if eqb (mark_of name w.visited) 1
    then some (fail internal)
    else further

-- appMap: a later definition replaces an earlier one of the same name
unfoldable pub app_map : List Definition → Dict Definition → Dict Definition
app_map [] m = m
app_map (d ∷ ds) m = app_map ds (insert d.name d m)

unfoldable pub definition_names : List Definition → List String
definition_names [] = []
definition_names (d ∷ ds) = d.name ∷ definition_names ds

abbrev pub start : Walk
start = record { visited = []; result = [] }

-- what ResolveDAG returns of the walk
abbrev pub order_of : Outcome → Option (Result (List Definition))
order_of none = none
order_of (some (err e)) = some (err e)
order_of (some (ok w)) = some (ok w.result)

-- The depth is bounded by the number of definitions.
unfoldable pub resolve_dag : List Definition → Option (Result (List Definition))
resolve_dag apps =
    order_of
      (visit_each (visit (suc (suc (length apps))) (app_map apps [])) (definition_names apps) start)
