-- ===== src/App/Tests.antt =====
-- app/app.go on three applications.
use orjanda.Prelude.{
  ◌≡◌, refl, ◌⊎◌, String, List, [], ◌∷◌, some, none, lookup, insert, true, All, member, ◌≢◌,
}
use orjanda.Errors.{ok, err, coded, internal, validation, fail}
use orjanda.App.{
  Definition, Dependency, mark_of, enter, leave, visit_each, dependency_names, visit_new, visit,
  app_map, definition_names, resolve_dag,
}
use orjanda.App.Marks.{Ordered}
use orjanda.App.Order.{resolve_dag-Ordered}
use orjanda.App.Fuel.{resolve_dag-ne-none}
use orjanda.App.Outcome.{HasCycle, LacksDependency, resolve_dag_lem}

-- opens the resolver for the tests
resolver : Unit {0}
unfolding lookup insert mark_of enter leave visit_each dependency_names visit_new visit app_map
    definition_names resolve_dag
resolver = tt

abbrev an_app : String → List String → Definition
an_app name deps = record {
  name = name;
  title = "";
  version = "";
  description = "";
  publisher = "";
  parts = [];
  dependencies = named deps;
}
  where
    named : List String → List Dependency
    named [] = []
    named (d ∷ ds) = record { app = d; min_version = "" } ∷ named ds

abbrev core : Definition
core = an_app "core" []

abbrev hr : Definition
hr = an_app "hr" ("core" ∷ [])

abbrev payroll : Definition
payroll = an_app "payroll" ("hr" ∷ "core" ∷ [])

tests :
    (resolve_dag (payroll ∷ hr ∷ core ∷ []) ≡ some (ok (core ∷ hr ∷ payroll ∷ [])))
    × (resolve_dag (hr ∷ []) ≡ some (fail validation))
    × (resolve_dag (hr ∷ an_app "core" ("hr" ∷ []) ∷ []) ≡ some (fail internal))
unfolding resolver
tests = (refl, refl, refl)

resolve_dag-Ordered_example :
    Ordered [] (core ∷ hr ∷ payroll ∷ [])
    × All
        (λ name. member name (definition_names (core ∷ hr ∷ payroll ∷ [])) ≡ true)
        (definition_names (payroll ∷ hr ∷ core ∷ []))
    × All
        (λ (d : Definition). lookup d.name (app_map (payroll ∷ hr ∷ core ∷ []) []) ≡ some d)
        (core ∷ hr ∷ payroll ∷ [])
unfolding resolver
resolve_dag-Ordered_example =
    resolve_dag-Ordered (payroll ∷ hr ∷ core ∷ []) (core ∷ hr ∷ payroll ∷ []) refl

resolve_dag-ne-none_example : resolve_dag (payroll ∷ hr ∷ core ∷ []) ≢ none
resolve_dag-ne-none_example = resolve_dag-ne-none (payroll ∷ hr ∷ core ∷ [])

resolve_dag_lem_example :
    ((order : List Definition) × (resolve_dag (hr ∷ []) ≡ some (ok order))
      × (¬ HasCycle (hr ∷ []))
      × (¬ LacksDependency (hr ∷ [])))
    ⊎ (((resolve_dag (hr ∷ []) ≡ some (err (coded internal))) × HasCycle (hr ∷ []))
        ⊎ ((resolve_dag (hr ∷ []) ≡ some (err (coded validation))) × LacksDependency (hr ∷ [])))
resolve_dag_lem_example = resolve_dag_lem (hr ∷ [])
