-- ===== src/Planner/Tests.antt =====
-- agent/planner/planner.go on a plan of two steps, the second after the first.
use orjanda.Prelude.{
  ℕ, String, false, List, [], ◌∷◌, some, Dict, lookup, get_elem?, is_empty, Memᴰ, ◌≡◌, ◌↔◌, refl,
}
use orjanda.Prelude.Int.{ℤ, pos}
use orjanda.Errors.{ok, err, plain}
use orjanda.Value.{Value, Fields, Row, text, int, array, object, nil, cons, end, field}
use orjanda.Planner.{
  PlanStep, is_empty_value, has_type, required_of, required_pass, enum_passes, type_passes,
  properties_pass, validate_args, check_deps, check_known, check_step, check_steps, validate,
}
use orjanda.Planner.Validated.{IsStep, validate-IsStep}

engine : Unit {0}
unfolding lookup is_empty_value has_type required_pass enum_passes type_passes properties_pass
    validate_args check_deps check_known check_step check_steps validate
engine = tt

abbrev show : Value → String
show (text s) = s
show _ = "?"

abbrev schema : Row
schema =
    ("required", array (cons (text "title") nil))
    ∷ (
      "properties",
      object (
          field "title" (object (field "type" (text "string") end)) (
            field "rows"
              (object (
                field "type" (text "array") (
                  field "items" (object (field "required" (array (cons (text "qty") nil)) end))
                    end)))
              end)),
    )
    ∷ []

abbrev titled : Fields
titled = field "title" (text "T") end

abbrev plan : List ℤ → List PlanStep
plan deps =
    record { operation = "create_note"; args = titled; depends_on = [] }
    ∷ record { operation = "create_note"; args = titled; depends_on = deps }
    ∷ []

abbrev schemas : Dict Row
schemas = ("create_note", schema) ∷ []

accepted : validate show (plan (pos 0 ∷ [])) schemas ≡ ok tt
unfolding engine
accepted = refl

on_itself : validate show (plan (pos 1 ∷ [])) schemas ≡ err plain
unfolding engine
on_itself = refl

unnamed_row :
    validate_args show
      (field "title"
        (text "T")
        (field "rows" (array (cons (object (field "note" (text "n") end)) nil)) end))
      schema
    ≡ err plain
unfolding engine
unnamed_row = refl

wrong_type : validate_args show (field "title" (int (pos 1)) end) schema ≡ err plain
unfolding engine
wrong_type = refl

fits : validate_args show titled schema ≡ ok tt
unfolding engine
fits = refl

required_title : Memᴰ (text "title") (required_of schema)
unfolding engine
required_title = Memᴰ.head refl

validate-IsStep_example : (validate show (plan (pos 0 ∷ [])) schemas ≡ ok tt) ↔ (
    (is_empty (plan (pos 0 ∷ [])) ≡ false)
    × ((i : ℕ) (s : PlanStep) → get_elem? (plan (pos 0 ∷ [])) i ≡ some s → IsStep show schemas i s))
validate-IsStep_example = validate-IsStep show (plan (pos 0 ∷ [])) schemas
