-- ===== src/Planner.antt =====
-- agent/planner/planner.go: the validation of plans. An error is one of package fmt, without its text;
-- a nil schema does not differ from a missing one.
pub mod Validated
mod Tests
use orjanda.Prelude.{
  ℕ, suc, String, Bool, true, false, not, ◌&&◌, ◌||◌, ◌==◌, List, [], ◌∷◌, Option, none, some, Dict,
  lookup, has_key, keys, sort_strings, any, is_empty, if◌then◌else◌,
}
use orjanda.Prelude.Int.{ℤ, pos, ltb_ℤ, leb_ℤ}
use orjanda.Errors.{Result, ok, err, plain, ◌>>◌}
use orjanda.Value.{
  Value, Items, Fields, Row, null, text, int, int64, float, bool, array, object, nil, cons, end,
  field, fields, items, as_text, as_array, as_object, text_or_empty,
}

pub record PlanStep : Type 0 where
  pub operation : String
  pub args : Fields
  pub depends_on : List ℤ

abbrev of_type : String → Value
of_type type = object (field "type" (text type) end)

abbrev array_of : Value → Value
array_of element = object (field "type" (text "array") (field "items" element end))

abbrev step_schema : Value
step_schema = object (
    field "type" (text "object") (
      field "properties"
        (object (
          field "operation" (of_type "string") (
            field "args"
              (object (field "type" (text "object") (field "additionalProperties" (bool true) end)))
              (field "depends_on" (array_of (of_type "integer")) end))))
        (field "required" (array (cons (text "operation") (cons (text "args") nil))) end)))

-- Format: the schema's name and the schema
abbrev pub format : String × Row
format = (
  "plan",
  ("type", text "object")
      ∷ ("properties", object (field "steps" (array_of step_schema) end))
      ∷ ("required", array (cons (text "steps") nil))
      ∷ [],
)

-- SortedOperations
unfoldable pub sorted_operations : Dict Row → List String
sorted_operations schemas = sort_strings (keys schemas)

-- isEmptyValue
unfoldable pub is_empty_value : Value → Bool
is_empty_value null = true
is_empty_value (text s) = s == ""
is_empty_value (object end) = true
is_empty_value (array nil) = true
is_empty_value _ = false

-- checkType, as whether the value has the type
unfoldable pub has_type : String → Value → Bool
has_type type (text _) = type == "string"
has_type type (int _) = type == "integer" || type == "number"
has_type type (int64 _) = type == "integer" || type == "number"
has_type type (float _) = type == "integer" || type == "number"
has_type type (bool _) = type == "boolean"
has_type type (object _) = type == "object"
has_type type (array _) = type == "array"
has_type type _ = false

abbrev list_or_empty : Option (List Value) → List Value
list_or_empty none = []
list_or_empty (some vs) = vs

abbrev pub row_or_empty : Option Row → Row
row_or_empty none = []
row_or_empty (some row) = row

abbrev pub required_of : Row → List Value
required_of sch = list_or_empty (as_array (lookup "required" sch))

abbrev properties_of : Row → Row
properties_of sch = row_or_empty (as_object (lookup "properties" sch))

abbrev pub is_given : Option Value → Bool
is_given none = false
is_given (some v) = not (is_empty_value v)

-- the loop over the required arguments
unfoldable pub required_pass : List Value → Row → Bool
required_pass [] args = true
required_pass (r ∷ rs) args =
    let key = text_or_empty (some r) in
    (key == "" || is_given (lookup key args)) && required_pass rs args

-- the loop over the dependencies of the step at an index
unfoldable pub check_deps : ℕ → List ℤ → Result (Unit {0})
check_deps i [] = ok tt
check_deps i (dep ∷ deps) =
    let rest = check_deps i deps in
    if ltb_ℤ dep (pos 0) || leb_ℤ (pos i) dep then err plain else rest

-- The text of a value is that of `fmt.Sprintf("%v", v)`.
module _ (show : Value → String) where
  unfoldable pub enum_passes : Row → Value → Bool
  enum_passes prop v =
      let enums = list_or_empty (as_array (lookup "enum" prop)) in
      is_empty enums || any (λ (e : Value). show e == show v) enums

  unfoldable pub type_passes : Row → Value → Bool
  type_passes prop v =
      let type = text_or_empty (lookup "type" prop) in type == "" || has_type type v

  unfoldable mutual
    -- the loop of validateArgs over the arguments, against the properties
    pub properties_pass : Fields → Row → Bool
    properties_pass end props = true
    properties_pass (field k v args) props =
        (is_empty_value v || property_passes v (as_object (lookup k props)))
        && properties_pass args props

    -- checkValue, where the argument has a property
    pub property_passes : Value → Option Row → Bool
    property_passes v none = true
    property_passes (array vs) (some prop) =
        enum_passes prop (array vs)
        && type_passes prop (array vs)
        && elements_pass vs (as_object (lookup "items" prop))
    property_passes v (some prop) = enum_passes prop v && type_passes prop v

    -- the loop of checkValue over the elements that are maps, by validateArgs
    pub elements_pass : Items → Option Row → Bool
    elements_pass vs none = true
    elements_pass nil (some sch) = true
    elements_pass (cons (object args) vs) (some sch) =
        required_pass (required_of sch) (fields args)
        && properties_pass args (properties_of sch)
        && elements_pass vs (some sch)
    elements_pass (cons v vs) (some sch) = elements_pass vs (some sch)

  -- validateArgs
  unfoldable pub validate_args : Fields → Row → Result (Unit {0})
  validate_args args sch =
      if required_pass (required_of sch) (fields args) && properties_pass args (properties_of sch)
      then ok tt
      else err plain

  -- ValidateArgs
  unfoldable pub validate_projected : Fields → Option Row → Result (Unit {0})
  validate_projected args none = err plain
  validate_projected args (some sch) = validate_args args sch

  unfoldable pub check_known : Option Row → Fields → Result (Unit {0})
  check_known none args = err plain
  check_known (some sch) args = validate_args args sch

  -- the body of the loop of Validate
  unfoldable pub check_step : Dict Row → ℕ → PlanStep → Result (Unit {0})
  check_step schemas i s =
      if s.operation == ""
      then err plain
      else check_known (lookup s.operation schemas) s.args >> check_deps i s.depends_on

  -- the loop of Validate, from an index on
  unfoldable pub check_steps : Dict Row → ℕ → List PlanStep → Result (Unit {0})
  check_steps schemas i [] = ok tt
  check_steps schemas i (s ∷ steps) = check_step schemas i s >> check_steps schemas (suc i) steps

  -- Validate; a nil plan is one without steps
  unfoldable pub validate : List PlanStep → Dict Row → Result (Unit {0})
  validate steps schemas = if is_empty steps then err plain else check_steps schemas 0 steps
