-- ===== src/Tools/Schemas.antt =====
-- The field schema mapping of agent/tools/tools.go.
use orjanda.Prelude.{
  String, Bool, true, false, not, ◌&&◌, ◌||◌, ◌==◌, List, [], ◌∷◌, insert, is_empty, member,
  if◌then◌else◌,
}
use Prim.Native.String.{◌++◌}
use orjanda.Value.{Value, Row, text, texts, object}
use orjanda.Schema.{
  FieldType, int, int64, float64, bool, date, datetime, currency, link, json, Field, CompiledChild,
  CompiledDoc,
}
use orjanda.Tools.Names.{snake_case, around, to_fields, object_schema}

-- baseFieldNames
abbrev pub base_field_names : List String
base_field_names =
    "ID" ∷ "Name" ∷ "Owner" ∷ "CreatedAt" ∷ "UpdatedAt" ∷ "ModifiedBy" ∷ "DocStatus" ∷ "Deleted"
    ∷ []

-- childAutoFieldNames
abbrev child_auto_field_names : List String
child_auto_field_names = "ID" ∷ "ParentID" ∷ "Idx" ∷ []

unfoldable pub field_json_type : FieldType → String
field_json_type int = "integer"
field_json_type int64 = "integer"
field_json_type float64 = "number"
field_json_type currency = "number"
field_json_type bool = "boolean"
field_json_type json = "object"
field_json_type _ = "string"

-- the formats and types of the `switch` of fieldSchema
unfoldable pub typed : FieldType → Row → Row
typed date sch = insert "format" (text "date") sch
typed datetime sch = insert "format" (text "date-time") sch
typed currency sch = insert "type" (text "number") sch
typed json sch = insert "type" (text "object") sch
typed _ sch = sch

abbrev is_link_type : FieldType → Bool
is_link_type link = true
is_link_type _ = false

unfoldable pub description_of : Field → String
description_of f =
    let start =
      if is_link_type f.type then around "Reference to a " f.link_target " document" else f.label in
    let marked =
      if f.required && f.unique
      then start ++ " (required, must be unique)"
      else if f.required
      then start ++ " (required)"
      else if f.unique
      then start ++ ", must be unique"
      else start in
    if f.agent_hint == "" then marked else marked ++ (" " ++ f.agent_hint)

unfoldable pub field_schema : Field → Row
field_schema f =
    let base = typed f.type (("type", text (field_json_type f.type)) ∷ []) in
    let with_options = if is_empty f.options then base else insert "enum" (texts f.options) base in
    let with_default =
      if f.default == "" then with_options else insert "default" (text f.default) with_options in
    let with_format =
      if f.format == "" then with_default else insert "format" (text f.format) with_default in
    insert "description" (text (description_of f)) with_format

-- the loop of childTableSchema
unfoldable pub child_props : List Field → Row → Row
child_props [] props = props
child_props (f ∷ fs) props = child_props fs (
    if member f.name child_auto_field_names || f.agent_hidden || f.computed
    then props
    else insert (snake_case f.name) (object (to_fields (field_schema f))) props)

unfoldable pub child_table_schema : CompiledChild → Value
child_table_schema child = object (
    to_fields (
      ("type", text "array")
      ∷ (
        "items",
        object (
            to_fields (
              ("type", text "object")
              ∷ ("properties", object (to_fields (child_props child.fields [])))
              ∷ [])),
      )
      ∷ []))

-- whether buildPayloadSchema passes over a field
unfoldable pub is_left_out : Bool → Field → Bool
is_left_out on_update f =
    member f.name base_field_names || f.agent_hidden || f.computed || (on_update && f.read_only)

-- the loop over the fields
unfoldable pub payload_props : Bool → List Field → Row → Row
payload_props on_update [] props = props
payload_props on_update (f ∷ fs) props = payload_props on_update fs (
    if is_left_out on_update f
    then props
    else insert (snake_case f.name) (object (to_fields (field_schema f))) props)

unfoldable pub required_keys : Bool → List Field → List String
required_keys on_update [] = []
required_keys on_update (f ∷ fs) =
    let rest = required_keys on_update fs in
    if not (is_left_out on_update f) && f.required && not f.hidden
    then snake_case f.name ∷ rest
    else rest

-- the loop over the child tables
unfoldable pub nested_props : List CompiledChild → Row → Row
nested_props [] props = props
nested_props (child ∷ children) props =
    nested_props children (insert (snake_case child.field_name) (child_table_schema child) props)

unfoldable pub build_payload_schema : CompiledDoc → Bool → Row
build_payload_schema doc on_update =
    object_schema (nested_props doc.child_tables (payload_props on_update doc.fields []))
      (required_keys on_update doc.fields)

unfoldable pub gated_fields : List Field → List String
gated_fields [] = []
gated_fields (f ∷ fs) =
    let rest = gated_fields fs in if f.permission_role == "" then rest else f.name ∷ rest
