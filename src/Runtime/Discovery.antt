-- ===== src/Runtime/Discovery.antt =====
-- What the discovery tools of agent/runtime/executor.go say of documents and their fields.
use orjanda.Prelude.{
  ℕ, String, Bool, true, false, not, ◌&&◌, ◌||◌, ◌==◌, List, [], ◌∷◌, ◌++◌, member, is_empty,
  if◌then◌else◌, equal_fold,
}
use orjanda.Errors.{Result, ok, err, fail, not_found}
use orjanda.Value.{Value, Items, nil, cons, Row, text, bool, texts, array, object, opaque}
use orjanda.Schema.{
  FieldType, string, int64, float64, date, datetime, currency, richtext, link, dynamiclink,
  attachment, json, child_table, Field, CompiledDoc,
}
use orjanda.Tools.Names.{snake_case, to_fields}
use orjanda.Tools.Schemas.{base_field_names}

abbrev pub row_value : Row → Value
row_value row = object (to_fields row)

abbrev pub rows_value : List Row → Items
rows_value [] = nil
rows_value (row ∷ rows) = cons (row_value row) (rows_value rows)

-- the loop of listDocumentTypes
unfoldable pub list_types : String → List CompiledDoc → List Row
list_types module_name [] = []
list_types module_name (d ∷ docs) =
    let rest = list_types module_name docs in
    if d.agent_hidden || (not (module_name == "") && not (equal_fold d.module_name module_name))
    then rest
    else (("name", text d.name)
        ∷ ("module", text d.module_name)
        ∷ ("description", text d.description)
        ∷ [])
      ∷ rest

-- the text of a field type
unfoldable pub type_name : FieldType → String
type_name string = "string"
type_name FieldType.int = "int"
type_name int64 = "int64"
type_name float64 = "float64"
type_name FieldType.bool = "bool"
type_name date = "date"
type_name datetime = "datetime"
type_name currency = "currency"
type_name FieldType.text = "text"
type_name richtext = "richtext"
type_name link = "link"
type_name dynamiclink = "dynamiclink"
type_name attachment = "attachment"
type_name json = "json"
type_name child_table = "child_table"

abbrev pub when : Bool → String → Value → Row → Row
when true key v row = row ++ (key, v) ∷ []
when false key v row = row

unfoldable pub describe_field : Field → Row
describe_field f = when (not (f.agent_hint == "")) "hint" (text f.agent_hint) (
    when (not (f.label == "")) "label" (text f.label) (
      when (not (f.link_target == "")) "link" (text f.link_target) (
        when (not (is_empty f.options)) "options" (texts f.options) (
          ("name", text (snake_case f.name))
          ∷ ("type", text (type_name f.type))
          ∷ ("required", bool f.required)
          ∷ []))))

unfoldable pub describe_fields : List Field → List Row
describe_fields [] = []
describe_fields (f ∷ fs) =
    let rest = describe_fields fs in
    if f.agent_hidden || member f.name base_field_names then rest else describe_field f ∷ rest

abbrev pub describe_found : Result CompiledDoc → Result Value
describe_found (err e) = err e
describe_found (ok doc) =
    if doc.agent_hidden
    then fail not_found
    else ok (
        row_value (
          ("name", text doc.name)
          ∷ ("description", text doc.description)
          ∷ ("module", text doc.module_name)
          ∷ ("searchable", bool doc.searchable)
          ∷ ("fields", array (rows_value (describe_fields doc.fields)))
          ∷ []))

abbrev pub related_found : ℕ → Result CompiledDoc → Result Value
related_found n (err e) = err e
related_found n (ok doc) = ok (opaque n)
