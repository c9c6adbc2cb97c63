-- ===== src/Schema/Registry/Names.antt =====
-- camelToSnake and pluralizeTableName of schema/parser.go, over ASCII texts, and the fields that
-- schema/registry.go puts before those of a document or a child table.
use orjanda.Prelude.{
  ℕ, String, Bool, true, false, ◌&&◌, ◌||◌, List, [], ◌∷◌, Option, none, some, is_upper, is_lower,
  is_digit, lower_char, if◌then◌else◌,
}
use orjanda.Schema.{FieldType, string, int, bool, datetime, Field}
use Prim.Native.Char.{code}
use Prim.Native.String.{[], ◌∷◌, char_at, ◌++◌}

abbrev starts_lower : String → Bool
starts_lower [] = false
starts_lower (c ∷ s) = is_lower (code c)

-- whether a word begins between the letter before and the text after a capital
abbrev word_begins : Option ℕ → String → Bool
word_begins none after = false
word_begins (some prev) after = is_lower prev || is_digit prev || starts_lower after

unfoldable pub snake_from : Option ℕ → String → String
snake_from prev [] = []
snake_from prev (c ∷ s) =
    let rest = snake_from (some (code c)) s in
    if is_upper (code c) && word_begins prev s
    then char_at "_" 0 ∷ lower_char c ∷ rest
    else lower_char c ∷ rest

unfoldable pub camel_to_snake : String → String
camel_to_snake s = snake_from none s

unfoldable pub pluralize_table_name : String → String
pluralize_table_name name = camel_to_snake name ++ "s"

abbrev pub field_of : String → String → FieldType → String → Field
field_of name column type label = record {
  name = name;
  db_column = column;
  type = type;
  required = false;
  unique = false;
  searchable = false;
  label = label;
  options = [];
  default = "";
  format = "";
  link_target = "";
  child_type_name = "";
  precision = 0;
  permission_role = "";
  hidden = false;
  system = false;
  read_only = false;
  computed = false;
  agent_hint = "";
  validator_name = "";
  agent_hidden = false;
}

abbrev hidden_field : String → String → FieldType → String → Field
hidden_field name column type label = record (field_of name column type label) {
  hidden = true;
  system = true;
}

abbrev child_field : String → String → FieldType → String → Field
child_field name column type label = record (field_of name column type label) {
  required = true;
  system = true;
}

-- getBaseDocumentFields
abbrev pub base_document_fields : List Field
base_document_fields =
    record (hidden_field "ID" "id" string "ID") { required = true }
    ∷ field_of "Name" "name" string "Name"
    ∷ hidden_field "Owner" "owner" string "Owner"
    ∷ hidden_field "CreatedAt" "created_at" datetime "Created At"
    ∷ hidden_field "UpdatedAt" "updated_at" datetime "Updated At"
    ∷ hidden_field "ModifiedBy" "modified_by" string "Modified By"
    ∷ hidden_field "DocStatus" "doc_status" int "Doc Status"
    ∷ hidden_field "Deleted" "deleted" bool "Deleted"
    ∷ []

-- getBaseChildFields
abbrev pub base_child_fields : List Field
base_child_fields =
    child_field "ID" "id" string "ID"
    ∷ child_field "ParentID" "parent_id" string "Parent ID"
    ∷ child_field "Idx" "idx" int "Idx"
    ∷ []
