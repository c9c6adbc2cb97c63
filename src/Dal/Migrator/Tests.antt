-- ===== src/Dal/Migrator/Tests.antt =====
-- dal/migrator.go on a registry with one document, which lacks a column in the live database.
use orjanda.Prelude.{
  String, ◌==◌, ◌||◌, if◌then◌else◌, true, false, [], ◌∷◌, Dict, lookup, insert, has_key,
  sort_strings, insert_sorted, ◌≡◌, refl, ◌↔◌, member,
}
use orjanda.Errors.{Result, ok, fail, validation}
use orjanda.Schema.{string, Field, CompiledChild, CompiledDoc}
use orjanda.Dal.Migrator.{
  ColumnTypes, TableInspector, SchemaDiff, columns_of, doc_to_atlas_table, child_doc, add_children,
  add_docs, first_field, compare_columns, dropped_columns, alteration_of, changes, compare_table,
  compare_tables, looks_owned, orphans, diff,
}
use orjanda.Dal.Migrator.Write.{change_count, alter_table, alters, destructive_statements, write}
use orjanda.Dal.Migrator.Orphans.{IsOwned, diff-drop_tables}
use orjanda.Dal.Migrator.Targets.{produces}

engine : Unit {0}
unfolding lookup insert has_key sort_strings insert_sorted columns_of doc_to_atlas_table
    add_children add_docs first_field compare_columns dropped_columns alteration_of changes
    compare_table compare_tables looks_owned orphans diff change_count alter_table alters
    destructive_statements write
engine = tt

abbrev column : String → String → Field
column name db_column = record {
  name = name;
  db_column = db_column;
  type = string;
  required = false;
  unique = false;
  searchable = false;
  label = "";
  options = [];
  default = "";
  format = "";
  link_target = "";
  child_type_name = "";
  precision = 0;
  permission_role = "";
  hidden = false;
  system = false;
  read_only = false;
  computed = false;
  agent_hint = "";
  validator_name = "";
  agent_hidden = false;
}

abbrev lines : CompiledChild
lines = record {
  field_name = "Lines";
  type_name = "Line";
  doc_type = "";
  table_name = "lines";
  fields = column "ID" "id" ∷ [];
}

abbrev note : CompiledDoc
note = record (child_doc lines) {
  name = "Note";
  table_name = "notes";
  fields = column "ID" "id" ∷ column "Title" "title" ∷ [];
  child_tables = lines ∷ [];
}

abbrev columns_in : String → Result (Dict String)
columns_in t =
    if t == "notes" || t == "old"
    then ok (("id", "TEXT") ∷ ("deleted", "TEXT") ∷ [])
    else ok (("id", "TEXT") ∷ [])

abbrev live : TableInspector
live = record {
  existing_tables = ok ("old" ∷ "notes" ∷ "audit" ∷ []);
  existing_columns = columns_in;
}

abbrev types : ColumnTypes
types = record { column_type = λ f. "TEXT"; normalize_column_type = λ t. t }

abbrev expected : SchemaDiff
expected = record {
  create_tables = child_doc lines ∷ [];
  alter_tables =
      (record {
        table_name = "notes";
        add_columns = column "Title" "title" ∷ [];
        drop_columns = "deleted" ∷ [];
        alter_columns = [];
      })
      ∷ [];
  drop_tables = "old" ∷ [];
}

found : diff types live (note ∷ []) ≡ ok expected
unfolding engine
found = refl

refused : write expected false ≡ fail validation
unfolding engine
refused = refl

diff-drop_tables_example : (member "old" expected.drop_tables ≡ true) ↔ (
    (member "old" ("old" ∷ "notes" ∷ "audit" ∷ []) ≡ true)
    × (produces (note ∷ []) "old" ≡ false)
    × IsOwned types live "old")
diff-drop_tables_example =
    diff-drop_tables types live (note ∷ []) expected ("old" ∷ "notes" ∷ "audit" ∷ []) found refl
      "old"
