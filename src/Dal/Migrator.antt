-- ===== src/Dal/Migrator.antt =====
-- Diff of dal/migrator.go: the difference between the registry and the live database.
pub mod Targets
pub mod Write
pub mod Orphans
pub mod Harmless
mod Tests
use orjanda.Prelude.{
  ℕ, zero, ◌+◌, String, Bool, true, false, not, ◌&&◌, ◌||◌, ◌==◌, List, [], ◌∷◌, ◌++◌, map, Option,
  none, some, Dict, lookup, insert, has_key, keys, member, keep, is_empty, length, sort_strings,
  if◌then◌else◌,
}
use orjanda.Errors.{Result, ok, err, fail, internal, validation, wrap, ◌>>=◌}
use orjanda.Schema.{FieldType, child_table, Field, CompiledChild, CompiledDoc, ascending}

pub record ColumnAlteration : Type 0 where
  pub field_name : String
  pub column_name : String
  pub old_column : String
  pub new_column : String

pub record TableAlteration : Type 0 where
  pub table_name : String
  pub add_columns : List Field
  pub drop_columns : List String
  pub alter_columns : List ColumnAlteration

pub record SchemaDiff : Type 0 where
  pub create_tables : List CompiledDoc
  pub alter_tables : List TableAlteration
  pub drop_tables : List String

-- TableInspector; the columns of a table with the types that they report
pub record TableInspector : Type 0 where
  pub existing_tables : Result (List String)
  pub existing_columns : String → Result (Dict String)

-- ColumnType and NormalizeColumnType of a Dialect
pub record ColumnTypes : Type 0 where
  pub column_type : Field → String
  pub normalize_column_type : String → String

-- what an Atlas table says of its name and its columns
pub record Table : Type 0 where
  pub name : String
  pub columns : List String

abbrev pub is_child : FieldType → Bool
is_child child_table = true
is_child _ = false

-- the loop of docToAtlasTable
unfoldable pub columns_of : List Field → List String
columns_of [] = []
columns_of (f ∷ fs) =
    let rest = columns_of fs in if is_child f.type then rest else f.db_column ∷ rest

unfoldable pub doc_to_atlas_table : CompiledDoc → Table
doc_to_atlas_table doc = record { name = doc.table_name; columns = columns_of doc.fields }

abbrev pub child_doc : CompiledChild → CompiledDoc
child_doc child = record {
  name = "";
  app = "";
  module_name = "";
  table_name = child.table_name;
  searchable = false;
  submittable = false;
  icon = "";
  description = "";
  title_field = "";
  sort_field = "";
  sort_order = ascending;
  agent_hidden = false;
  fields = child.fields;
  permissions = [];
  child_tables = [];
}

-- the target schema: its tables and the document of each
abbrev pub Target : Type 0
Target = List Table × Dict CompiledDoc

abbrev pub add_doc : CompiledDoc → Target → Target
add_doc doc (tables, docs) = (tables ++ doc_to_atlas_table doc ∷ [], insert doc.table_name doc docs)

unfoldable pub add_children : List CompiledChild → Target → Target
add_children [] target = target
add_children (child ∷ children) target =
    add_children children
      (if has_key child.table_name target.1 then target else add_doc (child_doc child) target)

unfoldable pub add_docs : List CompiledDoc → Target → Target
add_docs [] target = target
add_docs (doc ∷ docs) target = add_docs docs (add_children doc.child_tables (add_doc doc target))

abbrev pub fields_of : Option CompiledDoc → List Field
fields_of none = []
fields_of (some doc) = doc.fields

unfoldable pub first_field : (Field → Bool) → List Field → Option Field
first_field p [] = none
first_field p (f ∷ fs) = if p f then some f else first_field p fs

abbrev with_added : TableAlteration → Option Field → TableAlteration
with_added alter none = alter
with_added alter (some f) = record alter { add_columns = alter.add_columns ++ f ∷ [] }

abbrev with_altered : ColumnTypes → String → TableAlteration → Option Field → TableAlteration
with_altered types old alter none = alter
with_altered types old alter (some f) =
    if types.normalize_column_type (types.column_type f) == types.normalize_column_type old
    then alter
    else record alter {
      alter_columns =
          alter.alter_columns
          ++ (record {
            field_name = f.name;
            column_name = f.db_column;
            old_column = old;
            new_column = types.column_type f;
          })
            ∷ [];
    }

abbrev compare_column :
    ColumnTypes → List Field → String → Option String → TableAlteration → TableAlteration
compare_column types fs col none alter =
    with_added alter (first_field (λ (f : Field). f.db_column == col) fs)
compare_column types fs col (some old) alter =
    with_altered types old alter
      (first_field (λ (f : Field). f.db_column == col && not (is_child f.type)) fs)

-- the loop over the columns of a table that exists
unfoldable pub compare_columns :
    ColumnTypes → List Field → Dict String → List String → TableAlteration → TableAlteration
compare_columns types fs cols [] alter = alter
compare_columns types fs cols (col ∷ rest) alter =
    compare_columns types fs cols rest (compare_column types fs col (lookup col cols) alter)

unfoldable pub dropped_columns : Dict String → List String → List String
dropped_columns cols columns = keep (λ (name : String). not (member name columns)) (keys cols)

unfoldable pub alteration_of :
    ColumnTypes → Option CompiledDoc → Dict String → Table → TableAlteration
alteration_of types doc cols table =
    record (compare_columns types (fields_of doc) cols table.columns (record {
      table_name = table.name;
      add_columns = [];
      drop_columns = [];
      alter_columns = [];
    })) { drop_columns = dropped_columns cols table.columns }

unfoldable pub changes : TableAlteration → Bool
changes alter =
    not (is_empty alter.add_columns && is_empty alter.drop_columns && is_empty alter.alter_columns)

abbrev with_created : SchemaDiff → Option CompiledDoc → SchemaDiff
with_created d none = d
with_created d (some doc) = record d { create_tables = d.create_tables ++ doc ∷ [] }

abbrev with_alteration : SchemaDiff → TableAlteration → SchemaDiff
with_alteration d alter =
    if changes alter then record d { alter_tables = d.alter_tables ++ alter ∷ [] } else d

abbrev pub inspected : {T : Type 0} → Result T → Result T
inspected (ok t) = ok t
inspected (err e) = err (wrap internal e)

abbrev pub no_changes : SchemaDiff
no_changes = record { create_tables = []; alter_tables = []; drop_tables = [] }

-- whether a table has the columns of a document
unfoldable pub looks_owned : Dict String → Bool
looks_owned cols = has_key "id" cols && has_key "deleted" cols

abbrev pub add_orphan : String → Result (Dict String) → Result (List String) → Result (List String)
add_orphan table seen rest =
    seen >>= λ cols. rest >>= λ more. ok (if looks_owned cols then table ∷ more else more)

-- the loop over the tables that exist
unfoldable pub orphans : TableInspector → List String → List String → Result (List String)
orphans inspector targets [] = ok []
orphans inspector targets (table ∷ tables) =
    let rest = orphans inspector targets tables in
    if member table targets
    then rest
    else add_orphan table (inspected (inspector.existing_columns table)) rest

abbrev with_drops : List String → SchemaDiff → SchemaDiff
with_drops drops d = record d { drop_tables = sort_strings drops }

abbrev pub table_names : List Table → List String
table_names tables = map (λ (t : Table). t.name) tables

module _ (types : ColumnTypes) (inspector : TableInspector) where
  unfoldable pub compare_table :
      List String → Dict CompiledDoc → Table → SchemaDiff → Result SchemaDiff
  compare_table existing docs table d =
      if member table.name existing
      then (inspected (inspector.existing_columns table.name) >>= λ cols.
          ok (with_alteration d (alteration_of types (lookup table.name docs) cols table)))
      else ok (with_created d (lookup table.name docs))

  unfoldable pub compare_tables :
      List String → Dict CompiledDoc → List Table → SchemaDiff → Result SchemaDiff
  compare_tables existing docs [] d = ok d
  compare_tables existing docs (table ∷ tables) d =
      compare_table existing docs table d >>= λ next. compare_tables existing docs tables next

  -- diffWithInspector, on the documents that the registry lists
  unfoldable pub diff : List CompiledDoc → Result SchemaDiff
  diff docs =
      let (tables, by_table) = add_docs docs ([], []) in
      inspected inspector.existing_tables >>= λ existing.
      compare_tables existing by_table tables no_changes >>= λ d.
      orphans inspector (table_names tables) existing >>= λ drops. ok (with_drops drops d)
