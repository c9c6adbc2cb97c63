-- ===== src/Dal/Migrator/Write.antt =====
-- Write of dal/migrator.go and ChangeCount of schema/types.go. A statement is a value here, and its text
-- and the file of a migration are left out; of the statements only that which drops a column has the
-- words DROP COLUMN in its text.
use orjanda.Prelude.{
  ℕ, ◌+◌, String, Bool, true, false, not, ◌&&◌, ◌||◌, List, [], ◌∷◌, ◌++◌, map, keep, is_empty,
  length, if◌then◌else◌,
}
use orjanda.Errors.{Result, ok, fail, validation}
use orjanda.Schema.{Field, CompiledChild, CompiledDoc}
use orjanda.Dal.Migrator.{SchemaDiff, TableAlteration, ColumnAlteration, is_child, child_doc}

-- ChangeCount
unfoldable pub change_count : SchemaDiff → ℕ
change_count d = length d.create_tables + length d.alter_tables + length d.drop_tables

pub data Statement : Type 0 where
  create_table : CompiledDoc → Statement
  add_column : String → Field → Statement
  drop_column : String → String → Statement
  alter_column : String → ColumnAlteration → Statement
  drop_table : String → Statement

abbrev pub create_children : List CompiledChild → List Statement
create_children [] = []
create_children (child ∷ children) = create_table (child_doc child) ∷ create_children children

abbrev pub creates : List CompiledDoc → List Statement
creates [] = []
creates (doc ∷ docs) = create_table doc ∷ (create_children doc.child_tables ++ creates docs)

abbrev pub added : String → List Field → List Statement
added table [] = []
added table (f ∷ fs) =
    let rest = added table fs in if is_child f.type then rest else add_column table f ∷ rest

-- AlterTable of the dialects
unfoldable pub alter_table : TableAlteration → List Statement
alter_table alter =
    added alter.table_name alter.add_columns
    ++ (map (drop_column alter.table_name) alter.drop_columns
        ++ map (alter_column alter.table_name) alter.alter_columns)

abbrev pub drops_column : Statement → Bool
drops_column (drop_column table col) = true
drops_column _ = false

unfoldable pub alters : Bool → List TableAlteration → List Statement
alters allow [] = []
alters allow (alter ∷ rest) =
    keep (λ (s : Statement). allow || not (drops_column s)) (alter_table alter) ++ alters allow rest

abbrev dropping : List TableAlteration → List Statement
dropping [] = []
dropping (alter ∷ rest) = map (drop_column alter.table_name) alter.drop_columns ++ dropping rest

unfoldable pub destructive_statements : SchemaDiff → List Statement
destructive_statements d = dropping d.alter_tables ++ map drop_table d.drop_tables

-- Write, up to the file: no statement where there is nothing to write
unfoldable pub write : SchemaDiff → Bool → Result (List Statement)
write d allow =
    if not (is_empty (destructive_statements d)) && not allow
    then fail validation
    else ok (
        creates d.create_tables
        ++ (alters allow d.alter_tables ++ (if allow then map drop_table d.drop_tables else [])))
