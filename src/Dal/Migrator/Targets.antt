-- ===== src/Dal/Migrator/Targets.antt =====
-- The tables that Diff of dal/migrator.go wants for the documents of a registry.
use orjanda.Prelude.{
  String, Bool, ◌||◌, ◌==◌, eq_iff, List, [], ◌∷◌, ◌++◌, any, has_key, has_key-insert, member, ◌≡◌,
  inl, inr, arith, Bool-cases,
}
use orjanda.Schema.{CompiledChild, CompiledDoc}
use orjanda.Dal.Migrator.{
  Table, Target, doc_to_atlas_table, child_doc, add_doc, add_children, add_docs, table_names,
}

-- whether a document of the registry or a child table of one has the table
abbrev has_child : String → List CompiledChild → Bool
has_child t children = any (λ (c : CompiledChild). c.table_name == t) children

abbrev pub produces : List CompiledDoc → String → Bool
produces docs t =
    any (λ (doc : CompiledDoc). doc.table_name == t || has_child t doc.child_tables) docs

names-append :
    (t : String) (tables : List Table) (table : Table)
    → member t (table_names (tables ++ table ∷ []))
      ≡ (member t (table_names tables) || table.name == t)
names-append t [] table = ground arith
names-append t (first ∷ tables) table = ground (arith, names-append t tables table)

-- The documents by table have the names of the tables.
abbrev IsKeyed : Target → Type 0
IsKeyed (tables, docs) = (t : String) → has_key t docs ≡ member t (table_names tables)

add_doc-IsKeyed :
    (doc : CompiledDoc) (target : Target) → IsKeyed target → IsKeyed (add_doc doc target)
unfolding doc_to_atlas_table
add_doc-IsKeyed doc (tables, docs) keyed t = ground (
  arith,
  has_key-insert doc.table_name t doc docs,
  names-append t tables (doc_to_atlas_table doc),
  keyed t,
)

add_children-names :
    (children : List CompiledChild) (target : Target)
    → IsKeyed target
    → IsKeyed (add_children children target)
      × ((t : String)
          → member t (table_names (add_children children target).0)
            ≡ (member t (table_names target.0) || has_child t children))
unfolding add_children doc_to_atlas_table
add_children-names [] target keyed = (keyed, λ t. ground arith)
add_children-names (child ∷ children) (tables, docs) keyed =
    elim (Bool-cases (has_key child.table_name docs)) [
      | inl there ↦
          let (more, same) = add_children-names children (tables, docs) keyed in
          rw (add_children, there)
            (
              more,
              λ t. grind (arith, same t, keyed child.table_name, there, eq_iff child.table_name t),
            )
      | inr fresh ↦
          let next = add_doc (child_doc child) (tables, docs) in
          let (more, same) =
            add_children-names children next
              (add_doc-IsKeyed (child_doc child) (tables, docs) keyed) in
          rw (add_children, fresh)
            (
              more,
              λ t.
                  ground
                    (arith, same t, names-append t tables (doc_to_atlas_table (child_doc child))),
            )
    ]

pub add_docs-names :
    (docs : List CompiledDoc) (target : Target)
    → IsKeyed target
    → (t : String)
    → member t (table_names (add_docs docs target).0)
      ≡ (member t (table_names target.0) || produces docs t)
unfolding add_docs doc_to_atlas_table
add_docs-names [] target keyed t = ground arith
add_docs-names (doc ∷ docs) (tables, by_table) keyed t =
    let begun = add_doc doc (tables, by_table) in
    let (still, grown) =
      add_children-names doc.child_tables begun (add_doc-IsKeyed doc (tables, by_table) keyed) in
    ground (
      arith,
      add_docs-names docs (add_children doc.child_tables begun) still t,
      grown t,
      names-append t tables (doc_to_atlas_table doc),
    )
