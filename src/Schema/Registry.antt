-- ===== src/Schema/Registry.antt =====
-- schema/registry.go: the registry of documents, with camelToSnake and pluralizeTableName of
-- schema/parser.go. A registered document carries what ParseFields answers of its Go type.
pub mod Names
pub mod Compiled
pub mod Related
mod Tests
use orjanda.Prelude.{
  ℕ, zero, suc, String, Bool, true, false, ◌==◌, ◌&&◌, ◌||◌, not, List, [], ◌∷◌, ◌++◌, Option, none,
  some, Dict, lookup, insert, has_key, if◌then◌else◌, ltb, any, all,
}
use orjanda.Errors.{Result, ok, err, fail, validation, conflict}
use orjanda.Schema.{
  FieldType, string, int, bool, datetime, link, DocPermission, SortOrder, Field, CompiledChild,
  CompiledDoc,
}
use orjanda.Schema.Registry.Names.{pluralize_table_name, base_document_fields, base_child_fields}

-- Meta, which DocMeta answers
pub record Meta : Type 0 where
  pub name : String
  pub module_name : String
  pub searchable : Bool
  pub submittable : Bool
  pub icon : String
  pub description : String
  pub agent_hidden : Bool
  pub title_field : String
  pub sort_field : String
  pub sort_order : SortOrder
  pub permissions : List DocPermission

-- `parsed` is ParseFields of the type of the document
pub record RegisteredDoc : Type 0 where
  pub app : String
  pub meta : Meta
  pub parsed : Result (List Field × List CompiledChild)

pub record Registry : Type 0 where
  pub docs : Dict CompiledDoc
  pub registered : List RegisteredDoc
  pub compiled : Bool
  pub app_deps : Dict (List String)

unfoldable pub new_registry : Registry
new_registry = record { docs = []; registered = []; compiled = false; app_deps = [] }

abbrev or_nil : Option (List String) → List String
or_nil none = []
or_nil (some deps) = deps

-- RegisterDependency
unfoldable pub register_dependency : String → String → Registry → Registry
register_dependency app dependency r = record r {
  app_deps = insert app (or_nil (lookup app r.app_deps) ++ dependency ∷ []) r.app_deps;
}

-- Register
unfoldable pub register : RegisteredDoc → Registry → Result (Unit {0}) × Registry
register rd r =
    if r.compiled
    then (fail conflict, r)
    else if rd.meta.name == ""
    then (fail validation, r)
    else (ok tt, record r { registered = r.registered ++ rd ∷ [] })

-- appFirstIndex, from the index `idx` on
unfoldable pub first_index : ℕ → List RegisteredDoc → Dict ℕ → Dict ℕ
first_index idx [] first = first
first_index idx (rd ∷ rds) first =
    first_index (suc idx) rds (if has_key rd.app first then first else insert rd.app idx first)

abbrev is_after : ℕ → Option ℕ → Bool
is_after idx none = false
is_after idx (some dep_idx) = ltb idx dep_idx

-- whether a document stands before the first one of an application that its own depends on
unfoldable pub breaks_order : Dict (List String) → Dict ℕ → ℕ → List RegisteredDoc → Bool
breaks_order deps first idx [] = false
breaks_order deps first idx (rd ∷ rds) =
    let rest = breaks_order deps first (suc idx) rds in
    if any (λ (dep : String). is_after idx (lookup dep first)) (or_nil (lookup rd.app deps))
    then true
    else rest

abbrev with_base : CompiledChild → CompiledChild
with_base child = record child { fields = base_child_fields ++ child.fields }

abbrev with_bases : List CompiledChild → List CompiledChild
with_bases [] = []
with_bases (child ∷ children) = with_base child ∷ with_bases children

unfoldable pub compiled_doc : RegisteredDoc → List Field → List CompiledChild → CompiledDoc
compiled_doc rd fields children = record {
  name = rd.meta.name;
  app = rd.app;
  module_name = rd.meta.module_name;
  table_name = pluralize_table_name rd.meta.name;
  searchable = rd.meta.searchable;
  submittable = rd.meta.submittable;
  icon = rd.meta.icon;
  description = rd.meta.description;
  title_field = rd.meta.title_field;
  sort_field = rd.meta.sort_field;
  sort_order = rd.meta.sort_order;
  agent_hidden = rd.meta.agent_hidden;
  fields = base_document_fields ++ fields;
  permissions = rd.meta.permissions;
  child_tables = with_bases children;
}

unfoldable pub put_parsed :
    RegisteredDoc
    → Result (List Field × List CompiledChild)
    → Dict CompiledDoc
    → Result (Unit {0}) × Dict CompiledDoc
put_parsed rd (err e) docs = (err e, docs)
put_parsed rd (ok (fields, children)) docs =
    (ok tt, insert rd.meta.name (compiled_doc rd fields children) docs)

abbrev pub or_go_on :
    Result (Unit {0})
    → Dict CompiledDoc
    → Result (Unit {0}) × Dict CompiledDoc
    → Result (Unit {0}) × Dict CompiledDoc
or_go_on (err e) docs rest = (err e, docs)
or_go_on (ok done) docs rest = rest

-- the second pass of Compile; the documents before the one that fails stay in the map
unfoldable pub compile_docs :
    List RegisteredDoc → Dict CompiledDoc → Result (Unit {0}) × Dict CompiledDoc
compile_docs [] docs = (ok tt, docs)
compile_docs (rd ∷ rds) docs =
    let (result, after) = put_parsed rd rd.parsed docs in
    let rest = compile_docs rds after in
    if has_key rd.meta.name docs then (fail validation, docs) else or_go_on result after rest

abbrev pub is_link : FieldType → Bool
is_link link = true
is_link _ = false

unfoldable pub resolves : Dict CompiledDoc → Field → Bool
resolves docs f = not (is_link f.type) || (not (f.link_target == "") && has_key f.link_target docs)

unfoldable pub doc_resolves : Dict CompiledDoc → CompiledDoc → Bool
doc_resolves docs doc =
    all (λ (f : Field). resolves docs f) doc.fields
    && all (λ (child : CompiledChild). all (λ (f : Field). resolves docs f) child.fields)
        doc.child_tables

abbrev pub all_resolve : Dict CompiledDoc → Dict CompiledDoc → Bool
all_resolve docs entries = all (λ (entry : String × CompiledDoc). doc_resolves docs entry.1) entries

abbrev pub after_docs :
    Registry → Result (Unit {0}) × Dict CompiledDoc → Result (Unit {0}) × Registry
after_docs r (err e, docs) = (err e, record r { docs = docs })
after_docs r (ok done, docs) =
    if all_resolve docs docs
    then (ok tt, record r { docs = docs; compiled = true })
    else (fail validation, record r { docs = docs })

-- Compile
unfoldable pub compile : Registry → Result (Unit {0}) × Registry
compile r =
    if r.compiled
    then (fail conflict, r)
    else if breaks_order r.app_deps (first_index zero r.registered []) zero r.registered
    then (fail validation, r)
    else after_docs r (compile_docs r.registered r.docs)
