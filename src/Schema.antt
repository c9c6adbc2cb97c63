-- ===== src/Schema.antt =====
-- schema/types.go: the compiled description of documents, and how the registry answers it.
pub mod Registry
use orjanda.Prelude.{ℕ, String, Bool, List, none, some, Dict, lookup}
use orjanda.Errors.{Result, ok, fail, not_found}

pub data FieldType : Type 0 where
  string int int64 float64 bool date datetime currency text richtext : FieldType
  link dynamiclink attachment json child_table : FieldType

unfoldable pub FieldType-discrete : Discrete FieldType
FieldType-discrete = hlevel

-- MatchType: all records, or those that the caller owns
pub data MatchType : Type 0 where
  match_all owner_match : MatchType

pub record DocPermission : Type 0 where
  pub role : String
  pub read : Bool
  pub write : Bool
  pub create : Bool
  pub delete : Bool
  pub submit : Bool
  pub match : MatchType

pub data SortOrder : Type 0 where
  ascending descending : SortOrder

pub record Field : Type 0 where
  pub name : String
  pub db_column : String
  pub type : FieldType
  pub required : Bool
  pub unique : Bool
  pub searchable : Bool
  pub label : String
  pub options : List String
  pub default : String
  pub format : String
  pub link_target : String
  pub child_type_name : String
  pub precision : ℕ
  pub permission_role : String
  pub hidden : Bool
  pub system : Bool
  pub read_only : Bool
  pub computed : Bool
  pub agent_hint : String
  pub validator_name : String
  pub agent_hidden : Bool

pub record CompiledChild : Type 0 where
  pub field_name : String
  pub type_name : String
  pub doc_type : String
  pub table_name : String
  pub fields : List Field

pub record CompiledDoc : Type 0 where
  pub name : String
  pub app : String
  pub module_name : String
  pub table_name : String
  pub searchable : Bool
  pub submittable : Bool
  pub icon : String
  pub description : String
  pub title_field : String
  pub sort_field : String
  pub sort_order : SortOrder
  pub agent_hidden : Bool
  pub fields : List Field
  pub permissions : List DocPermission
  pub child_tables : List CompiledChild

-- Registry.Get of schema/registry.go, on the compiled documents by name
unfoldable pub get_doc : Dict CompiledDoc → String → Result CompiledDoc
get_doc docs doc_type = elim (lookup doc_type docs) [ some doc ↦ ok doc | none ↦ fail not_found ]
