-- ===== src/Tools.antt =====
-- agent/tools/tools.go: the tools that an agent is offered. The package's list of custom tools is an
-- argument; the handler of a tool works on the states `S` of what it may change.
pub mod Gates
pub mod Names
pub mod Schemas
pub mod Offer
pub mod Offered
pub mod Projected
mod Tests
use orjanda.Prelude.{
  String, Bool, true, false, not, ◌&&◌, ◌||◌, ◌==◌, List, [], ◌∷◌, ◌++◌, Option, none, some, Dict,
  lookup, insert, delete, is_empty, member, any, sort_strings, if◌then◌else◌,
}
use orjanda.Prelude.Int.{ℤ}
use Prim.Native.Nat.{ℕ}
use Prim.Native.Char.{code}
use Prim.Native.String.{◌++◌ as ◌++ˢ◌, [] as []ˢ, ◌∷◌ as ◌∷ˢ◌, char_at}
use orjanda.Prelude.{eqb}
use orjanda.Errors.{Result, ok, err, fail, conflict}
use orjanda.Value.{Value, Row, Items, text, array, object, nil, items, fields}
use orjanda.Auth.{Context}
use orjanda.Schema.{DocPermission, Field, CompiledDoc}
use orjanda.Perm
use orjanda.Rpc.{MethodHandler, RegisteredMethod}
use orjanda.Tools.Names.{
  snake_case, around, described, described_default, to_fields, to_items, object_schema, json_fields,
}
use orjanda.Tools.Schemas.{build_payload_schema, gated_fields}

-- Tool
pub record CustomTool (S : Type 0) : Type 0 where
  pub name : String
  pub description : String
  pub parameters : Row
  pub allowed_roles : List String
  pub handler : Option (MethodHandler S)

pub record ToolTemplate : Type 0 where
  pub doc_type : String
  pub verb : String
  pub name : String
  pub base_schema : Row
  pub gated : List String
  pub description : String
  pub allowed_roles : List String

-- ToolDefinition of agent/llm/llm.go
pub record ToolDefinition : Type 0 where
  pub name : String
  pub description : String
  pub parameters : Row

-- toolRegistry; `workflows` is DocTypes of the workflow engine, if there is one
pub record ToolRegistry : Type 0 where
  pub perm : Perm.Engine
  pub workflows : Option (List String)
  pub float_of : ℤ → ℕ
  pub is_compiled : Bool
  pub templates : List ToolTemplate

unfoldable pub new_tool_registry : Perm.Engine → Option (List String) → (ℤ → ℕ) → ToolRegistry
new_tool_registry perm workflows float_of = record {
  perm = perm;
  workflows = workflows;
  float_of = float_of;
  is_compiled = false;
  templates = [];
}

-- RegisterCustomTool
unfoldable pub register_custom_tool :
    {S : Type 0} → CustomTool S → List (CustomTool S) → List (CustomTool S)
register_custom_tool tool tools = tools ++ tool ∷ []

unfoldable pub grants_action : String → DocPermission → Bool
grants_action action p =
    if action == "create"
    then p.create
    else if action == "write"
    then p.write
    else if action == "delete"
    then p.delete
    else false

unfoldable pub any_permission : CompiledDoc → String → Bool
any_permission doc action = any (grants_action action) doc.permissions

-- docHasWorkflow
unfoldable pub doc_has_workflow : Option (List String) → String → Bool
doc_has_workflow none doc_type = false
doc_has_workflow (some types) doc_type = member doc_type types

abbrev template_of : CompiledDoc → String → String → String → Row → List String → ToolTemplate
template_of doc verb prefix description schema gated = record {
  doc_type = doc.name;
  verb = verb;
  name = prefix ++ˢ snake_case doc.name;
  base_schema = schema;
  gated = gated;
  description = description;
  allowed_roles = [];
}

abbrev id_property : CompiledDoc → String × Value
id_property doc = ("id", described "string" (around "ID of the " doc.name " record"))

abbrev pub search_template : CompiledDoc → ToolTemplate
search_template doc =
    template_of doc "search" "search_" (around "Search " doc.name " records.")
      (object_schema
        (("query", described "string" "Full-text search query")
          ∷ ("limit", described_default "Maximum number of results" 50)
          ∷ [])
        ("query" ∷ []))
      []

abbrev list_template : CompiledDoc → ToolTemplate
list_template doc =
    template_of doc "list" "list_" (around "List " doc.name " records.")
      (("type", text "object")
        ∷ (
          "properties",
          object (
              to_fields (
                ("page", described_default "Page number" 1)
                ∷ ("limit", described_default "Records per page" 50)
                ∷ [])),
        )
        ∷ [])
      []

abbrev get_template : CompiledDoc → ToolTemplate
get_template doc =
    template_of doc "read" "get_" (around "Get a " doc.name " record by ID.")
      (object_schema (id_property doc ∷ []) ("id" ∷ [])) []

abbrev pub create_template : CompiledDoc → ToolTemplate
create_template doc =
    template_of doc "create" "create_"
      (around "Create a new " doc.name (" record. " ++ˢ doc.description))
      (build_payload_schema doc false) (gated_fields doc.fields)

abbrev pub update_template : CompiledDoc → ToolTemplate
update_template doc =
    template_of doc "update" "update_"
      (around "Update an existing " doc.name (" record. " ++ˢ doc.description))
      (build_payload_schema doc true) (gated_fields doc.fields)

abbrev pub delete_template : CompiledDoc → ToolTemplate
delete_template doc =
    template_of doc "delete" "delete_" (around "Delete a " doc.name " record.")
      (object_schema (id_property doc ∷ []) ("id" ∷ [])) []

abbrev pub action_template : CompiledDoc → ToolTemplate
action_template doc =
    template_of doc "execute_action" "execute_action_"
      (around "Execute a workflow action on a " doc.name " record.")
      (object_schema
        (id_property doc
          ∷ (
            "action",
            object (
                to_fields (
                  ("type", text "string")
                  ∷ ("enum", array nil)
                  ∷ ("description", text "Workflow action to execute")
                  ∷ [])),
          )
          ∷ [])
        ("id" ∷ "action" ∷ []))
      []

abbrev pub if_any {ℓ} : {A : Type ℓ} → Bool → A → List A
if_any true a = a ∷ []
if_any false a = []

unfoldable pub generate_doc_templates : Option (List String) → CompiledDoc → List ToolTemplate
generate_doc_templates workflows doc =
    if_any doc.searchable (search_template doc)
    ++ (list_template doc
        ∷ get_template doc
        ∷ (if_any (any_permission doc "create") (create_template doc)
            ++ (if_any (any_permission doc "write") (update_template doc)
                ++ (if_any (any_permission doc "delete") (delete_template doc)
                    ++ if_any (doc_has_workflow workflows doc.name) (action_template doc)))))

-- the loop of Compile over the documents
unfoldable pub doc_templates : Option (List String) → List CompiledDoc → List ToolTemplate
doc_templates workflows [] = []
doc_templates workflows (doc ∷ docs) =
    let rest = doc_templates workflows docs in
    if doc.agent_hidden then rest else generate_doc_templates workflows doc ++ rest

-- strings.ReplaceAll(name, ".", "_")
unfoldable pub underscored : String → String
underscored []ˢ = []ˢ
underscored (c ∷ˢ s) =
    let rest = underscored s in if eqb (code c) b'.' then char_at "_" 0 ∷ˢ rest else c ∷ˢ rest

-- the names and the roles of the methods that are gated by roles
unfoldable pub method_names : {S : Type 0} → List (RegisteredMethod S) → List String
method_names [] = []
method_names (m ∷ ms) =
    let rest = method_names ms in
    if is_empty m.opts.allowed_roles then rest else underscored m.name ∷ rest

unfoldable pub method_roles :
    {S : Type 0} → List (RegisteredMethod S) → Dict (List String) → Dict (List String)
method_roles [] roles = roles
method_roles (m ∷ ms) roles = method_roles ms (
    if is_empty m.opts.allowed_roles
    then roles
    else insert (underscored m.name) m.opts.allowed_roles roles)

abbrev or_none : Option (List String) → List String
or_none none = []
or_none (some roles) = roles

abbrev pub method_template : Dict (List String) → String → ToolTemplate
method_template roles name = record {
  doc_type = "";
  verb = "method";
  name = name;
  base_schema = ("type", text "object") ∷ ("properties", object (to_fields [])) ∷ [];
  gated = [];
  description = around "Call the " name " custom RPC method.";
  allowed_roles = or_none (lookup name roles);
}

unfoldable pub method_templates : Dict (List String) → List String → List ToolTemplate
method_templates roles [] = []
method_templates roles (name ∷ names) = method_template roles name ∷ method_templates roles names

-- Compile, of the registry's documents and the registered methods
unfoldable pub compile :
    {S : Type 0}
    → List CompiledDoc
    → List (RegisteredMethod S)
    → ToolRegistry
    → Result (Unit {0}) × ToolRegistry
compile docs methods t = if t.is_compiled then (fail conflict, t) else (
  ok tt,
  record t {
    is_compiled = true;
    templates =
        t.templates
        ++ (doc_templates t.workflows docs
            ++ method_templates (method_roles methods []) (sort_strings (method_names methods)));
  },
)
