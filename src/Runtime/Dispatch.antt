-- ===== src/Runtime/Dispatch.antt =====
-- The dispatch of agent/runtime/executor.go and the maps of agent/runtime/runtime.go that it goes by: a
-- tool call on the engines of documents and workflows, the methods and the custom tools. What the clock
-- and the ULID generator answer during the call is passed to it.
use orjanda.Prelude.{
  ℕ, suc, ◌*◌, String, false, ◌==◌, List, [], ◌∷◌, Option, none, some, Dict, lookup, insert,
  if◌then◌else◌, has_prefix,
}
use orjanda.Prelude.Int.{ℤ, pos, ltb_ℤ, leb_ℤ}
use Prim.Native.String.{[] as []ᶜ, ◌∷◌ as ◌∷ᶜ◌}
use orjanda.Errors.{Result}
use orjanda.Value.{Value, Row, text, int, int64, float, text_or_empty}
use orjanda.Schema.{CompiledDoc}
use orjanda.Perm.{check_roles}
use orjanda.Perm
use orjanda.Dal.{World}
use orjanda.Workflow.{Workflows}
use orjanda.Document.Engine.{Documents}
use orjanda.Document.Listing.{ListOpts}
use orjanda.Rpc.{RegisteredMethod}
use orjanda.Tools.Names.{snake_case}
use orjanda.Tools.{CustomTool, underscored}
use orjanda.Runtime.References.{parse_int}

-- Runtime, as far as the dispatch goes, on the states `D` of the database. `int_of` is the integer part
-- of a float64, and `related` what stands for the relationships of a document type.
pub record Engines (D : Type 0) : Type 0 where
  pub docs : Documents D
  pub workflows : Option (Workflows D)
  pub perm : Option Perm.Engine
  pub listed : List CompiledDoc
  pub reg : String → Result CompiledDoc
  pub related : String → ℕ
  pub methods : Dict (RegisteredMethod (World D))
  pub custom : List (CustomTool (World D))
  pub int_of : ℕ → ℤ

-- strings.TrimPrefix, where the prefix is one
abbrev trim_prefix : String → String → String
trim_prefix s []ᶜ = s
trim_prefix []ᶜ (d ∷ᶜ t) = []ᶜ
trim_prefix (c ∷ᶜ s) (d ∷ᶜ t) = trim_prefix s t

abbrev operation_prefixes : List (String × String)
operation_prefixes =
    ("create_", "create")
    ∷ ("update_", "update")
    ∷ ("delete_", "delete")
    ∷ ("get_", "get")
    ∷ ("list_", "list")
    ∷ ("search_", "search")
    ∷ ("execute_action_", "execute_action")
    ∷ []

-- the loop of splitOperationTool
unfoldable pub split_by : List (String × String) → String → Option (String × String)
split_by [] name = none
split_by ((prefix, verb) ∷ prefixes) name =
    if has_prefix name prefix then some (verb, trim_prefix name prefix) else split_by prefixes name

-- splitOperationTool; `none` stands for two empty texts
unfoldable pub split_operation_tool : String → Option (String × String)
split_operation_tool name = split_by operation_prefixes name

-- docTypeByTool of buildMaps
unfoldable pub doc_types_by_tool : List CompiledDoc → Dict String → Dict String
doc_types_by_tool [] names = names
doc_types_by_tool (doc ∷ docs) names =
    doc_types_by_tool docs (insert (snake_case doc.name) doc.name names)

-- methodTool
unfoldable pub method_tools : {S : Type 0} → List (RegisteredMethod S) → Dict String → Dict String
method_tools [] names = names
method_tools (m ∷ ms) names = method_tools ms (insert (underscored m.name) m.name names)

-- customTool
unfoldable pub custom_tools :
    {S : Type 0} → List (CustomTool S) → Dict (CustomTool S) → Dict (CustomTool S)
custom_tools [] tools = tools
custom_tools (c ∷ cs) tools = custom_tools cs (insert c.name c tools)

abbrev found_type : Dict String → Option (String × String) → String
found_type names none = ""
found_type names (some (verb, rest)) = elim (lookup rest names) [
  | none ↦ ""
  | some doc_type ↦ doc_type
]

unfoldable pub doc_type_for : List CompiledDoc → String → String
doc_type_for listed name = found_type (doc_types_by_tool listed []) (split_operation_tool name)

unfoldable pub snake_doc_type_for : List CompiledDoc → String → String
snake_doc_type_for listed name =
    let doc_type = doc_type_for listed name in if doc_type == "" then "" else snake_case doc_type

abbrev pub snake_part : Option (String × String) → String
snake_part none = ""
snake_part (some (verb, rest)) = rest

-- the key that markDocTypesSeen marks, empty if none
unfoldable pub seen_by : String → Row → String
seen_by name args =
    if name == "describe_document"
    then (let doc_type = text_or_empty (lookup "doc_type" args) in
        if doc_type == "" then "" else snake_case doc_type)
    else snake_part (split_operation_tool name)

-- stringArg
abbrev pub string_arg : Row → String → String
string_arg args key = text_or_empty (lookup key args)

abbrev int_or_zero : Option ℤ → ℤ
int_or_zero none = pos 0
int_or_zero (some n) = n

abbrev int_of_value : (ℕ → ℤ) → Option Value → ℤ
int_of_value int_of (some (float x)) = int_of x
int_of_value int_of (some (int n)) = n
int_of_value int_of (some (int64 n)) = n
int_of_value int_of (some (text s)) = int_or_zero (parse_int s)
int_of_value int_of _ = pos 0

-- intArg
unfoldable pub int_arg : (ℕ → ℤ) → Row → String → ℤ
int_arg int_of args key = int_of_value int_of (lookup key args)

abbrev pub plain_list : ListOpts
plain_list = record {
  filters = [];
  order_by = "";
  limit = pos 0;
  offset = pos 0;
  include_deleted = false;
}

-- (page - 1) * limit, for a page and a limit that are positive
abbrev offset_of : ℤ → ℤ → ℤ
offset_of (pos (suc page)) (pos limit) = pos (page * limit)
offset_of _ _ = pos 0

unfoldable pub list_opts : (ℕ → ℤ) → Row → ListOpts
list_opts int_of args =
    let limit = int_arg int_of args "limit" in
    let page = int_arg int_of args "page" in
    let shown = if leb_ℤ limit (pos 0) then pos 50 else limit in
    if ltb_ℤ (pos 1) page
    then record plain_list { limit = shown; offset = offset_of page shown }
    else record plain_list { limit = limit }
