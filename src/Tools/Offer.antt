-- ===== src/Tools/Offer.antt =====
-- ForIdentity of agent/tools/tools.go: the tools that the caller is offered.
use orjanda.Prelude.{
  String, Bool, true, false, not, ◌||◌, ◌==◌, List, [], ◌∷◌, ◌++◌, Option, none, some, lookup,
  insert, delete, is_empty, member, if◌then◌else◌,
}
use orjanda.Prelude.Int.{ℤ}
use Prim.Native.Nat.{ℕ}
use orjanda.Errors.{Result, ok, err}
use orjanda.Value.{Value, Row, Items, text, array, object, items, fields, as_object}
use orjanda.Auth.{Identity, Context, new_context}
use orjanda.Perm.{check_action, check_roles, allowed_fields}
use orjanda.Perm
use orjanda.Tools.Names.{snake_case, described, to_fields, object_schema, json_fields}
use orjanda.Tools.{CustomTool, ToolTemplate, ToolDefinition, ToolRegistry}

abbrev pub is_nil_error : Result (Unit {0}) → Bool
is_nil_error (ok _) = true
is_nil_error (err _) = false

abbrev is_read : String → Bool
is_read verb = verb == "search" || verb == "list" || verb == "read"

abbrev pub is_checked : String → Bool
is_checked verb =
    verb == "create"
    || verb == "update"
    || verb == "delete"
    || verb == "search"
    || verb == "list"
    || verb == "read"

unfoldable pub identity_may_use : Perm.Engine → Context → ToolTemplate → Bool
identity_may_use perm ctx tmpl =
    if not (is_empty tmpl.allowed_roles)
    then is_nil_error (check_roles ctx tmpl.allowed_roles)
    else if is_checked tmpl.verb
    then is_nil_error
        (check_action perm ctx tmpl.doc_type (if is_read tmpl.verb then "read" else tmpl.verb))
    else true

abbrev pub row_of : Option Row → Row
row_of none = []
row_of (some row) = row

-- the texts of a list of values; what is not a text equals no key
abbrev pub without : String → List Value → List Value
without key [] = []
without key (text s ∷ vs) = let rest = without key vs in if s == key then vs else text s ∷ rest
without key (v ∷ vs) = v ∷ without key vs

abbrev pub value_items : List Value → Items
value_items [] = Items.nil
value_items (v ∷ vs) = Items.cons v (value_items vs)

abbrev pub list_of : Option Value → List Value
list_of (some (array vs)) = items vs
list_of _ = []

-- the loop of projectSchema over the gated fields
unfoldable pub drop_closed : List String → List String → Row × List Value → Row × List Value
drop_closed [] allowed kept = kept
drop_closed (gated ∷ more) allowed (props, required) = drop_closed more allowed (
    if member gated allowed
    then (props, required)
    else (delete (snake_case gated) props, without (snake_case gated) required))

unfoldable pub project_allowed : (ℤ → ℕ) → ToolTemplate → List String → Row
project_allowed float_of tmpl allowed =
    let copied = fields (json_fields float_of (to_fields tmpl.base_schema)) in
    let (props, required) =
      drop_closed tmpl.gated allowed
        (row_of (as_object (lookup "properties" copied)), list_of (lookup "required" copied)) in
    insert "required" (array (value_items required))
      (insert "properties" (object (to_fields props)) copied)

abbrev project_with : (ℤ → ℕ) → ToolTemplate → Result (List String) → Row
project_with float_of tmpl (err e) = tmpl.base_schema
project_with float_of tmpl (ok allowed) = project_allowed float_of tmpl allowed

-- projectSchema; AllowedFields reads no verb
unfoldable pub project_schema : ToolRegistry → Context → ToolTemplate → Row
project_schema t ctx tmpl =
    if is_empty tmpl.gated
    then tmpl.base_schema
    else project_with t.float_of tmpl (allowed_fields t.perm ctx tmpl.doc_type)

abbrev doc_type_property : String × Value
doc_type_property = ("doc_type", described "string" "The Document type name")

abbrev pub discovery_tools : List ToolDefinition
discovery_tools =
    record {
      name = "list_document_types";
      description =
          "List all Document types registered in the system, optionally filtered by module. Use describe_document on a Document type to activate its operation tools.";
      parameters =
          ("type", text "object")
          ∷ (
            "properties",
            object (
                to_fields
                  (("module", described "string" "Optional module name to filter by") ∷ [])),
          )
          ∷ [];
    }
    ∷ record {
      name = "describe_document";
      description =
          "Describe a Document type's fields, permissions, and relationships. Describing a Document type activates its operation tools (list, get, search, create, update, delete, execute_action) for this conversation.";
      parameters = object_schema (doc_type_property ∷ []) ("doc_type" ∷ []);
    }
    ∷ record {
      name = "list_relationships";
      description = "List the relationships (links and child tables) of a Document type.";
      parameters = object_schema (doc_type_property ∷ []) ("doc_type" ∷ []);
    }
    ∷ []

abbrev pub definition_of : ToolRegistry → Context → ToolTemplate → ToolDefinition
definition_of t ctx tmpl = record {
  name = tmpl.name;
  description = tmpl.description;
  parameters = project_schema t ctx tmpl;
}

unfoldable pub offered_templates : ToolRegistry → Context → List ToolTemplate → List ToolDefinition
offered_templates t ctx [] = []
offered_templates t ctx (tmpl ∷ tmpls) =
    let rest = offered_templates t ctx tmpls in
    if identity_may_use t.perm ctx tmpl then definition_of t ctx tmpl ∷ rest else rest

module _ {S : Type 0} where
  abbrev pub custom_definition : CustomTool S → ToolDefinition
  custom_definition c = record {
    name = c.name;
    description = c.description;
    parameters = c.parameters;
  }

  unfoldable pub offered_custom : Context → List (CustomTool S) → List ToolDefinition
  offered_custom ctx [] = []
  offered_custom ctx (c ∷ cs) =
      let rest = offered_custom ctx cs in
      if is_nil_error (check_roles ctx c.allowed_roles) then custom_definition c ∷ rest else rest

  -- ForIdentity, with the registered custom tools
  unfoldable pub for_identity :
      ToolRegistry → Context → Identity → List (CustomTool S) → List ToolDefinition
  for_identity t ctx id custom =
      if t.is_compiled
      then discovery_tools
        ++ (offered_templates t (new_context ctx id) t.templates
            ++ offered_custom (new_context ctx id) custom)
      else []
