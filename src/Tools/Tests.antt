-- ===== src/Tools/Tests.antt =====
-- Tools of agent/tools/tools.go for a clerk, who may read employees and not their salaries.
use orjanda.Prelude.{
  String, insert_sorted, sort_strings, true, false, List, [], ◌∷◌, none, some, lookup, insert,
  delete, has_key, equal_fold, fold_code, to_lower, is_upper, lower_char, ◌≡◌, refl, ◌&&◌, not, All,
}
use orjanda.Prelude.Int.{ℤ}
use Prim.Native.Nat.{ℕ}
use orjanda.Errors.{ok, Result}
use orjanda.Auth.{Identity, no_identity, background, new_context, from_context}
use orjanda.Schema.{string, int, match_all, ascending, CompiledDoc, DocPermission}
use orjanda.Schema.Registry.Names.{field_of}
use orjanda.Perm.{
  may_access, has_role, grants, rbac_loop, rbac_check, check_db_permissions, run_rules, is_allowed,
  is_gated, check_compiled, check_action, role_listed, check_roles, allowed_loop, allowed_fields,
}
use orjanda.Perm
use orjanda.Rpc.{RegisteredMethod}
use orjanda.Tools.Names.{snake_tail, snake_case, json_copy}
use orjanda.Tools.Schemas.{
  field_json_type, typed, description_of, field_schema, is_left_out, payload_props, required_keys,
  nested_props, build_payload_schema, gated_fields,
}
use orjanda.Tools.{
  CustomTool, ToolDefinition, ToolRegistry, new_tool_registry, grants_action, any_permission,
  doc_has_workflow, generate_doc_templates, doc_templates, underscored, method_names, method_roles,
  method_templates, compile,
}
use orjanda.Tools.Offer.{
  identity_may_use, drop_closed, project_allowed, project_schema, offered_templates, offered_custom,
  for_identity,
}
use orjanda.Tools.Offered.{IsOpenTool, compile-IsOpenTool}
use orjanda.Tools.Projected.{
  properties_in, is_shut_key, payload_template, project_schema-is_shut_key,
}

engine : Unit {0}
unfolding lookup insert delete has_key equal_fold fold_code to_lower is_upper lower_char new_context
    from_context may_access has_role grants rbac_loop rbac_check check_db_permissions run_rules
    is_allowed is_gated check_compiled check_action role_listed check_roles allowed_loop
    allowed_fields snake_tail snake_case json_copy field_json_type typed description_of field_schema
    is_left_out payload_props required_keys nested_props build_payload_schema gated_fields
    new_tool_registry grants_action any_permission doc_has_workflow generate_doc_templates
    doc_templates underscored insert_sorted sort_strings method_names method_roles method_templates
    compile identity_may_use drop_closed project_allowed project_schema offered_templates
    offered_custom for_identity
engine = tt

abbrev clerks : DocPermission
clerks = record {
  role = "Clerk";
  read = true;
  write = true;
  create = false;
  delete = false;
  submit = false;
  match = match_all;
}

abbrev employee : CompiledDoc
employee = record {
  name = "OfficeEmployee";
  app = "hr";
  module_name = "HR";
  table_name = "office_employees";
  searchable = false;
  submittable = false;
  icon = "";
  description = "";
  title_field = "";
  sort_field = "";
  sort_order = ascending;
  agent_hidden = false;
  fields =
      record (field_of "Email" "email" string "Email") { required = true }
      ∷ record (field_of "Salary" "salary" int "Salary") { permission_role = "Manager" }
      ∷ [];
  permissions = clerks ∷ record clerks { role = "Manager"; create = true } ∷ [];
  child_tables = [];
}

abbrev reg : String → Result CompiledDoc
reg name = ok employee

abbrev perm : Perm.Engine
perm = record { reg = reg; db = none; rules = [] }

abbrev ann : Identity
ann = record no_identity { user_id = "ann"; roles = "Clerk" ∷ [] }

abbrev method : String → List String → RegisteredMethod (Unit {0})
method name roles = record {
  name = name;
  handler = none;
  opts = record { allowed_roles = roles; http_method = "POST" };
}

abbrev methods : List (RegisteredMethod (Unit {0}))
methods =
    method "hr.pay.run" ("Manager" ∷ [])
    ∷ method "hr.mail" ("Clerk" ∷ [])
    ∷ method "hr.free" []
    ∷ []

abbrev float_of : ℤ → ℕ
float_of n = 0

abbrev registry : ToolRegistry
registry = (compile (employee ∷ []) methods (new_tool_registry perm (some []) float_of)).1

abbrev custom : List (CustomTool (Unit {0}))
custom =
    record { name = "ring"; description = ""; parameters = []; allowed_roles = []; handler = none }
    ∷ []

abbrev names : List ToolDefinition → List String
names [] = []
names (d ∷ defs) = d.name ∷ names defs

offered_names : names (for_identity registry background ann custom) ≡ (
    "list_document_types" ∷ "describe_document" ∷ "list_relationships" ∷ "list_office_employee"
    ∷ "get_office_employee" ∷ "update_office_employee" ∷ "hr_mail" ∷ "ring" ∷ [])
unfolding engine
offered_names = refl

salary_hidden :
    has_key "salary" (
      properties_in
        (project_schema registry (new_context background ann) (payload_template true employee)))
    ≡ false
unfolding engine
salary_hidden = refl

compile-IsOpenTool_example :
    All
      (IsOpenTool perm (new_context background ann) (some []) (employee ∷ []) methods custom)
      (for_identity registry background ann custom)
compile-IsOpenTool_example =
    compile-IsOpenTool perm (some []) float_of (employee ∷ []) methods custom background ann

project_schema-is_shut_key_example :
    has_key "salary" (
      properties_in (
        project_schema
          (new_tool_registry perm none float_of)
          background
          (payload_template true employee)))
    ≡ (has_key "salary" (nested_props [] (payload_props true employee.fields []))
        && not
            (is_shut_key (from_context background).roles employee.fields employee.fields "salary"))
project_schema-is_shut_key_example =
    project_schema-is_shut_key (new_tool_registry perm none float_of) background employee true
      "salary" (unfold new_tool_registry in refl)
