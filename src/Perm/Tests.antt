-- ===== src/Perm/Tests.antt =====
-- perm/engine.go on an employee with a salary that only the payroll role may see.
use orjanda.Prelude.{
  String, true, false, ◌≡◌, refl, ◌⊎◌, ◌↔◌, List, [], ◌∷◌, none, some, lookup, delete, has_key,
  equal_fold, to_lower, ◌==◌, if◌then◌else◌,
}
use orjanda.Errors.{Result, ok, fail, permission, not_found, conflict}
use orjanda.Value.{Row, text, bool}
use orjanda.Auth.{Context, from_context, no_identity, background, new_context}
use orjanda.Schema.{Field, CompiledDoc, DocPermission, match_all, string, ascending}
use orjanda.Perm.{
  Engine, Rule, new_engine, set_database, register_rule, has_role, grants, rbac_loop, rbac_check,
  action_field, row_grants, check_db_permissions, run_rules, is_allowed, is_gated, check_compiled,
  check_action, role_listed, check_roles, may_access, strip_gated, filter_read, reject_gated,
  filter_write, allowed_loop, allowed_fields,
}
use orjanda.Perm.Actions.{IsGranted, AllPass, check_for, check_action-ok_iff}
use orjanda.Perm.Fields.{is_gated_key, IsOpen, lookup-filter_read, filter_write_lem}

-- opens the engine for the tests
engine : Unit {0}
unfolding lookup delete has_key equal_fold to_lower new_engine set_database register_rule has_role
    grants rbac_loop rbac_check action_field row_grants check_db_permissions run_rules is_allowed
    is_gated check_compiled check_action role_listed check_roles may_access strip_gated filter_read
    reject_gated filter_write allowed_loop allowed_fields new_context from_context
engine = tt

abbrev plain_field : String → String → String → Field
plain_field name column role = record {
  name = name;
  db_column = column;
  type = string;
  required = false;
  unique = false;
  searchable = false;
  label = name;
  options = [];
  default = "";
  format = "";
  link_target = "";
  child_type_name = "";
  precision = 0;
  permission_role = role;
  hidden = false;
  system = false;
  read_only = false;
  computed = false;
  agent_hint = "";
  validator_name = "";
  agent_hidden = false;
}

abbrev manager_entry : DocPermission
manager_entry = record {
  role = "HR Manager";
  read = true;
  write = true;
  create = false;
  delete = false;
  submit = false;
  match = match_all;
}

abbrev employee : CompiledDoc
employee = record {
  name = "Employee";
  app = "hr";
  module_name = "HR";
  table_name = "employees";
  searchable = false;
  submittable = false;
  icon = "";
  description = "";
  title_field = "";
  sort_field = "";
  sort_order = ascending;
  agent_hidden = false;
  fields = plain_field "Title" "title" "" ∷ plain_field "Salary" "salary" "Payroll" ∷ [];
  permissions = manager_entry ∷ [];
  child_tables = [];
}

abbrev registry : String → Result CompiledDoc
registry name = if name == "Employee" then ok employee else fail not_found

abbrev ann : Context
ann = record background {
  identity = some (record no_identity { user_id = "ann"; roles = "hr manager" ∷ [] });
}

abbrev guarded : Engine
guarded = record { reg = registry; db = none; rules = [] }

abbrev row_for_delete : Context → String → Result (List Row)
row_for_delete ctx doc_type = ok ((("role", text "HR Manager") ∷ ("delete", bool true) ∷ []) ∷ [])

abbrev refuse : Rule
refuse ctx check = fail conflict

tests :
    (check_action guarded ann "Employee" "Update" ≡ ok tt)
    × (check_action guarded ann "Employee" "delete" ≡ fail permission)
    × (check_action guarded ann "Ghost" "read" ≡ fail permission)
    × (check_action (set_database guarded row_for_delete) ann "Employee" "delete" ≡ ok tt)
    × (check_action (register_rule guarded refuse) ann "Employee" "read" ≡ fail conflict)
    × (filter_read guarded ann "Employee" (("title", text "x") ∷ ("salary", bool true) ∷ [])
        ≡ ok (("title", text "x") ∷ []))
    × (filter_write guarded ann "Employee" (("salary", bool true) ∷ []) ≡ fail permission)
    × (allowed_fields guarded ann "Employee" ≡ ok ("Title" ∷ []))
unfolding engine
tests = (refl, refl, refl, refl, refl, refl, refl, refl)

check_action-ok_iff_example : (check_action guarded ann "Employee" "read" ≡ ok tt) ↔ (
    (compiled : CompiledDoc) × (guarded.reg "Employee" ≡ ok compiled)
    × (IsGranted guarded ann compiled "Employee" "read"
        ⊎ ((compiled.permissions ≡ []) × (guarded.db ≡ none)))
    × AllPass ann (check_for "Employee" "read") guarded.rules)
check_action-ok_iff_example = check_action-ok_iff guarded ann "Employee" "read"

abbrev full_row : Row
full_row = ("title", text "x") ∷ ("salary", bool true) ∷ []

abbrev open_row : Row
open_row = ("title", text "x") ∷ []

lookup-filter_read_example : lookup "salary" open_row ≡ (
    if is_gated_key (from_context ann).roles employee.fields "salary"
    then none
    else lookup "salary" full_row)
unfolding engine
lookup-filter_read_example =
    lookup-filter_read guarded ann "Employee" full_row open_row employee refl refl "salary"

filter_write_lem_example :
    ((filter_write guarded ann "Employee" full_row ≡ ok full_row)
      ↔ IsOpen (from_context ann).roles employee.fields full_row)
    × ((filter_write guarded ann "Employee" full_row ≡ ok full_row)
        ⊎ (filter_write guarded ann "Employee" full_row ≡ fail permission))
filter_write_lem_example = filter_write_lem guarded ann "Employee" full_row employee refl
