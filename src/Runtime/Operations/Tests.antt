-- ===== src/Runtime/Operations/Tests.antt =====
-- Tool calls of agent/runtime/executor.go on an engine of notes that clerks may create.
use orjanda.Prelude.{
  String, true, false, List, [], ◌∷◌, none, some, lookup, insert, delete, has_key, overlay,
  equal_fold, fold_code, to_lower, is_upper, lower_char, has_prefix, ◌≡◌, ◌⊎◌, refl,
}
use orjanda.Prelude.Int.{pos}
use orjanda.Errors.{Result, ok, err, coded, not_found, permission}
use orjanda.Value.{Row, text, object, field, end}
use orjanda.Auth.{no_identity, Context, background, new_context, from_context}
use orjanda.Schema.{CompiledDoc, DocPermission, match_all, ascending}
use orjanda.Audit.{
  with_agent, build_entry, write, diff_maps, new_changes, lost_changes, values_equal,
}
use orjanda.Perm.{
  check_action, check_compiled, is_allowed, is_gated, has_role, rbac_check, rbac_loop, grants,
  check_db_permissions, run_rules, filter_write, reject_gated,
}
use orjanda.Dal.{World, ◌>>=◌, ◌>>◌, lift, return, insert_row, transaction, write_in_tx}
use orjanda.Dal.Memory.{memory}
use orjanda.Document.{
  normalize_loop, normalize_to_columns, fields_pass, validate_fields, build_insert_row,
}
use orjanda.Document.Engine.{
  Documents, Stamps, permit, permit_write, unique_loop, check_unique, audit, store, create,
}
use orjanda.Safety.{Layer, new_layer}
use orjanda.Rpc.{get_method, methods_of}
use orjanda.Tools.{CustomTool, underscored}
use orjanda.Tools.Names.{snake_tail, snake_case}
use orjanda.Runtime.{Session, agent_context, execute_tool}
use orjanda.Runtime.Gate.{MayGo}
use orjanda.Runtime.Dispatch.{
  Engines, split_by, split_operation_tool, doc_types_by_tool, doc_type_for, method_tools,
  custom_tools, list_opts, int_arg,
}
use orjanda.Runtime.Operations.{
  create_op, dispatch_operation, permit_roles, call_handler, call_method, call_custom,
  dispatch_named, dispatch_split, dispatch, runtime_of,
}
use orjanda.Runtime.Permitted.{IsPermitted, execute_tool-IsPermitted}

engine : Unit {0}
unfolding lookup insert delete has_key overlay equal_fold fold_code to_lower is_upper lower_char
    has_prefix new_context from_context with_agent build_entry write diff_maps new_changes
    lost_changes values_equal check_action check_compiled is_allowed is_gated has_role rbac_check
    rbac_loop grants check_db_permissions run_rules filter_write reject_gated ◌>>=◌ ◌>>◌ lift return
    insert_row transaction write_in_tx normalize_loop normalize_to_columns fields_pass
    validate_fields build_insert_row permit permit_write unique_loop check_unique audit store create
    get_method methods_of underscored snake_tail snake_case split_by split_operation_tool
    doc_types_by_tool doc_type_for method_tools custom_tools list_opts int_arg create_op
    dispatch_operation permit_roles call_handler call_method call_custom dispatch_named
    dispatch_split dispatch
engine = tt

abbrev clerks : DocPermission
clerks = record {
  role = "Clerk";
  read = true;
  write = false;
  create = true;
  delete = false;
  submit = false;
  match = match_all;
}

abbrev note : CompiledDoc
note = record {
  name = "DayNote";
  app = "";
  module_name = "";
  table_name = "day_notes";
  searchable = false;
  submittable = false;
  icon = "";
  description = "";
  title_field = "";
  sort_field = "";
  sort_order = ascending;
  agent_hidden = false;
  fields = [];
  permissions = clerks ∷ [];
  child_tables = [];
}

abbrev reg : String → Result CompiledDoc
reg name = ok note

abbrev documents : Documents (List Row)
documents = record {
  host = record { show = λ v. "?"; parses_address = λ s. false; validators = λ name. none };
  db = memory;
  reg = reg;
  perm = some (record { reg = reg; db = none; rules = [] });
  bus = none;
  audit_log = none;
}

abbrev search_web : CustomTool (World (List Row))
search_web = record {
  name = "search_web";
  description = "";
  parameters = [];
  allowed_roles = [];
  handler = some (λ ctx args w. (ok (text "found"), w));
}

abbrev engines : Engines (List Row)
engines = record {
  docs = documents;
  workflows = none;
  perm = documents.perm;
  listed = note ∷ [];
  reg = reg;
  related = λ name. 0;
  methods = [];
  custom = search_web ∷ record search_web { name = "ring" } ∷ [];
  int_of = λ x. pos x;
}

abbrev stamps : Stamps
stamps = record { now = 9; doc_id = "d1"; entry_id = "e1" }

abbrev clerk : Context
clerk = new_context background (record no_identity { user_id = "ann"; roles = "Clerk" ∷ [] })

abbrev world : World (List Row)
world = record { db = []; entries = [] }

created :
    (dispatch engines stamps clerk "create_day_note" [] world).0
    ≡ ok (object (field "id" (text "d1") end))
unfolding engine
created = refl

refused : (dispatch engines stamps background "create_day_note" [] world).0 ≡ err (coded permission)
unfolding engine
refused = refl

rung : (dispatch engines stamps clerk "ring" [] world).0 ≡ ok (text "found")
unfolding engine
rung = refl

-- A custom tool with the name of an operation is not reached.
web_missed : (dispatch engines stamps clerk "search_web" [] world).0 ≡ err (coded not_found)
unfolding engine
web_missed = refl

abbrev safety : Layer
safety = new_layer (record {
  auto_approve = "create" ∷ [];
  require_approval = [];
  always_require_approval = [];
  max_bulk_operations = pos 0;
  require_approval_for_roles = [];
  rate_limit = record { operations_per_minute = pos 0; scope = "" };
  token_budget_per_session = pos 0;
  tool_allowlist = [];
})

abbrev session : Session
session = record {
  id = "s1";
  user_id = "ann";
  seen = [];
  target_count = pos 0;
  target_doc = "";
  transcript = [];
}

execute_tool-IsPermitted_example :
    ((execute_tool
        (runtime_of engines safety stamps)
        clerk
        session
        "create_day_note"
        []
        "p"
        false
        none
        world).1
      ≡ world)
    ⊎ ((passed : Row) × MayGo
          (runtime_of engines safety stamps)
          clerk
          session
          "create_day_note"
          []
          false
          none
          passed
        × IsPermitted engines (agent_context clerk session "p") "create_day_note" passed
        × (from_context (agent_context clerk session "p") ≡ from_context clerk))
execute_tool-IsPermitted_example =
    execute_tool-IsPermitted engines safety stamps clerk session "create_day_note" [] "p" false none
      world
