-- ===== src/Runtime/Operations.antt =====
-- The handlers of agent/runtime/executor.go: dispatch, dispatchOperation and the discovery tools.
mod Tests
use orjanda.Prelude.{
  ℕ, String, Bool, true, false, not, ◌&&◌, ◌||◌, ◌==◌, List, [], ◌∷◌, ◌++◌, Option, none, some,
  Dict, lookup, delete, member, is_empty, if◌then◌else◌, equal_fold,
}
use orjanda.Errors.{Result, ok, err, fail, not_found}
use orjanda.Value.{
  Value, Items, nil, cons, Row, text, bool, texts, array, object, opaque, text_or_empty,
}
use orjanda.Auth.{Context}
use orjanda.Schema.{
  FieldType, string, int, int64, float64, date, datetime, currency, richtext, link, dynamiclink,
  attachment, json, child_table, Field, CompiledDoc,
}
use orjanda.Perm.{check_roles}
use orjanda.Perm
use orjanda.Dal.{World, Op, ◌>>=◌, ◌>>◌, lift, return}
use orjanda.Workflow.{Workflows}
use orjanda.Workflow.Execute.{execute}
use orjanda.Workflow.Execute
use orjanda.Document.Engine.{Stamps, create, read, update, soft_delete}
use orjanda.Document.Listing.{list}
use orjanda.Rpc.{MethodHandler, RegisteredMethod, get_method, methods_of}
use orjanda.Tools.Names.{snake_case, to_fields}
use orjanda.Tools.Schemas.{base_field_names}
use orjanda.Tools.{CustomTool}
use orjanda.Safety.{Layer}
use orjanda.Runtime.{Runtime}
use orjanda.Runtime.Dispatch.{
  Engines, split_operation_tool, doc_type_for, snake_doc_type_for, seen_by, method_tools,
  custom_tools, string_arg, int_arg, plain_list, list_opts,
}
use orjanda.Runtime.Discovery.{
  describe_field, describe_fields, describe_found, list_types, related_found, row_value, rows_value,
  type_name, when,
}

abbrev flow_stamps : Stamps → Execute.Stamps
flow_stamps st = record { now = st.now; entry_id = st.entry_id }

-- the check of the roles of a method or a custom tool, where there is a permission engine
unfoldable pub permit_roles : Option Perm.Engine → Context → List String → Result (Unit {0})
permit_roles none ctx roles = ok tt
permit_roles (some p) ctx roles = if is_empty roles then ok tt else check_roles ctx roles

module _ {D : Type 0} where
  unfoldable pub list_document_types : Engines D → Row → Result Value
  list_document_types e args =
      ok (array (rows_value (list_types (string_arg args "module") e.listed)))

  unfoldable pub describe_document : Engines D → Row → Result Value
  describe_document e args = describe_found (e.reg (string_arg args "doc_type"))

  -- the answer of Relationships is opaque here
  unfoldable pub list_relationships : Engines D → Row → Result Value
  list_relationships e args =
      related_found (e.related (string_arg args "doc_type")) (e.reg (string_arg args "doc_type"))

  unfoldable pub run_action : Option (Workflows D) → Stamps → Context → String → Row → Op D Value
  run_action none st ctx doc_type args = lift (fail not_found)
  run_action (some flows) st ctx doc_type args = do
    execute flows (flow_stamps st) ctx doc_type (string_arg args "id") (string_arg args "action")
    return (
        row_value (
          ("id", text (string_arg args "id"))
          ∷ ("action", text (string_arg args "action"))
          ∷ ("success", bool true)
          ∷ []))

  unfoldable pub create_op : Engines D → Stamps → Context → String → Row → Op D Value
  create_op e st ctx doc_type args = do
    id ← create e.docs st ctx doc_type args
    return (row_value (("id", text id) ∷ []))

  unfoldable pub update_op : Engines D → Stamps → Context → String → Row → Op D Value
  update_op e st ctx doc_type args = do
    update e.docs st ctx doc_type (string_arg args "id") (delete "id" args)
    return (row_value (("id", text (string_arg args "id")) ∷ []))

  unfoldable pub delete_op : Engines D → Stamps → Context → String → Row → Op D Value
  delete_op e st ctx doc_type args = do
    soft_delete e.docs st ctx doc_type (string_arg args "id")
    return (row_value (("id", text (string_arg args "id")) ∷ ("deleted", bool true) ∷ []))

  unfoldable pub read_op : Engines D → Context → String → Row → Op D Value
  read_op e ctx doc_type args = do
    row ← read e.docs ctx doc_type (string_arg args "id")
    return (row_value row)

  unfoldable pub list_op : Engines D → Context → String → Row → Op D Value
  list_op e ctx doc_type args = do
    rows ← list e.docs ctx doc_type (list_opts e.int_of args)
    return (array (rows_value rows))

  unfoldable pub search_op : Engines D → Context → String → Row → Op D Value
  search_op e ctx doc_type args = do
    rows ← list e.docs ctx doc_type (record plain_list {
      filters = ("q", text (string_arg args "query")) ∷ [];
      limit = int_arg e.int_of args "limit";
    })
    return (array (rows_value rows))

  unfoldable pub dispatch_operation :
      Engines D → Stamps → Context → String → String → Row → Op D Value
  dispatch_operation e st ctx verb doc_type args =
      if verb == "create"
      then create_op e st ctx doc_type args
      else if verb == "update"
      then update_op e st ctx doc_type args
      else if verb == "delete"
      then delete_op e st ctx doc_type args
      else if verb == "read" || verb == "get"
      then read_op e ctx doc_type args
      else if verb == "list"
      then list_op e ctx doc_type args
      else if verb == "search"
      then search_op e ctx doc_type args
      else if verb == "execute_action"
      then run_action e.workflows st ctx doc_type args
      else lift (fail not_found)

  -- a handler is called once its roles are checked
  unfoldable pub call_handler :
      Engines D → Context → List String → Option (MethodHandler (World D)) → Row → Op D Value
  call_handler e ctx roles none args = lift (fail not_found)
  call_handler e ctx roles (some handler) args = do
    lift (permit_roles e.perm ctx roles)
    handler ctx args

  unfoldable pub call_method :
      Engines D → Context → Option (RegisteredMethod (World D)) → Row → Op D Value
  call_method e ctx none args = lift (fail not_found)
  call_method e ctx (some m) args = call_handler e ctx m.opts.allowed_roles m.handler args

  unfoldable pub call_custom :
      Engines D → Context → Option (CustomTool (World D)) → Row → Op D Value
  call_custom e ctx none args = lift (fail not_found)
  call_custom e ctx (some c) args = call_handler e ctx c.allowed_roles c.handler args

  -- a tool that is not of a document type
  unfoldable pub dispatch_named : Engines D → Context → String → Option String → Row → Op D Value
  dispatch_named e ctx name none args =
      call_custom e ctx (lookup name (custom_tools e.custom [])) args
  dispatch_named e ctx name (some method) args =
      call_method e ctx (get_method method e.methods) args

  unfoldable pub dispatch_split :
      Engines D → Stamps → Context → String → Option (String × String) → Row → Op D Value
  dispatch_split e st ctx name none args =
      dispatch_named e ctx name (lookup name (method_tools (methods_of e.methods) [])) args
  dispatch_split e st ctx name (some (verb, rest)) args =
      if doc_type_for e.listed name == ""
      then lift (fail not_found)
      else dispatch_operation e st ctx verb (doc_type_for e.listed name) args

  unfoldable pub dispatch : Engines D → Stamps → Context → String → Row → Op D Value
  dispatch e st ctx name args =
      if name == "list_document_types"
      then lift (list_document_types e args)
      else if name == "describe_document"
      then lift (describe_document e args)
      else if name == "list_relationships"
      then lift (list_relationships e args)
      else dispatch_split e st ctx name (split_operation_tool name) args

  -- the executor's view of the engines
  unfoldable pub runtime_of : Engines D → Layer → Stamps → Runtime (World D)
  runtime_of e safety st = record {
    safety = safety;
    doc_type_for = doc_type_for e.listed;
    snake_doc_type_for = snake_doc_type_for e.listed;
    seen_by = seen_by;
    dispatch = dispatch e st;
  }
