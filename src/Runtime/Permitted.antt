-- ===== src/Runtime/Permitted.antt =====
-- The dispatch of agent/runtime/executor.go changes the world only where the caller may do what it does.
use orjanda.Prelude.{
  String, Bool, true, ◌||◌, ◌==◌, eq_iff, [], ◌∷◌, Option, none, some, lookup, ◌≡◌, refl, ◌⊎◌, inl,
  inr, Memᴰ, ◌∙◌, ap,
}
use orjanda.Errors.{ok}
use orjanda.Value.{Row}
use orjanda.Auth.{Context, new_context, from_context}
use orjanda.Dal.{World}
use orjanda.Dal.Guarded.{IsGuarded, lift-IsGuarded, IsGuarded-imp}
use orjanda.Workflow.{Workflows}
use orjanda.Document.Engine.{Stamps}
use orjanda.Rpc.{RegisteredMethod, get_method, methods_of}
use orjanda.Tools.{CustomTool}
use orjanda.Audit.{with_agent}
use orjanda.Safety.{Layer}
use orjanda.Runtime.{Session, Gateway, agent_context, execute_tool}
use orjanda.Runtime.Gate.{MayGo, execute_tool-MayGo}
use orjanda.Runtime.Dispatch.{
  Engines, split_operation_tool, doc_type_for, method_tools, custom_tools, string_arg,
}
use orjanda.Runtime.Operations.{
  create_op, update_op, delete_op, read_op, list_op, search_op, dispatch_operation, permit_roles,
  call_handler, call_method, call_custom, dispatch_named, dispatch_split, dispatch, runtime_of,
}
use orjanda.Runtime.Guards.{
  create_op-IsGuarded, update_op-IsGuarded, delete_op-IsGuarded, reading-IsGuarded, if-IsGuarded,
  read_op-IsReading, list_op-IsReading, search_op-IsReading, run_action-IsGuarded,
  call_handler-IsGuarded, MayAct, Permits,
}

module _ {D : Type 0} where
  -- Why a tool call may change the world: the tool is that of an operation on documents of a type, which
  -- the permission engine allows; it acts on documents by a transition that is open to the caller; or it
  -- is that of a method or a custom tool with roles that the caller may call.
  pub data IsPermitted (e : Engines D) (ctx : Context) (name : String) (args : Row) : Type 0 where
    writes :
        (verb rest action : String)
        → split_operation_tool name ≡ some (verb, rest)
        → Memᴰ {A = String × String}
            (verb, action)
            (("create", "create") ∷ ("update", "write") ∷ ("delete", "delete") ∷ [])
        → Permits e.docs ctx (doc_type_for e.listed name) action
        → IsPermitted e ctx name args
    acts :
        (rest : String) (flows : Workflows D)
        → split_operation_tool name ≡ some ("execute_action", rest)
        → e.workflows ≡ some flows
        → MayAct flows ctx (doc_type_for e.listed name) (string_arg args "action")
        → IsPermitted e ctx name args
    calls :
        (method : String) (m : RegisteredMethod (World D))
        → lookup name (method_tools (methods_of e.methods) []) ≡ some method
        → get_method method e.methods ≡ some m
        → permit_roles e.perm ctx m.opts.allowed_roles ≡ ok tt
        → IsPermitted e ctx name args
    customs :
        (c : CustomTool (World D))
        → lookup name (custom_tools e.custom []) ≡ some c
        → permit_roles e.perm ctx c.allowed_roles ≡ ok tt
        → IsPermitted e ctx name args

  module _ (e : Engines D) (st : Stamps) (ctx : Context) where
    dispatch_operation-IsGuarded :
        (P : Type 0) (verb doc_type : String) (args : Row)
        → ((action : String)
            → Memᴰ {A = String × String}
                (verb, action)
                (("create", "create") ∷ ("update", "write") ∷ ("delete", "delete") ∷ [])
            → Permits e.docs ctx doc_type action
            → P)
        → ((flows : Workflows D)
            → verb ≡ "execute_action"
            → e.workflows ≡ some flows
            → MayAct flows ctx doc_type (string_arg args "action")
            → P)
        → IsGuarded P (dispatch_operation e st ctx verb doc_type args)
    unfolding dispatch_operation
    dispatch_operation-IsGuarded P verb doc_type args wr ac =
        if-IsGuarded e st ctx P (verb == "create") _ _
          (λ same.
            IsGuarded-imp (create_op e st ctx doc_type args)
              (λ p. wr "create" (Memᴰ.head (pair same)) p)
              (create_op-IsGuarded e st ctx doc_type args))
          (if-IsGuarded e st ctx P (verb == "update") _ _
            (λ same.
              IsGuarded-imp (update_op e st ctx doc_type args)
                (λ p. wr "write" (Memᴰ.tail (Memᴰ.head (pair same))) p)
                (update_op-IsGuarded e st ctx doc_type args))
            (if-IsGuarded e st ctx P (verb == "delete") _ _
              (λ same.
                IsGuarded-imp (delete_op e st ctx doc_type args)
                  (λ p. wr "delete" (Memᴰ.tail (Memᴰ.tail (Memᴰ.head (pair same)))) p)
                  (delete_op-IsGuarded e st ctx doc_type args))
              (if-IsGuarded e st ctx P (verb == "read" || verb == "get") _ _
                (λ same.
                  reading-IsGuarded e st ctx P (read_op e ctx doc_type args)
                    (read_op-IsReading e st ctx doc_type args))
                (if-IsGuarded e st ctx P (verb == "list") _ _
                  (λ same.
                    reading-IsGuarded e st ctx P (list_op e ctx doc_type args)
                      (list_op-IsReading e st ctx doc_type args))
                  (if-IsGuarded e st ctx P (verb == "search") _ _
                    (λ same.
                      reading-IsGuarded e st ctx P (search_op e ctx doc_type args)
                        (search_op-IsReading e st ctx doc_type args))
                    (if-IsGuarded e st ctx P (verb == "execute_action") _ _
                      (λ same.
                        run_action-IsGuarded e st ctx P e.workflows doc_type args
                          (λ flows there may.
                            ac flows ((eq_iff verb "execute_action").0 same) there may))
                      (lift-IsGuarded P _)))))))
      where
        pair :
            {action v : String}
            → (verb == v) ≡ true
            → Path (String × String) (verb, action) (v, action)
        pair {action} {v} same = ap (λ (x : String). (x, action)) ((eq_iff verb v).0 same)

    method-IsGuarded :
        (P : Type 0) (o : Option (RegisteredMethod (World D))) (args : Row)
        → ((m : RegisteredMethod (World D))
            → o ≡ some m
            → permit_roles e.perm ctx m.opts.allowed_roles ≡ ok tt
            → P)
        → IsGuarded P (call_method e ctx o args)
    unfolding call_method
    method-IsGuarded P none args h = lift-IsGuarded P _
    method-IsGuarded P (some m) args h =
        IsGuarded-imp (call_handler e ctx m.opts.allowed_roles m.handler args) (h m refl)
          (call_handler-IsGuarded e st ctx m.opts.allowed_roles m.handler args)

    custom-IsGuarded :
        (P : Type 0) (o : Option (CustomTool (World D))) (args : Row)
        → ((c : CustomTool (World D))
            → o ≡ some c
            → permit_roles e.perm ctx c.allowed_roles ≡ ok tt
            → P)
        → IsGuarded P (call_custom e ctx o args)
    unfolding call_custom
    custom-IsGuarded P none args h = lift-IsGuarded P _
    custom-IsGuarded P (some c) args h =
        IsGuarded-imp (call_handler e ctx c.allowed_roles c.handler args) (h c refl)
          (call_handler-IsGuarded e st ctx c.allowed_roles c.handler args)

    dispatch_named-IsGuarded :
        (P : Type 0) (name : String) (o : Option String) (args : Row)
        → ((method : String) (m : RegisteredMethod (World D))
            → o ≡ some method
            → get_method method e.methods ≡ some m
            → permit_roles e.perm ctx m.opts.allowed_roles ≡ ok tt
            → P)
        → ((c : CustomTool (World D))
            → lookup name (custom_tools e.custom []) ≡ some c
            → permit_roles e.perm ctx c.allowed_roles ≡ ok tt
            → P)
        → IsGuarded P (dispatch_named e ctx name o args)
    unfolding dispatch_named
    dispatch_named-IsGuarded P name none args hm hc =
        custom-IsGuarded P (lookup name (custom_tools e.custom [])) args hc
    dispatch_named-IsGuarded P name (some method) args hm hc =
        method-IsGuarded P (get_method method e.methods) args
          (λ m found may. hm method m refl found may)

    dispatch_split-IsGuarded :
        (name : String) (o : Option (String × String)) (args : Row)
        → split_operation_tool name ≡ o
        → IsGuarded (IsPermitted e ctx name args) (dispatch_split e st ctx name o args)
    unfolding dispatch_split
    dispatch_split-IsGuarded name none args split =
        dispatch_named-IsGuarded (IsPermitted e ctx name args) name
          (lookup name (method_tools (methods_of e.methods) [])) args
          (λ method m named found may. calls method m named found may)
          (λ c found may. customs c found may)
    dispatch_split-IsGuarded name (some (verb, rest)) args split =
        if-IsGuarded e st ctx (IsPermitted e ctx name args) (doc_type_for e.listed name == "") _ _
          (λ missing. lift-IsGuarded _ _)
          (dispatch_operation-IsGuarded (IsPermitted e ctx name args) verb
            (doc_type_for e.listed name) args
            (λ action is_write may. writes verb rest action split is_write may)
            (λ flows same there may.
              acts rest flows (split ∙ ap (λ (v : String). some (v, rest)) same) there may))

    -- A dispatched tool call leaves the world as it was, or the caller is permitted what it does.
    dispatch-IsPermitted :
        (name : String) (args : Row) (w : World D)
        → ((dispatch e st ctx name args w).1 ≡ w) ⊎ IsPermitted e ctx name args
    unfolding dispatch
    dispatch-IsPermitted name args =
        if-IsGuarded e st ctx (IsPermitted e ctx name args) (name == "list_document_types") _ _
          (λ same. lift-IsGuarded _ _)
          (if-IsGuarded e st ctx (IsPermitted e ctx name args) (name == "describe_document") _ _
            (λ same. lift-IsGuarded _ _)
            (if-IsGuarded e st ctx (IsPermitted e ctx name args) (name == "list_relationships") _ _
              (λ same. lift-IsGuarded _ _)
              (dispatch_split-IsGuarded name (split_operation_tool name) args refl)))

  -- A tool call of the executor on the engines leaves the world as it was, or it passed the gate, and the
  -- caller, whose identity the agent acts with, is permitted what it does with the arguments that passed.
  pub execute_tool-IsPermitted :
      (e : Engines D) (safety : Layer) (st : Stamps) (ctx : Context) (sess : Session)
      (name : String) (args : Row) (prompt : String) (plan_approved : Bool)
      (approvals : Option Gateway) (w : World D)
      → ((execute_tool
            (runtime_of e safety st)
            ctx
            sess
            name
            args
            prompt
            plan_approved
            approvals
            w).1
          ≡ w)
        ⊎ ((passed : Row) × MayGo
              (runtime_of e safety st)
              ctx
              sess
              name
              args
              plan_approved
              approvals
              passed
            × IsPermitted e (agent_context ctx sess prompt) name passed
            × (from_context (agent_context ctx sess prompt) ≡ from_context ctx))
  execute_tool-IsPermitted e safety st ctx sess name args prompt plan_approved approvals w =
      elim (execute_tool-MayGo (runtime_of e safety st) ctx sess name args prompt plan_approved
        approvals w) [
          | inl same ↦ inl same
          | inr (passed, may, result, agent) ↦
              elim (dispatch-IsPermitted e st (agent_context ctx sess prompt) name passed w) [
                | inl same ↦ inl (result ∙ (unfold runtime_of in same))
                | inr permitted ↦ inr (
                  passed,
                  may,
                  permitted,
                  unfold agent_context with_agent new_context from_context in refl,
                )
              ]
        ]
