-- ===== src/Runtime/Guards.antt =====
-- What the operations that agent/runtime/executor.go calls have passed where they change the world.
use orjanda.Prelude.{
  String, Option, none, some, lookup, ◌≡◌, inr, Bool, true, false, List, if◌then◌else◌, refl, inl,
}
use orjanda.Errors.{ErrorCode, ok}
use orjanda.Value.{Row, text_or_empty}
use orjanda.Auth.{Context}
use orjanda.Perm.{check_roles}
use orjanda.Dal.Atomic.{IsReading, lift-IsReading, query-IsReading, bind-IsReading, then-IsReading}
use orjanda.Dal.Guarded.{
  IsGuarded, check-IsGuarded, lift_bind-IsGuarded, lift_then-IsGuarded, reading_bind-IsGuarded,
  lift-IsGuarded, IsGuarded-imp, bind_return-IsGuarded, then_return-IsGuarded,
}
use orjanda.Workflow.{Workflows, Transition, Definition, find_transition}
use orjanda.Workflow.Execute.{or_code, execute}
use orjanda.Workflow.Execute
use orjanda.Document.Engine.{Documents, Stamps, permit, create, update, soft_delete}
use orjanda.Document.Listing.{ListOpts, list}
use orjanda.Dal.{World, Op, return}
use orjanda.Document.Atomic.{read-IsReading}
use orjanda.Rpc.{MethodHandler}
use orjanda.Runtime.Dispatch.{Engines, string_arg}
use orjanda.Runtime.Operations.{
  run_action, create_op, update_op, delete_op, read_op, list_op, search_op, permit_roles,
  call_handler,
}

pub or_code-ok {ℓ} :
    {A : Type ℓ} (c : ErrorCode) (o : Option A) (a : A) → or_code c o ≡ ok a → o ≡ some a
or_code-ok c none a h = cc
or_code-ok c (some b) a h = cc

module _ {D : Type 0} where
  -- The action on documents of the type is permitted.
  abbrev pub Permits : Documents D → Context → String → String → Type 0
  Permits e ctx doc_type action = permit e.perm ctx doc_type action ≡ ok tt

  create-IsGuarded :
      (e : Documents D) (st : Stamps) (ctx : Context) (doc_type : String) (row : Row)
      → IsGuarded (Permits e ctx doc_type "create") (create e st ctx doc_type row)
  unfolding create
  create-IsGuarded e st ctx doc_type row =
      lift_bind-IsGuarded _ _ _ (λ compiled found. check-IsGuarded _ _)

  update-IsGuarded :
      (e : Documents D) (st : Stamps) (ctx : Context) (doc_type id : String) (row : Row)
      → IsGuarded (Permits e ctx doc_type "write") (update e st ctx doc_type id row)
  unfolding update
  update-IsGuarded e st ctx doc_type id row =
      lift_bind-IsGuarded _ _ _ (λ compiled found. check-IsGuarded _ _)

  soft_delete-IsGuarded :
      (e : Documents D) (st : Stamps) (ctx : Context) (doc_type id : String)
      → IsGuarded (Permits e ctx doc_type "delete") (soft_delete e st ctx doc_type id)
  unfolding soft_delete
  soft_delete-IsGuarded e st ctx doc_type id =
      lift_bind-IsGuarded _ _ _ (λ compiled found. check-IsGuarded _ _)

  list-IsReading :
      (e : Documents D) (ctx : Context) (doc_type : String) (opts : ListOpts)
      → IsReading (list e ctx doc_type opts)
  unfolding list
  list-IsReading e ctx doc_type opts = bind-IsReading _ _ (lift-IsReading _) (λ compiled.
      then-IsReading _ _ (lift-IsReading _) (
        bind-IsReading _ _ (lift-IsReading _)
          (λ order. bind-IsReading _ _ (query-IsReading _ _) (λ rows. lift-IsReading _))))

  -- A transition of the document type's workflow, by the action, is open to the caller's roles.
  abbrev pub MayAct : Workflows D → Context → String → String → Type 0
  MayAct flows ctx doc_type action =
      (def : Definition) × (lookup doc_type flows.definitions ≡ some def)
      × (current : String) × (t : Transition) × (find_transition def.transitions current action
          ≡ some t)
      × (check_roles ctx t.allowed_roles ≡ ok tt)

  execute-IsGuarded :
      (flows : Workflows D) (st : Execute.Stamps) (ctx : Context) (doc_type id action : String)
      → IsGuarded (MayAct flows ctx doc_type action) (execute flows st ctx doc_type id action)
  unfolding execute
  execute-IsGuarded flows st ctx doc_type id action = lift_bind-IsGuarded _ _ _ (λ def defined.
      lift_bind-IsGuarded _ _ _ (λ compiled found.
        reading_bind-IsGuarded _ _ _ (query-IsReading _ _) (λ rows.
          lift_bind-IsGuarded _ _ _ (λ doc first. lift_bind-IsGuarded _ _ _ (λ t moved.
            lift_then-IsGuarded _ _ _ (λ done may w. inr (
              def,
              or_code-ok _ _ _ defined,
              text_or_empty (lookup "workflow_state" doc),
              t,
              or_code-ok _ _ _ moved,
              may,
            )))))))

  module _ (e : Engines D) (st : Stamps) (ctx : Context) where
    pub create_op-IsGuarded :
        (doc_type : String) (args : Row)
        → IsGuarded (Permits e.docs ctx doc_type "create") (create_op e st ctx doc_type args)
    unfolding create_op
    create_op-IsGuarded doc_type args =
        bind_return-IsGuarded _ _ _ (create-IsGuarded e.docs st ctx doc_type args)

    pub update_op-IsGuarded :
        (doc_type : String) (args : Row)
        → IsGuarded (Permits e.docs ctx doc_type "write") (update_op e st ctx doc_type args)
    unfolding update_op
    update_op-IsGuarded doc_type args =
        then_return-IsGuarded _ _ _ (update-IsGuarded e.docs st ctx doc_type _ _)

    pub delete_op-IsGuarded :
        (doc_type : String) (args : Row)
        → IsGuarded (Permits e.docs ctx doc_type "delete") (delete_op e st ctx doc_type args)
    unfolding delete_op
    delete_op-IsGuarded doc_type args =
        then_return-IsGuarded _ _ _ (soft_delete-IsGuarded e.docs st ctx doc_type _)

    -- an operation that reads is guarded by anything
    pub reading-IsGuarded : {A : Type 0} (P : Type 0) (op : Op D A) → IsReading op → IsGuarded P op
    reading-IsGuarded P op r w = inl (r w)

    pub if-IsGuarded :
        {A : Type 0} (P : Type 0) (b : Bool) (op other : Op D A)
        → (b ≡ true → IsGuarded P op)
        → IsGuarded P other
        → IsGuarded P (if b then op else other)
    if-IsGuarded P true op other h k = h refl
    if-IsGuarded P false op other h k = k

    pub read_op-IsReading :
        (doc_type : String) (args : Row) → IsReading (read_op e ctx doc_type args)
    unfolding read_op return
    read_op-IsReading doc_type args =
        bind-IsReading _ _ (read-IsReading e.docs st ctx doc_type _) (λ row w. refl)

    pub list_op-IsReading :
        (doc_type : String) (args : Row) → IsReading (list_op e ctx doc_type args)
    unfolding list_op return
    list_op-IsReading doc_type args =
        bind-IsReading _ _ (list-IsReading e.docs ctx doc_type _) (λ rows w. refl)

    pub search_op-IsReading :
        (doc_type : String) (args : Row) → IsReading (search_op e ctx doc_type args)
    unfolding search_op return
    search_op-IsReading doc_type args =
        bind-IsReading _ _ (list-IsReading e.docs ctx doc_type _) (λ rows w. refl)

    pub run_action-IsGuarded :
        (P : Type 0) (o : Option (Workflows D)) (doc_type : String) (args : Row)
        → ((flows : Workflows D)
            → o ≡ some flows
            → MayAct flows ctx doc_type (string_arg args "action")
            → P)
        → IsGuarded P (run_action o st ctx doc_type args)
    unfolding run_action
    run_action-IsGuarded P none doc_type args h = lift-IsGuarded _ _
    run_action-IsGuarded P (some flows) doc_type args h =
        IsGuarded-imp (run_action (some flows) st ctx doc_type args) (h flows refl)
          (then_return-IsGuarded _ _ _ (execute-IsGuarded flows _ ctx doc_type _ _))

    pub call_handler-IsGuarded :
        (roles : List String) (handler : Option (MethodHandler (World D))) (args : Row)
        → IsGuarded (permit_roles e.perm ctx roles ≡ ok tt) (call_handler e ctx roles handler args)
    unfolding call_handler
    call_handler-IsGuarded roles none args = lift-IsGuarded _ _
    call_handler-IsGuarded roles (some handler) args = check-IsGuarded _ _
