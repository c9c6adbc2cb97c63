-- ===== src/Tools/Offered.antt =====
-- What ForIdentity of agent/tools/tools.go offers after Compile: each tool is open to the caller.
use orjanda.Prelude.{
  String, true, false, List, [], ◌∷◌, Option, lookup, is_empty, member, All, All-append,
  sort_strings, Bool-cases, ◌≡◌, refl, inl, inr, Memᴰ,
}
use orjanda.Prelude.Int.{ℤ}
use Prim.Native.Nat.{ℕ}
use Prim.Native.String.{◌++◌ as ◌++ˢ◌}
use orjanda.Errors.{ok}
use orjanda.Auth.{Identity, Context, new_context}
use orjanda.Schema.{CompiledDoc}
use orjanda.Perm.{check_action, check_roles}
use orjanda.Perm
use orjanda.Rpc.{RegisteredMethod}
use orjanda.Tools.Names.{snake_case}
use orjanda.Tools.{
  CustomTool, ToolTemplate, ToolDefinition, ToolRegistry, new_tool_registry, if_any, any_permission,
  doc_has_workflow, search_template, create_template, update_template, delete_template,
  action_template, generate_doc_templates, doc_templates, method_template, method_templates,
  method_roles, method_names, underscored, compile,
}
use orjanda.Tools.Offer.{
  is_nil_error, identity_may_use, definition_of, offered_templates, custom_definition,
  offered_custom, discovery_tools, for_identity,
}
use orjanda.Tools.Gates.{All-HasMethod, All-if_any, All-unless, HasMethod, is_nil_error→ok}

-- Why a tool may be offered to a caller.
module _ {S : Type 0} (perm : Perm.Engine) (ctx : Context) (workflows : Option (List String))
    (docs : List CompiledDoc) (methods : List (RegisteredMethod S))
    (custom : List (CustomTool S)) where
  pub data IsOpenTool (def : ToolDefinition) : Type 0 where
    discovers : Memᴰ def discovery_tools → IsOpenTool def
    reads :
        (doc : CompiledDoc) (prefix : String)
        → Memᴰ doc docs
        → doc.agent_hidden ≡ false
        → member prefix ("search_" ∷ "list_" ∷ "get_" ∷ []) ≡ true
        → def.name ≡ (prefix ++ˢ snake_case doc.name)
        → check_action perm ctx doc.name "read" ≡ ok tt
        → IsOpenTool def
    writes :
        (doc : CompiledDoc) (action : String)
        → Memᴰ doc docs
        → doc.agent_hidden ≡ false
        → member action ("create" ∷ "update" ∷ "delete" ∷ []) ≡ true
        → def.name ≡ ((action ++ˢ "_") ++ˢ snake_case doc.name)
        → check_action perm ctx doc.name action ≡ ok tt
        → IsOpenTool def
    acts :
        (doc : CompiledDoc)
        → Memᴰ doc docs
        → doc.agent_hidden ≡ false
        → doc_has_workflow workflows doc.name ≡ true
        → def.name ≡ ("execute_action_" ++ˢ snake_case doc.name)
        → IsOpenTool def
    calls :
        (m : RegisteredMethod S)
        → Memᴰ m methods
        → is_empty m.opts.allowed_roles ≡ false
        → def.name ≡ underscored m.name
        → check_roles ctx m.opts.allowed_roles ≡ ok tt
        → IsOpenTool def
    customs :
        (c : CustomTool S)
        → Memᴰ c custom
        → check_roles ctx c.allowed_roles ≡ ok tt
        → def ≡ custom_definition c
        → IsOpenTool def

module _ {S : Type 0} (t : ToolRegistry) (ctx : Context) (docs : List CompiledDoc)
    (methods : List (RegisteredMethod S)) (custom : List (CustomTool S)) where
  abbrev Open : ToolDefinition → Type 0
  Open = IsOpenTool t.perm ctx t.workflows docs methods custom

  -- a template that is open to each caller who may use it
  abbrev OpensTo : ToolTemplate → Type 0
  OpensTo tmpl = identity_may_use t.perm ctx tmpl ≡ true → Open (definition_of t ctx tmpl)

  OpensTo-generate_doc_templates :
      (doc : CompiledDoc)
      → Memᴰ doc docs
      → doc.agent_hidden ≡ false
      → All OpensTo (generate_doc_templates t.workflows doc)
  unfolding generate_doc_templates identity_may_use
  OpensTo-generate_doc_templates doc i shown =
      All-append OpensTo (if_any doc.searchable (search_template doc)) _
        (All-if_any OpensTo doc.searchable (search_template doc)
          (λ s h. reads doc "search_" i shown refl refl (is_nil_error→ok _ h)))
        (
          λ h. reads doc "list_" i shown refl refl (is_nil_error→ok _ h),
          (
            λ h. reads doc "get_" i shown refl refl (is_nil_error→ok _ h),
            All-append OpensTo (if_any (any_permission doc "create") (create_template doc)) _
                (All-if_any OpensTo (any_permission doc "create") (create_template doc)
                  (λ s h. writes doc "create" i shown refl refl (is_nil_error→ok _ h)))
                (All-append OpensTo (if_any (any_permission doc "write") (update_template doc)) _
                  (All-if_any OpensTo (any_permission doc "write") (update_template doc)
                    (λ s h. writes doc "update" i shown refl refl (is_nil_error→ok _ h)))
                  (All-append OpensTo (if_any (any_permission doc "delete") (delete_template doc)) _
                    (All-if_any OpensTo (any_permission doc "delete") (delete_template doc)
                      (λ s h. writes doc "delete" i shown refl refl (is_nil_error→ok _ h)))
                    (All-if_any OpensTo (doc_has_workflow t.workflows doc.name)
                      (action_template doc) (λ flows h. acts doc i shown flows refl)))),
          ),
        )

  OpensTo-doc_templates :
      (ds : List CompiledDoc)
      → ((doc : CompiledDoc) → Memᴰ doc ds → Memᴰ doc docs)
      → All OpensTo (doc_templates t.workflows ds)
  unfolding doc_templates
  OpensTo-doc_templates [] within = tt
  OpensTo-doc_templates (doc ∷ ds) within =
      let rest = OpensTo-doc_templates ds (λ d i. within d (Memᴰ.tail i)) in
      All-unless OpensTo doc.agent_hidden (generate_doc_templates t.workflows doc)
        (doc_templates t.workflows ds)
        (OpensTo-generate_doc_templates doc (within doc (Memᴰ.head refl))) rest

  OpensTo-method_template :
      (name : String)
      → HasMethod methods name (lookup name (method_roles methods []))
      → OpensTo (method_template (method_roles methods []) name)
  unfolding identity_may_use
  OpensTo-method_template name (m, i, gated, same, found) h =
      let checked = rw found at h in
      calls m i gated same
        (is_nil_error→ok (check_roles ctx m.opts.allowed_roles) (rw gated at checked))

  OpensTo-method_templates :
      (names : List String)
      → All
          (λ (name : String). HasMethod methods name (lookup name (method_roles methods [])))
          names
      → All OpensTo (method_templates (method_roles methods []) names)
  unfolding method_templates
  OpensTo-method_templates [] h = tt
  OpensTo-method_templates (name ∷ names) (p, h) =
      (OpensTo-method_template name p, OpensTo-method_templates names h)

  Open-offered_templates :
      (tmpls : List ToolTemplate) → All OpensTo tmpls → All Open (offered_templates t ctx tmpls)
  unfolding offered_templates
  Open-offered_templates [] h = tt
  Open-offered_templates (tmpl ∷ tmpls) (p, h) =
      elim (Bool-cases (identity_may_use t.perm ctx tmpl)) [
        | inl may ↦ rw may (p may, Open-offered_templates tmpls h)
        | inr not_now ↦ rw not_now (Open-offered_templates tmpls h)
      ]

  Open-offered_custom :
      (cs : List (CustomTool S))
      → ((c : CustomTool S) → Memᴰ c cs → Memᴰ c custom)
      → All Open (offered_custom ctx cs)
  unfolding offered_custom
  Open-offered_custom [] within = tt
  Open-offered_custom (c ∷ cs) within =
      let rest = Open-offered_custom cs (λ d i. within d (Memᴰ.tail i)) in
      elim (Bool-cases (is_nil_error (check_roles ctx c.allowed_roles))) [
        | inl may ↦
            rw may (customs c (within c (Memᴰ.head refl)) (is_nil_error→ok _ may) refl, rest)
        | inr not_now ↦ rw not_now rest
      ]

  All-discovers :
      (defs : List ToolDefinition)
      → ((d : ToolDefinition) → Memᴰ d defs → Memᴰ d discovery_tools)
      → All Open defs
  All-discovers [] within = tt
  All-discovers (d ∷ defs) within =
      (discovers (within d (Memᴰ.head refl)), All-discovers defs (λ e i. within e (Memᴰ.tail i)))

-- After Compile on a new tool registry, ForIdentity offers a caller, besides the discovery tools, only
-- tools of documents that are not hidden from agents, to read, create, update or delete those that
-- CheckAction allows this, or to act on those with a workflow; tools of methods that are gated by
-- roles, for one whose roles CheckRoles passes; and the custom tools whose roles CheckRoles passes.
pub compile-IsOpenTool :
    {S : Type 0} (perm : Perm.Engine) (workflows : Option (List String)) (float_of : ℤ → ℕ)
    (docs : List CompiledDoc) (methods : List (RegisteredMethod S)) (custom : List (CustomTool S))
    (ctx : Context) (id : Identity)
    → All (IsOpenTool perm (new_context ctx id) workflows docs methods custom) (
        for_identity
          (compile docs methods (new_tool_registry perm workflows float_of)).1
          ctx
          id
          custom)
unfolding compile new_tool_registry for_identity
compile-IsOpenTool perm workflows float_of docs methods custom ctx id =
    let t = new_tool_registry perm workflows float_of in
    let c = new_context ctx id in
    All-append _ discovery_tools _
      (All-discovers t c docs methods custom discovery_tools (λ d i. i))
      (All-append _
        (offered_templates (compile docs methods t).1 c (compile docs methods t).1.templates) _
        (Open-offered_templates (compile docs methods t).1 c docs methods custom
          (compile docs methods t).1.templates
          (All-append _ (doc_templates workflows docs) _
            (OpensTo-doc_templates (compile docs methods t).1 c docs methods custom docs (λ d i. i))
            (OpensTo-method_templates (compile docs methods t).1 c docs methods custom
              (sort_strings (method_names methods)) (All-HasMethod methods))))
        (Open-offered_custom t c docs methods custom custom (λ d i. i)))
