-- ===== src/Workflow/Performed.antt =====
-- What Execute and AvailableTransitions (workflow/engine.go) promise of each other and of the database.
use orjanda.Prelude.{String, true, List, [], ◌∷◌, some, lookup, equal_fold, Memᴰ, ◌≡◌}
use orjanda.Errors.{ok}
use orjanda.Value.{Row, text, text_or_empty}
use orjanda.Auth.{Context}
use orjanda.Schema.{CompiledDoc, get_doc}
use orjanda.Perm.{check_roles}
use orjanda.Dal.{by_id, World}
use orjanda.Dal.Atomic.{
  IsAtomic, lift-IsReading, query-IsReading, transaction-IsAtomic, bind-IsAtomic, then-IsAtomic,
}
use orjanda.Workflow.{Transition, Definition, Workflows, leaves_from}
use orjanda.Workflow.Execute.{
  Stamps, first_row, check_guard, state_update, audit_transition, run_transition, execute,
}

-- the state of a document's workflow
abbrev state_of : Row → String
state_of doc = text_or_empty (lookup "workflow_state" doc)

module _ {S : Type 0} (e : Workflows S) (st : Stamps) (ctx : Context)
    (doc_type id action : String) where
  -- Where Execute fails, the database is as it was.
  pub execute-IsAtomic : IsAtomic (execute e st ctx doc_type id action)
  unfolding execute
  execute-IsAtomic = bind-IsAtomic _ _ (lift-IsReading _) (λ def.
      bind-IsAtomic _ _ (lift-IsReading _) (λ compiled.
        bind-IsAtomic _ _ (query-IsReading e.db _) (λ rows.
          bind-IsAtomic _ _ (lift-IsReading _) (λ doc. bind-IsAtomic _ _ (lift-IsReading _) (λ t.
            then-IsAtomic _ _ (lift-IsReading _)
              (transaction-IsAtomic e.db (run_transition e st ctx def doc_type id doc t)))))))

  -- what a transition's transaction did
  pub record Moved (def : Definition) (doc : Row) (t : Transition) (w : World S) : Type 0 where
    pub guarded : check_guard t.guard ctx doc ≡ ok tt
    pub state : S
    pub updated : e.db.update w.db doc_type id (state_update t.to st.now) ≡ ok state
    pub audited :
        (audit_transition e st ctx doc_type id (state_of doc) t.to (record w { db = state })).0
        ≡ ok tt
    pub left :
        run_transition e st ctx def doc_type id doc t w
        ≡ audit_transition e st ctx doc_type id (state_of doc) t.to (record w { db = state })

  -- the parts of a run that succeeded, and what it left
  pub record Performed (w : World S) : Type 0 where
    pub def : Definition
    pub registered : lookup doc_type e.definitions ≡ some def
    pub compiled : CompiledDoc
    pub known : get_doc e.reg doc_type ≡ ok compiled
    pub rows : List Row
    pub stored :
        e.db.query w.db (by_id doc_type compiled.table_name (("id", text id) ∷ [])) ≡ ok rows
    pub doc : Row
    pub first : first_row rows ≡ some doc
    pub transition : Transition
    pub declared : Memᴰ transition def.transitions
    pub leaves : leaves_from transition (state_of doc) ≡ true
    pub named : equal_fold transition.action action ≡ true
    pub permitted : check_roles ctx transition.allowed_roles ≡ ok tt
    pub started : S
    pub began : e.db.begin w.db ≡ ok started
    pub moved : Moved def doc transition (record w { db = started })
    pub committed :
        e.db.commit
          (audit_transition e st ctx doc_type id
            (state_of doc)
            transition.to
            (record w { db = moved.state })).1.db
        ≡ ok (execute e st ctx doc_type id action w).1.db
