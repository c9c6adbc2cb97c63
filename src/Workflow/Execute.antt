-- ===== src/Workflow/Execute.antt =====
-- Execute of workflow/engine.go.

use orjanda.Prelude.{ℕ, String, List, [], ◌∷◌, Option, none, some, lookup, insert}
use orjanda.Errors.{Result, ok, fail, not_found, conflict, ErrorCode}
use orjanda.Value.{Row, text, time, text_or_empty}
use orjanda.Auth.{Context}
use orjanda.Schema.{get_doc}
use orjanda.Event.{Handler, Bus, emit}
use orjanda.Audit.{build_entry}
use orjanda.Perm.{check_roles}
use orjanda.Dal.{by_id, Op, ◌>>=◌, ◌>>◌, lift, return, query, update_row, transaction, write_in_tx}
use orjanda.Workflow.{Guard, Transition, Definition, Workflows, find_transition}

-- What the clock and the ULID generator answer.
pub record Stamps : Type 0 where
  pub now : ℕ
  pub entry_id : String

abbrev pub or_code {ℓ} : {A : Type ℓ} → ErrorCode → Option A → Result A
or_code c none = fail c
or_code c (some a) = ok a

abbrev pub first_row : List Row → Option Row
first_row [] = none
first_row (row ∷ rows) = some row

abbrev pub check_guard : Option Guard → Context → Row → Result (Unit {0})
check_guard none ctx doc = ok tt
check_guard (some guard) ctx doc = guard ctx doc

abbrev pub emit_on : Option Bus → Context → String → String → Row → Result Row
emit_on none ctx doc_type event_name doc = ok doc
emit_on (some bus) ctx doc_type event_name doc = emit bus ctx doc_type event_name doc

abbrev run_handler : Option Handler → Context → Row → Result Row
run_handler none ctx doc = ok doc
run_handler (some handler) ctx doc = handler ctx doc

-- the columns that a transition writes
abbrev pub state_update : String → ℕ → Row
state_update to now = ("workflow_state", text to) ∷ ("updated_at", time now) ∷ []

unfoldable pub doc_copy : String → ℕ → Row → Row
doc_copy to now doc = insert "updated_at" (time now) (insert "workflow_state" (text to) doc)

module _ {S : Type 0} where
  unfoldable pub audit_transition :
      Workflows S → Stamps → Context → String → String → String → String → Op S (Unit {0})
  audit_transition e st ctx doc_type id current to = elim e.audit_log [
    | none ↦ return tt
    | some log ↦ write_in_tx e.db log st.now st.entry_id (
        build_entry st.now st.entry_id ctx "workflow_transition" doc_type id
          (record { field = "workflow_state"; old_value = text current; new_value = text to } ∷ []))
  ]

  -- the function that the transaction runs
  unfoldable pub run_transition :
      Workflows S
      → Stamps
      → Context
      → Definition
      → String
      → String
      → Row
      → Transition
      → Op S (Unit {0})
  run_transition e st ctx def doc_type id doc t = do
    lift (check_guard t.guard ctx doc)
    update_row e.db doc_type id (state_update t.to st.now)
    told ← lift (emit_on e.bus ctx doc_type "on_workflow_transition" (doc_copy t.to st.now doc))
    lift (run_handler (lookup t.to def.on_transition) ctx told)
    audit_transition e st ctx doc_type id (text_or_empty (lookup "workflow_state" doc)) t.to

  unfoldable pub execute :
      Workflows S → Stamps → Context → String → String → String → Op S (Unit {0})
  execute e st ctx doc_type id action = do
    def ← lift (or_code not_found (lookup doc_type e.definitions))
    compiled ← lift (get_doc e.reg doc_type)
    rows ← query e.db (by_id doc_type compiled.table_name (("id", text id) ∷ []))
    doc ← lift (or_code not_found (first_row rows))
    t ← lift (
        or_code conflict
          (find_transition def.transitions (text_or_empty (lookup "workflow_state" doc)) action))
    lift (check_roles ctx t.allowed_roles)
    transaction e.db (run_transition e st ctx def doc_type id doc t)
