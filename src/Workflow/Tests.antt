-- ===== src/Workflow/Tests.antt =====
-- workflow/engine.go on leave requests that a manager approves.
use orjanda.Prelude.{
  String, true, false, List, [], ◌∷◌, none, some, lookup, insert, delete, overlay, equal_fold,
  fold_code, ◌≡◌, ◌≢◌, refl,
}
use mathlib.Core.List.{Memᴰ}
use orjanda.Errors.{ok, err, coded, permission}
use orjanda.Value.{Row, text, time}
use orjanda.Auth.{no_identity, Context, background, new_context, from_context}
use orjanda.Schema.{CompiledDoc, get_doc, ascending}
use orjanda.Perm.{check_roles, has_role, role_listed}
use orjanda.Audit.{build_entry, write}
use orjanda.Dal.{
  World, ◌>>=◌, ◌>>◌, lift, return, query, update_row, insert_row, transaction, memory_log,
  write_in_tx,
}
use orjanda.Dal.Memory.{memory}
use orjanda.Workflow.{
  Transition, Definition, Workflows, with_state_field, register, leaves_from, passes,
  available_loop, available_transitions, find_transition,
}
use orjanda.Workflow.Execute.{Stamps, doc_copy, audit_transition, run_transition, execute}
use orjanda.Workflow.Performed.{Performed, execute-IsAtomic}
use orjanda.Workflow.Offered.{available-find_transition}

engine : Unit {0}
unfolding lookup insert delete overlay equal_fold fold_code new_context from_context get_doc
    check_roles has_role role_listed build_entry write ◌>>=◌ ◌>>◌ lift return query update_row
    insert_row transaction write_in_tx with_state_field register leaves_from available_loop
    available_transitions find_transition doc_copy audit_transition run_transition execute
engine = tt

abbrev leave : CompiledDoc
leave = record {
  name = "Leave";
  app = "hr";
  module_name = "";
  table_name = "leaves";
  searchable = false;
  submittable = false;
  icon = "";
  description = "";
  title_field = "";
  sort_field = "";
  sort_order = ascending;
  agent_hidden = false;
  fields = [];
  permissions = [];
  child_tables = [];
}

abbrev move : String → String → String → List String → Transition
move from to action roles = record {
  from = from;
  to = to;
  action = action;
  allowed_roles = roles;
  guard = none;
}

abbrev definition : Definition
definition = record {
  doc_type = "Leave";
  states = [];
  transitions =
      move "Draft" "Open" "Submit" []
      ∷ move "Open" "Approved" "Approve" ("HR" ∷ [])
      ∷ move "Open" "Escalated" "Approve" ("Manager" ∷ [])
      ∷ [];
  on_transition = [];
}

abbrev flows : Workflows (List Row)
flows = record {
  db = memory;
  reg = ("Leave", leave) ∷ [];
  bus = none;
  audit_log = some memory_log;
  definitions = ("Leave", definition) ∷ [];
}

abbrev as_role : String → Context
as_role role = new_context background (record no_identity { user_id = "ann"; roles = role ∷ [] })

abbrev stamps : Stamps
stamps = record { now = 9; entry_id = "e1" }

abbrev world : World (List Row)
world = record { db = (("id", text "7") ∷ ("workflow_state", text "open") ∷ []) ∷ []; entries = [] }

approved :
    (execute flows stamps (as_role "hr") "Leave" "7" "approve" world).1.db
    ≡ ((("id", text "7") ∷ ("workflow_state", text "Approved") ∷ ("updated_at", time 9) ∷ []) ∷ [])
unfolding engine
approved = refl

-- The second of two transitions with one action is offered to its role, but only the first is tried.
offered :
    available_transitions flows (as_role "Manager") "Leave" "Open"
    ≡ (move "Open" "Escalated" "Approve" ("Manager" ∷ []) ∷ [])
unfolding engine
offered = refl

refused :
    (execute flows stamps (as_role "Manager") "Leave" "7" "Approve" world).0
    ≡ err (coded permission)
unfolding engine
refused = refl

registered :
    register flows definition ≡ ok (record flows { reg = ("Leave", with_state_field leave) ∷ [] })
unfolding engine
registered = refl

execute-IsAtomic_example :
    (execute flows stamps (as_role "Manager") "Leave" "7" "Approve" world).1.db ≡ world.db
execute-IsAtomic_example =
    execute-IsAtomic flows stamps (as_role "Manager") "Leave" "7" "Approve" world (coded permission)
      refused

offered_mem :
    Memᴰ
      (move "Open" "Escalated" "Approve" ("Manager" ∷ []))
      (available_transitions flows (as_role "Manager") "Leave" "Open")
unfolding engine
offered_mem = Memᴰ.head refl

available-find_transition_example :
    (find_transition definition.transitions "Open" "Approve" ≢ none)
    × (passes (check_roles (as_role "Manager") ("Manager" ∷ [])) ≡ true)
unfolding lookup
available-find_transition_example =
    available-find_transition flows (as_role "Manager") "Leave" "Open"
      (move "Open" "Escalated" "Approve" ("Manager" ∷ [])) definition refl offered_mem
