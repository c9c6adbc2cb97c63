-- ===== src/Workflow.antt =====
-- workflow/engine.go: workflows of documents. What the clock and the ULID generator answer during a
-- call is passed to it.

pub mod Execute
pub mod Performed
pub mod Offered
mod Tests
use orjanda.Prelude.{
  ℕ, String, Bool, true, false, not, ◌&&◌, ◌||◌, ◌==◌, List, [], ◌∷◌, ◌++◌, Option, none, some,
  Dict, lookup, insert, any, is_some, keys, sort_strings, if◌then◌else◌, equal_fold,
}
use orjanda.Errors.{Result, ok, err, fail, not_found, conflict}
use orjanda.Value.{Value, Row, text, time, text_or_empty}
use orjanda.Auth.{Context}
use orjanda.Schema.{Field, CompiledDoc, get_doc, FieldType}
use orjanda.Event.{Handler, Bus}
use orjanda.Perm.{check_roles}
use orjanda.Dal.{Database, Log}

-- State; the style is a hint for the user interface
pub record State : Type 0 where
  pub name : String
  pub style : String

abbrev pub Guard : Type 0
Guard = Context → Row → Result (Unit {0})

pub record Transition : Type 0 where
  pub from : String
  pub to : String
  pub action : String
  pub allowed_roles : List String
  pub guard : Option Guard

pub record Definition : Type 0 where
  pub doc_type : String
  pub states : List State
  pub transitions : List Transition
  pub on_transition : Dict Handler

-- engine; `reg` holds the registry's documents, which the engine shares
pub record Workflows (S : Type 0) : Type 0 where
  pub db : Database S
  pub reg : Dict CompiledDoc
  pub bus : Option Bus
  pub audit_log : Option Log
  pub definitions : Dict Definition

-- the field that Register adds
abbrev state_field : Field
state_field = record {
  name = "WorkflowState";
  db_column = "workflow_state";
  type = FieldType.string;
  required = false;
  unique = false;
  searchable = false;
  label = "Workflow State";
  options = [];
  default = "";
  format = "";
  link_target = "";
  child_type_name = "";
  precision = 0;
  permission_role = "";
  hidden = false;
  system = false;
  read_only = true;
  computed = false;
  agent_hint = "";
  validator_name = "";
  agent_hidden = false;
}

abbrev is_state_field : Field → Bool
is_state_field f = equal_fold f.db_column "workflow_state" || equal_fold f.name "WorkflowState"

unfoldable pub with_state_field : CompiledDoc → CompiledDoc
with_state_field doc =
    if any is_state_field doc.fields
    then doc
    else record doc { fields = doc.fields ++ state_field ∷ [] }

module _ {S : Type 0} where
  abbrev add_definition : Workflows S → Definition → Result CompiledDoc → Result (Workflows S)
  add_definition e def (err x) = err x
  add_definition e def (ok compiled) = ok (record e {
    reg = insert def.doc_type (with_state_field compiled) e.reg;
    definitions = insert def.doc_type def e.definitions;
  })

  unfoldable pub register : Workflows S → Definition → Result (Workflows S)
  register e def = add_definition e def (get_doc e.reg def.doc_type)

-- DocTypes
unfoldable pub doc_types : {S : Type 0} → Workflows S → List String
doc_types e = sort_strings (keys e.definitions)

unfoldable pub leaves_from : Transition → String → Bool
leaves_from t current = equal_fold t.from current || t.from == "" || t.from == "*"

abbrev pub passes : Result (Unit {0}) → Bool
passes (ok _) = true
passes (err _) = false

-- the loop of AvailableTransitions
unfoldable pub available_loop : Context → String → List Transition → List Transition
available_loop ctx current [] = []
available_loop ctx current (t ∷ ts) =
    let rest = available_loop ctx current ts in
    if leaves_from t current && passes (check_roles ctx t.allowed_roles) then t ∷ rest else rest

-- the loop of Execute that resolves the transition
unfoldable pub find_transition : List Transition → String → String → Option Transition
find_transition [] current action = none
find_transition (t ∷ ts) current action =
    if leaves_from t current && equal_fold t.action action
    then some t
    else find_transition ts current action

module _ {S : Type 0} where
  unfoldable pub available_transitions : Workflows S → Context → String → String → List Transition
  available_transitions e ctx doc_type current = elim (lookup doc_type e.definitions) [
    | none ↦ []
    | some def ↦ available_loop ctx current def.transitions
  ]
