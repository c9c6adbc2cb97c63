-- ===== src/Runtime/Tests.antt =====
-- agent/runtime: tool calls that record a number in the state, under a policy that asks for creations.
use orjanda.Prelude.{
  String, true, false, List, [], ◌∷◌, none, some, Dict, lookup, equal_fold, fold_code, to_lower,
  has_prefix, before, is_digit, All, ◌≡◌, ◌⊎◌, refl,
}
use orjanda.Prelude.Int.{pos}
use orjanda.Errors.{ok}
use orjanda.Value.{Row, text, null, field, end}
use orjanda.Auth.{no_identity, Context, background, new_context, from_context}
use orjanda.Audit.{with_agent}
use orjanda.Safety.{
  Policy, with_defaults, new_layer, contains, verb_for, largest_array, bulk_count, role_overrides,
  verb_of, count_of, requires_approval_with_reason, is_tool_allowed,
}
use orjanda.Planner.{
  PlanStep, is_empty_value, has_type, required_pass, enum_passes, type_passes, properties_pass,
  validate_args, validate_projected,
}
use orjanda.Runtime.{
  Session, Gateway, Runtime, denied, set_target_count, target_count_of, mark_seen, verb_of_call,
  gate_approval, call_info, gate, agent_context, after_dispatch, execute_tool, add_message,
}
use orjanda.Runtime.Gate.{MayGo, execute_tool-MayGo}
use orjanda.Runtime.Plan.{
  rank, stricter, plan_summary, step_verdict, scan_steps, plan_approval, run_steps,
  run_validated_plan, plan_failure, append_plan_step,
}
use orjanda.Runtime.References.{
  Host, read_digits, parse_int, split_dot, resolve_value, resolve_loop, resolve_refs,
}
use orjanda.Runtime.Consent.{IsPlanConfirmed, unapproved, run_validated_plan-IsPlanConfirmed}

engine : Unit {0}
unfolding lookup equal_fold fold_code to_lower has_prefix before is_digit new_context from_context
    with_agent with_defaults new_layer contains verb_for largest_array bulk_count role_overrides
    verb_of count_of requires_approval_with_reason is_tool_allowed is_empty_value has_type
    required_pass enum_passes type_passes properties_pass validate_args validate_projected
    set_target_count target_count_of mark_seen verb_of_call gate_approval call_info gate
    agent_context after_dispatch execute_tool read_digits parse_int split_dot resolve_value
    resolve_loop resolve_refs rank stricter plan_summary step_verdict scan_steps plan_approval
    run_steps run_validated_plan add_message plan_failure append_plan_step
engine = tt

abbrev policy : Policy
policy = record {
  auto_approve = "read" ∷ [];
  require_approval = "create" ∷ [];
  always_require_approval = [];
  max_bulk_operations = pos 0;
  require_approval_for_roles = [];
  rate_limit = record { operations_per_minute = pos 0; scope = "" };
  token_budget_per_session = pos 0;
  tool_allowlist = [];
}

abbrev runtime : Runtime (List Row)
runtime = record {
  safety = new_layer policy;
  doc_type_for = λ name. "Note";
  snake_doc_type_for = λ name. "note";
  seen_by = λ name args. "note";
  dispatch = λ ctx name args calls. (ok null, args ∷ calls);
}

abbrev session : Session
session = record {
  id = "s1";
  user_id = "ann";
  seen = [];
  target_count = pos 0;
  target_doc = "";
  transcript = [];
}

abbrev ann : Context
ann = new_context background (record no_identity { user_id = "ann" })

abbrev refuse : Gateway
refuse payload = ok (record { approved = false; payload = none })

abbrev amend : Gateway
amend payload = ok (record { approved = true; payload = some (("title", text "B") ∷ []) })

abbrev note : Row
note = ("title", text "A") ∷ []

refused :
    execute_tool runtime ann session "create_note" note "p" false (some refuse) []
    ≡ ((denied, session), [])
unfolding engine
refused = refl

amended :
    (execute_tool runtime ann session "create_note" note "p" false (some amend) []).1
    ≡ ((("title", text "B") ∷ []) ∷ [])
unfolding engine
amended = refl

abbrev host : Host
host = record {
  show = λ v. "?";
  extract = λ obs name. ok (text name);
  text_of = λ obs. "done";
  error_text = λ e. "no";
  marshal_args = λ args. "{}";
  call_id = λ i. "call";
}

abbrev summarize : Session → List Row → String × List Row
summarize sess calls = ("all done", calls)

abbrev step : String → PlanStep
step title = record {
  operation = "create_note";
  args = field "title" (text title) end;
  depends_on = [];
}

abbrev schemas : Dict Row
schemas = ("create_note", []) ∷ []

-- The second step takes the title from the result of the first.
resolved :
    (run_validated_plan host runtime ann summarize session "p" schemas
      (step "A" ∷ step "ref:0.name" ∷ [])
      (some amend)
      []).1
    ≡ ((("title", text "name") ∷ []) ∷ note ∷ [])
unfolding engine
resolved = refl

-- A reference is left as it is while there is no result.
unresolved :
    (run_validated_plan host runtime ann summarize session "p" schemas
      (step "ref:0.name" ∷ [])
      (some amend)
      []).1
    ≡ ((("title", text "ref:0.name") ∷ []) ∷ [])
unfolding engine
unresolved = refl

execute_tool-MayGo_example :
    ((execute_tool runtime ann session "create_note" note "p" false (some amend) []).1 ≡ [])
    ⊎ ((passed : Row) × MayGo runtime ann session "create_note" note false (some amend) passed
        × ((execute_tool runtime ann session "create_note" note "p" false (some amend) []).1
            ≡ (runtime.dispatch (agent_context ann session "p") "create_note" passed []).1)
        × ((agent_context ann session "p").via_agent ≡ true))
execute_tool-MayGo_example =
    execute_tool-MayGo runtime ann session "create_note" note "p" false (some amend) []

run_validated_plan-IsPlanConfirmed_example :
    (run_validated_plan host runtime ann summarize session "p" schemas
        (step "A" ∷ [])
        (some refuse)
        []
      ≡ (plan_failure session unapproved, []))
    ⊎ (All (λ (t : PlanStep). (step_verdict runtime ann t).required ≡ false) (step "A" ∷ [])
        ⊎ IsPlanConfirmed runtime ann (step "A" ∷ []) (some refuse))
run_validated_plan-IsPlanConfirmed_example =
    run_validated_plan-IsPlanConfirmed runtime ann host summarize session "p" schemas
      (step "A" ∷ []) (some refuse) []
