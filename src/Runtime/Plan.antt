-- ===== src/Runtime/Plan.antt =====
-- agent/runtime/plan.go: the approval and the execution of a validated plan.
use orjanda.Prelude.{
  ℕ, suc, String, Bool, true, false, not, ◌&&◌, ◌||◌, List, [], ◌∷◌, Option, none, some, Dict,
  lookup, length, if◌then◌else◌, ltb,
}
use Prim.Native.String.{◌++◌ as ◌++ˢ◌}
use orjanda.Prelude.Int.{pos}
use orjanda.Errors.{Result, Error, ok, err, ◌>>=◌}
use orjanda.Llm.{Message, ToolCall}
use orjanda.Value.{Items, Row, text, int, opaque, array, object, nil, cons, end, field, fields}
use orjanda.Auth.{Context, from_context}
use orjanda.Safety.{
  Reason, no_reason, always_reason, bulk_reason, role_reason, require_reason, Approval, verb_for,
  requires_approval_with_reason,
}
use orjanda.Planner.{PlanStep, validate_projected}
use orjanda.Runtime.{
  Session, ApprovalPayload, ApprovalResponse, Gateway, Runtime, execute_tool, add_message,
}
use orjanda.Runtime.References.{Host, Results, fields_of, resolve_refs}

-- The answer to a user's message
pub record Response : Type 0 where
  pub content : String
  pub session_id : String
  pub tool_calls : ℕ

abbrev pub said : String → String → Message
said role content = record {
  role = role;
  content = content;
  name = "";
  tool_call_id = "";
  tool_calls = [];
}

abbrev pub calling : List ToolCall → Message
calling calls = record (said "assistant" "") { tool_calls = calls }

abbrev pub tool_answer : ToolCall → String → Message
tool_answer call content = record (said "tool" content) { name = call.name; tool_call_id = call.id }

-- planFailure
unfoldable pub plan_failure : Session → String → Response × Session
plan_failure sess msg = (
  record { content = msg; session_id = sess.id; tool_calls = 0 },
  add_message sess (said "assistant" msg),
)

abbrev pub plan_call : Host → ℕ → String → Row → ToolCall
plan_call host i tool_name args = record {
  id = host.call_id i;
  name = tool_name;
  arguments = host.marshal_args args;
}

-- appendPlanStep
unfoldable pub append_plan_step : Session → ToolCall → String → Session
append_plan_step sess call obs =
    add_message (add_message sess (calling (call ∷ []))) (tool_answer call obs)

abbrev pub refused : Host → Error → String
refused host e = "error: " ++ˢ host.error_text e

abbrev pub resolved_or : Row → Result Row → Row
resolved_or args (err e) = args
resolved_or args (ok resolved) = resolved

abbrev conclude : (Session × ℕ) → String → Response × Session
conclude (sess, ran) final = (
  record { content = final; session_id = sess.id; tool_calls = ran },
  add_message sess (said "assistant" final),
)

-- the order of `stricter`
unfoldable pub rank : Reason → ℕ
rank always_reason = 3
rank bulk_reason = 2
rank role_reason = 1
rank require_reason = 0
rank no_reason = 0

abbrev is_none : Reason → Bool
is_none no_reason = true
is_none _ = false

unfoldable pub stricter : Reason → Reason → Bool
stricter candidate current = is_none current || ltb (rank current) (rank candidate)

abbrev summary_of_steps : List PlanStep → Items
summary_of_steps [] = nil
summary_of_steps (s ∷ steps) =
    cons (object (field "operation" (text s.operation) (field "depends_on" (opaque 0) end)))
      (summary_of_steps steps)

unfoldable pub plan_summary : List PlanStep → Row
plan_summary steps =
    ("step_count", int (pos (length steps))) ∷ ("steps", array (summary_of_steps steps)) ∷ []

abbrev pub plan_payload : List PlanStep → Reason → ApprovalPayload
plan_payload steps strict = record {
  doc_type = "";
  action = "plan";
  payload = plan_summary steps;
  policy_reason = strict;
}

abbrev pub says_yes : Result ApprovalResponse → Bool
says_yes (err e) = false
says_yes (ok resp) = resp.approved

abbrev pub ask_for_plan : List PlanStep → Option Gateway → Bool × Reason → Bool × Bool
ask_for_plan steps approvals (false, strict) = (true, false)
ask_for_plan steps none (true, strict) = (false, true)
ask_for_plan steps (some ask) (true, strict) = (says_yes (ask (plan_payload steps strict)), true)

abbrev pub checked_args : Host → Option Row → Result Row → Result Row
checked_args host sch resolved =
    resolved >>= λ args. (validate_projected host.show (fields_of args) sch >>= λ valid. ok args)

module _ {S : Type 0} where
  unfoldable pub step_verdict : Runtime S → Context → PlanStep → Approval
  step_verdict r ctx s = requires_approval_with_reason r.safety (from_context ctx) (record {
    verb = verb_for s.operation (fields s.args);
    tool_name = s.operation;
    args = fields s.args;
    target_count = pos 0;
  })

  -- the loop of planApproval: whether a step needs approval, and the strictest reason
  unfoldable pub scan_steps : Runtime S → Context → List PlanStep → Bool → Reason → Bool × Reason
  scan_steps r ctx [] found strict = (found, strict)
  scan_steps r ctx (s ∷ steps) found strict =
      let a = step_verdict r ctx s in
      let skipped = scan_steps r ctx steps found strict in
      let kept =
        scan_steps r ctx steps true (if stricter a.reason strict then a.reason else strict) in
      if a.required then kept else skipped

  -- planApproval: whether the plan is approved, and whether it needed to be
  unfoldable pub plan_approval : Runtime S → Context → List PlanStep → Option Gateway → Bool × Bool
  plan_approval r ctx steps approvals =
      ask_for_plan steps approvals (scan_steps r ctx steps false no_reason)

  -- the loop of runValidatedPlan from an index on: the session, the number of steps that ran, and the state
  unfoldable pub run_steps :
      Host
      → Runtime S
      → Context
      → String
      → Dict Row
      → Option Gateway
      → ℕ
      → List PlanStep
      → Results
      → Session × ℕ
      → S
      → (Session × ℕ) × S
  run_steps host r ctx prompt schemas approvals i [] results (sess, ran) s = ((sess, ran), s)
  run_steps host r ctx prompt schemas approvals i (step ∷ steps) results (sess, ran) s =
      elim (checked_args host (lookup step.operation schemas)
        (resolve_refs host results (fields step.args))) [
          | err e ↦
              let call =
                plan_call host i step.operation
                  (resolved_or (fields step.args) (resolve_refs host results (fields step.args))) in
              run_steps host r ctx prompt schemas approvals (suc i) steps results
                (append_plan_step sess call (refused host e), ran) s
          | ok args ↦
              let ((obs, after), left) =
                execute_tool r ctx sess step.operation args prompt true approvals s in
              run_steps host r ctx prompt schemas approvals (suc i) steps ((i, obs) ∷ results)
                (
                  append_plan_step after (plan_call host i step.operation args) (host.text_of obs),
                  suc ran,
                )
                left
        ]

  abbrev pub summarized : (Session → S → String × S) → (Session × ℕ) × S → (Response × Session) × S
  summarized summarize ((sess, ran), s) =
      let (final, left) = summarize sess s in (conclude (sess, ran) final, left)

  -- runValidatedPlan; `summarize` is synthesizeSummary
  unfoldable pub run_validated_plan :
      Host
      → Runtime S
      → Context
      → (Session → S → String × S)
      → Session
      → String
      → Dict Row
      → List PlanStep
      → Option Gateway
      → S
      → (Response × Session) × S
  run_validated_plan host r ctx summarize sess prompt schemas steps approvals s =
      let (approved, needed) = plan_approval r ctx steps approvals in
      if needed && not approved
      then (plan_failure sess "The plan was not approved; no steps were executed.", s)
      else summarized summarize
          (run_steps host r ctx prompt schemas approvals 0 steps [] (sess, 0) s)
