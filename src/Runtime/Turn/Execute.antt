-- ===== src/Runtime/Turn/Execute.antt =====
-- The loop of Execute in agent/runtime/runtime.go, and the plan mode of agent/runtime/plan.go.
use orjanda.Prelude.{ℕ, zero, suc, String, ◌==◌, List, [], Option, none, some, Dict, if◌then◌else◌}
use Prim.Native.String.{◌++◌ as ◌++ˢ◌}
use orjanda.Errors.{Result, ok, err, coded, validation}
use orjanda.Value.{Row}
use orjanda.Auth.{Context}
use orjanda.Llm.{ChatResponse, Provider}
use orjanda.Tools.{ToolDefinition}
use orjanda.Planner.{format, PlanStep, validate}
use orjanda.Runtime.{Session, Gateway, add_message}
use orjanda.Runtime.Plan.{Response, said, calling, plan_failure, run_validated_plan}
use orjanda.Runtime.Turn.{
  Agent, answer, exceeded, escalate, act, stage_of, chat, deterministic_summary, schemas_for,
  tools_for_turn, run_calls,
}

-- executeConfig: the provider that a call brings, and whether it is an approval gateway too, and the
-- gateway that it brings
pub record ExecuteConfig (S : Type 0) : Type 0 where
  pub provider : Option (Provider S × Option Gateway)
  pub approvals : Option Gateway

unfoldable pub provider_of :
    {S : Type 0} → Provider S → Option (Provider S × Option Gateway) → Provider S
provider_of default none = default
provider_of default (some (p, gateway)) = p

abbrev brought_gateway :
    {S : Type 0} → Option Gateway → Option (Provider S × Option Gateway) → Option Gateway
brought_gateway default (some (p, some gateway)) = some gateway
brought_gateway default _ = default

unfoldable pub approvals_of : {S : Type 0} → Option Gateway → ExecuteConfig S → Option Gateway
approvals_of default cfg = elim cfg.approvals [
  | some gateway ↦ some gateway
  | none ↦ brought_gateway default cfg.provider
]

abbrev not_parseable : String → String
not_parseable text = "The model could not produce a parseable plan. " ++ˢ text

abbrev not_valid : String → String
not_valid text =
    "The model could not produce a valid plan. No operations were performed. Validation: " ++ˢ text

abbrev pub correction : String → String
correction text =
    "Your previous plan was rejected before any step executed: "
    ++ˢ (text ++ˢ " Produce a corrected plan that satisfies all constraints.")

module _ {S : Type 0} (a : Agent S) (p : Provider S) where
  abbrev pub decoded :
      Session → ChatResponse → S → Result (List PlanStep) → (Result (List PlanStep) × Session) × S
  decoded sess resp s (err e) = ((err e, sess), s)
  decoded sess resp s (ok plan) = ((ok plan, add_message sess (said "assistant" resp.content)), s)

  abbrev pub unmarshal_plan :
      Session → Result ChatResponse × S → (Result (List PlanStep) × Session) × S
  unmarshal_plan sess (err e, s) = ((err e, sess), s)
  unmarshal_plan sess (ok resp, s) = decoded sess resp s (a.decode_plan resp.content)

  -- requestPlanWith
  unfoldable pub request_plan_with :
      List ToolDefinition → String → Session → S → (Result (List PlanStep) × Session) × S
  request_plan_with tools extra sess s =
      let asked = if extra == "" then sess else add_message sess (said "user" extra) in
      unmarshal_plan asked (chat a p asked tools (some format) s)

  -- requestPlan
  unfoldable pub request_plan :
      List ToolDefinition → Session → S → (Result (List PlanStep) × Session) × S
  request_plan tools sess s = request_plan_with tools "" sess s

  abbrev pub summary_or : Session → Result ChatResponse × S → String × S
  summary_or sess (err e, s) = (deterministic_summary sess, s)
  summary_or sess (ok resp, s) = (resp.content, s)

  unfoldable pub synthesize_summary : Session → S → String × S
  synthesize_summary sess s = summary_or sess (chat a p sess [] none s)

  module _ (ctx : Context) (prompt : String) (approvals : Option Gateway) where
    unfoldable pub run_plan : Dict Row → List PlanStep → Session → S → (Response × Session) × S
    run_plan schemas plan sess s =
        run_validated_plan a.host a.engine ctx synthesize_summary sess prompt schemas plan approvals
          s

    -- the plan that follows a correction
    abbrev pub second_checked :
        Dict Row → List PlanStep → Session → S → Result (Unit {0}) → (Response × Session) × S
    second_checked schemas plan sess s (err e) =
        (plan_failure sess (not_valid (a.host.error_text e)), s)
    second_checked schemas plan sess s (ok done) = run_plan schemas plan sess s

    abbrev pub second_plan :
        Dict Row → (Result (List PlanStep) × Session) × S → (Response × Session) × S
    second_plan schemas ((err e, sess), s) =
        (plan_failure sess (not_parseable (a.host.error_text e)), s)
    second_plan schemas ((ok plan, sess), s) =
        second_checked schemas plan sess s (validate a.host.show plan schemas)

    abbrev pub first_checked :
        List ToolDefinition
        → Dict Row
        → List PlanStep
        → Session
        → S
        → Result (Unit {0})
        → (Response × Session) × S
    first_checked tools schemas plan sess s (err e) =
        second_plan schemas (request_plan_with tools (correction (a.host.error_text e)) sess s)
    first_checked tools schemas plan sess s (ok done) = run_plan schemas plan sess s

    abbrev pub first_plan :
        List ToolDefinition
        → Dict Row
        → (Result (List PlanStep) × Session) × S
        → (Response × Session) × S
    first_plan tools schemas ((err e, sess), s) =
        (plan_failure sess (not_parseable (a.host.error_text e)), s)
    first_plan tools schemas ((ok plan, sess), s) =
        first_checked tools schemas plan sess s (validate a.host.show plan schemas)

    unfoldable pub execute_plan_mode :
        List ToolDefinition → Dict Row → Session → S → (Response × Session) × S
    execute_plan_mode tools schemas sess s = first_plan tools schemas (request_plan tools sess s)

    abbrev pub Ended : Type 0
    Ended = (Result Response × Session) × S

    abbrev pub as_ended : (Response × Session) × S → Ended
    as_ended ((resp, sess), s) = ((ok resp, sess), s)

    abbrev pub final_answer : String → ℕ → Session → S → Ended
    final_answer content steps sess s = (
      (
        ok (record { content = content; session_id = sess.id; tool_calls = steps }),
        add_message sess (said "assistant" content),
      ),
      s,
    )

    abbrev pub on_chat :
        (ChatResponse → S → Option Ended) → Session → Result ChatResponse × S → Option Ended
    on_chat next sess (err e, s) = some ((err e, sess), s)
    on_chat next sess (ok resp, s) = next resp s

    abbrev pub chat_again : Session → S → Result ChatResponse × S
    chat_again sess s = chat a p sess (tools_for_turn a ctx sess) none s

    -- the loop of Execute on a response, after a number of steps; `none` where the fuel is spent
    unfoldable pub turn_loop : ℕ → ℕ → Session → ChatResponse → S → Option Ended
    turn_loop zero steps sess resp s = none
    turn_loop (suc fuel) steps sess resp s =
        elim (stage_of a.host a.max_steps resp.tool_calls steps) [
          | answer ↦ some (final_answer resp.content steps sess s)
          | exceeded ↦ some ((err (coded validation), sess), s)
          | escalate ↦
              let tools = tools_for_turn a ctx sess in
              some (as_ended (execute_plan_mode tools (schemas_for tools) sess s))
          | act ↦
              let (ran, left) =
                run_calls a ctx prompt approvals resp.tool_calls
                  (add_message sess (calling resp.tool_calls)) s in
              on_chat (turn_loop fuel (suc steps) ran) ran (chat_again ran left)
        ]

    -- Execute, from the first call of the model on
    unfoldable pub turn : ℕ → Session → S → Option Ended
    turn fuel sess s = on_chat (turn_loop fuel 0 sess) sess (chat_again sess s)
