-- ===== src/Runtime/Turn/Moves.antt =====
-- What a turn of agent/runtime does to the state: requests to the model, tool calls that pass the gate,
-- and the steps of valid plans that were agreed to.
use orjanda.Prelude.{
  ℕ, suc, String, true, false, List, [], ◌∷◌, Option, Dict, lookup, Memᴰ, ◌≡◌, refl, inl, inr,
}
use orjanda.Errors.{Result-cases, ok}
use orjanda.Value.{Row, fields}
use orjanda.Auth.{Context}
use orjanda.Llm.{ToolCall, ChatRequest, TokenUsage, Provider}
use orjanda.Planner.{PlanStep, validate}
use orjanda.Runtime.{Session, Gateway, add_message, execute_tool}
use orjanda.Runtime.Plan.{
  calling, tool_answer, append_plan_step, plan_call, run_steps, checked_args, refused, resolved_or,
}
use orjanda.Runtime.References.{Results, resolve_refs}
use orjanda.Runtime.Turn.{Agent, request, run_calls, execute_tool_call, call_args}
use orjanda.Runtime.Turn.Kept.{IsKept, IsAgreed}

module _ {S : Type 0} (a : Agent S) (p : Provider S) (ctx : Context) (prompt : String)
    (approvals : Option Gateway) where
  -- A step of a valid plan that was agreed to, with the arguments that its references resolve to.
  pub record IsPlanned (step : PlanStep) (args : Row) : Type 0 where
    pub schemas : Dict Row
    pub plan : List PlanStep
    pub results : Results
    pub is_valid : validate a.host.show plan schemas ≡ ok tt
    pub is_agreed : IsAgreed a p ctx prompt approvals plan
    pub of_plan : Memᴰ step plan
    pub is_checked :
        checked_args a.host
          (lookup step.operation schemas)
          (resolve_refs a.host results (fields step.args))
        ≡ ok args

  pub data Moves : S → S → Type 0 where
    rests : (s : S) → Moves s s
    asks : (s t : S) (req : ChatRequest) → Moves s t → Moves s (p.chat_completion req t).1
    counts :
        (s t : S) (key : String) (usage : TokenUsage)
        → Moves s t
        → Moves s (a.track_usage key usage t)
    calls :
        (s t : S) (sess : Session) (name : String) (args : Row)
        → Moves s t
        → Moves s (execute_tool a.engine ctx sess name args prompt false approvals t).1
    plans :
        (s t : S) (sess : Session) (step : PlanStep) (args : Row)
        → IsPlanned step args
        → Moves s t
        → Moves s (execute_tool a.engine ctx sess step.operation args prompt true approvals t).1

  run_calls-Moves :
      (from : S) (requested : List ToolCall) (sess : Session) (s : S)
      → Moves from s
      → Moves from (run_calls a ctx prompt approvals requested sess s).1
  unfolding run_calls execute_tool_call
  run_calls-Moves from [] sess s moved = moved
  run_calls-Moves from (call ∷ rest) sess s moved =
      let ((obs, after), left) = execute_tool_call a ctx sess call prompt approvals s in
      run_calls-Moves from rest (add_message after (tool_answer call (a.host.text_of obs))) left
        (calls from s sess call.name (call_args a call) moved)

  run_steps-Moves :
      (from : S) (schemas : Dict Row) (plan : List PlanStep)
      → validate a.host.show plan schemas ≡ ok tt
      → IsAgreed a p ctx prompt approvals plan
      → (i : ℕ) (steps : List PlanStep) (results : Results) (sess : Session) (ran : ℕ) (s : S)
      → ((t : PlanStep) → Memᴰ t steps → Memᴰ t plan)
      → Moves from s
      → Moves from
          (run_steps a.host a.engine ctx prompt schemas approvals i steps results (sess, ran) s).1
  unfolding run_steps
  run_steps-Moves from schemas plan valid agreed i [] results sess ran s within moved = moved
  run_steps-Moves from schemas plan valid agreed i (step ∷ steps) results sess ran s within moved =
      let later = λ (t : PlanStep) (m : Memᴰ t steps). within t (Memᴰ.tail m) in
      elim (Result-cases (
        checked_args a.host (lookup step.operation schemas)
          (resolve_refs a.host results (fields step.args)))) [
            | inl (e, at) ↦
                let call = plan_call a.host i step.operation (
                  resolved_or (fields step.args)
                    (resolve_refs a.host results (fields step.args))) in
                rw (run_steps, at)
                  (run_steps-Moves from schemas plan valid agreed (suc i) steps results
                    (append_plan_step sess call (refused a.host e)) ran s later moved)
            | inr (args, at) ↦
                let ((obs, after), left) =
                  execute_tool a.engine ctx sess step.operation args prompt true approvals s in
                let call = plan_call a.host i step.operation args in
                let planned : IsPlanned step args = record {
                  schemas = schemas;
                  plan = plan;
                  results = results;
                  is_valid = valid;
                  is_agreed = agreed;
                  of_plan = within step (Memᴰ.head refl);
                  is_checked = at;
                } in
                rw (run_steps, at)
                  (run_steps-Moves from schemas plan valid agreed (suc i) steps ((i, obs) ∷ results)
                    (append_plan_step after call (a.host.text_of obs)) (suc ran) left later
                    (plans from s sess step args planned moved))
          ]

  pub turn-Moves : (from : S) → IsKept a p ctx prompt approvals (λ sess s. Moves from s)
  turn-Moves from = record {
    by_message = λ sess s role content other moved. moved;
    by_request = λ sess s tools format moved. asks from s (request a sess tools format) moved;
    by_count = λ sess s key usage moved. counts from s key usage moved;
    by_calls = λ requested sess s moved.
        run_calls-Moves from requested (add_message sess (calling requested)) s moved;
    by_plan = λ schemas plan sess s valid agreed moved.
        run_steps-Moves from schemas plan valid agreed 0 plan [] sess 0 s (λ t m. m) moved;
  }
