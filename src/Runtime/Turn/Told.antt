-- ===== src/Runtime/Turn/Told.antt =====
-- The transcripts that the turns of agent/runtime leave: a tool's message is the answer to a call.
use orjanda.Prelude.{
  ℕ, suc, String, Bool, true, false, ◌||◌, ◌==◌, List, [], ◌∷◌, ◌++◌, Option, none, some, Dict,
  lookup, member, if◌then◌else◌, ◌≡◌, refl, sym, ap, subst, ◌∙◌, inl, inr,
}
use mathlib.Core.List.{append_assoc, append-nil}
use orjanda.Prelude.Int.{ℤ}
use orjanda.Errors.{Result, Result-cases}
use orjanda.Value.{Value, Row, fields}
use orjanda.Auth.{Context}
use orjanda.Llm.{Message, ToolCall, Provider}
use orjanda.Planner.{PlanStep}
use orjanda.Runtime.{
  Session, Runtime, Gateway, Passage, stop, go, add_message, mark_seen, set_target_count,
  count_records, after_dispatch, pass_on, gate, agent_context, record_count, execute_tool,
}
use orjanda.Runtime.Plan.{
  said, calling, tool_answer, append_plan_step, plan_call, run_steps, checked_args, refused,
  resolved_or,
}
use orjanda.Runtime.References.{Results, resolve_refs}
use orjanda.Runtime.Turn.{Agent, run_calls, execute_tool_call, call_args}
use orjanda.Runtime.Turn.Kept.{IsKept}

-- The messages are the answers to the calls, in their order.
abbrev AreAnswers : List ToolCall → List Message → Type 0
AreAnswers [] [] = Unit
AreAnswers (call ∷ calls) (m ∷ msgs) =
    ((m.role ≡ "tool") × (m.tool_call_id ≡ call.id) × (m.name ≡ call.name)) × AreAnswers calls msgs
AreAnswers _ _ = ⊥

-- A transcript of messages without calls that are not a tool's, and of calls that their answers follow
-- at once.
pub data IsTold : List Message → Type 0 where
  silent : IsTold []
  by_message :
      (msgs : List Message) (role content : String)
      → (role == "tool") ≡ false
      → IsTold msgs
      → IsTold (msgs ++ said role content ∷ [])
  by_calls :
      (msgs : List Message) (calls : List ToolCall) (answers : List Message)
      → AreAnswers calls answers
      → IsTold msgs
      → IsTold (msgs ++ calling calls ∷ answers)

transcript-mark_seen :
    (sess : Session) (doc_type : String) → (mark_seen sess doc_type).transcript ≡ sess.transcript
unfolding mark_seen
transcript-mark_seen sess doc_type =
    elim (doc_type == "" || member doc_type sess.seen)
      as (λ b.
        (if b then sess else record sess { seen = doc_type ∷ sess.seen }).transcript
        ≡ sess.transcript) [ true ↦ refl | false ↦ refl ]

transcript-count_records :
    (sess : Session) (doc_type : String) (n : Option ℤ)
    → (count_records sess doc_type n).transcript ≡ sess.transcript
unfolding set_target_count
transcript-count_records sess doc_type none = refl
transcript-count_records sess doc_type (some n) =
    elim (doc_type == "")
      as (λ b.
        (if b then sess else set_target_count sess doc_type n).transcript ≡ sess.transcript) [
          | true ↦ refl
          | false ↦ refl
        ]

module _ {S : Type 0} where
  transcript-after_dispatch :
      (r : Runtime S) (sess : Session) (name : String) (args : Row) (x : Result Value × S)
      → (after_dispatch r sess name args x).0.1.transcript ≡ sess.transcript
  unfolding after_dispatch
  transcript-after_dispatch r sess name args (out, s) =
      transcript-count_records (mark_seen sess (r.seen_by name args)) (r.snake_doc_type_for name)
        (record_count out)
      ∙ transcript-mark_seen sess (r.seen_by name args)

  transcript-execute_tool :
      (r : Runtime S) (ctx : Context) (sess : Session) (name : String) (args : Row)
      (prompt : String) (approved : Bool) (approvals : Option Gateway) (s : S)
      → (execute_tool r ctx sess name args prompt approved approvals s).0.1.transcript
        ≡ sess.transcript
  unfolding execute_tool
  transcript-execute_tool r ctx sess name args prompt approved approvals s =
      passed (gate r ctx sess name args approved approvals)
    where
      passed : (w : Passage) → (pass_on r ctx sess name prompt w s).0.1.transcript ≡ sess.transcript
      passed (stop obs) = refl
      passed (go sent) =
          transcript-after_dispatch r sess name sent
            (r.dispatch (agent_context ctx sess prompt) name sent s)

-- a message and those after it, put behind a transcript one by one
spread :
    (after before : Session) (m : Message) (msgs : List Message)
    → after.transcript ≡ before.transcript
    → (add_message after m).transcript ++ msgs ≡ before.transcript ++ m ∷ msgs
unfolding add_message
spread after before m msgs kept =
    ap (λ (t : List Message). (t ++ m ∷ []) ++ msgs) kept
    ∙ append_assoc before.transcript (m ∷ []) msgs

-- the answers that a loop over calls adds to a transcript
abbrev Adds : List ToolCall → List Message → List Message → Type 0
Adds calls before after =
    (answers : List Message) × AreAnswers calls answers × (after ≡ before ++ answers)

module _ {S : Type 0} (a : Agent S) (ctx : Context) (prompt : String)
    (approvals : Option Gateway) where
  run_calls-answers :
      (calls : List ToolCall) (sess : Session) (s : S)
      → Adds calls sess.transcript (run_calls a ctx prompt approvals calls sess s).0.transcript
  unfolding run_calls
  run_calls-answers [] sess s = ([], tt, sym (append-nil sess.transcript))
  run_calls-answers (call ∷ calls) sess s =
      let ((obs, after), left) = execute_tool_call a ctx sess call prompt approvals s in
      let told = tool_answer call (a.host.text_of obs) in
      let (answers, fit, at) = run_calls-answers calls (add_message after told) left in
      let kept : after.transcript ≡ sess.transcript =
        (unfold execute_tool_call in
          transcript-execute_tool a.engine ctx sess call.name (call_args a call) prompt false
            approvals s) in
      (told ∷ answers, ((refl, refl, refl), fit), at ∙ spread after sess told answers kept)

  -- The calls of a response and their answers keep a transcript well told.
  run_calls-IsTold :
      (calls : List ToolCall) (sess : Session) (s : S)
      → IsTold sess.transcript
      → IsTold
          (run_calls a ctx prompt approvals calls (add_message sess (calling calls)) s).0.transcript
  run_calls-IsTold calls sess s told =
      let (answers, fit, at) = run_calls-answers calls (add_message sess (calling calls)) s in
      subst IsTold (sym (at ∙ spread sess sess (calling calls) answers refl))
        (by_calls sess.transcript calls answers fit told)

  append_plan_step-IsTold :
      (before after : Session) (call : ToolCall) (obs : String)
      → after.transcript ≡ before.transcript
      → IsTold before.transcript
      → IsTold (append_plan_step after call obs).transcript
  unfolding append_plan_step add_message
  append_plan_step-IsTold before after call obs kept told =
      subst IsTold
        (sym (spread after before (calling (call ∷ [])) (tool_answer call obs ∷ []) kept))
        (by_calls before.transcript (call ∷ []) (tool_answer call obs ∷ []) ((refl, refl, refl), tt)
          told)

  run_steps-IsTold :
      (schemas : Dict Row) (i : ℕ) (steps : List PlanStep) (results : Results) (sess : Session)
      (ran : ℕ) (s : S)
      → IsTold sess.transcript
      → IsTold
          (run_steps a.host a.engine ctx prompt schemas approvals i steps results
            (sess, ran)
            s).0.0.transcript
  unfolding run_steps
  run_steps-IsTold schemas i [] results sess ran s told = told
  run_steps-IsTold schemas i (step ∷ steps) results sess ran s told =
      elim (Result-cases (
        checked_args a.host (lookup step.operation schemas)
          (resolve_refs a.host results (fields step.args)))) [
            | inl (e, at) ↦
                let call = plan_call a.host i step.operation (
                  resolved_or (fields step.args)
                    (resolve_refs a.host results (fields step.args))) in
                rw (run_steps, at)
                  (run_steps-IsTold schemas (suc i) steps results
                    (append_plan_step sess call (refused a.host e)) ran s
                    (append_plan_step-IsTold sess sess call (refused a.host e) refl told))
            | inr (args, at) ↦
                let ((obs, after), left) =
                  execute_tool a.engine ctx sess step.operation args prompt true approvals s in
                let call = plan_call a.host i step.operation args in
                rw (run_steps, at)
                  (run_steps-IsTold schemas (suc i) steps ((i, obs) ∷ results)
                    (append_plan_step after call (a.host.text_of obs)) (suc ran) left
                    (append_plan_step-IsTold sess after call (a.host.text_of obs)
                      (transcript-execute_tool a.engine ctx sess step.operation args prompt true
                        approvals s)
                      told))
          ]

  pub turn-IsTold :
      (p : Provider S) → IsKept a p ctx prompt approvals (λ sess s. IsTold sess.transcript)
  unfolding add_message
  turn-IsTold p = record {
    by_message =
        λ sess s role content other told. by_message sess.transcript role content other told;
    by_request = λ sess s tools format told. told;
    by_count = λ sess s key usage told. told;
    by_calls = λ calls sess s told. run_calls-IsTold calls sess s told;
    by_plan =
        λ schemas plan sess s valid agreed told. run_steps-IsTold schemas 0 plan [] sess 0 s told;
  }
