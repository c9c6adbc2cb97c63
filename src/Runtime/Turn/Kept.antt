-- ===== src/Runtime/Turn/Kept.antt =====
-- What each part of a turn keeps, the whole turn keeps, of runtime.go and plan.go in agent/runtime.
use orjanda.Prelude.{
  ℕ, String, true, false, not, ◌&&◌, ◌==◌, List, [], Option, none, some, Dict, All, if◌then◌else◌,
  ◌≡◌, refl, sym, subst, ◌⊎◌, inl, inr,
}
use orjanda.Prelude.Int.{pos}
use orjanda.Errors.{Result, Result-cases, ok, err}
use orjanda.Value.{Row}
use orjanda.Auth.{Context}
use orjanda.Llm.{ChatResponse, ToolCall, TokenUsage, Provider, Answer, answered, failed}
use orjanda.Tools.{ToolDefinition}
use orjanda.Safety.{check_token_budget}
use orjanda.Planner.{format, PlanStep, validate}
use orjanda.Runtime.{Session, Gateway, add_message}
use orjanda.Runtime.Plan.{
  said, calling, plan_failure, summarized, step_verdict, plan_approval, run_steps,
  run_validated_plan,
}
use orjanda.Runtime.Consent.{IsPlanConfirmed, run_validated_plan-IsPlanConfirmed, unapproved}
use orjanda.Runtime.Turn.{
  Agent, chat, request, tracked, within_budget, metered, build_messages, estimate_tokens, run_calls,
}
use orjanda.Runtime.Turn.Execute.{
  decoded, unmarshal_plan, request_plan_with, request_plan, summary_or, synthesize_summary,
  run_plan, second_plan, first_plan, execute_plan_mode, correction,
}

module _ {S : Type 0} (a : Agent S) (p : Provider S) (ctx : Context) (prompt : String)
    (approvals : Option Gateway) where
  -- No step of the plan needs approval, or a human confirmed it.
  abbrev pub IsAgreed : List PlanStep → Type 0
  IsAgreed plan =
      All (λ (t : PlanStep). (step_verdict a.engine ctx t).required ≡ false) plan
      ⊎ IsPlanConfirmed a.engine ctx plan approvals

  -- What holds of the session and the state still holds after a message, a request, a count of tokens,
  -- the calls of a response and the steps of an agreed and valid plan.
  pub record IsKept (P : Session → S → Type 0) : Type 0 where
    pub by_message :
        (sess : Session) (s : S) (role content : String)
        → (role == "tool") ≡ false
        → P sess s
        → P (add_message sess (said role content)) s
    pub by_request :
        (sess : Session) (s : S) (tools : List ToolDefinition) (format : Option (String × Row))
        → P sess s
        → P sess (p.chat_completion (request a sess tools format) s).1
    pub by_count :
        (sess : Session) (s : S) (key : String) (usage : TokenUsage)
        → P sess s
        → P sess (a.track_usage key usage s)
    pub by_calls :
        (calls : List ToolCall) (sess : Session) (s : S)
        → P sess s
        → P
            (run_calls a ctx prompt approvals calls (add_message sess (calling calls)) s).0
            (run_calls a ctx prompt approvals calls (add_message sess (calling calls)) s).1
    pub by_plan :
        (schemas : Dict Row) (plan : List PlanStep) (sess : Session) (s : S)
        → validate a.host.show plan schemas ≡ ok tt
        → IsAgreed plan
        → P sess s
        → P
            (run_steps a.host a.engine ctx prompt schemas approvals 0 plan [] (sess, 0) s).0.0
            (run_steps a.host a.engine ctx prompt schemas approvals 0 plan [] (sess, 0) s).1

module _ {S : Type 0} (a : Agent S) (p : Provider S) (ctx : Context) (prompt : String)
    (approvals : Option Gateway) (P : Session → S → Type 0)
    (kept : IsKept a p ctx prompt approvals P) where
  tracked-keeps : (sess : Session) (x : Answer × S) → P sess x.1 → P sess (tracked a sess x).1
  tracked-keeps sess (failed e, s) h = h
  tracked-keeps sess (answered resp, s) h = kept.by_count sess s sess.id resp.usage h

  within_budget-keeps :
      (sess : Session) (verdict : Result (Unit {0})) (next : S → Result ChatResponse × S) (s : S)
      → P sess s
      → P sess (next s).1
      → P sess (within_budget verdict next s).1
  within_budget-keeps sess (err e) next s h g = h
  within_budget-keeps sess (ok done) next s h g = g

  pub chat-keeps :
      (sess : Session) (tools : List ToolDefinition) (format : Option (String × Row)) (s : S)
      → P sess s
      → P sess (chat a p sess tools format s).1
  unfolding chat
  chat-keeps sess tools format s h =
      within_budget-keeps sess
        (check_token_budget (metered a s) sess.id (pos (estimate_tokens (build_messages a sess))))
        (λ (t : S). tracked a sess (p.chat_completion (request a sess tools format) t)) s h
        (tracked-keeps sess (p.chat_completion (request a sess tools format) s)
          (kept.by_request sess s tools format h))

  abbrev pub Holds : {R : Type 0} → (R × Session) × S → Type 0
  Holds ((out, sess), s) = P sess s

  pub message-keeps :
      (sess : Session) (s : S) (content : String)
      → P sess s
      → P (add_message sess (said "assistant" content)) s
  message-keeps sess s content h = kept.by_message sess s "assistant" content refl h

  plan_failure-keeps :
      (sess : Session) (s : S) (msg : String) → P sess s → Holds (plan_failure sess msg, s)
  unfolding plan_failure
  plan_failure-keeps sess s msg h = message-keeps sess s msg h

  decoded-keeps :
      (sess : Session) (resp : ChatResponse) (s : S) (plan : Result (List PlanStep))
      → P sess s
      → Holds (decoded a p sess resp s plan)
  decoded-keeps sess resp s (err e) h = h
  decoded-keeps sess resp s (ok plan) h = message-keeps sess s resp.content h

  unmarshal_plan-keeps :
      (sess : Session) (x : Result ChatResponse × S)
      → P sess x.1
      → Holds (unmarshal_plan a p sess x)
  unmarshal_plan-keeps sess (err e, s) h = h
  unmarshal_plan-keeps sess (ok resp, s) h =
      decoded-keeps sess resp s (a.decode_plan resp.content) h

  request_plan_with-keeps :
      (tools : List ToolDefinition) (extra : String) (sess : Session) (s : S)
      → P sess s
      → Holds (request_plan_with a p tools extra sess s)
  unfolding request_plan_with
  request_plan_with-keeps tools extra sess s h =
      let asked = if extra == "" then sess else add_message sess (said "user" extra) in
      let heard : P asked s =
        elim (extra == "")
          as (λ b. P (if b then sess else add_message sess (said "user" extra)) s) [
            | true ↦ h
            | false ↦ kept.by_message sess s "user" extra refl h
          ] in
      unmarshal_plan-keeps asked (chat a p asked tools (some format) s)
        (chat-keeps asked tools (some format) s heard)

  summary_or-keeps :
      (sess : Session) (x : Result ChatResponse × S) → P sess x.1 → P sess (summary_or a p sess x).1
  summary_or-keeps sess (err e, s) h = h
  summary_or-keeps sess (ok resp, s) h = h

  synthesize_summary-keeps :
      (sess : Session) (s : S) → P sess s → P sess (synthesize_summary a p sess s).1
  unfolding synthesize_summary
  synthesize_summary-keeps sess s h =
      summary_or-keeps sess (chat a p sess [] none s) (chat-keeps sess [] none s h)

  summarized-keeps :
      (x : (Session × ℕ) × S) → P x.0.0 x.1 → Holds (summarized (synthesize_summary a p) x)
  summarized-keeps ((sess, ran), s) h =
      message-keeps sess (synthesize_summary a p sess s).1 (synthesize_summary a p sess s).0
        (synthesize_summary-keeps sess s h)

  run_plan-keeps :
      (schemas : Dict Row) (plan : List PlanStep) (sess : Session) (s : S)
      → validate a.host.show plan schemas ≡ ok tt
      → P sess s
      → Holds (run_plan a p ctx prompt approvals schemas plan sess s)
  unfolding run_plan run_validated_plan
  run_plan-keeps schemas plan sess s valid h =
      elim (run_validated_plan-IsPlanConfirmed a.engine ctx a.host (synthesize_summary a p) sess
        prompt schemas plan approvals s) [
          | inl stopped ↦ subst Holds (sym stopped) (plan_failure-keeps sess s unapproved h)
          | inr agreed ↦
              let (approved, needed) = plan_approval a.engine ctx plan approvals in
              let ran =
                run_steps a.host a.engine ctx prompt schemas approvals 0 plan [] (sess, 0) s in
              elim (needed && not approved)
                as (λ b. Holds (
                  if b
                  then (plan_failure sess unapproved, s)
                  else summarized (synthesize_summary a p) ran)) [
                    | true ↦ plan_failure-keeps sess s unapproved h
                    | false ↦ summarized-keeps ran (kept.by_plan schemas plan sess s valid agreed h)
                  ]
        ]

  second_plan-keeps :
      (schemas : Dict Row) (x : (Result (List PlanStep) × Session) × S)
      → Holds x
      → Holds (second_plan a p ctx prompt approvals schemas x)
  second_plan-keeps schemas ((err e, sess), s) h = plan_failure-keeps sess s _ h
  second_plan-keeps schemas ((ok plan, sess), s) h =
      elim (Result-cases (validate a.host.show plan schemas)) [
        | inl (e, at) ↦ rw at (plan_failure-keeps sess s _ h)
        | inr (done, at) ↦ rw at (run_plan-keeps schemas plan sess s at h)
      ]

  first_plan-keeps :
      (tools : List ToolDefinition) (schemas : Dict Row)
      (x : (Result (List PlanStep) × Session) × S)
      → Holds x
      → Holds (first_plan a p ctx prompt approvals tools schemas x)
  first_plan-keeps tools schemas ((err e, sess), s) h = plan_failure-keeps sess s _ h
  first_plan-keeps tools schemas ((ok plan, sess), s) h =
      elim (Result-cases (validate a.host.show plan schemas)) [
        | inl (e, at) ↦
            let again = request_plan_with a p tools (correction (a.host.error_text e)) sess s in
            rw at (second_plan-keeps schemas again (request_plan_with-keeps tools _ sess s h))
        | inr (done, at) ↦ rw at (run_plan-keeps schemas plan sess s at h)
      ]

  pub execute_plan_mode-keeps :
      (tools : List ToolDefinition) (schemas : Dict Row) (sess : Session) (s : S)
      → P sess s
      → Holds (execute_plan_mode a p ctx prompt approvals tools schemas sess s)
  unfolding execute_plan_mode request_plan
  execute_plan_mode-keeps tools schemas sess s h =
      first_plan-keeps tools schemas (request_plan_with a p tools "" sess s)
        (request_plan_with-keeps tools "" sess s h)
