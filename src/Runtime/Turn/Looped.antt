-- ===== src/Runtime/Turn/Looped.antt =====
-- The loop of Execute in agent/runtime/runtime.go ends, and keeps what its parts keep.
use orjanda.Prelude.{
  ℕ, zero, suc, ◌+◌, ◌<◌, ◌≤◌, String, List, Option, none, some, ◌≡◌, refl, ◌⊎◌, inl, inr, arith,
}
use orjanda.Errors.{Result, ok, err, coded, validation}
use orjanda.Auth.{Context}
use orjanda.Llm.{ChatResponse, ToolCall, Provider}
use orjanda.Runtime.{Session, Gateway, add_message}
use orjanda.Runtime.Plan.{Response, calling}
use orjanda.Runtime.References.{Host}
use orjanda.Runtime.Turn.{
  Agent, Stage, answer, exceeded, escalate, act, stage_of, schemas_for, tools_for_turn, run_calls,
}
use orjanda.Runtime.Turn.Execute.{
  execute_plan_mode, Ended, as_ended, final_answer, on_chat, chat_again, turn_loop, turn,
}
use orjanda.Runtime.Turn.Kept.{IsKept, chat-keeps, execute_plan_mode-keeps, message-keeps, Holds}

Stage-cases : (st : Stage) → (st ≡ answer) ⊎ ((st ≡ exceeded) ⊎ ((st ≡ escalate) ⊎ (st ≡ act)))
Stage-cases answer = inl refl
Stage-cases exceeded = inr (inl refl)
Stage-cases escalate = inr (inr (inl refl))
Stage-cases act = inr (inr (inr refl))

stage_of-act :
    (host : Host) (max_steps : ℕ) (calls : List ToolCall) (steps : ℕ)
    → stage_of host max_steps calls steps ≡ act
    → suc steps ≤ max_steps
unfolding stage_of
stage_of-act host max_steps calls steps h = ground arith

module _ {S : Type 0} (a : Agent S) (p : Provider S) (ctx : Context) (prompt : String)
    (approvals : Option Gateway) (P : Session → S → Type 0)
    (kept : IsKept a p ctx prompt approvals P) where
  -- A turn that ends, in a session and a state of which what is kept holds.
  abbrev pub Ends : Option (Ended a p ctx prompt approvals) → Type 0
  Ends o = (out : Ended a p ctx prompt approvals) × (o ≡ some out) × P out.0.1 out.1

  abbrev pub ended : (out : Ended a p ctx prompt approvals) → P out.0.1 out.1 → Ends (some out)
  ended out h = (out, refl, h)

  as_ended-keeps :
      (x : (Response × Session) × S)
      → Holds a p ctx prompt approvals P kept x
      → Ends (some (as_ended a p ctx prompt approvals x))
  as_ended-keeps ((resp, sess), s) h = (((ok resp, sess), s), refl, h)

  on_chat-keeps :
      (next : ChatResponse → S → Option (Ended a p ctx prompt approvals)) (sess : Session)
      (x : Result ChatResponse × S)
      → P sess x.1
      → ((resp : ChatResponse) (s : S) → P sess s → Ends (next resp s))
      → Ends (on_chat a p ctx prompt approvals next sess x)
  on_chat-keeps next sess (err e, s) h g = (((err e, sess), s), refl, h)
  on_chat-keeps next sess (ok resp, s) h g = g resp s h

  turn_loop-keeps :
      (fuel steps : ℕ) (sess : Session) (resp : ChatResponse) (s : S)
      → steps ≤ a.max_steps
      → a.max_steps < fuel + steps
      → P sess s
      → Ends (turn_loop a p ctx prompt approvals fuel steps sess resp s)
  unfolding turn_loop
  turn_loop-keeps zero steps sess resp s below enough h = absurd (omega (arith, below, enough))
  turn_loop-keeps (suc fuel) steps sess resp s below enough h =
      elim (Stage-cases (stage_of a.host a.max_steps resp.tool_calls steps)) [
        | inl at ↦
            rw (turn_loop, at)
              (ended (final_answer a p ctx prompt approvals resp.content steps sess s)
                (message-keeps a p ctx prompt approvals P kept sess s resp.content h))
        | inr (inl at) ↦ rw (turn_loop, at) (ended ((err (coded validation), sess), s) h)
        | inr (inr (inl at)) ↦
            let tools = tools_for_turn a ctx sess in
            rw (turn_loop, at)
              (as_ended-keeps
                (execute_plan_mode a p ctx prompt approvals tools (schemas_for tools) sess s)
                (execute_plan_mode-keeps a p ctx prompt approvals P kept tools (schemas_for tools)
                  sess s h))
        | inr (inr (inr at)) ↦
            let (ran, left) =
              run_calls a ctx prompt approvals resp.tool_calls
                (add_message sess (calling resp.tool_calls)) s in
            let step = stage_of-act a.host a.max_steps resp.tool_calls steps at in
            rw (turn_loop, at)
              (on_chat-keeps (turn_loop a p ctx prompt approvals fuel (suc steps) ran) ran
                (chat_again a p ctx prompt approvals ran left)
                (chat-keeps a p ctx prompt approvals P kept ran (tools_for_turn a ctx ran) none left
                  (kept.by_calls resp.tool_calls sess s h))
                (λ next t g.
                  turn_loop-keeps fuel (suc steps) ran next t step (omega (arith, enough)) g))
      ]

  -- A turn with fuel for one step more than the allowed number ends, in a session and a state of which
  -- what is kept holds.
  pub turn-keeps :
      (sess : Session) (s : S)
      → P sess s
      → Ends (turn a p ctx prompt approvals (suc a.max_steps) sess s)
  unfolding turn
  turn-keeps sess s h =
      on_chat-keeps (turn_loop a p ctx prompt approvals (suc a.max_steps) 0 sess) sess
        (chat_again a p ctx prompt approvals sess s)
        (chat-keeps a p ctx prompt approvals P kept sess (tools_for_turn a ctx sess) none s h)
        (λ resp t g. turn_loop-keeps (suc a.max_steps) 0 sess resp t (omega arith) (omega arith) g)
