-- ===== src/Runtime/Gate.antt =====
-- Which tool calls executeTool (agent/runtime/executor.go) lets through to their dispatch.
use orjanda.Prelude.{
  String, Bool, true, false, not, ◌&&◌, Option, none, some, if◌then◌else◌, ◌≡◌, refl, sym, ◌∙◌, ap,
  ◌⊎◌, inl, inr, arith, Bool-cases,
}
use orjanda.Errors.{ok, Result-cases}
use orjanda.Value.{Row}
use orjanda.Auth.{Context, from_context}
use orjanda.Audit.{with_agent}
use orjanda.Safety.{Approval, requires_approval_with_reason, is_tool_allowed}
use orjanda.Runtime.{
  Session, ApprovalResponse, Gateway, Runtime, Observation, Passage, stop, go, or_args, on_response,
  payload_of, gate_approval, call_info, gate, agent_context, after_dispatch, pass_on, execute_tool,
}

module _ {S : Type 0} (r : Runtime S) (ctx : Context) (sess : Session) (name : String)
    (args : Row) where
  -- what the safety layer says of the call
  abbrev pub verdict : Approval
  verdict = requires_approval_with_reason r.safety (from_context ctx) (call_info r sess name args)

  -- A human was asked about the call and approved it, with these arguments.
  pub record IsConfirmed (approvals : Option Gateway) (passed : Row) : Type 0 where
    pub ask : Gateway
    pub there : approvals ≡ some ask
    pub response : ApprovalResponse
    pub answer : ask (payload_of r name args verdict) ≡ ok response
    pub agreed : response.approved ≡ true
    pub as_answered : passed ≡ or_args response.payload args

  -- Why a call may go on, with these arguments.
  abbrev pub MayGo : Bool → Option Gateway → Row → Type 0
  MayGo plan_approved approvals passed =
      (is_tool_allowed r.safety name ≡ true)
      × ((((plan_approved ≡ true) ⊎ (verdict.required ≡ false)) × (passed ≡ args))
          ⊎ IsConfirmed approvals passed)

  gate_approval-IsConfirmed :
      (approvals : Option Gateway) (passed : Row)
      → gate_approval r name args verdict approvals ≡ go passed
      → IsConfirmed approvals passed
  unfolding gate_approval
  gate_approval-IsConfirmed none passed h = cc
  gate_approval-IsConfirmed (some ask) passed h =
      elim (Result-cases (ask (payload_of r name args verdict))) [
        | inl (e, failed) ↦ let refused = sym (ap (on_response args) failed) ∙ h in cc
        | inr (resp, answer) ↦
            let decided : (if resp.approved
                  then go (or_args resp.payload args)
                  else stop Observation.denied)
                ≡ go passed =
              sym (ap (on_response args) answer) ∙ h in
            elim (Bool-cases resp.approved) [
              | inl agreed ↦ record {
                ask = ask;
                there = refl;
                response = resp;
                answer = answer;
                agreed = agreed;
                as_answered = ground arith;
              }
              | inr refused ↦ absurd (ground arith)
            ]
      ]

  unasked :
      (plan_approved required : Bool)
      → (not plan_approved && required) ≡ false
      → (plan_approved ≡ true) ⊎ (required ≡ false)
  unasked true required h = inl refl
  unasked false required h = inr h

  gate-MayGo :
      (plan_approved : Bool) (approvals : Option Gateway) (passed : Row)
      → gate r ctx sess name args plan_approved approvals ≡ go passed
      → MayGo plan_approved approvals passed
  unfolding gate
  gate-MayGo plan_approved approvals passed h = elim (Bool-cases (is_tool_allowed r.safety name)) [
    | inl allowed ↦ elim (Bool-cases (not plan_approved && verdict.required)) [
      | inl asked ↦
          let answered : gate_approval r name args verdict approvals ≡ go passed = ground arith in
          (allowed, inr (gate_approval-IsConfirmed approvals passed answered))
      | inr free ↦
          let same : Path Passage (go args) (go passed) = ground arith in
          (allowed, inl (unasked plan_approved verdict.required free, cc))
    ]
    | inr forbidden ↦ absurd (ground arith)
  ]

  -- A tool call leaves the state as it was, or the tool is on the allowlist, and its plan was approved,
  -- the policy asks for no approval, or a human approved it; then the tool was dispatched with the given
  -- arguments or those that the human put in their place, in a context that is marked as an agent's.
  pub execute_tool-MayGo :
      (prompt : String) (plan_approved : Bool) (approvals : Option Gateway) (s : S)
      → ((execute_tool r ctx sess name args prompt plan_approved approvals s).1 ≡ s)
        ⊎ ((passed : Row) × MayGo plan_approved approvals passed
            × ((execute_tool r ctx sess name args prompt plan_approved approvals s).1
                ≡ (r.dispatch (agent_context ctx sess prompt) name passed s).1)
            × ((agent_context ctx sess prompt).via_agent ≡ true))
  unfolding execute_tool after_dispatch agent_context with_agent
  execute_tool-MayGo prompt plan_approved approvals s =
      split (gate r ctx sess name args plan_approved approvals) refl
    where
      split :
          (p : Passage)
          → gate r ctx sess name args plan_approved approvals ≡ p
          → ((pass_on r ctx sess name prompt p s).1 ≡ s)
            ⊎ ((passed : Row) × MayGo plan_approved approvals passed
                × ((pass_on r ctx sess name prompt p s).1
                    ≡ (r.dispatch (agent_context ctx sess prompt) name passed s).1)
                × ((agent_context ctx sess prompt).via_agent ≡ true))
      split (stop obs) at = inl refl
      split (go passed) at = inr (passed, gate-MayGo plan_approved approvals passed at, refl, refl)
