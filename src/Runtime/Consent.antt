-- ===== src/Runtime/Consent.antt =====
-- A plan of agent/runtime/plan.go that needs approval and does not get it runs no step.
use orjanda.Prelude.{
  ◌≤◌, String, Bool, true, false, not, ◌&&◌, List, [], ◌∷◌, Option, none, some, Dict, All,
  if◌then◌else◌, ◌≡◌, refl, sym, ap, subst, ◌⊎◌, inl, inr, arith, Bool-cases,
}
use orjanda.Auth.{Context}
use orjanda.Value.{Row}
use orjanda.Safety.{Reason, no_reason, always_reason, bulk_reason, role_reason, require_reason}
use orjanda.Planner.{PlanStep}
use orjanda.Runtime.{Session, Gateway, Runtime}
use orjanda.Runtime.Plan.{
  rank, stricter, step_verdict, scan_steps, plan_payload, says_yes, ask_for_plan, plan_approval,
  run_steps, run_validated_plan, Response, plan_failure, summarized,
}
use orjanda.Runtime.References.{Host}

rank_below :
    (candidate current : Reason) → stricter candidate current ≡ true → rank current ≤ rank candidate
unfolding stricter rank
rank_below candidate always_reason h = ground arith
rank_below candidate bulk_reason h = ground arith
rank_below candidate role_reason h = ground arith
rank_below candidate require_reason h = omega arith
rank_below candidate no_reason h = omega arith

rank_above :
    (candidate current : Reason)
    → stricter candidate current ≡ false
    → rank candidate ≤ rank current
unfolding stricter
rank_above candidate current h = ground arith

rank-stricter :
    (candidate current : Reason)
    → (rank candidate ≤ rank (if stricter candidate current then candidate else current))
      × (rank current ≤ rank (if stricter candidate current then candidate else current))
rank-stricter candidate current = elim (Bool-cases (stricter candidate current)) [
  | inl more ↦ rw more (omega arith, rank_below candidate current more)
  | inr less ↦ rw less (rank_above candidate current less, omega arith)
]

abbrev pub unapproved : String
unapproved = "The plan was not approved; no steps were executed."

module _ {S : Type 0} (r : Runtime S) (ctx : Context) where
  -- A step that needs approval has a reason that is no stricter than the given one.
  abbrev IsCovered : Reason → PlanStep → Type 0
  IsCovered strict s =
      (step_verdict r ctx s).required ≡ true → rank (step_verdict r ctx s).reason ≤ rank strict

  abbrev Covers : List PlanStep → Reason → Bool × Reason → Type 0
  Covers steps strict (found, reached) =
      All (IsCovered reached) steps × (rank strict ≤ rank reached)

  scan_steps-IsCovered :
      (steps : List PlanStep) (found : Bool) (strict : Reason)
      → All (IsCovered (scan_steps r ctx steps found strict).1) steps
        × (rank strict ≤ rank (scan_steps r ctx steps found strict).1)
  unfolding scan_steps
  scan_steps-IsCovered [] found strict = (tt, omega arith)
  scan_steps-IsCovered (s ∷ steps) found strict =
      let reason = (step_verdict r ctx s).reason in
      let next = if stricter reason strict then reason else strict in
      let (above, kept) = rank-stricter reason strict in
      elim (Bool-cases (step_verdict r ctx s).required) [
        | inl needed ↦
            let (covered, raised) = scan_steps-IsCovered steps true next in
            let same : scan_steps r ctx (s ∷ steps) found strict
                ≡ scan_steps r ctx steps true next =
              rw needed in
            subst (Covers (s ∷ steps) strict) (sym same)
              ((λ asked. omega (arith, above, raised), covered), omega (arith, kept, raised))
        | inr free ↦
            let (covered, raised) = scan_steps-IsCovered steps found strict in
            let same : scan_steps r ctx (s ∷ steps) found strict
                ≡ scan_steps r ctx steps found strict =
              rw free in
            subst (Covers (s ∷ steps) strict) (sym same)
              ((λ asked. absurd (ground arith), covered), raised)
      ]

  scan_steps-found :
      (steps : List PlanStep) (strict : Reason) → (scan_steps r ctx steps true strict).0 ≡ true
  unfolding scan_steps
  scan_steps-found [] strict = refl
  scan_steps-found (s ∷ steps) strict =
      let reason = (step_verdict r ctx s).reason in
      elim (Bool-cases (step_verdict r ctx s).required) [
        | inl needed ↦
            rw needed (scan_steps-found steps (if stricter reason strict then reason else strict))
        | inr free ↦ rw free (scan_steps-found steps strict)
      ]

  scan_steps-free :
      (steps : List PlanStep) (found : Bool) (strict : Reason)
      → (scan_steps r ctx steps found strict).0 ≡ false
      → All (λ (s : PlanStep). (step_verdict r ctx s).required ≡ false) steps
  unfolding scan_steps
  scan_steps-free [] found strict h = tt
  scan_steps-free (s ∷ steps) found strict h =
      let reason = (step_verdict r ctx s).reason in
      elim (Bool-cases (step_verdict r ctx s).required) [
        | inl needed ↦
            let kept = scan_steps-found steps (if stricter reason strict then reason else strict) in
            absurd (ground arith)
        | inr free ↦ (free, scan_steps-free steps found strict (ground arith))
      ]

  -- A human was asked about the plan, with a reason that is at least as strict as that of any step that
  -- needs approval, and approved it.
  pub record IsPlanConfirmed (steps : List PlanStep) (approvals : Option Gateway) : Type 0 where
    pub ask : Gateway
    pub there : approvals ≡ some ask
    pub strict : Reason
    pub covers : All (IsCovered strict) steps
    pub agreed : says_yes (ask (plan_payload steps strict)) ≡ true

  -- A plan runs no step and leaves the state as it was, and the session but for a message, or none of
  -- its steps needs approval, or a human approved it as a whole, asked with a reason that is at least as
  -- strict as that of each step that needs approval.
  pub run_validated_plan-IsPlanConfirmed :
      (host : Host) (summarize : Session → S → String × S) (sess : Session) (prompt : String)
      (schemas : Dict Row) (steps : List PlanStep) (approvals : Option Gateway) (s : S)
      → (run_validated_plan host r ctx summarize sess prompt schemas steps approvals s
          ≡ (plan_failure sess unapproved, s))
        ⊎ (All (λ (t : PlanStep). (step_verdict r ctx t).required ≡ false) steps
            ⊎ IsPlanConfirmed steps approvals)
  unfolding run_validated_plan plan_approval
  run_validated_plan-IsPlanConfirmed host summarize sess prompt schemas steps approvals s =
      split (scan_steps r ctx steps false no_reason) refl approvals refl
    where
      ran : Bool × Bool → (Response × Session) × S
      ran (approved, needed) =
          if needed && not approved
          then (plan_failure sess unapproved, s)
          else summarized summarize
              (run_steps host r ctx prompt schemas approvals 0 steps [] (sess, 0) s)

      answered :
          (ask : Gateway) (strict : Reason) (yes : Bool)
          → approvals ≡ some ask
          → All (IsCovered strict) steps
          → says_yes (ask (plan_payload steps strict)) ≡ yes
          → (ran (yes, true) ≡ (plan_failure sess unapproved, s))
            ⊎ (All (λ (t : PlanStep). (step_verdict r ctx t).required ≡ false) steps
                ⊎ IsPlanConfirmed steps approvals)
      answered ask strict true there covers at =
          inr (
            inr
              (record { ask = ask; there = there; strict = strict; covers = covers; agreed = at }))
      answered ask strict false there covers at = inl refl

      split :
          (p : Bool × Reason)
          → scan_steps r ctx steps false no_reason ≡ p
          → (o : Option Gateway) → approvals ≡ o
          → (ran (ask_for_plan steps o p) ≡ (plan_failure sess unapproved, s))
            ⊎ (All (λ (t : PlanStep). (step_verdict r ctx t).required ≡ false) steps
                ⊎ IsPlanConfirmed steps approvals)
      split (false, strict) at o there =
          inr (inl (scan_steps-free steps false no_reason (ap (λ (q : Bool × Reason). q.0) at)))
      split (true, strict) at none there = inl refl
      split (true, strict) at (some ask) there =
          answered ask strict (says_yes (ask (plan_payload steps strict))) there
            (subst (λ (q : Reason). All (IsCovered q) steps) (ap (λ (q : Bool × Reason). q.1) at)
              (scan_steps-IsCovered steps false no_reason).0)
            refl
