-- ===== src/Workflow/Offered.antt =====
-- AvailableTransitions and Execute of workflow/engine.go agree on which actions there are.
use orjanda.Prelude.{
  String, true, ◌&&◌, List, [], ◌∷◌, Option, none, some, lookup, if◌then◌else◌, equal_fold,
  equal_fold_refl, ◌≡◌, ◌≢◌, refl, sym, subst, inl, inr, arith, Bool-cases,
}
use mathlib.Core.List.Memᴰ
use mathlib.Core.List.{Memᴰ}
use orjanda.Auth.{Context}
use orjanda.Perm.{check_roles}
use orjanda.Workflow.{
  Transition, Definition, Workflows, leaves_from, passes, available_loop, available_transitions,
  find_transition,
}

-- what the loop of AvailableTransitions lets pass
IsOffered : Context → String → Transition → List Transition → Type 0
IsOffered ctx current t ts =
    Memᴰ t ts × (leaves_from t current ≡ true) × (passes (check_roles ctx t.allowed_roles) ≡ true)

available_loop-IsOffered :
    (ctx : Context) (current : String) (ts : List Transition) (t : Transition)
    → Memᴰ t (available_loop ctx current ts)
    → IsOffered ctx current t ts
unfolding available_loop IsOffered
available_loop-IsOffered ctx current [] t m = absurd (Memᴰ.not-nil m)
available_loop-IsOffered ctx current (u ∷ ts) t m =
    elim (Bool-cases (leaves_from u current && passes (check_roles ctx u.allowed_roles))) [
      | inl offered ↦
          elim (Memᴰ.cases_cons (
            subst
              (λ b.
                Memᴰ t
                  (if b then u ∷ available_loop ctx current ts else available_loop ctx current ts))
              offered m)) [
                | inl same ↦
                    subst
                      (λ (x : Transition).
                        Memᴰ x (u ∷ ts)
                        × (leaves_from x current ≡ true)
                        × (passes (check_roles ctx x.allowed_roles) ≡ true))
                      (sym same) (Memᴰ.head refl, ground arith, ground arith)
                | inr later ↦
                    let (there, from, admitted) = available_loop-IsOffered ctx current ts t later in
                    (Memᴰ.tail there, from, admitted)
              ]
      | inr hidden ↦
          let (there, from, admitted) = available_loop-IsOffered ctx current ts t (
            subst
              (λ b.
                Memᴰ t
                  (if b then u ∷ available_loop ctx current ts else available_loop ctx current ts))
              hidden m) in
          (Memᴰ.tail there, from, admitted)
    ]

find_transition-some :
    (ts : List Transition) (current : String) (t : Transition)
    → Memᴰ t ts
    → leaves_from t current ≡ true
    → find_transition ts current t.action ≢ none
unfolding find_transition
find_transition-some [] current t m from = absurd (Memᴰ.not-nil m)
find_transition-some (u ∷ ts) current t m from =
    elim (Bool-cases (leaves_from u current && equal_fold u.action t.action)) [
      | inl hit ↦ λ missing. ground arith
      | inr miss ↦ elim (Memᴰ.cases_cons m) [
        | inl same ↦
            let own : (leaves_from u current && equal_fold u.action t.action) ≡ true =
              subst
                (λ (x : Transition). (leaves_from x current && equal_fold x.action t.action) ≡ true)
                same (ground (arith, equal_fold_refl t.action)) in
            λ missing. ground arith
        | inr later ↦ λ missing. find_transition-some ts current t later from (ground arith)
      ]
    ]

module _ {S : Type 0} where
  -- A transition that AvailableTransitions offers for a state admits the caller, and Execute never
  -- answers its action in that state with the conflict that there is no such transition.
  pub available-find_transition :
      (e : Workflows S) (ctx : Context) (doc_type current : String) (t : Transition)
      (def : Definition)
      → lookup doc_type e.definitions ≡ some def
      → Memᴰ t (available_transitions e ctx doc_type current)
      → (find_transition def.transitions current t.action ≢ none)
        × (passes (check_roles ctx t.allowed_roles) ≡ true)
  unfolding available_transitions IsOffered
  available-find_transition e ctx doc_type current t def registered m =
      let (there, from, admitted) = available_loop-IsOffered ctx current def.transitions t (
        subst
          (λ (o : Option Definition).
            Memᴰ t (elim o [ none ↦ [] | some d ↦ available_loop ctx current d.transitions ]))
          registered m) in
      (find_transition-some def.transitions current t there from, admitted)
