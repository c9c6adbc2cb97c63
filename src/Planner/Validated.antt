-- ===== src/Planner/Validated.antt =====
-- What a plan that Validate (agent/planner/planner.go) accepts is, and what accepted arguments have.
use orjanda.Prelude.{
  ℕ, zero, suc, ◌+◌, String, true, false, ◌||◌, ◌==◌, List, [], ◌∷◌, Option, some, Dict, lookup,
  All, get_elem?, is_empty, Memᴰ, ◌≡◌, ◌↔◌, inl, inr, refl, sym, ap, subst, arith, Bool-cases,
  Option-cases,
}
use orjanda.Prelude.Int.{ℤ, pos, ltb_ℤ, leb_ℤ}
use orjanda.Errors.{Result, ok, err, plain, ◌>>◌, bind-ok}
use orjanda.Value.{Value, Fields, Row, text, fields, text_or_empty}
use orjanda.Planner.{
  PlanStep, required_of, is_given, required_pass, validate_args, check_deps, check_known,
  check_step, check_steps, validate,
}

-- An index of a step that comes before step `i`.
abbrev IsEarlier : ℕ → ℤ → Type 0
IsEarlier i dep = (leb_ℤ (pos 0) dep ≡ true) × (ltb_ℤ dep (pos i) ≡ true)

check_deps-ok : (i : ℕ) (deps : List ℤ) → (check_deps i deps ≡ ok tt) ↔ All (IsEarlier i) deps
unfolding check_deps
check_deps-ok i [] = (λ h. tt, λ h. refl)
check_deps-ok i (dep ∷ deps) = elim (Bool-cases (ltb_ℤ dep (pos 0) || leb_ℤ (pos i) dep)) [
  | inl late ↦ rw late (λ h. absurd (ground arith), λ w. absurd (ground (arith, w.0.0, w.0.1)))
  | inr early ↦ rw early (
    λ h. ((ground arith, ground arith), (check_deps-ok i deps).0 h),
    λ w. (check_deps-ok i deps).1 w.1,
  )
]

-- What holds of the first step at an index and of the others after it holds of all from there on.
at_indices :
    (P : ℕ → PlanStep → Type 0) (i : ℕ) (t : PlanStep) (steps : List PlanStep)
    → P i t
    → ((j : ℕ) (s : PlanStep) → get_elem? steps j ≡ some s → P (suc i + j) s)
    → (j : ℕ) (s : PlanStep) → get_elem? (t ∷ steps) j ≡ some s
    → P (i + j) s
at_indices P i t steps p later zero s at =
    let same : t ≡ s = cc in
    subst (λ (x : PlanStep). P (i + 0) x) same (subst (λ (k : ℕ). P k t) (omega arith) p)
at_indices P i t steps p later (suc j) s at = subst (λ (k : ℕ). P k s) (omega arith) (later j s at)

required_pass-is_given :
    (rs : List Value) (args : Row) (key : String)
    → required_pass rs args ≡ true
    → Memᴰ (text key) rs
    → (key == "") ≡ false
    → is_given (lookup key args) ≡ true
unfolding required_pass
required_pass-is_given [] args key h m given = elim m [ ]
required_pass-is_given (r ∷ rs) args key h (Memᴰ.head same) given =
    let named : key ≡ text_or_empty (some r) = ap (λ (v : Value). text_or_empty (some v)) same in
    let here : (text_or_empty (some r) == "" || is_given (lookup (text_or_empty (some r)) args))
        ≡ true =
      ground arith in
    let own : (key == "" || is_given (lookup key args)) ≡ true =
      subst (λ (k : String). (k == "" || is_given (lookup k args)) ≡ true) (sym named) here in
    ground arith
required_pass-is_given (r ∷ rs) args key h (Memᴰ.tail m) given =
    required_pass-is_given rs args key (ground arith) m given

module _ (show : Value → String) where
  -- A step that can run when those before it have.
  pub record IsStep (schemas : Dict Row) (i : ℕ) (s : PlanStep) : Type 0 where
    pub named : (s.operation == "") ≡ false
    pub sch : Row
    pub known : lookup s.operation schemas ≡ some sch
    pub fitting : validate_args show s.args sch ≡ ok tt
    pub ordered : All (IsEarlier i) s.depends_on

  check_step-IsStep :
      (schemas : Dict Row) (i : ℕ) (s : PlanStep)
      → (check_step show schemas i s ≡ ok tt) ↔ IsStep schemas i s
  unfolding check_step check_known
  check_step-IsStep schemas i s = (to, from)
    where
      to : check_step show schemas i s ≡ ok tt → IsStep schemas i s
      to h = elim (Bool-cases (s.operation == "")) [
        | inl blank ↦ absurd (ground arith)
        | inr named ↦
            let chained : (check_known show (lookup s.operation schemas) s.args
                  >> check_deps i s.depends_on)
                ≡ ok tt =
              ground arith in
            let (done, fits, before) =
              bind-ok (check_known show (lookup s.operation schemas) s.args) _ chained in
            elim (Option-cases (lookup s.operation schemas)) [
              | inl unknown ↦
                  let refused : Path (Result (Unit {0})) (err plain) (ok tt) =
                    subst (λ (o : Option Row). check_known show o s.args ≡ ok tt) unknown fits in
                  cc
              | inr (sch, known) ↦ record {
                named = named;
                sch = sch;
                known = known;
                fitting = subst (λ (o : Option Row). check_known show o s.args ≡ ok tt) known fits;
                ordered = (check_deps-ok i s.depends_on).0 before;
              }
            ]
      ]

      from : IsStep schemas i s → check_step show schemas i s ≡ ok tt
      from w = rw w.named (rw w.known (rw w.fitting ((check_deps-ok i s.depends_on).1 w.ordered)))

  check_steps-IsStep :
      (schemas : Dict Row) (i : ℕ) (steps : List PlanStep)
      → (check_steps show schemas i steps ≡ ok tt)
        ↔ ((j : ℕ) (s : PlanStep) → get_elem? steps j ≡ some s → IsStep schemas (i + j) s)
  unfolding check_steps
  check_steps-IsStep schemas i [] = (λ h j s at. cc, λ h. refl)
  check_steps-IsStep schemas i (t ∷ steps) =
      let first = check_step-IsStep schemas i t in
      let later = check_steps-IsStep schemas (suc i) steps in
      (
        λ h.
            let (done, p, q) = bind-ok (check_step show schemas i t) _ h in
            at_indices (IsStep schemas) i t steps (first.0 p) (later.0 q),
        λ w.
            let here = first.1 (subst (λ (k : ℕ). IsStep schemas k t) (omega arith) (w 0 t refl)) in
            rw here (
              later.1
                (λ j s at. subst (λ (k : ℕ). IsStep schemas k s) (omega arith) (w (suc j) s at))),
      )

  -- Validate accepts a plan exactly when it has steps, and each has an operation that is known this
  -- turn, arguments that its schema accepts, and only dependencies on steps before it.
  pub validate-IsStep :
      (steps : List PlanStep) (schemas : Dict Row)
      → (validate show steps schemas ≡ ok tt) ↔ (
          (is_empty steps ≡ false)
          × ((i : ℕ) (s : PlanStep) → get_elem? steps i ≡ some s → IsStep schemas i s))
  unfolding validate
  validate-IsStep [] schemas = (λ h. absurd (ground arith), λ w. absurd (ground arith))
  validate-IsStep (t ∷ steps) schemas =
      let (to, from) = check_steps-IsStep schemas 0 (t ∷ steps) in
      (
        λ h. (refl, λ i s at. subst (λ (k : ℕ). IsStep schemas k s) (omega arith) (to h i s at)),
        λ w. from (λ i s at. subst (λ (k : ℕ). IsStep schemas k s) (omega arith) (w.1 i s at)),
      )

  -- Arguments that a schema accepts have each required argument, and not an empty value for it.
  validate_args-is_given :
      (args : Fields) (sch : Row) (key : String)
      → validate_args show args sch ≡ ok tt
      → Memᴰ (text key) (required_of sch)
      → (key == "") ≡ false
      → is_given (lookup key (fields args)) ≡ true
  unfolding validate_args
  validate_args-is_given args sch key h m given =
      required_pass-is_given (required_of sch) (fields args) key (ground arith) m given
