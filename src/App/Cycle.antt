-- ===== src/App/Cycle.antt =====
-- Why ResolveDAG (app/app.go) fails, and that it fails only then.
use orjanda.Prelude.{
  ℕ, zero, suc, String, true, ◌==◌, eq_iff, eq_refl, Option, none, some, List, [], ◌∷◌, Dict,
  lookup, ◌≡◌, refl, ◌⊎◌, inl, inr, arith, Bool-cases, eqb, member, All, All-imp, All-of_member,
}
use orjanda.Errors.{ok, err, Error, coded, internal, validation}
use orjanda.App.{
  Definition, Walk, mark_of, enter, Outcome, and_then, visit_each, visit_new, visit,
  dependency_names,
}
use orjanda.App.Marks.{mark_of-insert, Inv, enter-Inv, Outcome-cases}
use orjanda.App.Order.{IsNamed, IsSound, visit-IsSound}

module _ (apps : Dict Definition) where
  -- `b` is a dependency of `a`.
  abbrev pub Edge : String → String → Type 0
  Edge a b =
      (d : Definition) × (lookup a apps ≡ some d)
      × (member b (dependency_names d.dependencies) ≡ true)

  -- `a` depends on `c`, directly or through others.
  pub data Needs (a : String) : String → Type 0 where
    direct : {b : String} → Edge a b → Needs a b
    through : {b c : String} → Needs a b → Edge b c → Needs a c

  Needs-trans : {a b c : String} → Needs a b → Needs b c → Needs a c
  Needs-trans p (direct e) = through p e
  Needs-trans p (through q e) = through (Needs-trans p q) e

  -- The names being visited all depend on the one that is visited next.
  abbrev Busy : Walk → String → Type 0
  Busy w k = (j : String) → mark_of j w.visited ≡ 1 → Needs j k

  -- What an error of a visit of `k` says.
  abbrev Explains : String → Error → Type 0
  Explains k x =
      ((x ≡ coded internal) × ((j : String) × Needs j j))
      ⊎ ((x ≡ coded validation) × ((j : String) × (lookup j apps ≡ none) × ((j ≡ k) ⊎ Needs k j)))

  abbrev IsExplained : (String → Walk → Outcome) → Type 0
  IsExplained visit_one =
      (k : String) (w : Walk) (x : Error)
      → Inv apps w
      → Busy w k
      → visit_one k w ≡ some (err x)
      → Explains k x

  -- The same for a loop over names, of which one is at fault.
  pub visit_each-explained :
      (visit_one : String → Walk → Outcome)
      → IsSound apps visit_one
      → IsExplained visit_one
      → (names : List String) (w : Walk) (x : Error) → Inv apps w
      → All (Busy w) names
      → visit_each visit_one names w ≡ some (err x)
      → (k : String) × (member k names ≡ true) × Explains k x
  unfolding visit_each
  visit_each-explained visit_one sound explained [] w x h busy e = cc
  visit_each-explained visit_one sound explained (k ∷ ks) w x h (busy, later) e =
      elim (Outcome-cases (visit_one k w)) [
        | inl o ↦ absurd (ground arith)
        | inr (inl (y, o)) ↦ (k, ground (arith, eq_refl k), explained k w x h busy (ground arith))
        | inr (inr (v, o)) ↦
            let (inv, frame, _) = sound k w v h o in
            let (j, m, found) =
              visit_each-explained visit_one sound explained ks v x inv
                (All-imp (λ i b j marked. b j (ground (arith, frame j))) ks later) (ground arith) in
            (j, ground arith, found)
      ]

  last_err :
      (o : Outcome) (f : Walk → Walk) {x : Error}
      → and_then o (λ w. some (ok (f w))) ≡ some (err x)
      → o ≡ some (err x)
  last_err none f h = cc
  last_err (some (err y)) f h = h
  last_err (some (ok w)) f h = cc

  -- An error at a dependency explains one at the name that has it.
  Explains-Edge : (k dep : String) (x : Error) → Edge k dep → Explains dep x → Explains k x
  Explains-Edge k dep x e (inl cycle) = inl cycle
  Explains-Edge k dep x e (inr (c, (j, missing, inl same))) =
      inr (c, (j, missing, inr (rw same (direct e))))
  Explains-Edge k dep x e (inr (c, (j, missing, inr needs))) =
      inr (c, (j, missing, inr (Needs-trans (direct e) needs)))

  enter-Busy : (k dep : String) (w : Walk) → Busy w k → Edge k dep → Busy (enter k w) dep
  unfolding enter
  enter-Busy k dep w busy e j marked = elim (Bool-cases (k == j)) [
    | inl same ↦ rw (← (eq_iff k j).0 same) (direct e)
    | inr other ↦ through (busy j (ground (arith, mark_of-insert j k 1 w.visited))) e
  ]

  visit_new-explained :
      (visit_one : String → Walk → Outcome)
      → IsSound apps visit_one
      → IsExplained visit_one
      → (k : String) (w : Walk) (x : Error) → Inv apps w
      → Busy w k
      → mark_of k w.visited ≡ 0
      → (found : Option Definition) → lookup k apps ≡ found
      → visit_new visit_one found k w ≡ some (err x)
      → Explains k x
  unfolding visit_new
  visit_new-explained visit_one sound explained k w x h busy new none l e =
      inr (cc, (k, l, inl refl))
  visit_new-explained visit_one sound explained k w x h busy new (some def) l e =
      let deps = dependency_names def.dependencies in
      let (dep, m, found) =
        visit_each-explained visit_one sound explained deps (enter k w) x (enter-Inv apps k w new h)
          (All-of_member deps (λ n m. enter-Busy k n w busy (def, l, m)))
          (last_err (visit_each visit_one deps (enter k w)) _ e) in
      Explains-Edge k dep x (def, l, m) found

  pub visit-IsExplained : IsNamed apps → (fuel : ℕ) → IsExplained (visit fuel apps)
  unfolding visit
  visit-IsExplained named zero k w x h busy e = cc
  visit-IsExplained named (suc fuel) k w x h busy e =
      elim (Bool-cases (eqb (mark_of k w.visited) 2)) [
        | inl done ↦ absurd (ground arith)
        | inr other ↦ elim (Bool-cases (eqb (mark_of k w.visited) 1)) [
          | inl twice ↦ inl (ground arith, (k, busy k (ground arith)))
          | inr new ↦
              visit_new-explained (visit fuel apps) (visit-IsSound apps named fuel)
                (visit-IsExplained named fuel) k w x h busy (ground (arith, h.bounded k))
                (lookup k apps) refl (ground arith)
        ]
      ]
