-- ===== src/App/Fuel.antt =====
-- The depth of the recursion of `visit` (app/app.go) is bounded by the names not yet visited.
use orjanda.Prelude.{
  ℕ, zero, suc, ◌+◌, ◌≤◌, ◌<◌, String, ◌==◌, eq_iff, none, some, List, [], ◌∷◌, Dict, lookup,
  insert, if◌then◌else◌, ◌≡◌, refl, ◌≢◌, inl, inr, arith, Bool-cases, eqb, length, Option-cases,
}
use orjanda.Errors.{ok, err}
use orjanda.App.{
  Definition, Walk, mark_of, enter, leave, Outcome, and_then, visit_each, visit_new, visit, app_map,
  dependency_names, definition_names, start, order_of, resolve_dag,
}
use orjanda.App.Marks.{mark_of-insert, Inv, start-Inv, enter-Inv, Outcome-cases}
use orjanda.App.Order.{IsNamed, IsSound, visit-IsSound, app_map-IsNamed, enter_mark}

-- how many names of the map have the mark 0
unvisited : Dict Definition → Dict ℕ → ℕ
unvisited [] visited = 0
unvisited ((k, d) ∷ m) visited = (if eqb (mark_of k visited) 0 then 1 else 0) + unvisited m visited

unvisited-le : (m : Dict Definition) (visited : Dict ℕ) → unvisited m visited ≤ length m
unfolding unvisited
unvisited-le [] visited = omega arith
unvisited-le ((k, d) ∷ m) visited = ground (arith, unvisited-le m visited)

-- Every name unvisited in `v` is so in `w`.
abbrev Fewer : Dict ℕ → Dict ℕ → Type 0
Fewer v w = (k : String) → mark_of k v ≡ 0 → mark_of k w ≡ 0

unvisited_mono : (m : Dict Definition) (v w : Dict ℕ) → Fewer v w → unvisited m v ≤ unvisited m w
unfolding unvisited
unvisited_mono [] v w f = omega arith
unvisited_mono ((k, d) ∷ m) v w f = ground (arith, unvisited_mono m v w f, f k)

unvisited_strict :
    (m : Dict Definition) (v w : Dict ℕ) (k : String) {d : Definition}
    → Fewer v w
    → lookup k m ≡ some d
    → mark_of k w ≡ 0
    → mark_of k v ≢ 0
    → unvisited m v < unvisited m w
unfolding unvisited lookup
unvisited_strict [] v w k {d} f found old new = cc
unvisited_strict ((j, e) ∷ m) v w k {d} f found old new = elim (Bool-cases (j == k)) [
  | inl same ↦ ground (arith, unvisited_mono m v w f, eq_iff j k)
  | inr other ↦ ground (arith, unvisited_strict m v w k {d = d} f (ground arith) old new, f j)
]

enter-Fewer : (k : String) (w : Walk) → Fewer (enter k w).visited w.visited
unfolding enter
enter-Fewer k w j h = ground (arith, mark_of-insert j k 1 w.visited)

module _ (apps : Dict Definition) where
  -- A visit of a single name ends, where few enough names are unvisited.
  abbrev Ends : ℕ → (String → Walk → Outcome) → Type 0
  Ends fuel visit_one =
      (k : String) (w : Walk) → Inv apps w → unvisited apps w.visited < fuel → visit_one k w ≢ none

  visit_each-ne-none :
      (fuel : ℕ) (visit_one : String → Walk → Outcome)
      → IsSound apps visit_one
      → Ends fuel visit_one
      → (names : List String) (w : Walk) → Inv apps w
      → unvisited apps w.visited < fuel
      → visit_each visit_one names w ≢ none
  unfolding visit_each
  visit_each-ne-none fuel visit_one sound ends [] w h lt = cc
  visit_each-ne-none fuel visit_one sound ends (k ∷ ks) w h lt =
      elim (Outcome-cases (visit_one k w)) [
        | inl e ↦ absurd (ends k w h lt e)
        | inr (inl (x, e)) ↦ rw e (cc)
        | inr (inr (v, e)) ↦
            let (inv, frame, _) = sound k w v h e in
            let fewer : unvisited apps v.visited ≤ unvisited apps w.visited =
              unvisited_mono apps v.visited w.visited (λ j z. ground (arith, frame j)) in
            rw e (visit_each-ne-none fuel visit_one sound ends ks v inv (omega arith))
      ]

  last_ne-none :
      (o : Outcome) (f : Walk → Walk) → o ≢ none → and_then o (λ w. some (ok (f w))) ≢ none
  last_ne-none none f h = λ e. h refl
  last_ne-none (some (err x)) f h = cc
  last_ne-none (some (ok w)) f h = cc

  visit_new-ne-none :
      (fuel : ℕ) (visit_one : String → Walk → Outcome)
      → IsSound apps visit_one
      → Ends fuel visit_one
      → (k : String) (w : Walk) → Inv apps w
      → mark_of k w.visited ≡ 0
      → unvisited apps w.visited < suc fuel
      → visit_new visit_one (lookup k apps) k w ≢ none
  unfolding visit_new
  visit_new-ne-none fuel visit_one sound ends k w h new lt = elim (Option-cases (lookup k apps)) [
    | inl e ↦ rw e (cc)
    | inr (def, e) ↦
        let fewer =
          unvisited_strict apps (enter k w).visited w.visited k (enter-Fewer k w) e new
            (λ z. absurd (omega (arith, z, enter_mark k w))) in
        rw e (
          last_ne-none (visit_each visit_one (dependency_names def.dependencies) (enter k w))
            (leave k def)
            (visit_each-ne-none fuel visit_one sound ends (dependency_names def.dependencies)
              (enter k w) (enter-Inv apps k w new h) (omega arith)))
  ]

  visit-ne-none : IsNamed apps → (fuel : ℕ) → Ends fuel (visit fuel apps)
  unfolding visit
  visit-ne-none named zero k w h lt = absurd (omega arith)
  visit-ne-none named (suc fuel) k w h lt = elim (Bool-cases (eqb (mark_of k w.visited) 2)) [
    | inl done ↦ rw done (cc)
    | inr other ↦ elim (Bool-cases (eqb (mark_of k w.visited) 1)) [
      | inl busy ↦ rw (other, busy) (cc)
      | inr new ↦
          rw (other, new)
            (visit_new-ne-none fuel (visit fuel apps) (visit-IsSound apps named fuel)
              (visit-ne-none named fuel) k w h (ground (arith, h.bounded k)) lt)
    ]
  ]

length-insert-le {ℓ} :
    {V : Type ℓ} (k : String) (v : V) (m : Dict V) → length (insert k v m) ≤ suc (length m)
unfolding insert
length-insert-le k v [] = omega arith
length-insert-le k v ((j, u) ∷ m) = ground (arith, length-insert-le k v m)

length-app_map-le :
    (ds : List Definition) (m : Dict Definition) → length (app_map ds m) ≤ length ds + length m
unfolding app_map
length-app_map-le [] m = omega arith
length-app_map-le (d ∷ ds) m =
    omega (arith, length-app_map-le ds (insert d.name d m), length-insert-le d.name d m)

order_of-none : (o : Outcome) → order_of o ≡ none → o ≡ none
order_of-none none h = refl
order_of-none (some (err x)) h = cc
order_of-none (some (ok w)) h = cc

-- The fuel that ResolveDAG is given is enough: its recursion ends on every list of definitions.
pub resolve_dag-ne-none : (apps : List Definition) → resolve_dag apps ≢ none
unfolding resolve_dag
resolve_dag-ne-none apps h =
    let m = app_map apps [] in
    let fuel = suc (suc (length apps)) in
    visit_each-ne-none m fuel (visit fuel m) (visit-IsSound m (app_map-IsNamed apps) fuel)
      (visit-ne-none m (app_map-IsNamed apps) fuel) (definition_names apps) start (start-Inv m)
      (omega (arith, unvisited-le m [], length-app_map-le apps [])) (order_of-none _ h)
