-- ===== src/App/Order.antt =====
-- What a successful ResolveDAG (app/app.go) returns: an order in which dependencies come first.
use orjanda.Prelude.{
  ℕ, zero, suc, String, true, eq_iff, eq_refl, Option, none, some, List, [], ◌∷◌, Dict, lookup,
  insert, ◌≡◌, refl, inl, inr, arith, member, All, All-imp, lookup-insert, Bool-cases, eqb, length,
}
use orjanda.Errors.{ok, err}
use orjanda.App.{
  Definition, Walk, mark_of, enter, leave, Outcome, visit_each, visit_new, visit, app_map,
  dependency_names, definition_names, start, order_of, resolve_dag,
}
use orjanda.App.Marks.{
  mark_of-insert, Ordered, Inv, Frame, Frame-trans, start-Inv, enter-Inv, leave-Inv,
  enter-leave-Frame, and_then-ok,
}

-- A name that is not in the map of applications is known under no other.
abbrev pub IsNamed : Dict Definition → Type 0
IsNamed apps = (k : String) (d : Definition) → lookup k apps ≡ some d → d.name ≡ k

pub enter_mark : (k : String) (w : Walk) → mark_of k (enter k w).visited ≡ 1
unfolding enter
enter_mark k w = ground (arith, mark_of-insert k k 1 w.visited, eq_refl k)

leave_mark : (k : String) (d : Definition) (w : Walk) → mark_of k (leave k d w).visited ≡ 2
unfolding leave
leave_mark k d w = ground (arith, mark_of-insert k k 2 w.visited, eq_refl k)

module _ (apps : Dict Definition) where
  -- What a successful visit of the names has done.
  abbrev Visited : List String → Walk → Walk → Type 0
  Visited names w w' = Inv apps w' × Frame w w' × All (λ k. mark_of k w'.visited ≡ 2) names

  -- Visits of single names are sound.
  abbrev pub IsSound : (String → Walk → Outcome) → Type 0
  IsSound visit_one =
      (k : String) (w w' : Walk) → Inv apps w → visit_one k w ≡ some (ok w') → Visited (k ∷ []) w w'

  kept :
      (w w' : Walk) (k : String) → Frame w w' → mark_of k w.visited ≡ 2 → mark_of k w'.visited ≡ 2
  kept w w' k f h = ground (arith, f k)

  visit_each_sound :
      (visit_one : String → Walk → Outcome)
      → IsSound visit_one
      → (names : List String) (w w' : Walk) → Inv apps w
      → visit_each visit_one names w ≡ some (ok w')
      → Visited names w w'
  unfolding visit_each
  visit_each_sound visit_one sound [] w w' h e =
      let same : w ≡ w' = cc in rw (← same) (h, λ k. inl refl, tt)
  visit_each_sound visit_one sound (k ∷ ks) w w' h e =
      let (v, first, later) = and_then-ok (visit_one k w) _ e in
      let (inv, frame, marked) = sound k w v h first in
      let (inv', frame', marked') = visit_each_sound visit_one sound ks v w' inv later in
      (inv', Frame-trans w v w' frame frame', (kept v w' k frame' marked.0, marked'))

  visit_new_sound :
      (visit_one : String → Walk → Outcome)
      → IsSound visit_one
      → IsNamed apps
      → (k : String) (w w' : Walk) → Inv apps w
      → mark_of k w.visited ≡ 0
      → (found : Option Definition) → lookup k apps ≡ found
      → visit_new visit_one found k w ≡ some (ok w')
      → Visited (k ∷ []) w w'
  unfolding visit_new
  visit_new_sound visit_one sound named k w w' h new none l e = cc
  visit_new_sound visit_one sound named k w w' h new (some def) l e =
      let deps = dependency_names def.dependencies in
      let (v, walked, last) = and_then-ok (visit_each visit_one deps (enter k w)) _ e in
      let (inv, frame, marked) =
        visit_each_sound visit_one sound deps (enter k w) v (enter-Inv apps k w new h) walked in
      let same : leave k def v ≡ w' = cc in
      let still : mark_of k v.visited ≡ 1 = ground (arith, frame k, enter_mark k w) in
      rw (← same) (
        leave-Inv apps k def v l (named k def l) still marked inv,
        enter-leave-Frame k def w v new frame,
        (leave_mark k def v, tt),
      )

  pub visit-IsSound : IsNamed apps → (fuel : ℕ) → IsSound (visit fuel apps)
  unfolding visit
  visit-IsSound named zero k w w' h e = cc
  visit-IsSound named (suc fuel) k w w' h e = elim (Bool-cases (eqb (mark_of k w.visited) 2)) [
    | inl done ↦
        let same : w ≡ w' = ground arith in rw (← same) (h, λ j. inl refl, (ground arith, tt))
    | inr other ↦ elim (Bool-cases (eqb (mark_of k w.visited) 1)) [
      | inl busy ↦ absurd (ground arith)
      | inr new ↦
          visit_new_sound (visit fuel apps) (visit-IsSound named fuel) named k w w' h
            (ground (arith, h.bounded k)) (lookup k apps) refl (ground arith)
    ]
  ]

insert_each-IsNamed :
    (ds : List Definition) (m : Dict Definition) → IsNamed m → IsNamed (app_map ds m)
unfolding app_map
insert_each-IsNamed [] m h = h
insert_each-IsNamed (d ∷ ds) m h =
    insert_each-IsNamed ds (insert d.name d m)
      (λ k e found. ground (arith, lookup-insert d.name k d m, eq_iff d.name k, h k e))

pub app_map-IsNamed : (apps : List Definition) → IsNamed (app_map apps [])
unfolding lookup
app_map-IsNamed apps = insert_each-IsNamed apps [] (λ k d h. cc)

order_of-ok :
    (o : Outcome) {order : List Definition}
    → order_of o ≡ some (ok order)
    → (w : Walk) × (o ≡ some (ok w)) × (w.result ≡ order)
order_of-ok none h = cc
order_of-ok (some (err x)) h = cc
order_of-ok (some (ok w)) h = (w, refl, cc)

-- An order that ResolveDAG returns holds no name twice and each definition after all that it depends
-- on; every application given is in it by name, and each entry is the last definition given of its name.
pub resolve_dag-Ordered :
    (apps order : List Definition)
    → resolve_dag apps ≡ some (ok order)
    → Ordered [] order
      × All (λ name. member name (definition_names order) ≡ true) (definition_names apps)
      × All (λ (d : Definition). lookup d.name (app_map apps []) ≡ some d) order
unfolding resolve_dag
resolve_dag-Ordered apps order h =
    let m = app_map apps [] in
    let (w, walked, same) = order_of-ok _ h in
    let (inv, frame, marked) =
      visit_each_sound m (visit (suc (suc (length apps))) m)
        (visit-IsSound m (app_map-IsNamed apps) (suc (suc (length apps)))) (definition_names apps)
        start w (start-Inv m) walked in
    rw (← same)
      (inv.ordered, All-imp (λ k e. inv.done_listed k e) (definition_names apps) marked, inv.known)
