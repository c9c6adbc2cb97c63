-- ===== src/App/Marks.antt =====
-- The marks and the order that `visit` of app/app.go keeps: its invariant, and how the steps change it.
use orjanda.Prelude.{
  ℕ, ◌≤◌, String, true, false, ◌||◌, ◌==◌, eq_iff, none, some, List, [], ◌∷◌, ◌++◌, Dict, lookup,
  insert, if◌then◌else◌, ◌≡◌, refl, ap, ◌⊎◌, inl, inr, arith, member, member-append, All,
  All-append, All-imp, lookup-insert, Bool-cases,
}
use orjanda.Errors.{ok, err, Error}
use orjanda.App.{
  Definition, Walk, mark_of, enter, leave, Outcome, and_then, dependency_names, definition_names,
  start,
}

pub mark_of-insert :
    (k name : String) (n : ℕ) (visited : Dict ℕ)
    → mark_of k (insert name n visited) ≡ (if name == k then n else mark_of k visited)
unfolding mark_of
mark_of-insert k name n visited = ground (arith, lookup-insert name k n visited)

-- Each definition stands after those that it depends on, and no name stands twice; `seen` holds the
-- names that stand before.
abbrev pub Ordered : List String → List Definition → Type 0
Ordered seen [] = Unit
Ordered seen (d ∷ ds) =
    (member d.name seen ≡ false)
    × All (λ dep. member dep seen ≡ true) (dependency_names d.dependencies)
    × Ordered (d.name ∷ seen) ds

definition_names-append :
    (ds es : List Definition)
    → definition_names (ds ++ es) ≡ definition_names ds ++ definition_names es
unfolding definition_names
definition_names-append [] es = refl
definition_names-append (d ∷ ds) es =
    ap (λ (t : List String). d.name ∷ t) (definition_names-append ds es)

Ordered-concat :
    (seen : List String) (ds : List Definition) (d : Definition)
    → Ordered seen ds
    → member d.name seen ≡ false
    → member d.name (definition_names ds) ≡ false
    → All
        (λ dep. (member dep seen || member dep (definition_names ds)) ≡ true)
        (dependency_names d.dependencies)
    → Ordered seen (ds ++ d ∷ [])
unfolding definition_names
Ordered-concat seen [] d o fresh new deps =
    (fresh, All-imp (λ dep h. ground arith) (dependency_names d.dependencies) deps, tt)
Ordered-concat seen (e ∷ es) d (p, q, o) fresh new deps = (
  p,
  q,
  Ordered-concat (e.name ∷ seen) es d o (ground arith) (ground arith)
      (All-imp (λ dep h. ground arith) (dependency_names d.dependencies) deps),
)

pub record Inv (apps : Dict Definition) (w : Walk) : Type 0 where
  pub bounded : (k : String) → mark_of k w.visited ≤ 2
  pub done_listed :
      (k : String) → mark_of k w.visited ≡ 2 → member k (definition_names w.result) ≡ true
  listed_done : (k : String) → member k (definition_names w.result) ≡ true → mark_of k w.visited ≡ 2
  pub ordered : Ordered [] w.result
  pub known : All (λ (d : Definition). lookup d.name apps ≡ some d) w.result

-- From one walk to a later one a mark stays, or goes from unvisited to visited.
abbrev pub Frame : Walk → Walk → Type 0
Frame w w' =
    (k : String)
    → (mark_of k w'.visited ≡ mark_of k w.visited)
      ⊎ ((mark_of k w.visited ≡ 0) × (mark_of k w'.visited ≡ 2))

pub Frame-trans : (w v u : Walk) → Frame w v → Frame v u → Frame w u
Frame-trans w v u f g k = ground (arith, f k, g k)

pub start-Inv : (apps : Dict Definition) → Inv apps start
unfolding mark_of lookup definition_names
start-Inv apps = record {
  bounded = λ k. omega arith;
  done_listed = λ k h. absurd (omega arith);
  listed_done = λ k h. cc;
  ordered = tt;
  known = tt;
}

pub enter-Inv :
    (apps : Dict Definition) (name : String) (w : Walk)
    → mark_of name w.visited ≡ 0
    → Inv apps w
    → Inv apps (enter name w)
unfolding enter
enter-Inv apps name w new h = record {
  bounded = λ k. ground (arith, mark_of-insert k name 1 w.visited, h.bounded k);
  done_listed = λ k e. ground (arith, mark_of-insert k name 1 w.visited, h.done_listed k);
  listed_done =
      λ k e. ground (arith, mark_of-insert k name 1 w.visited, h.listed_done k, eq_iff name k);
  ordered = h.ordered;
  known = h.known;
}

member-leave :
    (k name : String) (def : Definition) (w : Walk)
    → member k (definition_names (leave name def w).result)
      ≡ (member k (definition_names w.result) || def.name == k)
unfolding leave
member-leave k name def w = rw (definition_names-append w.result (def ∷ [])) (
    rw (member-append k (definition_names w.result) (definition_names (def ∷ [])))
      (unfold definition_names in ground arith))

not_listed :
    (apps : Dict Definition) (k : String) (w : Walk)
    → Inv apps w
    → mark_of k w.visited ≡ 1
    → member k (definition_names w.result) ≡ false
not_listed apps k w h here = elim (Bool-cases (member k (definition_names w.result))) [
  | inl e ↦ absurd (omega (arith, here, h.listed_done k e))
  | inr e ↦ e
]

-- The mark 1 that `enter` sets is still there when `leave` replaces it.
pub leave-Inv :
    (apps : Dict Definition) (name : String) (def : Definition) (w : Walk)
    → lookup name apps ≡ some def
    → def.name ≡ name
    → mark_of name w.visited ≡ 1
    → All (λ dep. mark_of dep w.visited ≡ 2) (dependency_names def.dependencies)
    → Inv apps w
    → Inv apps (leave name def w)
unfolding leave
leave-Inv apps name def w found named here deps h = record {
  bounded = λ k. ground (arith, mark_of-insert k name 2 w.visited, h.bounded k);
  done_listed = λ k e. ground (
    arith,
    member-leave k name def w,
    mark_of-insert k name 2 w.visited,
    h.done_listed k,
    eq_iff name k,
    eq_iff def.name k,
  );
  listed_done = λ k e. ground (
    arith,
    member-leave k name def w,
    mark_of-insert k name 2 w.visited,
    h.listed_done k,
    eq_iff name k,
    eq_iff def.name k,
  );
  ordered =
      Ordered-concat [] w.result def h.ordered refl (rw named (not_listed apps name w h here))
        (All-imp (λ dep e. h.done_listed dep e) (dependency_names def.dependencies) deps);
  known =
      All-append (λ (d : Definition). lookup d.name apps ≡ some d) w.result (def ∷ []) h.known
        (simp named found, tt);
}

pub enter-leave-Frame :
    (name : String) (def : Definition) (w w' : Walk)
    → mark_of name w.visited ≡ 0
    → Frame (enter name w) w'
    → Frame w (leave name def w')
unfolding enter leave
enter-leave-Frame name def w w' new f k = ground (
  arith,
  f k,
  mark_of-insert k name 1 w.visited,
  mark_of-insert k name 2 w'.visited,
  eq_iff name k,
)

pub and_then-ok :
    (o : Outcome) (next : Walk → Outcome) {w' : Walk}
    → and_then o next ≡ some (ok w')
    → (w : Walk) × (o ≡ some (ok w)) × (next w ≡ some (ok w'))
and_then-ok none next h = cc
and_then-ok (some (err e)) next h = cc
and_then-ok (some (ok w)) next h = (w, refl, h)

pub Outcome-cases :
    (o : Outcome)
    → (o ≡ none) ⊎ (((x : Error) × (o ≡ some (err x))) ⊎ ((w : Walk) × (o ≡ some (ok w))))
Outcome-cases none = inl refl
Outcome-cases (some (err x)) = inr (inl (x, refl))
Outcome-cases (some (ok w)) = inr (inr (w, refl))
