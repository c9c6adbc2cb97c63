-- ===== src/Dal/Migrator/Orphans.antt =====
-- The tables that Diff of dal/migrator.go drops.
use orjanda.Prelude.{
  String, Bool, true, false, ◌&&◌, ◌||◌, ◌==◌, eq_iff, List, [], ◌∷◌, Dict, has_key, lookup, member,
  sort_strings, member-sort_strings, if◌then◌else◌, ◌≡◌, refl, sym, ap, subst, ◌∙◌, ◌↔◌, ◌⊎◌, inl,
  inr, arith, Bool-cases,
}
use orjanda.Errors.{Result, ok, err, bind-ok}
use orjanda.Schema.{CompiledDoc}
use orjanda.Dal.Migrator.{
  TableInspector, ColumnTypes, SchemaDiff, add_docs, inspected, no_changes, add_orphan,
  compare_tables, looks_owned, orphans, table_names, diff,
}
use orjanda.Dal.Migrator.Targets.{produces, add_docs-names}

inspected-ok : {T : Type 0} (r : Result T) {t : T} → inspected r ≡ ok t → r ≡ ok t
inspected-ok (ok t) at = at
inspected-ok (err e) at = absurd (grind arith)

ok-same : {T : Type 0} {s t : T} → Result.ok s ≡ ok t → s ≡ t
ok-same at = cc

abbrev drops_of : Result SchemaDiff → List String
drops_of (err e) = []
drops_of (ok d) = d.drop_tables

-- how a step of the loop over the tables succeeds
add_orphan-cases :
    (table : String) (target : Bool) (seen : Result (Dict String)) (rest : Result (List String))
    (drops : List String)
    → (if target then rest else add_orphan table (inspected seen) rest) ≡ ok drops
    → ((target ≡ true) × (rest ≡ ok drops))
      ⊎ ((target ≡ false)
          × ((cols : Dict String) × (more : List String) × (seen ≡ ok cols)
              × (rest ≡ ok more)
              × (drops ≡ (if looks_owned cols then table ∷ more else more))))
add_orphan-cases table true seen rest drops at = inl (refl, at)
add_orphan-cases table false (err e) rest drops at = absurd (grind arith)
add_orphan-cases table false (ok cols) (err e) drops at = absurd (grind arith)
add_orphan-cases table false (ok cols) (ok more) drops at = inr (refl, (cols, more, refl, refl, cc))

member-made :
    (owned : Bool) (table : String) (more : List String) (t : String)
    → member t (if owned then table ∷ more else more) ≡ ((owned && table == t) || member t more)
member-made true table more t = refl
member-made false table more t = refl

module _ (types : ColumnTypes) (inspector : TableInspector) where
  -- The table has the columns of a document.
  abbrev pub IsOwned : String → Type 0
  IsOwned t =
      (cols : Dict String) × (inspector.existing_columns t ≡ ok cols) × (looks_owned cols ≡ true)

  abbrev IsOrphan : List String → List String → String → Type 0
  IsOrphan targets tables t = (member t tables ≡ true) × (member t targets ≡ false) × IsOwned t

  orphans-IsOrphan :
      (targets tables drops : List String)
      → orphans inspector targets tables ≡ ok drops
      → (t : String) → member t drops ≡ true
      → IsOrphan targets tables t
  unfolding orphans
  orphans-IsOrphan targets [] drops at t m = absurd (grind arith)
  orphans-IsOrphan targets (table ∷ tables) drops at t m =
      elim (add_orphan-cases table (member table targets) (inspector.existing_columns table)
        (orphans inspector targets tables) drops at) [
          | inl (target, rest) ↦
              let (there, other, owned) = orphans-IsOrphan targets tables drops rest t m in
              (ground arith, other, owned)
          | inr (free, (cols, more, seen, rest, made)) ↦
              let found : (looks_owned cols && table == t || member t more) ≡ true =
                sym (member-made (looks_owned cols) table more t)
                ∙ subst (λ (l : List String). member t l ≡ true) made m in
              elim (Bool-cases (looks_owned cols && table == t)) [
                | inl same ↦
                    let q : table ≡ t = (eq_iff table t).0 (ground arith) in
                    (
                      ground arith,
                      subst (λ (x : String). member x targets ≡ false) q free,
                      (
                        cols,
                        subst (λ (x : String). inspector.existing_columns x ≡ ok cols) q seen,
                        ground arith,
                      ),
                    )
                | inr later ↦
                    let (there, other, owned) =
                      orphans-IsOrphan targets tables more rest t (ground arith) in
                    (ground arith, other, owned)
              ]
        ]

  orphans-member :
      (targets tables drops : List String)
      → orphans inspector targets tables ≡ ok drops
      → (t : String) → IsOrphan targets tables t
      → member t drops ≡ true
  unfolding orphans
  orphans-member targets [] drops at t (there, other, owned) = absurd (grind arith)
  orphans-member targets (table ∷ tables) drops at t (there, other, owned) =
      elim (add_orphan-cases table (member table targets) (inspector.existing_columns table)
        (orphans inspector targets tables) drops at) [
          | inl (target, rest) ↦
              orphans-member targets tables drops rest t
                (grind (arith, eq_iff table t), other, owned)
          | inr (free, (cols, more, seen, rest, made)) ↦
              subst (λ (l : List String). member t l ≡ true) (sym made)
                (member-made (looks_owned cols) table more t ∙ elim (Bool-cases (table == t)) [
                  | inl same ↦
                      let (live, at_t, is) = owned in
                      let q : table ≡ t = (eq_iff table t).0 same in
                      let agree : looks_owned cols ≡ true = grind arith in ground arith
                  | inr differs ↦
                      let more_has =
                        orphans-member targets tables more rest t (ground arith, other, owned) in
                      ground arith
                ])
        ]

  diff-orphans :
      (docs : List CompiledDoc) (d : SchemaDiff) (existing : List String)
      → diff types inspector docs ≡ ok d
      → inspector.existing_tables ≡ ok existing
      → (drops : List String) × (orphans inspector (table_names (add_docs docs ([], [])).0) existing
          ≡ ok drops)
        × (d.drop_tables ≡ sort_strings drops)
  unfolding diff
  diff-orphans docs d existing at live =
      let (tables, by_table) = add_docs docs ([], []) in
      let (seen, looked, compared) = bind-ok (inspected inspector.existing_tables) _ at in
      let (begun, altered, dropped) =
        bind-ok (compare_tables types inspector seen by_table tables no_changes) _ compared in
      let (drops, orphaned, made) =
        bind-ok (orphans inspector (table_names tables) seen) _ dropped in
      let same : seen ≡ existing =
        ok-same (sym (inspected-ok inspector.existing_tables looked) ∙ live) in
      (
        drops,
        subst (λ (l : List String). orphans inspector (table_names tables) l ≡ ok drops) same
            orphaned,
        sym (ap drops_of made),
      )

  -- A successful Diff drops exactly the tables that exist, that no document of the registry and no child
  -- table of one has, and that have the columns id and deleted.
  pub diff-drop_tables :
      (docs : List CompiledDoc) (d : SchemaDiff) (existing : List String)
      → diff types inspector docs ≡ ok d
      → inspector.existing_tables ≡ ok existing
      → (t : String)
      → (member t d.drop_tables ≡ true)
        ↔ ((member t existing ≡ true) × (produces docs t ≡ false) × IsOwned t)
  diff-drop_tables docs d existing at live t =
      let (drops, orphaned, sorted) = diff-orphans docs d existing at live in
      let targets = table_names (add_docs docs ([], [])).0 in
      let held : member t d.drop_tables ≡ member t drops =
        ap (member t) sorted ∙ member-sort_strings t drops in
      let made : member t targets ≡ produces docs t =
        add_docs-names docs ([], []) (λ k. unfold has_key lookup in refl) t in
      (
        (λ m.
            let (there, other, owned) =
              orphans-IsOrphan targets existing drops orphaned t (sym held ∙ m) in
            (there, sym made ∙ other, owned)),
        (λ orphan.
            let (there, unmade, owned) = orphan in
            held ∙ orphans-member targets existing drops orphaned t (there, made ∙ unmade, owned)),
      )
