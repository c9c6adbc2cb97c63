-- ===== src/Audit/Changes.antt =====
-- What the differences that DiffMaps (audit/audit.go) records say of each column.
use orjanda.Prelude.{
  String, true, false, ◌==◌, List, [], ◌∷◌, ◌++◌, Option, none, some, lookup, has_key,
  if◌then◌else◌, ◌≡◌, refl, ◌∙◌, sym, ap, arith, inl, inr, Bool-cases, Option-cases, HasUniqueKeys,
  eq_iff,
}
use orjanda.Value.{Value, Row, null}
use orjanda.Audit.{FieldChange, value_at, values_equal, new_changes, lost_changes, diff_maps}

-- the first change of a column
abbrev pub change_of : String → List FieldChange → Option (Value × Value)
change_of k [] = none
change_of k (c ∷ cs) = if c.field == k then some (c.old_value, c.new_value) else change_of k cs

abbrev or_else : Option (Value × Value) → Option (Value × Value) → Option (Value × Value)
or_else none other = other
or_else (some c) other = some c

or_else-none : (o : Option (Value × Value)) → or_else o none ≡ o
or_else-none none = refl
or_else-none (some c) = refl

change_of-append :
    (k : String) (cs ds : List FieldChange)
    → change_of k (cs ++ ds) ≡ or_else (change_of k cs) (change_of k ds)
change_of-append k [] ds = refl
change_of-append k (c ∷ cs) ds = ground (arith, change_of-append k cs ds)

module _ (show : Value → String) where
  -- what is to be recorded of a column, by what both documents hold there
  abbrev pub recorded : Option Value → Option Value → Option (Value × Value)
  recorded old (some v) =
      if values_equal show (value_at old) v then none else some (value_at old, v)
  recorded (some v) none = some (v, null)
  recorded none none = none

  change_of-new_changes :
      (k : String) (old new : Row)
      → HasUniqueKeys new
      → change_of k (new_changes show old new)
        ≡ (if has_key k new then recorded (lookup k old) (lookup k new) else none)
  unfolding new_changes lookup has_key
  change_of-new_changes k old [] u = refl
  change_of-new_changes k old ((j, v) ∷ new) (fresh, u) =
      let later = change_of-new_changes k old new u in
      elim (Bool-cases (j == k)) [
        | inl same ↦
            let at = (eq_iff j k).0 same in
            let gone : has_key k new ≡ false =
              ap (λ (i : String). has_key i new) (sym at) ∙ fresh in
            let absent : change_of k (new_changes show old new) ≡ none = later ∙ rw gone in
            elim (Bool-cases (values_equal show (value_at (lookup j old)) v)) [
              | inl equal ↦
                  let kept : values_equal show (value_at (lookup k old)) v ≡ true =
                    ap (λ (i : String). values_equal show (value_at (lookup i old)) v) (sym at)
                    ∙ equal in
                  rw same (rw equal (rw kept absent))
              | inr apart ↦
                  let changed : values_equal show (value_at (lookup k old)) v ≡ false =
                    ap (λ (i : String). values_equal show (value_at (lookup i old)) v) (sym at)
                    ∙ apart in
                  rw same (
                    rw apart (
                      rw changed
                        (rw same (ap (λ (i : String). some (value_at (lookup i old), v)) at))))
            ]
        | inr other ↦ elim (Bool-cases (values_equal show (value_at (lookup j old)) v)) [
          | inl equal ↦ rw other (rw equal later)
          | inr apart ↦ rw other (rw apart (rw other later))
        ]
      ]

  change_of-lost_changes :
      (k : String) (old new : Row)
      → HasUniqueKeys old
      → change_of k (lost_changes show old new)
        ≡ (if has_key k new then none else recorded (lookup k old) none)
  unfolding lost_changes lookup has_key
  change_of-lost_changes k [] new u = ground arith
  change_of-lost_changes k ((j, v) ∷ old) new (fresh, u) =
      ground (arith, change_of-lost_changes k old new u, eq_iff j k)

  -- DiffMaps records of each column what both documents hold there, where that differs, a column
  -- that only the old document has as one that becomes nil, and of the others nothing.
  pub change_of-diff_maps :
      (k : String) (old new : Row)
      → HasUniqueKeys old
      → HasUniqueKeys new
      → change_of k (diff_maps show old new) ≡ recorded (lookup k old) (lookup k new)
  unfolding diff_maps has_key
  change_of-diff_maps k old new u w =
      change_of-append k (new_changes show old new) (lost_changes show old new)
      ∙ rw (change_of-new_changes k old new w) (
          rw (change_of-lost_changes k old new u) (elim (Option-cases (lookup k new)) [
            | inl missing ↦ rw missing
            | inr (v, found) ↦ rw found (or_else-none (recorded (lookup k old) (some v)))
          ]))
