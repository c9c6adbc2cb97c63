-- ===== src/Perm/Fields.antt =====
-- Field-level permissions of perm/engine.go: FilterRead, FilterWrite and AllowedFields.
use orjanda.Prelude.{
  String, Bool, true, false, not, ◌&&◌, ◌||◌, ◌≡◌, refl, ◌⊎◌, inl, inr, ◌↔◌, ◌==◌, eq_iff, List, [],
  ◌∷◌, Bool-cases, none, arith, ap, sym, ◌∙◌, All, lookup, delete, has_key, any, if◌then◌else◌,
  lookup-delete,
}
use orjanda.Errors.{ok, fail, permission, not_found, ◌>>◌, bind-ok}
use orjanda.Value.{Row}
use orjanda.Auth.{Context, from_context}
use orjanda.Schema.{Field, CompiledDoc}
use orjanda.Perm.{Engine, may_access, strip_gated, filter_read, reject_gated, filter_write, or_fail}
use orjanda.Perm.Actions.{registered}

-- A field that the roles do not open goes by the key, as its name or as its column.
abbrev pub gates : List String → String → Field → Bool
gates roles k f = not (may_access roles f) && (f.name == k || f.db_column == k)

abbrev pub is_gated_key : List String → List Field → String → Bool
is_gated_key roles fs k = any (gates roles k) fs

lookup-strip_gated :
    (roles : List String) (fs : List Field) (row : Row) (k : String)
    → lookup k (strip_gated roles fs row) ≡ (if is_gated_key roles fs k then none else lookup k row)
unfolding strip_gated
lookup-strip_gated roles [] row k = refl
lookup-strip_gated roles (f ∷ fs) row k = ground (
  arith,
  lookup-strip_gated roles fs row k,
  lookup-strip_gated roles fs (delete f.db_column (delete f.name row)) k,
  lookup-delete f.db_column k (delete f.name row),
  lookup-delete f.name k row,
)

filter_read_found :
    (e : Engine) (ctx : Context) (doc_type : String) (row : Row) {compiled : CompiledDoc}
    → e.reg doc_type ≡ ok compiled
    → filter_read e ctx doc_type row ≡ ok (strip_gated (from_context ctx).roles compiled.fields row)
unfolding filter_read
filter_read_found e ctx doc_type row found = rw found

-- A successful FilterRead leaves out exactly the keys of the fields that are gated by a role which
-- the caller lacks, and keeps the value of each other key.
pub lookup-filter_read :
    (e : Engine) (ctx : Context) (doc_type : String) (row out : Row) (compiled : CompiledDoc)
    → e.reg doc_type ≡ ok compiled
    → filter_read e ctx doc_type row ≡ ok out
    → (k : String)
    → lookup k out
      ≡ (if is_gated_key (from_context ctx).roles compiled.fields k then none else lookup k row)
lookup-filter_read e ctx doc_type row out compiled found h k =
    let same : strip_gated (from_context ctx).roles compiled.fields row ≡ out =
      cc (filter_read_found e ctx doc_type row found) in
    rw (← same) (lookup-strip_gated (from_context ctx).roles compiled.fields row k)

-- No key of the row is gated for the roles.
abbrev pub IsOpen : List String → List Field → Row → Type 0
IsOpen roles fs row =
    All
      (λ (f : Field).
        may_access roles f ≡ false → (lookup f.name row ≡ none) × (lookup f.db_column row ≡ none))
      fs

reject_gated→IsOpen :
    (roles : List String) (fs : List Field) (row : Row)
    → reject_gated roles fs row ≡ ok tt
    → IsOpen roles fs row
unfolding reject_gated has_key
reject_gated→IsOpen roles [] row h = tt
reject_gated→IsOpen roles (f ∷ fs) row h =
    (λ shut. ground arith, reject_gated→IsOpen roles fs row (ground arith))

IsOpen→reject_gated :
    (roles : List String) (fs : List Field) (row : Row)
    → IsOpen roles fs row
    → reject_gated roles fs row ≡ ok tt
unfolding reject_gated has_key
IsOpen→reject_gated roles [] row h = refl
IsOpen→reject_gated roles (f ∷ fs) row (h, hs) = elim (Bool-cases (may_access roles f)) [
  | inl open_to ↦ ground (arith, IsOpen→reject_gated roles fs row hs)
  | inr shut ↦ ground (arith, IsOpen→reject_gated roles fs row hs, h shut)
]

filter_write_found :
    (e : Engine) (ctx : Context) (doc_type : String) (row : Row) {compiled : CompiledDoc}
    → e.reg doc_type ≡ ok compiled
    → filter_write e ctx doc_type row
      ≡ (reject_gated (from_context ctx).roles compiled.fields row >> ok row)
unfolding filter_write
filter_write_found e ctx doc_type row found = rw found

reject_gated_total :
    (roles : List String) (fs : List Field) (row : Row)
    → (reject_gated roles fs row ≡ ok tt) ⊎ (reject_gated roles fs row ≡ fail permission)
unfolding reject_gated
reject_gated_total roles [] row = inl refl
reject_gated_total roles (f ∷ fs) row = ground (arith, reject_gated_total roles fs row)

-- For a registered document type FilterWrite accepts a row exactly when no field that is gated by a
-- role which the caller lacks stands in it, under its name or its column; it then returns the row
-- as it is, and otherwise an error with the permission code.
pub filter_write_lem :
    (e : Engine) (ctx : Context) (doc_type : String) (row : Row) (compiled : CompiledDoc)
    → e.reg doc_type ≡ ok compiled
    → ((filter_write e ctx doc_type row ≡ ok row)
        ↔ IsOpen (from_context ctx).roles compiled.fields row)
      × ((filter_write e ctx doc_type row ≡ ok row)
          ⊎ (filter_write e ctx doc_type row ≡ fail permission))
filter_write_lem e ctx doc_type row compiled found =
    let roles = (from_context ctx).roles in
    let same = filter_write_found e ctx doc_type row found in
    (
      (
        λ h.
            reject_gated→IsOpen roles compiled.fields row
              (bind-ok (reject_gated roles compiled.fields row) (λ _. ok row) (sym same ∙ h)).1,
        λ o. rw (same, IsOpen→reject_gated roles compiled.fields row o),
      ),
      elim (reject_gated_total roles compiled.fields row) [
        | inl q ↦ inl (rw (same, q))
        | inr q ↦ inr (rw (same, q))
      ],
    )

IsOpen-not-gated :
    (roles : List String) (fs : List Field) (row : Row) (k : String)
    → IsOpen roles fs row
    → is_gated_key roles fs k ≡ true
    → lookup k row ≡ none
IsOpen-not-gated roles [] row k o h = cc
IsOpen-not-gated roles (f ∷ fs) row k (o, os) h = elim (Bool-cases (gates roles k f)) [
  | inr g ↦ IsOpen-not-gated roles fs row k os (ground arith)
  | inl g ↦ ground (arith, eq_iff f.name k, eq_iff f.db_column k, o (ground arith))
]

-- A row that FilterWrite accepts comes back from FilterRead with every value in place.
filter_read-filter_write :
    (e : Engine) (ctx : Context) (doc_type : String) (row written out : Row)
    → filter_write e ctx doc_type row ≡ ok written
    → filter_read e ctx doc_type written ≡ ok out
    → (k : String) → lookup k out ≡ lookup k row
unfolding filter_write
filter_read-filter_write e ctx doc_type row written out w r k =
    let roles = (from_context ctx).roles in
    let (compiled, found, w') = bind-ok (or_fail (e.reg doc_type) (fail not_found)) _ w in
    let reg = registered (e.reg doc_type) not_found found in
    let (_, passed, same) = bind-ok (reject_gated roles compiled.fields row) (λ _. ok row) w' in
    let read = lookup-filter_read e ctx doc_type written out compiled reg r k in
    let row_same : row ≡ written = cc in
    elim (Bool-cases (is_gated_key roles compiled.fields k)) [
      | inr open_to ↦ ground (arith, read, ap (lookup k) row_same)
      | inl shut ↦ ground (
        arith,
        read,
        IsOpen-not-gated roles compiled.fields row k
            (reject_gated→IsOpen roles compiled.fields row passed) shut,
      )
    ]
