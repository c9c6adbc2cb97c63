-- ===== src/Tools/Projected.antt =====
-- projectSchema of agent/tools/tools.go: the properties of a payload that the caller is shown.
use orjanda.Prelude.{
  String, Bool, true, false, not, ◌&&◌, ◌||◌, ◌==◌, List, [], ◌∷◌, Option, none, some, lookup,
  insert, delete, has_key, is_some, lookup-insert, lookup-delete, is_empty, member, any,
  if◌then◌else◌, Bool-cases, ◌≡◌, refl, inl, inr, arith, ◌∙◌, ap,
}
use orjanda.Prelude.Int.{ℤ}
use Prim.Native.Nat.{ℕ}
use orjanda.Errors.{ok}
use orjanda.Value.{Value, Row, Fields, array, object, fields, as_object}
use orjanda.Auth.{Context, from_context}
use orjanda.Schema.{Field, CompiledDoc}
use orjanda.Perm.{may_access, allowed_loop, allowed_fields}
use orjanda.Tools.Names.{snake_case, to_fields, json_copy, json_fields, object_schema}
use orjanda.Tools.Schemas.{
  gated_fields, build_payload_schema, payload_props, nested_props, required_keys,
}
use orjanda.Tools.{ToolTemplate, ToolRegistry, create_template, update_template}
use orjanda.Tools.Offer.{
  row_of, without, list_of, value_items, drop_closed, project_allowed, project_schema,
}

abbrev pub properties_in : Row → Row
properties_in sch = row_of (as_object (lookup "properties" sch))

abbrev copy_found : (ℤ → ℕ) → Option Value → Option Value
copy_found float_of none = none
copy_found float_of (some v) = some (json_copy float_of v)

fields-to_fields : (row : Row) → fields (to_fields row) ≡ row
fields-to_fields [] = refl
fields-to_fields ((k, v) ∷ row) = ap (λ (rest : Row). (k, v) ∷ rest) (fields-to_fields row)

lookup-json_fields :
    (float_of : ℤ → ℕ) (k : String) (fs : Fields)
    → lookup k (fields (json_fields float_of fs)) ≡ copy_found float_of (lookup k (fields fs))
unfolding lookup json_copy
lookup-json_fields float_of k Fields.end = refl
lookup-json_fields float_of k (Fields.field j v fs) = elim (Bool-cases (j == k)) [
  | inl same ↦ rw same refl
  | inr apart ↦ rw apart (lookup-json_fields float_of k fs)
]

-- whether a gated field that is not allowed goes by the key
abbrev is_closed_key : List String → List String → String → Bool
is_closed_key gated allowed k =
    any (λ (g : String). not (member g allowed) && snake_case g == k) gated

lookup-drop_closed :
    (k : String) (gated allowed : List String) (props : Row) (required : List Value)
    → lookup k (drop_closed gated allowed (props, required)).0
      ≡ (if is_closed_key gated allowed k then none else lookup k props)
unfolding drop_closed
lookup-drop_closed k [] allowed props required = refl
lookup-drop_closed k (g ∷ gated) allowed props required =
    let dropped : Row × List Value =
      (delete (snake_case g) props, without (snake_case g) required) in
    elim (member g allowed)
      as (λ (shown : Bool).
        lookup k (drop_closed gated allowed (if shown then (props, required) else dropped)).0 ≡ (
          if (not shown && snake_case g == k) || is_closed_key gated allowed k
          then none
          else lookup k props)) [
            | true ↦ lookup-drop_closed k gated allowed props required
            | false ↦
                lookup-drop_closed k gated allowed (delete (snake_case g) props)
                  (without (snake_case g) required)
                ∙ ground (arith, lookup-delete (snake_case g) k props)
          ]

-- whether a field that goes by the key is gated by a role, and no field of its name is open to the roles
abbrev is_shut : List String → List Field → Field → Bool
is_shut roles all_fields f =
    not (f.permission_role == "")
    && not (any (λ (g : Field). may_access roles g && g.name == f.name) all_fields)

abbrev pub is_shut_key : List String → List Field → List Field → String → Bool
is_shut_key roles all_fields fs k =
    any (λ (f : Field). is_shut roles all_fields f && snake_case f.name == k) fs

member-allowed_loop :
    (roles : List String) (name : String) (fs : List Field)
    → member name (allowed_loop roles fs)
      ≡ any (λ (g : Field). may_access roles g && g.name == name) fs
unfolding allowed_loop
member-allowed_loop roles name [] = refl
member-allowed_loop roles name (f ∷ fs) = ground (arith, member-allowed_loop roles name fs)

is_closed_key-gated_fields :
    (roles : List String) (all_fields fs : List Field) (k : String)
    → is_closed_key (gated_fields fs) (allowed_loop roles all_fields) k
      ≡ is_shut_key roles all_fields fs k
unfolding gated_fields
is_closed_key-gated_fields roles all_fields [] k = refl
is_closed_key-gated_fields roles all_fields (f ∷ fs) k = ground (
  arith,
  is_closed_key-gated_fields roles all_fields fs k,
  member-allowed_loop roles f.name all_fields,
)

properties-copied :
    (float_of : ℤ → ℕ) (props : Row) (required : List String) (k : String)
    → lookup k
        (properties_in (fields (json_fields float_of (to_fields (object_schema props required)))))
      ≡ copy_found float_of (lookup k props)
unfolding json_fields lookup
properties-copied float_of props required k =
    lookup-json_fields float_of k (to_fields props)
    ∙ ap (λ (row : Row). copy_found float_of (lookup k row)) (fields-to_fields props)

properties-project_allowed :
    (float_of : ℤ → ℕ) (tmpl : ToolTemplate) (allowed : List String) (k : String)
    → lookup k (properties_in (project_allowed float_of tmpl allowed)) ≡ (
        if is_closed_key tmpl.gated allowed k
        then none
        else lookup k (properties_in (fields (json_fields float_of (to_fields tmpl.base_schema)))))
unfolding project_allowed
properties-project_allowed float_of tmpl allowed k =
    let copied = fields (json_fields float_of (to_fields tmpl.base_schema)) in
    let kept =
      drop_closed tmpl.gated allowed (properties_in copied, list_of (lookup "required" copied)) in
    ap (λ (found : Option Value). lookup k (row_of (as_object found)))
      (lookup-insert "required" "properties" (array (value_items kept.1))
          (insert "properties" (object (to_fields kept.0)) copied)
        ∙ lookup-insert "properties" "properties" (object (to_fields kept.0)) copied)
    ∙ ap (λ (row : Row). lookup k row) (fields-to_fields kept.0)
    ∙ lookup-drop_closed k tmpl.gated allowed (properties_in copied)
        (list_of (lookup "required" copied))

abbrev pub payload_template : Bool → CompiledDoc → ToolTemplate
payload_template true doc = update_template doc
payload_template false doc = create_template doc

has_key-copied :
    (float_of : ℤ → ℕ) (found : Option Value) → is_some (copy_found float_of found) ≡ is_some found
has_key-copied float_of none = refl
has_key-copied float_of (some v) = refl

no_gated-is_shut_key :
    (roles : List String) (all_fields fs : List Field) (k : String)
    → is_empty (gated_fields fs) ≡ true
    → is_shut_key roles all_fields fs k ≡ false
unfolding gated_fields
no_gated-is_shut_key roles all_fields [] k h = refl
no_gated-is_shut_key roles all_fields (f ∷ fs) k h =
    ground (arith, no_gated-is_shut_key roles all_fields fs k)

-- a template with an object's schema and the gated fields of the document
abbrev gated_template : ToolTemplate → CompiledDoc → Row → List String → ToolTemplate
gated_template tmpl doc props required = record tmpl {
  doc_type = doc.name;
  base_schema = object_schema props required;
  gated = gated_fields doc.fields;
}

project_with-shown :
    (float_of : ℤ → ℕ) (roles : List String) (doc : CompiledDoc) (tmpl : ToolTemplate) (props : Row)
    (required : List String) (k : String)
    → is_some (
        lookup k (
          properties_in (
            project_allowed float_of
              (gated_template tmpl doc props required)
              (allowed_loop roles doc.fields))))
      ≡ (is_some (lookup k props) && not (is_shut_key roles doc.fields doc.fields k))
project_with-shown float_of roles doc tmpl props required k =
    let t = gated_template tmpl doc props required in
    let allowed = allowed_loop roles doc.fields in
    ap (λ (v : Option Value). is_some v) (properties-project_allowed float_of t allowed k)
    ∙ ground (
      arith,
      is_closed_key-gated_fields roles doc.fields doc.fields k,
      ap (λ (v : Option Value). is_some v) (properties-copied float_of props required k),
      has_key-copied float_of (lookup k props),
    )

project_schema-shown :
    (t : ToolRegistry) (ctx : Context) (doc : CompiledDoc) (tmpl : ToolTemplate) (props : Row)
    (required : List String) (k : String)
    → t.perm.reg doc.name ≡ ok doc
    → has_key k (properties_in (project_schema t ctx (gated_template tmpl doc props required)))
      ≡ (has_key k props && not (is_shut_key (from_context ctx).roles doc.fields doc.fields k))
unfolding project_schema allowed_fields has_key lookup
project_schema-shown t ctx doc tmpl props required k found =
    let roles = (from_context ctx).roles in
    elim (Bool-cases (is_empty (gated_fields doc.fields))) [
      | inl free ↦ rw free (
          ap (λ (row : Row). is_some (lookup k row)) (fields-to_fields props)
          ∙ ground (arith, no_gated-is_shut_key roles doc.fields doc.fields k free))
      | inr gates ↦
          rw gates (rw found (project_with-shown t.float_of roles doc tmpl props required k))
    ]

-- Where the permission engine knows the document type, the schema of the create or the update tool
-- that a caller is shown has exactly those properties of the payload that no closed field goes by: one
-- that is gated by a role which the caller lacks, with no open field of its name.
pub project_schema-is_shut_key :
    (t : ToolRegistry) (ctx : Context) (doc : CompiledDoc) (on_update : Bool) (k : String)
    → t.perm.reg doc.name ≡ ok doc
    → has_key k (properties_in (project_schema t ctx (payload_template on_update doc))) ≡ (
        has_key k (nested_props doc.child_tables (payload_props on_update doc.fields []))
        && not (is_shut_key (from_context ctx).roles doc.fields doc.fields k))
unfolding build_payload_schema
project_schema-is_shut_key t ctx doc true k found =
    project_schema-shown t ctx doc (update_template doc)
      (nested_props doc.child_tables (payload_props true doc.fields []))
      (required_keys true doc.fields) k found
project_schema-is_shut_key t ctx doc false k found =
    project_schema-shown t ctx doc (create_template doc)
      (nested_props doc.child_tables (payload_props false doc.fields []))
      (required_keys false doc.fields) k found
