-- ===== src/Schema/Registry/Related.antt =====
-- List and Relationships of schema/registry.go.
use orjanda.Prelude.{
  String, Bool, true, false, ◌&&◌, ◌==◌, eq_iff, List, [], ◌∷◌, ◌++◌, Option, none, some, Dict,
  lookup, if◌then◌else◌, All, All-append, ◌≡◌, refl, subst, ◌⊎◌, inl, inr, arith, Bool-cases,
}
use orjanda.Errors.{ok}
use orjanda.Schema.{Field, CompiledChild, CompiledDoc}
use orjanda.Schema.Registry.{Registry, is_link, compile}
use orjanda.Schema.Registry.Compiled.{IsLinked, IsDocLinked, compile-IsCompiled}

pub record Relationship : Type 0 where
  pub from_doc : String
  pub from_field : String
  pub to_doc : String
  pub is_child_table : Bool

-- List, in the order of the map
unfoldable pub list_docs : Dict CompiledDoc → List CompiledDoc
list_docs [] = []
list_docs ((name, doc) ∷ docs) = doc ∷ list_docs docs

-- the links of a document's fields
unfoldable pub links_from : String → List Field → List Relationship
links_from doc_type [] = []
links_from doc_type (f ∷ fs) =
    let rest = links_from doc_type fs in
    if is_link f.type
    then record {
      from_doc = doc_type;
      from_field = f.name;
      to_doc = f.link_target;
      is_child_table = false;
    }
      ∷ rest
    else rest

unfoldable pub children_from : String → List CompiledChild → List Relationship
children_from doc_type [] = []
children_from doc_type (child ∷ children) =
    record {
      from_doc = doc_type;
      from_field = child.field_name;
      to_doc = child.doc_type;
      is_child_table = true;
    }
    ∷ children_from doc_type children

-- the links of another document's fields to this one
unfoldable pub links_to : String → String → List Field → List Relationship
links_to doc_type name [] = []
links_to doc_type name (f ∷ fs) =
    let rest = links_to doc_type name fs in
    if is_link f.type && f.link_target == doc_type
    then record { from_doc = name; from_field = f.name; to_doc = doc_type; is_child_table = false }
      ∷ rest
    else rest

unfoldable pub incoming : String → Dict CompiledDoc → List Relationship
incoming doc_type [] = []
incoming doc_type ((key, doc) ∷ docs) =
    let rest = incoming doc_type docs in
    if doc.name == doc_type then rest else links_to doc_type doc.name doc.fields ++ rest

abbrev outgoing : String → Option CompiledDoc → List Relationship
outgoing doc_type none = []
outgoing doc_type (some doc) =
    links_from doc_type doc.fields ++ children_from doc_type doc.child_tables

unfoldable pub relationships : Registry → String → List Relationship
relationships r doc_type = outgoing doc_type (lookup doc_type r.docs) ++ incoming doc_type r.docs

module _ (docs : Dict CompiledDoc) (doc_type : String) where
  -- The relationship has the document at one of its ends, and it is to a child table or to a document
  -- that is found.
  abbrev pub IsRelated : Relationship → Type 0
  IsRelated rel =
      ((rel.from_doc ≡ doc_type) ⊎ (rel.to_doc ≡ doc_type))
      × ((rel.is_child_table ≡ true) ⊎ ((doc : CompiledDoc) × (lookup rel.to_doc docs ≡ some doc)))

  links_from-IsRelated :
      (fs : List Field) → All (IsLinked docs) fs → All IsRelated (links_from doc_type fs)
  unfolding links_from
  links_from-IsRelated [] h = tt
  links_from-IsRelated (f ∷ fs) (inl plain, h) = rw plain (links_from-IsRelated fs h)
  links_from-IsRelated (f ∷ fs) (inr target, h) =
      elim (is_link f.type)
        as (λ b. All IsRelated (
          if b
          then record {
            from_doc = doc_type;
            from_field = f.name;
            to_doc = f.link_target;
            is_child_table = false;
          }
            ∷ links_from doc_type fs
          else links_from doc_type fs)) [
            | true ↦ ((inl refl, inr target), links_from-IsRelated fs h)
            | false ↦ links_from-IsRelated fs h
          ]

  children_from-IsRelated :
      (children : List CompiledChild) → All IsRelated (children_from doc_type children)
  unfolding children_from
  children_from-IsRelated [] = tt
  children_from-IsRelated (child ∷ children) =
      ((inl refl, inl refl), children_from-IsRelated children)

  links_to-IsRelated :
      (name : String) (fs : List Field)
      → All (IsLinked docs) fs
      → All IsRelated (links_to doc_type name fs)
  unfolding links_to
  links_to-IsRelated name [] h = tt
  links_to-IsRelated name (f ∷ fs) (linked, h) =
      elim (Bool-cases (is_link f.type && f.link_target == doc_type)) [
        | inl points ↦
            let here : f.link_target ≡ doc_type =
              (eq_iff f.link_target doc_type).0 (ground arith) in
            rw (links_to, points)
              ((inr refl, inr (target here linked (ground arith))), links_to-IsRelated name fs h)
        | inr other ↦ rw (links_to, other) (links_to-IsRelated name fs h)
      ]
    where
      target :
          f.link_target ≡ doc_type
          → IsLinked docs f
          → is_link f.type ≡ true
          → (doc : CompiledDoc) × (lookup doc_type docs ≡ some doc)
      target here (inl plain) links = absurd (ground arith)
      target here (inr (doc, found)) links =
          (doc, subst (λ (x : String). lookup x docs ≡ some doc) here found)

  incoming-IsRelated :
      (entries : Dict CompiledDoc)
      → All (IsDocLinked docs) entries
      → All IsRelated (incoming doc_type entries)
  unfolding incoming
  incoming-IsRelated [] h = tt
  incoming-IsRelated ((key, doc) ∷ entries) ((linked, children), h) =
      elim (doc.name == doc_type)
        as (λ b. All IsRelated (
          if b
          then incoming doc_type entries
          else links_to doc_type doc.name doc.fields ++ incoming doc_type entries)) [
            | true ↦ incoming-IsRelated entries h
            | false ↦
                All-append IsRelated (links_to doc_type doc.name doc.fields)
                  (incoming doc_type entries) (links_to-IsRelated doc.name doc.fields linked)
                  (incoming-IsRelated entries h)
          ]

  outgoing-IsRelated :
      (o : Option CompiledDoc)
      → ((doc : CompiledDoc) → o ≡ some doc → All (IsLinked docs) doc.fields)
      → All IsRelated (outgoing doc_type o)
  outgoing-IsRelated none h = tt
  outgoing-IsRelated (some doc) h =
      All-append IsRelated (links_from doc_type doc.fields)
        (children_from doc_type doc.child_tables) (links_from-IsRelated doc.fields (h doc refl))
        (children_from-IsRelated doc.child_tables)

  found-IsLinked :
      (entries : Dict CompiledDoc) (doc : CompiledDoc)
      → All (IsDocLinked docs) entries
      → lookup doc_type entries ≡ some doc
      → All (IsLinked docs) doc.fields
  unfolding lookup
  found-IsLinked [] doc h found = absurd (ground arith)
  found-IsLinked ((key, held) ∷ entries) doc ((linked, children), h) found =
      elim (Bool-cases (key == doc_type)) [
        | inl here ↦
            let same : held ≡ doc = grind arith in
            subst (λ (d : CompiledDoc). All (IsLinked docs) d.fields) same linked
        | inr other ↦ found-IsLinked entries doc h (ground arith)
      ]

-- After a Compile that succeeded, each relationship of a document type has it at one of its ends, and
-- each that is not to a child table points to a document that is found.
pub relationships-IsRelated :
    (r : Registry) (doc_type : String)
    → (compile r).0 ≡ ok tt
    → All (IsRelated (compile r).1.docs doc_type) (relationships (compile r).1 doc_type)
unfolding relationships
relationships-IsRelated r doc_type h =
    let (locked, found, linked) = compile-IsCompiled r h in
    let docs = (compile r).1.docs in
    All-append (IsRelated docs doc_type) (outgoing doc_type (lookup doc_type docs))
      (incoming doc_type docs)
      (outgoing-IsRelated docs doc_type (lookup doc_type docs)
        (λ doc at. found-IsLinked docs doc_type docs doc linked at))
      (incoming-IsRelated docs doc_type docs linked)
