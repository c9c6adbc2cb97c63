-- ===== src/Schema/Registry/Compiled.antt =====
-- What a registry answers after Compile of schema/registry.go succeeded.
use orjanda.Prelude.{
  String, Bool, true, false, eq_iff, List, [], ◌∷◌, Option, none, some, is_some, Dict, lookup,
  insert, has_key, lookup-insert, if◌then◌else◌, all, All, ◌≡◌, refl, ◌⊎◌, sym, ◌∙◌, ap, subst, inl,
  inr, arith, Bool-cases,
}
use orjanda.Errors.{Result, ok, err, fail, validation}
use orjanda.Schema.{Field, CompiledChild, CompiledDoc}
use orjanda.Schema.Registry.{
  RegisteredDoc, Registry, put_parsed, or_go_on, is_link, compile_docs, compiled_doc, resolves,
  doc_resolves, all_resolve, first_index, breaks_order, after_docs, compile,
}

-- The registered document is found by its name, as it was compiled from its fields and child tables.
abbrev IsFound : Dict CompiledDoc → RegisteredDoc → Type 0
IsFound docs rd =
    (parts : List Field × List CompiledChild) × (rd.parsed ≡ ok parts)
    × (lookup rd.meta.name docs ≡ some (compiled_doc rd parts.0 parts.1))

abbrev Taken :
    Dict CompiledDoc
    → RegisteredDoc
    → Result (List Field × List CompiledChild)
    → List RegisteredDoc
    → Result (Unit {0}) × Dict CompiledDoc
    → Type 0
Taken docs rd parsed rds result =
    (has_key rd.meta.name docs ≡ false)
    × (parts : List Field × List CompiledChild) × (parsed ≡ ok parts)
    × (result ≡ compile_docs rds (insert rd.meta.name (compiled_doc rd parts.0 parts.1) docs))

compile_parsed-Taken :
    (rd : RegisteredDoc) (rds : List RegisteredDoc) (docs : Dict CompiledDoc)
    (parsed : Result (List Field × List CompiledChild))
    → (if has_key rd.meta.name docs
        then (fail validation, docs)
        else or_go_on
            (put_parsed rd parsed docs).0
            (put_parsed rd parsed docs).1
            (compile_docs rds (put_parsed rd parsed docs).1)).0
      ≡ ok tt
    → Taken docs rd parsed rds (
        if has_key rd.meta.name docs
        then (fail validation, docs)
        else or_go_on
            (put_parsed rd parsed docs).0
            (put_parsed rd parsed docs).1
            (compile_docs rds (put_parsed rd parsed docs).1))
unfolding put_parsed
compile_parsed-Taken rd rds docs (err e) h = ground arith
compile_parsed-Taken rd rds docs (ok (fields, children)) h =
    elim (Bool-cases (has_key rd.meta.name docs)) [
      | inl twice ↦ ground arith
      | inr free ↦ (free, (fields, children), refl, rw free refl)
    ]

compile_docs-Taken :
    (rd : RegisteredDoc) (rds : List RegisteredDoc) (docs : Dict CompiledDoc)
    → (compile_docs (rd ∷ rds) docs).0 ≡ ok tt
    → Taken docs rd rd.parsed rds (compile_docs (rd ∷ rds) docs)
unfolding compile_docs
compile_docs-Taken rd rds docs h = compile_parsed-Taken rd rds docs rd.parsed h

lookup-insert_absent :
    (k j : String) (d held : CompiledDoc) (docs : Dict CompiledDoc)
    → has_key k docs ≡ false
    → lookup j docs ≡ some held
    → lookup j (insert k d docs) ≡ some held
unfolding has_key
lookup-insert_absent k j d held docs absent found =
    ground (arith, lookup-insert k j d docs, eq_iff k j)

-- A document that is in the map stays there.
lookup-compile_docs :
    (j : String) (held : CompiledDoc) (rds : List RegisteredDoc) (docs : Dict CompiledDoc)
    → (compile_docs rds docs).0 ≡ ok tt
    → lookup j docs ≡ some held
    → lookup j (compile_docs rds docs).1 ≡ some held
lookup-compile_docs j held [] docs h found = unfold compile_docs in found
lookup-compile_docs j held (rd ∷ rds) docs h found =
    let (free, parts, parsed, same) = compile_docs-Taken rd rds docs h in
    let d = compiled_doc rd parts.0 parts.1 in
    ap (λ (result : Result (Unit {0}) × Dict CompiledDoc). lookup j result.1) same
    ∙ lookup-compile_docs j held rds (insert rd.meta.name d docs)
        (sym (ap (λ (result : Result (Unit {0}) × Dict CompiledDoc). result.0) same) ∙ h)
        (lookup-insert_absent rd.meta.name j d held docs free found)

compile_docs-IsFound :
    (rds : List RegisteredDoc) (docs : Dict CompiledDoc)
    → (compile_docs rds docs).0 ≡ ok tt
    → All (IsFound (compile_docs rds docs).1) rds
compile_docs-IsFound [] docs h = tt
compile_docs-IsFound (rd ∷ rds) docs h =
    let (free, parts, parsed, same) = compile_docs-Taken rd rds docs h in
    let d = compiled_doc rd parts.0 parts.1 in
    let after = insert rd.meta.name d docs in
    let rest = sym (ap (λ (result : Result (Unit {0}) × Dict CompiledDoc). result.0) same) ∙ h in
    subst (λ (result : Result (Unit {0}) × Dict CompiledDoc). All (IsFound result.1) (rd ∷ rds))
      (sym same)
      (
        (
          parts,
          parsed,
          lookup-compile_docs rd.meta.name d rds after rest (
              ground (
                arith,
                lookup-insert rd.meta.name rd.meta.name d docs,
                eq_iff rd.meta.name rd.meta.name,
              )),
        ),
        compile_docs-IsFound rds after rest,
      )

-- A Link field points to a document of the map.
abbrev pub IsLinked : Dict CompiledDoc → Field → Type 0
IsLinked docs f =
    (is_link f.type ≡ false) ⊎ ((doc : CompiledDoc) × (lookup f.link_target docs ≡ some doc))

abbrev pub IsDocLinked : Dict CompiledDoc → String × CompiledDoc → Type 0
IsDocLinked docs (name, doc) =
    All (IsLinked docs) doc.fields
    × All (λ (child : CompiledChild). All (IsLinked docs) child.fields) doc.child_tables

module _ {ℓ κ} {A : Type ℓ} {P : A → Type κ} (p : A → Bool)
    (of_true : (x : A) → p x ≡ true → P x) where
  all-All : (xs : List A) → all p xs ≡ true → All P xs
  all-All [] h = tt
  all-All (x ∷ xs) h = (of_true x (ground arith), all-All xs (ground arith))

found-of_has_key :
    (found : Option CompiledDoc) → is_some found ≡ true → (doc : CompiledDoc) × (found ≡ some doc)
found-of_has_key none h = cc
found-of_has_key (some doc) h = (doc, refl)

resolves-IsLinked : (docs : Dict CompiledDoc) (f : Field) → resolves docs f ≡ true → IsLinked docs f
unfolding resolves has_key
resolves-IsLinked docs f h = elim (Bool-cases (is_link f.type)) [
  | inl links ↦ inr (found-of_has_key (lookup f.link_target docs) (ground arith))
  | inr plain ↦ inl plain
]

doc_resolves-IsDocLinked :
    (docs : Dict CompiledDoc) (entry : String × CompiledDoc)
    → doc_resolves docs entry.1 ≡ true
    → IsDocLinked docs entry
unfolding doc_resolves
doc_resolves-IsDocLinked docs (name, doc) h = (
  all-All (λ (f : Field). resolves docs f) (resolves-IsLinked docs) doc.fields (ground arith),
  all-All (λ (child : CompiledChild). all (λ (f : Field). resolves docs f) child.fields)
      (λ child t. all-All (λ (f : Field). resolves docs f) (resolves-IsLinked docs) child.fields t)
      doc.child_tables (ground arith),
)

-- What Compile leaves where it succeeds.
abbrev pub IsCompiled : List RegisteredDoc → Registry → Type 0
IsCompiled rds r = (r.compiled ≡ true) × All (IsFound r.docs) rds × All (IsDocLinked r.docs) r.docs

after_docs-IsCompiled :
    (r : Registry) (rds : List RegisteredDoc) (result : Result (Unit {0}) × Dict CompiledDoc)
    → (result.0 ≡ ok tt → All (IsFound result.1) rds)
    → (after_docs r result).0 ≡ ok tt
    → IsCompiled rds (after_docs r result).1
after_docs-IsCompiled r rds (err e, docs) found h = cc
after_docs-IsCompiled r rds (ok done, docs) found h = elim (Bool-cases (all_resolve docs docs)) [
  | inl resolved ↦ rw resolved (
    refl,
    found refl,
    all-All (λ (entry : String × CompiledDoc). doc_resolves docs entry.1)
        (doc_resolves-IsDocLinked docs) docs resolved,
  )
  | inr dangling ↦ ground arith
]

-- What succeeded has passed a guard that fails.
passes_guard :
    (Q : Registry → Type 0) (guard : Bool) (stop next : Result (Unit {0}) × Registry)
    → ¬ (stop.0 ≡ ok tt)
    → (next.0 ≡ ok tt → Q next.1)
    → (if guard then stop else next).0 ≡ ok tt
    → Q (if guard then stop else next).1
passes_guard Q true stop next fails holds h = elim (fails h) [ ]
passes_guard Q false stop next fails holds h = holds h

pub compile-IsCompiled :
    (r : Registry) → (compile r).0 ≡ ok tt → IsCompiled r.registered (compile r).1
unfolding compile
compile-IsCompiled r h =
    passes_guard (IsCompiled r.registered) r.compiled _ _ (λ e. cc)
      (passes_guard (IsCompiled r.registered)
        (breaks_order r.app_deps (first_index 0 r.registered []) 0 r.registered) _ _ (λ e. cc)
        (after_docs-IsCompiled r r.registered (compile_docs r.registered r.docs)
          (compile_docs-IsFound r.registered r.docs)))
      h
