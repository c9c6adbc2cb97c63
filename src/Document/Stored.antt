-- ===== src/Document/Stored.antt =====
-- What Create of document/engine.go did where it succeeded, and what Read answers.
use orjanda.Prelude.{
  String, false, List, [], ◌∷◌, Option, none, some, lookup, if◌then◌else◌, ◌≡◌, sym, ◌∙◌, ap,
}
use orjanda.Errors.{ok}
use orjanda.Value.{Row, text}
use orjanda.Auth.{Context, from_context}
use orjanda.Schema.{CompiledDoc}
use orjanda.Perm
use orjanda.Perm.{filter_read}
use orjanda.Perm.Fields.{is_gated_key, lookup-filter_read}
use orjanda.Dal.{by_id, World, lift}
use orjanda.Dal.Chains.{lift-ok, lift_then-ok, query-ok}
use orjanda.Document.{validate_fields, build_insert_row, normalize_to_columns}
use orjanda.Document.Engine.{
  Documents, Stamps, emit_on, permit, permit_write, permit_read, or_missing, check_unique, audit,
  store, create, read,
}

module _ {S : Type 0} (e : Documents S) (st : Stamps) (ctx : Context) (doc_type : String) where
  -- what the function of Create's transaction did
  pub record Inserted (compiled : CompiledDoc) (norm : Row) (w : World S) (id : String)
      : Type 0 where
    pub state : S
    pub stored :
        e.db.insert w.db doc_type (build_insert_row st.doc_id st.now compiled norm) ≡ ok (state, id)
    pub saved : Row
    pub audited : (audit e st ctx "create" doc_type id [] saved (record w { db = state })).0 ≡ ok tt
    pub left :
        (store e st ctx doc_type compiled norm w).1
        ≡ (audit e st ctx "create" doc_type id [] saved (record w { db = state })).1

  -- the parts of a run of Create that succeeded, and what it left
  pub record Created (given : Row) (w : World S) (id : String) : Type 0 where
    pub compiled : CompiledDoc
    pub known : e.reg doc_type ≡ ok compiled
    pub permitted : permit e.perm ctx doc_type "create" ≡ ok tt
    pub filtered : Row
    pub writable : permit_write e.perm ctx doc_type given ≡ ok filtered
    pub row : Row
    pub hooked : emit_on e.bus ctx doc_type "before_validate" filtered ≡ ok row
    pub valid : validate_fields e.host ctx compiled row false ≡ ok tt
    pub unique : (check_unique e compiled "" (normalize_to_columns compiled row) w).0 ≡ ok tt
    pub norm : Row
    pub validated : Row
    pub after_validate :
        emit_on e.bus ctx doc_type "after_validate" (normalize_to_columns compiled row)
        ≡ ok validated
    pub inserting : Row
    pub before_insert : emit_on e.bus ctx doc_type "before_insert" validated ≡ ok inserting
    pub before_save : emit_on e.bus ctx doc_type "before_save" inserting ≡ ok norm
    pub started : S
    pub began : e.db.begin w.db ≡ ok started
    pub inserted : Inserted compiled norm (record w { db = started }) id
    pub committed :
        e.db.commit
          (audit e st ctx "create" doc_type id [] inserted.saved
            (record w { db = inserted.state })).1.db
        ≡ ok (create e st ctx doc_type given w).1.db

  -- what Read answered, and of which stored row
  pub record Shown (p : Perm.Engine) (id : String) (w : World S) (out : Row) : Type 0 where
    pub compiled : CompiledDoc
    pub known : e.reg doc_type ≡ ok compiled
    pub permitted : Perm.check_action p ctx doc_type "read" ≡ ok tt
    pub rows : List Row
    pub stored :
        e.db.query w.db (by_id doc_type compiled.table_name (("id", text id) ∷ [])) ≡ ok rows
    pub row : Row
    pub first : or_missing rows ≡ ok row
    pub shown :
        (k : String)
        → lookup k out
          ≡ (if is_gated_key (from_context ctx).roles compiled.fields k then none else lookup k row)

  -- Where Read succeeds with a permission engine on the same registry, the caller may read such
  -- documents, and the answer has each column of the first stored row but those of the fields that
  -- are closed to the caller's roles.
  pub read-Shown :
      (p : Perm.Engine) (id : String) (w : World S) (out : Row)
      → e.perm ≡ some p
      → p.reg doc_type ≡ e.reg doc_type
      → (read e ctx doc_type id w).0 ≡ ok out
      → Shown p id w out
  unfolding read permit permit_read lift
  read-Shown p id w out attached shared h =
      let (compiled, known, e1, h1) = lift-ok _ _ w h in
      let (a, permitted, e2, h2) = lift_then-ok _ _ w h1 in
      let (rows, stored, e3, h3) = query-ok _ _ _ w h2 in
      let (row, first, e4, h4) = lift-ok _ _ w h3 in
      record {
        compiled = compiled;
        known = known;
        permitted =
            ap (λ (o : Option Perm.Engine). permit o ctx doc_type "read") (sym attached)
            ∙ permitted;
        rows = rows;
        stored = stored;
        row = row;
        first = first;
        shown =
            lookup-filter_read p ctx doc_type row out compiled (shared ∙ known)
              (ap (λ (o : Option Perm.Engine). permit_read o ctx doc_type row) (sym attached) ∙ h4);
      }
