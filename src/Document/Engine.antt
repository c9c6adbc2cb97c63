-- ===== src/Document/Engine.antt =====
-- The methods of the engine of document/engine.go on the world of its database and its audit log.

use orjanda.Prelude.{
  ℕ, String, Bool, true, false, not, ◌||◌, ◌==◌, List, [], ◌∷◌, Option, none, some, lookup, overlay,
  any, if◌then◌else◌,
}
use orjanda.Errors.{Result, ok, err, fail, validation, not_found, internal, wrap}
use orjanda.Value.{Value, Row, text, bool, time, text_or_empty}
use orjanda.Auth.{Context}
use orjanda.Schema.{Field, CompiledDoc}
use orjanda.Event.{Bus, emit}
use orjanda.Audit.{diff_maps, build_entry}
use orjanda.Perm.{check_action, filter_write, filter_read}
use orjanda.Perm
use orjanda.Dal.{
  by_id, Database, Op, ◌>>=◌, ◌>>◌, lift, return, query, insert_row, update_row, transaction, Log,
  write_in_tx,
}
use orjanda.Document.{
  Host, field_value, normalize_to_columns, is_missing, validate_fields, build_insert_row,
  build_update_row,
}

-- Engine; the services that may be nil are options
pub record Documents (S : Type 0) : Type 0 where
  pub host : Host
  pub db : Database S
  pub reg : String → Result CompiledDoc
  pub perm : Option Perm.Engine
  pub bus : Option Bus
  pub audit_log : Option Log

-- what the clock and the ULID generator answer during a call
pub record Stamps : Type 0 where
  pub now : ℕ
  pub doc_id : String
  pub entry_id : String

abbrev pub emit_on : Option Bus → Context → String → String → Row → Result Row
emit_on none ctx doc_type event_name doc = ok doc
emit_on (some bus) ctx doc_type event_name doc = emit bus ctx doc_type event_name doc

-- CheckAction, where there is a permission engine
unfoldable pub permit : Option Perm.Engine → Context → String → String → Result (Unit {0})
permit none ctx doc_type action = ok tt
permit (some p) ctx doc_type action = check_action p ctx doc_type action

unfoldable pub permit_write : Option Perm.Engine → Context → String → Row → Result Row
permit_write none ctx doc_type row = ok row
permit_write (some p) ctx doc_type row = filter_write p ctx doc_type row

unfoldable pub permit_read : Option Perm.Engine → Context → String → Row → Result Row
permit_read none ctx doc_type row = ok row
permit_read (some p) ctx doc_type row = filter_read p ctx doc_type row

abbrev pub or_missing : List Row → Result Row
or_missing [] = fail not_found
or_missing (row ∷ rows) = ok row

-- the errors of the uniqueness queries
abbrev or_internal : Result (List Row) → Result (List Row)
or_internal (ok rows) = ok rows
or_internal (err e) = err (wrap internal e)

abbrev other_than : String → Row → Bool
other_than current row = not (text_or_empty (lookup "id" row) == current)

module _ {S : Type 0} where
  abbrev pub query_unique : Database S → CompiledDoc → Field → Value → Op S (List Row)
  query_unique d compiled f v w = (
    or_internal (d.query w.db (by_id compiled.name compiled.table_name ((f.db_column, v) ∷ []))),
    w,
  )

  abbrev pub taken_by : Database S → CompiledDoc → String → Field → Option Value → Op S Bool
  taken_by d compiled current f none = return false
  taken_by d compiled current f (some v) = do
    rows ← query_unique d compiled f v
    return (any (other_than current) rows)

  -- the loop of checkUnique: whether a value is taken
  unfoldable pub unique_loop :
      Database S → CompiledDoc → String → Row → List Field → Bool → Op S Bool
  unique_loop d compiled current row [] taken = return taken
  unique_loop d compiled current row (f ∷ fs) taken =
      let skip = unique_loop d compiled current row fs taken in
      if not f.unique || is_missing (field_value row f) then skip else do
        hit ← taken_by d compiled current f (field_value row f)
        unique_loop d compiled current row fs (taken || hit)

  unfoldable pub check_unique : Documents S → CompiledDoc → String → Row → Op S (Unit {0})
  check_unique e compiled current row = do
    taken ← unique_loop e.db compiled current row compiled.fields false
    lift (if taken then fail validation else ok tt)

  unfoldable pub audit :
      Documents S → Stamps → Context → String → String → String → Row → Row → Op S (Unit {0})
  audit e st ctx action doc_type id old new = elim e.audit_log [
    | none ↦ return tt
    | some log ↦
        write_in_tx e.db log st.now st.entry_id
          (build_entry st.now st.entry_id ctx action doc_type id (diff_maps e.host.show old new))
  ]

  -- the function of Create's transaction
  unfoldable pub store : Documents S → Stamps → Context → String → CompiledDoc → Row → Op S String
  store e st ctx doc_type compiled norm = do
    id ← insert_row e.db doc_type (build_insert_row st.doc_id st.now compiled norm)
    inserted ← lift (
        emit_on e.bus ctx doc_type "after_insert" (build_insert_row st.doc_id st.now compiled norm))
    saved ← lift (emit_on e.bus ctx doc_type "after_save" inserted)
    audit e st ctx "create" doc_type id [] saved
    return id

  unfoldable pub create : Documents S → Stamps → Context → String → Row → Op S String
  create e st ctx doc_type given = do
    compiled ← lift (e.reg doc_type)
    lift (permit e.perm ctx doc_type "create")
    filtered ← lift (permit_write e.perm ctx doc_type given)
    row ← lift (emit_on e.bus ctx doc_type "before_validate" filtered)
    lift (validate_fields e.host ctx compiled row false)
    check_unique e compiled "" (normalize_to_columns compiled row)
    validated ←
        lift (emit_on e.bus ctx doc_type "after_validate" (normalize_to_columns compiled row))
    inserting ← lift (emit_on e.bus ctx doc_type "before_insert" validated)
    norm ← lift (emit_on e.bus ctx doc_type "before_save" inserting)
    transaction e.db (store e st ctx doc_type compiled norm)

  -- Read
  unfoldable pub read : Documents S → Context → String → String → Op S Row
  read e ctx doc_type id = do
    compiled ← lift (e.reg doc_type)
    lift (permit e.perm ctx doc_type "read")
    rows ← query e.db (by_id doc_type compiled.table_name (("id", text id) ∷ []))
    row ← lift (or_missing rows)
    lift (permit_read e.perm ctx doc_type row)

  -- the function of Update's transaction
  unfoldable pub save :
      Documents S → Stamps → Context → String → String → Row → Row → Op S (Unit {0})
  save e st ctx doc_type id old merged = do
    update_row e.db doc_type id (build_update_row st.now merged)
    updated ←
        lift
          (emit_on e.bus ctx doc_type "after_update" (overlay old (build_update_row st.now merged)))
    saved ← lift (emit_on e.bus ctx doc_type "after_save" updated)
    audit e st ctx "update" doc_type id old saved

  unfoldable pub update : Documents S → Stamps → Context → String → String → Row → Op S (Unit {0})
  update e st ctx doc_type id given = do
    compiled ← lift (e.reg doc_type)
    lift (permit e.perm ctx doc_type "write")
    filtered ← lift (permit_write e.perm ctx doc_type given)
    rows ← query e.db (by_id doc_type compiled.table_name (("id", text id) ∷ []))
    old ← lift (or_missing rows)
    row ← lift (emit_on e.bus ctx doc_type "before_validate" filtered)
    lift (validate_fields e.host ctx compiled row true)
    check_unique e compiled id (normalize_to_columns compiled row)
    validated ←
        lift (emit_on e.bus ctx doc_type "after_validate" (normalize_to_columns compiled row))
    norm ← lift (emit_on e.bus ctx doc_type "before_update" validated)
    merged ← lift (emit_on e.bus ctx doc_type "before_save" (overlay old norm))
    transaction e.db (save e st ctx doc_type id old merged)

  -- the function of Delete's transaction
  unfoldable pub mark_deleted :
      Documents S → Stamps → Context → String → String → Row → Op S (Unit {0})
  mark_deleted e st ctx doc_type id old = do
    update_row e.db doc_type id (("deleted", bool true) ∷ ("updated_at", time st.now) ∷ [])
    gone ← lift (emit_on e.bus ctx doc_type "after_delete" old)
    audit e st ctx "delete" doc_type id gone (("deleted", bool true) ∷ [])

  -- Delete
  unfoldable pub soft_delete : Documents S → Stamps → Context → String → String → Op S (Unit {0})
  soft_delete e st ctx doc_type id = do
    compiled ← lift (e.reg doc_type)
    lift (permit e.perm ctx doc_type "delete")
    rows ← query e.db (by_id doc_type compiled.table_name (("id", text id) ∷ []))
    row ← lift (or_missing rows)
    old ← lift (emit_on e.bus ctx doc_type "before_delete" row)
    transaction e.db (mark_deleted e st ctx doc_type id old)
