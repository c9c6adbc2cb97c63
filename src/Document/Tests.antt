-- ===== src/Document/Tests.antt =====
-- document/engine.go on employees with a mandatory name and a salary that payroll may see.
use orjanda.Prelude.{
  String, Bool, true, false, List, [], ◌∷◌, none, some, lookup, insert, delete, has_key, overlay,
  equal_fold, fold_code, to_lower, lower_char, to_upper, upper_char, has_prefix, is_digit, ◌≡◌,
  refl,
}
use orjanda.Errors.{Result, ok, err, coded, permission, validation}
use orjanda.Value.{Row, text, time}
use orjanda.Auth.{no_identity, Context, background, new_context, from_context}
use orjanda.Schema.{
  Field, CompiledDoc, DocPermission, FieldType, FieldType-discrete, descending, match_all,
}
use orjanda.Perm
use orjanda.Perm.{
  check_action, check_compiled, is_allowed, is_gated, has_role, rbac_check, rbac_loop, grants,
  check_db_permissions, run_rules, filter_read, filter_write, reject_gated, strip_gated, may_access,
  new_engine,
}
use orjanda.Audit.{build_entry, write, diff_maps, new_changes, lost_changes, values_equal}
use orjanda.Dal.{
  World, ◌>>=◌, ◌>>◌, lift, return, query, update_row, insert_row, transaction, memory_log,
  write_in_tx,
}
use orjanda.Dal.Atomic.{IsReading, IsAtomic}
use orjanda.Dal.Memory.{memory}
use orjanda.Document.{
  Host, field_value, column_of, normalize_loop, normalize_to_columns, is_zero, is_system_field,
  is_url, is_phone, is_email, is_domain, is_plain, has_inner_dot, all_phone, has_format, is_option,
  passes_validator, is_unchecked, field_passes, fields_pass, validate_fields, build_insert_row,
  build_update_row,
}
use orjanda.Document.Engine.{
  Documents, Stamps, permit, permit_write, permit_read, unique_loop, check_unique, audit, store,
  create, read, save, update, mark_deleted, soft_delete,
}
use orjanda.Document.Listing.{
  words_of, order_column, direction_of, order_of_words, validate_order_by, default_order,
  list_order,
}
use orjanda.Document.Atomic.{methods-IsAtomic}
use orjanda.Document.Stored.{Shown, read-Shown}

engine : Unit {0}
unfolding lookup insert delete has_key overlay equal_fold fold_code to_lower lower_char to_upper
    upper_char has_prefix new_context from_context check_action check_compiled is_allowed is_gated
    has_role rbac_check rbac_loop grants check_db_permissions run_rules filter_read filter_write
    reject_gated strip_gated may_access new_engine build_entry write diff_maps new_changes
    lost_changes values_equal ◌>>=◌ ◌>>◌ lift return query update_row insert_row transaction
    write_in_tx field_value column_of normalize_loop normalize_to_columns is_zero is_system_field
    is_url is_phone is_email is_domain is_plain has_inner_dot all_phone has_format is_option
    passes_validator is_unchecked field_passes fields_pass validate_fields build_insert_row
    build_update_row permit permit_write permit_read unique_loop check_unique audit store create
    read save update mark_deleted soft_delete words_of order_column direction_of order_of_words
    validate_order_by default_order list_order FieldType-discrete is_digit
engine = tt

abbrev field_of : String → String → String → Bool → Field
field_of name column role required = record {
  name = name;
  db_column = column;
  type = FieldType.string;
  required = required;
  unique = false;
  searchable = false;
  label = name;
  options = [];
  default = "";
  format = "";
  link_target = "";
  child_type_name = "";
  precision = 0;
  permission_role = role;
  hidden = false;
  system = false;
  read_only = false;
  computed = false;
  agent_hint = "";
  validator_name = "";
  agent_hidden = false;
}

abbrev hr_entry : DocPermission
hr_entry = record {
  role = "HR";
  read = true;
  write = true;
  create = true;
  delete = false;
  submit = false;
  match = match_all;
}

abbrev employee : CompiledDoc
employee = record {
  name = "Employee";
  app = "hr";
  module_name = "";
  table_name = "employees";
  searchable = false;
  submittable = false;
  icon = "";
  description = "";
  title_field = "";
  sort_field = "FullName";
  sort_order = descending;
  agent_hidden = false;
  fields =
      record (field_of "FullName" "full_name" "" true) { unique = true }
      ∷ field_of "Salary" "salary" "Payroll" false
      ∷ [];
  permissions = hr_entry ∷ [];
  child_tables = [];
}

abbrev registry : String → Result CompiledDoc
registry doc_type = ok employee

abbrev guard : Perm.Engine
guard = record { reg = registry; db = none; rules = [] }

abbrev host : Host
host = record { show = λ v. "?"; parses_address = λ s. false; validators = λ name. none }

abbrev documents : Documents (List Row)
documents = record {
  host = host;
  db = memory;
  reg = registry;
  perm = some guard;
  bus = none;
  audit_log = some memory_log;
}

abbrev hr : Context
hr = new_context background (record no_identity { user_id = "ann"; roles = "HR" ∷ [] })

abbrev stamps : Stamps
stamps = record { now = 9; doc_id = "d1"; entry_id = "e1" }

abbrev bob : Row
bob = ("id", text "b") ∷ ("full_name", text "Bob") ∷ ("salary", text "9") ∷ []

abbrev world : World (List Row)
world = record { db = bob ∷ []; entries = [] }

duplicate :
    (create documents stamps hr "Employee" (("FullName", text "Bob") ∷ []) world).0
    ≡ err (coded validation)
unfolding engine
duplicate = refl

unnamed : (create documents stamps hr "Employee" [] world).0 ≡ err (coded validation)
unfolding engine
unnamed = refl

not_paid :
    (create documents stamps hr "Employee" (("Salary", text "1") ∷ []) world).0
    ≡ err (coded permission)
unfolding engine
not_paid = refl

updated : (update documents stamps hr "Employee" "b" (("FullName", text "Rob") ∷ []) world).1.db ≡ (
    (("id", text "b")
      ∷ ("full_name", text "Rob")
      ∷ ("salary", text "9")
      ∷ ("updated_at", time 9)
      ∷ [])
    ∷ [])
unfolding engine
updated = refl

kept : (soft_delete documents stamps hr "Employee" "b" world).0 ≡ err (coded permission)
unfolding engine
kept = refl

shown :
    (read documents hr "Employee" "b" world).0
    ≡ ok (("id", text "b") ∷ ("full_name", text "Bob") ∷ [])
unfolding engine
shown = refl

emails :
    (is_email false "a@b.c" ≡ true)
    × (is_email false "a@.c" ≡ false)
    × (is_email false "a b@c.d" ≡ false)
unfolding engine
emails = (refl, refl, refl)

phones : (is_phone "+1 (23) 456" ≡ true) × (is_phone "12345" ≡ false)
unfolding engine
phones = (refl, refl)

methods-IsAtomic_example :
    IsReading (read documents hr "Employee" "b")
    × IsAtomic (create documents stamps hr "Employee" [])
    × IsAtomic (update documents stamps hr "Employee" "b" [])
    × IsAtomic (soft_delete documents stamps hr "Employee" "b")
methods-IsAtomic_example = methods-IsAtomic documents stamps hr "Employee" "b" []

read-Shown_example :
    Shown documents stamps hr "Employee" guard "b" world
      (("id", text "b") ∷ ("full_name", text "Bob") ∷ [])
read-Shown_example =
    read-Shown documents stamps hr "Employee" guard "b" world
      (("id", text "b") ∷ ("full_name", text "Bob") ∷ []) refl refl shown
