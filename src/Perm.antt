-- ===== src/Perm.antt =====
-- perm/engine.go: the permission engine. A nil `error` is `ok tt`; log lines are left out.
pub mod Roles
pub mod Actions
pub mod Fields
mod Tests
use orjanda.Prelude.{
  String, Bool, true, false, not, ◌&&◌, ◌||◌, ◌==◌, List, [], ◌∷◌, ◌++◌, Option, none, some, Dict,
  lookup, insert, delete, has_key, overlay, equal_fold, to_lower, any, is_empty, if◌then◌else◌,
  is_some,
}
use orjanda.Errors.{Result, ok, err, fail, permission, not_found, ◌>>=◌, ◌>>◌}
use orjanda.Value.{Value, Row, text, bool, text_or_empty, as_bool}
use orjanda.Auth.{Identity, Context, from_context}
use orjanda.Schema.{DocPermission, Field, CompiledDoc}

pub record Check : Type 0 where
  pub doc_type : String
  pub action : String
  pub doc_id : String
  pub data_row : Row

-- A custom rule, by its method `Evaluate`.
abbrev pub Rule : Type 0
Rule = Context → Check → Result (Unit {0})

-- The engine: `reg` answers Registry.Get, and `db`, if it is attached, the query for the
-- RolePermission rows of a document type.
pub record Engine : Type 0 where
  pub reg : String → Result CompiledDoc
  pub db : Option (Context → String → Result (List Row))
  pub rules : List Rule

unfoldable pub new_engine : (String → Result CompiledDoc) → Engine
new_engine reg = record { reg = reg; db = none; rules = [] }

unfoldable pub set_database : Engine → (Context → String → Result (List Row)) → Engine
set_database e db = record e { db = some db }

unfoldable pub register_rule : Engine → Rule → Engine
register_rule e r = record e { rules = e.rules ++ r ∷ [] }

-- hasRole, over the identity's list of roles
unfoldable pub has_role : List String → String → Bool
has_role [] role_name = false
has_role (r ∷ roles) role_name = equal_fold r role_name || has_role roles role_name

abbrev pub administrator : String
administrator = "System Administrator"

-- the `switch` of rbacCheck on the lowercased action
unfoldable pub grants : DocPermission → String → Bool
grants p action =
    if action == "read"
    then p.read
    else if action == "write" || action == "update"
    then p.write
    else if action == "create"
    then p.create
    else if action == "delete"
    then p.delete
    else if action == "submit"
    then p.submit
    else false

-- the loop of rbacCheck
unfoldable pub rbac_loop : List String → String → List DocPermission → Bool
rbac_loop roles action [] = false
rbac_loop roles action (p ∷ ps) =
    (has_role roles p.role && grants p action) || rbac_loop roles action ps

unfoldable pub rbac_check : Identity → CompiledDoc → String → Bool
rbac_check id compiled action = rbac_loop id.roles (to_lower action) compiled.permissions

-- the column of a RolePermission row that an action reads
unfoldable pub action_field : String → String
action_field action =
    let lowered = to_lower action in if lowered == "update" then "write" else lowered

-- whether a flag is present and true
abbrev is_set : Option Bool → Bool
is_set (some true) = true
is_set _ = false

unfoldable pub row_grants : List String → String → Row → Bool
row_grants roles field row =
    has_role roles (text_or_empty (lookup "role" row)) && is_set (as_bool (lookup field row))

unfoldable pub check_db_permissions :
    Option (Context → String → Result (List Row))
    → Context
    → Identity
    → String
    → String
    → Result Bool
check_db_permissions none ctx id doc_type action = ok false
check_db_permissions (some query) ctx id doc_type action =
    if is_empty id.roles
    then ok false
    else do rows ← query ctx doc_type; ok (any (row_grants id.roles (action_field action)) rows)

-- `dbErr == nil && dbAllowed`
abbrev pub granted : Result Bool → Bool
granted (ok b) = b
granted (err _) = false

-- the AND of the custom rules: the first error is returned
unfoldable pub run_rules : Context → Check → List Rule → Result (Unit {0})
run_rules ctx check [] = ok tt
run_rules ctx check (r ∷ rs) = let rest = run_rules ctx check rs in do r ctx check; rest

-- whether RBAC, by role, by permission entry or by database row, allows the action
unfoldable pub is_allowed : Engine → Context → CompiledDoc → String → String → Bool
is_allowed e ctx compiled doc_type action =
    let id = from_context ctx in
    has_role id.roles administrator
    || (not (is_empty compiled.permissions) && rbac_check id compiled action)
    || granted (check_db_permissions e.db ctx id doc_type action)

-- whether there is anything to check against
unfoldable pub is_gated : Engine → CompiledDoc → Bool
is_gated e compiled = not (is_empty compiled.permissions) || is_some e.db

unfoldable pub check_compiled : Engine → Context → CompiledDoc → String → String → Result (Unit {0})
check_compiled e ctx compiled doc_type action =
    if not (is_allowed e ctx compiled doc_type action) && is_gated e compiled
    then fail permission
    else run_rules ctx (record { doc_type = doc_type; action = action; doc_id = ""; data_row = [] })
        e.rules

-- `compiled, err := e.reg.Get(docType)` with the error that each caller returns
abbrev pub or_fail : Result CompiledDoc → Result CompiledDoc → Result CompiledDoc
or_fail (ok doc) _ = ok doc
or_fail (err _) other = other

unfoldable pub check_action : Engine → Context → String → String → Result (Unit {0})
check_action e ctx doc_type action = do
  compiled ← or_fail (e.reg doc_type) (fail permission)
  check_compiled e ctx compiled doc_type action

-- the loop of CheckRoles
unfoldable pub role_listed : List String → List String → Bool
role_listed roles [] = false
role_listed roles (allowed ∷ rest) =
    allowed == "*" || has_role roles allowed || role_listed roles rest

unfoldable pub check_roles : Context → List String → Result (Unit {0})
check_roles ctx allowed =
    let roles = (from_context ctx).roles in
    if is_empty allowed || has_role roles administrator || role_listed roles allowed
    then ok tt
    else fail permission

-- whether a field is open to the holder of the roles
unfoldable pub may_access : List String → Field → Bool
may_access roles f = f.permission_role == "" || has_role roles f.permission_role

-- the loop of FilterRead
unfoldable pub strip_gated : List String → List Field → Row → Row
strip_gated roles [] out = out
strip_gated roles (f ∷ fs) out =
    strip_gated roles fs
      (if may_access roles f then out else delete f.db_column (delete f.name out))

-- the data is copied first: a map has each key once
unfoldable pub filter_read : Engine → Context → String → Row → Result Row
filter_read e ctx doc_type row = do
  compiled ← or_fail (e.reg doc_type) (fail not_found)
  ok (strip_gated (from_context ctx).roles compiled.fields row)

-- the loop of FilterWrite
unfoldable pub reject_gated : List String → List Field → Row → Result (Unit {0})
reject_gated roles [] row = ok tt
reject_gated roles (f ∷ fs) row =
    let rest = reject_gated roles fs row in
    if may_access roles f
    then rest
    else if has_key f.name row || has_key f.db_column row
    then fail permission
    else rest

unfoldable pub filter_write : Engine → Context → String → Row → Result Row
filter_write e ctx doc_type row = do
  compiled ← or_fail (e.reg doc_type) (fail not_found)
  reject_gated (from_context ctx).roles compiled.fields row
  ok row

-- the loop of AllowedFields
unfoldable pub allowed_loop : List String → List Field → List String
allowed_loop roles [] = []
allowed_loop roles (f ∷ fs) =
    let rest = allowed_loop roles fs in if may_access roles f then f.name ∷ rest else rest

unfoldable pub allowed_fields : Engine → Context → String → Result (List String)
allowed_fields e ctx doc_type = do
  compiled ← or_fail (e.reg doc_type) (fail not_found)
  ok (allowed_loop (from_context ctx).roles compiled.fields)
