-- ===== src/Perm/Actions.antt =====
-- CheckAction of perm/engine.go: when it lets an action through, and the order of its tests.
use orjanda.Prelude.{
  String, Bool, true, false, ◌≡◌, refl, ◌⊎◌, inl, inr, ◌↔◌, List, [], ◌∷◌, ◌++◌, Bool-cases, none,
  to_lower, is_empty, arith, ap, All,
}
use orjanda.Errors.{ErrorCode, Result, ok, err, fail, permission, ◌>>◌, bind-ok}
use orjanda.Auth.{Context, from_context}
use orjanda.Schema.{DocPermission, CompiledDoc}
use orjanda.Perm.{
  Check, Rule, Engine, register_rule, has_role, administrator, rbac_check, check_db_permissions,
  granted, run_rules, is_allowed, is_gated, check_compiled, or_fail, check_action,
}
use orjanda.Perm.Roles.{
  Holds, has_role→Holds, Holds→has_role, HasGrant, rbac_loop→HasGrant, HasGrant→rbac_loop,
}

-- The check that CheckAction hands to the custom rules.
abbrev pub check_for : String → String → Check
check_for doc_type action = record {
  doc_type = doc_type;
  action = action;
  doc_id = "";
  data_row = [];
}

-- Every rule passes the check.
abbrev pub AllPass : Context → Check → List Rule → Type 0
AllPass ctx check rules = All (λ (r : Rule). r ctx check ≡ ok tt) rules

run_rules→AllPass :
    (ctx : Context) (check : Check) (rules : List Rule)
    → run_rules ctx check rules ≡ ok tt
    → AllPass ctx check rules
unfolding run_rules
run_rules→AllPass ctx check [] h = tt
run_rules→AllPass ctx check (r ∷ rs) h =
    (ground arith, run_rules→AllPass ctx check rs (ground arith))

AllPass→run_rules :
    (ctx : Context) (check : Check) (rules : List Rule)
    → AllPass ctx check rules
    → run_rules ctx check rules ≡ ok tt
unfolding run_rules
AllPass→run_rules ctx check [] h = refl
AllPass→run_rules ctx check (r ∷ rs) (p, ps) = ground (arith, AllPass→run_rules ctx check rs ps)

-- Role-based control grants the action: the caller is an administrator, or holds a role of an entry
-- that grants it, or the database has a row that does.
abbrev pub IsGranted : Engine → Context → CompiledDoc → String → String → Type 0
IsGranted e ctx compiled doc_type action =
    let roles = (from_context ctx).roles in
    Holds roles administrator
    ⊎ (HasGrant roles (to_lower action) compiled.permissions
        ⊎ (check_db_permissions e.db ctx (from_context ctx) doc_type action ≡ ok true))

granted→ok : (r : Result Bool) → granted r ≡ true → r ≡ ok true
granted→ok (ok b) h = ap ok h
granted→ok (err e) h = cc

is_allowed→IsGranted :
    (e : Engine) (ctx : Context) (compiled : CompiledDoc) (doc_type action : String)
    → is_allowed e ctx compiled doc_type action ≡ true
    → IsGranted e ctx compiled doc_type action
unfolding is_allowed rbac_check
is_allowed→IsGranted e ctx compiled doc_type action h =
    let roles = (from_context ctx).roles in
    elim (Bool-cases (has_role roles administrator)) [
      | inl q ↦ inl (has_role→Holds roles administrator q)
      | inr q ↦ elim (Bool-cases (rbac_check (from_context ctx) compiled action)) [
        | inl g ↦ inr (inl (rbac_loop→HasGrant roles (to_lower action) compiled.permissions g))
        | inr g ↦ inr (inr (granted→ok _ (ground arith)))
      ]
    ]

HasGrant-not-empty :
    (roles : List String) (action : String) (perms : List DocPermission)
    → HasGrant roles action perms
    → is_empty perms ≡ false
HasGrant-not-empty roles action [] (p, m, held, g) = elim m [ ]
HasGrant-not-empty roles action (q ∷ qs) h = refl

IsGranted→is_allowed :
    (e : Engine) (ctx : Context) (compiled : CompiledDoc) (doc_type action : String)
    → IsGranted e ctx compiled doc_type action
    → is_allowed e ctx compiled doc_type action ≡ true
unfolding is_allowed rbac_check
IsGranted→is_allowed e ctx compiled doc_type action (inl (r, m, f)) =
    ground (arith, Holds→has_role r (from_context ctx).roles administrator m f)
IsGranted→is_allowed e ctx compiled doc_type action (inr (inl (p, m, held, g))) = ground (
  arith,
  HasGrant→rbac_loop (from_context ctx).roles (to_lower action) compiled.permissions p m held g,
  HasGrant-not-empty (from_context ctx).roles (to_lower action) compiled.permissions
      (p, m, held, g),
)
IsGranted→is_allowed e ctx compiled doc_type action (inr (inr q)) = ground arith

is_gated→open :
    (e : Engine) (compiled : CompiledDoc)
    → is_gated e compiled ≡ false
    → (compiled.permissions ≡ []) × (e.db ≡ none)
unfolding is_gated
is_gated→open e compiled h = ground arith

open→is_gated :
    (e : Engine) (compiled : CompiledDoc)
    → (compiled.permissions ≡ []) × (e.db ≡ none)
    → is_gated e compiled ≡ false
unfolding is_gated
open→is_gated e compiled (p, q) = rw (p, q)

-- The part of the statement below for a registered document type.
abbrev LetsThrough : Engine → Context → String → String → CompiledDoc → Type 0
LetsThrough e ctx doc_type action compiled =
    (IsGranted e ctx compiled doc_type action ⊎ ((compiled.permissions ≡ []) × (e.db ≡ none)))
    × AllPass ctx (check_for doc_type action) e.rules

check_compiled→LetsThrough :
    (e : Engine) (ctx : Context) (compiled : CompiledDoc) (doc_type action : String)
    → check_compiled e ctx compiled doc_type action ≡ ok tt
    → LetsThrough e ctx doc_type action compiled
unfolding check_compiled
check_compiled→LetsThrough e ctx compiled doc_type action h =
    elim (Bool-cases (is_allowed e ctx compiled doc_type action)) [
      | inl a ↦ (
        inl (is_allowed→IsGranted e ctx compiled doc_type action a),
        run_rules→AllPass ctx (check_for doc_type action) e.rules (ground arith),
      )
      | inr a ↦ elim (Bool-cases (is_gated e compiled)) [
        | inl g ↦ absurd (ground arith)
        | inr g ↦ (
          inr (is_gated→open e compiled g),
          run_rules→AllPass ctx (check_for doc_type action) e.rules (ground arith),
        )
      ]
    ]

LetsThrough→check_compiled :
    (e : Engine) (ctx : Context) (compiled : CompiledDoc) (doc_type action : String)
    → LetsThrough e ctx doc_type action compiled
    → check_compiled e ctx compiled doc_type action ≡ ok tt
unfolding check_compiled
LetsThrough→check_compiled e ctx compiled doc_type action (inl g, pass) = ground (
  arith,
  IsGranted→is_allowed e ctx compiled doc_type action g,
  AllPass→run_rules ctx (check_for doc_type action) e.rules pass,
)
LetsThrough→check_compiled e ctx compiled doc_type action (inr o, pass) = ground (
  arith,
  open→is_gated e compiled o,
  AllPass→run_rules ctx (check_for doc_type action) e.rules pass,
)

pub registered :
    (reg : Result CompiledDoc) (c : ErrorCode) {compiled : CompiledDoc}
    → or_fail reg (fail c) ≡ ok compiled
    → reg ≡ ok compiled
registered (ok doc) c h = h
registered (err x) c h = cc

-- CheckAction returns nil exactly when the document type is registered, every custom rule passes,
-- and either role-based control grants the action or nothing is declared for the type and no
-- database is attached.
pub check_action-ok_iff :
    (e : Engine) (ctx : Context) (doc_type action : String)
    → (check_action e ctx doc_type action ≡ ok tt) ↔ (
        (compiled : CompiledDoc) × (e.reg doc_type ≡ ok compiled)
        × (IsGranted e ctx compiled doc_type action ⊎ ((compiled.permissions ≡ []) × (e.db ≡ none)))
        × AllPass ctx (check_for doc_type action) e.rules)
unfolding check_action
check_action-ok_iff e ctx doc_type action = (
  λ h.
      let (compiled, found, passed) = bind-ok (or_fail (e.reg doc_type) (fail permission)) _ h in
      let (grant, pass) = check_compiled→LetsThrough e ctx compiled doc_type action passed in
      (compiled, registered (e.reg doc_type) permission found, grant, pass),
  λ (compiled, found, grant, pass).
      rw found (LetsThrough→check_compiled e ctx compiled doc_type action (grant, pass)),
)

run_rules-append :
    (ctx : Context) (check : Check) (rules : List Rule) (r : Rule)
    → run_rules ctx check (rules ++ r ∷ []) ≡ (run_rules ctx check rules >> r ctx check)
unfolding run_rules
run_rules-append ctx check [] r = ground arith
run_rules-append ctx check (q ∷ qs) r = ground (arith, run_rules-append ctx check qs r)

-- A rule that is registered is asked last, and only after all else has passed: its error is the
-- outcome then, and any earlier error stays.
check_action-register_rule :
    (e : Engine) (r : Rule) (ctx : Context) (doc_type action : String)
    → check_action (register_rule e r) ctx doc_type action
      ≡ (check_action e ctx doc_type action >> r ctx (check_for doc_type action))
unfolding check_action check_compiled is_allowed is_gated register_rule
check_action-register_rule e r ctx doc_type action =
    ground (arith, run_rules-append ctx (check_for doc_type action) e.rules r)
