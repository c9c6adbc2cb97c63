-- ===== src/Safety/Approvals.antt =====
-- When RequiresApprovalWithReason (agent/safety/safety.go) lets a tool call pass without approval.
use orjanda.Prelude.{
  ℕ, ◌+◌, String, Bool, true, false, ◌&&◌, List, [], ◌∷◌, Dict, lookup, all, All, if◌then◌else◌,
  ◌≡◌, refl, sym, ◌∙◌, ◌↔◌, ltb, leb, inl, inr, arith, Bool-cases, has_prefix,
}
use orjanda.Prelude.Int.{ℤ, pos, negsuc, ltb_ℤ, leb_ℤ, is_zero_ℤ}
use orjanda.Value.{Value, Row}
use orjanda.Auth.{Identity}
use orjanda.Safety.{
  Layer, ToolCall, contains, array_size, largest_array, bulk_count, covers, role_overrides, verb_of,
  count_of, requires_approval_with_reason,
}

-- All arrays among the arguments have at most `limit` members.
abbrev arrays_within : ℤ → Row → Bool
arrays_within limit args = all (λ (arg : String × Value). leb_ℤ (pos (array_size arg.1)) limit) args

-- What frees a call from approval: it deletes nothing, no configured set names its verb but that of
-- the approved ones, it stays within the bulk limit, and no role of the caller is to confirm it.
pub record IsFree (l : Layer) (id : Identity) (info : ToolCall) : Type 0 where
  no_delete : has_prefix info.tool_name "delete_" ≡ false
  no_always : contains l.policy.always_require_approval (verb_of info) ≡ false
  no_bulk :
      ltb_ℤ (pos 0) l.policy.max_bulk_operations ≡ true
      → (if is_zero_ℤ info.target_count
          then arrays_within l.policy.max_bulk_operations info.args
          else leb_ℤ info.target_count l.policy.max_bulk_operations)
        ≡ true
  no_role :
      All
        (λ (role : String).
          covers (lookup role l.policy.require_approval_for_roles) (verb_of info) ≡ false)
        id.roles
  no_default : contains l.policy.require_approval (verb_of info) ≡ false
  pub approved : contains l.policy.auto_approve (verb_of info) ≡ true

largest_array_lem :
    (args : Row) (acc a b : ℕ)
    → leb (largest_array args acc + a) b
      ≡ (leb (acc + a) b && all (λ (arg : String × Value). leb (array_size arg.1 + a) b) args)
unfolding largest_array
largest_array_lem [] acc a b = ground arith
largest_array_lem ((k, v) ∷ args) acc a b = elim (Bool-cases (ltb acc (array_size v))) [
  | inl more ↦ rw more (ground (arith, largest_array_lem args (array_size v) a b))
  | inr less ↦ rw less (ground (arith, largest_array_lem args acc a b))
]

bulk_count_lem :
    (args : Row) (limit : ℤ)
    → ltb_ℤ (pos 0) limit ≡ true
    → leb_ℤ (pos (bulk_count args)) limit ≡ arrays_within limit args
unfolding bulk_count
bulk_count_lem args (pos n) h = ground (arith, largest_array_lem args 0 0 (n + 0))
bulk_count_lem args (negsuc n) h = absurd (ground arith)

-- whether a count is over a limit that is set
abbrev over : ℤ → ℤ → Bool
over limit count = ltb_ℤ (pos 0) limit && ltb_ℤ limit count

count_within :
    (limit : ℤ) (info : ToolCall)
    → ltb_ℤ (pos 0) limit ≡ true
    → leb_ℤ (count_of info) limit ≡ (
        if is_zero_ℤ info.target_count
        then arrays_within limit info.args
        else leb_ℤ info.target_count limit)
unfolding count_of
count_within limit info h = elim (Bool-cases (is_zero_ℤ info.target_count)) [
  | inl unknown ↦ rw unknown (bulk_count_lem info.args limit h)
  | inr known ↦ rw known
]

not_over :
    (limit : ℤ) (info : ToolCall)
    → (over limit (count_of info) ≡ false) ↔ (
        ltb_ℤ (pos 0) limit ≡ true
        → (if is_zero_ℤ info.target_count
            then arrays_within limit info.args
            else leb_ℤ info.target_count limit)
          ≡ true)
not_over limit info = (
  λ within positive. sym (count_within limit info positive) ∙ ground arith,
  λ allowed. elim (Bool-cases (ltb_ℤ (pos 0) limit)) [
    | inl positive ↦
        let fits : leb_ℤ (count_of info) limit ≡ true =
          count_within limit info positive ∙ allowed positive in
        ground arith
    | inr unset ↦ ground arith
  ],
)

role_overrides_none :
    (roles : List String) (m : Dict (List String)) (verb : String)
    → (role_overrides roles m verb ≡ false)
      ↔ All (λ (role : String). covers (lookup role m) verb ≡ false) roles
unfolding role_overrides
role_overrides_none [] m verb = (λ h. tt, λ h. refl)
role_overrides_none (role ∷ roles) m verb =
    let (to, from) = role_overrides_none roles m verb in
    (λ h. (ground arith, to (ground arith)), λ h. ground (arith, h.0, from h.1))

-- A call passes without approval exactly when nothing in the policy stops it, arrays among the
-- arguments counted where the caller gives no count; otherwise it needs approval.
pub requires_approval_with_reason_lem :
    (l : Layer) (id : Identity) (info : ToolCall)
    → ((requires_approval_with_reason l id info).required ≡ false) ↔ IsFree l id info
unfolding requires_approval_with_reason
requires_approval_with_reason_lem l id info =
    let (within, is_within) = not_over l.policy.max_bulk_operations info in
    let (none_confirms, confirmed) =
      role_overrides_none id.roles l.policy.require_approval_for_roles (verb_of info) in
    (
      λ h. record {
        no_delete = ground arith;
        no_always = ground arith;
        no_bulk = within (ground arith);
        no_role = none_confirms (ground arith);
        no_default = ground arith;
        approved = ground arith;
      },
      λ w. ground (
        arith,
        w.no_delete,
        w.no_always,
        is_within w.no_bulk,
        confirmed w.no_role,
        w.no_default,
        w.approved,
      ),
    )
