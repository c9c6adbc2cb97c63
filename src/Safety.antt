-- ===== src/Safety.antt =====
-- agent/safety/safety.go: the approval policy, the rate limit, the token budget and the allowlist of
-- an agent's tools. Clock readings are in nanoseconds; one call reads the clock once.

pub mod Rate
pub mod Window
pub mod Memory
pub mod Passed
mod Tests
pub mod Approvals
use orjanda.Prelude.{
  ℕ, ◌+◌, ◌<◌, String, Bool, true, false, not, ◌&&◌, ◌||◌, ◌==◌, List, [], ◌∷◌, Option, none, some,
  Dict, lookup, length, any, keep, is_empty, if◌then◌else◌, equal_fold, to_lower, has_prefix,
  before, ltb,
}
use orjanda.Prelude.Int.{ℤ, pos, ltb_ℤ, leb_ℤ, is_zero_ℤ, ◌+ℤ◌}
use orjanda.Errors.{Result, ok, err, fail, validation}
use orjanda.Value.{Value, Row, array, items, as_text}
use orjanda.Auth.{Identity, Context}
use orjanda.Cache.{Store}

pub record RateLimit : Type 0 where
  pub operations_per_minute : ℤ
  pub scope : String

-- SafetyPolicy
pub record Policy : Type 0 where
  pub auto_approve : List String
  pub require_approval : List String
  pub always_require_approval : List String
  pub max_bulk_operations : ℤ
  pub require_approval_for_roles : Dict (List String)
  pub rate_limit : RateLimit
  pub token_budget_per_session : ℤ
  pub tool_allowlist : List String

-- ApprovalReason; `no_reason` is the empty text
pub data Reason : Type 0 where
  no_reason always_reason bulk_reason role_reason require_reason : Reason

pub record Approval : Type 0 where
  pub required : Bool
  pub reason : Reason
  pub target_count : ℤ

-- ToolCallInfo
pub record ToolCall : Type 0 where
  pub verb : String
  pub tool_name : String
  pub args : Row
  pub target_count : ℤ

-- The layer: UsageSource.UsageFor answers the total tokens of a session. The cache is passed from
-- call to call.
pub record Layer : Type 0 where
  pub policy : Policy
  pub usage : Option (String → ℤ)

abbrev or_default : ℤ → ℤ → ℤ
or_default given default = if is_zero_ℤ given then default else given

unfoldable pub with_defaults : Policy → Policy
with_defaults p = record p {
  max_bulk_operations = or_default p.max_bulk_operations (pos 5);
  rate_limit = record {
    operations_per_minute = or_default p.rate_limit.operations_per_minute (pos 60);
    scope = if p.rate_limit.scope == "" then "user" else p.rate_limit.scope;
  };
}

unfoldable pub new_layer : Policy → Layer
new_layer p = record { policy = with_defaults p; usage = none }

-- WithUsageSource
unfoldable pub with_usage_source : Layer → (String → ℤ) → Layer
with_usage_source l source = record l { usage = some source }

unfoldable pub contains : List String → String → Bool
contains [] v = false
contains (s ∷ list) v = equal_fold s v || contains list v

-- the action argument of an `execute_action_` tool
abbrev action_verb : Option String → String
action_verb (some a) = if a == "" then "execute_action" else to_lower a
action_verb none = "execute_action"

-- the part before the first underscore, unless that is empty
abbrev prefix_verb : String → Option String → String
prefix_verb tool_name none = tool_name
prefix_verb tool_name (some verb) =
    if verb == "" then tool_name else if verb == "get" then "read" else verb

unfoldable pub verb_for : String → Row → String
verb_for tool_name args =
    if has_prefix tool_name "execute_action_"
    then action_verb (as_text (lookup "action" args))
    else prefix_verb tool_name (before b'_' tool_name)

abbrev array_size : Value → ℕ
array_size (array vs) = length (items vs)
array_size _ = 0

-- the loop of bulkCount
unfoldable pub largest_array : Row → ℕ → ℕ
largest_array [] largest = largest
largest_array ((k, v) ∷ args) largest =
    largest_array args (if ltb largest (array_size v) then array_size v else largest)

unfoldable pub bulk_count : Row → ℕ
bulk_count args = largest_array args 0

abbrev covers : Option (List String) → String → Bool
covers none verb = false
covers (some verbs) verb = is_empty verbs || contains verbs verb

-- the loop of roleOverrides
unfoldable pub role_overrides : List String → Dict (List String) → String → Bool
role_overrides [] m verb = false
role_overrides (role ∷ roles) m verb = covers (lookup role m) verb || role_overrides roles m verb

unfoldable pub verb_of : ToolCall → String
verb_of info = if info.verb == "" then verb_for info.tool_name info.args else info.verb

unfoldable pub count_of : ToolCall → ℤ
count_of info =
    if is_zero_ℤ info.target_count then pos (bulk_count info.args) else info.target_count

unfoldable pub requires_approval_with_reason : Layer → Identity → ToolCall → Approval
requires_approval_with_reason l id info =
    let verb = verb_of info in
    let count = count_of info in
    let limit = l.policy.max_bulk_operations in
    if has_prefix info.tool_name "delete_" || contains l.policy.always_require_approval verb
    then record { required = true; reason = always_reason; target_count = info.target_count }
    else if ltb_ℤ (pos 0) limit && ltb_ℤ limit count
    then record { required = true; reason = bulk_reason; target_count = count }
    else if role_overrides id.roles l.policy.require_approval_for_roles verb
    then record { required = true; reason = role_reason; target_count = count }
    else if contains l.policy.require_approval verb
    then record { required = true; reason = require_reason; target_count = count }
    else if contains l.policy.auto_approve verb
    then record { required = false; reason = no_reason; target_count = count }
    else record { required = true; reason = require_reason; target_count = count }

unfoldable pub requires_approval : Layer → Identity → String → Row → Bool
requires_approval l id tool_name args =
    (requires_approval_with_reason l id (record {
      verb = verb_for tool_name args;
      tool_name = tool_name;
      args = args;
      target_count = pos 0;
    })).required

unfoldable pub check_token_budget : Layer → String → ℤ → Result (Unit {0})
check_token_budget l session projected = elim l.usage [
  | none ↦ ok tt
  | some usage_for ↦
      if leb_ℤ l.policy.token_budget_per_session (pos 0)
      then ok tt
      else if ltb_ℤ l.policy.token_budget_per_session (usage_for session +ℤ projected)
      then fail validation
      else ok tt
]

unfoldable pub is_tool_allowed : Layer → String → Bool
is_tool_allowed l tool_name =
    if is_empty l.policy.tool_allowlist then true else contains l.policy.tool_allowlist tool_name

unfoldable pub filter_tools : Layer → List String → List String
filter_tools l names =
    if is_empty l.policy.tool_allowlist then names else keep (is_tool_allowed l) names
