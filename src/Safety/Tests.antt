-- ===== src/Safety/Tests.antt =====
-- agent/safety/safety.go under the policy that the product describes, and a limit of two calls.
use orjanda.Prelude.{
  arith, true, false, List, [], ◌∷◌, some, lookup, ◌≡◌, refl, ◌↔◌, ℕ, equal_fold, to_lower,
  has_prefix, before,
}
use orjanda.Prelude.Int.{pos}
use orjanda.Value.{text, array, nil, cons}
use orjanda.Auth.{Identity, no_identity, background}
use orjanda.Cache.{new_lru_store}
use orjanda.Safety.{
  Policy, Layer, ToolCall, bulk_reason, with_defaults, new_layer, contains, verb_for, largest_array,
  bulk_count, role_overrides, verb_of, count_of, requires_approval_with_reason, requires_approval,
  is_tool_allowed, filter_tools,
}
use orjanda.Safety.Approvals.{IsFree, requires_approval_with_reason_lem}
use orjanda.Safety.Rate.{is_limited, key_id, milli, is_recent, recent}
use orjanda.Safety.Window.{sliding_window, Throttled}
use orjanda.Safety.Passed.{
  calls_passed, check_rate_limit-sliding_window, check_rate_limit-Throttled,
}

engine : Unit {0}
unfolding with_defaults new_layer contains verb_for largest_array bulk_count role_overrides verb_of
    count_of requires_approval_with_reason requires_approval is_tool_allowed filter_tools equal_fold
    to_lower has_prefix before lookup is_limited key_id milli is_recent recent sliding_window
engine = tt

abbrev policy : Policy
policy = record {
  auto_approve = "read" ∷ "list" ∷ [];
  require_approval = "create" ∷ [];
  always_require_approval = "cancel" ∷ [];
  max_bulk_operations = pos 0;
  require_approval_for_roles = ("Intern", []) ∷ [];
  rate_limit = record { operations_per_minute = pos 2; scope = "" };
  token_budget_per_session = pos 0;
  tool_allowlist = "get_leave" ∷ [];
}

abbrev layer : Layer
layer = new_layer policy

abbrev ann : Identity
ann = record no_identity { user_id = "ann"; roles = "HR" ∷ [] }

abbrev reading : ToolCall
reading = record {
  verb = "";
  tool_name = "get_leave";
  args = ("ids", array (cons (text "a") nil)) ∷ [];
  target_count = pos 0;
}

reading_free : (requires_approval_with_reason layer ann reading).required ≡ false
unfolding engine
reading_free = refl

six_needed :
    (requires_approval_with_reason layer ann (record reading { target_count = pos 6 })).reason
    ≡ bulk_reason
unfolding engine
six_needed = refl

deletion_needed : requires_approval layer ann "delete_leave" [] ≡ true
unfolding engine
deletion_needed = refl

intern_needed : requires_approval layer (record ann { roles = "Intern" ∷ [] }) "get_leave" [] ≡ true
unfolding engine
intern_needed = refl

only_listed : filter_tools layer ("get_leave" ∷ "list_leave" ∷ []) ≡ ("get_leave" ∷ [])
unfolding engine
only_listed = refl

requires_approval_with_reason_lem_example :
    ((requires_approval_with_reason layer ann reading).required ≡ false) ↔ IsFree layer ann reading
requires_approval_with_reason_lem_example = requires_approval_with_reason_lem layer ann reading

limited : is_limited layer background ann ≡ true
unfolding engine
limited = refl

-- Ten seconds apart; the third is too many, and the last comes when the first has aged out.
abbrev clock : List ℕ
clock = 10000000000 ∷ 20000000000 ∷ 30000000000 ∷ 75000000000 ∷ []

window_passes : sliding_window (pos 2) clock [] ≡ (75000 ∷ 20000 ∷ 10000 ∷ [])
unfolding engine
window_passes = refl

check_rate_limit-sliding_window_example :
    calls_passed layer background ann clock (some (new_lru_store (pos 8))) []
    ≡ sliding_window layer.policy.rate_limit.operations_per_minute clock []
check_rate_limit-sliding_window_example =
    check_rate_limit-sliding_window layer background ann limited (pos 8) clock
      (omega arith, (omega arith, (omega arith, (omega arith, tt))))

check_rate_limit-Throttled_example :
    Throttled layer.policy.rate_limit.operations_per_minute
      (calls_passed layer background ann clock (some (new_lru_store (pos 8))) [])
check_rate_limit-Throttled_example =
    check_rate_limit-Throttled layer background ann limited (pos 8) clock
      (omega arith, (omega arith, (omega arith, (omega arith, tt))))
