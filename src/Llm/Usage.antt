-- ===== src/Llm/Usage.antt =====
-- The counts of tokens in agent/llm/gateway.go.
use orjanda.Prelude.{
  ℕ, ◌+◌, String, ◌==◌, eq_iff, List, [], ◌∷◌, Dict, lookup, insert, lookup-insert, if◌then◌else◌,
  ◌≡◌, arith,
}
use orjanda.Llm.{TokenUsage, add_usage, usage_or_zero, usage_for, total_usage, track}

unfoldable pub track_all : List (String × TokenUsage) → Dict TokenUsage → Dict TokenUsage
track_all [] tokens = tokens
track_all ((key, usage) ∷ calls) tokens = track_all calls (track key usage tokens)

-- the tokens of the calls, and of those with a key
abbrev tokens_in : List (String × TokenUsage) → ℕ
tokens_in [] = 0
tokens_in ((key, usage) ∷ calls) = usage.total_tokens + tokens_in calls

abbrev tokens_under : String → List (String × TokenUsage) → ℕ
tokens_under sought [] = 0
tokens_under sought ((key, usage) ∷ calls) =
    if key == sought
    then usage.total_tokens + tokens_under sought calls
    else tokens_under sought calls

total_usage-insert :
    (key : String) (usage : TokenUsage) (tokens : Dict TokenUsage)
    → (total_usage (insert key usage tokens)).total_tokens + (usage_for tokens key).total_tokens
      ≡ (total_usage tokens).total_tokens + usage.total_tokens
unfolding total_usage insert usage_for lookup
total_usage-insert key usage [] = omega arith
total_usage-insert key usage ((k, u) ∷ tokens) = ground (arith, total_usage-insert key usage tokens)

total_usage-track :
    (key : String) (usage : TokenUsage) (tokens : Dict TokenUsage)
    → (total_usage (track key usage tokens)).total_tokens
      ≡ (total_usage tokens).total_tokens + usage.total_tokens
unfolding track
total_usage-track key usage tokens =
    ground (arith, total_usage-insert key (add_usage (usage_for tokens key) usage) tokens)

usage_for-track :
    (key sought : String) (usage : TokenUsage) (tokens : Dict TokenUsage)
    → (usage_for (track key usage tokens) sought).total_tokens
      ≡ (usage_for tokens sought).total_tokens + (if key == sought then usage.total_tokens else 0)
unfolding track usage_for
usage_for-track key sought usage tokens = ground (
  arith,
  lookup-insert key sought (add_usage (usage_or_zero (lookup key tokens)) usage) tokens,
  eq_iff key sought,
)

total_usage-track_all :
    (calls : List (String × TokenUsage)) (tokens : Dict TokenUsage)
    → (total_usage (track_all calls tokens)).total_tokens
      ≡ (total_usage tokens).total_tokens + tokens_in calls
unfolding track_all
total_usage-track_all [] tokens = omega arith
total_usage-track_all ((key, usage) ∷ calls) tokens = omega (
  arith,
  total_usage-track_all calls (track key usage tokens),
  total_usage-track key usage tokens,
)

usage_for-track_all :
    (calls : List (String × TokenUsage)) (sought : String) (tokens : Dict TokenUsage)
    → (usage_for (track_all calls tokens) sought).total_tokens
      ≡ (usage_for tokens sought).total_tokens + tokens_under sought calls
unfolding track_all
usage_for-track_all [] sought tokens = omega arith
usage_for-track_all ((key, usage) ∷ calls) sought tokens = ground (
  arith,
  usage_for-track_all calls sought (track key usage tokens),
  usage_for-track key sought usage tokens,
)

-- After any calls of TrackUsage on a new gateway, Usage has the tokens of all of them, and UsageFor a
-- key those of the calls with that key.
track_all-tokens :
    (calls : List (String × TokenUsage)) (sought : String)
    → ((total_usage (track_all calls [])).total_tokens ≡ tokens_in calls)
      × ((usage_for (track_all calls []) sought).total_tokens ≡ tokens_under sought calls)
unfolding total_usage usage_for lookup
track_all-tokens calls sought = (
  omega (arith, total_usage-track_all calls []),
  omega (arith, usage_for-track_all calls sought []),
)
