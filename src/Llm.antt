-- ===== src/Llm.antt =====
-- agent/llm/llm.go and agent/llm/gateway.go: failover between providers of language models, with a
-- circuit breaker for each, and the counts of tokens. A provider works on the states `S` of what is
-- outside, its clock included; a count of tokens is not negative.

pub mod Breakers
pub mod Usage
mod Tests
use orjanda.Prelude.{
  ℕ, zero, suc, ◌+◌, String, Bool, true, false, not, ◌==◌, List, [], ◌∷◌, Option, none, some, Dict,
  lookup, insert, if◌then◌else◌, leb, eqb,
}
use orjanda.Prelude.Int.{ℤ, pos, negsuc}
use orjanda.Tools.{ToolDefinition}
use orjanda.Value.{Row}

pub record ToolCall : Type 0 where
  pub id : String
  pub name : String
  pub arguments : String

pub record Message : Type 0 where
  pub role : String
  pub content : String
  pub name : String
  pub tool_call_id : String
  pub tool_calls : List ToolCall

-- the temperature is never set and left out
pub record ChatRequest : Type 0 where
  pub model : String
  pub messages : List Message
  pub tools : List ToolDefinition
  pub max_tokens : ℤ
  pub response_format : Option (String × Row)

pub record TokenUsage : Type 0 where
  pub prompt_tokens : ℕ
  pub completion_tokens : ℕ
  pub total_tokens : ℕ

pub record ChatResponse : Type 0 where
  pub content : String
  pub tool_calls : List ToolCall
  pub usage : TokenUsage
  pub finish_reason : String

-- an HTTPStatusError with its code, an error that wraps another one, and any other
pub data LlmError : Type 0 where
  http_status : ℕ → LlmError
  wrapping : LlmError → LlmError
  other : LlmError

pub data Answer : Type 0 where
  answered : ChatResponse → Answer
  failed : LlmError → Answer

-- Provider; a stream stands for the answer that opens it
pub record Provider (S : Type 0) : Type 0 where
  pub chat_completion : ChatRequest → S → Answer × S
  pub stream_chat_completion : ChatRequest → S → Answer × S

-- circuitBreaker
pub record CircuitBreaker : Type 0 where
  pub threshold : ℕ
  pub cooldown : ℕ
  pub failures : ℕ
  pub open_until : ℕ

unfoldable pub allow : CircuitBreaker → ℕ → Bool
allow b now = leb b.open_until now

unfoldable pub record_failure : CircuitBreaker → ℕ → CircuitBreaker
record_failure b now =
    if leb b.threshold (suc b.failures)
    then record b { open_until = now + b.cooldown; failures = zero }
    else record b { failures = suc b.failures }

unfoldable pub record_success : CircuitBreaker → CircuitBreaker
record_success b = record b { failures = zero }

-- isFailoverError
unfoldable pub is_failover_error : LlmError → Bool
is_failover_error (http_status code) = leb 500 code
is_failover_error (wrapping e) = is_failover_error e
is_failover_error other = false

abbrev pub Line : Type 0 → Type 0
Line S = Provider S × CircuitBreaker

-- Gateway: the providers with their breakers, the primary one first
pub record Gateway (S : Type 0) : Type 0 where
  pub primary : Line S
  pub fallbacks : List (Line S)
  pub tokens : Dict TokenUsage

abbrev pub positive_or : ℤ → ℕ → ℕ
positive_or (pos zero) default = default
positive_or (pos (suc n)) default = suc n
positive_or (negsuc n) default = default

abbrev new_breaker : ℤ → ℤ → CircuitBreaker
new_breaker threshold cooldown = record {
  threshold = positive_or threshold 3;
  cooldown = positive_or cooldown 30000000000;
  failures = zero;
  open_until = zero;
}

abbrev no_usage : TokenUsage
no_usage = record { prompt_tokens = zero; completion_tokens = zero; total_tokens = zero }

abbrev pub add_usage : TokenUsage → TokenUsage → TokenUsage
add_usage u v = record {
  prompt_tokens = u.prompt_tokens + v.prompt_tokens;
  completion_tokens = u.completion_tokens + v.completion_tokens;
  total_tokens = u.total_tokens + v.total_tokens;
}

abbrev pub usage_or_zero : Option TokenUsage → TokenUsage
usage_or_zero none = no_usage
usage_or_zero (some u) = u

-- UsageFor, of the map of tokens
unfoldable pub usage_for : Dict TokenUsage → String → TokenUsage
usage_for tokens key = usage_or_zero (lookup key tokens)

-- Usage
unfoldable pub total_usage : Dict TokenUsage → TokenUsage
total_usage [] = no_usage
total_usage ((key, u) ∷ tokens) = add_usage u (total_usage tokens)

-- track, which is TrackUsage
unfoldable pub track : String → TokenUsage → Dict TokenUsage → Dict TokenUsage
track key usage tokens =
    if eqb usage.total_tokens 0
    then tokens
    else insert key (add_usage (usage_for tokens key) usage) tokens

-- the answer of a call of the gateway; `none` where each circuit is open
abbrev pub Tried : Type 0 → Type 0
Tried S = (Option Answer × List (Line S)) × S

abbrev last_failure : Option LlmError → Option Answer
last_failure none = none
last_failure (some e) = some (failed e)

abbrev track_answer : Option Answer → Dict TokenUsage → Dict TokenUsage
track_answer (some (answered resp)) tokens = track "" resp.usage tokens
track_answer _ tokens = tokens

module _ {S : Type 0} where
  abbrev pub lines_of : ℤ → ℤ → List (Provider S) → List (Line S)
  lines_of threshold cooldown [] = []
  lines_of threshold cooldown (p ∷ ps) =
      (p, new_breaker threshold cooldown) ∷ lines_of threshold cooldown ps

  -- NewGatewayWithOptions
  unfoldable pub new_gateway : Provider S → ℤ → ℤ → List (Provider S) → Gateway S
  new_gateway primary threshold cooldown fallbacks = record {
    primary = (primary, new_breaker threshold cooldown);
    fallbacks = lines_of threshold cooldown fallbacks;
    tokens = [];
  }

  abbrev pub keep_line : Line S → Tried S → Tried S
  keep_line line ((answer, lines), s) = ((answer, line ∷ lines), s)

  -- what follows from the answer of a provider; `others` goes on with the next ones after a failure
  abbrev pub on_answer :
      (S → ℕ) → Line S → List (Line S) → (Option LlmError → S → Tried S) → Answer × S → Tried S
  on_answer clock (p, b) rest others (answered resp, s) =
      ((some (answered resp), (p, record_success b) ∷ rest), s)
  on_answer clock (p, b) rest others (failed e, s) =
      if is_failover_error e
      then keep_line (p, record_failure b (clock s)) (others (some e) s)
      else ((some (failed e), (p, b) ∷ rest), s)

  -- the loop of ChatCompletion and StreamChatCompletion, with the last error
  unfoldable pub try_lines :
      (S → ℕ) → (Provider S → S → Answer × S) → List (Line S) → Option LlmError → S → Tried S
  try_lines clock call [] last s = ((last_failure last, []), s)
  try_lines clock call ((p, b) ∷ rest) last s =
      let others = try_lines clock call rest in
      let skipped = keep_line (p, b) (others last s) in
      let asked = on_answer clock (p, b) rest others (call p s) in
      if allow b (clock s) then asked else skipped

  -- the gateway with the lines as a call left them, which are as many
  abbrev pub with_lines : Gateway S → List (Line S) → Gateway S
  with_lines g [] = g
  with_lines g (primary ∷ fallbacks) = record g { primary = primary; fallbacks = fallbacks }

  abbrev pub after_chat : Gateway S → Tried S → (Option Answer × Gateway S) × S
  after_chat g ((answer, lines), s) =
      ((answer, record (with_lines g lines) { tokens = track_answer answer g.tokens }), s)

  -- ChatCompletion
  unfoldable pub chat_completion :
      (S → ℕ) → ChatRequest → Gateway S → S → (Option Answer × Gateway S) × S
  chat_completion clock req g s =
      after_chat g (
        try_lines clock (λ (p : Provider S). p.chat_completion req) (g.primary ∷ g.fallbacks) none
          s)

  abbrev pub after_stream : Gateway S → Tried S → (Option Answer × Gateway S) × S
  after_stream g ((answer, lines), s) = ((answer, with_lines g lines), s)

  -- StreamChatCompletion
  unfoldable pub stream_chat_completion :
      (S → ℕ) → ChatRequest → Gateway S → S → (Option Answer × Gateway S) × S
  stream_chat_completion clock req g s = after_stream g (
      try_lines clock (λ (p : Provider S). p.stream_chat_completion req) (g.primary ∷ g.fallbacks)
        none s)
