-- ===== src/Llm/Tests.antt =====
-- agent/llm/gateway.go with two providers, on states that are clock readings.
use orjanda.Prelude.{
  ℕ, zero, suc, ◌+◌, ◌≤◌, String, true, false, List, [], ◌∷◌, none, some, lookup, insert, ◌≡◌, refl,
  arith, All,
}
use orjanda.Prelude.Int.{pos}
use orjanda.Llm.{
  ChatRequest, ChatResponse, TokenUsage, Answer, answered, failed, http_status, other, Provider,
  Line, Gateway, allow, record_failure, record_success, is_failover_error, new_gateway, try_lines,
  chat_completion, stream_chat_completion, track, usage_for, total_usage,
}
use orjanda.Llm.Breakers.{chats, run, run-answered}
use orjanda.Llm.Usage.{track_all}

engine : Unit {0}
unfolding allow record_failure record_success is_failover_error new_gateway try_lines
    chat_completion stream_chat_completion track usage_for total_usage run track_all lookup insert
engine = tt

abbrev req : ChatRequest
req = record { model = ""; messages = []; tools = []; max_tokens = pos 0; response_format = none }

abbrev usage : ℕ → TokenUsage
usage n = record { prompt_tokens = n; completion_tokens = 1; total_tokens = n + 1 }

abbrev resp : ChatResponse
resp = record { content = "done"; tool_calls = []; usage = usage 4; finish_reason = "stop" }

-- fails with 503 at the time 0
abbrev waking : ℕ → Answer × ℕ
waking zero = (failed (http_status 503), 1)
waking (suc now) = (answered resp, now + 2)

abbrev primary : Provider ℕ
primary = record {
  chat_completion = λ r now. waking now;
  stream_chat_completion = λ r now. waking now;
}

abbrev refusing : Provider ℕ
refusing = record {
  chat_completion = λ r now. (failed (http_status 401), now);
  stream_chat_completion = λ r now. (failed other, now);
}

abbrev clock : ℕ → ℕ
clock now = now

abbrev gateway : Gateway ℕ
gateway = new_gateway primary (pos 1) (pos 10) (refusing ∷ [])

abbrev tripped : Gateway ℕ
tripped = (run clock (chats req ∷ []) gateway 0).0

first_failure : (chat_completion clock req gateway 0).0.0 ≡ some (failed (http_status 401))
unfolding engine
first_failure = refl

primary_open : allow tripped.primary.1 5 ≡ false
unfolding engine
primary_open = refl

waking_steady : (now : ℕ) → now ≤ (waking now).1
waking_steady zero = omega arith
waking_steady (suc now) = omega arith

run_ends : (run clock (chats req ∷ []) gateway 0).1 ≡ 1
unfolding engine
run_ends = refl

primary_kept : tripped.primary.0.chat_completion req 20 ≡ (answered resp, 21)
unfolding engine
primary_kept = refl

run-answered_example :
    All (λ (line : Line ℕ). allow line.1 20 ≡ true) (tripped.primary ∷ tripped.fallbacks)
    × ((chat_completion clock req tripped 20).0.0 ≡ some (answered resp))
run-answered_example =
    run-answered clock primary (pos 1) (pos 10) (refusing ∷ []) (chats req ∷ []) 0 20 21 req resp
      tripped
      (
        (λ r now. (waking_steady now, waking_steady now)),
        ((λ r now. (omega arith, omega arith)), tt),
      )
      (tt, tt) refl (omega (arith, run_ends)) primary_kept

abbrev calls : List (String × TokenUsage)
calls = ("", usage 4) ∷ ("a", usage 4) ∷ ("a", usage 2) ∷ []
