-- ===== src/Runtime/Turn.antt =====
-- Execute of agent/runtime/runtime.go, executePlanMode of agent/runtime/plan.go and the tools of a turn
-- in agent/runtime/context.go: one turn of the conversation with the model. Events are left out; an
-- error of a provider is plain.
pub mod Looped
pub mod Execute
pub mod Start
pub mod Kept
pub mod Told
pub mod Moves
pub mod Ended
mod Tests
use orjanda.Prelude.{
  ℕ, zero, suc, ◌+◌, String, Bool, true, false, not, ◌&&◌, ◌||◌, ◌==◌, List, [], ◌∷◌, ◌++◌, reverse,
  Option, none, some, Dict, lookup, insert, member, is_empty, keep, if◌then◌else◌, leb, ltb,
}
use Prim.Native.Nat.{◌/◌}
use Prim.Native.String.{◌++◌ as ◌++ˢ◌, len, find}
use orjanda.Prelude.Int.{ℤ, pos}
use orjanda.Errors.{Result, ok, err, plain, coded, validation}
use orjanda.Value.{Row, int}
use orjanda.Auth.{Identity, Context, from_context, new_context}
use orjanda.Llm.{
  Message, ToolCall, ChatRequest, ChatResponse, TokenUsage, Provider, Answer, answered, failed,
}
use orjanda.Tools.{ToolRegistry, CustomTool, ToolDefinition}
use orjanda.Tools.Offer.{for_identity}
use orjanda.Safety.{Layer, check_token_budget, is_tool_allowed}
use orjanda.Planner.{PlanStep, row_or_empty}
use orjanda.Runtime.{
  Session, Runtime, Gateway, Observation, add_message, discovery_tools, execute_tool,
}
use orjanda.Runtime.Plan.{Response, said, calling, tool_answer}
use orjanda.Runtime.References.{Host}
use orjanda.Runtime.Dispatch.{split_operation_tool, snake_part}

-- The runtime with what it has from elsewhere: the token counts of the provider as they stand, its
-- TrackUsage (the identity where it has none), and the decoding of JSON texts.
pub record Agent (S : Type 0) : Type 0 where
  pub engine : Runtime S
  pub host : Host
  pub registry : ToolRegistry
  pub custom : List (CustomTool S)
  pub model : String
  pub system : String
  pub max_steps : ℕ
  pub usage : S → Option (String → ℤ)
  pub track_usage : String → TokenUsage → S → S
  pub decode_args : String → Option Row
  pub decode_plan : String → Result (List PlanStep)
  pub provider : Provider S
  pub approvals : Option Gateway

-- the texts of a name and its arguments in a message's calls
unfoldable pub estimate_calls : List ToolCall → ℕ
estimate_calls [] = 0
estimate_calls (tc ∷ calls) = len tc.arguments / 4 + estimate_calls calls

unfoldable pub estimate_tokens : List Message → ℕ
estimate_tokens [] = 0
estimate_tokens (m ∷ msgs) =
    len m.content / 4 + len m.name / 4 + 4 + estimate_calls m.tool_calls + estimate_tokens msgs

unfoldable pub projected_for : String → Session → ℤ
projected_for user_message sess = pos (estimate_tokens sess.transcript + len user_message / 4 + 256)

-- strings.Contains
abbrev contains_text : String → String → Bool
contains_text s part = leb (find s part) (len s)

-- the loop over the earlier calls, from an index on
unfoldable pub refers_below : Host → String → ℕ → Bool
refers_below host arguments zero = false
refers_below host arguments (suc j) =
    contains_text arguments ("ref:" ++ˢ host.show (int (pos j))) || refers_below host arguments j

unfoldable pub depends_from : Host → ℕ → List ToolCall → Bool
depends_from host i [] = false
depends_from host i (call ∷ calls) =
    refers_below host call.arguments i || depends_from host (suc i) calls

unfoldable pub has_data_dependency : Host → List ToolCall → Bool
has_data_dependency host calls = depends_from host 0 calls

unfoldable pub seen_doc_type : Session → String → Bool
seen_doc_type sess doc_type = member doc_type sess.seen

-- the index of the tools by their names, a later one in place of an earlier
unfoldable pub index_schemas : List ToolDefinition → Dict Row → Dict Row
index_schemas [] schemas = schemas
index_schemas (t ∷ tools) schemas = index_schemas tools (insert t.name t.parameters schemas)

unfoldable pub schemas_for : List ToolDefinition → Dict Row
schemas_for tools = index_schemas tools []

-- the contents of the tool messages, the newest first, three at most
unfoldable pub last_results : ℕ → List Message → List String
last_results zero msgs = []
last_results (suc n) [] = []
last_results (suc n) (m ∷ msgs) =
    let skipped = last_results (suc n) msgs in
    let taken = m.content ∷ last_results n msgs in if m.role == "tool" then taken else skipped

-- strings.Join
abbrev join : String → List String → String
join sep [] = ""
join sep (s ∷ []) = s
join sep (s ∷ t ∷ rest) = s ++ˢ (sep ++ˢ join sep (t ∷ rest))

unfoldable pub deterministic_summary : Session → String
deterministic_summary sess =
    "The plan completed. Last results:\n- "
    ++ˢ join "\n- " (last_results 3 (reverse sess.transcript))

-- what Execute does with a response of the model after a number of steps
pub data Stage : Type 0 where
  answer exceeded escalate act : Stage

unfoldable pub stage_of : Host → ℕ → List ToolCall → ℕ → Stage
stage_of host max_steps calls steps =
    if is_empty calls
    then answer
    else if ltb max_steps (suc steps)
    then exceeded
    else if has_data_dependency host calls
    then escalate
    else act

module _ {S : Type 0} where
  -- the safety layer with the counts of tokens as they stand
  abbrev pub metered : Agent S → S → Layer
  metered a s = record a.engine.safety { usage = a.usage s }

  unfoldable pub is_attached : Agent S → Session → ToolDefinition → Bool
  is_attached a sess def =
      let snake = snake_part (split_operation_tool def.name) in
      is_tool_allowed a.engine.safety def.name
      && (member def.name discovery_tools || snake == "" || seen_doc_type sess snake)

  unfoldable pub tools_for_turn : Agent S → Context → Session → List ToolDefinition
  tools_for_turn a ctx sess =
      keep (is_attached a sess) (for_identity a.registry ctx (from_context ctx) a.custom)

  unfoldable pub build_messages : Agent S → Session → List Message
  build_messages a sess = said "system" a.system ∷ sess.transcript

  abbrev pub request : Agent S → Session → List ToolDefinition → Option (String × Row) → ChatRequest
  request a sess tools format = record {
    model = a.model;
    messages = build_messages a sess;
    tools = tools;
    max_tokens = pos 0;
    response_format = format;
  }

  abbrev pub tracked : Agent S → Session → Answer × S → Result ChatResponse × S
  tracked a sess (failed e, s) = (err plain, s)
  tracked a sess (answered resp, s) = (ok resp, a.track_usage sess.id resp.usage s)

  abbrev pub within_budget :
      Result (Unit {0}) → (S → Result ChatResponse × S) → S → Result ChatResponse × S
  within_budget (err e) next s = (err e, s)
  within_budget (ok done) next s = next s

  unfoldable pub chat :
      Agent S
      → Provider S
      → Session
      → List ToolDefinition
      → Option (String × Row)
      → S
      → Result ChatResponse × S
  chat a p sess tools format s =
      within_budget
        (check_token_budget (metered a s) sess.id (pos (estimate_tokens (build_messages a sess))))
        (λ (t : S). tracked a sess (p.chat_completion (request a sess tools format) t)) s

  abbrev pub call_args : Agent S → ToolCall → Row
  call_args a call =
      if call.arguments == "" then [] else row_or_empty (a.decode_args call.arguments)

  unfoldable pub execute_tool_call :
      Agent S
      → Context
      → Session
      → ToolCall
      → String
      → Option Gateway
      → S
      → (Observation × Session) × S
  execute_tool_call a ctx sess call prompt approvals s =
      execute_tool a.engine ctx sess call.name (call_args a call) prompt false approvals s

  -- the loop over the tool calls of a response
  unfoldable pub run_calls :
      Agent S → Context → String → Option Gateway → List ToolCall → Session → S → Session × S
  run_calls a ctx prompt approvals [] sess s = (sess, s)
  run_calls a ctx prompt approvals (call ∷ calls) sess s =
      let ((obs, after), left) = execute_tool_call a ctx sess call prompt approvals s in
      run_calls a ctx prompt approvals calls
        (add_message after (tool_answer call (a.host.text_of obs))) left
