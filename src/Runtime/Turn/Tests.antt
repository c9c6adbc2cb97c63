-- ===== src/Runtime/Turn/Tests.antt =====
-- Turns of agent/runtime: a provider that asks for a note until one was made.
use orjanda.Prelude.{
  String, true, List, [], ◌∷◌, Option, none, some, lookup, insert, equal_fold, fold_code, to_lower,
  has_prefix, before, ◌≡◌, refl, arith,
}
use orjanda.Prelude.Int.{pos}
use orjanda.Errors.{Result, ok, err, plain, coded, validation}
use orjanda.Value.{Row, text, null}
use orjanda.Auth.{no_identity, Context, background, new_context, from_context}
use orjanda.Audit.{with_agent}
use orjanda.Llm.{ToolCall, ChatRequest, Provider, Answer, answered}
use orjanda.Perm
use orjanda.Tools.{new_tool_registry}
use orjanda.Tools.Offer.{for_identity}
use orjanda.Safety.{
  Policy, with_defaults, new_layer, contains, verb_for, largest_array, bulk_count, role_overrides,
  verb_of, count_of, requires_approval_with_reason, is_tool_allowed, check_token_budget,
}
use orjanda.Safety.Rate.{check_rate_limit}
use orjanda.Runtime.{
  Runtime, add_message, set_target_count, target_count_of, mark_seen, verb_of_call, gate_approval,
  call_info, gate, agent_context, after_dispatch, execute_tool,
}
use orjanda.Runtime.Plan.{Response}
use orjanda.Runtime.References.{Host}
use orjanda.Runtime.Sessions
use orjanda.Runtime.Sessions.{SessionManager, new_session_manager_with_ttl}
use orjanda.Runtime.Turn.{
  Agent, estimate_calls, estimate_tokens, projected_for, refers_below, depends_from,
  has_data_dependency, seen_doc_type, index_schemas, schemas_for, stage_of, is_attached,
  tools_for_turn, build_messages, chat, execute_tool_call, run_calls,
}
use orjanda.Runtime.Turn.Execute.{ExecuteConfig, provider_of, approvals_of, turn_loop, turn}
use orjanda.Runtime.Turn.Moves.{Moves}
use orjanda.Runtime.Turn.Start.{
  Shared, Moment, fresh_session, conversation, is_own, session_for, turn_context, converse, execute,
}
use orjanda.Runtime.Turn.Ended.{
  AreTold, live_of, execute-AreTold, execute-Moves, session_for-is_own,
}

engine : Unit {0}
unfolding lookup insert equal_fold fold_code to_lower has_prefix before new_context from_context
    with_agent with_defaults new_layer contains verb_for largest_array bulk_count role_overrides
    verb_of count_of requires_approval_with_reason is_tool_allowed check_token_budget
    check_rate_limit add_message set_target_count target_count_of mark_seen verb_of_call
    gate_approval call_info gate agent_context after_dispatch execute_tool new_tool_registry
    for_identity estimate_calls estimate_tokens projected_for refers_below depends_from
    has_data_dependency seen_doc_type index_schemas schemas_for stage_of is_attached tools_for_turn
    build_messages chat execute_tool_call run_calls provider_of approvals_of turn_loop turn
    fresh_session conversation is_own session_for converse execute new_session_manager_with_ttl
    Sessions.new Sessions.new_session Sessions.evict_expired Sessions.sweep
engine = tt

abbrev policy : Policy
policy = record {
  auto_approve = "create" ∷ [];
  require_approval = [];
  always_require_approval = [];
  max_bulk_operations = pos 0;
  require_approval_for_roles = [];
  rate_limit = record { operations_per_minute = pos 0; scope = "" };
  token_budget_per_session = pos 0;
  tool_allowlist = [];
}

abbrev runtime : Runtime (List Row)
runtime = record {
  safety = new_layer policy;
  doc_type_for = λ name. "Note";
  snake_doc_type_for = λ name. "note";
  seen_by = λ name args. "note";
  dispatch = λ ctx name args notes. (ok null, args ∷ notes);
}

abbrev host : Host
host = record {
  show = λ v. "0";
  extract = λ obs name. ok (text name);
  text_of = λ obs. "done";
  error_text = λ e. "no";
  marshal_args = λ args. "{}";
  call_id = λ i. "call";
}

abbrev ask_for : String → ToolCall
ask_for arguments = record { id = "c1"; name = "create_note"; arguments = arguments }

abbrev respond : String → List ToolCall → Answer
respond content calls = answered (record {
  content = content;
  tool_calls = calls;
  usage = record { prompt_tokens = 0; completion_tokens = 0; total_tokens = 0 };
  finish_reason = "";
})

abbrev eager : ChatRequest → List Row → Answer × List Row
eager req [] = (respond "" (ask_for "{}" ∷ []), [])
eager req (note ∷ notes) = (respond "made" [], note ∷ notes)

abbrev insatiable : ChatRequest → List Row → Answer × List Row
insatiable req notes = (respond "" (ask_for "{}" ∷ []), notes)

abbrev provider : (ChatRequest → List Row → Answer × List Row) → Provider (List Row)
provider chat = record { chat_completion = chat; stream_chat_completion = chat }

abbrev agent : Agent (List Row)
agent = record {
  engine = runtime;
  host = host;
  registry = new_tool_registry (Perm.new_engine (λ name. err plain)) none (λ n. 0);
  custom = [];
  model = "m";
  system = "s";
  max_steps = 2;
  usage = λ notes. none;
  track_usage = λ key usage notes. notes;
  decode_args = λ s. some (("title", text "A") ∷ []);
  decode_plan = λ s. err plain;
  provider = provider eager;
  approvals = none;
}

abbrev config : ExecuteConfig (List Row)
config = record { provider = none; approvals = none }

abbrev ann : Context
ann = new_context background (record no_identity { user_id = "ann" })

abbrev moment : Moment
moment = record { ulid = "s1"; made = 5; now = 5 }

abbrev shared : Shared (List Row)
shared = record {
  manager = new_session_manager_with_ttl (pos 100);
  talks = [];
  store = none;
  world = [];
}

abbrev out_of : Option (Result Response × Shared (List Row)) → Option (Result Response × List Row)
out_of none = none
out_of (some (out, after)) = some (out, after.world)

-- A note is made, and the turn ends after one step.
made :
    out_of (execute agent config moment ann "make a note" shared)
    ≡ some (
      ok (record { content = "made"; session_id = "s1"; tool_calls = 1 }),
      (("title", text "A") ∷ []) ∷ [],
    )
unfolding engine
made = refl

-- A provider that never stops asking is stopped after two steps.
stopped :
    out_of (
      execute agent
        (record config { provider = some (provider insatiable, none) })
        moment
        ann
        "make a note"
        shared)
    ≡ some (err (coded validation), (("title", text "A") ∷ []) ∷ (("title", text "A") ∷ []) ∷ [])
unfolding engine
stopped = refl

nothing_told : AreTold shared.talks
unfolding lookup
nothing_told key sess at = absurd (ground arith)

execute-AreTold_example :
    (out : Result Response × Shared (List Row)) × (execute agent config moment ann "make a note"
        shared
      ≡ some out)
    × AreTold out.1.talks
execute-AreTold_example = execute-AreTold agent config moment ann "make a note" shared nothing_told

execute-Moves_example :
    (out : Result Response × Shared (List Row)) × (execute agent config moment ann "make a note"
        shared
      ≡ some out)
    × Moves agent
        (provider_of agent.provider config.provider)
        (turn_context ann (live_of moment ann shared))
        "make a note"
        (approvals_of agent.approvals config)
        shared.world
        out.1.world
execute-Moves_example = execute-Moves agent config moment ann "make a note" shared

session_for-is_own_example :
    is_own
      (from_context ann)
      (session_for moment (record ann { session = "s0" }) (from_context ann) shared.manager).0
    ≡ true
session_for-is_own_example =
    session_for-is_own moment (record ann { session = "s0" }) (from_context ann) shared.manager
