-- ===== src/Runtime.antt =====
-- agent/runtime/session.go and the gate of agent/runtime/executor.go: what stands between a tool call
-- and its dispatch. The transcript of a session, events and the texts of observations are left out.
pub mod Discovery
pub mod Guards
pub mod References
pub mod Gate
pub mod Plan
pub mod Consent
pub mod Sessions
pub mod Expiry
pub mod Evictions
pub mod Dispatch
pub mod Operations
pub mod Permitted
pub mod Turn
mod Tests
use orjanda.Prelude.{
  ℕ, ◌+◌, String, Bool, true, false, not, ◌&&◌, ◌||◌, ◌==◌, List, [], ◌∷◌, Option, none, some, Dict,
  length, member, if◌then◌else◌, ◌++◌,
}
use orjanda.Prelude.Int.{ℤ, pos}
use orjanda.Errors.{Result, ok, err}
use orjanda.Value.{Value, Row, array, items, as_text}
use orjanda.Auth.{Identity, Context, from_context, new_context}
use orjanda.Audit.{with_agent}
use orjanda.Llm.{Message}
use orjanda.Safety.{
  Layer, Approval, Reason, ToolCall, verb_for, requires_approval_with_reason, is_tool_allowed,
}

pub record Session : Type 0 where
  pub id : String
  pub user_id : String
  pub seen : List String
  pub target_count : ℤ
  pub target_doc : String
  pub transcript : List Message

-- addMessage
unfoldable pub add_message : Session → Message → Session
add_message s m = record s { transcript = s.transcript ++ m ∷ [] }

-- setTargetCount
unfoldable pub set_target_count : Session → String → ℤ → Session
set_target_count s doc_type n = record s { target_doc = doc_type; target_count = n }

-- TargetCount
unfoldable pub target_count_of : Session → String → ℤ
target_count_of s doc_type =
    if doc_type == "" || not (s.target_doc == doc_type) then pos 0 else s.target_count

unfoldable pub mark_seen : Session → String → Session
mark_seen s doc_type =
    if doc_type == "" || member doc_type s.seen then s else record s { seen = doc_type ∷ s.seen }

pub record ApprovalPayload : Type 0 where
  pub doc_type : String
  pub action : String
  pub payload : Row
  pub policy_reason : Reason

pub record ApprovalResponse : Type 0 where
  pub approved : Bool
  pub payload : Option Row

-- The human's side: RequestApproval
abbrev pub Gateway : Type 0
Gateway = ApprovalPayload → Result ApprovalResponse

-- What the executor takes from the rest of the runtime: the document type of a tool, its key, the key
-- that a call marks as seen, and the dispatch of a tool on the states `S` of what it may change.
pub record Runtime (S : Type 0) : Type 0 where
  pub safety : Layer
  pub doc_type_for : String → String
  pub snake_doc_type_for : String → String
  pub seen_by : String → Row → String
  pub dispatch : Context → String → Row → S → Result Value × S

-- what the model is told of a call
pub data Observation : Type 0 where
  blocked no_gateway gateway_failed denied : Observation
  answered : Result Value → Observation

-- discoveryToolNames
abbrev pub discovery_tools : List String
discovery_tools = "list_document_types" ∷ "describe_document" ∷ "list_relationships" ∷ []

unfoldable pub verb_of_call : String → Row → String
verb_of_call name args = if member name discovery_tools then "read" else verb_for name args

-- what the gate lets through: an observation in place of the call, or the arguments to call with
pub data Passage : Type 0 where
  stop : Observation → Passage
  go : Row → Passage

abbrev pub or_args : Option Row → Row → Row
or_args none args = args
or_args (some amended) args = amended

abbrev pub on_response : Row → Result ApprovalResponse → Passage
on_response args (err e) = stop gateway_failed
on_response args (ok resp) = if resp.approved then go (or_args resp.payload args) else stop denied

-- the context of an agent's call
unfoldable pub agent_context : Context → Session → String → Context
agent_context ctx sess prompt =
    record (with_agent (new_context ctx (from_context ctx)) sess.id prompt) { session = sess.id }

-- recordCount
abbrev pub record_count : Result Value → Option ℤ
record_count (ok (array vs)) = some (pos (length (items vs)))
record_count _ = none

abbrev pub count_records : Session → String → Option ℤ → Session
count_records sess doc_type none = sess
count_records sess doc_type (some n) =
    if doc_type == "" then sess else set_target_count sess doc_type n

module _ {S : Type 0} where
  abbrev pub payload_of : Runtime S → String → Row → Approval → ApprovalPayload
  payload_of r name args a = record {
    doc_type = r.doc_type_for name;
    action = verb_of_call name args;
    payload = args;
    policy_reason = a.reason;
  }

  -- gateApproval
  unfoldable pub gate_approval : Runtime S → String → Row → Approval → Option Gateway → Passage
  gate_approval r name args a none = stop no_gateway
  gate_approval r name args a (some ask) = on_response args (ask (payload_of r name args a))

  -- the call that the safety layer is asked about
  unfoldable pub call_info : Runtime S → Session → String → Row → ToolCall
  call_info r sess name args = record {
    verb = verb_of_call name args;
    tool_name = name;
    args = args;
    target_count = target_count_of sess (r.snake_doc_type_for name);
  }

  -- executeTool, up to the dispatch
  unfoldable pub gate :
      Runtime S → Context → Session → String → Row → Bool → Option Gateway → Passage
  gate r ctx sess name args plan_approved approvals =
      let a =
        requires_approval_with_reason r.safety (from_context ctx) (call_info r sess name args) in
      if not (is_tool_allowed r.safety name)
      then stop blocked
      else if not plan_approved && a.required
      then gate_approval r name args a approvals
      else go args

  -- executeTool, from the dispatch on
  unfoldable pub after_dispatch :
      Runtime S → Session → String → Row → Result Value × S → (Observation × Session) × S
  after_dispatch r sess name args (out, s) = (
    (
      answered out,
      count_records (mark_seen sess (r.seen_by name args)) (r.snake_doc_type_for name)
          (record_count out),
    ),
    s,
  )

  abbrev pub pass_on :
      Runtime S → Context → Session → String → String → Passage → S → (Observation × Session) × S
  pass_on r ctx sess name prompt (stop obs) s = ((obs, sess), s)
  pass_on r ctx sess name prompt (go args) s =
      after_dispatch r sess name args (r.dispatch (agent_context ctx sess prompt) name args s)

  unfoldable pub execute_tool :
      Runtime S
      → Context
      → Session
      → String
      → Row
      → String
      → Bool
      → Option Gateway
      → S
      → (Observation × Session) × S
  execute_tool r ctx sess name args prompt plan_approved approvals s =
      pass_on r ctx sess name prompt (gate r ctx sess name args plan_approved approvals) s
