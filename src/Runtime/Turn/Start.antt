-- ===== src/Runtime/Turn/Start.antt =====
-- The start of a turn in agent/runtime/runtime.go: its session, the checks of the safety layer, and
-- Execute as a whole. A session is held twice here, by the manager and, with its conversation, by its
-- id among the talks.
use orjanda.Prelude.{
  ℕ, suc, String, Bool, ◌||◌, ◌==◌, List, [], Option, none, some, Dict, lookup, insert,
  if◌then◌else◌,
}
use orjanda.Prelude.Int.{pos}
use orjanda.Errors.{Result, ok, err}
use orjanda.Auth.{Identity, Context, from_context, new_context}
use orjanda.Cache.{Store}
use orjanda.Safety.{check_token_budget}
use orjanda.Safety.Rate.{check_rate_limit}
use orjanda.Runtime.{Session, add_message}
use orjanda.Runtime.Plan.{Response, said}
use orjanda.Runtime.Sessions
use orjanda.Runtime.Sessions.{LiveSession, SessionManager}
use orjanda.Runtime.Turn.{Agent, metered, projected_for}
use orjanda.Runtime.Turn.Execute.{ExecuteConfig, provider_of, approvals_of, turn}

-- newSession, of a session with its conversation
unfoldable pub fresh_session : LiveSession → Session
fresh_session live = record {
  id = live.id;
  user_id = live.user_id;
  seen = [];
  target_count = pos 0;
  target_doc = "";
  transcript = [];
}

abbrev pub session_or : Session → Option Session → Session
session_or default none = default
session_or default (some sess) = sess

unfoldable pub conversation : Dict Session → LiveSession → Session
conversation talks live = session_or (fresh_session live) (lookup live.id talks)

-- the moment of a turn: the id of a new session, the time it is made at and the manager's clock
pub record Moment : Type 0 where
  pub ulid : String
  pub made : ℕ
  pub now : ℕ

unfoldable pub is_own : Identity → LiveSession → Bool
is_own id live = live.user_id == "" || live.user_id == id.user_id

abbrev pub own_or_new :
    Moment → Identity → Option LiveSession × SessionManager → LiveSession × SessionManager
own_or_new at id (none, m) = Sessions.new at.ulid at.made at.now id m
own_or_new at id (some live, m) =
    if is_own id live then (live, m) else Sessions.new at.ulid at.made at.now id m

-- sessionFor
unfoldable pub session_for :
    Moment → Context → Identity → SessionManager → LiveSession × SessionManager
session_for at ctx id m =
    if ctx.session == ""
    then Sessions.new at.ulid at.made at.now id m
    else own_or_new at id (Sessions.get at.now ctx.session m)

-- What turns share: the sessions, their conversations, the cache and the world.
pub record Shared (S : Type 0) : Type 0 where
  pub manager : SessionManager
  pub talks : Dict Session
  pub store : Option (Store (List ℕ))
  pub world : S

abbrev pub turn_context : Context → LiveSession → Context
turn_context ctx live = record (new_context ctx (from_context ctx)) { session = live.id }

module _ {S : Type 0} where
  abbrev pub close_turn :
      Shared S
      → String
      → Option ((Result Response × Session) × S)
      → Option (Result Response × Shared S)
  close_turn shared id none = none
  close_turn shared id (some ((out, sess), s)) =
      some (out, record shared { talks = insert id sess shared.talks; world = s })

  -- Execute after the rate limit
  unfoldable pub converse :
      Agent S
      → ExecuteConfig S
      → Context
      → String
      → LiveSession
      → Shared S
      → Option (Result Response × Shared S)
  converse a cfg ctx prompt live shared =
      let sess = conversation shared.talks live in
      elim (check_token_budget (metered a shared.world) sess.id (projected_for prompt sess)) [
        | err e ↦ some (err e, record shared { talks = insert live.id sess shared.talks })
        | ok done ↦ close_turn shared live.id (
            turn a (provider_of a.provider cfg.provider) ctx prompt (approvals_of a.approvals cfg)
              (suc a.max_steps) (add_message sess (said "user" prompt)) shared.world)
      ]

  abbrev pub on_limit :
      Result (Unit {0})
      → (Shared S → Option (Result Response × Shared S))
      → Shared S
      → Option (Result Response × Shared S)
  on_limit (err e) next shared = some (err e, shared)
  on_limit (ok done) next shared = next shared

  -- Execute, with fuel for one step more than is allowed
  unfoldable pub execute :
      Agent S
      → ExecuteConfig S
      → Moment
      → Context
      → String
      → Shared S
      → Option (Result Response × Shared S)
  execute a cfg at ctx prompt shared =
      let (live, manager) = session_for at ctx (from_context ctx) shared.manager in
      let inner = turn_context ctx live in
      let (limited, store) =
        check_rate_limit a.engine.safety at.now inner (from_context ctx) shared.store in
      on_limit limited (converse a cfg inner prompt live)
        (record shared { manager = manager; store = store })
