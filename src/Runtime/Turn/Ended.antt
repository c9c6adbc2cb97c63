-- ===== src/Runtime/Turn/Ended.antt =====
-- Execute of agent/runtime/runtime.go as a whole: it ends, and what it leaves.
use orjanda.Prelude.{
  String, Bool, true, false, ◌==◌, Option, none, some, Dict, lookup, insert, lookup-insert,
  if◌then◌else◌, ◌≡◌, refl, sym, subst, ◌∙◌, ◌⊎◌, inl, inr, arith, Bool-cases, eq_refl,
}
use orjanda.Errors.{Result, Error, Result-cases, ok, err}
use orjanda.Auth.{Identity, Context, from_context}
use orjanda.Safety.{check_token_budget}
use orjanda.Safety.Rate.{check_rate_limit}
use orjanda.Runtime.{Session, add_message}
use orjanda.Runtime.Plan.{Response, said}
use orjanda.Runtime.Sessions.{LiveSession, SessionManager, new, new_session, get}
use orjanda.Runtime.Turn.{Agent, metered, projected_for}
use orjanda.Runtime.Turn.Execute.{ExecuteConfig, provider_of, approvals_of}
use orjanda.Runtime.Turn.Kept.{IsKept}
use orjanda.Runtime.Turn.Looped.{turn-keeps}
use orjanda.Runtime.Turn.Told.{IsTold, silent, turn-IsTold}
use orjanda.Runtime.Turn.Moves.{Moves, rests, turn-Moves}
use orjanda.Runtime.Turn.Start.{
  Shared, Moment, session_or, conversation, fresh_session, is_own, own_or_new, session_for,
  turn_context, close_turn, converse, on_limit, execute,
}

-- Every conversation is well told.
abbrev pub AreTold : Dict Session → Type 0
AreTold talks =
    (key : String) (sess : Session) → lookup key talks ≡ some sess → IsTold sess.transcript

conversation-IsTold :
    (talks : Dict Session) (live : LiveSession)
    → AreTold talks
    → IsTold (conversation talks live).transcript
unfolding conversation fresh_session
conversation-IsTold talks live all = held (lookup live.id talks) refl
  where
    held :
        (o : Option Session)
        → lookup live.id talks ≡ o
        → IsTold (session_or (fresh_session live) o).transcript
    held none at = silent
    held (some sess) at = all live.id sess at

if-IsTold :
    (b : Bool) (sess found : Session) (o : Option Session)
    → IsTold sess.transcript
    → (o ≡ some found → IsTold found.transcript)
    → (if b then some sess else o) ≡ some found
    → IsTold found.transcript
if-IsTold true sess found o told others at =
    subst (λ (q : Option Session). IsTold (session_or sess q).transcript) at told
if-IsTold false sess found o told others at = others at

AreTold-insert :
    (id : String) (sess : Session) (talks : Dict Session)
    → IsTold sess.transcript
    → AreTold talks
    → AreTold (insert id sess talks)
AreTold-insert id sess talks told all key found at =
    if-IsTold (id == key) sess found (lookup key talks) told (all key found)
      (sym (lookup-insert id key sess talks) ∙ at)

new-is_own :
    (at : Moment) (id : Identity) (m : SessionManager)
    → is_own id (new at.ulid at.made at.now id m).0 ≡ true
unfolding is_own new new_session
new-is_own at id m = ground (arith, eq_refl id.user_id)

own_or_new-is_own :
    (at : Moment) (id : Identity) (x : Option LiveSession × SessionManager)
    → is_own id (own_or_new at id x).0 ≡ true
own_or_new-is_own at id (none, m) = new-is_own at id m
own_or_new-is_own at id (some live, m) = elim (Bool-cases (is_own id live)) [
  | inl own ↦ rw (own, own) refl
  | inr other ↦ rw other (new-is_own at id m)
]

-- Whatever session the context names, the session of a turn is the caller's, or one without a user.
pub session_for-is_own :
    (at : Moment) (ctx : Context) (id : Identity) (m : SessionManager)
    → is_own id (session_for at ctx id m).0 ≡ true
unfolding session_for
session_for-is_own at ctx id m =
    elim (ctx.session == "")
      as (λ b.
        is_own id
          (if b
            then new at.ulid at.made at.now id m
            else own_or_new at id (get at.now ctx.session m)).0
        ≡ true) [
          | true ↦ new-is_own at id m
          | false ↦ own_or_new-is_own at id (get at.now ctx.session m)
        ]

module _ {S : Type 0} where
  -- An answer, the conversation as it is left, and what the turns then share.
  abbrev Converses :
      (Session → S → Type 0) → LiveSession → Shared S → Option (Result Response × Shared S) → Type 0
  Converses P live shared o =
      (out : Result Response × Shared S) × (o ≡ some out)
      × ((sess : Session) × (out.1.talks ≡ insert live.id sess shared.talks) × P sess out.1.world)

  close_turn-Converses :
      (P : Session → S → Type 0) (live : LiveSession) (shared : Shared S)
      (o : Option ((Result Response × Session) × S))
      → (out : (Result Response × Session) × S) × (o ≡ some out) × P out.0.1 out.1
      → Converses P live shared (close_turn shared live.id o)
  close_turn-Converses P live shared o (((out, sess), s), at, h) = rw at (
    (out, record shared { talks = insert live.id sess shared.talks; world = s }),
    refl,
    (sess, refl, h),
  )

  converse-Converses :
      (a : Agent S) (cfg : ExecuteConfig S) (ctx : Context) (prompt : String) (live : LiveSession)
      (shared : Shared S) (P : Session → S → Type 0)
      → IsKept a (provider_of a.provider cfg.provider) ctx prompt (approvals_of a.approvals cfg) P
      → P (conversation shared.talks live) shared.world
      → Converses P live shared (converse a cfg ctx prompt live shared)
  unfolding converse
  converse-Converses a cfg ctx prompt live shared P kept h =
      let sess = conversation shared.talks live in
      elim (Result-cases
        (check_token_budget (metered a shared.world) sess.id (projected_for prompt sess))) [
          | inl (e, at) ↦
              rw (converse, at)
                (
                  (err e, record shared { talks = insert live.id sess shared.talks }),
                  refl,
                  (sess, refl, h),
                )
          | inr (done, at) ↦
              rw (converse, at)
                (close_turn-Converses P live shared _ (
                  turn-keeps a (provider_of a.provider cfg.provider) ctx prompt
                    (approvals_of a.approvals cfg) P kept (add_message sess (said "user" prompt))
                    shared.world (kept.by_message sess shared.world "user" prompt refl h)))
        ]

  on_limit-cases :
      (limited : Result (Unit {0})) (next : Shared S → Option (Result Response × Shared S))
      (shared : Shared S)
      → ((e : Error) × (on_limit limited next shared ≡ some (err e, shared)))
        ⊎ (on_limit limited next shared ≡ next shared)
  on_limit-cases (err e) next shared = inl (e, refl)
  on_limit-cases (ok done) next shared = inr refl

  -- The session of the caller's turn.
  abbrev pub live_of : Moment → Context → Shared S → LiveSession
  live_of at ctx shared = (session_for at ctx (from_context ctx) shared.manager).0

  -- A turn ends, with an answer or an error, and where every transcript was made up of messages without
  -- calls and of calls with all their answers directly behind them, in their order, it still is.
  pub execute-AreTold :
      (a : Agent S) (cfg : ExecuteConfig S) (at : Moment) (ctx : Context) (prompt : String)
      (shared : Shared S)
      → AreTold shared.talks
      → (out : Result Response × Shared S) × (execute a cfg at ctx prompt shared ≡ some out)
        × AreTold out.1.talks
  unfolding execute
  execute-AreTold a cfg at ctx prompt shared told =
      let (live, manager) = session_for at ctx (from_context ctx) shared.manager in
      let inner = turn_context ctx live in
      let (limited, store) =
        check_rate_limit a.engine.safety at.now inner (from_context ctx) shared.store in
      let begun : Shared S = record shared { manager = manager; store = store } in
      elim (on_limit-cases limited (converse a cfg inner prompt live) begun) [
        | inl (e, stopped) ↦ ((err e, begun), stopped, told)
        | inr passed ↦
            let (out, ends, (sess, held, well)) =
              converse-Converses a cfg inner prompt live begun (λ sess s. IsTold sess.transcript)
                (turn-IsTold a inner prompt (approvals_of a.approvals cfg)
                  (provider_of a.provider cfg.provider))
                (conversation-IsTold shared.talks live told) in
            (
              out,
              passed ∙ ends,
              subst AreTold (sym held) (AreTold-insert live.id sess shared.talks well told),
            )
      ]

  -- A turn ends, and all that it does to the world is to ask the turn's provider, to have it count
  -- tokens, to execute tools through the gate, as the caller and without a plan's approval, and to
  -- execute steps of valid plans that need no approval or that a human approved.
  pub execute-Moves :
      (a : Agent S) (cfg : ExecuteConfig S) (at : Moment) (ctx : Context) (prompt : String)
      (shared : Shared S)
      → (out : Result Response × Shared S) × (execute a cfg at ctx prompt shared ≡ some out)
        × Moves a
            (provider_of a.provider cfg.provider)
            (turn_context ctx (live_of at ctx shared))
            prompt
            (approvals_of a.approvals cfg)
            shared.world
            out.1.world
  unfolding execute
  execute-Moves a cfg at ctx prompt shared =
      let (live, manager) = session_for at ctx (from_context ctx) shared.manager in
      let inner = turn_context ctx live in
      let p = provider_of a.provider cfg.provider in
      let approvals = approvals_of a.approvals cfg in
      let (limited, store) =
        check_rate_limit a.engine.safety at.now inner (from_context ctx) shared.store in
      let begun : Shared S = record shared { manager = manager; store = store } in
      elim (on_limit-cases limited (converse a cfg inner prompt live) begun) [
        | inl (e, stopped) ↦ ((err e, begun), stopped, rests shared.world)
        | inr passed ↦
            let (out, ends, (sess, held, moved)) =
              converse-Converses a cfg inner prompt live begun
                (λ sess s. Moves a p inner prompt approvals shared.world s)
                (turn-Moves a p inner prompt approvals shared.world) (rests shared.world) in
            (out, passed ∙ ends, moved)
      ]
