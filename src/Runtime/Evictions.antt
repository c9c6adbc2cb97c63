-- ===== src/Runtime/Evictions.antt =====
-- The evictions of the SessionManager of agent/runtime/session.go cannot be told from no eviction.
use orjanda.Prelude.{
  ℕ, ◌≤◌, String, ◌==◌, List, [], ◌∷◌, Option, none, some, Dict, lookup, insert, delete,
  lookup-delete, if◌then◌else◌, ◌≡◌, refl, subst, sym, ◌∙◌, ap, inl, inr, arith, Bool-cases,
}
use orjanda.Prelude.Int.{ℤ}
use orjanda.Auth.{Identity}
use orjanda.Runtime.Sessions.{
  LiveSession, SessionManager, new_session_manager_with_ttl, new_session, is_expired, is_positive,
  evict_expired, new, get_found, get, remove,
}
use orjanda.Runtime.Expiry.{
  fresh, touched, put_found, left_of, fresh-evict_expired, fresh-get, fresh-put_found, fresh-insert,
}

pub data Operation : Type 0 where
  new_at : String → ℕ → ℕ → Identity → Operation
  get_at : ℕ → String → Operation
  evict_at_time : ℕ → Operation
  removal : String → Operation

-- what the callers are given, one operation after the other
unfoldable pub answers : List Operation → SessionManager → List (Option LiveSession)
answers [] m = []
answers (new_at ulid made now id ∷ ops) m =
    let (s, after) = new ulid made now id m in let rest = answers ops after in some s ∷ rest
answers (get_at now id ∷ ops) m =
    let (s, after) = get now id m in let rest = answers ops after in s ∷ rest
answers (evict_at_time now ∷ ops) m = answers ops (evict_expired now m).1
answers (removal id ∷ ops) m = answers ops (remove id m)

-- The answers where no session is ever evicted and a lookup passes over the expired ones.
unfoldable pub lazy_answers : ℤ → List Operation → Dict LiveSession → List (Option LiveSession)
lazy_answers ttl [] d = []
lazy_answers ttl (new_at ulid made now id ∷ ops) d =
    let s = new_session ulid made id in
    let rest = lazy_answers ttl ops (insert ulid s d) in some s ∷ rest
lazy_answers ttl (get_at now id ∷ ops) d =
    let s = touched now (fresh ttl now (lookup id d)) in
    let rest = lazy_answers ttl ops (put_found id s d) in s ∷ rest
lazy_answers ttl (evict_at_time now ∷ ops) d = lazy_answers ttl ops d
lazy_answers ttl (removal id ∷ ops) d = lazy_answers ttl ops (delete id d)

-- The clock does not run back.
abbrev pub Clock : ℕ → List Operation → Type 0
Clock last [] = Unit
Clock last (new_at ulid made now id ∷ ops) = (last ≤ now) × Clock now ops
Clock last (get_at now id ∷ ops) = (last ≤ now) × Clock now ops
Clock last (evict_at_time now ∷ ops) = (last ≤ now) × Clock now ops
Clock last (removal id ∷ ops) = Clock last ops

-- The manager and the sessions that are never evicted look alike from a time on.
Matches : ℤ → ℕ → SessionManager → Dict LiveSession → Type 0
Matches ttl last m d =
    (m.ttl ≡ ttl)
    × ((j : String) (later : ℕ)
        → last ≤ later
        → fresh ttl later (lookup j m.sessions) ≡ fresh ttl later (lookup j d))

Matches-evict_expired :
    (ttl : ℤ) (last now : ℕ) (m : SessionManager) (d : Dict LiveSession)
    → last ≤ now
    → Matches ttl last m d
    → Matches ttl now (evict_expired now m).1 d
unfolding Matches
Matches-evict_expired ttl last now m d le (same, agree) = (
  unfold evict_expired in
      elim (Bool-cases (is_positive m.ttl)) [
        | inl limited ↦ rw limited same
        | inr free ↦ rw free same
      ],
  λ j later h.
      subst
        (λ (t : ℤ).
          fresh t later (lookup j (evict_expired now m).1.sessions)
          ≡ fresh t later (lookup j m.sessions))
        same (fresh-evict_expired now later j m h)
      ∙ agree j later (omega arith),
)

Matches-insert :
    (ttl : ℤ) (last : ℕ) (id : String) (s : LiveSession) (m : SessionManager) (d : Dict LiveSession)
    → Matches ttl last m d
    → Matches ttl last (record m { sessions = insert id s m.sessions }) (insert id s d)
unfolding Matches
Matches-insert ttl last id s m d (same, agree) = (
  same,
  λ j later h.
      fresh-insert ttl later id j s m.sessions
      ∙ ap (λ (rest : Option LiveSession). if id == j then fresh ttl later (some s) else rest)
          (agree j later h)
      ∙ sym (fresh-insert ttl later id j s d),
)

Matches-remove :
    (ttl : ℤ) (last : ℕ) (id : String) (m : SessionManager) (d : Dict LiveSession)
    → Matches ttl last m d
    → Matches ttl last (remove id m) (delete id d)
unfolding Matches remove
Matches-remove ttl last id m d (same, agree) = (
  same,
  λ j later h. elim (Bool-cases (id == j)) [
    | inl this ↦ rw (lookup-delete id j m.sessions) (rw (lookup-delete id j d) (rw this refl))
    | inr apart ↦
        rw (lookup-delete id j m.sessions) (rw (lookup-delete id j d) (rw apart (agree j later h)))
  ],
)

get_found-ttl :
    (now : ℕ) (id : String) (found : Option LiveSession) (m : SessionManager)
    → (get_found now id found m).1.ttl ≡ m.ttl
unfolding get_found
get_found-ttl now id none m = refl
get_found-ttl now id (some s) m = ground arith

get_found-touched :
    (now : ℕ) (id : String) (found : Option LiveSession) (m : SessionManager)
    → (get_found now id found m).0 ≡ touched now (fresh m.ttl now found)
unfolding get_found fresh
get_found-touched now id none m = refl
get_found-touched now id (some s) m = elim (Bool-cases (is_expired m.ttl s now)) [
  | inl old ↦ rw old refl
  | inr young ↦ rw young refl
]

get-touched :
    (ttl : ℤ) (last now : ℕ) (id : String) (m : SessionManager) (d : Dict LiveSession)
    → last ≤ now
    → Matches ttl last m d
    → (get now id m).0 ≡ touched now (fresh ttl now (lookup id d))
unfolding get Matches
get-touched ttl last now id m d le (same, agree) =
    get_found-touched now id (lookup id m.sessions) m
    ∙ ap (λ (t : ℤ). touched now (fresh t now (lookup id m.sessions))) same
    ∙ ap (λ (s : Option LiveSession). touched now s) (agree id now le)

Matches-get :
    (ttl : ℤ) (last now : ℕ) (id : String) (m : SessionManager) (d : Dict LiveSession)
    → last ≤ now
    → Matches ttl last m d
    → Matches ttl now (get now id m).1 (put_found id (touched now (fresh ttl now (lookup id d))) d)
unfolding get Matches
Matches-get ttl last now id m d le (same, agree) = (
  get_found-ttl now id (lookup id m.sessions) m ∙ same,
  λ j later h.
      subst
        (λ (t : ℤ).
          fresh t later (lookup j (get_found now id (lookup id m.sessions) m).1.sessions)
          ≡ left_of t now later id j (lookup id m.sessions) m.sessions)
        same (fresh-get now later id j (lookup id m.sessions) m h refl)
      ∙ ap
          (λ (s : Option LiveSession).
            if id == j
            then fresh ttl later (touched now s)
            else fresh ttl later (lookup j m.sessions))
          (agree id now le)
      ∙ ap
          (λ (rest : Option LiveSession).
            if id == j then fresh ttl later (touched now (fresh ttl now (lookup id d))) else rest)
          (agree j later (omega arith))
      ∙ sym (fresh-put_found ttl now later id j (lookup id d) d h refl),
)

answers-lazy_answers :
    (ttl : ℤ) (last : ℕ) (ops : List Operation) (m : SessionManager) (d : Dict LiveSession)
    → Clock last ops
    → Matches ttl last m d
    → answers ops m ≡ lazy_answers ttl ops d
unfolding answers lazy_answers new new_session
answers-lazy_answers ttl last [] m d c a = refl
answers-lazy_answers ttl last (new_at ulid made now id ∷ ops) m d (le, c) a =
    ap (λ (rest : List (Option LiveSession)). some (new_session ulid made id) ∷ rest)
      (answers-lazy_answers ttl now ops _ _ c (
        Matches-insert ttl now ulid (new_session ulid made id) _ d
          (Matches-evict_expired ttl last now m d le a)))
answers-lazy_answers ttl last (get_at now id ∷ ops) m d (le, c) a =
    ap (λ (s : Option LiveSession). s ∷ answers ops (get now id m).1)
      (get-touched ttl last now id m d le a)
    ∙ ap (λ (rest : List (Option LiveSession)). touched now (fresh ttl now (lookup id d)) ∷ rest)
        (answers-lazy_answers ttl now ops _ _ c (Matches-get ttl last now id m d le a))
answers-lazy_answers ttl last (evict_at_time now ∷ ops) m d (le, c) a =
    answers-lazy_answers ttl now ops _ d c (Matches-evict_expired ttl last now m d le a)
answers-lazy_answers ttl last (removal id ∷ ops) m d c a =
    answers-lazy_answers ttl last ops _ _ c (Matches-remove ttl last id m d a)

-- Whatever operations follow on a new session manager, by a clock that does not run back, New and Get
-- give what they would give if no session was ever evicted and a lookup passed over the expired ones.
pub new_session_manager-lazy_answers :
    (ttl : ℤ) (ops : List Operation)
    → Clock 0 ops
    → answers ops (new_session_manager_with_ttl ttl) ≡ lazy_answers ttl ops []
unfolding new_session_manager_with_ttl Matches
new_session_manager-lazy_answers ttl ops c =
    answers-lazy_answers ttl 0 ops (new_session_manager_with_ttl ttl) [] c (refl, λ j later h. refl)
