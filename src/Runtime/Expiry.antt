-- ===== src/Runtime/Expiry.antt =====
-- What the operations of the SessionManager of agent/runtime/session.go leave to be seen later.
use orjanda.Prelude.{
  ℕ, ◌≤◌, String, true, ◌==◌, eq_iff, [], ◌∷◌, Option, none, some, Dict, lookup, insert, delete,
  lookup-insert, lookup-delete, if◌then◌else◌, ◌≡◌, refl, subst, sym, ◌∙◌, inl, inr, arith,
  Bool-cases,
}
use orjanda.Prelude.Int.{ℤ, pos, negsuc}
use orjanda.Runtime.Sessions.{
  LiveSession, SessionManager, is_expired, is_positive, evict_if, evict_at, sweep, evict_expired,
  get_found,
}

-- a session that is not expired
unfoldable pub fresh : ℤ → ℕ → Option LiveSession → Option LiveSession
fresh ttl now none = none
fresh ttl now (some s) = if is_expired ttl s now then none else some s

abbrev pub touched : ℕ → Option LiveSession → Option LiveSession
touched now none = none
touched now (some s) = some (record s { last_access = now })

abbrev pub put_found : String → Option LiveSession → Dict LiveSession → Dict LiveSession
put_found id none d = d
put_found id (some s) d = insert id s d

is_expired-later :
    (ttl : ℤ) (s : LiveSession) (now later : ℕ)
    → now ≤ later
    → is_expired ttl s now ≡ true
    → is_expired ttl s later ≡ true
unfolding is_expired
is_expired-later (pos ttl) s now later h e = ground arith
is_expired-later (negsuc n) s now later h e = e

fresh-expired :
    (ttl : ℤ) (now later : ℕ) (id j : String) (s : LiveSession) (d : Dict LiveSession)
    → now ≤ later
    → some s ≡ lookup id d
    → is_expired ttl s now ≡ true
    → (id == j) ≡ true
    → none ≡ fresh ttl later (lookup j d)
unfolding fresh
fresh-expired ttl now later id j s d h found old same =
    subst (λ (k : String). none ≡ fresh ttl later (lookup k d)) ((eq_iff id j).0 same)
      (subst (λ (held : Option LiveSession). none ≡ fresh ttl later held) found
        (rw (is_expired-later ttl s now later h old) refl))

fresh-delete :
    (ttl : ℤ) (now later : ℕ) (id j : String) (s : LiveSession) (d : Dict LiveSession)
    → now ≤ later
    → some s ≡ lookup id d
    → is_expired ttl s now ≡ true
    → fresh ttl later (lookup j (delete id d)) ≡ fresh ttl later (lookup j d)
unfolding fresh
fresh-delete ttl now later id j s d h found old = elim (Bool-cases (id == j)) [
  | inl same ↦
      rw (lookup-delete id j d) (rw same (fresh-expired ttl now later id j s d h found old same))
  | inr apart ↦ rw (lookup-delete id j d) (rw apart refl)
]

-- What an eviction takes away is not seen later.
fresh-evict_at :
    (ttl : ℤ) (now later : ℕ) (id j : String) (found : Option LiveSession) (d : Dict LiveSession)
    → now ≤ later
    → found ≡ lookup id d
    → fresh ttl later (lookup j (evict_at ttl now id found d).1) ≡ fresh ttl later (lookup j d)
unfolding evict_at evict_if
fresh-evict_at ttl now later id j none d h found = refl
fresh-evict_at ttl now later id j (some s) d h found = elim (Bool-cases (is_expired ttl s now)) [
  | inl old ↦ rw old (fresh-delete ttl now later id j s d h found old)
  | inr young ↦ rw young refl
]

fresh-sweep :
    (ttl : ℤ) (now later : ℕ) (j : String) (entries d : Dict LiveSession)
    → now ≤ later
    → fresh ttl later (lookup j (sweep ttl now entries d).1) ≡ fresh ttl later (lookup j d)
unfolding sweep
fresh-sweep ttl now later j [] d h = refl
fresh-sweep ttl now later j ((id, at_start) ∷ entries) d h =
    fresh-sweep ttl now later j entries _ h
    ∙ fresh-evict_at ttl now later id j (lookup id d) d h refl

pub fresh-evict_expired :
    (now later : ℕ) (j : String) (m : SessionManager)
    → now ≤ later
    → fresh m.ttl later (lookup j (evict_expired now m).1.sessions)
      ≡ fresh m.ttl later (lookup j m.sessions)
unfolding evict_expired
fresh-evict_expired now later j m h = elim (Bool-cases (is_positive m.ttl)) [
  | inl limited ↦ rw limited (fresh-sweep m.ttl now later j m.sessions m.sessions h)
  | inr free ↦ rw free refl
]

-- what a lookup of `id` leaves to be seen of `j`
abbrev pub left_of :
    ℤ → ℕ → ℕ → String → String → Option LiveSession → Dict LiveSession → Option LiveSession
left_of ttl now later id j found d =
    if id == j
    then fresh ttl later (touched now (fresh ttl now found))
    else fresh ttl later (lookup j d)

fresh-none :
    (ttl : ℤ) (later : ℕ) (id j : String) (d : Dict LiveSession)
    → none ≡ lookup id d
    → fresh ttl later (lookup j d) ≡ (if id == j then none else fresh ttl later (lookup j d))
unfolding fresh
fresh-none ttl later id j d found = elim (Bool-cases (id == j)) [
  | inl same ↦ rw same (
      subst (λ (k : String). fresh ttl later (lookup k d) ≡ none) ((eq_iff id j).0 same)
        (subst (λ (held : Option LiveSession). fresh ttl later held ≡ none) found refl))
  | inr apart ↦ rw apart refl
]

fresh-old :
    (ttl : ℤ) (now later : ℕ) (id j : String) (s : LiveSession) (d : Dict LiveSession)
    → now ≤ later
    → some s ≡ lookup id d
    → is_expired ttl s now ≡ true
    → fresh ttl later (lookup j d) ≡ (if id == j then none else fresh ttl later (lookup j d))
fresh-old ttl now later id j s d h found old = elim (Bool-cases (id == j)) [
  | inl same ↦ rw same (sym (fresh-expired ttl now later id j s d h found old same))
  | inr apart ↦ rw apart refl
]

pub fresh-insert :
    (ttl : ℤ) (later : ℕ) (id j : String) (s : LiveSession) (d : Dict LiveSession)
    → fresh ttl later (lookup j (insert id s d))
      ≡ (if id == j then fresh ttl later (some s) else fresh ttl later (lookup j d))
fresh-insert ttl later id j s d = elim (Bool-cases (id == j)) [
  | inl same ↦ rw (lookup-insert id j s d) (rw same refl)
  | inr apart ↦ rw (lookup-insert id j s d) (rw apart refl)
]

pub fresh-get :
    (now later : ℕ) (id j : String) (found : Option LiveSession) (m : SessionManager)
    → now ≤ later
    → found ≡ lookup id m.sessions
    → fresh m.ttl later (lookup j (get_found now id found m).1.sessions)
      ≡ left_of m.ttl now later id j found m.sessions
unfolding get_found fresh
fresh-get now later id j none m h found = fresh-none m.ttl later id j m.sessions found
fresh-get now later id j (some s) m h found = elim (Bool-cases (is_expired m.ttl s now)) [
  | inl old ↦ rw old (
      fresh-delete m.ttl now later id j s m.sessions h found old
      ∙ fresh-old m.ttl now later id j s m.sessions h found old)
  | inr young ↦ rw young (fresh-insert m.ttl later id j (record s { last_access = now }) m.sessions)
]

pub fresh-put_found :
    (ttl : ℤ) (now later : ℕ) (id j : String) (found : Option LiveSession) (d : Dict LiveSession)
    → now ≤ later
    → found ≡ lookup id d
    → fresh ttl later (lookup j (put_found id (touched now (fresh ttl now found)) d))
      ≡ left_of ttl now later id j found d
unfolding fresh
fresh-put_found ttl now later id j none d h found = fresh-none ttl later id j d found
fresh-put_found ttl now later id j (some s) d h found = elim (Bool-cases (is_expired ttl s now)) [
  | inl old ↦ rw old (fresh-old ttl now later id j s d h found old)
  | inr young ↦ rw young (fresh-insert ttl later id j (record s { last_access = now }) d)
]
