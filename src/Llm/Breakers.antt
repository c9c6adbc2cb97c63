-- ===== src/Llm/Breakers.antt =====
-- The circuits of agent/llm/gateway.go close by themselves.
use orjanda.Prelude.{
  ℕ, zero, suc, ◌+◌, ◌≤◌, ◌<◌, true, List, [], ◌∷◌, Option, none, some, All, Bool-cases, ◌≡◌, refl,
  inl, inr, arith, subst, All-imp,
}
use orjanda.Prelude.Int.{ℤ, pos, negsuc}
use orjanda.Llm.{
  ChatRequest, ChatResponse, Answer, answered, failed, LlmError, Provider, CircuitBreaker, Line,
  Gateway, Tried, allow, record_failure, record_success, is_failover_error, positive_or, lines_of,
  new_gateway, keep_line, on_answer, try_lines, with_lines, after_chat, after_stream,
  chat_completion, stream_chat_completion,
}

-- a call of the gateway, or what happens outside between two calls
pub data Use (S : Type 0) : Type 0 where
  chats streams : ChatRequest → Use S
  passes : (S → S) → Use S

positive_or-pos : (n : ℤ) (default : ℕ) → 0 < default → 0 < positive_or n default
positive_or-pos (pos zero) default h = h
positive_or-pos (pos (suc n)) default h = omega arith
positive_or-pos (negsuc n) default h = h

module _ {S : Type 0} (clock : S → ℕ) where
  unfoldable pub run : List (Use S) → Gateway S → S → Gateway S × S
  run [] g s = (g, s)
  run (chats req ∷ uses) g s =
      let (out, after) = chat_completion clock req g s in run uses out.1 after
  run (streams req ∷ uses) g s =
      let (out, after) = stream_chat_completion clock req g s in run uses out.1 after
  run (passes f ∷ uses) g s = run uses g (f s)

  -- The clock does not run back while a provider works.
  abbrev IsSteady : Provider S → Type 0
  IsSteady p =
      (req : ChatRequest) (s : S)
      → (clock s ≤ clock (p.chat_completion req s).1)
        × (clock s ≤ clock (p.stream_chat_completion req s).1)

  -- Nor does it in what happens outside.
  abbrev IsSteadyUse : Use S → Type 0
  IsSteadyUse (passes f) = (s : S) → clock s ≤ clock (f s)
  IsSteadyUse _ = Unit

  module _ (cooldown : ℕ) where
    -- At the time `t` the circuit is open for no longer than the cooldown, and its failures are below
    -- the threshold.
    abbrev IsBounded : ℕ → Line S → Type 0
    IsBounded t (p, b) =
        IsSteady p
        × (b.cooldown ≡ cooldown)
        × (b.open_until ≤ t + cooldown)
        × (b.failures < b.threshold)

    IsBounded-later : (t u : ℕ) (line : Line S) → t ≤ u → IsBounded t line → IsBounded u line
    IsBounded-later t u (p, b) le (steady, same, until, below) = (steady, same, omega arith, below)

    IsBounded-record_failure :
        (t : ℕ) (p : Provider S) (b : CircuitBreaker)
        → IsBounded t (p, b)
        → IsBounded t (p, record_failure b t)
    unfolding record_failure
    IsBounded-record_failure t p b (steady, same, until, below) =
        (steady, ground arith, ground arith, ground arith)

    IsBounded-record_success :
        (t : ℕ) (p : Provider S) (b : CircuitBreaker)
        → IsBounded t (p, b)
        → IsBounded t (p, record_success b)
    unfolding record_success
    IsBounded-record_success t p b (steady, same, until, below) = (steady, same, until, omega arith)

    -- What a pass over the lines leaves.
    abbrev IsTried : ℕ → Tried S → Type 0
    IsTried t ((answer, lines), s) = (t ≤ clock s) × All (IsBounded (clock s)) lines

    IsTried-keep_line :
        (t : ℕ) (line : Line S) (tried : Tried S)
        → IsBounded t line
        → IsTried t tried
        → IsTried t (keep_line line tried)
    IsTried-keep_line t line ((answer, lines), s) b (le, bs) =
        (le, (IsBounded-later t (clock s) line le b, bs))

    IsTried-sooner : (t u : ℕ) (tried : Tried S) → t ≤ u → IsTried u tried → IsTried t tried
    IsTried-sooner t u ((answer, lines), s) le (later, bs) = (omega arith, bs)

    IsTried-on_answer :
        (t : ℕ) (p : Provider S) (b : CircuitBreaker) (rest : List (Line S))
        (others : Option LlmError → S → Tried S) (out : Answer × S)
        → t ≤ clock out.1
        → IsBounded t (p, b)
        → All (IsBounded t) rest
        → ((last : Option LlmError) (s : S)
            → All (IsBounded (clock s)) rest
            → IsTried (clock s) (others last s))
        → IsTried t (on_answer clock (p, b) rest others out)
    IsTried-on_answer t p b rest others (answered resp, s) le h hs go = (
      le,
      (
        IsBounded-record_success (clock s) p b (IsBounded-later t (clock s) (p, b) le h),
        All-imp (λ line k. IsBounded-later t (clock s) line le k) rest hs,
      ),
    )
    IsTried-on_answer t p b rest others (failed e, s) le h hs go =
        elim (Bool-cases (is_failover_error e)) [
          | inl moves ↦ rw moves (
              IsTried-sooner t (clock s)
                (keep_line (p, record_failure b (clock s)) (others (some e) s)) le
                (IsTried-keep_line (clock s) (p, record_failure b (clock s)) (others (some e) s)
                  (IsBounded-record_failure (clock s) p b (IsBounded-later t (clock s) (p, b) le h))
                  (go (some e) s
                    (All-imp (λ line k. IsBounded-later t (clock s) line le k) rest hs))))
          | inr stays ↦ rw stays (
            le,
            (
              IsBounded-later t (clock s) (p, b) le h,
              All-imp (λ line k. IsBounded-later t (clock s) line le k) rest hs,
            ),
          )
        ]

    module _ (call : Provider S → S → Answer × S)
        (steady : (p : Provider S) → IsSteady p → (s : S) → clock s ≤ clock (call p s).1) where
      IsTried-try_lines :
          (lines : List (Line S)) (last : Option LlmError) (s : S)
          → All (IsBounded (clock s)) lines
          → IsTried (clock s) (try_lines clock call lines last s)
      unfolding try_lines
      IsTried-try_lines [] last s h = (omega arith, tt)
      IsTried-try_lines ((p, b) ∷ rest) last s (h, hs) = elim (Bool-cases (allow b (clock s))) [
        | inl closed ↦ rw closed (
            IsTried-on_answer (clock s) p b rest (try_lines clock call rest) (call p s)
              (steady p h.0 s) h hs (λ l u k. IsTried-try_lines rest l u k))
        | inr refuses ↦ rw refuses (
            IsTried-keep_line (clock s) (p, b) (try_lines clock call rest last s) h
              (IsTried-try_lines rest last s hs))
      ]

    -- each circuit of a gateway is bounded
    abbrev IsSound : ℕ → Gateway S → Type 0
    IsSound t g = IsBounded t g.primary × All (IsBounded t) g.fallbacks

    IsSound-with_lines :
        (t : ℕ) (g : Gateway S) (lines : List (Line S))
        → IsSound t g
        → All (IsBounded t) lines
        → IsSound t (with_lines g lines)
    IsSound-with_lines t g [] h hs = h
    IsSound-with_lines t g (primary ∷ fallbacks) h (b, bs) = (b, bs)

    IsSound-later : (t u : ℕ) (g : Gateway S) → t ≤ u → IsSound t g → IsSound u g
    IsSound-later t u g le (h, hs) = (
      IsBounded-later t u g.primary le h,
      All-imp (λ line k. IsBounded-later t u line le k) g.fallbacks hs,
    )

    IsSound-after :
        (g : Gateway S) (s : S) (tried : Tried S)
        → IsSound (clock s) g
        → IsTried (clock s) tried
        → (clock s ≤ clock (after_chat g tried).1)
          × IsSound (clock (after_chat g tried).1) (after_chat g tried).0.1
          × (clock s ≤ clock (after_stream g tried).1)
          × IsSound (clock (after_stream g tried).1) (after_stream g tried).0.1
    IsSound-after g s ((answer, lines), u) h (le, bs) =
        let after =
          IsSound-with_lines (clock u) g lines (IsSound-later (clock s) (clock u) g le h) bs in
        (le, after, le, after)

    IsSound-run :
        (uses : List (Use S)) (g : Gateway S) (s : S)
        → All IsSteadyUse uses
        → IsSound (clock s) g
        → IsSound (clock (run uses g s).1) (run uses g s).0
    unfolding run chat_completion stream_chat_completion
    IsSound-run [] g s us h = h
    IsSound-run (chats req ∷ uses) g s (u, us) h =
        let tried =
          IsTried-try_lines (λ p. p.chat_completion req) (λ p steady v. (steady req v).0)
            (g.primary ∷ g.fallbacks) none s h in
        IsSound-run uses _ _ us
          (IsSound-after g s
            (try_lines clock (λ (p : Provider S). p.chat_completion req) (g.primary ∷ g.fallbacks)
              none s)
            h tried).1
    IsSound-run (streams req ∷ uses) g s (u, us) h =
        let tried =
          IsTried-try_lines (λ p. p.stream_chat_completion req) (λ p steady v. (steady req v).1)
            (g.primary ∷ g.fallbacks) none s h in
        IsSound-run uses _ _ us
          (IsSound-after g s
            (try_lines clock (λ (p : Provider S). p.stream_chat_completion req)
              (g.primary ∷ g.fallbacks) none s)
            h tried).3
    IsSound-run (passes f ∷ uses) g s (u, us) h =
        IsSound-run uses g (f s) us (IsSound-later (clock s) (clock (f s)) g (u s) h)

    All-allow :
        (t u : ℕ) (lines : List (Line S))
        → t + cooldown ≤ u
        → All (IsBounded t) lines
        → All (λ (line : Line S). allow line.1 u ≡ true) lines
    unfolding allow
    All-allow t u [] le h = tt
    All-allow t u ((p, b) ∷ lines) le ((steady, same, until, below), hs) =
        (ground arith, All-allow t u lines le hs)

  IsBounded-lines_of :
      (threshold cooldown : ℤ) (t : ℕ) (ps : List (Provider S))
      → All IsSteady ps
      → All (IsBounded (positive_or cooldown 30000000000) t) (lines_of threshold cooldown ps)
  IsBounded-lines_of threshold cooldown t [] h = tt
  IsBounded-lines_of threshold cooldown t (p ∷ ps) (steady, h) = (
    (steady, refl, omega arith, positive_or-pos threshold 3 (omega arith)),
    IsBounded-lines_of threshold cooldown t ps h,
  )

  -- After any calls of a new gateway, by a clock that does not run back, and a pause of at least the
  -- cooldown, no circuit is open, and where the primary provider answers, ChatCompletion answers this.
  pub run-answered :
      (primary : Provider S) (threshold cooldown : ℤ) (fallbacks : List (Provider S))
      (uses : List (Use S)) (s later s' : S) (req : ChatRequest) (resp : ChatResponse)
      (g : Gateway S)
      → All IsSteady (primary ∷ fallbacks)
      → All IsSteadyUse uses
      → (run uses (new_gateway primary threshold cooldown fallbacks) s).0 ≡ g
      → clock (run uses (new_gateway primary threshold cooldown fallbacks) s).1
          + positive_or cooldown 30000000000
        ≤ clock later
      → g.primary.0.chat_completion req later ≡ (answered resp, s')
      → All (λ (line : Line S). allow line.1 (clock later) ≡ true) (g.primary ∷ g.fallbacks)
        × ((chat_completion clock req g later).0.0 ≡ some (answered resp))
  run-answered primary threshold cooldown fallbacks uses s later s' req resp g steady us same le
        answers =
      let wait = positive_or cooldown 30000000000 in
      let start = new_gateway primary threshold cooldown fallbacks in
      let sound : IsSound wait (clock (run uses start s).1) g =
        subst (IsSound wait (clock (run uses start s).1)) same (
          IsSound-run wait uses start s us (
            unfold new_gateway in
            IsBounded-lines_of threshold cooldown (clock s) (primary ∷ fallbacks) steady)) in
      let closed =
        All-allow wait (clock (run uses start s).1) (clock later) (g.primary ∷ g.fallbacks) le
          sound in
      (closed, unfold chat_completion try_lines in rw closed.0 (rw answers refl))
