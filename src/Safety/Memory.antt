-- ===== src/Safety/Memory.antt =====
-- What the cache remembers of the calls that CheckRateLimit (agent/safety/safety.go) let pass.
use orjanda.Prelude.{
  ℕ, ◌+◌, ◌≤◌, String, List, [], ◌∷◌, ◌++◌, Option, none, some, length, All, if◌then◌else◌, ◌≡◌,
  sym, ◌∙◌, ap, ltb, inl, inr, arith, Bool-cases, All-imp,
}
use orjanda.Prelude.Int.{ℤ}
use orjanda.Cache.{Store, new_lru_store, get, set, expired_at, expiry}
use orjanda.Cache.Steps.{get-IsValid, set-IsValid}
use orjanda.Cache.Reads.{get-get, get-new_lru_store}
use orjanda.Cache.Runs.{get-set}
use orjanda.Cache.Valid.{IsValid, new_lru_store-IsValid}
use orjanda.Safety.Rate.{milli, recent, minute, stamps_of}
use orjanda.Safety.Window.{milli_mono, recent-recent, recent-append, recent_past}

module _ (key : String) where
  -- the stamps of the key that a reading finds
  abbrev pub stamps_at : ℕ → Store (List ℕ) → List ℕ
  stamps_at now s = stamps_of (get now key s).0

  -- The cache remembers of the calls that passed what any later window can see of them.
  pub record Remembers (last : ℕ) (s : Store (List ℕ)) (passed : List ℕ) : Type 0 where
    pub valid : IsValid s
    pub past : All (λ (ts : ℕ). ts ≤ milli last) passed
    pub agrees :
        (now later : ℕ)
        → last ≤ now
        → now ≤ later
        → length (recent later (stamps_at now s)) ≡ length (recent later passed)

  pub start-Remembers : (n : ℤ) → Remembers 0 (new_lru_store n) []
  start-Remembers n = record {
    valid = new_lru_store-IsValid n;
    past = tt;
    agrees = λ now later h k.
        ap (λ (o : Option (List ℕ)). length (recent later (stamps_of o)))
          (get-new_lru_store now key n);
  }

  past_later :
      {last now : ℕ} (passed : List ℕ)
      → last ≤ now
      → All (λ (ts : ℕ). ts ≤ milli last) passed
      → All (λ (ts : ℕ). ts ≤ milli now) passed
  past_later passed h past = All-imp (λ ts le. omega (arith, le, milli_mono h)) passed past

  pub seen-Remembers :
      (last now : ℕ) (s : Store (List ℕ)) (passed : List ℕ)
      → last ≤ now
      → Remembers last s passed
      → Remembers now (get now key s).1 passed
  seen-Remembers last now s passed h r = record {
    valid = get-IsValid now key s r.valid;
    past = past_later passed h r.past;
    agrees = λ t u le after.
        ap (λ (o : Option (List ℕ)). length (recent u (stamps_of o)))
          (get-get now t key s r.valid le)
        ∙ r.agrees t u (omega arith) after;
  }

  kept_agrees :
      (last now later end : ℕ) (s : Store (List ℕ)) (passed : List ℕ)
      → last ≤ now
      → now ≤ later
      → later ≤ end
      → Remembers last s passed
      → length (
          recent end (
            stamps_of (
              if expired_at later (expiry now minute)
              then none
              else some (recent now (stamps_at now s) ++ milli now ∷ []))))
        ≡ length (recent end (milli now ∷ passed))
  unfolding expired_at expiry recent
  kept_agrees last now later end s passed h le after r =
      let old = stamps_at now s in
      elim (Bool-cases (ltb (now + minute) later)) [
        | inl gone ↦ rw gone (
            sym (
              recent_past now end (milli now ∷ passed) (ground arith)
                (omega arith, past_later passed h r.past)))
        | inr held ↦ rw held (
            omega (
              arith,
              recent-append end (recent now old) (milli now ∷ []),
              ap (λ (xs : List ℕ). length xs) (recent-recent now end old (omega arith)),
              r.agrees now end h (omega arith),
              recent-append end (milli now ∷ []) passed,
            ))
      ]

  pub note-Remembers :
      (last now : ℕ) (s : Store (List ℕ)) (passed : List ℕ)
      → last ≤ now
      → Remembers last s passed
      → Remembers now
          (set now key (recent now (stamps_at now s) ++ milli now ∷ []) minute (get now key s).1)
          (milli now ∷ passed)
  note-Remembers last now s passed h r =
      let kept = recent now (stamps_at now s) ++ milli now ∷ [] in
      let seen = (get now key s).1 in
      let w = get-IsValid now key s r.valid in
      record {
        valid = set-IsValid now key kept minute seen w;
        past = (omega arith, past_later passed h r.past);
        agrees = λ t u le after.
            ap (λ (o : Option (List ℕ)). length (recent u (stamps_of o)))
              (get-set now t key kept minute seen w)
            ∙ kept_agrees last now t u s passed h le after r;
      }
