-- ===== src/Tools/Gates.antt =====
-- The roles of the methods that Compile of agent/tools/tools.go makes tools of.
use orjanda.Prelude.{
  String, Bool, true, false, ◌||◌, ◌==◌, eq_iff, List, [], ◌∷◌, ◌++◌, Option, some, Dict, lookup,
  insert, lookup-insert, is_empty, member, if◌then◌else◌, All, All-append, All-of_member,
  sort_strings, All-sort_strings, Bool-cases, ◌≡◌, refl, ◌⊎◌, inl, inr, arith, ◌∙◌, sym, Memᴰ,
}
use orjanda.Errors.{Result, ok, err}
use orjanda.Rpc.{RegisteredMethod}
use orjanda.Tools.{if_any, method_roles, method_names, underscored}
use orjanda.Tools.Offer.{is_nil_error}

pub is_nil_error→ok : (r : Result (Unit {0})) → is_nil_error r ≡ true → r ≡ ok tt
is_nil_error→ok (ok done) h = refl
is_nil_error→ok (err e) h = cc

pub All-if_any {ℓ κ} :
    {A : Type ℓ} (P : A → Type κ) (b : Bool) (a : A) → (b ≡ true → P a) → All P (if_any b a)
All-if_any P true a h = (h refl, tt)
All-if_any P false a h = tt

pub All-unless {ℓ κ} :
    {A : Type ℓ} (P : A → Type κ) (b : Bool) (xs ys : List A)
    → (b ≡ false → All P xs)
    → All P ys
    → All P (if b then ys else xs ++ ys)
All-unless P true xs ys h k = k
All-unless P false xs ys h k = All-append P xs ys (h refl) k

module _ {S : Type 0} where
  -- The roles stored under a name are those of a registered method that has them.
  abbrev pub HasMethod : List (RegisteredMethod S) → String → Option (List String) → Type 0
  HasMethod methods name found =
      (m : RegisteredMethod S) × Memᴰ m methods
      × (is_empty m.opts.allowed_roles ≡ false)
      × (name ≡ underscored m.name)
      × (found ≡ some m.opts.allowed_roles)

  -- a gated method that comes in
  HasMethod-insert :
      (name : String) (m : RegisteredMethod S) (all_methods : List (RegisteredMethod S))
      (rest : Bool) (roles : Dict (List String))
      → Memᴰ m all_methods
      → is_empty m.opts.allowed_roles ≡ false
      → ((underscored m.name == name || rest) ≡ true)
        ⊎ HasMethod all_methods name (lookup name roles)
      → (rest ≡ true)
        ⊎ HasMethod all_methods name
            (lookup name (insert (underscored m.name) m.opts.allowed_roles roles))
  HasMethod-insert name m all_methods rest roles i gated h =
      elim (Bool-cases (underscored m.name == name)) [
        | inl same ↦ inr (
          m,
          i,
          gated,
          sym ((eq_iff (underscored m.name) name).0 same),
          lookup-insert (underscored m.name) name m.opts.allowed_roles roles ∙ rw same refl,
        )
        | inr apart ↦ elim h [
          | inl listed ↦ inl (ground arith)
          | inr (k, j, g, e, found) ↦ inr (
            k,
            j,
            g,
            e,
            lookup-insert (underscored m.name) name m.opts.allowed_roles roles ∙ rw apart found,
          )
        ]
      ]

  HasMethod-method_roles :
      (name : String) (all_methods ms : List (RegisteredMethod S)) (roles : Dict (List String))
      → ((m : RegisteredMethod S) → Memᴰ m ms → Memᴰ m all_methods)
      → (member name (method_names ms) ≡ true) ⊎ HasMethod all_methods name (lookup name roles)
      → HasMethod all_methods name (lookup name (method_roles ms roles))
  unfolding method_roles method_names
  HasMethod-method_roles name all_methods [] roles within (inl h) = cc
  HasMethod-method_roles name all_methods [] roles within (inr h) = h
  HasMethod-method_roles name all_methods (m ∷ ms) roles within h =
      let later = λ (k : RegisteredMethod S) (i : Memᴰ k ms). within k (Memᴰ.tail i) in
      elim (Bool-cases (is_empty m.opts.allowed_roles)) [
        | inl open_to_all ↦
            rw open_to_all
              (HasMethod-method_roles name all_methods ms roles later (rw open_to_all at h))
        | inr gated ↦ rw gated (
            HasMethod-method_roles name all_methods ms
              (insert (underscored m.name) m.opts.allowed_roles roles) later
              (HasMethod-insert name m all_methods (member name (method_names ms)) roles
                (within m (Memᴰ.head refl)) gated (rw gated at h)))
      ]

  pub All-HasMethod :
      (methods : List (RegisteredMethod S))
      → All
          (λ (name : String). HasMethod methods name (lookup name (method_roles methods [])))
          (sort_strings (method_names methods))
  All-HasMethod methods = All-sort_strings _ (method_names methods) (
      All-of_member (method_names methods)
        (λ name listed. HasMethod-method_roles name methods methods [] (λ m i. i) (inl listed)))
