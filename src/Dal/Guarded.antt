-- ===== src/Dal/Guarded.antt =====
-- Methods (dal/dal.go) that change the world only where something holds.
use orjanda.Prelude.{◌≡◌, refl, ◌⊎◌, inl, inr, ◌∙◌}
use orjanda.Errors.{Result, ok, err}
use orjanda.Dal.{World, Op, go_on, ◌>>=◌, ◌>>◌, lift, return}
use orjanda.Dal.Atomic.{IsReading}

module _ {S : Type 0} where
  abbrev pub IsGuarded : {A : Type 0} → Type 0 → Op S A → Type 0
  IsGuarded P op = (w : World S) → ((op w).1 ≡ w) ⊎ P

  pub lift-IsGuarded : {A : Type 0} (P : Type 0) (r : Result A) → IsGuarded P (lift r)
  unfolding lift
  lift-IsGuarded P r w = inl refl

  holds-IsGuarded : {A : Type 0} {P : Type 0} (op : Op S A) → P → IsGuarded P op
  holds-IsGuarded op p w = inr p

  pub IsGuarded-imp :
      {A : Type 0} {P : Type 0} {Q : Type 0} (op : Op S A)
      → (Q → P)
      → IsGuarded Q op
      → IsGuarded P op
  IsGuarded-imp op f g w = elim (g w) [ inl same ↦ inl same | inr q ↦ inr (f q) ]

module _ {S : Type 0} {A : Type 0} {B : Type 0} (P : Type 0) where
  pub lift_bind-IsGuarded :
      (r : Result A) (next : A → Op S B)
      → ((a : A) → r ≡ ok a → IsGuarded P (next a))
      → IsGuarded P (lift r >>= next)
  unfolding ◌>>=◌ lift
  lift_bind-IsGuarded (err e) next h w = inl refl
  lift_bind-IsGuarded (ok a) next h w = h a refl w

  pub lift_then-IsGuarded :
      (r : Result A) (next : Op S B)
      → ((a : A) → r ≡ ok a → IsGuarded P next)
      → IsGuarded P (lift r >> next)
  unfolding ◌>>◌ lift
  lift_then-IsGuarded (err e) next h w = inl refl
  lift_then-IsGuarded (ok a) next h w = h a refl w

  pub reading_bind-IsGuarded :
      (op : Op S A) (next : A → Op S B)
      → IsReading op
      → ((a : A) → IsGuarded P (next a))
      → IsGuarded P (op >>= next)
  unfolding ◌>>=◌
  reading_bind-IsGuarded op next r h w = go (op w) (r w)
    where
      go : (p : Result A × World S) → p.1 ≡ w → ((go_on p next).1 ≡ w) ⊎ P
      go (err e, x) same = inl same
      go (ok a, x) same = elim (h a x) [ inl kept ↦ inl (kept ∙ same) | inr p ↦ inr p ]

  pub bind_return-IsGuarded :
      (op : Op S A) (f : A → B) → IsGuarded P op → IsGuarded P (op >>= λ a. return (f a))
  unfolding ◌>>=◌ return
  bind_return-IsGuarded op f h w = go (op w) (h w)
    where
      go : (p : Result A × World S) → (p.1 ≡ w) ⊎ P → ((go_on p (λ a. return (f a))).1 ≡ w) ⊎ P
      go (err e, x) k = k
      go (ok a, x) k = k

  pub then_return-IsGuarded : (op : Op S A) (b : B) → IsGuarded P op → IsGuarded P (op >> return b)
  unfolding ◌>>◌ return
  then_return-IsGuarded op b h w = go (op w) (h w)
    where
      go : (p : Result A × World S) → (p.1 ≡ w) ⊎ P → ((go_on p (λ a. return b)).1 ≡ w) ⊎ P
      go (err e, x) k = k
      go (ok a, x) k = k

module _ {S : Type 0} {B : Type 0} where
  pub check-IsGuarded :
      (r : Result (Unit {0})) (next : Op S B) → IsGuarded (r ≡ ok tt) (lift r >> next)
  unfolding ◌>>◌ lift
  check-IsGuarded (err e) next w = inl refl
  check-IsGuarded (ok done) next w = inr refl
