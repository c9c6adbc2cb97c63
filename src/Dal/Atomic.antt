-- ===== src/Dal/Atomic.antt =====
-- Which methods (dal/dal.go) leave the world or the database as it was.
use orjanda.Prelude.{◌≡◌, refl, ◌∙◌, ap}
use orjanda.Errors.{Error, Result, ok, err}
use orjanda.Dal.{
  Select, Database, World, Op, go_on, ◌>>=◌, ◌>>◌, lift, query, settle, transaction, run_begun,
  close,
}

module _ {S : Type 0} {A : Type 0} where
  -- The method changes nothing.
  abbrev pub IsReading : Op S A → Type 0
  IsReading op = (w : World S) → (op w).1 ≡ w

  -- Where the method fails, the database is as it was.
  abbrev pub IsAtomic : Op S A → Type 0
  IsAtomic op = (w : World S) (e : Error) → (op w).0 ≡ err e → (op w).1.db ≡ w.db

  pub lift-IsReading : (r : Result A) → IsReading (lift r)
  unfolding lift
  lift-IsReading r w = refl

  reading-IsAtomic : (op : Op S A) → IsReading op → IsAtomic op
  reading-IsAtomic op r w e h = ap (λ (x : World S). x.db) (r w)

  pub transaction-IsAtomic : (d : Database S) (op : Op S A) → IsAtomic (transaction d op)
  unfolding transaction
  transaction-IsAtomic d op w e h = go (d.begin w.db) h
    where
      shut :
          (x : World S) (a : A) (r : Result S)
          → (close w.db a x r).0 ≡ err e
          → (close w.db a x r).1.db ≡ w.db
      shut x a (err f) k = refl
      shut x a (ok s) k = cc

      after : (p : Result A × World S) → (settle d w.db p).0 ≡ err e → (settle d w.db p).1.db ≡ w.db
      after (err f, x) k = refl
      after (ok a, x) k = shut x a (d.commit x.db) k

      go : (r : Result S) → (run_begun d op w r).0 ≡ err e → (run_begun d op w r).1.db ≡ w.db
      go (err f) k = refl
      go (ok s) k = after (op (record w { db = s })) k

module _ {S : Type 0} where
  pub query-IsReading : (d : Database S) (q : Select) → IsReading (query d q)
  unfolding query
  query-IsReading d q w = refl

module _ {S : Type 0} {A : Type 0} {B : Type 0} where
  pub bind-IsReading :
      (op : Op S A) (next : A → Op S B)
      → IsReading op
      → ((a : A) → IsReading (next a))
      → IsReading (op >>= next)
  unfolding ◌>>=◌
  bind-IsReading op next r rs w = go (op w) (r w)
    where
      go : (p : Result A × World S) → p.1 ≡ w → (go_on p next).1 ≡ w
      go (err e, x) same = same
      go (ok a, x) same = rs a x ∙ same

  pub bind-IsAtomic :
      (op : Op S A) (next : A → Op S B)
      → IsReading op
      → ((a : A) → IsAtomic (next a))
      → IsAtomic (op >>= next)
  unfolding ◌>>=◌
  bind-IsAtomic op next r rs w e h = go (op w) (r w) h
    where
      go :
          (p : Result A × World S) → p.1 ≡ w → (go_on p next).0 ≡ err e → (go_on p next).1.db ≡ w.db
      go (err f, x) same k = ap (λ (y : World S). y.db) same
      go (ok a, x) same k = rs a x e k ∙ ap (λ (y : World S). y.db) same

  pub then-IsReading :
      (op : Op S A) (next : Op S B) → IsReading op → IsReading next → IsReading (op >> next)
  unfolding ◌>>◌
  then-IsReading op next r rs w = go (op w) (r w)
    where
      go : (p : Result A × World S) → p.1 ≡ w → (go_on p (λ a. next)).1 ≡ w
      go (err e, x) same = same
      go (ok a, x) same = rs x ∙ same

  pub then-IsAtomic :
      (op : Op S A) (next : Op S B) → IsReading op → IsAtomic next → IsAtomic (op >> next)
  unfolding ◌>>◌
  then-IsAtomic op next r rs w e h = go (op w) (r w) h
    where
      go :
          (p : Result A × World S)
          → p.1 ≡ w
          → (go_on p (λ a. next)).0 ≡ err e
          → (go_on p (λ a. next)).1.db ≡ w.db
      go (err f, x) same k = ap (λ (y : World S). y.db) same
      go (ok a, x) same k = rs x e k ∙ ap (λ (y : World S). y.db) same
