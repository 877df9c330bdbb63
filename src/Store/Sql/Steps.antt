-- ===== src/Store/Sql/Steps.antt =====
-- Postconditions of the blocks of statements of store/store.go: what holds of the value and of the
-- tables if the block returns a value. One rule for each way to begin a block.
use frps_gateway.Base.{◌≡◌, refl, inl, inr, Bool-cases}
use frps_gateway.Store.Schema.{Db}
use frps_gateway.Store.Sql.{
  Env, StoreError, Result, ok, err, Sql, next_fails, past, after, continue, statement, query, exec,
  ◌>>=◌, ◌>>◌, transaction,
}
use frps_gateway.Store.Sql.Transactions.{transaction-ok}

pub record Ensures {A : Type 0} (P : A → Db → Type 0) (r : Result A × Env) : Type 0 where
  pub at : (a : A) → r.0 ≡ ok a → P a r.1.db

module _ {B : Type 0} {P : B → Db → Type 0} where
  pub Ensures-ok : (b : B) (e : Env) → P b e.db → Ensures P (ok b, e)
  Ensures-ok b e h = record { at = λ a q. rw (← ok_injective q) h }
    where
      ok_injective : {a b : B} → ok a ≡ ok b → a ≡ b
      ok_injective q = cc

  pub Ensures-err : (x : StoreError) (e : Env) → Ensures P (err x, e)
  Ensures-err x e = record { at = λ a q. cc }

  Ensures-continue :
      {A : Type 0} (r : Result A) (k : A → Sql B) (e : Env)
      → ((a : A) → r ≡ ok a → Ensures P (k a e))
      → Ensures P (continue r k e)
  Ensures-continue (ok a) k e h = h a refl
  Ensures-continue (err x) k e h = Ensures-err x e

  pub Ensures-bind :
      {A : Type 0} (m : Sql A) (k : A → Sql B) (e : Env)
      → ((a : A) → (m e).0 ≡ ok a → Ensures P (k a (m e).1))
      → Ensures P ((m >>= k) e)
  unfolding ◌>>=◌
  Ensures-bind m k e h = Ensures-continue (m e).0 k (m e).1 h

  pub Ensures-statement :
      {A : Type 0} (f : Db → Result A × Db) (k : A → Sql B) (e : Env)
      → ((a : A) → (f e.db).0 ≡ ok a → Ensures P (k a (after (λ d. (f d).1) e)))
      → Ensures P ((statement f >>= k) e)
  unfolding ◌>>=◌
  Ensures-statement f k e h = elim (Bool-cases (next_fails e.faults)) [
    | inl bad ↦ rw bad (Ensures-err _ _)
    | inr good ↦ rw good (Ensures-continue (f e.db).0 k (after (λ d. (f d).1) e) h)
  ]

  pub Ensures-query :
      {A : Type 0} (f : Db → A) (k : A → Sql B) (e : Env)
      → Ensures P (k (f e.db) (past e))
      → Ensures P ((query f >>= k) e)
  unfolding ◌>>=◌
  Ensures-query f k e h = elim (Bool-cases (next_fails e.faults)) [
    | inl bad ↦ rw bad (Ensures-err _ _)
    | inr good ↦ rw good h
  ]

  pub Ensures-exec :
      (f : Db → Db) (k : Sql B) (e : Env) → Ensures P (k (after f e)) → Ensures P ((exec f >> k) e)
  unfolding ◌>>=◌
  Ensures-exec f k e h = elim (Bool-cases (next_fails e.faults)) [
    | inl bad ↦ rw bad (Ensures-err _ _)
    | inr good ↦ rw good h
  ]

  -- A weaker postcondition.
  pub Ensures-weaken :
      {Q : B → Db → Type 0} (r : Result B × Env)
      → ((b : B) (d : Db) → P b d → Q b d)
      → Ensures P r
      → Ensures Q r
  Ensures-weaken r f h = record { at = λ a q. f a r.1.db (h.at a q) }

module _ {B : Type 0} {P : B → Db → Type 0} where
  -- The last statement of a block.
  pub Ensures-last :
      (f : Db → Result B × Db) (e : Env)
      → ((b : B) → (f e.db).0 ≡ ok b → P b (f e.db).1)
      → Ensures P (statement f e)
  unfolding statement
  Ensures-last f e h = elim (Bool-cases (next_fails e.faults)) [
    | inl bad ↦ rw bad (Ensures-err _ _)
    | inr good ↦ rw good (record { at = λ b q. h b q })
  ]

  -- What a block ensures, the transaction around it ensures.
  pub Ensures-transaction :
      (body : Sql B) (e : Env) → Ensures P (body (past e)) → Ensures P (transaction body e)
  Ensures-transaction body e h = record {
    at = λ b q. let (done, db) = transaction-ok body e b q in rw db (h.at b done);
  }
