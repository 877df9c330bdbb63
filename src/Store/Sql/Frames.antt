-- ===== src/Store/Sql/Frames.antt =====
-- What blocks of statements of store/store.go leave alone: a view of the tables that no statement of a
-- block changes is not changed by the block.
use frps_gateway.Base.{◌≡◌, refl, ◌∙◌, inl, inr, Bool-cases}
use frps_gateway.Store.Schema.{Db}
use frps_gateway.Store.Sql.{
  Env, Result, ok, err, Sql, next_fails, past, Finish, commit, rollback, finish, continue, pure,
  statement, query, exec, ◌>>=◌, transaction, transaction_or_rollback,
}

abbrev pub Keeps {ℓ} : {A : Type 0} {B : Type ℓ} → (Db → B) → Sql A → Type ℓ
Keeps view m = (e : Env) → view (m e).1.db ≡ view e.db

module _ {ℓ} {B : Type ℓ} (view : Db → B) where
  pub Keeps-statement :
      {A : Type 0} (f : Db → Result A × Db)
      → ((d : Db) → view (f d).1 ≡ view d)
      → Keeps view (statement f)
  unfolding statement
  Keeps-statement f h e = elim (Bool-cases (next_fails e.faults)) [
    | inl bad ↦ rw bad refl
    | inr good ↦ rw good (h e.db)
  ]

  pub Keeps-query : {A : Type 0} (f : Db → A) → Keeps view (query f)
  unfolding query
  Keeps-query f = Keeps-statement (λ d. (ok (f d), d)) (λ d. refl)

  pub Keeps-exec : (f : Db → Db) → ((d : Db) → view (f d) ≡ view d) → Keeps view (exec f)
  unfolding exec
  Keeps-exec f h = Keeps-statement (λ d. (ok tt, f d)) h

  continue_lem :
      {A C : Type 0} (r : Result A) (k : A → Sql C) (e : Env)
      → ((a : A) → Keeps view (k a))
      → view (continue r k e).1.db ≡ view e.db
  continue_lem (ok a) k e h = h a e
  continue_lem (err x) k e h = refl

  pub Keeps-bind :
      {A C : Type 0} (m : Sql A) (k : A → Sql C)
      → Keeps view m
      → ((a : A) → Keeps view (k a))
      → Keeps view (m >>= k)
  unfolding ◌>>=◌
  Keeps-bind m k h g e = continue_lem (m e).0 k (m e).1 g ∙ h e

  finish_lem :
      {A : Type 0} (saved : Db) (r : Result (Finish A)) (e : Env)
      → view e.db ≡ view saved
      → view (finish saved (r, e)).1.db ≡ view saved
  finish_lem saved (err x) e h = refl
  finish_lem saved (ok (rollback a)) e h = refl
  finish_lem saved (ok (commit a)) e h = elim (Bool-cases (next_fails e.faults)) [
    | inl bad ↦ rw bad refl
    | inr good ↦ rw good h
  ]

  pub Keeps-transaction_or_rollback :
      {A : Type 0} (body : Sql (Finish A))
      → Keeps view body
      → Keeps view (transaction_or_rollback body)
  unfolding transaction_or_rollback
  Keeps-transaction_or_rollback body h e = elim (Bool-cases (next_fails e.faults)) [
    | inl bad ↦ rw bad refl
    | inr good ↦ rw good (finish_lem e.db (body (past e)).0 (body (past e)).1 (h (past e)))
  ]

  pub Keeps-transaction :
      {A : Type 0} (body : Sql A) → Keeps view body → Keeps view (transaction body)
  unfolding transaction
  Keeps-transaction body h =
      Keeps-transaction_or_rollback (do a ← body; pure (commit a))
        (Keeps-bind body (λ a. pure (commit a)) h (λ a e. refl))
