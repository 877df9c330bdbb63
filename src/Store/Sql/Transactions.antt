-- ===== src/Store/Sql/Transactions.antt =====
-- What a transaction of store/store.go leaves, by how it returns.
use frps_gateway.Base.{◌≡◌, refl, ◌⊎◌, inl, inr, arith, Bool-cases}
use frps_gateway.Store.Schema.{Db}
use frps_gateway.Store.Sql.{
  Env, StoreError, Result, ok, err, Sql, next_fails, past, Finish, commit, rollback, finish, pure,
  ◌>>=◌, transaction, transaction_or_rollback,
}

finish_err :
    {A : Type 0} (saved : Db) (r : Result (Finish A)) (e : Env) (x : StoreError)
    → (finish saved (r, e)).0 ≡ err x
    → (finish saved (r, e)).1.db ≡ saved
finish_err saved (err y) e x h = refl
finish_err saved (ok (rollback a)) e x h = refl
finish_err saved (ok (commit a)) e x h = ground arith

pub transaction_or_rollback-err :
    {A : Type 0} (body : Sql (Finish A)) (e : Env) (x : StoreError)
    → (transaction_or_rollback body e).0 ≡ err x
    → (transaction_or_rollback body e).1.db ≡ e.db
unfolding transaction_or_rollback
transaction_or_rollback-err body e x h = elim (Bool-cases (next_fails e.faults)) [
  | inl f ↦ rw f
  | inr f ↦ rw f (finish_err e.db (body (past e)).0 (body (past e)).1 x (rw f at h))
]

-- A transaction that returns an error has changed no table.
pub transaction-err :
    {A : Type 0} (body : Sql A) (e : Env) (x : StoreError)
    → (transaction body e).0 ≡ err x
    → (transaction body e).1.db ≡ e.db
unfolding transaction
transaction-err body e x h = transaction_or_rollback-err (do a ← body; pure (commit a)) e x h

finish_ok :
    {A : Type 0} (saved : Db) (r : Result (Finish A)) (e : Env) (a : A)
    → (finish saved (r, e)).0 ≡ ok a
    → (r ≡ ok (commit a)) × ((finish saved (r, e)).1.db ≡ e.db)
      ⊎ (r ≡ ok (rollback a)) × ((finish saved (r, e)).1.db ≡ saved)
finish_ok saved (err y) e a h = cc
finish_ok saved (ok (rollback b)) e a h = inr (cc, refl)
finish_ok saved (ok (commit b)) e a h = elim (Bool-cases (next_fails e.faults)) [
  | inl f ↦ cc (rw f at h)
  | inr f ↦ inl (cc (rw f at h), rw f)
]

-- A transaction that returns a value has committed what its body did, or left the tables alone.
pub transaction_or_rollback-ok :
    {A : Type 0} (body : Sql (Finish A)) (e : Env) (a : A)
    → (transaction_or_rollback body e).0 ≡ ok a
    → ((body (past e)).0 ≡ ok (commit a))
        × ((transaction_or_rollback body e).1.db ≡ (body (past e)).1.db)
      ⊎ ((body (past e)).0 ≡ ok (rollback a)) × ((transaction_or_rollback body e).1.db ≡ e.db)
unfolding transaction_or_rollback
transaction_or_rollback-ok body e a h = elim (Bool-cases (next_fails e.faults)) [
  | inl f ↦ cc (rw f at h)
  | inr f ↦ rw f (finish_ok e.db (body (past e)).0 (body (past e)).1 a (rw f at h))
]

commit_ok :
    {A : Type 0} (r : Result A) (e : Env) (saved : Db) (a : A)
    → (finish saved ((do b ← (λ e'. (r, e')); pure (commit b)) e)).0 ≡ ok a
    → (r ≡ ok a) × ((finish saved ((do b ← (λ e'. (r, e')); pure (commit b)) e)).1.db ≡ e.db)
unfolding ◌>>=◌
commit_ok (err y) e saved a h = cc
commit_ok (ok b) e saved a h = elim (Bool-cases (next_fails e.faults)) [
  | inl f ↦ cc (rw f at h)
  | inr f ↦ (cc (rw f at h), rw f)
]

pub transaction-ok :
    {A : Type 0} (body : Sql A) (e : Env) (a : A)
    → (transaction body e).0 ≡ ok a
    → ((body (past e)).0 ≡ ok a) × ((transaction body e).1.db ≡ (body (past e)).1.db)
unfolding transaction
transaction-ok body e a h = elim (Bool-cases (next_fails e.faults)) [
  | inl f ↦ cc (rw f at h)
  | inr f ↦ rw f (commit_ok (body (past e)).0 (body (past e)).1 e.db a (rw f at h))
]
