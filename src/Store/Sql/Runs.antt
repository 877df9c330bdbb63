-- ===== src/Store/Sql/Runs.antt =====
-- What single statements of store/store.go do, by whether SQLite fails them.
use frps_gateway.Base.{◌≡◌, refl, ◌⊎◌, inl, inr, true, false, Bool-cases}
use frps_gateway.Store.Schema.{Db}
use frps_gateway.Store.Sql.{
  Env, Result, ok, err, sqlite, Sql, next_fails, past, after, statement, query, exec, ◌>>=◌,
}

-- A query that runs, before what follows it.
pub query_runs :
    {A B : Type 0} (f : Db → A) (k : A → Sql B) (e : Env)
    → next_fails e.faults ≡ false
    → (query f >>= k) e ≡ k (f e.db) (past e)
unfolding ◌>>=◌
query_runs f k e runs = rw runs refl

pub query_fails :
    {A B : Type 0} (f : Db → A) (k : A → Sql B) (e : Env)
    → next_fails e.faults ≡ true
    → (query f >>= k) e ≡ (err sqlite, past e)
unfolding ◌>>=◌
query_fails f k e fails = rw fails refl

pub statement-cases :
    {A : Type 0} (f : Db → Result A × Db) (e : Env)
    → (statement f e ≡ (err sqlite, past e))
      ⊎ (statement f e ≡ ((f e.db).0, after (λ d. (f d).1) e))
unfolding statement
statement-cases f e = elim (Bool-cases (next_fails e.faults)) [
  | inl bad ↦ inl (rw bad refl)
  | inr good ↦ inr (rw good refl)
]

pub query-cases :
    {A : Type 0} (f : Db → A) (e : Env)
    → (query f e ≡ (err sqlite, past e)) ⊎ (query f e ≡ (ok (f e.db), past e))
unfolding query
query-cases f e = statement-cases (λ d. (ok (f d), d)) e

pub exec-cases :
    (f : Db → Db) (e : Env) → (exec f e ≡ (err sqlite, past e)) ⊎ (exec f e ≡ (ok tt, after f e))
unfolding exec
exec-cases f e = statement-cases (λ d. (ok tt, f d)) e

-- A statement without a value, with what decides whether it runs.
pub exec-next_fails :
    (f : Db → Db) (e : Env)
    → ((next_fails e.faults ≡ true) × (exec f e ≡ (err sqlite, past e)))
      ⊎ ((next_fails e.faults ≡ false) × (exec f e ≡ (ok tt, after f e)))
unfolding exec statement
exec-next_fails f e = elim (Bool-cases (next_fails e.faults)) [
  | inl bad ↦ inl (bad, rw bad refl)
  | inr good ↦ inr (good, rw good refl)
]
