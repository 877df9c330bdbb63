-- ===== src/Store/Sql.antt =====
-- How store/store.go runs its statements through database/sql. SQLite may fail any statement, and a
-- cancelled context fails the next one: `faults` says of each statement to come whether it fails.
-- A transaction is rolled back by the deferred `Rollback` unless `Commit` succeeds; the pool has one
-- connection (`SetMaxOpenConns(1)`), so transactions do not interleave.
pub mod Steps
pub mod Transactions
pub mod Frames
pub mod Runs
use frps_gateway.Base.{Bool, false, List, [], ◌∷◌, if◌then◌else◌}
use frps_gateway.Store.Schema.{Db}

-- The errors of the package, and those of the driver that it tells apart.
pub data StoreError : Type 0 where
  sqlite unique_violation primary_key_violation : StoreError
  token_invalid active_ip_limit grant_not_found grant_inactive : StoreError
  missing_ids : StoreError

pub data Result {ℓ} (A : Type ℓ) : Type ℓ where
  ok : A → Result A
  err : StoreError → Result A

pub record Env : Type 0 where
  pub db : Db
  pub faults : List Bool

abbrev pub Sql : Type 0 → Type 0
Sql A = Env → Result A × Env

abbrev pub next_fails : List Bool → Bool
next_fails [] = false
next_fails (b ∷ bs) = b

abbrev pub later_faults : List Bool → List Bool
later_faults [] = []
later_faults (b ∷ bs) = bs

-- the statement is used up
abbrev pub past : Env → Env
past e = record e { faults = later_faults e.faults }

abbrev pub pure : {A : Type 0} → A → Sql A
pure a e = (ok a, e)

abbrev pub raise : {A : Type 0} → StoreError → Sql A
raise x e = (err x, e)

-- What a statement leaves when it runs.
abbrev pub after : (Db → Db) → Env → Env
after f e = record e { db = f e.db; faults = later_faults e.faults }

-- One statement, whose outcome SQL determines unless it fails.
pub statement : {A : Type 0} → (Db → Result A × Db) → Sql A
statement f e =
    if next_fails e.faults then (err sqlite, past e) else ((f e.db).0, after (λ d. (f d).1) e)

pub query : {A : Type 0} → (Db → A) → Sql A
unfolding statement
query f = statement (λ d. (ok (f d), d))

pub exec : (Db → Db) → Sql Unit
unfolding statement
exec f = statement (λ d. (ok tt, f d))

abbrev pub continue : {A B : Type 0} → Result A → (A → Sql B) → Sql B
continue (ok a) f e = f a e
continue (err x) f e = (err x, e)

-- To open this is to open the primitive actions too.
infixl 5 ◌>>=◌ ◌>>◌
unfoldable pub ◌>>=◌ : {A B : Type 0} → Sql A → (A → Sql B) → Sql B
unfolding statement query exec
◌>>=◌ m f e = let (r, e') = m e in continue r f e'

abbrev pub ◌>>◌ : {A B : Type 0} → Sql A → Sql B → Sql B
m >> k = m >>= λ _. k

-- How the body of a transaction returns: with `Commit`, or past it.
pub data Finish (A : Type 0) : Type 0 where
  commit : A → Finish A
  rollback : A → Finish A

abbrev pub finish : {A : Type 0} → Db → Result (Finish A) × Env → Result A × Env
finish saved (err x, e) = (err x, record e { db = saved })
finish saved (ok (rollback a), e) = (ok a, record e { db = saved })
finish saved (ok (commit a), e) =
    if next_fails e.faults then (err sqlite, record (past e) { db = saved }) else (ok a, past e)

-- BeginTx, the body, and the deferred Rollback.
unfoldable pub transaction_or_rollback : {A : Type 0} → Sql (Finish A) → Sql A
transaction_or_rollback body e =
    if next_fails e.faults then (err sqlite, past e) else finish e.db (body (past e))

-- A body that returns a value only with `Commit`.
unfoldable pub transaction : {A : Type 0} → Sql A → Sql A
unfolding transaction_or_rollback ◌>>=◌
transaction body = transaction_or_rollback (do a ← body; pure (commit a))
