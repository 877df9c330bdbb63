-- ===== src/Store/Access/Insert.antt =====
-- The batches of access records of store/store.go: what a stored batch adds, and that a batch which
-- is fetched again adds nothing.
use frps_gateway.Base.{
  ℕ, ◌+◌, ◌≡◌, refl, sym, ap, subst, ◌∙◌, true, false, List, [], ◌∷◌, ◌++◌, arith, eq_iff, All,
  All-append, All-weaken, Among, has-append, length, length-append, Bool-cases, inl, inr, text_refl,
}
use frps_gateway.Store.Schema.{Db, AccessRow}
use frps_gateway.Store.Sql.{Env, StoreError, ok, err, past}
use frps_gateway.Store.Sql.Steps.{
  Ensures, Ensures-ok, Ensures-exec, Ensures-statement, Ensures-transaction, Ensures-weaken,
}
use frps_gateway.Store.Sql.Transactions.{transaction-err}
use frps_gateway.Store.Access.{
  same_key, is_known, insert_access, insert_each, insert_batch, insert_access_records,
}
use mathlib.Core.List.{append-nil, append_assoc}

-- No two rows have one key.
abbrev pub UniqueKeys : List AccessRow → Type 0
UniqueKeys [] = Unit
UniqueKeys (r ∷ rs) = (is_known r rs ≡ false) × UniqueKeys rs

same_key_comm : (a b : AccessRow) → same_key a b ≡ same_key b a
same_key_comm a b =
    ground (arith, eq_iff a.instance_id b.instance_id, eq_iff b.instance_id a.instance_id)

UniqueKeys-append :
    (r : AccessRow) (rows : List AccessRow)
    → is_known r rows ≡ false
    → UniqueKeys rows
    → UniqueKeys (rows ++ r ∷ [])
UniqueKeys-append r [] h k = (refl, tt)
UniqueKeys-append r (x ∷ xs) h k = (
  ground (arith, has-append (same_key x) xs (r ∷ []), same_key_comm r x),
  UniqueKeys-append r xs (ground arith) k.1,
)

-- What is there after a batch, if `n` rows were added: each of them a record of the batch.
abbrev pub Inserted : List AccessRow → Db → ℕ → Db → Type 0
Inserted batch d n d' =
    (added : List AccessRow) × (d' ≡ record d { access_records = d.access_records ++ added })
    × (n ≡ length added)
    × All (λ r. is_known r d'.access_records ≡ true) batch
    × (UniqueKeys d.access_records → UniqueKeys d'.access_records)
    × All (Among batch) added

known_self : (r : AccessRow) → same_key r r ≡ true
known_self r = ground (arith, text_refl r.instance_id)

insert_access_lem :
    (r : AccessRow) (d : Db) (n : ℕ)
    → (insert_access r d).0 ≡ ok n
    → (one : List AccessRow) × ((insert_access r d).1
        ≡ record d { access_records = d.access_records ++ one })
      × (n ≡ length one)
      × (is_known r (d.access_records ++ one) ≡ true)
      × (UniqueKeys d.access_records → UniqueKeys (d.access_records ++ one))
      × All (λ q. q ≡ r) one
unfolding insert_access
insert_access_lem r d n got = elim (Bool-cases (is_known r d.access_records)) [
  | inl old ↦ (
    [],
    rw (old, append-nil d.access_records) refl,
    cc (old, got),
    rw (append-nil d.access_records) old,
    rw (append-nil d.access_records) (λ u. u),
    tt,
  )
  | inr new ↦ (
    r ∷ [],
    rw new refl,
    cc (new, got),
    rw (has-append (same_key r) d.access_records (r ∷ [])) (ground (arith, known_self r)),
    λ u. UniqueKeys-append r d.access_records new u,
    (refl, tt),
  )
]

known_longer :
    (r : AccessRow) (rows more : List AccessRow)
    → is_known r rows ≡ true
    → is_known r (rows ++ more) ≡ true
known_longer r rows more h = rw (has-append (same_key r) rows more, h) refl

pub insert_nothing : (d : Db) → Inserted [] d 0 d
insert_nothing d = (
  [],
  ap (λ (rows : List AccessRow). record d { access_records = rows })
      (sym (append-nil d.access_records)),
  refl,
  tt,
  λ u. u,
  tt,
)

-- The loop, from a count `k` on.
insert_each_lem :
    (rs : List AccessRow) (k : ℕ) (e : Env)
    → Ensures
        (λ (m : ℕ) (d' : Db). (n : ℕ) × (m ≡ k + n) × Inserted rs e.db n d')
        (insert_each rs k e)
unfolding insert_each
insert_each_lem [] k e = Ensures-ok _ _ (0, omega arith, insert_nothing e.db)
insert_each_lem (r ∷ rs) k e = Ensures-statement _ _ _ λ n got.
    let (one, step, n_eq, here, unique, exact) = insert_access_lem r e.db n got in
    Ensures-weaken _
      (λ m d' (n', count, (added, same, n'_eq, known, unique', among)).
        let same' : d' ≡ record e.db { access_records = (e.db.access_records ++ one) ++ added } =
          rw step at same in
        (
          n + n',
          omega (arith, count),
          (
            one ++ added,
            same'
                ∙ ap (λ (rows : List AccessRow). record e.db { access_records = rows })
                    (append_assoc e.db.access_records one added),
            omega (arith, n_eq, n'_eq, length-append one added),
            (rw same' (known_longer r (e.db.access_records ++ one) added here), known),
            λ u. unique' (rw step (unique u)),
            All-append (Among (r ∷ rs)) one added
                (All-weaken one (λ q same_row. inl same_row) exact)
                (All-weaken added (λ q later. inr later) among),
          ),
        ))
      (insert_each_lem rs (k + n) _)

batch_lem :
    (rs : List AccessRow) (e : Env)
    → Ensures (λ (n : ℕ) (d : Db). Inserted rs e.db n d) (insert_batch rs e)
unfolding insert_batch
batch_lem rs e = Ensures-exec _ _ _ (
    Ensures-weaken _ (λ m d (n, m_eq, rest). let same : m ≡ n = omega (arith, m_eq) in rw same rest)
      (insert_each_lem rs 0 _))

-- A batch of access records that `InsertAccessRecords` stores only adds rows, as many as it reports, and
-- each row it adds is a record of the batch, with all its columns; then each record of the batch is there
-- by its instance and sequence number, and if no two rows had one key, none do. A batch that it fails to
-- store changes no table.
pub insert_access_records-Inserted :
    (rs : List AccessRow) (e : Env)
    → ((n : ℕ)
        → (insert_access_records rs e).0 ≡ ok n
        → Inserted rs e.db n (insert_access_records rs e).1.db)
      × ((x : StoreError)
          → (insert_access_records rs e).0 ≡ err x
          → (insert_access_records rs e).1.db ≡ e.db)
unfolding insert_access_records
insert_access_records-Inserted [] e =
    ((Ensures-ok {P = Inserted [] e.db} 0 e (insert_nothing e.db)).at, λ x h. refl)
insert_access_records-Inserted (r ∷ rs) e =
    ((Ensures-transaction _ e (batch_lem (r ∷ rs) (past e))).at, λ x h. transaction-err _ e x h)

known_step :
    (r : AccessRow) (d : Db)
    → is_known r d.access_records ≡ true
    → (n : ℕ) → (insert_access r d).0 ≡ ok n
    → (n ≡ 0) × ((insert_access r d).1 ≡ d)
unfolding insert_access
known_step r d here n got = (cc (here, got), rw here refl)

-- The loop over rows that are there.
insert_known_lem :
    (rs : List AccessRow) (k : ℕ) (e : Env)
    → All (λ r. is_known r e.db.access_records ≡ true) rs
    → Ensures (λ (m : ℕ) (d : Db). (m ≡ k) × (d ≡ e.db)) (insert_each rs k e)
unfolding insert_each
insert_known_lem [] k e h = Ensures-ok _ _ (refl, refl)
insert_known_lem (r ∷ rs) k e (here, h) = Ensures-statement _ _ _ λ n got.
    let (zero_eq, same) = known_step r e.db here n got in
    Ensures-weaken _ (λ m d (m_eq, d_eq). (omega (arith, m_eq, zero_eq), d_eq ∙ same))
      (insert_known_lem rs (k + n) _ (rw same h))

-- A batch of access records that is stored again, after a run which stored it, adds no row.
pub insert_access_records-again :
    (rs : List AccessRow) (e e' : Env) (n m : ℕ)
    → (insert_access_records rs e).0 ≡ ok n
    → e'.db ≡ (insert_access_records rs e).1.db
    → (insert_access_records rs e').0 ≡ ok m
    → (m ≡ 0) × ((insert_access_records rs e').1.db ≡ e'.db)
unfolding insert_access_records insert_batch
insert_access_records-again [] e e' n m stored same again = (cc again, refl)
insert_access_records-again (r ∷ rs) e e' n m stored same again =
    let (added, _, _, known, _, _) = (insert_access_records-Inserted (r ∷ rs) e).0 n stored in
    (Ensures-transaction _ e' (
        Ensures-exec _ _ _ (
          insert_known_lem (r ∷ rs) 0 _ (
            subst (λ (d : Db). All (λ q. is_known q d.access_records ≡ true) (r ∷ rs)) (sym same)
              known)))).at
      m again
