-- ===== src/Ingest/Stored.antt =====
-- What a poll of ingest/ingest.go leaves in the store.
use frps_gateway.Base.{
  ℕ, String, ◌≡◌, refl, ◌∙◌, true, false, List, [], ◌∷◌, has, Bool-cases, inl, inr, subst,
}
use frps_gateway.Store.Schema.{Db, AccessRow}
use frps_gateway.Store.Sql.{Env, Result, ok, err, Sql, StoreError, next_fails, ◌>>=◌, continue}
use frps_gateway.Store.Access.{max_access_sequence, insert_access_records}
use frps_gateway.Store.Access.Insert.{Inserted, insert_nothing, insert_access_records-Inserted}
use frps_gateway.Ingest.{
  SequenceRange, has_no_identity, check_ranges, Ingested, ingested, insert_failed, invalid_identity,
  cursor_failed, insert_result, after_check, store_page, ranges_onto,
}

-- A block that reads leaves the tables as they are.
continue-reads :
    {A B : Type 0} (r : Result A) (k : A → Sql B) (e : Env)
    → ((a : A) (e' : Env) → (k a e').1.db ≡ e'.db)
    → (continue r k e).1.db ≡ e.db
continue-reads (ok a) k e h = h a e
continue-reads (err x) k e h = refl

bind-reads :
    {A B : Type 0} (m : Sql A) (k : A → Sql B)
    → ((e : Env) → (m e).1.db ≡ e.db)
    → ((a : A) (e : Env) → (k a e).1.db ≡ e.db)
    → (e : Env) → ((m >>= k) e).1.db ≡ e.db
unfolding ◌>>=◌
bind-reads m k h h' e = continue-reads (m e).0 k (m e).1 h' ∙ h e

max_access_sequence-reads : (i : String) (e : Env) → (max_access_sequence i e).1.db ≡ e.db
unfolding max_access_sequence ◌>>=◌
max_access_sequence-reads i e = elim (Bool-cases (next_fails e.faults)) [
  | inl bad ↦ rw bad refl
  | inr good ↦ rw good refl
]

check_ranges-reads : (gs : List SequenceRange) (e : Env) → (check_ranges gs e).1.db ≡ e.db
unfolding check_ranges
check_ranges-reads [] e = refl
check_ranges-reads (g ∷ gs) e =
    bind-reads (max_access_sequence g.range_of) _ (max_access_sequence-reads g.range_of)
      (λ previous. bind-reads (check_ranges gs) _ (check_ranges-reads gs) (λ warned e'. refl)) e

-- What a poll leaves: with an insertion the rows of the batch, and else the tables as they were.
abbrev pub Stored : List AccessRow → Db → Ingested → Db → Type 0
Stored rs d (ingested n warned) d' = (has has_no_identity rs ≡ false) × Inserted rs d n d'
Stored rs d (insert_failed x) d' = d' ≡ d
Stored rs d (cursor_failed x) d' = d' ≡ d
Stored rs d invalid_identity d' = (has has_no_identity rs ≡ true) × (d' ≡ d)

after_check_lem :
    (checked : Result (List String)) (rs : List AccessRow) (d : Db) (e : Env)
    → has has_no_identity rs ≡ false
    → e.db ≡ d
    → Stored rs d (after_check checked rs e).0 (after_check checked rs e).1.db
after_check_lem (err x) rs d e valid same = same
after_check_lem (ok warned) rs d e valid same =
    go (insert_access_records rs e).0 (insert_access_records-Inserted rs e).0
      (insert_access_records-Inserted rs e).1
  where
    go :
        (r : Result ℕ)
        → ((n : ℕ) → r ≡ ok n → Inserted rs e.db n (insert_access_records rs e).1.db)
        → ((x : StoreError) → r ≡ err x → (insert_access_records rs e).1.db ≡ e.db)
        → Stored rs d (insert_result warned r) (insert_access_records rs e).1.db
    go (ok n) h h' =
        (valid, subst (λ b. Inserted rs b n (insert_access_records rs e).1.db) same (h n refl))
    go (err x) h h' = h' x refl ∙ same

-- A poll stores its batch whole or not at all: if it succeeds, each record had an identity and is in the
-- store by its instance and sequence number, only as many rows were added as it reports, and each of
-- those is a record of the batch with all its columns; if a record has no identity, or the store fails,
-- the tables are as they were.
pub store_page-Stored :
    (order : List SequenceRange → List SequenceRange) (rs : List AccessRow) (e : Env)
    → Stored rs e.db (store_page order rs e).0 (store_page order rs e).1.db
unfolding store_page
store_page-Stored order [] e = (refl, insert_nothing e.db)
store_page-Stored order (r ∷ rs) e = elim (Bool-cases (has has_no_identity (r ∷ rs))) [
  | inl bad ↦ rw bad (bad, refl)
  | inr valid ↦ rw valid (
      after_check_lem (check_ranges (order (ranges_onto [] (r ∷ rs))) e).0 (r ∷ rs) e.db
        (check_ranges (order (ranges_onto [] (r ∷ rs))) e).1 valid
        (check_ranges-reads (order (ranges_onto [] (r ∷ rs))) e))
]
