-- ===== src/Ingest.antt =====
-- ingest/ingest.go: one poll's records on their way into the store. The map of ranges is an association
-- list, in the order of the first records; Go ranges over it in any order, `order`.
pub mod Stored
mod Tests
use frps_gateway.Base.{
  ℕ, zero, suc, ◌+◌, ◌-◌, ◌*◌, String, Bool, true, false, ◌&&◌, ◌||◌, Option, none, some, List, [],
  ◌∷◌, ◌++◌, leb, ltb, eqb, ◌==◌, if◌then◌else◌, has, ℤ, pos, negsuc, day,
}
use frps_gateway.Store.Schema.{AccessRow}
use frps_gateway.Store.Sql.{Env, Sql, StoreError, Result, ok, err, ◌>>=◌, pure}
use frps_gateway.Store.Access.{max_access_sequence, insert_access_records, prune_access_records}

-- The local type sequenceRange, with the key of the map that holds it.
pub record SequenceRange : Type 0 where
  pub range_of : String
  pub min_seq : ℕ
  pub max_seq : ℕ
  pub count : ℕ

abbrev pub lower : ℕ → ℕ → ℕ
lower old new = if ltb new old then new else old

abbrev pub higher : ℕ → ℕ → ℕ
higher old new = if ltb old new then new else old

-- One round of the loop over the records.
abbrev pub count_record : AccessRow → List SequenceRange → List SequenceRange
count_record r [] =
    record { range_of = r.instance_id; min_seq = r.seq; max_seq = higher 0 r.seq; count = 1 } ∷ []
count_record r (g ∷ gs) =
    let rest = count_record r gs in
    if g.range_of == r.instance_id
    then record {
      range_of = g.range_of;
      min_seq = lower g.min_seq r.seq;
      max_seq = higher g.max_seq r.seq;
      count = suc g.count;
    }
      ∷ gs
    else g ∷ rest

abbrev pub ranges_onto : List SequenceRange → List AccessRow → List SequenceRange
ranges_onto gs [] = gs
ranges_onto gs (r ∷ rs) = ranges_onto (count_record r gs) rs

-- rec.Instance == "" || rec.Seq == 0
abbrev pub has_no_identity : AccessRow → Bool
has_no_identity r = r.instance_id == "" || eqb r.seq 0

abbrev pub expected_seq : Option ℕ → ℕ
expected_seq none = 1
expected_seq (some previous) = previous + 1

-- The condition of the warning.
abbrev pub is_gap : ℕ → SequenceRange → Bool
is_gap expected g =
    (leb expected g.max_seq && ltb expected g.min_seq) || ltb g.count (g.max_seq - g.min_seq + 1)

-- The loop over the ranges, with the instances that it warns of.
pub check_ranges : List SequenceRange → Sql (List String)
check_ranges [] = pure []
check_ranges (g ∷ gs) = do
  previous ← max_access_sequence g.range_of
  warned ← check_ranges gs
  pure (if is_gap (expected_seq previous) g then g.range_of ∷ warned else warned)

-- What `store` returns, and the instances that it has warned of.
pub data Ingested : Type 0 where
  invalid_identity : Ingested
  cursor_failed : StoreError → Ingested
  insert_failed : StoreError → Ingested
  ingested : ℕ → List String → Ingested

abbrev pub insert_result : List String → Result ℕ → Ingested
insert_result warned (ok n) = ingested n warned
insert_result warned (err x) = insert_failed x

abbrev pub after_check : Result (List String) → List AccessRow → Env → Ingested × Env
after_check (err x) rs e = (cursor_failed x, e)
after_check (ok warned) rs e =
    let (r, e') = insert_access_records rs e in (insert_result warned r, e')

module _ (order : List SequenceRange → List SequenceRange) where
  -- store
  pub store_page : List AccessRow → Env → Ingested × Env
  store_page [] e = (ingested 0 [], e)
  store_page (r ∷ rs) e =
      if has has_no_identity (r ∷ rs)
      then (invalid_identity, e)
      else let (checked, e') = check_ranges (order (ranges_onto [] (r ∷ rs))) e in
        after_check checked (r ∷ rs) e'

-- The start of what `pruneOnce` keeps; none if it keeps all.
abbrev pub prune_before : ℤ → ℕ → Option ℕ
prune_before (pos zero) now = none
prune_before (pos (suc n)) now = some (now - (suc n) * day)
prune_before (negsuc n) now = none

abbrev pub prune_at : Option ℕ → Sql ℕ
prune_at none = pure 0
prune_at (some before) = prune_access_records before

-- pruneOnce; its error is only logged
unfoldable pub prune_once : ℤ → ℕ → Sql ℕ
prune_once retention_days now = prune_at (prune_before retention_days now)
