-- ===== src/Store/Access.antt =====
-- store/store.go: the access records of frps. A row is known by its instance and number.
pub mod Insert
pub mod Owners
mod Tests
use frps_gateway.Base.{
  ℕ, zero, ◌+◌, String, ◌<>◌, Bool, ◌&&◌, ◌||◌, not, Option, none, some, List, [], ◌∷◌, ◌++◌, map,
  leb, ltb, eqb, ◌==◌, if◌then◌else◌, is_none, length, select, has, contains, max_by, sort_texts,
  unix,
}
use frps_gateway.Store.Schema.{Db, AccessRow, GrantRow}
use frps_gateway.Store.Sql.{Result, Sql, ok, ◌>>=◌, ◌>>◌, pure, statement, query, exec, transaction}
use frps_gateway.Store.Tokens.{dedupe}

-- PRIMARY KEY(instance, seq)
abbrev pub same_key : AccessRow → AccessRow → Bool
same_key a b = a.instance_id == b.instance_id && eqb a.seq b.seq

abbrev pub is_known : AccessRow → List AccessRow → Bool
is_known r rows = has (same_key r) rows

-- INSERT OR IGNORE INTO access_records, and the rows affected
unfoldable pub insert_access : AccessRow → Db → Result ℕ × Db
insert_access r d =
    if is_known r d.access_records
    then (ok 0, d)
    else (ok 1, record d { access_records = d.access_records ++ r ∷ [] })

-- The loop over the batch.
pub insert_each : List AccessRow → ℕ → Sql ℕ
insert_each [] inserted = pure inserted
insert_each (r ∷ rs) inserted = do n ← statement (insert_access r); insert_each rs (inserted + n)

-- From PrepareContext on.
unfoldable pub insert_batch : List AccessRow → Sql ℕ
insert_batch rs = do exec (λ d. d); insert_each rs 0

-- InsertAccessRecords
pub insert_access_records : List AccessRow → Sql ℕ
insert_access_records [] = pure 0
insert_access_records (r ∷ rs) = transaction (insert_batch (r ∷ rs))

-- PruneAccessRecords
unfoldable pub prune_access_records : ℕ → Sql ℕ
prune_access_records before = statement λ d. (
  ok (length (select (λ r. ltb r.time (unix before)) d.access_records)),
  record d { access_records = select (λ r. not (ltb r.time (unix before))) d.access_records },
)

-- CountAccessRecords
unfoldable pub count_access_records : Sql ℕ
count_access_records = query λ d. length d.access_records

-- MaxAccessSequence: MAX of no row is NULL
unfoldable pub max_access_sequence : String → Sql (Option ℕ)
max_access_sequence instance_id = query λ d.
    let rows = select (λ r. r.instance_id == instance_id) d.access_records in
    if eqb (length rows) 0 then none else some (max_by (λ (r : AccessRow). r.seq) rows)

-- AccessRecord, as a page shows it
pub record AccessRecord : Type 0 where
  pub row : AccessRow
  pub owner : String
  pub owner_exact : Bool

-- The local type grantWindow, with the key of the map that holds it.
pub record GrantWindow : Type 0 where
  pub window_ip : String
  pub display : String
  pub created_at : ℕ
  pub expire_at : ℕ
  pub revoked : Bool

abbrev pub grant_window : GrantRow → GrantWindow
grant_window g = record {
  window_ip = g.ip;
  display = if g.operator_name == "" then g.open_id else g.operator_name;
  created_at = g.created_at;
  expire_at = g.expire_at;
  revoked = not (is_none g.revoked_at);
}

-- !gw.revoked && gw.createdAt <= time && time < gw.expireAt
abbrev pub covers : ℕ → GrantWindow → Bool
covers time w = not w.revoked && leb w.created_at time && ltb time w.expire_at

-- names[display] = true
abbrev pub add_name : GrantWindow → List String → List String
add_name w names = if contains names w.display then names else w.display ∷ names

abbrev pub names_of : List GrantWindow → List String
names_of [] = []
names_of (w ∷ ws) = add_name w (names_of ws)

abbrev pub join_with : String → List String → String
join_with sep [] = ""
join_with sep (a ∷ []) = a
join_with sep (a ∷ b ∷ bs) = a <> (sep <> join_with sep (b ∷ bs))

-- joinNames
abbrev pub join_names : List String → String
join_names names = join_with "、" (sort_texts names)

abbrev pub or_ever : AccessRow → List String → AccessRecord
or_ever r [] = record { row = r; owner = ""; owner_exact = Bool.false }
or_ever r (n ∷ ns) = record { row = r; owner = join_names (n ∷ ns); owner_exact = Bool.false }

abbrev pub or_covered : AccessRow → List String → List String → AccessRecord
or_covered r [] ever = or_ever r ever
or_covered r (n ∷ ns) ever = record {
  row = r;
  owner = join_names (n ∷ ns);
  owner_exact = Bool.true;
}

-- The last loop of `attachAccessOwners`.
abbrev pub attribute : List GrantWindow → AccessRow → AccessRecord
attribute windows r =
    let held = select (λ w. w.window_ip == r.ip) windows in
    or_covered r (names_of (select (covers r.time) held)) (names_of held)

abbrev pub windows_of : List String → List GrantRow → List GrantWindow
windows_of ips gs = map grant_window (select (λ g. contains ips g.ip) gs)

-- attachAccessOwners
pub attach_access_owners : List AccessRow → Sql (List AccessRecord)
attach_access_owners [] = pure []
attach_access_owners (r ∷ rs) = do
  let ips = dedupe (map (λ (a : AccessRow). a.ip) (r ∷ rs))
  windows ← query λ d. windows_of ips d.grants
  pure (map (attribute windows) (r ∷ rs))
