-- ===== src/Store/Access/Tests.antt =====
-- Runs of the access records of store/store.go.
use frps_gateway.Base.{ℕ, ◌≡◌, refl, Bool, true, none, List, [], ◌∷◌, All, map}
use frps_gateway.Store.Schema.{AccessRow, GrantRow, empty_db}
use frps_gateway.Store.Sql.{Env, ok, transaction, ◌>>=◌}
use frps_gateway.Store.Access.{
  AccessRecord, insert_access, insert_each, insert_batch, insert_access_records,
  attach_access_owners,
}
use frps_gateway.Store.Access.Insert.{
  Inserted, insert_access_records-Inserted, insert_access_records-again,
}
use frps_gateway.Store.Access.Owners.{Attributed, attach_access_owners-exact}

abbrev access : ℕ → ℕ → AccessRow
access seq time = record {
  instance_id = "frps-1";
  seq = seq;
  time = time;
  ip = "203.0.113.7";
  user = "";
  source = "tcp";
  action = "allow";
  reason = "";
}

abbrev batch : List AccessRow
batch = access 2 50 ∷ access 3 950 ∷ access 2 50 ∷ []

abbrev before : Env
before = record {
  db = record empty_db { access_records = access 1 40 ∷ access 2 50 ∷ [] };
  faults = [];
}

inserted_one : (insert_access_records batch before).0 ≡ ok 1
unfolding insert_access_records insert_batch insert_each insert_access transaction
inserted_one = refl

inserted_none : (insert_access_records batch (insert_access_records batch before).1).0 ≡ ok 0
unfolding insert_access_records insert_batch insert_each insert_access transaction
inserted_none = refl

insert_example : Inserted batch before.db 1 (insert_access_records batch before).1.db
insert_example = (insert_access_records-Inserted batch before).0 1 inserted_one

again_example :
    ◌≡◌ {A = ℕ} 0 0
    × ((insert_access_records batch (insert_access_records batch before).1).1.db
        ≡ (insert_access_records batch before).1.db)
again_example =
    insert_access_records-again batch before (insert_access_records batch before).1 1 0 inserted_one
      refl inserted_none

abbrev owner_grant : GrantRow
owner_grant = record {
  id = 1;
  open_id = "ou_1";
  operator_name = "Ann";
  ip = "203.0.113.7";
  source = "feishu_command";
  created_at = 10;
  expire_at = 900;
  revoked_at = none;
}

abbrev with_owner : Env
with_owner = record { db = record empty_db { grants = owner_grant ∷ [] }; faults = [] }

abbrev attributed : List AccessRecord
attributed =
    record { row = access 2 50; owner = "Ann"; owner_exact = true }
    ∷ record { row = access 3 950; owner = "Ann"; owner_exact = Bool.false }
    ∷ []

owners_found : (attach_access_owners (access 2 50 ∷ access 3 950 ∷ []) with_owner).0 ≡ ok attributed
unfolding attach_access_owners ◌>>=◌
owners_found = refl

owners_example :
    (map (λ (o : AccessRecord). o.row) attributed ≡ access 2 50 ∷ access 3 950 ∷ [])
    × All (Attributed with_owner.db.grants) attributed
owners_example =
    attach_access_owners-exact (access 2 50 ∷ access 3 950 ∷ []) with_owner attributed owners_found
