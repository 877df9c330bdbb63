-- ===== src/Store/Admin/Tests.antt =====
-- Runs of the grants of the console of store/store.go.
use frps_gateway.Base.{ℕ, ◌≡◌, refl, none, some, [], ◌∷◌}
use frps_gateway.Store.Schema.{Grant, GrantRow, GrantRecord, empty_db}
use frps_gateway.Store.Sql.{Env, ok, transaction}
use frps_gateway.Store.Grants.{insert_grant, insert_managed}
use frps_gateway.Store.Admin.{
  scan_record, new_record, insert_audit, create_body, create_admin_grant, grant_for_mutation,
  require_live, set_expiry, set_revoked, extend_body, extend_admin_grant, revoke_body,
  revoke_admin_grant,
}
use frps_gateway.Store.Admin.Audited.{Created, create_admin_grant-audited}
use frps_gateway.Store.Admin.Change.{
  Revoked, Extended, revoke_admin_grant-audited, extend_admin_grant-audited,
}

abbrev row : ℕ → GrantRow
row id = record {
  id = id;
  open_id = "ou_1";
  operator_name = "Ann";
  ip = "203.0.113.7";
  source = "feishu_command";
  created_at = 10;
  expire_at = 900;
  revoked_at = none;
}

abbrev two_rows : Env
two_rows = record { db = record empty_db { grants = row 1 ∷ row 2 ∷ [] }; faults = [] }

abbrev console_grant : Grant
console_grant = record {
  open_id = "ou_2";
  operator_name = "Bob";
  ip = "203.0.113.8";
  source = "admin_web";
  created_at = 500000000000;
  expire_at = 800000000000;
}

abbrev created_record : GrantRecord × ℕ
created_record = (new_record 3 console_grant, 1)

abbrev revoked_record : GrantRecord × ℕ
revoked_record = (record (scan_record (row 2)) { revoked_at = some 501000000000 }, 1)

abbrev extended_record : GrantRecord × ℕ
extended_record = (record (scan_record (row 2)) { expire_at = 1800000000000 }, 1)

created : (create_admin_grant "root" console_grant 500000000000 two_rows).0 ≡ ok created_record
unfolding create_admin_grant create_body insert_grant insert_managed insert_audit transaction
created = refl

revoked : (revoke_admin_grant "root" 2 500000000000 501000000000 two_rows).0 ≡ ok revoked_record
unfolding revoke_admin_grant revoke_body grant_for_mutation require_live set_revoked insert_audit
    transaction
revoked = refl

extended :
    (extend_admin_grant "root" 2 1800000000000 500000000000 501000000000 two_rows).0
    ≡ ok extended_record
unfolding extend_admin_grant extend_body grant_for_mutation require_live set_expiry insert_managed
    insert_audit transaction
extended = refl

created_example :
    Created "root" console_grant 500000000000 two_rows.db created_record
      (create_admin_grant "root" console_grant 500000000000 two_rows).1.db
created_example =
    (create_admin_grant-audited "root" console_grant 500000000000 two_rows).0 created_record created

revoked_example :
    Revoked "root" 2 500000000000 501000000000 two_rows.db revoked_record
      (revoke_admin_grant "root" 2 500000000000 501000000000 two_rows).1.db
revoked_example =
    (revoke_admin_grant-audited "root" 2 500000000000 501000000000 two_rows).0 revoked_record
      revoked

extended_example :
    Extended "root" 2 1800000000000 500000000000 501000000000 two_rows.db extended_record
      (extend_admin_grant "root" 2 1800000000000 500000000000 501000000000 two_rows).1.db
extended_example =
    (extend_admin_grant-audited "root" 2 1800000000000 500000000000 501000000000 two_rows).0
      extended_record extended
