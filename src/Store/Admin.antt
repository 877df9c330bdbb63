-- ===== src/Store/Admin.antt =====
-- store/store.go: grants as the management console makes, extends and revokes them, each with its
-- audit record. `now` and `now'` are the readings of the clock, in the order of the code.
pub mod Audited
pub mod Change
pub mod Marked
mod Tests
use frps_gateway.Base.{
  ℕ, suc, String, Bool, not, ◌&&◌, Option, none, some, List, [], ◌∷◌, ◌++◌, map, ltb, eqb,
  if◌then◌else◌, is_none, find, max_by, update, unix, from_unix,
}
use frps_gateway.Store.Schema.{Db, Grant, GrantRow, GrantRecord, AuditRow}
use frps_gateway.Store.Sql.{
  Sql, ok, grant_not_found, grant_inactive, ◌>>=◌, ◌>>◌, pure, raise, statement, query, exec,
  transaction,
}
use frps_gateway.Store.Grants.{max_id, insert_grant, insert_managed}

-- The scan of a row into a `GrantRecord`.
abbrev pub scan_record : GrantRow → GrantRecord
scan_record g = record {
  id = g.id;
  open_id = g.open_id;
  operator_name = g.operator_name;
  ip = g.ip;
  source = g.source;
  created_at = from_unix g.created_at;
  expire_at = from_unix g.expire_at;
  revoked_at = elim g.revoked_at [ none ↦ none | some s ↦ some (from_unix s) ];
}

abbrev pub max_audit_id : List AuditRow → ℕ
max_audit_id = max_by (λ a. a.id)

-- The row that INSERT INTO admin_audit(...) makes.
abbrev pub audit_row : ℕ → String → String → GrantRecord → String → ℕ → ℕ → AuditRow
audit_row id actor action g source now expire_at = record {
  id = id;
  actor = actor;
  action = action;
  grant_id = g.id;
  target_open_id = g.open_id;
  target_name = g.operator_name;
  ip = g.ip;
  source = source;
  created_at = now;
  expire_at = some expire_at;
  result = "recorded";
  detail = "";
}

unfoldable pub insert_audit : AuditRow → Db → Db
insert_audit a d = record d { admin_audit = d.admin_audit ++ a ∷ [] }

-- The INSERT of an audit record, and its LastInsertId.
abbrev pub add_audit : (ℕ → AuditRow) → Sql ℕ
add_audit row =
    statement λ d. let id = suc (max_audit_id d.admin_audit) in (ok id, insert_audit (row id) d)

-- The record that `CreateAdminGrant` returns.
abbrev pub new_record : ℕ → Grant → GrantRecord
new_record id g = record {
  id = id;
  open_id = g.open_id;
  operator_name = g.operator_name;
  ip = g.ip;
  source = g.source;
  created_at = g.created_at;
  expire_at = g.expire_at;
  revoked_at = none;
}

unfoldable pub create_body : String → Grant → ℕ → Sql (GrantRecord × ℕ)
create_body actor g now = do
  grant_id ← statement λ d. (ok (suc (max_id d.grants)), insert_grant g d)
  exec (insert_managed g.ip)
  audit_id ←
      add_audit
        λ a. audit_row a actor "add" (new_record grant_id g) g.source (unix now) (unix g.expire_at)
  pure (new_record grant_id g, audit_id)

-- CreateAdminGrant
unfoldable pub create_admin_grant : String → Grant → ℕ → Sql (GrantRecord × ℕ)
create_admin_grant actor g now = transaction (create_body actor g now)

abbrev pub require_grant : Option GrantRow → Sql GrantRecord
require_grant none = raise grant_not_found
require_grant (some g) = pure (scan_record g)

-- grantForMutation
pub grant_for_mutation : ℕ → Sql GrantRecord
grant_for_mutation id = do found ← query λ d. find (λ g. eqb g.id id) d.grants; require_grant found

-- g.RevokedAt == nil && g.ExpireAt.After(time.Now())
abbrev pub is_live : ℕ → GrantRecord → Bool
is_live now g = is_none g.revoked_at && ltb now g.expire_at

-- if g.RevokedAt != nil || !g.ExpireAt.After(time.Now()) { return ErrGrantInactive }
unfoldable pub require_live : ℕ → GrantRecord → Sql Unit
require_live now g = if is_live now g then pure tt else raise grant_inactive

unfoldable pub set_expiry : ℕ → ℕ → Db → Db
set_expiry id at d = record d {
  grants = update (λ g. eqb g.id id) (λ g. record g { expire_at = at }) d.grants;
}

unfoldable pub set_revoked : ℕ → ℕ → Db → Db
set_revoked id at d = record d {
  grants = update (λ g. eqb g.id id) (λ g. record g { revoked_at = some at }) d.grants;
}

pub extend_body : String → ℕ → ℕ → ℕ → ℕ → Sql (GrantRecord × ℕ)
extend_body actor id expire_at now now' = do
  g ← grant_for_mutation id
  require_live now g
  exec (set_expiry id (unix expire_at))
  exec (insert_managed g.ip)
  audit_id ← add_audit λ a.
      audit_row a actor "extend" (record g { id = id }) "admin_web" (unix now') (unix expire_at)
  pure (record g { expire_at = expire_at }, audit_id)

-- ExtendAdminGrant
pub extend_admin_grant : String → ℕ → ℕ → ℕ → ℕ → Sql (GrantRecord × ℕ)
extend_admin_grant actor id expire_at now now' =
    transaction (extend_body actor id expire_at now now')

pub revoke_body : String → ℕ → ℕ → ℕ → Sql (GrantRecord × ℕ)
revoke_body actor id now now' = do
  g ← grant_for_mutation id
  require_live now g
  exec (set_revoked id (unix now'))
  audit_id ← add_audit λ a.
      audit_row a actor "revoke" (record g { id = id }) "admin_web" (unix now') (unix g.expire_at)
  pure (record g { revoked_at = some now' }, audit_id)

-- RevokeAdminGrant
pub revoke_admin_grant : String → ℕ → ℕ → ℕ → Sql (GrantRecord × ℕ)
revoke_admin_grant actor id now now' = transaction (revoke_body actor id now now')

-- SetAdminAuditResult
unfoldable pub set_admin_audit_result : ℕ → String → String → Sql Unit
set_admin_audit_result id result detail = exec λ d. record d {
  admin_audit =
      update (λ a. eqb a.id id) (λ a. record a { result = result; detail = detail }) d.admin_audit;
}
