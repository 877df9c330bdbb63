-- ===== src/Store/Admin/Audited.antt =====
-- Every change that the console makes through store/store.go stands beside its audit record.
use frps_gateway.Base.{
  ℕ, suc, String, ◌≡◌, refl, ap, ◌∙◌, false, [], ◌∷◌, ◌++◌, arith, eqb, has, has-suc-max_by, unix,
}
use frps_gateway.Store.Schema.{Db, Grant, GrantRow, GrantRecord, AuditRow}
use frps_gateway.Store.Sql.{Env, StoreError, ok, err, past}
use frps_gateway.Store.Sql.Steps.{
  Ensures, Ensures-ok, Ensures-exec, Ensures-statement, Ensures-transaction,
}
use frps_gateway.Store.Sql.Transactions.{transaction-err}
use frps_gateway.Store.Grants.{grant_row, max_id, insert_grant, insert_managed}
use frps_gateway.Store.Admin.{
  audit_row, max_audit_id, insert_audit, new_record, create_body, create_admin_grant,
}

-- One audit record was appended, under a new id.
pub record Audits (row : ℕ → AuditRow) (d : Db) (audit_id : ℕ) (d' : Db) : Type 0 where
  pub appended : d'.admin_audit ≡ d.admin_audit ++ row audit_id ∷ []
  pub fresh : has (λ (a : AuditRow). eqb a.id audit_id) d.admin_audit ≡ false

pub insert_audit-Audits :
    (row : ℕ → AuditRow) (d c : Db) (a : ℕ)
    → c.admin_audit ≡ d.admin_audit
    → ok (suc (max_audit_id c.admin_audit)) ≡ ok a
    → Audits row d a (insert_audit (row (suc (max_audit_id c.admin_audit))) c)
unfolding insert_audit
insert_audit-Audits row d c a same got =
    let a_eq : suc (max_audit_id c.admin_audit) ≡ a = cc in
    record {
      appended = rw (a_eq, same);
      fresh =
          has-suc-max_by (λ (b : AuditRow). b.id) a d.admin_audit
            (omega (arith, a_eq, ap max_audit_id same));
    }

-- What is left of the other tables by the INSERT of a managed address.
pub insert_managed_keeps :
    (ip : String) (d : Db)
    → ((insert_managed ip d).grants ≡ d.grants)
      × ((insert_managed ip d).admin_audit ≡ d.admin_audit)
unfolding insert_managed
insert_managed_keeps ip d = ground arith

-- What `CreateAdminGrant` returns and leaves: one more grant, under a new id, and its audit record.
abbrev pub Created : String → Grant → ℕ → Db → GrantRecord × ℕ → Db → Type 0
Created actor g now d (r, audit_id) d' =
    (r ≡ new_record r.id g)
    × (d'.grants ≡ d.grants ++ grant_row r.id g ∷ [])
    × (has (λ (q : GrantRow). eqb q.id r.id) d.grants ≡ false)
    × Audits (λ a. audit_row a actor "add" r g.source (unix now) (unix g.expire_at)) d audit_id d'

create_body_lem :
    (actor : String) (g : Grant) (now : ℕ) (e : Env)
    → Ensures (Created actor g now e.db) (create_body actor g now e)
unfolding create_body insert_grant insert_audit
create_body_lem actor g now e = Ensures-statement _ _ e λ id got.
    let id_eq : suc (max_id e.db.grants) ≡ id = cc in
    let c = insert_managed g.ip (insert_grant g e.db) in
    let keeps = insert_managed_keeps g.ip (insert_grant g e.db) in
    let row : ℕ → AuditRow =
      λ a. audit_row a actor "add" (new_record id g) g.source (unix now) (unix g.expire_at) in
    Ensures-exec _ _ _ (
      Ensures-statement _ _ _ λ a got'. Ensures-ok _ _ (
        refl,
        keeps.0 ∙ ap (λ n. e.db.grants ++ grant_row n g ∷ []) id_eq,
        has-suc-max_by (λ (q : GrantRow). q.id) id e.db.grants (omega (arith, id_eq)),
        insert_audit-Audits row e.db c a keeps.1 got',
      ))

-- A grant that the console adds is recorded together with its audit record, each under a new id, or
-- neither is.
pub create_admin_grant-audited :
    (actor : String) (g : Grant) (now : ℕ) (e : Env)
    → ((out : GrantRecord × ℕ)
        → (create_admin_grant actor g now e).0 ≡ ok out
        → Created actor g now e.db out (create_admin_grant actor g now e).1.db)
      × ((x : StoreError)
          → (create_admin_grant actor g now e).0 ≡ err x
          → (create_admin_grant actor g now e).1.db ≡ e.db)
unfolding create_admin_grant
create_admin_grant-audited actor g now e = (
  (Ensures-transaction _ e (create_body_lem actor g now (past e))).at,
  λ x h. transaction-err _ e x h,
)
