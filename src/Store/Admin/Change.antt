-- ===== src/Store/Admin/Change.antt =====
-- What a change of a grant by the console of store/store.go leaves: the row, the others, the audit.
use frps_gateway.Base.{
  ℕ, String, ◌≡◌, refl, ap, ◌∙◌, true, not, Option, none, some, List, arith, eqb, map,
  if◌then◌else◌, update-map, find, select, select_others-update, unix, from_unix,
}
use frps_gateway.Store.Schema.{Db, GrantRow, GrantRecord}
use frps_gateway.Store.Sql.{Env, StoreError, ok, err, past}
use frps_gateway.Store.Sql.Steps.{
  Ensures, Ensures-ok, Ensures-err, Ensures-bind, Ensures-exec, Ensures-query, Ensures-statement,
  Ensures-transaction,
}
use frps_gateway.Store.Sql.Transactions.{transaction-err}
use frps_gateway.Store.Grants.{insert_managed}
use frps_gateway.Store.Admin.{
  scan_record, audit_row, insert_audit, require_grant, grant_for_mutation, is_live, require_live,
  set_expiry, set_revoked, extend_body, extend_admin_grant, revoke_body, revoke_admin_grant,
}
use frps_gateway.Store.Admin.Audited.{Audits, insert_audit-Audits, insert_managed_keeps}

-- The row that a change is about was live, and stays where it was.
abbrev pub Found : ℕ → ℕ → Db → GrantRow → Type 0
Found id now d q =
    (find (λ (g : GrantRow). eqb g.id id) d.grants ≡ some q) × (is_live now (scan_record q) ≡ true)

-- The rows of other ids, read off a table.
abbrev pub others : ℕ → Db → List GrantRow
others id d = select (λ g. not (eqb g.id id)) d.grants

grant_for_mutation_lem :
    (id : ℕ) (e : Env)
    → Ensures
        (λ (r : GrantRecord) (d : Db).
          (d ≡ e.db)
          × (q : GrantRow) × (find (λ (g : GrantRow). eqb g.id id) e.db.grants ≡ some q)
          × (r ≡ scan_record q))
        (grant_for_mutation id e)
unfolding grant_for_mutation
grant_for_mutation_lem id e = Ensures-query _ _ e (go _ refl)
  where
    go :
        (o : Option GrantRow)
        → find (λ (g : GrantRow). eqb g.id id) e.db.grants ≡ o
        → Ensures
            (λ (r : GrantRecord) (d : Db).
              (d ≡ e.db)
              × (q : GrantRow) × (find (λ (g : GrantRow). eqb g.id id) e.db.grants ≡ some q)
              × (r ≡ scan_record q))
            (require_grant o (past e))
    go none h = Ensures-err _ _
    go (some q) h = Ensures-ok _ _ (refl, q, h, refl)

require_live_ok :
    (now : ℕ) (g : GrantRecord) (e : Env) (u : Unit)
    → (require_live now g e).0 ≡ ok u
    → (is_live now g ≡ true) × ((require_live now g e).1 ≡ e)
unfolding require_live
require_live_ok now g e u h = ground arith

-- What `RevokeAdminGrant` returns and leaves: the grant was live, in the rows of its id only the
-- time of revocation is set, every other row is as it was, all stand where they stood, and the audit record was appended.
abbrev pub Revoked : String → ℕ → ℕ → ℕ → Db → GrantRecord × ℕ → Db → Type 0
Revoked actor id now now' d (r, audit_id) d' =
    (q : GrantRow) × Found id now d q
    × (r ≡ record (scan_record q) { revoked_at = some now' })
    × (d'.grants
        ≡ map
            (λ (g : GrantRow).
              if eqb g.id id then record g { revoked_at = some (unix now') } else g)
            d.grants)
    × (others id d' ≡ others id d)
    × Audits
        (λ a.
          audit_row a actor "revoke" (record (scan_record q) { id = id }) "admin_web" (unix now')
            (unix (from_unix q.expire_at)))
        d audit_id d'

set_revoked-map :
    (id at : ℕ) (c d : Db)
    → c ≡ d
    → (set_revoked id at c).grants
      ≡ map
          (λ (g : GrantRow). if eqb g.id id then record g { revoked_at = some at } else g)
          d.grants
unfolding set_revoked
set_revoked-map id at c d same =
    update-map (λ (g : GrantRow). eqb g.id id) (λ g. record g { revoked_at = some at }) c.grants
    ∙ ap
        (λ (x : Db).
          map (λ (g : GrantRow). if eqb g.id id then record g { revoked_at = some at } else g)
            x.grants)
        same

set_revoked-others : (id at : ℕ) (d : Db) → others id (set_revoked id at d) ≡ others id d
unfolding set_revoked
set_revoked-others id at d =
    select_others-update (λ (g : GrantRow). eqb g.id id) (λ g. record g { revoked_at = some at })
      d.grants (λ x h. h)

revoke_body_lem :
    (actor : String) (id now now' : ℕ) (e : Env)
    → Ensures (Revoked actor id now now' e.db) (revoke_body actor id now now' e)
unfolding revoke_body set_revoked insert_audit
revoke_body_lem actor id now now' e = Ensures-bind _ _ e λ g got.
    let (same, q, found, scanned) = (grant_for_mutation_lem id e).at g got in
    Ensures-bind _ _ _ λ u passed.
      let (live, still) = require_live_ok now g _ u passed in
      rw (still, scanned)
        (Ensures-exec _ _ _ (
          Ensures-statement _ _ _ λ a got'. Ensures-ok _ _ (
            q,
            (found, rw scanned at live),
            refl,
            set_revoked-map id (unix now') (grant_for_mutation id e).1.db e.db same,
            set_revoked-others id (unix now') (grant_for_mutation id e).1.db ∙ ap (others id) same,
            insert_audit-Audits _ e.db (set_revoked id (unix now') (grant_for_mutation id e).1.db) a
                (ap (λ (d : Db). d.admin_audit) same) got',
          )))

-- A revocation by the console that succeeds was of a live grant; the table of grants is as before, row
-- by row, with only the time of revocation set in the rows of its id; and its audit record is
-- appended. One that fails changes no table.
pub revoke_admin_grant-audited :
    (actor : String) (id now now' : ℕ) (e : Env)
    → ((out : GrantRecord × ℕ)
        → (revoke_admin_grant actor id now now' e).0 ≡ ok out
        → Revoked actor id now now' e.db out (revoke_admin_grant actor id now now' e).1.db)
      × ((x : StoreError)
          → (revoke_admin_grant actor id now now' e).0 ≡ err x
          → (revoke_admin_grant actor id now now' e).1.db ≡ e.db)
unfolding revoke_admin_grant
revoke_admin_grant-audited actor id now now' e = (
  (Ensures-transaction _ e (revoke_body_lem actor id now now' (past e))).at,
  λ x h. transaction-err _ e x h,
)

-- What `ExtendAdminGrant` returns and leaves: the grant was live, in the rows of its id only the
-- expiry is set, every other row is as it was, all stand where they stood, and the audit record was appended.
abbrev pub Extended : String → ℕ → ℕ → ℕ → ℕ → Db → GrantRecord × ℕ → Db → Type 0
Extended actor id expire_at now now' d (r, audit_id) d' =
    (q : GrantRow) × Found id now d q
    × (r ≡ record (scan_record q) { expire_at = expire_at })
    × (d'.grants
        ≡ map (λ (g : GrantRow). if eqb g.id id then record g { expire_at = unix expire_at } else g)
            d.grants)
    × (others id d' ≡ others id d)
    × Audits
        (λ a.
          audit_row a actor "extend" (record (scan_record q) { id = id }) "admin_web" (unix now')
            (unix expire_at))
        d audit_id d'

set_expiry-map :
    (id at : ℕ) (c d : Db)
    → c ≡ d
    → (set_expiry id at c).grants
      ≡ map (λ (g : GrantRow). if eqb g.id id then record g { expire_at = at } else g) d.grants
unfolding set_expiry
set_expiry-map id at c d same =
    update-map (λ (g : GrantRow). eqb g.id id) (λ g. record g { expire_at = at }) c.grants
    ∙ ap
        (λ (x : Db).
          map (λ (g : GrantRow). if eqb g.id id then record g { expire_at = at } else g) x.grants)
        same

set_expiry-others : (id at : ℕ) (d : Db) → others id (set_expiry id at d) ≡ others id d
unfolding set_expiry
set_expiry-others id at d =
    select_others-update (λ (g : GrantRow). eqb g.id id) (λ g. record g { expire_at = at }) d.grants
      (λ x h. h)

extend_body_lem :
    (actor : String) (id expire_at now now' : ℕ) (e : Env)
    → Ensures
        (Extended actor id expire_at now now' e.db)
        (extend_body actor id expire_at now now' e)
unfolding extend_body set_expiry insert_audit
extend_body_lem actor id expire_at now now' e = Ensures-bind _ _ e λ g got.
    let (same, q, found, scanned) = (grant_for_mutation_lem id e).at g got in
    Ensures-bind _ _ _ λ u passed.
      let (live, still) = require_live_ok now g _ u passed in
      let c = set_expiry id (unix expire_at) (grant_for_mutation id e).1.db in
      let keeps = insert_managed_keeps q.ip c in
      rw (still, scanned)
        (Ensures-exec _ _ _ (
          Ensures-exec _ _ _ (
            Ensures-statement _ _ _ λ a got'. Ensures-ok _ _ (
              q,
              (found, rw scanned at live),
              refl,
              rw keeps.0
                  (set_expiry-map id (unix expire_at) (grant_for_mutation id e).1.db e.db same),
              rw keeps.0 (
                  set_expiry-others id (unix expire_at) (grant_for_mutation id e).1.db
                  ∙ ap (others id) same),
              insert_audit-Audits _ e.db (insert_managed q.ip c) a
                  (keeps.1 ∙ ap (λ (d : Db). d.admin_audit) same) got',
            ))))

-- An extension by the console that succeeds was of a live grant; the table of grants is as before, row
-- by row, with only the expiry set in the rows of its id; and its audit record is appended. One that fails changes no table.
pub extend_admin_grant-audited :
    (actor : String) (id expire_at now now' : ℕ) (e : Env)
    → ((out : GrantRecord × ℕ)
        → (extend_admin_grant actor id expire_at now now' e).0 ≡ ok out
        → Extended actor id expire_at now now' e.db out
            (extend_admin_grant actor id expire_at now now' e).1.db)
      × ((x : StoreError)
          → (extend_admin_grant actor id expire_at now now' e).0 ≡ err x
          → (extend_admin_grant actor id expire_at now now' e).1.db ≡ e.db)
unfolding extend_admin_grant
extend_admin_grant-audited actor id expire_at now now' e = (
  (Ensures-transaction _ e (extend_body_lem actor id expire_at now now' (past e))).at,
  λ x h. transaction-err _ e x h,
)
