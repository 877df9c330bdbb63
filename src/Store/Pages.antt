-- ===== src/Store/Pages.antt =====
-- store/store.go: the filtered pages of the console. `like c s` is SQLite's `c LIKE '%' || s || '%'`. A
-- bound of a range is `none` if its time is zero.
pub mod Sorting
pub mod Columns
pub mod Listed
mod Tests
use frps_gateway.Base.{
  ℕ, zero, String, ℤ, pos, negsuc, Bool, true, false, ◌&&◌, ◌||◌, not, Option, none, some, List,
  map, leb, ltb, eqb, ◌==◌, if◌then◌else◌, is_none, length, select, has, take, drop, sort_with,
  text_leb, unix, from_unix,
}
use frps_gateway.Store.Schema.{Db, GrantRow, GrantRecord, AccessRow, AuditRow}
use frps_gateway.Store.Sql.{Sql, ◌>>=◌, ◌>>◌, pure, query}
use frps_gateway.Store.Admin.{scan_record}
use frps_gateway.Store.Access.{AccessRecord, attach_access_owners}

pub record GrantFilter : Type 0 where
  pub ip : String
  pub user : String
  pub status : String
  pub from : Option ℕ
  pub to : Option ℕ
  pub limit : ℤ
  pub offset : ℤ

pub record AccessFilter : Type 0 where
  pub ip : String
  pub user : String
  pub action : String
  pub owner : String
  pub from : Option ℕ
  pub to : Option ℕ
  pub limit : ℤ
  pub offset : ℤ

pub record AuditFilter : Type 0 where
  pub ip : String
  pub actor : String
  pub action : String
  pub from : Option ℕ
  pub to : Option ℕ
  pub limit : ℤ
  pub offset : ℤ

-- AdminAudit; its times are nanoseconds
pub record AdminAudit : Type 0 where
  pub row : AuditRow
  pub created_at : ℕ
  pub expire_at : Option ℕ

abbrev pub page_size : ℤ → ℕ
page_size (pos n) = if leb n 0 then 50 else if ltb 200 n then 200 else n
page_size (negsuc _) = 50

abbrev pub page_start : ℤ → ℕ
page_start (pos n) = n
page_start (negsuc _) = 0

-- normalizePage
abbrev pub normalize_page : ℤ → ℤ → ℕ × ℕ
normalize_page limit offset = (page_size limit, page_start offset)

-- LIMIT ? OFFSET ?
abbrev pub page_of {ℓ} : {A : Type ℓ} → ℤ → ℤ → List A → List A
page_of limit offset rows = let (l, o) = normalize_page limit offset in take l (drop o rows)

abbrev pub is_from : Option ℕ → ℕ → Bool
is_from none t = true
is_from (some from) t = leb (unix from) t

abbrev pub is_until : Option ℕ → ℕ → Bool
is_until none t = true
is_until (some to) t = ltb t (unix to)

-- The clause on `f.Status`.
abbrev pub has_status : String → ℕ → GrantRow → Bool
has_status status now g =
    if status == "active"
    then (is_none g.revoked_at && ltb now g.expire_at)
    else if status == "expired"
    then (is_none g.revoked_at && leb g.expire_at now)
    else if status == "revoked"
    then not (is_none g.revoked_at)
    else true

-- ORDER BY created_at DESC,id DESC
abbrev pub newer_grant : GrantRow → GrantRow → Bool
newer_grant a b = ltb b.created_at a.created_at || (eqb a.created_at b.created_at && leb b.id a.id)

abbrev pub newer_audit : AuditRow → AuditRow → Bool
newer_audit a b = ltb b.created_at a.created_at || (eqb a.created_at b.created_at && leb b.id a.id)

-- ORDER BY time DESC,instance DESC,seq DESC
abbrev pub newer_access : AccessRow → AccessRow → Bool
newer_access a b =
    ltb b.time a.time
    || (eqb a.time b.time
        && (not (text_leb a.instance_id b.instance_id)
            || (a.instance_id == b.instance_id && leb b.seq a.seq)))

abbrev pub scan_expiry : Option ℕ → Option ℕ
scan_expiry none = none
scan_expiry (some s) = some (from_unix s)

abbrev pub scan_audit : AuditRow → AdminAudit
scan_audit a = record {
  row = a;
  created_at = from_unix a.created_at;
  expire_at = scan_expiry a.expire_at;
}

module _ (like : String → String → Bool) where
  -- A condition that an empty filter leaves out.
  abbrev pub matches : String → String → Bool
  matches column filter = filter == "" || like column filter

  abbrev pub grant_matches : GrantFilter → ℕ → GrantRow → Bool
  grant_matches f now g =
      matches g.ip f.ip
      && (f.user == "" || like g.open_id f.user || like g.operator_name f.user)
      && has_status f.status now g
      && is_from f.from g.created_at
      && is_until f.to g.created_at

  -- ListGrantRecords
  unfoldable pub list_grant_records : GrantFilter → ℕ → Sql (List GrantRecord × ℕ)
  list_grant_records f now = do
    total ← query λ d. length (select (grant_matches f (unix now)) d.grants)
    out ← query λ d.
        page_of f.limit f.offset
          (sort_with newer_grant (select (grant_matches f (unix now)) d.grants))
    pure (map scan_record out, total)

  -- ip IN (SELECT ip FROM grants WHERE ...)
  abbrev pub owned_by : String → List GrantRow → AccessRow → Bool
  owned_by owner gs r =
      has (λ g. g.ip == r.ip && (like g.operator_name owner || like g.open_id owner)) gs

  abbrev pub access_matches : AccessFilter → List GrantRow → AccessRow → Bool
  access_matches f gs r =
      matches r.ip f.ip
      && matches r.user f.user
      && (f.owner == "" || owned_by f.owner gs r)
      && (not (f.action == "allow" || f.action == "deny") || r.action == f.action)
      && is_from f.from r.time
      && is_until f.to r.time

  -- ListAccessRecords
  unfoldable pub list_access_records : AccessFilter → Sql (List AccessRecord × ℕ)
  list_access_records f = do
    total ← query λ d. length (select (access_matches f d.grants) d.access_records)
    rows ← query λ d.
        page_of f.limit f.offset
          (sort_with newer_access (select (access_matches f d.grants) d.access_records))
    out ← attach_access_owners rows
    pure (out, total)

  abbrev pub audit_matches : AuditFilter → AuditRow → Bool
  audit_matches f a =
      matches a.ip f.ip
      && matches a.actor f.actor
      && (f.action == "" || a.action == f.action)
      && is_from f.from a.created_at
      && is_until f.to a.created_at

  -- ListAdminAudits
  unfoldable pub list_admin_audits : AuditFilter → Sql (List AdminAudit × ℕ)
  list_admin_audits f = do
    total ← query λ d. length (select (audit_matches f) d.admin_audit)
    out ← query λ d.
        page_of f.limit f.offset (sort_with newer_audit (select (audit_matches f) d.admin_audit))
    pure (map scan_audit out, total)
