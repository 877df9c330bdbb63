-- ===== src/Store/Admin/Marked.antt =====
-- What SetAdminAuditResult of store/store.go leaves of a record that was just appended.
use frps_gateway.Base.{
  ℕ, String, ◌≡◌, refl, ◌∙◌, ap, Bool, true, false, ◌⊎◌, inl, inr, List, [], ◌∷◌, ◌++◌, arith,
  Bool-cases, eqb, has, update,
}
use frps_gateway.Store.Schema.{Db, AuditRow}
use frps_gateway.Store.Sql.{Env, next_fails}
use frps_gateway.Store.Sql.Runs.{exec-next_fails}
use frps_gateway.Store.Admin.{set_admin_audit_result}

update-last :
    (p : AuditRow → Bool) (f : AuditRow → AuditRow) (xs : List AuditRow) (a : AuditRow)
    → has p xs ≡ false
    → p a ≡ true
    → update p f (xs ++ a ∷ []) ≡ xs ++ f a ∷ []
update-last p f [] a h k = rw k refl
update-last p f (x ∷ xs) a h k = elim (Bool-cases (p x)) [
  | inl hit ↦ cc (rw hit at h)
  | inr miss ↦ rw (miss, update-last p f xs a (rw miss at h) k) refl
]

-- The audit records after a statement that sets the result of the last: with the result and the
-- detail, unless the statement fails.
abbrev pub Marked : Bool → List AuditRow → AuditRow → String → String → List AuditRow → Type 0
Marked fails old a result detail new =
    ((fails ≡ true) × (new ≡ old ++ a ∷ []))
    ⊎ ((fails ≡ false) × (new ≡ old ++ record a { result = result; detail = detail } ∷ []))

pub set_admin_audit_result-Marked :
    (id : ℕ) (result detail : String) (e : Env) (old : List AuditRow) (a : AuditRow)
    → e.db.admin_audit ≡ old ++ a ∷ []
    → has (λ (x : AuditRow). eqb x.id id) old ≡ false
    → a.id ≡ id
    → Marked
        (next_fails e.faults)
        old
        a
        result
        detail
        (set_admin_audit_result id result detail e).1.db.admin_audit
unfolding set_admin_audit_result
set_admin_audit_result-Marked id result detail e old a rows fresh same =
    let f : Db → Db = λ d. record d {
      admin_audit =
          update (λ x. eqb x.id id) (λ x. record x { result = result; detail = detail })
            d.admin_audit;
    } in
    elim (exec-next_fails f e) [
      | inl (broken, ran) ↦ inl (broken, rw ran rows)
      | inr (works, ran) ↦ inr (
        works,
        rw ran (
            ap (update (λ x. eqb x.id id) (λ x. record x { result = result; detail = detail })) rows
            ∙ update-last (λ x. eqb x.id id) (λ x. record x { result = result; detail = detail })
                old a fresh (ground (arith, same))),
      )
    ]
