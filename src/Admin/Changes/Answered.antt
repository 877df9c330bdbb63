-- ===== src/Admin/Changes/Answered.antt =====
-- The handlers of admin/admin.go that change grants, each by its answer.
use frps_gateway.Base.{
  ℕ, ◌+◌, ◌<◌, String, ◌≡◌, refl, ap, subst, arith, eqb, not, ◌||◌, inl, inr, Option, none, some,
  Bool-cases,
}
use frps_gateway.Store.Schema.{Grant}
use frps_gateway.Store.Sql.{Env}
use frps_gateway.Store.Admin.{create_admin_grant, extend_admin_grant, revoke_admin_grant}
use frps_gateway.Store.Admin.Audited.{create_admin_grant-audited}
use frps_gateway.Store.Admin.Change.{extend_admin_grant-audited, revoke_admin_grant-audited}
use frps_gateway.Admin.Sessions.{Session, Console}
use frps_gateway.Admin.Changes.{
  Reconciler, Library, ChangeForm, ChangeRequest, Guard, refused, allowed, Lifetime, lasts,
  not_a_duration, too_long, valid_label, normalized_ip, parse_ttl, require_mutation, web_grant,
  add_lasting, add_for, add_guarded, add_grant, path_grant, extend_lasting, extend_for,
  extend_guarded, extend_grant, revoke_for, revoke_guarded, revoke_grant,
}
use frps_gateway.Admin.Changes.Handled.{
  KeepsAudits, ChangeOf, Adds, Extends, Revokes, Entitled, Place, Handled, guard_lem,
  with_mutation-Handled,
}

module _ (sha256 token_key : String → String) (lib : Library) (rec : Reconciler) (max_ttl : ℕ) where
  create-ChangeOf :
      (actor : String) (g : Grant) (now : ℕ) (e : Env)
      → ChangeOf sha256 token_key lib rec max_ttl actor "add" e.db
          (create_admin_grant actor g now e).0
          (create_admin_grant actor g now e).1.db
  create-ChangeOf actor g now e = record {
    done = λ out q.
        let (same, rows, fresh, audits) = (create_admin_grant-audited actor g now e).0 out q in
        (_, audits, refl, refl, refl, refl);
    undone = (create_admin_grant-audited actor g now e).1;
  }

  extend-ChangeOf :
      (actor : String) (id expire_at now now' : ℕ) (e : Env)
      → ChangeOf sha256 token_key lib rec max_ttl actor "extend" e.db
          (extend_admin_grant actor id expire_at now now' e).0
          (extend_admin_grant actor id expire_at now now' e).1.db
  extend-ChangeOf actor id expire_at now now' e = record {
    done = λ out q.
        let (g, found, same, all, others, audits) =
          (extend_admin_grant-audited actor id expire_at now now' e).0 out q in
        (_, audits, refl, refl, refl, refl);
    undone = (extend_admin_grant-audited actor id expire_at now now' e).1;
  }

  revoke-ChangeOf :
      (actor : String) (id now now' : ℕ) (e : Env)
      → ChangeOf sha256 token_key lib rec max_ttl actor "revoke" e.db
          (revoke_admin_grant actor id now now' e).0
          (revoke_admin_grant actor id now now' e).1.db
  revoke-ChangeOf actor id now now' e = record {
    done = λ out q.
        let (g, found, same, all, others, audits) =
          (revoke_admin_grant-audited actor id now now' e).0 out q in
        (_, audits, refl, refl, refl, refl);
    undone = (revoke_admin_grant-audited actor id now now' e).1;
  }

  add_lasting-Handled :
      (laws : KeepsAudits rec) (r : ChangeRequest) (s : Session) (f : ChangeForm) (ip : String)
      (clock : ℕ → ℕ) (w : Place sha256 token_key lib rec max_ttl) (c : Console)
      (lifetime : Lifetime sha256 token_key lib)
      → Entitled sha256 token_key lib rec max_ttl r (clock 0) w.console s f
      → normalized_ip sha256 token_key lib f.ip ≡ some ip
      → parse_ttl sha256 token_key lib max_ttl f.ttl ≡ lifetime
      → let w₁ : Place sha256 token_key lib rec max_ttl = record w { console = c } in
        Handled sha256 token_key lib rec max_ttl
          (Adds sha256 token_key lib rec max_ttl clock w)
          "add"
          "授权已记录并同步"
          r
          (clock 0)
          w
          (add_lasting sha256 token_key lib rec max_ttl r s
            (lib.trim f.subject_id)
            (lib.trim f.subject_name)
            ip
            lifetime
            clock
            w₁).0
          (add_lasting sha256 token_key lib rec max_ttl r s
            (lib.trim f.subject_id)
            (lib.trim f.subject_name)
            ip
            lifetime
            clock
            w₁).1
  add_lasting-Handled laws r s f ip clock w c not_a_duration entitled shown lasting = (refl, refl)
  add_lasting-Handled laws r s f ip clock w c too_long entitled shown lasting = (refl, refl)
  add_lasting-Handled laws r s f ip clock w c (lasts ttl) entitled shown lasting =
      with_mutation-Handled sha256 token_key lib rec max_ttl laws
        (Adds sha256 token_key lib rec max_ttl clock w) "add" "授权已记录并同步" r (clock 0) s f w c _ _
        entitled
        (create-ChangeOf s.actor
          (web_grant sha256 token_key lib rec max_ttl (lib.trim f.subject_id)
            (lib.trim f.subject_name) ip ttl (clock 1))
          (clock 2) w.env)
        (ip, ttl, shown, lasting, refl)

  add_for-Handled :
      (laws : KeepsAudits rec) (r : ChangeRequest) (s : Session) (f : ChangeForm) (clock : ℕ → ℕ)
      (w : Place sha256 token_key lib rec max_ttl) (c : Console) (ip : Option String)
      → Entitled sha256 token_key lib rec max_ttl r (clock 0) w.console s f
      → normalized_ip sha256 token_key lib f.ip ≡ ip
      → let w₁ : Place sha256 token_key lib rec max_ttl = record w { console = c } in
        Handled sha256 token_key lib rec max_ttl
          (Adds sha256 token_key lib rec max_ttl clock w)
          "add"
          "授权已记录并同步"
          r
          (clock 0)
          w
          (add_for sha256 token_key lib rec max_ttl r s f ip clock w₁).0
          (add_for sha256 token_key lib rec max_ttl r s f ip clock w₁).1
  add_for-Handled laws r s f clock w c none entitled shown = (refl, refl)
  add_for-Handled laws r s f clock w c (some ip) entitled shown =
      let id = lib.trim f.subject_id in
      let name = lib.trim f.subject_name in
      elim (Bool-cases (
        not (valid_label sha256 token_key lib id 128)
        || not (valid_label sha256 token_key lib name 128))) [
          | inl bad ↦ rw bad (refl, refl)
          | inr good ↦ rw good (
              add_lasting-Handled laws r s f ip clock w c
                (parse_ttl sha256 token_key lib max_ttl f.ttl) entitled shown refl)
        ]

  add_guarded-Handled :
      (laws : KeepsAudits rec) (r : ChangeRequest) (clock : ℕ → ℕ)
      (w : Place sha256 token_key lib rec max_ttl) (c : Console) (guard : Guard)
      → ((s : Session) (f : ChangeForm)
          → guard ≡ allowed s f
          → Entitled sha256 token_key lib rec max_ttl r (clock 0) w.console s f)
      → let w₁ : Place sha256 token_key lib rec max_ttl = record w { console = c } in
        Handled sha256 token_key lib rec max_ttl
          (Adds sha256 token_key lib rec max_ttl clock w)
          "add"
          "授权已记录并同步"
          r
          (clock 0)
          w
          (add_guarded sha256 token_key lib rec max_ttl r guard clock w₁).0
          (add_guarded sha256 token_key lib rec max_ttl r guard clock w₁).1
  add_guarded-Handled laws r clock w c (refused x) entitled = (refl, refl)
  add_guarded-Handled laws r clock w c (allowed s f) entitled =
      add_for-Handled laws r s f clock w c (normalized_ip sha256 token_key lib f.ip)
        (entitled s f refl) refl

  path_grant-positive :
      (o : Option ℕ) (id : ℕ)
      → path_grant sha256 token_key lib rec max_ttl o ≡ some id
      → (o ≡ some id) × (0 < id)
  path_grant-positive none id h = cc h
  path_grant-positive (some n) id h = elim (Bool-cases (eqb n 0)) [
    | inl nought ↦ cc (rw nought at h)
    | inr other ↦
        let same : n ≡ id = cc (rw other at h) in
        (ap some same, subst (λ k. 0 < k) same (ground (arith, other)))
  ]

  extend_lasting-Handled :
      (laws : KeepsAudits rec) (r : ChangeRequest) (s : Session) (f : ChangeForm) (id : ℕ)
      (clock : ℕ → ℕ) (w : Place sha256 token_key lib rec max_ttl) (c : Console)
      (lifetime : Lifetime sha256 token_key lib)
      → Entitled sha256 token_key lib rec max_ttl r (clock 0) w.console s f
      → lib.parse_int r.path_id ≡ some id
      → 0 < id
      → parse_ttl sha256 token_key lib max_ttl f.ttl ≡ lifetime
      → let w₁ : Place sha256 token_key lib rec max_ttl = record w { console = c } in
        Handled sha256 token_key lib rec max_ttl
          (Extends sha256 token_key lib rec max_ttl r clock w)
          "extend"
          "授权已延期并同步"
          r
          (clock 0)
          w
          (extend_lasting sha256 token_key lib rec max_ttl r s id lifetime clock w₁).0
          (extend_lasting sha256 token_key lib rec max_ttl r s id lifetime clock w₁).1
  extend_lasting-Handled laws r s f id clock w c not_a_duration entitled read positive lasting =
      (refl, refl)
  extend_lasting-Handled laws r s f id clock w c too_long entitled read positive lasting =
      (refl, refl)
  extend_lasting-Handled laws r s f id clock w c (lasts ttl) entitled read positive lasting =
      with_mutation-Handled sha256 token_key lib rec max_ttl laws
        (Extends sha256 token_key lib rec max_ttl r clock w) "extend" "授权已延期并同步" r (clock 0) s f w c
        _ _ entitled (extend-ChangeOf s.actor id (clock 1 + ttl) (clock 2) (clock 3) w.env)
        (id, ttl, read, positive, lasting, refl)

  extend_for-Handled :
      (laws : KeepsAudits rec) (r : ChangeRequest) (s : Session) (f : ChangeForm) (clock : ℕ → ℕ)
      (w : Place sha256 token_key lib rec max_ttl) (c : Console) (id : Option ℕ)
      → Entitled sha256 token_key lib rec max_ttl r (clock 0) w.console s f
      → path_grant sha256 token_key lib rec max_ttl (lib.parse_int r.path_id) ≡ id
      → let w₁ : Place sha256 token_key lib rec max_ttl = record w { console = c } in
        Handled sha256 token_key lib rec max_ttl
          (Extends sha256 token_key lib rec max_ttl r clock w)
          "extend"
          "授权已延期并同步"
          r
          (clock 0)
          w
          (extend_for sha256 token_key lib rec max_ttl r s f id clock w₁).0
          (extend_for sha256 token_key lib rec max_ttl r s f id clock w₁).1
  extend_for-Handled laws r s f clock w c none entitled read = (refl, refl)
  extend_for-Handled laws r s f clock w c (some id) entitled read =
      extend_lasting-Handled laws r s f id clock w c (parse_ttl sha256 token_key lib max_ttl f.ttl)
        entitled (path_grant-positive (lib.parse_int r.path_id) id read).0
        (path_grant-positive (lib.parse_int r.path_id) id read).1 refl

  extend_guarded-Handled :
      (laws : KeepsAudits rec) (r : ChangeRequest) (clock : ℕ → ℕ)
      (w : Place sha256 token_key lib rec max_ttl) (c : Console) (guard : Guard)
      → ((s : Session) (f : ChangeForm)
          → guard ≡ allowed s f
          → Entitled sha256 token_key lib rec max_ttl r (clock 0) w.console s f)
      → let w₁ : Place sha256 token_key lib rec max_ttl = record w { console = c } in
        Handled sha256 token_key lib rec max_ttl
          (Extends sha256 token_key lib rec max_ttl r clock w)
          "extend"
          "授权已延期并同步"
          r
          (clock 0)
          w
          (extend_guarded sha256 token_key lib rec max_ttl r guard clock w₁).0
          (extend_guarded sha256 token_key lib rec max_ttl r guard clock w₁).1
  extend_guarded-Handled laws r clock w c (refused x) entitled = (refl, refl)
  extend_guarded-Handled laws r clock w c (allowed s f) entitled =
      extend_for-Handled laws r s f clock w c
        (path_grant sha256 token_key lib rec max_ttl (lib.parse_int r.path_id)) (entitled s f refl)
        refl

  revoke_for-Handled :
      (laws : KeepsAudits rec) (r : ChangeRequest) (s : Session) (f : ChangeForm) (clock : ℕ → ℕ)
      (w : Place sha256 token_key lib rec max_ttl) (c : Console) (id : Option ℕ)
      → Entitled sha256 token_key lib rec max_ttl r (clock 0) w.console s f
      → path_grant sha256 token_key lib rec max_ttl (lib.parse_int r.path_id) ≡ id
      → let w₁ : Place sha256 token_key lib rec max_ttl = record w { console = c } in
        Handled sha256 token_key lib rec max_ttl
          (Revokes sha256 token_key lib rec max_ttl r clock w)
          "revoke"
          "授权已撤销并同步"
          r
          (clock 0)
          w
          (revoke_for sha256 token_key lib rec max_ttl r s id clock w₁).0
          (revoke_for sha256 token_key lib rec max_ttl r s id clock w₁).1
  revoke_for-Handled laws r s f clock w c none entitled read = (refl, refl)
  revoke_for-Handled laws r s f clock w c (some id) entitled read =
      with_mutation-Handled sha256 token_key lib rec max_ttl laws
        (Revokes sha256 token_key lib rec max_ttl r clock w) "revoke" "授权已撤销并同步" r (clock 0) s f w c
        _ _ entitled (revoke-ChangeOf s.actor id (clock 2) (clock 3) w.env)
        (
          id,
          (path_grant-positive (lib.parse_int r.path_id) id read).0,
          (path_grant-positive (lib.parse_int r.path_id) id read).1,
          refl,
        )

  revoke_guarded-Handled :
      (laws : KeepsAudits rec) (r : ChangeRequest) (clock : ℕ → ℕ)
      (w : Place sha256 token_key lib rec max_ttl) (c : Console) (guard : Guard)
      → ((s : Session) (f : ChangeForm)
          → guard ≡ allowed s f
          → Entitled sha256 token_key lib rec max_ttl r (clock 0) w.console s f)
      → let w₁ : Place sha256 token_key lib rec max_ttl = record w { console = c } in
        Handled sha256 token_key lib rec max_ttl
          (Revokes sha256 token_key lib rec max_ttl r clock w)
          "revoke"
          "授权已撤销并同步"
          r
          (clock 0)
          w
          (revoke_guarded sha256 token_key lib rec max_ttl r guard clock w₁).0
          (revoke_guarded sha256 token_key lib rec max_ttl r guard clock w₁).1
  revoke_guarded-Handled laws r clock w c (refused x) entitled = (refl, refl)
  revoke_guarded-Handled laws r clock w c (allowed s f) entitled =
      revoke_for-Handled laws r s f clock w c
        (path_grant sha256 token_key lib rec max_ttl (lib.parse_int r.path_id)) (entitled s f refl)
        refl

  -- Whatever the request to add, extend or revoke a grant: if it is answered with a notice, it carried the
  -- cookie of a live session and its CSRF token; the store's call for the grant of the form, or of the
  -- path, succeeded; one audit record was appended, which names the user of the session and the change;
  -- the reconciler ran on what that call left, and the notice says how it ended; and the record has the
  -- result and the detail of that run, or is as it was appended if the statement that writes them failed.
  -- With any other answer no table has changed, and the reconciler was not called. The reconciler is one
  -- that leaves the audit records alone.
  pub changes-Handled :
      (laws : KeepsAudits rec) (r : ChangeRequest) (clock : ℕ → ℕ)
      (w : Place sha256 token_key lib rec max_ttl)
      → let added = add_grant sha256 token_key lib rec max_ttl r clock w in
        let extended = extend_grant sha256 token_key lib rec max_ttl r clock w in
        let revoked = revoke_grant sha256 token_key lib rec max_ttl r clock w in
        Handled sha256 token_key lib rec max_ttl
          (Adds sha256 token_key lib rec max_ttl clock w)
          "add"
          "授权已记录并同步"
          r
          (clock 0)
          w
          added.0
          added.1
        × Handled sha256 token_key lib rec max_ttl
            (Extends sha256 token_key lib rec max_ttl r clock w)
            "extend"
            "授权已延期并同步"
            r
            (clock 0)
            w
            extended.0
            extended.1
        × Handled sha256 token_key lib rec max_ttl
            (Revokes sha256 token_key lib rec max_ttl r clock w)
            "revoke"
            "授权已撤销并同步"
            r
            (clock 0)
            w
            revoked.0
            revoked.1
  unfolding add_grant extend_grant revoke_grant
  changes-Handled laws r clock w =
      let (guard, c) = require_mutation sha256 token_key lib r (clock 0) w.console in
      let entitled : (s : Session) (f : ChangeForm)
          → guard ≡ allowed s f
          → Entitled sha256 token_key lib rec max_ttl r (clock 0) w.console s f =
        λ s f q.
          guard_lem sha256 token_key lib rec max_ttl r r.session_cookie (clock 0) w.console s f refl
            q in
      (
        add_guarded-Handled laws r clock w c guard entitled,
        extend_guarded-Handled laws r clock w c guard entitled,
        revoke_guarded-Handled laws r clock w c guard entitled,
      )
