-- ===== src/Admin/Changes/Handled.antt =====
-- What a request to change a grant leaves, in admin/admin.go, by its answer.
use frps_gateway.Base.{
  ℕ, ◌+◌, ◌<◌, String, ◌≡◌, refl, sym, subst, ◌∙◌, ap, true, false, ◌⊎◌, inl, inr, Option, none,
  some, List, [], ◌∷◌, ◌++◌, arith, Bool-cases, eqb, ltb, has, ◌==◌, eq_iff,
}
use frps_gateway.Store.Schema.{Db, AuditRow, GrantRecord}
use frps_gateway.Store.Sql.{
  Env, StoreError, grant_not_found, grant_inactive, Result, ok, err, next_fails,
}
use frps_gateway.Store.Admin.{create_admin_grant, extend_admin_grant, revoke_admin_grant}
use frps_gateway.Store.Admin.Marked.{Marked, set_admin_audit_result-Marked}
use frps_gateway.Store.Admin.Audited.{Audits}
use frps_gateway.Admin.Knock.{lookup}
use frps_gateway.Admin.Sessions.{Session, Console, prune_sessions, live, current_session}
use frps_gateway.Admin.Changes.{
  Reconciler, Library, ChangeForm, ChangeRequest, ChangeAnswer, notice, allowed, check_form,
  require_mutation, Desk, audit_outcome, notice_text, normalized_ip, parse_ttl, lasts, on_changed,
  with_mutation,
}

-- The reconciler leaves the audit records alone.
pub record KeepsAudits (rec : Reconciler) : Type 0 where
  pub audits : (e : Env) (o : rec.Outside) → (rec.reconcile e o).1.db.admin_audit ≡ e.db.admin_audit

abbrev pub result_text : Option String → String
result_text none = "synced"
result_text (some message) = "sync_failed"

abbrev pub detail_text : Option String → String
detail_text none = ""
detail_text (some message) = message

module _ (sha256 token_key : String → String) (lib : Library) (rec : Reconciler) (max_ttl : ℕ) where
  audit_outcome-Marked :
      (failure : Option String) (id : ℕ) (e : Env) (old : List AuditRow) (a : AuditRow)
      → e.db.admin_audit ≡ old ++ a ∷ []
      → has (λ (x : AuditRow). eqb x.id id) old ≡ false
      → a.id ≡ id
      → Marked
          (next_fails e.faults)
          old
          a
          (result_text failure)
          (detail_text failure)
          (audit_outcome sha256 token_key lib rec max_ttl failure id e).db.admin_audit
  audit_outcome-Marked none id e old a = set_admin_audit_result-Marked id "synced" "" e old a
  audit_outcome-Marked (some message) id e old a =
      set_admin_audit_result-Marked id "sync_failed" message e old a

  -- A change of the store under an actor and a name, with its audit record, or nothing.
  pub record ChangeOf (actor action : String) (d : Db) (changed : Result (GrantRecord × ℕ))
      (d' : Db) : Type 0 where
    pub done :
        (out : GrantRecord × ℕ)
        → changed ≡ ok out
        → (row : ℕ → AuditRow) × Audits row d out.1 d'
          × ((row out.1).id ≡ out.1)
          × ((row out.1).actor ≡ actor)
          × ((row out.1).action ≡ action)
          × ((row out.1).result ≡ "recorded")
    pub undone : (x : StoreError) → changed ≡ err x → d' ≡ d

  -- What a request needs to be let through: the cookie of a live session, and its CSRF token.
  abbrev pub Entitled : ChangeRequest → ℕ → Console → Session → ChangeForm → Type 0
  Entitled r now c s f =
      (token : String) × (r.session_cookie ≡ some token)
      × (lookup (token_key token) (prune_sessions now c.sessions) ≡ some s)
      × (now < s.expires_at)
      × (r.form ≡ some f)
      × (sha256 s.csrf ≡ sha256 f.csrf)

  abbrev pub Place : Type 0
  Place = Desk sha256 token_key lib rec max_ttl

  -- A call of the store, by the session and the form that ask for it: its result, and what it leaves.
  abbrev pub Called : Type 1
  Called = Session → ChangeForm → Result (GrantRecord × ℕ) × Env → Type 0

  -- addGrant: the grant of the form's subject, its address in normal form, and its time to live.
  abbrev pub Adds : (ℕ → ℕ) → Place → Called
  Adds clock w s f x =
      (ip : String) × (ttl : ℕ) × (normalized_ip sha256 token_key lib f.ip ≡ some ip)
      × (parse_ttl sha256 token_key lib max_ttl f.ttl ≡ lasts ttl)
      × (x
          ≡ create_admin_grant s.actor
              (record {
                open_id = lib.trim f.subject_id;
                operator_name = lib.trim f.subject_name;
                ip = ip;
                source = "admin_web";
                created_at = clock 1;
                expire_at = clock 1 + ttl;
              })
              (clock 2) w.env)

  -- extendGrant: the grant of the path, from now on.
  abbrev pub Extends : ChangeRequest → (ℕ → ℕ) → Place → Called
  Extends r clock w s f x =
      (id : ℕ) × (ttl : ℕ) × (lib.parse_int r.path_id ≡ some id)
      × (0 < id)
      × (parse_ttl sha256 token_key lib max_ttl f.ttl ≡ lasts ttl)
      × (x ≡ extend_admin_grant s.actor id (clock 1 + ttl) (clock 2) (clock 3) w.env)

  -- revokeGrant: the grant of the path.
  abbrev pub Revokes : ChangeRequest → (ℕ → ℕ) → Place → Called
  Revokes r clock w s f x =
      (id : ℕ) × (lib.parse_int r.path_id ≡ some id)
      × (0 < id)
      × (x ≡ revoke_admin_grant s.actor id (clock 2) (clock 3) w.env)

  -- What a notice says of the change: the store's call succeeded, the reconciler ran on what it left,
  -- and one audit record more is there, with the result and the detail of that run, unless the statement
  -- that writes them failed.
  abbrev pub Recorded :
      Called → String → String → Session → ChangeForm → Place → String → Place → Type 0
  Recorded call action success s f w text w' =
      (out : GrantRecord × ℕ) × (e : Env) × (a : AuditRow) × call s f (ok out, e)
      × (a.actor ≡ s.actor)
      × (a.action ≡ action)
      × (a.id ≡ out.1)
      × (e.db.admin_audit ≡ w.env.db.admin_audit ++ a ∷ [])
      × (let (failure, after, outside) = rec.reconcile e w.outside in
          (((next_fails after.faults ≡ true)
              × (w'.env.db.admin_audit ≡ w.env.db.admin_audit ++ a ∷ []))
            ⊎ ((next_fails after.faults ≡ false)
                × (w'.env.db.admin_audit
                    ≡ w.env.db.admin_audit
                      ++ record a { result = result_text failure; detail = detail_text failure }
                        ∷ [])))
          × (text ≡ notice_text sha256 token_key lib rec max_ttl failure success)
          × (w'.outside ≡ outside))

  abbrev pub Handled :
      Called → String → String → ChangeRequest → ℕ → Place → ChangeAnswer → Place → Type 0
  Handled call action success r now w (notice text) w' =
      (s : Session) × (f : ChangeForm) × Entitled r now w.console s f
      × Recorded call action success s f w text w'
  Handled call action success r now w _ w' = (w'.env.db ≡ w.env.db) × (w'.outside ≡ w.outside)

  live_lem :
      (o : Option Session) (now : ℕ) (s : Session)
      → live token_key o now ≡ some s
      → (o ≡ some s) × (now < s.expires_at)
  live_lem none now s h = cc h
  live_lem (some x) now s h = elim (Bool-cases (ltb now x.expires_at)) [
    | inl running ↦
        let same : x ≡ s = cc (rw running at h) in
        (ap some same, subst (λ (y : Session). now < y.expires_at) same (ground (arith, running)))
    | inr over ↦ cc (rw over at h)
  ]

  check_form_lem :
      (o : Option Session) (form : Option ChangeForm) (s : Session) (f : ChangeForm)
      → check_form sha256 token_key lib o form ≡ allowed s f
      → (o ≡ some s) × (form ≡ some f) × (sha256 s.csrf ≡ sha256 f.csrf)
  check_form_lem none form s f h = cc h
  check_form_lem (some x) none s f h = cc h
  check_form_lem (some x) (some g) s f h = elim (Bool-cases (sha256 x.csrf == sha256 g.csrf)) [
    | inl same ↦
        let left : x ≡ s = cc (rw same at h) in
        let right : g ≡ f = cc (rw same at h) in
        (
          ap some left,
          ap some right,
          ap (λ (y : Session). sha256 y.csrf) (sym left)
              ∙ (eq_iff (sha256 x.csrf) (sha256 g.csrf)).0 same
              ∙ ap (λ (y : ChangeForm). sha256 y.csrf) right,
        )
    | inr other ↦ cc (rw other at h)
  ]

  pub guard_lem :
      (r : ChangeRequest) (cookie : Option String) (now : ℕ) (c : Console) (s : Session)
      (f : ChangeForm)
      → r.session_cookie ≡ cookie
      → (require_mutation sha256 token_key lib r now c).0 ≡ allowed s f
      → Entitled r now c s f
  unfolding current_session
  guard_lem r none now c s f q h = cc (rw q at h)
  guard_lem r (some token) now c s f q h =
      let (found, form, same) = check_form_lem _ r.form s f (rw q at h) in
      let (there, running) =
        live_lem (lookup (token_key token) (prune_sessions now c.sessions)) now s found in
      (token, q, there, running, form, same)

  on_changed-Handled :
      (laws : KeepsAudits rec) (call : Called) (action success : String) (r : ChangeRequest)
      (now : ℕ) (s : Session) (f : ChangeForm) (w w₁ : Place) (changed : Result (GrantRecord × ℕ))
      → Entitled r now w.console s f
      → w₁.outside ≡ w.outside
      → ChangeOf s.actor action w.env.db changed w₁.env.db
      → call s f (changed, w₁.env)
      → Handled call action success r now w
          (on_changed sha256 token_key lib rec max_ttl success changed w₁).0
          (on_changed sha256 token_key lib rec max_ttl success changed w₁).1
  on_changed-Handled laws call action success r now s f w w₁ (ok (g, id)) entitled same change
        called =
      let (row, audits, row_id, actor, named, recorded) = change.done (g, id) refl in
      let (failure, after, outside) = rec.reconcile w₁.env w₁.outside in
      rw (← same) (
        s,
        f,
        entitled,
        (
          (g, id),
          w₁.env,
          row id,
          called,
          actor,
          named,
          row_id,
          audits.appended,
          (
            audit_outcome-Marked failure id after w.env.db.admin_audit (row id)
                (laws.audits w₁.env w₁.outside ∙ audits.appended) audits.fresh row_id,
            refl,
            refl,
          ),
        ),
      )
  on_changed-Handled laws call action success r now s f w w₁ (err grant_not_found) entitled same
        change called =
      (change.undone grant_not_found refl, same)
  on_changed-Handled laws call action success r now s f w w₁ (err grant_inactive) entitled same
        change called =
      (change.undone grant_inactive refl, same)
  on_changed-Handled laws call action success r now s f w w₁ (err x) entitled same change called =
      (change.undone x refl, same)

  pub with_mutation-Handled :
      (laws : KeepsAudits rec) (call : Called) (action success : String) (r : ChangeRequest)
      (now : ℕ) (s : Session) (f : ChangeForm) (w : Place) (c : Console)
      (changed : Result (GrantRecord × ℕ)) (e : Env)
      → Entitled r now w.console s f
      → ChangeOf s.actor action w.env.db changed e.db
      → call s f (changed, e)
      → let w₁ : Place = record w { console = c } in
        Handled call action success r now w
          (with_mutation sha256 token_key lib rec max_ttl r success (changed, e) w₁).0
          (with_mutation sha256 token_key lib rec max_ttl r success (changed, e) w₁).1
  with_mutation-Handled laws call action success r now s f w c changed e entitled change called =
      elim (Bool-cases r.cancelled) [
        | inl gone ↦ rw gone (refl, refl)
        | inr turn ↦ rw turn (
            on_changed-Handled laws call action success r now s f w
              (record w { console = c; env = e }) changed entitled refl change called)
      ]
