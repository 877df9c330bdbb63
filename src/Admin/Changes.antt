-- ===== src/Admin/Changes.antt =====
-- admin/admin.go: the handlers that change grants, and logout. The packages net/netip, unicode and
-- strconv are parameters; `clock n` is the n-th reading of the time in a request. The reconciler is the
-- interface of the console: what it works on, and its call, which returns no text for a nil error.
pub mod Handled
pub mod Answered
mod Tests
pub mod Reconciling
use Prim.Native.Char.{Char, code}
use Prim.Native.String
use frps_gateway.Base.{
  ℕ, ◌+◌, String, ◌<>◌, ◌==◌, Bool, true, false, not, ◌&&◌, ◌||◌, Option, none, some, List, [], ◌∷◌,
  eqb, ltb, if◌then◌else◌,
}
use frps_gateway.Store.Schema.{Grant, GrantRecord}
use frps_gateway.Store.Sql.{Env, StoreError, grant_not_found, grant_inactive, Result, ok, err}
use frps_gateway.Store.Admin.{
  create_admin_grant, extend_admin_grant, revoke_admin_grant, set_admin_audit_result,
}
use frps_gateway.Duration.Parse.{Floats, Parsed, parsed, invalid, is_positive}
use frps_gateway.Duration.Parse
use frps_gateway.Admin.Knock.{delete_at}
use frps_gateway.Admin.Sessions.{Session, Console, current_session}

-- Reconciler
pub record Reconciler : Type 1 where
  pub Outside : Type 0
  pub reconcile : Env → Outside → Option String × Env × Outside

-- What the handlers use of other packages. A negative number is 0 for `parse_int`.
pub record Library : Type 1 where
  pub Addr : Type 0
  pub parse_addr : String → Option Addr
  pub show_unmapped : Addr → String
  pub is_global_unicast : Addr → Bool
  pub is_private : Addr → Bool
  pub is_loopback : Addr → Bool
  pub is_link_local_unicast : Addr → Bool
  pub is_multicast : Addr → Bool
  pub is_control : Char → Bool
  pub parse_int : String → Option ℕ
  pub trim : String → String
  pub lower : String → String
  pub floats : Floats

-- The values of a form that the handlers read.
pub record ChangeForm : Type 0 where
  pub csrf : String
  pub ip : String
  pub subject_id : String
  pub subject_name : String
  pub ttl : String

-- A request for a change; `cancelled` says that it was cancelled before its turn came.
pub record ChangeRequest : Type 0 where
  pub session_cookie : Option String
  pub form : Option ChangeForm
  pub path_id : String
  pub cancelled : Bool

-- Why `requireMutation` answers itself.
pub data Refusal : Type 0 where
  to_login bad_form csrf_failed : Refusal

pub data ChangeAnswer : Type 0 where
  turned_away : Refusal → ChangeAnswer
  bad_ip bad_subject bad_ttl ttl_over : ChangeAnswer
  no_grant inactive was_cancelled internal_error logged_out : ChangeAnswer
  notice : String → ChangeAnswer

-- What `requireMutation` finds.
pub data Guard : Type 0 where
  refused : Refusal → Guard
  allowed : Session → ChangeForm → Guard

-- len(v), of the UTF-8 of a text
abbrev pub bytes_of : Char → ℕ
bytes_of c =
    if ltb (code c) 128
    then 1
    else if ltb (code c) 2048
    then 2
    else if ltb (code c) 65536
    then 3
    else 4

abbrev pub byte_length : String → ℕ
byte_length String.[] = 0
byte_length (String.◌∷◌ c s) = bytes_of c + byte_length s

module _ (sha256 token_key : String → String) (lib : Library) where
  abbrev pub any_control : String → Bool
  any_control String.[] = false
  any_control (String.◌∷◌ c s) = lib.is_control c || any_control s

  -- validLabel
  abbrev pub valid_label : String → ℕ → Bool
  valid_label v max = not (v == "" || ltb max (byte_length v)) && not (any_control v)

  abbrev pub public_text : Option lib.Addr → Option String
  public_text none = none
  public_text (some a) =
      if not (lib.is_global_unicast a)
        || lib.is_private a
        || lib.is_loopback a
        || lib.is_link_local_unicast a
        || lib.is_multicast a
      then none
      else some (lib.show_unmapped a)

  -- normalizedIP
  abbrev pub normalized_ip : String → Option String
  normalized_ip raw = public_text (lib.parse_addr (lib.trim raw))

  pub data Lifetime : Type 0 where
    lasts : ℕ → Lifetime
    not_a_duration too_long : Lifetime

  abbrev pub limited : ℕ → Parsed → Lifetime
  limited max (invalid x) = not_a_duration
  limited max (parsed t) =
      if not (is_positive t) then not_a_duration else if ltb max t then too_long else lasts t

  -- parseTTL
  abbrev pub parse_ttl : ℕ → String → Lifetime
  parse_ttl max raw = limited max (Parse.parse lib.floats lib.trim lib.lower (lib.trim raw))

  -- The rest of `requireMutation`, after `requireSession`.
  abbrev pub check_form : Option Session → Option ChangeForm → Guard
  check_form none form = refused to_login
  check_form (some s) none = refused bad_form
  check_form (some s) (some f) =
      if sha256 s.csrf == sha256 f.csrf then allowed s f else refused csrf_failed

  -- requireMutation
  abbrev pub require_mutation : ChangeRequest → ℕ → Console → Guard × Console
  require_mutation r now c =
      let (s, c') = current_session token_key r.session_cookie now c in (check_form s r.form, c')

  abbrev pub drop_session : Option String → Console → Console
  drop_session none c = c
  drop_session (some token) c = record c { sessions = delete_at (token_key token) c.sessions }

  abbrev pub on_logout : ChangeRequest → Guard → Console → ChangeAnswer × Console
  on_logout r (refused x) c = (turned_away x, c)
  on_logout r (allowed s f) c = (logged_out, drop_session r.session_cookie c)

  -- logout
  unfoldable pub logout : ChangeRequest → ℕ → Console → ChangeAnswer × Console
  logout r now c = let (guard, c') = require_mutation r now c in on_logout r guard c'

  module _ (rec : Reconciler) (max_ttl : ℕ) where
    -- What the handlers change.
    pub record Desk : Type 0 where
      pub console : Console
      pub env : Env
      pub outside : rec.Outside

    abbrev pub audit_outcome : Option String → ℕ → Env → Env
    audit_outcome none id e = (set_admin_audit_result id "synced" "" e).1
    audit_outcome (some message) id e = (set_admin_audit_result id "sync_failed" message e).1

    abbrev pub notice_text : Option String → String → String
    notice_text none success = success
    notice_text (some message) success = "授权变更已记录，frps 同步失败；后台会自动重试"

    -- reconcileAudit, which fails to write the result only in the log
    abbrev pub reconcile_audit : ℕ → String → Desk → ChangeAnswer × Desk
    reconcile_audit id success w =
        let (failure, e, o) = rec.reconcile w.env w.outside in
        (
          notice (notice_text failure success),
          record w { env = audit_outcome failure id e; outside = o },
        )

    -- The rest of the closure, and `withMutation` on what it returns.
    abbrev pub on_changed : String → Result (GrantRecord × ℕ) → Desk → ChangeAnswer × Desk
    on_changed success (ok (g, id)) w = reconcile_audit id success w
    on_changed success (err grant_not_found) w = (no_grant, w)
    on_changed success (err grant_inactive) w = (inactive, w)
    on_changed success (err x) w = (internal_error, w)

    -- withMutation, around the change of the store
    abbrev pub with_mutation :
        ChangeRequest → String → Result (GrantRecord × ℕ) × Env → Desk → ChangeAnswer × Desk
    with_mutation r success (changed, e) w =
        if r.cancelled
        then (was_cancelled, w)
        else on_changed success changed (record w { env = e })

    -- The grant that `addGrant` makes.
    abbrev pub web_grant : String → String → String → ℕ → ℕ → Grant
    web_grant id name ip ttl now = record {
      open_id = id;
      operator_name = name;
      ip = ip;
      source = "admin_web";
      created_at = now;
      expire_at = now + ttl;
    }

    abbrev pub add_lasting :
        ChangeRequest
        → Session
        → String
        → String
        → String
        → Lifetime
        → (ℕ → ℕ)
        → Desk
        → ChangeAnswer × Desk
    add_lasting r s id name ip not_a_duration clock w = (bad_ttl, w)
    add_lasting r s id name ip too_long clock w = (ttl_over, w)
    add_lasting r s id name ip (lasts ttl) clock w =
        with_mutation r "授权已记录并同步"
          (create_admin_grant s.actor (web_grant id name ip ttl (clock 1)) (clock 2) w.env) w

    abbrev pub add_for :
        ChangeRequest → Session → ChangeForm → Option String → (ℕ → ℕ) → Desk → ChangeAnswer × Desk
    add_for r s f none clock w = (bad_ip, w)
    add_for r s f (some ip) clock w =
        let id = lib.trim f.subject_id in
        let name = lib.trim f.subject_name in
        if not (valid_label id 128) || not (valid_label name 128)
        then (bad_subject, w)
        else add_lasting r s id name ip (parse_ttl max_ttl f.ttl) clock w

    abbrev pub add_guarded : ChangeRequest → Guard → (ℕ → ℕ) → Desk → ChangeAnswer × Desk
    add_guarded r (refused x) clock w = (turned_away x, w)
    add_guarded r (allowed s f) clock w = add_for r s f (normalized_ip f.ip) clock w

    -- addGrant
    unfoldable pub add_grant : ChangeRequest → (ℕ → ℕ) → Desk → ChangeAnswer × Desk
    add_grant r clock w =
        let (guard, c) = require_mutation r (clock 0) w.console in
        add_guarded r guard clock (record w { console = c })

    -- The identifier of the path, which must be positive.
    abbrev pub path_grant : Option ℕ → Option ℕ
    path_grant none = none
    path_grant (some id) = if eqb id 0 then none else some id

    abbrev pub extend_lasting :
        ChangeRequest → Session → ℕ → Lifetime → (ℕ → ℕ) → Desk → ChangeAnswer × Desk
    extend_lasting r s id not_a_duration clock w = (bad_ttl, w)
    extend_lasting r s id too_long clock w = (ttl_over, w)
    extend_lasting r s id (lasts ttl) clock w =
        with_mutation r "授权已延期并同步"
          (extend_admin_grant s.actor id (clock 1 + ttl) (clock 2) (clock 3) w.env) w

    abbrev pub extend_for :
        ChangeRequest → Session → ChangeForm → Option ℕ → (ℕ → ℕ) → Desk → ChangeAnswer × Desk
    extend_for r s f none clock w = (no_grant, w)
    extend_for r s f (some id) clock w = extend_lasting r s id (parse_ttl max_ttl f.ttl) clock w

    abbrev pub extend_guarded : ChangeRequest → Guard → (ℕ → ℕ) → Desk → ChangeAnswer × Desk
    extend_guarded r (refused x) clock w = (turned_away x, w)
    extend_guarded r (allowed s f) clock w =
        extend_for r s f (path_grant (lib.parse_int r.path_id)) clock w

    -- extendGrant
    unfoldable pub extend_grant : ChangeRequest → (ℕ → ℕ) → Desk → ChangeAnswer × Desk
    extend_grant r clock w =
        let (guard, c) = require_mutation r (clock 0) w.console in
        extend_guarded r guard clock (record w { console = c })

    abbrev pub revoke_for :
        ChangeRequest → Session → Option ℕ → (ℕ → ℕ) → Desk → ChangeAnswer × Desk
    revoke_for r s none clock w = (no_grant, w)
    revoke_for r s (some id) clock w =
        with_mutation r "授权已撤销并同步" (revoke_admin_grant s.actor id (clock 2) (clock 3) w.env) w

    abbrev pub revoke_guarded : ChangeRequest → Guard → (ℕ → ℕ) → Desk → ChangeAnswer × Desk
    revoke_guarded r (refused x) clock w = (turned_away x, w)
    revoke_guarded r (allowed s f) clock w =
        revoke_for r s (path_grant (lib.parse_int r.path_id)) clock w

    -- revokeGrant
    unfoldable pub revoke_grant : ChangeRequest → (ℕ → ℕ) → Desk → ChangeAnswer × Desk
    revoke_grant r clock w =
        let (guard, c) = require_mutation r (clock 0) w.console in
        revoke_guarded r guard clock (record w { console = c })
