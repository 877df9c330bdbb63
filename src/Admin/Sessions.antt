-- ===== src/Admin/Sessions.antt =====
-- admin/admin.go: the login of the console, its failures and its sessions. A request that has no cookie
-- of a name has none; `trim` is strings.TrimSpace, and `split_host` the host of net.SplitHostPort.
pub mod Blocked
pub mod Opened
mod Tests
use frps_gateway.Base.{
  ℕ, suc, ◌+◌, ◌-◌, ◌*◌, ◌/◌, String, ◌<>◌, Bool, true, false, ◌&&◌, ◌||◌, not, Option, none, some,
  List, [], ◌∷◌, ◌++◌, leb, ltb, ◌==◌, if◌then◌else◌, length, select, minute, second,
}
use text.Mathlib.Text.{starts_with}
use frps_gateway.Admin.Knock.{
  KnockConfig, Gates, lookup, store_at, delete_at, constant_equal, has_gate, consume_gate,
}

-- session
pub record Session : Type 0 where
  pub actor : String
  pub csrf : String
  pub expires_at : ℕ

-- The fields of Handler that requests change.
pub record Console : Type 0 where
  pub sessions : List (String × Session)
  pub failures : List (String × List ℕ)
  pub gates : Gates

pub record LoginForm : Type 0 where
  pub login_nonce : String
  pub username : String
  pub password : String

-- A request for the login; its form is none if it does not parse.
pub record LoginRequest : Type 0 where
  pub form : Option LoginForm
  pub login_cookie : Option String
  pub gate_cookie : Option String
  pub remote_addr : String

-- The answers of `login`; a refusal for too many failures has its Retry-After.
pub data LoginAnswer : Type 0 where
  bad_form page_expired login_error : LoginAnswer
  too_many : ℕ → LoginAnswer
  wrong_credentials : String → LoginAnswer
  logged_in : String → LoginAnswer

-- What a login reads of the world: the time, five times over, and its random tokens.
pub record Draw : Type 0 where
  pub checked : ℕ
  pub retried : ℕ
  pub failed_at : ℕ
  pub pruned : ℕ
  pub opened : ℕ
  pub token : Option String
  pub csrf : Option String

pub record AdminConfig : Type 0 where
  pub user : String
  pub password : String
  pub session_ttl : ℕ
  pub knock : KnockConfig

abbrev pub failure_window : ℕ
failure_window = 10 * minute

-- t.After(now - 10 minutes)
abbrev pub is_recent : ℕ → ℕ → Bool
is_recent now t = ltb now (t + failure_window)

abbrev pub or_empty : Option (List ℕ) → List ℕ
or_empty none = []
or_empty (some ts) = ts

-- h.failures[key], nil if there is none
abbrev pub failures_of : String → List (String × List ℕ) → List ℕ
failures_of key m = or_empty (lookup key m)

-- loginBlocked: the failures that count, which it keeps
abbrev pub recent_failures : String → ℕ → Console → List ℕ
recent_failures key now c = select (is_recent now) (failures_of key c.failures)

abbrev pub keep_recent : String → ℕ → Console → Console
keep_recent key now c = record c { failures = store_at key (recent_failures key now c) c.failures }

abbrev pub first_or_zero : List ℕ → ℕ
first_or_zero [] = 0
first_or_zero (t ∷ ts) = t

-- The Retry-After of a refusal, at least 1.
abbrev pub retry_after : List ℕ → ℕ → ℕ
retry_after ts now = suc ((first_or_zero ts + failure_window - now) / second)

-- recordFailure
abbrev pub record_failure : String → ℕ → Console → Console
record_failure key now c = record c {
  failures = store_at key (failures_of key c.failures ++ now ∷ []) c.failures;
}

-- clearFailures
abbrev pub clear_failures : String → Console → Console
clear_failures key c = record c { failures = delete_at key c.failures }

-- pruneSessionsLocked
abbrev pub prune_sessions : ℕ → List (String × Session) → List (String × Session)
prune_sessions now m = select (λ e. ltb now e.1.expires_at) m

module _ (token_key : String → String) where
  abbrev pub live : Option Session → ℕ → Option Session
  live none now = none
  live (some s) now = if ltb now s.expires_at then some s else none

  -- currentSession, with the value of the session cookie
  unfoldable pub current_session : Option String → ℕ → Console → Option Session × Console
  current_session none now c = (none, c)
  current_session (some token) now c =
      let sessions = prune_sessions now c.sessions in
      (live (lookup (token_key token) sessions) now, record c { sessions = sessions })

module _ (sha256 token_key trim : String → String) (split_host : String → Option String)
    (config : AdminConfig) where
  abbrev pub same_text : String → String → Bool
  same_text a b = constant_equal sha256 token_key config.knock a b

  -- remoteHost
  abbrev pub remote_host : String → String
  remote_host addr = elim (split_host addr) [ none ↦ addr | some host ↦ host ]

  -- key := remoteHost(r.RemoteAddr) + "\x00" + username
  abbrev pub failure_key : LoginRequest → LoginForm → String
  failure_key r f = remote_host r.remote_addr <> ("\0" <> trim f.username)

  abbrev pub forget_gate : Option String → Console → Console
  forget_gate cookie c =
      if config.knock.secret == ""
      then c
      else record c { gates = consume_gate sha256 token_key config.knock cookie c.gates }

  -- From the second `randomToken` on.
  abbrev pub open_with :
      LoginRequest → LoginForm → Draw → String → Option String → Console → LoginAnswer × Console
  open_with r f d token none c = (login_error, c)
  open_with r f d token (some csrf) c =
      let s : Session = record {
        actor = trim f.username;
        csrf = csrf;
        expires_at = d.opened + config.session_ttl;
      } in
      (
        logged_in token,
        forget_gate r.gate_cookie (record c {
          sessions = store_at (token_key token) s (prune_sessions d.pruned c.sessions);
        }),
      )

  abbrev pub open_session :
      LoginRequest → LoginForm → Draw → Option String → Console → LoginAnswer × Console
  open_session r f d none c = (login_error, c)
  open_session r f d (some token) c = open_with r f d token d.csrf c

  -- From the comparison of the credentials on.
  abbrev pub check_credentials :
      LoginRequest → LoginForm → String → Draw → Console → LoginAnswer × Console
  check_credentials r f nonce d c =
      let key = failure_key r f in
      if same_text (trim f.username) config.user && same_text f.password config.password
      then open_session r f d d.token (clear_failures key c)
      else (wrong_credentials nonce, record_failure key d.failed_at c)

  -- From `loginBlocked` on.
  abbrev pub try_login : LoginRequest → LoginForm → String → Draw → Console → LoginAnswer × Console
  try_login r f nonce d c =
      let key = failure_key r f in
      let recent = recent_failures key d.checked c in
      let c' = keep_recent key d.checked c in
      if leb 5 (length recent)
      then (too_many (retry_after recent d.retried), c')
      else check_credentials r f nonce d c'

  abbrev pub on_form :
      LoginRequest → Option LoginForm → Option String → Draw → Console → LoginAnswer × Console
  on_form r none cookie d c = (bad_form, c)
  on_form r (some f) none d c = (page_expired, c)
  on_form r (some f) (some nonce) d c =
      if same_text nonce f.login_nonce then try_login r f nonce d c else (page_expired, c)

  -- login
  unfoldable pub login : LoginRequest → Draw → Console → LoginAnswer × Console
  login r d c = on_form r r.form r.login_cookie d c

  -- The gate in front of `ServeHTTP`: whether a request is passed on, or answered with a bare 404.
  abbrev pub pass_gate : Option Session → Option String → ℕ → Console → Bool × Console
  pass_gate (some s) cookie now c = (true, c)
  pass_gate none cookie now c =
      let (passed, gates) = has_gate sha256 token_key config.knock cookie now c.gates in
      (passed, record c { gates = gates })

  unfoldable pub pass : String → Option String → Option String → ℕ → ℕ → Console → Bool × Console
  pass path session_cookie gate_cookie now now' c =
      let (s, c') = current_session token_key session_cookie now c in
      if config.knock.secret == "" || starts_with path "/admin/knock/"
      then (true, c)
      else pass_gate s gate_cookie now' c'
