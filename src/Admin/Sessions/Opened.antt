-- ===== src/Admin/Sessions/Opened.antt =====
-- When a login of admin/admin.go opens a session.
use frps_gateway.Base.{
  ℕ, ◌+◌, ◌<◌, String, ◌≡◌, refl, Option, none, some, arith, leb, length, inl, inr, Bool-cases,
  ◌==◌, eq_iff, ◌∙◌,
}
use frps_gateway.Admin.Knock.{store_at}
use frps_gateway.Admin.Sessions.{
  Session, Console, LoginForm, LoginRequest, LoginAnswer, logged_in, Draw, AdminConfig,
  recent_failures, keep_recent, prune_sessions, failure_key, forget_gate, open_session,
  check_credentials, try_login, on_form, login,
}

module _ (sha256 token_key trim : String → String) (split_host : String → Option String)
    (config : AdminConfig) where
  -- The session that a login opens.
  abbrev pub new_session : LoginForm → String → ℕ → Session
  new_session f csrf now = record {
    actor = trim f.username;
    csrf = csrf;
    expires_at = now + config.session_ttl;
  }

  -- What a login has checked before it opens a session.
  abbrev pub Checked : LoginRequest → LoginForm → String → Draw → Console → Type 0
  Checked r f nonce d c =
      (r.form ≡ some f)
      × (r.login_cookie ≡ some nonce)
      × (sha256 nonce ≡ sha256 f.login_nonce)
      × (sha256 (trim f.username) ≡ sha256 config.user)
      × (sha256 f.password ≡ sha256 config.password)
      × (length
            (recent_failures (failure_key sha256 token_key trim split_host config r f) d.checked c)
          < 5)

  -- What an answer says of the request and of the sessions before and after.
  abbrev pub OpenedAs : LoginRequest → Draw → Console → LoginAnswer → Console → Type 0
  OpenedAs r d c (logged_in token) c' =
      (f : LoginForm) × (nonce : String) × (csrf : String) × Checked r f nonce d c
      × (d.token ≡ some token)
      × (d.csrf ≡ some csrf)
      × (c'.sessions
          ≡ store_at (token_key token) (new_session f csrf d.opened)
              (prune_sessions d.pruned c.sessions))
  OpenedAs r d c _ c' = c'.sessions ≡ c.sessions

  forget_gate-sessions :
      (cookie : Option String) (c : Console)
      → (forget_gate sha256 token_key trim split_host config cookie c).sessions ≡ c.sessions
  forget_gate-sessions cookie c = elim (Bool-cases (config.knock.secret == "")) [
    | inl off ↦ rw off refl
    | inr on ↦ rw on refl
  ]

  open_session-Opened :
      (r : LoginRequest) (f : LoginForm) (nonce : String) (d : Draw) (token csrf : Option String)
      (c c' : Console)
      → c'.sessions ≡ c.sessions
      → Checked r f nonce d c
      → d.token ≡ token
      → d.csrf ≡ csrf
      → OpenedAs r d c
          (open_session sha256 token_key trim split_host config r f d token c').0
          (open_session sha256 token_key trim split_host config r f d token c').1
  open_session-Opened r f nonce d none csrf c c' same checked q q' = same
  open_session-Opened r f nonce d (some token) none c c' same checked q q' = rw q' same
  open_session-Opened r f nonce d (some token) (some csrf) c c' same checked q q' =
      rw q' (f, nonce, csrf, checked, q, refl, forget_gate-sessions r.gate_cookie _ ∙ rw same refl)

  check_credentials-Opened :
      (r : LoginRequest) (f : LoginForm) (nonce : String) (d : Draw) (c c' : Console)
      → c'.sessions ≡ c.sessions
      → r.form ≡ some f
      → r.login_cookie ≡ some nonce
      → sha256 nonce ≡ sha256 f.login_nonce
      → length
          (recent_failures (failure_key sha256 token_key trim split_host config r f) d.checked c)
        < 5
      → OpenedAs r d c
          (check_credentials sha256 token_key trim split_host config r f nonce d c').0
          (check_credentials sha256 token_key trim split_host config r f nonce d c').1
  check_credentials-Opened r f nonce d c c' same form cookie nonces few =
      elim (Bool-cases (sha256 (trim f.username) == sha256 config.user)) [
        | inr wrong ↦ rw wrong same
        | inl user ↦ elim (Bool-cases (sha256 f.password == sha256 config.password)) [
          | inr wrong ↦ rw (user, wrong) same
          | inl password ↦
              rw (user, password)
                (open_session-Opened r f nonce d d.token d.csrf c _ same
                  (
                    form,
                    cookie,
                    nonces,
                    (eq_iff (sha256 (trim f.username)) (sha256 config.user)).0 user,
                    (eq_iff (sha256 f.password) (sha256 config.password)).0 password,
                    few,
                  )
                  refl refl)
        ]
      ]

  try_login-Opened :
      (r : LoginRequest) (f : LoginForm) (nonce : String) (d : Draw) (c : Console)
      → r.form ≡ some f
      → r.login_cookie ≡ some nonce
      → sha256 nonce ≡ sha256 f.login_nonce
      → OpenedAs r d c
          (try_login sha256 token_key trim split_host config r f nonce d c).0
          (try_login sha256 token_key trim split_host config r f nonce d c).1
  try_login-Opened r f nonce d c form cookie nonces =
      let key = failure_key sha256 token_key trim split_host config r f in
      elim (Bool-cases (leb 5 (length (recent_failures key d.checked c)))) [
        | inl many ↦ rw many refl
        | inr few ↦ rw few (
            check_credentials-Opened r f nonce d c (keep_recent key d.checked c) refl form cookie
              nonces (ground (arith, few)))
      ]

  on_form-Opened :
      (r : LoginRequest) (form : Option LoginForm) (cookie : Option String) (d : Draw) (c : Console)
      → r.form ≡ form
      → r.login_cookie ≡ cookie
      → OpenedAs r d c
          (on_form sha256 token_key trim split_host config r form cookie d c).0
          (on_form sha256 token_key trim split_host config r form cookie d c).1
  on_form-Opened r none cookie d c q q' = refl
  on_form-Opened r (some f) none d c q q' = refl
  on_form-Opened r (some f) (some nonce) d c q q' =
      elim (Bool-cases (sha256 nonce == sha256 f.login_nonce)) [
        | inl same ↦ rw same (
            try_login-Opened r f nonce d c q q'
              ((eq_iff (sha256 nonce) (sha256 f.login_nonce)).0 same))
        | inr other ↦ rw other refl
      ]

  -- A login opens a session, and then exactly one, under the digest of its token, only for a form with the
  -- nonce of the cookie and the configured credentials, equal under SHA-256, when the key of the request
  -- has fewer than five failures of the last ten minutes; otherwise the sessions are as they were.
  pub login-Opened :
      (r : LoginRequest) (d : Draw) (c : Console)
      → OpenedAs r d c
          (login sha256 token_key trim split_host config r d c).0
          (login sha256 token_key trim split_host config r d c).1
  unfolding login
  login-Opened r d c = on_form-Opened r r.form r.login_cookie d c refl refl
