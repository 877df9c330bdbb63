-- ===== src/Admin/Sessions/Blocked.antt =====
-- After five failures within ten minutes, admin/admin.go refuses a login, whatever its password.
use frps_gateway.Base.{
  ℕ, suc, ◌+◌, ◌≤◌, ◌<◌, String, ◌≡◌, ◌≢◌, refl, subst, ◌∙◌, ap, true, ◌&&◌, Option, none, some,
  List, [], ◌∷◌, ◌++◌, arith, leb, length, select, inl, inr, Bool-cases, ◌==◌, eq_iff, text_refl,
}
use frps_gateway.Admin.Knock.{lookup, store_at}
use frps_gateway.Admin.Sessions.{
  Console, LoginForm, LoginRequest, too_many, wrong_credentials, Draw, AdminConfig, failure_window,
  is_recent, failures_of, recent_failures, keep_recent, record_failure, retry_after, failure_key,
  open_session, check_credentials, try_login, login,
}

lookup-store_at :
    {V : Type 0} (key : String) (v : V) (m : List (String × V))
    → lookup key (store_at key v m) ≡ some v
lookup-store_at key v [] = rw (text_refl key) refl
lookup-store_at key v ((k, old) ∷ m) = elim (Bool-cases (k == key)) [
  | inl same ↦ rw (same, text_refl key) refl
  | inr other ↦ rw (other, other) (lookup-store_at key v m)
]

failures_of-store_at :
    (key : String) (ts : List ℕ) (m : List (String × List ℕ))
    → failures_of key (store_at key ts m) ≡ ts
failures_of-store_at key ts m = rw (lookup-store_at key ts m) refl

-- What is recent later is recent earlier.
recent-recent :
    (checked now : ℕ) (ts : List ℕ)
    → checked ≤ now
    → length (select (is_recent now) (select (is_recent checked) ts))
      ≡ length (select (is_recent now) ts)
recent-recent checked now [] h = refl
recent-recent checked now (t ∷ ts) h = ground (arith, h, recent-recent checked now ts h)

recent-append :
    (now t : ℕ) (ts : List ℕ)
    → now < t + failure_window
    → length (select (is_recent now) (ts ++ t ∷ [])) ≡ suc (length (select (is_recent now) ts))
recent-append now t [] h = ground (arith, h)
recent-append now t (x ∷ ts) h = ground (arith, recent-append now t ts h)

module _ (sha256 token_key trim : String → String) (split_host : String → Option String)
    (config : AdminConfig) where
  abbrev pub log_in_all : List (LoginRequest × Draw) → Console → Console
  log_in_all [] c = c
  log_in_all ((r, d) ∷ rest) c =
      log_in_all rest (login sha256 token_key trim split_host config r d c).1

  -- Logins one after another that all fail for wrong credentials under one key, each checked by the
  -- moment `now` and recorded less than ten minutes before it.
  abbrev pub AllWrong : String → ℕ → List (LoginRequest × Draw) → Console → Type 0
  AllWrong key now [] c = Unit
  AllWrong key now ((r, d) ∷ rest) c =
      (f : LoginForm) × (nonce : String) × (r.form ≡ some f)
      × (failure_key sha256 token_key trim split_host config r f ≡ key)
      × ((login sha256 token_key trim split_host config r d c).0 ≡ wrong_credentials nonce)
      × (d.checked ≤ now)
      × (now < d.failed_at + failure_window)
      × AllWrong key now rest (login sha256 token_key trim split_host config r d c).1

  open_session-not_wrong :
      (r : LoginRequest) (f : LoginForm) (d : Draw) (token csrf : Option String) (c : Console)
      (nonce : String)
      → d.csrf ≡ csrf
      → (open_session sha256 token_key trim split_host config r f d token c).0
        ≢ wrong_credentials nonce
  open_session-not_wrong r f d none csrf c nonce q h = cc h
  open_session-not_wrong r f d (some token) none c nonce q h = cc (rw q at h)
  open_session-not_wrong r f d (some token) (some csrf) c nonce q h = cc (rw q at h)

  check_credentials-wrong :
      (r : LoginRequest) (f : LoginForm) (n nonce : String) (d : Draw) (c : Console)
      → (check_credentials sha256 token_key trim split_host config r f n d c).0
        ≡ wrong_credentials nonce
      → (check_credentials sha256 token_key trim split_host config r f n d c).1
        ≡ record_failure (failure_key sha256 token_key trim split_host config r f) d.failed_at c
  check_credentials-wrong r f n nonce d c h =
      elim (Bool-cases (
        sha256 (trim f.username) == sha256 config.user
        && sha256 f.password == sha256 config.password)) [
          | inl right ↦
              absurd (open_session-not_wrong r f d d.token d.csrf _ nonce refl (rw right at h))
          | inr wrong ↦ rw wrong refl
        ]

  -- What a login with wrong credentials records.
  try_login-wrong :
      (r : LoginRequest) (f : LoginForm) (n nonce : String) (d : Draw) (c : Console)
      → (try_login sha256 token_key trim split_host config r f n d c).0 ≡ wrong_credentials nonce
      → let key = failure_key sha256 token_key trim split_host config r f in
        failures_of key (try_login sha256 token_key trim split_host config r f n d c).1.failures
        ≡ recent_failures key d.checked c ++ d.failed_at ∷ []
  try_login-wrong r f n nonce d c h =
      let key = failure_key sha256 token_key trim split_host config r f in
      let recent = recent_failures key d.checked c in
      elim (Bool-cases (leb 5 (length recent))) [
        | inl many ↦ cc (rw many at h)
        | inr few ↦
            rw
              (
                few,
                check_credentials-wrong r f n nonce d (keep_recent key d.checked c) (rw few at h),
              )
              (rw (failures_of-store_at key recent c.failures) (
                failures_of-store_at key (recent ++ d.failed_at ∷ [])
                  (store_at key recent c.failures)))
      ]

  login-wrong :
      (r : LoginRequest) (f : LoginForm) (nonce : String) (cookie : Option String) (d : Draw)
      (c : Console)
      → r.form ≡ some f
      → r.login_cookie ≡ cookie
      → (login sha256 token_key trim split_host config r d c).0 ≡ wrong_credentials nonce
      → let key = failure_key sha256 token_key trim split_host config r f in
        failures_of key (login sha256 token_key trim split_host config r d c).1.failures
        ≡ recent_failures key d.checked c ++ d.failed_at ∷ []
  unfolding login
  login-wrong r f nonce none d c q q' h = cc (rw (q, q') at h)
  login-wrong r f nonce (some n) d c q q' h = elim (Bool-cases (sha256 n == sha256 f.login_nonce)) [
    | inl same ↦ rw (q, q', same) (try_login-wrong r f n nonce d c (rw (q, q', same) at h))
    | inr other ↦ cc (rw (q, q', other) at h)
  ]

  -- Each failure counts.
  AllWrong-recent :
      (key : String) (now : ℕ) (rs : List (LoginRequest × Draw)) (c : Console)
      → AllWrong key now rs c
      → length rs ≤ length (recent_failures key now (log_in_all rs c))
  AllWrong-recent key now rs c h = omega (arith, counted rs c h)
    where
      counted :
          (rs : List (LoginRequest × Draw)) (c : Console)
          → AllWrong key now rs c
          → length rs + length (recent_failures key now c)
            ≤ length (recent_failures key now (log_in_all rs c))
      counted [] c h = omega arith
      counted ((r, d) ∷ rest) c (f, nonce, form, same, wrong, before, within, more) =
          let failures =
            subst
              (λ k.
                failures_of k (login sha256 token_key trim split_host config r d c).1.failures
                ≡ recent_failures k d.checked c ++ d.failed_at ∷ [])
              same (login-wrong r f nonce r.login_cookie d c form refl wrong) in
          let grown : length
                (recent_failures key now (login sha256 token_key trim split_host config r d c).1)
              ≡ suc (length (recent_failures key now c)) =
            ap (λ ts. length (select (is_recent now) ts)) failures
            ∙ recent-append now d.failed_at (recent_failures key d.checked c) within
            ∙ ap suc (recent-recent d.checked now (failures_of key c.failures) before) in
          omega (
            arith,
            grown,
            counted rest (login sha256 token_key trim split_host config r d c).1 more,
          )

  -- After five or more logins under one key that failed for wrong credentials, all within the ten minutes
  -- before it, a login under that key with the nonce of its cookie is refused as too many, and changes no
  -- session, whatever its credentials.
  pub login-blocked :
      (rs : List (LoginRequest × Draw)) (r : LoginRequest) (f : LoginForm) (nonce : String)
      (d : Draw) (c : Console)
      → 5 ≤ length rs
      → AllWrong (failure_key sha256 token_key trim split_host config r f) d.checked rs c
      → r.form ≡ some f
      → r.login_cookie ≡ some nonce
      → sha256 nonce ≡ sha256 f.login_nonce
      → let key = failure_key sha256 token_key trim split_host config r f in
        let c' = log_in_all rs c in
        ((login sha256 token_key trim split_host config r d c').0
          ≡ too_many (retry_after (recent_failures key d.checked c') d.retried))
        × ((login sha256 token_key trim split_host config r d c').1.sessions ≡ c'.sessions)
  unfolding login
  login-blocked rs r f nonce d c enough wrong form cookie nonces =
      let key = failure_key sha256 token_key trim split_host config r f in
      let many : leb 5 (length (recent_failures key d.checked (log_in_all rs c))) ≡ true =
        ground (arith, enough, AllWrong-recent key d.checked rs c wrong) in
      rw (form, cookie, (eq_iff (sha256 nonce) (sha256 f.login_nonce)).1 nonces, many) (refl, refl)
