-- ===== src/Config/Validated.antt =====
-- What a configuration satisfies that config/config.go, `validate`, lets through.
use frps_gateway.Base.{
  ℕ, ◌*◌, ◌^◌, ◌≤◌, ◌<◌, String, ◌==◌, ◌≡◌, refl, ℤ, pos, negsuc, ◌⊎◌, inl, inr, Bool-cases, true,
  false, not, ◌&&◌, ◌||◌, if◌then◌else◌, Option, none, some, arith, eq_iff, leb, ltb, second,
  minute, hour, day,
}
use frps_gateway.Duration.Parse.{is_positive}
use frps_gateway.Config.Letting.{
  Yields, Yields-valid, Yields-weaken, Yields-either, Yields-require, Yields-with_duration,
  Yields-with_go_duration,
}
use frps_gateway.Config.{
  Url, ConfigLibrary, BotSection, AdminSection, Config, Checked, valid, refused, int_ltb, within,
  signed, or_default, positive_or, is_zero, is_url_safe_token, is_loopback_host, check_api,
  check_bot, is_public_url, check_listener, check_knock, with_account, check_admin, on_admin,
  on_bot, validate,
}

positive_or-positive : (n : ℤ) (d : ℕ) → 0 < d → int_ltb (pos 0) (positive_or n d) ≡ true
positive_or-positive (pos n) d h = ground (arith, h)
positive_or-positive (negsuc n) d h = ground (arith, h)

signed-le :
    (max ttl : ℕ)
    → is_positive ttl ≡ true
    → not (int_ltb (signed max) (signed ttl)) ≡ true
    → (ttl ≤ max) × (max < 2 ^ 63)
signed-le max ttl h k = elim (Bool-cases (ltb max (2 ^ 63))) [
  | inl small ↦
      let short : ltb ttl (2 ^ 63) ≡ true = ground (arith, h) in
      (ground (arith, rw (small, short) at k), ground (arith, small))
  | inr large ↦
      let short : ltb ttl (2 ^ 63) ≡ true = ground (arith, h) in cc (rw (large, short) at k)
]

module _ (lib : ConfigLibrary) where
  -- The bot serves a chat, or all; its lifetimes are positive, the default one at most the longest; its
  -- numbers are positive.
  abbrev pub BotSound : BotSection → Type 0
  BotSound b =
      ((not (b.admin_chat_id == "") || b.allow_all_users) ≡ true)
      × (is_positive b.default_ttl_value ≡ true)
      × ((b.default_ttl_value ≤ b.max_ttl_value) × (b.max_ttl_value < 2 ^ 63))
      × (is_positive b.link_ttl_value ≡ true)
      × (int_ltb (pos 0) b.workers ≡ true)
      × (int_ltb (pos 0) b.queue_size ≡ true)
      × (int_ltb (pos 0) b.requests_per_minute ≡ true)
      × (int_ltb (pos 0) b.max_active_ips ≡ true)

  check_bot-Sound : (b : BotSection) → Yields BotSound (check_bot lib b)
  check_bot-Sound b = Yields-require _ _ _ λ chat. Yields-with_duration lib _ _ _ _ λ ttl positive.
      Yields-with_duration lib _ _ _ _ λ max ordered.
        Yields-with_duration lib _ _ _ _ λ link link_positive. Yields-valid _ (
          chat,
          positive,
          signed-le max ttl positive ordered,
          link_positive,
          positive_or-positive b.workers 4 (omega arith),
          positive_or-positive b.queue_size 100 (omega arith),
          positive_or-positive b.requests_per_minute 10 (omega arith),
          positive_or-positive b.max_active_ips 10 (omega arith),
        )

  -- A secret of the knock is long and safe in a URL, and its timing in its bounds.
  abbrev pub KnockSound : AdminSection → Type 0
  KnockSound a =
      ((a.knock_secret == "") ≡ true)
      ⊎ ((leb 24 (lib.byte_length a.knock_secret) ≡ true)
          × (is_url_safe_token a.knock_secret ≡ true)
          × (within 2 10 a.knock_hits ≡ true)
          × (within (5 * second) (5 * minute) a.knock_window_value ≡ true)
          × (within minute (30 * minute) a.knock_ttl_value ≡ true))

  -- What an enabled console has.
  abbrev pub AccountSound : Config → AdminSection → Type 0
  AccountSound c a =
      (leb 10 (lib.byte_length a.password) ≡ true)
      × (not (a.user == c.frps_user && a.password == c.frps_password) ≡ true)
      × (within (5 * minute) (24 * hour) a.session_ttl_value ≡ true)
      × ((is_positive a.max_grant_ttl_value && leb a.max_grant_ttl_value (30 * day)) ≡ true)

  abbrev pub AdminSound : Config → AdminSection → Type 0
  AdminSound c a = (a.enabled ≡ false) ⊎ (AccountSound c a × KnockSound a)

  check_knock-Sound :
      (c : Config) (a : AdminSection)
      → AccountSound c a
      → Yields (λ x. AccountSound c x × KnockSound x) (check_knock lib a)
  check_knock-Sound c a account =
      Yields-either (a.knock_secret == "") _ _
        (λ off. Yields-require _ _ _ λ quiet. Yields-valid _ (account, inl off))
        (λ on. Yields-require _ _ _ λ long. Yields-require _ _ _ λ safe.
          Yields-require _ _ _ λ hits. Yields-with_go_duration lib _ _ _ _ λ window window_ok.
            Yields-with_go_duration lib _ _ _ _
              λ ttl ttl_ok. Yields-valid _ (account, inr (long, safe, hits, window_ok, ttl_ok)))

  check_admin-Sound : (c : Config) (a : AdminSection) → Yields (AdminSound c) (check_admin lib c a)
  check_admin-Sound c a =
      Yields-either (not a.enabled) _ _ (λ off. Yields-valid a (inl (ground (arith, off))))
        (λ on. Yields-require _ _ _ λ named. Yields-require _ _ _ λ long.
          Yields-require _ _ _ λ differs. Yields-with_go_duration lib _ _ _ _ λ session session_ok.
            Yields-with_duration lib _ _ _ _ λ grant grant_ok.
              Yields-weaken _ (λ x h. inr h)
                (check_knock-Sound c (with_account lib a session grant)
                  (long, differs, session_ok, grant_ok)))

  -- The management API of frps is reached over https, or on the host itself.
  abbrev pub ApiSound : Config → Type 0
  ApiSound c =
      (u : Url) × (lib.parse_url c.api_addr ≡ some u)
      × ((u.host == "") ≡ false)
      × ((u.scheme ≡ "https") ⊎ ((u.scheme ≡ "http") × (is_loopback_host lib u.hostname ≡ true)))

  reached-cases :
      (u : Url)
      → (not (u.host == "") && (u.scheme == "http" || u.scheme == "https")) ≡ true
      → not (u.scheme == "http" && not (is_loopback_host lib u.hostname)) ≡ true
      → (u.scheme ≡ "https") ⊎ ((u.scheme ≡ "http") × (is_loopback_host lib u.hostname ≡ true))
  reached-cases u http safe = elim (Bool-cases (u.scheme == "https")) [
    | inl https ↦ inl ((eq_iff u.scheme "https").0 https)
    | inr other ↦ inr (
      (eq_iff u.scheme "http").0 (ground (arith, other, http)),
      ground (arith, other, http, safe),
    )
  ]

  -- The page is published under https, and without a certificate the server listens on the host only.
  abbrev pub ServerSound : Config → Type 0
  ServerSound c =
      (host : String) × (is_public_url lib (lib.parse_url c.public_base_url) ≡ true)
      × (lib.split_host c.listen_addr ≡ some host)
      × (not (c.tls_cert_file == "" && not (is_loopback_host lib host)) ≡ true)

  abbrev pub Sound : Config → Type 0
  Sound c =
      ApiSound c
      × BotSound c.bot
      × ServerSound c
      × AdminSound c c.admin
      × (int_ltb (pos 0) c.interval_value ≡ true)
      × (is_zero c.retention_days ≡ false)

  retention_lem : (n : ℤ) → is_zero (if is_zero n then pos 30 else n) ≡ false
  retention_lem n = elim (Bool-cases (is_zero n)) [ inl h ↦ rw h refl | inr h ↦ rw h h ]

  on_admin-Sound :
      (c : Config) (a : Checked AdminSection)
      → ApiSound c
      → BotSound c.bot
      → ServerSound c
      → Yields (AdminSound c) a
      → Yields Sound (on_admin lib c a)
  on_admin-Sound c (refused x) api bot server admin = record { at = λ b q. cc q }
  on_admin-Sound c (valid a) api bot server admin =
      Yields-with_go_duration lib _ _ _ _ λ interval positive.
        Yields-valid _ (api, bot, server, admin.at a refl, positive, retention_lem c.retention_days)

  check_listener-Sound :
      (c : Config) (host : Option String) (k : Checked Config)
      → ((h : String)
          → host ≡ some h
          → not (c.tls_cert_file == "" && not (is_loopback_host lib h)) ≡ true
          → Yields Sound k)
      → Yields Sound (check_listener lib host (c.tls_cert_file == "") k)
  check_listener-Sound c none k h = record { at = λ b q. cc q }
  check_listener-Sound c (some host) k h = Yields-require _ _ _ λ native. h host refl native

  on_bot-Sound :
      (c : Config) (b : Checked BotSection)
      → ApiSound c
      → Yields BotSound b
      → Yields Sound (on_bot lib c b)
  on_bot-Sound c (refused x) api bot = record { at = λ b q. cc q }
  on_bot-Sound c (valid b) api bot =
      let c' : Config = record c {
        bot = b;
        listen_addr = or_default c.listen_addr "127.0.0.1:8080";
      } in
      Yields-require _ _ _ λ public. Yields-require _ _ _ λ pair.
        check_listener-Sound c' (lib.split_host c'.listen_addr) _ λ host split native.
          on_admin-Sound c' (check_admin lib c' c'.admin) api (bot.at b refl)
            (host, public, split, native) (check_admin-Sound c' c'.admin)

  check_api-Sound :
      (c : Config) (u : Option Url) (k : Checked Config)
      → lib.parse_url c.api_addr ≡ u
      → (ApiSound c → Yields Sound k)
      → Yields Sound (check_api lib u k)
  check_api-Sound c none k q h = record { at = λ b r. cc r }
  check_api-Sound c (some u) k q h = Yields-require _ _ _ λ http. Yields-require _ _ _ λ origin.
      Yields-require _ _ _ λ safe. h (u, q, ground (arith, http), reached-cases u http safe)

  validate-Yields : (c : Config) → Yields Sound (validate lib c)
  unfolding validate
  validate-Yields c = Yields-require _ _ _ λ addr.
      check_api-Sound c (lib.parse_url c.api_addr) _ refl λ api. Yields-require _ _ _ λ account.
        Yields-require _ _ _ λ app. on_bot-Sound c (check_bot lib c.bot) api (check_bot-Sound c.bot)

  -- A configuration that is let through is sound: the API of frps is reached over https or on the host
  -- itself; the lifetimes of the bot are positive and ordered, and its numbers positive; the page is
  -- published under https, and without a certificate the server listens on the host only; an enabled
  -- console has its own credentials and its times and its knock in their bounds; and the interval of
  -- ingestion is positive and the retention not zero.
  pub validate-Sound : (c c' : Config) → validate lib c ≡ valid c' → Sound c'
  validate-Sound c c' h = (validate-Yields c).at c' h
