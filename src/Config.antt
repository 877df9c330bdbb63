-- ===== src/Config.antt =====
-- config/config.go: `validate`, over the fields that it reads and sets. The packages net, net/url,
-- strings and time are parameters. A duration of the package duration is the bit pattern of its int64.
pub mod Letting
pub mod Secret
pub mod Validated
mod Tests
use Prim.Native.Char.{Char, code}
use Prim.Native.String
use frps_gateway.Base.{
  ℕ, zero, suc, ◌+◌, ◌-◌, ◌*◌, ◌^◌, String, ◌==◌, ℤ, pos, negsuc, Bool, true, false, not, ◌&&◌,
  ◌||◌, Option, none, some, leb, ltb, eqb, if◌then◌else◌, second, minute, hour, day,
}
use frps_gateway.Duration.Parse.{Floats, Parsed, parsed, invalid, is_positive}
use frps_gateway.Duration.Parse

-- url.URL
pub record Url : Type 0 where
  pub scheme : String
  pub host : String
  pub hostname : String
  pub has_user : Bool
  pub path : String
  pub raw_query : String
  pub fragment : String

pub record ConfigLibrary : Type 1 where
  pub parse_url : String → Option Url
  pub split_host : String → Option String
  pub trim : String → String
  pub lower : String → String
  pub trim_brackets : String → String
  pub equal_fold : String → String → Bool
  pub is_loopback_ip : String → Bool
  pub parse_go_duration : String → Option ℤ
  pub byte_length : String → ℕ
  pub floats : Floats

pub data ConfigError : Type 0 where
  no_api_addr api_not_http api_not_origin api_plaintext no_frps_user no_feishu_app : ConfigError
  no_chat bad_default_ttl bad_max_ttl bad_link_ttl bad_public_url tls_pair bad_listen_addr :
      ConfigError
  needs_tls no_admin short_password same_credentials bad_session_ttl bad_grant_ttl : ConfigError
  short_knock bad_knock bad_hits bad_window bad_knock_ttl knock_without_secret bad_interval :
      ConfigError

-- Bot
pub record BotSection : Type 0 where
  pub admin_chat_id : String
  pub allow_all_users : Bool
  pub default_ttl : String
  pub max_ttl : String
  pub link_ttl : String
  pub workers : ℤ
  pub queue_size : ℤ
  pub requests_per_minute : ℤ
  pub max_active_ips : ℤ
  pub default_ttl_value : ℕ
  pub max_ttl_value : ℕ
  pub link_ttl_value : ℕ

-- Admin
pub record AdminSection : Type 0 where
  pub enabled : Bool
  pub user : String
  pub password : String
  pub session_ttl : String
  pub max_grant_ttl : String
  pub knock_secret : String
  pub knock_hits : ℤ
  pub knock_window : String
  pub knock_ttl : String
  pub session_ttl_value : ℤ
  pub max_grant_ttl_value : ℕ
  pub knock_window_value : ℤ
  pub knock_ttl_value : ℤ

-- Config; of the other sections the fields that `validate` works on
pub record Config : Type 0 where
  pub api_addr : String
  pub frps_user : String
  pub frps_password : String
  pub app_id : String
  pub app_secret : String
  pub bot : BotSection
  pub listen_addr : String
  pub public_base_url : String
  pub tls_cert_file : String
  pub tls_key_file : String
  pub admin : AdminSection
  pub sqlite_file : String
  pub interval : String
  pub interval_value : ℤ
  pub retention_days : ℤ

pub data Checked (A : Type 0) : Type 0 where
  valid : A → Checked A
  refused : ConfigError → Checked A

-- if !b { return error }
unfoldable pub require : {A : Type 0} → Bool → ConfigError → Checked A → Checked A
require b x k = if b then k else refused x

abbrev pub int_ltb : ℤ → ℤ → Bool
int_ltb (pos a) (pos b) = ltb a b
int_ltb (pos a) (negsuc b) = false
int_ltb (negsuc a) (pos b) = true
int_ltb (negsuc a) (negsuc b) = ltb b a

-- lo <= x && x <= hi
abbrev pub within : ℕ → ℕ → ℤ → Bool
within lo hi x = not (int_ltb x (pos lo)) && not (int_ltb (pos hi) x)

-- The value of an int64.
abbrev pub signed : ℕ → ℤ
signed n = if ltb n (2 ^ 63) then pos n else negsuc (2 ^ 64 - 1 - n)

abbrev pub or_default : String → String → String
or_default v d = if v == "" then d else v

-- if n <= 0 { n = d }
abbrev pub positive_or : ℤ → ℕ → ℤ
positive_or n d = if int_ltb (pos 0) n then n else pos d

abbrev pub is_zero : ℤ → Bool
is_zero (pos n) = eqb n 0
is_zero (negsuc n) = false

-- isURLSafeToken
abbrev pub is_safe : Char → Bool
is_safe c =
    (leb b'a' (code c) && leb (code c) b'z')
    || (leb b'A' (code c) && leb (code c) b'Z')
    || (leb b'0' (code c) && leb (code c) b'9')
    || eqb (code c) b'-'
    || eqb (code c) b'_'

abbrev pub all_safe : String → Bool
all_safe String.[] = true
all_safe (String.◌∷◌ c s) = is_safe c && all_safe s

abbrev pub is_url_safe_token : String → Bool
is_url_safe_token s = all_safe s && not (s == "")

module _ (lib : ConfigLibrary) where
  -- isLoopbackHost
  abbrev pub is_loopback_host : String → Bool
  is_loopback_host host =
      let h = lib.trim (lib.trim_brackets host) in
      lib.equal_fold h "localhost" || lib.is_loopback_ip h

  abbrev pub duration_of : String → Parsed
  duration_of s = Parse.parse lib.floats lib.trim lib.lower s

  abbrev pub check_api : Option Url → Checked Config → Checked Config
  check_api none k = refused api_not_http
  check_api (some u) k =
      require (not (u.host == "") && (u.scheme == "http" || u.scheme == "https")) api_not_http (
        require
          (not u.has_user
            && (u.path == "" || u.path == "/")
            && u.raw_query == ""
            && u.fragment == "")
          api_not_origin
          (require (not (u.scheme == "http" && not (is_loopback_host u.hostname))) api_plaintext k))

  -- Of a parsed duration, what a test lets through.
  unfoldable pub with_duration :
      {A : Type 0} → Parsed → (ℕ → Bool) → ConfigError → (ℕ → Checked A) → Checked A
  with_duration (invalid e) test x k = refused x
  with_duration (parsed t) test x k = if test t then k t else refused x

  unfoldable pub with_go_duration :
      {A : Type 0} → Option ℤ → (ℤ → Bool) → ConfigError → (ℤ → Checked A) → Checked A
  with_go_duration none test x k = refused x
  with_go_duration (some t) test x k = if test t then k t else refused x

  abbrev pub check_bot : BotSection → Checked BotSection
  check_bot b = require (not (b.admin_chat_id == "") || b.allow_all_users) no_chat (
      with_duration (duration_of b.default_ttl) is_positive bad_default_ttl λ ttl.
        with_duration (duration_of (or_default b.max_ttl "30d"))
          (λ max. not (int_ltb (signed max) (signed ttl))) bad_max_ttl
          λ max.
            with_duration (duration_of (or_default b.link_ttl "5m")) is_positive bad_link_ttl
              λ link. valid (record b {
                max_ttl = or_default b.max_ttl "30d";
                link_ttl = or_default b.link_ttl "5m";
                workers = positive_or b.workers 4;
                queue_size = positive_or b.queue_size 100;
                requests_per_minute = positive_or b.requests_per_minute 10;
                max_active_ips = positive_or b.max_active_ips 10;
                default_ttl_value = ttl;
                max_ttl_value = max;
                link_ttl_value = link;
              }))

  abbrev pub is_public_url : Option Url → Bool
  is_public_url none = false
  is_public_url (some u) = u.scheme == "https" && not (u.host == "")

  abbrev pub check_listener : Option String → Bool → Checked Config → Checked Config
  check_listener none plain k = refused bad_listen_addr
  check_listener (some host) plain k =
      require (not (plain && not (is_loopback_host host))) needs_tls k

  -- The server, whose listen address has its default.
  abbrev pub check_server : Config → Checked Config → Checked Config
  check_server c k = require (is_public_url (lib.parse_url c.public_base_url)) bad_public_url (
      require
        ((c.tls_cert_file == "" && c.tls_key_file == "")
          || (not (c.tls_cert_file == "") && not (c.tls_key_file == "")))
        tls_pair (check_listener (lib.split_host c.listen_addr) (c.tls_cert_file == "") k))

  abbrev pub hits_or_default : ℤ → ℤ
  hits_or_default n = if is_zero n then pos 3 else n

  abbrev pub check_knock : AdminSection → Checked AdminSection
  check_knock a =
      if a.knock_secret == ""
      then require (is_zero a.knock_hits && a.knock_window == "" && a.knock_ttl == "")
          knock_without_secret (valid a)
      else require (leb 24 (lib.byte_length a.knock_secret)) short_knock (
          require (is_url_safe_token a.knock_secret) bad_knock (
            require (within 2 10 (hits_or_default a.knock_hits)) bad_hits (
              with_go_duration (lib.parse_go_duration (or_default a.knock_window "30s"))
                (within (5 * second) (5 * minute)) bad_window
                λ window.
                  with_go_duration (lib.parse_go_duration (or_default a.knock_ttl "5m"))
                    (within minute (30 * minute)) bad_knock_ttl
                    λ ttl. valid (record a {
                      knock_hits = hits_or_default a.knock_hits;
                      knock_window = or_default a.knock_window "30s";
                      knock_ttl = or_default a.knock_ttl "5m";
                      knock_window_value = window;
                      knock_ttl_value = ttl;
                    }))))

  -- What `validate` sets before it looks at the knock.
  abbrev pub with_account : AdminSection → ℤ → ℕ → AdminSection
  with_account a session grant = record a {
    user = lib.trim a.user;
    session_ttl = or_default a.session_ttl "8h";
    max_grant_ttl = or_default a.max_grant_ttl "24h";
    session_ttl_value = session;
    max_grant_ttl_value = grant;
  }

  abbrev pub check_admin : Config → AdminSection → Checked AdminSection
  check_admin c a =
      if not a.enabled
      then valid a
      else let user = lib.trim a.user in
        require (not (lib.trim user == "") && not (lib.trim a.password == "")) no_admin (
          require (leb 10 (lib.byte_length a.password)) short_password (
            require (not (user == c.frps_user && a.password == c.frps_password)) same_credentials (
              with_go_duration (lib.parse_go_duration (or_default a.session_ttl "8h"))
                (within (5 * minute) (24 * hour)) bad_session_ttl
                λ session.
                  with_duration (duration_of (or_default a.max_grant_ttl "24h"))
                    (λ t. is_positive t && leb t (30 * day)) bad_grant_ttl
                    λ grant. check_knock (with_account a session grant))))

  -- The storage and the ingestion, which come last.
  abbrev pub check_ingest : Config → Checked Config
  check_ingest c =
      with_go_duration (lib.parse_go_duration (or_default c.interval "5s")) (int_ltb (pos 0))
        bad_interval
        λ interval. valid (record c {
          sqlite_file = or_default c.sqlite_file "./frps-gateway.db";
          interval = or_default c.interval "5s";
          interval_value = interval;
          retention_days = if is_zero c.retention_days then pos 30 else c.retention_days;
        })

  abbrev pub on_admin : Config → Checked AdminSection → Checked Config
  on_admin c (refused x) = refused x
  on_admin c (valid a) = check_ingest (record c { admin = a })

  abbrev pub on_bot : Config → Checked BotSection → Checked Config
  on_bot c (refused x) = refused x
  on_bot c (valid b) =
      let c' : Config = record c {
        bot = b;
        listen_addr = or_default c.listen_addr "127.0.0.1:8080";
      } in
      check_server c' (on_admin c' (check_admin c' c'.admin))

  -- validate
  unfoldable pub validate : Config → Checked Config
  validate c = require (not (c.api_addr == "")) no_api_addr (
      check_api (lib.parse_url c.api_addr) (
        require (not (c.frps_user == "") && not (c.frps_password == "")) no_frps_user (
          require (not (c.app_id == "") && not (c.app_secret == "")) no_feishu_app
            (on_bot c (check_bot c.bot)))))
