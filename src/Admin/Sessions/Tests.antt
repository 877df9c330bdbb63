-- ===== src/Admin/Sessions/Tests.antt =====
-- Logins of admin/admin.go.
use frps_gateway.Base.{ℕ, String, ◌≡◌, refl, none, some, Option, List, [], ◌∷◌, arith, second, hour}
use frps_gateway.Admin.Sessions.{
  Console, LoginForm, LoginRequest, too_many, logged_in, Draw, AdminConfig, recent_failures,
  retry_after, failure_key, login,
}
use frps_gateway.Admin.Sessions.Opened.{OpenedAs, login-Opened}
use frps_gateway.Admin.Sessions.Blocked.{log_in_all, AllWrong, login-blocked}

abbrev same : String → String
same s = s

abbrev no_port : String → Option String
no_port s = none

abbrev config : AdminConfig
config = record {
  user = "root";
  password = "secret";
  session_ttl = hour;
  knock = record { secret = ""; hits = 0; window = 0; ttl = 0 };
}

abbrev form : String → LoginForm
form password = record { login_nonce = "n"; username = "root"; password = password }

abbrev request : String → LoginRequest
request password = record {
  form = some (form password);
  login_cookie = some "n";
  gate_cookie = none;
  remote_addr = "192.0.2.1";
}

abbrev at_time : ℕ → Draw
at_time now = record {
  checked = now;
  retried = now;
  failed_at = now;
  pruned = now;
  opened = now;
  token = some "t";
  csrf = some "c";
}

abbrev empty : Console
empty = record { sessions = []; failures = []; gates = record { progress = []; gates = [] } }

is_opened :
    (login same same same no_port config (request "secret") (at_time second) empty).0
    ≡ logged_in "t"
unfolding login
is_opened = refl

opened_example :
    OpenedAs same same same no_port config
      (request "secret")
      (at_time second)
      empty
      (login same same same no_port config (request "secret") (at_time second) empty).0
      (login same same same no_port config (request "secret") (at_time second) empty).1
opened_example =
    login-Opened same same same no_port config (request "secret") (at_time second) empty

abbrev attempts : List (LoginRequest × Draw)
attempts =
    (request "a", at_time 1)
    ∷ (request "b", at_time 2)
    ∷ (request "c", at_time 3)
    ∷ (request "d", at_time 4)
    ∷ (request "e", at_time 5)
    ∷ []

abbrev key : String
key = failure_key same same same no_port config (request "secret") (form "secret")

all_failed : AllWrong same same same no_port config key second attempts empty
unfolding login
all_failed = (
  form "a",
  "n",
  refl,
  refl,
  refl,
  omega arith,
  omega arith,
  (
    form "b",
    "n",
    refl,
    refl,
    refl,
    omega arith,
    omega arith,
    (
      form "c",
      "n",
      refl,
      refl,
      refl,
      omega arith,
      omega arith,
      (
        form "d",
        "n",
        refl,
        refl,
        refl,
        omega arith,
        omega arith,
        (form "e", "n", refl, refl, refl, omega arith, omega arith, tt),
      ),
    ),
  ),
)

blocked_example :
    let c' = log_in_all same same same no_port config attempts empty in
    ((login same same same no_port config (request "secret") (at_time second) c').0
      ≡ too_many (retry_after (recent_failures key second c') second))
    × ((login same same same no_port config (request "secret") (at_time second) c').1.sessions
        ≡ c'.sessions)
blocked_example =
    login-blocked same same same no_port config attempts (request "secret") (form "secret") "n"
      (at_time second) empty (omega arith) all_failed refl refl refl
