-- ===== src/Config/Tests.antt =====
-- A configuration that config/config.go lets through, and some that it does not.
use frps_gateway.Base.{String, ◌*◌, ◌==◌, ◌≡◌, refl, pos, true, false, some, hour, minute}
use frps_gateway.Duration.Parse.{parse, parse_loop}
use frps_gateway.Duration.Parse.Tally.{tallies}
use frps_gateway.Config.{
  Url, ConfigLibrary, BotSection, AdminSection, Config, valid, refused, needs_tls, validate,
  require, with_duration, with_go_duration,
}
use frps_gateway.Config.Validated.{Sound, validate-Sound}

abbrev https : Url
https = record {
  scheme = "https";
  host = "example.org";
  hostname = "example.org";
  has_user = false;
  path = "";
  raw_query = "";
  fragment = "";
}

abbrev library : ConfigLibrary
library = record {
  parse_url = λ s. some https;
  split_host = λ s. some s;
  trim = λ s. s;
  lower = λ s. s;
  trim_brackets = λ s. s;
  equal_fold = λ a b. a == b;
  is_loopback_ip = λ s. s == "127.0.0.1:8080";
  parse_go_duration = λ s. some (pos (10 * minute));
  byte_length = λ s. 30;
  floats = tallies;
}

abbrev bot : BotSection
bot = record {
  admin_chat_id = "oc_1";
  allow_all_users = false;
  default_ttl = "10h";
  max_ttl = "";
  link_ttl = "10m";
  workers = pos 0;
  queue_size = pos 5;
  requests_per_minute = pos 0;
  max_active_ips = pos 2;
  default_ttl_value = 0;
  max_ttl_value = 0;
  link_ttl_value = 0;
}

abbrev admin : AdminSection
admin = record {
  enabled = true;
  user = "root";
  password = "correct horse";
  session_ttl = "";
  max_grant_ttl = "10h";
  knock_secret = "";
  knock_hits = pos 0;
  knock_window = "";
  knock_ttl = "";
  session_ttl_value = pos 0;
  max_grant_ttl_value = 0;
  knock_window_value = pos 0;
  knock_ttl_value = pos 0;
}

abbrev given : String → Config
given listen_addr = record {
  api_addr = "https://example.org";
  frps_user = "frps";
  frps_password = "secret";
  app_id = "cli_1";
  app_secret = "secret";
  bot = bot;
  listen_addr = listen_addr;
  public_base_url = "https://example.org";
  tls_cert_file = "";
  tls_key_file = "";
  admin = admin;
  sqlite_file = "";
  interval = "";
  interval_value = pos 0;
  retention_days = pos 0;
}

abbrev completed : Config
completed = record (given "127.0.0.1:8080") {
  bot = record bot {
    max_ttl = "30d";
    workers = pos 4;
    requests_per_minute = pos 10;
    default_ttl_value = hour;
    max_ttl_value = 24 * hour;
    link_ttl_value = minute;
  };
  admin = record admin {
    session_ttl = "8h";
    session_ttl_value = pos (10 * minute);
    max_grant_ttl_value = hour;
  };
  sqlite_file = "./frps-gateway.db";
  interval = "5s";
  interval_value = pos (10 * minute);
  retention_days = pos 30;
}

is_completed : validate library (given "") ≡ valid completed
unfolding validate require with_duration with_go_duration parse parse_loop
is_completed = refl

open_to_all : validate library (given "0.0.0.0:8080") ≡ refused needs_tls
unfolding validate require with_duration with_go_duration parse parse_loop
open_to_all = refl

validated_example : Sound library completed
validated_example = validate-Sound library (given "") completed is_completed
