-- ===== src/Authorize/Tests.antt =====
-- A request behind a proxy of authorize/server.go, with addresses as texts.
use frps_gateway.Base.{
  String, ◌≡◌, refl, true, false, none, some, List, [], ◌∷◌, ◌==◌, if◌then◌else◌,
}
use frps_gateway.Authorize.{
  Net, HttpRequest, found, client_ip, public_or, forwarded_not_public, first_untrusted,
}
use frps_gateway.Store.Schema.{empty_db}
use frps_gateway.Store.Sql.{Env}
use frps_gateway.Frps.{Transport}
use frps_gateway.Authorize.Link.{LinkRequest, new_link}
use frps_gateway.Authorize.Link.Issued.{Issued, new_link-Issued}
use frps_gateway.Authorize.Confirm.{post}
use frps_gateway.Authorize.Confirm.Recorded.{Recorded, post-Recorded}
use frps_gateway.Authorize.Client.{Acceptable, proxied, client_ip-rightmost, client_ip-Acceptable}

-- Every text but the empty one is an address; those of two names are private.
abbrev texts : Net
texts = record {
  Addr = String;
  parse_addr = λ s. if s == "" then none else some s;
  unmap = λ a. a;
  show = λ a. a;
  is_4 = λ a. true;
  is_valid = λ a. true;
  is_global_unicast = λ a. true;
  is_private = λ a. a == "10.0.0.1";
  is_loopback = λ a. a == "127.0.0.1";
  is_link_local_unicast = λ a. false;
  is_multicast = λ a. false;
  Prefix = String;
  contains_addr = λ p a. p == a;
  split_host_port = λ s. some s;
  trim_space = λ s. s;
  split_commas = λ s. "198.51.100.9" ∷ "203.0.113.7" ∷ "10.0.0.1" ∷ [];
}

abbrev proxies : List String
proxies = "127.0.0.1" ∷ "10.0.0.1" ∷ []

abbrev forwarded : HttpRequest
forwarded = record {
  remote_addr = "127.0.0.1";
  x_forwarded_for = "198.51.100.9,203.0.113.7,10.0.0.1";
  form_ipv4 = "";
  path_token = "raw";
}

forwarded_client : client_ip texts proxies forwarded ≡ found "203.0.113.7"
unfolding client_ip first_untrusted
forwarded_client = refl

rightmost_example :
    client_ip texts proxies forwarded ≡ public_or texts proxies forwarded_not_public "203.0.113.7"
rightmost_example =
    client_ip-rightmost texts proxies forwarded "127.0.0.1" "203.0.113.7" ("198.51.100.9" ∷ [])
      "203.0.113.7" ("10.0.0.1" ∷ []) refl refl refl refl refl (proxied "10.0.0.1" refl refl, tt)

client_example : Acceptable texts proxies "203.0.113.7"
client_example = client_ip-Acceptable texts proxies forwarded "203.0.113.7" forwarded_client

abbrev same_text : String → String
same_text s = s

abbrev fresh_store : Env
fresh_store = record { db = empty_db; faults = [] }

abbrev asked : LinkRequest
asked = record {
  open_id = "ou_1";
  name = "Ann";
  message_id = "om_1";
  ttl = 3600000000000;
  valid_for = 300000000000;
}

link_example :
    (let (result, e') =
        new_link same_text same_text
          (λ n. "1")
          "https://gw.example"
          (λ n. some "raw")
          (λ n. 400000000000)
          asked
          fresh_store in
      Issued same_text same_text
        (λ n. "1")
        "https://gw.example"
        (λ n. some "raw")
        (λ n. 400000000000)
        asked
        empty_db
        result
        e'.db)
link_example =
    new_link-Issued same_text same_text (λ n. "1") "https://gw.example" (λ n. some "raw")
      (λ n. 400000000000) asked fresh_store

-- The token of a link with the bytes "raw" is there.
abbrev with_link : Env
with_link = record {
  db = record empty_db {
    auth_tokens =
        record {
          token_hash = "raw";
          open_id = "ou_1";
          operator_name = "Ann";
          message_id = "om_1";
          ttl_seconds = 3600;
          expires_at = 700;
          used_at = none;
        }
        ∷ [];
  };
  faults = [];
}

abbrev offline : Transport
offline = record {
  State = Unit;
  send = λ request s. (none, s);
  decode_envelope = λ body. none;
  decode_entry = λ body. none;
  format_int = λ n. "1";
}

confirm_example :
    (let (answer, (e', s')) =
        post same_text
          (λ p. some p)
          texts
          proxies
          offline
          2
          forwarded
          400000000000
          (λ ip. 400000000001)
          with_link
          tt in
      Recorded same_text
        (λ p. some p)
        texts
        proxies
        offline
        2
        forwarded
        400000000000
        (λ ip. 400000000001)
        with_link
        tt
        answer
        e'
        s')
confirm_example =
    post-Recorded same_text (λ p. some p) texts proxies offline 2 forwarded 400000000000
      (λ ip. 400000000001) with_link tt
