-- ===== src/Store/Tokens/Tests.antt =====
-- Runs of the tokens of store/store.go on a small database.
use frps_gateway.Base.{
  String, ◌≡◌, refl, ◌≢◌, ◌≤◌, none, some, List, [], ◌∷◌, arith, unix, find, count_distinct,
}
use frps_gateway.Store.Schema.{Grant, TokenRow, empty_db}
use frps_gateway.Store.Sql.{Env, ok, err, token_invalid, transaction}
use frps_gateway.Store.Grants.{
  insert_grant, insert_managed, enforce_active_ip_limit_multi, active_ips,
}
use frps_gateway.Store.Tokens.{
  one_row, grant_all, consume_body, consume_targets, consume_token_ips, validate_token, is_usable,
}
use frps_gateway.Store.Tokens.Spending.{Spends, consume_token_ips-Spends}
use frps_gateway.Store.Tokens.Consume.{
  consume_token_ips-err, consume_token_ips-within, consume_token_ips-once,
}

abbrev digest : String → String
digest s = s

abbrev token : TokenRow
token = record {
  token_hash = "abc";
  open_id = "ou_1";
  operator_name = "Ann";
  message_id = "om_1";
  ttl_seconds = 3600;
  expires_at = 500;
  used_at = none;
}

abbrev start : Env
start = record { db = record empty_db { auth_tokens = token ∷ [] }; faults = [] }

abbrev used : Env
used = record {
  db = record empty_db { auth_tokens = record token { used_at = some 400 } ∷ [] };
  faults = [];
}

abbrev grant_of : String → Grant
grant_of ip = record {
  open_id = "ou_1";
  operator_name = "Ann";
  ip = ip;
  source = "feishu_link";
  created_at = 400000000000;
  expire_at = 4000000000000;
}

abbrev two_grants : List Grant
two_grants = grant_of "203.0.113.7" ∷ grant_of "203.0.113.8" ∷ []

abbrev three_ips : List String
three_ips = "203.0.113.7" ∷ "203.0.113.8" ∷ "203.0.113.7" ∷ []

consumed : (consume_token_ips digest "abc" three_ips 2 400000000000 start).0 ≡ ok two_grants
unfolding consume_token_ips consume_targets consume_body grant_all one_row insert_grant
    insert_managed enforce_active_ip_limit_multi transaction
consumed = refl

refused : (consume_token_ips digest "abc" three_ips 2 400000000000 used).0 ≡ err token_invalid
unfolding consume_token_ips consume_targets consume_body grant_all one_row insert_grant
    insert_managed enforce_active_ip_limit_multi transaction
refused = refl

spending_example :
    Spends digest "abc" three_ips 400000000000 start.db.auth_tokens start.db.grants two_grants
      (consume_token_ips digest "abc" three_ips 2 400000000000 start).1.db.auth_tokens
      (consume_token_ips digest "abc" three_ips 2 400000000000 start).1.db.grants
spending_example =
    consume_token_ips-Spends digest "abc" three_ips 2 400000000000 start two_grants consumed

refused_example : (consume_token_ips digest "abc" three_ips 2 400000000000 used).1.db ≡ used.db
refused_example =
    consume_token_ips-err digest "abc" three_ips 2 400000000000 used token_invalid refused

within_example :
    (t : TokenRow) × (find (is_usable (digest "abc") (unix 400000000000)) start.db.auth_tokens
      ≡ some t)
    × (count_distinct (
          active_ips t.open_id
            (unix 400000000000)
            (consume_token_ips digest "abc" three_ips 2 400000000000 start).1.db.grants)
        ≤ 2)
within_example =
    consume_token_ips-within digest "abc" three_ips 2 400000000000 start two_grants (omega arith)
      consumed

once_example :
    ((consume_token_ips digest "abc" three_ips 9 450000000000
        (consume_token_ips digest "abc" three_ips 2 400000000000 start).1).0
      ≢ ok two_grants)
    × ((validate_token digest "abc" 450000000000
          (consume_token_ips digest "abc" three_ips 2 400000000000 start).1).0
        ≢ ok tt)
once_example =
    consume_token_ips-once digest "abc" three_ips three_ips 2 9 400000000000 450000000000 start
      (consume_token_ips digest "abc" three_ips 2 400000000000 start).1 two_grants two_grants
      consumed refl
