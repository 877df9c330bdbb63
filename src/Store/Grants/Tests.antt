-- ===== src/Store/Grants/Tests.antt =====
-- Runs of the limit on a user's addresses of store/store.go.
use frps_gateway.Base.{suc, ◌≡◌, refl, ◌≤◌, none, [], ◌∷◌, ◌++◌, arith, unix, count_distinct}
use frps_gateway.Store.Schema.{Grant, GrantRow, empty_db}
use frps_gateway.Store.Sql.{Env, ok, err, active_ip_limit, transaction}
use frps_gateway.Store.Grants.{
  insert_grant, insert_managed, enforce_active_ip_limit, add_grant_body, add_grant_limited,
  active_ips, grant_row, max_id,
}
use frps_gateway.Store.Grants.Limit.{add_grant_limited-within}

abbrev held_grant : GrantRow
held_grant = record {
  id = 4;
  open_id = "ou_1";
  operator_name = "Ann";
  ip = "203.0.113.7";
  source = "feishu_command";
  created_at = 100;
  expire_at = 900;
  revoked_at = none;
}

abbrev one_held : Env
one_held = record { db = record empty_db { grants = held_grant ∷ [] }; faults = [] }

abbrev new_grant : Grant
new_grant = record {
  open_id = "ou_1";
  operator_name = "Ann";
  ip = "203.0.113.8";
  source = "feishu_command";
  created_at = 400000000000;
  expire_at = 4000000000000;
}

accepted : (add_grant_limited new_grant 2 400000000000 one_held).0 ≡ ok tt
unfolding add_grant_limited add_grant_body enforce_active_ip_limit insert_grant insert_managed
    transaction
accepted = refl

over_limit : (add_grant_limited new_grant 1 400000000000 one_held).0 ≡ err active_ip_limit
unfolding add_grant_limited add_grant_body enforce_active_ip_limit insert_grant insert_managed
    transaction
over_limit = refl

limited_example :
    let gs = (add_grant_limited new_grant 2 400000000000 one_held).1.db.grants in
    (count_distinct (active_ips new_grant.open_id (unix 400000000000) gs) ≤ 2)
    × (gs ≡ one_held.db.grants ++ grant_row (suc (max_id one_held.db.grants)) new_grant ∷ [])
limited_example = add_grant_limited-within new_grant 2 400000000000 one_held (omega arith) accepted
