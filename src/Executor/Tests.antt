-- ===== src/Executor/Tests.antt =====
-- A reconciliation of executor/executor.go with a whitelist that is a list of addresses.
use frps_gateway.Base.{
  String, ◌≡◌, refl, ap, ◌∙◌, false, not, Option, none, some, List, [], ◌∷◌, arith, ◌==◌, text_refl,
  select, contains, contains-select,
}
use frps_gateway.Store.Schema.{Grant, GrantRow, empty_db}
use frps_gateway.Store.Sql.{ok, ◌>>=◌}
use frps_gateway.Store.Grants.{list_active, list_grants, list_managed_ips, forget_managed_ip}
use frps_gateway.Frps.{
  Transport, Request, post_entry, delete_entry, HttpResponse, do_limit, add, remove,
}
use frps_gateway.Frps.Whitelist.{WhitelistApi, address_of}
use frps_gateway.Executor.{
  Holding, reconciled, World, reconcile, add_each, remove_each, drop_stale, forget,
}
use frps_gateway.Executor.Converges.{Converged, Normal, reconcile-Converged}

abbrev pub apply : Request → List String → Option HttpResponse × List String
apply (post_entry ip ttl operator) s = (some (record { status = 200; size = 1; body = "" }), ip ∷ s)
apply (delete_entry ip operator) s =
    (some (record { status = 200; size = 1; body = "" }), select (λ x. not (ip == x)) s)

abbrev pub listed : Transport
listed = record {
  State = List String;
  send = apply;
  decode_envelope = λ body. some (record { code = 200; data_field = none });
  decode_entry = λ body. none;
  format_int = λ n. "1";
}

deleted_absent :
    (ip : String) (s : List String) → contains (select (λ x. not (ip == x)) s) ip ≡ false
deleted_absent ip s = ground (arith, contains-select (λ x. not (ip == x)) ip s, text_refl ip)

stays :
    (q : Request) (s : List String) (x : String)
    → (address_of q == x) ≡ false
    → contains (apply q s).1 x ≡ contains s x
stays (post_entry ip ttl operator) s x other = ground (arith, other)
stays (delete_entry ip operator) s x other =
    ground (arith, other, contains-select (λ y. not (ip == y)) x s)

pub listed_api : WhitelistApi listed
listed_api = record {
  canonical = λ ip. ip;
  holds = contains;
  expires_at = λ s ip. 1000;
  time = λ s. 500;
  post_adds = λ ip ttl operator s d answered. ground (arith, text_refl ip);
  delete_removes = λ ip operator s d answered. deleted_absent ip s;
  not_found_absent = λ ip operator s answered. deleted_absent ip s;
  one_entry = λ s x y same. ap (contains s) same;
  others_expiry = λ q s x other. refl;
  others_stay = λ q s x other held runs. stays q s x other ∙ held;
  others_absent = λ q s x other absent. stays q s x other ∙ absent;
  time_passes = λ q s. omega arith;
}

abbrev pub in_place : List Holding → List Holding
in_place hs = hs

abbrev pub active_row : GrantRow
active_row = record {
  id = 1;
  open_id = "ou_1";
  operator_name = "Ann";
  ip = "203.0.113.7";
  source = "feishu_command";
  created_at = 10;
  expire_at = 900;
  revoked_at = none;
}

abbrev drifted : World listed in_place
drifted = record {
  env = record {
    db = record empty_db {
      grants = active_row ∷ [];
      managed_ips = "203.0.113.7" ∷ "203.0.113.8" ∷ [];
    };
    faults = [];
  };
  frps = "203.0.113.8" ∷ [];
}

succeeds : (reconcile listed in_place 500000000000 (λ ip. 500000000001) drifted).0 ≡ reconciled
unfolding reconcile list_active list_grants list_managed_ips forget_managed_ip add_each remove_each
    drop_stale forget add remove do_limit ◌>>=◌
succeeds = refl

drifted-Normal : Normal listed in_place listed_api drifted.env.db
unfolding listed_api
drifted-Normal = record { grants = (refl, tt); managed = (refl, (refl, tt)) }

reconcile_example :
    (gs : List Grant) × (ips : List String) × ((list_active 500000000000 drifted.env).0 ≡ ok gs)
    × ((list_managed_ips (list_active 500000000000 drifted.env).1).0 ≡ ok ips)
    × Converged listed in_place listed_api gs ips
        (reconcile listed in_place 500000000000 (λ ip. 500000000001) drifted).1
reconcile_example =
    reconcile-Converged listed in_place listed_api 500000000000 (λ ip. 500000000001) drifted
      (λ P hs h. h) drifted-Normal succeeds
