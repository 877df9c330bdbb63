-- ===== src/Store/Pages/Tests.antt =====
-- A run of a page of grants of store/store.go.
use frps_gateway.Store.Pages.Listed.{Listed}
use frps_gateway.Base.{ℕ, ◌+◌, String, ◌==◌, Bool, pos, none, [], ◌∷◌}
use frps_gateway.Store.Schema.{GrantRow, empty_db}
use frps_gateway.Store.Sql.{Env}
use frps_gateway.Store.Pages.{GrantFilter}

abbrev row : ℕ → ℕ → GrantRow
row id expire_at = record {
  id = id;
  open_id = "ou_1";
  operator_name = "Ann";
  ip = "203.0.113.7";
  source = "feishu_command";
  created_at = 10 + id;
  expire_at = expire_at;
  revoked_at = none;
}

abbrev history : Env
history = record {
  db = record empty_db { grants = row 1 900 ∷ row 2 100 ∷ row 3 900 ∷ [] };
  faults = [];
}

abbrev active_of_ann : GrantFilter
active_of_ann = record {
  ip = "";
  user = "Ann";
  status = "active";
  from = none;
  to = none;
  limit = pos 1;
  offset = pos 0;
}

abbrev equal_text : String → String → Bool
equal_text a b = a == b
