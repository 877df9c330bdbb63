-- ===== src/Admin/Changes/Tests.antt =====
-- A grant that an administrator adds by admin/admin.go.
use frps_gateway.Base.{ℕ, ◌+◌, String, ◌≡◌, refl, true, false, none, some, [], ◌∷◌}
use frps_gateway.Store.Schema.{empty_db}
use frps_gateway.Store.Sql.{◌>>=◌, transaction, transaction_or_rollback}
use frps_gateway.Store.Admin.{create_admin_grant, create_body, insert_audit, set_admin_audit_result}
use frps_gateway.Store.Grants.{insert_grant, insert_managed}
use frps_gateway.Duration.Parse.{parse, parse_loop}
use frps_gateway.Duration.Parse.Tally.{tallies}
use frps_gateway.Admin.Sessions.{current_session}
use frps_gateway.Admin.Changes.{
  Reconciler, Library, ChangeRequest, ChangeAnswer, notice, Desk, add_grant, extend_grant,
  revoke_grant,
}
use frps_gateway.Admin.Changes.Handled.{KeepsAudits, Handled, Adds, Extends, Revokes}
use frps_gateway.Admin.Changes.Answered.{changes-Handled}

abbrev same : String → String
same s = s

abbrev library : Library
library = record {
  Addr = String;
  parse_addr = λ s. some s;
  show_unmapped = λ s. s;
  is_global_unicast = λ s. true;
  is_private = λ s. false;
  is_loopback = λ s. false;
  is_link_local_unicast = λ s. false;
  is_multicast = λ s. false;
  is_control = λ c. false;
  parse_int = λ s. some 1;
  trim = same;
  lower = same;
  floats = tallies;
}

-- It always succeeds, and counts how often it was called.
abbrev counter : Reconciler
counter = record { Outside = ℕ; reconcile = λ e n. (none, e, n + 1) }

counter_keeps : KeepsAudits counter
counter_keeps = record { audits = λ e n. refl }

abbrev request : ChangeRequest
request = record {
  session_cookie = some "s";
  form = some (record {
    csrf = "c";
    ip = "203.0.113.7";
    subject_id = "ou_1";
    subject_name = "Ann";
    ttl = "10h";
  });
  path_id = "1";
  cancelled = false;
}

abbrev clock : ℕ → ℕ
clock n = 500000000000

abbrev desk : Desk same same library counter 259200000000000
desk = record {
  console = record {
    sessions = ("s", record { actor = "root"; csrf = "c"; expires_at = 600000000000 }) ∷ [];
    failures = [];
    gates = record { progress = []; gates = [] };
  };
  env = record { db = empty_db; faults = [] };
  outside = 0;
}

abbrev added : ChangeAnswer × Desk same same library counter 259200000000000
added = add_grant same same library counter 259200000000000 request clock desk

is_noticed : added.0 ≡ notice "授权已记录并同步"
unfolding add_grant current_session create_admin_grant create_body insert_audit
    set_admin_audit_result insert_grant insert_managed parse parse_loop transaction
    transaction_or_rollback ◌>>=◌
is_noticed = refl

changes_example :
    let extended = extend_grant same same library counter 259200000000000 request clock desk in
    let revoked = revoke_grant same same library counter 259200000000000 request clock desk in
    Handled same same library counter 259200000000000
      (Adds same same library counter 259200000000000 clock desk)
      "add"
      "授权已记录并同步"
      request
      (clock 0)
      desk
      added.0
      added.1
    × Handled same same library counter 259200000000000
        (Extends same same library counter 259200000000000 request clock desk)
        "extend"
        "授权已延期并同步"
        request
        (clock 0)
        desk
        extended.0
        extended.1
    × Handled same same library counter 259200000000000
        (Revokes same same library counter 259200000000000 request clock desk)
        "revoke"
        "授权已撤销并同步"
        request
        (clock 0)
        desk
        revoked.0
        revoked.1
changes_example =
    changes-Handled same same library counter 259200000000000 counter_keeps request clock desk
