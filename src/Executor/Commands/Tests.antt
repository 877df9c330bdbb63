-- ===== src/Executor/Commands/Tests.antt =====
-- Messages that executor/executor.go executes, with a whitelist that is a list of addresses.
use frps_gateway.Base.{
  ℕ, suc, ◌+◌, ◌≤◌, ◌<◌, ◌⊎◌, none, ◌≡◌, refl, true, false, [], ◌∷◌, ◌++◌, arith, is_none,
  count_distinct, unix, hour,
}
use frps_gateway.Store.Schema.{empty_db}
use frps_gateway.Store.Sql.{past, next_fails, ◌>>=◌, transaction, transaction_or_rollback}
use frps_gateway.Store.Messages.{cached_reply, save_reply}
use frps_gateway.Store.Grants.{
  active_ips, max_id, insert_grant, insert_managed, enforce_active_ip_limit, add_grant_body,
  add_grant_limited, revoke_user_ip, effective_expiry,
}
use frps_gateway.Store.Grants.Frames.{grants_of_others}
use frps_gateway.Frps.{do_limit, add, remove}
use frps_gateway.Command.{parse_command}
use frps_gateway.Command.Plain.{texts}
use frps_gateway.Executor.Tests.{listed, listed_api, active_row}
use frps_gateway.Executor.Commands.{
  ChatRequest, Limits, Wording, granted, revoked, Backend, add_mine, remove_mine, execute,
}
use frps_gateway.Executor.Commands.Own.{execute-others}
use frps_gateway.Executor.Commands.Again.{reply_to, execute_all, execute-again}
use frps_gateway.Executor.Commands.Granting.{add_mine-Granted}
use frps_gateway.Executor.Commands.Revoking.{Settled, remove_mine-Settled}

abbrev limits : Limits
limits = record { default_ttl = hour; max_ttl = 259200000000000; max_active_ips = 2 }

abbrev wording : Wording
wording = record {
  decimal = λ n. "1";
  day_time = λ n. "01-02 15:04";
  store_text = λ x. "store";
  frps_text = λ x. "frps";
}

abbrev asking : ChatRequest
asking = record {
  text = "申请授权 203.0.113.9";
  operator_open_id = "ou_1";
  operator_name = "Ann";
  chat_id = "oc_1";
  message_id = "om_1";
}

abbrev revoking : ChatRequest
revoking = record asking { text = "撤销授权 203.0.113.7"; message_id = "om_2" }

abbrev clock : ℕ → ℕ
clock n = 500000000000

abbrev unset : ℕ
unset = 0

abbrev start : Backend listed
start = record {
  env = record { db = record empty_db { grants = active_row ∷ [] }; faults = [] };
  frps = "203.0.113.7" ∷ [];
}

others_example :
    grants_of_others "ou_1" (execute listed limits texts wording revoking clock start).1.env.db
    ≡ grants_of_others "ou_1" start.env.db
others_example = execute-others listed limits texts wording revoking clock start

removal_example :
    Settled listed listed_api revoking "203.0.113.7" clock
      (remove_mine listed revoking "203.0.113.7" clock start).0
      (remove_mine listed revoking "203.0.113.7" clock start).1
      start.env.db.grants
removal_example = remove_mine-Settled listed listed_api revoking "203.0.113.7" clock start

is_removed : (remove_mine listed revoking "203.0.113.7" clock start).0 ≡ revoked "203.0.113.7"
unfolding remove_mine revoke_user_ip effective_expiry remove do_limit ◌>>=◌
is_removed = refl

is_granted :
    (add_mine listed limits asking "203.0.113.9" 0 clock start).0
    ≡ granted (record { ip = "203.0.113.9"; expire_at = 4100 }) hour
unfolding add_mine add_grant_limited add_grant_body enforce_active_ip_limit insert_grant
    insert_managed transaction transaction_or_rollback add do_limit ◌>>=◌
is_granted = refl

granted_example :
    let b' = (add_mine listed limits asking "203.0.113.9" 0 clock start).1 in
    (((unset ≡ 0) × (hour ≡ limits.default_ttl)) ⊎ ((0 < unset) × (hour ≡ unset)))
    × (hour ≤ limits.max_ttl)
    × (b'.env.db.grants
        ≡ start.env.db.grants
          ++ record {
            id = suc (max_id start.env.db.grants);
            open_id = "ou_1";
            operator_name = "Ann";
            ip = "203.0.113.9";
            source = "feishu_command";
            created_at = unix (clock 1);
            expire_at = unix (clock 1 + hour);
            revoked_at = none;
          }
            ∷ [])
    × (count_distinct (active_ips "ou_1" (unix (clock 2)) b'.env.db.grants) ≤ limits.max_active_ips)
    × (listed_api.holds b'.frps "203.0.113.9" ≡ true)
granted_example =
    add_mine-Granted listed listed_api limits asking "203.0.113.9" unset clock start
      (record { ip = "203.0.113.9"; expire_at = 4100 }) hour (ground arith) is_granted

abbrev after_revoking : Backend listed
after_revoking = (execute listed limits texts wording revoking clock start).1

was_saved : is_none (reply_to listed limits texts wording "om_2" after_revoking) ≡ false
unfolding execute cached_reply save_reply parse_command remove_mine revoke_user_ip effective_expiry
    remove do_limit ◌>>=◌
was_saved = refl

can_read :
    next_fails
      (execute_all listed limits texts wording ((asking, clock) ∷ []) after_revoking).env.faults
    ≡ false
unfolding execute cached_reply save_reply parse_command remove_mine revoke_user_ip effective_expiry
    remove do_limit add_mine add_grant_limited add_grant_body enforce_active_ip_limit insert_grant
    insert_managed transaction transaction_or_rollback add ◌>>=◌
can_read = refl

again_reply_example :
    execute listed limits texts wording revoking clock
      (execute_all listed limits texts wording ((asking, clock) ∷ []) after_revoking)
    ≡ (
      (execute listed limits texts wording revoking clock start).0,
      record (execute_all listed limits texts wording ((asking, clock) ∷ []) after_revoking) {
        env =
            past
              (execute_all listed limits texts wording ((asking, clock) ∷ []) after_revoking).env;
      },
    )
again_reply_example =
    execute-again listed limits texts wording revoking revoking clock clock ((asking, clock) ∷ [])
      start refl refl refl was_saved can_read
