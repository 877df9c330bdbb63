-- ===== src/Executor/Commands.antt =====
-- executor/executor.go: `Execute` and what it calls, for an executor with a store. `clock n` is the
-- n-th reading of the time in the call, in the order of the code.
pub mod Kept
pub mod Again
pub mod Own
pub mod Granting
pub mod Revoking
mod Tests
use frps_gateway.Base.{
  ℕ, ◌+◌, ◌-◌, String, ◌<>◌, ◌==◌, Option, none, some, List, [], ◌∷◌, eqb, ltb, if◌then◌else◌,
  length, from_unix,
}
use frps_gateway.Store.Schema.{Grant}
use frps_gateway.Store.Sql.{Env, StoreError, active_ip_limit, Result, ok, err}
use frps_gateway.Store.Grants.{
  add_grant_limited, revoke_user_ip, effective_expiry, list_active_by_ip, list_user,
}
use frps_gateway.Store.Messages.{cached_reply, save_reply}
use frps_gateway.Store.Access.{join_names}
use frps_gateway.Frps.{Transport, FrpsError, Reply, Entry, done, failed, is_not_found, add, remove}
use frps_gateway.Duration.{format}
use frps_gateway.Executor.{display_user, add_owner}
use frps_gateway.Command.{
  ChatText, add_ip, remove_ip, list_mine, Command, CommandError, ParseResult, error_text, usage,
  parse_command,
}

-- interaction.Request
pub record ChatRequest : Type 0 where
  pub text : String
  pub operator_open_id : String
  pub operator_name : String
  pub chat_id : String
  pub message_id : String

-- The configuration of an Executor.
pub record Limits : Type 0 where
  pub default_ttl : ℕ
  pub max_ttl : ℕ
  pub max_active_ips : ℕ

-- What a command comes to, before its text.
pub data Outcome : Type 0 where
  ttl_too_long limit_reached : Outcome
  record_failed : StoreError → Outcome
  add_unsynced : FrpsError → Outcome
  granted : Entry → ℕ → Outcome
  revoke_failed : StoreError → Outcome
  not_held : String → Outcome
  unreconciled : StoreError → Outcome
  remove_unsynced : FrpsError → Outcome
  still_held : Outcome
  revoked : String → Outcome
  query_failed : StoreError → Outcome
  nothing_active : Outcome
  active_grants : List Grant → Outcome
  parse_failed : CommandError → Outcome
  shows_usage : Outcome

-- What fmt, time and the errors write: `decimal` is `%d`, `day_time` is Format("01-02 15:04").
pub record Wording : Type 0 where
  pub decimal : ℕ → String
  pub day_time : ℕ → String
  pub store_text : StoreError → String
  pub frps_text : FrpsError → String

-- ownerLabel
abbrev pub owners_of : List Grant → List String
owners_of [] = []
owners_of (g ∷ gs) = add_owner (display_user g.operator_name g.open_id) (owners_of gs)

abbrev pub owner_label : List Grant → String
owner_label gs = join_names (owners_of gs)

module _ (t : Transport) where
  -- What the executor works on: the database and frps.
  pub record Backend : Type 0 where
    pub env : Env
    pub frps : t.State

  abbrev pub Ran : Type 0
  Ran = Outcome × Backend

  module _ (limits : Limits) where
    abbrev pub ttl_of : ℕ → ℕ
    ttl_of ttl = if eqb ttl 0 then limits.default_ttl else ttl

    -- The grant that `add` records.
    abbrev pub chat_grant : ChatRequest → String → ℕ → ℕ → Grant
    chat_grant r ip ttl now = record {
      open_id = r.operator_open_id;
      operator_name = r.operator_name;
      ip = ip;
      source = "feishu_command";
      created_at = now;
      expire_at = now + ttl;
    }

    abbrev pub on_synced : ℕ → Reply Entry → Backend → Ran
    on_synced ttl (failed x) b = (add_unsynced x, b)
    on_synced ttl (done entry) b = (granted entry ttl, b)

    -- The rest of `add`, by what AddGrantLimited returned.
    abbrev pub on_recorded : ChatRequest → String → ℕ → (ℕ → ℕ) → Result (Unit {0}) → Backend → Ran
    on_recorded r ip ttl clock (err active_ip_limit) b = (limit_reached, b)
    on_recorded r ip ttl clock (err x) b = (record_failed x, b)
    on_recorded r ip ttl clock (ok _) b =
        let (reply, s) =
          add t ip ttl (display_user r.operator_name r.operator_open_id) (clock 3) b.frps in
        on_synced ttl reply (record b { frps = s })

    -- add
    unfoldable pub add_mine : ChatRequest → String → ℕ → (ℕ → ℕ) → Backend → Ran
    add_mine r ip asked clock b =
        let ttl = ttl_of asked in
        let (recorded, e) =
          add_grant_limited (chat_grant r ip ttl (clock 1)) limits.max_active_ips (clock 2) b.env in
        if ltb limits.max_ttl ttl
        then (ttl_too_long, b)
        else on_recorded r ip ttl clock recorded (record b { env = e })

  abbrev pub on_refreshed : Reply Entry → Backend → Ran
  on_refreshed (failed x) b = (remove_unsynced x, b)
  on_refreshed (done _) b = (still_held, b)

  -- Others still hold the address: it is refreshed under their names.
  abbrev pub refresh : String → ℕ → (ℕ → ℕ) → Result (List Grant) → Backend → Ran
  refresh ip expiry clock (err x) b = (unreconciled x, b)
  refresh ip expiry clock (ok holders) b =
      let (reply, s) = add t ip (expiry - clock 5) (owner_label holders) (clock 6) b.frps in
      on_refreshed reply (record b { frps = s })

  abbrev pub on_deleted : String → Reply Unit → Backend → Ran
  on_deleted ip (done _) b = (revoked ip, b)
  on_deleted ip (failed x) b = if is_not_found x then (revoked ip, b) else (remove_unsynced x, b)

  abbrev pub delete : ChatRequest → String → Backend → Ran
  delete r ip b =
      let (reply, s) = remove t ip (display_user r.operator_name r.operator_open_id) b.frps in
      on_deleted ip reply (record b { frps = s })

  -- By what EffectiveExpiry returned.
  abbrev pub on_expiry : ChatRequest → String → (ℕ → ℕ) → Result (Option ℕ) → Backend → Ran
  on_expiry r ip clock (err x) b = (unreconciled x, b)
  on_expiry r ip clock (ok none) b = delete r ip b
  on_expiry r ip clock (ok (some expiry)) b =
      let (holders, e) = list_active_by_ip ip (clock 4) b.env in
      refresh ip expiry clock holders (record b { env = e })

  -- By the number of grants that RevokeUserIP revoked.
  abbrev pub on_revoked : ChatRequest → String → (ℕ → ℕ) → Result ℕ → Backend → Ran
  on_revoked r ip clock (err x) b = (revoke_failed x, b)
  on_revoked r ip clock (ok n) b =
      let (expiry, e) = effective_expiry ip (clock 3) b.env in
      if eqb n 0 then (not_held ip, b) else on_expiry r ip clock expiry (record b { env = e })

  -- remove
  unfoldable pub remove_mine : ChatRequest → String → (ℕ → ℕ) → Backend → Ran
  remove_mine r ip clock b =
      let (n, e) = revoke_user_ip r.operator_open_id ip (clock 1) (clock 2) b.env in
      on_revoked r ip clock n (record b { env = e })

  abbrev pub listing_of : Result (List Grant) → Outcome
  listing_of (err x) = query_failed x
  listing_of (ok []) = nothing_active
  listing_of (ok (g ∷ gs)) = active_grants (g ∷ gs)

  -- list
  unfoldable pub list_own : ChatRequest → (ℕ → ℕ) → Backend → Ran
  list_own r clock b =
      let (gs, e) = list_user r.operator_open_id (clock 1) b.env in
      (listing_of gs, record b { env = e })

module _ (t : Transport) (limits : Limits) (lib : ChatText) (wording : Wording) where
  abbrev pub grant_lines : List Grant → String
  grant_lines [] = ""
  grant_lines (g ∷ gs) =
      "\n" <> (g.ip <> ("  至 " <> (wording.day_time g.expire_at <> grant_lines gs)))

  -- The replies.
  abbrev pub reply_text : Outcome → String
  reply_text ttl_too_long = "有效期超过允许上限 " <> format wording.decimal limits.max_ttl
  reply_text limit_reached =
      "你最多只能保留 " <> (wording.decimal limits.max_active_ips <> " 个有效 IP，请先删除一个旧 IP")
  reply_text (record_failed x) = "授权记录失败：" <> wording.store_text x
  reply_text (add_unsynced x) = "授权已记录，但同步 frps 失败，请联系管理员：" <> wording.frps_text x
  reply_text (granted entry ttl) =
      "授权成功："
      <> (entry.ip
          <> ("，有效期 "
              <> (format wording.decimal ttl
                  <> ("（至 " <> (wording.day_time (from_unix entry.expire_at) <> "）")))))
  reply_text (revoke_failed x) = "撤销失败：" <> wording.store_text x
  reply_text (not_held ip) = ip <> " 不在你的有效授权中"
  reply_text (unreconciled x) = "撤销已记录，但对账失败：" <> wording.store_text x
  reply_text (remove_unsynced x) = "撤销已记录，但同步 frps 失败，请联系管理员：" <> wording.frps_text x
  reply_text still_held = "已撤销你的授权；该 IP 仍有其他用户的有效授权"
  reply_text (revoked ip) = "授权已撤销：" <> ip
  reply_text (query_failed x) = "查询失败：" <> wording.store_text x
  reply_text nothing_active = "你当前没有有效授权"
  reply_text (active_grants gs) =
      "你的有效授权共 " <> (wording.decimal (length gs) <> (" 条：" <> grant_lines gs))
  reply_text (parse_failed x) = error_text lib x <> ("\n\n" <> usage)
  reply_text shows_usage = usage

  -- The switch of `Execute`.
  abbrev pub dispatch : ChatRequest → (ℕ → ℕ) → ParseResult → Backend t → Ran t
  dispatch r clock (c, some x) b = (parse_failed x, b)
  dispatch r clock (c, none) b = elim c.action [
    | add_ip ↦ add_mine t limits r c.ip c.ttl clock b
    | remove_ip ↦ remove_mine t r c.ip clock b
    | list_mine ↦ list_own t r clock b
    | _ ↦ (shows_usage, b)
  ]

  -- The reply is saved, or the failure to save it only logged.
  abbrev pub save_outcome : ChatRequest → (ℕ → ℕ) → Ran t → String × Backend t
  save_outcome r clock (outcome, b) =
      let (_, e) = save_reply r.message_id (reply_text outcome) (clock 7) b.env in
      (reply_text outcome, record b { env = e })

  abbrev pub run_command : ChatRequest → (ℕ → ℕ) → Backend t → String × Backend t
  run_command r clock b = save_outcome r clock (dispatch r clock (parse_command lib r.text) b)

  abbrev pub on_cached :
      ChatRequest → (ℕ → ℕ) → Result (Option String) → Backend t → String × Backend t
  on_cached r clock (ok (some reply)) b = (reply, b)
  on_cached r clock _ b = run_command r clock b

  -- Execute
  unfoldable pub execute : ChatRequest → (ℕ → ℕ) → Backend t → String × Backend t
  execute r clock b =
      let (cached, e) = cached_reply r.message_id b.env in
      on_cached r clock cached (record b { env = e })
