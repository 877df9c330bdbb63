-- ===== src/Feishu/Bot.antt =====
-- feishu/bot.go: how the bot of main.go, which has an outbox, handles messages and card actions.
-- `clock n` is the n-th reading of the time in a call.
pub mod Answered
pub mod Queued
mod Tests
use frps_gateway.Base.{
  ℕ, String, ◌<>◌, ◌==◌, Bool, true, false, ◌&&◌, ◌||◌, not, Option, none, some, List, [], ◌∷◌,
  if◌then◌else◌, is_none, contains,
}
use frps_gateway.Store.Schema.{Grant}
use frps_gateway.Store.Sql.{Env, StoreError, Result, ok, err}
use frps_gateway.Store.Outbox.{enqueue_reply}
use frps_gateway.Store.Grants.{list_user}
use frps_gateway.Command.{ChatText, Action, menu, apply_link, ParseResult, parse_command}
use frps_gateway.Executor.Commands.{ChatRequest}
use frps_gateway.Feishu.Rate.{Limiter, allow}
use frps_gateway.Feishu.Cards.{
  Card, menu_card, apply_link_card, apply_instructions_card, grants_card,
}

-- Executor, the interface: a link is none if it could not be issued.
pub record ChatExecutor : Type 1 where
  pub State : Type 0
  pub execute : ChatRequest → Env → State → String × Env × State
  pub authorize_link : ChatRequest → Env → State → Option String × Env × State

-- What the bot uses of other packages: json.Marshal of a card, the text of a message's JSON.
pub record BotLibrary : Type 1 where
  pub chat_text : ChatText
  pub marshal_card : Card → Option String
  pub extract_text : String → Option String
  pub decimal : ℕ → String
  pub day_time : ℕ → String

-- The fields of Bot that its configuration sets.
pub record BotConfig : Type 0 where
  pub app_id : String
  pub admin_chat_id : String
  pub allow_all_users : Bool
  pub require_mention : Bool
  pub requests_per_minute : ℕ
  pub default_ttl : String
  pub link_ttl : String

-- A message event: its app is none without a header, and a field that is nil is empty.
pub record MessageEvent : Type 0 where
  pub app : Option String
  pub sender_type : String
  pub message_type : String
  pub open_id : String
  pub chat_id : String
  pub chat_type : String
  pub mentioned_types : List String
  pub message_id : String
  pub content : String

-- A card action: its app, operator and place, and the action and address that its value has.
pub record CardEvent : Type 0 where
  pub app : String
  pub open_id : String
  pub chat_id : String
  pub open_message_id : String
  pub event_id : String
  pub action : String
  pub ip : String

-- The errors of `handle`.
pub data HandleError : Type 0 where
  not_stored : StoreError → HandleError
  not_marshalled : HandleError

-- What a callback answers.
pub data CardAnswer : Type 0 where
  toast : String → String → CardAnswer
  shows : Card → CardAnswer
  shows_with_toast : Card → String → String → CardAnswer

abbrev pub interactive_reply_prefix : String
interactive_reply_prefix = "__FRPS_GATEWAY_INTERACTIVE_V1__:"

module _ (exec : ChatExecutor) (lib : BotLibrary) (config : BotConfig) where
  pub record Bench : Type 0 where
    pub env : Env
    pub state : exec.State
    pub limiter : Limiter

  abbrev pub Ran : Type 0
  Ran = Option HandleError × Bench

  abbrev pub error_of : Result (Unit {0}) → Option HandleError
  error_of (ok u) = none
  error_of (err x) = some (not_stored x)

  -- deliverReply
  abbrev pub deliver_reply : String → String → String → ℕ → Bench → Ran
  deliver_reply id chat_id reply now b =
      let (stored, e) = enqueue_reply id chat_id reply now b.env in
      (error_of stored, record b { env = e })

  abbrev pub deliver_content : String → String → Option String → ℕ → Bench → Ran
  deliver_content id chat_id none now b = (some not_marshalled, b)
  deliver_content id chat_id (some content) now b =
      deliver_reply id chat_id (interactive_reply_prefix <> content) now b

  -- deliverCard
  abbrev pub deliver_card : String → String → ℕ → Card × Bench → Ran
  deliver_card id chat_id now (card, b) = deliver_content id chat_id (lib.marshal_card card) now b

  abbrev pub link_request : String → String → ChatRequest
  link_request open_id id = record {
    text = "";
    operator_open_id = open_id;
    operator_name = "";
    chat_id = "";
    message_id = id;
  }

  abbrev pub menu_for : Option String → Card
  menu_for none = menu_card "" ""
  menu_for (some link) = if link == "" then menu_card "" "" else menu_card link config.link_ttl

  -- menuCardFor
  abbrev pub menu_card_for : String → String → Bench → Card × Bench
  menu_card_for open_id id b =
      let (link, e, s) = exec.authorize_link (link_request open_id id) b.env b.state in
      (menu_for link, record b { env = e; state = s })

  abbrev pub apply_for : Option String → Card
  apply_for none = apply_instructions_card config.default_ttl
  apply_for (some link) =
      if link == ""
      then apply_instructions_card config.default_ttl
      else apply_link_card link config.default_ttl config.link_ttl

  -- applyCardFor
  abbrev pub apply_card_for : String → String → Bench → Card × Bench
  apply_card_for open_id id b =
      let (link, e, s) = exec.authorize_link (link_request open_id id) b.env b.state in
      (apply_for link, record b { env = e; state = s })

  -- The request that a message makes of the executor.
  abbrev pub chat_request : MessageEvent → String → ChatRequest
  chat_request m text = record {
    text = text;
    operator_open_id = m.open_id;
    operator_name = "";
    chat_id = m.chat_id;
    message_id = m.message_id;
  }

  -- The call of the executor, and the delivery of its reply.
  abbrev pub answer_command : MessageEvent → String → ℕ → Bench → Ran
  answer_command m text now b =
      let (reply, e, s) = exec.execute (chat_request m text) b.env b.state in
      deliver_reply m.message_id m.chat_id reply now (record b { env = e; state = s })

  abbrev pub answer_action : MessageEvent → String → Action → ℕ → Bench → Ran
  answer_action m text menu now b =
      let id = m.message_id <> ":menu" in
      deliver_card id m.chat_id now (menu_card_for m.open_id id b)
  answer_action m text apply_link now b =
      let id = m.message_id <> ":apply" in
      deliver_card id m.chat_id now (apply_card_for m.open_id id b)
  answer_action m text _ now b = answer_command m text now b

  abbrev pub answer_parsed : MessageEvent → String → ParseResult → ℕ → Bench → Ran
  answer_parsed m text (c, some x) now b = answer_command m text now b
  answer_parsed m text (c, none) now b = answer_action m text c.action now b

  abbrev pub answer_content : MessageEvent → Option String → ℕ → Bench → Ran
  answer_content m none now b = (none, b)
  answer_content m (some text) now b = answer_parsed m text (parse_command lib.chat_text text) now b

  -- mentionsBot
  abbrev pub mentions_bot : List String → Bool
  mentions_bot types = contains types "bot"

  abbrev pub is_app : Option String → Bool
  is_app none = false
  is_app (some app) = app == config.app_id

  -- The messages that the bot does not answer.
  abbrev pub is_ignored : MessageEvent → Bool
  is_ignored m =
      not (is_app m.app)
      || not (m.sender_type == "user")
      || not (m.message_type == "text")
      || (not config.allow_all_users && not (m.chat_id == config.admin_chat_id))
      || (m.chat_type == "group" && config.require_mention && not (mentions_bot m.mentioned_types))

  abbrev pub answer_limited : MessageEvent → Bool → ℕ → Bench → Ran
  answer_limited m true now b = answer_content m (lib.extract_text m.content) now b
  answer_limited m false now b =
      deliver_reply (m.message_id <> ":rate-limit") m.chat_id "请求过于频繁，请稍后再试" now b

  -- handle, of an event that has a message and a sender, if it does
  unfoldable pub handle : Option MessageEvent → (ℕ → ℕ) → Bench → Ran
  handle none clock b = (none, b)
  handle (some m) clock b =
      let (passed, limiter) = allow config.requests_per_minute m.open_id (clock 0) b.limiter in
      if is_ignored m
      then (none, b)
      else answer_limited m passed (clock 1) (record b { limiter = limiter })

  abbrev pub grants_answer : Result (List Grant) → Bool → CardAnswer
  grants_answer (err x) revocable = toast "error" "查询失败，请稍后重试"
  grants_answer (ok gs) revocable = shows (grants_card lib.decimal lib.day_time gs revocable)

  -- userGrants, and the card of what it returns
  abbrev pub show_grants : String → Bool → ℕ → Bench → CardAnswer × Bench
  show_grants open_id revocable now b =
      let (gs, e) = list_user open_id now b.env in
      (grants_answer gs revocable, record b { env = e })

  abbrev pub revoked_answer : Result (List Grant) → String → CardAnswer
  revoked_answer (err x) reply = toast "warning" reply
  revoked_answer (ok gs) reply =
      shows_with_toast (grants_card lib.decimal lib.day_time gs true) "success" reply

  abbrev pub revoke_by_card : CardEvent → String → ℕ → Bench → CardAnswer × Bench
  revoke_by_card c id now b =
      let (reply, e, s) =
        exec.execute
          (record {
            text = "撤销授权 " <> c.ip;
            operator_open_id = c.open_id;
            operator_name = "";
            chat_id = c.chat_id;
            message_id = id;
          })
          b.env b.state in
      let (gs, e') = list_user c.open_id now e in
      (revoked_answer gs reply, record b { env = e'; state = s })

  abbrev pub as_answer : Card × Bench → CardAnswer × Bench
  as_answer (card, b) = (shows card, b)

  abbrev pub event_key : CardEvent → String
  event_key c =
      if c.event_id == ""
      then c.open_message_id <> (":" <> (c.action <> (":" <> c.ip)))
      else c.event_id

  -- The switch of `onCardAction`.
  abbrev pub run_card_action : CardEvent → ℕ → Bench → CardAnswer × Bench
  run_card_action c now b =
      if c.action == "apply"
      then as_answer (apply_card_for c.open_id (event_key c) b)
      else if c.action == "list"
      then show_grants c.open_id false now b
      else if c.action == "revoke_menu"
      then show_grants c.open_id true now b
      else if c.action == "revoke"
      then (if is_none (lib.chat_text.parse_ip c.ip)
          then (toast "error" "无效的 IP 地址", b)
          else revoke_by_card c (event_key c) now b)
      else if c.action == "menu"
      then as_answer (menu_card_for c.open_id (event_key c) b)
      else (toast "error" "不支持的操作", b)

  abbrev pub card_limited : CardEvent → Bool → ℕ → Bench → CardAnswer × Bench
  card_limited c true now b = run_card_action c now b
  card_limited c false now b = (toast "warning" "操作太频繁，请稍后再试", b)

  -- onCardAction, of an event that has all its parts, if it does
  unfoldable pub on_card_action : Option CardEvent → (ℕ → ℕ) → Bench → CardAnswer × Bench
  on_card_action none clock b = (toast "error" "无效的卡片操作", b)
  on_card_action (some c) clock b =
      let (passed, limiter) = allow config.requests_per_minute c.open_id (clock 0) b.limiter in
      if not (c.app == config.app_id)
      then (toast "error" "应用校验失败", b)
      else if c.open_id == "" || c.chat_id == ""
      then (toast "error" "无法识别操作者", b)
      else if not config.allow_all_users && not (c.chat_id == config.admin_chat_id)
      then (toast "error" "你不在允许使用范围内", b)
      else card_limited c passed (clock 1) (record b { limiter = limiter })
