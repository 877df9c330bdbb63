-- ===== src/Feishu/Delivery.antt =====
-- feishu/bot.go: the loop bodies of the bot: `flushReplies`, which sends what waits in the outbox, and a
-- round of `runInbox`. The API of Feishu is a parameter with a state of its own; the digits of the
-- SHA-256 of a text from one byte to another are `hex`.
pub mod Waiting
pub mod Rounds
pub mod Wired
mod Tests
use Prim.Native.String.{len, slice}
use text.Mathlib.Text.{starts_with}
use frps_gateway.Base.{
  ℕ, suc, String, ◌<>◌, Bool, true, false, not, Option, none, some, List, [], ◌∷◌, if◌then◌else◌,
  is_none,
}
use frps_gateway.Store.Schema.{OutboxMessage, InboxEvent}
use frps_gateway.Store.Sql.{Env, Result, ok, err}
use frps_gateway.Store.Outbox.{pending_replies, mark_reply_sent, retry_reply}
use frps_gateway.Store.Inbox.{claim_inbox, complete_inbox, retry_inbox}
use frps_gateway.Feishu.Bot.{
  ChatExecutor, BotLibrary, BotConfig, MessageEvent, HandleError, not_stored, Bench, handle,
  error_of, interactive_reply_prefix,
}

-- A request to create a message.
pub record CreateMessage : Type 0 where
  pub receive_id : String
  pub msg_type : String
  pub content : String
  pub uuid : String

-- The API and encoding/json; `create` tells whether the call and its response succeeded.
pub record MessageApi : Type 1 where
  pub State : Type 0
  pub create : CreateMessage → State → Bool × State
  pub is_json : String → Bool
  pub text_json : String → Option String
  pub hex : String → ℕ → ℕ → String

module _ (api : MessageApi) where
  -- deliveryUUID
  abbrev pub delivery_uuid : String → String
  delivery_uuid id =
      let hex = api.hex ("frps-gateway/reply/" <> id) in
      hex 0 4
      <> ("-" <> (hex 4 6 <> ("-" <> (hex 6 8 <> ("-" <> (hex 8 10 <> ("-" <> hex 10 16)))))))

  abbrev pub create_with : String → String → String → Option String → api.State → Bool × api.State
  create_with id chat_id msg_type none f = (false, f)
  create_with id chat_id msg_type (some content) f =
      api.create
        (record {
          receive_id = chat_id;
          msg_type = msg_type;
          content = content;
          uuid = delivery_uuid id;
        })
        f

  abbrev pub card_content : String → Option String
  card_content content = if api.is_json content then some content else none

  -- sendReply, true for a nil error
  abbrev pub send_reply : String → String → String → api.State → Bool × api.State
  send_reply id chat_id reply f =
      if starts_with reply interactive_reply_prefix
      then create_with id chat_id "interactive"
          (card_content (slice reply (len interactive_reply_prefix) (len reply))) f
      else create_with id chat_id "text" (api.text_json reply) f

  pub record Mailbox : Type 0 where
    pub env : Env
    pub feishu : api.State

  -- What follows a send; its errors are logged.
  abbrev pub on_sent : Bool → OutboxMessage → ℕ → Env → Env
  on_sent true item now e = (mark_reply_sent item.id now e).1
  on_sent false item now e = (retry_reply item.id item.attempts now e).1

  -- The loop of `flushReplies`; `clock` is the time after the send of an item.
  pub send_each : List OutboxMessage → (OutboxMessage → ℕ) → Mailbox → Mailbox
  send_each [] clock m = m
  send_each (item ∷ items) clock m =
      let (sent, f) = send_reply item.id item.chat_id item.text m.feishu in
      send_each items clock (record { env = on_sent sent item (clock item) m.env; feishu = f })

  abbrev pub send_pending : Result (List OutboxMessage) → (OutboxMessage → ℕ) → Mailbox → Mailbox
  send_pending (err x) clock m = m
  send_pending (ok items) clock m = send_each items clock m

  -- flushReplies
  unfoldable pub flush_replies : ℕ → (OutboxMessage → ℕ) → Mailbox → Mailbox
  flush_replies now clock m =
      let (items, e) = pending_replies 20 now m.env in
      send_pending items clock (record m { env = e })

module _ (exec : ChatExecutor) (lib : BotLibrary) (config : BotConfig)
    (unmarshal : String → Option (Option MessageEvent)) where
  -- A payload that is not JSON, or what `handle` returns.
  abbrev pub handle_payload :
      Option (Option MessageEvent) → (ℕ → ℕ) → Bench exec lib config → Bool × Bench exec lib config
  handle_payload none clock b = (false, b)
  handle_payload (some event) clock b =
      let (x, b') = handle exec lib config event clock b in (is_none x, b')

  abbrev pub is_ok : Result (Unit {0}) → Bool
  is_ok (ok u) = true
  is_ok (err x) = false

  abbrev pub retry_event : InboxEvent → ℕ → Bench exec lib config → Bench exec lib config
  retry_event item now b = record b { env = (retry_inbox item.id item.attempts now b.env).1 }

  -- From `CompleteInbox` on, after the event was handled or not.
  abbrev pub finish_event :
      InboxEvent → Bool → (ℕ → ℕ) → Bench exec lib config → Bench exec lib config
  finish_event item false clock b = retry_event item (clock 4) b
  finish_event item true clock b =
      let (completed, e) = complete_inbox item.id (clock 3) b.env in
      let b' : Bench exec lib config = record b { env = e } in
      if is_ok completed then b' else retry_event item (clock 4) b'

  abbrev pub on_claimed :
      Result (Option InboxEvent) → (ℕ → ℕ) → Bench exec lib config → Bench exec lib config
  on_claimed (err x) clock b = b
  on_claimed (ok none) clock b = b
  on_claimed (ok (some item)) clock b =
      let (handled, b') = handle_payload (unmarshal item.payload) clock b in
      finish_event item handled clock b'

  -- A round of `runInbox`
  unfoldable pub inbox_round : (ℕ → ℕ) → Bench exec lib config → Bench exec lib config
  inbox_round clock b =
      let (claimed, e) = claim_inbox (clock 2) b.env in
      on_claimed claimed clock (record b { env = e })
