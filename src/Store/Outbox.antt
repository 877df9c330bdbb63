-- ===== src/Store/Outbox.antt =====
-- store/store.go: replies that wait to be sent. `now` is `time.Now()` in nanoseconds.
pub mod Sent
mod Tests
use frps_gateway.Base.{
  ℕ, zero, suc, ◌+◌, ◌*◌, ◌^◌, min, String, Bool, ◌&&◌, ◌||◌, Option, none, some, List, [], ◌∷◌,
  ◌++◌, map, ◌==◌, leb, is_none, if◌then◌else◌, length, select, has, update, take, sort_by, unix,
  second,
}
use frps_gateway.Store.Schema.{Db, OutboxRow, OutboxMessage}
use frps_gateway.Store.Sql.{Sql, missing_ids, raise, query, exec}

-- INSERT ... ON CONFLICT(id) DO UPDATE SET chat_id, body WHERE sent_at IS NULL
unfoldable pub upsert_reply : String → String → String → ℕ → Db → Db
upsert_reply id chat_id body now d =
    if has (λ r. r.id == id) d.reply_outbox
    then record d {
      reply_outbox =
          update (λ r. r.id == id && is_none r.sent_at)
            (λ r. record r { chat_id = chat_id; body = body }) d.reply_outbox;
    }
    else record d {
      reply_outbox =
          d.reply_outbox
          ++ record {
            id = id;
            chat_id = chat_id;
            body = body;
            attempts = 0;
            next_attempt_at = now;
            created_at = now;
            sent_at = none;
          }
            ∷ [];
    }

-- EnqueueReply
unfoldable pub enqueue_reply : String → String → String → ℕ → Sql Unit
unfolding upsert_reply
enqueue_reply message_id chat_id body now =
    if message_id == "" || chat_id == ""
    then raise missing_ids
    else exec (upsert_reply message_id chat_id body (unix now))

-- sent_at IS NULL AND next_attempt_at<=?
abbrev pub is_due : ℕ → OutboxRow → Bool
is_due now r = is_none r.sent_at && leb r.next_attempt_at now

abbrev pub outbox_message : OutboxRow → OutboxMessage
outbox_message r = record { id = r.id; chat_id = r.chat_id; text = r.body; attempts = r.attempts }

abbrev pub page_limit : ℕ → ℕ
page_limit zero = 20
page_limit (suc n) = suc n

unfoldable pub due_replies : ℕ → ℕ → Db → List OutboxMessage
due_replies limit now d =
    map outbox_message
      (take (page_limit limit) (sort_by (λ r. r.created_at) (select (is_due now) d.reply_outbox)))

-- PendingReplies. A limit of zero or less is `0` here.
unfoldable pub pending_replies : ℕ → ℕ → Sql (List OutboxMessage)
unfolding due_replies
pending_replies limit now = query (due_replies limit (unix now))

unfoldable pub set_sent : String → ℕ → Db → Db
set_sent id now d = record d {
  reply_outbox = update (λ r. r.id == id) (λ r. record r { sent_at = some now }) d.reply_outbox;
}

-- MarkReplySent
unfoldable pub mark_reply_sent : String → ℕ → Sql Unit
unfolding set_sent
mark_reply_sent id now = exec (set_sent id (unix now))

-- time.Duration(1<<min(attempts, 8)) * time.Second
abbrev pub retry_delay : ℕ → ℕ
retry_delay attempts = 2 ^ min attempts 8 * second

unfoldable pub postpone : String → ℕ → Db → Db
postpone id at d = record d {
  reply_outbox =
      update (λ r. r.id == id && is_none r.sent_at)
        (λ r. record r { attempts = r.attempts + 1; next_attempt_at = at }) d.reply_outbox;
}

-- RetryReply
unfoldable pub retry_reply : String → ℕ → ℕ → Sql Unit
unfolding postpone
retry_reply id attempts now = exec (postpone id (unix (now + retry_delay attempts)))

-- PendingReplyCount
pub pending_reply_count : Sql ℕ
pending_reply_count = query λ d. length (select (λ r. is_none r.sent_at) d.reply_outbox)
