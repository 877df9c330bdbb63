-- ===== src/Feishu/Delivery/Waiting.antt =====
-- No reply that waits is lost by `flushReplies` of feishu/bot.go.
use frps_gateway.Base.{
  ℕ, ◌+◌, String, ◌==◌, eq_iff, ◌≡◌, refl, subst, ◌∙◌, Bool, true, false, ◌&&◌, ◌⊎◌, inl, inr,
  Bool-cases, Option, none, some, List, [], ◌∷◌, has, update, is_none, unix,
}
use text.Mathlib.Text.{starts_with}
use frps_gateway.Store.Schema.{Db, OutboxRow, OutboxMessage}
use frps_gateway.Store.Sql.{Env}
use frps_gateway.Store.Sql.Runs.{query-cases, exec-cases}
use frps_gateway.Store.Outbox.{
  set_sent, mark_reply_sent, retry_delay, postpone, retry_reply, due_replies, pending_replies,
}
use frps_gateway.Feishu.Bot.{interactive_reply_prefix}
use frps_gateway.Feishu.Delivery.{
  CreateMessage, MessageApi, delivery_uuid, create_with, send_reply, Mailbox, on_sent, send_each,
  flush_replies,
}

-- Whether a reply is in the outbox and not marked as sent.
abbrev pub is_unsent : String → OutboxRow → Bool
is_unsent id r = r.id == id && is_none r.sent_at

abbrev pub waiting : String → Db → Bool
waiting id d = has (is_unsent id) d.reply_outbox

-- The API of Feishu: a message whose creation succeeded is accepted under its UUID, and stays so.
pub record MessageLaws (api : MessageApi) : Type 0 where
  pub accepted : api.State → String → Bool
  pub create_accepts :
      (m : CreateMessage) (f : api.State)
      → (api.create m f).0 ≡ true
      → accepted (api.create m f).1 m.uuid ≡ true
  pub create_keeps :
      (m : CreateMessage) (f : api.State) (uuid : String)
      → accepted f uuid ≡ true
      → accepted (api.create m f).1 uuid ≡ true

has-update :
    (p hit : OutboxRow → Bool) (f : OutboxRow → OutboxRow) (rs : List OutboxRow)
    → ((r : OutboxRow) → hit r ≡ true → p (f r) ≡ p r)
    → has p (update hit f rs) ≡ has p rs
has-update p hit f [] h = refl
has-update p hit f (r ∷ rs) h = elim (Bool-cases (hit r)) [
  | inl on ↦ rw (on, h r on, has-update p hit f rs h) refl
  | inr off ↦ rw (off, has-update p hit f rs h) refl
]

waiting-set_sent :
    (id x : String) (now : ℕ) (d : Db)
    → (x == id) ≡ false
    → waiting id (set_sent x now d) ≡ waiting id d
unfolding set_sent
waiting-set_sent id x now d other =
    has-update (is_unsent id) (λ r. r.id == x) (λ r. record r { sent_at = some now }) d.reply_outbox
      (λ r same. rw ((eq_iff r.id x).0 same, other) refl)

waiting-postpone : (id x : String) (at : ℕ) (d : Db) → waiting id (postpone x at d) ≡ waiting id d
unfolding postpone
waiting-postpone id x at d =
    has-update (is_unsent id) (λ r. r.id == x && is_none r.sent_at)
      (λ r. record r { attempts = r.attempts + 1; next_attempt_at = at }) d.reply_outbox
      (λ r h. refl)

waiting-mark_reply_sent :
    (id x : String) (now : ℕ) (e : Env)
    → (x == id) ≡ false
    → waiting id (mark_reply_sent x now e).1.db ≡ waiting id e.db
unfolding mark_reply_sent
waiting-mark_reply_sent id x now e other = elim (exec-cases (set_sent x (unix now)) e) [
  | inl broken ↦ rw broken refl
  | inr ran ↦ rw ran (waiting-set_sent id x (unix now) e.db other)
]

waiting-retry_reply :
    (id x : String) (attempts now : ℕ) (e : Env)
    → waiting id (retry_reply x attempts now e).1.db ≡ waiting id e.db
unfolding retry_reply
waiting-retry_reply id x attempts now e =
    elim (exec-cases (postpone x (unix (now + retry_delay attempts))) e) [
      | inl broken ↦ rw broken refl
      | inr ran ↦ rw ran (waiting-postpone id x (unix (now + retry_delay attempts)) e.db)
    ]

module _ (api : MessageApi) (laws : MessageLaws api) where
  create_with-accepted :
      (id chat_id msg_type : String) (content : Option String) (f : api.State)
      → (create_with api id chat_id msg_type content f).0 ≡ true
      → laws.accepted (create_with api id chat_id msg_type content f).1 (delivery_uuid api id)
        ≡ true
  create_with-accepted id chat_id msg_type none f h = cc h
  create_with-accepted id chat_id msg_type (some content) f h = laws.create_accepts _ f h

  create_with-keeps :
      (id chat_id msg_type : String) (content : Option String) (f : api.State) (uuid : String)
      → laws.accepted f uuid ≡ true
      → laws.accepted (create_with api id chat_id msg_type content f).1 uuid ≡ true
  create_with-keeps id chat_id msg_type none f uuid h = h
  create_with-keeps id chat_id msg_type (some content) f uuid h = laws.create_keeps _ f uuid h

  send_reply-accepted :
      (id chat_id reply : String) (f : api.State)
      → (send_reply api id chat_id reply f).0 ≡ true
      → laws.accepted (send_reply api id chat_id reply f).1 (delivery_uuid api id) ≡ true
  send_reply-accepted id chat_id reply f h =
      elim (Bool-cases (starts_with reply interactive_reply_prefix)) [
        | inl card ↦ rw card (create_with-accepted id chat_id "interactive" _ f (rw card at h))
        | inr text ↦ rw text (create_with-accepted id chat_id "text" _ f (rw text at h))
      ]

  send_reply-keeps :
      (id chat_id reply : String) (f : api.State) (uuid : String)
      → laws.accepted f uuid ≡ true
      → laws.accepted (send_reply api id chat_id reply f).1 uuid ≡ true
  send_reply-keeps id chat_id reply f uuid h =
      elim (Bool-cases (starts_with reply interactive_reply_prefix)) [
        | inl card ↦ rw card (create_with-keeps id chat_id "interactive" _ f uuid h)
        | inr text ↦ rw text (create_with-keeps id chat_id "text" _ f uuid h)
      ]

  -- A reply is waiting, or Feishu has accepted it.
  abbrev pub Safe : String → Mailbox api → Type 0
  Safe id m = (waiting id m.env.db ≡ true) ⊎ (laws.accepted m.feishu (delivery_uuid api id) ≡ true)

  on_sent-waiting :
      (id : String) (sent : Bool) (item : OutboxMessage) (now : ℕ) (e : Env)
      → waiting id e.db ≡ true
      → (waiting id (on_sent api sent item now e).db ≡ true) ⊎ ((sent ≡ true) × (item.id ≡ id))
  on_sent-waiting id false item now e h =
      inl (waiting-retry_reply id item.id item.attempts now e ∙ h)
  on_sent-waiting id true item now e h = elim (Bool-cases (item.id == id)) [
    | inl same ↦ inr (refl, (eq_iff item.id id).0 same)
    | inr other ↦ inl (waiting-mark_reply_sent id item.id now e other ∙ h)
  ]

  send_one-Safe :
      (id : String) (item : OutboxMessage) (now : ℕ) (m : Mailbox api)
      → Safe id m
      → let (sent, f) = send_reply api item.id item.chat_id item.text m.feishu in
        Safe id (record { env = on_sent api sent item now m.env; feishu = f })
  send_one-Safe id item now m (inr held) =
      inr (send_reply-keeps item.id item.chat_id item.text m.feishu (delivery_uuid api id) held)
  send_one-Safe id item now m (inl unsent) =
      let (sent, f) = send_reply api item.id item.chat_id item.text m.feishu in
      elim (on_sent-waiting id sent item now m.env unsent) [
        | inl still ↦ inl still
        | inr (done, same) ↦ inr (
            subst (λ (x : String). laws.accepted f (delivery_uuid api x) ≡ true) same
              (send_reply-accepted item.id item.chat_id item.text m.feishu done))
      ]

  send_each-Safe :
      (id : String) (items : List OutboxMessage) (clock : OutboxMessage → ℕ) (m : Mailbox api)
      → Safe id m
      → Safe id (send_each api items clock m)
  unfolding send_each
  send_each-Safe id [] clock m h = h
  send_each-Safe id (item ∷ items) clock m h =
      send_each-Safe id items clock _ (send_one-Safe id item (clock item) m h)

  -- A reply that waits in the outbox, or that Feishu has accepted under its UUID, does so too after the
  -- bot has flushed the outbox, whatever sends and statements fail, if Feishu keeps what it accepted.
  pub flush_replies-Safe :
      (id : String) (now : ℕ) (clock : OutboxMessage → ℕ) (m : Mailbox api)
      → Safe id m
      → Safe id (flush_replies api now clock m)
  unfolding flush_replies pending_replies
  flush_replies-Safe id now clock m h = elim (query-cases (due_replies 20 (unix now)) m.env) [
    | inl broken ↦ rw broken h
    | inr ran ↦ rw ran (send_each-Safe id (due_replies 20 (unix now) m.env.db) clock _ h)
  ]
