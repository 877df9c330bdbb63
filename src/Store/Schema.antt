-- ===== src/Store/Schema.antt =====
-- store/store.go: the tables that `Open` creates, one record type for the rows of each, and the
-- values that the methods return. A column of seconds is a number, NULL is `none`, and a BLOB is a
-- text, since blobs are only compared. Rows stand in the order of their insertion.
use frps_gateway.Base.{ℕ, String, Option, List, []}

-- messages
pub record Message : Type 0 where
  pub message_id : String
  pub reply : String
  pub created_at : ℕ

-- grants
pub record GrantRow : Type 0 where
  pub id : ℕ
  pub open_id : String
  pub operator_name : String
  pub ip : String
  pub source : String
  pub created_at : ℕ
  pub expire_at : ℕ
  pub revoked_at : Option ℕ

-- auth_tokens
pub record TokenRow : Type 0 where
  pub token_hash : String
  pub open_id : String
  pub operator_name : String
  pub message_id : String
  pub ttl_seconds : ℕ
  pub expires_at : ℕ
  pub used_at : Option ℕ

-- access_records; the owner columns of `AccessRecord` are computed when a page is read
pub record AccessRow : Type 0 where
  pub instance_id : String
  pub seq : ℕ
  pub time : ℕ
  pub ip : String
  pub user : String
  pub source : String
  pub action : String
  pub reason : String

-- reply_outbox
pub record OutboxRow : Type 0 where
  pub id : String
  pub chat_id : String
  pub body : String
  pub attempts : ℕ
  pub next_attempt_at : ℕ
  pub created_at : ℕ
  pub sent_at : Option ℕ

-- the values of the column bot_inbox.status
pub data InboxStatus : Type 0 where
  pending processing completed : InboxStatus

-- bot_inbox
pub record InboxRow : Type 0 where
  pub id : String
  pub payload : String
  pub status : InboxStatus
  pub attempts : ℕ
  pub next_attempt_at : ℕ
  pub created_at : ℕ
  pub completed_at : Option ℕ

-- admin_audit
pub record AuditRow : Type 0 where
  pub id : ℕ
  pub actor : String
  pub action : String
  pub grant_id : ℕ
  pub target_open_id : String
  pub target_name : String
  pub ip : String
  pub source : String
  pub created_at : ℕ
  pub expire_at : Option ℕ
  pub result : String
  pub detail : String

pub record Db : Type 0 where
  pub messages : List Message
  pub grants : List GrantRow
  pub auth_tokens : List TokenRow
  pub managed_ips : List String
  pub access_records : List AccessRow
  pub reply_outbox : List OutboxRow
  pub bot_inbox : List InboxRow
  pub admin_audit : List AuditRow

abbrev pub empty_db : Db
empty_db = record {
  messages = [];
  grants = [];
  auth_tokens = [];
  managed_ips = [];
  access_records = [];
  reply_outbox = [];
  bot_inbox = [];
  admin_audit = [];
}

-- type Grant; its times are nanoseconds
pub record Grant : Type 0 where
  pub open_id : String
  pub operator_name : String
  pub ip : String
  pub source : String
  pub created_at : ℕ
  pub expire_at : ℕ

-- type GrantRecord; its times are nanoseconds
pub record GrantRecord : Type 0 where
  pub id : ℕ
  pub open_id : String
  pub operator_name : String
  pub ip : String
  pub source : String
  pub created_at : ℕ
  pub expire_at : ℕ
  pub revoked_at : Option ℕ

-- type OutboxMessage
pub record OutboxMessage : Type 0 where
  pub id : String
  pub chat_id : String
  pub text : String
  pub attempts : ℕ

-- type InboxEvent
pub record InboxEvent : Type 0 where
  pub id : String
  pub payload : String
  pub attempts : ℕ
