-- ===== src/Feishu/Delivery/Tests.antt =====
-- A flush of the outbox by feishu/bot.go, with an API that keeps the UUIDs of its messages.
use frps_gateway.Base.{
  ℕ, ◌+◌, ◌⊎◌, String, ◌≡◌, refl, true, false, inl, Option, none, some, List, [], ◌∷◌, contains,
  text_refl, arith,
}
use frps_gateway.Store.Schema.{empty_db, pending}
use frps_gateway.Store.Inbox.Unfinished.{open_event}
use frps_gateway.Command.Plain.{texts}
use frps_gateway.Feishu.Rate.{new_limiter}
use frps_gateway.Feishu.Bot.{ChatExecutor, BotLibrary, BotConfig, MessageEvent, Bench}
use frps_gateway.Feishu.Delivery.Rounds.{HandledIn}
use frps_gateway.Feishu.Delivery.Wired.{Links, executor, executor-KeepsInbox, inbox_round-open}
use frps_gateway.Frps.{Transport}
use frps_gateway.Executor.Commands.{Limits, Wording}
use frps_gateway.Store.Sql.{◌>>=◌}
use frps_gateway.Store.Outbox.{pending_replies, due_replies, mark_reply_sent, set_sent}
use frps_gateway.Feishu.Delivery.{MessageApi, Mailbox, flush_replies, send_each, inbox_round}
use frps_gateway.Feishu.Delivery.Waiting.{MessageLaws, waiting, Safe, flush_replies-Safe}

abbrev keeping : MessageApi
keeping = record {
  State = List String;
  create = λ m f. (true, m.uuid ∷ f);
  is_json = λ s. true;
  text_json = λ s. some s;
  hex = λ s a b. s;
}

keeping_laws : MessageLaws keeping
keeping_laws = record {
  accepted = contains;
  create_accepts = λ m f h. ground (arith, text_refl m.uuid);
  create_keeps = λ m f uuid h. ground (arith, h);
}

abbrev mailbox : Mailbox keeping
mailbox = record {
  env = record {
    db = record empty_db {
      reply_outbox =
          record {
            id = "om_1";
            chat_id = "oc_1";
            body = "done";
            attempts = 0;
            next_attempt_at = 0;
            created_at = 0;
            sent_at = none;
          }
          ∷ [];
    };
    faults = [];
  };
  feishu = [];
}

is_marked :
    waiting "om_1" (flush_replies keeping 1000000000 (λ item. 1000000000) mailbox).env.db ≡ false
unfolding flush_replies pending_replies due_replies send_each mark_reply_sent set_sent ◌>>=◌
is_marked = refl

flush_example :
    Safe keeping keeping_laws "om_1" (flush_replies keeping 1000000000 (λ item. 1000000000) mailbox)
flush_example =
    flush_replies-Safe keeping keeping_laws "om_1" 1000000000 (λ item. 1000000000) mailbox
      (inl refl)

-- An frps that answers every request, and counts them.
abbrev answering : Transport
answering = record {
  State = ℕ;
  send = λ q n. (some (record { status = 200; size = 1; body = "" }), n + 1);
  decode_envelope = λ body. some (record { code = 200; data_field = none });
  decode_entry = λ body. none;
  format_int = λ n. "1";
}

abbrev limits : Limits
limits = record { default_ttl = 3600000000000; max_ttl = 259200000000000; max_active_ips = 2 }

abbrev wording : Wording
wording = record {
  decimal = λ n. "1";
  day_time = λ n. "01-02 15:04";
  store_text = λ x. "store";
  frps_text = λ x. "frps";
}

abbrev links : Links
links = record {
  sha256 = λ s. s;
  encode = λ s. s;
  decimal = λ n. "1";
  public_url = "https://gateway.example.org";
  draw = λ r n. some r.message_id;
  link_ttl = 300000000000;
}

abbrev gateway : ChatExecutor
gateway = executor answering limits texts wording links (λ r n. 1000000000)

abbrev library : BotLibrary
library = record {
  chat_text = texts;
  marshal_card = λ card. some "{}";
  extract_text = λ s. some s;
  decimal = λ n. "1";
  day_time = λ n. "01-02 15:04";
}

abbrev config : BotConfig
config = record {
  app_id = "cli_1";
  admin_chat_id = "oc_1";
  allow_all_users = false;
  require_mention = true;
  requests_per_minute = 3;
  default_ttl = "4h";
  link_ttl = "5m";
}

abbrev applying : MessageEvent
applying = record {
  app = some "cli_1";
  sender_type = "user";
  message_type = "text";
  open_id = "ou_1";
  chat_id = "oc_1";
  chat_type = "p2p";
  mentioned_types = [];
  message_id = "om_1";
  content = "申请授权 203.0.113.9";
}

abbrev received : Bench gateway library config
received = record {
  env = record {
    db = record empty_db {
      bot_inbox =
          record {
            id = "om_1";
            payload = "申请授权 203.0.113.9";
            status = pending;
            attempts = 0;
            next_attempt_at = 0;
            created_at = 0;
            completed_at = none;
          }
          ∷ [];
    };
    faults = [];
  };
  state = 0;
  limiter = new_limiter;
}

abbrev unmarshal : String → Option (Option MessageEvent)
unmarshal payload = some (some applying)

round_example :
    (open_event "om_1"
        (inbox_round gateway library config unmarshal (λ n. 1000000000) received).env.db
      ≡ true)
    ⊎ HandledIn gateway
        (executor-KeepsInbox answering limits texts wording links (λ r n. 1000000000))
        library
        config
        unmarshal
        "om_1"
        (λ n. 1000000000)
        received
round_example =
    inbox_round-open answering limits texts wording links (λ r n. 1000000000) library config
      unmarshal "om_1" (λ n. 1000000000) received refl
