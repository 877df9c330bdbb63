-- ===== src/Feishu/Bot/Tests.antt =====
-- Events that feishu/bot.go handles.
use frps_gateway.Base.{ℕ, ◌+◌, String, ◌≡◌, refl, true, false, none, some, [], ◌∷◌}
use frps_gateway.Store.Schema.{empty_db}
use frps_gateway.Store.Sql.{◌>>=◌}
use frps_gateway.Store.Outbox.{enqueue_reply, upsert_reply}
use frps_gateway.Command.{parse_command}
use frps_gateway.Command.Plain.{texts}
use frps_gateway.Feishu.Rate.{new_limiter, allow}
use frps_gateway.Feishu.Bot.{
  ChatExecutor, BotLibrary, BotConfig, MessageEvent, CardEvent, Bench, handle, on_card_action,
}
use frps_gateway.Feishu.Bot.Answered.{Answered, handle-Answered, other_chats_change_nothing}

-- It counts its calls.
abbrev counter : ChatExecutor
counter = record {
  State = ℕ;
  execute = λ r e n. ("done", e, n + 1);
  authorize_link = λ r e n. (none, e, n + 1);
}

abbrev library : BotLibrary
library = record {
  chat_text = texts;
  marshal_card = λ card. some "{}";
  extract_text = λ s. some s;
  decimal = λ n. "1";
  day_time = λ n. "01-02 15:04";
}

abbrev config : BotConfig
config = record {
  app_id = "cli_1";
  admin_chat_id = "oc_1";
  allow_all_users = false;
  require_mention = true;
  requests_per_minute = 3;
  default_ttl = "4h";
  link_ttl = "5m";
}

abbrev message : String → MessageEvent
message chat_id = record {
  app = some "cli_1";
  sender_type = "user";
  message_type = "text";
  open_id = "ou_1";
  chat_id = chat_id;
  chat_type = "group";
  mentioned_types = "user" ∷ "bot" ∷ [];
  message_id = "om_1";
  content = "我的授权";
}

abbrev pressed : CardEvent
pressed = record {
  app = "cli_1";
  open_id = "ou_1";
  chat_id = "oc_2";
  open_message_id = "om_2";
  event_id = "";
  action = "list";
  ip = "";
}

abbrev bench : Bench counter library config
bench = record { env = record { db = empty_db; faults = [] }; state = 0; limiter = new_limiter }

abbrev clock : ℕ → ℕ
clock n = 500000000000

no_error : (handle counter library config (some (message "oc_1")) clock bench).0 ≡ none
unfolding handle allow parse_command enqueue_reply upsert_reply ◌>>=◌
no_error = refl

calls_executor : (handle counter library config (some (message "oc_1")) clock bench).1.state ≡ 1
unfolding handle allow parse_command enqueue_reply upsert_reply ◌>>=◌
calls_executor = refl

replied_example :
    let (passed, limiter) = allow 3 "ou_1" (clock 0) bench.limiter in
    Answered counter library config passed
      (message "oc_1")
      "我的授权"
      bench
      (handle counter library config (some (message "oc_1")) clock bench).1
replied_example =
    handle-Answered counter library config (message "oc_1") "我的授权" clock bench refl refl no_error

other_chats_example :
    (handle counter library config (some (message "oc_2")) clock bench ≡ (none, bench))
    × ((on_card_action counter library config (some pressed) clock bench).1 ≡ bench)
other_chats_example =
    other_chats_change_nothing counter library config (message "oc_2") pressed clock bench refl refl
      refl
