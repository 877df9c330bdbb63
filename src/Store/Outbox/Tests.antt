-- ===== src/Store/Outbox/Tests.antt =====
-- A run of the outbox of store/store.go.
use frps_gateway.Base.{String, ◌≡◌, refl, ◌==◌, false, none, [], ◌∷◌, All}
use frps_gateway.Store.Schema.{Db, OutboxRow, OutboxMessage, empty_db}
use frps_gateway.Store.Outbox.{due_replies, set_sent, upsert_reply, postpone}
use frps_gateway.Store.Outbox.Sent.{here, next, enqueue, retry, sent_never_pending}

abbrev reply : String → OutboxRow
reply id = record {
  id = id;
  chat_id = "oc_1";
  body = "done";
  attempts = 0;
  next_attempt_at = 100;
  created_at = 100;
  sent_at = none;
}

abbrev two_replies : Db
two_replies = record empty_db { reply_outbox = reply "om_1" ∷ reply "om_2" ∷ [] }

abbrev rewritten : Db
rewritten =
    postpone "om_1" 200 (upsert_reply "om_1" "oc_1" "again" 150 (set_sent "om_1" 120 two_replies))

sent_example : All (λ (m : OutboxMessage). (m.id == "om_1") ≡ false) (due_replies 20 900 rewritten)
sent_example = sent_never_pending "om_1" 120 900 20 two_replies rewritten refl (
    next (next here (enqueue "om_1" "oc_1" "again" 150 (set_sent "om_1" 120 two_replies)))
      (retry "om_1" 200 (upsert_reply "om_1" "oc_1" "again" 150 (set_sent "om_1" 120 two_replies))))
