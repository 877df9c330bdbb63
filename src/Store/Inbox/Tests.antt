-- ===== src/Store/Inbox/Tests.antt =====
-- Runs of the inbox of store/store.go.
use frps_gateway.Base.{String, ◌≡◌, ◌≢◌, refl, none, some, [], ◌∷◌, ◌&&◌, ◌==◌, map, if◌then◌else◌}
use frps_gateway.Store.Schema.{InboxRow, InboxEvent, pending, processing, empty_db}
use frps_gateway.Store.Sql.{Env, ok, transaction_or_rollback, ◌>>=◌}
use frps_gateway.Store.Inbox.{
  claim_inbox, claim_body, claim_found, is_pending, set_processing, set_completed,
}
use frps_gateway.Store.Inbox.Taken.{Oldest, claim_inbox-takes}
use frps_gateway.Store.Inbox.Exclusive.{here, next, complete, claim_exclusive}

abbrev event : String → InboxRow
event id = record {
  id = id;
  payload = "{}";
  status = pending;
  attempts = 0;
  next_attempt_at = 100;
  created_at = 100;
  completed_at = none;
}

abbrev two_events : Env
two_events = record {
  db = record empty_db { bot_inbox = event "e1" ∷ event "e2" ∷ [] };
  faults = [];
}

abbrev claimed_event : String → InboxEvent
claimed_event id = record { id = id; payload = "{}"; attempts = 0 }

abbrev completed_first : Env
completed_first = record {
  db = set_completed "e1" 210 (claim_inbox 200000000000 two_events).1.db;
  faults = [];
}

claimed : (claim_inbox 200000000000 two_events).0 ≡ ok (some (claimed_event "e1"))
unfolding claim_inbox claim_body claim_found set_processing transaction_or_rollback ◌>>=◌
claimed = refl

claimed_next : (claim_inbox 300000000000 completed_first).0 ≡ ok (some (claimed_event "e2"))
unfolding claim_inbox claim_body claim_found set_processing set_completed transaction_or_rollback
    ◌>>=◌
claimed_next = refl

claim_example :
    (r : InboxRow) × Oldest 200 two_events.db.bot_inbox r
    × (claimed_event "e1" ≡ record { id = r.id; payload = r.payload; attempts = r.attempts })
    × ((claim_inbox 200000000000 two_events).1.db ≡ record two_events.db {
      bot_inbox =
          map
            (λ (q : InboxRow).
              if q.id == r.id && is_pending q.status then record q { status = processing } else q)
            two_events.db.bot_inbox;
    })
claim_example = (claim_inbox-takes 200000000000 two_events).0 (claimed_event "e1") claimed

exclusive_example : ◌≢◌ {A = String} "e2" "e1"
exclusive_example =
    claim_exclusive 200000000000 300000000000 two_events completed_first (claimed_event "e1")
      (claimed_event "e2") claimed
      (next here (complete "e1" 210 (claim_inbox 200000000000 two_events).1.db)) claimed_next
