-- ===== src/Store/Inbox.antt =====
-- store/store.go: the events of the bot that wait to be processed. `now` is `time.Now()` in
-- nanoseconds.
pub mod Claim
pub mod Taken
pub mod Unfinished
pub mod Exclusive
mod Tests
use frps_gateway.Base.{
  ℕ, suc, ◌+◌, String, Bool, true, false, ◌&&◌, ◌||◌, Option, none, some, List, [], ◌∷◌, ◌++◌, ◌==◌,
  leb, eqb, if◌then◌else◌, length, select, has, update, sort_by, unix,
}
use frps_gateway.Store.Schema.{
  Db, InboxRow, InboxStatus, InboxEvent, pending, processing, completed,
}
use frps_gateway.Store.Sql.{
  Sql, Finish, commit, rollback, ok, missing_ids, ◌>>=◌, pure, raise, statement, query, exec,
  transaction_or_rollback,
}
use frps_gateway.Store.Outbox.{retry_delay}

abbrev pub is_pending : InboxStatus → Bool
is_pending pending = true
is_pending _ = false

-- the last statement of `Open`
unfoldable pub recover : Db → Db
recover d = record d {
  bot_inbox =
      update (λ r. elim r.status [ processing ↦ true | _ ↦ false ])
        (λ r. record r { status = pending }) d.bot_inbox;
}

unfoldable pub insert_event : String → String → ℕ → Db → Db
insert_event id payload now d = if has (λ r. r.id == id) d.bot_inbox then d else record d {
  bot_inbox =
      d.bot_inbox
      ++ record {
        id = id;
        payload = payload;
        status = pending;
        attempts = 0;
        next_attempt_at = now;
        created_at = now;
        completed_at = none;
      }
        ∷ [];
}

-- EnqueueInbox
unfoldable pub enqueue_inbox : String → String → ℕ → Sql Unit
unfolding insert_event
enqueue_inbox id payload now =
    if id == "" || payload == ""
    then raise missing_ids
    else exec (insert_event id payload (unix now))

abbrev pub is_claimable : ℕ → InboxRow → Bool
is_claimable now r = is_pending r.status && leb r.next_attempt_at now

abbrev pub first_row : List InboxRow → Option InboxRow
first_row [] = none
first_row (r ∷ _) = some r

unfoldable pub set_processing : String → Db → Db
set_processing id d = record d {
  bot_inbox =
      update (λ r. r.id == id && is_pending r.status) (λ r. record r { status = processing })
        d.bot_inbox;
}

abbrev pub inbox_event : InboxRow → InboxEvent
inbox_event r = record { id = r.id; payload = r.payload; attempts = r.attempts }

-- if n != 1 { return InboxEvent{}, false, nil }
abbrev pub claim_result : ℕ → InboxRow → Finish (Option InboxEvent)
claim_result n item = if eqb n 1 then commit (some (inbox_event item)) else rollback none

-- What follows the SELECT: without a row the transaction ends by its Rollback.
unfoldable pub claim_found : Option InboxRow → Sql (Finish (Option InboxEvent))
claim_found none = pure (rollback none)
claim_found (some item) = do
  n ← statement λ d. (
    ok (length (select (λ r. r.id == item.id && is_pending r.status) d.bot_inbox)),
    set_processing item.id d,
  )
  pure (claim_result n item)

unfoldable pub claim_body : ℕ → Sql (Finish (Option InboxEvent))
claim_body now = do
  found ← query λ d. first_row (sort_by (λ r. r.created_at) (select (is_claimable now) d.bot_inbox))
  claim_found found

-- ClaimInbox
unfoldable pub claim_inbox : ℕ → Sql (Option InboxEvent)
claim_inbox now = transaction_or_rollback (claim_body (unix now))

unfoldable pub set_completed : String → ℕ → Db → Db
set_completed id now d = record d {
  bot_inbox =
      update (λ r. r.id == id) (λ r. record r { status = completed; completed_at = some now })
        d.bot_inbox;
}

-- CompleteInbox
unfoldable pub complete_inbox : String → ℕ → Sql Unit
unfolding set_completed
complete_inbox id now = exec (set_completed id (unix now))

unfoldable pub requeue : String → ℕ → Db → Db
requeue id at d = record d {
  bot_inbox =
      update (λ r. r.id == id)
        (λ r. record r { status = pending; attempts = r.attempts + 1; next_attempt_at = at })
        d.bot_inbox;
}

-- RetryInbox
unfoldable pub retry_inbox : String → ℕ → ℕ → Sql Unit
unfolding requeue
retry_inbox id attempts now = exec (requeue id (unix (now + retry_delay attempts)))
