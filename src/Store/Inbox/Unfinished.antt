-- ===== src/Store/Inbox/Unfinished.antt =====
-- Which writes of store/store.go leave an event of the inbox to be handled.
use frps_gateway.Base.{
  ℕ, ◌+◌, String, ◌==◌, eq_iff, ◌≡◌, refl, Bool, true, false, not, ◌&&◌, ◌||◌, inl, inr, Bool-cases,
  Option, none, some, List, [], ◌∷◌, arith, has, update, unix,
}
use frps_gateway.Store.Schema.{Db, InboxRow, InboxStatus, pending, processing, completed}
use frps_gateway.Store.Sql.{Env}
use frps_gateway.Store.Sql.Runs.{exec-cases}
use frps_gateway.Store.Sql.Frames.{
  Keeps, Keeps-statement, Keeps-query, Keeps-exec, Keeps-bind, Keeps-transaction_or_rollback,
}
use frps_gateway.Store.Inbox.{
  is_pending, set_processing, claim_found, claim_body, claim_inbox, set_completed, complete_inbox,
  requeue, retry_inbox,
}
use frps_gateway.Store.Outbox.{retry_delay, upsert_reply, enqueue_reply}

abbrev pub is_done : InboxStatus → Bool
is_done completed = true
is_done _ = false

-- Whether an event is in the inbox and not completed.
abbrev pub is_open : String → InboxRow → Bool
is_open id r = r.id == id && not (is_done r.status)

abbrev pub open_event : String → Db → Bool
open_event id d = has (is_open id) d.bot_inbox

has-update :
    (p hit : InboxRow → Bool) (f : InboxRow → InboxRow) (rs : List InboxRow)
    → ((r : InboxRow) → hit r ≡ true → p (f r) ≡ p r)
    → has p (update hit f rs) ≡ has p rs
has-update p hit f [] h = refl
has-update p hit f (r ∷ rs) h = elim (Bool-cases (hit r)) [
  | inl on ↦ rw (on, h r on, has-update p hit f rs h) refl
  | inr off ↦ rw (off, has-update p hit f rs h) refl
]

-- An update after which what it hits passes a test, if it did before.
has-update-true :
    (p hit : InboxRow → Bool) (f : InboxRow → InboxRow) (rs : List InboxRow)
    → ((r : InboxRow) → p r ≡ true → p (f r) ≡ true)
    → has p rs ≡ true
    → has p (update hit f rs) ≡ true
has-update-true p hit f [] h k = k
has-update-true p hit f (r ∷ rs) h k = elim (Bool-cases (p r)) [
  | inl here ↦ ground (arith, here, h r here)
  | inr there ↦ ground (arith, has-update-true p hit f rs h (rw there at k))
]

pending_open : (s : InboxStatus) → is_pending s ≡ true → is_done s ≡ false
pending_open pending h = refl
pending_open processing h = refl
pending_open completed h = cc h

set_processing-open :
    (id x : String) (d : Db) → open_event id (set_processing x d) ≡ open_event id d
unfolding set_processing
set_processing-open id x d =
    has-update (is_open id) (λ r. r.id == x && is_pending r.status)
      (λ r. record r { status = processing }) d.bot_inbox
      (λ r h. rw (pending_open r.status (ground (arith, h))) refl)

claim_found-open : (id : String) (o : Option InboxRow) → Keeps (open_event id) (claim_found o)
unfolding claim_found
claim_found-open id none = λ e. refl
claim_found-open id (some item) =
    Keeps-bind (open_event id) _ _
      (Keeps-statement (open_event id) _ (λ d. set_processing-open id item.id d)) (λ n e. refl)

pub claim_inbox-open : (id : String) (now : ℕ) → Keeps (open_event id) (claim_inbox now)
unfolding claim_inbox claim_body
claim_inbox-open id now =
    Keeps-transaction_or_rollback (open_event id) _
      (Keeps-bind (open_event id) _ _ (Keeps-query (open_event id) _) (λ o. claim_found-open id o))

pub complete_inbox-open :
    (id x : String) (now : ℕ) → (x == id) ≡ false → Keeps (open_event id) (complete_inbox x now)
unfolding complete_inbox set_completed
complete_inbox-open id x now other = Keeps-exec (open_event id) (set_completed x (unix now)) (λ d.
    has-update (is_open id) (λ r. r.id == x)
      (λ r. record r { status = completed; completed_at = some (unix now) }) d.bot_inbox
      (λ r same. rw ((eq_iff r.id x).0 same, other) refl))

pub retry_inbox-open :
    (id x : String) (attempts now : ℕ) (e : Env)
    → open_event id e.db ≡ true
    → open_event id (retry_inbox x attempts now e).1.db ≡ true
unfolding retry_inbox requeue
retry_inbox-open id x attempts now e h =
    elim (exec-cases (requeue x (unix (now + retry_delay attempts))) e) [
      | inl broken ↦ rw broken h
      | inr ran ↦ rw ran (
          has-update-true (is_open id) (λ r. r.id == x)
            (λ r. record r {
              status = pending;
              attempts = r.attempts + 1;
              next_attempt_at = unix (now + retry_delay attempts);
            })
            e.db.bot_inbox (λ r k. ground (arith, k)) h)
    ]

abbrev pub inbox_of : Db → List InboxRow
inbox_of d = d.bot_inbox

pub enqueue_reply-inbox :
    (id chat_id body : String) (now : ℕ) → Keeps inbox_of (enqueue_reply id chat_id body now)
unfolding enqueue_reply upsert_reply
enqueue_reply-inbox id chat_id body now = elim (Bool-cases (id == "" || chat_id == "")) [
  | inl missing ↦ rw missing (λ e. refl)
  | inr given ↦
      rw given (Keeps-exec inbox_of (upsert_reply id chat_id body (unix now)) (λ d. ground arith))
]
