-- ===== src/Store/Outbox/Sent.antt =====
-- The life of a reply in the outbox of store/store.go.
use frps_gateway.Base.{
  ℕ, String, ◌≡◌, refl, ◌∙◌, Bool, true, false, ◌&&◌, some, inl, inr, List, [], ◌∷◌, arith, ◌==◌,
  eq_iff, All, is_none, has, update, Bool-cases, has-append, has-update, All-append, All-take,
  All-sort_by, All-select, All-update, All-map, All-weaken,
}
use frps_gateway.Store.Schema.{Db, OutboxRow, OutboxMessage}
use frps_gateway.Store.Outbox.{
  is_due, outbox_message, due_replies, upsert_reply, set_sent, postpone,
}

-- Every write of the methods to the table of replies.
pub data Step : Db → Db → Type 0 where
  enqueue :
      (id chat_id body : String) (now : ℕ) (d : Db) → Step d (upsert_reply id chat_id body now d)
  sent : (id : String) (now : ℕ) (d : Db) → Step d (set_sent id now d)
  retry : (id : String) (at : ℕ) (d : Db) → Step d (postpone id at d)

pub data Steps (d : Db) : Db → Type 0 where
  here : Steps d d
  next : {c b : Db} → Steps d c → Step c b → Steps d b

-- A row with this id is there, and every such row has been sent.
abbrev IsSentRow : String → OutboxRow → Type 0
IsSentRow id r = (r.id == id && is_none r.sent_at) ≡ false

pub record WasSent (id : String) (d : Db) : Type 0 where
  pub present : has (λ (r : OutboxRow). r.id == id) d.reply_outbox ≡ true
  pub all_sent : All (IsSentRow id) d.reply_outbox

abbrev is_id : String → OutboxRow → Bool
is_id id r = r.id == id

upsert-WasSent :
    (id key chat_id body : String) (now : ℕ) (d : Db)
    → WasSent id d
    → WasSent id (upsert_reply key chat_id body now d)
unfolding upsert_reply
upsert-WasSent id key chat_id body now d w = elim (Bool-cases (has (is_id key) d.reply_outbox)) [
  | inl old ↦ rw old (record {
    present = has-update (is_id id) _ _ d.reply_outbox (λ r. refl) ∙ w.present;
    all_sent = All-update (IsSentRow id) _ _ d.reply_outbox w.all_sent (λ r s hit. s);
  })
  | inr new ↦ rw new (record {
    present = has-append (is_id id) d.reply_outbox _ ∙ ground (arith, w.present);
    all_sent =
        All-append (IsSentRow id) d.reply_outbox _ w.all_sent
          (ground (arith, w.present, eq_iff key id), tt);
  })
]

set_sent-WasSent :
    (id key : String) (now : ℕ) (d : Db) → WasSent id d → WasSent id (set_sent key now d)
unfolding set_sent
set_sent-WasSent id key now d w = record {
  present = has-update (is_id id) _ _ d.reply_outbox (λ r. refl) ∙ w.present;
  all_sent =
      All-update (IsSentRow id) (is_id key) (λ r. record r { sent_at = some now }) d.reply_outbox
        w.all_sent (λ r s hit. ground arith);
}

postpone-WasSent :
    (id key : String) (at : ℕ) (d : Db) → WasSent id d → WasSent id (postpone key at d)
unfolding postpone
postpone-WasSent id key at d w = record {
  present = has-update (is_id id) _ _ d.reply_outbox (λ r. refl) ∙ w.present;
  all_sent = All-update (IsSentRow id) _ _ d.reply_outbox w.all_sent (λ r s hit. s);
}

Steps-WasSent : {id : String} {d b : Db} → WasSent id d → Steps d b → WasSent id b
Steps-WasSent w here = w
Steps-WasSent {id} w (next st (enqueue key chat_id body now c)) =
    upsert-WasSent id key chat_id body now c (Steps-WasSent w st)
Steps-WasSent {id} w (next st (sent key now c)) = set_sent-WasSent id key now c (Steps-WasSent w st)
Steps-WasSent {id} w (next st (retry key at c)) = postpone-WasSent id key at c (Steps-WasSent w st)

-- Marking a reply that is in the outbox makes it sent.
marked-WasSent :
    (id : String) (now : ℕ) (d : Db)
    → has (is_id id) d.reply_outbox ≡ true
    → WasSent id (set_sent id now d)
unfolding set_sent
marked-WasSent id now d h = record {
  present = has-update (is_id id) _ _ d.reply_outbox (λ r. refl) ∙ h;
  all_sent = marked d.reply_outbox;
}
  where
    marked :
        (rs : List OutboxRow)
        → All (IsSentRow id) (update (λ r. r.id == id) (λ r. record r { sent_at = some now }) rs)
    marked [] = tt
    marked (r ∷ rs) = (ground arith, marked rs)

-- Once a reply is marked as sent, it is never listed as pending again, whatever writes to the
-- outbox follow, at whatever time and page size.
pub sent_never_pending :
    (id : String) (at now limit : ℕ) (d b : Db)
    → has (is_id id) d.reply_outbox ≡ true
    → Steps (set_sent id at d) b
    → All (λ (m : OutboxMessage). (m.id == id) ≡ false) (due_replies limit now b)
unfolding due_replies
sent_never_pending id at now limit d b h st = All-map IsOther outbox_message _ (
    All-take IsOtherRow _ _ (
      All-sort_by IsOtherRow _ _ (
        All-select IsOtherRow (is_due now) b.reply_outbox (
          All-weaken b.reply_outbox (λ r s hit. ground arith)
            (Steps-WasSent (marked-WasSent id at d h) st).all_sent))))
  where
    IsOther : OutboxMessage → Type 0
    IsOther m = (m.id == id) ≡ false

    IsOtherRow : OutboxRow → Type 0
    IsOtherRow r = (r.id == id) ≡ false
