-- ===== src/Store/Inbox/Exclusive.antt =====
-- Who else may get a claimed event of store/store.go.
use frps_gateway.Base.{
  ℕ, ◌+◌, String, ◌≡◌, ◌≢◌, refl, ◌∙◌, false, ◌&&◌, some, inl, inr, List, [], ◌∷◌, arith, ◌==◌,
  eq_iff, All, has, Bool-cases, has-append, has-update, All-append, All-update,
}
use frps_gateway.Store.Schema.{Db, InboxRow, InboxEvent, pending, processing, completed}
use frps_gateway.Store.Sql.{Env, ok}
use frps_gateway.Store.Inbox.{
  is_pending, insert_event, set_processing, claim_inbox, set_completed, requeue,
}
use frps_gateway.Store.Inbox.Claim.{IsTaken, IsTakenRow, is_pending_of, has_id, claim_inbox-IsTaken}

-- The writes of the methods to the inbox, where no retry is for the event `id`.
pub data Step (id : String) : Db → Db → Type 0 where
  enqueue : (key payload : String) (now : ℕ) (d : Db) → Step id d (insert_event key payload now d)
  claim : (key : String) (d : Db) → Step id d (set_processing key d)
  complete : (key : String) (now : ℕ) (d : Db) → Step id d (set_completed key now d)
  retry : (key : String) (at : ℕ) (d : Db) → (key == id) ≡ false → Step id d (requeue key at d)

pub data Steps (id : String) (d : Db) : Db → Type 0 where
  here : Steps id d d
  next : {c b : Db} → Steps id d c → Step id c b → Steps id d b

insert_event-IsTaken :
    (id key payload : String) (now : ℕ) (d : Db)
    → IsTaken id d
    → IsTaken id (insert_event key payload now d)
unfolding insert_event
insert_event-IsTaken id key payload now d w = elim (Bool-cases (has (has_id key) d.bot_inbox)) [
  | inl old ↦ rw old w
  | inr new ↦ rw new (record {
    present = has-append (has_id id) d.bot_inbox _ ∙ ground (arith, w.present);
    taken =
        All-append (IsTakenRow id) d.bot_inbox _ w.taken
          (ground (arith, w.present, eq_iff key id), tt);
  })
]

set_processing-keeps : (id key : String) (d : Db) → IsTaken id d → IsTaken id (set_processing key d)
unfolding set_processing
set_processing-keeps id key d w = record {
  present = has-update (has_id id) _ _ d.bot_inbox (λ r. refl) ∙ w.present;
  taken =
      All-update (IsTakenRow id) (λ r. r.id == key && is_pending r.status)
        (λ r. record r { status = processing }) d.bot_inbox w.taken (λ r s hit. ground arith);
}

set_completed-keeps :
    (id key : String) (now : ℕ) (d : Db) → IsTaken id d → IsTaken id (set_completed key now d)
unfolding set_completed
set_completed-keeps id key now d w = record {
  present = has-update (has_id id) _ _ d.bot_inbox (λ r. refl) ∙ w.present;
  taken =
      All-update (IsTakenRow id) (has_id key)
        (λ r. record r { status = completed; completed_at = some now }) d.bot_inbox w.taken
        (λ r s hit. ground arith);
}

requeue-keeps :
    (id key : String) (at : ℕ) (d : Db)
    → (key == id) ≡ false
    → IsTaken id d
    → IsTaken id (requeue key at d)
unfolding requeue
requeue-keeps id key at d other w = record {
  present = has-update (has_id id) _ _ d.bot_inbox (λ r. refl) ∙ w.present;
  taken =
      All-update (IsTakenRow id) (has_id key)
        (λ r. record r { status = pending; attempts = r.attempts + 1; next_attempt_at = at })
        d.bot_inbox w.taken
        (λ r s hit. ground (arith, eq_iff r.id key, eq_iff r.id id, eq_iff key id));
}

Steps-IsTaken : {id : String} {d b : Db} → IsTaken id d → Steps id d b → IsTaken id b
Steps-IsTaken w here = w
Steps-IsTaken {id} w (next st (enqueue key payload now c)) =
    insert_event-IsTaken id key payload now c (Steps-IsTaken w st)
Steps-IsTaken {id} w (next st (claim key c)) = set_processing-keeps id key c (Steps-IsTaken w st)
Steps-IsTaken {id} w (next st (complete key now c)) =
    set_completed-keeps id key now c (Steps-IsTaken w st)
Steps-IsTaken {id} w (next st (retry key at c other)) =
    requeue-keeps id key at c other (Steps-IsTaken w st)

taken_not_pending :
    (id : String) (rs : List InboxRow) → All (IsTakenRow id) rs → has (is_pending_of id) rs ≡ false
taken_not_pending id [] h = refl
taken_not_pending id (r ∷ rs) h = ground (arith, taken_not_pending id rs h.1)

-- An event that was claimed is not claimed again, however the inbox is written in between, unless it
-- is put back by a retry of its own id (a restart aside).
pub claim_exclusive :
    (now now' : ℕ) (e e' : Env) (ev ev' : InboxEvent)
    → (claim_inbox now e).0 ≡ ok (some ev)
    → Steps ev.id (claim_inbox now e).1.db e'.db
    → (claim_inbox now' e').0 ≡ ok (some ev')
    → ev'.id ≢ ev.id
claim_exclusive now now' e e' ev ev' h st h' same =
    let (r, _, _, _, taken) = (claim_inbox-IsTaken now e).0 ev h in
    let (r', _, _, there, _) = (claim_inbox-IsTaken now' e').0 ev' h' in
    let gone = taken_not_pending ev.id e'.db.bot_inbox (Steps-IsTaken taken st).taken in
    cc (gone, rw same at there)
