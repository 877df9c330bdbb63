-- ===== src/Store/Inbox/Taken.antt =====
-- What `ClaimInbox` of store/store.go takes: the oldest event that is due.
use frps_gateway.Base.{
  ℕ, ◌≤◌, ◌<◌, ◌≡◌, ◌≢◌, refl, ap, ◌∙◌, true, false, ◌&&◌, ◌==◌, ◌⊎◌, inl, inr, none, some, List,
  [], ◌∷◌, map, if◌then◌else◌, arith, leb, All, All-weaken, All-select, All-sort_by, All-Among,
  Among, Ordered, sort_by, sort_by-Ordered, All-of-sort_by, All-of-select, select, update-map, unix,
  subst,
}
use frps_gateway.Store.Schema.{
  Db, InboxRow, InboxEvent, InboxStatus, pending, processing, completed,
}
use frps_gateway.Store.Sql.{Env, StoreError, ok, err, past}
use frps_gateway.Store.Sql.Transactions.{transaction_or_rollback-ok, transaction_or_rollback-err}
use frps_gateway.Store.Inbox.{is_pending, is_claimable, first_row, set_processing, claim_inbox}
use frps_gateway.Store.Inbox.Claim.{claim_body_lem, first_row-All}

-- A row of the inbox that is pending and due, and no row that is so was created before it.
abbrev pub Oldest : ℕ → List InboxRow → InboxRow → Type 0
Oldest now rows r =
    Among rows r
    × (r.status ≡ pending)
    × (r.next_attempt_at ≤ now)
    × All
        (λ (q : InboxRow).
          (q.status ≢ pending) ⊎ ((now < q.next_attempt_at) ⊎ (r.created_at ≤ q.created_at)))
        rows

due_lem :
    (s : InboxStatus) (at now : ℕ)
    → (is_pending s && leb at now) ≡ true
    → (s ≡ pending) × (at ≤ now)
due_lem pending at now h = (refl, ground (arith, h))
due_lem processing at now h = cc h
due_lem completed at now h = cc h

not_due_lem :
    (s : InboxStatus) (at now : ℕ)
    → (is_pending s && leb at now) ≡ false
    → (s ≢ pending) ⊎ (now < at)
not_due_lem pending at now h = inr (ground (arith, h))
not_due_lem processing at now h = inl (λ q. cc q)
not_due_lem completed at now h = inl (λ q. cc q)

first-lowest :
    (xs : List InboxRow) (r : InboxRow)
    → Ordered (λ (q : InboxRow). q.created_at) xs
    → first_row xs ≡ some r
    → All (λ (q : InboxRow). r.created_at ≤ q.created_at) xs
first-lowest [] r h q = cc q
first-lowest (x ∷ xs) r h q =
    let same : x ≡ r = cc q in
    subst (λ (y : InboxRow). All (λ (z : InboxRow). y.created_at ≤ z.created_at) (x ∷ xs)) same
      (omega arith, h.0)

found-Oldest :
    (now : ℕ) (rows : List InboxRow) (r : InboxRow)
    → first_row (sort_by (λ (q : InboxRow). q.created_at) (select (is_claimable now) rows)) ≡ some r
    → Oldest now rows r
found-Oldest now rows r h =
    let created : InboxRow → ℕ = λ q. q.created_at in
    let due = select (is_claimable now) rows in
    let (there, hit) =
      first_row-All (λ q. Among rows q × (is_claimable now q ≡ true)) (sort_by created due) r
        (All-sort_by (λ q. Among rows q × (is_claimable now q ≡ true)) created due
          (All-select (λ q. Among rows q × (is_claimable now q ≡ true)) (is_claimable now) rows
            (All-weaken rows (λ q here hit. (here, hit)) (All-Among rows))))
        h in
    let (waits, ready) = due_lem r.status r.next_attempt_at now hit in
    let lowest =
      All-of-select (λ q. r.created_at ≤ q.created_at) (is_claimable now) rows
        (All-of-sort_by created (λ q. r.created_at ≤ q.created_at) due
          (first-lowest (sort_by created due) r (sort_by-Ordered created due) h)) in
    (
      there,
      waits,
      ready,
      All-weaken rows
          (λ q s. elim s [
            | inl other ↦ elim (not_due_lem q.status q.next_attempt_at now other) [
              | inl settled ↦ inl settled
              | inr later ↦ inr (inl later)
            ]
            | inr older ↦ inr (inr older)
          ])
          lowest,
    )

set_processing-map :
    (r : InboxRow) (d : Db)
    → set_processing r.id d ≡ record d {
      bot_inbox =
          map
            (λ (q : InboxRow).
              if q.id == r.id && is_pending q.status then record q { status = processing } else q)
            d.bot_inbox;
    }
unfolding set_processing
set_processing-map r d =
    ap (λ (rows : List InboxRow). record d { bot_inbox = rows })
      (update-map (λ (q : InboxRow). q.id == r.id && is_pending q.status)
        (λ q. record q { status = processing }) d.bot_inbox)

-- A claim that returns an event took it from the oldest row that was pending and due, and only marks
-- the pending rows of its id as in processing; it returns the id, the payload and the attempts of the
-- row. A claim that returns nothing, or fails, changes no table.
pub claim_inbox-takes :
    (now : ℕ) (e : Env)
    → ((ev : InboxEvent)
        → (claim_inbox now e).0 ≡ ok (some ev)
        → (r : InboxRow) × Oldest (unix now) e.db.bot_inbox r
          × (ev ≡ record { id = r.id; payload = r.payload; attempts = r.attempts })
          × ((claim_inbox now e).1.db ≡ record e.db {
            bot_inbox =
                map
                  (λ (q : InboxRow).
                    if q.id == r.id && is_pending q.status
                    then record q { status = processing }
                    else q)
                  e.db.bot_inbox;
          }))
      × ((claim_inbox now e).0 ≡ ok none → (claim_inbox now e).1.db ≡ e.db)
      × ((x : StoreError) → (claim_inbox now e).0 ≡ err x → (claim_inbox now e).1.db ≡ e.db)
unfolding claim_inbox
claim_inbox-takes now e = (
  λ ev h. elim (transaction_or_rollback-ok _ e _ h) [
    | inl (done, db) ↦
        let (r, q, same, tables) = (claim_body_lem (unix now) (past e)).at _ done in
        (
          r,
          found-Oldest (unix now) e.db.bot_inbox r q,
          same,
          db
              ∙ tables
              ∙ ap (λ (x : InboxEvent). set_processing x.id e.db) same
              ∙ set_processing-map r e.db,
        )
    | inr (done, db) ↦ absurd ((claim_body_lem (unix now) (past e)).at _ done)
  ],
  λ h. elim (transaction_or_rollback-ok _ e _ h) [
    | inl (done, db) ↦ absurd ((claim_body_lem (unix now) (past e)).at _ done)
    | inr (done, db) ↦ db
  ],
  λ x h. transaction_or_rollback-err _ e x h,
)
