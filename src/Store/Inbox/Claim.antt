-- ===== src/Store/Inbox/Claim.antt =====
-- Claims on the inbox of store/store.go: what a claim takes, and that nobody else gets it.
use frps_gateway.Base.{
  ℕ, String, ◌≡◌, refl, ◌∙◌, ap, Bool, true, false, ◌&&◌, Option, none, some, inl, inr, List, [],
  ◌∷◌, arith, ◌==◌, eqb, All, has, select, sort_by, update, Bool-cases, subst, text_refl,
  has-update, All-select, All-sort_by, All-weaken, unix,
}
use frps_gateway.Store.Schema.{Db, InboxRow, InboxEvent, processing}
use frps_gateway.Store.Sql.{Env, StoreError, ok, err, past, after, Finish, commit, rollback}
use frps_gateway.Store.Sql.Steps.{Ensures, Ensures-ok, Ensures-query, Ensures-statement}
use frps_gateway.Store.Sql.Transactions.{transaction_or_rollback-ok, transaction_or_rollback-err}
use frps_gateway.Store.Inbox.{
  is_pending, is_claimable, first_row, set_processing, claim_found, claim_body, inbox_event,
  claim_result, claim_inbox,
}

-- The event is in the inbox, and no row of it is pending.
abbrev pub IsTakenRow : String → InboxRow → Type 0
IsTakenRow id r = (r.id == id && is_pending r.status) ≡ false

abbrev pub has_id : String → InboxRow → Bool
has_id id r = r.id == id

abbrev pub is_pending_of : String → InboxRow → Bool
is_pending_of id r = r.id == id && is_pending r.status

pub record IsTaken (id : String) (d : Db) : Type 0 where
  pub present : has (has_id id) d.bot_inbox ≡ true
  pub taken : All (IsTakenRow id) d.bot_inbox

-- What a claim that returns means for the tables.
abbrev pub Claims : ℕ → Db → Finish (Option InboxEvent) → Db → Type 0
Claims now d (commit none) d' = ⊥
Claims now d (commit (some ev)) d' =
    (r : InboxRow) × (first_row
        (sort_by (λ (q : InboxRow). q.created_at) (select (is_claimable now) d.bot_inbox))
      ≡ some r)
    × (ev ≡ inbox_event r)
    × (d' ≡ set_processing ev.id d)
Claims now d (rollback none) d' = Unit
Claims now d (rollback (some ev)) d' = ⊥

claim_found_lem :
    (now : ℕ) (d : Db) (o : Option InboxRow) (e : Env)
    → e.db ≡ d
    → first_row (sort_by (λ (q : InboxRow). q.created_at) (select (is_claimable now) d.bot_inbox))
      ≡ o
    → Ensures (Claims now d) (claim_found o e)
unfolding claim_found
claim_found_lem now d none e same q = Ensures-ok (rollback none) e tt
claim_found_lem now d (some r) e same q = Ensures-statement _ _ e λ n counted. go n
  where
    go : (n : ℕ) → Ensures (Claims now d) (ok (claim_result n r), after (set_processing r.id) e)
    go n = elim (Bool-cases (eqb n 1)) [
      | inl one ↦ rw one (Ensures-ok _ _ (r, q, refl, ap (set_processing r.id) same))
      | inr other ↦ rw other (Ensures-ok _ _ tt)
    ]

pub claim_body_lem : (now : ℕ) (e : Env) → Ensures (Claims now e.db) (claim_body now e)
unfolding claim_body
claim_body_lem now e = Ensures-query _ _ e (claim_found_lem now e.db _ (past e) refl refl)

pub first_row-All :
    (P : InboxRow → Type 0) (rs : List InboxRow) (r : InboxRow)
    → All P rs
    → first_row rs ≡ some r
    → P r
first_row-All P [] r h q = cc
first_row-All P (x ∷ rs) r h q = let p : x ≡ r = cc in subst P p h.0

All-pending :
    (rs xs : List InboxRow)
    → ((key : String) → has (is_pending_of key) xs ≡ true → has (is_pending_of key) rs ≡ true)
    → All (λ (r : InboxRow). is_pending r.status ≡ true → has (is_pending_of r.id) rs ≡ true) xs
All-pending rs [] h = tt
All-pending rs (x ∷ xs) h = (
  λ p. h x.id (ground (arith, text_refl x.id)),
  All-pending rs xs (λ key p. h key (ground arith)),
)

has_id_of_pending :
    (id : String) (rs : List InboxRow)
    → has (is_pending_of id) rs ≡ true
    → has (has_id id) rs ≡ true
has_id_of_pending id [] h = h
has_id_of_pending id (r ∷ rs) h = ground (arith, has_id_of_pending id rs)

-- The row that the SELECT finds is in the table, pending and due.
first_claimable :
    (rs : List InboxRow) (r : InboxRow) (now : ℕ)
    → first_row (sort_by (λ (q : InboxRow). q.created_at) (select (is_claimable now) rs)) ≡ some r
    → (has (is_pending_of r.id) rs ≡ true) × (is_claimable now r ≡ true)
first_claimable rs r now = first_row-All Found _ r (
    All-sort_by Found _ _ (
      All-select Found (is_claimable now) rs
        (All-weaken rs (λ x p hit. (p (ground arith), hit)) (All-pending rs rs (λ key p. p)))))
  where
    Found : InboxRow → Type 0
    Found x = (has (is_pending_of x.id) rs ≡ true) × (is_claimable now x ≡ true)

set_processing-IsTaken :
    (id : String) (d : Db) → has (has_id id) d.bot_inbox ≡ true → IsTaken id (set_processing id d)
unfolding set_processing
set_processing-IsTaken id d h = record {
  present = has-update (has_id id) _ _ d.bot_inbox (λ r. refl) ∙ h;
  taken = taken d.bot_inbox;
}
  where
    taken :
        (rs : List InboxRow)
        → All (IsTakenRow id) (
            update
              (λ r. r.id == id && is_pending r.status)
              (λ r. record r { status = processing })
              rs)
    taken [] = tt
    taken (r ∷ rs) = (ground arith, taken rs)

-- An event that a claim returns was pending, and no row of its id is so after the claim.
pub claim_inbox-IsTaken :
    (now : ℕ) (e : Env)
    → ((ev : InboxEvent)
        → (claim_inbox now e).0 ≡ ok (some ev)
        → (r : InboxRow) × (ev ≡ inbox_event r)
          × (is_claimable (unix now) r ≡ true)
          × (has (is_pending_of ev.id) e.db.bot_inbox ≡ true)
          × IsTaken ev.id (claim_inbox now e).1.db)
      × ((claim_inbox now e).0 ≡ ok none → (claim_inbox now e).1.db ≡ e.db)
      × ((x : StoreError) → (claim_inbox now e).0 ≡ err x → (claim_inbox now e).1.db ≡ e.db)
unfolding claim_inbox
claim_inbox-IsTaken now e = (takes, nothing, λ x h. transaction_or_rollback-err _ e x h)
  where
    post : Ensures (Claims (unix now) e.db) (claim_body (unix now) (past e))
    post = claim_body_lem (unix now) (past e)

    takes :
        (ev : InboxEvent)
        → (claim_inbox now e).0 ≡ ok (some ev)
        → (r : InboxRow) × (ev ≡ inbox_event r)
          × (is_claimable (unix now) r ≡ true)
          × (has (is_pending_of ev.id) e.db.bot_inbox ≡ true)
          × IsTaken ev.id (claim_inbox now e).1.db
    takes ev h = elim (transaction_or_rollback-ok _ e _ h) [
      | inl (done, db) ↦
          let (r, q, same, tables) = post.at _ done in
          let (present, claimable) = first_claimable e.db.bot_inbox r (unix now) q in
          let there : has (is_pending_of ev.id) e.db.bot_inbox ≡ true =
            rw (ap (λ (v : InboxEvent). v.id) same) present in
          (
            r,
            same,
            claimable,
            there,
            rw (db, tables)
                (set_processing-IsTaken ev.id e.db (has_id_of_pending ev.id e.db.bot_inbox there)),
          )
      | inr (done, db) ↦ absurd (post.at _ done)
    ]

    nothing : (claim_inbox now e).0 ≡ ok none → (claim_inbox now e).1.db ≡ e.db
    nothing h = elim (transaction_or_rollback-ok _ e _ h) [
      | inl (done, db) ↦ absurd (post.at _ done)
      | inr (done, db) ↦ db
    ]
