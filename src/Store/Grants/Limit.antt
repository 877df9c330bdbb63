-- ===== src/Store/Grants/Limit.antt =====
-- The limit on a user's active addresses, enforced by store/store.go before it inserts grants.
use frps_gateway.Base.{
  ℕ, suc, ◌+◌, ◌≤◌, ◌<◌, String, ◌≡◌, refl, true, not, ◌&&◌, List, [], ◌∷◌, ◌++◌, map, arith, ap,
  ◌==◌, eq_iff, All, length, select, contains, count_distinct, count_distinct-split,
  count_distinct-within, unix, contains_singleton,
}
use frps_gateway.Store.Schema.{Grant, GrantRow}
use frps_gateway.Store.Sql.{Env, ok, past, ◌>>=◌}
use frps_gateway.Store.Sql.Transactions.{transaction-ok}
use frps_gateway.Store.Grants.{
  is_active, active_ips, max_id, grant_row, insert_grant, insert_managed, enforce_active_ip_limit,
  add_grant_body, add_grant_limited,
}

-- The query of `enforceActiveIPLimitMulti` reads the active addresses outside the targets.
pub others-eq-select :
    (open_id : String) (ts : List String) (now : ℕ) (gs : List GrantRow)
    → map
        (λ (g : GrantRow). g.ip)
        (select (λ g. g.open_id == open_id && is_active now g && not (contains ts g.ip)) gs)
      ≡ select (λ ip. not (contains ts ip)) (active_ips open_id now gs)
others-eq-select open_id ts now [] = refl
others-eq-select open_id ts now (g ∷ gs) = ground (arith, others-eq-select open_id ts now gs)

-- So does the query of `enforceActiveIPLimit`, for one target.
pub other-eq-select :
    (open_id t : String) (now : ℕ) (gs : List GrantRow)
    → map
        (λ (g : GrantRow). g.ip)
        (select (λ g. g.open_id == open_id && not (g.ip == t) && is_active now g) gs)
      ≡ select (λ ip. not (contains (t ∷ []) ip)) (active_ips open_id now gs)
other-eq-select open_id t now [] = refl
other-eq-select open_id t now (g ∷ gs) =
    ground (arith, other-eq-select open_id t now gs, eq_iff t g.ip, eq_iff g.ip t)

-- Rows whose addresses are among the targets add nothing outside the targets.
others-append :
    (open_id : String) (ts : List String) (now : ℕ) (gs news : List GrantRow)
    → All (λ (g : GrantRow). contains ts g.ip ≡ true) news
    → select (λ ip. not (contains ts ip)) (active_ips open_id now (gs ++ news))
      ≡ select (λ ip. not (contains ts ip)) (active_ips open_id now gs)
others-append open_id ts now [] [] h = refl
others-append open_id ts now [] (n ∷ news) h =
    ground (arith, others-append open_id ts now [] news h.1)
others-append open_id ts now (g ∷ gs) news h =
    ground (arith, others-append open_id ts now gs news h)

-- What the check bounds, it bounds after the insertion too.
pub active-append-le :
    (open_id : String) (ts : List String) (now : ℕ) (gs news : List GrantRow)
    → All (λ (g : GrantRow). contains ts g.ip ≡ true) news
    → count_distinct (active_ips open_id now (gs ++ news))
      ≤ count_distinct (select (λ ip. not (contains ts ip)) (active_ips open_id now gs)) + length ts
active-append-le open_id ts now gs news h = omega (
  arith,
  count_distinct-split (contains ts) (active_ips open_id now (gs ++ news)),
  count_distinct-within ts (active_ips open_id now (gs ++ news)),
  ap count_distinct (others-append open_id ts now gs news h),
)

-- A body that runs to its end has passed the check, and has inserted the row.
add_grant_body_ok :
    (g : Grant) (max now : ℕ) (e : Env) (a : Unit)
    → 0 < max
    → (add_grant_body g max now e).0 ≡ ok a
    → (count_distinct (
          select
            (λ ip. not (contains (g.ip ∷ []) ip))
            (active_ips g.open_id (unix now) e.db.grants))
        < max)
      × ((add_grant_body g max now e).1.db.grants
          ≡ e.db.grants ++ grant_row (suc (max_id e.db.grants)) g ∷ [])
unfolding add_grant_body enforce_active_ip_limit insert_grant insert_managed ◌>>=◌
add_grant_body_ok g max now e a pos h =
    rw (← other-eq-select g.open_id g.ip (unix now) e.db.grants) (ground arith)

-- A grant that is accepted under a positive limit leaves the user with at most that many distinct
-- active addresses, counted at the time of the check, and the table has gained exactly its row.
pub add_grant_limited-within :
    (g : Grant) (max now : ℕ) (e : Env)
    → 0 < max
    → (add_grant_limited g max now e).0 ≡ ok tt
    → let gs = (add_grant_limited g max now e).1.db.grants in
      (count_distinct (active_ips g.open_id (unix now) gs) ≤ max)
      × (gs ≡ e.db.grants ++ grant_row (suc (max_id e.db.grants)) g ∷ [])
unfolding add_grant_limited
add_grant_limited-within g max now e pos h =
    let (done, db) = transaction-ok (add_grant_body g max now) e tt h in
    let (room, rows) = add_grant_body_ok g max now (past e) tt pos done in
    rw (db, rows)
      (
        omega (
          arith,
          room,
          active-append-le g.open_id (g.ip ∷ []) (unix now) e.db.grants
              (grant_row (suc (max_id e.db.grants)) g ∷ []) (contains_singleton g.ip, tt),
        ),
        refl,
      )
