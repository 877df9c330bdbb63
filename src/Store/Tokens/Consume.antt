-- ===== src/Store/Tokens/Consume.antt =====
-- What `ConsumeTokenIPs` of store/store.go does when it succeeds, and that it succeeds once.
use native.Mathlib.Nat.{le_trans}
use frps_gateway.Base.{
  ℕ, ◌+◌, ◌≤◌, ◌<◌, String, ◌≡◌, ◌≢◌, refl, ap, true, false, not, ◌&&◌, Option, none, some, List,
  [], ◌∷◌, ◌++◌, arith, ◌==◌, All, length, select, find, contains, count_distinct, is_none, unix,
  self_contained,
}
use frps_gateway.Store.Schema.{Db, Grant, GrantRow, TokenRow}
use frps_gateway.Store.Sql.{Env, StoreError, ok, err, past, ◌>>=◌}
use frps_gateway.Store.Sql.Steps.{
  Ensures, Ensures-ok, Ensures-bind, Ensures-query, Ensures-statement, Ensures-weaken,
  Ensures-transaction,
}
use frps_gateway.Store.Sql.Transactions.{transaction-err}
use frps_gateway.Store.Grants.{active_ips, enforce_active_ip_limit_multi}
use frps_gateway.Store.Grants.Limit.{others-eq-select, active-append-le}
use frps_gateway.Store.Tokens.{
  is_usable, use_tokens, require_token, token_grant, dedupe, consume_body, consume_targets,
  consume_token_ips, validate_token, one_row,
}
use frps_gateway.Store.Tokens.Granted.{granted_rows, link_grants, grant_all_lem}

require_token_ok :
    (o : Option TokenRow) (e : Env) (t : TokenRow)
    → (require_token o e).0 ≡ ok t
    → (o ≡ some t) × ((require_token o e).1 ≡ e)
require_token_ok none e t h = cc
require_token_ok (some u) e t h = (cc, refl)

one_row_ok : (n : ℕ) (e : Env) (u : Unit) → (one_row n e).0 ≡ ok u → (n ≡ 1) × ((one_row n e).1 ≡ e)
unfolding one_row
one_row_ok n e u h = ground arith

-- Room for the targets, as the check of the limit computes it.
abbrev HasRoom : String → List String → ℕ → ℕ → Db → Type 0
HasRoom open_id ts max now d =
    0 < max
    → count_distinct (select (λ ip. not (contains ts ip)) (active_ips open_id now d.grants))
        + length ts
      ≤ max

enforce_multi_ok :
    (open_id : String) (ts : List String) (max now : ℕ) (e : Env) (u : Unit)
    → (enforce_active_ip_limit_multi open_id ts max now e).0 ≡ ok u
    → HasRoom open_id ts max now e.db
      × ((enforce_active_ip_limit_multi open_id ts max now e).1.db ≡ e.db)
unfolding enforce_active_ip_limit_multi ◌>>=◌
enforce_multi_ok open_id ts max now e u h =
    rw (← others-eq-select open_id ts now e.db.grants) (ground arith)

module _ (sha256 : String → String) (raw : String) (max now : ℕ) where
  -- What consuming a token for some targets means.
  abbrev pub Consumed : Db → List String → List Grant → Db → Type 0
  Consumed d targets out d' =
      (t : TokenRow) × (find (is_usable (sha256 raw) (unix now)) d.auth_tokens ≡ some t)
      × HasRoom t.open_id targets max (unix now) d
      × (out ≡ link_grants (token_grant now t) targets)
      × (d'.grants ≡ d.grants ++ granted_rows d.grants (token_grant now t) targets)
      × (d'.auth_tokens ≡ use_tokens (sha256 raw) (unix now) d.auth_tokens)

  consume_body_lem :
      (targets : List String) (e : Env)
      → Ensures (Consumed e.db targets) (consume_body sha256 raw targets max now e)
  unfolding consume_body
  consume_body_lem targets e = Ensures-query _ _ e (
      Ensures-bind _ _ _ λ t got.
        let (found, same) = require_token_ok _ _ t got in
        rw same (
          Ensures-bind _ _ _ λ u passed.
            let (room, same') = enforce_multi_ok _ _ _ _ _ u passed in
            Ensures-statement _ _ _ λ n counted. Ensures-bind _ _ _ λ v one.
              rw (one_row_ok n _ v one).1 (
                Ensures-weaken _
                  (λ out d' (outs, rows, toks). (
                    t,
                    found,
                    room,
                    outs,
                    rw (ap (λ (c : Db). c.grants) same') at rows,
                    rw (ap (λ (c : Db). c.auth_tokens) same') at toks,
                  ))
                  (grant_all_lem (token_grant now t) targets _))))

-- Every row that is added is for one of the targets.
granted_rows-targets :
    (g : Grant) (ts ips : List String) (gs : List GrantRow)
    → All (λ ip. contains ts ip ≡ true) ips
    → All (λ (r : GrantRow). contains ts r.ip ≡ true) (granted_rows gs g ips)
granted_rows-targets g ts [] gs h = tt
granted_rows-targets g ts (ip ∷ ips) gs h = (h.0, granted_rows-targets g ts ips _ h.1)

-- A test that no usable row passes finds none.
abbrev Spent : String → List TokenRow → Type 0
Spent h = All (λ (t : TokenRow). (t.token_hash == h && is_none t.used_at) ≡ false)

use_tokens-Spent : (h : String) (now : ℕ) (ts : List TokenRow) → Spent h (use_tokens h now ts)
use_tokens-Spent h now [] = tt
use_tokens-Spent h now (t ∷ ts) = (ground arith, use_tokens-Spent h now ts)

find-Spent :
    (h : String) (now : ℕ) (ts : List TokenRow) → Spent h ts → find (is_usable h now) ts ≡ none
find-Spent h now [] s = refl
find-Spent h now (t ∷ ts) s = ground (arith, find-Spent h now ts s.1)

-- A validation that succeeds found a usable token.
validate_token_lem :
    (sha256 : String → String) (raw : String) (now : ℕ) (e : Env)
    → Ensures
        (λ (_ : Unit {0}) _. find (is_usable (sha256 raw) (unix now)) e.db.auth_tokens ≢ none)
        (validate_token sha256 raw now e)
unfolding validate_token
validate_token_lem sha256 raw now e = Ensures-query _ _ e (
    Ensures-bind _ _ _ λ t got. Ensures-ok tt _ (λ gone. cc ((require_token_ok _ _ t got).0, gone)))

module _ (sha256 : String → String) (raw : String) (ips : List String) (max now : ℕ) (e : Env) where
  -- A successful call, by the definitions of its statements.
  pub consume_token_ips_lem :
      (out : List Grant)
      → (consume_token_ips sha256 raw ips max now e).0 ≡ ok out
      → Consumed sha256 raw max now e.db
          (dedupe ips)
          out
          (consume_token_ips sha256 raw ips max now e).1.db
  unfolding consume_token_ips
  consume_token_ips_lem out h = go (dedupe ips) h
    where
      go :
          (ts : List String)
          → (consume_targets sha256 raw ts max now e).0 ≡ ok out
          → Consumed sha256 raw max now e.db ts out (consume_targets sha256 raw ts max now e).1.db
      go [] p = cc
      go (ip ∷ ts) p =
          (Ensures-transaction _ e (consume_body_lem sha256 raw max now (ip ∷ ts) (past e))).at out
            p

  -- A refused or failed call, at whatever statement, leaves every table as it was.
  pub consume_token_ips-err :
      (x : StoreError)
      → (consume_token_ips sha256 raw ips max now e).0 ≡ err x
      → (consume_token_ips sha256 raw ips max now e).1.db ≡ e.db
  unfolding consume_token_ips
  consume_token_ips-err x h = go (dedupe ips) h
    where
      go :
          (ts : List String)
          → (consume_targets sha256 raw ts max now e).0 ≡ err x
          → (consume_targets sha256 raw ts max now e).1.db ≡ e.db
      go [] p = refl
      go (ip ∷ ts) p = transaction-err _ e x p

  -- Under a positive limit the token's user has at most that many distinct active addresses after a
  -- successful call, counted at its time.
  pub consume_token_ips-within :
      (out : List Grant)
      → 0 < max
      → (consume_token_ips sha256 raw ips max now e).0 ≡ ok out
      → (t : TokenRow) × (find (is_usable (sha256 raw) (unix now)) e.db.auth_tokens ≡ some t)
        × (count_distinct (
              active_ips t.open_id
                (unix now)
                (consume_token_ips sha256 raw ips max now e).1.db.grants)
            ≤ max)
  consume_token_ips-within out pos h =
      let (t, found, room, outs, rows, toks) = consume_token_ips_lem out h in
      (
        t,
        found,
        rw rows (
            le_trans
              (active-append-le t.open_id (dedupe ips) (unix now) e.db.grants _
                (granted_rows-targets _ (dedupe ips) (dedupe ips) _ (self_contained (dedupe ips))))
              (room pos)),
      )

-- A consumed token stays consumed: once a call has succeeded, neither another call nor a validation
-- with the same token does, whatever the addresses, limits and times, as long as the token table is
-- the one that the first call left.
pub consume_token_ips-once :
    (sha256 : String → String) (raw : String) (ips ips' : List String) (max max' now now' : ℕ)
    (e e' : Env) (out out' : List Grant)
    → (consume_token_ips sha256 raw ips max now e).0 ≡ ok out
    → e'.db.auth_tokens ≡ (consume_token_ips sha256 raw ips max now e).1.db.auth_tokens
    → ((consume_token_ips sha256 raw ips' max' now' e').0 ≢ ok out')
      × ((validate_token sha256 raw now' e').0 ≢ ok tt)
consume_token_ips-once sha256 raw ips ips' max max' now now' e e' out out' h same =
    let first = consume_token_ips_lem sha256 raw ips max now e out h in
    let spent : Spent (sha256 raw) e'.db.auth_tokens =
      rw (same, first.5) (use_tokens-Spent (sha256 raw) (unix now) e.db.auth_tokens) in
    let gone = find-Spent (sha256 raw) (unix now') e'.db.auth_tokens spent in
    (
      λ h'. cc (gone, (consume_token_ips_lem sha256 raw ips' max' now' e' out' h').1),
      λ h'. (validate_token_lem sha256 raw now' e').at tt h' gone,
    )
