-- ===== src/Executor/Commands/Revoking.antt =====
-- What `remove` of executor/executor.go brings about in the store and at frps.
use frps_gateway.Base.{
  ℕ, ◌-◌, ◌<◌, String, ◌≡◌, refl, ◌∙◌, true, false, Option, none, some, List, arith, eqb, inl, inr,
  Bool-cases, has, select, length, unix,
}
use frps_gateway.Store.Schema.{GrantRow, Grant}
use frps_gateway.Store.Sql.{Result, ok, err}
use frps_gateway.Store.Grants.{revoke_user_ip, effective_expiry, list_active_by_ip}
use frps_gateway.Store.Grants.Revoked.{
  held_by, active_at, revoke_rows, Tells, revoke_rows-none, effective_expiry_lem,
  revoke_user_ip_lem, revoke_rows-nothing,
}
use frps_gateway.Store.Grants.Frames.{effective_expiry-Keeps}
use frps_gateway.Frps.{Transport, Reply, Entry, done, failed, is_not_found, add, remove}
use frps_gateway.Frps.Whitelist.{WhitelistApi, Reply-cases, add_lem, remove_done, remove_not_found}
use frps_gateway.Executor.{display_user}
use frps_gateway.Executor.Commands.Kept.{on_expiry-SameView}
use frps_gateway.Executor.Commands.{
  ChatRequest, Outcome, still_held, revoked, not_held, Backend, owner_label, on_refreshed, refresh,
  delete, on_expiry, on_revoked, remove_mine,
}

module _ (t : Transport) (api : WhitelistApi t) (r : ChatRequest) (ip : String)
    (clock : ℕ → ℕ) where
  -- What the last part of `remove` leaves: no table changes, and frps is as the active grants of the
  -- address want it.
  abbrev pub Synced : Outcome → Backend t → List GrantRow → Type 0
  Synced (revoked x) b gs =
      (x ≡ ip) × (active_at ip (unix (clock 3)) gs ≡ false) × (api.holds b.frps ip ≡ false)
  Synced still_held b gs = (active_at ip (unix (clock 3)) gs ≡ true) × (api.holds b.frps ip ≡ true)
  Synced (not_held x) b gs = ⊥
  Synced _ b gs = Unit

  on_refreshed-Synced :
      (reply : Reply Entry) (b : Backend t) (gs : List GrantRow)
      → active_at ip (unix (clock 3)) gs ≡ true
      → ((entry : Entry) → reply ≡ done entry → api.holds b.frps ip ≡ true)
      → Synced (on_refreshed t reply b).0 (on_refreshed t reply b).1 gs
  on_refreshed-Synced (failed x) b gs active held = tt
  on_refreshed-Synced (done entry) b gs active held = (active, held entry refl)

  refresh-Synced :
      (expiry : ℕ) (holders : Result (List Grant)) (b : Backend t) (gs : List GrantRow)
      → active_at ip (unix (clock 3)) gs ≡ true
      → Synced (refresh t ip expiry clock holders b).0 (refresh t ip expiry clock holders b).1 gs
  refresh-Synced expiry (err x) b gs active = tt
  refresh-Synced expiry (ok hs) b gs active =
      let (reply, s) = add t ip (expiry - clock 5) (owner_label hs) (clock 6) b.frps in
      on_refreshed-Synced reply (record b { frps = s }) gs active
        (λ entry sent.
          add_lem t api ip (owner_label hs) (expiry - clock 5) (clock 6) b.frps entry sent)

  delete-Synced :
      (b : Backend t) (gs : List GrantRow)
      → active_at ip (unix (clock 3)) gs ≡ false
      → Synced (delete t r ip b).0 (delete t r ip b).1 gs
  delete-Synced b gs none_active =
      let owner = display_user r.operator_name r.operator_open_id in
      elim (Reply-cases (remove t ip owner b.frps).0) [
        | inl (u, q) ↦ rw q (refl, none_active, remove_done t api ip owner b.frps u q)
        | inr (x, q) ↦ elim (Bool-cases (is_not_found x)) [
          | inl gone ↦
              rw (q, gone) (refl, none_active, remove_not_found t api ip owner b.frps x q gone)
          | inr other ↦ rw (q, other) tt
        ]
      ]

  on_expiry-Synced :
      (expiry : Result (Option ℕ)) (b : Backend t) (gs : List GrantRow)
      → ((o : Option ℕ) → expiry ≡ ok o → Tells o (active_at ip (unix (clock 3)) gs))
      → Synced (on_expiry t r ip clock expiry b).0 (on_expiry t r ip clock expiry b).1 gs
  on_expiry-Synced (err x) b gs h = tt
  on_expiry-Synced (ok none) b gs h = delete-Synced b gs (h none refl)
  on_expiry-Synced (ok (some expiry)) b gs h =
      refresh-Synced expiry (list_active_by_ip ip (clock 4) b.env).0 _ gs (h (some expiry) refl)

  abbrev pub Dropped : List GrantRow → List GrantRow → Type 0
  Dropped gs gs' =
      (gs' ≡ revoke_rows r.operator_open_id ip (unix (clock 1)) (unix (clock 2)) gs)
      × (0 < length (select (held_by r.operator_open_id ip (unix (clock 2))) gs))
      × (has (held_by r.operator_open_id ip (unix (clock 2))) gs' ≡ false)

  -- What a whole `remove` leaves, by its answer, of the grants `gs`.
  abbrev pub Settled : Outcome → Backend t → List GrantRow → Type 0
  Settled (not_held x) b gs = (x ≡ ip) × (b.env.db.grants ≡ gs)
  Settled (revoked x) b gs = Dropped gs b.env.db.grants × Synced (revoked x) b b.env.db.grants
  Settled still_held b gs = Dropped gs b.env.db.grants × Synced still_held b b.env.db.grants
  Settled _ b gs = Unit

  settle :
      (outcome : Outcome) (b : Backend t) (gs : List GrantRow)
      → Dropped gs b.env.db.grants
      → Synced outcome b b.env.db.grants
      → Settled outcome b gs
  settle (revoked x) b gs dropped synced = (dropped, synced)
  settle still_held b gs dropped synced = (dropped, synced)
  settle (not_held x) b gs dropped synced = absurd synced
  settle _ b gs dropped synced = tt

  on_revoked-Settled :
      (n : Result ℕ) (b : Backend t) (gs : List GrantRow)
      → ((k : ℕ)
          → n ≡ ok k
          → (k ≡ length (select (held_by r.operator_open_id ip (unix (clock 2))) gs))
            × (b.env.db.grants
                ≡ revoke_rows r.operator_open_id ip (unix (clock 1)) (unix (clock 2)) gs))
      → Settled (on_revoked t r ip clock n b).0 (on_revoked t r ip clock n b).1 gs
  on_revoked-Settled (err x) b gs h = tt
  on_revoked-Settled (ok n) b gs h = elim (Bool-cases (eqb n 0)) [
    | inl nothing ↦
        let (count, rows) = h n refl in
        rw nothing (
          refl,
          rows
              ∙ revoke_rows-nothing r.operator_open_id ip (unix (clock 1)) (unix (clock 2)) gs
                  (ground (arith, nothing, count)),
        )
    | inr something ↦
        let (count, rows) = h n refl in
        let (expiry, e) = effective_expiry ip (clock 3) b.env in
        let b₁ : Backend t = record b { env = e } in
        let ran = on_expiry t r ip clock expiry b₁ in
        let same : ran.1.env.db.grants ≡ b.env.db.grants =
          on_expiry-SameView (λ d. d.grants) t r ip clock expiry b₁
          ∙ effective_expiry-Keeps (λ d. d.grants) ip (clock 3) b.env in
        rw something (
          settle ran.0 ran.1 gs
            (
              same ∙ rows,
              ground (arith, something, count),
              rw (same, rows)
                  (revoke_rows-none r.operator_open_id ip (unix (clock 1)) (unix (clock 2)) gs),
            )
            (rw same (
              on_expiry-Synced expiry b₁ b.env.db.grants
                (λ o q. effective_expiry_lem ip (clock 3) b.env o q))))
  ]

  -- A removal that is answered as a revocation has revoked each active grant of the sender for the
  -- address, of which there was one, and nothing else; then either no grant of the address was active any
  -- more and frps, if it behaves as its API documents, does not hold it, or one was and frps holds it. If
  -- the answer is that the sender holds no grant of it, no grant has changed.
  pub remove_mine-Settled :
      (b : Backend t)
      → Settled (remove_mine t r ip clock b).0 (remove_mine t r ip clock b).1 b.env.db.grants
  unfolding remove_mine
  remove_mine-Settled b =
      let (n, e) = revoke_user_ip r.operator_open_id ip (clock 1) (clock 2) b.env in
      on_revoked-Settled n (record b { env = e }) b.env.db.grants
        (λ k q. revoke_user_ip_lem r.operator_open_id ip (clock 1) (clock 2) b.env k q)
