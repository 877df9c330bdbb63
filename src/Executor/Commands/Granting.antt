-- ===== src/Executor/Commands/Granting.antt =====
-- What `add` of executor/executor.go brings about in the store and at frps.
use frps_gateway.Base.{
  ℕ, suc, ◌≤◌, ◌<◌, String, ◌≡◌, refl, true, [], ◌∷◌, ◌+◌, ◌++◌, ◌⊎◌, arith, ltb, eqb, inl, inr,
  Bool-cases, count_distinct, unix, none,
}
use frps_gateway.Store.Sql.{Result, ok, err, active_ip_limit}
use frps_gateway.Store.Grants.{active_ips, max_id, add_grant_limited}
use frps_gateway.Store.Grants.Limit.{add_grant_limited-within}
use frps_gateway.Frps.{Transport, Reply, Entry, done, failed, add}
use frps_gateway.Frps.Whitelist.{WhitelistApi, add_lem}
use frps_gateway.Executor.{display_user}
use frps_gateway.Executor.Commands.{
  ChatRequest, Limits, granted, Backend, ttl_of, chat_grant, on_synced, on_recorded, add_mine,
}

module _ (t : Transport) (api : WhitelistApi t) (limits : Limits) where
  on_synced_lem :
      (ttl x : ℕ) (entry : Entry) (reply : Reply Entry) (b : Backend t)
      → (on_synced t limits ttl reply b).0 ≡ granted entry x
      → (x ≡ ttl) × (reply ≡ done entry)
  on_synced_lem ttl x entry (failed y) b h = cc h
  on_synced_lem ttl x entry (done e) b h = (cc h, cc h)

  on_synced-same :
      (ttl : ℕ) (reply : Reply Entry) (b : Backend t) → (on_synced t limits ttl reply b).1 ≡ b
  on_synced-same ttl (failed x) b = refl
  on_synced-same ttl (done entry) b = refl

  lifetime-cases :
      (asked : ℕ)
      → ((asked ≡ 0) × (ttl_of t limits asked ≡ limits.default_ttl))
        ⊎ ((0 < asked) × (ttl_of t limits asked ≡ asked))
  lifetime-cases asked = elim (Bool-cases (eqb asked 0)) [
    | inl unset ↦ inl (ground (arith, unset), rw unset refl)
    | inr given ↦ inr (ground (arith, given), rw given refl)
  ]

  -- What a grant that is recorded and sent leaves.
  on_recorded_lem :
      (r : ChatRequest) (ip : String) (ttl x : ℕ) (entry : Entry) (clock : ℕ → ℕ)
      (recorded : Result (Unit {0})) (b : Backend t)
      → (on_recorded t limits r ip ttl clock recorded b).0 ≡ granted entry x
      → (x ≡ ttl)
        × (recorded ≡ ok tt)
        × ((on_recorded t limits r ip ttl clock recorded b).1.env ≡ b.env)
        × (api.holds (on_recorded t limits r ip ttl clock recorded b).1.frps ip ≡ true)
  on_recorded_lem r ip ttl x entry clock (err active_ip_limit) b h = cc h
  on_recorded_lem r ip ttl x entry clock (err y) b h = cc h
  on_recorded_lem r ip ttl x entry clock (ok u) b h =
      let owner = display_user r.operator_name r.operator_open_id in
      let reply = (add t ip ttl owner (clock 3) b.frps).0 in
      let (same, sent) = on_synced_lem ttl x entry reply _ h in
      (
        same,
        refl,
        rw (on_synced-same ttl reply (record b { frps = (add t ip ttl owner (clock 3) b.frps).1 }))
            refl,
        rw (on_synced-same ttl reply (record b { frps = (add t ip ttl owner (clock 3) b.frps).1 }))
            (add_lem t api ip owner ttl (clock 3) b.frps entry sent),
      )

  -- A grant that a message asks for and that is answered as granted lasts what was asked for, or the
  -- default if nothing was, at most the longest allowed; the table has gained exactly one row, for the
  -- sender, the address and that time from now on, under a new id; the sender has at most the configured
  -- number of active addresses, which is positive; and frps, if it behaves as its API documents, holds
  -- the address.
  pub add_mine-Granted :
      (r : ChatRequest) (ip : String) (asked : ℕ) (clock : ℕ → ℕ) (b : Backend t) (entry : Entry)
      (ttl : ℕ)
      → 0 < limits.max_active_ips
      → (add_mine t limits r ip asked clock b).0 ≡ granted entry ttl
      → let b' = (add_mine t limits r ip asked clock b).1 in
        (((asked ≡ 0) × (ttl ≡ limits.default_ttl)) ⊎ ((0 < asked) × (ttl ≡ asked)))
        × (ttl ≤ limits.max_ttl)
        × (b'.env.db.grants
            ≡ b.env.db.grants
              ++ record {
                id = suc (max_id b.env.db.grants);
                open_id = r.operator_open_id;
                operator_name = r.operator_name;
                ip = ip;
                source = "feishu_command";
                created_at = unix (clock 1);
                expire_at = unix (clock 1 + ttl);
                revoked_at = none;
              }
                ∷ [])
        × (count_distinct (active_ips r.operator_open_id (unix (clock 2)) b'.env.db.grants)
            ≤ limits.max_active_ips)
        × (api.holds b'.frps ip ≡ true)
  unfolding add_mine
  add_mine-Granted r ip asked clock b entry ttl limited h =
      let lifetime = ttl_of t limits asked in
      elim (Bool-cases (ltb limits.max_ttl lifetime)) [
        | inl long ↦ cc (rw long at h)
        | inr short ↦
            let g = chat_grant t limits r ip lifetime (clock 1) in
            let (recorded, e) = add_grant_limited g limits.max_active_ips (clock 2) b.env in
            let (same, ran, env, held) =
              on_recorded_lem r ip lifetime ttl entry clock recorded (record b { env = e })
                (rw short at h) in
            let (within, rows) =
              add_grant_limited-within g limits.max_active_ips (clock 2) b.env limited ran in
            rw (short, same)
              (lifetime-cases asked, ground (arith, short), rw env rows, rw env within, held)
      ]
