-- ===== src/Authorize/Confirm/Recorded.antt =====
-- What a confirmation of authorize/server.go records, answer by answer.
use frps_gateway.Base.{
  ℕ, ◌-◌, String, ◌==◌, ◌≡◌, ◌≢◌, refl, Bool, true, false, ◌&&◌, ◌||◌, ◌⊎◌, inl, inr, Bool-cases,
  Option, none, some, List, [], ◌∷◌, if◌then◌else◌, arith,
}
use frps_gateway.Store.Schema.{Db, Grant}
use frps_gateway.Store.Sql.{
  Env, StoreError, Result, ok, err, sqlite, unique_violation, primary_key_violation, token_invalid,
  active_ip_limit, grant_not_found, grant_inactive, missing_ids,
}
use frps_gateway.Store.Tokens.{consume_token_ips}
use frps_gateway.Store.Tokens.Consume.{consume_token_ips-err}
use frps_gateway.Store.Tokens.Spending.{Spends, consume_token_ips-Spends}
use frps_gateway.Frps.{Transport, FrpsError, Reply, Entry, done, failed, add}
use frps_gateway.Authorize.{
  Net, HttpRequest, ClientIp, ClientError, found, refused, client_ip, grantable_public_ip, valid_v4,
  requested_ips,
}
use frps_gateway.Authorize.Confirm.{
  Answer, gone_410, bad_address_400, too_many_409, failed_500, page_200, not_synced_502,
  granted_200, refusal, next_grant, sync_each, operator_of, after_consume, post_decoded, post_from,
  post,
}

module _ (sha256 : String → String) (decode : String → Option String) (net : Net)
    (trusted : List net.Prefix) (t : Transport) (max_active_ips : ℕ) where
  -- The addresses that a confirmation asks for: the client's, and the one that the form reports, if that
  -- parses, is a public one of version 4, and differs.
  abbrev pub Targets : HttpRequest → String → List String → Type 0
  Targets r ip ts =
      ((a : net.Addr) × (net.parse_addr (net.trim_space r.form_ipv4) ≡ some a)
        × (net.is_4 a ≡ true)
        × (grantable_public_ip net trusted a ≡ true)
        × ((net.show a == "" || net.show a == ip) ≡ false)
        × (ts ≡ ip ∷ net.show a ∷ []))
      ⊎ (((net.parse_addr (net.trim_space r.form_ipv4) ≡ none)
            ⊎ ((a : net.Addr) × (net.parse_addr (net.trim_space r.form_ipv4) ≡ some a)
                × (((net.is_4 a && grantable_public_ip net trusted a) ≡ false)
                    ⊎ ((net.show a == "" || net.show a == ip) ≡ true))))
          × (ts ≡ ip ∷ []))

  -- A link that decodes, and a client whose address is accepted, with the addresses that are asked for.
  abbrev pub Asks : HttpRequest → String → List String → Type 0
  Asks r raw ts =
      (ip : String) × (decode r.path_token ≡ some raw)
      × (client_ip net trusted r ≡ found ip)
      × Targets r ip ts

  -- The token of the link was consumed for the addresses of the request.
  abbrev pub Confirmed : HttpRequest → ℕ → Db → List Grant → Db → Type 0
  Confirmed r now d gs d' =
      (raw : String) × (ts : List String) × Asks r raw ts
      × Spends sha256 raw ts now d.auth_tokens d.grants gs d'.auth_tokens d'.grants

  -- The attempt to consume the token was refused.
  abbrev pub RefusedBy : HttpRequest → ℕ → Env → StoreError → Type 0
  RefusedBy r now e x =
      (raw : String) × (ts : List String) × Asks r raw ts
      × ((consume_token_ips sha256 raw ts max_active_ips now e).0 ≡ err x)

  -- Each grant was handed to frps for the rest of its time, in order, up to the first failure, if any.
  abbrev pub Sent : Bool → List Grant → String → (String → ℕ) → t.State → t.State → Type 0
  Sent passed [] operator clock s s' = (passed ≡ true) × (s' ≡ s)
  Sent passed (g ∷ gs) operator clock s s' =
      let (reply, s₁) = add t g.ip (g.expire_at - clock g.ip) operator (clock g.ip) s in
      ((entry : Entry) × (reply ≡ done entry) × Sent passed gs operator clock s₁ s')
      ⊎ ((x : FrpsError) × (reply ≡ failed x) × (passed ≡ false) × (s' ≡ s₁))

  -- The user of the grants, by name or else by id.
  abbrev pub Labels : List Grant → String → Type 0
  Labels [] operator = operator ≡ ""
  Labels (g ∷ gs) operator =
      (((g.operator_name == "") ≡ true) × (operator ≡ g.open_id))
      ⊎ (((g.operator_name == "") ≡ false) × (operator ≡ g.operator_name))

  abbrev pub Handed : Bool → List Grant → (String → ℕ) → t.State → t.State → Type 0
  Handed passed gs clock s s' =
      (operator : String) × Labels gs operator × Sent passed gs operator clock s s'

  abbrev pub Same : Env → t.State → Env → t.State → Type 0
  Same e s e' s' = (e'.db ≡ e.db) × (s' ≡ s)

  abbrev pub Recorded :
      HttpRequest → ℕ → (String → ℕ) → Env → t.State → Answer → Env → t.State → Type 0
  Recorded r now clock e s (granted_200 gs) e' s' =
      Confirmed r now e.db gs e'.db × Handed true gs clock s s'
  Recorded r now clock e s not_synced_502 e' s' =
      (gs : List Grant) × Confirmed r now e.db gs e'.db × Handed false gs clock s s'
  Recorded r now clock e s bad_address_400 e' s' =
      ((x : ClientError) × (client_ip net trusted r ≡ refused x)) × Same e s e' s'
  Recorded r now clock e s gone_410 e' s' =
      ((decode r.path_token ≡ none) ⊎ RefusedBy r now e token_invalid) × Same e s e' s'
  Recorded r now clock e s too_many_409 e' s' = RefusedBy r now e active_ip_limit × Same e s e' s'
  Recorded r now clock e s failed_500 e' s' =
      ((x : StoreError) × RefusedBy r now e x × (x ≢ token_invalid) × (x ≢ active_ip_limit))
      × Same e s e' s'
  Recorded r now clock e s (page_200 ip) e' s' = ⊥

  requested_ips-Targets :
      (r : HttpRequest) (ip : String) (o : Option net.Addr)
      → net.parse_addr (net.trim_space r.form_ipv4) ≡ o
      → Targets r ip (
          let v4 = valid_v4 net trusted o in if v4 == "" || v4 == ip then ip ∷ [] else ip ∷ v4 ∷ [])
  requested_ips-Targets r ip none q = inr (inl q, refl)
  requested_ips-Targets r ip (some a) q =
      elim (Bool-cases (net.is_4 a && grantable_public_ip net trusted a)) [
        | inr unfit ↦ rw unfit (inr (inr (a, q, inl unfit), refl))
        | inl fit ↦ elim (Bool-cases (net.show a == "" || net.show a == ip)) [
          | inl known ↦ rw (fit, known) (inr (inr (a, q, inr known), refl))
          | inr new ↦
              rw (fit, new) (inl (a, q, ground (arith, fit), ground (arith, fit), new, refl))
        ]
      ]

  -- One grant of the loop, by the reply of frps.
  next_grant-Sent :
      (reply : Reply Entry) (gs : List Grant) (operator : String) (clock : String → ℕ) (s : t.State)
      → (let (passed, s') =
            sync_each sha256 decode net trusted t max_active_ips gs operator clock s in
          Sent passed gs operator clock s s')
      → (let (passed, s') =
            next_grant sha256 decode net trusted t max_active_ips reply
              (sync_each sha256 decode net trusted t max_active_ips gs operator clock)
              s in
          ((entry : Entry) × (reply ≡ done entry) × Sent passed gs operator clock s s')
          ⊎ ((x : FrpsError) × (reply ≡ failed x) × (passed ≡ false) × (s' ≡ s)))
  next_grant-Sent (failed x) gs operator clock s sent = inr (x, refl, refl, refl)
  next_grant-Sent (done entry) gs operator clock s sent = inl (entry, refl, sent)

  sync_each-Sent :
      (gs : List Grant) (operator : String) (clock : String → ℕ) (s : t.State)
      → (let (passed, s') =
            sync_each sha256 decode net trusted t max_active_ips gs operator clock s in
          Sent passed gs operator clock s s')
  unfolding sync_each
  sync_each-Sent [] operator clock s = (refl, refl)
  sync_each-Sent (g ∷ gs) operator clock s =
      let (reply, s₁) = add t g.ip (g.expire_at - clock g.ip) operator (clock g.ip) s in
      next_grant-Sent reply gs operator clock s₁ (sync_each-Sent gs operator clock s₁)

  operator_of-Labels :
      (gs : List Grant) → Labels gs (operator_of sha256 decode net trusted t max_active_ips gs)
  operator_of-Labels [] = refl
  operator_of-Labels (g ∷ gs) = elim (Bool-cases (g.operator_name == "")) [
    | inl unnamed ↦ rw unnamed (inl (refl, refl))
    | inr named ↦ rw named (inr (refl, refl))
  ]

  refusal_lem :
      (x : StoreError) (r : HttpRequest) (now : ℕ) (clock : String → ℕ) (e e' : Env) (s : t.State)
      → RefusedBy r now e x
      → e'.db ≡ e.db
      → Recorded r now clock e s (refusal sha256 decode net trusted t max_active_ips x) e' s
  refusal_lem token_invalid r now clock e e' s h same = (inr h, (same, refl))
  refusal_lem active_ip_limit r now clock e e' s h same = (h, (same, refl))
  refusal_lem sqlite r now clock e e' s h same =
      ((sqlite, h, (λ q. cc q), (λ q. cc q)), (same, refl))
  refusal_lem unique_violation r now clock e e' s h same =
      ((unique_violation, h, (λ q. cc q), (λ q. cc q)), (same, refl))
  refusal_lem primary_key_violation r now clock e e' s h same =
      ((primary_key_violation, h, (λ q. cc q), (λ q. cc q)), (same, refl))
  refusal_lem grant_not_found r now clock e e' s h same =
      ((grant_not_found, h, (λ q. cc q), (λ q. cc q)), (same, refl))
  refusal_lem grant_inactive r now clock e e' s h same =
      ((grant_inactive, h, (λ q. cc q), (λ q. cc q)), (same, refl))
  refusal_lem missing_ids r now clock e e' s h same =
      ((missing_ids, h, (λ q. cc q), (λ q. cc q)), (same, refl))

  synced_lem :
      (passed : Bool) (r : HttpRequest) (now : ℕ) (clock : String → ℕ) (e e' : Env)
      (gs : List Grant) (s s' : t.State)
      → Confirmed r now e.db gs e'.db
      → Handed passed gs clock s s'
      → Recorded r now clock e s (if passed then granted_200 gs else not_synced_502) e' s'
  synced_lem true r now clock e e' gs s s' h k = (h, k)
  synced_lem false r now clock e e' gs s s' h k = (gs, h, k)

  after_consume_lem :
      (raw : String) (ts : List String) (r : HttpRequest) (now : ℕ) (clock : String → ℕ) (e : Env)
      (s : t.State)
      → Asks r raw ts
      → (o : Result (List Grant)) → (consume_token_ips sha256 raw ts max_active_ips now e).0 ≡ o
      → (let (answer, (e', s')) =
            after_consume sha256 decode net trusted t max_active_ips o clock
              (consume_token_ips sha256 raw ts max_active_ips now e).1
              s in
          Recorded r now clock e s answer e' s')
  after_consume_lem raw ts r now clock e s asks (err x) q =
      refusal_lem x r now clock e (consume_token_ips sha256 raw ts max_active_ips now e).1 s
        (raw, ts, asks, q) (consume_token_ips-err sha256 raw ts max_active_ips now e x q)
  after_consume_lem raw ts r now clock e s asks (ok gs) q =
      let operator = operator_of sha256 decode net trusted t max_active_ips gs in
      let (passed, s') = sync_each sha256 decode net trusted t max_active_ips gs operator clock s in
      synced_lem passed r now clock e (consume_token_ips sha256 raw ts max_active_ips now e).1 gs s
        s' (raw, ts, asks, consume_token_ips-Spends sha256 raw ts max_active_ips now e gs q)
        (operator, operator_of-Labels gs, sync_each-Sent gs operator clock s)

  -- A confirmation that is answered with the grants, or with a failure to reach frps, consumed the token
  -- of the link for the client's address and the one that the form reports, where that is a public one of
  -- version 4 and differs: with the grants, frps took each of them, in order, for the rest of its time and
  -- under its user; with the failure, it did not take one, and got none after that. It is answered as a bad
  -- address where the address of the client is refused, as gone where the link does not decode or its token
  -- is refused, as too many where the limit is reached, and as failed on another error of the store; then
  -- no table has changed and nothing was sent.
  pub post-Recorded :
      (r : HttpRequest) (now : ℕ) (clock : String → ℕ) (e : Env) (s : t.State)
      → (let (answer, (e', s')) = post sha256 decode net trusted t max_active_ips r now clock e s in
          Recorded r now clock e s answer e' s')
  unfolding post
  post-Recorded r now clock e s = from (client_ip net trusted r) refl
    where
      decoded :
          (ip : String) (o : Option String)
          → decode r.path_token ≡ o
          → client_ip net trusted r ≡ found ip
          → (let (answer, (e', s')) =
                post_decoded sha256 decode net trusted t max_active_ips o ip r now clock e s in
              Recorded r now clock e s answer e' s')
      decoded ip none q from_ip = (inl q, (refl, refl))
      decoded ip (some raw) q from_ip =
          after_consume_lem raw (requested_ips net trusted r ip) r now clock e s
            (ip, q, from_ip, requested_ips-Targets r ip _ refl) _ refl

      from :
          (c : ClientIp)
          → client_ip net trusted r ≡ c
          → (let (answer, (e', s')) =
                post_from sha256 decode net trusted t max_active_ips c r now clock e s in
              Recorded r now clock e s answer e' s')
      from (refused x) q = ((x, q), (refl, refl))
      from (found ip) q = decoded ip (decode r.path_token) refl q
