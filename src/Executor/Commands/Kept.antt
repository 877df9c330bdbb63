-- ===== src/Executor/Commands/Kept.antt =====
-- What the commands of executor/executor.go leave of the tables, by what the methods of the store do.
use frps_gateway.Base.{
  ℕ, ◌-◌, String, ◌≡◌, refl, ◌∙◌, ltb, eqb, none, some, Option, List, inl, inr, Bool-cases,
}
use frps_gateway.Store.Schema.{Db, Grant}
use frps_gateway.Store.Sql.{Result, ok, err, active_ip_limit}
use frps_gateway.Store.Sql.Frames.{Keeps}
use frps_gateway.Store.Grants.{
  add_grant_limited, revoke_user_ip, effective_expiry, list_active_by_ip,
}
use frps_gateway.Store.Grants.Frames.{
  effective_expiry-Keeps, list_user-Keeps, list_active_by_ip-Keeps,
}
use frps_gateway.Frps.{Transport, Reply, Entry, done, failed, is_not_found, add, remove}
use frps_gateway.Executor.{display_user}
use frps_gateway.Command.{
  ChatText, Action, add_ip, remove_ip, list_mine, help, menu, apply_link, Command, ParseResult,
}
use frps_gateway.Executor.Commands.{
  ChatRequest, Limits, Wording, Backend, Ran, ttl_of, chat_grant, on_synced, on_recorded, add_mine,
  on_refreshed, refresh, on_deleted, on_expiry, on_revoked, remove_mine, list_own, dispatch,
  owner_label,
}

module _ {ℓ} {B : Type ℓ} (view : Db → B) (t : Transport) where
  -- How a run of a command stands to the tables.
  abbrev pub SameView : Ran t → Db → Type ℓ
  SameView (outcome, b) d = view b.env.db ≡ view d

  module _ (limits : Limits) where
    on_synced-SameView :
        (ttl : ℕ) (reply : Reply Entry) (b : Backend t) → (on_synced t limits ttl reply b).1 ≡ b
    on_synced-SameView ttl (failed x) b = refl
    on_synced-SameView ttl (done entry) b = refl

    on_recorded-SameView :
        (r : ChatRequest) (ip : String) (ttl : ℕ) (clock : ℕ → ℕ) (recorded : Result (Unit {0}))
        (b : Backend t)
        → SameView (on_recorded t limits r ip ttl clock recorded b) b.env.db
    on_recorded-SameView r ip ttl clock (ok u) b =
        rw
          (on_synced-SameView ttl
            (add t ip ttl (display_user r.operator_name r.operator_open_id) (clock 3) b.frps).0 _)
          refl
    on_recorded-SameView r ip ttl clock (err active_ip_limit) b = refl
    on_recorded-SameView r ip ttl clock (err x) b = refl

    add_mine-SameView :
        (r : ChatRequest) (ip : String) (asked : ℕ) (clock : ℕ → ℕ) (b : Backend t)
        → ((ttl : ℕ)
            → Keeps view (
                add_grant_limited
                  (chat_grant t limits r ip ttl (clock 1))
                  limits.max_active_ips
                  (clock 2)))
        → SameView (add_mine t limits r ip asked clock b) b.env.db
    unfolding add_mine
    add_mine-SameView r ip asked clock b h =
        elim (Bool-cases (ltb limits.max_ttl (ttl_of t limits asked))) [
          | inl long ↦ rw long refl
          | inr short ↦ rw short (
              on_recorded-SameView r ip (ttl_of t limits asked) clock _ _
              ∙ h (ttl_of t limits asked) b.env)
        ]

  on_refreshed-same : (reply : Reply Entry) (b : Backend t) → (on_refreshed t reply b).1 ≡ b
  on_refreshed-same (failed x) b = refl
  on_refreshed-same (done entry) b = refl

  on_deleted-same :
      (ip : String) (reply : Reply (Unit {0})) (b : Backend t) → (on_deleted t ip reply b).1 ≡ b
  on_deleted-same ip (done u) b = refl
  on_deleted-same ip (failed x) b = elim (Bool-cases (is_not_found x)) [
    | inl gone ↦ rw gone refl
    | inr other ↦ rw other refl
  ]

  refresh-SameView :
      (ip : String) (expiry : ℕ) (clock : ℕ → ℕ) (holders : Result (List Grant)) (b : Backend t)
      → SameView (refresh t ip expiry clock holders b) b.env.db
  refresh-SameView ip expiry clock (err x) b = refl
  refresh-SameView ip expiry clock (ok gs) b =
      rw (on_refreshed-same (add t ip (expiry - clock 5) (owner_label gs) (clock 6) b.frps).0 _)
        refl

  pub on_expiry-SameView :
      (r : ChatRequest) (ip : String) (clock : ℕ → ℕ) (expiry : Result (Option ℕ)) (b : Backend t)
      → SameView (on_expiry t r ip clock expiry b) b.env.db
  on_expiry-SameView r ip clock (err x) b = refl
  on_expiry-SameView r ip clock (ok none) b =
      rw
        (on_deleted-same ip (remove t ip (display_user r.operator_name r.operator_open_id) b.frps).0
          _)
        refl
  on_expiry-SameView r ip clock (ok (some expiry)) b =
      refresh-SameView ip expiry clock (list_active_by_ip ip (clock 4) b.env).0 _
      ∙ list_active_by_ip-Keeps view ip (clock 4) b.env

  on_revoked-SameView :
      (r : ChatRequest) (ip : String) (clock : ℕ → ℕ) (n : Result ℕ) (b : Backend t)
      → SameView (on_revoked t r ip clock n b) b.env.db
  on_revoked-SameView r ip clock (err x) b = refl
  on_revoked-SameView r ip clock (ok n) b = elim (Bool-cases (eqb n 0)) [
    | inl nothing ↦ rw nothing refl
    | inr some_rows ↦ rw some_rows (
        on_expiry-SameView r ip clock (effective_expiry ip (clock 3) b.env).0 _
        ∙ effective_expiry-Keeps view ip (clock 3) b.env)
  ]

  remove_mine-SameView :
      (r : ChatRequest) (ip : String) (clock : ℕ → ℕ) (b : Backend t)
      → Keeps view (revoke_user_ip r.operator_open_id ip (clock 1) (clock 2))
      → SameView (remove_mine t r ip clock b) b.env.db
  unfolding remove_mine
  remove_mine-SameView r ip clock b h =
      let (n, e) = revoke_user_ip r.operator_open_id ip (clock 1) (clock 2) b.env in
      on_revoked-SameView r ip clock n (record b { env = e }) ∙ h b.env

  list_own-SameView :
      (r : ChatRequest) (clock : ℕ → ℕ) (b : Backend t) → SameView (list_own t r clock b) b.env.db
  unfolding list_own
  list_own-SameView r clock b = list_user-Keeps view r.operator_open_id (clock 1) b.env

  module _ (limits : Limits) (lib : ChatText) (wording : Wording) where
    action_lem :
        (r : ChatRequest) (clock : ℕ → ℕ) (c : Command) (action : Action) (b : Backend t)
        → ((g : Grant)
            → g.open_id ≡ r.operator_open_id
            → (limit now : ℕ) → Keeps view (add_grant_limited g limit now))
        → ((ip : String) (now now' : ℕ)
            → Keeps view (revoke_user_ip r.operator_open_id ip now now'))
        → SameView
            (dispatch t limits lib wording r clock (record c { action = action }, none) b)
            b.env.db
    action_lem r clock c add_ip b add_keeps revoke_keeps =
        add_mine-SameView limits r c.ip c.ttl clock b (λ ttl. add_keeps _ refl _ _)
    action_lem r clock c remove_ip b add_keeps revoke_keeps =
        remove_mine-SameView r c.ip clock b (revoke_keeps _ _ _)
    action_lem r clock c list_mine b add_keeps revoke_keeps = list_own-SameView r clock b
    action_lem r clock c help b add_keeps revoke_keeps = refl
    action_lem r clock c menu b add_keeps revoke_keeps = refl
    action_lem r clock c apply_link b add_keeps revoke_keeps = refl

    -- A command leaves alone what the grants of the sender and the revocations of the sender do.
    pub dispatch-SameView :
        (r : ChatRequest) (clock : ℕ → ℕ) (p : ParseResult) (b : Backend t)
        → ((g : Grant)
            → g.open_id ≡ r.operator_open_id
            → (limit now : ℕ) → Keeps view (add_grant_limited g limit now))
        → ((ip : String) (now now' : ℕ)
            → Keeps view (revoke_user_ip r.operator_open_id ip now now'))
        → SameView (dispatch t limits lib wording r clock p b) b.env.db
    dispatch-SameView r clock (c, some x) b add_keeps revoke_keeps = refl
    dispatch-SameView r clock (c, none) b add_keeps revoke_keeps =
        action_lem r clock c c.action b add_keeps revoke_keeps
