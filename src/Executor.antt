-- ===== src/Executor.antt =====
-- executor/executor.go: `Reconcile`, which brings the whitelist of frps in line with the grants. The
-- order in which Go ranges over a map is a parameter, `order`; `clock` is the time at which it comes to an address.
pub mod Holdings
pub mod Removals
pub mod Converges
pub mod Untouched
pub mod Commands
mod Tests
use frps_gateway.Base.{
  ℕ, ◌-◌, String, Bool, true, false, Option, none, some, List, [], ◌∷◌, map, ltb, ◌==◌,
  if◌then◌else◌, has, contains,
}
use frps_gateway.Store.Schema.{Grant}
use frps_gateway.Store.Sql.{Env, StoreError, Result, ok, err}
use frps_gateway.Store.Grants.{list_active, list_managed_ips, forget_managed_ip}
use frps_gateway.Store.Access.{join_names}
use frps_gateway.Frps.{Transport, FrpsError, Reply, Entry, done, failed, is_not_found, add, remove}

-- displayUser
abbrev pub display_user : String → String → String
display_user name open_id = if name == "" then open_id else name

-- An address with its entry of the map `m` and its set of the map `owners`.
pub record Holding : Type 0 where
  pub ip : String
  pub expiry : ℕ
  pub owners : List String

abbrev pub add_owner : String → List String → List String
add_owner a owners = if contains owners a then owners else a ∷ owners

abbrev pub later : ℕ → ℕ → ℕ
later old new = if ltb old new then new else old

-- One round of the first loop. An absent key is the zero time, before every expiry.
abbrev pub hold : Grant → List Holding → List Holding
hold g [] =
    record { ip = g.ip; expiry = g.expire_at; owners = display_user g.operator_name g.open_id ∷ [] }
    ∷ []
hold g (h ∷ hs) =
    let rest = hold g hs in
    if h.ip == g.ip
    then record {
      ip = h.ip;
      expiry = later h.expiry g.expire_at;
      owners = add_owner (display_user g.operator_name g.open_id) h.owners;
    }
      ∷ hs
    else h ∷ rest

abbrev pub holdings_onto : List Holding → List Grant → List Holding
holdings_onto hs [] = hs
holdings_onto hs (g ∷ gs) = holdings_onto (hold g hs) gs

abbrev pub holdings : List Grant → List Holding
holdings gs = holdings_onto [] gs

-- What `Reconcile` returns.
pub data Reconciled : Type 0 where
  reconciled : Reconciled
  store_failed : StoreError → Reconciled
  frps_failed : FrpsError → Reconciled

module _ (t : Transport) (order : List Holding → List Holding) where
  pub record World : Type 0 where
    pub env : Env
    pub frps : t.State

  abbrev pub on_added : Reply Entry → (World → Reconciled × World) → World → Reconciled × World
  on_added (failed x) k w = (frps_failed x, w)
  on_added (done _) k w = k w

  -- The loop that adds each active address; `k` is what follows.
  pub add_each :
      List Holding → (String → ℕ) → (World → Reconciled × World) → World → Reconciled × World
  add_each [] clock k w = k w
  add_each (h ∷ hs) clock k w =
      let (r, s) = add t h.ip (h.expiry - clock h.ip) (join_names h.owners) (clock h.ip) w.frps in
      on_added r (add_each hs clock k) (record w { frps = s })

  abbrev pub on_forgotten :
      Result (Unit {0}) → (World → Reconciled × World) → World → Reconciled × World
  on_forgotten (err x) k w = (store_failed x, w)
  on_forgotten (ok _) k w = k w

  pub forget : String → (World → Reconciled × World) → World → Reconciled × World
  forget ip k w = let (r, e) = forget_managed_ip ip w.env in on_forgotten r k (record w { env = e })

  abbrev pub on_removed : Reply Unit → (World → Reconciled × World) → World → Reconciled × World
  on_removed (done _) k w = k w
  on_removed (failed x) k w = if is_not_found x then k w else (frps_failed x, w)

  -- The loop that removes each managed address which no grant holds.
  pub remove_each : List Holding → List String → World → Reconciled × World
  remove_each hs [] w = (reconciled, w)
  remove_each hs (ip ∷ ips) w =
      let (r, s) = remove t ip "" w.frps in
      if has (λ (h : Holding). h.ip == ip) hs
      then remove_each hs ips w
      else on_removed r (forget ip (remove_each hs ips)) (record w { frps = s })

  abbrev pub with_managed : Result (List String) → List Holding → World → Reconciled × World
  with_managed (err x) hs w = (store_failed x, w)
  with_managed (ok ips) hs w = remove_each hs ips w

  pub drop_stale : List Holding → World → Reconciled × World
  drop_stale hs w = let (r, e) = list_managed_ips w.env in with_managed r hs (record w { env = e })

  abbrev pub with_active : Result (List Grant) → (String → ℕ) → World → Reconciled × World
  with_active (err x) clock w = (store_failed x, w)
  with_active (ok gs) clock w = let hs = holdings gs in add_each (order hs) clock (drop_stale hs) w

  -- Reconcile, with a store
  unfoldable pub reconcile : ℕ → (String → ℕ) → World → Reconciled × World
  reconcile now clock w =
      let (r, e) = list_active now w.env in with_active r clock (record w { env = e })
