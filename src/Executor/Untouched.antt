-- ===== src/Executor/Untouched.antt =====
-- Of the tables, `Reconcile` of executor/executor.go changes the managed addresses only.
use frps_gateway.Base.{
  ℕ, ◌-◌, String, ◌≡◌, refl, ◌∙◌, List, [], ◌∷◌, inl, inr, Bool-cases, has, ◌==◌,
}
use frps_gateway.Store.Schema.{Db, Grant}
use frps_gateway.Store.Sql.{Result, ok, err}
use frps_gateway.Store.Grants.{list_active, list_managed_ips, forget_managed_ip}
use frps_gateway.Store.Grants.Frames.{
  list_active-Keeps, list_managed_ips-Keeps, forget_managed_ip-Keeps,
}
use frps_gateway.Store.Access.{join_names}
use frps_gateway.Frps.{Transport, Reply, Entry, done, failed, is_not_found, add, remove}
use frps_gateway.Executor.{
  Holding, holdings, Reconciled, World, on_added, add_each, on_forgotten, forget, on_removed,
  remove_each, with_managed, drop_stale, with_active, reconcile,
}

module _ {ℓ} {B : Type ℓ} (view : Db → B)
    (blind : (d : Db) (ips : List String) → view (record d { managed_ips = ips }) ≡ view d)
    (t : Transport) (order : List Holding → List Holding) where
  -- A continuation after which the view of the tables is as before.
  abbrev Untouched : (World t order → Reconciled × World t order) → Type ℓ
  Untouched k = (w : World t order) → view (k w).1.env.db ≡ view w.env.db

  on_added-Untouched :
      (r : Reply Entry) (k : World t order → Reconciled × World t order) (w : World t order)
      → Untouched k
      → view (on_added t order r k w).1.env.db ≡ view w.env.db
  on_added-Untouched (failed x) k w h = refl
  on_added-Untouched (done entry) k w h = h w

  add_each-Untouched :
      (hs : List Holding) (clock : String → ℕ) (k : World t order → Reconciled × World t order)
      → Untouched k
      → Untouched (add_each t order hs clock k)
  unfolding add_each
  add_each-Untouched [] clock k h w = h w
  add_each-Untouched (g ∷ hs) clock k h w =
      on_added-Untouched
        (add t g.ip (g.expiry - clock g.ip) (join_names g.owners) (clock g.ip) w.frps).0
        (add_each t order hs clock k) _ (add_each-Untouched hs clock k h)

  on_forgotten-Untouched :
      (r : Result (Unit {0})) (k : World t order → Reconciled × World t order) (w : World t order)
      → Untouched k
      → view (on_forgotten t order r k w).1.env.db ≡ view w.env.db
  on_forgotten-Untouched (err x) k w h = refl
  on_forgotten-Untouched (ok u) k w h = h w

  forget-Untouched :
      (ip : String) (k : World t order → Reconciled × World t order)
      → Untouched k
      → Untouched (forget t order ip k)
  unfolding forget
  forget-Untouched ip k h w =
      on_forgotten-Untouched (forget_managed_ip ip w.env).0 k _ h
      ∙ forget_managed_ip-Keeps view ip blind w.env

  on_removed-Untouched :
      (r : Reply (Unit {0})) (k : World t order → Reconciled × World t order) (w : World t order)
      → Untouched k
      → view (on_removed t order r k w).1.env.db ≡ view w.env.db
  on_removed-Untouched (done u) k w h = h w
  on_removed-Untouched (failed x) k w h = elim (Bool-cases (is_not_found x)) [
    | inl gone ↦ rw gone (h w)
    | inr other ↦ rw other refl
  ]

  remove_each-Untouched :
      (hs : List Holding) (ips : List String) → Untouched (remove_each t order hs ips)
  unfolding remove_each
  remove_each-Untouched hs [] w = refl
  remove_each-Untouched hs (ip ∷ ips) w = elim (Bool-cases (has (λ (h : Holding). h.ip == ip) hs)) [
    | inl held ↦ rw held (remove_each-Untouched hs ips w)
    | inr stale ↦ rw stale (
        on_removed-Untouched (remove t ip "" w.frps).0
          (forget t order ip (remove_each t order hs ips)) _
          (forget-Untouched ip (remove_each t order hs ips) (remove_each-Untouched hs ips)))
  ]

  with_managed-Untouched :
      (r : Result (List String)) (hs : List Holding) → Untouched (with_managed t order r hs)
  with_managed-Untouched (err x) hs w = refl
  with_managed-Untouched (ok ips) hs w = remove_each-Untouched hs ips w

  drop_stale-Untouched : (hs : List Holding) → Untouched (drop_stale t order hs)
  unfolding drop_stale
  drop_stale-Untouched hs w =
      with_managed-Untouched (list_managed_ips w.env).0 hs _ ∙ list_managed_ips-Keeps view w.env

  with_active-Untouched :
      (r : Result (List Grant)) (clock : String → ℕ) → Untouched (with_active t order r clock)
  with_active-Untouched (err x) clock w = refl
  with_active-Untouched (ok gs) clock w =
      add_each-Untouched (order (holdings gs)) clock (drop_stale t order (holdings gs))
        (drop_stale-Untouched (holdings gs)) w

  -- Whatever view of the tables does not look at the managed addresses, a reconciliation keeps it.
  pub reconcile-Untouched :
      (now : ℕ) (clock : String → ℕ) (w : World t order)
      → view (reconcile t order now clock w).1.env.db ≡ view w.env.db
  unfolding reconcile
  reconcile-Untouched now clock w =
      with_active-Untouched (list_active now w.env).0 clock _ ∙ list_active-Keeps view now w.env
