-- ===== src/Executor/Converges.antt =====
-- What `Reconcile` of executor/executor.go brings about at frps.
use frps_gateway.Base.{
  ℕ, ◌-◌, ◌≤◌, String, ◌≡◌, refl, sym, ◌∙◌, true, false, ◌⊎◌, inl, inr, List, [], ◌∷◌, All,
  All-weaken, All-map, All-sort_by, All-select, map, sort_by, select, unix, subst,
}
use frps_gateway.Store.Schema.{Db, Grant, GrantRow}
use frps_gateway.Store.Sql.{Env, ok}
use frps_gateway.Store.Sql.Runs.{query-cases}
use frps_gateway.Store.Grants.Frames.{list_active-Keeps}
use frps_gateway.Store.Grants.{scan_grant, is_active, list_grants, list_active, list_managed_ips}
use frps_gateway.Store.Access.{join_names}
use frps_gateway.Frps.{Transport, add}
use frps_gateway.Frps.Whitelist.{WhitelistApi, Live, Reply-cases, add_lem, add_keeps}
use frps_gateway.Executor.Holdings.{held, granted, held-holdings, All-held, All-granted}
use frps_gateway.Executor.{
  Holding, holdings, Reconciled, reconciled, World, add_each, drop_stale, with_active, reconcile,
}
use frps_gateway.Executor.Removals.{Result-cases, Settled, Removed, drop_stale_lem}

All-both :
    {A : Type 0} (P Q : A → Type 0) (xs : List A) → All P xs → All Q xs → All (λ x. P x × Q x) xs
All-both P Q [] h k = tt
All-both P Q (x ∷ xs) h k = ((h.0, k.0), All-both P Q xs h.1 k.1)

module _ (t : Transport) (order : List Holding → List Holding) (api : WhitelistApi t) where
  -- How the world that the loop of additions leaves stands to the one before it.
  abbrev pub Added : List Holding → World t order → World t order → Type 0
  Added hs w w' =
      (w'.env ≡ w.env)
      × All (λ h. Live t api w'.frps h.ip) hs
      × ((x : String) → Live t api w.frps x → Live t api w'.frps x)

  add_each_lem :
      (hs : List Holding) (clock : String → ℕ) (k : World t order → Reconciled × World t order)
      (w : World t order)
      → (add_each t order hs clock k w).0 ≡ reconciled
      → (w' : World t order) × Added hs w w' × (add_each t order hs clock k w ≡ k w')
  unfolding add_each
  add_each_lem [] clock k w h = (w, (refl, tt, λ x p. p), refl)
  add_each_lem (g ∷ hs) clock k w h =
      elim (Reply-cases
        (add t g.ip (g.expiry - clock g.ip) (join_names g.owners) (clock g.ip) w.frps).0) [
          | inl (e, q) ↦
              let (w', (env, all, keeps), same) = add_each_lem hs clock k _ (rw q at h) in
              (
                w',
                (
                  env,
                  (
                    keeps g.ip (
                        inl (
                          add_lem t api g.ip (join_names g.owners) (g.expiry - clock g.ip)
                            (clock g.ip) w.frps e q)),
                    all,
                  ),
                  λ x p. keeps x (
                      add_keeps t api g.ip (join_names g.owners) (g.expiry - clock g.ip)
                        (clock g.ip) w.frps e x q p),
                ),
                rw q same,
              )
          | inr (x, q) ↦ cc (rw q at h)
        ]

  -- What `Reconcile` settles: the addresses of the active grants `gs` and the managed ones `ips`.
  abbrev pub Converged : List Grant → List String → World t order → Type 0
  Converged gs ips w =
      All
        (λ (g : Grant).
          (api.holds w.frps g.ip ≡ true) ⊎ (api.expires_at w.frps g.ip ≤ api.time w.frps))
        gs
      × All (λ ip. (granted gs ip ≡ true) ⊎ (api.holds w.frps ip ≡ false)) ips

  settle :
      (gs : List Grant) (ips : List String) (w w' : World t order)
      → All (λ (g : Grant). api.canonical g.ip ≡ g.ip) gs
      → All (λ (h : Holding). Live t api w.frps h.ip) (holdings gs)
      → Removed t order api (holdings gs) ips w w'
      → Converged gs ips w'
  settle gs ips w w' forms added (settled, keeps, absent) = (
    All-weaken gs
        (λ g (here, form). keeps g.ip (held_of g.ip here) form (there g.ip (held_of g.ip here)))
        (All-both _ _ gs (All-granted gs) forms),
    All-weaken ips (λ ip s. settled_as ip s) settled,
  )
    where
      held_of : (x : String) → granted gs x ≡ true → held (holdings gs) x ≡ true
      held_of x h = held-holdings gs x ∙ h

      there : (x : String) → held (holdings gs) x ≡ true → Live t api w.frps x
      there x h = All-held (λ y. Live t api w.frps y) (holdings gs) x added h

      settled_as :
          (ip : String)
          → Settled t order api (holdings gs) w' ip
          → (granted gs ip ≡ true) ⊎ (api.holds w'.frps ip ≡ false)
      settled_as ip (inl h) = inl (sym (held-holdings gs ip) ∙ h)
      settled_as ip (inr h) = inr h

  -- Every address of the grants and every managed one is in its normal form.
  pub record Normal (d : Db) : Type 0 where
    pub grants : All (λ (g : GrantRow). api.canonical g.ip ≡ g.ip) d.grants
    pub managed : All (λ ip. api.canonical ip ≡ ip) d.managed_ips

  list_active-Normal :
      (now : ℕ) (e : Env) (gs : List Grant)
      → All (λ (g : GrantRow). api.canonical g.ip ≡ g.ip) e.db.grants
      → (list_active now e).0 ≡ ok gs
      → All (λ (g : Grant). api.canonical g.ip ≡ g.ip) gs
  unfolding list_active list_grants
  list_active-Normal now e gs forms q =
      let read : Db → List Grant = λ d.
        map scan_grant
          (sort_by (λ g. g.expire_at) (select (λ g. is_active (unix now) g) d.grants)) in
      elim (query-cases read e) [
        | inl bad ↦ cc (rw bad at q)
        | inr ran ↦
            let same : read e.db ≡ gs = cc (rw ran at q) in
            subst (λ xs. All (λ (g : Grant). api.canonical g.ip ≡ g.ip) xs) same
              (All-map (λ (g : Grant). api.canonical g.ip ≡ g.ip) scan_grant _
                (All-sort_by (λ (g : GrantRow). api.canonical g.ip ≡ g.ip) _ _
                  (All-select (λ (g : GrantRow). api.canonical g.ip ≡ g.ip) _ e.db.grants
                    (All-weaken e.db.grants (λ g form hit. form) forms))))
      ]

  active_lem :
      (gs : List Grant) (clock : String → ℕ) (w : World t order)
      → ((P : Holding → Type 0) (hs : List Holding) → All P (order hs) → All P hs)
      → All (λ (g : Grant). api.canonical g.ip ≡ g.ip) gs
      → All (λ ip. api.canonical ip ≡ ip) w.env.db.managed_ips
      → (with_active t order (ok gs) clock w).0 ≡ reconciled
      → (ips : List String) × ((list_managed_ips w.env).0 ≡ ok ips)
        × Converged gs ips (with_active t order (ok gs) clock w).1
  active_lem gs clock w ranges forms managed h =
      let (w₁, (env, all, _), reached) =
        add_each_lem (order (holdings gs)) clock (drop_stale t order (holdings gs)) w h in
      let (ips, listed, removed) =
        drop_stale_lem t order api (holdings gs) w₁ (rw env managed) (rw reached at h) in
      (
        ips,
        rw env at listed,
        subst (λ (o : Reconciled × World t order). Converged gs ips o.1) (sym reached)
            (settle gs ips w₁ (drop_stale t order (holdings gs) w₁).1 forms
              (ranges (λ (g : Holding). Live t api w₁.frps g.ip) (holdings gs) all) removed),
      )

  -- If `Reconcile` returns no error, then, with an API that behaves as documented, a range over the map
  -- that visits every key, and addresses in the tables that are all in their normal form: frps holds the
  -- address of every active grant, unless the time to which its entry was set has come by frps's clock;
  -- and it holds none of the managed addresses that no active grant has.
  pub reconcile-Converged :
      (now : ℕ) (clock : String → ℕ) (w : World t order)
      → ((P : Holding → Type 0) (hs : List Holding) → All P (order hs) → All P hs)
      → Normal w.env.db
      → (reconcile t order now clock w).0 ≡ reconciled
      → (gs : List Grant) × (ips : List String) × ((list_active now w.env).0 ≡ ok gs)
        × ((list_managed_ips (list_active now w.env).1).0 ≡ ok ips)
        × Converged gs ips (reconcile t order now clock w).1
  unfolding reconcile
  reconcile-Converged now clock w ranges normal h = elim (Result-cases (list_active now w.env).0) [
    | inl (gs, q) ↦
        let w₁ = record w { env = (list_active now w.env).1 } in
        let (ips, listed, converged) =
          active_lem gs clock w₁ ranges (list_active-Normal now w.env gs normal.grants q)
            (rw (list_active-Keeps (λ d. d.managed_ips) now w.env) normal.managed) (rw q at h) in
        (
          gs,
          ips,
          q,
          listed,
          subst (λ r. Converged gs ips (with_active t order r clock w₁).1) (sym q) converged,
        )
    | inr (x, q) ↦ cc (rw q at h)
  ]
