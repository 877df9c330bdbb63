-- ===== src/Executor/Removals.antt =====
-- What the removals of `Reconcile` in executor/executor.go bring about at frps.
use frps_gateway.Base.{
  String, ◌≡◌, refl, sym, true, false, ◌⊎◌, inl, inr, List, [], ◌∷◌, ◌==◌, eq_iff, All,
  All-sort_texts, sort_texts, has, Bool-cases, subst,
}
use frps_gateway.Store.Sql.{Env, StoreError, Result, ok, err}
use frps_gateway.Store.Sql.Runs.{query-cases}
use frps_gateway.Store.Grants.{list_managed_ips, forget_managed_ip}
use frps_gateway.Frps.{Transport, is_not_found, remove}
use frps_gateway.Frps.Whitelist.{
  WhitelistApi, Live, Reply-cases, remove_keeps, remove_absent, remove_done, remove_not_found,
}
use frps_gateway.Executor.Holdings.{held}
use frps_gateway.Executor.{
  Holding, Reconciled, reconciled, World, forget, remove_each, with_managed, drop_stale,
}

pub Result-cases :
    {A : Type 0} (r : Result A) → ((a : A) × (r ≡ ok a)) ⊎ ((x : StoreError) × (r ≡ err x))
Result-cases (ok a) = inl (a, refl)
Result-cases (err x) = inr (x, refl)

module _ (t : Transport) (order : List Holding → List Holding) (api : WhitelistApi t) where
  -- An address that the loop of removals goes over is held by a grant, or no longer at frps.
  abbrev pub Settled : List Holding → World t order → String → Type 0
  Settled hs w ip = (has (λ (h : Holding). h.ip == ip) hs ≡ true) ⊎ (api.holds w.frps ip ≡ false)

  abbrev pub Removed : List Holding → List String → World t order → World t order → Type 0
  Removed hs ips w w' =
      All (Settled hs w') ips
      × ((x : String)
          → has (λ (h : Holding). h.ip == x) hs ≡ true
          → api.canonical x ≡ x
          → Live t api w.frps x
          → Live t api w'.frps x)
      × ((x : String) → api.holds w.frps x ≡ false → api.holds w'.frps x ≡ false)

  -- What the loop does after it has removed an address.
  forget_lem :
      (hs : List Holding) (ips : List String) (ip : String) (w : World t order)
      → (forget t order ip (remove_each t order hs ips) w).0 ≡ reconciled
      → (w₁ : World t order) × (w₁.frps ≡ w.frps)
        × (forget t order ip (remove_each t order hs ips) w ≡ remove_each t order hs ips w₁)
  unfolding forget
  forget_lem hs ips ip w h = elim (Result-cases (forget_managed_ip ip w.env).0) [
    | inl (u, q) ↦ (record w { env = (forget_managed_ip ip w.env).1 }, refl, rw q refl)
    | inr (x, q) ↦ cc (rw q at h)
  ]

  -- One address that no grant holds is removed.
  removed_step :
      (hs : List Holding) (ips : List String) (ip : String) (w : World t order)
      → has (λ (h : Holding). h.ip == ip) hs ≡ false
      → (remove_each t order hs (ip ∷ ips) w).0 ≡ reconciled
      → (w₁ : World t order) × (w₁.frps ≡ (remove t ip "" w.frps).1)
        × (api.holds w₁.frps ip ≡ false)
        × (remove_each t order hs (ip ∷ ips) w ≡ remove_each t order hs ips w₁)
  unfolding remove_each
  removed_step hs ips ip w stale h = elim (Reply-cases (remove t ip "" w.frps).0) [
    | inl (u, q) ↦
        let (w₁, same, reached) = forget_lem hs ips ip _ (rw (stale, q) at h) in
        (w₁, same, rw same (remove_done t api ip "" w.frps u q), rw (stale, q) reached)
    | inr (x, q) ↦ elim (Bool-cases (is_not_found x)) [
      | inl gone ↦
          let (w₁, same, reached) = forget_lem hs ips ip _ (rw (stale, q, gone) at h) in
          (
            w₁,
            same,
            rw same (remove_not_found t api ip "" w.frps x q gone),
            rw (stale, q, gone) reached,
          )
      | inr other ↦ cc (rw (stale, q, other) at h)
    ]
  ]

  -- Two addresses in their normal form, one of them held by a grant and the other not.
  held_differs :
      (hs : List Holding) (ip x : String)
      → has (λ (h : Holding). h.ip == ip) hs ≡ false
      → has (λ (h : Holding). h.ip == x) hs ≡ true
      → api.canonical ip ≡ ip
      → api.canonical x ≡ x
      → (api.canonical ip == api.canonical x) ≡ false
  held_differs hs ip x stale held form form' =
      rw (form, form')
        (elim (Bool-cases (ip == x)) [
          | inl same ↦ cc (rw (← (eq_iff ip x).0 same) at held, stale)
          | inr other ↦ other
        ])

  Removed-cons :
      (hs : List Holding) (ips : List String) (ip : String) (w w₁ w' : World t order)
      → has (λ (h : Holding). h.ip == ip) hs ≡ false
      → api.canonical ip ≡ ip
      → w₁.frps ≡ (remove t ip "" w.frps).1
      → api.holds w₁.frps ip ≡ false
      → Removed hs ips w₁ w'
      → Removed hs (ip ∷ ips) w w'
  Removed-cons hs ips ip w w₁ w' stale form same gone (all, keeps, absent) = (
    (inr (absent ip gone), all),
    (λ x p form' live. keeps x p form' (
        rw same
          (remove_keeps t api ip "" w.frps x (held_differs hs ip x stale p form form') live))),
    λ x p. absent x (rw same (remove_absent t api ip "" w.frps x (rw same at gone) p)),
  )

  no_more :
      (hs : List Holding) (w : World t order) → Removed hs [] w (remove_each t order hs [] w).1
  unfolding remove_each
  no_more hs w = (tt, λ x p form live. live, λ x p. p)

  held_skips :
      (hs : List Holding) (ips : List String) (ip : String) (w : World t order)
      → has (λ (h : Holding). h.ip == ip) hs ≡ true
      → remove_each t order hs (ip ∷ ips) w ≡ remove_each t order hs ips w
  unfolding remove_each
  held_skips hs ips ip w held = rw held refl

  remove_each_lem :
      (hs : List Holding) (ips : List String) (w : World t order)
      → All (λ ip. api.canonical ip ≡ ip) ips
      → (remove_each t order hs ips w).0 ≡ reconciled
      → Removed hs ips w (remove_each t order hs ips w).1
  remove_each_lem hs [] w forms h = no_more hs w
  remove_each_lem hs (ip ∷ ips) w forms h =
      elim (Bool-cases (has (λ (h : Holding). h.ip == ip) hs)) [
        | inl held ↦
            let skip = held_skips hs ips ip w held in
            let (all, keeps, absent) = remove_each_lem hs ips w forms.1 (rw skip at h) in
            subst (λ (o : Reconciled × World t order). Removed hs (ip ∷ ips) w o.1) (sym skip)
              ((inl held, all), keeps, absent)
        | inr stale ↦
            let (w₁, same, gone, reached) = removed_step hs ips ip w stale h in
            subst (λ (o : Reconciled × World t order). Removed hs (ip ∷ ips) w o.1) (sym reached)
              (Removed-cons hs ips ip w w₁ (remove_each t order hs ips w₁).1 stale forms.0 same gone
                (remove_each_lem hs ips w₁ forms.1 (rw reached at h)))
      ]

  list_managed_ips-read :
      (e : Env) (ips : List String)
      → (list_managed_ips e).0 ≡ ok ips
      → ips ≡ sort_texts e.db.managed_ips
  unfolding list_managed_ips
  list_managed_ips-read e ips q = elim (query-cases (λ d. sort_texts d.managed_ips) e) [
    | inl bad ↦ cc (rw bad at q)
    | inr ran ↦ cc (rw ran at q)
  ]

  -- The second half of `Reconcile`.
  pub drop_stale_lem :
      (hs : List Holding) (w : World t order)
      → All (λ ip. api.canonical ip ≡ ip) w.env.db.managed_ips
      → (drop_stale t order hs w).0 ≡ reconciled
      → (ips : List String) × ((list_managed_ips w.env).0 ≡ ok ips)
        × Removed hs ips w (drop_stale t order hs w).1
  unfolding drop_stale
  drop_stale_lem hs w forms h = elim (Result-cases (list_managed_ips w.env).0) [
    | inl (ips, q) ↦ (
      ips,
      q,
      subst
          (λ r.
            Removed hs ips w
              (with_managed t order r hs (record w { env = (list_managed_ips w.env).1 })).1)
          (sym q)
          (remove_each_lem hs ips _
            (rw (list_managed_ips-read w.env ips q)
              (All-sort_texts (λ ip. api.canonical ip ≡ ip) w.env.db.managed_ips forms))
            (rw q at h)),
    )
    | inr (x, q) ↦ cc (rw q at h)
  ]
