-- ===== src/Frps/Whitelist.antt =====
-- The API of frps's whitelist, as a hypothesis on the transport of frps/client.go, and what `Add` and
-- `Remove` bring about with it.
use frps_gateway.Base.{
  ℕ, ◌<◌, ◌≤◌, String, ◌≡◌, refl, sym, ◌∙◌, ltb, eq_iff, Bool, true, false, ◌⊎◌, inl, inr, Option,
  arith, ◌==◌, Bool-cases, eqb, ap,
}
use frps_gateway.Frps.{
  Transport, Request, FrpsError, api_error, Reply, Entry, done, failed, is_not_found, post_entry,
  delete_entry, read_response, do_limit, read_entry, ignore_data, add, remove,
}

-- The address that a request is about.
abbrev pub address_of : Request → String
address_of (post_entry ip ttl operator) = ip
address_of (delete_entry ip operator) = ip

-- The whitelist API of frps as docs/api.md has it. Addresses are brought to a normal form, `canonical`,
-- before they are stored: `holds` says that the list has an entry, not expired, for the form of an
-- address, `expires_at` is the time to which that entry was last set, and `time` is frps's own clock.
-- An entry leaves the list by a DELETE of its address, or when its time has come.
pub record WhitelistApi (t : Transport) : Type 0 where
  pub canonical : String → String
  pub holds : t.State → String → Bool
  pub expires_at : t.State → String → ℕ
  pub time : t.State → ℕ
  pub post_adds :
      (ip ttl operator : String) (s : t.State) (d : Option String)
      → read_response t (t.send (post_entry ip ttl operator) s).0 ≡ done d
      → holds (t.send (post_entry ip ttl operator) s).1 ip ≡ true
  pub delete_removes :
      (ip operator : String) (s : t.State) (d : Option String)
      → read_response t (t.send (delete_entry ip operator) s).0 ≡ done d
      → holds (t.send (delete_entry ip operator) s).1 ip ≡ false
  pub not_found_absent :
      (ip operator : String) (s : t.State)
      → read_response t (t.send (delete_entry ip operator) s).0 ≡ failed (api_error 404)
      → holds (t.send (delete_entry ip operator) s).1 ip ≡ false
  pub one_entry : (s : t.State) (x y : String) → canonical x ≡ canonical y → holds s x ≡ holds s y
  pub others_expiry :
      (q : Request) (s : t.State) (x : String)
      → (canonical (address_of q) == canonical x) ≡ false
      → expires_at (t.send q s).1 x ≡ expires_at s x
  pub others_stay :
      (q : Request) (s : t.State) (x : String)
      → (canonical (address_of q) == canonical x) ≡ false
      → holds s x ≡ true
      → time (t.send q s).1 < expires_at s x
      → holds (t.send q s).1 x ≡ true
  pub others_absent :
      (q : Request) (s : t.State) (x : String)
      → (canonical (address_of q) == canonical x) ≡ false
      → holds s x ≡ false
      → holds (t.send q s).1 x ≡ false
  pub time_passes : (q : Request) (s : t.State) → time s ≤ time (t.send q s).1

read_entry-done :
    (t : Transport) (ip : String) (ttl now : ℕ) (r : Reply (Option String)) (e : Entry)
    → read_entry t ip ttl now r ≡ done e
    → (d : Option String) × (r ≡ done d)
read_entry-done t ip ttl now (failed x) e h = cc h
read_entry-done t ip ttl now (done d) e h = (d, refl)

not_found_lem : (x : FrpsError) → is_not_found x ≡ true → x ≡ api_error 404
unfolding is_not_found
not_found_lem (api_error status) h = ap api_error (ground (arith, h))
not_found_lem _ h = cc h

pub Reply-cases :
    {A : Type 0} (r : Reply A) → ((a : A) × (r ≡ done a)) ⊎ ((x : FrpsError) × (r ≡ failed x))
Reply-cases (done a) = inl (a, refl)
Reply-cases (failed x) = inr (x, refl)

module _ (t : Transport) (api : WhitelistApi t) where
  pub add_lem :
      (ip operator : String) (ttl now : ℕ) (s : t.State) (e : Entry)
      → (add t ip ttl operator now s).0 ≡ done e
      → api.holds (add t ip ttl operator now s).1 ip ≡ true
  unfolding add do_limit
  add_lem ip operator ttl now s e h = elim (Bool-cases (eqb ttl 0)) [
    | inl zero_ttl ↦ cc (rw zero_ttl at h)
    | inr positive ↦
        let (d, answered) = read_entry-done t ip ttl now _ e (rw positive at h) in
        rw positive (api.post_adds ip _ operator s d answered)
  ]

  -- frps holds an address, or the time to which its entry was set has come.
  abbrev pub Live : t.State → String → Type 0
  Live s x = (api.holds s x ≡ true) ⊎ (api.expires_at s x ≤ api.time s)

  send_keeps :
      (q : Request) (s : t.State) (x : String)
      → (api.canonical (address_of q) == api.canonical x) ≡ false
      → Live s x
      → Live (t.send q s).1 x
  send_keeps q s x other (inl held) =
      elim (Bool-cases (ltb (api.time (t.send q s).1) (api.expires_at s x))) [
        | inl runs ↦ inl (api.others_stay q s x other held (ground (arith, runs)))
        | inr over ↦ inr (rw (api.others_expiry q s x other) (ground (arith, over)))
      ]
  send_keeps q s x other (inr over) =
      inr (rw (api.others_expiry q s x other) (omega (arith, over, api.time_passes q s)))

  add_others :
      (ip operator : String) (ttl now : ℕ) (s : t.State) (x : String)
      → (api.canonical ip == api.canonical x) ≡ false
      → Live s x
      → Live (add t ip ttl operator now s).1 x
  unfolding add do_limit
  add_others ip operator ttl now s x other live = elim (Bool-cases (eqb ttl 0)) [
    | inl zero_ttl ↦ rw zero_ttl live
    | inr positive ↦ rw positive (send_keeps (post_entry ip _ operator) s x other live)
  ]

  -- An addition that succeeds keeps every address, its own in whatever spelling included.
  pub add_keeps :
      (ip operator : String) (ttl now : ℕ) (s : t.State) (e : Entry) (x : String)
      → (add t ip ttl operator now s).0 ≡ done e
      → Live s x
      → Live (add t ip ttl operator now s).1 x
  add_keeps ip operator ttl now s e x h live =
      elim (Bool-cases (api.canonical ip == api.canonical x)) [
        | inl same ↦ inl (
            sym (
              api.one_entry (add t ip ttl operator now s).1 ip x
                ((eq_iff (api.canonical ip) (api.canonical x)).0 same))
            ∙ add_lem ip operator ttl now s e h)
        | inr other ↦ add_others ip operator ttl now s x other live
      ]

  pub remove_keeps :
      (ip operator : String) (s : t.State) (x : String)
      → (api.canonical ip == api.canonical x) ≡ false
      → Live s x
      → Live (remove t ip operator s).1 x
  unfolding remove do_limit
  remove_keeps ip operator s x other live = send_keeps (delete_entry ip operator) s x other live

  -- An address that is not held is not so after a removal that leaves its own address absent.
  pub remove_absent :
      (ip operator : String) (s : t.State) (x : String)
      → api.holds (remove t ip operator s).1 ip ≡ false
      → api.holds s x ≡ false
      → api.holds (remove t ip operator s).1 x ≡ false
  unfolding remove do_limit
  remove_absent ip operator s x gone absent =
      elim (Bool-cases (api.canonical ip == api.canonical x)) [
        | inl same ↦
            sym (
              api.one_entry (t.send (delete_entry ip operator) s).1 ip x
                ((eq_iff (api.canonical ip) (api.canonical x)).0 same))
            ∙ gone
        | inr other ↦ api.others_absent (delete_entry ip operator) s x other absent
      ]

  pub remove_done :
      (ip operator : String) (s : t.State) (u : Unit {0})
      → (remove t ip operator s).0 ≡ done u
      → api.holds (remove t ip operator s).1 ip ≡ false
  unfolding remove do_limit
  remove_done ip operator s u h =
      let (d, answered) = ignore-done _ h in api.delete_removes ip operator s d answered
    where
      ignore-done :
          (r : Reply (Option String))
          → ignore_data t r ≡ done u
          → (d : Option String) × (r ≡ done d)
      ignore-done (failed x) k = cc k
      ignore-done (done d) k = (d, refl)

  pub remove_not_found :
      (ip operator : String) (s : t.State) (x : FrpsError)
      → (remove t ip operator s).0 ≡ failed x
      → is_not_found x ≡ true
      → api.holds (remove t ip operator s).1 ip ≡ false
  unfolding remove do_limit
  remove_not_found ip operator s x h gone =
      api.not_found_absent ip operator s (ignore-failed _ h ∙ ap failed (not_found_lem x gone))
    where
      ignore-failed : (r : Reply (Option String)) → ignore_data t r ≡ failed x → r ≡ failed x
      ignore-failed (failed y) k = cc k
      ignore-failed (done d) k = cc k
