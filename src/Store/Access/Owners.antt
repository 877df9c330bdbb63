-- ===== src/Store/Access/Owners.antt =====
-- The owners that store/store.go attributes to a page of access records, against the grants.
use frps_gateway.Base.{
  String, ◌≡◌, refl, ◌∙◌, Bool, true, ◌&&◌, ◌||◌, List, [], ◌∷◌, arith, map, ◌==◌, eq_iff, All, has,
  leb, ltb, select, contains, is_none, Bool-cases, inl, inr, text_refl, All-map, All-weaken,
}
use frps_gateway.Store.Schema.{Db, AccessRow, GrantRow}
use frps_gateway.Store.Sql.{Env, ok}
use frps_gateway.Store.Sql.Steps.{Ensures, Ensures-ok, Ensures-query}
use frps_gateway.Store.Tokens.{dedupe, dedupe_from}
use frps_gateway.Store.Access.{
  AccessRecord, GrantWindow, covers, names_of, or_covered, attribute, windows_of,
  attach_access_owners,
}

-- The grant held the address of the record at its moment, and was not revoked.
abbrev pub held_at : AccessRow → GrantRow → Bool
held_at r g =
    g.ip == r.ip && is_none g.revoked_at && leb g.created_at r.time && ltb r.time g.expire_at

names_of-nonempty : (ws : List GrantWindow) → has (λ w. true) (names_of ws) ≡ has (λ w. true) ws
names_of-nonempty [] = refl
names_of-nonempty (w ∷ ws) = elim (Bool-cases (contains (names_of ws) w.display)) [
  | inl old ↦ rw old (contains-nonempty (names_of ws) w.display old)
  | inr new ↦ rw new refl
]
  where
    contains-nonempty :
        (xs : List String) (a : String) → contains xs a ≡ true → has (λ x. true) xs ≡ true
    contains-nonempty [] a h = cc h
    contains-nonempty (x ∷ xs) a h = refl

or_covered-exact :
    (r : AccessRow) (covered ever : List String)
    → (or_covered r covered ever).owner_exact ≡ has (λ x. true) covered
or_covered-exact r [] [] = refl
or_covered-exact r [] (e ∷ es) = refl
or_covered-exact r (c ∷ cs) ever = refl

or_covered-row : (r : AccessRow) (covered ever : List String) → (or_covered r covered ever).row ≡ r
or_covered-row r [] [] = refl
or_covered-row r [] (e ∷ es) = refl
or_covered-row r (c ∷ cs) ever = refl

-- A window is found if the address is among those that were asked for.
covering-held :
    (ips : List String) (r : AccessRow) (gs : List GrantRow)
    → contains ips r.ip ≡ true
    → has
        (λ w. true)
        (select (covers r.time) (select (λ w. w.window_ip == r.ip) (windows_of ips gs)))
      ≡ has (held_at r) gs
covering-held ips r [] h = refl
covering-held ips r (g ∷ gs) h = elim (Bool-cases (g.ip == r.ip)) [
  | inl same ↦
      let asked : contains ips g.ip ≡ true = rw ((eq_iff g.ip r.ip).0 same) h in
      ground (arith, asked, same, covering-held ips r gs h)
  | inr other ↦ ground (arith, other, covering-held ips r gs h)
]

asked_for :
    (seen : List String) (rs : List AccessRow)
    → All
        (λ (r : AccessRow).
          contains seen r.ip || contains (dedupe_from seen (map (λ (a : AccessRow). a.ip) rs)) r.ip
          ≡ true)
        rs
asked_for seen [] = tt
asked_for seen (r ∷ rs) = elim (Bool-cases (contains seen r.ip)) [
  | inl old ↦ (rw old refl, All-weaken rs (λ q h. ground (arith, old)) (asked_for seen rs))
  | inr new ↦ (
    ground (arith, new, text_refl r.ip),
    All-weaken rs (λ q h. ground (arith, new)) (asked_for (r.ip ∷ seen) rs),
  )
]

-- What a page shows of a record, beside the table of the grants.
abbrev pub Attributed : List GrantRow → AccessRecord → Type 0
Attributed gs o = o.owner_exact ≡ has (held_at o.row) gs

attribute_lem :
    (ips : List String) (gs : List GrantRow) (r : AccessRow)
    → contains ips r.ip ≡ true
    → Attributed gs (attribute (windows_of ips gs) r)
attribute_lem ips gs r h =
    let held = select (λ (w : GrantWindow). w.window_ip == r.ip) (windows_of ips gs) in
    let covered = select (covers r.time) held in
    rw (or_covered-row r (names_of covered) (names_of held)) (
      or_covered-exact r (names_of covered) (names_of held)
      ∙ names_of-nonempty covered
      ∙ covering-held ips r gs h)

map-row :
    (ws : List GrantWindow) (rs : List AccessRow)
    → map (λ (o : AccessRecord). o.row) (map (attribute ws) rs) ≡ rs
map-row ws [] = refl
map-row ws (r ∷ rs) =
    let held = select (λ (w : GrantWindow). w.window_ip == r.ip) ws in
    cc (or_covered-row r (names_of (select (covers r.time) held)) (names_of held), map-row ws rs)

attach_lem :
    (rs : List AccessRow) (e : Env)
    → Ensures
        (λ (out : List AccessRecord) (d : Db).
          (d ≡ e.db)
          × (map (λ (o : AccessRecord). o.row) out ≡ rs)
          × All (Attributed e.db.grants) out)
        (attach_access_owners rs e)
unfolding attach_access_owners
attach_lem [] e = Ensures-ok _ _ (refl, refl, tt)
attach_lem (r ∷ rs) e =
    let ips = dedupe (map (λ (a : AccessRow). a.ip) (r ∷ rs)) in
    Ensures-query _ _ _ (
      Ensures-ok _ _ (
        refl,
        map-row (windows_of ips e.db.grants) (r ∷ rs),
        All-map (Attributed e.db.grants) (attribute (windows_of ips e.db.grants)) (r ∷ rs) (
            All-weaken (r ∷ rs) (λ q h. attribute_lem ips e.db.grants q h) (asked_for [] (r ∷ rs))),
      ))

-- The page that `attachAccessOwners` fills keeps its records in their order, and marks the owner of
-- one as exact if and only if some grant of the record's address covered its moment and is not revoked.
pub attach_access_owners-exact :
    (rs : List AccessRow) (e : Env) (out : List AccessRecord)
    → (attach_access_owners rs e).0 ≡ ok out
    → (map (λ (o : AccessRecord). o.row) out ≡ rs) × All (Attributed e.db.grants) out
attach_access_owners-exact rs e out h =
    let (_, rows, all) = (attach_lem rs e).at out h in (rows, all)
