-- ===== src/Store/Grants/Revoked.antt =====
-- What RevokeUserIP of store/store.go revokes, and what EffectiveExpiry tells.
use frps_gateway.Base.{
  ℕ, String, ◌≡◌, ◌≢◌, if◌then◌else◌, refl, Bool, true, false, ◌&&◌, Option, none, some, List, [],
  ◌∷◌, arith, ltb, inl, inr, Bool-cases, has, select, update, length, unix, from_unix, ◌==◌,
}
use frps_gateway.Store.Schema.{Db, GrantRow}
use frps_gateway.Store.Sql.{Env, Result, ok}
use frps_gateway.Store.Sql.Runs.{statement-cases, query-cases}
use frps_gateway.Store.Grants.{is_active, max_expire, revoke_user_ip, effective_expiry}

-- The grants that a user may revoke at a moment.
abbrev pub held_by : String → String → ℕ → GrantRow → Bool
held_by open_id ip now g = g.open_id == open_id && g.ip == ip && is_active now g

abbrev pub active_at : String → ℕ → List GrantRow → Bool
active_at ip now gs = has (λ g. g.ip == ip && is_active now g) gs

abbrev pub revoke_rows : String → String → ℕ → ℕ → List GrantRow → List GrantRow
revoke_rows open_id ip now now' gs =
    update (held_by open_id ip now') (λ g. record g { revoked_at = some now }) gs

some_later :
    (o : Option ℕ) (x : ℕ)
    → elim o [ none ↦ some x | some m ↦ some (if ltb m x then x else m) ] ≢ none
some_later none x h = cc h
some_later (some m) x h = cc h

max_expire-none :
    (p : GrantRow → Bool) (gs : List GrantRow) → max_expire (select p gs) ≡ none → has p gs ≡ false
max_expire-none p [] h = refl
max_expire-none p (g ∷ gs) h = elim (Bool-cases (p g)) [
  | inl hit ↦ absurd (some_later (max_expire (select p gs)) g.expire_at (rw hit at h))
  | inr miss ↦ rw miss (max_expire-none p gs (rw miss at h))
]

max_expire-some :
    (p : GrantRow → Bool) (gs : List GrantRow) (s : ℕ)
    → max_expire (select p gs) ≡ some s
    → has p gs ≡ true
max_expire-some p [] s h = cc h
max_expire-some p (g ∷ gs) s h = elim (Bool-cases (p g)) [
  | inl hit ↦ rw hit refl
  | inr miss ↦ rw miss (max_expire-some p gs s (rw miss at h))
]

-- The user holds nothing of what was revoked.
pub revoke_rows-none :
    (open_id ip : String) (now now' : ℕ) (gs : List GrantRow)
    → has (held_by open_id ip now') (revoke_rows open_id ip now now' gs) ≡ false
revoke_rows-none open_id ip now now' [] = refl
revoke_rows-none open_id ip now now' (g ∷ gs) =
    ground (arith, revoke_rows-none open_id ip now now' gs)

-- What the expiry that is read tells of the active grants.
abbrev pub Tells : Option ℕ → Bool → Type 0
Tells none active = active ≡ false
Tells (some s) active = active ≡ true

expiry-Tells :
    (p : GrantRow → Bool) (gs : List GrantRow) (m o : Option ℕ)
    → max_expire (select p gs) ≡ m
    → ok (elim m [ none ↦ none | some s ↦ some (from_unix s) ]) ≡ ok o
    → Tells o (has p gs)
expiry-Tells p gs none none q h = max_expire-none p gs q
expiry-Tells p gs none (some s) q h = cc h
expiry-Tells p gs (some m) none q h = cc h
expiry-Tells p gs (some m) (some s) q h = max_expire-some p gs m q

pub effective_expiry_lem :
    (ip : String) (now : ℕ) (e : Env) (o : Option ℕ)
    → (effective_expiry ip now e).0 ≡ ok o
    → Tells o (active_at ip (unix now) e.db.grants)
unfolding effective_expiry
effective_expiry_lem ip now e o h =
    let p : GrantRow → Bool = λ g. g.ip == ip && is_active (unix now) g in
    let f : Db → Option ℕ =
      λ d. elim (max_expire (select p d.grants)) [ none ↦ none | some s ↦ some (from_unix s) ] in
    elim (query-cases f e) [
      | inl broken ↦ cc (rw broken at h)
      | inr ran ↦
          expiry-Tells p e.db.grants (max_expire (select p e.db.grants)) o refl (rw ran at h)
    ]

-- What RevokeUserIP does if it succeeds.
pub revoke_user_ip_lem :
    (open_id ip : String) (now now' : ℕ) (e : Env) (n : ℕ)
    → (revoke_user_ip open_id ip now now' e).0 ≡ ok n
    → (n ≡ length (select (held_by open_id ip (unix now')) e.db.grants))
      × ((revoke_user_ip open_id ip now now' e).1.db.grants
          ≡ revoke_rows open_id ip (unix now) (unix now') e.db.grants)
unfolding revoke_user_ip
revoke_user_ip_lem open_id ip now now' e n h =
    let hit : GrantRow → Bool = held_by open_id ip (unix now') in
    let f : Db → Result ℕ × Db = λ d. (
      ok (length (select hit d.grants)),
      record d { grants = update hit (λ g. record g { revoked_at = some (unix now) }) d.grants },
    ) in
    elim (statement-cases f e) [
      | inl broken ↦ cc (rw broken at h)
      | inr ran ↦ (cc (rw ran at h), rw ran refl)
    ]

-- A revocation that changes no row leaves the rows as they were.
pub revoke_rows-nothing :
    (open_id ip : String) (now now' : ℕ) (gs : List GrantRow)
    → length (select (held_by open_id ip now') gs) ≡ 0
    → revoke_rows open_id ip now now' gs ≡ gs
revoke_rows-nothing open_id ip now now' [] h = refl
revoke_rows-nothing open_id ip now now' (g ∷ gs) h = elim (Bool-cases (held_by open_id ip now' g)) [
  | inl hit ↦ absurd (omega (arith, (rw hit at h)))
  | inr miss ↦ rw (miss, revoke_rows-nothing open_id ip now now' gs (rw miss at h)) refl
]
