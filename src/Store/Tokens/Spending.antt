-- ===== src/Store/Tokens/Spending.antt =====
-- What `ConsumeTokenIPs` of store/store.go leaves of the tokens and the grants, row by row.
use frps_gateway.Base.{
  ℕ, suc, ◌+◌, ◌*◌, ◌≤◌, String, ◌≡◌, refl, ◌∙◌, true, false, not, ◌&&◌, Option, none, some, inl,
  inr, List, [], ◌∷◌, ◌++◌, map, if◌then◌else◌, arith, ◌==◌, eq_iff, contains, is_none, unix,
  second, Bool-cases, Among, find-found, update-map,
}
use frps_gateway.Store.Schema.{Grant, GrantRow, TokenRow}
use frps_gateway.Store.Sql.{Env, ok}
use frps_gateway.Store.Tokens.{is_usable, token_grant, dedupe_from, dedupe, consume_token_ips}
use frps_gateway.Store.Tokens.Granted.{granted_rows, link_grants}
use frps_gateway.Store.Grants.{max_id, grant_row}
use frps_gateway.Store.Tokens.Consume.{consume_token_ips_lem}

-- No address stands twice in a list.
abbrev pub Distinct : List String → Type 0
Distinct [] = Unit
Distinct (x ∷ xs) = (contains xs x ≡ false) × Distinct xs

-- One row for each grant, in their order, with the grant's columns, not revoked.
abbrev pub Rows : List GrantRow → List Grant → Type 0
Rows [] [] = Unit
Rows [] (g ∷ gs) = ⊥
Rows (r ∷ rs) [] = ⊥
Rows (r ∷ rs) (g ∷ gs) =
    ((r.open_id ≡ g.open_id)
      × (r.operator_name ≡ g.operator_name)
      × (r.ip ≡ g.ip)
      × (r.source ≡ g.source)
      × (r.created_at ≡ unix g.created_at)
      × (r.expire_at ≡ unix g.expire_at)
      × (r.revoked_at ≡ none))
    × Rows rs gs

granted-Rows :
    (g : Grant) (ips : List String) (gs : List GrantRow)
    → Rows (granted_rows gs g ips) (link_grants g ips)
granted-Rows g [] gs = tt
granted-Rows g (ip ∷ ips) gs = (
  (refl, refl, refl, refl, refl, refl, refl),
  granted-Rows g ips
      (gs ++ grant_row (suc (max_id gs)) (record g { ip = ip; source = "feishu_link" }) ∷ []),
)

-- What is kept of a list, by what is kept already.
contains-dedupe_from :
    (seen ips : List String) (a : String)
    → contains (dedupe_from seen ips) a ≡ (contains ips a && not (contains seen a))
contains-dedupe_from seen [] a = refl
contains-dedupe_from seen (ip ∷ ips) a = elim (Bool-cases (contains seen ip)) [
  | inl skip ↦
      rw (skip, contains-dedupe_from seen ips a)
        (elim (Bool-cases (ip == a)) [
          | inl same ↦
              let there : contains seen a ≡ true = rw ((eq_iff ip a).0 same) at skip in
              ground (arith, same, there)
          | inr other ↦ rw other refl
        ])
  | inr keep ↦
      rw (keep, contains-dedupe_from (ip ∷ seen) ips a)
        (elim (Bool-cases (ip == a)) [
          | inl same ↦
              let absent : contains seen a ≡ false = rw ((eq_iff ip a).0 same) at keep in
              ground (arith, same, absent)
          | inr other ↦ rw other refl
        ])
]

dedupe_from-Distinct : (seen ips : List String) → Distinct (dedupe_from seen ips)
dedupe_from-Distinct seen [] = tt
dedupe_from-Distinct seen (ip ∷ ips) = elim (Bool-cases (contains seen ip)) [
  | inl skip ↦ rw skip (dedupe_from-Distinct seen ips)
  | inr keep ↦ rw keep (
    contains-dedupe_from (ip ∷ seen) ips ip ∙ ground (arith, (eq_iff ip ip).1 refl),
    dedupe_from-Distinct (ip ∷ seen) ips,
  )
]

contains-dedupe : (ips : List String) (a : String) → contains (dedupe ips) a ≡ contains ips a
contains-dedupe ips a = contains-dedupe_from [] ips a ∙ ground arith

usable_lem :
    (h : String) (now : ℕ) (t : TokenRow)
    → is_usable h now t ≡ true
    → (t.token_hash ≡ h) × (t.used_at ≡ none) × (now ≤ t.expires_at)
usable_lem h now t p = (
  (eq_iff t.token_hash h).0 (ground (arith, p)),
  unused t.used_at (ground (arith, p)),
  ground (arith, p),
)
  where
    unused : (o : Option ℕ) → is_none o ≡ true → o ≡ none
    unused none q = refl
    unused (some n) q = cc q

-- What a successful call did, from the tables before, for some addresses.
abbrev pub Spends :
    (String → String)
    → String
    → List String
    → ℕ
    → List TokenRow
    → List GrantRow
    → List Grant
    → List TokenRow
    → List GrantRow
    → Type 0
Spends sha256 raw ips now tokens grants out tokens' grants' =
    (t : TokenRow) × (targets : List String) × (added : List GrantRow) × Among tokens t
    × (t.token_hash ≡ sha256 raw)
    × (t.used_at ≡ none)
    × (unix now ≤ t.expires_at)
    × (tokens'
        ≡ map
            (λ (u : TokenRow).
              if u.token_hash == sha256 raw && is_none u.used_at
              then record u { used_at = some (unix now) }
              else u)
            tokens)
    × Distinct targets
    × ((a : String) → contains targets a ≡ contains ips a)
    × (out
        ≡ map
            (λ ip. record {
              open_id = t.open_id;
              operator_name = t.operator_name;
              ip = ip;
              source = "feishu_link";
              created_at = now;
              expire_at = now + t.ttl_seconds * second;
            })
            targets)
    × (grants' ≡ grants ++ added)
    × Rows added out

-- A successful call found a token of its digest, unused and not expired; it marks as used the unused
-- tokens of that digest and no other; and it adds one row of the grants and returns one grant for each
-- address it was given, each address once, for the token's user and time to live from now on.
pub consume_token_ips-Spends :
    (sha256 : String → String) (raw : String) (ips : List String) (max now : ℕ) (e : Env)
    (out : List Grant)
    → (consume_token_ips sha256 raw ips max now e).0 ≡ ok out
    → Spends sha256 raw ips now e.db.auth_tokens e.db.grants out
        (consume_token_ips sha256 raw ips max now e).1.db.auth_tokens
        (consume_token_ips sha256 raw ips max now e).1.db.grants
consume_token_ips-Spends sha256 raw ips max now e out h =
    let (t, found, room, outs, rows, tokens) =
      consume_token_ips_lem sha256 raw ips max now e out h in
    let (there, usable) = find-found (is_usable (sha256 raw) (unix now)) e.db.auth_tokens t found in
    let (hashed, unused, running) = usable_lem (sha256 raw) (unix now) t usable in
    (
      t,
      dedupe ips,
      granted_rows e.db.grants (token_grant now t) (dedupe ips),
      there,
      hashed,
      unused,
      running,
      tokens
          ∙ update-map (λ (u : TokenRow). u.token_hash == sha256 raw && is_none u.used_at)
              (λ u. record u { used_at = some (unix now) }) e.db.auth_tokens,
      dedupe_from-Distinct [] ips,
      contains-dedupe ips,
      outs,
      rows,
      rw outs (granted-Rows (token_grant now t) (dedupe ips) e.db.grants),
    )
