-- ===== src/Authorize/Link/Issued.antt =====
-- What `NewLink` of authorize/server.go leaves: one unused token for the link, or nothing.
use frps_gateway.Base.{
  ℕ, zero, suc, ◌+◌, String, ◌≡◌, refl, false, Option, none, some, [], ◌∷◌, ◌++◌, map, ◌⊎◌, inl,
  inr, Bool-cases, contains, unix, subst,
}
use frps_gateway.Store.Schema.{Db, TokenRow}
use frps_gateway.Store.Sql.{
  Env, StoreError, ok, err, next_fails, ◌>>=◌, unique_violation, primary_key_violation, sqlite,
}
use frps_gateway.Store.Tokens.{is_unique_violation, create_token}
use frps_gateway.Authorize.Link.{
  LinkResult, link, no_random, refused_by, LinkRequest, attempt_id, url_of, try_link, new_link_from,
  new_link,
}

-- A new row for the digest of `raw`, appended.
abbrev pub Appended : (String → String) → LinkRequest → String → Db → Db → Type 0
Appended sha256 r raw d d' =
    (row : TokenRow) × (row.token_hash ≡ sha256 raw)
    × (row.open_id ≡ r.open_id)
    × (row.ttl_seconds ≡ unix r.ttl)
    × (row.used_at ≡ none)
    × (contains (map (λ (t : TokenRow). t.token_hash) d.auth_tokens) (sha256 raw) ≡ false)
    × (d' ≡ record d { auth_tokens = d.auth_tokens ++ row ∷ [] })

abbrev new_row : (String → String) → LinkRequest → String → String → ℕ → TokenRow
new_row sha256 r raw id now = record {
  token_hash = sha256 raw;
  open_id = r.open_id;
  operator_name = r.name;
  message_id = id;
  ttl_seconds = unix r.ttl;
  expires_at = unix (now + r.valid_for);
  used_at = none;
}

create_token-cases :
    (sha256 : String → String) (r : LinkRequest) (raw id : String) (now : ℕ) (e : Env)
    → (let (o, e') = create_token sha256 raw r.open_id r.name id r.ttl r.valid_for now e in
        ((o ≡ ok tt) × Appended sha256 r raw e.db e'.db)
        ⊎ ((x : StoreError) × (o ≡ err x) × (e'.db ≡ e.db)))
unfolding create_token ◌>>=◌
create_token-cases sha256 r raw id now e = elim (Bool-cases (next_fails e.faults)) [
  | inl bad ↦ rw bad (inr (sqlite, refl, refl))
  | inr good ↦
      elim (Bool-cases
        (contains (map (λ (t : TokenRow). t.token_hash) e.db.auth_tokens) (sha256 raw))) [
          | inl known ↦ rw (good, known) (inr (primary_key_violation, refl, refl))
          | inr new ↦
              elim (Bool-cases
                (contains (map (λ (t : TokenRow). t.message_id) e.db.auth_tokens) id)) [
                  | inl seen ↦ rw (good, new, seen) (inr (unique_violation, refl, refl))
                  | inr unseen ↦
                      rw (good, new, unseen)
                        (inl
                          (refl, (new_row sha256 r raw id now, refl, refl, refl, refl, refl, refl)))
                ]
        ]
]

module _ (sha256 encode : String → String) (decimal : ℕ → String) (public_url : String)
    (draw : ℕ → Option String) (time : ℕ → ℕ) where
  abbrev pub Issued : LinkRequest → Db → LinkResult → Db → Type 0
  Issued r d (link url) d' =
      (raw : String) × (url ≡ url_of sha256 encode decimal public_url draw time raw)
      × Appended sha256 r raw d d'
  Issued r d no_random d' = d' ≡ d
  Issued r d (refused_by x) d' = d' ≡ d

  try_lem :
      (r : LinkRequest) (attempt : ℕ) (o : Option String)
      (retry : StoreError → Env → LinkResult × Env) (e : Env)
      → ((x : StoreError) (e' : Env)
          → e'.db ≡ e.db
          → Issued r e.db (retry x e').0 (retry x e').1.db)
      → (let (result, e') =
            try_link sha256 encode decimal public_url draw time r attempt o retry e in
          Issued r e.db result e'.db)
  try_lem r attempt none retry e k = refl
  try_lem r attempt (some raw) retry e k =
      elim (create_token-cases sha256 r raw
        (attempt_id sha256 encode decimal public_url draw time r.message_id attempt) (time attempt)
        e) [
          | inl (done, appended) ↦ rw done (raw, refl, appended)
          | inr (x, failed, same) ↦ rw failed (k x _ same)
        ]

  new_link_from_lem :
      (r : LinkRequest) (left attempt : ℕ) (e : Env)
      → (let (result, e') =
            new_link_from sha256 encode decimal public_url draw time r left attempt e in
          Issued r e.db result e'.db)
  unfolding new_link_from
  new_link_from_lem r zero attempt e = try_lem r attempt (draw attempt) _ e (λ x e' same. same)
  new_link_from_lem r (suc left) attempt e = try_lem r attempt (draw attempt) _ e (λ x e' same.
      elim (Bool-cases (is_unique_violation x)) [
        | inl again ↦ rw again (
            subst
              (λ d.
                Issued r d
                  (new_link_from sha256 encode decimal public_url draw time r left (suc attempt)
                    e').0
                  (new_link_from sha256 encode decimal public_url draw time r left (suc attempt)
                    e').1.db)
              same (new_link_from_lem r left (suc attempt) e'))
        | inr other ↦ rw other same
      ])

  -- A link that is issued carries bytes whose digest was not in use, and for which exactly one token is
  -- recorded, unused and for the requesting user; if none is issued, the tables are as they were.
  pub new_link-Issued :
      (r : LinkRequest) (e : Env)
      → (let (result, e') = new_link sha256 encode decimal public_url draw time r e in
          Issued r e.db result e'.db)
  unfolding new_link
  new_link-Issued r e = new_link_from_lem r 3 0 e
