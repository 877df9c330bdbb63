-- ===== src/Store/Tokens.antt =====
-- store/store.go: one-time authorization tokens. `sha256` is the digest of crypto/sha256; a byte
-- string is only hashed and compared, so it is a text. Durations and times are nanoseconds.
pub mod Granted
pub mod Consume
pub mod Spending
mod Tests
use frps_gateway.Base.{
  ℕ, suc, ◌+◌, ◌*◌, String, Bool, true, ◌&&◌, Option, none, some, List, [], ◌∷◌, ◌++◌, map, leb,
  eqb, if◌then◌else◌, is_none, length, select, find, contains, unix, second, update, ◌==◌,
}
use frps_gateway.Store.Schema.{Db, Grant, TokenRow}
use frps_gateway.Store.Sql.{
  StoreError, Result, Sql, ok, err, unique_violation, primary_key_violation, token_invalid, ◌>>=◌,
  ◌>>◌, pure, raise, statement, query, exec, transaction,
}
use frps_gateway.Store.Grants.{insert_grant, insert_managed, enforce_active_ip_limit_multi}

-- IsUniqueViolation: the codes SQLITE_CONSTRAINT_UNIQUE and SQLITE_CONSTRAINT. A primary key has a
-- code of its own.
unfoldable pub is_unique_violation : StoreError → Bool
is_unique_violation unique_violation = true
is_unique_violation _ = Bool.false

-- The first loop of `ConsumeTokenIPs`: `seen` holds what is kept already.
abbrev pub dedupe_from : List String → List String → List String
dedupe_from seen [] = []
dedupe_from seen (ip ∷ ips) =
    let skip = dedupe_from seen ips in
    let keep = ip ∷ dedupe_from (ip ∷ seen) ips in if contains seen ip then skip else keep

abbrev pub dedupe : List String → List String
dedupe ips = dedupe_from [] ips

-- token_hash=? AND used_at IS NULL AND expires_at>=?
abbrev pub is_usable : String → ℕ → TokenRow → Bool
is_usable h now t = t.token_hash == h && is_none t.used_at && leb now t.expires_at

-- UPDATE auth_tokens SET used_at=? WHERE token_hash=? AND used_at IS NULL
abbrev pub use_tokens : String → ℕ → List TokenRow → List TokenRow
use_tokens h now =
    update (λ t. t.token_hash == h && is_none t.used_at) (λ t. record t { used_at = some now })

-- The loop of INSERTs, with the grants that it returns.
pub grant_all : Grant → List String → Sql (List Grant)
grant_all g [] = pure []
grant_all g (ip ∷ ips) = do
  let g' = record g { ip = ip; source = "feishu_link" }
  exec (insert_grant g')
  exec (insert_managed ip)
  gs ← grant_all g ips
  pure (g' ∷ gs)

abbrev pub require_token : Option TokenRow → Sql TokenRow
require_token none = raise token_invalid
require_token (some t) = pure t

-- if n != 1 { return nil, ErrTokenInvalid }
unfoldable pub one_row : ℕ → Sql Unit
one_row n = if eqb n 1 then pure tt else raise token_invalid

-- The grant that a token stands for, before it has an address.
abbrev pub token_grant : ℕ → TokenRow → Grant
token_grant now t = record {
  open_id = t.open_id;
  operator_name = t.operator_name;
  ip = "";
  source = "";
  created_at = now;
  expire_at = now + t.ttl_seconds * second;
}

module _ (sha256 : String → String) where
  -- CreateToken
  unfoldable pub create_token : String → String → String → String → ℕ → ℕ → ℕ → Sql Unit
  create_token raw open_id name message_id ttl valid_for now = statement λ d.
      let row : TokenRow = record {
        token_hash = sha256 raw;
        open_id = open_id;
        operator_name = name;
        message_id = message_id;
        ttl_seconds = unix ttl;
        expires_at = unix (now + valid_for);
        used_at = none;
      } in
      if contains (map (λ (t : TokenRow). t.token_hash) d.auth_tokens) (sha256 raw)
      then (err primary_key_violation, d)
      else if contains (map (λ (t : TokenRow). t.message_id) d.auth_tokens) message_id
      then (err unique_violation, d)
      else (ok tt, record d { auth_tokens = d.auth_tokens ++ row ∷ [] })

  -- ValidateToken
  unfoldable pub validate_token : String → ℕ → Sql Unit
  validate_token raw now = do
    found ← query λ d. find (is_usable (sha256 raw) (unix now)) d.auth_tokens
    require_token found
    pure tt

  -- The transaction of `ConsumeTokenIPs`, from the SELECT to the last INSERT.
  pub consume_body : String → List String → ℕ → ℕ → Sql (List Grant)
  consume_body raw targets max_active_ips now = do
    found ← query λ d. find (is_usable (sha256 raw) (unix now)) d.auth_tokens
    t ← require_token found
    enforce_active_ip_limit_multi t.open_id targets max_active_ips (unix now)
    n ← statement λ d. (
      ok (length (select (λ u. u.token_hash == sha256 raw && is_none u.used_at) d.auth_tokens)),
      record d { auth_tokens = use_tokens (sha256 raw) (unix now) d.auth_tokens },
    )
    one_row n
    grant_all (token_grant now t) targets

  pub consume_targets : String → List String → ℕ → ℕ → Sql (List Grant)
  consume_targets raw [] max_active_ips now = raise token_invalid
  consume_targets raw (ip ∷ ips) max_active_ips now =
      transaction (consume_body raw (ip ∷ ips) max_active_ips now)

  -- ConsumeTokenIPs
  pub consume_token_ips : String → List String → ℕ → ℕ → Sql (List Grant)
  unfolding consume_targets
  consume_token_ips raw ips max_active_ips now = consume_targets raw (dedupe ips) max_active_ips now

  abbrev first_grant : List Grant → Sql (Option Grant)
  first_grant [] = pure none
  first_grant (g ∷ _) = pure (some g)

  -- ConsumeToken; `none` would be the panic of `gs[0]` on an empty slice.
  pub consume_token : String → String → ℕ → ℕ → Sql (Option Grant)
  consume_token raw ip max_active_ips now = do
    gs ← consume_token_ips raw (ip ∷ []) max_active_ips now
    first_grant gs
