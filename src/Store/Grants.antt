-- ===== src/Store/Grants.antt =====
-- store/store.go: grants as chat commands make, revoke and read them, and the limit on a user's
-- active addresses. `now` is what the call's `time.Now()` returns, in nanoseconds.
pub mod Limit
pub mod Frames
pub mod Revoked
mod Tests
use frps_gateway.Base.{
  ℕ, suc, ◌+◌, String, Bool, not, ◌&&◌, Option, none, some, List, [], ◌∷◌, ◌++◌, map, ltb, leb, eqb,
  if◌then◌else◌, is_none, length, select, contains, count_distinct, unix, from_unix, ◌==◌,
  sort_texts, sort_by, update, max_by,
}
use frps_gateway.Store.Schema.{Db, Grant, GrantRow}
use frps_gateway.Store.Sql.{
  Sql, active_ip_limit, ◌>>=◌, ◌>>◌, pure, raise, statement, ok, query, exec, transaction,
}

-- revoked_at IS NULL AND expire_at>?
abbrev pub is_active : ℕ → GrantRow → Bool
is_active now g = is_none g.revoked_at && ltb now g.expire_at

-- The largest id, which SQLite's INTEGER PRIMARY KEY goes on from.
abbrev pub max_id : List GrantRow → ℕ
max_id = max_by (λ g. g.id)

-- The row that INSERT INTO grants(...) makes of a grant.
abbrev pub grant_row : ℕ → Grant → GrantRow
grant_row id g = record {
  id = id;
  open_id = g.open_id;
  operator_name = g.operator_name;
  ip = g.ip;
  source = g.source;
  created_at = unix g.created_at;
  expire_at = unix g.expire_at;
  revoked_at = none;
}

unfoldable pub insert_grant : Grant → Db → Db
insert_grant g d = record d { grants = d.grants ++ grant_row (suc (max_id d.grants)) g ∷ [] }

-- INSERT INTO managed_ips(ip) VALUES(?) ON CONFLICT(ip) DO NOTHING
unfoldable pub insert_managed : String → Db → Db
insert_managed ip d =
    if contains d.managed_ips ip then d else record d { managed_ips = d.managed_ips ++ ip ∷ [] }

-- The addresses of a user's active grants, one for each grant.
abbrev pub active_ips : String → ℕ → List GrantRow → List String
active_ips open_id now gs =
    map (λ g. g.ip) (select (λ g. g.open_id == open_id && is_active now g) gs)

-- enforceActiveIPLimitMulti. A limit of zero or less is `0` here.
unfoldable pub enforce_active_ip_limit_multi : String → List String → ℕ → ℕ → Sql Unit
enforce_active_ip_limit_multi open_id targets max_active_ips now =
    if eqb max_active_ips 0 then pure tt else do
      others ← query λ d. count_distinct (
          map (λ g. g.ip)
            (select (λ g. g.open_id == open_id && is_active now g && not (contains targets g.ip))
              d.grants))
      if ltb max_active_ips (others + length targets) then raise active_ip_limit else pure tt

-- enforceActiveIPLimit
unfoldable pub enforce_active_ip_limit : String → String → ℕ → ℕ → Sql Unit
enforce_active_ip_limit open_id target_ip max_active_ips now =
    if eqb max_active_ips 0 then pure tt else do
      n ← query λ d. count_distinct (
          map (λ g. g.ip)
            (select (λ g. g.open_id == open_id && not (g.ip == target_ip) && is_active now g)
              d.grants))
      if leb max_active_ips n then raise active_ip_limit else pure tt

unfoldable pub add_grant_body : Grant → ℕ → ℕ → Sql Unit
add_grant_body g max_active_ips now = do
  enforce_active_ip_limit g.open_id g.ip max_active_ips (unix now)
  exec (insert_grant g)
  exec (insert_managed g.ip)

-- AddGrantLimited
unfoldable pub add_grant_limited : Grant → ℕ → ℕ → Sql Unit
add_grant_limited g max_active_ips now = transaction (add_grant_body g max_active_ips now)

-- AddGrant
pub add_grant : Grant → ℕ → Sql Unit
add_grant g = add_grant_limited g 0

-- RevokeUserIP, with the two readings of the clock and the number of rows that it changed
unfoldable pub revoke_user_ip : String → String → ℕ → ℕ → Sql ℕ
revoke_user_ip open_id ip now now' = statement λ d.
    let hit : GrantRow → Bool =
      λ g. g.open_id == open_id && g.ip == ip && is_active (unix now') g in
    (
      ok (length (select hit d.grants)),
      record d { grants = update hit (λ g. record g { revoked_at = some (unix now) }) d.grants },
    )

-- MAX(expire_at), NULL on no row
abbrev pub max_expire : List GrantRow → Option ℕ
max_expire [] = none
max_expire (g ∷ gs) = elim (max_expire gs) [
  | none ↦ some g.expire_at
  | some m ↦ some (if ltb m g.expire_at then g.expire_at else m)
]

-- EffectiveExpiry; `none` is an invalid (NULL) result, and a valid one is a time.
unfoldable pub effective_expiry : String → ℕ → Sql (Option ℕ)
effective_expiry ip now = query λ d.
    elim (max_expire (select (λ g. g.ip == ip && is_active (unix now) g) d.grants)) [
      | none ↦ none
      | some s ↦ some (from_unix s)
    ]

-- The scan of a row into a `Grant`.
abbrev pub scan_grant : GrantRow → Grant
scan_grant g = record {
  open_id = g.open_id;
  operator_name = g.operator_name;
  ip = g.ip;
  source = g.source;
  created_at = from_unix g.created_at;
  expire_at = from_unix g.expire_at;
}

-- list
unfoldable pub list_grants : (GrantRow → Bool) → Sql (List Grant)
list_grants p = query λ d. map scan_grant (sort_by (λ g. g.expire_at) (select p d.grants))

-- ListUser
unfoldable pub list_user : String → ℕ → Sql (List Grant)
list_user open_id now = list_grants λ g. g.open_id == open_id && is_active (unix now) g

-- ListActive
unfoldable pub list_active : ℕ → Sql (List Grant)
list_active now = list_grants λ g. is_active (unix now) g

-- ListActiveByIP
unfoldable pub list_active_by_ip : String → ℕ → Sql (List Grant)
list_active_by_ip ip now = list_grants λ g. g.ip == ip && is_active (unix now) g

-- ListManagedIPs
unfoldable pub list_managed_ips : Sql (List String)
list_managed_ips = query λ d. sort_texts d.managed_ips

-- ForgetManagedIP
unfoldable pub forget_managed_ip : String → Sql Unit
forget_managed_ip ip =
    exec λ d. record d { managed_ips = select (λ m. not (m == ip)) d.managed_ips }
