-- ===== src/Authorize/Confirm.antt =====
-- authorize/server.go, `get` and `post`: what the page behind a link does. `decode` is
-- base64.RawURLEncoding; `now` is the time at which the token is used, and `clock` the one at which it comes to hand an address to frps.
pub mod Recorded
use frps_gateway.Base.{ℕ, ◌-◌, String, Bool, Option, none, some, List, [], ◌∷◌, if◌then◌else◌, ◌==◌}
use frps_gateway.Store.Schema.{Grant}
use frps_gateway.Store.Sql.{Env, StoreError, Result, ok, err, token_invalid, active_ip_limit}
use frps_gateway.Store.Tokens.{validate_token, consume_token_ips}
use frps_gateway.Frps.{Transport, Reply, Entry, done, failed, add}
use frps_gateway.Authorize.{Net, HttpRequest, ClientIp, found, refused, client_ip, requested_ips}

-- The answers, each under its status.
pub data Answer : Type 0 where
  gone_410 bad_address_400 too_many_409 failed_500 : Answer
  page_200 : String → Answer
  not_synced_502 : Answer
  granted_200 : List Grant → Answer

module _ (sha256 : String → String) (decode : String → Option String) (net : Net)
    (trusted : List net.Prefix) (t : Transport) (max_active_ips : ℕ) where
  abbrev pub show_page : ClientIp → Answer
  show_page (refused x) = bad_address_400
  show_page (found ip) = page_200 ip

  abbrev pub if_valid : Result (Unit {0}) → HttpRequest → Env → Answer × Env
  if_valid (err x) r e = (gone_410, e)
  if_valid (ok _) r e = (show_page (client_ip net trusted r), e)

  abbrev pub get_decoded : Option String → HttpRequest → ℕ → Env → Answer × Env
  get_decoded none r now e = (gone_410, e)
  get_decoded (some raw) r now e =
      let (valid, e') = validate_token sha256 raw now e in if_valid valid r e'

  -- get
  unfoldable pub get : HttpRequest → ℕ → Env → Answer × Env
  get r now e = get_decoded (decode r.path_token) r now e

  abbrev pub operator_of : List Grant → String
  operator_of [] = ""
  operator_of (g ∷ _) = if g.operator_name == "" then g.open_id else g.operator_name

  abbrev pub next_grant : Reply Entry → (t.State → Bool × t.State) → t.State → Bool × t.State
  next_grant (failed x) k s = (Bool.false, s)
  next_grant (done _) k s = k s

  -- The loop that hands the grants to frps.
  pub sync_each : List Grant → String → (String → ℕ) → t.State → Bool × t.State
  sync_each [] operator clock s = (Bool.true, s)
  sync_each (g ∷ gs) operator clock s =
      let (r, s') = add t g.ip (g.expire_at - clock g.ip) operator (clock g.ip) s in
      next_grant r (sync_each gs operator clock) s'

  abbrev pub refusal : StoreError → Answer
  refusal token_invalid = gone_410
  refusal active_ip_limit = too_many_409
  refusal _ = failed_500

  abbrev pub after_consume :
      Result (List Grant) → (String → ℕ) → Env → t.State → Answer × (Env × t.State)
  after_consume (err x) clock e s = (refusal x, (e, s))
  after_consume (ok gs) clock e s =
      let (synced, s') = sync_each gs (operator_of gs) clock s in
      (if synced then granted_200 gs else not_synced_502, (e, s'))

  abbrev pub post_decoded :
      Option String
      → String
      → HttpRequest
      → ℕ
      → (String → ℕ)
      → Env
      → t.State
      → Answer × (Env × t.State)
  post_decoded none ip r now clock e s = (gone_410, (e, s))
  post_decoded (some raw) ip r now clock e s =
      let (consumed, e') =
        consume_token_ips sha256 raw (requested_ips net trusted r ip) max_active_ips now e in
      after_consume consumed clock e' s

  abbrev pub post_from :
      ClientIp → HttpRequest → ℕ → (String → ℕ) → Env → t.State → Answer × (Env × t.State)
  post_from (refused x) r now clock e s = (bad_address_400, (e, s))
  post_from (found ip) r now clock e s = post_decoded (decode r.path_token) ip r now clock e s

  -- post
  unfoldable pub post : HttpRequest → ℕ → (String → ℕ) → Env → t.State → Answer × (Env × t.State)
  post r now clock e s = post_from (client_ip net trusted r) r now clock e s
