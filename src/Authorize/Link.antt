-- ===== src/Authorize/Link.antt =====
-- authorize/server.go, `NewLink`. `draw` and `time` are the random bytes and the time of each attempt,
-- `encode` is base64.RawURLEncoding, and `decimal` the `%d` of fmt.
pub mod Issued
use frps_gateway.Base.{ℕ, zero, suc, String, ◌<>◌, Option, none, some, if◌then◌else◌}
use frps_gateway.Store.Sql.{Env, StoreError, Result, ok, err}
use frps_gateway.Store.Tokens.{is_unique_violation, create_token}

pub data LinkResult : Type 0 where
  link : String → LinkResult
  no_random : LinkResult
  refused_by : StoreError → LinkResult

-- What a call is about.
pub record LinkRequest : Type 0 where
  pub open_id : String
  pub name : String
  pub message_id : String
  pub ttl : ℕ
  pub valid_for : ℕ

module _ (sha256 encode : String → String) (decimal : ℕ → String) (public_url : String)
    (draw : ℕ → Option String) (time : ℕ → ℕ) where
  abbrev pub attempt_id : String → ℕ → String
  attempt_id message_id zero = message_id
  attempt_id message_id (suc n) = message_id <> ("#" <> decimal (suc n))

  abbrev pub url_of : String → String
  url_of raw = public_url <> ("/authorize/" <> encode raw)

  abbrev pub on_created :
      String → Result (Unit {0}) → (StoreError → Env → LinkResult × Env) → Env → LinkResult × Env
  on_created raw (ok _) retry e = (link (url_of raw), e)
  on_created raw (err x) retry e = retry x e

  -- One round of the loop; `retry` says what follows a failed insertion.
  abbrev pub try_link :
      LinkRequest
      → ℕ
      → Option String
      → (StoreError → Env → LinkResult × Env)
      → Env
      → LinkResult × Env
  try_link r attempt none retry e = (no_random, e)
  try_link r attempt (some raw) retry e =
      let (created, e') =
        create_token sha256 raw r.open_id r.name (attempt_id r.message_id attempt) r.ttl r.valid_for
          (time attempt) e in
      on_created raw created retry e'

  -- The loop, with the number of attempts that may follow.
  pub new_link_from : LinkRequest → ℕ → ℕ → Env → LinkResult × Env
  new_link_from r zero attempt e = try_link r attempt (draw attempt) (λ x e'. (refused_by x, e')) e
  new_link_from r (suc left) attempt e =
      try_link r attempt (draw attempt)
        (λ x e'.
          if is_unique_violation x
          then new_link_from r left (suc attempt) e'
          else (refused_by x, e'))
        e

  -- NewLink
  unfoldable pub new_link : LinkRequest → Env → LinkResult × Env
  new_link r e = new_link_from r 3 0 e
