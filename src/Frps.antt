-- ===== src/Frps.antt =====
-- frps/client.go: the client of frps's management API. The transport (net/http, encoding/json) is a
-- parameter with a state of its own, in which the whitelist that frps keeps lives; `send` has no
-- response where the request or the read of its body fails.
pub mod Whitelist
use frps_gateway.Base.{
  ℕ, zero, suc, ◌+◌, String, Bool, true, false, ◌&&◌, ◌||◌, not, Option, none, some, List, [], ◌∷◌,
  leb, ltb, eqb, ◌==◌, if◌then◌else◌, is_none, unix, from_unix,
}
use frps_gateway.Duration.{format}

-- APIError, or any other error
pub data FrpsError : Type 0 where
  api_error : ℕ → FrpsError
  ttl_not_positive response_too_large transport_failed bad_envelope bad_data : FrpsError

pub data Reply (A : Type 0) : Type 0 where
  done : A → Reply A
  failed : FrpsError → Reply A

-- NotFound, after errors.As
unfoldable pub is_not_found : FrpsError → Bool
is_not_found (api_error status) = eqb status 404
is_not_found _ = false

-- Entry; its time is in seconds
pub record Entry : Type 0 where
  pub ip : String
  pub expire_at : ℕ

-- The methods and bodies that the client sends.
pub data Request : Type 0 where
  post_entry : String → String → String → Request
  delete_entry : String → String → Request

-- v2Response; `data` is none if it is empty or null
pub record Envelope : Type 0 where
  pub code : ℕ
  pub data_field : Option String

pub record HttpResponse : Type 0 where
  pub status : ℕ
  pub size : ℕ
  pub body : String

-- The network and encoding/json.
pub record Transport : Type 1 where
  pub State : Type 0
  pub send : Request → State → Option HttpResponse × State
  pub decode_envelope : String → Option Envelope
  pub decode_entry : String → Option Entry
  pub format_int : ℕ → String

abbrev pub is_success : ℕ → Bool
is_success code = leb 200 code && ltb code 300

abbrev pub max_bytes : ℕ
max_bytes = 1048576

module _ (t : Transport) where
  -- The envelope's data, for a caller that wants it.
  abbrev pub read_envelope : Option Envelope → Reply (Option String)
  read_envelope none = failed bad_envelope
  read_envelope (some v) =
      if is_success v.code then done v.data_field else failed (api_error v.code)

  -- From ReadAll on.
  abbrev pub read_response : Option HttpResponse → Reply (Option String)
  read_response none = failed transport_failed
  read_response (some r) =
      if ltb max_bytes r.size
      then failed response_too_large
      else if not (is_success r.status)
      then failed (api_error r.status)
      else if eqb r.size 0
      then failed bad_envelope
      else read_envelope (t.decode_envelope r.body)

  -- doLimit
  unfoldable pub do_limit : Request → t.State → Reply (Option String) × t.State
  do_limit request s = let (r, s') = t.send request s in (read_response r, s')

  abbrev pub fill : String → ℕ → ℕ → Entry → Entry
  fill ip ttl now e = if e.ip == "" then record { ip = ip; expire_at = unix (now + ttl) } else e

  abbrev pub read_entry : String → ℕ → ℕ → Reply (Option String) → Reply Entry
  read_entry ip ttl now (failed x) = failed x
  read_entry ip ttl now (done none) = done (record { ip = ip; expire_at = unix (now + ttl) })
  read_entry ip ttl now (done (some body)) = entry_or_bad (t.decode_entry body)
    where
      entry_or_bad : Option Entry → Reply Entry
      entry_or_bad none = failed bad_data
      entry_or_bad (some e) = done (fill ip ttl now e)

  -- Add; a time to live that is not positive is 0 here
  unfoldable pub add : String → ℕ → String → ℕ → t.State → Reply Entry × t.State
  add ip ttl operator now s =
      if eqb ttl 0
      then (failed ttl_not_positive, s)
      else let (r, s') = do_limit (post_entry ip (format t.format_int ttl) operator) s in
        (read_entry ip ttl now r, s')

  abbrev pub ignore_data : Reply (Option String) → Reply Unit
  ignore_data (failed x) = failed x
  ignore_data (done _) = done tt

  -- Remove
  unfoldable pub remove : String → String → t.State → Reply Unit × t.State
  remove ip operator s = let (r, s') = do_limit (delete_entry ip operator) s in (ignore_data r, s')
