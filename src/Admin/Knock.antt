-- ===== src/Admin/Knock.antt =====
-- admin/admin.go: the knock that opens the way to the login. A map is an association list without
-- repeated keys; `sha256` digests what is compared in constant time, `token_key` is the key of a token,
-- and a random token is none if crypto/rand fails.
pub mod Capacity
use frps_gateway.Base.{
  ℕ, zero, suc, ◌+◌, String, Bool, true, false, ◌&&◌, ◌||◌, not, Option, none, some, List, [], ◌∷◌,
  leb, ltb, ◌==◌, if◌then◌else◌, length, select,
}

-- KnockConfig
pub record KnockConfig : Type 0 where
  pub secret : String
  pub hits : ℕ
  pub window : ℕ
  pub ttl : ℕ

-- knockProgress
pub record KnockProgress : Type 0 where
  pub hits : ℕ
  pub expires_at : ℕ

-- The fields of Handler that the knock uses.
pub record Gates : Type 0 where
  pub progress : List (String × KnockProgress)
  pub gates : List (String × ℕ)

abbrev pub max_knock_state : ℕ
max_knock_state = 1024

abbrev pub lookup {ℓ} : {V : Type ℓ} → String → List (String × V) → Option V
lookup k [] = none
lookup k ((j, v) ∷ m) = if j == k then some v else lookup k m

abbrev pub store_at {ℓ} : {V : Type ℓ} → String → V → List (String × V) → List (String × V)
store_at k v [] = (k, v) ∷ []
store_at k v ((j, w) ∷ m) = if j == k then (k, v) ∷ m else (j, w) ∷ store_at k v m

abbrev pub delete_at {ℓ} : {V : Type ℓ} → String → List (String × V) → List (String × V)
delete_at k m = select (λ e. not (e.0 == k)) m

-- pruneKnockLocked
unfoldable pub prune_knock : ℕ → Gates → Gates
prune_knock now g = record {
  progress = select (λ e. ltb now e.1.expires_at) g.progress;
  gates = select (λ e. ltb now e.1) g.gates;
}

-- The answers of the handler: a bare 404, with or without a progress cookie, a 500, and the redirect to
-- the login with a gate cookie.
pub data Answer : Type 0 where
  not_found : Answer
  knocked : String → Answer
  internal_error : Answer
  to_login : String → Answer

module _ (sha256 token_key : String → String) (knock : KnockConfig) where
  -- constantEqual
  abbrev pub constant_equal : String → String → Bool
  constant_equal a b = sha256 a == sha256 b

  abbrev pub issue : Option String → ℕ → Gates → Answer × Gates
  issue none now g = (internal_error, g)
  issue (some token) now g =
      let g' = prune_knock now g in
      if leb max_knock_state (length g'.gates) then (internal_error, g') else (
        to_login token,
        record g' { gates = store_at (token_key token) (now + knock.ttl) g'.gates },
      )

  -- From `p.Hits++` on; `after` is the time in `issueGate`.
  abbrev pub hit : String → KnockProgress → ℕ → Option String → ℕ → Gates → Answer × Gates
  hit token p now gate_token after g =
      let p' : KnockProgress = record { hits = suc p.hits; expires_at = now + knock.window } in
      if ltb p'.hits knock.hits
      then (knocked token, record g { progress = store_at (token_key token) p' g.progress })
      else issue gate_token after (record g { progress = delete_at (token_key token) g.progress })

  -- A first knock.
  abbrev pub first_hit : Option String → ℕ → Option String → ℕ → Gates → Answer × Gates
  first_hit none now gate_token after g = (internal_error, g)
  first_hit (some token) now gate_token after g =
      hit token (record { hits = 0; expires_at = now + knock.window }) now gate_token after g

  abbrev pub begin_knock : Option String → ℕ → Option String → ℕ → Gates → Answer × Gates
  begin_knock new_token now gate_token after g =
      if leb max_knock_state (length g.progress)
      then (not_found, g)
      else first_hit new_token now gate_token after g

  -- What is known of the progress cookie.
  abbrev pub resume :
      String → Option KnockProgress → Option String → ℕ → Option String → ℕ → Gates → Answer × Gates
  resume token none new_token now gate_token after g = begin_knock new_token now gate_token after g
  resume token (some p) new_token now gate_token after g =
      if token == "" || not (ltb now p.expires_at)
      then begin_knock new_token now gate_token after g
      else hit token p now gate_token after g

  -- knockDoor, with `cookie` the value of the progress cookie, empty if there is none
  unfoldable pub knock_door :
      String → String → Option String → ℕ → Option String → ℕ → Gates → Answer × Gates
  knock_door path_secret cookie new_token now gate_token after g =
      let g' = prune_knock now g in
      if knock.secret == "" || not (constant_equal path_secret knock.secret)
      then (not_found, g)
      else resume cookie (lookup (token_key cookie) g'.progress) new_token now gate_token after g'

  abbrev pub is_open : Option ℕ → ℕ → Bool
  is_open none now = false
  is_open (some expires) now = ltb now expires

  -- hasGate, with the value of the gate cookie, if there is one
  unfoldable pub has_gate : Option String → ℕ → Gates → Bool × Gates
  has_gate none now g = (false, g)
  has_gate (some token) now g =
      let g' = prune_knock now g in (is_open (lookup (token_key token) g'.gates) now, g')

  -- consumeGate
  unfoldable pub consume_gate : Option String → Gates → Gates
  consume_gate none g = g
  consume_gate (some token) g = record g { gates = delete_at (token_key token) g.gates }
