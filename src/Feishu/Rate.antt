-- ===== src/Feishu/Rate.antt =====
-- feishu/bot.go, `allow`: the limit on the requests of a user in a minute. The map of the bot is a
-- function, which is `none` at a key that is not there. `cut` is a minute before `now`; a time is after
-- it if a minute later is after `now`.
pub mod Tracks
pub mod Window
use frps_gateway.Base.{
  ℕ, ◌+◌, String, Bool, true, false, Option, none, some, List, [], ◌∷◌, ◌++◌, leb, ltb, ◌==◌,
  if◌then◌else◌, length, select, minute,
}

-- The fields of Bot that `rateMu` guards.
pub record Limiter : Type 0 where
  pub rate : String → Option (List ℕ)
  pub rate_cleanup : ℕ

-- The limiter of the bot that `New` makes.
abbrev pub new_limiter : Limiter
new_limiter = record { rate = λ key. none; rate_cleanup = 0 }

abbrev pub entries : Option (List ℕ) → List ℕ
entries none = []
entries (some ts) = ts

-- t.After(cut)
abbrev pub is_fresh : ℕ → ℕ → Bool
is_fresh now t = ltb now (t + minute)

-- len(entries) > 0 && entries[len(entries)-1].After(cut)
abbrev pub last_fresh : ℕ → List ℕ → Bool
last_fresh now [] = false
last_fresh now (t ∷ []) = is_fresh now t
last_fresh now (t ∷ u ∷ us) = last_fresh now (u ∷ us)

abbrev pub keep : ℕ → Option (List ℕ) → Option (List ℕ)
keep now none = none
keep now (some ts) = if last_fresh now ts then some ts else none

-- The cleanup, once a minute.
abbrev pub clean : ℕ → Limiter → Limiter
clean now s =
    if leb (s.rate_cleanup + minute) now
    then record { rate = λ key. keep now (s.rate key); rate_cleanup = now }
    else s

abbrev pub put : String → Option (List ℕ) → (String → Option (List ℕ)) → String → Option (List ℕ)
put id v rate key = if key == id then v else rate key

-- An empty slice is deleted.
abbrev pub stored : List ℕ → Option (List ℕ)
stored [] = none
stored (t ∷ ts) = some (t ∷ ts)

abbrev pub decide_on : ℕ → String → ℕ → List ℕ → Limiter → Bool × Limiter
decide_on requests_per_minute id now n s =
    if leb requests_per_minute (length n)
    then (false, record s { rate = put id (stored n) s.rate })
    else (true, record s { rate = put id (some (n ++ now ∷ [])) s.rate })

-- allow
unfoldable pub allow : ℕ → String → ℕ → Limiter → Bool × Limiter
allow requests_per_minute id now s =
    let c = clean now s in
    decide_on requests_per_minute id now (select (is_fresh now) (entries (c.rate id))) c
