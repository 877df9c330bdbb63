-- ===== src/Feishu/Tests.antt =====
-- Runs of the rate limiter of feishu/bot.go, and the requests of two users.
use frps_gateway.Base.{ℕ, ◌*◌, String, ◌≡◌, ◌≤◌, refl, true, false, List, [], ◌∷◌, arith}
use frps_gateway.Feishu.Rate.{new_limiter, allow}
use frps_gateway.Feishu.Rate.Window.{accepted, in_minute, accepted-within_limit}

abbrev seconds : ℕ → ℕ
seconds n = n * 1000000000

abbrev requests : List (String × ℕ)
requests =
    ("ou_1", seconds 100)
    ∷ ("ou_2", seconds 101)
    ∷ ("ou_1", seconds 102)
    ∷ ("ou_1", seconds 103)
    ∷ ("ou_1", seconds 170)
    ∷ []

third_refused :
    (allow 2 "ou_1"
      (seconds 103)
      (allow 2 "ou_1" (seconds 102) (allow 2 "ou_1" (seconds 100) new_limiter).1).1).0
    ≡ false
unfolding allow
third_refused = refl

later_allowed : (allow 1 "ou_1" (seconds 160) (allow 1 "ou_1" (seconds 100) new_limiter).1).0 ≡ true
unfolding allow
later_allowed = refl

limit_example : in_minute (seconds 160) (accepted 2 "ou_1" requests new_limiter) ≤ 2
limit_example =
    accepted-within_limit 2 "ou_1" requests (seconds 100) (seconds 160)
      (omega arith, (omega arith, (omega arith, (omega arith, (omega arith, tt)))))
