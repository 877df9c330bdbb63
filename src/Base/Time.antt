-- ===== src/Base/Time.antt =====
-- Go's `time`, read off its documentation: a `time.Time` is the nanoseconds since the epoch, a
-- `time.Duration` a number of nanoseconds, and `Unix()` rounds down to whole seconds.
use Prim.Native.Nat.{ℕ, ◌*◌, ◌/◌}
use mathlib.Core.Path.{◌≡◌}
use native.Mathlib.Omega.{arith}

abbrev pub unix : ℕ → ℕ
unix t = t / 1000000000

-- time.Unix(s, 0)
abbrev pub from_unix : ℕ → ℕ
from_unix s = s * 1000000000

abbrev pub second : ℕ
second = 1000000000

abbrev pub minute : ℕ
minute = 60000000000

abbrev pub hour : ℕ
hour = 3600000000000

abbrev pub day : ℕ
day = 86400000000000

pub unix-from_unix : (s : ℕ) → unix (from_unix s) ≡ s
unix-from_unix s = omega arith
