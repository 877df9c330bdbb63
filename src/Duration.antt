-- ===== src/Duration.antt =====
-- duration/duration.go, `Format`. `format_int` is strconv.FormatInt in base 10.
pub mod Parse
mod Tests
use frps_gateway.Base.{
  ℕ, zero, suc, ◌+◌, ◌-◌, ◌*◌, ◌/◌, ◌≤◌, ◌<◌, ◌≡◌, refl, String, ◌<>◌, List, [], ◌∷◌, arith, leb,
  ltb, eqb, if◌then◌else◌, length, second, minute, hour, day,
}

-- The local type segment.
pub record Segment : Type 0 where
  pub unit : String
  pub size : ℕ

abbrev pub segments : List Segment
segments =
    record { unit = "d"; size = day }
    ∷ record { unit = "h"; size = hour }
    ∷ record { unit = "m"; size = minute }
    ∷ record { unit = "s"; size = second }
    ∷ []

-- The loop: how many of each unit are written, at most `room` of them.
unfoldable pub split_from : List Segment → ℕ → ℕ → List (ℕ × Segment)
split_from [] room d = []
split_from (seg ∷ segs) zero d = []
split_from (seg ∷ segs) (suc room) d =
    let v = d / seg.size in
    let skipped = split_from segs (suc room) d in
    let written = (v, seg) ∷ split_from segs room (d - v * seg.size) in
    if ltb 0 v then written else skipped

abbrev pub render : (ℕ → String) → List (ℕ × Segment) → String
render format_int [] = ""
render format_int ((v, seg) ∷ rest) = format_int v <> (seg.unit <> render format_int rest)

abbrev pub or_zero : (ℕ → String) → List (ℕ × Segment) → String
or_zero format_int [] = "0s"
or_zero format_int (x ∷ xs) = render format_int (x ∷ xs)

-- Format
unfoldable pub format : (ℕ → String) → ℕ → String
format format_int d = if leb d 0 then "0s" else or_zero format_int (split_from segments 2 d)

-- The duration that the segments stand for.
abbrev pub total : List (ℕ × Segment) → ℕ
total [] = 0
total ((v, seg) ∷ rest) = v * seg.size + total rest

-- What the segments of a duration say falls short of it by less than a minute for one below a day,
-- and by less than an hour for any; it never exceeds it.
pub split-total :
    (d : ℕ)
    → (total (split_from segments 2 d) ≤ d)
      × (d < total (split_from segments 2 d) + hour)
      × (d < day → d < total (split_from segments 2 d) + minute)
unfolding split_from
split-total d = (ground arith, ground arith, λ h. ground arith)

-- A duration of a second or more has a segment that counts.
pub total-pos : (d : ℕ) → second ≤ d → 0 < total (split_from segments 2 d)
unfolding split_from
total-pos d h = ground arith
