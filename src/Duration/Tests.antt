-- ===== src/Duration/Tests.antt =====
-- Durations that duration/duration.go writes.
use frps_gateway.Base.{
  arith, ℕ, eqb, if◌then◌else◌, ◌+◌, ◌≤◌, ◌<◌, String, ◌≡◌, refl, ◌≢◌, hour, minute, day,
}
use frps_gateway.Duration.{segments, split_from, total, format, split-total}
use frps_gateway.Duration.Parse.{
  parsed, invalid, no_unit, bad_unit, has_space, out_of_fuel, parse_loop, parse,
}
use frps_gateway.Duration.Parse.Terminates.{parse-ends}
use frps_gateway.Duration.Parse.RoundTrip.{parse-format}
use frps_gateway.Duration.Parse.Tally.{tally, tallies, tally_laws}

abbrev digit : ℕ → String
digit n = if eqb n 3 then "3" else "2"

days_hours : format digit 266700000000000 ≡ "3d2h"
unfolding format split_from
days_hours = refl

hours_minutes : format digit 10920000000000 ≡ "3h2m"
unfolding format split_from
hours_minutes = refl

total_example :
    (total (split_from segments 2 266700000000000) ≤ 266700000000000)
    × (266700000000000 < total (split_from segments 2 266700000000000) + hour)
    × (266700000000000 < day
        → 266700000000000 < total (split_from segments 2 266700000000000) + minute)
total_example = split-total 266700000000000

abbrev same : String → String
same s = s

two_units : parse tallies same same "10h110m" ≡ parsed 3720000000000
unfolding parse parse_loop
two_units = refl

unit_missing : parse tallies same same "10" ≡ invalid no_unit
unfolding parse parse_loop
unit_missing = refl

unit_unknown : parse tallies same same "10w" ≡ invalid bad_unit
unfolding parse parse_loop
unit_unknown = refl

spaced : parse tallies same same "10 h" ≡ invalid has_space
unfolding parse parse_loop
spaced = refl

ends_example : parse tallies same same "10h110m" ≢ invalid out_of_fuel
ends_example = parse-ends tallies same same "10h110m"

read_back_example :
    parse tallies same same (format tally 3720000000000)
    ≡ parsed (total (split_from segments 2 3720000000000))
read_back_example =
    parse-format tallies tally tally_laws same same (λ s h. refl) 3720000000000 (ground arith)
