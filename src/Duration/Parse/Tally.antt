-- ===== src/Duration/Parse/Tally.antt =====
-- A notation for numbers with which duration/duration.go can run: a 0 and a 1 for each unit.
use frps_gateway.Base.{ℕ, zero, suc, ◌-◌, ◌*◌, String, ◌≡◌, refl, ap, some, arith}
use frps_gateway.Duration.Parse.{Floats, size}
use frps_gateway.Duration.Parse.RoundTrip.{AllDigits, DecimalLaws}

abbrev pub tally : ℕ → String
tally zero = "0"
tally (suc n) = String.◌∷◌ "1" (tally n)

abbrev pub tallies : Floats
tallies = record { Float = ℕ; parse_float = λ s. some (size s - 1); scale = λ x unit. x * unit }

size-tally : (n : ℕ) → size (tally n) ≡ suc n
size-tally zero = refl
size-tally (suc n) = omega (arith, size-tally n)

AllDigits-tally : (n : ℕ) → AllDigits (tally n)
AllDigits-tally zero = (refl, tt)
AllDigits-tally (suc n) = (refl, AllDigits-tally n)

pub tally_laws : DecimalLaws tallies tally
tally_laws = record {
  zero_digit = refl;
  digits = AllDigits-tally;
  nonempty = λ n. omega (arith, size-tally n);
  exact = λ n unit h. (n, rw (size-tally n) (ap some (omega arith)), refl);
}
