-- ===== src/Duration/Parse/Terminates.antt =====
-- The loop of duration/duration.go, `Parse`, ends within as many rounds as its text has characters.
use frps_gateway.Base.{
  ℕ, zero, suc, ◌≤◌, String, ◌==◌, ◌≢◌, Option, none, some, arith, Bool-cases, inl, inr,
}
use frps_gateway.Duration.Parse.{
  Floats, Parsed, invalid, out_of_fuel, is_number, scan, unit_of, contains_space, size, on_unit,
  on_number, on_scan, parse_loop, parse,
}

size-scan-le : (s : String) → size (scan s).1 ≤ size s
size-scan-le String.[] = omega arith
size-scan-le (String.◌∷◌ c s) = elim (Bool-cases (is_number c)) [
  | inl digit ↦ rw digit (omega (arith, size-scan-le s))
  | inr other ↦ rw other (omega arith)
]

module _ (floats : Floats) where
  on_unit-ends :
      (o : Option ℕ) (num : floats.Float) (total : ℕ) (k : ℕ → Parsed)
      → ((t : ℕ) → k t ≢ invalid out_of_fuel)
      → on_unit floats o num total k ≢ invalid out_of_fuel
  on_unit-ends none num total k h = λ q. cc q
  on_unit-ends (some unit) num total k h = h _

  on_number-ends :
      (o : Option floats.Float) (rest : String) (total : ℕ) (k : String → ℕ → Parsed)
      → ((r : String) (t : ℕ) → suc (size r) ≤ size rest → k r t ≢ invalid out_of_fuel)
      → on_number floats o rest total k ≢ invalid out_of_fuel
  on_number-ends none rest total k h = λ q. cc q
  on_number-ends (some num) String.[] total k h = λ q. cc q
  on_number-ends (some num) (String.◌∷◌ c rest) total k h =
      on_unit-ends (unit_of c) num total (k rest) (λ t. h rest t (omega arith))

  on_scan-ends :
      (num rest : String) (total : ℕ) (k : String → ℕ → Parsed)
      → ((r : String) (t : ℕ) → suc (size r) ≤ size rest → k r t ≢ invalid out_of_fuel)
      → on_scan floats (num, rest) total k ≢ invalid out_of_fuel
  on_scan-ends num rest total k h = elim (Bool-cases (num == "")) [
    | inl no_digit ↦ rw no_digit (λ q. cc q)
    | inr digits ↦ rw digits (on_number-ends (floats.parse_float num) rest total k h)
  ]

  parse_loop-ends :
      (fuel : ℕ) (s : String) (total : ℕ)
      → size s ≤ fuel
      → parse_loop floats fuel s total ≢ invalid out_of_fuel
  unfolding parse_loop
  parse_loop-ends fuel String.[] total h = λ q. cc q
  parse_loop-ends zero (String.◌∷◌ c s) total h = absurd (omega (arith, h))
  parse_loop-ends (suc fuel) (String.◌∷◌ c s) total h =
      on_scan-ends (scan (String.◌∷◌ c s)).0 (scan (String.◌∷◌ c s)).1 total
        (parse_loop floats fuel)
        (λ r t le. parse_loop-ends fuel r t (omega (arith, h, le, size-scan-le (String.◌∷◌ c s))))

  -- The parse of a duration ends, whatever the text, with a duration or with one of the errors of the
  -- code: the loop never needs more rounds than the text has characters.
  pub parse-ends :
      (trim lower : String → String) (s : String) → parse floats trim lower s ≢ invalid out_of_fuel
  unfolding parse
  parse-ends trim lower s =
      let clean = lower (trim s) in
      elim (Bool-cases (clean == "")) [
        | inl nothing ↦ rw nothing (λ q. cc q)
        | inr text ↦ elim (Bool-cases (contains_space clean)) [
          | inl spaced ↦ rw (text, spaced) (λ q. cc q)
          | inr joined ↦ rw (text, joined) (parse_loop-ends (size clean) clean 0 (omega arith))
        ]
      ]
