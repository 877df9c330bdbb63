-- ===== src/Duration/Parse.antt =====
-- duration/duration.go, `Parse`. A duration is the bit pattern of its int64, below 2 ^ 64. The floating
-- point numbers of strconv, and `trim` and `lower` of strings, are parameters; a text is read by
-- characters, of which those that are not ASCII are refused as their first bytes are.
pub mod Terminates
pub mod RoundTrip
pub mod Tally
use Prim.Native.Char.{Char, code}
use Prim.Native.String
use frps_gateway.Base.{
  ℕ, zero, suc, ◌+◌, ◌%◌, ◌^◌, String, ◌<>◌, ◌==◌, Bool, true, false, ◌&&◌, ◌||◌, Option, none,
  some, leb, ltb, eqb, if◌then◌else◌, second, minute, hour, day,
}

-- The errors of Parse; `out_of_fuel` has no counterpart there.
pub data ParseError : Type 0 where
  empty has_space no_number bad_number no_unit bad_unit out_of_fuel : ParseError

pub data Parsed : Type 0 where
  parsed : ℕ → Parsed
  invalid : ParseError → Parsed

-- float64, and time.Duration(num * float64(unit)) as a bit pattern
pub record Floats : Type 1 where
  pub Float : Type 0
  pub parse_float : String → Option Float
  pub scale : Float → ℕ → ℕ

-- rest[i] >= '0' && rest[i] <= '9' || rest[i] == '.'
abbrev pub is_number : Char → Bool
is_number c = (leb b'0' (code c) && leb (code c) b'9') || eqb (code c) b'.'

-- The scan for the end of a number: what it goes over, and the rest.
abbrev pub scan : String → String × String
scan String.[] = ("", "")
scan (String.◌∷◌ c s) =
    let (num, rest) = scan s in
    if is_number c then (String.◌∷◌ c num, rest) else ("", String.◌∷◌ c s)

abbrev pub unit_of : Char → Option ℕ
unit_of c =
    if eqb (code c) b'd'
    then some day
    else if eqb (code c) b'h'
    then some hour
    else if eqb (code c) b'm'
    then some minute
    else if eqb (code c) b's'
    then some second
    else none

-- strings.ContainsAny(s, " \t\r\n")
abbrev pub contains_space : String → Bool
contains_space String.[] = false
contains_space (String.◌∷◌ c s) =
    (eqb (code c) 32 || eqb (code c) 9 || eqb (code c) 13 || eqb (code c) 10) || contains_space s

abbrev pub size : String → ℕ
size String.[] = 0
size (String.◌∷◌ c s) = suc (size s)

-- total += d, on an int64
abbrev pub add_64 : ℕ → ℕ → ℕ
add_64 a b = (a + b) % 2 ^ 64

module _ (floats : Floats) where
  abbrev pub on_unit : Option ℕ → floats.Float → ℕ → (ℕ → Parsed) → Parsed
  on_unit none num total k = invalid bad_unit
  on_unit (some unit) num total k = k (add_64 total (floats.scale num unit))

  -- After the number: its unit, and `k` what follows.
  abbrev pub on_number : Option floats.Float → String → ℕ → (String → ℕ → Parsed) → Parsed
  on_number none rest total k = invalid bad_number
  on_number (some num) String.[] total k = invalid no_unit
  on_number (some num) (String.◌∷◌ c rest) total k = on_unit (unit_of c) num total (k rest)

  abbrev pub on_scan : String × String → ℕ → (String → ℕ → Parsed) → Parsed
  on_scan (num, rest) total k =
      if num == "" then invalid no_number else on_number (floats.parse_float num) rest total k

  -- The loop while rest != "".
  unfoldable pub parse_loop : ℕ → String → ℕ → Parsed
  parse_loop fuel String.[] total = parsed total
  parse_loop zero (String.◌∷◌ c s) total = invalid out_of_fuel
  parse_loop (suc fuel) (String.◌∷◌ c s) total =
      on_scan (scan (String.◌∷◌ c s)) total (parse_loop fuel)

  abbrev pub parse_clean : String → Parsed
  parse_clean s =
      if s == ""
      then invalid empty
      else if contains_space s
      then invalid has_space
      else parse_loop (size s) s 0

  -- Parse
  unfoldable pub parse : (trim lower : String → String) → String → Parsed
  unfolding parse_loop
  parse trim lower s = parse_clean (lower (trim s))

-- d > 0, for an int64
abbrev pub is_positive : ℕ → Bool
is_positive d = ltb 0 d && ltb d (2 ^ 63)
