-- ===== src/Duration/Parse/RoundTrip.antt =====
-- What `Format` of duration/duration.go writes, `Parse` reads back.
use Prim.Native.Char.{Char, code}
use text.Mathlib.TextLemmas.{cons-append, nil-append}
use frps_gateway.Base.{
  ℕ, zero, suc, ◌+◌, ◌-◌, ◌*◌, ◌/◌, ◌^◌, ◌≤◌, ◌<◌, String, ◌<>◌, ◌==◌, ◌≡◌, refl, sym, ◌∙◌, ap,
  Bool, true, false, ◌&&◌, ◌||◌, some, List, [], ◌∷◌, All, arith, Bool-cases, inl, inr, eq_iff, leb,
  ltb, second,
}
use frps_gateway.Duration.{
  Segment, segments, split_from, render, or_zero, format, total, split-total,
}
use frps_gateway.Duration.Parse.{
  Floats, parsed, is_number, scan, unit_of, contains_space, size, add_64, on_scan, parse_loop,
  parse_clean, parse,
}

-- Only digits: what strconv.FormatInt writes of a number that is not negative.
abbrev pub AllDigits : String → Type 0
AllDigits String.[] = Unit
AllDigits (String.◌∷◌ c s) = ((leb b'0' (code c) && leb (code c) b'9') ≡ true) × AllDigits s

-- Digits and small letters.
abbrev pub is_plain : Char → Bool
is_plain c = (leb b'0' (code c) && leb (code c) b'9') || (leb b'a' (code c) && leb (code c) b'z')

abbrev pub AllPlain : String → Type 0
AllPlain String.[] = Unit
AllPlain (String.◌∷◌ c s) = (is_plain c ≡ true) × AllPlain s

AllPlain-append : (a b : String) → AllPlain a → AllPlain b → AllPlain (a <> b)
AllPlain-append String.[] b h k = rw (nil-append b) k
AllPlain-append (String.◌∷◌ c a) b h k = rw (cons-append c a b) (h.0, AllPlain-append a b h.1 k)

AllDigits-AllPlain : (s : String) → AllDigits s → AllPlain s
AllDigits-AllPlain String.[] h = tt
AllDigits-AllPlain (String.◌∷◌ c s) h = (ground (arith, h.0), AllDigits-AllPlain s h.1)

AllPlain-contains_space : (s : String) → AllPlain s → contains_space s ≡ false
AllPlain-contains_space String.[] h = refl
AllPlain-contains_space (String.◌∷◌ c s) h = ground (arith, h.0, AllPlain-contains_space s h.1)

size-append : (a b : String) → size (a <> b) ≡ size a + size b
size-append String.[] b = rw (nil-append b) (omega arith)
size-append (String.◌∷◌ c a) b = rw (cons-append c a b) (omega (arith, size-append a b))

scan-digits :
    (num : String) (c : Char) (s : String)
    → AllDigits num
    → is_number c ≡ false
    → scan (num <> String.◌∷◌ c s) ≡ (num, String.◌∷◌ c s)
scan-digits String.[] c s h k = rw (nil-append (String.◌∷◌ c s), k) refl
scan-digits (String.◌∷◌ x num) c s h k =
    rw (cons-append x num (String.◌∷◌ c s), scan-digits num c s h.1 k) (ground (arith, h.0))

-- A segment whose unit the parse knows.
abbrev pub Readable : ℕ × Segment → Type 0
Readable (v, seg) =
    (c : Char) × (seg.unit ≡ String.◌∷◌ c String.[])
    × (is_number c ≡ false)
    × (is_plain c ≡ true)
    × (unit_of c ≡ some seg.size)

-- What the round trip relies on of strconv: digits are written for a number, they are read back, and a
-- product below 2 ^ 53 is exact.
pub record DecimalLaws (floats : Floats) (format_int : ℕ → String) : Type 0 where
  pub zero_digit : format_int 0 ≡ "0"
  pub digits : (n : ℕ) → AllDigits (format_int n)
  pub nonempty : (n : ℕ) → 1 ≤ size (format_int n)
  pub exact :
      (n unit : ℕ)
      → n * unit < 2 ^ 53
      → (x : floats.Float) × (floats.parse_float (format_int n) ≡ some x)
        × (floats.scale x unit ≡ n * unit)

nonempty-eq : (s : String) → 1 ≤ size s → (s == "") ≡ false
nonempty-eq String.[] h = absurd (omega (arith, h))
nonempty-eq (String.◌∷◌ c s) h = elim (Bool-cases (String.◌∷◌ c s == "")) [
  | inl same ↦ absurd (omega (arith, ap size ((eq_iff (String.◌∷◌ c s) "").0 same)))
  | inr other ↦ other
]

abbrev zero_seconds : List (ℕ × Segment)
zero_seconds = (0, record { unit = "s"; size = second }) ∷ []

abbrev or_zero_seconds : List (ℕ × Segment) → List (ℕ × Segment)
or_zero_seconds [] = zero_seconds
or_zero_seconds (x ∷ xs) = x ∷ xs

total-or_zero : (ps : List (ℕ × Segment)) → total (or_zero_seconds ps) ≡ total ps
total-or_zero [] = omega arith
total-or_zero (x ∷ xs) = refl

Readable-or_zero : (ps : List (ℕ × Segment)) → All Readable ps → All Readable (or_zero_seconds ps)
Readable-or_zero [] h = (("s", refl, refl, refl, refl), tt)
Readable-or_zero (x ∷ xs) h = h

Readable-split :
    (segs : List Segment) (room d : ℕ)
    → All (λ seg. Readable (0, seg)) segs
    → All Readable (split_from segs room d)
unfolding split_from
Readable-split [] room d h = tt
Readable-split (seg ∷ segs) zero d h = tt
Readable-split (seg ∷ segs) (suc room) d h = elim (Bool-cases (ltb 0 (d / seg.size))) [
  | inl some_of ↦ rw some_of (h.0, Readable-split segs room (d - d / seg.size * seg.size) h.1)
  | inr none_of ↦ rw none_of (Readable-split segs (suc room) d h.1)
]

Readable-segments : All (λ seg. Readable (0, seg)) segments
Readable-segments = (
  ("d", refl, refl, refl, refl),
  (
    ("h", refl, refl, refl, refl),
    (("m", refl, refl, refl, refl), (("s", refl, refl, refl, refl), tt)),
  ),
)

module _ (floats : Floats) (format_int : ℕ → String) (laws : DecimalLaws floats format_int) where
  parse_loop-scan :
      (fuel : ℕ) (num : String) (c : Char) (r : String) (t : ℕ)
      → AllDigits num
      → 1 ≤ size num
      → is_number c ≡ false
      → parse_loop floats (suc fuel) (num <> String.◌∷◌ c r) t
        ≡ on_scan floats (num, String.◌∷◌ c r) t (parse_loop floats fuel)
  unfolding parse_loop
  parse_loop-scan fuel String.[] c r t h k other = absurd (omega (arith, k))
  parse_loop-scan fuel (String.◌∷◌ x num) c r t h k other =
      rw (cons-append x num (String.◌∷◌ c r)) (
        ap (λ p. on_scan floats p t (parse_loop floats fuel))
          (ap scan (sym (cons-append x num (String.◌∷◌ c r)))
            ∙ scan-digits (String.◌∷◌ x num) c r h other))

  AllPlain-render : (ps : List (ℕ × Segment)) → All Readable ps → AllPlain (render format_int ps)
  AllPlain-render [] h = tt
  AllPlain-render ((v, seg) ∷ ps) ((c, unit, _, plain, _), h) =
      AllPlain-append (format_int v) (seg.unit <> render format_int ps)
        (AllDigits-AllPlain (format_int v) (laws.digits v))
        (AllPlain-append seg.unit (render format_int ps) (rw unit (plain, tt))
          (AllPlain-render ps h))

  parse_loop-render :
      (ps : List (ℕ × Segment)) (fuel t : ℕ)
      → All Readable ps
      → size (render format_int ps) ≤ fuel
      → t + total ps < 2 ^ 53
      → parse_loop floats fuel (render format_int ps) t ≡ parsed (t + total ps)
  unfolding parse_loop
  parse_loop-render [] fuel t h k bound = ap parsed (omega arith)
  parse_loop-render ((v, seg) ∷ ps) zero t ((c, unit, other, plain, known), h) k bound = absurd (
      omega
        (arith, k, laws.nonempty v, size-append (format_int v) (seg.unit <> render format_int ps)))
  parse_loop-render ((v, seg) ∷ ps) (suc fuel) t ((c, unit, other, plain, known), h) k bound =
      let r = render format_int ps in
      let text : seg.unit <> r ≡ String.◌∷◌ c r =
        rw unit (cons-append c "" r ∙ ap (String.◌∷◌ c) (nil-append r)) in
      let (x, read, scaled) = laws.exact v seg.size (omega (arith, bound)) in
      let fits : size r ≤ fuel =
        omega
          (arith, k, laws.nonempty v, size-append (format_int v) (seg.unit <> r), ap size text) in
      let added : add_64 t (floats.scale x seg.size) ≡ t + v * seg.size =
        rw scaled (omega (arith, bound)) in
      rw
        (
          text,
          parse_loop-scan fuel (format_int v) c r t (laws.digits v) (laws.nonempty v) other,
          nonempty-eq (format_int v) (laws.nonempty v),
          read,
          known,
          added,
        )
        (parse_loop-render ps fuel (t + v * seg.size) h fits (omega (arith, bound))
          ∙ ap parsed (omega arith))

  render-zero : "0s" ≡ render format_int zero_seconds
  render-zero = rw laws.zero_digit refl

  or_zero-render :
      (ps : List (ℕ × Segment)) → or_zero format_int ps ≡ render format_int (or_zero_seconds ps)
  or_zero-render [] = render-zero
  or_zero-render (x ∷ xs) = refl

  format-render :
      (d : ℕ) → format format_int d ≡ render format_int (or_zero_seconds (split_from segments 2 d))
  unfolding format split_from
  format-render d = elim (Bool-cases (leb d 0)) [
    | inl none_left ↦
        let d_eq : d ≡ 0 = ground (arith, none_left) in rw (none_left, d_eq) render-zero
    | inr some_left ↦ rw some_left (or_zero-render (split_from segments 2 d))
  ]

  parse_clean-render :
      (ps : List (ℕ × Segment))
      → All Readable ps
      → 1 ≤ size (render format_int ps)
      → total ps < 2 ^ 53
      → parse_clean floats (render format_int ps) ≡ parsed (total ps)
  parse_clean-render ps h long bound =
      rw
        (
          nonempty-eq (render format_int ps) long,
          AllPlain-contains_space (render format_int ps) (AllPlain-render ps h),
        )
        (parse_loop-render ps (size (render format_int ps)) 0 h (omega arith) (omega (arith, bound))
          ∙ ap parsed (omega arith))

  render-or_zero-long :
      (ps : List (ℕ × Segment)) → 1 ≤ size (render format_int (or_zero_seconds ps))
  render-or_zero-long [] = omega (arith, size-append (format_int 0) ("s" <> ""), laws.nonempty 0)
  render-or_zero-long ((v, seg) ∷ ps) =
      omega (arith, size-append (format_int v) (seg.unit <> render format_int ps), laws.nonempty v)

  -- What `Format` writes of a duration of less than 2 ^ 53 nanoseconds, `Parse` reads as the sum of what
  -- was written, where strconv prints and reads digits and the texts have no space or capital to strip.
  pub parse-format :
      (trim lower : String → String)
      → ((s : String) → AllPlain s → lower (trim s) ≡ s)
      → (d : ℕ) → d < 2 ^ 53
      → parse floats trim lower (format format_int d) ≡ parsed (total (split_from segments 2 d))
  unfolding parse format
  parse-format trim lower same d h =
      let ps = split_from segments 2 d in
      let ready = Readable-or_zero ps (Readable-split segments 2 d Readable-segments) in
      let bound : total (or_zero_seconds ps) < 2 ^ 53 =
        omega (arith, h, (split-total d).0, total-or_zero ps) in
      rw
        (
          format-render d,
          same (render format_int (or_zero_seconds ps))
              (AllPlain-render (or_zero_seconds ps) ready),
        )
        (parse_clean-render (or_zero_seconds ps) ready (render-or_zero-long ps) bound
          ∙ ap parsed (total-or_zero ps))
