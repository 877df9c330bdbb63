-- ===== src/Base/Lists.antt =====
-- Lists under Boolean tests, as the rows of a table are read: selection, search, membership, and
-- the count of distinct texts.
use Prim.Native.Nat.{ℕ, zero, suc, ◌+◌, ◌≤◌}
use Prim.Native.String.{String}
use mathlib.Core.Path.{◌≡◌, refl}
use mathlib.Core.Bool.{Bool, true, false, ◌||◌}
use mathlib.Core.Option.{Option, none, some}
use mathlib.Core.List.{List, [], ◌∷◌, ◌++◌}
use native.Mathlib.Omega.{arith}
use Prim.Native.String
use text.Mathlib.Text.{◌==◌, is_le}
use text.Mathlib.TextEquality.{eq_iff}
use frps_gateway.Base.Tests.{if◌then◌else◌, ltb, leb}

module _ {ℓ} {A : Type ℓ} where
  abbrev pub length : List A → ℕ
  length [] = 0
  length (x ∷ xs) = suc (length xs)

  pub length-append : (xs ys : List A) → length (xs ++ ys) ≡ length xs + length ys
  length-append [] ys = omega arith
  length-append (x ∷ xs) ys = omega (arith, length-append xs ys)

  -- The rows that pass a test, in their order.
  abbrev pub select : (A → Bool) → List A → List A
  select p [] = []
  select p (x ∷ xs) = let rest = select p xs in if p x then x ∷ rest else rest

  -- The first row that passes a test.
  abbrev pub find : (A → Bool) → List A → Option A
  find p [] = none
  find p (x ∷ xs) = if p x then some x else find p xs

  -- UPDATE ... SET ... WHERE
  abbrev pub update : (A → Bool) → (A → A) → List A → List A
  update p f [] = []
  update p f (x ∷ xs) = (if p x then f x else x) ∷ update p f xs

  -- Whether some row passes a test.
  abbrev pub has : (A → Bool) → List A → Bool
  has p [] = false
  has p (x ∷ xs) = p x || has p xs

  -- The largest key, 0 if there is no row.
  abbrev pub max_by : (A → ℕ) → List A → ℕ
  max_by key [] = 0
  max_by key (x ∷ xs) = let m = max_by key xs in if ltb m (key x) then key x else m

  -- LIMIT
  abbrev pub take : ℕ → List A → List A
  take zero xs = []
  take (suc n) [] = []
  take (suc n) (x ∷ xs) = x ∷ take n xs

  -- OFFSET
  abbrev pub drop : ℕ → List A → List A
  drop zero xs = xs
  drop (suc n) [] = []
  drop (suc n) (x ∷ xs) = drop n xs

  -- ORDER BY a number; rows of one key keep their order.
  abbrev pub insert_by : (A → ℕ) → A → List A → List A
  insert_by key x [] = x ∷ []
  insert_by key x (y ∷ ys) = if leb (key x) (key y) then x ∷ y ∷ ys else y ∷ insert_by key x ys

  abbrev pub sort_by : (A → ℕ) → List A → List A
  sort_by key [] = []
  sort_by key (x ∷ xs) = insert_by key x (sort_by key xs)

  -- ORDER BY several columns: `before x y` says that `x` comes first.
  abbrev pub insert_with : (A → A → Bool) → A → List A → List A
  insert_with before x [] = x ∷ []
  insert_with before x (y ∷ ys) = if before x y then x ∷ y ∷ ys else y ∷ insert_with before x ys

  abbrev pub sort_with : (A → A → Bool) → List A → List A
  sort_with before [] = []
  sort_with before (x ∷ xs) = insert_with before x (sort_with before xs)

  pub length-select-le : (p : A → Bool) (xs : List A) → length (select p xs) ≤ length xs
  length-select-le p [] = omega arith
  length-select-le p (x ∷ xs) = ground (arith, length-select-le p xs)

-- What holds of every element.
abbrev pub All {ℓ κ} : {A : Type ℓ} → (A → Type κ) → List A → Type κ
All P [] = Unit
All P (x ∷ xs) = P x × All P xs

abbrev pub contains : List String → String → Bool
contains [] a = false
contains (x ∷ xs) a = x == a || contains xs a

pub text_refl : (a : String) → (a == a) ≡ true
text_refl a = (eq_iff a a).1 refl

pub contains_singleton : (a : String) → contains (a ∷ []) a ≡ true
contains_singleton a = ground (arith, text_refl a)

-- The order of Go's strings and of SQLite's BINARY collation, by bytes.
abbrev pub text_leb : String → String → Bool
text_leb a b = is_le (String.compare a b)

abbrev pub insert_text : String → List String → List String
insert_text a [] = a ∷ []
insert_text a (b ∷ bs) = if text_leb a b then a ∷ b ∷ bs else b ∷ insert_text a bs

-- sort.Strings, and ORDER BY on a text column
abbrev pub sort_texts : List String → List String
sort_texts [] = []
sort_texts (a ∷ bs) = insert_text a (sort_texts bs)
