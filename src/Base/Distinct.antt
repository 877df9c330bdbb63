-- ===== src/Base/Distinct.antt =====
-- The number of distinct texts in a list, as SELECT COUNT(DISTINCT ...) counts them.
use Prim.Native.Nat.{ℕ, suc, ◌+◌, ◌≤◌}
use Prim.Native.String.{String}
use mathlib.Core.Path.{◌≡◌, refl, ap}
use mathlib.Core.Bool.{Bool, false, not, ◌&&◌, ◌||◌}
use mathlib.Core.List.{List, [], ◌∷◌, ◌++◌}
use native.Mathlib.Omega.{arith}
use text.Mathlib.Text.{◌==◌}
use text.Mathlib.TextEquality.{eq_iff}
use frps_gateway.Base.Tests.{if◌then◌else◌, Bool-cases}
use mathlib.Core.Logic.{inl, inr}
use frps_gateway.Base.Lists.{length, select, contains}

-- The number of distinct texts.
abbrev pub count_distinct : List String → ℕ
count_distinct [] = 0
count_distinct (x ∷ xs) = let rest = count_distinct xs in if contains xs x then rest else suc rest

pub contains-select :
    (p : String → Bool) (a : String) (xs : List String)
    → contains (select p xs) a ≡ (contains xs a && p a)
contains-select p a [] = refl
contains-select p a (x ∷ xs) = elim (Bool-cases (x == a)) [
  | inl same ↦ rw ((eq_iff x a).0 same) (ground (arith, contains-select p a xs, eq_iff a a))
  | inr other ↦ ground (arith, contains-select p a xs)
]

-- A test splits the distinct texts into those that pass and those that do not.
pub count_distinct-split :
    (p : String → Bool) (xs : List String)
    → count_distinct xs ≡ count_distinct (select p xs) + count_distinct (select (λ x. not (p x)) xs)
count_distinct-split p [] = omega arith
count_distinct-split p (x ∷ xs) = ground (
  arith,
  count_distinct-split p xs,
  contains-select p x xs,
  contains-select (λ y. not (p y)) x xs,
)

pub contains-append :
    (a : String) (xs ys : List String) → contains (xs ++ ys) a ≡ (contains xs a || contains ys a)
contains-append a [] ys = refl
contains-append a (x ∷ xs) ys = ground (arith, contains-append a xs ys)

-- Where a text is absent, no element equals it.
select_eq-absent :
    (t : String) (xs : List String) → contains xs t ≡ false → select (λ x. t == x) xs ≡ []
select_eq-absent t [] h = refl
select_eq-absent t (x ∷ xs) h = ground (arith, select_eq-absent t xs, eq_iff t x, eq_iff x t)

-- Texts that all equal one text count at most once.
count_distinct-select_eq :
    (t : String) (xs : List String) → count_distinct (select (λ x. t == x) xs) ≤ 1
count_distinct-select_eq t [] = omega arith
count_distinct-select_eq t (x ∷ xs) = elim (Bool-cases (t == x)) [
  | inl same ↦ rw (← (eq_iff t x).0 same) (
      ground (
        arith,
        eq_iff t t,
        contains-select (λ y. t == y) t xs,
        count_distinct-select_eq t xs,
        select_eq-absent t xs,
      ))
  | inr other ↦ ground (arith, count_distinct-select_eq t xs)
]

select_without-head :
    (t : String) (ts xs : List String)
    → select (λ x. not (t == x)) (select (contains (t ∷ ts)) xs)
      ≡ select (λ x. not (t == x)) (select (contains ts) xs)
select_without-head t ts [] = refl
select_without-head t ts (x ∷ xs) = ground (arith, select_without-head t ts xs)

select_none : (xs : List String) → select (contains []) xs ≡ []
select_none [] = refl
select_none (x ∷ xs) = select_none xs

-- The texts that are among `ts` are at most as many as `ts`.
pub count_distinct-within :
    (ts xs : List String) → count_distinct (select (contains ts) xs) ≤ length ts
count_distinct-within [] xs = rw select_none (omega arith)
count_distinct-within (t ∷ ts) xs = omega (
  arith,
  count_distinct-split (λ x. t == x) (select (contains (t ∷ ts)) xs),
  count_distinct-select_eq t (select (contains (t ∷ ts)) xs),
  count_distinct-split (λ x. t == x) (select (contains ts) xs),
  count_distinct-within ts xs,
  ap count_distinct (select_without-head t ts xs),
)
