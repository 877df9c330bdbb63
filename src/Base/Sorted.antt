-- ===== src/Base/Sorted.antt =====
-- What ORDER BY a number puts first: a row of the table, with the least key.
use Prim.Native.Nat.{ℕ, ◌≤◌}
use mathlib.Core.Path.{◌≡◌, refl, sym, ap, ◌∙◌}
use mathlib.Core.Logic.{◌⊎◌, inl, inr}
use mathlib.Core.Bool.{Bool, true, false}
use mathlib.Core.List.{List, [], ◌∷◌}
use native.Mathlib.Omega.{arith}
use frps_gateway.Base.Tests.{leb, Bool-cases}
use frps_gateway.Base.Lists.{All, find, insert_by, sort_by, select}
use mathlib.Core.Option.{some}
use frps_gateway.Base.Rows.{All-weaken, All-insert_by}

-- A row is one of a list, with all its columns.
abbrev pub Among : {A : Type 0} → List A → A → Type 0
Among [] r = ⊥
Among (x ∷ xs) r = (r ≡ x) ⊎ Among xs r

pub All-Among : {A : Type 0} (xs : List A) → All (Among xs) xs
All-Among [] = tt
All-Among (x ∷ xs) = (inl refl, All-weaken xs (λ y h. inr h) (All-Among xs))

-- A row that a query of one row finds.
pub find-found :
    {A : Type 0} (p : A → Bool) (xs : List A) (r : A)
    → find p xs ≡ some r
    → Among xs r × (p r ≡ true)
find-found p [] r h = cc h
find-found p (x ∷ xs) r h = elim (Bool-cases (p x)) [
  | inl hit ↦ let same : x ≡ r = cc (rw hit at h) in (inl (sym same), ap p (sym same) ∙ hit)
  | inr miss ↦ let (there, passes) = find-found p xs r (rw miss at h) in (inr there, passes)
]

module _ {A : Type 0} (key : A → ℕ) where
  -- No key comes before a smaller one.
  abbrev pub Ordered : List A → Type 0
  Ordered [] = Unit
  Ordered (x ∷ xs) = All (λ y. key x ≤ key y) xs × Ordered xs

  insert_by-Ordered : (x : A) (xs : List A) → Ordered xs → Ordered (insert_by key x xs)
  insert_by-Ordered x [] h = (tt, tt)
  insert_by-Ordered x (y ∷ ys) h = elim (Bool-cases (leb (key x) (key y))) [
    | inl le ↦
        let first : key x ≤ key y = ground (arith, le) in
        rw le ((first, All-weaken ys (λ z below. omega (arith, first, below)) h.0), h)
    | inr gt ↦
        let first : key y ≤ key x = ground (arith, gt) in
        rw gt (All-insert_by (λ z. key y ≤ key z) key x ys first h.0, insert_by-Ordered x ys h.1)
  ]

  pub sort_by-Ordered : (xs : List A) → Ordered (sort_by key xs)
  sort_by-Ordered [] = tt
  sort_by-Ordered (x ∷ xs) = insert_by-Ordered x (sort_by key xs) (sort_by-Ordered xs)

  All-of-insert_by :
      (P : A → Type 0) (x : A) (xs : List A) → All P (insert_by key x xs) → P x × All P xs
  All-of-insert_by P x [] h = h
  All-of-insert_by P x (y ∷ ys) h = elim (Bool-cases (leb (key x) (key y))) [
    | inl le ↦ rw le at h
    | inr gt ↦
        let both : P y × All P (insert_by key x ys) = rw gt at h in
        let (here, rest) = All-of-insert_by P x ys both.1 in (here, (both.0, rest))
  ]

  -- What holds of the rows in order holds of the rows.
  pub All-of-sort_by : (P : A → Type 0) (xs : List A) → All P (sort_by key xs) → All P xs
  All-of-sort_by P [] h = tt
  All-of-sort_by P (x ∷ xs) h =
      let (here, rest) = All-of-insert_by P x (sort_by key xs) h in (here, All-of-sort_by P xs rest)

-- What holds of the rows that pass a test.
pub All-of-select :
    {A : Type 0} (P : A → Type 0) (p : A → Bool) (xs : List A)
    → All P (select p xs)
    → All (λ x. (p x ≡ false) ⊎ P x) xs
All-of-select P p [] h = tt
All-of-select P p (x ∷ xs) h = elim (Bool-cases (p x)) [
  | inl hit ↦
      let both : P x × All P (select p xs) = rw hit at h in
      (inr both.0, All-of-select P p xs both.1)
  | inr miss ↦ (inl miss, All-of-select P p xs (rw miss at h))
]
