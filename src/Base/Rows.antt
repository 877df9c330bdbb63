-- ===== src/Base/Rows.antt =====
-- What holds of every row of a table, through the clauses of a query and the writes.
use Prim.Native.Nat.{ℕ, zero, suc, ◌<◌}
use Prim.Native.String.{String}
use mathlib.Core.Path.{◌≡◌, refl, ap}
use mathlib.Core.Bool.{Bool, true, false, not, ◌||◌}
use mathlib.Core.List.{List, [], ◌∷◌, ◌++◌, map}
use native.Mathlib.Omega.{arith}
use frps_gateway.Base.Tests.{leb, eqb, Bool-cases, if◌then◌else◌}
use mathlib.Core.Logic.{inl, inr}
use frps_gateway.Base.Lists.{
  All, contains, select, take, drop, max_by, insert_by, sort_by, update, has, text_refl,
  insert_text, sort_texts, text_leb,
}

module _ {ℓ} {A : Type ℓ} where
  pub has-append : (p : A → Bool) (xs ys : List A) → has p (xs ++ ys) ≡ (has p xs || has p ys)
  has-append p [] ys = refl
  has-append p (x ∷ xs) ys = ground (arith, has-append p xs ys)

-- What holds of every row holds of every row that a query lists.
module _ {ℓ κ} {A : Type ℓ} (P : A → Type κ) where
  pub All-append : (xs ys : List A) → All P xs → All P ys → All P (xs ++ ys)
  All-append [] ys h k = k
  All-append (x ∷ xs) ys h k = (h.0, All-append xs ys h.1 k)

  pub All-take : (n : ℕ) (xs : List A) → All P xs → All P (take n xs)
  All-take zero xs h = tt
  All-take (suc n) [] h = tt
  All-take (suc n) (x ∷ xs) h = (h.0, All-take n xs h.1)

  pub All-drop : (n : ℕ) (xs : List A) → All P xs → All P (drop n xs)
  All-drop zero xs h = h
  All-drop (suc n) [] h = tt
  All-drop (suc n) (x ∷ xs) h = All-drop n xs h.1

  pub All-insert_by :
      (key : A → ℕ) (x : A) (xs : List A) → P x → All P xs → All P (insert_by key x xs)
  All-insert_by key x [] h k = (h, tt)
  All-insert_by key x (y ∷ ys) h k = elim (Bool-cases (leb (key x) (key y))) [
    | inl le ↦ rw le (h, k)
    | inr gt ↦ rw gt (k.0, All-insert_by key x ys h k.1)
  ]

  pub All-sort_by : (key : A → ℕ) (xs : List A) → All P xs → All P (sort_by key xs)
  All-sort_by key [] h = tt
  All-sort_by key (x ∷ xs) h = All-insert_by key x (sort_by key xs) h.0 (All-sort_by key xs h.1)

  -- The rows that a test selects have what the test gives.
  pub All-select :
      (p : A → Bool) (xs : List A) → All (λ x. p x ≡ true → P x) xs → All P (select p xs)
  All-select p [] h = tt
  All-select p (x ∷ xs) h = elim (Bool-cases (p x)) [
    | inl hit ↦ rw hit (h.0 hit, All-select p xs h.1)
    | inr miss ↦ rw miss (All-select p xs h.1)
  ]

  pub All-update :
      (p : A → Bool) (f : A → A) (xs : List A)
      → All P xs
      → ((x : A) → P x → p x ≡ true → P (f x))
      → All P (update p f xs)
  All-update p f [] h k = tt
  All-update p f (x ∷ xs) h k = elim (Bool-cases (p x)) [
    | inl hit ↦ rw hit (k x h.0 hit, All-update p f xs h.1 k)
    | inr miss ↦ rw miss (h.0, All-update p f xs h.1 k)
  ]

All-insert_text :
    (P : String → Type 0) (a : String) (xs : List String)
    → P a
    → All P xs
    → All P (insert_text a xs)
All-insert_text P a [] h k = (h, tt)
All-insert_text P a (b ∷ bs) h k = elim (Bool-cases (text_leb a b)) [
  | inl le ↦ rw le (h, k)
  | inr gt ↦ rw gt (k.0, All-insert_text P a bs h k.1)
]

pub All-sort_texts : (P : String → Type 0) (xs : List String) → All P xs → All P (sort_texts xs)
All-sort_texts P [] h = tt
All-sort_texts P (x ∷ xs) h = All-insert_text P x (sort_texts xs) h.0 (All-sort_texts P xs h.1)

pub All-map {ℓ κ μ} :
    {A : Type ℓ} {B : Type κ} (P : B → Type μ) (f : A → B) (xs : List A)
    → All (λ x. P (f x)) xs
    → All P (map f xs)
All-map P f [] h = tt
All-map P f (x ∷ xs) h = (h.0, All-map P f xs h.1)

pub All-weaken {ℓ κ μ} :
    {A : Type ℓ} {P : A → Type κ} {Q : A → Type μ} (xs : List A)
    → ((x : A) → P x → Q x)
    → All P xs
    → All Q xs
All-weaken [] f h = tt
All-weaken (x ∷ xs) f h = (f x h.0, All-weaken xs f h.1)

-- An update that keeps what a test reads.
pub has-update {ℓ} :
    {A : Type ℓ} (q p : A → Bool) (f : A → A) (xs : List A)
    → ((x : A) → q (f x) ≡ q x)
    → has q (update p f xs) ≡ has q xs
has-update q p f [] k = refl
has-update q p f (x ∷ xs) k = elim (Bool-cases (p x)) [
  | inl hit ↦ rw (hit, k x, has-update q p f xs k)
  | inr miss ↦ rw (miss, has-update q p f xs k)
]

All-contains :
    (ts xs : List String)
    → ((a : String) → contains xs a ≡ true → contains ts a ≡ true)
    → All (λ x. contains ts x ≡ true) xs
All-contains ts [] h = tt
All-contains ts (x ∷ xs) h =
    (h x (ground (arith, text_refl x)), All-contains ts xs (λ a p. h a (ground arith)))

pub self_contained : (ts : List String) → All (λ x. contains ts x ≡ true) ts
self_contained ts = All-contains ts ts (λ a p. p)

-- The key after the largest is new.
pub has-suc-max_by {ℓ} :
    {A : Type ℓ} (key : A → ℕ) (n : ℕ) (xs : List A)
    → max_by key xs < n
    → has (λ x. eqb (key x) n) xs ≡ false
has-suc-max_by key n [] h = refl
has-suc-max_by key n (x ∷ xs) h = ground (arith, has-suc-max_by key n xs)

-- An update changes the rows that pass its test, where they stand.
pub update-map {ℓ} :
    {A : Type ℓ} (p : A → Bool) (f : A → A) (xs : List A)
    → update p f xs ≡ map (λ x. if p x then f x else x) xs
update-map p f [] = refl
update-map p f (x ∷ xs) = ap (λ ys. (if p x then f x else x) ∷ ys) (update-map p f xs)

-- The rows that a write leaves out are as they were.
pub select_others-update {ℓ} :
    {A : Type ℓ} (p : A → Bool) (f : A → A) (xs : List A)
    → ((x : A) → p x ≡ true → p (f x) ≡ true)
    → select (λ x. not (p x)) (update p f xs) ≡ select (λ x. not (p x)) xs
select_others-update p f [] h = refl
select_others-update p f (x ∷ xs) h = elim (Bool-cases (p x)) [
  | inl hit ↦ rw (hit, h x hit, select_others-update p f xs h)
  | inr miss ↦ rw (miss, miss, select_others-update p f xs h)
]
