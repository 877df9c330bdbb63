-- ===== src/Store/Pages/Sorting.antt =====
-- What an ORDER BY of several columns in store/store.go keeps of the rows.
use frps_gateway.Base.{
  suc, ◌≡◌, refl, Bool, List, [], ◌∷◌, arith, All, length, insert_with, sort_with, Bool-cases, inl,
  inr,
}

length-insert_with :
    {A : Type 0} (before : A → A → Bool) (x : A) (xs : List A)
    → length (insert_with before x xs) ≡ suc (length xs)
length-insert_with before x [] = refl
length-insert_with before x (y ∷ ys) = ground (arith, length-insert_with before x ys)

pub length-sort_with :
    {A : Type 0} (before : A → A → Bool) (xs : List A) → length (sort_with before xs) ≡ length xs
length-sort_with before [] = refl
length-sort_with before (x ∷ xs) =
    omega (arith, length-insert_with before x (sort_with before xs), length-sort_with before xs)

module _ {A : Type 0} (P : A → Type 0) (before : A → A → Bool) where
  pub All-insert_with : (x : A) (xs : List A) → P x → All P xs → All P (insert_with before x xs)
  All-insert_with x [] h k = (h, tt)
  All-insert_with x (y ∷ ys) h k = elim (Bool-cases (before x y)) [
    | inl le ↦ rw le (h, k)
    | inr gt ↦ rw gt (k.0, All-insert_with x ys h k.1)
  ]

  pub All-sort_with : (xs : List A) → All P xs → All P (sort_with before xs)
  All-sort_with [] h = tt
  All-sort_with (x ∷ xs) h = All-insert_with x (sort_with before xs) h.0 (All-sort_with xs h.1)
