-- ===== src/Store/Pages/Columns.antt =====
-- The filter and the order of the pages of grants in store/store.go, by the columns of the grants.
use frps_gateway.Base.{
  ℕ, ◌≤◌, ◌<◌, String, ◌==◌, eq_iff, ◌≡◌, ◌≢◌, refl, true, false, ◌⊎◌, inl, inr, Bool-cases, Option,
  none, some, List, [], ◌∷◌, arith, ltb, All, All-weaken, insert_with, sort_with, is_none, unix,
}
use frps_gateway.Store.Schema.{GrantRow}
use frps_gateway.Store.Pages.{is_from, is_until, has_status, newer_grant}
use frps_gateway.Store.Pages.Sorting.{All-insert_with}

-- The status of a grant at a time, by its columns.
abbrev pub Has : String → ℕ → GrantRow → Type 0
Has status now g =
    ((status ≡ "active") × (is_none g.revoked_at ≡ true) × (now < g.expire_at))
    ⊎ (((status ≡ "expired") × (is_none g.revoked_at ≡ true) × (g.expire_at ≤ now))
        ⊎ (((status ≡ "revoked") × (is_none g.revoked_at ≡ false))
            ⊎ ((status ≢ "active") × (status ≢ "expired") × (status ≢ "revoked"))))

abbrev pub From : Option ℕ → ℕ → Type 0
From none at = Unit
From (some from) at = unix from ≤ at

abbrev pub Until : Option ℕ → ℕ → Type 0
Until none at = Unit
Until (some to) at = at < unix to

abbrev pub Newer : GrantRow → GrantRow → Type 0
Newer a b = (b.created_at < a.created_at) ⊎ ((a.created_at ≡ b.created_at) × (b.id ≤ a.id))

-- Newest first.
abbrev pub Newest : List GrantRow → Type 0
Newest [] = Unit
Newest (g ∷ gs) = All (Newer g) gs × Newest gs

pub has_status-Has :
    (status : String) (now : ℕ) (g : GrantRow) → has_status status now g ≡ true → Has status now g
has_status-Has status now g h = elim (Bool-cases (status == "active")) [
  | inl a ↦ inl ((eq_iff status "active").0 a, ground (arith, a, h), ground (arith, a, h))
  | inr a ↦ elim (Bool-cases (status == "expired")) [
    | inl b ↦
        inr (inl ((eq_iff status "expired").0 b, ground (arith, a, b, h), ground (arith, a, b, h)))
    | inr b ↦ elim (Bool-cases (status == "revoked")) [
      | inl c ↦ inr (inr (inl ((eq_iff status "revoked").0 c, ground (arith, a, b, c, h))))
      | inr c ↦ inr (
          inr (
            inr (
              λ q. cc ((eq_iff status "active").1 q, a),
              λ q. cc ((eq_iff status "expired").1 q, b),
              λ q. cc ((eq_iff status "revoked").1 q, c),
            )))
    ]
  ]
]

pub is_from-From : (from : Option ℕ) (at : ℕ) → is_from from at ≡ true → From from at
is_from-From none at h = tt
is_from-From (some from) at h = ground (arith, h)

pub is_until-Until : (to : Option ℕ) (at : ℕ) → is_until to at ≡ true → Until to at
is_until-Until none at h = tt
is_until-Until (some to) at h = ground (arith, h)

newer_grant-Newer : (a b : GrantRow) → newer_grant a b ≡ true → Newer a b
newer_grant-Newer a b h = elim (Bool-cases (ltb b.created_at a.created_at)) [
  | inl later ↦ inl (ground (arith, later))
  | inr other ↦ inr (ground (arith, other, h), ground (arith, other, h))
]

older-Newer : (a b : GrantRow) → newer_grant a b ≡ false → Newer b a
older-Newer a b h = elim (Bool-cases (ltb a.created_at b.created_at)) [
  | inl later ↦ inl (ground (arith, later))
  | inr other ↦ inr (ground (arith, other, h), ground (arith, other, h))
]

Newer-trans : (a b c : GrantRow) → Newer a b → Newer b c → Newer a c
Newer-trans a b c (inl h) (inl k) = inl (omega (arith, h, k))
Newer-trans a b c (inl h) (inr (k, l)) = inl (omega (arith, h, k))
Newer-trans a b c (inr (h, l)) (inl k) = inl (omega (arith, h, k))
Newer-trans a b c (inr (h, l)) (inr (k, m)) = inr (omega (arith, h, k), omega (arith, l, m))

insert_with-Newest :
    (x : GrantRow) (gs : List GrantRow) → Newest gs → Newest (insert_with newer_grant x gs)
insert_with-Newest x [] h = (tt, tt)
insert_with-Newest x (y ∷ ys) h = elim (Bool-cases (newer_grant x y)) [
  | inl first ↦
      let newer = newer_grant-Newer x y first in
      rw first ((newer, All-weaken ys (λ z k. Newer-trans x y z newer k) h.0), h)
  | inr after ↦ rw after (
    All-insert_with (Newer y) newer_grant x ys (older-Newer x y after) h.0,
    insert_with-Newest x ys h.1,
  )
]

pub sort_with-Newest : (gs : List GrantRow) → Newest (sort_with newer_grant gs)
sort_with-Newest [] = tt
sort_with-Newest (g ∷ gs) = insert_with-Newest g (sort_with newer_grant gs) (sort_with-Newest gs)

differs : (a b : String) → a ≢ b → (a == b) ≡ false
differs a b h = elim (Bool-cases (a == b)) [
  | inl same ↦ absurd (h ((eq_iff a b).0 same))
  | inr other ↦ other
]

pub Has-has_status :
    (status : String) (now : ℕ) (g : GrantRow) → Has status now g → has_status status now g ≡ true
Has-has_status status now g (inl (a, open_yet, runs)) = rw a (ground (arith, open_yet, runs))
Has-has_status status now g (inr (inl (a, open_yet, over))) = rw a (ground (arith, open_yet, over))
Has-has_status status now g (inr (inr (inl (a, gone)))) = rw a (ground (arith, gone))
Has-has_status status now g (inr (inr (inr (a, b, c)))) =
    rw (differs status "active" a, differs status "expired" b, differs status "revoked" c) refl

pub From-is_from : (from : Option ℕ) (at : ℕ) → From from at → is_from from at ≡ true
From-is_from none at h = refl
From-is_from (some from) at h = ground (arith, h)

pub Until-is_until : (to : Option ℕ) (at : ℕ) → Until to at → is_until to at ≡ true
Until-is_until none at h = refl
Until-is_until (some to) at h = ground (arith, h)
