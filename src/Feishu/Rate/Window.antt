-- ===== src/Feishu/Rate/Window.antt =====
-- The sliding window of feishu/bot.go, `allow`, over any sequence of requests of all users.
use frps_gateway.Base.{
  ℕ, ◌+◌, ◌≤◌, ◌<◌, String, ◌≡◌, refl, sym, ap, subst, Bool, true, ◌&&◌, List, [], ◌∷◌, ◌++◌, arith,
  leb, ◌==◌, eq_iff, if◌then◌else◌, length, select, Bool-cases, inl, inr, text_refl,
}
use mathlib.Core.List.{append-nil, append_assoc}
use frps_gateway.Feishu.Rate.{Limiter, new_limiter, is_fresh, allow}
use frps_gateway.Feishu.Rate.Tracks.{Tracks, clean_lem, longer, allow_lem}

-- How many of the times lie in the minute up to `at`.
abbrev pub in_minute : ℕ → List ℕ → ℕ
in_minute at ts = length (select (λ t. is_fresh at t && leb t at) ts)

-- The times at which requests of `id` are let through, of a sequence of requests with their times.
pub accepted : ℕ → String → List (String × ℕ) → Limiter → List ℕ
accepted requests_per_minute id [] s = []
accepted requests_per_minute id ((user, t) ∷ calls) s =
    let (ok, s') = allow requests_per_minute user t s in
    let rest = accepted requests_per_minute id calls s' in
    if ok && id == user then t ∷ rest else rest

-- The requests come one after another.
abbrev pub InOrder : ℕ → List (String × ℕ) → Type 0
InOrder now [] = Unit
InOrder now ((user, t) ∷ calls) = (now ≤ t) × InOrder t calls

-- A time that is let through found fewer than the limit in its minute.
room_lem :
    (rpm : ℕ) (id : String) (now t : ℕ) (past : List ℕ) (s : Limiter)
    → Tracks id now past s
    → now ≤ t
    → (allow rpm id t s).0 ≡ true
    → length (select (is_fresh t) past) < rpm
unfolding allow
room_lem rpm id now t past s h le ok =
    let c = clean_lem id now t past s h le in ground (arith, ap length c.same)

-- The minute up to `at`, where `at` lies in the minute from `t` on.
in_minute-le :
    (at t : ℕ) (past : List ℕ) → t ≤ at → in_minute at past ≤ length (select (is_fresh t) past)
in_minute-le at t [] h = omega arith
in_minute-le at t (u ∷ us) h = ground (arith, in_minute-le at t us h)

in_minute-append :
    (at t : ℕ) (past : List ℕ)
    → in_minute at (past ++ t ∷ [])
      ≡ in_minute at past + (if is_fresh at t && leb t at then 1 else 0)
in_minute-append at t [] = ground arith
in_minute-append at t (u ∷ us) = ground (arith, in_minute-append at t us)

one_more :
    (rpm at t : ℕ) (past : List ℕ)
    → length (select (is_fresh t) past) < rpm
    → in_minute at past ≤ rpm
    → in_minute at (past ++ t ∷ []) ≤ rpm
one_more rpm at t past room bound = elim (Bool-cases (leb t at)) [
  | inl reached ↦
      let le : t ≤ at = ground (arith, reached) in
      ground (arith, in_minute-append at t past, in_minute-le at t past le)
  | inr later ↦ ground (arith, later, in_minute-append at t past)
]

minute_same :
    (rpm : ℕ) (id : String) (now t at : ℕ) (past : List ℕ) (s : Limiter)
    → Tracks id now past s
    → now ≤ t
    → in_minute at past ≤ rpm
    → in_minute at (longer id id t (allow rpm id t s).0 past) ≤ rpm
minute_same rpm id now t at past s h le bound = elim (Bool-cases (allow rpm id t s).0) [
  | inl ok ↦
      rw (ok, text_refl id) (one_more rpm at t past (room_lem rpm id now t past s h le ok) bound)
  | inr refused ↦ rw refused bound
]

minute_lem :
    (rpm : ℕ) (id user : String) (now t at : ℕ) (past : List ℕ) (s : Limiter)
    → Tracks id now past s
    → now ≤ t
    → in_minute at past ≤ rpm
    → in_minute at (longer id user t (allow rpm user t s).0 past) ≤ rpm
minute_lem rpm id user now t at past s h le bound = elim (Bool-cases (id == user)) [
  | inl same ↦
      subst (λ u. in_minute at (longer id u t (allow rpm u t s).0 past) ≤ rpm)
        ((eq_iff id user).0 same) (minute_same rpm id now t at past s h le bound)
  | inr other ↦ elim (Bool-cases (allow rpm user t s).0) [
    | inl ok ↦ rw (ok, other) bound
    | inr refused ↦ rw refused bound
  ]
]

longer-accepted :
    (id user : String) (t : ℕ) (ok : Bool) (past rest : List ℕ)
    → past ++ (if ok && id == user then t ∷ rest else rest) ≡ longer id user t ok past ++ rest
longer-accepted id user t ok past rest = elim (Bool-cases (ok && id == user)) [
  | inl more ↦ rw more (sym (append_assoc past (t ∷ []) rest))
  | inr as_was ↦ rw as_was refl
]

accepted_lem :
    (rpm : ℕ) (id : String) (calls : List (String × ℕ)) (now at : ℕ) (past : List ℕ) (s : Limiter)
    → Tracks id now past s
    → InOrder now calls
    → in_minute at past ≤ rpm
    → in_minute at (past ++ accepted rpm id calls s) ≤ rpm
unfolding accepted
accepted_lem rpm id [] now at past s h order bound = rw (append-nil past) bound
accepted_lem rpm id ((user, t) ∷ calls) now at past s h (le, order) bound =
    let ok = (allow rpm user t s).0 in
    let s' = (allow rpm user t s).1 in
    rw (longer-accepted id user t ok past (accepted rpm id calls s')) (
      accepted_lem rpm id calls t at (longer id user t ok past) s'
        (allow_lem rpm id user now t past s h le) order
        (minute_lem rpm id user now t at past s h le bound))

-- Whatever requests come, one after another, from whatever users: at no moment do more requests of a
-- user than the limit lie in the minute up to it, of those that were let through.
pub accepted-within_limit :
    (requests_per_minute : ℕ) (id : String) (calls : List (String × ℕ)) (start at : ℕ)
    → InOrder start calls
    → in_minute at (accepted requests_per_minute id calls new_limiter) ≤ requests_per_minute
accepted-within_limit rpm id calls start at order =
    accepted_lem rpm id calls start at [] new_limiter
      (record { ascending = tt; until = tt; same = refl }) order (omega arith)
