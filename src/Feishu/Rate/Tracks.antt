-- ===== src/Feishu/Rate/Tracks.antt =====
-- What the limiter of feishu/bot.go, `allow`, keeps of the requests of a user.
use frps_gateway.Base.{
  ℕ, ◌+◌, ◌≤◌, String, ◌≡◌, refl, sym, ◌∙◌, ap, subst, Bool, true, false, ◌&&◌, Option, none, some,
  List, [], ◌∷◌, ◌++◌, arith, leb, ◌==◌, eq_iff, if◌then◌else◌, All, length, select, All-append,
  All-select, All-weaken, Bool-cases, inl, inr, minute, text_refl,
}
use frps_gateway.Feishu.Rate.{
  Limiter, entries, is_fresh, last_fresh, keep, clean, stored, decide_on, allow,
}

abbrev pub Ascending : List ℕ → Type 0
Ascending [] = Unit
Ascending (t ∷ ts) = All (λ u. t ≤ u) ts × Ascending ts

Ascending-select : (p : ℕ → Bool) (ts : List ℕ) → Ascending ts → Ascending (select p ts)
Ascending-select p [] h = tt
Ascending-select p (t ∷ ts) h = elim (Bool-cases (p t)) [
  | inl hit ↦
      rw hit (All-select _ p ts (All-weaken ts (λ u le q. le) h.0), Ascending-select p ts h.1)
  | inr miss ↦ rw miss (Ascending-select p ts h.1)
]

Ascending-append :
    (ts : List ℕ) (now : ℕ) → Ascending ts → All (λ t. t ≤ now) ts → Ascending (ts ++ now ∷ [])
Ascending-append [] now h k = (tt, tt)
Ascending-append (t ∷ ts) now h k =
    (All-append _ ts (now ∷ []) h.0 (k.0, tt), Ascending-append ts now h.1 k.1)

select-append : (p : ℕ → Bool) (ts us : List ℕ) → select p (ts ++ us) ≡ select p ts ++ select p us
select-append p [] us = refl
select-append p (t ∷ ts) us = ground (arith, select-append p ts us)

-- What is fresh later is fresh now.
select-later :
    (now later : ℕ) (ts : List ℕ)
    → now ≤ later
    → select (is_fresh later) (select (is_fresh now) ts) ≡ select (is_fresh later) ts
select-later now later [] h = refl
select-later now later (t ∷ ts) h = ground (arith, select-later now later ts h)

-- If the last time is stale, all are.
select-stale :
    (now : ℕ) (ts : List ℕ)
    → Ascending ts
    → last_fresh now ts ≡ false
    → select (is_fresh now) ts ≡ []
select-stale now [] h k = refl
select-stale now (t ∷ []) h k = rw k refl
select-stale now (t ∷ u ∷ us) ((le, _), rest) k =
    ground (arith, le, select-stale now (u ∷ us) rest k)

keep_lem :
    (now : ℕ) (o : Option (List ℕ))
    → Ascending (entries o)
    → Ascending (entries (keep now o))
      × (select (is_fresh now) (entries (keep now o)) ≡ select (is_fresh now) (entries o))
keep_lem now none h = (tt, refl)
keep_lem now (some ts) h = elim (Bool-cases (last_fresh now ts)) [
  | inl fresh ↦ rw fresh (h, refl)
  | inr stale ↦ rw stale (tt, sym (select-stale now ts h stale))
]

-- The limiter at `now`, after the requests of `id` that it let through at the times `past`.
pub record Tracks (id : String) (now : ℕ) (past : List ℕ) (s : Limiter) : Type 0 where
  pub ascending : Ascending (entries (s.rate id))
  pub until : All (λ t. t ≤ now) past
  pub same : select (is_fresh now) (entries (s.rate id)) ≡ select (is_fresh now) past

pub clean_lem :
    (id : String) (now later : ℕ) (past : List ℕ) (s : Limiter)
    → Tracks id now past s
    → now ≤ later
    → Tracks id later past (clean later s)
clean_lem id now later past s h le = elim (Bool-cases (leb (s.rate_cleanup + minute) later)) [
  | inl due ↦
      let (up, kept) = keep_lem later (s.rate id) h.ascending in
      rw due (record { ascending = up; until = until'; same = kept ∙ same' })
  | inr early ↦ rw early (record { ascending = h.ascending; until = until'; same = same' })
]
  where
    until' : All (λ t. t ≤ later) past
    until' = All-weaken past (λ t k. omega (arith, k, le)) h.until

    same' : select (is_fresh later) (entries (s.rate id)) ≡ select (is_fresh later) past
    same' =
        sym (select-later now later (entries (s.rate id)) le)
        ∙ ap (select (is_fresh later)) h.same
        ∙ select-later now later past le

-- The times of `id` after one more request.
abbrev pub longer : String → String → ℕ → Bool → List ℕ → List ℕ
longer id user now ok past = if ok && id == user then past ++ now ∷ [] else past

entries-stored : (ts : List ℕ) → entries (stored ts) ≡ ts
entries-stored [] = refl
entries-stored (t ∷ ts) = refl

fresh_now : (now : ℕ) → is_fresh now now ≡ true
fresh_now now = ground arith

select-twice : (p : ℕ → Bool) (ts : List ℕ) → select p (select p ts) ≡ select p ts
select-twice p [] = refl
select-twice p (t ∷ ts) = ground (arith, select-twice p ts)

-- The times of the limiter come from those that it let through, so none is later than now.
fresh_until :
    (id : String) (now : ℕ) (past : List ℕ) (s : Limiter)
    → Tracks id now past s
    → All (λ t. t ≤ now) (select (is_fresh now) (entries (s.rate id)))
fresh_until id now past s h =
    rw h.same (All-select _ (is_fresh now) past (All-weaken past (λ t k q. k) h.until))

decide_same :
    (rpm : ℕ) (id : String) (now : ℕ) (past : List ℕ) (c : Limiter)
    → Tracks id now past c
    → (let (ok, s') = decide_on rpm id now (select (is_fresh now) (entries (c.rate id))) c in
        Tracks id now (longer id id now ok past) s')
decide_same rpm id now past c h =
    let n = select (is_fresh now) (entries (c.rate id)) in
    elim (Bool-cases (leb rpm (length n))) [
      | inl full ↦ rw full (record {
        ascending =
            rw (text_refl id, entries-stored n)
              (Ascending-select (is_fresh now) (entries (c.rate id)) h.ascending);
        until = h.until;
        same =
            rw (text_refl id, entries-stored n)
              (select-twice (is_fresh now) (entries (c.rate id)) ∙ h.same);
      })
      | inr room ↦
          rw (room, text_refl id)
            (record {
              ascending = rw (text_refl id) (
                  Ascending-append n now
                    (Ascending-select (is_fresh now) (entries (c.rate id)) h.ascending)
                    (fresh_until id now past c h));
              until = All-append _ past (now ∷ []) h.until (omega arith, tt);
              same =
                  rw
                    (
                      text_refl id,
                      select-append (is_fresh now) n (now ∷ []),
                      select-append (is_fresh now) past (now ∷ []),
                      select-twice (is_fresh now) (entries (c.rate id)),
                      h.same,
                    )
                    refl;
            })
    ]

decide_other :
    (rpm : ℕ) (id user : String) (now : ℕ) (n past : List ℕ) (c : Limiter)
    → (id == user) ≡ false
    → Tracks id now past c
    → (let (ok, s') = decide_on rpm user now n c in Tracks id now (longer id user now ok past) s')
decide_other rpm id user now n past c other h = elim (Bool-cases (leb rpm (length n))) [
  | inl full ↦
      rw full (record { ascending = rw other h.ascending; until = h.until; same = rw other h.same })
  | inr room ↦
      rw (room, other)
        (record { ascending = rw other h.ascending; until = h.until; same = rw other h.same })
]

pub allow_lem :
    (rpm : ℕ) (id user : String) (now t : ℕ) (past : List ℕ) (s : Limiter)
    → Tracks id now past s
    → now ≤ t
    → (let (ok, s') = allow rpm user t s in Tracks id t (longer id user t ok past) s')
unfolding allow
allow_lem rpm id user now t past s h le =
    let c = clean_lem id now t past s h le in
    elim (Bool-cases (id == user)) [
      | inl same ↦
          subst
            (λ u.
              Tracks id t
                (longer id u t
                  (decide_on rpm u t (select (is_fresh t) (entries ((clean t s).rate u)))
                    (clean t s)).0
                  past)
                (decide_on rpm u t (select (is_fresh t) (entries ((clean t s).rate u)))
                  (clean t s)).1)
            ((eq_iff id user).0 same) (decide_same rpm id t past (clean t s) c)
      | inr other ↦
          decide_other rpm id user t (select (is_fresh t) (entries ((clean t s).rate user))) past
            (clean t s) other c
    ]
