-- ===== src/Admin/Knock/Capacity.antt =====
-- The state that the knock of admin/admin.go keeps: its bound, and when a gate is opened.
use frps_gateway.Base.{
  ℕ, suc, ◌+◌, ◌≤◌, ◌<◌, String, ◌≡◌, refl, ◌||◌, not, Option, none, some, List, [], ◌∷◌, arith,
  leb, ltb, ◌==◌, length, length-select-le, Bool-cases, inl, inr,
}
use frps_gateway.Admin.Knock.{
  KnockConfig, KnockProgress, Gates, max_knock_state, lookup, store_at, delete_at, prune_knock,
  constant_equal, issue, hit, first_hit, begin_knock, resume, knock_door,
}

-- The two maps hold at most `maxKnockState` entries each.
abbrev pub Bounded : Gates → Type 0
Bounded g = (length g.progress ≤ max_knock_state) × (length g.gates ≤ max_knock_state)

length-store_at :
    {V : Type 0} (k : String) (v : V) (m : List (String × V))
    → length (store_at k v m) ≤ suc (length m)
length-store_at k v [] = omega arith
length-store_at k v ((j, w) ∷ m) = ground (arith, length-store_at k v m)

length-store_at-present :
    {V : Type 0} (k : String) (v p : V) (m : List (String × V))
    → lookup k m ≡ some p
    → length (store_at k v m) ≡ length m
length-store_at-present k v p [] h = cc h
length-store_at-present k v p ((j, w) ∷ m) h = ground (arith, length-store_at-present k v p m)

prune-Bounded : (now : ℕ) (g : Gates) → Bounded g → Bounded (prune_knock now g)
unfolding prune_knock
prune-Bounded now g h = (
  omega (
    arith,
    length-select-le (λ (e : String × KnockProgress). ltb now e.1.expires_at) g.progress,
    h.0,
  ),
  omega (arith, length-select-le (λ (e : String × ℕ). ltb now e.1) g.gates, h.1),
)

module _ (sha256 token_key : String → String) (knock : KnockConfig) where
  issue-Bounded :
      (o : Option String) (now : ℕ) (g : Gates)
      → Bounded g
      → Bounded (issue sha256 token_key knock o now g).1
  issue-Bounded none now g h = h
  issue-Bounded (some token) now g h =
      let b = prune-Bounded now g h in
      elim (Bool-cases (leb max_knock_state (length (prune_knock now g).gates))) [
        | inl full ↦ rw full b
        | inr room ↦ rw room (
          b.0,
          ground (
            arith,
            room,
            length-store_at (token_key token) (now + knock.ttl) (prune_knock now g).gates,
          ),
        )
      ]

  hit-Bounded :
      (token : String) (p : KnockProgress) (now : ℕ) (gate_token : Option String) (after : ℕ)
      (g : Gates)
      → Bounded g
      → ((v : KnockProgress) → length (store_at (token_key token) v g.progress) ≤ max_knock_state)
      → Bounded (hit sha256 token_key knock token p now gate_token after g).1
  hit-Bounded token p now gate_token after g h room =
      elim (Bool-cases (ltb (suc p.hits) knock.hits)) [
        | inl more ↦ rw more (room _, h.1)
        | inr enough ↦ rw enough (
            issue-Bounded gate_token after
              (record g { progress = delete_at (token_key token) g.progress })
              (
                omega (
                  arith,
                  length-select-le (λ (e : String × KnockProgress). not (e.0 == token_key token))
                      g.progress,
                  h.0,
                ),
                h.1,
              ))
      ]

  begin_knock-Bounded :
      (new_token : Option String) (now : ℕ) (gate_token : Option String) (after : ℕ) (g : Gates)
      → Bounded g
      → Bounded (begin_knock sha256 token_key knock new_token now gate_token after g).1
  begin_knock-Bounded new_token now gate_token after g h =
      elim (Bool-cases (leb max_knock_state (length g.progress))) [
        | inl full ↦ rw full h
        | inr room ↦ rw room (first new_token (ground (arith, room)))
      ]
    where
      first :
          (new_token : Option String)
          → length g.progress < max_knock_state
          → Bounded (first_hit sha256 token_key knock new_token now gate_token after g).1
      first none room = h
      first (some token) room =
          hit-Bounded token (record { hits = 0; expires_at = now + knock.window }) now gate_token
            after g h (λ v. omega (arith, length-store_at (token_key token) v g.progress, room))

  resume-Bounded :
      (cookie : String) (o : Option KnockProgress) (new_token : Option String) (now : ℕ)
      → (gate_token : Option String) (after : ℕ) (g : Gates)
      → lookup (token_key cookie) g.progress ≡ o
      → Bounded g
      → Bounded (resume sha256 token_key knock cookie o new_token now gate_token after g).1
  resume-Bounded cookie none new_token now gate_token after g found h =
      begin_knock-Bounded new_token now gate_token after g h
  resume-Bounded cookie (some p) new_token now gate_token after g found h =
      elim (Bool-cases (cookie == "" || not (ltb now p.expires_at))) [
        | inl stale ↦ rw stale (begin_knock-Bounded new_token now gate_token after g h)
        | inr live ↦ rw live (
            hit-Bounded cookie p now gate_token after g h (λ v.
              omega (arith, length-store_at-present (token_key cookie) v p g.progress found, h.0)))
      ]

  -- However often and with whatever cookies the door is knocked on, the knocks in progress and the open
  -- gates stay at most `maxKnockState` each.
  pub knock_door-Bounded :
      (path_secret cookie : String) (new_token : Option String) (now : ℕ)
      (gate_token : Option String) (after : ℕ)
      → (g : Gates) → Bounded g
      → Bounded
          (knock_door sha256 token_key knock path_secret cookie new_token now gate_token after g).1
  unfolding knock_door
  knock_door-Bounded path_secret cookie new_token now gate_token after g h =
      elim (Bool-cases (
        knock.secret == ""
        || not (constant_equal sha256 token_key knock path_secret knock.secret))) [
          | inl wrong ↦ rw wrong h
          | inr right ↦ rw right (
              resume-Bounded cookie _ new_token now gate_token after (prune_knock now g) refl
                (prune-Bounded now g h))
        ]
