-- ===== src/Executor/Holdings.antt =====
-- The map that `Reconcile` of executor/executor.go builds has the addresses of the grants.
use frps_gateway.Base.{
  String, ◌≡◌, refl, Bool, true, ◌||◌, List, [], ◌∷◌, arith, ◌==◌, eq_iff, All, All-weaken, has,
  Bool-cases, inl, inr, text_refl,
}
use frps_gateway.Store.Schema.{Grant}
use frps_gateway.Executor.{Holding, hold, holdings_onto, holdings}

abbrev pub held : List Holding → String → Bool
held hs x = has (λ (h : Holding). h.ip == x) hs

abbrev pub granted : List Grant → String → Bool
granted gs x = has (λ (g : Grant). g.ip == x) gs

hold_lem :
    (g : Grant) (hs : List Holding) (x : String) → held (hold g hs) x ≡ (g.ip == x || held hs x)
hold_lem g [] x = refl
hold_lem g (h ∷ hs) x = elim (Bool-cases (h.ip == g.ip)) [
  | inl same ↦ rw (same, (eq_iff h.ip g.ip).0 same) (ground arith)
  | inr other ↦ rw other (ground (arith, hold_lem g hs x))
]

holdings_lem :
    (hs : List Holding) (gs : List Grant) (x : String)
    → held (holdings_onto hs gs) x ≡ (held hs x || granted gs x)
holdings_lem hs [] x = ground arith
holdings_lem hs (g ∷ gs) x = ground (arith, holdings_lem (hold g hs) gs x, hold_lem g hs x)

pub held-holdings : (gs : List Grant) (x : String) → held (holdings gs) x ≡ granted gs x
held-holdings gs x = holdings_lem [] gs x

pub All-held :
    (P : String → Type 0) (hs : List Holding) (x : String)
    → All (λ (h : Holding). P h.ip) hs
    → held hs x ≡ true
    → P x
All-held P [] x h k = cc k
All-held P (y ∷ ys) x h k = elim (Bool-cases (y.ip == x)) [
  | inl same ↦ rw (← (eq_iff y.ip x).0 same) h.0
  | inr other ↦ All-held P ys x h.1 (rw other at k)
]

pub All-granted : (gs : List Grant) → All (λ (g : Grant). granted gs g.ip ≡ true) gs
All-granted [] = tt
All-granted (g ∷ gs) =
    (ground (arith, text_refl g.ip), All-weaken gs (λ q h. ground (arith, h)) (All-granted gs))
