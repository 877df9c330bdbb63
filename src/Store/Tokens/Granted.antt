-- ===== src/Store/Tokens/Granted.antt =====
-- The grants that the loop of `ConsumeTokenIPs` in store/store.go adds.
use mathlib.Core.List.{append-nil, append_assoc}
use frps_gateway.Base.{
  suc, String, ◌≡◌, refl, ap, ◌∙◌, inl, inr, List, [], ◌∷◌, ◌++◌, map, arith, contains, Bool-cases,
}
use frps_gateway.Store.Schema.{Db, Grant, GrantRow}
use frps_gateway.Store.Sql.{Env, after, later_faults}
use frps_gateway.Store.Sql.Steps.{Ensures, Ensures-ok, Ensures-bind, Ensures-exec}
use frps_gateway.Store.Grants.{max_id, grant_row, insert_grant, insert_managed}
use frps_gateway.Store.Tokens.{grant_all}

-- The rows that one grant for each address adds to a table.
abbrev pub granted_rows : List GrantRow → Grant → List String → List GrantRow
granted_rows gs g [] = []
granted_rows gs g (ip ∷ ips) =
    let row = grant_row (suc (max_id gs)) (record g { ip = ip; source = "feishu_link" }) in
    row ∷ granted_rows (gs ++ row ∷ []) g ips

abbrev pub link_grants : Grant → List String → List Grant
link_grants g ips = map (λ ip. record g { ip = ip; source = "feishu_link" }) ips

-- The tables after the two INSERTs for one address.
abbrev granted : Grant → Env → Env
granted g e = record {
  db = insert_managed g.ip (insert_grant g e.db);
  faults = later_faults (later_faults e.faults);
}

insert_managed_keeps :
    (ip : String) (d : Db)
    → ((insert_managed ip d).grants ≡ d.grants)
      × ((insert_managed ip d).auth_tokens ≡ d.auth_tokens)
unfolding insert_managed
insert_managed_keeps ip d = ground arith

-- What the loop of INSERTs returns, and what it adds.
abbrev pub Granted : Db → Grant → List String → List Grant → Db → Type 0
Granted d g ips out d' =
    (out ≡ link_grants g ips)
    × (d'.grants ≡ d.grants ++ granted_rows d.grants g ips)
    × (d'.auth_tokens ≡ d.auth_tokens)

abbrev link_grant : Grant → String → Grant
link_grant g ip = record g { ip = ip; source = "feishu_link" }

Granted-step :
    (g : Grant) (ip : String) (ips : List String) (d d' : Db) (out : List Grant)
    → Granted (insert_managed ip (insert_grant (link_grant g ip) d)) g ips out d'
    → Granted d g (ip ∷ ips) (link_grant g ip ∷ out) d'
unfolding insert_grant insert_managed
Granted-step g ip ips d d' out (outs, rows, toks) = elim (Bool-cases (contains d.managed_ips ip)) [
  | inl old ↦ (
    ap (λ gs. link_grant g ip ∷ gs) outs,
    (rw old at rows) ∙ append_assoc d.grants _ _,
    rw old at toks,
  )
  | inr new ↦ (
    ap (λ gs. link_grant g ip ∷ gs) outs,
    (rw new at rows) ∙ append_assoc d.grants _ _,
    rw new at toks,
  )
]

pub grant_all_lem :
    (g : Grant) (ips : List String) (e : Env) → Ensures (Granted e.db g ips) (grant_all g ips e)
unfolding grant_all
grant_all_lem g [] e = Ensures-ok [] e (refl, rw append-nil, refl)
grant_all_lem g (ip ∷ ips) e = Ensures-exec _ _ e (
    Ensures-exec _ _ _ (
      Ensures-bind _ _ _ λ gs done.
        let e' = after (insert_managed ip) (after (insert_grant (link_grant g ip)) e) in
        Ensures-ok _ _ (
          Granted-step g ip ips e.db (grant_all g ips e').1.db gs
            ((grant_all_lem g ips e').at gs done))))
