-- ===== src/Store/Grants/Frames.antt =====
-- What the methods of store/store.go on grants leave alone: the saved replies, and the grants of others.
use frps_gateway.Base.{
  ℕ, String, Bool, true, false, not, ◌&&◌, ◌≡◌, refl, List, [], ◌∷◌, ◌++◌, if◌then◌else◌, eqb, ◌==◌,
  leb, inl, inr, Bool-cases, select, update, arith, unix, some, text_refl,
}
use frps_gateway.Store.Schema.{Db, Grant, GrantRow, Message}
use frps_gateway.Store.Sql.{raise, pure, active_ip_limit}
use frps_gateway.Store.Sql.Frames.{
  Keeps, Keeps-statement, Keeps-query, Keeps-exec, Keeps-bind, Keeps-transaction,
}
use frps_gateway.Store.Grants.{
  is_active, insert_grant, insert_managed, enforce_active_ip_limit, add_grant_body,
  add_grant_limited, revoke_user_ip, effective_expiry, list_grants, list_user, list_active_by_ip,
  list_active, list_managed_ips, forget_managed_ip,
}

-- The grants of everybody but one user.
abbrev pub grants_of_others : String → Db → List GrantRow
grants_of_others user d = select (λ g. not (g.open_id == user)) d.grants

abbrev pub saved_messages : Db → List Message
saved_messages d = d.messages

select-append_none :
    (p : GrantRow → Bool) (gs : List GrantRow) (g : GrantRow)
    → p g ≡ false
    → select p (gs ++ g ∷ []) ≡ select p gs
select-append_none p [] g h = rw h refl
select-append_none p (x ∷ gs) g h = rw (select-append_none p gs g h) refl

-- An update of rows that a selection leaves out.
select-update_out :
    (p hit : GrantRow → Bool) (f : GrantRow → GrantRow) (gs : List GrantRow)
    → ((g : GrantRow) → hit g ≡ true → p g ≡ false)
    → ((g : GrantRow) → p (f g) ≡ p g)
    → select p (update hit f gs) ≡ select p gs
select-update_out p hit f [] out same = refl
select-update_out p hit f (g ∷ gs) out same = elim (Bool-cases (hit g)) [
  | inl h ↦ rw (h, same g, out g h) (select-update_out p hit f gs out same)
  | inr h ↦ rw (h, select-update_out p hit f gs out same) refl
]

module _ {ℓ} {B : Type ℓ} (view : Db → B) where
  refuse_lem : (b : Bool) → Keeps view (if b then raise active_ip_limit else pure tt)
  refuse_lem true e = refl
  refuse_lem false e = refl

  enforce_lem :
      (open_id ip : String) (limit now : ℕ)
      → Keeps view (enforce_active_ip_limit open_id ip limit now)
  unfolding enforce_active_ip_limit
  enforce_lem open_id ip limit now = elim (Bool-cases (eqb limit 0)) [
    | inl h ↦ rw h (λ e. refl)
    | inr h ↦ rw h (Keeps-bind view _ _ (Keeps-query view _) (λ n. refuse_lem (leb limit n)))
  ]

  pub add_grant_limited-Keeps :
      (g : Grant) (limit now : ℕ)
      → ((d : Db) → view (insert_grant g d) ≡ view d)
      → ((d : Db) → view (insert_managed g.ip d) ≡ view d)
      → Keeps view (add_grant_limited g limit now)
  unfolding add_grant_limited add_grant_body
  add_grant_limited-Keeps g limit now on_grant on_managed =
      Keeps-transaction view (add_grant_body g limit now) (
        Keeps-bind view _ _ (enforce_lem g.open_id g.ip limit (unix now)) (λ u.
          Keeps-bind view _ _ (Keeps-exec view (insert_grant g) on_grant)
            (λ v. Keeps-exec view (insert_managed g.ip) on_managed)))

-- Adding a grant leaves the saved replies alone.
pub add_grant_limited-messages :
    (g : Grant) (limit now : ℕ) → Keeps saved_messages (add_grant_limited g limit now)
unfolding insert_grant insert_managed
add_grant_limited-messages g limit now =
    add_grant_limited-Keeps saved_messages g limit now (λ d. refl) (λ d. ground arith)

-- Adding a grant leaves the grants of others alone.
pub add_grant_limited-others :
    (g : Grant) (limit now : ℕ) → Keeps (grants_of_others g.open_id) (add_grant_limited g limit now)
unfolding insert_grant insert_managed
add_grant_limited-others g limit now =
    add_grant_limited-Keeps (grants_of_others g.open_id) g limit now
      (λ d.
        select-append_none (λ x. not (x.open_id == g.open_id)) d.grants _
          (ground (arith, text_refl g.open_id)))
      (λ d. ground arith)

pub revoke_user_ip-messages :
    (open_id ip : String) (now now' : ℕ) → Keeps saved_messages (revoke_user_ip open_id ip now now')
unfolding revoke_user_ip
revoke_user_ip-messages open_id ip now now' = Keeps-statement saved_messages _ (λ d. refl)

-- A revocation leaves the grants of others alone.
pub revoke_user_ip-others :
    (open_id ip : String) (now now' : ℕ)
    → Keeps (grants_of_others open_id) (revoke_user_ip open_id ip now now')
unfolding revoke_user_ip
revoke_user_ip-others open_id ip now now' = Keeps-statement (grants_of_others open_id) _ (λ d.
    select-update_out (λ x. not (x.open_id == open_id))
      (λ x. x.open_id == open_id && x.ip == ip && is_active (unix now') x)
      (λ x. record x { revoked_at = some (unix now) }) d.grants (λ g h. ground (arith, h))
      (λ g. refl))

module _ {ℓ} {B : Type ℓ} (view : Db → B) where
  pub effective_expiry-Keeps : (ip : String) (now : ℕ) → Keeps view (effective_expiry ip now)
  unfolding effective_expiry
  effective_expiry-Keeps ip now = Keeps-query view _

  pub list_user-Keeps : (open_id : String) (now : ℕ) → Keeps view (list_user open_id now)
  unfolding list_user list_grants
  list_user-Keeps open_id now = Keeps-query view _

  pub list_active_by_ip-Keeps : (ip : String) (now : ℕ) → Keeps view (list_active_by_ip ip now)
  unfolding list_active_by_ip list_grants
  list_active_by_ip-Keeps ip now = Keeps-query view _

  pub list_active-Keeps : (now : ℕ) → Keeps view (list_active now)
  unfolding list_active list_grants
  list_active-Keeps now = Keeps-query view _

  pub list_managed_ips-Keeps : Keeps view list_managed_ips
  unfolding list_managed_ips
  list_managed_ips-Keeps = Keeps-query view _

  pub forget_managed_ip-Keeps :
      (ip : String)
      → ((d : Db) (ips : List String) → view (record d { managed_ips = ips }) ≡ view d)
      → Keeps view (forget_managed_ip ip)
  unfolding forget_managed_ip
  forget_managed_ip-Keeps ip h = Keeps-exec view _ (λ d. h d _)
