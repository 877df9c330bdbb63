-- ===== src/Store/Pages/Listed.antt =====
-- The page that `ListGrantRecords` of store/store.go lists.
use frps_gateway.Base.{
  ℕ, ℤ, pos, negsuc, ◌≤◌, ◌<◌, String, ◌==◌, ◌≡◌, Bool, true, ◌⊎◌, List, map, All, Among, take,
  drop, length,
}
use frps_gateway.Store.Schema.{GrantRow, GrantRecord}
use frps_gateway.Store.Admin.{scan_record}
use frps_gateway.Store.Pages.{GrantFilter}
use frps_gateway.Store.Pages.Columns.{Has, From, Until, Newest}

module _ (like : String → String → Bool) where
  -- A grant passes a filter: by its address, its user, its status, and the moment it was made.
  abbrev pub Passes : GrantFilter → ℕ → GrantRow → Type 0
  Passes f now g =
      (((f.ip == "") ≡ true) ⊎ (like g.ip f.ip ≡ true))
      × (((f.user == "") ≡ true)
          ⊎ ((like g.open_id f.user ≡ true) ⊎ (like g.operator_name f.user ≡ true)))
      × Has f.status now g
      × From f.from g.created_at
      × Until f.to g.created_at

  -- The size and the start of a page, by what was asked for.
  abbrev pub IsSize : ℤ → ℕ → Type 0
  IsSize (pos n) size =
      ((n ≡ 0) × (size ≡ 50)) ⊎ (((0 < n) × (n ≤ 200) × (size ≡ n)) ⊎ ((200 < n) × (size ≡ 200)))
  IsSize (negsuc n) size = size ≡ 50

  abbrev pub IsStart : ℤ → ℕ → Type 0
  IsStart (pos n) start = start ≡ n
  IsStart (negsuc n) start = start ≡ 0

  -- A page of the grants that pass a filter, cut from all of them in their order.
  abbrev pub Listed : GrantFilter → ℕ → List GrantRow → List GrantRecord × ℕ → Type 0
  Listed f now gs (out, total) =
      (sorted : List GrantRow) × (size : ℕ) × (start : ℕ) × IsSize f.limit size
      × IsStart f.offset start
      × Newest sorted
      × All (Passes f now) sorted
      × All (Among gs) sorted
      × All (λ g. (¬ (Passes f now g)) ⊎ Among sorted g) gs
      × (total ≡ length sorted)
      × (out ≡ map scan_record (take size (drop start sorted)))
