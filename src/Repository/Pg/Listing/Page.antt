-- ===== src/Repository/Pg/Listing/Page.antt =====
-- What a page of `List` of internal/repository/pg_notification_repo.go holds.
use event_driven_arch.Common.{ℕ, ◌+◌, ◌-◌, ◌*◌, ◌≤◌, ◌≡◌, List, [], ◌∷◌, length, select, true, All}
use event_driven_arch.Common.Int.{◌≤ℤ◌}
use event_driven_arch.Domain.Entities.{Notification, ListFilter}
use event_driven_arch.Repository.Pg.Listing.{matches, build_list_where}
use event_driven_arch.Repository.Pg.Statements.{Pg, Server}

-- The newest first.
abbrev pub IsDescending : List Notification → Type 0
IsDescending [] = Unit {0}
IsDescending (n ∷ ns) = All (λ m. m.created_at ≤ℤ n.created_at) ns × IsDescending ns

-- `ORDER BY created_at DESC`: the same number of rows, each of them a row that was given, the newest
-- first. Nothing is said of rows of one time.
pub record IsNewestFirst (order : ListFilter → Pg → List Notification → List Notification)
    : Type 1 where
  pub keeps :
      (Q : Notification → Type 0) (f : ListFilter) (p : Pg) (ns : List Notification)
      → All Q ns
      → All Q (order f p ns)
  pub counts :
      (f : ListFilter) (p : Pg) (ns : List Notification) → length (order f p ns) ≡ length ns
  pub descends : (f : ListFilter) (p : Pg) (ns : List Notification) → IsDescending (order f p ns)

module _ (server : Server) (f : ListFilter) (p : Pg) where
  abbrev pub skipped : ℕ
  skipped = (f.page - 1) * f.limit

  -- The rows that the filter selects.
  abbrev pub chosen : List Notification
  chosen = select (matches (build_list_where f)) p.rows

  -- A page: rows of the table that pass the filter, the newest first; `limit` of them, or as many as
  -- are left after the pages before; and the number of all rows that pass it.
  pub record IsPage (ns : List Notification) (total : ℕ) : Type 1 where
    pub counted : total ≡ length chosen
    pub stored : (Q : Notification → Type 0) → All Q p.rows → All Q ns
    pub passed : All (λ n. matches (build_list_where f) n ≡ true) ns
    pub newest_first : IsDescending ns
    pub limited : length ns ≤ f.limit
    pub full : skipped + f.limit ≤ total → length ns ≡ f.limit
    pub last : total ≤ skipped + f.limit → length ns ≡ total - skipped
