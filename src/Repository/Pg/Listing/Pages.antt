-- ===== src/Repository/Pg/Listing/Pages.antt =====
-- That `List` of internal/repository/pg_notification_repo.go only reads.
use event_driven_arch.Common.{ℕ, ◌≡◌, refl, ◌∙◌, ok, err}
use event_driven_arch.Domain.Entities.{ListFilter}
use event_driven_arch.Repository.Contract.{Same}
use event_driven_arch.Repository.Pg.Listing.{count_rows, page_rows, list_page, list}
use event_driven_arch.Repository.Pg.Reads.{reading-rows, rows-Same}
use event_driven_arch.Repository.Pg.Rows.{view, IsDistinct}
use event_driven_arch.Repository.Pg.Statements.{Pg, Server, Reply}

module _ (server : Server) (f : ListFilter) where
  list_page-rows : (o : Reply ℕ × Pg) → (list_page server f o).1.rows ≡ o.1.rows
  unfolding list_page
  list_page-rows (err e, p) = refl
  list_page-rows (ok total, p) =
      reading-rows (λ t. elim (page_rows server f t) [ ok ns ↦ ok (ns, total) | err e ↦ err e ]) p

  pub list-Same :
      (p : Pg)
      → IsDistinct p.rows
      → let p' = (list server f p).1 in IsDistinct p'.rows × Same (view p) (view p')
  unfolding list
  list-Same p =
      rows-Same p (list server f p).1 (list_page-rows _ ∙ reading-rows (count_rows server f) p)
