-- ===== src/Repository/Pg/Batches/Found.antt =====
-- `GetBatch` of internal/repository/pg_notification_repo.go.
use event_driven_arch.Common.{
  String, ◌≡◌, refl, ◌∙◌, Option, none, some, ok, err, head?, select, str_eq,
}
use event_driven_arch.Domain.Entities.{Batch}
use event_driven_arch.Repository.Contract.{Same}
use event_driven_arch.Repository.Pg.{in_batch}
use event_driven_arch.Repository.Pg.Batches.{batch_found, batch_rows, get_batch}
use event_driven_arch.Repository.Pg.Reads.{reading-rows, rows-Same}
use event_driven_arch.Repository.Pg.Rows.{view, IsDistinct}
use event_driven_arch.Repository.Pg.Statements.{Pg, Server, Reply}

module _ (server : Server) (id : String) where
  batch_found-rows : (o : Reply (Option Batch) × Pg) → (batch_found server id o).1.rows ≡ o.1.rows
  unfolding batch_found batch_rows
  batch_found-rows (err e, p) = refl
  batch_found-rows (ok none, p) = refl
  batch_found-rows (ok (some batch), p) =
      reading-rows (λ t. ok (batch, server.oldest_first (select (in_batch id) t.rows))) p

  pub get_batch-Same :
      (p : Pg)
      → IsDistinct p.rows
      → let p' = (get_batch server id p).1 in IsDistinct p'.rows × Same (view p) (view p')
  unfolding get_batch
  get_batch-Same p = rows-Same p (get_batch server id p).1 (
      batch_found-rows _
      ∙ reading-rows (λ t. ok (head? (select (λ b. str_eq b.id id) t.batches))) p)
