-- ===== src/Repository/Pg/Refines.antt =====
-- The writes of internal/repository/pg_notification_repo.go against the contract.
use event_driven_arch.Common.{String, refl, List, [], ◌∷◌, none, some, arith}
use event_driven_arch.Domain.Entities.{sent, failed, cancelled}
use event_driven_arch.Repository.Contract.{
  Same, Becomes, BecomesSent, BecomesFailed, BecomesRetried, Write, call, Effect, IsRepository,
}
use event_driven_arch.Repository.{to_micros}
use event_driven_arch.Repository.Contract.Laws.{to_micros-twice}
use event_driven_arch.Repository.Pg.{update_status, mark_sent, mark_failed, schedule_retry, cancel}
use event_driven_arch.Repository.Pg.Batches.Found.{get_batch-Same}
use event_driven_arch.Repository.Pg.Listing.Pages.{list-Same}
use event_driven_arch.Repository.Pg.Batches.Stored.{create_batch-writes}
use event_driven_arch.Repository.Pg.Batches.{update_batch_counts, recount_batch}
use event_driven_arch.Repository.Pg.Implements.{pg_repository}
use event_driven_arch.Repository.Pg.Statements.{
  Pg, Server, Fate, works, refused, lost, send, meet, writing,
}
use event_driven_arch.Repository.Pg.Rows.{view, IsDistinct, update-writes, row-id}
use event_driven_arch.Repository.Pg.Inserts.{create-writes}
use event_driven_arch.Repository.Pg.Lookups.{
  get_by_id-Found, get_by_key-Found, finds-IsRetriable, finds-IsScheduled,
}

counts-Same :
    (id : String) (p : Pg)
    → IsDistinct p.rows
    → let (result, p') = update_batch_counts id p in IsDistinct p'.rows × Same (view p) (view p')
unfolding update_batch_counts recount_batch send
counts-Same id p d = fates p.fates
  where
    fates :
        (fs : List Fate)
        → let p' = (meet fs (writing (recount_batch id)) p).1 in
          IsDistinct p'.rows × Same (view p) (view p')
    fates [] = (d, λ j. refl)
    fates (works ∷ fs) = (d, λ j. refl)
    fates (refused e ∷ fs) = (d, λ j. refl)
    fates (lost e ∷ fs) = (d, λ j. refl)

module _ (server : Server) where
  -- Every write of the PostgreSQL repository has the effect that the contract states, the times that
  -- it stores to the microsecond, and keeps the ids distinct, whatever the fate of its statement.
  pub pg_writes :
      (w : Write) (p : Pg)
      → IsDistinct p.rows
      → let (result, p') = call (pg_repository server) w p in
        IsDistinct p'.rows × Effect w (view p) (view p') result
  unfolding update_status mark_sent mark_failed schedule_retry cancel
  pg_writes (Write.create n) p d = create-writes server n p d
  pg_writes (Write.update_status id status) p d =
      update-writes (Becomes status) id (λ n. record n { status = status }) p (λ n. ground arith)
        (λ n. refl) d
  pg_writes (Write.mark_sent id msg_id at) p d =
      update-writes (BecomesSent msg_id at) id
        (λ n. record n {
          status = sent;
          provider_msg_id = some msg_id;
          sent_at = some (to_micros at);
          error_message = none;
        })
        p (λ n. ground (arith, to_micros-twice at)) (λ n. refl) d
  pg_writes (Write.mark_failed id message) p d =
      update-writes (BecomesFailed message) id
        (λ n. record n { status = failed; error_message = some message; next_retry_at = none }) p
        (λ n. ground arith) (λ n. refl) d
  pg_writes (Write.schedule_retry id count at message) p d =
      update-writes (BecomesRetried count at message) id
        (λ n. record n {
          status = failed;
          retry_count = count;
          next_retry_at = some (to_micros at);
          error_message = some message;
        })
        p (λ n. ground (arith, to_micros-twice at)) (λ n. refl) d
  pg_writes (Write.cancel id) p d =
      update-writes (Becomes cancelled) id (λ n. record n { status = cancelled }) p
        (λ n. ground arith) (λ n. refl) d
  pg_writes (Write.update_batch_counts id) p d = counts-Same id p d

  abbrev pub pg_contract : IsRepository (pg_repository server)
  pg_contract = record {
    view = view;
    IsValid = λ p. IsDistinct p.rows;
    keyed = λ p id n d. row-id id p.rows n;
    writes = pg_writes;
    writes_batch = λ id ns p d. create_batch-writes server id ns p d;
    gets = get_by_id-Found;
    gets_by_key = get_by_key-Found;
    lists = λ f p d. list-Same server f p d;
    gets_batch = λ id p d. get_batch-Same server id p d;
    finds_retries = finds-IsRetriable;
    finds_scheduled = finds-IsScheduled;
  }
