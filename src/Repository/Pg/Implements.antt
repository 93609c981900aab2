-- ===== src/Repository/Pg/Implements.antt =====
-- `NewPgNotificationRepository`: the methods as an implementation of the interface.
use event_driven_arch.Repository.{NotificationRepository}
use event_driven_arch.Repository.Pg.Statements.{Pg, Server}
use event_driven_arch.Repository.Pg.{
  create, get_by_id, get_by_idempotency_key, update_status, mark_sent, mark_failed, schedule_retry,
  cancel, find_due_retries, find_due_scheduled,
}
use event_driven_arch.Repository.Pg.Listing.{list}
use event_driven_arch.Repository.Pg.Batches.{create_batch, get_batch, update_batch_counts}

abbrev pub pg_repository : Server → NotificationRepository Pg
pg_repository server = record {
  create = create server;
  get_by_id = get_by_id;
  get_by_idempotency_key = get_by_idempotency_key;
  list = list server;
  update_status = update_status;
  mark_sent = mark_sent;
  mark_failed = mark_failed;
  schedule_retry = schedule_retry;
  cancel = cancel;
  find_due_retries = find_due_retries;
  find_due_scheduled = find_due_scheduled;
  create_batch = create_batch server;
  get_batch = get_batch server;
  update_batch_counts = update_batch_counts;
}
