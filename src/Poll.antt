-- ===== src/Poll.antt =====
-- internal/worker/retry_worker.go and scheduler_worker.go: one tick of each background worker.
pub mod Laws
pub mod Loop
use event_driven_arch.Common.{List, [], ◌∷◌, ok, err}
use event_driven_arch.Domain.Errors.{Err, Result}
use event_driven_arch.Domain.Entities.{queued, Notification}
use event_driven_arch.Queue
use event_driven_arch.Queue.{PriorityQueue}
use event_driven_arch.Repository.{NotificationRepository}
use event_driven_arch.Service.{System, item_of}

module _ {S : Type 0} (repo : NotificationRepository S) where
  -- What a round does after its `Enqueue`: `continue` on an error, else the status update.
  requeued : Notification → Err × PriorityQueue → S → System S
  requeued n (err e, q) db = record { db = db; queue = q }
  requeued n (ok _, q) db = record { db = (repo.update_status n.id queued db).1; queue = q }

  requeue : Notification → System S → System S
  unfolding requeued
  requeue n s = requeued n (Queue.enqueue (item_of n) s.queue) s.db

  -- The loop over what the search found.
  unfoldable pub requeue_all : List Notification → System S → System S
  unfolding requeue
  requeue_all [] s = s
  requeue_all (n ∷ ns) s = requeue_all ns (requeue n s)

  requeue_found : Result (List Notification) × S → PriorityQueue → System S
  unfolding requeue_all
  requeue_found (err e, db) q = record { db = db; queue = q }
  requeue_found (ok ns, db) q = requeue_all ns (record { db = db; queue = q })

  -- `RetryWorker.poll`
  unfoldable pub poll_retries : System S → System S
  unfolding requeue_found
  poll_retries s = requeue_found (repo.find_due_retries s.db) s.queue

  -- `SchedulerWorker.poll`
  unfoldable pub poll_scheduled : System S → System S
  unfolding requeue_found
  poll_scheduled s = requeue_found (repo.find_due_scheduled s.db) s.queue
