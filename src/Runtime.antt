-- ===== src/Runtime.antt =====
-- The calls of internal/service and internal/worker as goroutines: what one of them asks of the
-- database, the queue, the limiter, the provider and the clock, request by request. Between two
-- requests the others run. A method of the repository is one request: each is one statement or one
-- transaction that writes, or statements that only read.
pub mod Calls
pub mod Alone
pub mod Facts
pub mod Machine
pub mod Sound
pub mod Writes
pub mod Stored
pub mod Advance
pub mod Safety
pub mod Durable
pub mod Unique
pub mod EndToEnd
pub mod Queueing
pub mod Deliverable
pub mod Bounds
pub mod Ends
use event_driven_arch.Common.{String, List, [], ◌∷◌, ◌++◌, Option, none, some, ok, err}
use event_driven_arch.Domain.Errors.{Err, Result}
use event_driven_arch.Domain.Entities.{Time, Duration, Channel, Notification, Batch}
use event_driven_arch.Queue
use event_driven_arch.Queue.{Item, PriorityQueue}
use event_driven_arch.Repository.{NotificationRepository}
use event_driven_arch.Repository.Contract.{Write, call}
use event_driven_arch.Worker.{SendResponse, Surroundings, Metric}

-- What is left of a call that returns an `A`: the next request, and what follows each answer.
pub data Code (A : Type 0) : Type 0 where
  return : A → Code A
  panic : Code A
  write : Write → (Err → Code A) → Code A
  write_batch : String → List Notification → (Result Batch → Code A) → Code A
  get : String → (Result Notification → Code A) → Code A
  get_by_key : String → (Result Notification → Code A) → Code A
  find_retries : (Result (List Notification) → Code A) → Code A
  find_scheduled : (Result (List Notification) → Code A) → Code A
  put : Item → (Err → Code A) → Code A
  wait : Channel → (Err → Code A) → Code A
  send : Notification → (Result SendResponse → Code A) → Code A
  -- The time, and the time since the call began.
  clock : (Time × Duration → Code A) → Code A
  measure : Metric → Code A → Code A
  go : List String → Code A → Code A

-- What the goroutines share. `sends` are the provider's calls so far and `accepts` the ids of those
-- that it accepted, each with the provider's message id; `jobs` are the batches to be counted.
pub record Shared (S : Type 0) : Type 0 where
  pub db : S
  pub queue : PriorityQueue
  pub sends : List Notification
  pub accepts : List (String × String)
  pub metrics : List Metric
  pub jobs : List String

abbrev pub accepted : Notification → Result SendResponse → List (String × String)
accepted n (err e) = []
accepted n (ok resp) = (n.id, resp.message_id) ∷ []

abbrev pub after_send : {S : Type 0} → Notification → Result SendResponse → Shared S → Shared S
after_send n r s = record s { sends = s.sends ++ n ∷ []; accepts = s.accepts ++ accepted n r }

-- What follows a wait for a token; a channel that has no limiter is a panic.
resumed : {A : Type 0} → Option Err → (Err → Code A) → Code A
resumed none k = panic
resumed (some r) k = k r

module _ {S : Type 0} (repo : NotificationRepository S) (w : Surroundings) {A : Type 0} where
  -- One request, and its answer.
  unfoldable pub advance : Code A → Shared S → Code A × Shared S
  unfolding resumed
  advance (return a) s = (return a, s)
  advance panic s = (panic, s)
  advance (write x k) s = let (r, db) = call repo x s.db in (k r, record s { db = db })
  advance (write_batch id ns k) s =
      let (r, db) = repo.create_batch id ns s.db in (k r, record s { db = db })
  advance (get id k) s = let (r, db) = repo.get_by_id id s.db in (k r, record s { db = db })
  advance (get_by_key key k) s =
      let (r, db) = repo.get_by_idempotency_key key s.db in (k r, record s { db = db })
  advance (find_retries k) s =
      let (r, db) = repo.find_due_retries s.db in (k r, record s { db = db })
  advance (find_scheduled k) s =
      let (r, db) = repo.find_due_scheduled s.db in (k r, record s { db = db })
  advance (put item k) s =
      let (r, queue) = Queue.enqueue item s.queue in (k r, record s { queue = queue })
  advance (wait channel k) s = (resumed (w.wait channel) k, s)
  advance (send n k) s = (k (w.send n), after_send n (w.send n) s)
  advance (clock k) s = (k (w.now, w.elapsed), s)
  advance (measure m k) s = (k, record s { metrics = s.metrics ++ m ∷ [] })
  advance (go batches k) s = (k, record s { jobs = s.jobs ++ batches })

  -- All the requests of a call in a row, no other goroutine running; `none` is a panic.
  pub alone : Code A → Shared S → Option (A × Shared S)
  alone (return a) s = some (a, s)
  alone panic s = none
  alone (write x k) s = let (r, db) = call repo x s.db in alone (k r) (record s { db = db })
  alone (write_batch id ns k) s =
      let (r, db) = repo.create_batch id ns s.db in alone (k r) (record s { db = db })
  alone (get id k) s = let (r, db) = repo.get_by_id id s.db in alone (k r) (record s { db = db })
  alone (get_by_key key k) s =
      let (r, db) = repo.get_by_idempotency_key key s.db in alone (k r) (record s { db = db })
  alone (find_retries k) s =
      let (r, db) = repo.find_due_retries s.db in alone (k r) (record s { db = db })
  alone (find_scheduled k) s =
      let (r, db) = repo.find_due_scheduled s.db in alone (k r) (record s { db = db })
  alone (put item k) s =
      let (r, queue) = Queue.enqueue item s.queue in alone (k r) (record s { queue = queue })
  alone (wait channel k) s = elim (w.wait channel) [ none ↦ none | some r ↦ alone (k r) s ]
  alone (send n k) s = alone (k (w.send n)) (after_send n (w.send n) s)
  alone (clock k) s = alone (k (w.now, w.elapsed)) s
  alone (measure m k) s = alone k (record s { metrics = s.metrics ++ m ∷ [] })
  alone (go batches k) s = alone k (record s { jobs = s.jobs ++ batches })
