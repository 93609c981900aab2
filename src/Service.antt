-- ===== src/Service.antt =====
-- internal/service/notification_service.go. A call takes what it reads from its surroundings as
-- arguments: the ids of `uuid.New()` and the times of `time.Now().UTC()`.
pub mod Create
pub mod RoundTrip
pub mod Idempotence
pub mod Cancel
pub mod Batches
pub mod BatchFresh
pub mod BatchStored
use event_driven_arch.Common.{
  ℕ, String, ◌+◌, Bool, true, false, List, [], ◌∷◌, Option, none, some, str_eq, ltb, ◌==◌, length,
  ok, err, if◌then◌else◌,
}
use event_driven_arch.Domain.Errors.{
  Error, Result, Err, Action, sentinel, item_error, errors_is, not_found, batch_too_large,
  batch_empty, already_cancelled, not_cancellable, wrapped, pure, raise, context, lift, ◌>>=◌, ◌>>◌,
}
use event_driven_arch.Domain.Entities.{
  Time, Status, pending, queued, processing, sent, failed, cancelled, scheduled, Notification,
  Batch, CreateNotificationRequest, ListFilter, validate,
}
use event_driven_arch.Queue
use event_driven_arch.Queue.{PriorityQueue, Item}
use event_driven_arch.Repository.{NotificationRepository}

-- What the service's calls share with the workers: the repository's state and the queue.
pub record System (S : Type 0) : Type 0 where
  pub db : S
  pub queue : PriorityQueue

-- A method call on the repository.
abbrev pub on_db : {S A : Type 0} → Action S A → Action (System S) A
on_db call s = let (r, db') = call s.db in (r, record s { db = db' })

abbrev pub initial_status : Option Time → Status
initial_status none = pending
initial_status (some _) = scheduled

abbrev key_pointer : String → Option String
key_pointer key = if str_eq key "" then none else some key

unfoldable pub build_notification :
    CreateNotificationRequest → String → Option String → String → Time → Notification
build_notification req idempotency_key batch_id id now = record {
  id = id;
  batch_id = batch_id;
  channel = req.channel;
  recipient = req.recipient;
  content = req.content;
  priority = req.priority;
  status = initial_status req.scheduled_at;
  idempotency_key = key_pointer idempotency_key;
  retry_count = 0;
  max_retries = 3;
  next_retry_at = none;
  scheduled_at = req.scheduled_at;
  sent_at = none;
  provider_msg_id = none;
  error_message = none;
  created_at = now;
  updated_at = now;
}

abbrev pub item_of : Notification → Item
item_of n = record { notification_id = n.id; channel = n.channel; priority = n.priority }

-- The notification for item `i`; the two times that `buildNotification` sets are set again.
batch_item : String → Time → String → Time → CreateNotificationRequest → Notification
unfolding build_notification
batch_item batch_id now id clock req = record (build_notification req "" (some batch_id) id clock) {
  created_at = now;
  updated_at = now;
}

-- `notifications = append(notifications, n)`, or the error of a later item.
with_item : Notification → Result (List Notification) → Result (List Notification)
with_item n (err e) = err e
with_item n (ok ns) = ok (n ∷ ns)

-- The loop of `CreateBatch` that validates and builds, from item `i` on.
pub build_all :
    String
    → Time
    → (ℕ → String)
    → (ℕ → Time)
    → ℕ
    → List CreateNotificationRequest
    → Result (List Notification)
unfolding batch_item with_item
build_all batch_id now ids clock i [] = ok []
build_all batch_id now ids clock i (req ∷ reqs) = elim (validate req) [
  | err e ↦ err (item_error i e)
  | ok _ ↦
      with_item (batch_item batch_id now (ids i) (clock i) req)
        (build_all batch_id now ids clock (i + 1) reqs)
]

module _ {S : Type 0} (repo : NotificationRepository S) where
  -- The private `enqueue`, which sets the status of the notification that it is given.
  mark_queued : Notification → Err × S → PriorityQueue → Notification × System S
  mark_queued n (err e, db) q = (n, record { db = db; queue = q })
  mark_queued n (ok _, db) q = (record n { status = queued }, record { db = db; queue = q })

  queue_up : Notification → Err × PriorityQueue → S → Notification × System S
  unfolding mark_queued
  queue_up n (err e, q) db = (n, record { db = db; queue = q })
  queue_up n (ok _, q) db = mark_queued n (repo.update_status n.id queued db) q

  -- `if n.ScheduledAt != nil { return }`
  enqueue_at : Option Time → Notification → System S → Notification × System S
  unfolding queue_up
  enqueue_at (some _) n s = (n, s)
  enqueue_at none n s = queue_up n (Queue.enqueue (item_of n) s.queue) s.db

  unfoldable pub enqueue : Notification → System S → Notification × System S
  unfolding enqueue_at
  enqueue n s = enqueue_at n.scheduled_at n s

  -- The lookup of `Create`: `none` where there is no key, or no notification with it.
  looked_up : Result Notification → Result (Option Notification)
  looked_up (ok n) = ok (some n)
  looked_up (err e) =
      if errors_is e not_found then ok none else err (wrapped "idempotency lookup" e)

  find_existing : String → Action (System S) (Option Notification)
  unfolding looked_up
  find_existing key s =
      if str_eq key ""
      then (ok none, s)
      else let (r, db) = repo.get_by_idempotency_key key s.db in (looked_up r, record s { db = db })

  enqueue_new : Notification → Action (System S) (Notification × Bool)
  unfolding enqueue
  enqueue_new n s = let (n', s') = enqueue n s in (ok (n', false), s')

  persist : Notification → Action (System S) (Notification × Bool)
  unfolding enqueue_new
  persist n = do context "persist notification" (on_db (repo.create n)); enqueue_new n

  -- `if existing != nil { return existing, true, nil }`, and the rest of `Create`.
  or_persist : Notification → Option Notification → Action (System S) (Notification × Bool)
  unfolding persist
  or_persist new (some n) = pure (n, true)
  or_persist new none = persist new

  -- `Create`, with the notification and whether it was there before.
  unfoldable pub create :
      CreateNotificationRequest → String → String → Time → Action (System S) (Notification × Bool)
  unfolding find_existing or_persist build_notification
  create req idempotency_key id now = do
    lift (validate req)
    existing ← find_existing idempotency_key
    or_persist (build_notification req idempotency_key none id now) existing

  -- The loop that enqueues a batch.
  enqueue_unscheduled : Option Time → Notification → System S → System S
  enqueue_unscheduled (some _) n s = s
  enqueue_unscheduled none n s = (enqueue n s).1

  unfoldable pub enqueue_all : List Notification → System S → System S
  unfolding enqueue_unscheduled
  enqueue_all [] s = s
  enqueue_all (n ∷ ns) s = enqueue_all ns (enqueue_unscheduled n.scheduled_at n s)

  unfoldable pub create_batch :
      List CreateNotificationRequest
      → String
      → Time
      → (ℕ → String)
      → (ℕ → Time)
      → Action (System S) Batch
  create_batch requests batch_id now ids clock =
      if length requests == 0
      then raise (sentinel batch_empty)
      else if ltb 1000 (length requests)
      then raise (sentinel batch_too_large)
      else do
        notifications ← lift (build_all batch_id now ids clock 0 requests)
        batch ← context "persist batch" (on_db (repo.create_batch batch_id notifications))
        λ s. (ok batch, enqueue_all notifications s)

  -- The switch of `Cancel`.
  abbrev cancel_in : Status → String → Action (System S) (Unit {0})
  cancel_in cancelled id = raise (sentinel already_cancelled)
  cancel_in processing id = raise (sentinel not_cancellable)
  cancel_in sent id = raise (sentinel not_cancellable)
  cancel_in _ id = on_db (repo.cancel id)

  unfoldable pub cancel : String → Action (System S) (Unit {0})
  cancel id = do n ← on_db (repo.get_by_id id); cancel_in n.status id

  unfoldable pub get_by_id : String → Action (System S) Notification
  get_by_id id = on_db (repo.get_by_id id)

  unfoldable pub list : ListFilter → Action (System S) (List Notification × ℕ)
  list filter = on_db (repo.list filter)

  unfoldable pub get_batch : String → Action (System S) (Batch × List Notification)
  get_batch batch_id = on_db (repo.get_batch batch_id)
