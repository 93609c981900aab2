-- ===== src/Runtime/Calls/Batch.antt =====
-- `CreateBatch` of internal/service/notification_service.go, request by request.
pub mod Safety
pub mod Bounds
use event_driven_arch.Common.{
  ℕ, String, List, [], ◌∷◌, Option, none, some, ok, err, ltb, ◌==◌, length, if◌then◌else◌,
}
use event_driven_arch.Domain.Errors.{Result, sentinel, wrapped, batch_empty, batch_too_large}
use event_driven_arch.Domain.Entities.{Time, Notification, Batch, CreateNotificationRequest}
use event_driven_arch.Service.{build_all, item_of}
use event_driven_arch.Runtime.{Code, return, put, write_batch}
use event_driven_arch.Runtime.Calls.{requeued}

-- `if n.ScheduledAt == nil { s.enqueue(ctx, n) }`, and the rest.
enqueue_unscheduled : {A : Type 0} → Option Time → Notification → Code A → Code A
unfolding requeued
enqueue_unscheduled (some _) n rest = rest
enqueue_unscheduled none n rest = put (item_of n) (requeued n rest)

unfoldable pub enqueue_all : {A : Type 0} → List Notification → Code A → Code A
unfolding enqueue_unscheduled
enqueue_all [] rest = rest
enqueue_all (n ∷ ns) rest = enqueue_unscheduled n.scheduled_at n (enqueue_all ns rest)

persisted_batch : List Notification → Result Batch → Code (Result Batch)
unfolding enqueue_all
persisted_batch ns (err e) = return (err (wrapped "persist batch" e))
persisted_batch ns (ok batch) = enqueue_all ns (return (ok batch))

built_batch : String → Result (List Notification) → Code (Result Batch)
unfolding persisted_batch
built_batch batch_id (err e) = return (err e)
built_batch batch_id (ok ns) = write_batch batch_id ns (persisted_batch ns)

-- `CreateBatch`
unfoldable pub create_batch :
    List CreateNotificationRequest → String → Time → (ℕ → String) → (ℕ → Time) → Code (Result Batch)
unfolding built_batch
create_batch requests batch_id now ids clock =
    if length requests == 0
    then return (err (sentinel batch_empty))
    else if ltb 1000 (length requests)
    then return (err (sentinel batch_too_large))
    else built_batch batch_id (build_all batch_id now ids clock 0 requests)
