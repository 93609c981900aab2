-- ===== src/Runtime/Calls.antt =====
-- `Create` and `Cancel` of internal/service/notification_service.go, `process` of
-- internal/worker/worker.go, and `poll` of the retry and scheduler workers, request by request.
pub mod Batch
pub mod Safe
pub mod Bounds
use event_driven_arch.Common.{
  ℕ, ◌+◌, String, Bool, true, false, List, [], ◌∷◌, Option, none, some, str_eq, leb, ok, err,
  if◌then◌else◌,
}
use event_driven_arch.Common.Int.{◌+ℤ◌}
use event_driven_arch.Domain.Errors.{
  Error, Err, Result, errors_is, not_found, sentinel, wrapped, already_cancelled, not_cancellable,
}
use event_driven_arch.Domain.Entities.{
  Time, Duration, Status, queued, processing, cancelled, sent, Notification,
  CreateNotificationRequest, validate,
}
use event_driven_arch.Queue.{Item}
use event_driven_arch.Repository.Contract.{Write}
use event_driven_arch.Service.{build_notification, item_of}
use event_driven_arch.Worker.{SendResponse, on_sent, on_failed, is_cancelled, spawned, delay}
use event_driven_arch.Runtime.{
  Code, return, panic, write, get, get_by_key, find_retries, find_scheduled, put, wait, send, clock,
  measure, go,
}

-- What `Create` returns.
abbrev pub Created : Type 0
Created = Result (Notification × Bool)

marked_queued : Notification → Err → Code Created
marked_queued n (err e) = return (ok (n, false))
marked_queued n (ok _) = return (ok (record n { status = queued }, false))

queued_up : Notification → Err → Code Created
unfolding marked_queued
queued_up n (err e) = return (ok (n, false))
queued_up n (ok _) = write (Write.update_status n.id queued) (marked_queued n)

enqueue_at : Option Time → Notification → Code Created
unfolding queued_up
enqueue_at (some _) n = return (ok (n, false))
enqueue_at none n = put (item_of n) (queued_up n)

persisted : Notification → Err → Code Created
unfolding enqueue_at
persisted n (err e) = return (err (wrapped "persist notification" e))
persisted n (ok _) = enqueue_at n.scheduled_at n

persist : Notification → Code Created
unfolding persisted
persist n = write (Write.create n) (persisted n)

looked_up : Notification → Result Notification → Code Created
unfolding persist
looked_up n (ok existing) = return (ok (existing, true))
looked_up n (err e) =
    if errors_is e not_found then persist n else return (err (wrapped "idempotency lookup" e))

find_or_persist : String → Notification → Code Created
unfolding looked_up
find_or_persist key n = if str_eq key "" then persist n else get_by_key key (looked_up n)

-- `Create`
unfoldable pub create : CreateNotificationRequest → String → String → Time → Code Created
unfolding find_or_persist
create req key id now = elim (validate req) [
  | err e ↦ return (err e)
  | ok _ ↦ find_or_persist key (build_notification req key none id now)
]

cancel_in : Status → String → Code Err
cancel_in cancelled id = return (err (sentinel already_cancelled))
cancel_in processing id = return (err (sentinel not_cancellable))
cancel_in sent id = return (err (sentinel not_cancellable))
cancel_in _ id = write (Write.cancel id) return

cancel_found : String → Result Notification → Code Err
unfolding cancel_in
cancel_found id (err e) = return (err e)
cancel_found id (ok n) = cancel_in n.status id

-- `Cancel`
unfoldable pub cancel : String → Code Err
unfolding cancel_found
cancel id = get id (cancel_found id)

module _ (backoff : List Duration) (error_text : Error → String) where
  -- `w.onFailed(n.Channel)` after `handleFailure`.
  counted_failure : Notification → Err → Code (Unit {0})
  counted_failure n _ = measure (on_failed n.channel) (return tt)

  retry_after : Option Duration → Notification → Error → Code (Unit {0})
  unfolding counted_failure
  retry_after none n e = panic
  retry_after (some d) n e = clock λ t.
      write (Write.schedule_retry n.id (n.retry_count + 1) (t.0 +ℤ d) (error_text e))
        (counted_failure n)

  handle_failure : Notification → Error → Code (Unit {0})
  unfolding retry_after
  handle_failure n e =
      if leb n.max_retries n.retry_count
      then write (Write.mark_failed n.id (error_text e)) (counted_failure n)
      else retry_after (delay backoff n.retry_count) n e

  recorded : Notification → Duration → Err → Code (Unit {0})
  recorded n elapsed (err e) = return tt
  recorded n elapsed (ok _) =
      go (spawned n.batch_id) (measure (on_sent n.channel elapsed) (return tt))

  answered : Notification → Result SendResponse → Code (Unit {0})
  unfolding handle_failure recorded
  answered n (err e) = handle_failure n e
  answered n (ok resp) =
      clock λ t. write (Write.mark_sent n.id resp.message_id t.0) (recorded n t.1)

  granted : Notification → Err → Code (Unit {0})
  unfolding answered
  granted n (err e) = return tt
  granted n (ok _) = send n (answered n)

  marked : Notification → Err → Code (Unit {0})
  unfolding granted
  marked n (err e) = return tt
  marked n (ok _) = wait n.channel (granted n)

  unless_cancelled : Bool → Notification → Code (Unit {0})
  unfolding marked
  unless_cancelled true n = return tt
  unless_cancelled false n = write (Write.update_status n.id processing) (marked n)

  fetched : Result Notification → Code (Unit {0})
  unfolding unless_cancelled
  fetched (err e) = return tt
  fetched (ok n) = unless_cancelled (is_cancelled n.status) n

  -- `process`
  unfoldable pub process : Item → Code (Unit {0})
  unfolding fetched
  process item = get item.notification_id fetched

-- The goroutine that counts a batch.
unfoldable pub count_batch : String → Code (Unit {0})
count_batch batch_id = write (Write.update_batch_counts batch_id) (λ r. return tt)

-- A round of a tick, or of the loop of `CreateBatch`, given what is left to do after it.
unfoldable pub requeued : {A : Type 0} → Notification → Code A → Err → Code A
requeued n rest (err e) = rest
requeued n rest (ok _) = write (Write.update_status n.id queued) (λ r. rest)

unfoldable pub requeue_all : List Notification → Code (Unit {0})
unfolding requeued
requeue_all [] = return tt
requeue_all (n ∷ ns) = put (item_of n) (requeued n (requeue_all ns))

requeue_found : Result (List Notification) → Code (Unit {0})
unfolding requeue_all
requeue_found (err e) = return tt
requeue_found (ok ns) = requeue_all ns

-- `RetryWorker.poll`
unfoldable pub poll_retries : Code (Unit {0})
unfolding requeue_found
poll_retries = find_retries requeue_found

-- `SchedulerWorker.poll`
unfoldable pub poll_scheduled : Code (Unit {0})
unfolding requeue_found
poll_scheduled = find_scheduled requeue_found
