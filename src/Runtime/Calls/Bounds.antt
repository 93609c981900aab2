-- ===== src/Runtime/Calls/Bounds.antt =====
-- How many requests `Create`, `Cancel` and `process` make at most.
use event_driven_arch.Common.{
  ℕ, suc, ◌≢◌, String, Bool, true, false, List, [], Option, none, some, inl, inr, arith, ok, err,
  leb, str_eq, Bool-cases, Outcome-cases,
}
use event_driven_arch.Domain.Errors.{Error, Err, Result, errors_is, not_found}
use event_driven_arch.Domain.Entities.{
  Time, Duration, Status, Notification, CreateNotificationRequest, validate,
}
use event_driven_arch.Queue.{Item}
use event_driven_arch.Worker.{SendResponse, is_cancelled}
use event_driven_arch.Worker.Failure.{delay-total}
use event_driven_arch.Runtime.Bounds.{Any, Within}
use event_driven_arch.Runtime.Calls.{
  marked_queued, queued_up, enqueue_at, persisted, persist, looked_up, find_or_persist, create,
  cancel_in, cancel_found, cancel, counted_failure, retry_after, handle_failure, recorded, answered,
  granted, marked, unless_cancelled, fetched, process,
}

marked_queued-Within : (m : ℕ) (n : Notification) (r : Err) → Within Any m (marked_queued n r)
unfolding marked_queued
marked_queued-Within m n (err e) = tt
marked_queued-Within m n (ok _) = tt

queued_up-Within : (m : ℕ) (n : Notification) (r : Err) → Within Any (suc m) (queued_up n r)
unfolding queued_up
queued_up-Within m n (err e) = tt
queued_up-Within m n (ok _) = λ r. marked_queued-Within m n r

enqueue_at-Within :
    (m : ℕ) (at : Option Time) (n : Notification) → Within Any (suc (suc m)) (enqueue_at at n)
unfolding enqueue_at
enqueue_at-Within m (some t) n = tt
enqueue_at-Within m none n = (tt, λ r. queued_up-Within m n r)

persisted-Within : (m : ℕ) (n : Notification) (r : Err) → Within Any (suc (suc m)) (persisted n r)
unfolding persisted
persisted-Within m n (err e) = tt
persisted-Within m n (ok _) = enqueue_at-Within m n.scheduled_at n

persist-Within : (m : ℕ) (n : Notification) → Within Any (suc (suc (suc m))) (persist n)
unfolding persist
persist-Within m n = λ r. persisted-Within m n r

looked_up-Within : (n : Notification) (r : Result Notification) → Within Any 3 (looked_up n r)
unfolding looked_up
looked_up-Within n (ok existing) = tt
looked_up-Within n (err e) = elim (Bool-cases (errors_is e not_found)) [
  | inl missing ↦ rw (missing, looked_up) (persist-Within 0 n)
  | inr fault ↦ rw (fault, looked_up) tt
]

find_or_persist-Within : (key : String) (n : Notification) → Within Any 4 (find_or_persist key n)
unfolding find_or_persist
find_or_persist-Within key n = elim (Bool-cases (str_eq key "")) [
  | inl empty ↦ rw (empty, find_or_persist) (persist-Within 1 n)
  | inr given ↦ rw (given, find_or_persist) (λ r. looked_up-Within n r)
]

pub create-Within :
    (req : CreateNotificationRequest) (key id : String) (now : Time)
    → Within Any 4 (create req key id now)
unfolding create
create-Within req key id now = elim (Outcome-cases (validate req)) [
  | inl (_, good) ↦ rw (good, create) (find_or_persist-Within key _)
  | inr (e, bad) ↦ rw (bad, create) tt
]

cancel_in-Within : (status : Status) (id : String) → Within Any 1 (cancel_in status id)
unfolding cancel_in
cancel_in-Within status id = ground arith

pub cancel-Within : (id : String) → Within Any 2 (cancel id)
unfolding cancel cancel_found
cancel-Within id (ok n) = cancel_in-Within n.status id
cancel-Within id (err e) = tt

module _ (P : Type 0) (backoff : List Duration) (error_text : Error → String)
    (some_delay : backoff ≢ []) (quiet : ¬ P) where
  retry_after-Within :
      (d : Duration) (n : Notification) (e : Error)
      → Within P 4 (retry_after backoff error_text (some d) n e)
  unfolding retry_after counted_failure
  retry_after-Within d n e = λ t r. tt

  handle_failure-Within :
      (n : Notification) (e : Error) → Within P 4 (handle_failure backoff error_text n e)
  unfolding handle_failure counted_failure
  handle_failure-Within n e = elim (Bool-cases (leb n.max_retries n.retry_count)) [
    | inl over ↦ rw (over, handle_failure) (λ r. tt)
    | inr left ↦
        let (d, is) = delay-total backoff n.retry_count some_delay in
        rw (left, is, handle_failure) (retry_after-Within d n e)
  ]

  recorded-Within :
      (n : Notification) (elapsed : Duration) (r : Err)
      → Within P 2 (recorded backoff error_text n elapsed r)
  unfolding recorded
  recorded-Within n elapsed (err e) = tt
  recorded-Within n elapsed (ok _) = tt

  answered-Within :
      (n : Notification) (r : Result SendResponse) → Within P 4 (answered backoff error_text n r)
  unfolding answered
  answered-Within n (err e) = handle_failure-Within n e
  answered-Within n (ok resp) = λ t r. recorded-Within n t.1 r

  granted-Within : (n : Notification) (r : Err) → Within P 5 (granted backoff error_text n r)
  unfolding granted
  granted-Within n (err e) = tt
  granted-Within n (ok _) = λ r. answered-Within n r

  marked-Within : (n : Notification) (r : Err) → Within P 6 (marked backoff error_text n r)
  unfolding marked
  marked-Within n (err e) = tt
  marked-Within n (ok _) = (quiet, λ r. granted-Within n r)

  unless_cancelled-Within :
      (b : Bool) (n : Notification) → Within P 7 (unless_cancelled backoff error_text b n)
  unfolding unless_cancelled
  unless_cancelled-Within true n = tt
  unless_cancelled-Within false n = λ r. marked-Within n r

  pub process-Within : (item : Item) → Within P 8 (process backoff error_text item)
  unfolding process fetched
  process-Within item (ok n) = unless_cancelled-Within (is_cancelled n.status) n
  process-Within item (err e) = tt
