-- ===== src/Runtime/Calls/Safe.antt =====
-- The requests that each call makes, against what it may rely on when it makes them.
use event_driven_arch.Common.{
  ◌<◌, String, inl, inr, refl, Bool, true, false, List, [], ◌∷◌, Option, none, some, arith, ok, err,
  leb, str_eq, Bool-cases, Outcome-cases,
}
use event_driven_arch.Domain.Errors.{Error, Err, Result, errors_is, not_found}
use event_driven_arch.Domain.Entities.{
  Time, Duration, Status, processing, sent, cancelled, Notification, CreateNotificationRequest,
  validate,
}
use event_driven_arch.Domain.Validation.{IsDeliverable, validate-ok_iff}
use event_driven_arch.Queue.{Item}
use event_driven_arch.Service.{build_notification}
use event_driven_arch.Service.Create.{built_lem}
use event_driven_arch.Worker.{is_cancelled}
use event_driven_arch.Runtime.{Code}
use event_driven_arch.Runtime.Facts.{Fact, limit, Safe, In, IsNew}
use event_driven_arch.Runtime.Calls.{
  marked_queued, queued_up, enqueue_at, persisted, persist, looked_up, find_or_persist, create,
  cancel_in, cancel_found, cancel, counted_failure, retry_after, handle_failure, recorded, answered,
  granted, marked, unless_cancelled, fetched, process, count_batch, requeued, requeue_all,
  requeue_found, poll_retries, poll_scheduled,
}

marked_queued-Safe :
    (n : Notification) (facts : List Fact) (r : Err) → Safe facts (marked_queued n r)
unfolding marked_queued
marked_queued-Safe n facts (err e) = tt
marked_queued-Safe n facts (ok _) = tt

queued_up-Safe : (n : Notification) (facts : List Fact) (r : Err) → Safe facts (queued_up n r)
unfolding queued_up
queued_up-Safe n facts (err e) = tt
queued_up-Safe n facts (ok _) = (λ q. cc, λ r. marked_queued-Safe n facts r)

enqueue_at-Safe :
    (at : Option Time) (n : Notification) (facts : List Fact) → Safe facts (enqueue_at at n)
unfolding enqueue_at
enqueue_at-Safe (some t) n facts = tt
enqueue_at-Safe none n facts = λ r. queued_up-Safe n facts r

persisted-Safe : (n : Notification) (facts : List Fact) (r : Err) → Safe facts (persisted n r)
unfolding persisted
persisted-Safe n facts (err e) = tt
persisted-Safe n facts (ok _) = enqueue_at-Safe n.scheduled_at n facts

persist-Safe : (n : Notification) (facts : List Fact) → IsNew n → Safe facts (persist n)
unfolding persist
persist-Safe n facts new = (new, λ r. persisted-Safe n facts r)

looked_up-Safe :
    (n : Notification) (facts : List Fact) (r : Result Notification)
    → IsNew n
    → Safe facts (looked_up n r)
unfolding looked_up
looked_up-Safe n facts (ok m) new = tt
looked_up-Safe n facts (err e) new = elim (Bool-cases (errors_is e not_found)) [
  | inl missing ↦ rw (missing, looked_up) (persist-Safe n facts new)
  | inr fault ↦ rw (fault, looked_up) tt
]

find_or_persist-Safe :
    (key : String) (n : Notification) (facts : List Fact)
    → IsNew n
    → Safe facts (find_or_persist key n)
unfolding find_or_persist
find_or_persist-Safe key n facts new = elim (Bool-cases (str_eq key "")) [
  | inl empty ↦ rw (empty, find_or_persist) (persist-Safe n facts new)
  | inr given ↦ rw (given, find_or_persist) (λ r. looked_up-Safe n facts r new)
]

built-IsNew :
    (req : CreateNotificationRequest) (key id : String) (now : Time)
    → IsDeliverable req
    → IsNew (build_notification req key none id now)
unfolding build_notification
built-IsNew req key id now fit =
    let (within, unsent) = built_lem req key none id now in
    (
      within,
      unsent,
      (fit.channel_known, fit.priority_known, fit.addressed, fit.worded, fit.short_enough),
    )

pub create-Safe :
    (req : CreateNotificationRequest) (key id : String) (now : Time)
    → Safe [] (create req key id now)
unfolding create
create-Safe req key id now = elim (Outcome-cases (validate req)) [
  | inl (_, good) ↦
      rw (good, create)
        (find_or_persist-Safe key (build_notification req key none id now) []
          (built-IsNew req key id now ((validate-ok_iff req).0 good)))
  | inr (e, bad) ↦ rw (bad, create) tt
]

cancel_in-Safe :
    (status : Status) (id : String) (facts : List Fact) → Safe facts (cancel_in status id)
unfolding cancel_in
cancel_in-Safe cancelled id facts = tt
cancel_in-Safe processing id facts = tt
cancel_in-Safe sent id facts = tt
cancel_in-Safe _ id facts = (tt, λ r. tt)

pub cancel-Safe : (id : String) → Safe [] (cancel id)
unfolding cancel cancel_found
cancel-Safe id = (λ n. cancel_in-Safe n.status id _, λ e. tt)

module _ (backoff : List Duration) (error_text : Error → String) where
  retry_after-Safe :
      (d : Option Duration) (n : Notification) (e : Error) (facts : List Fact)
      → n.retry_count < n.max_retries
      → In (limit n.id n.max_retries) facts
      → Safe facts (retry_after backoff error_text d n e)
  unfolding retry_after counted_failure
  retry_after-Safe none n e facts left known = tt
  retry_after-Safe (some d) n e facts left known =
      λ t. ((n.max_retries, omega arith, known), λ r. tt)

  handle_failure-Safe :
      (n : Notification) (e : Error) (facts : List Fact)
      → In (limit n.id n.max_retries) facts
      → Safe facts (handle_failure backoff error_text n e)
  unfolding handle_failure counted_failure
  handle_failure-Safe n e facts known = elim (Bool-cases (leb n.max_retries n.retry_count)) [
    | inl over ↦ rw (over, handle_failure) (tt, λ r. tt)
    | inr left ↦ rw (left, handle_failure) (retry_after-Safe _ n e facts (ground arith) known)
  ]

  recorded-Safe :
      (n : Notification) (elapsed : Duration) (facts : List Fact) (r : Err)
      → Safe facts (recorded backoff error_text n elapsed r)
  unfolding recorded
  recorded-Safe n elapsed facts (err e) = tt
  recorded-Safe n elapsed facts (ok _) = tt

  granted-Safe :
      (n : Notification) (facts : List Fact) (r : Err)
      → In (limit n.id n.max_retries) facts
      → Safe facts (granted backoff error_text n r)
  unfolding granted answered
  granted-Safe n facts (err e) known = tt
  granted-Safe n facts (ok _) known =
      (λ resp t. (inl refl, λ r. recorded-Safe n t.1 _ r), λ e. handle_failure-Safe n e facts known)

  marked-Safe :
      (n : Notification) (facts : List Fact) (r : Err)
      → In (limit n.id n.max_retries) facts
      → Safe facts (marked backoff error_text n r)
  unfolding marked
  marked-Safe n facts (err e) known = tt
  marked-Safe n facts (ok _) known = λ r. granted-Safe n facts r known

  unless_cancelled-Safe :
      (b : Bool) (n : Notification) (facts : List Fact)
      → In (limit n.id n.max_retries) facts
      → Safe facts (unless_cancelled backoff error_text b n)
  unfolding unless_cancelled
  unless_cancelled-Safe true n facts known = tt
  unless_cancelled-Safe false n facts known = (λ q. cc, λ r. marked-Safe n facts r known)

  pub process-Safe : (item : Item) → Safe [] (process backoff error_text item)
  unfolding process fetched
  process-Safe item = (λ n. unless_cancelled-Safe (is_cancelled n.status) n _ (inl refl), λ e. tt)

pub count_batch-Safe : (batch_id : String) → Safe [] (count_batch batch_id)
unfolding count_batch
count_batch-Safe batch_id = (tt, λ r. tt)

pub requeued-Safe :
    {A : Type 0} (n : Notification) (rest : Code A) (r : Err)
    → Safe [] rest
    → Safe [] (requeued n rest r)
unfolding requeued
requeued-Safe n rest (err e) safe = safe
requeued-Safe n rest (ok _) safe = (λ q. cc, λ r. safe)

requeue_all-Safe : (ns : List Notification) → Safe [] (requeue_all ns)
unfolding requeue_all
requeue_all-Safe [] = tt
requeue_all-Safe (n ∷ ns) = λ r. requeued-Safe n (requeue_all ns) r (requeue_all-Safe ns)

requeue_found-Safe : (r : Result (List Notification)) → Safe [] (requeue_found r)
unfolding requeue_found
requeue_found-Safe (ok ns) = requeue_all-Safe ns
requeue_found-Safe (err e) = tt

pub poll_retries-Safe : Safe [] poll_retries
unfolding poll_retries
poll_retries-Safe = λ r. requeue_found-Safe r

pub poll_scheduled-Safe : Safe [] poll_scheduled
unfolding poll_scheduled
poll_scheduled-Safe = λ r. requeue_found-Safe r
