-- ===== src/Runtime/Calls/Batch/Safety.antt =====
-- The requests that `CreateBatch` makes, against what it may rely on when it makes them.
use event_driven_arch.Common.{
  ℕ, ◌+◌, String, ◌≢◌, inl, inr, List, [], ◌∷◌, Option, none, some, arith, ok, err, ltb, ◌==◌,
  length, All, Bool-cases,
}
use event_driven_arch.Domain.Errors.{Result}
use event_driven_arch.Domain.Entities.{Time, sent, Notification, Batch, CreateNotificationRequest}
use event_driven_arch.Domain.Validation.{IsDeliverable}
use event_driven_arch.Service.{initial_status}
use event_driven_arch.Service.Batches.{IsBuilt, AllBuilt, BuildSpec, build_all-BuildSpec}
use event_driven_arch.Runtime.{Code, return}
use event_driven_arch.Runtime.Facts.{Safe, IsNew}
use event_driven_arch.Runtime.Calls.Safe.{requeued-Safe}
use event_driven_arch.Runtime.Calls.Batch.{
  enqueue_unscheduled, enqueue_all, persisted_batch, built_batch, create_batch,
}

unsent : (at : Option Time) → initial_status at ≢ sent
unsent none = λ q. cc
unsent (some t) = λ q. cc

IsBuilt-IsNew :
    (batch_id : String) (now : Time) (id : String) (req : CreateNotificationRequest)
    (n : Notification)
    → IsDeliverable req
    → IsBuilt batch_id now id req n
    → IsNew n
IsBuilt-IsNew batch_id now id req n fit built = (
  let count = built.unattempted in let most = built.limited in omega arith,
  rw built.status (unsent req.scheduled_at),
  (
    rw built.channel fit.channel_known,
    rw built.priority fit.priority_known,
    rw built.recipient fit.addressed,
    rw built.content fit.worded,
    rw built.content fit.short_enough,
  ),
)

AllBuilt-IsNew :
    (batch_id : String) (now : Time) (ids : ℕ → String) (i : ℕ)
    (reqs : List CreateNotificationRequest) (ns : List Notification)
    → AllBuilt batch_id now ids i reqs ns
    → All IsNew ns
AllBuilt-IsNew batch_id now ids i [] [] h = tt
AllBuilt-IsNew batch_id now ids i (req ∷ reqs) (n ∷ ns) (fit, built, rest) = (
  IsBuilt-IsNew batch_id now (ids i) req n fit built,
  AllBuilt-IsNew batch_id now ids (i + 1) reqs ns rest,
)
AllBuilt-IsNew batch_id now ids i [] (n ∷ ns) h = absurd h
AllBuilt-IsNew batch_id now ids i (req ∷ reqs) [] h = absurd h

enqueue_unscheduled-Safe :
    {A : Type 0} (at : Option Time) (n : Notification) (rest : Code A)
    → Safe [] rest
    → Safe [] (enqueue_unscheduled at n rest)
unfolding enqueue_unscheduled
enqueue_unscheduled-Safe (some t) n rest safe = safe
enqueue_unscheduled-Safe none n rest safe = λ r. requeued-Safe n rest r safe

enqueue_all-Safe :
    {A : Type 0} (ns : List Notification) (rest : Code A)
    → Safe [] rest
    → Safe [] (enqueue_all ns rest)
unfolding enqueue_all
enqueue_all-Safe [] rest safe = safe
enqueue_all-Safe (n ∷ ns) rest safe =
    enqueue_unscheduled-Safe n.scheduled_at n (enqueue_all ns rest) (enqueue_all-Safe ns rest safe)

persisted_batch-Safe : (ns : List Notification) (r : Result Batch) → Safe [] (persisted_batch ns r)
unfolding persisted_batch
persisted_batch-Safe ns (err e) = tt
persisted_batch-Safe ns (ok batch) = enqueue_all-Safe ns (return (ok batch)) tt

built_batch-Safe :
    (batch_id : String) (now : Time) (ids : ℕ → String) (reqs : List CreateNotificationRequest)
    (r : Result (List Notification))
    → BuildSpec batch_id now ids 0 reqs r
    → Safe [] (built_batch batch_id r)
unfolding built_batch
built_batch-Safe batch_id now ids reqs (err e) h = tt
built_batch-Safe batch_id now ids reqs (ok ns) h =
    (AllBuilt-IsNew batch_id now ids 0 reqs ns h, λ r. persisted_batch-Safe ns r)

pub create_batch-Safe :
    (reqs : List CreateNotificationRequest) (batch_id : String) (now : Time) (ids : ℕ → String)
    (clock : ℕ → Time)
    → Safe [] (create_batch reqs batch_id now ids clock)
unfolding create_batch
create_batch-Safe reqs batch_id now ids clock = elim (Bool-cases (length reqs == 0)) [
  | inl empty ↦ rw (empty, create_batch) tt
  | inr some_there ↦ elim (Bool-cases (ltb 1000 (length reqs))) [
    | inl large ↦ rw (some_there, large, create_batch) tt
    | inr fits ↦
        rw (some_there, fits, create_batch)
          (built_batch-Safe batch_id now ids reqs _
            (build_all-BuildSpec batch_id now ids clock 0 reqs))
  ]
]
