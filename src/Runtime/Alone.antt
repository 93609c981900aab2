-- ===== src/Runtime/Alone.antt =====
-- A call whose requests are made in a row, against the call as one function.
use event_driven_arch.Common.{
  ℕ, Option-cases, ok, String, ◌≡◌, List, [], ◌∷◌, Option, none, some, arith, refl, Outcome-cases,
  inl, inr,
}
use event_driven_arch.Domain.Errors.{Result}
use event_driven_arch.Domain.Entities.{
  Time, Duration, queued, Notification, Batch, CreateNotificationRequest,
}
use event_driven_arch.Queue
use event_driven_arch.Queue.{Item}
use event_driven_arch.Repository.{NotificationRepository}
use event_driven_arch.Service
use event_driven_arch.Service.{System, item_of, build_all}
use event_driven_arch.Poll
use event_driven_arch.Worker
use event_driven_arch.Worker.{Surroundings, World}
use event_driven_arch.Runtime.{return, Shared, alone}
use event_driven_arch.Runtime.Calls.Batch.{enqueue_all, create_batch}
use event_driven_arch.Runtime.Calls.{
  create, cancel, process, requeued, requeue_all, poll_retries, poll_scheduled,
}

module _ {S : Type 0} where
  -- What the worker's model and the service's model see of the shared state.
  abbrev pub world : Shared S → World S
  world s = record { db = s.db; sends = s.sends; metrics = s.metrics; jobs = s.jobs }

  abbrev pub system : Shared S → System S
  system s = record { db = s.db; queue = s.queue }

  abbrev pub world_after : Option (Unit {0} × Shared S) → Option (World S)
  world_after none = none
  world_after (some (_, s)) = some (world s)

  abbrev pub result_after : {A : Type 0} → Option (A × Shared S) → Option (A × System S)
  result_after none = none
  result_after (some (a, s)) = some (a, system s)

module _ {S : Type 0} (repo : NotificationRepository S) (w : Surroundings) where
  cancel-alone :
      (id : String) (s : Shared S)
      → result_after (alone repo w (cancel id) s) ≡ some (Service.cancel repo id (system s))
  unfolding alone cancel Service.cancel
  cancel-alone id s = ground arith

  process-alone :
      (backoff : List Duration) (item : Item) (s : Shared S)
      → world_after (alone repo w (process backoff w.error_text item) s)
        ≡ Worker.process repo backoff w item (world s)
  unfolding alone process Worker.process
  process-alone backoff item s = ground arith

  create-alone :
      (req : CreateNotificationRequest) (key id : String) (now : Time) (s : Shared S)
      → result_after (alone repo w (create req key id now) s)
        ≡ some (Service.create repo req key id now (system s))
  unfolding alone create Service.create
  create-alone req key id now s = ground arith

  requeue_all-alone :
      (ns : List Notification) (s : Shared S)
      → result_after (alone repo w (requeue_all ns) s)
        ≡ some (tt, Poll.requeue_all repo ns (system s))
  unfolding alone requeue_all Poll.requeue_all
  requeue_all-alone [] s = refl
  requeue_all-alone (n ∷ ns) s =
      let t : Shared S = record s { queue = (Queue.enqueue (item_of n) s.queue).1 } in
      ground (
        arith,
        requeue_all-alone ns t,
        requeue_all-alone ns (record t { db = (repo.update_status n.id queued s.db).1 }),
      )

  poll_retries-alone :
      (s : Shared S)
      → result_after (alone repo w poll_retries s) ≡ some (tt, Poll.poll_retries repo (system s))
  unfolding alone poll_retries Poll.poll_retries
  poll_retries-alone s = elim (Outcome-cases (repo.find_due_retries s.db).0) [
    | inl (ns, found) ↦
        ground (arith, requeue_all-alone ns (record s { db = (repo.find_due_retries s.db).1 }))
    | inr (e, failed) ↦ ground arith
  ]

  poll_scheduled-alone :
      (s : Shared S)
      → result_after (alone repo w poll_scheduled s)
        ≡ some (tt, Poll.poll_scheduled repo (system s))
  unfolding alone poll_scheduled Poll.poll_scheduled
  poll_scheduled-alone s = elim (Outcome-cases (repo.find_due_scheduled s.db).0) [
    | inl (ns, found) ↦
        ground (arith, requeue_all-alone ns (record s { db = (repo.find_due_scheduled s.db).1 }))
    | inr (e, failed) ↦ ground arith
  ]

  enqueue_all-alone :
      (ns : List Notification) (batch : Batch) (s : Shared S)
      → result_after (alone repo w (enqueue_all {A = Result Batch} ns (return (ok batch))) s)
        ≡ some (ok batch, Service.enqueue_all repo ns (system s))
  unfolding alone enqueue_all requeued Service.enqueue Service.enqueue_all
  enqueue_all-alone [] batch s = refl
  enqueue_all-alone (n ∷ ns) batch s = elim (Option-cases n.scheduled_at) [
    | inr (at, later) ↦ ground (arith, enqueue_all-alone ns batch s)
    | inl now ↦
        let t : Shared S = record s { queue = (Queue.enqueue (item_of n) s.queue).1 } in
        ground (
          arith,
          enqueue_all-alone ns batch t,
          enqueue_all-alone ns batch (record t { db = (repo.update_status n.id queued s.db).1 }),
        )
  ]

  create_batch-alone :
      (requests : List CreateNotificationRequest) (batch_id : String) (now : Time)
      (ids : ℕ → String) (times : ℕ → Time) (s : Shared S)
      → result_after (alone repo w (create_batch requests batch_id now ids times) s)
        ≡ some (Service.create_batch repo requests batch_id now ids times (system s))
  unfolding alone create_batch Service.create_batch
  create_batch-alone requests batch_id now ids times s =
      elim (Outcome-cases (build_all batch_id now ids times 0 requests)) [
        | inr (e, bad) ↦ ground arith
        | inl (ns, built) ↦
            let created = repo.create_batch batch_id ns s.db in
            elim (Outcome-cases created.0) [
              | inr (e, failed) ↦ ground arith
              | inl (batch, stored) ↦
                  ground (arith, enqueue_all-alone ns batch (record s { db = created.1 }))
            ]
      ]

  -- Over any repository, limiter, provider and clock: if no other goroutine runs meanwhile, the
  -- requests of `Create`, `CreateBatch`, `Cancel`, `process` and the two ticks, made one after another,
  -- give the result and leave the state that the call as one function gives and leaves, a panic included.
  pub calls-alone :
      (s : Shared S)
      → ((req : CreateNotificationRequest) (key id : String) (now : Time)
          → result_after (alone repo w (create req key id now) s)
            ≡ some (Service.create repo req key id now (system s)))
        × ((requests : List CreateNotificationRequest) (batch_id : String) (now : Time)
              (ids : ℕ → String) (times : ℕ → Time)
            → result_after (alone repo w (create_batch requests batch_id now ids times) s)
              ≡ some (Service.create_batch repo requests batch_id now ids times (system s)))
        × ((id : String)
            → result_after (alone repo w (cancel id) s) ≡ some (Service.cancel repo id (system s)))
        × ((backoff : List Duration) (item : Item)
            → world_after (alone repo w (process backoff w.error_text item) s)
              ≡ Worker.process repo backoff w item (world s))
        × (result_after (alone repo w poll_retries s)
            ≡ some (tt, Poll.poll_retries repo (system s)))
        × (result_after (alone repo w poll_scheduled s)
            ≡ some (tt, Poll.poll_scheduled repo (system s)))
  calls-alone s = (
    λ req key id now. create-alone req key id now s,
    λ requests batch_id now ids times. create_batch-alone requests batch_id now ids times s,
    λ id. cancel-alone id s,
    λ backoff item. process-alone backoff item s,
    poll_retries-alone s,
    poll_scheduled-alone s,
  )
