-- ===== src/Runtime/Calls/Batch/Bounds.antt =====
-- How many requests `CreateBatch` makes at most.
use event_driven_arch.Common.{
  ℕ, zero, suc, ◌+◌, ◌*◌, ◌≤◌, ◌≡◌, refl, String, List, [], ◌∷◌, Option, none, some, inl, inr,
  arith, ok, err, ltb, ◌==◌, length, Bool-cases,
}
use event_driven_arch.Domain.Errors.{Err, Result}
use event_driven_arch.Domain.Entities.{Time, Notification, Batch, CreateNotificationRequest}
use event_driven_arch.Service.Batches.{AllBuilt, BuildSpec, build_all-BuildSpec}
use event_driven_arch.Runtime.{Code, return}
use event_driven_arch.Runtime.Bounds.{Any, Within}
use event_driven_arch.Runtime.Calls.{requeued}
use event_driven_arch.Runtime.Calls.Batch.{
  enqueue_unscheduled, enqueue_all, persisted_batch, built_batch, create_batch,
}

requeued-Within :
    {A : Type 0} (m : ℕ) (n : Notification) (rest : Code A)
    → ((k : ℕ) → m ≤ k → Within Any k rest)
    → (k : ℕ) → m ≤ k
    → (r : Err) → Within Any (suc k) (requeued n rest r)
unfolding requeued
requeued-Within m n rest within k h (err e) = within (suc k) (omega arith)
requeued-Within m n rest within k h (ok _) = λ r. within k h

enqueue_unscheduled-Within :
    {A : Type 0} (m : ℕ) (at : Option Time) (n : Notification) (rest : Code A)
    → ((k : ℕ) → m ≤ k → Within Any k rest)
    → (k : ℕ) → 2 + m ≤ k
    → Within Any k (enqueue_unscheduled at n rest)
unfolding enqueue_unscheduled
enqueue_unscheduled-Within m (some t) n rest within k h = within k (omega arith)
enqueue_unscheduled-Within m none n rest within zero h = absurd (omega arith)
enqueue_unscheduled-Within m none n rest within (suc zero) h = absurd (omega arith)
enqueue_unscheduled-Within m none n rest within (suc (suc k)) h =
    (tt, λ r. requeued-Within m n rest within k (omega arith) r)

enqueue_all-Within :
    (ns : List Notification) (batch : Batch) (k : ℕ)
    → 2 * length ns ≤ k
    → Within Any k (enqueue_all {A = Result Batch} ns (return (ok batch)))
unfolding enqueue_all
enqueue_all-Within [] batch k h = tt
enqueue_all-Within (n ∷ ns) batch k h =
    enqueue_unscheduled-Within (2 * length ns) n.scheduled_at n _
      (λ j fits. enqueue_all-Within ns batch j fits) k (omega arith)

persisted_batch-Within :
    (ns : List Notification) (r : Result Batch) → Within Any (2 * length ns) (persisted_batch ns r)
unfolding persisted_batch
persisted_batch-Within ns (err e) = tt
persisted_batch-Within ns (ok batch) = enqueue_all-Within ns batch _ (omega arith)

AllBuilt-length :
    (batch_id : String) (now : Time) (ids : ℕ → String) (i : ℕ)
    (reqs : List CreateNotificationRequest) (ns : List Notification)
    → AllBuilt batch_id now ids i reqs ns
    → length ns ≡ length reqs
AllBuilt-length batch_id now ids i [] [] h = refl
AllBuilt-length batch_id now ids i (req ∷ reqs) (n ∷ ns) h =
    omega (arith, AllBuilt-length batch_id now ids (i + 1) reqs ns h.2)
AllBuilt-length batch_id now ids i [] (n ∷ ns) h = absurd h
AllBuilt-length batch_id now ids i (req ∷ reqs) [] h = absurd h

built_batch-Within :
    (batch_id : String) (now : Time) (ids : ℕ → String) (reqs : List CreateNotificationRequest)
    (r : Result (List Notification))
    → BuildSpec batch_id now ids 0 reqs r
    → Within Any (suc (2 * length reqs)) (built_batch batch_id r)
unfolding built_batch
built_batch-Within batch_id now ids reqs (err e) h = tt
built_batch-Within batch_id now ids reqs (ok ns) h =
    λ r. rw⁻¹ (AllBuilt-length batch_id now ids 0 reqs ns h) (persisted_batch-Within ns r)

pub create_batch-Within :
    (reqs : List CreateNotificationRequest) (batch_id : String) (now : Time) (ids : ℕ → String)
    (clock : ℕ → Time)
    → Within Any (suc (2 * length reqs)) (create_batch reqs batch_id now ids clock)
unfolding create_batch
create_batch-Within reqs batch_id now ids clock = elim (Bool-cases (length reqs == 0)) [
  | inl empty ↦ rw (empty, create_batch) tt
  | inr some_there ↦ elim (Bool-cases (ltb 1000 (length reqs))) [
    | inl large ↦ rw (some_there, large, create_batch) tt
    | inr fits ↦
        rw (some_there, fits, create_batch)
          (built_batch-Within batch_id now ids reqs _
            (build_all-BuildSpec batch_id now ids clock 0 reqs))
  ]
]
