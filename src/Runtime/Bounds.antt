-- ===== src/Runtime/Bounds.antt =====
-- How many requests a call makes at most.
use event_driven_arch.Common.{ℕ, zero, suc, List}
use event_driven_arch.Domain.Errors.{Err, Result}
use event_driven_arch.Domain.Entities.{Time, Duration, Notification, Batch}
use event_driven_arch.Worker.{SendResponse}
use event_driven_arch.Runtime.{
  Code, return, panic, write, write_batch, get, get_by_key, find_retries, find_scheduled, put, wait,
  send, clock, measure, go,
}

-- The code may put items on the queue.
abbrev pub Any : Type 0
Any = Unit {0}

-- Whatever the answers are, the call returns after at most so many requests, and does not panic of
-- its own; it puts an item on the queue only where `P` holds, and asks the limiter for a token only
-- where it does not.
abbrev pub Within : {A : Type 0} → Type 0 → ℕ → Code A → Type 0
Within P most (return a) = Unit {0}
Within P most panic = ⊥
Within P zero (write x k) = ⊥
Within P (suc n) (write x k) = (r : Err) → Within P n (k r)
Within P zero (write_batch id ns k) = ⊥
Within P (suc n) (write_batch id ns k) = (r : Result Batch) → Within P n (k r)
Within P zero (get id k) = ⊥
Within P (suc n) (get id k) = (r : Result Notification) → Within P n (k r)
Within P zero (get_by_key key k) = ⊥
Within P (suc n) (get_by_key key k) = (r : Result Notification) → Within P n (k r)
Within P zero (find_retries k) = ⊥
Within P (suc n) (find_retries k) = (r : Result (List Notification)) → Within P n (k r)
Within P zero (find_scheduled k) = ⊥
Within P (suc n) (find_scheduled k) = (r : Result (List Notification)) → Within P n (k r)
Within P zero (put item k) = ⊥
Within P (suc n) (put item k) = P × ((r : Err) → Within P n (k r))
Within P zero (wait channel k) = ⊥
Within P (suc n) (wait channel k) = ¬ P × ((r : Err) → Within P n (k r))
Within P zero (send m k) = ⊥
Within P (suc n) (send m k) = (r : Result SendResponse) → Within P n (k r)
Within P zero (clock k) = ⊥
Within P (suc n) (clock k) = (t : Time × Duration) → Within P n (k t)
Within P zero (measure m k) = ⊥
Within P (suc n) (measure m k) = Within P n k
Within P zero (go batches k) = ⊥
Within P (suc n) (go batches k) = Within P n k
