-- ===== src/Tests/Queues.antt =====
-- The theorems on requests and on the queue, at concrete ones.
use event_driven_arch.Common.{
  ◌≡◌, ◌↔◌, ◌⊎◌, ◌++◌, true, false, List, [], ◌∷◌, some, none, ok, err, refl,
}
use event_driven_arch.Domain.Errors.{sentinel, queue_full}
use event_driven_arch.Domain.Entities.{validate}
use event_driven_arch.Domain.Validation.{IsDeliverable, validate-ok_iff}
use event_driven_arch.Queue.{
  Item, PriorityQueue, Lane, high, low, lane, from, enqueue, dequeue, select,
}
use event_driven_arch.Queue.Buffered.{try_send, try_recv}
use event_driven_arch.Queue.Dequeue.{Takes, dequeue_cases}
use event_driven_arch.Queue.Trace.{Op, put, poll, wait, run, accepted, delivered, run-fifo}
use event_driven_arch.Tests.{request, item, queue}

abbrev full : PriorityQueue
full = queue (item "high" ∷ item "high" ∷ []) (item "low" ∷ [])

abbrev one_low : PriorityQueue
one_low = queue [] (item "low" ∷ [])

validate-ok_iff_example : (validate request ≡ ok tt) ↔ IsDeliverable request
validate-ok_iff_example = validate-ok_iff request

full_refuses : (enqueue (item "high") full).0 ≡ err (sentinel queue_full)
unfolding enqueue try_send
full_refuses = refl

takes_low : dequeue (λ q. q) (from low) false one_low ≡ some (some (item "low"), queue [] [])
unfolding dequeue select try_recv
takes_low = refl

dequeue_cases_example :
    ((i : Item) × (some (item "low") ≡ some i) × Takes high one_low i (queue [] []))
    ⊎ ((one_low.high.waiting ≡ [])
        × (((l : Lane) × (i : Item) × (some (item "low") ≡ some i)
              × Takes l one_low i (queue [] []))
            ⊎ ((some (item "low") ≡ none) × (false ≡ true) × (queue [] [] ≡ one_low))))
dequeue_cases_example =
    dequeue_cases (λ q. q) (from low) false one_low (some (item "low")) (queue [] []) takes_low

abbrev trace : List Op
trace = put (item "low") ∷ put (item "high") ∷ poll ∷ wait (from low) false ∷ put (item "none") ∷ []

run-fifo_example :
    (lane low full).waiting ++ accepted low trace full
    ≡ delivered low trace full ++ (lane low (run trace full)).waiting
run-fifo_example = run-fifo low trace full
