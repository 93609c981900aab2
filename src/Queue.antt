-- ===== src/Queue.antt =====
-- internal/queue: the three-lane priority queue of priority_queue.go and the items of item.go.
pub mod Buffered
pub mod Enqueue
pub mod Dequeue
pub mod Trace
use event_driven_arch.Common.{ℕ, String, Bool, Option, none, some, str_eq, ok, err, if◌then◌else◌}
use event_driven_arch.Domain.Errors.{Err, sentinel, unknown_priority, queue_full}
use event_driven_arch.Domain.Entities.{
  Channel, Priority, priority_high, priority_normal, priority_low,
}
use Buffered.{Chan, make, try_send, try_recv, depth}

pub record Item : Type 0 where
  pub notification_id : String
  pub channel : Channel
  pub priority : Priority

pub record PriorityQueue : Type 0 where
  pub high : Chan Item
  pub normal : Chan Item
  pub low : Chan Item

unfoldable pub new : PriorityQueue
unfolding make
new = record { high = make 1000; normal = make 5000; low = make 2000 }

-- The three channels of a queue.
pub data Lane : Type 0 where
  high normal low : Lane

abbrev pub lane : Lane → PriorityQueue → Chan Item
lane high q = q.high
lane normal q = q.normal
lane low q = q.low

abbrev set_lane : Lane → Chan Item → PriorityQueue → PriorityQueue
set_lane high c q = record q { high = c }
set_lane normal c q = record q { normal = c }
set_lane low c q = record q { low = c }

offered : Lane → Option (Chan Item) → PriorityQueue → Err × PriorityQueue
offered l none q = (err (sentinel queue_full), q)
offered l (some c) q = (ok tt, set_lane l c q)

-- `select { case lane <- item: return nil; default: return ErrQueueFull }`
offer : Lane → Item → PriorityQueue → Err × PriorityQueue
unfolding offered
offer l item q = offered l (try_send item (lane l q)) q

unfoldable pub enqueue : Item → PriorityQueue → Err × PriorityQueue
unfolding offer
enqueue item q =
    if str_eq item.priority priority_high
    then offer high item q
    else if str_eq item.priority priority_normal
    then offer normal item q
    else if str_eq item.priority priority_low
    then offer low item q
    else (err (unknown_priority item.priority), q)

-- The first `select` of `Dequeue`: `none` is its `default`.
unfoldable pub poll_high : PriorityQueue → Option (Item × PriorityQueue)
poll_high q = elim (try_recv q.high) [
  | none ↦ none
  | some (item, c) ↦ some (item, record q { high = c })
]

-- The cases of the second `select`, one of which the scheduler takes.
pub data Case : Type 0 where
  from : Lane → Case
  ctx_done : Case

-- The result of `Dequeue`: `some item` is `(item, true)`, `none` is `(Item{}, false)`.
abbrev pub Dequeued : Type 0
Dequeued = Option Item

received : Lane → Option (Item × Chan Item) → PriorityQueue → Option (Dequeued × PriorityQueue)
received l none q = none
received l (some (item, c)) q = some (some item, set_lane l c q)

-- The second `select` where it takes case `c`; `none` if that case is not ready. `done` tells
-- whether the context is cancelled.
unfoldable pub select : Case → Bool → PriorityQueue → Option (Dequeued × PriorityQueue)
unfolding received
select (from l) done q = received l (try_recv (lane l q)) q
select ctx_done done q = if done then some (none, q) else none

-- `Dequeue`. Between its two selects the other goroutines change the queue by `others`; `none`
-- means that the case `c` is not ready, so that the call does not take it.
unfoldable pub dequeue :
    (PriorityQueue → PriorityQueue)
    → Case
    → Bool
    → PriorityQueue
    → Option (Dequeued × PriorityQueue)
unfolding poll_high
dequeue others c done q = elim (poll_high q) [
  | some (item, q') ↦ some (some item, q')
  | none ↦ select c done (others q)
]

unfoldable pub depths : PriorityQueue → ℕ × ℕ × ℕ
depths q = (depth q.high, depth q.normal, depth q.low)
