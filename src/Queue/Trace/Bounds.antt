-- ===== src/Queue/Trace/Bounds.antt =====
-- The sizes of the channels, and what is in which.
use event_driven_arch.Common.{
  ℕ, ◌≤◌, ◌≡◌, List, [], ◌∷◌, ◌++◌, arith, eq_iff, length, length-append, All, Bool,
}
use event_driven_arch.Domain.Entities.{Priority, priority_high, priority_normal, priority_low}
use event_driven_arch.Queue.{
  Item, PriorityQueue, high, normal, low, Case, from, ctx_done, new, enqueue, poll_high, select,
  depths,
}
use event_driven_arch.Queue.Buffered.{Chan, try_send, try_recv, depth}
use event_driven_arch.Queue.Enqueue.{HasRoom}
use event_driven_arch.Queue.Trace.{Op, put, poll, wait, step, run}

-- A channel of capacity `n` that holds at most that many items, all of one priority.
pub record IsLane (n : ℕ) (p : Priority) (c : Chan Item) : Type 0 where
  pub sized : c.capacity ≡ n
  pub within : length c.waiting ≤ n
  pub labelled : All (λ i. i.priority ≡ p) c.waiting

pub record IsWellFormed (q : PriorityQueue) : Type 0 where
  pub high_lane : IsLane 1000 priority_high q.high
  pub normal_lane : IsLane 5000 priority_normal q.normal
  pub low_lane : IsLane 2000 priority_low q.low

All-concat :
    (p : Priority) (items : List Item) (item : Item)
    → All (λ i. i.priority ≡ p) items
    → item.priority ≡ p
    → All (λ i. i.priority ≡ p) (items ++ item ∷ [])
All-concat p [] item h e = (e, tt)
All-concat p (x ∷ items) item h e = (h.0, All-concat p items item h.1 e)

-- A send that finds room keeps a lane in order.
sent-IsLane :
    (n : ℕ) (p : Priority) (c : Chan Item) (item : Item)
    → IsLane n p c
    → HasRoom c
    → item.priority ≡ p
    → IsLane n p (record c { waiting = c.waiting ++ item ∷ [] })
sent-IsLane n p c item v room e =
    ground (arith, length-append c.waiting (item ∷ []), All-concat p c.waiting item v.labelled e)

enqueue-IsWellFormed :
    (item : Item) (q : PriorityQueue) → IsWellFormed q → IsWellFormed (enqueue item q).1
unfolding enqueue try_send
enqueue-IsWellFormed item q v = ground (
  arith,
  eq_iff item.priority priority_high,
  eq_iff item.priority priority_normal,
  eq_iff item.priority priority_low,
  sent-IsLane 1000 priority_high q.high item v.high_lane,
  sent-IsLane 5000 priority_normal q.normal item v.normal_lane,
  sent-IsLane 2000 priority_low q.low item v.low_lane,
)

poll-IsWellFormed : (q : PriorityQueue) → IsWellFormed q → IsWellFormed (step poll q)
unfolding step poll_high try_recv
poll-IsWellFormed q v = ground arith

wait-IsWellFormed :
    (c : Case) (done : Bool) (q : PriorityQueue)
    → IsWellFormed q
    → IsWellFormed (step (wait c done) q)
unfolding step select try_recv
wait-IsWellFormed (from high) done q v = ground arith
wait-IsWellFormed (from normal) done q v = ground arith
wait-IsWellFormed (from low) done q v = ground arith
wait-IsWellFormed ctx_done done q v = ground arith

step-IsWellFormed : (op : Op) (q : PriorityQueue) → IsWellFormed q → IsWellFormed (step op q)
unfolding step
step-IsWellFormed (put item) q v = enqueue-IsWellFormed item q v
step-IsWellFormed poll q v = unfold step in poll-IsWellFormed q v
step-IsWellFormed (wait c done) q v = unfold step in wait-IsWellFormed c done q v

pub run-IsWellFormed :
    (ops : List Op) (q : PriorityQueue) → IsWellFormed q → IsWellFormed (run ops q)
unfolding run
run-IsWellFormed [] q v = v
run-IsWellFormed (op ∷ ops) q v = run-IsWellFormed ops (step op q) (step-IsWellFormed op q v)

pub new-IsWellFormed : IsWellFormed new
unfolding new
new-IsWellFormed = ground arith

-- After any interleaving of calls on a new queue, at most 1000 high, 5000 normal and 2000 low items
-- wait, and each channel holds items of its own priority only.
pub run-new-IsWellFormed : (ops : List Op) → IsWellFormed (run ops new)
run-new-IsWellFormed ops = run-IsWellFormed ops new new-IsWellFormed

-- After any interleaving of calls on a new queue, the three depths that `Depths` reports are at most
-- 1000, 5000 and 2000.
pub depths_bounded :
    (ops : List Op) → let (h, n, l) = depths (run ops new) in (h ≤ 1000) × (n ≤ 5000) × (l ≤ 2000)
unfolding depths depth
depths_bounded ops = omega (arith, run-new-IsWellFormed ops)
