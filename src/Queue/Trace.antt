-- ===== src/Queue/Trace.antt =====
-- Any interleaving of any number of goroutines on one queue, select by select.
pub mod Bounds
use event_driven_arch.Common.{
  ◌≡◌, Bool, List, [], ◌∷◌, ◌++◌, append_assoc, append-nil, Option, none, some, arith, ok, err, ap,
  ◌∙◌, refl, true, false, str_eq, eq_iff,
}
use event_driven_arch.Domain.Errors.{Err}
use event_driven_arch.Queue.{
  Item, PriorityQueue, Lane, high, normal, low, lane, Case, from, ctx_done, Dequeued, enqueue,
  poll_high, select,
}
use event_driven_arch.Queue.Buffered.{try_recv}
use event_driven_arch.Queue.Enqueue.{label, enqueue-Appended}

-- One select statement of some goroutine.
pub data Op : Type 0 where
  put : Item → Op
  poll : Op
  wait : Case → Bool → Op

-- A select that is not ready leaves the queue alone: its goroutine goes on waiting.
abbrev after_poll : PriorityQueue → Option (Item × PriorityQueue) → PriorityQueue
after_poll q none = q
after_poll q (some (_, q')) = q'

abbrev after_wait : PriorityQueue → Option (Dequeued × PriorityQueue) → PriorityQueue
after_wait q none = q
after_wait q (some (_, q')) = q'

pub step : Op → PriorityQueue → PriorityQueue
step (put item) q = (enqueue item q).1
step poll q = after_poll q (poll_high q)
step (wait c done) q = after_wait q (select c done q)

pub run : List Op → PriorityQueue → PriorityQueue
run [] q = q
run (op ∷ ops) q = run ops (step op q)

abbrev same : Lane → Lane → Bool
same high high = true
same normal normal = true
same low low = true
same _ _ = false

abbrev only_if : Bool → List Item → List Item
only_if true items = items
only_if false items = []

abbrev accepted_by : Err → Item → List Item
accepted_by (ok _) item = item ∷ []
accepted_by (err _) item = []

abbrev polled : Option (Item × PriorityQueue) → List Item
polled none = []
polled (some (item, _)) = item ∷ []

abbrev returned : Option (Dequeued × PriorityQueue) → List Item
returned (some (some item, _)) = item ∷ []
returned _ = []

-- The item of the lane's priority that `Enqueue` returned nil for.
pub accepted_at : Lane → Op → PriorityQueue → List Item
accepted_at l (put item) q =
    only_if (str_eq item.priority (label l)) (accepted_by (enqueue item q).0 item)
accepted_at l poll q = []
accepted_at l (wait c done) q = []

-- The item that a receive from the lane returned.
pub delivered_at : Lane → Op → PriorityQueue → List Item
delivered_at l (put item) q = []
delivered_at l poll q = only_if (same l high) (polled (poll_high q))
delivered_at l (wait (from k) done) q = only_if (same l k) (returned (select (from k) done q))
delivered_at l (wait ctx_done done) q = []

-- All of them, in the order of the trace.
pub accepted : Lane → List Op → PriorityQueue → List Item
accepted l [] q = []
accepted l (op ∷ ops) q = accepted_at l op q ++ accepted l ops (step op q)

pub delivered : Lane → List Op → PriorityQueue → List Item
delivered l [] q = []
delivered l (op ∷ ops) q = delivered_at l op q ++ delivered l ops (step op q)

put-balance :
    (l : Lane) (item : Item) (q : PriorityQueue)
    → (lane l q).waiting ++ accepted_at l (put item) q ≡ (lane l (enqueue item q).1).waiting
unfolding accepted_at
put-balance l item q = ground (
  arith,
  enqueue-Appended l item q,
  eq_iff item.priority (label l),
  append-nil (lane l q).waiting,
)

poll-balance :
    (l : Lane) (q : PriorityQueue)
    → (lane l q).waiting ≡ delivered_at l poll q ++ (lane l (step poll q)).waiting
unfolding delivered_at step poll_high try_recv
poll-balance high q = ground arith
poll-balance normal q = ground arith
poll-balance low q = ground arith

wait-balance :
    (l : Lane) (c : Case) (done : Bool) (q : PriorityQueue)
    → (lane l q).waiting ≡ delivered_at l (wait c done) q ++ (lane l (step (wait c done) q)).waiting
unfolding delivered_at step select try_recv
wait-balance high (from high) done q = ground arith
wait-balance normal (from high) done q = ground arith
wait-balance low (from high) done q = ground arith
wait-balance high (from normal) done q = ground arith
wait-balance normal (from normal) done q = ground arith
wait-balance low (from normal) done q = ground arith
wait-balance high (from low) done q = ground arith
wait-balance normal (from low) done q = ground arith
wait-balance low (from low) done q = ground arith
wait-balance high ctx_done done q = ground arith
wait-balance normal ctx_done done q = ground arith
wait-balance low ctx_done done q = ground arith

step-balance :
    (l : Lane) (op : Op) (q : PriorityQueue)
    → (lane l q).waiting ++ accepted_at l op q ≡ delivered_at l op q ++ (lane l (step op q)).waiting
unfolding accepted_at step delivered_at
step-balance l (put item) q = unfold accepted_at step delivered_at in put-balance l item q
step-balance l poll q = append-nil (lane l q).waiting ∙ poll-balance l q
step-balance l (wait c done) q = append-nil (lane l q).waiting ∙ wait-balance l c done q

-- Over any interleaving, each lane hands out its items in the order in which they were accepted,
-- none lost and none twice: what waited at the start and was accepted since is what was delivered
-- followed by what still waits.
pub run-fifo :
    (l : Lane) (ops : List Op) (q : PriorityQueue)
    → (lane l q).waiting ++ accepted l ops q ≡ delivered l ops q ++ (lane l (run ops q)).waiting
unfolding accepted delivered run
run-fifo l [] q = append-nil (lane l q).waiting
run-fifo l (op ∷ ops) q = simp (← append_assoc) (
    rw step-balance
      (simp append_assoc (ap (◌++◌ (delivered_at l op q)) (run-fifo l ops (step op q)))))

-- The equations of `run` over a put, for callers to which it is shut.
pub run-nil : (q : PriorityQueue) → run [] q ≡ q
unfolding run
run-nil q = refl

pub run-put :
    (item : Item) (ops : List Op) (q : PriorityQueue)
    → run (put item ∷ ops) q ≡ run ops (enqueue item q).1
unfolding run step
run-put item ops q = refl

pub run-poll :
    (q q' : PriorityQueue) (item : Item) → poll_high q ≡ some (item, q') → run (poll ∷ []) q ≡ q'
unfolding run step
run-poll q q' item taken = rw taken refl

pub run-wait :
    (c : Case) (done : Bool) (q q' : PriorityQueue) (item : Item)
    → select c done q ≡ some (some item, q')
    → run (wait c done ∷ []) q ≡ q'
unfolding run step
run-wait c done q q' item taken = rw taken refl

pub run-snoc :
    (ops : List Op) (op : Op) (q : PriorityQueue)
    → run (ops ++ op ∷ []) q ≡ run (op ∷ []) (run ops q)
unfolding run
run-snoc [] op q = refl
run-snoc (o ∷ ops) op q = run-snoc ops op (step o q)
