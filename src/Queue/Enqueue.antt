-- ===== src/Queue/Enqueue.antt =====
-- What `Enqueue` promises: when it accepts an item, where the item goes, and what a refusal is.
use event_driven_arch.Common.{
  ◌<◌, ◌≡◌, ◌≢◌, ◌↔◌, true, false, str_eq, ◌⊎◌, List, [], ◌∷◌, ◌++◌, length, arith, eq_iff, ok, err,
}
use event_driven_arch.Domain.Errors.{Err, Error, sentinel, unknown_priority, queue_full}
use event_driven_arch.Domain.Entities.{Priority, priority_high, priority_normal, priority_low}
use event_driven_arch.Domain.Validation.{IsPriority}
use event_driven_arch.Queue.{Item, PriorityQueue, Lane, high, normal, low, lane, enqueue}
use event_driven_arch.Queue.Buffered.{Chan, try_send}

-- The priority that the items of a lane have.
abbrev pub label : Lane → Priority
label high = priority_high
label normal = priority_normal
label low = priority_low

abbrev pub HasRoom : Chan Item → Type 0
HasRoom c = length c.waiting < c.capacity

-- The lane that an item belongs to has room.
abbrev IsAdmissible : Item → PriorityQueue → Type 0
IsAdmissible item q =
    ((item.priority ≡ priority_high) × HasRoom q.high)
    ⊎ ((item.priority ≡ priority_normal) × HasRoom q.normal)
    ⊎ ((item.priority ≡ priority_low) × HasRoom q.low)

-- What the three tests of the switch tell of a priority.
Priority-split :
    (p : Priority)
    → ((p ≡ priority_high)
        × (p ≢ priority_normal)
        × (p ≢ priority_low)
        × (str_eq p priority_high ≡ true))
      ⊎ ((p ≢ priority_high)
          × (p ≡ priority_normal)
          × (p ≢ priority_low)
          × (str_eq p priority_high ≡ false)
          × (str_eq p priority_normal ≡ true))
      ⊎ ((p ≢ priority_high)
          × (p ≢ priority_normal)
          × (p ≡ priority_low)
          × (str_eq p priority_high ≡ false)
          × (str_eq p priority_normal ≡ false)
          × (str_eq p priority_low ≡ true))
      ⊎ ((p ≢ priority_high)
          × (p ≢ priority_normal)
          × (p ≢ priority_low)
          × (str_eq p priority_high ≡ false)
          × (str_eq p priority_normal ≡ false)
          × (str_eq p priority_low ≡ false))
Priority-split p = ground (
  arith,
  eq_iff p priority_high,
  eq_iff p priority_normal,
  eq_iff p priority_low,
  eq_iff priority_high priority_normal,
  eq_iff priority_high priority_low,
  eq_iff priority_normal priority_low,
)

-- `Enqueue` returns nil exactly when the item has one of the three priorities and the channel of
-- that priority is not full.
enqueue-ok_iff :
    (item : Item) (q : PriorityQueue) → ((enqueue item q).0 ≡ ok tt) ↔ IsAdmissible item q
unfolding enqueue try_send
enqueue-ok_iff item q = ground (arith, Priority-split item.priority)

-- What an accepted item does to the items that wait in a lane.
abbrev pub Appended : Lane → Item → Err → List Item → List Item → Type 0
Appended l item (ok _) before after =
    ((item.priority ≡ label l) × (after ≡ before ++ item ∷ []))
    ⊎ (¬ (item.priority ≡ label l) × (after ≡ before))
Appended l item (err _) before after = after ≡ before

pub enqueue-Appended :
    (l : Lane) (item : Item) (q : PriorityQueue)
    → let (result, q') = enqueue item q in
      Appended l item result (lane l q).waiting (lane l q').waiting
unfolding enqueue try_send
enqueue-Appended l item q = ground (arith, Priority-split item.priority)

-- A refused item leaves the queue as it was, and the error is `ErrQueueFull` for a known priority.
pub enqueue-err :
    (item : Item) (q : PriorityQueue) (e : Error)
    → (enqueue item q).0 ≡ err e
    → ((enqueue item q).1 ≡ q)
      × ((IsPriority item.priority × (e ≡ sentinel queue_full))
          ⊎ (¬ IsPriority item.priority × (e ≡ unknown_priority item.priority)))
unfolding enqueue try_send
enqueue-err item q e h = ground (arith, Priority-split item.priority)
