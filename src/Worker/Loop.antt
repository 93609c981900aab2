-- ===== src/Worker/Loop.antt =====
-- internal/worker/worker.go: the loop of `Run`.
pub mod Stops
use event_driven_arch.Common.{Bool, List, [], ◌∷◌, Option, none, some}
use event_driven_arch.Domain.Entities.{Duration}
use event_driven_arch.Queue.{PriorityQueue, Case, Dequeued, dequeue}
use event_driven_arch.Repository.{NotificationRepository}
use event_driven_arch.Worker.{Surroundings, World, process}

-- What one turn of the loop finds. While `Dequeue` runs, the other goroutines change the queue by
-- `others` and the rest by `meanwhile`; its second select takes the case `case`, by what waits then.
-- `done` tells whether the context is cancelled.
pub record Turn (S : Type 0) : Type 0 where
  pub others : PriorityQueue → PriorityQueue
  pub meanwhile : World S → World S
  pub case : PriorityQueue → Case
  pub done : Bool
  pub around : Surroundings

-- How far the loop came in the turns that it was given: `waiting` if the case that a turn names was
-- not ready, `stopped` if `Run` returned.
pub data Ended (S : Type 0) : Type 0 where
  running : PriorityQueue → World S → Ended S
  waiting : PriorityQueue → World S → Ended S
  stopped : PriorityQueue → World S → Ended S
  panicked : Ended S

module _ {S : Type 0} (repo : NotificationRepository S) (backoff : List Duration) where
  -- The loop of `Run`, for as many turns as the list has.
  unfoldable pub run : List (Turn S) → PriorityQueue → World S → Ended S
  run [] q s = running q s
  run (t ∷ ts) q s = elim (dequeue t.others (t.case (t.others q)) t.done q) [
    | none ↦ waiting q s
    | some (none, q') ↦ stopped q' (t.meanwhile s)
    | some (some item, q') ↦ elim (process repo backoff t.around item (t.meanwhile s)) [
      | none ↦ panicked
      | some s' ↦ run ts q' s'
    ]
  ]
