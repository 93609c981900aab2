-- ===== src/Pool/Run.antt =====
-- internal/worker/pool.go: `Start` and `Wait`, over the loop of internal/worker/worker.go request by
-- request.
pub mod Budget
pub mod Stops
pub mod Wait
use event_driven_arch.Common.{
  ℕ, ◌+◌, ◌-◌, ◌≤◌, ◌≡◌, Bool, true, String, List, [], ◌∷◌, ◌++◌, none, some,
}
use event_driven_arch.Domain.Errors.{Error}
use event_driven_arch.Pool.{PoolWorker}
use event_driven_arch.Queue.{Item, PriorityQueue, Case, poll_high, select}
use event_driven_arch.Repository.{NotificationRepository}
use event_driven_arch.Runtime.{Code, return, Shared, advance}
use event_driven_arch.Runtime.Calls.{process}
use event_driven_arch.Runtime.Ends.{IsRequest, IsUnlimited}
use event_driven_arch.Worker.{Surroundings}
use event_driven_arch.Worker.Loop.Stops.{total}

-- Where a worker's goroutine is: in `Dequeue`, in `process`, or out of `Run`.
pub data Phase : Type 0 where
  free : PoolWorker → Phase
  busy : PoolWorker → Code (Unit {0}) → Phase
  returned : Phase

-- The goroutines of a pool, and the counter of its `sync.WaitGroup`.
pub record Crew (S : Type 0) : Type 0 where
  pub shared : Shared S
  pub phases : List Phase
  pub counter : ℕ

-- `p.wg.Add(1)` and the `go` statement.
launch : {S : Type 0} → PoolWorker → Crew S → Crew S
launch w p = record p { phases = p.phases ++ free w ∷ []; counter = p.counter + 1 }

-- The loop of `Start`.
launch_all : {S : Type 0} → List PoolWorker → Crew S → Crew S
unfolding launch
launch_all [] p = p
launch_all (w ∷ ws) p = launch_all ws (launch w p)

-- `Start`
pub start : {S : Type 0} → List PoolWorker → Shared S → Crew S
unfolding launch_all
start workers s = launch_all workers (record { shared = s; phases = []; counter = 0 })

-- `Wait` has returned.
abbrev pub IsWaitOver : {S : Type 0} → Crew S → Type 0
IsWaitOver p = p.counter ≡ 0

module _ {S : Type 0} (repo : NotificationRepository S) (error_text : Error → String) where
  -- One step of one worker; `done` tells whether the context is cancelled. A panic ends the process,
  -- so a request that panics has no step after it.
  pub data CrewStep (done : Bool) (p : Crew S) : Crew S → Type 0 where
    -- The first select of `Dequeue`, and the second.
    take_high :
        (before after : List Phase) (w : PoolWorker) (item : Item) (q : PriorityQueue)
        → p.phases ≡ before ++ free w ∷ after
        → poll_high p.shared.queue ≡ some (item, q)
        → CrewStep done p (record p {
          shared = record p.shared { queue = q };
          phases = before ++ busy w (process w.backoff error_text item) ∷ after;
        })
    take :
        (before after : List Phase) (w : PoolWorker) (k : Case) (item : Item) (q : PriorityQueue)
        → p.phases ≡ before ++ free w ∷ after
        → select k done p.shared.queue ≡ some (some item, q)
        → CrewStep done p (record p {
          shared = record p.shared { queue = q };
          phases = before ++ busy w (process w.backoff error_text item) ∷ after;
        })
    request :
        (around : Surroundings) (before after : List Phase) (w : PoolWorker) (k : Code (Unit {0}))
        → p.phases ≡ before ++ busy w k ∷ after
        → IsRequest k
        → ¬ IsUnlimited around k
        → CrewStep done p (
            let (k', s') = advance repo around k p.shared in
            record p { shared = s'; phases = before ++ busy w k' ∷ after })
    -- The next turn of the loop of `Run`.
    next :
        (before after : List Phase) (w : PoolWorker)
        → p.phases ≡ before ++ busy w (return tt) ∷ after
        → CrewStep done p (record p { phases = before ++ free w ∷ after })
    -- `Dequeue` returned false: `Run` returns, and `p.wg.Done()` runs.
    leave :
        (before after : List Phase) (w : PoolWorker) (k : Case) (q : PriorityQueue)
        → p.phases ≡ before ++ free w ∷ after
        → select k done p.shared.queue ≡ some (none, q)
        → CrewStep done p (record p {
          shared = record p.shared { queue = q };
          phases = before ++ returned ∷ after;
          counter = p.counter - 1;
        })

  -- The others change what is shared before each step of a worker.
  abbrev pub meanwhile : Crew S → (Shared S → Shared S) → Crew S
  meanwhile p others = record p { shared = others p.shared }

  pub data Runs (p : Crew S) : Crew S → Type 0 where
    here : Runs p p
    later :
        {p' p'' : Crew S} (done : Bool) (others : Shared S → Shared S)
        → Runs p p'
        → CrewStep done (meanwhile p' others) p''
        → Runs p p''

  -- So many steps after the context is cancelled, while no other goroutine adds an item.
  pub data Closing (p : Crew S) : ℕ → Crew S → Type 0 where
    here : Closing p 0 p
    later :
        {n : ℕ} {p' p'' : Crew S} (others : Shared S → Shared S)
        → Closing p n p'
        → total (others p'.shared).queue ≤ total p'.shared.queue
        → CrewStep true (meanwhile p' others) p''
        → Closing p (n + 1) p''
