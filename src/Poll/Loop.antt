-- ===== src/Poll/Loop.antt =====
-- internal/worker/retry_worker.go and scheduler_worker.go: the loops of `Run`, between whose ticks
-- no other goroutine runs. `Runtime` has the ticks among the calls of the other goroutines.
pub mod Stops
use event_driven_arch.Common.{ℕ, Bool, true, false, List, [], ◌∷◌}
use event_driven_arch.Common.Int.{ℤ, pos, leb_ℤ}
use event_driven_arch.Domain.Entities.{Duration}
use event_driven_arch.Repository.{NotificationRepository}
use event_driven_arch.Service.{System}
use event_driven_arch.Poll.{poll_retries, poll_scheduled}

-- The cases of the `select` of the loop.
pub data Signal : Type 0 where
  tick ctx_done : Signal

-- How far the loop came in the signals that it was given.
pub data Ended (S : Type 0) : Type 0 where
  running : System S → Ended S
  stopped : System S → Ended S
  panicked : Ended S

module _ {S : Type 0} where
  unfoldable pub loop : (System S → System S) → List Signal → System S → Ended S
  loop poll [] s = running s
  loop poll (ctx_done ∷ _) s = stopped s
  loop poll (tick ∷ signals) s = loop poll signals (poll s)

  -- `time.NewTicker` panics unless the interval is positive.
  unfoldable pub with_ticker : Bool → (System S → System S) → List Signal → System S → Ended S
  with_ticker true poll signals s = panicked
  with_ticker false poll signals s = loop poll signals s

module _ {S : Type 0} (repo : NotificationRepository S) (interval : Duration) where
  -- `RetryWorker.Run`
  unfoldable pub run_retries : List Signal → System S → Ended S
  run_retries = with_ticker (leb_ℤ interval (pos 0)) (poll_retries repo)

  -- `SchedulerWorker.Run`
  unfoldable pub run_scheduled : List Signal → System S → Ended S
  run_scheduled = with_ticker (leb_ℤ interval (pos 0)) (poll_scheduled repo)
