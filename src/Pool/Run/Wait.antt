-- ===== src/Pool/Run/Wait.antt =====
-- `Wait` of internal/worker/pool.go, after the context is cancelled.
use event_driven_arch.Common.{
  String, ℕ, zero, suc, ◌+◌, ◌*◌, ◌<◌, ◌≤◌, ◌≡◌, ◌⊎◌, inl, inr, true, List, arith, length, All,
}
use event_driven_arch.Domain.Errors.{Error}
use event_driven_arch.Pool.{PoolWorker}
use event_driven_arch.Pool.Run
use event_driven_arch.Pool.Run.{Crew, CrewStep, start, Runs, Closing, IsWaitOver}
use event_driven_arch.Pool.Run.Budget.{IsManned, budget, remaining}
use event_driven_arch.Pool.Run.Stops.{
  HasDelay, IsCrew, Panics, AllOwe-bound, start-IsCrew, Runs-IsCrew, Closing-Spent,
  can_go_on_or_over,
}
use event_driven_arch.Repository.{NotificationRepository}
use event_driven_arch.Runtime.{Shared}
use event_driven_arch.Worker.{Surroundings}
use event_driven_arch.Worker.Loop.Stops.{total}

module _ {S : Type 0} (repo : NotificationRepository S) (error_text : Error → String) where
  -- A run after the cancellation that ends `Wait`, or a panic.
  abbrev pub Ends : Surroundings → Crew S → Type 0
  Ends around p =
      (n : ℕ) × (p' : Crew S) × Closing repo error_text p n p'
      × (IsWaitOver p' ⊎ Panics repo error_text around p')

  goes_on :
      (around : Surroundings) (p : Crew S) (fuel n : ℕ) (p' : Crew S) (m : IsManned p')
      → Closing repo error_text p n p'
      → budget p' m < fuel
      → Ends around p
  goes_on around p zero n p' m closing enough = absurd (omega arith)
  goes_on around p (suc fuel) n p' m closing enough =
      elim (can_go_on_or_over repo error_text around p' m) [
        | inl over ↦ (n, p', closing, inl over)
        | inr (inr panics) ↦ (n, p', closing, inr panics)
        | inr (inl (p'', step)) ↦
            let on : Closing repo error_text p (n + 1) p'' =
              Run.later (λ s. s) closing (omega arith) step in
            let (m'', less) =
              Closing-Spent repo error_text p' 1 p'' m
                (Run.later (λ s. s) Run.here (omega arith) step) in
            goes_on around p fuel (n + 1) p'' m'' on (omega arith)
      ]

  module _ (workers : List PoolWorker) (s : Shared S) (p : Crew S) (delays : All HasDelay workers)
      (runs : Runs repo error_text (start workers s) p) where
    crew : IsCrew repo error_text (length workers) p
    crew =
        Runs-IsCrew repo error_text (length workers) _ p runs
          (start-IsCrew repo error_text workers s delays)

    -- Where each worker of a pool has a delay: whatever the pool has done since `Start`, and whatever
    -- the other goroutines do, as long as they add no item: from the cancellation on, the workers
    -- make at most ten steps for each worker and each item that waits; as long as the counter of the
    -- `sync.WaitGroup` is not zero some worker can go on, whatever the limiter, provider and clock
    -- answer, unless a worker panics because it asks for a token of a channel for which the limiter
    -- has no entry; and the counter is the number of workers that have not returned. So there is a
    -- run at the end of which `Wait` has returned, or a worker panics for that reason.
    pub Wait-returns :
        (around : Surroundings)
        → ((n : ℕ) (p' : Crew S)
            → Closing repo error_text p n p'
            → (n ≤ 10 * (length workers + total p.shared.queue))
              × (p'.counter ≡ remaining p'.phases)
              × (IsWaitOver p'
                  ⊎ ((p'' : Crew S) × CrewStep repo error_text true p' p'')
                  ⊎ Panics repo error_text around p'))
          × Ends around p
    Wait-returns around =
        let (m, e) = crew in
        (
          (λ n p' closing.
              let (m', spent) = Closing-Spent repo error_text p n p' m closing in
              (
                let most = AllOwe-bound p.phases m.owed m.owes in omega arith,
                m'.counted,
                can_go_on_or_over repo error_text around p' m',
              )),
          goes_on around p (suc (budget p m)) 0 p m Run.here (omega arith),
        )
