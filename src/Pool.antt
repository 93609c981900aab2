-- ===== src/Pool.antt =====
-- internal/worker/pool.go: the workers that a configuration asks for. What all of them share is left
-- to `Worker`, whose functions take it as arguments.
pub mod Laws
pub mod Hooks
pub mod Run
use event_driven_arch.Common.{
  ℕ, zero, suc, ◌+◌, ◌-◌, ◌%◌, ◌^◌, Bool, List, [], ◌∷◌, Option, none, some, ltb, if◌then◌else◌,
}
use event_driven_arch.Common.Int.{ℤ, pos, negsuc, ◌+ℤ◌}
use event_driven_arch.Config.{Config}
use event_driven_arch.Domain.Entities.{Duration}

-- The fields of a worker that the pool gives it.
pub record PoolWorker : Type 0 where
  pub id : ℕ
  pub backoff : List Duration

-- The low 64 bits of a sum, and the `int` that they stand for.
low_64 : ℤ → ℕ
low_64 (pos n) = n % 2 ^ 64
low_64 (negsuc n) = 2 ^ 64 - 1 - n % 2 ^ 64

pub int64 : ℤ → ℤ
unfolding low_64
int64 n = let w = low_64 n in if ltb w (2 ^ 63) then pos w else negsuc (2 ^ 64 - 1 - w)

-- The loop that fills the slice, from worker `i` on.
workers_from : ℕ → ℕ → List Duration → List PoolWorker
workers_from i zero backoff = []
workers_from i (suc n) backoff =
    record { id = i; backoff = backoff } ∷ workers_from (i + 1) n backoff

-- `make([]*Worker, total)`, which panics for a negative number, and the loop. The memory is taken to
-- be enough.
made : ℤ → List Duration → Option (List PoolWorker)
unfolding workers_from
made (negsuc n) backoff = none
made (pos n) backoff = some (workers_from 0 n backoff)

-- `NewPool`; `none` is a panic. Go adds `int`s with a wrap after each sum.
unfoldable pub new_pool : Config → Option (List PoolWorker)
unfolding made int64
new_pool cfg =
    let total = int64 (int64 (cfg.sms_workers +ℤ cfg.email_workers) +ℤ cfg.push_workers) in
    made total cfg.retry_backoff
