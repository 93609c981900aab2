-- ===== src/Pool/Laws.antt =====
-- How many workers a pool has.
use event_driven_arch.Common.{
  ℕ, zero, suc, ◌+◌, ◌^◌, ◌<◌, ◌≡◌, ◌≢◌, List, [], All, some, arith, refl, length, get_elem?, ap,
}
use event_driven_arch.Common.Int.{ℤ, pos, negsuc, ◌+ℤ◌}
use event_driven_arch.Config.{Config}
use event_driven_arch.Domain.Entities.{Duration}
use event_driven_arch.Pool.{PoolWorker, low_64, int64, workers_from, made, new_pool}

int64_pos : (n : ℕ) → n < 2 ^ 63 → int64 (pos n) ≡ pos n
unfolding int64 low_64
int64_pos n h = ground arith

length-workers_from : (i n : ℕ) (backoff : List Duration) → length (workers_from i n backoff) ≡ n
unfolding workers_from
length-workers_from i zero backoff = refl
length-workers_from i (suc n) backoff = ap suc (length-workers_from (i + 1) n backoff)

get_elem?-workers_from :
    (i n j k : ℕ) (backoff : List Duration)
    → j < n
    → i + j ≡ k
    → get_elem? (workers_from i n backoff) j ≡ some (record { id = k; backoff = backoff })
unfolding workers_from
get_elem?-workers_from i zero j k backoff h e = absurd (omega arith)
get_elem?-workers_from i (suc n) zero k backoff h e = ground arith
get_elem?-workers_from i (suc n) (suc j) k backoff h e =
    get_elem?-workers_from (i + 1) n j k backoff (omega arith) (omega arith)

pos_sum : (a b : ℕ) → pos a +ℤ pos b ≡ pos (a + b)
unfolding ◌+ℤ◌
pos_sum a b = ground arith

-- Two sums of numbers that are not negative, each with its wrap.
total_lem :
    (sms email push : ℕ)
    → sms + email + push < 2 ^ 63
    → int64 (int64 (pos sms +ℤ pos email) +ℤ pos push) ≡ pos (sms + email + push)
total_lem sms email push fits = rw (pos_sum sms email) (
    rw (int64_pos (sms + email) (omega arith))
      (rw (pos_sum (sms + email) push) (int64_pos (sms + email + push) fits)))

-- Where the three numbers of workers are not negative and their sum fits in an `int`, the pool has
-- that many workers, numbered from 0 on, each with the configured delays.
pub new_pool_lem :
    (cfg : Config) (sms email push : ℕ)
    → cfg.sms_workers ≡ pos sms
    → cfg.email_workers ≡ pos email
    → cfg.push_workers ≡ pos push
    → sms + email + push < 2 ^ 63
    → (workers : List PoolWorker) × (new_pool cfg ≡ some workers)
      × (length workers ≡ sms + email + push)
      × ((j : ℕ)
          → j < sms + email + push
          → get_elem? workers j ≡ some (record { id = j; backoff = cfg.retry_backoff }))
unfolding new_pool made
new_pool_lem cfg sms email push a b d fits = (
  workers_from 0 (sms + email + push) cfg.retry_backoff,
  rw (a, b, d) rw (total_lem sms email push fits) refl,
  length-workers_from 0 _ _,
  λ j h. get_elem?-workers_from 0 _ j j cfg.retry_backoff h (omega arith),
)

workers_from-delays :
    (i n : ℕ) (backoff : List Duration)
    → backoff ≢ []
    → All (λ w. w.backoff ≢ []) (workers_from i n backoff)
unfolding workers_from
workers_from-delays i zero backoff some_delay = tt
workers_from-delays i (suc n) backoff some_delay =
    (some_delay, workers_from-delays (i + 1) n backoff some_delay)

made-delays :
    (total : ℤ) (backoff : List Duration) (workers : List PoolWorker)
    → backoff ≢ []
    → made total backoff ≡ some workers
    → All (λ w. w.backoff ≢ []) workers
unfolding made
made-delays (negsuc n) backoff workers some_delay e = absurd (cc)
made-delays (pos n) backoff workers some_delay e =
    let same : workers_from 0 n backoff ≡ workers = cc in
    rw (← same) (workers_from-delays 0 n backoff some_delay)

-- Every worker of a pool has the delays of the configuration.
pub new_pool-delays :
    (cfg : Config) (workers : List PoolWorker)
    → cfg.retry_backoff ≢ []
    → new_pool cfg ≡ some workers
    → All (λ w. w.backoff ≢ []) workers
unfolding new_pool
new_pool-delays cfg workers some_delay e = made-delays _ cfg.retry_backoff workers some_delay e
