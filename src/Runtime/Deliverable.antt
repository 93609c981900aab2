-- ===== src/Runtime/Deliverable.antt =====
-- What the worker can rely on about the notifications that it finds: internal/ratelimiter and
-- internal/queue, against internal/service.
use event_driven_arch.Common.{String, ◌≡◌, ◌⊎◌, inl, inr, List, [], some, ok, err, Outcome-cases}
use event_driven_arch.Common.Int.{ℤ}
use event_driven_arch.Domain.Errors.{Error, Err, sentinel, queue_full}
use event_driven_arch.Domain.Entities.{Duration, Notification}
use event_driven_arch.Domain.Validation.{IsPriority, IsProper}
use event_driven_arch.Queue.{Item, PriorityQueue, enqueue}
use event_driven_arch.Queue.Enqueue.{enqueue-err}
use event_driven_arch.RateLimiter.{new, wait}
use event_driven_arch.RateLimiter.Laws.{wait-new_iff}
use event_driven_arch.Repository.{NotificationRepository}
use event_driven_arch.Repository.Contract.{View, IsRepository}
use event_driven_arch.Runtime.Advance.{IsHealthy}
use event_driven_arch.Runtime.Machine.{Machine, Reach}
use event_driven_arch.Runtime.Safety.{Reach-IsHealthy}
use event_driven_arch.Service.{item_of}

-- The queue takes an item of a known priority, or it is full.
known-enqueue :
    (item : Item) (q : PriorityQueue)
    → IsPriority item.priority
    → ((enqueue item q).0 ≡ ok tt) ⊎ ((enqueue item q).0 ≡ err (sentinel queue_full))
known-enqueue item q known = elim (Outcome-cases (enqueue item q).0) [
  | inl (_, e) ↦ inl e
  | inr (e, refused) ↦ elim (enqueue-err item q e refused).1 [
    | inl (_, full) ↦ inr (rw (← full) refused)
    | inr (unknown, _) ↦ absurd (unknown known)
  ]
]

-- A notification that the limiters and the queue take.
abbrev pub IsServed : Notification → Type 1
IsServed n =
    IsProper n
    × ((L : Type 0) (new_limiter : ℤ → ℤ → L) (limiter_wait : L → Err) (rate : ℤ)
        → wait limiter_wait (new new_limiter rate) n.channel
          ≡ some (limiter_wait (new_limiter rate rate)))
    × ((q : PriorityQueue)
        → ((enqueue (item_of n) q).0 ≡ ok tt)
          ⊎ ((enqueue (item_of n) q).0 ≡ err (sentinel queue_full)))

-- Every stored notification is one.
abbrev pub AreServed : View → Type 1
AreServed v = (id : String) (n : Notification) → v id ≡ some n → IsServed n

proper-IsServed : (n : Notification) → IsProper n → IsServed n
proper-IsServed n proper = (
  proper,
  (λ L new_limiter limiter_wait rate.
      (wait-new_iff new_limiter limiter_wait rate n.channel).1 proper.0),
  λ q. known-enqueue (item_of n) q proper.1,
)

module _ {S : Type 0} (repo : NotificationRepository S) (c : IsRepository repo)
    (backoff : List Duration) (error_text : Error → String) where
  -- Over any repository that meets the contract, and whatever the calls and their interleaving: from a
  -- healthy start with no call in progress, every notification that is stored in a state that the
  -- program reaches has one of the three channels and of the three priorities, a recipient, and a
  -- content of 1 to 4096 bytes; so a wait on the limiters of `New` for its channel does not panic,
  -- and `Enqueue` takes its item or reports that the queue is full, never an unknown priority.
  pub Reach-AreServed :
      (start m : Machine S)
      → Reach repo c backoff error_text start m
      → start.tasks ≡ []
      → IsHealthy repo c start.shared
      → AreServed (c.view m.shared.db)
  Reach-AreServed start m reach idle healthy id n at =
      let (_, sound) = Reach-IsHealthy repo c backoff error_text start m reach idle healthy in
      proper-IsServed n (sound.proper id n at)
