-- ===== src/Runtime/Ends.antt =====
-- The calls of internal/service and internal/worker return, whatever runs between their requests.
use event_driven_arch.Common.{
  ℕ, zero, suc, ◌+◌, ◌*◌, ◌≤◌, ◌≡◌, ◌≢◌, ◌⊎◌, inl, inr, refl, String, List, [], ◌∷◌, Option, none,
  some, arith, length,
}
use event_driven_arch.Domain.Errors.{Err, Error}
use event_driven_arch.Domain.Entities.{Time, Duration, Channel, CreateNotificationRequest}
use event_driven_arch.Queue.{Item}
use event_driven_arch.Repository.{NotificationRepository}
use event_driven_arch.Worker.{Surroundings}
use event_driven_arch.Runtime.{
  Code, resumed, return, panic, write, write_batch, get, get_by_key, find_retries, find_scheduled,
  put, wait, send, clock, measure, go, Shared, advance,
}
use event_driven_arch.Runtime.Bounds.{Any, Within}
use event_driven_arch.Runtime.Calls.{create, cancel, process}
use event_driven_arch.Runtime.Calls.Batch.{create_batch}
use event_driven_arch.Runtime.Calls.Bounds.{create-Within, cancel-Within, process-Within}
use event_driven_arch.Runtime.Calls.Batch.Bounds.{create_batch-Within}

abbrev pub IsRequest : {A : Type 0} → Code A → Type 0
IsRequest (return a) = ⊥
IsRequest panic = ⊥
IsRequest _ = Unit {0}

-- The code asks the limiter for a token of a channel for which it has no entry: a panic.
abbrev pub IsUnlimited : {A : Type 0} → Surroundings → Code A → Type 0
IsUnlimited w (wait channel k) = w.wait channel ≡ none
IsUnlimited w _ = ⊥

-- Before a request, the other goroutines change what is shared.
abbrev pub Moment : Type 0 → Type 0
Moment S = Surroundings × (Shared S → Shared S)

-- The call has returned.
abbrev pub HasReturned : {A : Type 0} → Code A → Type 0
HasReturned {A} k = (a : A) × (k ≡ return a)

module _ {S : Type 0} (repo : NotificationRepository S) {A : Type 0} where
  -- What is left of a call after so many requests.
  abbrev pub after : List (Moment S) → Code A → Shared S → Code A
  after [] k s = k
  after ((w, others) ∷ moments) k s =
      let (k', s') = advance repo w k (others s) in after moments k' s'

  after-panic : (moments : List (Moment S)) (s : Shared S) → after moments panic s ≡ panic
  unfolding advance
  after-panic [] s = refl
  after-panic ((w, others) ∷ moments) s = after-panic moments (others s)

  -- A call that has returned makes no more requests.
  after-return :
      (moments : List (Moment S)) (a : A) (s : Shared S) → after moments (return a) s ≡ return a
  unfolding advance
  after-return [] a s = refl
  after-return ((w, others) ∷ moments) a s = after-return moments a (others s)

module _ {S : Type 0} (repo : NotificationRepository S) {A : Type 0} (P : Type 0) where
  resumed-Within :
      (w : Surroundings) (n : ℕ) (channel : Channel) (k : Err → Code A) (r : Option Err)
      → w.wait channel ≡ r
      → ¬ P × ((e : Err) → Within P n (k e))
      → Within P n (resumed r k) ⊎ (¬ P × IsUnlimited w (wait channel k) × (resumed r k ≡ panic))
  unfolding resumed
  resumed-Within w n channel k none is (quiet, within) = inr (quiet, is, refl)
  resumed-Within w n channel k (some e) is (quiet, within) = inl (within e)

  advance-Within :
      (w : Surroundings) (n : ℕ) (k : Code A) (s : Shared S)
      → Within P (suc n) k
      → Within P n (advance repo w k s).0
        ⊎ (¬ P × IsUnlimited w k × ((advance repo w k s).0 ≡ panic))
  unfolding advance
  advance-Within w n (return a) s within = inl tt
  advance-Within w n panic s within = absurd within
  advance-Within w n (write x k) s within = inl (within _)
  advance-Within w n (write_batch id ns k) s within = inl (within _)
  advance-Within w n (get id k) s within = inl (within _)
  advance-Within w n (get_by_key key k) s within = inl (within _)
  advance-Within w n (find_retries k) s within = inl (within _)
  advance-Within w n (find_scheduled k) s within = inl (within _)
  advance-Within w n (put item k) s within = inl (within.1 _)
  advance-Within w n (wait channel k) s within =
      resumed-Within w n channel k (w.wait channel) refl within
  advance-Within w n (send m k) s within = inl (within _)
  advance-Within w n (clock k) s within = inl (within _)
  advance-Within w n (measure m k) s within = inl within
  advance-Within w n (go batches k) s within = inl within

  Within-zero : (k : Code A) → Within P zero k → HasReturned k
  Within-zero (return a) within = (a, refl)
  Within-zero panic within = absurd within
  Within-zero (write x k) within = absurd within
  Within-zero (write_batch id ns k) within = absurd within
  Within-zero (get id k) within = absurd within
  Within-zero (get_by_key key k) within = absurd within
  Within-zero (find_retries k) within = absurd within
  Within-zero (find_scheduled k) within = absurd within
  Within-zero (put item k) within = absurd within
  Within-zero (wait channel k) within = absurd within
  Within-zero (send m k) within = absurd within
  Within-zero (clock k) within = absurd within
  Within-zero (measure m k) within = absurd within
  Within-zero (go batches k) within = absurd within

  -- A call that puts nothing on the queue leaves it alone.
  pub advance-queue :
      (w : Surroundings) (n : ℕ) (k : Code A) (s : Shared S)
      → ¬ P
      → Within P n k
      → (advance repo w k s).1.queue ≡ s.queue
  unfolding advance
  advance-queue w zero (put item k) s quiet within = absurd within
  advance-queue w (suc n) (put item k) s quiet within = absurd (quiet within.0)
  advance-queue w n (return a) s quiet within = refl
  advance-queue w n panic s quiet within = refl
  advance-queue w n (write x k) s quiet within = refl
  advance-queue w n (write_batch id ns k) s quiet within = refl
  advance-queue w n (get id k) s quiet within = refl
  advance-queue w n (get_by_key key k) s quiet within = refl
  advance-queue w n (find_retries k) s quiet within = refl
  advance-queue w n (find_scheduled k) s quiet within = refl
  advance-queue w n (wait channel k) s quiet within = refl
  advance-queue w n (send m k) s quiet within = refl
  advance-queue w n (clock k) s quiet within = refl
  advance-queue w n (measure m k) s quiet within = refl
  advance-queue w n (go batches k) s quiet within = refl

  -- A request takes one from what is left, or it is a panic.
  pub request-Within :
      (w : Surroundings) (n : ℕ) (k : Code A) (s : Shared S)
      → IsRequest k
      → ¬ IsUnlimited w k
      → Within P n k
      → (n' : ℕ) × (n ≡ suc n') × Within P n' (advance repo w k s).0
  request-Within w zero k s asks limited within =
      let (a, is) = Within-zero k within in absurd (rw is at asks)
  request-Within w (suc n) k s asks limited within = elim (advance-Within w n k s within) [
    | inl rest ↦ (n, refl, rest)
    | inr (_, unlimited, _) ↦ absurd (limited unlimited)
  ]

  -- One of the requests was for a token of a channel for which the limiter of its moment had no entry.
  abbrev pub Crashed : List (Moment S) → Code A → Shared S → Type 0
  Crashed [] k s = ⊥
  Crashed ((w, others) ∷ moments) k s =
      IsUnlimited w k ⊎ (let (k', s') = advance repo w k (others s) in Crashed moments k' s')

  -- The call has returned; or it has panicked, for that reason.
  abbrev pub HasEnded : List (Moment S) → Code A → Shared S → Type 0
  HasEnded moments k s =
      HasReturned (after repo moments k s)
      ⊎ (¬ P × (after repo moments k s ≡ panic) × Crashed moments k s)

  pub Within-HasEnded :
      (moments : List (Moment S)) (n : ℕ) (k : Code A) (s : Shared S)
      → Within P n k
      → n ≤ length moments
      → HasEnded moments k s
  Within-HasEnded [] zero k s within h = inl (Within-zero k within)
  Within-HasEnded [] (suc n) k s within h = absurd (omega arith)
  Within-HasEnded ((w, others) ∷ moments) zero k s within h =
      let (a, is) = Within-zero k within in
      inl (rw is (a, after-return repo ((w, others) ∷ moments) a s))
  Within-HasEnded ((w, others) ∷ moments) (suc n) k s within h =
      elim (advance-Within w n k (others s) within) [
        | inl rest ↦ elim (Within-HasEnded moments n _ _ rest (omega arith)) [
          | inl done ↦ inl done
          | inr (quiet, panics, crashed) ↦ inr (quiet, panics, inr crashed)
        ]
        | inr (quiet, unlimited, panics) ↦
            inr (quiet, rw panics (after-panic repo moments _), inl unlimited)
      ]

module _ {S : Type 0} (repo : NotificationRepository S) {A : Type 0} where
  -- A call that never asks the limiter returns.
  Within-HasReturned :
      (moments : List (Moment S)) (n : ℕ) (k : Code A) (s : Shared S)
      → Within Any n k
      → n ≤ length moments
      → HasReturned (after repo moments k s)
  Within-HasReturned moments n k s within h =
      elim (Within-HasEnded repo Any moments n k s within h) [
        | inl done ↦ done
        | inr (quiet, _, _) ↦ absurd (quiet tt)
      ]

module _ {S : Type 0} (repo : NotificationRepository S) (backoff : List Duration)
    (error_text : Error → String) (moments : List (Moment S)) (s : Shared S) where
  -- `process` has returned; or it has panicked, having asked for a token of a channel for which the
  -- limiter had no entry.
  abbrev pub ProcessEnded : Item → Type 0
  ProcessEnded item = HasEnded repo ⊥ moments (process backoff error_text item) s

  -- Whatever the repository, limiter, provider and clock answer, and whatever the other goroutines do
  -- to the shared state before each request: `Create` returns after at most 4 requests, `CreateBatch`
  -- after at most 1 and 2 for each of its items, and `Cancel` after at most 2. Where at least one
  -- delay is configured, `process` ends after at most 8: it returns, or it panics, which it does only
  -- where it asks for a token of a channel that the limiter has no entry for.
  pub calls-HasReturned :
      backoff ≢ []
      → ((req : CreateNotificationRequest) (key id : String) (now : Time)
          → 4 ≤ length moments
          → HasReturned (after repo moments (create req key id now) s))
        × ((reqs : List CreateNotificationRequest) (batch_id : String) (now : Time)
              (ids : ℕ → String) (times : ℕ → Time)
            → 1 + 2 * length reqs ≤ length moments
            → HasReturned (after repo moments (create_batch reqs batch_id now ids times) s))
        × ((id : String) → 2 ≤ length moments → HasReturned (after repo moments (cancel id) s))
        × ((item : Item) → 8 ≤ length moments → ProcessEnded item)
  calls-HasReturned some_delay = (
    (λ req key id now h. Within-HasReturned repo moments 4 _ s (create-Within req key id now) h),
    (λ reqs batch_id now ids times h.
        Within-HasReturned repo moments (suc (2 * length reqs)) _ s
          (create_batch-Within reqs batch_id now ids times) (omega arith)),
    (λ id h. Within-HasReturned repo moments 2 _ s (cancel-Within id) h),
    λ item h.
        Within-HasEnded repo ⊥ moments 8 _ s
          (process-Within ⊥ backoff error_text some_delay (λ no. no) item) h,
  )
