-- ===== src/Worker/Loop/Stops.antt =====
-- How a worker shuts down.
use event_driven_arch.Common.{
  ℕ, ◌+◌, ◌<◌, ◌≤◌, ◌≡◌, ◌≢◌, ◌⊎◌, inl, inr, Bool, true, List, [], ◌∷◌, none, some, All, length,
  arith, refl, ◌∙◌, ap, sym, Option-cases,
}
use event_driven_arch.Domain.Entities.{Duration}
use event_driven_arch.Queue.{
  Item, PriorityQueue, Lane, high, normal, low, Case, Dequeued, dequeue, select,
}
use event_driven_arch.Queue.Dequeue.{Takes, dequeue_cases}
use event_driven_arch.Repository.{NotificationRepository}
use event_driven_arch.Repository.Contract.{IsRepository}
use event_driven_arch.Worker.{World}
use event_driven_arch.Repository.Contract.Throughout.{Throughout}
use event_driven_arch.Worker.Channels.{HasChannel, IsLimited, Handled-channels}
use event_driven_arch.Worker.Process.{process-Handled}
use event_driven_arch.Worker.Loop.{Turn, stopped, run}

-- How many items wait.
abbrev pub total : PriorityQueue → ℕ
total q = length q.high.waiting + length q.normal.waiting + length q.low.waiting

Takes-total :
    (l : Lane) (q : PriorityQueue) (item : Item) (q' : PriorityQueue)
    → Takes l q item q'
    → total q' < total q
Takes-total high q item q' h = ground arith
Takes-total normal q item q' h = ground arith
Takes-total low q item q' h = ground arith

dequeue-none :
    (others : PriorityQueue → PriorityQueue) (c : Case) (done : Bool) (q : PriorityQueue)
    → dequeue others c done q ≡ none
    → select c done (others q) ≡ none
unfolding dequeue
dequeue-none others c done q e = ground arith

dequeue-total :
    (others : PriorityQueue → PriorityQueue) (c : Case) (done : Bool) (q : PriorityQueue)
    → total (others q) ≤ total q
    → (r : Dequeued) (q' : PriorityQueue) → dequeue others c done q ≡ some (r, q')
    → (total q' < total q) ⊎ ((r ≡ none) × (total q' ≤ total q))
dequeue-total others c done q h r q' e = elim (dequeue_cases others c done q r q' e) [
  | inl (item, is, takes) ↦ inl (Takes-total high q item q' takes)
  | inr (_, inl (l, item, is, takes)) ↦
      let less = Takes-total l (others q) item q' takes in inl (omega arith)
  | inr (_, inr (is, done_, left)) ↦ inr (is, rw left h)
]

module _ {S : Type 0} (repo : NotificationRepository S) (R : IsRepository repo)
    (backoff : List Duration) where
  -- A turn under a cancelled context, in which no other goroutine adds an item, the database stays
  -- valid, with the channels of what is stored among the three, the second select takes a case that
  -- is ready, and the limiter has an entry for each channel.
  abbrev pub IsClosing : Turn S → Type 0
  IsClosing t =
      (t.done ≡ true)
      × ((q : PriorityQueue) → total (t.others q) ≤ total q)
      × ((s : World S) → R.IsValid s.db → R.IsValid (t.meanwhile s).db)
      × ((q : PriorityQueue) → select (t.case q) true q ≢ none)
      × ((s : World S)
          → Throughout HasChannel (R.view s.db)
          → Throughout HasChannel (R.view (t.meanwhile s).db))
      × IsLimited t.around

  never_waits :
      (t : Turn S) (q : PriorityQueue)
      → IsClosing t
      → dequeue t.others (t.case (t.others q)) t.done q ≢ none
  never_waits t q (done, _, _, ready, _, _) e =
      ready (t.others q)
        (ap (λ d. select (t.case (t.others q)) d (t.others q)) (sym done) ∙ dequeue-none _ _ _ q e)

  -- Over any repository that meets the contract, with at least one delay configured, a limiter for
  -- each of the three channels, and only those among what is stored: when the context is cancelled
  -- and no other goroutine adds an item, `Run` returns after at most as many items as waited, without
  -- a panic, and leaves the database valid.
  pub run-stops :
      (ts : List (Turn S)) (q : PriorityQueue) (s : World S)
      → backoff ≢ []
      → R.IsValid s.db
      → Throughout HasChannel (R.view s.db)
      → All IsClosing ts
      → total q < length ts
      → (q' : PriorityQueue) × (s' : World S) × (run repo backoff ts q s ≡ stopped q' s')
        × (total q' ≤ total q)
        × R.IsValid s'.db
  unfolding run
  run-stops [] q s some_delay valid known closing enough = absurd (omega arith)
  run-stops (t ∷ ts) q s some_delay valid known (closes, closing) enough =
      let valid1 = closes.2 s valid in
      let known1 = closes.4 s known in
      elim (Option-cases (dequeue t.others (t.case (t.others q)) t.done q)) [
        | inl e ↦ absurd (never_waits t q closes e)
        | inr ((none, q'), e) ↦
            let fewer = dequeue-total _ _ _ q (closes.1 q) none q' e in
            (q', t.meanwhile s, rw (run, e) refl, ground arith, valid1)
        | inr ((some item, q'), e) ↦
            let fewer = dequeue-total _ _ _ q (closes.1 q) (some item) q' e in
            let less : total q' < total q = ground arith in
            elim (process-Handled repo R backoff t.around item (t.meanwhile s) some_delay valid1) [
              | inr (_, (n, _, at, _, _, unlimited)) ↦
                  absurd (closes.5 n.channel (known1 item.notification_id n at) unlimited)
              | inl (s', at, valid', handled) ↦
                  let known' =
                    Handled-channels repo R backoff t.around item.notification_id _ s' handled
                      known1 in
                  let (q2, s2, ends, left, valid2) =
                    run-stops ts q' s' some_delay valid' known' closing (omega arith) in
                  (q2, s2, rw (run, e, at) ends, omega arith, valid2)
            ]
      ]
