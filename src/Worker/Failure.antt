-- ===== src/Worker/Failure.antt =====
-- What `handleFailure` does, over any repository that meets the contract.
use event_driven_arch.Common.{
  ℕ, ◌+◌, ◌≤◌, ◌<◌, ◌≡◌, ◌≢◌, ◌⊎◌, inl, inr, List, [], ◌∷◌, Option, none, some, arith, refl, leb,
  Bool-cases, get_elem?-total,
}
use event_driven_arch.Common.Int.{◌+ℤ◌}
use event_driven_arch.Domain.Errors.{Error}
use event_driven_arch.Domain.Entities.{Duration, Notification}
use event_driven_arch.Repository.{NotificationRepository}
use event_driven_arch.Repository.Contract.{
  View, Same, Changed, BecomesFailed, BecomesRetried, Write, IsRepository,
}
use event_driven_arch.Repository.Contract.Laws.{Wrote-either, Same-either}
use event_driven_arch.Worker.{Surroundings, backoff_index, delay, retry_after, handle_failure}

-- A list of delays that is not empty has one for every attempt.
pub delay-total :
    (backoff : List Duration) (retry_count : ℕ)
    → backoff ≢ []
    → (d : Duration) × (delay backoff retry_count ≡ some d)
unfolding delay
delay-total [] retry_count h = absurd (h refl)
delay-total (d ∷ rest) retry_count h =
    get_elem?-total (d ∷ rest) (backoff_index (d ∷ rest) retry_count)
      (unfold backoff_index in ground arith)

module _ (backoff : List Duration) (w : Surroundings) where
  -- What `handleFailure` does to the stored notification: another attempt is scheduled, one more
  -- counted, or there are none left. The write may fail, which is only logged.
  abbrev pub Rejected : Notification → Error → View → View → Type 0
  Rejected n e u v' =
      ((n.max_retries ≤ n.retry_count)
        × (Same u v' ⊎ Changed (BecomesFailed (w.error_text e)) n.id u v'))
      ⊎ ((n.retry_count < n.max_retries)
          × ((d : Duration) × (delay backoff n.retry_count ≡ some d)
              × (Same u v'
                  ⊎ Changed (BecomesRetried (n.retry_count + 1) (w.now +ℤ d) (w.error_text e)) n.id
                      u v')))

  pub Same-Rejected :
      (n : Notification) (e : Error) {u t v' : View}
      → Same u t
      → Rejected n e t v'
      → Rejected n e u v'
  Same-Rejected n e p (inl (over, effect)) = inl (over, Same-either _ n.id p effect)
  Same-Rejected n e p (inr (left, (d, at, effect))) =
      inr (left, (d, at, Same-either _ n.id p effect))

module _ {S : Type 0} (repo : NotificationRepository S) (c : IsRepository repo)
    (backoff : List Duration) (w : Surroundings) where
  open c use {view, IsValid, keyed, writes, gets}

  retry_after-Rejected :
      (o : Option Duration) (n : Notification) (e : Error) (db : S)
      → IsValid db
      → n.retry_count < n.max_retries
      → delay backoff n.retry_count ≡ o
      → (d : Duration) × (o ≡ some d)
      → (db' : S) × (retry_after repo backoff o w n e db ≡ some db')
        × IsValid db'
        × Rejected backoff w n e (view db) (view db')
  unfolding retry_after
  retry_after-Rejected none n e db v left at (d, panics) = cc
  retry_after-Rejected (some d) n e db v left at _ =
      let (v', wrote) =
        writes (Write.schedule_retry n.id (n.retry_count + 1) (w.now +ℤ d) (w.error_text e)) db v in
      (_, refl, v', inr (left, (d, at, Wrote-either _ n.id _ _ _ wrote)))

  pub handle_failure-Rejected :
      (n : Notification) (e : Error) (db : S)
      → backoff ≢ []
      → IsValid db
      → (db' : S) × (handle_failure repo backoff w n e db ≡ some db')
        × IsValid db'
        × Rejected backoff w n e (view db) (view db')
  unfolding handle_failure
  handle_failure-Rejected n e db some_delay v =
      elim (Bool-cases (leb n.max_retries n.retry_count)) [
        | inl over ↦
            let (v', wrote) = writes (Write.mark_failed n.id (w.error_text e)) db v in
            (
              _,
              rw (over, handle_failure) refl,
              v',
              inl (ground arith, Wrote-either _ n.id _ _ _ wrote),
            )
        | inr left ↦
            rw (left, handle_failure)
              (retry_after-Rejected _ n e db v (ground arith) refl
                (delay-total backoff n.retry_count some_delay))
      ]
