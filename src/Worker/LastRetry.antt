-- ===== src/Worker/LastRetry.antt =====
-- What becomes of the last attempt of a notification.
use event_driven_arch.Common.{
  ◌+◌, ◌≤◌, String, ◌≡◌, ◌≢◌, ◌⊎◌, inl, inr, false, List, [], some, arith, err, ap, ◌∙◌,
}
use event_driven_arch.Domain.Errors.{Err, Error}
use event_driven_arch.Domain.Entities.{Time, Duration, processing, Notification}
use event_driven_arch.Queue.{Item}
use event_driven_arch.Repository.{NotificationRepository}
use event_driven_arch.Repository.Contract.{View, Changed, Becomes, BecomesFailed, IsRepository}
use event_driven_arch.Repository.Contract.Laws.{Changed-at}
use event_driven_arch.Repository.Pg.{retry_due}
use event_driven_arch.Repository.Pg.Due.{retry_due_iff}
use event_driven_arch.Worker.{Surroundings, World, process}
use event_driven_arch.Worker.Failure.{Rejected}
use event_driven_arch.Worker.Process.{
  Processed, skipped, unmarked, stopped, delivered, unrecorded, rejected, Handled, process-Handled,
}
use event_driven_arch.Worker.Retries.{marked-at}

-- What the search for retries passes over.
passed_over :
    (n : Notification)
    → (n.status ≡ processing) ⊎ (n.max_retries ≤ n.retry_count)
    → (now : Time) → retry_due now n ≡ false
passed_over n h now = ground (arith, retry_due_iff now n)

module _ {S : Type 0} (repo : NotificationRepository S) (c : IsRepository repo)
    (backoff : List Duration) (w : Surroundings) where
  open c use {view, IsValid, keyed}

  -- A provider that refuses what was sent leaves the notification being processed, or failed with one
  -- more attempt counted; at the last attempt, or past it, the search for retries passes it over.
  Rejected-not_due :
      (n : Notification) (e : Error) (v u v' : View)
      → v n.id ≡ some n
      → n.max_retries ≤ n.retry_count + 1
      → Changed (Becomes processing) n.id v u
      → Rejected backoff w n e u v'
      → (n' : Notification) × (v' n.id ≡ some n') × ((now : Time) → retry_due now n' ≡ false)
  Rejected-not_due n e v u v' at last ch (inl (over, inl same)) =
      let (m, here, became) = marked-at n v u at ch in
      (m, same n.id ∙ here, passed_over m (inl became.1))
  Rejected-not_due n e v u v' at last ch (inl (over, inr ch')) =
      let (m, here, became) = marked-at n v u at ch in
      let (k, there, became') = Changed-at (BecomesFailed (w.error_text e)) n.id u v' ch' here in
      let most = became.0.max_retries in
      let most' = became'.0.max_retries in
      (k, there, passed_over k (inr (omega (arith, became.2, became'.3))))
  Rejected-not_due n e v u v' at last ch (inr (left, (d, is, inl same))) =
      let (m, here, became) = marked-at n v u at ch in
      (m, same n.id ∙ here, passed_over m (inl became.1))
  Rejected-not_due n e v u v' at last ch (inr (left, (d, is, inr ch'))) =
      let (m, here, became) = marked-at n v u at ch in
      let (k, there, became') = Changed-at _ n.id u v' ch' here in
      let most = became.0.max_retries in
      let most' = became'.0.max_retries in
      (k, there, passed_over k (inr (omega (arith, became'.3))))

  ended-not_due :
      (started : Err) (s t : World S) (n : Notification) (e : Error)
      → view s.db n.id ≡ some n
      → n.max_retries ≤ n.retry_count + 1
      → w.send n ≡ err e
      → t.sends ≢ s.sends
      → Processed backoff w view n (view s.db) started s t
      → (n' : Notification) × (view t.db n.id ≡ some n') × ((now : Time) → retry_due now n' ≡ false)
  ended-not_due st s t n e at last refuses reached (skipped was _ quiet) = absurd (reached quiet.0)
  ended-not_due st s t n e at last refuses reached (unmarked _ failed live _ quiet) =
      absurd (reached quiet.0)
  ended-not_due st s t n e at last refuses reached (stopped e' live waited go _ quiet) =
      absurd (reached quiet.0)
  ended-not_due st s t n e at last refuses reached
        (delivered u resp go live answer ch ch' es em ej) =
      absurd (cc)
  ended-not_due st s t n e at last refuses reached
        (unrecorded u resp go live answer ch effect es em ej) =
      absurd (cc)
  ended-not_due st s t n e at last refuses reached
        (rejected u e' go live answer ch effect es em ej) =
      Rejected-not_due n e' (view s.db) u (view t.db) at last ch effect

  Handled-not_due :
      (id : String) (s t : World S) (n : Notification) (e : Error)
      → IsValid s.db
      → view s.db id ≡ some n
      → n.max_retries ≤ n.retry_count + 1
      → w.send n ≡ err e
      → t.sends ≢ s.sends
      → Handled repo c backoff w id s t
      → (n' : Notification) × (view t.db n.id ≡ some n') × ((now : Time) → retry_due now n' ≡ false)
  Handled-not_due id s t n e valid at last refuses reached (inr (_, failed, missing, same, quiet)) =
      absurd (reached quiet.0)
  Handled-not_due id s t n e valid at last refuses reached (inl (m, is, found, ended)) =
      let same : m ≡ n = cc in
      ended-not_due _ s t n e (ap (view s.db) (keyed s.db id n valid at) ∙ at) last refuses reached
        (rw same at ended)

  -- Over any repository that meets the contract: a notification that a call of `process` sent to the
  -- provider with all its attempts but one counted, or more, and that the provider refused, is then
  -- stored as one that the search for due retries passes over at every time.
  pub process-last_retry :
      (item : Item) (s s' : World S) (n : Notification) (e : Error)
      → backoff ≢ []
      → IsValid s.db
      → process repo backoff w item s ≡ some s'
      → view s.db item.notification_id ≡ some n
      → n.max_retries ≤ n.retry_count + 1
      → w.send n ≡ err e
      → s'.sends ≢ s.sends
      → (n' : Notification) × (view s'.db n.id ≡ some n')
        × ((now : Time) → retry_due now n' ≡ false)
  process-last_retry item s s' n e some_delay valid ends at last refuses reached =
      elim (process-Handled repo c backoff w item s some_delay valid) [
        | inl (t, ended, valid', handled) ↦
            let same : t ≡ s' = cc in
            Handled-not_due item.notification_id s s' n e valid at last refuses reached
              (rw same at handled)
        | inr (panics, _) ↦ absurd (cc)
      ]
