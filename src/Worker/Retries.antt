-- ===== src/Worker/Retries.antt =====
-- How many attempts of a notification are counted.
use event_driven_arch.Common.{String, ◌≡◌, ◌≢◌, ◌⊎◌, inl, inr, List, [], some, arith, sym, ap, ◌∙◌}
use event_driven_arch.Domain.Errors.{Err, Error}
use event_driven_arch.Domain.Entities.{Time, Duration, processing, Notification}
use event_driven_arch.Queue.{Item}
use event_driven_arch.Repository.{NotificationRepository}
use event_driven_arch.Repository.Contract.{
  View, Same, Change, Changed, Becomes, BecomesSent, BecomesFailed, Write, IsRepository,
}
use event_driven_arch.Repository.Contract.Laws.{Changed-at}
use event_driven_arch.Repository.Contract.Throughout.{Throughout, IsWithin, either-Throughout}
use event_driven_arch.Worker.{Surroundings, World, process, run_job}
use event_driven_arch.Worker.Failure.{Rejected}
use event_driven_arch.Worker.Process.{
  Processed, skipped, unmarked, stopped, delivered, unrecorded, rejected, Handled, process-Handled,
}

-- What keeps the counts keeps the property.
abbrev Counts : Change → Type 0
Counts C =
    (n n' : Notification)
    → C n n'
    → (n'.retry_count ≡ n.retry_count) × (n'.max_retries ≡ n.max_retries)

within :
    (C : Change) (id : String) (v v' : View)
    → Counts C
    → Same v v' ⊎ Changed C id v v'
    → Throughout IsWithin v
    → Throughout IsWithin v'
within C id v v' counts effect all =
    either-Throughout IsWithin C id v v'
      (λ n n' at change h. let (a, b) = counts n n' change in omega arith) effect all

marked-Counts : Counts (Becomes processing)
marked-Counts n n' h = ground arith

failed-Counts : (text : String) → Counts (BecomesFailed text)
failed-Counts text n n' h = ground arith

sent-Counts : (msg_id : String) (at : Time) → Counts (BecomesSent msg_id at)
sent-Counts msg_id at n n' h = ground arith

-- The stored notification that a call which reached the provider had marked.
pub marked-at :
    (n : Notification) (v u : View)
    → v n.id ≡ some n
    → Changed (Becomes processing) n.id v u
    → (m : Notification) × (u n.id ≡ some m) × Becomes processing n m
marked-at n v u at ch = Changed-at (Becomes processing) n.id v u ch at

module _ {S : Type 0} (repo : NotificationRepository S) (c : IsRepository repo)
    (backoff : List Duration) (w : Surroundings) where
  open c use {view, IsValid, keyed}

  rejected-within :
      (n : Notification) (e : Error) (v u v' : View)
      → v n.id ≡ some n
      → Changed (Becomes processing) n.id v u
      → Rejected backoff w n e u v'
      → Throughout IsWithin u
      → Throughout IsWithin v'
  rejected-within n e v u v' at ch (inl (over, effect)) all =
      within (BecomesFailed (w.error_text e)) n.id u v' (failed-Counts _) effect all
  rejected-within n e v u v' at ch (inr (left, (d, is, effect))) all =
      let (m, here, became) = marked-at n v u at ch in
      either-Throughout IsWithin _ n.id u v'
        (λ k k' at' change h.
          let same : k ≡ m = cc in
          let most : k.max_retries ≡ n.max_retries =
            ap (λ x. x.max_retries) same ∙ became.0.max_retries in
          let most' = change.0.max_retries in let count = change.3 in omega arith)
        effect all

  processed-within :
      (n : Notification) (started : Err) (s s' : World S)
      → view s.db n.id ≡ some n
      → Processed backoff w view n (view s.db) started s s'
      → Throughout IsWithin (view s.db)
      → Throughout IsWithin (view s'.db)
  processed-within n st s s' at (skipped was same quiet) all =
      λ j k here. all j k (sym (same j) ∙ here)
  processed-within n st s s' at (unmarked e failed live effect quiet) all =
      within (Becomes processing) n.id _ _ marked-Counts effect all
  processed-within n st s s' at (stopped e live waited go ch quiet) all =
      within (Becomes processing) n.id _ _ marked-Counts (inr ch) all
  processed-within n st s s' at (delivered u resp go live answer ch ch' es em ej) all =
      within (BecomesSent resp.message_id w.now) n.id u _ (sent-Counts _ _) (inr ch')
        (within (Becomes processing) n.id _ u marked-Counts (inr ch) all)
  processed-within n st s s' at (unrecorded u resp go live answer ch effect es em ej) all =
      within (BecomesSent resp.message_id w.now) n.id u _ (sent-Counts _ _) effect
        (within (Becomes processing) n.id _ u marked-Counts (inr ch) all)
  processed-within n st s s' at (rejected u e go live answer ch effect es em ej) all =
      rejected-within n e (view s.db) u (view s'.db) at ch effect
        (within (Becomes processing) n.id _ _ marked-Counts (inr ch) all)

  -- Over any repository that meets the contract, where every stored notification has at most as many
  -- attempts counted as it may have, this holds after a call of `process` too.
  pub process-IsWithin :
      (item : Item) (s s' : World S)
      → backoff ≢ []
      → IsValid s.db
      → process repo backoff w item s ≡ some s'
      → Throughout IsWithin (view s.db)
      → Throughout IsWithin (view s'.db)
  process-IsWithin item s s' some_delay valid ends all =
      elim (process-Handled repo c backoff w item s some_delay valid) [
        | inl (t, ended, valid', handled) ↦
            let same : t ≡ s' = cc in rw (← same) (handled-within s t valid handled all)
        | inr (panics, _) ↦ absurd (cc)
      ]
    where
      handled-within :
          (s t : World S)
          → IsValid s.db
          → Handled repo c backoff w item.notification_id s t
          → Throughout IsWithin (view s.db)
          → Throughout IsWithin (view t.db)
      handled-within s t valid (inl (n, is, at, ended)) all =
          processed-within n _ s t
            (ap (view s.db) (keyed s.db item.notification_id n valid at) ∙ at) ended all
      handled-within s t valid (inr (e, failed, missing, same, quiet)) all =
          λ j n at. all j n (sym (same j) ∙ at)

  -- The goroutine that counts a batch leaves every notification as it was.
  pub run_job-Same :
      (batch_id : String) (s : World S)
      → IsValid s.db
      → IsValid (run_job repo backoff batch_id s).db
        × Same (view s.db) (view (run_job repo backoff batch_id s).db)
  unfolding run_job
  run_job-Same batch_id s valid = c.writes (Write.update_batch_counts batch_id) s.db valid
