-- ===== src/Worker/Channels.antt =====
-- `process` of internal/worker/worker.go and the channels of what is stored.
use event_driven_arch.Common.{String, ◌≢◌, ◌⊎◌, inl, inr, List, none, sym, ◌∙◌}
use event_driven_arch.Domain.Errors.{Err}
use event_driven_arch.Domain.Entities.{Channel, Duration, processing, Notification}
use event_driven_arch.Domain.Validation.{IsChannel}
use event_driven_arch.Repository.{NotificationRepository}
use event_driven_arch.Repository.Contract.{
  View, Same, Change, Changed, Becomes, BecomesSent, BecomesFailed, IsSameMessage, IsRepository,
}
use event_driven_arch.Repository.Contract.Throughout.{Throughout, either-Throughout}
use event_driven_arch.Worker.{Surroundings, World}
use event_driven_arch.Worker.Process.{
  Processed, skipped, unmarked, stopped, delivered, unrecorded, rejected, Handled,
}

abbrev pub HasChannel : Notification → Type 0
HasChannel n = IsChannel n.channel

-- The map of the limiter has an entry for each of the three channels, as that of `New` has.
abbrev pub IsLimited : Surroundings → Type 0
IsLimited w = (channel : Channel) → IsChannel channel → w.wait channel ≢ none

channels :
    (C : Change) (id : String) (v v' : View)
    → ((n n' : Notification) → C n n' → IsSameMessage n n')
    → Same v v' ⊎ Changed C id v v'
    → Throughout HasChannel v
    → Throughout HasChannel v'
channels C id v v' keeps effect all =
    either-Throughout HasChannel C id v v' (λ n n' at change h. rw ((keeps n n' change).channel) h)
      effect all

module _ {S : Type 0} (repo : NotificationRepository S) (c : IsRepository repo)
    (backoff : List Duration) (w : Surroundings) where
  open c use {view, IsValid}

  processed-channels :
      (n : Notification) (started : Err) (s s' : World S)
      → Processed backoff w view n (view s.db) started s s'
      → Throughout HasChannel (view s.db)
      → Throughout HasChannel (view s'.db)
  processed-channels n st s s' (skipped was same quiet) all =
      λ j k here. all j k (sym (same j) ∙ here)
  processed-channels n st s s' (unmarked e failed live effect quiet) all =
      channels (Becomes processing) n.id _ _ (λ k k' ch. ch.0) effect all
  processed-channels n st s s' (stopped e live waited go ch quiet) all =
      channels (Becomes processing) n.id _ _ (λ k k' ch. ch.0) (inr ch) all
  processed-channels n st s s' (delivered u resp go live answer ch ch' es em ej) all =
      channels (BecomesSent resp.message_id w.now) n.id u _ (λ k k' ch. ch.0) (inr ch')
        (channels (Becomes processing) n.id _ u (λ k k' ch. ch.0) (inr ch) all)
  processed-channels n st s s' (unrecorded u resp go live answer ch effect es em ej) all =
      channels (BecomesSent resp.message_id w.now) n.id u _ (λ k k' ch. ch.0) effect
        (channels (Becomes processing) n.id _ u (λ k k' ch. ch.0) (inr ch) all)
  processed-channels n st s s' (rejected u e go live answer ch (inl (over, effect)) es em ej) all =
      channels (BecomesFailed (w.error_text e)) n.id u _ (λ k k' ch. ch.0) effect
        (channels (Becomes processing) n.id _ u (λ k k' ch. ch.0) (inr ch) all)
  processed-channels n st s s'
        (rejected u e go live answer ch (inr (left, (d, is, effect))) es em ej) all =
      channels _ n.id u _ (λ k k' ch. ch.0) effect
        (channels (Becomes processing) n.id _ u (λ k k' ch. ch.0) (inr ch) all)

  pub Handled-channels :
      (id : String) (s s' : World S)
      → Handled repo c backoff w id s s'
      → Throughout HasChannel (view s.db)
      → Throughout HasChannel (view s'.db)
  Handled-channels id s s' (inl (n, is, at, ended)) all = processed-channels n _ s s' ended all
  Handled-channels id s s' (inr (e, failed, missing, same, quiet)) all =
      λ j n at. all j n (sym (same j) ∙ at)
