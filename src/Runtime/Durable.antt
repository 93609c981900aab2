-- ===== src/Runtime/Durable.antt =====
-- What the running program never loses.
use event_driven_arch.Common.{String, ◌≡◌, refl, List, [], ◌∷◌, All-split}
use event_driven_arch.Domain.Errors.{Error}
use event_driven_arch.Domain.Entities.{Duration}
use event_driven_arch.Repository.{NotificationRepository}
use event_driven_arch.Repository.Contract.{View, IsRepository}
use event_driven_arch.Repository.Contract.Laws.{IsSameMessage-trans}
use event_driven_arch.Runtime.Advance.{IsHealthy, Follows, Later, Same-Later}
use event_driven_arch.Runtime.Facts.{Accepts}
use event_driven_arch.Runtime.Machine.{
  Machine, Step, post, post_batch, delete, tick_retries, tick_scheduled, take_high, take, count,
  run, Reach, here, later,
}
use event_driven_arch.Runtime.Safety.{IsSafe, advance_task-safe, Reach-IsSafe}
use event_driven_arch.Runtime.Sound.{KeepsMessages}

Later-trans : {u v w : View} {a b d : Accepts} → Later u a v b → Later v b w d → Later u a w d
Later-trans first second = record {
  messages = λ id n at.
      let (m, there, same) = first.messages id n at in
      let (k, still, again) = second.messages id m there in
      (k, still, IsSameMessage-trans n m k same again);
  accepted = λ x made. second.accepted x (first.accepted x made);
}

module _ {S : Type 0} (repo : NotificationRepository S) (c : IsRepository repo)
    (backoff : List Duration) (error_text : Error → String) where
  Step-Follows :
      {m m' : Machine S}
      → Step repo c backoff error_text m m'
      → IsSafe repo c m
      → Follows repo c m.shared m'.shared
  Step-Follows {m} (post req key id now) safe = Same-Later m.shared.accepts (λ j. refl)
  Step-Follows {m} (post_batch requests batch_id now ids clock) safe =
      Same-Later m.shared.accepts (λ j. refl)
  Step-Follows {m} (delete id) safe = Same-Later m.shared.accepts (λ j. refl)
  Step-Follows {m} tick_retries safe = Same-Later m.shared.accepts (λ j. refl)
  Step-Follows {m} tick_scheduled safe = Same-Later m.shared.accepts (λ j. refl)
  Step-Follows {m} (take_high item q taken) safe = Same-Later m.shared.accepts (λ j. refl)
  Step-Follows {m} (take k done item q taken) safe = Same-Later m.shared.accepts (λ j. refl)
  Step-Follows {m} (count before after batch_id some_job) safe =
      Same-Later m.shared.accepts (λ j. refl)
  Step-Follows {m} (run w before after t at fresh) (healthy, all) =
      let (first, rest) = All-split _ before (t ∷ after) (rw at at all) in
      (advance_task-safe repo c w t m.shared healthy fresh rest.0).1

  Reach-Follows :
      {m m' : Machine S}
      → Reach repo c backoff error_text m m'
      → IsSafe repo c m
      → Follows repo c m.shared m'.shared
  Reach-Follows {m} here safe = Same-Later m.shared.accepts (λ j. refl)
  Reach-Follows (later reach step) safe =
      Later-trans (Reach-Follows reach safe)
        (Step-Follows step (Reach-IsSafe repo c backoff error_text reach safe))

  -- Over any repository that meets the contract, and whatever the calls and their interleaving: from
  -- a healthy start with no call in progress, a notification that is stored in a state that the
  -- program reaches is stored in every later state too, with the same id, batch, channel, recipient,
  -- content, priority, idempotency key, limit of retries, schedule and time of creation.
  pub Reach-KeepsMessages :
      (start m m' : Machine S)
      → start.tasks ≡ []
      → IsHealthy repo c start.shared
      → Reach repo c backoff error_text start m
      → Reach repo c backoff error_text m m'
      → KeepsMessages (c.view m.shared.db) (c.view m'.shared.db)
  Reach-KeepsMessages start m m' idle healthy reach on =
      (Reach-Follows on
        (Reach-IsSafe repo c backoff error_text reach (healthy, rw idle tt))).messages
