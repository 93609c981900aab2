-- ===== src/Service/Cancel.antt =====
-- The state machine of `Cancel`.
use event_driven_arch.Common.{String, ◌≡◌, ◌⊎◌, true, none, some, ok, err}
use event_driven_arch.Domain.Errors.{
  Err, Error, errors_is, not_found, sentinel, already_cancelled, not_cancellable,
}
use event_driven_arch.Domain.Entities.{Status, processing, sent, cancelled, Notification}
use event_driven_arch.Repository.{NotificationRepository}
use event_driven_arch.Repository.Contract.{View, Same, Changed, Becomes, IsRepository}
use event_driven_arch.Service.{System}

-- The statuses that a cancellation may end.
abbrev pub IsCancellable : Status → Type 0
IsCancellable cancelled = ⊥
IsCancellable processing = ⊥
IsCancellable sent = ⊥
IsCancellable _ = Unit {0}

-- What a call of `Cancel` did that found the notification `n` with the id.
abbrev pub CancelSpec : String → Notification → View → View → Err → Type 0
CancelSpec id n v v' (ok _) = IsCancellable n.status × Changed (Becomes cancelled) id v v'
CancelSpec id n v v' (err e) =
    ((n.status ≡ cancelled) × (e ≡ sentinel already_cancelled) × Same v v')
    ⊎ (((n.status ≡ processing) ⊎ (n.status ≡ sent)) × (e ≡ sentinel not_cancellable) × Same v v')
    ⊎ (IsCancellable n.status × (Same v v' ⊎ Changed (Becomes cancelled) id v v'))

module _ {S : Type 0} (repo : NotificationRepository S) (c : IsRepository repo) where
  open c use {view, IsValid, writes, gets}

  -- How `Cancel` ended: the lookup found the notification, and what followed is by its status; or
  -- the lookup failed, and its error is the answer.
  abbrev pub CancelOutcome : String → System S → Err × System S → Type 0
  CancelOutcome id s (r, s') =
      ((n : Notification) × ((repo.get_by_id id s.db).0 ≡ ok n)
        × (view s.db id ≡ some n)
        × CancelSpec id n (view s.db) (view s'.db) r)
      ⊎ ((e : Error) × ((repo.get_by_id id s.db).0 ≡ err e)
          × (r ≡ err e)
          × Same (view s.db) (view s'.db)
          × ((errors_is e not_found ≡ true) → view s.db id ≡ none))
