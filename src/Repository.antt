-- ===== src/Repository.antt =====
-- internal/repository/notification_repo.go: the interface `NotificationRepository`, over the state
-- `S` of an implementation.
pub mod Contract
pub mod Mock
pub mod Pg
use event_driven_arch.Common.{ℕ, ◌+◌, ◌*◌, ◌/◌, String, List, Option, none, some}
use event_driven_arch.Common.Int.{pos, negsuc}
use event_driven_arch.Domain.Errors.{Action}
use event_driven_arch.Domain.Entities.{Time, Status, Notification, Batch, ListFilter}

-- What a column of type TIMESTAMPTZ keeps of an instant: its whole microseconds.
abbrev pub to_micros : Time → Time
to_micros (pos n) = pos (n / 1000 * 1000)
to_micros (negsuc n) = negsuc (n / 1000 * 1000 + 999)

abbrev pub map_micros : Option Time → Option Time
map_micros none = none
map_micros (some t) = some (to_micros t)

pub record NotificationRepository (S : Type 0) : Type 0 where
  pub create : Notification → Action S (Unit {0})
  pub get_by_id : String → Action S Notification
  pub get_by_idempotency_key : String → Action S Notification
  pub list : ListFilter → Action S (List Notification × ℕ)
  pub update_status : String → Status → Action S (Unit {0})
  pub mark_sent : String → String → Time → Action S (Unit {0})
  pub mark_failed : String → String → Action S (Unit {0})
  pub schedule_retry : String → ℕ → Time → String → Action S (Unit {0})
  pub cancel : String → Action S (Unit {0})
  pub find_due_retries : Action S (List Notification)
  pub find_due_scheduled : Action S (List Notification)
  pub create_batch : String → List Notification → Action S Batch
  pub get_batch : String → Action S (Batch × List Notification)
  pub update_batch_counts : String → Action S (Unit {0})
