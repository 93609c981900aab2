-- ===== src/Repository/Contract/Reliable.antt =====
-- A repository while nothing fails.
use event_driven_arch.Common.{String, ◌≡◌, some, ok}
use event_driven_arch.Domain.Entities.{Time, Status, Notification}
use event_driven_arch.Repository.{NotificationRepository}
use event_driven_arch.Repository.Contract.{IsRepository}

-- In a state that is calm, a stored notification is found, an update works, and the state stays calm.
pub record IsReliable {S : Type 0} (r : NotificationRepository S) (c : IsRepository r)
    : Type 1 where
  pub IsCalm : S → Type 0
  pub gets :
      (id : String) (n : Notification) (s : S)
      → IsCalm s
      → c.view s id ≡ some n
      → let (result, s') = r.get_by_id id s in (result ≡ ok n) × IsCalm s'
  pub updates_status :
      (id : String) (status : Status) (s : S)
      → IsCalm s
      → let (result, s') = r.update_status id status s in (result ≡ ok tt) × IsCalm s'
  pub marks_sent :
      (id msg_id : String) (at : Time) (s : S)
      → IsCalm s
      → let (result, s') = r.mark_sent id msg_id at s in (result ≡ ok tt) × IsCalm s'
