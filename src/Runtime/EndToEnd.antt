-- ===== src/Runtime/EndToEnd.antt =====
-- From the request of a client to the provider: internal/service and internal/worker together.
use event_driven_arch.Common.{
  String, ◌≡◌, sym, ap, ◌∙◌, false, List, [], ◌∷◌, ◌++◌, Option, some, ok,
}
use event_driven_arch.Domain.Entities.{
  Time, Duration, sent, Notification, CreateNotificationRequest,
}
use event_driven_arch.Queue.{Item}
use event_driven_arch.Repository.{NotificationRepository, map_micros}
use event_driven_arch.Repository.Contract.{IsSameMessage, IsRepository}
use event_driven_arch.Repository.Contract.Reliable.{IsReliable}
use event_driven_arch.Service.{System, create}
use event_driven_arch.Service.RoundTrip.{Carries, created-Carries}
use event_driven_arch.Worker.{SendResponse, Surroundings, World, process}
use event_driven_arch.Worker.Delivery.{process-IsDelivered}

Carries-same :
    (req : CreateNotificationRequest) (id : String) (n m : Notification)
    → Carries req id n
    → IsSameMessage n m
    → Carries req id m
Carries-same req id n m carries same = (
  same.id ∙ carries.0,
  same.channel ∙ carries.1,
  same.recipient ∙ carries.2,
  same.content ∙ carries.3,
  same.priority ∙ carries.4,
  ap map_micros same.scheduled_at ∙ carries.5,
)

module _ {S : Type 0} (repo : NotificationRepository S) (c : IsRepository repo)
    (r : IsReliable repo c) (backoff : List Duration) (w : Surroundings) where
  -- What the worker is to do with the item of a posted notification: it calls the provider once, with
  -- a notification that carries the request, and that is stored as sent in the end.
  abbrev pub IsSent : CreateNotificationRequest → String → World S → Option (World S) → Type 0
  IsSent req id s ended =
      (s' : World S) × (n : Notification) × (n' : Notification) × (resp : SendResponse) × (ended
        ≡ some s')
      × (s'.sends ≡ s.sends ++ n ∷ [])
      × Carries req id n
      × (w.send n ≡ ok resp)
      × (c.view s'.db id ≡ some n')
      × Carries req id n'
      × (n'.status ≡ sent)
      × (n'.provider_msg_id ≡ some resp.message_id)

  -- Over any repository that meets the contract: where `Create` returned a notification as new, and
  -- from then on the statements work, the limiter grants a token for its channel, and the provider
  -- accepts what carries the request, a worker that processes the item of the notification does not
  -- panic, calls the provider once, with the channel, recipient and content of the request, and the
  -- notification is then stored as sent under the provider's message id.
  pub posted-IsSent :
      (req : CreateNotificationRequest) (key id : String) (now : Time) (s : System S)
      (n : Notification) (world : World S)
      → c.IsValid s.db
      → (create repo req key id now s).0 ≡ ok (n, false)
      → world.db ≡ (create repo req key id now s).1.db
      → r.IsCalm world.db
      → w.wait req.channel ≡ some (ok tt)
      → ((m : Notification) → Carries req id m → (resp : SendResponse) × (w.send m ≡ ok resp))
      → (item : Item) → item.notification_id ≡ id
      → IsSent req id world (process repo backoff w item world)
  posted-IsSent req key id now s n world valid is same calm grants accepts item item_id =
      let (valid', (m, at, carries, live)) = created-Carries repo c req key id now s n valid is in
      let (resp, accepted) = accepts m carries in
      let (s', ended, (k, stored, kept, sent_, msg_id, sends)) =
        process-IsDelivered repo c r backoff w item world m resp (rw same valid') calm
          (rw (same, item_id) at) live (rw carries.1 grants) accepted in
      (
        s',
        m,
        k,
        resp,
        ended,
        sends,
        carries,
        accepted,
        ap (c.view s'.db) (sym carries.0) ∙ stored,
        Carries-same req id m k carries kept,
        sent_,
        msg_id,
      )
