-- ===== src/Worker/Delivery.antt =====
-- What a worker does while nothing fails.
use event_driven_arch.Common.{◌≡◌, false, List, [], ◌∷◌, ◌++◌, some, ok, refl, arith, ap, ◌∙◌}
use event_driven_arch.Domain.Entities.{Duration, processing, sent, Notification}
use event_driven_arch.Queue.{Item}
use event_driven_arch.Repository.{NotificationRepository}
use event_driven_arch.Repository.Contract.{
  View, IsSameMessage, Becomes, BecomesSent, Write, IsRepository,
}
use event_driven_arch.Repository.Contract.Laws.{Changed-at, IsSameMessage-trans}
use event_driven_arch.Repository.Contract.Reliable.{IsReliable}
use event_driven_arch.Worker.{
  SendResponse, Surroundings, World, is_cancelled, spawned, on_sent, process, fetched,
  unless_cancelled, marked_processing, deliver, after_send, count_sent,
}

-- The notification is stored as sent, under the provider's message id, and was sent once more.
abbrev pub IsDelivered :
    {S : Type 0} → (S → View) → Notification → SendResponse → World S → World S → Type 0
IsDelivered view n resp s s' =
    (n' : Notification) × (view s'.db n.id ≡ some n')
    × IsSameMessage n n'
    × (n'.status ≡ sent)
    × (n'.provider_msg_id ≡ some resp.message_id)
    × (s'.sends ≡ s.sends ++ n ∷ [])

module _ {S : Type 0} (repo : NotificationRepository S) (c : IsRepository repo)
    (r : IsReliable repo c) (backoff : List Duration) (w : Surroundings) where
  open c use {view, IsValid, keyed, writes, gets}

  -- Over any repository that meets the contract, in a state in which its statements work: where the
  -- item's notification is stored and not cancelled, the limiter grants a token and the provider
  -- accepts, `process` ends without a panic, the provider has been called once, and the notification is
  -- stored as sent, with the provider's message id and otherwise the same message.
  pub process-IsDelivered :
      (item : Item) (s : World S) (n : Notification) (resp : SendResponse)
      → IsValid s.db
      → r.IsCalm s.db
      → view s.db item.notification_id ≡ some n
      → is_cancelled n.status ≡ false
      → w.wait n.channel ≡ some (ok tt)
      → w.send n ≡ ok resp
      → (s' : World S) × (process repo backoff w item s ≡ some s') × IsDelivered view n resp s s'
  unfolding process fetched unless_cancelled marked_processing deliver after_send count_sent
  process-IsDelivered item s n resp valid calm at live granted accepted =
      let id = item.notification_id in
      let db₁ : S = (repo.get_by_id id s.db).1 in
      let (found, calm₁) = r.gets id n s.db calm at in
      let (valid₁, same, _) = gets id s.db valid in
      let db₂ : S = (repo.update_status n.id processing db₁).1 in
      let (marked, calm₂) = r.updates_status n.id processing db₁ calm₁ in
      let (valid₂, wrote₂) = writes (Write.update_status n.id processing) db₁ valid₁ in
      let (recorded, calm₃) = r.marks_sent n.id resp.message_id w.now db₂ calm₂ in
      let (valid₃, wrote₃) = writes (Write.mark_sent n.id resp.message_id w.now) db₂ valid₂ in
      let here : view db₁ n.id ≡ some n =
        same n.id ∙ ap (view s.db) (keyed s.db id n valid at) ∙ at in
      let (m, there, became) =
        Changed-at (Becomes processing) n.id _ _ (rw marked at wrote₂) here in
      let (k, stored, sent_) =
        Changed-at (BecomesSent resp.message_id w.now) n.id _ _ (rw recorded at wrote₃) there in
      (
        record s {
          db = (repo.mark_sent n.id resp.message_id w.now db₂).1;
          sends = s.sends ++ n ∷ [];
          metrics = s.metrics ++ on_sent n.channel w.elapsed ∷ [];
          jobs = s.jobs ++ spawned n.batch_id;
        },
        ground (arith, found, live, marked, granted, accepted, recorded),
        (k, stored, IsSameMessage-trans n m k became.0 sent_.0, sent_.1, sent_.2, refl),
      )
