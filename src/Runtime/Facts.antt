-- ===== src/Runtime/Facts.antt =====
-- What a goroutine in the middle of a call may rely on, and which requests it may make with that.
use event_driven_arch.Common.{ℕ, ◌≤◌, String, ◌≡◌, ◌≢◌, ◌⊎◌, List, [], ◌∷◌, some, ok, err, All}
use event_driven_arch.Domain.Errors.{Err, Error, Result}
use event_driven_arch.Domain.Entities.{Time, Duration, sent, Notification, Batch}
use event_driven_arch.Domain.Validation.{IsProper}
use event_driven_arch.Repository.Contract.{View, Write}
use event_driven_arch.Repository.Contract.Throughout.{IsWithin}
use event_driven_arch.Worker.{SendResponse}
use event_driven_arch.Runtime.{
  Code, return, panic, write, write_batch, get, get_by_key, find_retries, find_scheduled, put, wait,
  send, clock, measure, go,
}

abbrev pub In : {A : Type 0} → A → List A → Type 0
In x [] = ⊥
In x (y ∷ ys) = (x ≡ y) ⊎ In x ys

-- The stored notification with this id may have that many retries; the provider accepted the
-- notification with this id under that message id. Nothing that runs makes either untrue.
pub data Fact : Type 0 where
  limit : String → ℕ → Fact
  accept : String → String → Fact

abbrev pub Accepts : Type 0
Accepts = List (String × String)

abbrev pub Holds : View → Accepts → Fact → Type 0
Holds v accepts (limit id most) = (n : Notification) × (v id ≡ some n) × (n.max_retries ≡ most)
Holds v accepts (accept id msg_id) = In (id, msg_id) accepts

-- The provider accepted the notification under the message id that is stored, if it counts as sent.
abbrev pub IsAccounted : Accepts → Notification → Type 0
IsAccounted accepts n =
    n.status ≡ sent
    → (msg_id : String) × (n.provider_msg_id ≡ some msg_id) × In (n.id, msg_id) accepts

-- A notification that `Create` or `CreateBatch` may store.
abbrev pub IsNew : Notification → Type 0
IsNew n = IsWithin n × (n.status ≢ sent) × IsProper n

-- The writes that keep the stored notifications sound.
abbrev pub Allowed : List Fact → Write → Type 0
Allowed facts (Write.create n) = IsNew n
Allowed facts (Write.update_status id status) = status ≢ sent
Allowed facts (Write.mark_sent id msg_id at) = In (accept id msg_id) facts
Allowed facts (Write.mark_failed id text) = Unit
Allowed facts (Write.schedule_retry id count at text) =
    (most : ℕ) × (count ≤ most) × In (limit id most) facts
Allowed facts (Write.cancel id) = Unit
Allowed facts (Write.update_batch_counts id) = Unit

-- Whatever the answers are, the call makes only such writes; what it reads and what the provider
-- answers add to what it may rely on.
abbrev pub Safe : {A : Type 0} → List Fact → Code A → Type 0
Safe facts (return a) = Unit
Safe facts panic = Unit
Safe facts (write x k) = Allowed facts x × ((r : Err) → Safe facts (k r))
Safe facts (write_batch id ns k) = All IsNew ns × ((r : Result Batch) → Safe facts (k r))
Safe facts (get id k) =
    ((n : Notification) → Safe (limit n.id n.max_retries ∷ facts) (k (ok n)))
    × ((e : Error) → Safe facts (k (err e)))
Safe facts (get_by_key key k) = (r : Result Notification) → Safe facts (k r)
Safe facts (find_retries k) = (r : Result (List Notification)) → Safe facts (k r)
Safe facts (find_scheduled k) = (r : Result (List Notification)) → Safe facts (k r)
Safe facts (put item k) = (r : Err) → Safe facts (k r)
Safe facts (wait channel k) = (r : Err) → Safe facts (k r)
Safe facts (send n k) =
    ((resp : SendResponse) → Safe (accept n.id resp.message_id ∷ facts) (k (ok resp)))
    × ((e : Error) → Safe facts (k (err e)))
Safe facts (clock k) = (t : Time × Duration) → Safe facts (k t)
Safe facts (measure m k) = Safe facts k
Safe facts (go batches k) = Safe facts k
