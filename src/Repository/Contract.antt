-- ===== src/Repository/Contract.antt =====
-- What the callers of a repository rely on: its notifications as a function of their ids, and what
-- each method does to that function.
pub mod Laws
pub mod Throughout
pub mod Keys
pub mod Reliable
use event_driven_arch.Common.{
  ℕ, ◌<◌, String, ◌≡◌, ◌≢◌, ◌⊎◌, List, [], ◌∷◌, Option, none, some, true, ok, err, All,
}
use event_driven_arch.Domain.Errors.{Action, Result, errors_is, not_found}
use event_driven_arch.Domain.Entities.{
  Time, Status, sent, failed, cancelled, scheduled, Notification, ListFilter,
}
use event_driven_arch.Repository.{NotificationRepository, to_micros, map_micros}

abbrev pub View : Type 0
View = String → Option Notification

abbrev pub Same : View → View → Type 0
Same v v' = (j : String) → v' j ≡ v j

-- What no method changes in a stored notification.
pub record IsSameMessage (n n' : Notification) : Type 0 where
  pub id : n'.id ≡ n.id
  pub batch_id : n'.batch_id ≡ n.batch_id
  pub channel : n'.channel ≡ n.channel
  pub recipient : n'.recipient ≡ n.recipient
  pub content : n'.content ≡ n.content
  pub priority : n'.priority ≡ n.priority
  pub idempotency_key : n'.idempotency_key ≡ n.idempotency_key
  pub max_retries : n'.max_retries ≡ n.max_retries
  pub scheduled_at : n'.scheduled_at ≡ n.scheduled_at
  pub created_at : n'.created_at ≡ n.created_at

-- What `Create` keeps of a notification. A column of type TIMESTAMPTZ drops what is below a
-- microsecond of an instant.
pub record IsInserted (n n' : Notification) : Type 0 where
  pub id : n'.id ≡ n.id
  pub batch_id : n'.batch_id ≡ n.batch_id
  pub channel : n'.channel ≡ n.channel
  pub recipient : n'.recipient ≡ n.recipient
  pub content : n'.content ≡ n.content
  pub priority : n'.priority ≡ n.priority
  pub idempotency_key : n'.idempotency_key ≡ n.idempotency_key
  pub max_retries : n'.max_retries ≡ n.max_retries
  pub scheduled_at : map_micros n'.scheduled_at ≡ map_micros n.scheduled_at
  pub created_at : to_micros n'.created_at ≡ to_micros n.created_at

abbrev pub Change : Type 1
Change = Notification → Notification → Type 0

-- The status is the given one, and the retry state is left alone.
abbrev pub Becomes : Status → Change
Becomes s n n' =
    IsSameMessage n n'
    × (n'.status ≡ s)
    × (n'.retry_count ≡ n.retry_count)
    × (n'.next_retry_at ≡ n.next_retry_at)

-- The time is stored to the microsecond.
abbrev pub BecomesSent : String → Time → Change
BecomesSent msg_id at n n' =
    IsSameMessage n n'
    × (n'.status ≡ sent)
    × (n'.provider_msg_id ≡ some msg_id)
    × (map_micros n'.sent_at ≡ some (to_micros at))
    × (n'.retry_count ≡ n.retry_count)

abbrev pub BecomesFailed : String → Change
BecomesFailed text n n' =
    IsSameMessage n n'
    × (n'.status ≡ failed)
    × (n'.error_message ≡ some text)
    × (n'.retry_count ≡ n.retry_count)

abbrev pub BecomesRetried : ℕ → Time → String → Change
BecomesRetried count at text n n' =
    IsSameMessage n n'
    × (n'.status ≡ failed)
    × (n'.error_message ≡ some text)
    × (n'.retry_count ≡ count)
    × (map_micros n'.next_retry_at ≡ some (to_micros at))

-- A change at one id, if a notification is there; no other id is touched.
abbrev pub ChangedCell : Change → Option Notification → Option Notification → Type 0
ChangedCell C none c' = c' ≡ none
ChangedCell C (some n) c' = (n' : Notification) × (c' ≡ some n') × C n n'

pub record Changed (C : Change) (id : String) (v v' : View) : Type 0 where
  pub here : ChangedCell C (v id) (v' id)
  pub elsewhere : (j : String) → j ≢ id → v' j ≡ v j

-- A write that reports an error may have taken effect, where the report of its success was lost.
abbrev pub Wrote : {A : Type 0} → Change → String → View → View → Result A → Type 0
Wrote C id v v' (ok _) = Changed C id v v'
Wrote C id v v' (err _) = Same v v' ⊎ Changed C id v v'

-- `Create` stores the notification, its times to the microsecond.
abbrev pub Stored : Change
Stored n n' = IsInserted n n' × (n'.status ≡ n.status) × (n'.retry_count ≡ n.retry_count)

pub record Added (n : Notification) (v v' : View) : Type 0 where
  pub stored : (n' : Notification) × (v' n.id ≡ some n') × Stored n n'
  pub elsewhere : (j : String) → j ≢ n.id → v' j ≡ v j

abbrev pub Created : {A : Type 0} → Notification → View → View → Result A → Type 0
Created n v v' (ok _) = Added n v v'
Created n v v' (err _) = Same v v' ⊎ Added n v v'

-- `CreateBatch` stores its notifications one by one; each has the property in the view it is added to.
abbrev pub AddedAll : (Notification → View → Type 0) → List Notification → View → View → Type 0
AddedAll Q [] v v' = Same v v'
AddedAll Q (n ∷ ns) v v' = (u : View) × Added n v u × Q n v × AddedAll Q ns u v'

abbrev pub CreatedAll : {A : Type 0} → List Notification → View → View → Result A → Type 0
CreatedAll ns v v' (ok _) = AddedAll (λ n u. Unit {0}) ns v v'
CreatedAll ns v v' (err _) = Same v v' ⊎ AddedAll (λ n u. Unit {0}) ns v v'

-- What a lookup by id returned.
abbrev pub Found : String → View → Result Notification → Type 0
Found id v (ok n) = v id ≡ some n
Found id v (err e) = (errors_is e not_found ≡ true) → v id ≡ none

-- What a lookup by idempotency key returned.
abbrev pub FoundByKey : String → View → Result Notification → Type 0
FoundByKey key v (ok n) = (v n.id ≡ some n) × (n.idempotency_key ≡ some key)
FoundByKey key v (err e) =
    (errors_is e not_found ≡ true)
    → (j : String) (n : Notification) → v j ≡ some n
    → n.idempotency_key ≢ some key

-- What a search for due notifications returned: stored ones, of one status.
abbrev pub FoundDue : (Notification → Type 0) → View → Result (List Notification) → Type 0
FoundDue P v (ok ns) = All (λ n. (v n.id ≡ some n) × P n) ns
FoundDue P v (err _) = Unit

abbrev pub IsRetriable : Notification → Type 0
IsRetriable n = (n.status ≡ failed) × (n.retry_count < n.max_retries)

abbrev pub IsScheduled : Notification → Type 0
IsScheduled n = n.status ≡ scheduled

-- The methods that write one row and return an error.
pub data Write : Type 0 where
  create : Notification → Write
  update_status : String → Status → Write
  mark_sent : String → String → Time → Write
  mark_failed : String → String → Write
  schedule_retry : String → ℕ → Time → String → Write
  cancel : String → Write
  update_batch_counts : String → Write

abbrev pub call : {S : Type 0} → NotificationRepository S → Write → Action S (Unit {0})
call r (create n) = r.create n
call r (update_status id status) = r.update_status id status
call r (mark_sent id msg_id at) = r.mark_sent id msg_id at
call r (mark_failed id text) = r.mark_failed id text
call r (schedule_retry id count at text) = r.schedule_retry id count at text
call r (cancel id) = r.cancel id
call r (update_batch_counts id) = r.update_batch_counts id

abbrev pub Effect : Write → View → View → Result (Unit {0}) → Type 0
Effect (create n) v v' = Created n v v'
Effect (update_status id status) v v' = Wrote (Becomes status) id v v'
Effect (mark_sent id msg_id at) v v' = Wrote (BecomesSent msg_id at) id v v'
Effect (mark_failed id text) v v' = Wrote (BecomesFailed text) id v v'
Effect (schedule_retry id count at text) v v' = Wrote (BecomesRetried count at text) id v v'
Effect (cancel id) v v' = Wrote (Becomes cancelled) id v v'
Effect (update_batch_counts id) v v' = λ _. Same v v'

-- A repository meets the contract where it has an invariant under which every method has the effect
-- and the result that are stated for it.
pub record IsRepository {S : Type 0} (r : NotificationRepository S) : Type 1 where
  pub view : S → View
  pub IsValid : S → Type 0
  pub keyed : (s : S) (id : String) (n : Notification) → IsValid s → view s id ≡ some n → n.id ≡ id
  pub writes :
      (w : Write) (s : S)
      → IsValid s
      → let (result, s') = call r w s in IsValid s' × Effect w (view s) (view s') result
  pub writes_batch :
      (id : String) (ns : List Notification) (s : S)
      → IsValid s
      → let (result, s') = r.create_batch id ns s in
        IsValid s' × CreatedAll ns (view s) (view s') result
  pub gets :
      (id : String) (s : S)
      → IsValid s
      → let (result, s') = r.get_by_id id s in
        IsValid s' × Same (view s) (view s') × Found id (view s) result
  pub gets_by_key :
      (key : String) (s : S)
      → IsValid s
      → let (result, s') = r.get_by_idempotency_key key s in
        IsValid s' × Same (view s) (view s') × FoundByKey key (view s) result
  pub lists :
      (filter : ListFilter) (s : S)
      → IsValid s
      → let s' = (r.list filter s).1 in IsValid s' × Same (view s) (view s')
  pub gets_batch :
      (id : String) (s : S)
      → IsValid s
      → let s' = (r.get_batch id s).1 in IsValid s' × Same (view s) (view s')
  pub finds_retries :
      (s : S)
      → IsValid s
      → let (result, s') = r.find_due_retries s in
        IsValid s' × Same (view s) (view s') × FoundDue IsRetriable (view s) result
  pub finds_scheduled :
      (s : S)
      → IsValid s
      → let (result, s') = r.find_due_scheduled s in
        IsValid s' × Same (view s) (view s') × FoundDue IsScheduled (view s) result
