-- ===== src/Repository/Mock.antt =====
-- internal/repository/mock_notification_repo.go: the in-memory repository. The mutex makes every
-- method one step; `clone` copies a record, which has no effect on values. The order of a `range`
-- over a map is that of the association list, which is arbitrary.
pub mod Refines
use event_driven_arch.Common.{
  ℕ, String, Bool, false, ◌&&◌, ◌||◌, List, [], ◌∷◌, Option, none, some, str_eq, length, ok, err,
  if◌then◌else◌,
}
use event_driven_arch.Common.Dict.{Dict, lookup, insert, adjust, values}
use event_driven_arch.Domain.Errors.{Error, Action, sentinel, not_found, conflict}
use event_driven_arch.Domain.Entities.{
  Time, Status, sent, failed, cancelled, Notification, Batch, ListFilter,
}
use event_driven_arch.Repository.{NotificationRepository}

-- `clock` is what `time.Now().UTC()` returns.
pub record MockNotificationRepository : Type 0 where
  pub notifications : Dict Notification
  pub batches : Dict Batch
  pub create_err : Option Error
  pub get_by_id_err : Option Error
  pub get_by_idempotency_key_err : Option Error
  pub clock : Time

abbrev pub Mock : Type 0
Mock = MockNotificationRepository

pub new_mock : Time → Mock
new_mock clock = record {
  notifications = [];
  batches = [];
  create_err = none;
  get_by_id_err = none;
  get_by_idempotency_key_err = none;
  clock = clock;
}

-- `p != nil && *p == key`
abbrev pub points_to : Option String → String → Bool
points_to none key = false
points_to (some k) key = str_eq k key

-- The loop of `Create` over the stored notifications.
pub key_taken : String → List Notification → Bool
key_taken key [] = false
key_taken key (n ∷ ns) = points_to n.idempotency_key key || key_taken key ns

-- `n.IdempotencyKey != nil` and some stored notification has the same key.
conflicts : Option String → List Notification → Bool
unfolding key_taken
conflicts none ns = false
conflicts (some key) ns = key_taken key ns

store : Notification → Mock → Mock
store n m = record m { notifications = insert n.id n m.notifications }

unfoldable pub create : Notification → Action Mock (Unit {0})
unfolding conflicts store
create n m = elim m.create_err [
  | some e ↦ (err e, m)
  | none ↦
      if conflicts n.idempotency_key (values m.notifications)
      then (err (sentinel conflict), m)
      else (ok tt, store n m)
]

unfoldable pub get_by_id : String → Action Mock Notification
get_by_id id m = elim m.get_by_id_err [
  | some e ↦ (err e, m)
  | none ↦ elim (lookup id m.notifications) [
    | none ↦ (err (sentinel not_found), m)
    | some n ↦ (ok n, m)
  ]
]

-- The loop of `GetByIdempotencyKey`.
pub find_key : String → List Notification → Option Notification
find_key key [] = none
find_key key (n ∷ ns) = if points_to n.idempotency_key key then some n else find_key key ns

unfoldable pub get_by_idempotency_key : String → Action Mock Notification
unfolding find_key
get_by_idempotency_key key m = elim m.get_by_idempotency_key_err [
  | some e ↦ (err e, m)
  | none ↦ elim (find_key key (values m.notifications)) [
    | none ↦ (err (sentinel not_found), m)
    | some n ↦ (ok n, m)
  ]
]

unfoldable pub list : ListFilter → Action Mock (List Notification × ℕ)
list filter m = (ok (values m.notifications, length (values m.notifications)), m)

-- `if n, ok := m.notifications[id]; ok { ... }` under the lock, and nil.
change : String → (Notification → Notification) → Action Mock (Unit {0})
change id f m = (ok tt, record m { notifications = adjust id f m.notifications })

unfoldable pub update_status : String → Status → Action Mock (Unit {0})
unfolding change
update_status id status = change id λ n. record n { status = status }

unfoldable pub mark_sent : String → String → Time → Action Mock (Unit {0})
unfolding change
mark_sent id provider_msg_id sent_at =
    change id λ n. record n {
      status = sent;
      provider_msg_id = some provider_msg_id;
      sent_at = some sent_at;
    }

unfoldable pub mark_failed : String → String → Action Mock (Unit {0})
unfolding change
mark_failed id err_msg = change id λ n. record n { status = failed; error_message = some err_msg }

unfoldable pub schedule_retry : String → ℕ → Time → String → Action Mock (Unit {0})
unfolding change
schedule_retry id retry_count next_retry err_msg = change id λ n. record n {
  retry_count = retry_count;
  next_retry_at = some next_retry;
  error_message = some err_msg;
  status = failed;
}

unfoldable pub cancel : String → Action Mock (Unit {0})
unfolding change
cancel id = change id λ n. record n { status = cancelled }

unfoldable pub find_due_retries : Action Mock (List Notification)
find_due_retries m = (ok [], m)

unfoldable pub find_due_scheduled : Action Mock (List Notification)
find_due_scheduled m = (ok [], m)

-- The loop of `CreateBatch` over the notifications.
store_all : List Notification → Mock → Mock
unfolding store
store_all [] m = m
store_all (n ∷ ns) m = store_all ns (store n m)

new_batch : String → ℕ → Time → Batch
new_batch id count now = record {
  id = id;
  total = count;
  pending = count;
  sent = 0;
  failed = 0;
  cancelled = 0;
  created_at = now;
  updated_at = now;
}

unfoldable pub create_batch : String → List Notification → Action Mock Batch
unfolding store_all new_batch
create_batch id ns m =
    let batch = new_batch id (length ns) m.clock in
    (ok batch, store_all ns (record m { batches = insert id batch m.batches }))

-- The loop of `GetBatch` over the stored notifications.
of_batch : String → List Notification → List Notification
of_batch id [] = []
of_batch id (n ∷ ns) =
    let rest = of_batch id ns in if points_to n.batch_id id then n ∷ rest else rest

unfoldable pub get_batch : String → Action Mock (Batch × List Notification)
unfolding of_batch
get_batch id m = elim (lookup id m.batches) [
  | none ↦ (err (sentinel not_found), m)
  | some batch ↦ (ok (batch, of_batch id (values m.notifications)), m)
]

unfoldable pub update_batch_counts : String → Action Mock (Unit {0})
update_batch_counts id m = (ok tt, m)

abbrev pub mock_repository : NotificationRepository Mock
mock_repository = record {
  create = create;
  get_by_id = get_by_id;
  get_by_idempotency_key = get_by_idempotency_key;
  list = list;
  update_status = update_status;
  mark_sent = mark_sent;
  mark_failed = mark_failed;
  schedule_retry = schedule_retry;
  cancel = cancel;
  find_due_retries = find_due_retries;
  find_due_scheduled = find_due_scheduled;
  create_batch = create_batch;
  get_batch = get_batch;
  update_batch_counts = update_batch_counts;
}
