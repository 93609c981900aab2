-- ===== src/Repository/Pg.antt =====
-- internal/repository/pg_notification_repo.go: the SQL statements as changes of the tables.
pub mod Statements
pub mod Due
pub mod Listing
pub mod Batches
pub mod Implements
pub mod Rows
pub mod Inserts
pub mod Lookups
pub mod Refines
pub mod Keys
pub mod Reliable
pub mod Reads
use text.Mathlib.Text.{find?}
use event_driven_arch.Common.{
  ℕ, ◌+◌, ◌-◌, ◌*◌, ◌%◌, ◌^◌, String, Bool, true, false, not, ◌&&◌, ◌||◌, List, [], ◌∷◌, ◌++◌, map,
  Option, none, some, str_eq, length, ok, err, if◌then◌else◌, leb, ltb, take, drop, select, any,
  head?, ◌==◌,
}
use event_driven_arch.Common.Int.{leb_ℤ}
use event_driven_arch.Domain.Errors.{
  Error, Result, Err, Action, sentinel, wrapped, foreign, not_found, conflict,
}
use event_driven_arch.Domain.Entities.{
  Time, Status, pending, queued, processing, sent, failed, cancelled, scheduled, Notification,
  Batch, ListFilter, is_valid_channel, is_valid_priority,
}
use event_driven_arch.Repository.{NotificationRepository, to_micros, map_micros}
use Statements.{Fate, Pg, Server, Reply, send, reading, writing}

-- The labels of the enumeration `notification_status`.
pub status_text : Status → String
status_text pending = "pending"
status_text queued = "queued"
status_text processing = "processing"
status_text sent = "sent"
status_text failed = "failed"
status_text cancelled = "cancelled"
status_text scheduled = "scheduled"

unfoldable pub is_status_text : String → Bool
is_status_text s =
    str_eq s "pending"
    || str_eq s "queued"
    || str_eq s "processing"
    || str_eq s "sent"
    || str_eq s "failed"
    || str_eq s "cancelled"
    || str_eq s "scheduled"

abbrev points_to : Option String → String → Bool
points_to none key = false
points_to (some k) key = str_eq k key

abbrev has_id : String → Notification → Bool
has_id id n = str_eq n.id id

abbrev has_key : String → Notification → Bool
has_key key n = points_to n.idempotency_key key

abbrev in_batch : String → Notification → Bool
in_batch id n = points_to n.batch_id id

-- `strings.Contains`
contains : String → String → Bool
contains s t = elim (find? s t) [ none ↦ false | some _ ↦ true ]

-- `UPDATE notifications SET ... WHERE id = $n`, with the trigger that sets `updated_at`.
abbrev touched : Time → (Notification → Notification) → Notification → Notification
touched now f n = record (f n) { updated_at = now }

update_rows : String → (Notification → Notification) → List Notification → List Notification
update_rows id f [] = []
update_rows id f (n ∷ ns) = (if has_id id n then f n else n) ∷ update_rows id f ns

unfoldable pub update_by_id : String → (Notification → Notification) → Pg → Pg
unfolding update_rows
update_by_id id f p = record p { rows = update_rows id (touched p.now f) p.rows }

pub key_in_use : Option String → List Notification → Bool
key_in_use none ns = false
key_in_use (some key) ns = any (has_key key) ns

batch_missing : Option String → List Batch → Bool
batch_missing none bs = false
batch_missing (some id) bs = not (any (λ b. str_eq b.id id) bs)

-- The columns that the INSERT names, the times among them to the microsecond; the others take their
-- defaults.
pub inserted : Notification → Notification
inserted n = record n {
  next_retry_at = none;
  sent_at = none;
  provider_msg_id = none;
  error_message = none;
  scheduled_at = map_micros n.scheduled_at;
  created_at = to_micros n.created_at;
  updated_at = to_micros n.updated_at;
}

module _ (server : Server) where
  -- `INSERT INTO notifications`, with the constraints of the table.
  insert_row : Notification → Pg → Reply (Unit {0} × Pg)
  unfolding key_in_use batch_missing inserted
  insert_row n p =
      if not (is_valid_channel n.channel && is_valid_priority n.priority)
      then err server.bad_value
      else if any (has_id n.id) p.rows
      then err server.duplicate_id
      else if key_in_use n.idempotency_key p.rows
      then err server.duplicate_key
      else if batch_missing n.batch_id p.batches
      then err server.missing_batch
      else ok (tt, record p { rows = inserted n ∷ p.rows })

  create_error : Reply (Unit {0}) → Err
  create_error (ok _) = ok tt
  create_error (err text) =
      if contains text "idempotency_key"
      then err (sentinel conflict)
      else err (wrapped "insert notification" (foreign text))

  unfoldable pub create : Notification → Action Pg (Unit {0})
  unfolding create_error insert_row contains
  create n p = let (r, p') = send (insert_row n) p in (create_error r, p')

-- `err` as the pool returned it.
plain : {A : Type 0} → Reply A → Result A
plain (ok a) = ok a
plain (err text) = err (foreign text)

explained : {A : Type 0} → String → Reply A → Result A
explained text (ok a) = ok a
explained text (err e) = err (wrapped text (foreign e))

-- `QueryRow` and `scanNotification`: the first row, `pgx.ErrNoRows` where there is none.
one_row : Reply (Option Notification) → Result Notification
one_row (ok (some n)) = ok n
one_row (ok none) = err (sentinel not_found)
one_row (err text) = err (foreign text)

query_row : (Notification → Bool) → Action Pg Notification
unfolding one_row
query_row test p =
    let (r, p') = send (reading (λ t. ok (head? (select test t.rows)))) p in (one_row r, p')

unfoldable pub get_by_id : String → Action Pg Notification
unfolding query_row
get_by_id id = query_row (has_id id)

unfoldable pub get_by_idempotency_key : String → Action Pg Notification
unfolding query_row
get_by_idempotency_key key = query_row (has_key key)

pub update : String → (Notification → Notification) → Action Pg (Unit {0})
unfolding plain update_by_id
update id f p = let (r, p') = send (writing (update_by_id id f)) p in (plain r, p')

unfoldable pub update_status : String → Status → Action Pg (Unit {0})
unfolding update
update_status id status = update id λ n. record n { status = status }

unfoldable pub mark_sent : String → String → Time → Action Pg (Unit {0})
unfolding update
mark_sent id provider_msg_id sent_at = update id λ n. record n {
  status = sent;
  provider_msg_id = some provider_msg_id;
  sent_at = some (to_micros sent_at);
  error_message = none;
}

unfoldable pub mark_failed : String → String → Action Pg (Unit {0})
unfolding update
mark_failed id err_msg =
    update id λ n. record n { status = failed; error_message = some err_msg; next_retry_at = none }

unfoldable pub schedule_retry : String → ℕ → Time → String → Action Pg (Unit {0})
unfolding update
schedule_retry id retry_count next_retry err_msg = update id λ n. record n {
  status = failed;
  retry_count = retry_count;
  next_retry_at = some (to_micros next_retry);
  error_message = some err_msg;
}

unfoldable pub cancel : String → Action Pg (Unit {0})
unfolding update
cancel id = update id λ n. record n { status = cancelled }

abbrev is_failed : Status → Bool
is_failed failed = true
is_failed _ = false

abbrev is_scheduled : Status → Bool
is_scheduled scheduled = true
is_scheduled _ = false

-- `column <= NOW()`, which is not true of NULL.
abbrev is_past : Option Time → Time → Bool
is_past none now = false
is_past (some t) now = leb_ℤ t now

-- The conditions of the two searches.
unfoldable pub retry_due : Time → Notification → Bool
retry_due now n =
    is_failed n.status && (ltb n.retry_count n.max_retries && is_past n.next_retry_at now)

unfoldable pub schedule_due : Time → Notification → Bool
schedule_due now n = is_scheduled n.status && is_past n.scheduled_at now

find_due : String → (Time → Notification → Bool) → Action Pg (List Notification)
unfolding explained
find_due text test p =
    let (r, p') = send (reading (λ t. ok (take 500 (select (test t.now) t.rows)))) p in
    (explained text r, p')

unfoldable pub find_due_retries : Action Pg (List Notification)
unfolding find_due
find_due_retries = find_due "find due retries" retry_due

unfoldable pub find_due_scheduled : Action Pg (List Notification)
unfolding find_due
find_due_scheduled = find_due "find due scheduled" schedule_due
