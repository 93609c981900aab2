-- ===== src/Tests.antt =====
-- Concrete requests, notifications, queues and databases.
mod Queues
mod Services
mod Workers
mod Handlers
mod Runs
mod Setup
mod Pools
mod Pages
use event_driven_arch.Common.{ℕ, String, List, [], ◌∷◌, none, some, err, refl}
use event_driven_arch.Common.Int.{pos}
use event_driven_arch.Domain.Errors.{foreign}
use event_driven_arch.Domain.Entities.{Time, Status, Notification, CreateNotificationRequest}
use event_driven_arch.Queue.{Item, PriorityQueue}
use event_driven_arch.Queue.Buffered.{Chan}
use event_driven_arch.Repository.Pg.Statements.{Pg, Server}
use event_driven_arch.Repository.Pg.Implements.{pg_repository}
use event_driven_arch.Repository.Pg.Rows.{IsDistinct}
use event_driven_arch.Service.{System}

abbrev pub request : CreateNotificationRequest
request = record {
  channel = "sms";
  recipient = "+905551234567";
  content = "your code is 42";
  priority = "high";
  scheduled_at = none;
}

abbrev pub nameless : CreateNotificationRequest
nameless = record request { recipient = "" }

abbrev pub notification : Status → ℕ → Notification
notification status retry_count = record {
  id = "n1";
  batch_id = none;
  channel = "sms";
  recipient = "+905551234567";
  content = "your code is 42";
  priority = "high";
  status = status;
  idempotency_key = some "k1";
  retry_count = retry_count;
  max_retries = 3;
  next_retry_at = none;
  scheduled_at = none;
  sent_at = none;
  provider_msg_id = none;
  error_message = none;
  created_at = pos 0;
  updated_at = pos 0;
}

abbrev pub item : String → Item
item priority = record { notification_id = "n1"; channel = "sms"; priority = priority }

abbrev pub lane_of : ℕ → List Item → Chan Item
lane_of capacity items = record { capacity = capacity; waiting = items }

abbrev pub queue : List Item → List Item → PriorityQueue
queue highs lows = record { high = lane_of 2 highs; normal = lane_of 2 []; low = lane_of 2 lows }

abbrev pub server : Server
server = record {
  bad_value = "invalid input value for enum";
  duplicate_id = "duplicate key value violates unique constraint notifications_pkey";
  duplicate_key = "duplicate key value violates unique constraint idempotency_key";
  missing_batch = "violates foreign key constraint";
  negative_offset = "OFFSET must not be negative";
  newest_first = λ f p ns. ns;
  oldest_first = λ ns. ns;
}

abbrev pub database : List Notification → Pg
database rows = record { rows = rows; batches = []; now = pos 100; fates = [] }

abbrev pub stored : Status → ℕ → Pg
stored status retry_count = database (notification status retry_count ∷ [])

pub stored-IsDistinct :
    (status : Status) (retry_count : ℕ) → IsDistinct (stored status retry_count).rows
stored-IsDistinct status retry_count = (refl, tt)

abbrev pub system : Pg → System Pg
system p = record { db = p; queue = queue [] [] }
