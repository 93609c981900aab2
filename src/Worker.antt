-- ===== src/Worker.antt =====
-- internal/worker/worker.go: one worker. A call of `process` takes as arguments what it reads from
-- its surroundings: the rate limiter's and the provider's answers, and the clock.
pub mod Delays
pub mod Failure
pub mod Process
pub mod Retries
pub mod LastRetry
pub mod Loop
pub mod Delivery
pub mod Channels
use event_driven_arch.Common.{
  ℕ, ◌+◌, ◌-◌, String, Bool, true, false, List, [], ◌∷◌, ◌++◌, Option, none, some, ok, err, leb,
  length, get_elem?, if◌then◌else◌,
}
use event_driven_arch.Common.Int.{◌+ℤ◌}
use event_driven_arch.Domain.Errors.{Error, Err, Result}
use event_driven_arch.Domain.Entities.{
  Time, Duration, Channel, Status, processing, cancelled, Notification,
}
use event_driven_arch.Queue.{Item}
use event_driven_arch.Repository.{NotificationRepository}

-- internal/provider/provider.go
pub record SendResponse : Type 0 where
  pub message_id : String
  pub status : String
  pub timestamp : String

-- `now` and `elapsed` are the readings of the clock in one call; `error_text` is `err.Error()`. `wait`
-- is `limiter.Wait`, whose answer is `none` where the map has no limiter for the channel: then the
-- call is a panic.
pub record Surroundings : Type 0 where
  pub wait : Channel → Option Err
  pub send : Notification → Result SendResponse
  pub elapsed : Duration
  pub now : Time
  pub error_text : Error → String

-- A call of a metric hook.
pub data Metric : Type 0 where
  on_sent : Channel → Duration → Metric
  on_failed : Channel → Metric

-- What a worker changes: the database, the calls of the provider and of the hooks so far, and the
-- batches whose counters a goroutine is to update.
pub record World (S : Type 0) : Type 0 where
  pub db : S
  pub sends : List Notification
  pub metrics : List Metric
  pub jobs : List String

abbrev pub is_cancelled : Status → Bool
is_cancelled cancelled = true
is_cancelled _ = false

-- `if n.BatchID != nil { go ... }`
abbrev pub spawned : Option String → List String
spawned none = []
spawned (some batch_id) = batch_id ∷ []

-- The index into the backoff list, and the delay; `none` is the panic of an empty list.
pub backoff_index : List Duration → ℕ → ℕ
backoff_index backoff retry_count =
    if leb (length backoff) retry_count then length backoff - 1 else retry_count

pub delay : List Duration → ℕ → Option Duration
unfolding backoff_index
delay backoff retry_count = get_elem? backoff (backoff_index backoff retry_count)

module _ {S : Type 0} (repo : NotificationRepository S) (backoff : List Duration) where
  -- The part of `handleFailure` that schedules a retry. `none` is a panic.
  retry_after : Option Duration → Surroundings → Notification → Error → S → Option S
  retry_after none w n e db = none
  retry_after (some d) w n e db =
      some (repo.schedule_retry n.id (n.retry_count + 1) (w.now +ℤ d) (w.error_text e) db).1

  pub handle_failure : Surroundings → Notification → Error → S → Option S
  unfolding retry_after delay
  handle_failure w n e db =
      if leb n.max_retries n.retry_count
      then some (repo.mark_failed n.id (w.error_text e) db).1
      else retry_after (delay backoff n.retry_count) w n e db

  count_failure : Notification → World S → Option S → Option (World S)
  count_failure n s none = none
  count_failure n s (some db) =
      some (record s { db = db; metrics = s.metrics ++ on_failed n.channel ∷ [] })

  count_sent : Surroundings → Notification → World S → Err × S → World S
  count_sent w n s (err e, db) = record s { db = db }
  count_sent w n s (ok _, db) = record s {
    db = db;
    metrics = s.metrics ++ on_sent n.channel w.elapsed ∷ [];
    jobs = s.jobs ++ spawned n.batch_id;
  }

  -- What follows the provider's answer.
  after_send : Surroundings → Notification → Result SendResponse → World S → Option (World S)
  unfolding handle_failure count_failure count_sent
  after_send w n (err e) s = count_failure n s (handle_failure w n e s.db)
  after_send w n (ok resp) s =
      some (count_sent w n s (repo.mark_sent n.id resp.message_id w.now s.db))

  -- The answer to the wait for a token, and the call of the provider.
  deliver : Surroundings → Notification → Option Err → World S → Option (World S)
  unfolding after_send
  deliver w n none s = none
  deliver w n (some (err e)) s = some s
  deliver w n (some (ok _)) s = after_send w n (w.send n) (record s { sends = s.sends ++ n ∷ [] })

  marked_processing : Surroundings → Notification → World S → Err × S → Option (World S)
  unfolding deliver
  marked_processing w n s (err e, db) = some (record s { db = db })
  marked_processing w n s (ok _, db) = deliver w n (w.wait n.channel) (record s { db = db })

  unless_cancelled : Bool → Surroundings → Notification → World S → Option (World S)
  unfolding marked_processing
  unless_cancelled true w n s = some s
  unless_cancelled false w n s = marked_processing w n s (repo.update_status n.id processing s.db)

  fetched : Surroundings → World S → Result Notification × S → Option (World S)
  unfolding unless_cancelled
  fetched w s (err e, db) = some (record s { db = db })
  fetched w s (ok n, db) = unless_cancelled (is_cancelled n.status) w n (record s { db = db })

  -- `process`; `none` is a panic.
  unfoldable pub process : Surroundings → Item → World S → Option (World S)
  unfolding fetched
  process w item s = fetched w s (repo.get_by_id item.notification_id s.db)

  -- The goroutine that updates the counters of a batch.
  pub run_job : String → World S → World S
  run_job batch_id s = record s { db = (repo.update_batch_counts batch_id s.db).1 }
