-- ===== src/Domain/Entities.antt =====
-- The types of internal/domain/notification.go. `Channel` and `Priority` are texts there, since
-- they come from requests; a pointer that may be nil is an `Option`.
use Prim.Native.String.{len}
use event_driven_arch.Common.{
  ℕ, String, Bool, ◌||◌, List, Option, ltb, str_eq, ok, err, if◌then◌else◌, not,
}
use event_driven_arch.Common.Int.{ℤ}
use event_driven_arch.Domain.Errors.{
  Err, sentinel, invalid_channel, invalid_priority, invalid_recipient, invalid_content,
}

-- An instant, in nanoseconds from a fixed origin, and a `time.Duration` in nanoseconds.
abbrev pub Time : Type 0
Time = ℤ

abbrev pub Duration : Type 0
Duration = ℤ

abbrev pub Channel : Type 0
Channel = String

abbrev pub channel_sms : Channel
channel_sms = "sms"

abbrev pub channel_email : Channel
channel_email = "email"

abbrev pub channel_push : Channel
channel_push = "push"

-- `Channel.IsValid`
pub is_valid_channel : Channel → Bool
is_valid_channel c = str_eq c channel_sms || str_eq c channel_email || str_eq c channel_push

abbrev pub Priority : Type 0
Priority = String

abbrev pub priority_high : Priority
priority_high = "high"

abbrev pub priority_normal : Priority
priority_normal = "normal"

abbrev pub priority_low : Priority
priority_low = "low"

-- `Priority.IsValid`
pub is_valid_priority : Priority → Bool
is_valid_priority p = str_eq p priority_high || str_eq p priority_normal || str_eq p priority_low

-- The column `status` has an enumeration type, and the code assigns only these values.
pub data Status : Type 0 where
  pending queued processing sent failed cancelled scheduled : Status

pub record Notification : Type 0 where
  pub id : String
  pub batch_id : Option String
  pub channel : Channel
  pub recipient : String
  pub content : String
  pub priority : Priority
  pub status : Status
  pub idempotency_key : Option String
  pub retry_count : ℕ
  pub max_retries : ℕ
  pub next_retry_at : Option Time
  pub scheduled_at : Option Time
  pub sent_at : Option Time
  pub provider_msg_id : Option String
  pub error_message : Option String
  pub created_at : Time
  pub updated_at : Time

pub record Batch : Type 0 where
  pub id : String
  pub total : ℕ
  pub pending : ℕ
  pub sent : ℕ
  pub failed : ℕ
  pub cancelled : ℕ
  pub created_at : Time
  pub updated_at : Time

pub record CreateNotificationRequest : Type 0 where
  pub channel : Channel
  pub recipient : String
  pub content : String
  pub priority : Priority
  pub scheduled_at : Option Time

pub record CreateBatchRequest : Type 0 where
  pub notifications : List CreateNotificationRequest

-- `Page` and `Limit` are set to 1 and 20, or to a positive number.
pub record ListFilter : Type 0 where
  pub status : Option String
  pub channel : Option Channel
  pub from : Option Time
  pub to : Option Time
  pub page : ℕ
  pub limit : ℕ

-- `CreateNotificationRequest.Validate`; `len` counts bytes, as Go's `len` of a string does.
unfoldable pub validate : CreateNotificationRequest → Err
unfolding is_valid_channel is_valid_priority
validate r =
    if not (is_valid_channel r.channel)
    then err (sentinel invalid_channel)
    else if not (is_valid_priority r.priority)
    then err (sentinel invalid_priority)
    else if str_eq r.recipient ""
    then err (sentinel invalid_recipient)
    else if str_eq r.content "" || ltb 4096 (len r.content)
    then err (sentinel invalid_content)
    else ok tt
