-- ===== src/Domain/Validation.antt =====
-- What `Validate` accepts, and which error it reports.
use Prim.Native.String.{len}
use event_driven_arch.Common.{◌≡◌, ◌≢◌, ◌↔◌, ◌⊎◌, ◌≤◌, arith, eq_iff, ok}
use event_driven_arch.Domain.Entities.{
  Channel, Priority, channel_sms, channel_email, channel_push, priority_high, priority_normal,
  priority_low, CreateNotificationRequest, Notification, validate,
}

-- The three channels, and the three priorities.
abbrev pub IsChannel : Channel → Type 0
IsChannel c = (c ≡ channel_sms) ⊎ (c ≡ channel_email) ⊎ (c ≡ channel_push)

abbrev pub IsPriority : Priority → Type 0
IsPriority p = (p ≡ priority_high) ⊎ (p ≡ priority_normal) ⊎ (p ≡ priority_low)

-- A request that the service may act on.
pub record IsDeliverable (r : CreateNotificationRequest) : Type 0 where
  pub channel_known : IsChannel r.channel
  pub priority_known : IsPriority r.priority
  pub addressed : r.recipient ≢ ""
  pub worded : r.content ≢ ""
  pub short_enough : len r.content ≤ 4096

-- A stored notification that may be delivered.
abbrev pub IsProper : Notification → Type 0
IsProper n =
    IsChannel n.channel
    × IsPriority n.priority
    × (n.recipient ≢ "")
    × (n.content ≢ "")
    × (len n.content ≤ 4096)

-- `Validate` accepts a request exactly if its channel and its priority are among the known ones, its
-- recipient is not empty, and its content has from 1 to 4096 bytes.
pub validate-ok_iff : (r : CreateNotificationRequest) → (validate r ≡ ok tt) ↔ IsDeliverable r
unfolding validate
validate-ok_iff r = ground (
  arith,
  eq_iff r.channel channel_sms,
  eq_iff r.channel channel_email,
  eq_iff r.channel channel_push,
  eq_iff r.priority priority_high,
  eq_iff r.priority priority_normal,
  eq_iff r.priority priority_low,
  eq_iff r.recipient "",
  eq_iff r.content "",
)
