-- ===== src/RateLimiter/Laws.antt =====
-- Which channels have a limiter.
use event_driven_arch.Common.{◌≡◌, ◌↔◌, some, arith, eq_iff}
use event_driven_arch.Common.Int.{ℤ}
use event_driven_arch.Domain.Errors.{Err}
use event_driven_arch.Domain.Entities.{Channel, channel_sms, channel_email, channel_push}
use event_driven_arch.Domain.Validation.{IsChannel}
use event_driven_arch.RateLimiter.{new, wait, waited}

-- Over any implementation of a limiter: a wait on the limiters of `New` does not panic exactly for the
-- three channels that a request may name, and then the answer is that of a limiter whose burst is its
-- rate, the configured one.
pub wait-new_iff :
    {L : Type 0} (new_limiter : ℤ → ℤ → L) (limiter_wait : L → Err) (rate : ℤ) (channel : Channel)
    → (wait limiter_wait (new new_limiter rate) channel
        ≡ some (limiter_wait (new_limiter rate rate)))
      ↔ IsChannel channel
unfolding wait new waited
wait-new_iff new_limiter limiter_wait rate channel = ground (
  arith,
  eq_iff channel channel_sms,
  eq_iff channel channel_email,
  eq_iff channel channel_push,
  eq_iff channel_sms channel,
  eq_iff channel_email channel,
  eq_iff channel_push channel,
)
