-- ===== src/RateLimiter.antt =====
-- internal/ratelimiter/limiter.go, over the limiters of golang.org/x/time/rate: `new_limiter` is
-- `rate.NewLimiter`, which takes the rate and the burst.
pub mod Laws
use event_driven_arch.Common.{String, List, [], ◌∷◌, Option, none, some}
use event_driven_arch.Common.Int.{ℤ}
use event_driven_arch.Common.Dict.{Dict, lookup}
use event_driven_arch.Domain.Errors.{Err}
use event_driven_arch.Domain.Entities.{Channel, channel_sms, channel_email, channel_push}

module _ {L : Type 0} (new_limiter : ℤ → ℤ → L) where
  -- `New`
  pub new : ℤ → Dict L
  new rate_per_sec =
      let r = rate_per_sec in
      let burst = rate_per_sec in
      (channel_sms, new_limiter r burst)
      ∷ (channel_email, new_limiter r burst)
      ∷ (channel_push, new_limiter r burst)
      ∷ []

-- `Wait`: the answer of the channel's limiter. A channel that is not in the map has a nil limiter,
-- whose use is a panic: `none`.
waited : {L : Type 0} → (L → Err) → Option L → Option Err
waited limiter_wait none = none
waited limiter_wait (some l) = some (limiter_wait l)

pub wait : {L : Type 0} → (L → Err) → Dict L → Channel → Option Err
unfolding waited
wait limiter_wait limiters channel = waited limiter_wait (lookup channel limiters)
