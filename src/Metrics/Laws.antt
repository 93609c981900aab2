-- ===== src/Metrics/Laws.antt =====
-- What the counters show after the workers' calls of the hooks.
use event_driven_arch.Common.{
  ℕ, ◌+◌, String, ◌≡◌, refl, List, [], ◌∷◌, arith, str_eq, if◌then◌else◌,
}
use event_driven_arch.Domain.Entities.{Channel}
use event_driven_arch.Worker.{Metric, on_sent, on_failed}
use event_driven_arch.Metrics.{Client, Metrics, hook, hooks}

-- How many of the calls are reports of a delivery, or of a refusal, on a channel.
abbrev one_if : Channel → Channel → ℕ
one_if channel other = if str_eq channel other then 1 else 0

abbrev pub sent_on : Channel → List Metric → ℕ
sent_on channel [] = 0
sent_on channel (on_sent other latency ∷ calls) = one_if channel other + sent_on channel calls
sent_on channel (on_failed other ∷ calls) = sent_on channel calls

abbrev pub failed_on : Channel → List Metric → ℕ
failed_on channel [] = 0
failed_on channel (on_sent other latency ∷ calls) = failed_on channel calls
failed_on channel (on_failed other ∷ calls) = one_if channel other + failed_on channel calls

-- `value` reads a counter: the client's `Inc` adds one to the counter of the label's value, and
-- leaves those of the other values alone.
abbrev pub Counts : {C H G R : Type 0} → Client C H G R → (String → C → ℕ) → Type 0
Counts {C} client value =
    (channel other : String) (c : C)
    → value channel (client.inc other c) ≡ one_if channel other + value channel c

module _ {C H G R : Type 0} (client : Client C H G R) (value : String → C → ℕ)
    (counts : Counts client value) where
  -- Over any client whose `Inc` adds one to the counter of its label's value and to no other: after
  -- any calls of the hooks, the two counters of a channel have grown by the number of deliveries and
  -- of refusals on that channel, and the gauges of the queue's depth are as they were.
  pub hooks-counts :
      (calls : List Metric) (m : Metrics C H G) (channel : Channel)
      → let m' = hooks client calls m in
        (value channel m'.notifications_sent
          ≡ sent_on channel calls + value channel m.notifications_sent)
        × (value channel m'.notifications_failed
            ≡ failed_on channel calls + value channel m.notifications_failed)
        × (m'.queue_depth_high ≡ m.queue_depth_high)
        × (m'.queue_depth_normal ≡ m.queue_depth_normal)
        × (m'.queue_depth_low ≡ m.queue_depth_low)
  unfolding hooks hook
  hooks-counts [] m channel = (ground arith, ground arith, refl, refl, refl)
  hooks-counts (on_sent other latency ∷ calls) m channel =
      let (sent, failed, h, n, l) =
        hooks-counts calls (hook client (on_sent other latency) m) channel in
      (ground (arith, sent, counts channel other m.notifications_sent), failed, h, n, l)
  hooks-counts (on_failed other ∷ calls) m channel =
      let (sent, failed, h, n, l) = hooks-counts calls (hook client (on_failed other) m) channel in
      (sent, ground (arith, failed, counts channel other m.notifications_failed), h, n, l)
