-- ===== src/Metrics.antt =====
-- internal/metrics/metrics.go, over the Prometheus client, whose calls are parameters.
pub mod Laws
use event_driven_arch.Common.{String, List, [], ◌∷◌}
use event_driven_arch.Domain.Entities.{Duration, Channel}
use event_driven_arch.Worker.{Metric, on_sent, on_failed}

-- A vector of counters, a vector of histograms and a gauge of the client. The options are the name
-- and the help; a histogram has the default buckets. `inc` and `observe` name the label's value.
pub record Client (C H G R : Type 0) : Type 0 where
  pub counter_vec : String → String → List String → C
  pub histogram_vec : String → String → List String → H
  pub gauge : String → String → G
  pub inc : String → C → C
  pub observe : String → Duration → H → H

pub record Metrics (C H G : Type 0) : Type 0 where
  pub notifications_sent : C
  pub notifications_failed : C
  pub notification_latency : H
  pub queue_depth_high : G
  pub queue_depth_normal : G
  pub queue_depth_low : G

-- What `MustRegister` is given.
pub data Collector (C H G : Type 0) : Type 0 where
  counter : C → Collector C H G
  histogram : H → Collector C H G
  single : G → Collector C H G

module _ {C H G R : Type 0} (client : Client C H G R) where
  -- The instruments of `New`.
  instruments : Metrics C H G
  instruments = record {
    notifications_sent =
        client.counter_vec "notifications_sent_total"
          "Total number of successfully delivered notifications." ("channel" ∷ []);
    notifications_failed =
        client.counter_vec "notifications_failed_total"
          "Total number of permanently failed notifications (retries exhausted)." ("channel" ∷ []);
    notification_latency =
        client.histogram_vec "notification_processing_seconds"
          "End-to-end processing latency from dequeue to provider ack." ("channel" ∷ []);
    queue_depth_high =
        client.gauge "queue_depth_high" "Current number of items in the high-priority queue.";
    queue_depth_normal =
        client.gauge "queue_depth_normal" "Current number of items in the normal-priority queue.";
    queue_depth_low =
        client.gauge "queue_depth_low" "Current number of items in the low-priority queue.";
  }

  collectors : Metrics C H G → List (Collector C H G)
  collectors m =
      counter m.notifications_sent
      ∷ counter m.notifications_failed
      ∷ histogram m.notification_latency
      ∷ single m.queue_depth_high
      ∷ single m.queue_depth_normal
      ∷ single m.queue_depth_low
      ∷ []

  -- `New`, and what it registers.
  pub new : Metrics C H G × List (Collector C H G)
  unfolding instruments collectors
  new = (instruments, collectors instruments)

  -- The two functions of `WorkerHooks`, by the call that is made.
  hook : Metric → Metrics C H G → Metrics C H G
  hook (on_sent channel latency) m = record m {
    notifications_sent = client.inc channel m.notifications_sent;
    notification_latency = client.observe channel latency m.notification_latency;
  }
  hook (on_failed channel) m = record m {
    notifications_failed = client.inc channel m.notifications_failed;
  }

  -- The calls of the hooks in a row, the oldest first.
  pub hooks : List Metric → Metrics C H G → Metrics C H G
  unfolding hook
  hooks [] m = m
  hooks (call ∷ calls) m = hooks calls (hook call m)
