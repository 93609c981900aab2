-- ===== src/Pool/Hooks.antt =====
-- `NewWorker` of internal/worker/worker.go: a worker with its hooks. What a hook changes is `M`.
use event_driven_arch.Common.{ℕ, ◌≡◌, refl, List, [], ◌∷◌, Option, none, some}
use event_driven_arch.Domain.Entities.{Duration, Channel}
use event_driven_arch.Worker.{Metric, on_sent, on_failed}

pub record Worker (M : Type 0) : Type 0 where
  pub id : ℕ
  pub backoff : List Duration
  pub sent_hook : Channel → Duration → M → M
  pub failed_hook : Channel → M → M

-- `if onSent == nil { ... }`; `none` is nil.
sent_hook_or : {M : Type 0} → Option (Channel → Duration → M → M) → Channel → Duration → M → M
sent_hook_or none channel latency m = m
sent_hook_or (some f) channel latency m = f channel latency m

failed_hook_or : {M : Type 0} → Option (Channel → M → M) → Channel → M → M
failed_hook_or none channel m = m
failed_hook_or (some f) channel m = f channel m

-- `NewWorker`
new_worker :
    {M : Type 0}
    → ℕ
    → List Duration
    → Option (Channel → Duration → M → M)
    → Option (Channel → M → M)
    → Worker M
unfolding sent_hook_or failed_hook_or
new_worker id backoff sent_hook failed_hook = record {
  id = id;
  backoff = backoff;
  sent_hook = sent_hook_or sent_hook;
  failed_hook = failed_hook_or failed_hook;
}

-- The calls of a worker's hooks, the oldest first.
run_hooks : {M : Type 0} → Worker M → List Metric → M → M
run_hooks w [] m = m
run_hooks w (on_sent channel latency ∷ calls) m = run_hooks w calls (w.sent_hook channel latency m)
run_hooks w (on_failed channel ∷ calls) m = run_hooks w calls (w.failed_hook channel m)

-- A worker that is made without hooks changes nothing that a hook could change.
new_worker-no_hooks :
    {M : Type 0} (id : ℕ) (backoff : List Duration) (calls : List Metric) (m : M)
    → run_hooks (new_worker id backoff none none) calls m ≡ m
unfolding run_hooks new_worker
new_worker-no_hooks id backoff [] m = refl
new_worker-no_hooks id backoff (on_sent channel latency ∷ calls) m =
    new_worker-no_hooks id backoff calls m
new_worker-no_hooks id backoff (on_failed channel ∷ calls) m =
    new_worker-no_hooks id backoff calls m
