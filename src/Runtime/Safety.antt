-- ===== src/Runtime/Safety.antt =====
-- What holds of the stored notifications in every state that the running program can reach.
use event_driven_arch.Common.{String, ◌≡◌, List, [], ◌∷◌, ◌++◌, All, All-append, All-split}
use event_driven_arch.Domain.Errors.{Error}
use event_driven_arch.Domain.Entities.{Duration}
use event_driven_arch.Repository.{NotificationRepository}
use event_driven_arch.Repository.Contract.{IsRepository}
use event_driven_arch.Worker.{Surroundings}
use event_driven_arch.Runtime.{Shared}
use event_driven_arch.Runtime.Facts.{Fact, Safe}
use event_driven_arch.Runtime.Machine.{
  Task, creating, cancelling, background, batching, Machine, advance_task, IsFreshTask, Step, post,
  post_batch, delete, tick_retries, tick_scheduled, take_high, take, count, run, Reach, here, later,
}
use event_driven_arch.Runtime.Advance.{IsHealthy, HoldIn, Follows, Later-Holds, advance-Advanced}
use event_driven_arch.Runtime.Calls.Safe.{
  create-Safe, cancel-Safe, process-Safe, count_batch-Safe, poll_retries-Safe, poll_scheduled-Safe,
}
use event_driven_arch.Runtime.Calls.Batch.Safety.{create_batch-Safe}

abbrev pub SafeTask : List Fact → Task → Type 0
SafeTask facts (creating k) = Safe facts k
SafeTask facts (cancelling k) = Safe facts k
SafeTask facts (background k) = Safe facts k
SafeTask facts (batching k) = Safe facts k

module _ {S : Type 0} (repo : NotificationRepository S) (c : IsRepository repo) where
  -- What the task relies on holds, and the rest of it is safe.
  abbrev pub IsSafeTask : Shared S → Task → Type 0
  IsSafeTask s t = (facts : List Fact) × HoldIn repo c s facts × SafeTask facts t

  abbrev pub IsSafe : Machine S → Type 0
  IsSafe m = IsHealthy repo c m.shared × All (IsSafeTask m.shared) m.tasks

  -- What another task relied on holds on.
  Follows-All :
      (s s' : Shared S) (ts : List Task)
      → Follows repo c s s'
      → All (IsSafeTask s) ts
      → All (IsSafeTask s') ts
  Follows-All s s' [] follows all = tt
  Follows-All s s' (t ∷ ts) follows ((facts, hold, safe), all) =
      ((facts, Later-Holds follows facts hold, safe), Follows-All s s' ts follows all)

  pub advance_task-safe :
      (w : Surroundings) (t : Task) (s : Shared S)
      → IsHealthy repo c s
      → IsFreshTask t (c.view s.db)
      → IsSafeTask s t
      → let (t', s') = advance_task repo w t s in
        IsHealthy repo c s' × Follows repo c s s' × IsSafeTask s' t'
  unfolding advance_task
  advance_task-safe w (creating k) s healthy fresh (facts, hold, safe) =
      advance-Advanced repo c w k s facts healthy fresh hold safe
  advance_task-safe w (cancelling k) s healthy fresh (facts, hold, safe) =
      advance-Advanced repo c w k s facts healthy fresh hold safe
  advance_task-safe w (background k) s healthy fresh (facts, hold, safe) =
      advance-Advanced repo c w k s facts healthy fresh hold safe
  advance_task-safe w (batching k) s healthy fresh (facts, hold, safe) =
      advance-Advanced repo c w k s facts healthy fresh hold safe

  joined-IsSafe :
      (s : Shared S) (ts : List Task) (t : Task)
      → All (IsSafeTask s) ts
      → SafeTask [] t
      → All (IsSafeTask s) (ts ++ t ∷ [])
  joined-IsSafe s ts t all safe = All-append (IsSafeTask s) ts (t ∷ []) all (([], tt, safe), tt)

module _ {S : Type 0} (repo : NotificationRepository S) (c : IsRepository repo)
    (backoff : List Duration) (error_text : Error → String) where
  pub Step-IsSafe :
      {m m' : Machine S} → Step repo c backoff error_text m m' → IsSafe repo c m → IsSafe repo c m'
  Step-IsSafe {m} (post req key id now) (healthy, all) =
      (healthy, joined-IsSafe repo c m.shared m.tasks _ all (create-Safe req key id now))
  Step-IsSafe {m} (post_batch requests batch_id now ids clock) (healthy, all) = (
    healthy,
    joined-IsSafe repo c m.shared m.tasks _ all (create_batch-Safe requests batch_id now ids clock),
  )
  Step-IsSafe {m} (delete id) (healthy, all) =
      (healthy, joined-IsSafe repo c m.shared m.tasks _ all (cancel-Safe id))
  Step-IsSafe {m} tick_retries (healthy, all) =
      (healthy, joined-IsSafe repo c m.shared m.tasks _ all poll_retries-Safe)
  Step-IsSafe {m} tick_scheduled (healthy, all) =
      (healthy, joined-IsSafe repo c m.shared m.tasks _ all poll_scheduled-Safe)
  Step-IsSafe {m} (take_high item q taken) (healthy, all) =
      (healthy, joined-IsSafe repo c m.shared m.tasks _ all (process-Safe backoff error_text item))
  Step-IsSafe {m} (take k done item q taken) (healthy, all) =
      (healthy, joined-IsSafe repo c m.shared m.tasks _ all (process-Safe backoff error_text item))
  Step-IsSafe {m} (count before after batch_id some_job) (healthy, all) =
      (healthy, joined-IsSafe repo c m.shared m.tasks _ all (count_batch-Safe batch_id))
  Step-IsSafe {m} (run w before after t at fresh) (healthy, all) =
      let (first, rest) = All-split _ before (t ∷ after) (rw at at all) in
      let s' : Shared S = (advance_task repo w t m.shared).1 in
      let (healthy', follows, safe) = advance_task-safe repo c w t m.shared healthy fresh rest.0 in
      (
        healthy',
        All-append (IsSafeTask repo c s') before _
            (Follows-All repo c m.shared s' before follows first)
            (safe, Follows-All repo c m.shared s' after follows rest.1),
      )

  pub Reach-IsSafe :
      {start m : Machine S}
      → Reach repo c backoff error_text start m
      → IsSafe repo c start
      → IsSafe repo c m
  Reach-IsSafe here safe = safe
  Reach-IsSafe (later reach step) safe = Step-IsSafe step (Reach-IsSafe reach safe)

  -- Over any repository that meets the contract, and whatever the calls and their interleaving: from
  -- a start at which no call is in progress, the database is valid, every stored notification may be
  -- delivered (a known channel and priority, a recipient, a content of 1 to 4096 bytes), no stored notification has more
  -- attempts counted than it may have, and each one marked as sent was accepted by the provider under
  -- the message id that is stored with it, all this is so in every state that the program reaches.
  pub Reach-IsHealthy :
      (start m : Machine S)
      → Reach repo c backoff error_text start m
      → start.tasks ≡ []
      → IsHealthy repo c start.shared
      → IsHealthy repo c m.shared
  Reach-IsHealthy start m reach idle healthy = (Reach-IsSafe reach (healthy, rw idle tt)).0
