-- ===== src/Runtime/Queueing.antt =====
-- The queue of the running program, against the traces of selects.
use event_driven_arch.Common.{String, ◌≡◌, ◌⊎◌, inl, inr, List, [], ◌∷◌, ◌++◌, refl, sym, ap, ◌∙◌}
use event_driven_arch.Domain.Errors.{Error}
use event_driven_arch.Domain.Entities.{Duration}
use event_driven_arch.Queue.{PriorityQueue, new}
use event_driven_arch.Queue.Trace.{
  Op, put, poll, wait, run, run-nil, run-snoc, run-poll, run-wait, run-put,
}
use event_driven_arch.Queue.Trace.Bounds.{IsWellFormed, run-new-IsWellFormed}
use event_driven_arch.Repository.{NotificationRepository}
use event_driven_arch.Repository.Contract.{IsRepository}
use event_driven_arch.Worker.{Surroundings}
use event_driven_arch.Runtime
use event_driven_arch.Runtime.{Code, Shared, advance}
use event_driven_arch.Runtime.Machine
use event_driven_arch.Runtime.Machine.{
  Task, creating, cancelling, background, batching, Machine, advance_task, Step, post, post_batch,
  delete, tick_retries, tick_scheduled, take_high, take, count, Reach, here, later,
}

-- What one event does to the queue: nothing, or one select.
abbrev OneSelect : PriorityQueue → PriorityQueue → Type 0
OneSelect q q' = (q' ≡ q) ⊎ ((op : Op) × (q' ≡ run (op ∷ []) q))

module _ {S : Type 0} (repo : NotificationRepository S) (w : Surroundings) where
  advance-OneSelect :
      {A : Type 0} (k : Code A) (s : Shared S) → OneSelect s.queue (advance repo w k s).1.queue
  unfolding advance
  advance-OneSelect (Runtime.put item k) s =
      inr (put item, sym (run-put item [] s.queue ∙ run-nil _))
  advance-OneSelect (Runtime.return a) s = inl refl
  advance-OneSelect Runtime.panic s = inl refl
  advance-OneSelect (Runtime.write x k) s = inl refl
  advance-OneSelect (Runtime.write_batch id ns k) s = inl refl
  advance-OneSelect (Runtime.get id k) s = inl refl
  advance-OneSelect (Runtime.get_by_key key k) s = inl refl
  advance-OneSelect (Runtime.find_retries k) s = inl refl
  advance-OneSelect (Runtime.find_scheduled k) s = inl refl
  advance-OneSelect (Runtime.wait channel k) s = inl refl
  advance-OneSelect (Runtime.send n k) s = inl refl
  advance-OneSelect (Runtime.clock k) s = inl refl
  advance-OneSelect (Runtime.measure m k) s = inl refl
  advance-OneSelect (Runtime.go batches k) s = inl refl

  task-OneSelect : (t : Task) (s : Shared S) → OneSelect s.queue (advance_task repo w t s).1.queue
  unfolding advance_task
  task-OneSelect (creating k) s = advance-OneSelect k s
  task-OneSelect (cancelling k) s = advance-OneSelect k s
  task-OneSelect (background k) s = advance-OneSelect k s
  task-OneSelect (batching k) s = advance-OneSelect k s

module _ {S : Type 0} (repo : NotificationRepository S) (c : IsRepository repo)
    (backoff : List Duration) (error_text : Error → String) where
  Step-OneSelect :
      {m m' : Machine S}
      → Step repo c backoff error_text m m'
      → OneSelect m.shared.queue m'.shared.queue
  Step-OneSelect (post req key id now) = inl refl
  Step-OneSelect (post_batch requests batch_id now ids clock) = inl refl
  Step-OneSelect (delete id) = inl refl
  Step-OneSelect tick_retries = inl refl
  Step-OneSelect tick_scheduled = inl refl
  Step-OneSelect {m} (take_high item q taken) =
      inr (poll, sym (run-poll m.shared.queue q item taken))
  Step-OneSelect {m} (take k done item q taken) =
      inr (wait k done, sym (run-wait k done m.shared.queue q item taken))
  Step-OneSelect (count before after batch_id some_job) = inl refl
  Step-OneSelect {m} (Machine.run w before after t at fresh) = task-OneSelect repo w t m.shared

  -- In every state that the program reaches, the queue is what some trace of selects makes of the one
  -- at the start.
  Reach-Traced :
      {start m : Machine S}
      → Reach repo c backoff error_text start m
      → (ops : List Op) × (m.shared.queue ≡ run ops start.shared.queue)
  Reach-Traced {start} here = ([], sym (run-nil start.shared.queue))
  Reach-Traced {start} (later reach step) = elim (Step-OneSelect step) [
    | inl same ↦ let (ops, e) = Reach-Traced reach in (ops, same ∙ e)
    | inr (op, moved) ↦
        let (ops, e) = Reach-Traced reach in
        (ops ++ op ∷ [], moved ∙ ap (run (op ∷ [])) e ∙ sym (run-snoc ops op start.shared.queue))
  ]

  -- Whatever the calls and their interleaving: from a start with a new queue, in every state that the
  -- program reaches at most 1000 high, 5000 normal and 2000 low items wait, and each channel holds
  -- items of its own priority only.
  pub Reach-IsWellFormed :
      (start m : Machine S)
      → Reach repo c backoff error_text start m
      → start.shared.queue ≡ new
      → IsWellFormed m.shared.queue
  Reach-IsWellFormed start m reach empty =
      let (ops, e) = Reach-Traced reach in rw (e, empty) (run-new-IsWellFormed ops)
