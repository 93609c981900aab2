-- ===== src/Tests/Runs.antt =====
-- The running program on a small database: schedules of requests, and the theorems at them.
use event_driven_arch.Common.{ℕ, zero, suc, ◌≡◌, List, [], ◌∷◌, map, some, ok, arith, refl, length}
use event_driven_arch.Common.Int.{pos}
use event_driven_arch.Domain.Entities.{Duration, queued, sent, validate}
use event_driven_arch.Queue
use event_driven_arch.Queue.{PriorityQueue, enqueue}
use event_driven_arch.Queue.Trace.Bounds.{IsWellFormed}
use event_driven_arch.Queue.Buffered.{try_send}
use event_driven_arch.Repository.Pg.{
  get_by_id, get_by_idempotency_key, update_status, create, cancel, mark_sent,
}
use event_driven_arch.Repository.Pg.Implements.{pg_repository}
use event_driven_arch.Repository.Pg.Refines.{pg_contract}
use event_driven_arch.Repository.Pg.Statements.{Pg, send}
use event_driven_arch.Service.{build_notification}
use event_driven_arch.Queue.{Item}
use event_driven_arch.Runtime.{Code, return, Shared, advance}
use event_driven_arch.Runtime.Calls
use event_driven_arch.Runtime.Advance.{IsHealthy}
use event_driven_arch.Runtime.Machine.{
  Task, creating, Machine, advance_task, Reach, here, later, post, run,
}
use event_driven_arch.Repository.Pg.Rows.{view}
use event_driven_arch.Repository.Contract.Keys.{HasUniqueKeys}
use event_driven_arch.Runtime.Unique.{pg_repository-HasUniqueKeys}
use event_driven_arch.Runtime.Durable.{Reach-KeepsMessages}
use event_driven_arch.Runtime.Sound.{KeepsMessages}
use event_driven_arch.Runtime.Safety.{Reach-IsHealthy}
use event_driven_arch.Runtime.Deliverable.{AreServed, Reach-AreServed}
use event_driven_arch.Runtime.Queueing.{Reach-IsWellFormed}
use event_driven_arch.Tests.{request, server, database, stored, item}
use event_driven_arch.Worker.{Surroundings}

abbrev pub backoff : List Duration
backoff = pos 5 ∷ pos 30 ∷ pos 120 ∷ []

abbrev pub accepting : Surroundings
accepting = record {
  wait = λ channel. some (ok tt);
  send = λ n. ok (record { message_id = "m1"; status = "accepted"; timestamp = "now" });
  elapsed = pos 1;
  now = pos 50;
  error_text = λ e. "503";
}

abbrev pub shared : Pg → Shared Pg
shared p = record { db = p; queue = Queue.new; sends = []; accepts = []; metrics = []; jobs = [] }

abbrev requests : {A : Type 0} → ℕ → Code A → Shared Pg → Code A × Shared Pg
requests zero k s = (k, s)
requests (suc n) k s =
    let (k', s') = advance (pg_repository server) accepting k s in requests n k' s'

-- A worker reads the notification, `Cancel` reads and cancels it and answers nil, and the worker
-- goes on: the provider is called, and the status that is stored in the end is `sent`.
cancel_lost :
    let (k₁, s₁) =
      requests 1
        (Calls.process backoff accepting.error_text (item "high"))
        (shared (stored queued 0)) in
    let (c, s₂) = requests 2 (Calls.cancel "n1") s₁ in
    let (k₂, s₃) = requests 5 k₁ s₂ in
    (c ≡ return (ok tt)) × (map (λ n. n.status) s₃.db.rows ≡ sent ∷ []) × (length s₃.sends ≡ 1)
unfolding advance Calls.process Calls.cancel get_by_id send update_status cancel mark_sent
cancel_lost = (refl, refl, refl)

abbrev machine : Task × Shared Pg → Machine Pg
machine (t, s) = record { shared = s; tasks = t ∷ [] }

abbrev idle : Machine Pg
idle = record { shared = shared (database []); tasks = [] }

abbrev posted : Task × Shared Pg
posted = (creating (Calls.create request "k1" "n1" (pos 5)), shared (database []))

-- One request more.
abbrev on : Task × Shared Pg → Task × Shared Pg
on (t, s) = advance_task (pg_repository server) accepting t s

-- `Create` has looked for the key, stored the notification and put it on the queue.
reached :
    Reach
      (pg_repository server)
      (pg_contract server)
      backoff
      accepting.error_text
      idle
      (machine (on (on (on posted))))
unfolding advance_task advance Calls.create build_notification validate get_by_idempotency_key send
    create enqueue
reached =
    later
      (later
        (later (later here (post request "k1" "n1" (pos 5))) (run accepting [] [] posted.0 refl tt))
        (run accepting [] [] (on posted).0 refl refl))
      (run accepting [] [] (on (on posted)).0 refl tt)

idle-IsHealthy : IsHealthy (pg_repository server) (pg_contract server) idle.shared
idle-IsHealthy = (
  tt,
  record {
    proper = λ j n at. absurd (ground arith);
    within = λ j n at. absurd (ground arith);
    accounted = λ j n at. absurd (ground arith);
  },
)

Reach-IsHealthy_example :
    IsHealthy (pg_repository server) (pg_contract server) (on (on (on posted))).1
Reach-IsHealthy_example =
    Reach-IsHealthy (pg_repository server) (pg_contract server) backoff accepting.error_text idle
      (machine (on (on (on posted)))) reached refl idle-IsHealthy

Reach-AreServed_example : AreServed (view (on (on (on posted))).1.db)
Reach-AreServed_example =
    Reach-AreServed (pg_repository server) (pg_contract server) backoff accepting.error_text idle
      (machine (on (on (on posted)))) reached refl idle-IsHealthy

Reach-IsWellFormed_example : IsWellFormed (on (on (on posted))).1.queue
Reach-IsWellFormed_example =
    Reach-IsWellFormed (pg_repository server) (pg_contract server) backoff accepting.error_text idle
      (machine (on (on (on posted)))) reached refl

-- The mark of the notification as queued follows.
reached_more :
    Reach
      (pg_repository server)
      (pg_contract server)
      backoff
      accepting.error_text
      (machine (on (on (on posted))))
      (machine (on (on (on (on posted)))))
unfolding advance_task advance Calls.create build_notification validate get_by_idempotency_key send
    create enqueue try_send Queue.new
reached_more = later here (run accepting [] [] (on (on (on posted))).0 refl tt)

Reach-KeepsMessages_example :
    KeepsMessages (view (on (on (on posted))).1.db) (view (on (on (on (on posted)))).1.db)
Reach-KeepsMessages_example =
    Reach-KeepsMessages (pg_repository server) (pg_contract server) backoff accepting.error_text
      idle (machine (on (on (on posted)))) (machine (on (on (on (on posted))))) refl idle-IsHealthy
      reached reached_more

pg_repository-HasUniqueKeys_example : HasUniqueKeys (view (on (on (on posted))).1.db)
pg_repository-HasUniqueKeys_example =
    pg_repository-HasUniqueKeys server backoff accepting.error_text idle
      (machine (on (on (on posted)))) reached tt (λ i j n m key at. absurd (ground arith))
