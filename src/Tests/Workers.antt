-- ===== src/Tests/Workers.antt =====
-- The theorems on the workers, at a concrete database and concrete answers of the provider.
use event_driven_arch.Common.{
  ◌≡◌, ◌≢◌, false, List, [], ◌∷◌, some, ok, err, arith, refl, Bool-cases, str_eq, inl, inr, true,
  none, List-cases, ◌≤◌,
}
use event_driven_arch.Common.Int.{pos, ◌+ℤ◌}
use event_driven_arch.Domain.Errors.{foreign}
use event_driven_arch.Domain.Entities.{Time, Duration, Notification, queued, failed}
use event_driven_arch.Poll.{poll_retries}
use event_driven_arch.Poll.Laws.{Ticked, poll_retries-Ticked}
use event_driven_arch.Repository.Contract.{IsRetriable}
use event_driven_arch.Repository.Pg.{
  find_due_retries, retry_due, get_by_id, update_status, schedule_retry,
}
use event_driven_arch.Repository.Pg.Implements.{pg_repository}
use event_driven_arch.Repository.Pg.Rows.{IsDistinct, view}
use event_driven_arch.Repository.Pg.Refines.{pg_contract}
use event_driven_arch.Repository.Pg.Statements.{Pg, send}
use event_driven_arch.Tests.{
  notification, server, database, stored, stored-IsDistinct, system, item, queue,
}
use event_driven_arch.Queue.{PriorityQueue, Case, from, ctx_done, low, select}
use event_driven_arch.Queue.Buffered.{try_recv}
use event_driven_arch.Worker.Loop.{Turn, stopped, run}
use event_driven_arch.Worker.Loop.Stops.{total, IsClosing, run-stops}
use event_driven_arch.Worker.{Surroundings, World, on_failed, process}
use event_driven_arch.Repository.Contract.Throughout.{Throughout, IsWithin}
use event_driven_arch.Worker.Channels.{HasChannel}
use event_driven_arch.Worker.LastRetry.{process-last_retry}

abbrev backoff : List Duration
backoff = pos 5 ∷ pos 30 ∷ pos 120 ∷ []

abbrev refusing : Surroundings
refusing = record {
  wait = λ channel. some (ok tt);
  send = λ n. err (foreign "503");
  elapsed = pos 1;
  now = pos 50;
  error_text = λ e. "503";
}

abbrev world : Pg → World Pg
world p = record { db = p; sends = []; metrics = []; jobs = [] }

backoff-some : backoff ≢ []
backoff-some h = ground arith

-- After the third attempt but one, refused.
abbrev after : World Pg
after = record {
  db = database (
      record (notification failed 3) {
        error_message = some "503";
        next_retry_at = some (pos 0);
        updated_at = pos 100;
      }
      ∷ []);
  sends = record (notification queued 2) { status = queued } ∷ [];
  metrics = on_failed "sms" ∷ [];
  jobs = [];
}

third_refusal :
    process (pg_repository server) backoff refusing (item "high") (world (stored queued 2))
    ≡ some after
unfolding process get_by_id send update_status schedule_retry ◌+ℤ◌
third_refusal = refl

stored-IsWithin : Throughout IsWithin (view (stored queued 2))
stored-IsWithin j n at = elim (Bool-cases (str_eq "n1" j)) [
  | inl hit ↦ let found = rw hit at at in ground arith
  | inr miss ↦ let found = rw miss at at in ground arith
]

process-last_retry_example :
    (n' : Notification) × (view after.db "n1" ≡ some n') × ((now : Time) → retry_due now n' ≡ false)
process-last_retry_example =
    process-last_retry (pg_repository server) (pg_contract server) backoff refusing (item "high")
      (world (stored queued 2)) after (notification queued 2) (foreign "503") backoff-some
      (stored-IsDistinct queued 2) third_refusal refl (ground arith) refl (λ h. ground arith)

poll_retries-Ticked_example :
    let s = system (stored failed 1) in
    Ticked
      (pg_repository server)
      (pg_contract server)
      IsRetriable
      (find_due_retries s.db).0
      s
      (poll_retries (pg_repository server) s)
poll_retries-Ticked_example =
    poll_retries-Ticked (pg_repository server) (pg_contract server) (system (stored failed 1))
      (stored-IsDistinct failed 1)

-- A shutdown in which the scheduler prefers the low items to the end of the context.
abbrev preferred : PriorityQueue → Case
preferred q = elim q.low.waiting [ [] ↦ ctx_done | _ ∷ _ ↦ from low ]

abbrev closing : Turn Pg
closing = record {
  others = λ q. q;
  meanwhile = λ s. s;
  case = preferred;
  done = true;
  around = refusing;
}

preferred-ready : (q : PriorityQueue) → select (preferred q) true q ≢ none
unfolding select try_recv
preferred-ready q e = elim (List-cases q.low.waiting) [
  | inl empty ↦ ground arith
  | inr (i, rest, found) ↦ ground arith
]

stored-channels : Throughout HasChannel (view (stored queued 0))
stored-channels j n at = ground arith

closing-IsClosing : IsClosing (pg_repository server) (pg_contract server) backoff closing
closing-IsClosing = (
  refl,
  (λ q. omega arith),
  (λ s valid. valid),
  preferred-ready,
  (λ s known. known),
  (λ ch known e. cc),
)

run-stops_example :
    let q = queue [] (item "low" ∷ []) in
    (q' : PriorityQueue) × (s' : World Pg) × (run
        (pg_repository server)
        backoff
        (closing ∷ closing ∷ [])
        q
        (world (stored queued 0))
      ≡ stopped q' s')
    × (total q' ≤ total q)
    × IsDistinct s'.db.rows
run-stops_example =
    run-stops (pg_repository server) (pg_contract server) backoff (closing ∷ closing ∷ [])
      (queue [] (item "low" ∷ [])) (world (stored queued 0)) backoff-some
      (stored-IsDistinct queued 0) stored-channels (closing-IsClosing, (closing-IsClosing, tt))
      (ground arith)
