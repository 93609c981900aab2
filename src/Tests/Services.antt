-- ===== src/Tests/Services.antt =====
-- The theorems on the service, at a concrete database and queue.
use event_driven_arch.Common.{
  String, ◌≡◌, ◌≢◌, true, false, [], ◌∷◌, some, none, ok, err, arith, refl, eq_iff,
}
use event_driven_arch.Common.Int.{pos}
use event_driven_arch.Domain.Errors.{Error}
use event_driven_arch.Domain.Entities.{Notification, pending, queued, processing, sent, validate}
use event_driven_arch.Repository.Contract.{Same, Effect, Write, call}
use event_driven_arch.Repository.Mock.{mock_repository, new_mock}
use event_driven_arch.Repository.Mock.Refines.{IsValid, mock_writes, new_mock-IsValid}
use event_driven_arch.Repository.Mock.Refines
use event_driven_arch.Repository.Pg.Statements.{Pg as Database, lost, send}
use event_driven_arch.Repository.Pg.Implements.{pg_repository}
use event_driven_arch.Repository.Pg.Rows.{IsDistinct, view}
use event_driven_arch.Repository.Pg.Refines.{pg_writes, pg_contract}
use event_driven_arch.Repository.Pg.Batches.{new_batch}
use event_driven_arch.Repository.Pg.Batches
use event_driven_arch.Repository.Pg.Batches.Atomic.{BatchSpec, create_batch-BatchSpec}
use event_driven_arch.Repository.Pg.Batches.Counts.{CountsSpec, update_batch_counts-CountsSpec}
use event_driven_arch.Repository.Pg.Due.{Returned, find_due_skips}
use event_driven_arch.Queue.{enqueue}
use event_driven_arch.Queue.Buffered.{try_send}
use event_driven_arch.Repository.Pg
use event_driven_arch.Repository.Pg.{find_due_retries, find_due_scheduled, get_by_idempotency_key}
use event_driven_arch.Service.{
  get_by_id, create, cancel, create_batch, build_all, build_notification,
}
use event_driven_arch.Service.Create.{CreateSpec, create-CreateSpec}
use event_driven_arch.Service.RoundTrip.{Returns, create-get_by_id}
use event_driven_arch.Service.Idempotence.{Repeats, create_twice}
use event_driven_arch.Service.Batches.{
  IsAcceptable, IsRefusal, BuildSpec, build_all-BuildSpec, create_batch-refused,
}
use event_driven_arch.Repository.Pg.Reliable.{pg_reliable}
use event_driven_arch.Runtime.EndToEnd.{IsSent, posted-IsSent}
use event_driven_arch.Worker.{World, process}
use event_driven_arch.Tests.Runs.{accepting, backoff}
use event_driven_arch.Tests.{
  item, request, nameless, notification, server, database, stored, stored-IsDistinct, system,
}

mock_writes_example :
    let (result, m') = call mock_repository (Write.update_status "n1" queued) (new_mock (pos 0)) in
    IsValid m'
    × Effect
        (Write.update_status "n1" queued)
        (Refines.view (new_mock (pos 0)))
        (Refines.view m')
        result
mock_writes_example =
    mock_writes (Write.update_status "n1" queued) (new_mock (pos 0)) (new_mock-IsValid (pos 0))

-- A cancellation whose commit is not reported.
abbrev cut_off : Database
cut_off = record (stored pending 0) { fates = lost "unexpected EOF" ∷ [] }

pg_writes_example :
    let (result, p') = call (pg_repository server) (Write.cancel "n1") cut_off in
    IsDistinct p'.rows × Effect (Write.cancel "n1") (view cut_off) (view p') result
pg_writes_example = pg_writes server (Write.cancel "n1") cut_off (refl, tt)

create-CreateSpec_example :
    let s = system (database []) in
    let (r, s') = create (pg_repository server) request "k1" "n1" (pos 5) s in
    IsDistinct s'.db.rows
    × CreateSpec
        (pg_repository server)
        (pg_contract server)
        request
        "k1"
        (build_notification request "k1" none "n1" (pos 5))
        s
        (r, s')
create-CreateSpec_example =
    create-CreateSpec (pg_repository server) (pg_contract server) request "k1" "n1" (pos 5)
      (system (database [])) tt

given : ◌≢◌ {A = String} "k1" ""
given = ground (arith, eq_iff "k1" "")

duplicate :
    create (pg_repository server) request "k1" "n2" (pos 5) (system (stored queued 0))
    ≡ (ok (notification queued 0, true), system (stored queued 0))
unfolding create validate get_by_idempotency_key send
duplicate = refl

create_twice_example :
    let s = system (stored queued 0) in
    let (r, s') = create (pg_repository server) nameless "k1" "n3" (pos 6) s in
    Repeats "k1" r × Same (view s.db) (view s'.db) × (s'.queue ≡ s.queue)
create_twice_example =
    create_twice (pg_repository server) (pg_contract server) request nameless "k1" "n2" "n3" (pos 5)
      (pos 6) (system (stored queued 0)) (system (stored queued 0)) (notification queued 0) true
      (stored-IsDistinct queued 0) given duplicate

find_due_skips_example :
    Returned (λ n. n.id ≢ "n1") (find_due_retries (stored processing 0)).0
    × Returned (λ n. n.id ≢ "n1") (find_due_scheduled (stored processing 0)).0
find_due_skips_example =
    find_due_skips "n1" (stored processing 0) ((λ same. (λ q. ground arith, λ q. ground arith)), tt)

build_all-BuildSpec_example :
    BuildSpec "b1"
      (pos 0)
      (λ i. "n1")
      0
      (request ∷ nameless ∷ [])
      (build_all "b1" (pos 0) (λ i. "n1") (λ i. pos i) 0 (request ∷ nameless ∷ []))
build_all-BuildSpec_example =
    build_all-BuildSpec "b1" (pos 0) (λ i. "n1") (λ i. pos i) 0 (request ∷ nameless ∷ [])

empty-not-IsAcceptable : ¬ IsAcceptable []
empty-not-IsAcceptable h = omega (arith, h.0)

create_batch-refused_example :
    (e : Error) × IsRefusal [] e
    × (create_batch
          (pg_repository server)
          []
          "b1"
          (pos 0)
          (λ i. "n1")
          (λ i. pos i)
          (system (database []))
        ≡ (err e, system (database [])))
create_batch-refused_example =
    create_batch-refused (pg_repository server) [] "b1" (pos 0) (λ i. "n1") (λ i. pos i)
      (system (database [])) empty-not-IsAcceptable

create_batch-BatchSpec_example :
    BatchSpec
      (new_batch "b1" 1 (pos 100))
      (notification pending 0 ∷ [])
      (database [])
      (Batches.create_batch server "b1" (notification pending 0 ∷ []) (database []))
create_batch-BatchSpec_example =
    create_batch-BatchSpec server "b1" (notification pending 0 ∷ []) (database [])

-- A batch of one notification, which was sent since the batch was made.
abbrev one_sent : Database
one_sent = record (database (record (notification sent 0) { batch_id = some "b1" } ∷ [])) {
  batches =
      record {
        id = "b1";
        total = 1;
        pending = 1;
        sent = 0;
        failed = 0;
        cancelled = 0;
        created_at = pos 0;
        updated_at = pos 0;
      }
      ∷ [];
}

update_batch_counts-CountsSpec_example : CountsSpec "b1" (Batches.update_batch_counts "b1" one_sent)
update_batch_counts-CountsSpec_example = update_batch_counts-CountsSpec "b1" one_sent

-- The notification that is returned as new, queued.
abbrev fresh : Notification
fresh = record (notification queued 0) { created_at = pos 5; updated_at = pos 5 }

stored_as_new :
    (create (pg_repository server) request "k1" "n1" (pos 5) (system (database []))).0
    ≡ ok (fresh, false)
unfolding create build_notification validate get_by_idempotency_key send enqueue try_send Pg.create
    Pg.update_status
stored_as_new = refl

create-get_by_id_example :
    Returns request "n1"
      (get_by_id
        (pg_repository server)
        "n1"
        (create (pg_repository server) request "k1" "n1" (pos 5) (system (database []))).1).0
create-get_by_id_example =
    create-get_by_id (pg_repository server) (pg_contract server) request "k1" "n1" (pos 5)
      (system (database [])) fresh tt stored_as_new

-- The world of the worker that goes on where `Create` stopped.
abbrev handed_over : World Database
handed_over = record {
  db = (create (pg_repository server) request "k1" "n1" (pos 5) (system (database []))).1.db;
  sends = [];
  metrics = [];
  jobs = [];
}

still_calm : handed_over.db.fates ≡ []
unfolding create build_notification validate get_by_idempotency_key send enqueue try_send Pg.create
    Pg.update_status
still_calm = refl

posted-IsSent_example :
    IsSent
      (pg_repository server)
      (pg_contract server)
      (pg_reliable server)
      backoff
      accepting
      request
      "n1"
      handed_over
      (process (pg_repository server) backoff accepting (item "high") handed_over)
posted-IsSent_example =
    posted-IsSent (pg_repository server) (pg_contract server) (pg_reliable server) backoff accepting
      request "k1" "n1" (pos 5) (system (database [])) fresh handed_over tt stored_as_new refl
      still_calm refl (λ m carries. (_, refl)) (item "high") refl
