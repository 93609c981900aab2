-- ===== src/Tests/Pools.antt =====
-- The batches, the pool and the routes at concrete workers and requests.
use Prim.Native.String.{len, ◌++◌}
use text.Mathlib.TextPositions.{len-append}
use event_driven_arch.Common.{
  ℕ, zero, suc, ◌+◌, ◌*◌, ◌≤◌, String, ◌≡◌, ◌⊎◌, refl, ap, Bool, true, false, ◌&&◌, List, [], ◌∷◌,
  All, some, err, arith, eq_iff, str_eq, length,
}
use event_driven_arch.Common.Int.{ℤ, pos}
use event_driven_arch.Domain.Errors.{Error, Result, foreign}
use event_driven_arch.Domain.Entities.{Time, queued, CreateNotificationRequest, CreateBatchRequest}
use event_driven_arch.Http
use event_driven_arch.Http.{status_code}
use event_driven_arch.Http.Batches.{BatchAnswer, create_batch-BatchAnswer}
use event_driven_arch.Http.Router.{Segment, lit, param, routes, Incoming, handle}
use event_driven_arch.Http.Router.Reads.{get_routes-Same}
use event_driven_arch.Http.Router.Table.{Fits, AreDisjoint, routes-AreDisjoint}
use event_driven_arch.Pool.{PoolWorker}
use event_driven_arch.Pool.Run
use event_driven_arch.Pool.Run.{Crew, CrewStep, start, Closing, IsWaitOver}
use event_driven_arch.Pool.Run.Budget.{remaining}
use event_driven_arch.Pool.Run.Stops.{Panics}
use event_driven_arch.Pool.Run.Wait.{Ends, Wait-returns}
use event_driven_arch.Queue.{Item}
use event_driven_arch.Repository.Contract.{Same}
use event_driven_arch.Repository.Pg.Implements.{pg_repository}
use event_driven_arch.Repository.Pg.Refines.{pg_contract}
use event_driven_arch.Repository.Pg.Rows.{IsDistinct, view}
use event_driven_arch.Repository.Pg.Statements.{Pg}
use event_driven_arch.Runtime.{Shared}
use event_driven_arch.Runtime.Calls.{create, cancel}
use event_driven_arch.Runtime.Calls.Batch.{create_batch}
use event_driven_arch.Runtime.Ends.{Moment, HasReturned, ProcessEnded, after, calls-HasReturned}
use event_driven_arch.Service
use event_driven_arch.Service.{System}
use event_driven_arch.Service.Batches.{IsAcceptable}
use event_driven_arch.Service.BatchFresh.{AreDistinct}
use event_driven_arch.Service.BatchStored.{BatchOutcome, create_batch-BatchOutcome}
use event_driven_arch.Tests.{request, server, database, stored, queue, item, system}
use event_driven_arch.Tests.Runs.{backoff, accepting, shared}
use event_driven_arch.Worker.Loop.Stops.{total}

abbrev text_of : Error → String
text_of e = "error"

-- Ids that differ in their length.
abbrev id_of : ℕ → String
id_of zero = ""
id_of (suc n) = "x" ++ id_of n

len-id_of : (n : ℕ) → len (id_of n) ≡ n
len-id_of zero = refl
len-id_of (suc n) = let e = len-append "x" (id_of n) in omega (arith, len-id_of n)

id_of-AreDistinct : AreDistinct id_of
id_of-AreDistinct i j e =
    let same : len (id_of i) ≡ len (id_of j) = ap len e in omega (arith, len-id_of i, len-id_of j)

create_batch-BatchOutcome_example :
    let (r, s') =
      Service.create_batch
        (pg_repository server)
        (request ∷ request ∷ [])
        "b1"
        (pos 5)
        id_of
        (λ i. pos i)
        (system (database [])) in
    IsDistinct s'.db.rows
    × BatchOutcome
        (pg_repository server)
        (pg_contract server)
        (request ∷ request ∷ [])
        id_of
        (system (database []))
        (r, s')
create_batch-BatchOutcome_example =
    create_batch-BatchOutcome (pg_repository server) (pg_contract server) (request ∷ request ∷ [])
      "b1" (pos 5) id_of (λ i. pos i) (system (database [])) tt id_of-AreDistinct (λ j. refl)

abbrev two_requests : CreateBatchRequest
two_requests = record { notifications = request ∷ request ∷ [] }

create_batch-BatchAnswer_example :
    let s = system (database []) in
    let (r, s') =
      Http.create_batch
        (pg_repository server)
        text_of
        (some two_requests)
        "b1"
        (pos 5)
        id_of
        (λ i. pos i)
        s in
    (IsDistinct s'.db.rows
      × BatchAnswer
          (pg_repository server)
          (pg_contract server)
          text_of
          two_requests.notifications
          id_of
          s
          r
          s')
    × (¬ IsAcceptable two_requests.notifications → (status_code r ≡ 422) × (s' ≡ s))
create_batch-BatchAnswer_example =
    create_batch-BatchAnswer (pg_repository server) (pg_contract server) text_of two_requests "b1"
      (pos 5) id_of (λ i. pos i) (system (database [])) tt id_of-AreDistinct (λ j. refl)

abbrev workers : List PoolWorker
workers = record { id = 0; backoff = backoff } ∷ record { id = 1; backoff = backoff } ∷ []

-- One item waits.
abbrev waiting : Shared Pg
waiting = record (shared (stored queued 0)) { queue = queue [] (item "low" ∷ []) }

abbrev crew : Crew Pg
crew = start workers waiting

Wait-returns_example :
    let repo = pg_repository server in
    ((n : ℕ) (p' : Crew Pg)
      → Closing repo text_of crew n p'
      → (n ≤ 10 * (length workers + total crew.shared.queue))
        × (p'.counter ≡ remaining p'.phases)
        × (IsWaitOver p'
            ⊎ ((p'' : Crew Pg) × CrewStep repo text_of true p' p'')
            ⊎ Panics repo text_of accepting p'))
    × Ends repo text_of accepting crew
Wait-returns_example =
    Wait-returns (pg_repository server) text_of workers waiting crew ((λ e. cc), ((λ e. cc), tt))
      Run.here accepting

-- Moments at which nothing else happens.
abbrev moments : ℕ → List (Moment Pg)
moments zero = []
moments (suc n) = (accepting, λ s. s) ∷ moments n

calls-HasReturned_example :
    let repo = pg_repository server in
    let s = shared (stored queued 0) in
    let ms = moments 8 in
    ((req : CreateNotificationRequest) (key id : String) (now : Time)
      → 4 ≤ length ms
      → HasReturned (after repo ms (create req key id now) s))
    × ((reqs : List CreateNotificationRequest) (batch_id : String) (now : Time) (ids : ℕ → String)
          (times : ℕ → Time)
        → 1 + 2 * length reqs ≤ length ms
        → HasReturned (after repo ms (create_batch reqs batch_id now ids times) s))
    × ((id : String) → 2 ≤ length ms → HasReturned (after repo ms (cancel id) s))
    × ((i : Item) → 8 ≤ length ms → ProcessEnded repo backoff text_of ms s i)
calls-HasReturned_example =
    calls-HasReturned (pg_repository server) backoff text_of (moments 8) (shared (stored queued 0))
      (λ e. cc)

abbrev no_number : String → Result ℤ
no_number text = err (foreign "invalid syntax")

abbrev no_time : String → Result Time
no_time text = err (foreign "invalid time")

get_routes-Same_example :
    All
      (λ r.
        r.method ≡ some "GET"
        → (i : Incoming) (s : System Pg) → IsDistinct s.db.rows
        → let s' = (handle (pg_repository server) text_of no_number no_time r.endpoint i s).1 in
          IsDistinct s'.db.rows × (s'.queue ≡ s.queue) × Same (view s.db) (view s'.db))
      routes
get_routes-Same_example =
    get_routes-Same (pg_repository server) (pg_contract server) text_of no_number no_time

abbrev matches : List Segment → List String → Bool
matches [] [] = true
matches [] (x ∷ xs) = false
matches (lit text ∷ ps) [] = false
matches (lit text ∷ ps) (x ∷ xs) = str_eq x text && matches ps xs
matches (param name ∷ ps) [] = false
matches (param name ∷ ps) (x ∷ xs) = matches ps xs

matches-Fits : (ps : List Segment) (path : List String) → matches ps path ≡ true → Fits ps path
matches-Fits [] [] h = tt
matches-Fits [] (x ∷ xs) h = absurd (cc)
matches-Fits (lit text ∷ ps) [] h = absurd (cc)
matches-Fits (lit text ∷ ps) (x ∷ xs) h = ground (arith, eq_iff x text, matches-Fits ps xs)
matches-Fits (param name ∷ ps) [] h = absurd (cc)
matches-Fits (param name ∷ ps) (x ∷ xs) h = matches-Fits ps xs h

routes-AreDisjoint_example : AreDisjoint matches matches-Fits routes
routes-AreDisjoint_example = routes-AreDisjoint matches matches-Fits
