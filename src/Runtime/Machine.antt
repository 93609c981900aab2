-- ===== src/Runtime/Machine.antt =====
-- The program as it runs: any number of calls in progress, whose requests interleave in any order,
-- over one database and one queue. Requests, ticks and workers that are free may come at any time;
-- that there are only so many workers, and one ticker of each kind, takes runs away and adds none.
use event_driven_arch.Common.{ℕ, All, ◌≢◌, String, ◌≡◌, Bool, List, [], ◌∷◌, ◌++◌, none, some}
use event_driven_arch.Domain.Errors.{Error, Err, Result}
use event_driven_arch.Domain.Entities.{
  Time, Duration, Notification, Batch, CreateNotificationRequest,
}
use event_driven_arch.Queue.{Item, PriorityQueue, Case, poll_high, select}
use event_driven_arch.Repository.{NotificationRepository}
use event_driven_arch.Repository.Contract.{View, Write, IsRepository}
use event_driven_arch.Worker.{Surroundings}
use event_driven_arch.Runtime.{Code, write, write_batch, Shared, advance}
use event_driven_arch.Runtime.Calls
use event_driven_arch.Runtime.Calls.{Created}
use event_driven_arch.Runtime.Calls.Batch.{create_batch}

-- A call in progress: of `Create`, of `Cancel`, of `CreateBatch`, or of code that answers no one.
pub data Task : Type 0 where
  creating : Code Created → Task
  cancelling : Code Err → Task
  background : Code (Unit {0}) → Task
  batching : Code (Result Batch) → Task

pub record Machine (S : Type 0) : Type 0 where
  pub shared : Shared S
  pub tasks : List Task

module _ {S : Type 0} (repo : NotificationRepository S) (w : Surroundings) where
  unfoldable pub advance_task : Task → Shared S → Task × Shared S
  advance_task (creating k) s = let (k', s') = advance repo w k s in (creating k', s')
  advance_task (cancelling k) s = let (k', s') = advance repo w k s in (cancelling k', s')
  advance_task (background k) s = let (k', s') = advance repo w k s in (background k', s')
  advance_task (batching k) s = let (k', s') = advance repo w k s in (batching k', s')

-- `uuid.New()`: the ids of notifications that are to be stored are new, and differ.
abbrev pub AreNew : List Notification → View → Type 0
AreNew [] v = Unit {0}
AreNew (n ∷ ns) v = (v n.id ≡ none) × All (λ m. m.id ≢ n.id) ns × AreNew ns v

abbrev pub IsFreshWrite : Write → View → Type 0
IsFreshWrite (Write.create n) v = v n.id ≡ none
IsFreshWrite _ v = Unit {0}

abbrev pub IsFresh : {A : Type 0} → Code A → View → Type 0
IsFresh (write x k) v = IsFreshWrite x v
IsFresh (write_batch id ns k) v = AreNew ns v
IsFresh _ v = Unit {0}

abbrev pub IsFreshTask : Task → View → Type 0
IsFreshTask (creating k) v = IsFresh k v
IsFreshTask (cancelling k) v = IsFresh k v
IsFreshTask (background k) v = IsFresh k v
IsFreshTask (batching k) v = IsFresh k v

module _ {S : Type 0} (repo : NotificationRepository S) (c : IsRepository repo)
    (backoff : List Duration) (error_text : Error → String) where
  abbrev joined : Machine S → Task → Machine S
  joined m t = record m { tasks = m.tasks ++ t ∷ [] }

  -- A worker that is free has taken an item.
  abbrev picked : Machine S → Item → PriorityQueue → Machine S
  picked m item q = record {
    shared = record m.shared { queue = q };
    tasks = m.tasks ++ background (Calls.process backoff error_text item) ∷ [];
  }

  pub data Step (m : Machine S) : Machine S → Type 0 where
    post :
        (req : CreateNotificationRequest) (key id : String) (now : Time)
        → Step m (joined m (creating (Calls.create req key id now)))
    post_batch :
        (requests : List CreateNotificationRequest) (batch_id : String) (now : Time)
        (ids : ℕ → String) (clock : ℕ → Time)
        → Step m (joined m (batching (create_batch requests batch_id now ids clock)))
    delete : (id : String) → Step m (joined m (cancelling (Calls.cancel id)))
    tick_retries : Step m (joined m (background Calls.poll_retries))
    tick_scheduled : Step m (joined m (background Calls.poll_scheduled))
    take_high :
        (item : Item) (q : PriorityQueue)
        → poll_high m.shared.queue ≡ some (item, q)
        → Step m (picked m item q)
    take :
        (k : Case) (done : Bool) (item : Item) (q : PriorityQueue)
        → select k done m.shared.queue ≡ some (some item, q)
        → Step m (picked m item q)
    count :
        (before after : List String) (batch_id : String)
        → m.shared.jobs ≡ before ++ batch_id ∷ after
        → Step m (record {
          shared = record m.shared { jobs = before ++ after };
          tasks = m.tasks ++ background (Calls.count_batch batch_id) ∷ [];
        })
    run :
        (w : Surroundings) (before after : List Task) (t : Task)
        → m.tasks ≡ before ++ t ∷ after
        → IsFreshTask t (c.view m.shared.db)
        → Step m (
            let (t', s') = advance_task repo w t m.shared in
            record { shared = s'; tasks = before ++ t' ∷ after })

  pub data Reach (start : Machine S) : Machine S → Type 0 where
    here : Reach start start
    later : {m m' : Machine S} → Reach start m → Step m m' → Reach start m'
