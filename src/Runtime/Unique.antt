-- ===== src/Runtime/Unique.antt =====
-- Idempotency keys under calls that interleave.
use event_driven_arch.Common.{String, List}
use event_driven_arch.Domain.Errors.{Error}
use event_driven_arch.Domain.Entities.{Duration}
use event_driven_arch.Repository.{NotificationRepository}
use event_driven_arch.Repository.Contract.{Same, IsRepository}
use event_driven_arch.Repository.Contract.Keys.{
  HasUniqueKeys, RefusesUsedKeys, Same-HasUniqueKeys, write-HasUniqueKeys, batch-HasUniqueKeys,
}
use event_driven_arch.Repository.Pg.Implements.{pg_repository}
use event_driven_arch.Repository.Pg.Keys.{pg_refuses}
use event_driven_arch.Repository.Pg.Refines.{pg_contract}
use event_driven_arch.Repository.Pg.Rows.{view, IsDistinct}
use event_driven_arch.Repository.Pg.Statements.{Pg, Server}
use event_driven_arch.Runtime
use event_driven_arch.Runtime.{Code, Shared, advance}
use event_driven_arch.Runtime.Machine
use event_driven_arch.Runtime.Machine.{
  Task, creating, cancelling, background, batching, Machine, advance_task, Step, post, post_batch,
  delete, tick_retries, tick_scheduled, take_high, take, count, Reach, here, later,
}
use event_driven_arch.Worker.{Surroundings}

module _ {S : Type 0} (repo : NotificationRepository S) (c : IsRepository repo)
    (refuses : RefusesUsedKeys repo c) where
  open c use {
    view as seen, IsValid, writes, writes_batch, gets, gets_by_key, finds_retries, finds_scheduled,
  }

  abbrev pub IsOnce : S → Type 0
  IsOnce s = IsValid s × HasUniqueKeys (seen s)

  -- A request that only reads.
  read-IsOnce : (s s' : S) → IsValid s' → Same (seen s) (seen s') → IsOnce s → IsOnce s'
  read-IsOnce s s' valid same (_, unique) = (valid, Same-HasUniqueKeys same unique)

  advance-IsOnce :
      {A : Type 0} (w : Surroundings) (k : Code A) (s : Shared S)
      → IsOnce s.db
      → IsOnce (advance repo w k s).1.db
  unfolding advance
  advance-IsOnce w (Runtime.write x k) s (valid, unique) =
      ((writes x s.db valid).0, write-HasUniqueKeys repo c refuses x s.db valid unique)
  advance-IsOnce w (Runtime.write_batch id ns k) s (valid, unique) = (
    (writes_batch id ns s.db valid).0,
    batch-HasUniqueKeys repo c refuses id ns s.db valid unique,
  )
  advance-IsOnce w (Runtime.get id k) s once =
      let (valid', same, _) = gets id s.db once.0 in read-IsOnce s.db _ valid' same once
  advance-IsOnce w (Runtime.get_by_key key k) s once =
      let (valid', same, _) = gets_by_key key s.db once.0 in read-IsOnce s.db _ valid' same once
  advance-IsOnce w (Runtime.find_retries k) s once =
      let (valid', same, _) = finds_retries s.db once.0 in read-IsOnce s.db _ valid' same once
  advance-IsOnce w (Runtime.find_scheduled k) s once =
      let (valid', same, _) = finds_scheduled s.db once.0 in read-IsOnce s.db _ valid' same once
  advance-IsOnce w (Runtime.return a) s once = once
  advance-IsOnce w Runtime.panic s once = once
  advance-IsOnce w (Runtime.put item k) s once = once
  advance-IsOnce w (Runtime.wait channel k) s once = once
  advance-IsOnce w (Runtime.send n k) s once = once
  advance-IsOnce w (Runtime.clock k) s once = once
  advance-IsOnce w (Runtime.measure m k) s once = once
  advance-IsOnce w (Runtime.go batches k) s once = once

  task-IsOnce :
      (w : Surroundings) (t : Task) (s : Shared S)
      → IsOnce s.db
      → IsOnce (advance_task repo w t s).1.db
  unfolding advance_task
  task-IsOnce w (creating k) s once = advance-IsOnce w k s once
  task-IsOnce w (cancelling k) s once = advance-IsOnce w k s once
  task-IsOnce w (background k) s once = advance-IsOnce w k s once
  task-IsOnce w (batching k) s once = advance-IsOnce w k s once

  module _ (backoff : List Duration) (error_text : Error → String) where
    Step-IsOnce :
        {m m' : Machine S}
        → Step repo c backoff error_text m m'
        → IsOnce m.shared.db
        → IsOnce m'.shared.db
    Step-IsOnce (post req key id now) once = once
    Step-IsOnce (post_batch requests batch_id now ids clock) once = once
    Step-IsOnce (delete id) once = once
    Step-IsOnce tick_retries once = once
    Step-IsOnce tick_scheduled once = once
    Step-IsOnce (take_high item q taken) once = once
    Step-IsOnce (take k done item q taken) once = once
    Step-IsOnce (count before after batch_id some_job) once = once
    Step-IsOnce {m} (Machine.run w before after t at fresh) once = task-IsOnce w t m.shared once

    Reach-HasUniqueKeys :
        (start m : Machine S)
        → Reach repo c backoff error_text start m
        → IsValid start.shared.db
        → HasUniqueKeys (seen start.shared.db)
        → HasUniqueKeys (seen m.shared.db)
    Reach-HasUniqueKeys start m reach valid unique = (reached reach (valid, unique)).1
      where
        reached :
            {a b : Machine S}
            → Reach repo c backoff error_text a b
            → IsOnce a.shared.db
            → IsOnce b.shared.db
        reached here once = once
        reached (later reach' step) once = Step-IsOnce step (reached reach' once)

-- Over the PostgreSQL repository, whatever the fates of its statements, the calls and their
-- interleaving: where the ids of the rows are distinct and no two notifications have one idempotency
-- key, no two have one in any state that the program reaches, also where several calls of `Create`
-- have looked for the same key before one of them stored its notification.
pub pg_repository-HasUniqueKeys :
    (server : Server) (backoff : List Duration) (error_text : Error → String) (start m : Machine Pg)
    → Reach (pg_repository server) (pg_contract server) backoff error_text start m
    → IsDistinct start.shared.db.rows
    → HasUniqueKeys (view start.shared.db)
    → HasUniqueKeys (view m.shared.db)
pg_repository-HasUniqueKeys server backoff error_text start m reach distinct unique =
    Reach-HasUniqueKeys (pg_repository server) (pg_contract server) (pg_refuses server) backoff
      error_text start m reach distinct unique
