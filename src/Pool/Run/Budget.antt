-- ===== src/Pool/Run/Budget.antt =====
-- How many steps the workers of a pool may still make.
use event_driven_arch.Common.{
  ℕ, suc, ◌+◌, ◌*◌, ◌-◌, ◌<◌, ◌≤◌, ◌≡◌, ◌≢◌, refl, Bool, String, List, [], ◌∷◌, ◌++◌, none, some,
  arith, length, ap,
}
use event_driven_arch.Domain.Errors.{Error}
use event_driven_arch.Pool.{PoolWorker}
use event_driven_arch.Pool.Run.{
  Phase, free, busy, returned, Crew, CrewStep, take_high, take, request, next, leave,
}
use event_driven_arch.Queue.{Item, PriorityQueue, Case, poll_high, select}
use event_driven_arch.Queue.Buffered.{try_recv}
use event_driven_arch.Repository.{NotificationRepository}
use event_driven_arch.Runtime.{Code, return, Shared, advance}
use event_driven_arch.Runtime.Bounds.{Within}
use event_driven_arch.Runtime.Calls.{process}
use event_driven_arch.Runtime.Calls.Bounds.{process-Within}
use event_driven_arch.Runtime.Ends.{IsRequest, IsUnlimited, request-Within, advance-queue}
use event_driven_arch.Worker.{Surroundings}
use event_driven_arch.Worker.Loop.Stops.{total}

-- A worker in `process` may make the requests that are left of it, return to the loop, and leave.
abbrev pub Owes : ℕ → Phase → Type 0
Owes m (free w) = (m ≡ 1) × (w.backoff ≢ [])
Owes m (busy w k) = (d : ℕ) × (m ≡ d + 2) × (d ≤ 8) × Within ⊥ d k × (w.backoff ≢ [])
Owes m returned = m ≡ 0

abbrev pub AllOwe : ℕ → List Phase → Type 0
AllOwe m [] = m ≡ 0
AllOwe m (x ∷ xs) = (a : ℕ) × (b : ℕ) × (m ≡ a + b) × Owes a x × AllOwe b xs

abbrev pub still : Phase → ℕ
still (free w) = 1
still (busy w k) = 1
still returned = 0

-- The workers that have not returned.
abbrev pub remaining : List Phase → ℕ
remaining [] = 0
remaining (x ∷ xs) = still x + remaining xs

-- Another phase of one worker.
AllOwe-replace :
    (before after : List Phase) (x : Phase) (m : ℕ)
    → AllOwe m (before ++ x ∷ after)
    → (a : ℕ) × (b : ℕ) × (m ≡ a + b)
      × Owes a x
      × ((c : ℕ) (y : Phase) → Owes c y → AllOwe (c + b) (before ++ y ∷ after))
AllOwe-replace [] after x m (a, b, e, owes, all) =
    (a, b, e, owes, λ c y owed. (c, b, refl, owed, all))
AllOwe-replace (z ∷ before) after x m (f, g, e, first, all) =
    let (a, b, e', owes, put) = AllOwe-replace before after x g all in
    (a, f + b, omega arith, owes, λ c y owed. (f, c + b, omega arith, first, put c y owed))

remaining-replace :
    (before after : List Phase) (x y : Phase)
    → remaining (before ++ y ∷ after) + still x ≡ remaining (before ++ x ∷ after) + still y
remaining-replace [] after x y = omega arith
remaining-replace (z ∷ before) after x y = omega (arith, remaining-replace before after x y)

pub length-replace :
    (before after : List Phase) (x y : Phase)
    → length (before ++ y ∷ after) ≡ length (before ++ x ∷ after)
length-replace [] after x y = refl
length-replace (z ∷ before) after x y = ap suc (length-replace before after x y)

-- What the workers owe in all, and that the counter is the number of those that have not returned.
pub record IsManned {S : Type 0} (p : Crew S) : Type 0 where
  pub owed : ℕ
  pub owes : AllOwe owed p.phases
  pub counted : p.counter ≡ remaining p.phases

-- The steps that are left at most, where no item is added.
abbrev pub budget : {S : Type 0} (p : Crew S) → IsManned p → ℕ
budget p m = m.owed + 10 * total p.shared.queue

poll_high-total :
    (q q' : PriorityQueue) (item : Item) → poll_high q ≡ some (item, q') → total q' < total q
unfolding poll_high try_recv
poll_high-total q q' item e = ground arith

select-total :
    (k : Case) (done : Bool) (q q' : PriorityQueue) (item : Item)
    → select k done q ≡ some (some item, q')
    → total q' < total q
unfolding select try_recv
select-total k done q q' item e = ground arith

select-none :
    (k : Case) (done : Bool) (q q' : PriorityQueue) → select k done q ≡ some (none, q') → q' ≡ q
unfolding select try_recv
select-none k done q q' e = ground arith

-- What one worker owes, and the crew where that worker is in another phase.
abbrev Placed : {S : Type 0} (p : Crew S) → List Phase → List Phase → Phase → IsManned p → Type 0
Placed {S} p before after x m =
    (a : ℕ) × (b : ℕ) × (m.owed ≡ a + b)
    × Owes a x
    × ((c : ℕ) (y : Phase) (s : Shared S) (counter : ℕ)
        → Owes c y
        → counter + still x ≡ p.counter + still y
        → (m' : IsManned (record { shared = s; phases = before ++ y ∷ after; counter = counter }))
          × (m'.owed ≡ c + b))

placed :
    {S : Type 0} (p : Crew S) (before after : List Phase) (x : Phase) (m : IsManned p)
    → p.phases ≡ before ++ x ∷ after
    → Placed p before after x m
placed p before after x m at =
    let (a, b, e, owes, put) = AllOwe-replace before after x m.owed (rw at at m.owes) in
    let was : p.counter ≡ remaining (before ++ x ∷ after) = rw at at m.counted in
    (
      a,
      b,
      e,
      owes,
      λ c y s counter owed counts. (
        record {
          owed = c + b;
          owes = put c y owed;
          counted = omega (arith, remaining-replace before after x y);
        },
        refl,
      ),
    )

-- The crew has fewer steps left.
abbrev pub Spent : {S : Type 0} (p : Crew S) → IsManned p → Crew S → Type 0
Spent p m p' = (m' : IsManned p') × (budget p' m' < budget p m)

module _ {S : Type 0} (repo : NotificationRepository S) (error_text : Error → String) where
  taken-Spent :
      (p : Crew S) (m : IsManned p) (before after : List Phase) (w : PoolWorker) (item : Item)
      (q : PriorityQueue)
      → p.phases ≡ before ++ free w ∷ after
      → total q < total p.shared.queue
      → Spent p m (record p {
        shared = record p.shared { queue = q };
        phases = before ++ busy w (process w.backoff error_text item) ∷ after;
      })
  taken-Spent p m before after w item q at less =
      let (a, b, e, (one, some_delay), put) = placed p before after (free w) m at in
      let (m', e') =
        put 10 (busy w (process w.backoff error_text item)) (record p.shared { queue = q })
          p.counter
          (
            8,
            refl,
            omega arith,
            process-Within ⊥ w.backoff error_text some_delay (λ no. no) item,
            some_delay,
          )
          refl in
      (m', omega arith)

  requested-Spent :
      (p : Crew S) (m : IsManned p) (around : Surroundings) (before after : List Phase)
      (w : PoolWorker) (k : Code (Unit {0}))
      → p.phases ≡ before ++ busy w k ∷ after
      → IsRequest k
      → ¬ IsUnlimited around k
      → Spent p m (
          let (k', s') = advance repo around k p.shared in
          record p { shared = s'; phases = before ++ busy w k' ∷ after })
  requested-Spent p m around before after w k at asks limited =
      let (a, b, e, (d, is, most, within, some_delay), put) =
        placed p before after (busy w k) m at in
      let (d', less, within') = request-Within repo ⊥ around d k p.shared asks limited within in
      let same = advance-queue repo ⊥ around d k p.shared (λ h. h) within in
      let kept : total (advance repo around k p.shared).1.queue ≡ total p.shared.queue =
        ap total same in
      let (m', e') =
        put (d' + 2) (busy w (advance repo around k p.shared).0) (advance repo around k p.shared).1
          p.counter (d', refl, omega arith, within', some_delay) refl in
      (m', omega arith)

  -- Every step of a worker takes from the budget.
  pub CrewStep-Spent :
      (done : Bool) (p p' : Crew S) (m : IsManned p)
      → CrewStep repo error_text done p p'
      → Spent p m p'
  CrewStep-Spent done p _ m (take_high before after w item q at taken) =
      taken-Spent p m before after w item q at (poll_high-total p.shared.queue q item taken)
  CrewStep-Spent done p _ m (take before after w k item q at taken) =
      taken-Spent p m before after w item q at (select-total k done p.shared.queue q item taken)
  CrewStep-Spent done p _ m (request around before after w k at asks limited) =
      requested-Spent p m around before after w k at asks limited
  CrewStep-Spent done p _ m (next before after w at) =
      let (a, b, e, (d, is, most, within, some_delay), put) =
        placed p before after (busy w (return tt)) m at in
      let (m', e') = put 1 (free w) p.shared p.counter (refl, some_delay) refl in (m', omega arith)
  CrewStep-Spent done p _ m (leave before after w k q at left) =
      let (a, b, e, (one, some_delay), put) = placed p before after (free w) m at in
      let same : q ≡ p.shared.queue = select-none k done p.shared.queue q left in
      let some_there : p.counter ≡ remaining (before ++ free w ∷ after) = rw at at m.counted in
      let there = remaining-replace before after (free w) returned in
      let (m', e') =
        put 0 returned (record p.shared { queue = q }) (p.counter - 1) refl (omega arith) in
      (m', let kept : total q ≡ total p.shared.queue = ap total same in omega arith)
