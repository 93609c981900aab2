-- ===== src/Repository/Pg/Due.antt =====
-- Which rows the two searches for due work can return.
use event_driven_arch.Common.{
  ◌<◌, ◌≤◌, ◌≡◌, ◌≢◌, ◌↔◌, Bool, true, Option, none, some, arith, List, [], ◌∷◌, All, All-take,
  All-select, String, ok, err, take, select,
}
use event_driven_arch.Common.Int.{◌≤ℤ◌}
use event_driven_arch.Domain.Entities.{Time, failed, scheduled, Notification}
use event_driven_arch.Domain.Errors.{Result}
use event_driven_arch.Repository.Pg.{
  retry_due, schedule_due, find_due, explained, find_due_retries, find_due_scheduled,
}
use event_driven_arch.Repository.Pg.Statements.{Pg, Fate, works, refused, lost, send, meet, reading}

-- A time that is set and has come.
abbrev pub HasCome : Option Time → Time → Type 0
HasCome none now = ⊥
HasCome (some t) now = t ≤ℤ now

-- A row is taken up again exactly if it failed, an attempt is left and its time has come.
pub retry_due_iff :
    (now : Time) (n : Notification)
    → (retry_due now n ≡ true)
      ↔ ((n.status ≡ failed) × (n.retry_count < n.max_retries) × HasCome n.next_retry_at now)
unfolding retry_due
retry_due_iff now n = ground arith

pub schedule_due_iff :
    (now : Time) (n : Notification)
    → (schedule_due now n ≡ true) ↔ ((n.status ≡ scheduled) × HasCome n.scheduled_at now)
unfolding schedule_due
schedule_due_iff now n = ground arith

-- What a search of the rows of `p` returns, at whatever time it is made.
abbrev pub Returned : (Notification → Type 0) → Result (List Notification) → Type 0
Returned P (ok ns) = All P ns
Returned P (err _) = Unit {0}

find_due-Returned :
    (P Q : Notification → Type 0) (text : String) (test : Time → Notification → Bool) (p : Pg)
    → ((n : Notification) → P n → test p.now n ≡ true → Q n)
    → All P p.rows
    → Returned Q (find_due text test p).0
unfolding find_due send explained
find_due-Returned P Q text test p keep h = fates p.fates
  where
    found : All Q (take 500 (select (test p.now) p.rows))
    found = All-take Q 500 _ (All-select P Q (test p.now) p.rows keep h)

    fates :
        (fs : List Fate)
        → Returned Q (
            explained text
              (meet fs (reading (λ t. ok (take 500 (select (test t.now) t.rows)))) p).0)
    fates [] = found
    fates (works ∷ fs) = found
    fates (refused e ∷ fs) = tt
    fates (lost e ∷ fs) = tt

-- Neither failed nor scheduled.
abbrev pub IsAdrift : Notification → Type 0
IsAdrift n = (n.status ≢ failed) × (n.status ≢ scheduled)

-- Neither search for due work returns a row with the id, where every row with that id is neither
-- failed nor scheduled, such as one that is pending, queued or being processed.
pub find_due_skips :
    (id : String) (p : Pg)
    → All (λ n. n.id ≡ id → IsAdrift n) p.rows
    → Returned (λ n. n.id ≢ id) (find_due_retries p).0
      × Returned (λ n. n.id ≢ id) (find_due_scheduled p).0
unfolding find_due_retries find_due_scheduled
find_due_skips id p h = (
  find_due-Returned _ _ "find due retries" retry_due p
      (λ n adrift due same. (adrift same).0 (((retry_due_iff p.now n).0 due).0)) h,
  find_due-Returned _ _ "find due scheduled" schedule_due p
      (λ n adrift due same. (adrift same).1 (((schedule_due_iff p.now n).0 due).0)) h,
)

-- Nor does the search for retries return a row that has used up its attempts.
pub find_due_retries-spent :
    (id : String) (p : Pg)
    → All (λ n. n.id ≡ id → n.max_retries ≤ n.retry_count) p.rows
    → Returned (λ n. n.id ≢ id) (find_due_retries p).0
unfolding find_due_retries
find_due_retries-spent id p h =
    find_due-Returned _ _ "find due retries" retry_due p
      (λ n spent due same.
        let left = ((retry_due_iff p.now n).0 due).1 in let over = spent same in omega arith)
      h
