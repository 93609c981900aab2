-- ===== src/Service/BatchStored.antt =====
-- What `CreateBatch` of internal/service/notification_service.go leaves in the repository.
use event_driven_arch.Common.{
  ℕ, String, ◌≡◌, ◌⊎◌, inl, inr, refl, List, [], ◌∷◌, Option, none, some, false, arith, ok, err,
  length, ltb, ◌==◌, All, All-map, Outcome-cases, Bool-cases,
}
use event_driven_arch.Domain.Errors.{Error, Result, wrapped}
use event_driven_arch.Domain.Entities.{Time, queued, Notification, Batch, CreateNotificationRequest}
use event_driven_arch.Queue
use event_driven_arch.Repository.{NotificationRepository}
use event_driven_arch.Repository.Contract.{Same, CreatedAll, Write, IsRepository}
use event_driven_arch.Runtime.Sound.{KeepsMessages, Same-KeepsMessages, write-KeepsMessages}
use event_driven_arch.Runtime.Stored.{KeepsMessages-trans}
use event_driven_arch.Service.{
  System, item_of, enqueue, enqueue_at, queue_up, mark_queued, enqueue_unscheduled, enqueue_all,
  build_all, create_batch,
}
use event_driven_arch.Service.Batches.{AllBuilt, build_all-BuildSpec, IsAcceptable, AllBuilt-fits}
use event_driven_arch.Service.BatchFresh.{
  AreDistinct, AllBuilt-AreNew, IsStored, KeepsMessages-IsStored, AddedAll-IsStored,
}

module _ {S : Type 0} (repo : NotificationRepository S) (c : IsRepository repo) where
  open c use {view, IsValid, writes, writes_batch}

  -- The database is valid after it, and no message is lost.
  abbrev Keeps : System S → System S → Type 0
  Keeps s s' = IsValid s'.db × KeepsMessages (view s.db) (view s'.db)

  mark_queued-Keeps :
      (n : Notification) (o : Result (Unit {0}) × S) (q : Queue.PriorityQueue) (s : System S)
      → IsValid o.1 × KeepsMessages (view s.db) (view o.1)
      → Keeps s (mark_queued repo n o q).1
  unfolding mark_queued
  mark_queued-Keeps n (err e, db) q s h = h
  mark_queued-Keeps n (ok _, db) q s h = h

  queue_up-Keeps :
      (n : Notification) (o : Result (Unit {0}) × Queue.PriorityQueue) (s : System S)
      → IsValid s.db
      → Keeps s (queue_up repo n o s.db).1
  unfolding queue_up
  queue_up-Keeps n (err e, q) s valid = (valid, Same-KeepsMessages (λ j. refl))
  queue_up-Keeps n (ok _, q) s valid =
      let (valid', effect) = writes (Write.update_status n.id queued) s.db valid in
      mark_queued-Keeps n (repo.update_status n.id queued s.db) q s
        (valid', write-KeepsMessages (Write.update_status n.id queued) (view s.db) _ _ tt effect)

  enqueue_at-Keeps :
      (at : Option Time) (n : Notification) (s : System S)
      → IsValid s.db
      → Keeps s (enqueue_at repo at n s).1
  unfolding enqueue_at
  enqueue_at-Keeps (some t) n s valid = (valid, Same-KeepsMessages (λ j. refl))
  enqueue_at-Keeps none n s valid = queue_up-Keeps n (Queue.enqueue (item_of n) s.queue) s valid

  enqueue_unscheduled-Keeps :
      (at : Option Time) (n : Notification) (s : System S)
      → IsValid s.db
      → Keeps s (enqueue_unscheduled repo at n s)
  unfolding enqueue_unscheduled enqueue
  enqueue_unscheduled-Keeps (some t) n s valid = (valid, Same-KeepsMessages (λ j. refl))
  enqueue_unscheduled-Keeps none n s valid = enqueue_at-Keeps n.scheduled_at n s valid

  enqueue_all-Keeps :
      (ns : List Notification) (s : System S) → IsValid s.db → Keeps s (enqueue_all repo ns s)
  unfolding enqueue_all
  enqueue_all-Keeps [] s valid = (valid, Same-KeepsMessages (λ j. refl))
  enqueue_all-Keeps (n ∷ ns) s valid =
      let (valid', keeps) = enqueue_unscheduled-Keeps n.scheduled_at n s valid in
      let (valid2, keeps2) =
        enqueue_all-Keeps ns (enqueue_unscheduled repo n.scheduled_at n s) valid' in
      (valid2, KeepsMessages-trans keeps keeps2)

  -- Where the batch is accepted, all its notifications are stored; where it is not, the queue is as
  -- it was, and none of them is, unless the report of the write that stored them was lost.
  abbrev pub BatchOutcome :
      List CreateNotificationRequest → (ℕ → String) → System S → Result Batch × System S → Type 0
  BatchOutcome reqs ids s (ok b, s') =
      IsAcceptable reqs
      × ((batch_id : String) × (now : Time) × (ns : List Notification) × AllBuilt batch_id now ids 0
            reqs ns
          × All (IsStored (view s'.db)) ns)
  BatchOutcome reqs ids s (err e, s') =
      (s'.queue ≡ s.queue)
      × (Same (view s.db) (view s'.db)
          ⊎ ((batch_id : String) × (now : Time) × (ns : List Notification) × AllBuilt batch_id now
                ids 0 reqs ns
              × All (IsStored (view s'.db)) ns))

  module _ (reqs : List CreateNotificationRequest) (batch_id : String) (now : Time)
      (ids : ℕ → String) (clock : ℕ → Time) (s : System S) (valid : IsValid s.db)
      (distinct : AreDistinct ids) (free : (j : ℕ) → view s.db (ids j) ≡ none) where
    ends_err :
        (ns : List Notification) (e : Error)
        → (length reqs == 0) ≡ false
        → ltb 1000 (length reqs) ≡ false
        → build_all batch_id now ids clock 0 reqs ≡ ok ns
        → (repo.create_batch batch_id ns s.db).0 ≡ err e
        → create_batch repo reqs batch_id now ids clock s ≡ (
          err (wrapped "persist batch" e),
          record s { db = (repo.create_batch batch_id ns s.db).1 },
        )
    unfolding create_batch
    ends_err ns e some_there fits built failed = ground arith

    ends_ok :
        (ns : List Notification) (b : Batch)
        → (length reqs == 0) ≡ false
        → ltb 1000 (length reqs) ≡ false
        → build_all batch_id now ids clock 0 reqs ≡ ok ns
        → (repo.create_batch batch_id ns s.db).0 ≡ ok b
        → create_batch repo reqs batch_id now ids clock s
          ≡ (ok b, enqueue_all repo ns (record s { db = (repo.create_batch batch_id ns s.db).1 }))
    unfolding create_batch
    ends_ok ns b some_there fits built stored = ground arith

    -- The write stored the whole batch.
    accepted :
        (ns : List Notification) (db : S) (b : Batch)
        → AllBuilt batch_id now ids 0 reqs ns
        → CreatedAll ns (view s.db) (view db) (ok b)
        → All (IsStored (view db)) ns
    accepted ns db b built added =
        AddedAll-IsStored _ ns (view s.db) (view db)
          (AllBuilt-AreNew batch_id now ids 0 reqs ns (view s.db) distinct free built) added

    -- The write reported an error.
    refused :
        (ns : List Notification) (db : S) (r : Result Batch)
        → AllBuilt batch_id now ids 0 reqs ns
        → CreatedAll ns (view s.db) (view db) r
        → Same (view s.db) (view db)
          ⊎ ((batch_id : String) × (now : Time) × (ns : List Notification) × AllBuilt batch_id now
                ids 0 reqs ns
              × All (IsStored (view db)) ns)
    refused ns db (ok b) built added = inr (batch_id, now, ns, built, accepted ns db b built added)
    refused ns db (err e) built (inl same) = inl same
    refused ns db (err e) built (inr added) = inr (
      batch_id,
      now,
      ns,
      built,
      AddedAll-IsStored _ ns (view s.db) (view db)
          (AllBuilt-AreNew batch_id now ids 0 reqs ns (view s.db) distinct free built) added,
    )

    -- Over any repository that meets the contract, with ids that are new and differ: where
    -- `CreateBatch` returns a batch, it has from 1 to 1000 items, all of them deliverable, and for
    -- each one, in their order, a notification with its channel, recipient, content, priority and
    -- schedule is stored, its times to the microsecond; where it returns an error, the queue is as it was, and the repository too,
    -- unless the write stored the whole batch and the report of that was lost.
    pub create_batch-BatchOutcome :
        let (r, s') = create_batch repo reqs batch_id now ids clock s in
        IsValid s'.db × BatchOutcome reqs ids s (r, s')
    unfolding create_batch
    create_batch-BatchOutcome = elim (Bool-cases (length reqs == 0)) [
      | inl empty ↦ rw (empty, create_batch) (valid, (refl, inl (λ j. refl)))
      | inr some_there ↦ elim (Bool-cases (ltb 1000 (length reqs))) [
        | inl large ↦ rw (some_there, large, create_batch) (valid, (refl, inl (λ j. refl)))
        | inr fits ↦ elim (Outcome-cases (build_all batch_id now ids clock 0 reqs)) [
          | inr (e, bad) ↦ rw (some_there, fits, bad, create_batch) (valid, (refl, inl (λ j. refl)))
          | inl (ns, built) ↦
              let all : AllBuilt batch_id now ids 0 reqs ns =
                rw built at (build_all-BuildSpec batch_id now ids clock 0 reqs) in
              let (valid', effect) = writes_batch batch_id ns s.db valid in
              let db = (repo.create_batch batch_id ns s.db).1 in
              elim (Outcome-cases (repo.create_batch batch_id ns s.db).0) [
                | inr (e, failed) ↦
                    rw (ends_err ns e some_there fits built failed)
                      (valid', (refl, refused ns db _ all effect))
                | inl (b, stored) ↦
                    let (valid2, keeps) = enqueue_all-Keeps ns (record s { db = db }) valid' in
                    let there = accepted ns db b all (rw stored at effect) in
                    rw (ends_ok ns b some_there fits built stored) (
                      valid2,
                      (
                        (ground arith, ground arith, AllBuilt-fits batch_id now ids 0 reqs ns all),
                        (
                          batch_id,
                          now,
                          ns,
                          all,
                          All-map (IsStored (view db)) _ ns
                              (λ n. KeepsMessages-IsStored (view db) _ n keeps) there,
                        ),
                      ),
                    )
              ]
        ]
      ]
    ]
