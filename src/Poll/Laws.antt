-- ===== src/Poll/Laws.antt =====
-- What a tick does to the stored notifications and to the queue.
use event_driven_arch.Common.{
  String, false, ◌≡◌, ◌⊎◌, inl, inr, refl, ◌∙◌, List, [], ◌∷◌, map, some, ok, err, All, str_eq,
  eq_iff, Bool-cases, arith, sym, ap,
}
use event_driven_arch.Domain.Errors.{Err, Result}
use event_driven_arch.Domain.Entities.{queued, Notification}
use event_driven_arch.Queue
use event_driven_arch.Queue.{PriorityQueue}
use event_driven_arch.Queue.Trace.{put, run, run-nil, run-put}
use event_driven_arch.Repository.{NotificationRepository}
use event_driven_arch.Repository.Contract.{
  View, Same, Changed, Becomes, Wrote, FoundDue, IsRetriable, IsScheduled, Write, IsRepository,
}
use event_driven_arch.Repository.Contract.Laws.{Wrote-either, Changed-at}
use event_driven_arch.Service.{System, item_of}
use event_driven_arch.Poll.{
  requeued, requeue, requeue_all, requeue_found, poll_retries, poll_scheduled,
}

-- Every notification is as it was, or it had the property and is now queued, its retry state kept.
abbrev pub Requeued : (Notification → Type 0) → View → View → Type 0
Requeued P v v' =
    (j : String)
    → (v' j ≡ v j)
      ⊎ ((n : Notification) × (n' : Notification) × (v j ≡ some n)
          × (v' j ≡ some n')
          × P n
          × Becomes queued n n')

pub Becomes-trans :
    (n m k : Notification) → Becomes queued n m → Becomes queued m k → Becomes queued n k
Becomes-trans n m k p q = ground arith

module _ (P : Notification → Type 0) where
  away :
      (n : Notification) (u w : View)
      → Changed (Becomes queued) n.id u w
      → (j : String) → str_eq j n.id ≡ false
      → w j ≡ u j
  away n u w ch j miss = ch.elsewhere j (ground (arith, eq_iff j n.id))

  -- At the id itself: the first update or a second one.
  again :
      (n : Notification) (v u w : View)
      → v n.id ≡ some n
      → P n
      → Changed (Becomes queued) n.id u w
      → (u n.id ≡ v n.id)
        ⊎ ((m : Notification) × (m' : Notification) × (v n.id ≡ some m)
            × (u n.id ≡ some m')
            × P m
            × Becomes queued m m')
      → (m : Notification) × (m' : Notification) × (v n.id ≡ some m)
        × (w n.id ≡ some m')
        × P m
        × Becomes queued m m'
  again n v u w at p ch (inl kept) =
      let (k, is, became) = Changed-at (Becomes queued) n.id u w ch (kept ∙ at) in
      (n, k, at, is, p, became)
  again n v u w at p ch (inr (m, m', was, is, q, became)) =
      let (k, is', became') = Changed-at (Becomes queued) n.id u w ch is in
      (m, k, was, is', q, Becomes-trans m m' k became became')

  -- One more update of a notification that had the property at the start.
  Requeued-Changed :
      (n : Notification) (v u w : View)
      → Requeued P v u
      → v n.id ≡ some n
      → P n
      → Same u w ⊎ Changed (Becomes queued) n.id u w
      → Requeued P v w
  Requeued-Changed n v u w moved at p (inl same) j = elim (moved j) [
    | inl kept ↦ inl (same j ∙ kept)
    | inr (m, m', was, is, q, became) ↦ inr (m, m', was, same j ∙ is, q, became)
  ]
  Requeued-Changed n v u w moved at p (inr ch) j = elim (Bool-cases (str_eq j n.id)) [
    | inl hit ↦ inr (rw ((eq_iff j n.id).0 hit) (again n v u w at p ch (moved n.id)))
    | inr miss ↦ elim (moved j) [
      | inl kept ↦ inl (away n u w ch j miss ∙ kept)
      | inr (m, m', was, is, q, became) ↦ inr (m, m', was, away n u w ch j miss ∙ is, q, became)
    ]
  ]

module _ {S : Type 0} (repo : NotificationRepository S) (R : IsRepository repo) where
  -- What a round leaves, from a view at the start of the tick.
  abbrev Round : (Notification → Type 0) → View → System S → Type 0
  Round P v s = R.IsValid s.db × Requeued P v (R.view s.db)

  requeued-Round :
      (P : Notification → Type 0) (v : View) (n : Notification) (s : System S)
      → (r : Err × PriorityQueue) → Round P v s
      → v n.id ≡ some n
      → P n
      → Round P v (requeued repo n r s.db)
  unfolding requeued
  requeued-Round P v n s (err e, q) h at p = h
  requeued-Round P v n s (ok u, q) (valid, moved) at p =
      let (valid', wrote) = R.writes (Write.update_status n.id queued) s.db valid in
      (
        valid',
        Requeued-Changed P n v (R.view s.db) (R.view (repo.update_status n.id queued s.db).1) moved
            at p (Wrote-either (Becomes queued) n.id _ _ _ wrote),
      )

  requeue_all-Round :
      (P : Notification → Type 0) (v : View) (ns : List Notification) (s : System S)
      → Round P v s
      → All (λ n. (v n.id ≡ some n) × P n) ns
      → Round P v (requeue_all repo ns s)
  unfolding requeue_all requeue
  requeue_all-Round P v [] s h found = h
  requeue_all-Round P v (n ∷ ns) s h ((at, p), found) =
      requeue_all-Round P v ns _ (requeued-Round P v n s _ h at p) found

  requeued-queue :
      (n : Notification) (r : Err × PriorityQueue) (db : S) → (requeued repo n r db).queue ≡ r.1
  unfolding requeued
  requeued-queue n (err e, q) db = refl
  requeued-queue n (ok u, q) db = refl

  requeue_all-queue :
      (ns : List Notification) (s : System S)
      → (requeue_all repo ns s).queue ≡ run (map (λ n. put (item_of n)) ns) s.queue
  unfolding requeue_all requeue
  requeue_all-queue [] s = sym (run-nil s.queue)
  requeue_all-queue (n ∷ ns) s =
      requeue_all-queue ns (requeue repo n s)
      ∙ ap (run (map (λ m. put (item_of m)) ns)) (requeued-queue n _ s.db)
      ∙ sym (run-put (item_of n) _ s.queue)

  -- What a search found is what its tick works through, in the order of the search.
  abbrev ns_of : Result (List Notification) → List Notification
  ns_of (ok ns) = ns
  ns_of (err _) = []

  -- What a round does to the database, by the answer of `Enqueue`: nothing where it refuses the item,
  -- and else the update of the status, whose answer is that of the repository.
  abbrev pub Rounded : Notification → Err → System S → System S → Type 0
  Rounded n (err e) s s' = s'.db ≡ s.db
  Rounded n (ok _) s s' =
      Wrote (Becomes queued) n.id (R.view s.db) (R.view s'.db)
        (repo.update_status n.id queued s.db).0

  -- The rounds of a tick, one after another; each leaves the queue that `Enqueue` left.
  abbrev pub Rounds : List Notification → System S → System S → Type 0
  Rounds [] s s' = s' ≡ s
  Rounds (n ∷ ns) s s' =
      let (r, q) = Queue.enqueue (item_of n) s.queue in
      (t : System S) × (t.queue ≡ q) × Rounded n r s t × Rounds ns t s'

  requeued-Rounded :
      (n : Notification) (r : Err) (q : PriorityQueue) (s : System S)
      → R.IsValid s.db
      → let t = requeued repo n (r, q) s.db in R.IsValid t.db × (t.queue ≡ q) × Rounded n r s t
  unfolding requeued
  requeued-Rounded n (err e) q s valid = (valid, refl, refl)
  requeued-Rounded n (ok u) q s valid =
      let (valid', wrote) = R.writes (Write.update_status n.id queued) s.db valid in
      (valid', refl, wrote)

  requeue_all-Rounds :
      (ns : List Notification) (s : System S) → R.IsValid s.db → Rounds ns s (requeue_all repo ns s)
  unfolding requeue_all requeue
  requeue_all-Rounds [] s valid = refl
  requeue_all-Rounds (n ∷ ns) s valid =
      let (r, q) = Queue.enqueue (item_of n) s.queue in
      let (valid', queue, rounded) = requeued-Rounded n r q s valid in
      (_, queue, rounded, requeue_all-Rounds ns _ valid')

  -- A tick from the state `s`: what it does to the database, and to the queue.
  abbrev pub Ticked :
      (Notification → Type 0) → Result (List Notification) → System S → System S → Type 0
  Ticked P found s s' =
      R.IsValid s'.db
      × Requeued P (R.view s.db) (R.view s'.db)
      × (s'.queue ≡ run (map (λ n. put (item_of n)) (ns_of found)) s.queue)
      × ((db : S) × Same (R.view s.db) (R.view db)
          × Rounds (ns_of found) (record { db = db; queue = s.queue }) s')

  requeue_found-Ticked :
      (P : Notification → Type 0) (s : System S) (found : Result (List Notification)) (db : S)
      → R.IsValid db × Same (R.view s.db) (R.view db) × FoundDue P (R.view s.db) found
      → Ticked P found s (requeue_found repo (found, db) s.queue)
  unfolding requeue_found
  requeue_found-Ticked P s (err e) db (valid, same, _) =
      (valid, λ j. inl (same j), sym (run-nil s.queue), (db, same, refl))
  requeue_found-Ticked P s (ok ns) db (valid, same, found) =
      let t : System S = record { db = db; queue = s.queue } in
      let (valid', moved) =
        requeue_all-Round P (R.view s.db) ns t (valid, λ j. inl (same j)) found in
      (valid', moved, requeue_all-queue ns t, (db, same, requeue_all-Rounds ns t valid))

  -- Over any repository that meets the contract, a tick of the retry worker puts the items of what
  -- the search for retries found on the queue, in its order, as far as the lanes have room. For each
  -- one, the status is updated to `queued` where `Enqueue` took its item, and nothing is written
  -- where it refused it. A stored notification stays as it was, unless it had failed with an attempt
  -- left: then it may now be queued, with its retry count and its next time as they were.
  pub poll_retries-Ticked :
      (s : System S)
      → R.IsValid s.db
      → Ticked IsRetriable (repo.find_due_retries s.db).0 s (poll_retries repo s)
  unfolding poll_retries
  poll_retries-Ticked s valid = requeue_found-Ticked IsRetriable s _ _ (R.finds_retries s.db valid)

  -- Over any repository that meets the contract, a tick of the scheduler puts the items of what the
  -- search for scheduled notifications found on the queue, in its order, as far as the lanes have
  -- room. A stored notification stays as it was, unless it was scheduled: then it may now be queued.
  pub poll_scheduled-Ticked :
      (s : System S)
      → R.IsValid s.db
      → Ticked IsScheduled (repo.find_due_scheduled s.db).0 s (poll_scheduled repo s)
  unfolding poll_scheduled
  poll_scheduled-Ticked s valid =
      requeue_found-Ticked IsScheduled s _ _ (R.finds_scheduled s.db valid)
