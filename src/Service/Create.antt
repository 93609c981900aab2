-- ===== src/Service/Create.antt =====
-- What `Create` promises, over any repository that meets the contract.
use event_driven_arch.Common.{
  ◌≤◌, String, ◌≡◌, ◌≢◌, ◌⊎◌, inl, inr, Bool, true, false, Option, none, some, arith, str_eq,
  eq_iff, ok, err, refl, sym, ap, ◌∙◌, Outcome-cases, Bool-cases,
}
use event_driven_arch.Domain.Errors.{Err, Error, Result, errors_is, not_found, bind-post, context}
use event_driven_arch.Domain.Entities.{
  Time, Notification, CreateNotificationRequest, validate, queued, sent,
}
use event_driven_arch.Domain.Validation.{IsDeliverable, validate-ok_iff}
use event_driven_arch.Queue
use event_driven_arch.Queue.{PriorityQueue}
use event_driven_arch.Queue.Enqueue.{enqueue-err}
use event_driven_arch.Repository.{NotificationRepository}
use event_driven_arch.Repository.Contract.{
  View, Same, Changed, Becomes, Wrote, Added, Created, FoundByKey, Write, IsRepository,
}
use event_driven_arch.Repository.Contract.Laws.{Same-Added, Same-failed, wrap-Created}
use event_driven_arch.Service.{
  System, create, find_existing, looked_up, mark_queued, queue_up, enqueue_at, enqueue_new,
  or_persist, persist, enqueue, build_notification, item_of, on_db,
}

-- There is no key, or no stored notification has it.
abbrev pub Unused : String → View → Type 0
Unused key v =
    (key ≡ "") ⊎ ((j : String) (n : Notification) → v j ≡ some n → n.idempotency_key ≢ some key)

-- The lookup by key: a hit is stored and has the key, and a miss means that nothing stored has.
abbrev pub Looked : String → View → Result (Option Notification) → Type 0
Looked key v (ok (some n)) = (key ≢ "") × (v n.id ≡ some n) × (n.idempotency_key ≡ some key)
Looked key v (ok none) = Unused key v
Looked key v (err e) = key ≢ ""

-- What the private `enqueue` does with a notification that is stored, by how it ends: the scheduler
-- worker is to handle it; the queue refuses it; it is queued and marked as such; or it is queued and
-- the mark fails.
pub data Enqueued {S : Type 0} (view : S → View) (n : Notification) (s : System S)
    (n' : Notification) (s' : System S) : Type 0 where
  deferred : (t : Time) → n.scheduled_at ≡ some t → n' ≡ n → s' ≡ s → Enqueued view n s n' s'
  refused :
      (e : Error)
      → n.scheduled_at ≡ none
      → (Queue.enqueue (item_of n) s.queue).0 ≡ err e
      → n' ≡ n
      → view s'.db ≡ view s.db
      → s'.queue ≡ s.queue
      → Enqueued view n s n' s'
  marked :
      n.scheduled_at ≡ none
      → Queue.enqueue (item_of n) s.queue ≡ (ok tt, s'.queue)
      → n' ≡ record n { status = queued }
      → Changed (Becomes queued) n.id (view s.db) (view s'.db)
      → Enqueued view n s n' s'
  unmarked :
      n.scheduled_at ≡ none
      → Queue.enqueue (item_of n) s.queue ≡ (ok tt, s'.queue)
      → n' ≡ n
      → Same (view s.db) (view s'.db) ⊎ Changed (Becomes queued) n.id (view s.db) (view s'.db)
      → Enqueued view n s n' s'

module _ {S : Type 0} (repo : NotificationRepository S) where
  looked_up-Looked :
      (key : String) (v : View) (r : Result Notification)
      → key ≢ ""
      → FoundByKey key v r
      → Looked key v (looked_up repo r)
  unfolding looked_up
  looked_up-Looked key v (ok n) given found = (given, found.0, found.1)
  looked_up-Looked key v (err e) given found = elim (Bool-cases (errors_is e not_found)) [
    | inl missing ↦ rw (missing, looked_up) (inr (found missing))
    | inr fault ↦ rw (fault, looked_up) given
  ]

module _ {S : Type 0} (repo : NotificationRepository S) (c : IsRepository repo) where
  open c use {view, IsValid, writes, gets_by_key}

  find_existing-Looked :
      (key : String) (s : System S)
      → IsValid s.db
      → let (r, s') = find_existing repo key s in
        IsValid s'.db
        × Same (view s.db) (view s'.db)
        × (s'.queue ≡ s.queue)
        × Looked key (view s.db) r
  unfolding find_existing
  find_existing-Looked key s v = elim (Bool-cases (str_eq key "")) [
    | inl empty ↦ rw (empty, find_existing) (v, (λ j. refl), refl, inl ((eq_iff key "").0 empty))
    | inr given ↦
        let (v', same, found) = gets_by_key key s.db v in
        rw (given, find_existing)
          (
            v',
            same,
            refl,
            looked_up-Looked repo key (view s.db) _ (ground (arith, eq_iff key "")) found,
          )
  ]

  mark-Enqueued :
      (n : Notification) (s : System S) (q : PriorityQueue) (r : Err) (db : S)
      → n.scheduled_at ≡ none
      → Queue.enqueue (item_of n) s.queue ≡ (ok tt, q)
      → IsValid db × Wrote (Becomes queued) n.id (view s.db) (view db) r
      → let (n', s') = mark_queued repo n (r, db) q in IsValid s'.db × Enqueued view n s n' s'
  unfolding mark_queued
  mark-Enqueued n s q (ok _) db now put (v, wrote) = (v, marked now put refl wrote)
  mark-Enqueued n s q (err e) db now put (v, wrote) = (v, unmarked now put refl wrote)

  queue_up-Enqueued :
      (n : Notification) (s : System S) (r : Err) (q : PriorityQueue)
      → IsValid s.db
      → n.scheduled_at ≡ none
      → Queue.enqueue (item_of n) s.queue ≡ (r, q)
      → let (n', s') = queue_up repo n (r, q) s.db in IsValid s'.db × Enqueued view n s n' s'
  unfolding queue_up
  queue_up-Enqueued n s (err e) q v now put = (
    v,
    refused e now (ap (λ p. p.0) put) refl refl
        (sym (ap (λ p. p.1) put) ∙ (enqueue-err (item_of n) s.queue e (ap (λ p. p.0) put)).0),
  )
  queue_up-Enqueued n s (ok _) q v now put =
      mark-Enqueued n s q _ _ now put (writes (Write.update_status n.id queued) s.db v)

  enqueue_at-Enqueued :
      (at : Option Time) (n : Notification) (s : System S)
      → IsValid s.db
      → n.scheduled_at ≡ at
      → let (n', s') = enqueue_at repo at n s in IsValid s'.db × Enqueued view n s n' s'
  unfolding enqueue_at
  enqueue_at-Enqueued (some t) n s v later = (v, deferred t later refl refl)
  enqueue_at-Enqueued none n s v now = queue_up-Enqueued n s _ _ v now refl

  -- The private `enqueue` ends in one of the four ways.
  pub enqueue-Enqueued :
      (n : Notification) (s : System S)
      → IsValid s.db
      → let (n', s') = enqueue repo n s in IsValid s'.db × Enqueued view n s n' s'
  unfolding enqueue
  enqueue-Enqueued n s v = enqueue_at-Enqueued n.scheduled_at n s v refl

  -- What `Create` leaves behind, by what it returns.
  abbrev pub CreateSpec :
      CreateNotificationRequest
      → String
      → Notification
      → System S
      → Result (Notification × Bool) × System S
      → Type 0
  CreateSpec req key new s (ok (n, true), s') =
      IsDeliverable req
      × (key ≢ "")
      × (view s.db n.id ≡ some n)
      × (n.idempotency_key ≡ some key)
      × Same (view s.db) (view s'.db)
      × (s'.queue ≡ s.queue)
  CreateSpec req key new s (ok (n, false), s') =
      IsDeliverable req
      × Unused key (view s.db)
      × ((stored : System S) × Added new (view s.db) (view stored.db)
          × (stored.queue ≡ s.queue)
          × Enqueued view new stored n s')
  CreateSpec req key new s (err e, s') =
      (s'.queue ≡ s.queue)
      × (Same (view s.db) (view s'.db)
          ⊎ (Unused key (view s.db) × Added new (view s.db) (view s'.db)))

  persist-CreateSpec :
      (req : CreateNotificationRequest) (key : String) (new : Notification) (s s₁ : System S)
      → IsValid s₁.db
      → Same (view s.db) (view s₁.db)
      → s₁.queue ≡ s.queue
      → IsDeliverable req
      → Looked key (view s.db) (ok none)
      → let (r, s') = persist repo new s₁ in IsValid s'.db × CreateSpec req key new s (r, s')
  unfolding persist enqueue_new
  persist-CreateSpec req key new s s₁ v same same_queue good miss =
      bind-post
        (λ o. IsValid o.1.db × Created new (view s₁.db) (view o.1.db) o.0 × (o.1.queue ≡ s₁.queue))
        (λ o. IsValid o.1.db × CreateSpec req key new s o)
        (context "persist notification" (on_db (repo.create new))) (λ _. enqueue_new repo new) s₁
        (
          (writes (Write.create new) s₁.db v).0,
          wrap-Created "persist notification" new (view s₁.db) _ _
              (writes (Write.create new) s₁.db v).1,
          refl,
        )
        (λ _ s₂ (v₂, added, queue₂).
          let (v₃, ended) = enqueue-Enqueued new s₂ v₂ in
          (v₃, (good, miss, (s₂, Same-Added new same added, queue₂ ∙ same_queue, ended))))
        (λ e s₂ (v₂, failed, queue₂).
          (v₂, (queue₂ ∙ same_queue, unused s₂ (Same-failed new same failed))))
    where
      unused :
          (t : System S)
          → Same (view s.db) (view t.db) ⊎ Added new (view s.db) (view t.db)
          → Same (view s.db) (view t.db)
            ⊎ (Unused key (view s.db) × Added new (view s.db) (view t.db))
      unused t (inl p) = inl p
      unused t (inr a) = inr (miss, a)

  or_persist-CreateSpec :
      (req : CreateNotificationRequest) (key : String) (new : Notification) (s s₁ : System S)
      (existing : Option Notification)
      → IsValid s₁.db
      → Same (view s.db) (view s₁.db)
      → s₁.queue ≡ s.queue
      → IsDeliverable req
      → Looked key (view s.db) (ok existing)
      → let (r, s') = or_persist repo new existing s₁ in
        IsValid s'.db × CreateSpec req key new s (r, s')
  unfolding or_persist
  or_persist-CreateSpec req key new s s₁ none v same same_queue good miss =
      persist-CreateSpec req key new s s₁ v same same_queue good miss
  or_persist-CreateSpec req key new s s₁ (some n) v same same_queue good (given, stored, keyed) =
      (v, (good, given, stored, keyed, same, same_queue))

  -- `Create`, over any repository that meets the contract, on every branch. It returns a notification
  -- only for a deliverable request. One that it returns as a duplicate is stored with the key, and
  -- nothing is changed. One that it returns as new is stored, its key was unused before, and it is put
  -- on the queue as far as its schedule and the room allow. With an error, the queue is as it was, and
  -- the database is too, unless the key was unused and the store took effect.
  pub create-CreateSpec :
      (req : CreateNotificationRequest) (key id : String) (now : Time) (s : System S)
      → IsValid s.db
      → let (r, s') = create repo req key id now s in
        IsValid s'.db × CreateSpec req key (build_notification req key none id now) s (r, s')
  unfolding create
  create-CreateSpec req key id now s v = elim (Outcome-cases (validate req)) [
    | inr (e, bad) ↦ rw (bad, create) (v, (refl, inl (λ j. refl)))
    | inl (_, good) ↦
        let new = build_notification req key none id now in
        rw (good, create)
          (bind-post
            (λ o.
              IsValid o.1.db
              × Same (view s.db) (view o.1.db)
              × (o.1.queue ≡ s.queue)
              × Looked key (view s.db) o.0)
            (λ o. IsValid o.1.db × CreateSpec req key new s o) (find_existing repo key)
            (or_persist repo new) s (find_existing-Looked key s v)
            (λ existing s₁ (v₁, same, queue₁, looked).
              or_persist-CreateSpec req key new s s₁ existing v₁ same queue₁
                ((validate-ok_iff req).0 good) looked)
            (λ e s₁ (v₁, same, queue₁, _). (v₁, (queue₁, inl same))))
  ]

-- A notification that is built has no attempt counted, and is not sent.
pub built_lem :
    (req : CreateNotificationRequest) (key : String) (batch_id : Option String) (id : String)
    (now : Time)
    → let n = build_notification req key batch_id id now in
      (n.retry_count ≤ n.max_retries) × (n.status ≢ sent)
unfolding build_notification
built_lem req key batch_id id now = ground arith
