-- ===== src/Service/Idempotence.antt =====
-- Idempotency keys: a repeated `Create` makes no second notification.
use event_driven_arch.Common.{
  String, ◌≡◌, ◌≢◌, inl, inr, Bool, true, false, none, some, arith, eq_iff, ok, err, ◌∙◌, refl,
}
use event_driven_arch.Domain.Errors.{Result}
use event_driven_arch.Domain.Entities.{Time, Notification, CreateNotificationRequest, queued}
use event_driven_arch.Repository.{NotificationRepository}
use event_driven_arch.Repository.Contract.{View, Same, Changed, Becomes, IsRepository}
use event_driven_arch.Repository.Contract.Laws.{Changed-keeps}
use event_driven_arch.Service.{System, create, build_notification}
use event_driven_arch.Service.Create.{
  Enqueued, deferred, refused, marked, unmarked, Unused, CreateSpec, create-CreateSpec,
}

-- Some stored notification has the key.
abbrev pub IsUsed : String → View → Type 0
IsUsed key v = (j : String) × (n : Notification) × (v j ≡ some n) × (n.idempotency_key ≡ some key)

-- What a call returns that found a notification with the key, if the lookup did not fail.
abbrev pub Repeats : String → Result (Notification × Bool) → Type 0
Repeats key (ok (n, was_duplicate)) = (was_duplicate ≡ true) × (n.idempotency_key ≡ some key)
Repeats key (err _) = Unit

not-Unused : (key : String) (v : View) → key ≢ "" → IsUsed key v → ¬ Unused key v
not-Unused key v given used (inl e) = given e
not-Unused key v given (j, n, at, keyed) (inr unused) = unused j n at keyed

Changed-IsUsed :
    (key id : String) (v v' : View)
    → Changed (Becomes queued) id v v'
    → IsUsed key v
    → IsUsed key v'
Changed-IsUsed key id v v' ch =
    Changed-keeps (λ n. n.idempotency_key ≡ some key) (Becomes queued) id v v' ch
      (λ n n' change keyed. change.0.idempotency_key ∙ keyed)

Same-IsUsed : (key : String) (v v' : View) → Same v v' → IsUsed key v → IsUsed key v'
Same-IsUsed key v v' same (j, n, at, keyed) = (j, n, same j ∙ at, keyed)

built-keyed :
    (req : CreateNotificationRequest) (key id : String) (now : Time)
    → key ≢ ""
    → (build_notification req key none id now).idempotency_key ≡ some key
unfolding build_notification
built-keyed req key id now given = ground (arith, eq_iff key "")

module _ {S : Type 0} (repo : NotificationRepository S) (c : IsRepository repo) where
  open c use {view, IsValid}

  spec-Repeats :
      (req : CreateNotificationRequest) (key : String) (new : Notification) (s : System S)
      (o : Result (Notification × Bool) × System S)
      → key ≢ ""
      → IsUsed key (view s.db)
      → CreateSpec repo c req key new s o
      → Repeats key o.0 × Same (view s.db) (view o.1.db) × (o.1.queue ≡ s.queue)
  spec-Repeats req key new s (ok (n, true), s') given used (_, _, _, keyed, same, queue) =
      ((refl, keyed), same, queue)
  spec-Repeats req key new s (ok (n, false), s') given used (_, unused, _) =
      absurd (not-Unused key (view s.db) given used unused)
  spec-Repeats req key new s (err e, s') given used (queue, inl same) = (tt, same, queue)
  spec-Repeats req key new s (err e, s') given used (queue, inr (unused, _)) =
      absurd (not-Unused key (view s.db) given used unused)

  -- Over any repository that meets the contract, while a stored notification has the key, `Create` with that key, of whatever request, stores
  -- nothing and enqueues nothing; it returns a notification with the key, as a duplicate, or an error.
  pub create_repeated :
      (req : CreateNotificationRequest) (key id : String) (now : Time) (s : System S)
      → IsValid s.db
      → key ≢ ""
      → IsUsed key (view s.db)
      → let (r, s') = create repo req key id now s in
        Repeats key r × Same (view s.db) (view s'.db) × (s'.queue ≡ s.queue)
  create_repeated req key id now s v given used =
      spec-Repeats req key (build_notification req key none id now) s _ given used
        (create-CreateSpec repo c req key id now s v).1

  Enqueued-IsUsed :
      (key : String) (n n' : Notification) (s s' : System S)
      → Enqueued view n s n' s'
      → IsUsed key (view s.db)
      → IsUsed key (view s'.db)
  Enqueued-IsUsed key n n' s s' (deferred t later en es) used = rw es used
  Enqueued-IsUsed key n n' s s' (refused e now put en es eq) used = rw es used
  Enqueued-IsUsed key n n' s s' (marked now put en ch) used = Changed-IsUsed key _ _ _ ch used
  Enqueued-IsUsed key n n' s s' (unmarked now put en (inl same)) used =
      Same-IsUsed key _ _ same used
  Enqueued-IsUsed key n n' s s' (unmarked now put en (inr ch)) used =
      Changed-IsUsed key _ _ _ ch used

  spec-IsUsed :
      (req : CreateNotificationRequest) (key : String) (new : Notification) (s s' : System S)
      (n : Notification) (was_duplicate : Bool)
      → new.idempotency_key ≡ some key
      → CreateSpec repo c req key new s (ok (n, was_duplicate), s')
      → IsUsed key (view s'.db)
  spec-IsUsed req key new s s' n true keyed (_, _, at, has, same, _) =
      (n.id, n, same n.id ∙ at, has)
  spec-IsUsed req key new s s' n false keyed (_, _, (t, added, _, ended)) =
      let (stored, at, same) = added.stored in
      Enqueued-IsUsed key new n t s' ended (new.id, stored, at, same.0.idempotency_key ∙ keyed)

  -- Two calls of `Create` in a row with one key that is not empty, over any repository that meets the
  -- contract: where the first returned a notification, the second
  -- stores nothing and enqueues nothing, and returns a duplicate with that key, or an error.
  pub create_twice :
      (req req' : CreateNotificationRequest) (key id id' : String) (now now' : Time)
      (s s' : System S) (n : Notification) (was_duplicate : Bool)
      → IsValid s.db
      → key ≢ ""
      → create repo req key id now s ≡ (ok (n, was_duplicate), s')
      → let (r, s'') = create repo req' key id' now' s' in
        Repeats key r × Same (view s'.db) (view s''.db) × (s''.queue ≡ s'.queue)
  create_twice req req' key id id' now now' s s' n was_duplicate v given first =
      let spec = create-CreateSpec repo c req key id now s v in
      let (v', spec') = rw first at spec in
      create_repeated req' key id' now' s' v' given
        (spec-IsUsed req key _ s s' n was_duplicate (built-keyed req key id now given) spec')
