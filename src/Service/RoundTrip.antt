-- ===== src/Service/RoundTrip.antt =====
-- What is stored by `Create` against what `GetByID` returns.
use event_driven_arch.Common.{
  String, ◌≡◌, inl, inr, refl, sym, ap, ◌∙◌, Bool, true, false, none, some, ok, err, arith,
}
use event_driven_arch.Domain.Errors.{Result, errors_is, not_found}
use event_driven_arch.Domain.Entities.{Time, Notification, CreateNotificationRequest, queued}
use event_driven_arch.Repository.{NotificationRepository, map_micros}
use event_driven_arch.Repository.Contract.{
  View, Same, IsInserted, Changed, Becomes, Found, IsRepository,
}
use event_driven_arch.Repository.Contract.Laws.{Changed-at, IsInserted-trans}
use event_driven_arch.Worker.{is_cancelled}
use event_driven_arch.Service.{System, create, get_by_id, build_notification}
use event_driven_arch.Service.Create.{
  Enqueued, deferred, refused, marked, unmarked, CreateSpec, create-CreateSpec,
}

-- The notification carries what the request asked for, its schedule to the microsecond.
abbrev pub Carries : CreateNotificationRequest → String → Notification → Type 0
Carries req id n =
    (n.id ≡ id)
    × (n.channel ≡ req.channel)
    × (n.recipient ≡ req.recipient)
    × (n.content ≡ req.content)
    × (n.priority ≡ req.priority)
    × (map_micros n.scheduled_at ≡ map_micros req.scheduled_at)

-- The notification that is stored under the id is the same message, and not cancelled.
abbrev Keeps : Notification → View → Type 0
Keeps n v =
    (m : Notification) × (v n.id ≡ some m) × IsInserted n m × (is_cancelled m.status ≡ false)

Changed-Keeps :
    (n : Notification) (v v' : View) → Changed (Becomes queued) n.id v v' → Keeps n v → Keeps n v'
Changed-Keeps n v v' ch (m, at, same, live) =
    let (k, is, became) = Changed-at (Becomes queued) n.id v v' ch at in
    (k, is, IsInserted-trans n m k same became.0, rw became.1 refl)

Same-Keeps : (n : Notification) (v v' : View) → Same v v' → Keeps n v → Keeps n v'
Same-Keeps n v v' same (m, at, kept, live) = (m, same n.id ∙ at, kept, live)

Enqueued-Keeps :
    {S : Type 0} (view : S → View) (n n' : Notification) (s s' : System S)
    → Enqueued view n s n' s'
    → Keeps n (view s.db)
    → Keeps n (view s'.db) × (n'.id ≡ n.id)
Enqueued-Keeps view n n' s s' (deferred t at same left) kept = (rw left kept, ap (λ m. m.id) same)
Enqueued-Keeps view n n' s s' (refused e now full same left queue) kept =
    (rw left kept, ap (λ m. m.id) same)
Enqueued-Keeps view n n' s s' (marked now put same ch) kept =
    (Changed-Keeps n _ _ ch kept, ap (λ m. m.id) same)
Enqueued-Keeps view n n' s s' (unmarked now put same (inl left)) kept =
    (Same-Keeps n _ _ left kept, ap (λ m. m.id) same)
Enqueued-Keeps view n n' s s' (unmarked now put same (inr ch)) kept =
    (Changed-Keeps n _ _ ch kept, ap (λ m. m.id) same)

id-build_notification :
    (req : CreateNotificationRequest) (key id : String) (now : Time)
    → (build_notification req key none id now).id ≡ id
unfolding build_notification
id-build_notification req key id now = refl

live-build_notification :
    (req : CreateNotificationRequest) (key id : String) (now : Time)
    → is_cancelled (build_notification req key none id now).status ≡ false
unfolding build_notification
live-build_notification req key id now = ground arith

built-Carries :
    (req : CreateNotificationRequest) (key id : String) (now : Time) (m : Notification)
    → IsInserted (build_notification req key none id now) m
    → Carries req id m
unfolding build_notification
built-Carries req key id now m same =
    (same.id, same.channel, same.recipient, same.content, same.priority, same.scheduled_at)

-- What a lookup by id returned: a notification that carries the request, or an error other than
-- that there is none.
abbrev pub Returns : CreateNotificationRequest → String → Result Notification → Type 0
Returns req id (ok m) = Carries req id m
Returns req id (err e) = errors_is e not_found ≡ false

module _ {S : Type 0} (repo : NotificationRepository S) (c : IsRepository repo) where
  open c use {view, IsValid, gets}

  -- What `CreateSpec` says of a result that is a new notification.
  created-Keeps :
      (req : CreateNotificationRequest) (key : String) (new n : Notification) (s s' : System S)
      (r : Result (Notification × Bool))
      → r ≡ ok (n, false)
      → is_cancelled new.status ≡ false
      → CreateSpec repo c req key new s (r, s')
      → Keeps new (view s'.db) × (n.id ≡ new.id)
  created-Keeps req key new n s s' (err e) is live spec = absurd (cc)
  created-Keeps req key new n s s' (ok (n', true)) is live spec = absurd (ground arith)
  created-Keeps req key new n s s' (ok (n', false)) is live
        (good, unused, (t, added, queue, ended)) =
      let (m, at, same) = added.stored in
      let same_n : n' ≡ n = ground arith in
      let (kept, same_id) = Enqueued-Keeps view new n' t s' ended (m, at, same.0, rw same.1 live) in
      (kept, rw (← same_n) same_id)

  looked_up-Returns :
      (req : CreateNotificationRequest) (key id : String) (now : Time) (v : View)
      (r : Result Notification)
      → Keeps (build_notification req key none id now) v
      → (j : String) → j ≡ id
      → Found j v r
      → Returns req id r
  unfolding build_notification
  looked_up-Returns req key id now v (ok m) (k, at, same, live) j is found =
      let same_m : k ≡ m = ground arith in built-Carries req key id now m (rw (← same_m) same)
  looked_up-Returns req key id now v (err e) (k, at, same, live) j is found = ground (arith, found)

  -- What is stored where `Create` returned a notification as new.
  pub created-Carries :
      (req : CreateNotificationRequest) (key id : String) (now : Time) (s : System S)
      (n : Notification)
      → IsValid s.db
      → (create repo req key id now s).0 ≡ ok (n, false)
      → let s' = (create repo req key id now s).1 in
        IsValid s'.db
        × ((m : Notification) × (view s'.db id ≡ some m)
            × Carries req id m
            × (is_cancelled m.status ≡ false))
  created-Carries req key id now s n valid is =
      let new = build_notification req key none id now in
      let s' : System S = (create repo req key id now s).1 in
      let (valid', spec) = create-CreateSpec repo c req key id now s valid in
      let ((m, at, same, live), same_id) =
        created-Keeps req key new n s s' _ is (live-build_notification req key id now) spec in
      (
        valid',
        (
          m,
          ap (view s'.db) (sym (id-build_notification req key id now)) ∙ at,
          built-Carries req key id now m same,
          live,
        ),
      )

  -- Over any repository that meets the contract: where `Create` returned a notification as new,
  -- `GetByID` with its id, called next, returns one with the id, channel, recipient, content,
  -- priority and, to the microsecond, schedule of the request, or an error other than
  -- `ErrNotFound`.
  pub create-get_by_id :
      (req : CreateNotificationRequest) (key id : String) (now : Time) (s : System S)
      (n : Notification)
      → IsValid s.db
      → (create repo req key id now s).0 ≡ ok (n, false)
      → Returns req id (get_by_id repo n.id (create repo req key id now s).1).0
  unfolding get_by_id
  create-get_by_id req key id now s n valid is =
      let new = build_notification req key none id now in
      let s' : System S = (create repo req key id now s).1 in
      let (valid', spec) = create-CreateSpec repo c req key id now s valid in
      let (kept, same_id) =
        created-Keeps req key new n s s' _ is (live-build_notification req key id now) spec in
      looked_up-Returns req key id now (view s'.db) (repo.get_by_id n.id s'.db).0 kept n.id
        (same_id ∙ id-build_notification req key id now) (gets n.id s'.db valid').2
