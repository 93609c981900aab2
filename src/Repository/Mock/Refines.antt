-- ===== src/Repository/Mock/Refines.antt =====
-- internal/repository/mock_notification_repo.go against the contract.
use event_driven_arch.Common.{
  String, List, length, ◌≡◌, ◌≢◌, ◌↔◌, eq_refl, inl, inr, true, false, [], ◌∷◌, Option, none, some,
  arith, eq_iff, refl, Option-cases,
}
use event_driven_arch.Common.Dict.{
  Dict, lookup, insert, adjust, values, lookup-insert, lookup-adjust, lookup-adjust-some,
  lookup-adjust-none, lookup-adjust_ne,
}
use event_driven_arch.Domain.Errors.{Error, errors_is, not_found}
use event_driven_arch.Domain.Entities.{Time, cancelled, Notification, ListFilter}
use event_driven_arch.Repository.Contract.{
  View, Same, Change, Changed, Wrote, Created, Added, AddedAll, CreatedAll, Becomes, BecomesSent,
  BecomesFailed, BecomesRetried, Found, FoundByKey, Write, Effect, call, FoundDue, IsRetriable,
  IsScheduled, IsRepository,
}
use event_driven_arch.Repository.Mock.{
  Mock, new_mock, mock_repository, change, store, find_key, points_to, update_status, mark_sent,
  mark_failed, schedule_retry, cancel, create, get_by_id, get_by_idempotency_key, find_due_retries,
  find_due_scheduled, update_batch_counts, store_all, new_batch, create_batch, get_batch, list,
}

-- Every notification stands under its own id, once.
abbrev pub IsKeyed : Dict Notification → Type 0
IsKeyed [] = Unit {0}
IsKeyed ((k, n) ∷ m) = (n.id ≡ k) × (lookup k m ≡ none) × IsKeyed m

-- An error that a test puts in stands for a fault, not for a missing row.
abbrev pub IsFault : Option Error → Type 0
IsFault none = Unit {0}
IsFault (some e) = errors_is e not_found ≡ false

pub record IsValid (m : Mock) : Type 0 where
  pub keyed : IsKeyed m.notifications
  pub by_id : IsFault m.get_by_id_err
  pub by_key : IsFault m.get_by_idempotency_key_err

abbrev pub view : Mock → View
view m id = lookup id m.notifications

pub lookup-IsKeyed :
    (id : String) (n : Notification) (m : Dict Notification)
    → IsKeyed m
    → lookup id m ≡ some n
    → n.id ≡ id
lookup-IsKeyed id n [] v e = cc
lookup-IsKeyed id n ((k, w) ∷ m) v e = ground (arith, eq_iff k id, lookup-IsKeyed id n m v.2)

insert-IsKeyed : (n : Notification) (m : Dict Notification) → IsKeyed m → IsKeyed (insert n.id n m)
insert-IsKeyed n [] v = (refl, refl, tt)
insert-IsKeyed n ((k, w) ∷ m) v =
    ground (arith, eq_iff k n.id, insert-IsKeyed n m v.2, lookup-insert n.id k n m, eq_iff n.id k)

-- A function on notifications that leaves the id alone.
adjust-IsKeyed :
    (id : String) (f : Notification → Notification) (m : Dict Notification)
    → ((n : Notification) → (f n).id ≡ n.id)
    → IsKeyed m
    → IsKeyed (adjust id f m)
adjust-IsKeyed id f [] keep v = tt
adjust-IsKeyed id f ((k, w) ∷ m) keep v =
    ground (arith, keep w, adjust-IsKeyed id f m keep v.2, lookup-adjust id k f m)

change-Changed :
    (C : Change) (id : String) (f : Notification → Notification) (m : Mock)
    → ((n : Notification) → C n (f n))
    → Changed C id (view m) (view (change id f m).1)
unfolding change
change-Changed C id f m each = record {
  here = elim (Option-cases (lookup id m.notifications)) [
    | inl e ↦ rw (e, lookup-adjust-none id id f m.notifications e)
    | inr (n, e) ↦ rw (e, lookup-adjust-some id f m.notifications e) (f n, refl, each n)
  ];
  elsewhere = λ j other. lookup-adjust_ne id j f m.notifications other;
}

-- A write through `change`.
change-writes :
    (C : Change) (id : String) (f : Notification → Notification) (m : Mock)
    → ((n : Notification) → C n (f n))
    → ((n : Notification) → (f n).id ≡ n.id)
    → IsValid m
    → let (result, m') = change id f m in IsValid m' × Wrote C id (view m) (view m') result
unfolding change
change-writes C id f m each keep v = (
  record {
    keyed = adjust-IsKeyed id f m.notifications keep v.keyed;
    by_id = v.by_id;
    by_key = v.by_key;
  },
  unfold change in change-Changed C id f m each,
)

points_to_iff : (o : Option String) (key : String) → (points_to o key ≡ true) ↔ (o ≡ some key)
points_to_iff none key = ground arith
points_to_iff (some k) key = ground (arith, eq_iff k key)

find_key-stored :
    (key : String) (m : Dict Notification) (n : Notification)
    → IsKeyed m
    → find_key key (values m) ≡ some n
    → (lookup n.id m ≡ some n) × (n.idempotency_key ≡ some key)
unfolding find_key
find_key-stored key [] n v e = cc
find_key-stored key ((k, w) ∷ m) n v e =
    ground (arith, points_to_iff w.idempotency_key key, eq_iff k n.id, find_key-stored key m n v.2)

find_key-unused :
    (key : String) (m : Dict Notification) (j : String) (n : Notification)
    → find_key key (values m) ≡ none
    → lookup j m ≡ some n
    → n.idempotency_key ≢ some key
unfolding find_key
find_key-unused key [] j n h e = cc
find_key-unused key ((k, w) ∷ m) j n h e =
    ground (arith, points_to_iff w.idempotency_key key, find_key-unused key m j n)

store-Added :
    (n : Notification) (m : Mock)
    → Added n (view m) (view (record m { notifications = insert n.id n m.notifications }))
store-Added n m = record {
  stored = (n, rw (lookup-insert n.id n.id n m.notifications, eq_refl n.id) refl, ground arith);
  elsewhere = λ j other. ground (arith, lookup-insert n.id j n m.notifications, eq_iff n.id j);
}

create-writes :
    (n : Notification) (m : Mock)
    → IsValid m
    → let (result, m') = create n m in IsValid m' × Created n (view m) (view m') result
unfolding create store
create-writes n m v = ground (arith, insert-IsKeyed n m.notifications v.keyed, store-Added n m)

store_all-AddedAll :
    (ns : List Notification) (m : Mock)
    → IsValid m
    → let m' = store_all ns m in IsValid m' × AddedAll (λ n u. Unit {0}) ns (view m) (view m')
unfolding store_all store
store_all-AddedAll [] m v = (v, λ j. refl)
store_all-AddedAll (n ∷ ns) m v =
    let (v', added) = store_all-AddedAll ns (store n m) (record {
      keyed = insert-IsKeyed n m.notifications v.keyed;
      by_id = v.by_id;
      by_key = v.by_key;
    }) in
    (v', (view (store n m), store-Added n m, tt, added))

pub create_batch-writes :
    (id : String) (ns : List Notification) (m : Mock)
    → IsValid m
    → let (result, m') = create_batch id ns m in
      IsValid m' × CreatedAll ns (view m) (view m') result
unfolding create_batch
create_batch-writes id ns m v =
    let batch = new_batch id (length ns) m.clock in
    store_all-AddedAll ns (record m { batches = insert id batch m.batches })
      (record { keyed = v.keyed; by_id = v.by_id; by_key = v.by_key })

-- Every write of the in-memory repository has the effect that the contract states, and keeps the
-- invariant.
pub mock_writes :
    (w : Write) (m : Mock)
    → IsValid m
    → let (result, m') = call mock_repository w m in IsValid m' × Effect w (view m) (view m') result
unfolding update_status mark_sent mark_failed schedule_retry cancel update_batch_counts
mock_writes (Write.create n) m v = create-writes n m v
mock_writes (Write.update_status id status) m v =
    change-writes (Becomes status) id _ m (λ n. ground arith) (λ n. refl) v
mock_writes (Write.mark_sent id msg_id at) m v =
    change-writes (BecomesSent msg_id at) id _ m (λ n. ground arith) (λ n. refl) v
mock_writes (Write.mark_failed id text) m v =
    change-writes (BecomesFailed text) id _ m (λ n. ground arith) (λ n. refl) v
mock_writes (Write.schedule_retry id count at text) m v =
    change-writes (BecomesRetried count at text) id _ m (λ n. ground arith) (λ n. refl) v
mock_writes (Write.cancel id) m v =
    change-writes (Becomes cancelled) id _ m (λ n. ground arith) (λ n. refl) v
mock_writes (Write.update_batch_counts id) m v = (v, λ j. refl)

pub mock_gets :
    (id : String) (m : Mock)
    → IsValid m
    → let (result, m') = get_by_id id m in
      IsValid m' × Same (view m) (view m') × Found id (view m) result
unfolding get_by_id
mock_gets id m v = elim (Option-cases m.get_by_id_err) [
  | inr (e, faulty) ↦
      rw (faulty, get_by_id)
        (
          v,
          (λ j. refl),
          let fault : errors_is e not_found ≡ false = rw faulty at v.by_id in λ h. cc,
        )
  | inl works ↦ elim (Option-cases (lookup id m.notifications)) [
    | inl missing ↦ rw (works, missing, get_by_id) (v, (λ j. refl), λ _. missing)
    | inr (n, found) ↦ rw (works, found, get_by_id) (v, (λ j. refl), found)
  ]
]

pub mock_gets_by_key :
    (key : String) (m : Mock)
    → IsValid m
    → let (result, m') = get_by_idempotency_key key m in
      IsValid m' × Same (view m) (view m') × FoundByKey key (view m) result
unfolding get_by_idempotency_key
mock_gets_by_key key m v = elim (Option-cases m.get_by_idempotency_key_err) [
  | inr (e, faulty) ↦
      rw (faulty, get_by_idempotency_key)
        (
          v,
          (λ j. refl),
          let fault : errors_is e not_found ≡ false = rw faulty at v.by_key in λ h. cc,
        )
  | inl works ↦ elim (Option-cases (find_key key (values m.notifications))) [
    | inl missing ↦
        rw (works, missing, get_by_idempotency_key)
          (v, (λ j. refl), λ _ j n e. find_key-unused key m.notifications j n missing e)
    | inr (n, found) ↦
        rw (works, found, get_by_idempotency_key)
          (v, (λ j. refl), find_key-stored key m.notifications n v.keyed found)
  ]
]

pub mock_lists :
    (filter : ListFilter) (m : Mock)
    → IsValid m
    → let m' = (list filter m).1 in IsValid m' × Same (view m) (view m')
unfolding list
mock_lists filter m v = (v, λ j. refl)

pub mock_gets_batch :
    (id : String) (m : Mock)
    → IsValid m
    → let m' = (get_batch id m).1 in IsValid m' × Same (view m) (view m')
unfolding get_batch
mock_gets_batch id m v = elim (Option-cases (lookup id m.batches)) [
  | inl missing ↦ rw (missing, get_batch) (v, λ j. refl)
  | inr (batch, found) ↦ rw (found, get_batch) (v, λ j. refl)
]

pub mock_finds-IsRetriable :
    (m : Mock)
    → IsValid m
    → let (result, m') = find_due_retries m in
      IsValid m' × Same (view m) (view m') × FoundDue IsRetriable (view m) result
unfolding find_due_retries
mock_finds-IsRetriable m v = (v, (λ j. refl), tt)

pub mock_finds-IsScheduled :
    (m : Mock)
    → IsValid m
    → let (result, m') = find_due_scheduled m in
      IsValid m' × Same (view m) (view m') × FoundDue IsScheduled (view m) result
unfolding find_due_scheduled
mock_finds-IsScheduled m v = (v, (λ j. refl), tt)

abbrev pub mock_contract : IsRepository mock_repository
mock_contract = record {
  view = view;
  IsValid = IsValid;
  keyed = λ m id n v. lookup-IsKeyed id n m.notifications v.keyed;
  writes = mock_writes;
  writes_batch = create_batch-writes;
  gets = mock_gets;
  gets_by_key = mock_gets_by_key;
  lists = mock_lists;
  gets_batch = mock_gets_batch;
  finds_retries = mock_finds-IsRetriable;
  finds_scheduled = mock_finds-IsScheduled;
}

pub new_mock-IsValid : (clock : Time) → IsValid (new_mock clock)
unfolding new_mock
new_mock-IsValid clock = record { keyed = tt; by_id = tt; by_key = tt }
