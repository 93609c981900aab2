-- ===== src/Repository/Pg/Lookups.antt =====
-- The lookups and searches of internal/repository/pg_notification_repo.go against the contract.
use event_driven_arch.Common.{
  String, ◌≡◌, refl, Bool, true, List, [], ◌∷◌, Option, none, some, ok, select, head?, take, All,
  All-take, All-select,
}
use event_driven_arch.Domain.Entities.{Time, Notification}
use event_driven_arch.Repository.Contract.{
  Same, Found, FoundByKey, FoundDue, IsRetriable, IsScheduled,
}
use event_driven_arch.Repository.Pg.{
  has_id, has_key, get_by_id, get_by_idempotency_key, query_row, one_row, explained, find_due,
  find_due_retries, find_due_scheduled, retry_due, schedule_due,
}
use event_driven_arch.Repository.Pg.Due.{retry_due_iff, schedule_due_iff}
use event_driven_arch.Repository.Pg.Statements.{Pg, Fate, works, refused, lost, send, meet, reading}
use event_driven_arch.Repository.Pg.Rows.{row, view, IsDistinct, keyed-row, unkeyed-row, rows-shown}

pub get_by_id-Found :
    (id : String) (p : Pg)
    → IsDistinct p.rows
    → let (result, p') = get_by_id id p in
      IsDistinct p'.rows × Same (view p) (view p') × Found id (view p) result
unfolding get_by_id send query_row one_row
get_by_id-Found id p d = fates p.fates
  where
    answer : (o : Option Notification) → row id p.rows ≡ o → Found id (view p) (one_row (ok o))
    answer none e = λ _. e
    answer (some n) e = e

    fates :
        (fs : List Fate)
        → let (r, p') = meet fs (reading (λ t. ok (head? (select (has_id id) t.rows)))) p in
          IsDistinct p'.rows × Same (view p) (view p') × Found id (view p) (one_row r)
    fates [] = (d, (λ j. refl), answer _ refl)
    fates (works ∷ fs) = (d, (λ j. refl), answer _ refl)
    fates (refused e ∷ fs) = (d, (λ j. refl), λ h. cc)
    fates (lost e ∷ fs) = (d, (λ j. refl), λ h. cc)

pub get_by_key-Found :
    (key : String) (p : Pg)
    → IsDistinct p.rows
    → let (result, p') = get_by_idempotency_key key p in
      IsDistinct p'.rows × Same (view p) (view p') × FoundByKey key (view p) result
unfolding get_by_idempotency_key send query_row one_row
get_by_key-Found key p d = fates p.fates
  where
    answer :
        (o : Option Notification)
        → head? (select (has_key key) p.rows) ≡ o
        → FoundByKey key (view p) (one_row (ok o))
    answer none e = λ _ j n at. unkeyed-row key p.rows j n e at
    answer (some n) e = keyed-row key p.rows n d e

    fates :
        (fs : List Fate)
        → let (r, p') = meet fs (reading (λ t. ok (head? (select (has_key key) t.rows)))) p in
          IsDistinct p'.rows × Same (view p) (view p') × FoundByKey key (view p) (one_row r)
    fates [] = (d, (λ j. refl), answer _ refl)
    fates (works ∷ fs) = (d, (λ j. refl), answer _ refl)
    fates (refused e ∷ fs) = (d, (λ j. refl), λ h. cc)
    fates (lost e ∷ fs) = (d, (λ j. refl), λ h. cc)

find_due-found :
    (P : Notification → Type 0) (message : String) (test : Time → Notification → Bool) (p : Pg)
    → ((n : Notification) → test p.now n ≡ true → P n)
    → IsDistinct p.rows
    → let (result, p') = find_due message test p in
      IsDistinct p'.rows × Same (view p) (view p') × FoundDue P (view p) result
unfolding find_due send explained
find_due-found P message test p fits d = fates p.fates
  where
    found : All (λ n. (row n.id p.rows ≡ some n) × P n) (take 500 (select (test p.now) p.rows))
    found = All-take _ 500 _ (
        All-select (λ n. row n.id p.rows ≡ some n) _ (test p.now) p.rows
          (λ n shown passes. (shown, fits n passes)) (rows-shown p.rows d))

    fates :
        (fs : List Fate)
        → let (r, p') = meet fs (reading (λ t. ok (take 500 (select (test t.now) t.rows)))) p in
          IsDistinct p'.rows × Same (view p) (view p') × FoundDue P (view p) (explained message r)
    fates [] = (d, (λ j. refl), found)
    fates (works ∷ fs) = (d, (λ j. refl), found)
    fates (refused e ∷ fs) = (d, (λ j. refl), tt)
    fates (lost e ∷ fs) = (d, (λ j. refl), tt)

pub finds-IsRetriable :
    (p : Pg)
    → IsDistinct p.rows
    → let (result, p') = find_due_retries p in
      IsDistinct p'.rows × Same (view p) (view p') × FoundDue IsRetriable (view p) result
unfolding find_due_retries
finds-IsRetriable p d =
    find_due-found IsRetriable "find due retries" retry_due p
      (λ n due. let (is_failed, left, _) = (retry_due_iff p.now n).0 due in (is_failed, left)) d

pub finds-IsScheduled :
    (p : Pg)
    → IsDistinct p.rows
    → let (result, p') = find_due_scheduled p in
      IsDistinct p'.rows × Same (view p) (view p') × FoundDue IsScheduled (view p) result
unfolding find_due_scheduled
finds-IsScheduled p d =
    find_due-found IsScheduled "find due scheduled" schedule_due p
      (λ n due. ((schedule_due_iff p.now n).0 due).0) d
