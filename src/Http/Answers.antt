-- ===== src/Http/Answers.antt =====
-- The status codes that the handlers answer with, and what each of them tells of the call.
use event_driven_arch.Common.{
  ℕ, ◌≤◌, String, ◌≡◌, ◌⊎◌, inl, inr, Bool, true, false, none, some, arith, ok, err, refl,
  Outcome-cases,
}
use event_driven_arch.Common.Int.{ℤ}
use event_driven_arch.Domain.Errors.{Error, Result, errors_is, not_found}
use event_driven_arch.Domain.Entities.{
  Time, Status, processing, sent, Notification, CreateNotificationRequest, validate,
}
use event_driven_arch.Domain.Entities
use event_driven_arch.Domain.Validation.{IsDeliverable, validate-ok_iff}
use event_driven_arch.Repository.{NotificationRepository}
use event_driven_arch.Repository.Contract.{View, Same, Changed, Becomes, IsRepository}
use event_driven_arch.Service
use event_driven_arch.Service.{System, build_notification}
use event_driven_arch.Service.Create.{CreateSpec, create-CreateSpec}
use event_driven_arch.Service.Cancel.{IsCancellable}
use event_driven_arch.Http.{
  Response, respond_json, status_code, map_error, created, create, cancelled, positive_or,
  parse_list_filter,
}

-- The answers to an error are no successes.
pub map_error-fails :
    (A : Type 0) (error_text : Error → String) (e : Error)
    → 400 ≤ status_code (map_error A error_text e)
unfolding map_error
map_error-fails error_text e = ground arith

-- The sentinels that `Validate` returns are answered with 422.
validate-unprocessable :
    (A : Type 0) (error_text : Error → String) (req : CreateNotificationRequest) (e : Error)
    → validate req ≡ err e
    → status_code (map_error A error_text e) ≡ 422
unfolding validate map_error
validate-unprocessable error_text req e h = ground arith

-- Whatever the query holds, the filter that is read from it asks for a page from 1 on, and for 1 to
-- 100 rows.
pub parse_list_filter-bounds :
    (get : String → String) (atoi : String → Result ℤ) (parse : String → Result Time)
    → let f = parse_list_filter get atoi parse in (1 ≤ f.page) × (1 ≤ f.limit) × (f.limit ≤ 100)
unfolding parse_list_filter
parse_list_filter-bounds get atoi parse =
    let (least, most) = limit (atoi (get "limit")) in (page (atoi (get "page")), least, most)
  where
    page : (r : Result ℤ) → 1 ≤ positive_or 1 none r
    page r = unfold positive_or in ground arith

    limit : (r : Result ℤ) → (1 ≤ positive_or 20 (some 100) r) × (positive_or 20 (some 100) r ≤ 100)
    limit r = unfold positive_or in ground arith

module _ {S : Type 0} (repo : NotificationRepository S) (c : IsRepository repo)
    (error_text : Error → String) where
  open c use {view, IsValid}

  -- What the status code of an answer to `Create` tells, for the notification `new` of the request:
  -- an existing one is returned; the new one was stored; or the service reported an error.
  pub data CreateAnswer (req : CreateNotificationRequest) (key : String) (new : Notification)
      (s : System S) (r : Response Notification) (s' : System S) : Type 0 where
    ok_200 :
        (n : Notification)
        → r ≡ respond_json 200 n
        → CreateSpec repo c req key new s (ok (n, true), s')
        → CreateAnswer req key new s r s'
    created_201 :
        (n : Notification)
        → r ≡ respond_json 201 n
        → CreateSpec repo c req key new s (ok (n, false), s')
        → CreateAnswer req key new s r s'
    failed_with :
        (e : Error)
        → 400 ≤ status_code r
        → CreateSpec repo c req key new s (err e, s')
        → CreateAnswer req key new s r s'

  created-CreateAnswer :
      (req : CreateNotificationRequest) (key : String) (new : Notification) (s s' : System S)
      (o : Result (Notification × Bool))
      → CreateSpec repo c req key new s (o, s')
      → let (r, t) = created repo error_text (o, s') in CreateAnswer req key new s r t
  unfolding created
  created-CreateAnswer req key new s s' (ok (n, true)) spec = ok_200 n refl spec
  created-CreateAnswer req key new s s' (ok (n, false)) spec = created_201 n refl spec
  created-CreateAnswer req key new s s' (err e) spec =
      failed_with e (map_error-fails Notification error_text e) spec

  created-unprocessable :
      (req : CreateNotificationRequest) (key id : String) (now : Time) (s : System S) (e : Error)
      → validate req ≡ err e
      → let (r, s') = created repo error_text (Service.create repo req key id now s) in
        (status_code r ≡ 422) × (s' ≡ s)
  unfolding created Service.create
  created-unprocessable req key id now s e bad =
      rw (bad, created, Service.create)
        (validate-unprocessable Notification error_text req e bad, refl)

  -- Over any repository that meets the contract, `POST /notifications` with a JSON body: a request
  -- that is not deliverable is answered with 422 and changes nothing; 200 returns the stored
  -- notification that has the key already, and stores and enqueues nothing; 201 means that the
  -- request is deliverable, its key was unused, and its notification is stored; and any other
  -- answer is a code from 400 on, with the queue as it was.
  pub create-CreateAnswer :
      (req : CreateNotificationRequest) (key id : String) (now : Time) (s : System S)
      → IsValid s.db
      → let (r, s') = create repo error_text (some req) key id now s in
        IsValid s'.db
        × CreateAnswer req key (build_notification req key none id now) s r s'
        × (¬ IsDeliverable req → (status_code r ≡ 422) × (s' ≡ s))
  unfolding create
  create-CreateAnswer req key id now s v =
      let (v', spec) = create-CreateSpec repo c req key id now s v in
      (
        kept (Service.create repo req key id now s) v',
        created-CreateAnswer req key _ s _ _ spec,
        λ undeliverable. elim (Outcome-cases (validate req)) [
          | inl (_, good) ↦ absurd (undeliverable ((validate-ok_iff req).0 good))
          | inr (e, bad) ↦ created-unprocessable req key id now s e bad
        ],
      )
    where
      kept :
          (o : Result (Notification × Bool) × System S)
          → IsValid o.1.db
          → IsValid (created repo error_text o).1.db
      kept (ok (n, true), t) h = unfold created in h
      kept (ok (n, false), t) h = unfold created in h
      kept (err e, t) h = unfold created in h

  -- What the status code of an answer to `Cancel` tells of the notification with the id.
  pub data CancelAnswer (id : String) (found : Result Notification) (v v' : View) (code : ℕ)
      : Type 0 where
    no_content :
        (n : Notification)
        → found ≡ ok n
        → code ≡ 204
        → v id ≡ some n
        → IsCancellable n.status
        → Changed (Becomes Entities.cancelled) id v v'
        → CancelAnswer id found v v' code
    in_conflict :
        (n : Notification)
        → found ≡ ok n
        → code ≡ 409
        → v id ≡ some n
        → ¬ IsCancellable n.status
        → Same v v'
        → CancelAnswer id found v v' code
    not_found_404 :
        (e : Error)
        → found ≡ err e
        → errors_is e not_found ≡ true
        → code ≡ 404
        → v id ≡ none
        → Same v v'
        → CancelAnswer id found v v' code
    not_looked_up :
        (e : Error)
        → found ≡ err e
        → errors_is e not_found ≡ false
        → 400 ≤ code
        → Same v v'
        → CancelAnswer id found v v' code
    not_written :
        (n : Notification)
        → found ≡ ok n
        → 400 ≤ code
        → v id ≡ some n
        → IsCancellable n.status
        → Same v v' ⊎ Changed (Becomes Entities.cancelled) id v v'
        → CancelAnswer id found v v' code
