-- ===== src/Http/Batches.antt =====
-- What `BatchHandler.CreateBatch` of internal/api/handler/batch_handler.go answers with.
use event_driven_arch.Common.{ℕ, ◌≤◌, String, ◌≡◌, List, some, none, arith, ok, err, refl}
use event_driven_arch.Domain.Errors.{Error, Result, item_error}
use event_driven_arch.Domain.Entities.{
  Time, Batch, CreateNotificationRequest, CreateBatchRequest, validate,
}
use event_driven_arch.Http.{Response, respond_json, status_code, map_error, answered, create_batch}
use event_driven_arch.Http.Answers.{map_error-fails}
use event_driven_arch.Repository.{NotificationRepository}
use event_driven_arch.Repository.Contract.{IsRepository}
use event_driven_arch.Service.{System}
use event_driven_arch.Service.Batches.{
  IsAcceptable, IsRefusal, empty, too_large, undeliverable, create_batch-refused,
}
use event_driven_arch.Service.BatchFresh.{AreDistinct}
use event_driven_arch.Service.BatchStored.{BatchOutcome, create_batch-BatchOutcome}

-- The index that is put before an error of `Validate` does not hide it.
item_error-unprocessable :
    (A : Type 0) (error_text : Error → String) (i : ℕ) (req : CreateNotificationRequest) (e : Error)
    → validate req ≡ err e
    → status_code (map_error A error_text (item_error i e)) ≡ 422
unfolding validate map_error
item_error-unprocessable error_text i req e h = ground arith

IsRefusal-unprocessable :
    (A : Type 0) (error_text : Error → String) (reqs : List CreateNotificationRequest) (e : Error)
    → IsRefusal reqs e
    → status_code (map_error A error_text e) ≡ 422
unfolding map_error
IsRefusal-unprocessable A error_text reqs e (empty _ is) = rw is refl
IsRefusal-unprocessable A error_text reqs e (too_large _ is) = rw is refl
IsRefusal-unprocessable A error_text reqs e (undeliverable _ _ first) =
    let (_, bad, _, cause, _, _, fails, is) = first in
    rw is (item_error-unprocessable A error_text _ bad cause fails)

module _ {S : Type 0} (repo : NotificationRepository S) (c : IsRepository repo)
    (error_text : Error → String) where
  open c use {view, IsValid}

  -- What the answer to `CreateBatch` tells: the batch was stored, or the service reported an error.
  pub data BatchAnswer (reqs : List CreateNotificationRequest) (ids : ℕ → String) (s : System S)
      (r : Response Batch) (s' : System S) : Type 0 where
    created_201 :
        (b : Batch)
        → r ≡ respond_json 201 b
        → BatchOutcome repo c reqs ids s (ok b, s')
        → BatchAnswer reqs ids s r s'
    failed_with :
        (e : Error)
        → 400 ≤ status_code r
        → BatchOutcome repo c reqs ids s (err e, s')
        → BatchAnswer reqs ids s r s'

  answered-BatchAnswer :
      (reqs : List CreateNotificationRequest) (ids : ℕ → String) (s s' : System S)
      (o : Result Batch)
      → IsValid s'.db
      → BatchOutcome repo c reqs ids s (o, s')
      → let (r, t) = answered repo error_text 201 (o, s') in
        IsValid t.db × BatchAnswer reqs ids s r t
  unfolding answered
  answered-BatchAnswer reqs ids s s' (ok b) valid outcome = (valid, created_201 b refl outcome)
  answered-BatchAnswer reqs ids s s' (err e) valid outcome =
      (valid, failed_with e (map_error-fails Batch error_text e) outcome)

  module _ (req : CreateBatchRequest) (batch_id : String) (now : Time) (ids : ℕ → String)
      (clock : ℕ → Time) (s : System S) where
    refused-unprocessable :
        ¬ IsAcceptable req.notifications
        → let (r, s') = create_batch repo error_text (some req) batch_id now ids clock s in
          (status_code r ≡ 422) × (s' ≡ s)
    unfolding create_batch answered
    refused-unprocessable bad =
        let (e, refusal, refused) =
          create_batch-refused repo req.notifications batch_id now ids clock s bad in
        rw refused (IsRefusal-unprocessable Batch error_text req.notifications e refusal, refl)

    -- Over any repository that meets the contract, with ids that are new and differ, `POST
    -- /notifications/batch` with a JSON body: 201 means that the batch has from 1 to 1000 items,
    -- all of them deliverable, and that a notification is stored for each; every other answer is a
    -- code from 400 on, with the queue as it was, and the repository too, unless the write stored
    -- the whole batch and the report of that was lost. A batch that is empty, too large, or that
    -- has an item that is not deliverable is answered with 422 and changes nothing.
    pub create_batch-BatchAnswer :
        IsValid s.db
        → AreDistinct ids
        → ((j : ℕ) → view s.db (ids j) ≡ none)
        → let (r, s') = create_batch repo error_text (some req) batch_id now ids clock s in
          (IsValid s'.db × BatchAnswer req.notifications ids s r s')
          × (¬ IsAcceptable req.notifications → (status_code r ≡ 422) × (s' ≡ s))
    unfolding create_batch
    create_batch-BatchAnswer valid distinct free =
        let (valid', outcome) =
          create_batch-BatchOutcome repo c req.notifications batch_id now ids clock s valid distinct
            free in
        (answered-BatchAnswer req.notifications ids s _ _ valid' outcome, refused-unprocessable)
