-- ===== src/Service/Batches.antt =====
-- What `CreateBatch` accepts, and what it builds of a batch.
use event_driven_arch.Common.{
  ℕ, ◌+◌, ◌≤◌, String, ◌≡◌, inl, inr, List, [], ◌∷◌, ◌++◌, none, some, arith, ok, err, refl, ap,
  length, ltb, ◌==◌, All, Outcome-cases, Bool-cases,
}
use event_driven_arch.Domain.Errors.{
  Error, Result, item_error, sentinel, batch_empty, batch_too_large,
}
use event_driven_arch.Domain.Entities.{Time, Notification, CreateNotificationRequest, validate}
use event_driven_arch.Domain.Validation.{IsDeliverable, validate-ok_iff}
use event_driven_arch.Repository.{NotificationRepository}
use event_driven_arch.Service.{
  initial_status, System, batch_item, with_item, build_all, create_batch,
}

-- What the notification of item `i` has of its request and of the batch.
pub record IsBuilt (batch_id : String) (now : Time) (uuid : String)
    (req : CreateNotificationRequest) (n : Notification) : Type 0 where
  pub id : n.id ≡ uuid
  pub batch : n.batch_id ≡ some batch_id
  pub channel : n.channel ≡ req.channel
  pub recipient : n.recipient ≡ req.recipient
  pub content : n.content ≡ req.content
  pub priority : n.priority ≡ req.priority
  pub scheduled_at : n.scheduled_at ≡ req.scheduled_at
  pub unkeyed : n.idempotency_key ≡ none
  pub created_at : n.created_at ≡ now
  pub status : n.status ≡ initial_status req.scheduled_at
  pub unattempted : n.retry_count ≡ 0
  pub limited : n.max_retries ≡ 3

-- One notification for each request, in their order, the request deliverable.
abbrev pub AllBuilt :
    String → Time → (ℕ → String) → ℕ → List CreateNotificationRequest → List Notification → Type 0
AllBuilt batch_id now ids i [] [] = Unit
AllBuilt batch_id now ids i (req ∷ reqs) (n ∷ ns) =
    IsDeliverable req
    × IsBuilt batch_id now (ids i) req n
    × AllBuilt batch_id now ids (i + 1) reqs ns
AllBuilt batch_id now ids i _ _ = ⊥

-- The first request that is not deliverable, all before it being so, and the error that names it.
abbrev pub FirstBad : ℕ → List CreateNotificationRequest → Error → Type 0
FirstBad i reqs e =
    (good : List CreateNotificationRequest) × (bad : CreateNotificationRequest) × (rest : List
      CreateNotificationRequest)
    × (cause : Error) × (reqs ≡ good ++ bad ∷ rest)
    × All IsDeliverable good
    × (validate bad ≡ err cause)
    × (e ≡ item_error (i + length good) cause)

abbrev pub BuildSpec :
    String
    → Time
    → (ℕ → String)
    → ℕ
    → List CreateNotificationRequest
    → Result (List Notification)
    → Type 0
BuildSpec batch_id now ids i reqs (ok ns) = AllBuilt batch_id now ids i reqs ns
BuildSpec batch_id now ids i reqs (err e) = FirstBad i reqs e

FirstBad-next :
    (i : ℕ) (req : CreateNotificationRequest) (reqs : List CreateNotificationRequest) (e : Error)
    → IsDeliverable req
    → FirstBad (i + 1) reqs e
    → FirstBad i (req ∷ reqs) e
FirstBad-next i req reqs e fit (good, bad, rest, cause, split, fits, fails, is) =
    (req ∷ good, bad, rest, cause, ap (◌∷◌ req) split, (fit, fits), fails, ground arith)

batch_item-IsBuilt :
    (batch_id : String) (now : Time) (id : String) (clock : Time) (req : CreateNotificationRequest)
    → IsBuilt batch_id now id req (batch_item batch_id now id clock req)
unfolding batch_item
batch_item-IsBuilt batch_id now id clock req = ground arith

with_item-BuildSpec :
    (batch_id : String) (now : Time) (ids : ℕ → String) (i : ℕ) (req : CreateNotificationRequest)
    (reqs : List CreateNotificationRequest) (n : Notification) (r : Result (List Notification))
    → IsDeliverable req
    → IsBuilt batch_id now (ids i) req n
    → BuildSpec batch_id now ids (i + 1) reqs r
    → BuildSpec batch_id now ids i (req ∷ reqs) (with_item n r)
unfolding with_item
with_item-BuildSpec batch_id now ids i req reqs n (ok ns) fit built spec = (fit, built, spec)
with_item-BuildSpec batch_id now ids i req reqs n (err e) fit built spec =
    FirstBad-next i req reqs e fit spec

-- The loop that validates and builds a batch returns one notification for each request, in their
-- order, where all the requests are deliverable, and otherwise the error of the first that is not,
-- with its index.
pub build_all-BuildSpec :
    (batch_id : String) (now : Time) (ids : ℕ → String) (clock : ℕ → Time) (i : ℕ)
    (reqs : List CreateNotificationRequest)
    → BuildSpec batch_id now ids i reqs (build_all batch_id now ids clock i reqs)
unfolding build_all
build_all-BuildSpec batch_id now ids clock i [] = tt
build_all-BuildSpec batch_id now ids clock i (req ∷ reqs) = elim (Outcome-cases (validate req)) [
  | inr (e, bad) ↦ rw (bad, build_all) ([], req, reqs, e, refl, tt, bad, ground arith)
  | inl (_, good) ↦
      let fit = (validate-ok_iff req).0 good in
      rw (good, build_all)
        (with_item-BuildSpec batch_id now ids i req reqs _ _ fit
          (batch_item-IsBuilt batch_id now (ids i) (clock i) req)
          (build_all-BuildSpec batch_id now ids clock (i + 1) reqs))
]

-- A batch that `CreateBatch` may act on.
abbrev pub IsAcceptable : List CreateNotificationRequest → Type 0
IsAcceptable reqs = (1 ≤ length reqs) × (length reqs ≤ 1000) × All IsDeliverable reqs

pub AllBuilt-fits :
    (batch_id : String) (now : Time) (ids : ℕ → String) (i : ℕ)
    (reqs : List CreateNotificationRequest) (ns : List Notification)
    → AllBuilt batch_id now ids i reqs ns
    → All IsDeliverable reqs
AllBuilt-fits batch_id now ids i [] [] h = tt
AllBuilt-fits batch_id now ids i (req ∷ reqs) (n ∷ ns) h =
    (h.0, AllBuilt-fits batch_id now ids (i + 1) reqs ns h.2)
AllBuilt-fits batch_id now ids i [] (n ∷ ns) h = absurd h
AllBuilt-fits batch_id now ids i (req ∷ reqs) [] h = absurd h

-- Why a batch is refused, and the error that says so.
pub data IsRefusal (reqs : List CreateNotificationRequest) (e : Error) : Type 0 where
  empty : length reqs ≡ 0 → e ≡ sentinel batch_empty → IsRefusal reqs e
  too_large : 1001 ≤ length reqs → e ≡ sentinel batch_too_large → IsRefusal reqs e
  undeliverable : 1 ≤ length reqs → length reqs ≤ 1000 → FirstBad 0 reqs e → IsRefusal reqs e

module _ {S : Type 0} (repo : NotificationRepository S) (requests : List CreateNotificationRequest)
    (batch_id : String) (now : Time) (ids : ℕ → String) (clock : ℕ → Time) (s : System S) where
  -- Over any repository, `CreateBatch` is all or nothing: a batch that is empty, that has more than
  -- 1000 requests, or in which one request is not deliverable, is refused, and neither the database
  -- nor the queue is changed. The error is `ErrBatchEmpty` for the first, `ErrBatchTooLarge` for
  -- the second, and otherwise that of the first request that is not deliverable, with its index.
  pub create_batch-refused :
      ¬ IsAcceptable requests
      → (e : Error) × IsRefusal requests e
        × (create_batch repo requests batch_id now ids clock s ≡ (err e, s))
  unfolding create_batch
  create_batch-refused bad = elim (Bool-cases (length requests == 0)) [
    | inl none_there ↦
        (sentinel batch_empty, empty (ground arith) refl, rw (none_there, create_batch) refl)
    | inr some_there ↦ elim (Bool-cases (ltb 1000 (length requests))) [
      | inl large ↦ (
        sentinel batch_too_large,
        too_large (ground arith) refl,
        rw (some_there, large, create_batch) refl,
      )
      | inr fits ↦ elim (Outcome-cases (build_all batch_id now ids clock 0 requests)) [
        | inr (e, failed) ↦
            let spec : BuildSpec batch_id now ids 0 requests (err e) =
              rw failed at (build_all-BuildSpec batch_id now ids clock 0 requests) in
            (
              e,
              undeliverable (ground arith) (ground arith) spec,
              rw (some_there, fits, failed, create_batch) refl,
            )
        | inl (ns, built) ↦
            let spec : BuildSpec batch_id now ids 0 requests (ok ns) =
              rw built at (build_all-BuildSpec batch_id now ids clock 0 requests) in
            absurd
              (bad (ground arith, ground arith, AllBuilt-fits batch_id now ids 0 requests ns spec))
      ]
    ]
  ]
