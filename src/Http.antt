-- ===== src/Http.antt =====
-- internal/api/handler: the handlers of respond.go, notification_handler.go and batch_handler.go. A
-- handler takes the decoded request, and the surroundings that the service's call takes.
pub mod Answers
pub mod Batches
pub mod Middleware
pub mod Router
use event_driven_arch.Common.{
  ℕ, String, Bool, true, false, ◌||◌, ◌&&◌, ◌+◌, List, [], ◌∷◌, Option, none, some, ok, err, str_eq,
  ltb, leb, if◌then◌else◌,
}
use event_driven_arch.Common.Int.{ℤ, pos, negsuc}
use event_driven_arch.Domain.Errors.{
  Error, Result, Err, errors_is, not_found, conflict, already_cancelled, not_cancellable,
  invalid_channel, invalid_priority, invalid_content, invalid_recipient, batch_too_large,
  batch_empty, queue_full,
}
use event_driven_arch.Domain.Entities.{
  Time, Notification, Batch, CreateNotificationRequest, CreateBatchRequest, ListFilter,
}
use event_driven_arch.Queue.{PriorityQueue, depths}
use event_driven_arch.Repository.{NotificationRepository}
use event_driven_arch.Service
use event_driven_arch.Service.{System}

-- What is written to the response: a status with a JSON value, with an error text, or alone.
pub data Response (A : Type 0) : Type 0 where
  respond_json : ℕ → A → Response A
  respond_error : ℕ → String → Response A
  write_header : ℕ → Response A

abbrev pub status_code : {A : Type 0} → Response A → ℕ
status_code (respond_json code _) = code
status_code (respond_error code _) = code
status_code (write_header code) = code

-- `mapError`; `error_text` is `err.Error()`.
pub map_error : (A : Type 0) → (Error → String) → Error → Response A
map_error A error_text e =
    if errors_is e not_found
    then respond_error 404 (error_text e)
    else if errors_is e conflict || errors_is e already_cancelled || errors_is e not_cancellable
    then respond_error 409 (error_text e)
    else if errors_is e invalid_channel
        || errors_is e invalid_priority
        || errors_is e invalid_content
        || errors_is e invalid_recipient
        || errors_is e batch_too_large
        || errors_is e batch_empty
    then respond_error 422 (error_text e)
    else if errors_is e queue_full
    then respond_error 503 (error_text e)
    else respond_error 500 "internal server error"

module _ {S : Type 0} (repo : NotificationRepository S) (error_text : Error → String) where
  created : Result (Notification × Bool) × System S → Response Notification × System S
  unfolding map_error
  created (err e, s) = (map_error _ error_text e, s)
  created (ok (n, true), s) = (respond_json 200 n, s)
  created (ok (n, false), s) = (respond_json 201 n, s)

  -- `NotificationHandler.Create`; `none` is a body that is not JSON.
  pub create :
      Option CreateNotificationRequest
      → String
      → String
      → Time
      → System S
      → Response Notification × System S
  unfolding created
  create none key id now s = (respond_error 400 "invalid JSON body", s)
  create (some req) key id now s = created (Service.create repo req key id now s)

  -- `NotificationHandler.GetByID`
  answered : {A : Type 0} → ℕ → Result A × System S → Response A × System S
  unfolding map_error
  answered code (err e, s) = (map_error _ error_text e, s)
  answered code (ok a, s) = (respond_json code a, s)

  pub get_by_id : String → System S → Response Notification × System S
  unfolding answered
  get_by_id id s = answered 200 (Service.get_by_id repo id s)

  cancelled : Err × System S → Response (Unit {0}) × System S
  unfolding map_error
  cancelled (err e, s) = (map_error _ error_text e, s)
  cancelled (ok _, s) = (write_header 204, s)

  -- `NotificationHandler.Cancel`
  pub cancel : String → System S → Response (Unit {0}) × System S
  unfolding cancelled
  cancel id s = cancelled (Service.cancel repo id s)

  listed :
      ListFilter
      → Result (List Notification × ℕ) × System S
      → Response (List Notification × ℕ × ℕ × ℕ) × System S
  listed filter (err e, s) = (respond_error 500 "failed to list notifications", s)
  listed filter (ok (ns, total), s) = (respond_json 200 (ns, total, filter.page, filter.limit), s)

  -- `NotificationHandler.List`, from the filter that `parseListFilter` reads.
  pub list : ListFilter → System S → Response (List Notification × ℕ × ℕ × ℕ) × System S
  unfolding listed
  list filter s = listed filter (Service.list repo filter s)

  -- `BatchHandler.CreateBatch`
  pub create_batch :
      Option CreateBatchRequest
      → String
      → Time
      → (ℕ → String)
      → (ℕ → Time)
      → System S
      → Response Batch × System S
  unfolding answered
  create_batch none batch_id now ids clock s = (respond_error 400 "invalid JSON body", s)
  create_batch (some req) batch_id now ids clock s =
      answered 201 (Service.create_batch repo req.notifications batch_id now ids clock s)

  -- `BatchHandler.GetBatch`
  pub get_batch : String → System S → Response (Batch × List Notification) × System S
  unfolding answered
  get_batch id s = answered 200 (Service.get_batch repo id s)

-- `HealthHandler.Health`
pub health : Response (List (String × String))
health = respond_json 200 (("status", "ok") ∷ [])

-- `MetricsHandler.GetMetrics`: the three depths, and their sum.
pub get_metrics : PriorityQueue → Response (ℕ × ℕ × ℕ × ℕ)
get_metrics q =
    let (high, normal, low) = depths q in respond_json 200 (high, normal, low, high + normal + low)

-- A query parameter that is a number of the range from 1 to `most`, or what is there without it.
-- `parsed` is the result of `strconv.Atoi`; `none` stands for no upper bound.
positive_or : ℕ → Option ℕ → Result ℤ → ℕ
positive_or default most (err _) = default
positive_or default most (ok (negsuc _)) = default
positive_or default none (ok (pos n)) = if ltb 0 n then n else default
positive_or default (some most) (ok (pos n)) = if ltb 0 n && leb n most then n else default

given : String → Option String
given text = if str_eq text "" then none else some text

time_of : (String → Result Time) → String → Option Time
time_of parse text =
    if str_eq text "" then none else elim (parse text) [ ok t ↦ some t | err e ↦ none ]

-- `parseListFilter`: `get` is `r.URL.Query().Get`, `atoi` is `strconv.Atoi` and `parse` is
-- `time.Parse` of RFC 3339.
pub parse_list_filter :
    (String → String) → (String → Result ℤ) → (String → Result Time) → ListFilter
unfolding positive_or given time_of
parse_list_filter get atoi parse = record {
  status = given (get "status");
  channel = given (get "channel");
  from = time_of parse (get "from");
  to = time_of parse (get "to");
  page = positive_or 1 none (atoi (get "page"));
  limit = positive_or 20 (some 100) (atoi (get "limit"));
}
