-- ===== src/Http/Router.antt =====
-- internal/api/router.go: the routes, and what is behind each of them. Parameters: how
-- github.com/go-chi/chi matches a path, the JSON coder, and the answer of the Prometheus handler.
pub mod Reads
pub mod Table
use event_driven_arch.Common.{ℕ, String, List, [], ◌∷◌, Option, none, some}
use event_driven_arch.Domain.Errors.{Error, Result}
use event_driven_arch.Domain.Entities.{
  Time, Notification, CreateNotificationRequest, CreateBatchRequest,
}
use event_driven_arch.Common.Int.{ℤ}
use event_driven_arch.Http
use event_driven_arch.Http.{status_code, parse_list_filter}
use event_driven_arch.Repository.{NotificationRepository}
use event_driven_arch.Service.{System}

-- The handlers that are registered.
pub data Endpoint : Type 0 where
  health prometheus create_batch create list get_by_id cancel get_batch get_metrics : Endpoint

-- A part of a pattern between slashes: a text, or a parameter in braces.
pub data Segment : Type 0 where
  lit : String → Segment
  param : String → Segment

-- `method` is `none` for `Handle`, which takes every method.
pub record Route : Type 0 where
  pub method : Option String
  pub pattern : List Segment
  pub endpoint : Endpoint

-- `r.Route("/api/v1", ...)`
under : String → String → List Segment → List Segment
under a b rest = lit a ∷ lit b ∷ rest

-- The routes of `NewRouter`, in the order of their registration.
pub routes : List Route
unfolding under
routes =
    record { method = some "GET"; pattern = lit "health" ∷ []; endpoint = health }
    ∷ record { method = none; pattern = lit "metrics" ∷ []; endpoint = prometheus }
    ∷ record {
      method = some "POST";
      pattern = under "api" "v1" (lit "notifications" ∷ lit "batch" ∷ []);
      endpoint = create_batch;
    }
    ∷ record {
      method = some "POST";
      pattern = under "api" "v1" (lit "notifications" ∷ []);
      endpoint = create;
    }
    ∷ record {
      method = some "GET";
      pattern = under "api" "v1" (lit "notifications" ∷ []);
      endpoint = list;
    }
    ∷ record {
      method = some "GET";
      pattern = under "api" "v1" (lit "notifications" ∷ param "id" ∷ []);
      endpoint = get_by_id;
    }
    ∷ record {
      method = some "DELETE";
      pattern = under "api" "v1" (lit "notifications" ∷ param "id" ∷ []);
      endpoint = cancel;
    }
    ∷ record {
      method = some "GET";
      pattern = under "api" "v1" (lit "batches" ∷ param "id" ∷ []);
      endpoint = get_batch;
    }
    ∷ record {
      method = some "GET";
      pattern = under "api" "v1" (lit "metrics" ∷ []);
      endpoint = get_metrics;
    }
    ∷ []

-- What the handlers read of a request, decoded, and what they read of their surroundings. `scraped`
-- is the status code of the Prometheus handler.
pub record Incoming : Type 0 where
  pub id : String
  pub idempotency_key : String
  pub query : String → String
  pub single : Option CreateNotificationRequest
  pub batch : Option CreateBatchRequest
  pub new_id : String
  pub now : Time
  pub ids : ℕ → String
  pub clock : ℕ → Time
  pub scraped : ℕ

module _ {S : Type 0} (repo : NotificationRepository S) (error_text : Error → String)
    (atoi : String → Result ℤ) (parse : String → Result Time) where
  -- The status code of a response, with what the handler leaves behind.
  abbrev coded : {A : Type 0} → Http.Response A × System S → ℕ × System S
  coded (r, s) = (status_code r, s)

  -- The handler of an endpoint.
  pub handle : Endpoint → Incoming → System S → ℕ × System S
  handle health i s = (status_code Http.health, s)
  handle prometheus i s = (i.scraped, s)
  handle create_batch i s =
      coded (Http.create_batch repo error_text i.batch i.new_id i.now i.ids i.clock s)
  handle create i s =
      coded (Http.create repo error_text i.single i.idempotency_key i.new_id i.now s)
  handle list i s = coded (Http.list repo error_text (parse_list_filter i.query atoi parse) s)
  handle get_by_id i s = coded (Http.get_by_id repo error_text i.id s)
  handle cancel i s = coded (Http.cancel repo error_text i.id s)
  handle get_batch i s = coded (Http.get_batch repo error_text i.id s)
  handle get_metrics i s = (status_code (Http.get_metrics s.queue), s)
