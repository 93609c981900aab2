-- ===== src/Http/Middleware.antt =====
-- internal/api/middleware: correlation.go and logging.go round a handler. Parameters: the id that
-- `uuid.New` would give, and the time that the handler takes.
pub mod Laws
use event_driven_arch.Common.{
  ℕ, String, List, [], ◌∷◌, ◌++◌, Option, none, some, str_eq, if◌then◌else◌,
}
use event_driven_arch.Domain.Entities.{Duration}

-- What the middleware reads of a request: `correlation` is the header, "" if it is absent.
pub record Request : Type 0 where
  pub method : String
  pub path : String
  pub remote_addr : String
  pub correlation : String

-- The value of a request's context under `correlationIDKey`.
abbrev pub Context : Type 0
Context = Option String

pub get_correlation_id : Context → String
get_correlation_id none = ""
get_correlation_id (some v) = v

-- `CorrelationID`: the headers that it sets, and what the next handler does.
pub correlation_id : {A : Type 0} → String → Request → (Context → A) → List (String × String) × A
correlation_id new_id r next =
    let id = if str_eq r.correlation "" then new_id else r.correlation in
    (("X-Correlation-ID", id) ∷ [], next (some id))

-- The status codes that the wrapped writer was given are `passed`.
pub record ResponseWriter : Type 0 where
  pub status : ℕ
  pub passed : List ℕ

-- `responseWriter.WriteHeader`
pub write_header : ℕ → ResponseWriter → ResponseWriter
write_header code rw = record rw { status = code; passed = rw.passed ++ code ∷ [] }

-- A handler that writes these codes, in this order.
pub write_headers : List ℕ → ResponseWriter → ResponseWriter
unfolding write_header
write_headers [] rw = rw
write_headers (code ∷ codes) rw = write_headers codes (write_header code rw)

pub record LogLine : Type 0 where
  pub method : String
  pub path : String
  pub status : ℕ
  pub latency : Duration
  pub correlation_id : String
  pub remote_addr : String

-- `RequestLogger`: the line that it logs, and what the writer that it was given has got.
pub request_logger :
    Duration → (ResponseWriter → ResponseWriter) → Request → Context → LogLine × List ℕ
unfolding get_correlation_id
request_logger latency next r ctx =
    let wrapped = next (record { status = 200; passed = [] }) in
    (
      record {
        method = r.method;
        path = r.path;
        status = wrapped.status;
        latency = latency;
        correlation_id = get_correlation_id ctx;
        remote_addr = r.remote_addr;
      },
      wrapped.passed,
    )

-- The two in the order in which the router uses them.
pub served : String → Duration → List ℕ → Request → List (String × String) × (LogLine × List ℕ)
unfolding correlation_id request_logger write_headers
served new_id latency codes r =
    correlation_id new_id r (request_logger latency (write_headers codes) r)
