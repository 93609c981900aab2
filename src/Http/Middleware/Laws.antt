-- ===== src/Http/Middleware/Laws.antt =====
-- What the two middlewares report of a request.
use event_driven_arch.Common.{
  ℕ, String, ◌≡◌, ◌≢◌, List, [], ◌∷◌, ◌++◌, eq_iff, arith, refl, sym, ◌∙◌, append_assoc, append-nil,
}
use event_driven_arch.Domain.Entities.{Duration}
use event_driven_arch.Http.Middleware.{
  Request, ResponseWriter, write_header, write_headers, get_correlation_id, correlation_id,
  request_logger, served,
}

-- The last of the codes, or 200.
abbrev pub last_or : ℕ → List ℕ → ℕ
last_or code [] = code
last_or code (next ∷ codes) = last_or next codes

write_headers_lem :
    (codes : List ℕ) (rw : ResponseWriter)
    → let rw' = write_headers codes rw in
      (rw'.status ≡ last_or rw.status codes) × (rw'.passed ≡ rw.passed ++ codes)
unfolding write_headers write_header
write_headers_lem [] rw = (refl, sym (append-nil rw.passed))
write_headers_lem (code ∷ codes) rw =
    let (status, passed) = write_headers_lem codes (write_header code rw) in
    (status, passed ∙ append_assoc rw.passed (code ∷ []) codes)

-- With ids of `uuid.New` that are not empty: the line that is logged for a request has the id that
-- the response's header has, the request's own one if it had one, and never an empty one. Its
-- status is the last code that the handler wrote, 200 if it wrote none, and each code has been
-- passed on, in order.
pub served_lem :
    (new_id : String) (latency : Duration) (codes : List ℕ) (r : Request)
    → new_id ≢ ""
    → let (headers, (line, passed)) = served new_id latency codes r in
      (headers ≡ ("X-Correlation-ID", line.correlation_id) ∷ [])
      × (line.correlation_id ≢ "")
      × ((r.correlation ≢ "") → line.correlation_id ≡ r.correlation)
      × (line.status ≡ last_or 200 codes)
      × (passed ≡ codes)
unfolding served correlation_id request_logger get_correlation_id
served_lem new_id latency codes r given =
    let (status, passed) = write_headers_lem codes (record { status = 200; passed = [] }) in
    (
      refl,
      ground (arith, given, eq_iff r.correlation ""),
      λ own. ground (arith, own, eq_iff r.correlation ""),
      status,
      passed,
    )
