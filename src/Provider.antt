-- ===== src/Provider.antt =====
-- internal/provider/provider.go and webhook.go. Parameters: `marshal` is `json.Marshal` of a request,
-- `new_request` is `http.NewRequestWithContext` of a POST, `set_header` is `Header.Set`, `call` is the
-- client's `Do`, `decode` is the JSON decoder on the body of a response, and `status_text` is the
-- text of the error that names a status.
pub mod Laws
use event_driven_arch.Common.{ℕ, String, Bool, Outcome, ok, err, ◌==◌, not, if◌then◌else◌}
use event_driven_arch.Domain.Errors.{Result, wrapped, foreign}
use event_driven_arch.Domain.Entities.{Notification}
use event_driven_arch.Worker.{SendResponse}

-- `SendRequest`
pub record SendRequest : Type 0 where
  pub to : String
  pub channel : String
  pub content : String

abbrev pub request_of : Notification → SendRequest
request_of n = record { to = n.recipient; channel = n.channel; content = n.content }

-- What the client's `Do` returned: a status code and a body.
pub record HttpResponse : Type 0 where
  pub status_code : ℕ
  pub body : String

pub record HttpClient (R : Type 0) : Type 0 where
  pub marshal : SendRequest → Outcome String String
  pub new_request : String → String → Outcome String R
  pub set_header : String → String → R → R
  pub call : R → Outcome String HttpResponse
  pub decode : String → Outcome String SendResponse
  pub status_text : ℕ → String

module _ {R : Type 0} (http : HttpClient R) (base_url : String) where
  decoded : Outcome String SendResponse → Result SendResponse
  decoded (err e) = err (wrapped "decode response" (foreign e))
  decoded (ok resp) = ok resp

  responded : Outcome String HttpResponse → Result SendResponse
  unfolding decoded
  responded (err e) = err (wrapped "send request" (foreign e))
  responded (ok resp) =
      if not (resp.status_code == 202)
      then err (foreign (http.status_text resp.status_code))
      else decoded (http.decode resp.body)

  requested : Outcome String R → Result SendResponse
  unfolding responded
  requested (err e) = err (wrapped "create request" (foreign e))
  requested (ok req) = responded (http.call (http.set_header "Content-Type" "application/json" req))

  marshalled : Outcome String String → Result SendResponse
  unfolding requested
  marshalled (err e) = err (wrapped "marshal request" (foreign e))
  marshalled (ok body) = requested (http.new_request base_url body)

  -- `WebhookProvider.Send`
  pub send : Notification → Result SendResponse
  unfolding marshalled
  send n = marshalled (http.marshal (request_of n))
