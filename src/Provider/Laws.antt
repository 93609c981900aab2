-- ===== src/Provider/Laws.antt =====
-- When the provider counts as having accepted a notification.
use event_driven_arch.Common.{String, ◌≡◌, ◌↔◌, Outcome, ok, err, arith, refl, Outcome-cases}
use event_driven_arch.Domain.Entities.{Notification}
use event_driven_arch.Worker.{SendResponse}
use event_driven_arch.Provider.{
  SendRequest, request_of, HttpResponse, HttpClient, send, marshalled, requested, responded,
  decoded,
}

module _ {R : Type 0} (http : HttpClient R) (base_url : String) where
  -- The request that is sent for a notification, field by field, and what came back.
  abbrev pub Accepted : Notification → SendResponse → Type 0
  Accepted n r =
      (asked : SendRequest) × (body : String) × (req : R) × (resp : HttpResponse) × (asked.to
        ≡ n.recipient)
      × (asked.channel ≡ n.channel)
      × (asked.content ≡ n.content)
      × (http.marshal asked ≡ ok body)
      × (http.new_request base_url body ≡ ok req)
      × (http.call (http.set_header "Content-Type" "application/json" req) ≡ ok resp)
      × (resp.status_code ≡ 202)
      × (http.decode resp.body ≡ ok r)

  marshalled-ok :
      (o : Outcome String String) (r : SendResponse)
      → marshalled http base_url o ≡ ok r
      → (body : String) × (o ≡ ok body)
        × (requested http base_url (http.new_request base_url body) ≡ ok r)
  unfolding marshalled
  marshalled-ok (ok body) r h = (body, refl, h)
  marshalled-ok (err e) r h = absurd (cc)

  requested-ok :
      (o : Outcome String R) (r : SendResponse)
      → requested http base_url o ≡ ok r
      → (req : R) × (o ≡ ok req)
        × (responded http base_url
              (http.call (http.set_header "Content-Type" "application/json" req))
            ≡ ok r)
  unfolding requested
  requested-ok (ok req) r h = (req, refl, h)
  requested-ok (err e) r h = absurd (cc)

  responded-ok :
      (o : Outcome String HttpResponse) (r : SendResponse)
      → responded http base_url o ≡ ok r
      → (resp : HttpResponse) × (o ≡ ok resp)
        × (resp.status_code ≡ 202)
        × (http.decode resp.body ≡ ok r)
  unfolding responded decoded
  responded-ok (err e) r h = absurd (cc)
  responded-ok (ok resp) r h =
      (resp, refl, ground arith, ground (arith, Outcome-cases (http.decode resp.body)))

  -- Over any HTTP client and JSON coder: `Send` returns a response exactly if the notification's
  -- recipient, channel and content were encoded and posted, the status that came back is 202, and the
  -- body that came with it is the response's encoding.
  pub send-ok_iff :
      (n : Notification) (r : SendResponse) → (send http base_url n ≡ ok r) ↔ Accepted n r
  unfolding send marshalled requested responded decoded
  send-ok_iff n r = (λ h. forth h, λ h. ground arith)
    where
      forth : send http base_url n ≡ ok r → Accepted n r
      forth h =
          let (body, coded, h₁) = marshalled-ok (http.marshal (request_of n)) r h in
          let (req, made, h₂) = requested-ok (http.new_request base_url body) r h₁ in
          let (resp, came, accepted, meant) = responded-ok _ r h₂ in
          (request_of n, body, req, resp, refl, refl, refl, coded, made, came, accepted, meant)
