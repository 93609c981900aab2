-- ===== src/Http/Router/Reads.antt =====
-- The requests of internal/api/router.go that only read.
use event_driven_arch.Common.{
  ℕ, String, ◌≡◌, ◌≢◌, refl, List, some, ok, err, arith, All, false, str_eq, eq_iff,
}
use event_driven_arch.Common.Int.{ℤ}
use event_driven_arch.Domain.Errors.{Error, Result}
use event_driven_arch.Domain.Entities.{Time, Notification, ListFilter}
use event_driven_arch.Http
use event_driven_arch.Http.{Response, parse_list_filter, status_code, answered, listed, map_error}
use event_driven_arch.Http.Router.{
  Endpoint, health, prometheus, create_batch, create, list, get_by_id, cancel, get_batch,
  get_metrics, routes, Incoming, handle, under,
}
use event_driven_arch.Repository.{NotificationRepository}
use event_driven_arch.Repository.Contract.{Same, IsRepository}
use event_driven_arch.Service
use event_driven_arch.Service.{System}

-- The endpoints that are registered for GET, and the scrape.
abbrev pub IsRead : Endpoint → Type 0
IsRead create_batch = ⊥
IsRead create = ⊥
IsRead cancel = ⊥
IsRead _ = Unit {0}

other_method : (m : String) → str_eq m "GET" ≡ false → some m ≢ some "GET"
other_method m differs e = ground (arith, eq_iff m "GET")

module _ {S : Type 0} (repo : NotificationRepository S) (c : IsRepository repo)
    (error_text : Error → String) (atoi : String → Result ℤ) (parse : String → Result Time) where
  open c use {view, IsValid, gets, gets_batch, lists}

  answered-state :
      {A : Type 0} (code : ℕ) (o : Result A × System S) → (answered repo error_text code o).1 ≡ o.1
  unfolding answered
  answered-state code (ok a, s) = refl
  answered-state code (err e, s) = refl

  listed-state :
      (f : ListFilter) (o : Result (List Notification × ℕ) × System S)
      → (listed repo error_text f o).1 ≡ o.1
  unfolding listed
  listed-state f (ok a, s) = refl
  listed-state f (err e, s) = refl

  -- What a call that only reads leaves behind.
  after :
      {s : System S} {db : S} {s' : System S}
      → s' ≡ record s { db = db }
      → IsValid db × Same (view s.db) (view db)
      → IsValid s'.db × (s'.queue ≡ s.queue) × Same (view s.db) (view s'.db)
  after e (v, same) = rw e (v, refl, same)

  reads-Same :
      (e : Endpoint) (i : Incoming) (s : System S)
      → IsRead e
      → IsValid s.db
      → let s' = (handle repo error_text atoi parse e i s).1 in
        IsValid s'.db × (s'.queue ≡ s.queue) × Same (view s.db) (view s'.db)
  unfolding handle Http.get_by_id Http.list Http.get_batch Service.get_by_id Service.list
      Service.get_batch
  reads-Same health i s reads v = (v, refl, λ j. refl)
  reads-Same prometheus i s reads v = (v, refl, λ j. refl)
  reads-Same list i s reads v =
      let f = parse_list_filter i.query atoi parse in after (listed-state f _) (lists f s.db v)
  reads-Same get_by_id i s reads v =
      let (v', same, _) = gets i.id s.db v in after (answered-state 200 _) (v', same)
  reads-Same get_batch i s reads v = after (answered-state 200 _) (gets_batch i.id s.db v)
  reads-Same get_metrics i s reads v = (v, refl, λ j. refl)
  reads-Same create_batch i s reads v = absurd reads
  reads-Same create i s reads v = absurd reads
  reads-Same cancel i s reads v = absurd reads

  -- Over any repository that meets the contract, the handler of every route that the router registers
  -- for GET leaves the queue and the stored notifications as they were, whatever the request.
  pub get_routes-Same :
      All
        (λ r.
          r.method ≡ some "GET"
          → (i : Incoming) (s : System S) → IsValid s.db
          → let s' = (handle repo error_text atoi parse r.endpoint i s).1 in
            IsValid s'.db × (s'.queue ≡ s.queue) × Same (view s.db) (view s'.db))
        routes
  unfolding routes under
  get_routes-Same = (
    (λ e i s v. reads-Same health i s tt v),
    (
      (λ e. absurd (cc)),
      (
        (λ e. absurd (other_method _ refl e)),
        (
          (λ e. absurd (other_method _ refl e)),
          (
            (λ e i s v. reads-Same list i s tt v),
            (
              (λ e i s v. reads-Same get_by_id i s tt v),
              (
                (λ e. absurd (other_method _ refl e)),
                (
                  (λ e i s v. reads-Same get_batch i s tt v),
                  ((λ e i s v. reads-Same get_metrics i s tt v), tt),
                ),
              ),
            ),
          ),
        ),
      ),
    ),
  )
