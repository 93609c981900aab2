-- ===== src/Tests/Handlers.antt =====
-- The theorems on the handlers and on the listing, at concrete requests.
use event_driven_arch.Common.{◌≤◌, String, ◌≡◌, [], some, none, ok, err, str_eq, if◌then◌else◌}
use event_driven_arch.Common.Int.{ℤ, pos, negsuc}
use event_driven_arch.Domain.Errors.{Error, Result, foreign}
use event_driven_arch.Domain.Entities.{Time, ListFilter}
use event_driven_arch.Domain.Validation.{IsDeliverable}
use event_driven_arch.Http.Middleware.{Request}
use event_driven_arch.Http.{status_code, create, parse_list_filter}
use event_driven_arch.Http.Answers.{CreateAnswer, create-CreateAnswer, parse_list_filter-bounds}
use event_driven_arch.Repository.Pg.Implements.{pg_repository}
use event_driven_arch.Repository.Pg.Rows.{IsDistinct}
use event_driven_arch.Repository.Pg.Refines.{pg_contract}
use event_driven_arch.Service.{build_notification}
use event_driven_arch.Tests.{nameless, server, database, system}

abbrev text_of : Error → String
text_of e = "error"

create-CreateAnswer_example :
    let s = system (database []) in
    let (r, s') = create (pg_repository server) text_of (some nameless) "k1" "n1" (pos 5) s in
    IsDistinct s'.db.rows
    × CreateAnswer
        (pg_repository server)
        (pg_contract server)
        text_of
        nameless
        "k1"
        (build_notification nameless "k1" none "n1" (pos 5))
        s
        r
        s'
    × (¬ IsDeliverable nameless → (status_code r ≡ 422) × (s' ≡ s))
create-CreateAnswer_example =
    create-CreateAnswer (pg_repository server) (pg_contract server) text_of nameless "k1" "n1"
      (pos 5) (system (database [])) tt

-- `?page=-1&limit=500`
abbrev query : String → String
query name = if str_eq name "page" then "-1" else if str_eq name "limit" then "500" else ""

abbrev number_in : String → Result ℤ
number_in text =
    if str_eq text "-1"
    then ok (negsuc 0)
    else if str_eq text "500"
    then ok (pos 500)
    else err (foreign "invalid syntax")

abbrev time_in : String → Result Time
time_in text = err (foreign "cannot parse")

parse_list_filter-bounds_example :
    let f = parse_list_filter query number_in time_in in
    (1 ≤ f.page) × (1 ≤ f.limit) × (f.limit ≤ 100)
parse_list_filter-bounds_example = parse_list_filter-bounds query number_in time_in

abbrev filter : ListFilter
filter = record {
  status = some "queued";
  channel = none;
  from = none;
  to = some (pos 7);
  page = 1;
  limit = 20;
}

abbrev asked : Request
asked = record { method = "GET"; path = "/health"; remote_addr = "::1"; correlation = "" }
