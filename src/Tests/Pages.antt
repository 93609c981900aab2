-- ===== src/Tests/Pages.antt =====
-- A page of a listing, with a server that sorts by insertion.
use event_driven_arch.Common.{List, [], ◌∷◌, none, some, if◌then◌else◌}
use event_driven_arch.Common.Int.{leb_ℤ}
use event_driven_arch.Domain.Entities.{Notification, ListFilter}
use event_driven_arch.Repository.Pg.Statements.{Server}
use event_driven_arch.Tests.{server}

abbrev insert : Notification → List Notification → List Notification
insert n [] = n ∷ []
insert n (m ∷ ms) =
    let rest = insert n ms in if leb_ℤ m.created_at n.created_at then n ∷ m ∷ ms else m ∷ rest

abbrev sorted : List Notification → List Notification
sorted [] = []
sorted (n ∷ ns) = insert n (sorted ns)

abbrev sorting : Server
sorting = record server { newest_first = λ f p ns. sorted ns }

abbrev queued_ones : ListFilter
queued_ones = record {
  status = some "queued";
  channel = none;
  from = none;
  to = none;
  page = 1;
  limit = 20;
}
