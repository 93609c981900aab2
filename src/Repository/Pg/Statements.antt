-- ===== src/Repository/Pg/Statements.antt =====
-- The database server behind internal/repository/pg_notification_repo.go: the tables that
-- migrations/ creates, and what a statement sent through the pool may come back with.
use event_driven_arch.Common.{String, List, [], ◌∷◌, Outcome, ok, err}
use event_driven_arch.Domain.Entities.{Time, Notification, Batch, ListFilter}

-- A statement works, or is refused, or takes effect while the report of its success is lost.
pub data Fate : Type 0 where
  works : Fate
  refused : String → Fate
  lost : String → Fate

-- The tables, the server's clock, and the fates of the statements to come; after those listed, every
-- statement works.
pub record Pg : Type 0 where
  pub rows : List Notification
  pub batches : List Batch
  pub now : Time
  pub fates : List Fate

-- The server's error texts, and the orders that it puts rows in. Rows of one `created_at` may come in
-- another order in each query, so that order is by the query and by the state that it finds.
pub record Server : Type 0 where
  pub bad_value : String
  pub duplicate_id : String
  pub duplicate_key : String
  pub missing_batch : String
  pub negative_offset : String
  pub newest_first : ListFilter → Pg → List Notification → List Notification
  pub oldest_first : List Notification → List Notification

-- A result with an error text of the pool.
abbrev pub Reply : Type 0 → Type 0
Reply A = Outcome String A

module _ {A : Type 0} where
  unfoldable pub replied : Reply (A × Pg) → Pg → Reply A × Pg
  replied (ok (a, p')) p = (ok a, p')
  replied (err text) p = (err text, p)

  unfoldable pub forget : String → Reply A × Pg → Reply A × Pg
  forget text (r, p) = (err text, p)

  unfoldable pub meet : List Fate → (Pg → Reply (A × Pg)) → Pg → Reply A × Pg
  unfolding replied forget
  meet [] statement p = replied (statement p) p
  meet (works ∷ fs) statement p =
      replied (statement (record p { fates = fs })) (record p { fates = fs })
  meet (refused text ∷ fs) statement p = (err text, record p { fates = fs })
  meet (lost text ∷ fs) statement p =
      forget text (replied (statement (record p { fates = fs })) (record p { fates = fs }))

  -- One statement, run by the server on its own.
  unfoldable pub send : (Pg → Reply (A × Pg)) → Pg → Reply A × Pg
  unfolding meet
  send statement p = meet p.fates statement p

-- A statement that only reads.
abbrev pub reading : {A : Type 0} → (Pg → Reply A) → Pg → Reply (A × Pg)
reading query p = elim (query p) [ ok a ↦ ok (a, p) | err text ↦ err text ]

-- A statement that cannot violate a constraint.
abbrev pub writing : (Pg → Pg) → Pg → Reply (Unit {0} × Pg)
writing change p = ok (tt, change p)
