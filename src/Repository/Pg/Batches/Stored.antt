-- ===== src/Repository/Pg/Batches/Stored.antt =====
-- What a batch that internal/repository/pg_notification_repo.go stores is in the table, row by row.
use event_driven_arch.Common.{
  String, ◌≡◌, ◌≢◌, ◌⊎◌, inl, inr, refl, List, [], ◌∷◌, Option, none, some, arith, ok, err, any,
  true, false, str_eq, eq_refl, Bool-cases,
}
use event_driven_arch.Domain.Errors.{Result}
use event_driven_arch.Domain.Entities.{Notification, Batch}
use event_driven_arch.Repository.Contract.{View, Same, AddedAll, CreatedAll}
use event_driven_arch.Repository.Contract.Keys.{IsFree}
use event_driven_arch.Repository.Pg.{inserted, key_in_use, has_key, points_to}
use event_driven_arch.Repository.Pg.Statements.{Pg, Server}
use event_driven_arch.Repository.Pg.Batches.{create_batch}
use event_driven_arch.Repository.Pg.Batches.Atomic.{
  with_rows, AreFresh, BatchSpec, create_batch-BatchSpec,
}
use event_driven_arch.Repository.Pg.Rows.{row, view, IsDistinct, any-row, insert-Added}

row-free :
    (key : String) (rows : List Notification)
    → any (has_key key) rows ≡ false
    → (j : String) (m : Notification) → row j rows ≡ some m
    → m.idempotency_key ≢ some key
row-free key [] h j m at is = absurd (cc)
row-free key (n ∷ rows) h j m at is = elim (Bool-cases (str_eq n.id j)) [
  | inl hit ↦
      let same : n ≡ m = ground arith in
      let mine : n.idempotency_key ≡ some key = rw same is in
      let used : points_to n.idempotency_key key ≡ true = rw mine (eq_refl key) in ground arith
  | inr miss ↦ row-free key rows (ground arith) j m (ground arith) is
]

pub key_in_use-IsFree :
    (o : Option String) (rows : List Notification)
    → key_in_use o rows ≡ false
    → IsFree o (λ j. row j rows)
unfolding key_in_use
key_in_use-IsFree none rows h = tt
key_in_use-IsFree (some key) rows h = row-free key rows h

-- A notification whose key no stored one has.
abbrev pub IsUnused : Notification → View → Type 0
IsUnused n v = IsFree n.idempotency_key v

with_rows-AddedAll :
    (ns rows : List Notification)
    → AreFresh ns rows
    → IsDistinct rows
    → IsDistinct (with_rows ns rows)
      × AddedAll IsUnused ns (λ j. row j rows) (λ j. row j (with_rows ns rows))
with_rows-AddedAll [] rows fresh distinct = (distinct, λ j. refl)
with_rows-AddedAll (n ∷ ns) rows (id, key, fresh) distinct =
    let after : IsDistinct (inserted n ∷ rows) =
      unfold inserted in (any-row n.id rows id, distinct) in
    let (distinct', added) = with_rows-AddedAll ns (inserted n ∷ rows) fresh after in
    (
      distinct',
      (
        (λ j. row j (inserted n ∷ rows)),
        insert-Added n rows,
        key_in_use-IsFree n.idempotency_key rows key,
        added,
      ),
    )

-- What a batch leaves, whether its result is reported or not.
abbrev pub Keeps : List Notification → View → View → Type 0
Keeps ns v v' = Same v v' ⊎ AddedAll IsUnused ns v v'

abbrev pub Outcome : List Notification → View → View → Result Batch → Type 0
Outcome ns v v' (ok b) = AddedAll IsUnused ns v v'
Outcome ns v v' (err e) = Keeps ns v v'

spec-Outcome :
    (batch : Batch) (ns : List Notification) (p : Pg) (o : Result Batch × Pg)
    → IsDistinct p.rows
    → BatchSpec batch ns p o
    → IsDistinct o.1.rows × Outcome ns (view p) (view o.1) o.0
spec-Outcome batch ns p (ok b, p') distinct (is, (table, batches, fresh)) =
    rw table (with_rows-AddedAll ns p.rows fresh distinct)
spec-Outcome batch ns p (err e, p') distinct (inl (table, batches)) =
    (rw table distinct, inl (λ j. rw table refl))
spec-Outcome batch ns p (err e, p') distinct (inr (table, batches, fresh)) =
    let (distinct', added) = with_rows-AddedAll ns p.rows fresh distinct in
    (rw table distinct', inr (rw table added))

-- A property of the notifications that nothing is said of.
AddedAll-forget :
    (Q : Notification → View → Type 0) (ns : List Notification) (v v' : View)
    → AddedAll Q ns v v'
    → AddedAll (λ n u. Unit {0}) ns v v'
AddedAll-forget Q [] v v' same = same
AddedAll-forget Q (n ∷ ns) v v' (u, added, q, rest) = (u, added, tt, AddedAll-forget Q ns u v' rest)

Outcome-CreatedAll :
    (ns : List Notification) (v v' : View) (r : Result Batch)
    → Outcome ns v v' r
    → CreatedAll ns v v' r
Outcome-CreatedAll ns v v' (ok b) added = AddedAll-forget IsUnused ns v v' added
Outcome-CreatedAll ns v v' (err e) (inl same) = inl same
Outcome-CreatedAll ns v v' (err e) (inr added) = inr (AddedAll-forget IsUnused ns v v' added)

Outcome-Keeps :
    (ns : List Notification) (v v' : View) (r : Result Batch) → Outcome ns v v' r → Keeps ns v v'
Outcome-Keeps ns v v' (ok b) added = inr added
Outcome-Keeps ns v v' (err e) kept = kept

module _ (server : Server) (id : String) (ns : List Notification) (p : Pg)
    (distinct : IsDistinct p.rows) where
  outcome :
      let (result, p') = create_batch server id ns p in
      IsDistinct p'.rows × Outcome ns (view p) (view p') result
  outcome = spec-Outcome _ ns p _ distinct (create_batch-BatchSpec server id ns p)

  pub create_batch-writes :
      let (result, p') = create_batch server id ns p in
      IsDistinct p'.rows × CreatedAll ns (view p) (view p') result
  create_batch-writes =
      let (distinct', kept) = outcome in (distinct', Outcome-CreatedAll ns (view p) _ _ kept)

  pub create_batch-Keeps : Keeps ns (view p) (view (create_batch server id ns p).1)
  create_batch-Keeps = Outcome-Keeps ns (view p) _ _ outcome.1
