-- ===== src/Repository/Pg/Batches.antt =====
-- The batch methods of internal/repository/pg_notification_repo.go.
pub mod Atomic
pub mod Stored
pub mod Found
pub mod Counts
use event_driven_arch.Common.{
  ℕ, String, Bool, true, false, ◌&&◌, List, [], ◌∷◌, Option, none, some, str_eq, length, ok, err,
  select, any, head?, if◌then◌else◌,
}
use event_driven_arch.Domain.Errors.{Result, Action, sentinel, not_found, wrapped, foreign}
use event_driven_arch.Domain.Entities.{
  Time, Status, pending, queued, processing, sent, cancelled, scheduled, Notification, Batch,
}
use event_driven_arch.Repository.Pg.{in_batch, is_failed, insert_row, plain, explained}
use event_driven_arch.Repository.{to_micros}
use event_driven_arch.Repository.Pg.Statements.{Pg, Server, Reply, send, reading, writing}

pub new_batch : String → ℕ → Time → Batch
new_batch id count now = record {
  id = id;
  total = count;
  pending = count;
  sent = 0;
  failed = 0;
  cancelled = 0;
  created_at = now;
  updated_at = now;
}

-- The row of a batch, with its times to the microsecond.
abbrev pub stored_batch : Batch → Batch
stored_batch batch = record batch {
  created_at = to_micros batch.created_at;
  updated_at = to_micros batch.updated_at;
}

module _ (server : Server) where
  insert_batch : Batch → Pg → Reply (Unit {0} × Pg)
  insert_batch batch p =
      if any (λ b. str_eq b.id batch.id) p.batches
      then err server.duplicate_id
      else ok (tt, record p { batches = stored_batch batch ∷ p.batches })

  -- The loop that inserts the notifications, in the transaction; the fates go on.
  insert_all : List Notification → Pg → Result (Unit {0}) × Pg
  insert_all [] p = (ok tt, p)
  insert_all (n ∷ ns) p =
      let (r, p') = send (insert_row server n) p in
      elim r [
        | ok _ ↦ insert_all ns p'
        | err e ↦ (err (wrapped "insert batch notification" (foreign e)), p')
      ]

  inserted_rows : List Notification → Reply (Unit {0}) × Pg → Result (Unit {0}) × Pg
  unfolding insert_all
  inserted_rows ns (err e, p) = (err (wrapped "insert batch" (foreign e)), p)
  inserted_rows ns (ok _, p) = insert_all ns p

  -- `tx.Rollback`: the tables are those of the start.
  rolled_back : Pg → Pg → Pg
  rolled_back start p = record start { fates = p.fates }

  committed : Batch → Reply (Unit {0}) × Pg → Result Batch × Pg
  committed batch (ok _, s) = (ok batch, s)
  committed batch (err e, s) = (err (wrapped "commit batch" (foreign e)), s)

  -- `tx.Commit` puts the tables of the transaction in place.
  commit : Batch → Pg → Result (Unit {0}) × Pg → Result Batch × Pg
  unfolding rolled_back committed
  commit batch start (err e, p) = (err e, rolled_back start p)
  commit batch start (ok _, p) =
      committed batch (send (writing (λ s. record p { fates = s.fates })) (rolled_back start p))

  transact : Batch → List Notification → Reply (Unit {0}) × Pg → Result Batch × Pg
  unfolding commit inserted_rows insert_batch
  transact batch ns (err e, start) = (err (wrapped "begin transaction" (foreign e)), start)
  transact batch ns (ok _, start) =
      commit batch start (inserted_rows ns (send (insert_batch batch) start))

  -- The program's clock and the server's are one.
  unfoldable pub create_batch : String → List Notification → Action Pg Batch
  unfolding transact new_batch insert_row
  create_batch id ns p = transact (new_batch id (length ns) p.now) ns (send (writing (λ s. s)) p)

counted : (Status → Bool) → String → List Notification → ℕ
counted p id ns = length (select (λ n. in_batch id n && p n.status) ns)

is_open : Status → Bool
is_open pending = true
is_open queued = true
is_open processing = true
is_open scheduled = true
is_open _ = false

is_sent : Status → Bool
is_sent sent = true
is_sent _ = false

is_cancelled : Status → Bool
is_cancelled cancelled = true
is_cancelled _ = false

recount : Time → List Notification → Batch → Batch
unfolding counted is_open is_sent is_cancelled
recount now rows b = record b {
  pending = counted is_open b.id rows;
  sent = counted is_sent b.id rows;
  failed = counted is_failed b.id rows;
  cancelled = counted is_cancelled b.id rows;
  updated_at = now;
}

update_batches : String → (Batch → Batch) → List Batch → List Batch
update_batches id f [] = []
update_batches id f (b ∷ bs) = (if str_eq b.id id then f b else b) ∷ update_batches id f bs

unfoldable pub recount_batch : String → Pg → Pg
unfolding recount update_batches
recount_batch id t = record t { batches = update_batches id (recount t.now t.rows) t.batches }

unfoldable pub update_batch_counts : String → Action Pg (Unit {0})
unfolding plain recount_batch
update_batch_counts id p = let (r, p') = send (writing (recount_batch id)) p in (plain r, p')

module _ (server : Server) where
  -- The second query of `GetBatch`. A nil error of the first query is `some batch`.
  batch_rows : String → Batch → Pg → Result (Batch × List Notification) × Pg
  unfolding explained
  batch_rows id batch p =
      let (r, p') =
        send (reading (λ t. ok (batch, server.oldest_first (select (in_batch id) t.rows)))) p in
      (explained "get batch notifications" r, p')

  batch_found : String → Reply (Option Batch) × Pg → Result (Batch × List Notification) × Pg
  unfolding batch_rows
  batch_found id (err e, p) = (err (wrapped "get batch" (foreign e)), p)
  batch_found id (ok none, p) = (err (sentinel not_found), p)
  batch_found id (ok (some batch), p) = batch_rows id batch p

  unfoldable pub get_batch : String → Action Pg (Batch × List Notification)
  unfolding batch_found
  get_batch id p =
      batch_found id (send (reading (λ t. ok (head? (select (λ b. str_eq b.id id) t.batches)))) p)
