-- ===== src/Repository/Pg/Batches/Atomic.antt =====
-- The transaction of `CreateBatch` in internal/repository/pg_notification_repo.go.
use event_driven_arch.Common.{
  String, ◌≡◌, ◌⊎◌, inl, inr, List, [], ◌∷◌, ok, err, refl, ◌∙◌, ap, arith, length, any, false,
}
use event_driven_arch.Domain.Errors.{Result, wrapped, foreign}
use event_driven_arch.Domain.Entities.{Notification, Batch}
use event_driven_arch.Repository.Pg.{inserted, insert_row, key_in_use, has_id}
use event_driven_arch.Repository.Pg.Statements.{
  Pg, Server, Reply, Fate, works, refused, lost, send, meet, writing,
}
use event_driven_arch.Repository.Pg.Batches.{
  new_batch, stored_batch, insert_batch, insert_all, inserted_rows, rolled_back, committed, commit,
  transact, create_batch,
}

-- The rows with those of a batch, the last one first.
abbrev pub with_rows : List Notification → List Notification → List Notification
with_rows [] rows = rows
with_rows (n ∷ ns) rows = with_rows ns (inserted n ∷ rows)

-- The tables are as they were.
abbrev pub Untouched : Pg → Pg → Type 0
Untouched p p' = (p'.rows ≡ p.rows) × (p'.batches ≡ p.batches)

-- No id and no idempotency key of the notifications was in use, nor is one used twice among them.
abbrev pub AreFresh : List Notification → List Notification → Type 0
AreFresh [] rows = Unit {0}
AreFresh (n ∷ ns) rows =
    (any (has_id n.id) rows ≡ false)
    × (key_in_use n.idempotency_key rows ≡ false)
    × AreFresh ns (inserted n ∷ rows)

-- The batch and all its notifications are in the tables, and were new to them.
abbrev pub Entered : Batch → List Notification → Pg → Pg → Type 0
Entered batch ns p p' =
    (p'.rows ≡ with_rows ns p.rows)
    × (p'.batches ≡ stored_batch batch ∷ p.batches)
    × AreFresh ns p.rows

abbrev pub BatchSpec : Batch → List Notification → Pg → Result Batch × Pg → Type 0
BatchSpec batch ns p (ok b, p') = (b ≡ batch) × Entered batch ns p p'
BatchSpec batch ns p (err e, p') = Untouched p p' ⊎ Entered batch ns p p'

-- What an INSERT of one row did that is reported to have worked.
abbrev Inserted : Notification → Pg → Reply (Unit {0}) × Pg → Type 0
Inserted n p (ok _, p') =
    (p'.rows ≡ inserted n ∷ p.rows)
    × (p'.batches ≡ p.batches)
    × (any (has_id n.id) p.rows ≡ false)
    × (key_in_use n.idempotency_key p.rows ≡ false)
Inserted n p (err e, p') = Unit

-- What the loop over the notifications did where it reports no error.
abbrev AllInserted : List Notification → Pg → Result (Unit {0}) × Pg → Type 0
AllInserted ns p (ok _, p') =
    (p'.rows ≡ with_rows ns p.rows) × (p'.batches ≡ p.batches) × AreFresh ns p.rows
AllInserted ns p (err e, p') = Unit

-- What the statements up to the commit did where none of them reports an error.
abbrev Prepared : Batch → List Notification → Pg → Result (Unit {0}) × Pg → Type 0
Prepared batch ns p (ok _, p') = Entered batch ns p p'
Prepared batch ns p (err e, p') = Unit

-- The same of the first INSERT.
abbrev Headed : Batch → Pg → Reply (Unit {0}) × Pg → Type 0
Headed batch p (ok _, p') = (p'.rows ≡ p.rows) × (p'.batches ≡ stored_batch batch ∷ p.batches)
Headed batch p (err e, p') = Unit

module _ (server : Server) where
  insert_row-Inserted :
      (n : Notification) (p : Pg) (fs : List Fate) → Inserted n p (meet fs (insert_row server n) p)
  unfolding insert_row meet inserted
  insert_row-Inserted n p [] = ground arith
  insert_row-Inserted n p (works ∷ fs) = ground arith
  insert_row-Inserted n p (refused e ∷ fs) = tt
  insert_row-Inserted n p (lost e ∷ fs) = tt

  insert_batch-Headed :
      (batch : Batch) (p : Pg) (fs : List Fate)
      → Headed batch p (meet fs (insert_batch server batch) p)
  unfolding insert_batch meet
  insert_batch-Headed batch p [] = ground arith
  insert_batch-Headed batch p (works ∷ fs) = ground arith
  insert_batch-Headed batch p (refused e ∷ fs) = tt
  insert_batch-Headed batch p (lost e ∷ fs) = tt

  insert_all-AllInserted :
      (ns : List Notification) (p : Pg) → AllInserted ns p (insert_all server ns p)
  unfolding insert_all send
  insert_all-AllInserted [] p = (refl, refl, tt)
  insert_all-AllInserted (n ∷ ns) p =
      next n ns p (meet p.fates (insert_row server n) p) (insert_row-Inserted n p p.fates)
        (λ t. insert_all-AllInserted ns t)
    where
      kept :
          (n : Notification) (ns : List Notification) (p t : Pg) (o : Result (Unit {0}) × Pg)
          → t.rows ≡ inserted n ∷ p.rows
          → t.batches ≡ p.batches
          → any (has_id n.id) p.rows ≡ false
          → key_in_use n.idempotency_key p.rows ≡ false
          → AllInserted ns t o
          → AllInserted (n ∷ ns) p o
      kept n ns p t (ok _, p') rows batches id key (all, same, fresh) =
          (all ∙ ap (with_rows ns) rows, same ∙ batches, (id, key, rw rows at fresh))
      kept n ns p t (err e, p') rows batches id key all = tt

      next :
          (n : Notification) (ns : List Notification) (p : Pg) (o : Reply (Unit {0}) × Pg)
          → Inserted n p o
          → ((t : Pg) → AllInserted ns t (insert_all server ns t))
          → AllInserted (n ∷ ns) p (elim o.0 [
            | ok _ ↦ insert_all server ns o.1
            | err e ↦ (err (wrapped "insert batch notification" (foreign e)), o.1)
          ])
      next n ns p (ok _, t) (rows, batches, id, key) rest =
          kept n ns p t (insert_all server ns t) rows batches id key (rest t)
      next n ns p (err e, t) h rest = tt

  inserted_rows-Prepared :
      (batch : Batch) (ns : List Notification) (p : Pg) (o : Reply (Unit {0}) × Pg)
      → Headed batch p o
      → Prepared batch ns p (inserted_rows server ns o)
  unfolding inserted_rows
  inserted_rows-Prepared batch ns p (err e, t) h = tt
  inserted_rows-Prepared batch ns p (ok _, t) (rows, batches) =
      entered (insert_all server ns t) (insert_all-AllInserted ns t)
    where
      entered : (o : Result (Unit {0}) × Pg) → AllInserted ns t o → Prepared batch ns p o
      entered (ok _, p') (all, same, fresh) =
          (all ∙ ap (with_rows ns) rows, same ∙ batches, rw rows at fresh)
      entered (err e, p') all = tt

  commit-BatchSpec :
      (batch : Batch) (ns : List Notification) (p : Pg) (o : Result (Unit {0}) × Pg)
      → Prepared batch ns p o
      → BatchSpec batch ns p (commit server batch p o)
  unfolding commit rolled_back committed send
  commit-BatchSpec batch ns p (err e, t) h = inl (refl, refl)
  commit-BatchSpec batch ns p (ok _, t) h = fates t.fates
    where
      fates :
          (fs : List Fate)
          → BatchSpec batch ns p (
              committed server batch
                (meet fs (writing (λ s. record t { fates = s.fates })) (record p { fates = fs })))
      fates [] = unfold meet in (refl, h)
      fates (works ∷ fs) = unfold meet in (refl, h)
      fates (refused e ∷ fs) = unfold meet in inl (refl, refl)
      fates (lost e ∷ fs) = unfold meet in inr h

  begun-BatchSpec :
      (batch : Batch) (ns : List Notification) (p t : Pg)
      → Untouched p t
      → BatchSpec batch ns p (transact server batch ns (ok tt, t))
  unfolding transact send
  begun-BatchSpec batch ns p t (rows, batches) =
      from_start
        (commit server batch t
          (inserted_rows server ns (meet t.fates (insert_batch server batch) t)))
        (commit-BatchSpec batch ns t _
          (inserted_rows-Prepared batch ns t _ (insert_batch-Headed batch t t.fates)))
    where
      from_start : (o : Result Batch × Pg) → BatchSpec batch ns t o → BatchSpec batch ns p o
      from_start (ok b, q) (same, (all, entered, fresh)) = (
        same,
        (
          all ∙ ap (with_rows ns) rows,
          entered ∙ ap (◌∷◌ (stored_batch batch)) batches,
          rw rows at fresh,
        ),
      )
      from_start (err e, q) (inl (all, kept)) = inl (all ∙ rows, kept ∙ batches)
      from_start (err e, q) (inr (all, entered, fresh)) = inr (
        all ∙ ap (with_rows ns) rows,
        entered ∙ ap (◌∷◌ (stored_batch batch)) batches,
        rw rows at fresh,
      )

  -- `CreateBatch` of the PostgreSQL repository is one transaction, whatever the fates of its
  -- statements: where it returns a batch, the batch and all the notifications are in the tables, in
  -- the order of their insertion, and no id or idempotency key of
  -- them was in use or is there twice; where it returns an error, the tables are as they were, unless it is
  -- the report of a commit that took effect which was lost.
  pub create_batch-BatchSpec :
      (id : String) (ns : List Notification) (p : Pg)
      → BatchSpec (new_batch id (length ns) p.now) ns p (create_batch server id ns p)
  unfolding create_batch send
  create_batch-BatchSpec id ns p = fates p.fates
    where
      fates :
          (fs : List Fate)
          → BatchSpec
              (new_batch id (length ns) p.now)
              ns
              p
              (transact server (new_batch id (length ns) p.now) ns (meet fs (writing (λ s. s)) p))
      fates [] = unfold meet in begun-BatchSpec _ ns p p (refl, refl)
      fates (works ∷ fs) =
          unfold meet in begun-BatchSpec _ ns p (record p { fates = fs }) (refl, refl)
      fates (refused e ∷ fs) = unfold meet transact in inl (refl, refl)
      fates (lost e ∷ fs) = unfold meet transact in inl (refl, refl)
