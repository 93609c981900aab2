-- ===== src/Repository/Pg/Keys.antt =====
-- The unique index on the idempotency keys, as internal/repository/pg_notification_repo.go uses it.
use event_driven_arch.Common.{◌≡◌, ◌⊎◌, inl, inr, refl, List, [], ◌∷◌, arith, ok, err, false}
use event_driven_arch.Domain.Entities.{Notification}
use event_driven_arch.Repository.Contract.{View, Same, Added}
use event_driven_arch.Repository.Contract.Keys.{IsFree, RefusesUsedKeys}
use event_driven_arch.Repository.Pg.{inserted, insert_row, key_in_use, create}
use event_driven_arch.Repository.Pg.Implements.{pg_repository}
use event_driven_arch.Repository.Pg.Refines.{pg_contract}
use event_driven_arch.Repository.Pg.Statements.{
  Pg, Server, Reply, replied, forget, Fate, works, refused, lost, send, meet,
}
use event_driven_arch.Repository.Pg.Batches.Stored.{key_in_use-IsFree, create_batch-Keeps}
use event_driven_arch.Repository.Pg.Rows.{view, insert-Added}

-- What an INSERT leaves, where it was sent.
abbrev Keeps : Notification → View → View → Type 0
Keeps n v v' = Same v v' ⊎ (Added n v v' × IsFree n.idempotency_key v)

abbrev Inserts : Notification → Pg → Reply (Unit {0} × Pg) → Type 0
Inserts n p (err _) = Unit {0}
Inserts n p (ok (_, p')) =
    (key_in_use n.idempotency_key p.rows ≡ false) × (p'.rows ≡ inserted n ∷ p.rows)

module _ (server : Server) where
  insert_row-Inserts : (n : Notification) (p : Pg) → Inserts n p (insert_row server n p)
  unfolding insert_row
  insert_row-Inserts n p = ground arith

  replied-Keeps :
      (n : Notification) (p p₀ : Pg) (r : Reply (Unit {0} × Pg))
      → p₀.rows ≡ p.rows
      → Inserts n p r
      → Keeps n (view p) (view (replied r p₀).1)
  unfolding replied
  replied-Keeps n p p₀ (err _) same h = inl (λ j. rw same refl)
  replied-Keeps n p p₀ (ok (_, p')) same (unused, table) =
      inr (rw table (insert-Added n p.rows), key_in_use-IsFree n.idempotency_key p.rows unused)

  -- The index keeps a notification out whose key is in use, whatever the fate of its statement.
  create-Keeps : (n : Notification) (p : Pg) → Keeps n (view p) (view (create server n p).1)
  unfolding create send meet forget
  create-Keeps n p = fates p.fates
    where
      fates : (fs : List Fate) → Keeps n (view p) (view (meet fs (insert_row server n) p).1)
      fates [] = replied-Keeps n p p _ refl (insert_row-Inserts n p)
      fates (works ∷ fs) =
          let q = record p { fates = fs } in replied-Keeps n p q _ refl (insert_row-Inserts n q)
      fates (refused e ∷ fs) = inl (λ j. refl)
      fates (lost e ∷ fs) =
          let q = record p { fates = fs } in replied-Keeps n p q _ refl (insert_row-Inserts n q)

  pub pg_refuses : RefusesUsedKeys (pg_repository server) (pg_contract server)
  pg_refuses = record {
    creates = λ n p d. create-Keeps n p;
    creates_batch = λ id ns p d. create_batch-Keeps server id ns p d;
  }
