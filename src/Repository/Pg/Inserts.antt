-- ===== src/Repository/Pg/Inserts.antt =====
-- `Create` of internal/repository/pg_notification_repo.go against the contract.
use event_driven_arch.Common.{
  String, ◌≡◌, ◌⊎◌, inl, inr, refl, List, [], ◌∷◌, none, arith, ok, err, Bool-cases,
}
use event_driven_arch.Domain.Entities.{Notification}
use event_driven_arch.Repository.Contract.{View, Same, Created, Added}
use event_driven_arch.Repository.Pg.{inserted, insert_row, create_error, contains, create}
use event_driven_arch.Repository.Pg.Statements.{
  Pg, Server, Reply, replied, forget, Fate, works, refused, lost, send, meet,
}
use event_driven_arch.Repository.Pg.Rows.{row, view, IsDistinct, any-row, insert-Added}

-- What an INSERT replies, and the table that it leaves.
abbrev Inserts : Notification → List Notification → Reply (Unit {0} × Pg) → Type 0
Inserts n rows (err _) = Unit {0}
Inserts n rows (ok (_, p')) = (row n.id rows ≡ none) × (p'.rows ≡ inserted n ∷ rows)

module _ (server : Server) where
  insert_row-Inserts : (n : Notification) (p : Pg) → Inserts n p.rows (insert_row server n p)
  unfolding insert_row
  insert_row-Inserts n p = ground (arith, any-row n.id p.rows)

  -- The reply of the server to the INSERT, and the error that it is turned into.
  abbrev Replies : Notification → View → View → Reply (Unit {0}) → Type 0
  Replies n v v' (ok _) = Added n v v'
  Replies n v v' (err _) = Same v v' ⊎ Added n v v'

  create_error-Created :
      (n : Notification) (v v' : View) (r : Reply (Unit {0}))
      → Replies n v v' r
      → Created n v v' (create_error server r)
  unfolding create_error
  create_error-Created n v v' (ok _) h = h
  create_error-Created n v v' (err text) h = elim (Bool-cases (contains text "idempotency_key")) [
    | inl hit ↦ rw (hit, create_error) h
    | inr miss ↦ rw (miss, create_error) h
  ]

  replied-Replies :
      (n : Notification) (p p₀ : Pg) (r : Reply (Unit {0} × Pg))
      → p₀.rows ≡ p.rows
      → IsDistinct p.rows
      → Inserts n p.rows r
      → let (result, p') = replied r p₀ in IsDistinct p'.rows × Replies n (view p) (view p') result
  unfolding replied inserted
  replied-Replies n p p₀ (err _) same d h = (rw same d, inl (λ j. rw same refl))
  replied-Replies n p p₀ (ok (_, p')) same d (fresh, table) =
      (rw table (fresh, d), rw table (insert-Added n p.rows))

  forget-Replies :
      (n : Notification) (v : View) (e : String) (r : Reply (Unit {0})) (p' : Pg)
      → IsDistinct p'.rows × Replies n v (view p') r
      → let (result, p'') = forget e (r, p') in IsDistinct p''.rows × Replies n v (view p'') result
  unfolding forget
  forget-Replies n v e (ok _) p' (d, added) = (d, inr added)
  forget-Replies n v e (err _) p' (d, either) = (d, either)

  send-Replies :
      (n : Notification) (p : Pg)
      → IsDistinct p.rows
      → let (result, p') = send (insert_row server n) p in
        IsDistinct p'.rows × Replies n (view p) (view p') result
  unfolding send
  send-Replies n p d = fates p.fates
    where
      fates :
          (fs : List Fate)
          → let (result, p') = meet fs (insert_row server n) p in
            IsDistinct p'.rows × Replies n (view p) (view p') result
      fates [] = replied-Replies n p p _ refl d (insert_row-Inserts n p)
      fates (works ∷ fs) =
          let q = record p { fates = fs } in replied-Replies n p q _ refl d (insert_row-Inserts n q)
      fates (refused e ∷ fs) = (d, inl (λ j. refl))
      fates (lost e ∷ fs) =
          let q = record p { fates = fs } in
          let (r, p') = replied (insert_row server n q) q in
          forget-Replies n (view p) e r p' (replied-Replies n p q _ refl d (insert_row-Inserts n q))

  pub create-writes :
      (n : Notification) (p : Pg)
      → IsDistinct p.rows
      → let (result, p') = create server n p in
        IsDistinct p'.rows × Created n (view p) (view p') result
  unfolding create
  create-writes n p d =
      let (d', replies) = send-Replies n p d in (d', create_error-Created n (view p) _ _ replies)
