-- ===== src/Repository/Pg/Batches/Counts.antt =====
-- The counters of a batch after `UpdateBatchCounts`.
use event_driven_arch.Common.{
  ◌+◌, String, ◌≡◌, ◌⊎◌, inl, inr, true, false, List, [], ◌∷◌, ok, err, refl, arith, length, select,
  All, str_eq, eq_iff, Bool-cases,
}
use event_driven_arch.Domain.Errors.{Err}
use event_driven_arch.Domain.Entities.{Time, Status, Notification, Batch}
use event_driven_arch.Repository.Pg.{in_batch, is_failed, plain}
use event_driven_arch.Repository.Pg.Statements.{Pg, Fate, works, refused, lost, send, meet, writing}
use event_driven_arch.Repository.Pg.Batches.{
  counted, is_open, is_sent, is_cancelled, recount, update_batches, recount_batch,
  update_batch_counts,
}

-- The four counters add up to the number of the batch's notifications.
abbrev pub IsCounted : List Notification → Batch → Type 0
IsCounted rows b =
    b.pending + b.sent + b.failed + b.cancelled ≡ length (select (in_batch b.id) rows)

-- Every status is counted once.
one_of_four :
    (s : Status)
    → ((is_open s ≡ true) × (is_sent s ≡ false) × (is_failed s ≡ false) × (is_cancelled s ≡ false))
      ⊎ ((is_open s ≡ false)
          × (is_sent s ≡ true)
          × (is_failed s ≡ false)
          × (is_cancelled s ≡ false))
      ⊎ ((is_open s ≡ false)
          × (is_sent s ≡ false)
          × (is_failed s ≡ true)
          × (is_cancelled s ≡ false))
      ⊎ ((is_open s ≡ false)
          × (is_sent s ≡ false)
          × (is_failed s ≡ false)
          × (is_cancelled s ≡ true))
unfolding is_open is_sent is_cancelled
one_of_four s = ground arith

counted-sum :
    (id : String) (rows : List Notification)
    → counted is_open id rows
        + counted is_sent id rows
        + counted is_failed id rows
        + counted is_cancelled id rows
      ≡ length (select (in_batch id) rows)
unfolding counted
counted-sum id [] = refl
counted-sum id (n ∷ ns) =
    let rest = counted-sum id ns in ground (arith, one_of_four n.status, Bool-cases (in_batch id n))

recount-IsCounted :
    (now : Time) (rows : List Notification) (b : Batch) → IsCounted rows (recount now rows b)
unfolding recount
recount-IsCounted now rows b = counted-sum b.id rows

-- The batches with the id are counted.
abbrev pub AllCounted : String → List Notification → List Batch → Type 0
AllCounted id rows bs = All (λ b. b.id ≡ id → IsCounted rows b) bs

update_batches-AllCounted :
    (id : String) (now : Time) (rows : List Notification) (bs : List Batch)
    → AllCounted id rows (update_batches id (recount now rows) bs)
unfolding update_batches
update_batches-AllCounted id now rows [] = tt
update_batches-AllCounted id now rows (b ∷ bs) = elim (Bool-cases (str_eq b.id id)) [
  | inl hit ↦
      rw (hit, update_batches)
        ((λ same. recount-IsCounted now rows b), update_batches-AllCounted id now rows bs)
  | inr miss ↦
      rw (miss, update_batches)
        (
          (λ same. absurd (ground (arith, eq_iff b.id id))),
          update_batches-AllCounted id now rows bs,
        )
]

-- A call whose error is nil leaves the batches with the id counted.
abbrev pub CountsSpec : String → Err × Pg → Type 0
CountsSpec id (ok _, p') = AllCounted id p'.rows p'.batches
CountsSpec id (err e, p') = Unit

-- Where `UpdateBatchCounts` of the PostgreSQL repository returns nil, the four counters of the batch
-- add up to the number of the notifications of the batch in the table.
pub update_batch_counts-CountsSpec :
    (id : String) (p : Pg) → CountsSpec id (update_batch_counts id p)
unfolding update_batch_counts recount_batch send plain
update_batch_counts-CountsSpec id p = fates p.fates
  where
    fates :
        (fs : List Fate)
        → let (r, p') = meet fs (writing (recount_batch id)) p in CountsSpec id (plain r, p')
    fates [] =
        unfold meet recount_batch plain in update_batches-AllCounted id p.now p.rows p.batches
    fates (works ∷ fs) =
        unfold meet recount_batch plain in update_batches-AllCounted id p.now p.rows p.batches
    fates (refused e ∷ fs) = unfold meet plain in tt
    fates (lost e ∷ fs) = unfold meet plain in tt
