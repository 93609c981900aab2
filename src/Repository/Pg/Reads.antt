-- ===== src/Repository/Pg/Reads.antt =====
-- A query of internal/repository/pg_notification_repo.go leaves the tables alone.
use event_driven_arch.Common.{◌≡◌, refl, List, [], ◌∷◌, inl, inr, Outcome-cases}
use event_driven_arch.Repository.Contract.{Same}
use event_driven_arch.Repository.Pg.Rows.{view, IsDistinct}
use event_driven_arch.Repository.Pg.Statements.{
  Pg, Reply, Fate, works, refused, lost, send, meet, replied, forget, reading,
}

module _ {A : Type 0} (query : Pg → Reply A) where
  replied-rows : (p q : Pg) → q.rows ≡ p.rows → (replied (reading query q) q).1.rows ≡ p.rows
  unfolding replied
  replied-rows p q e = elim (Outcome-cases (query q)) [
    | inl (a, found) ↦ rw (found, replied) e
    | inr (text, failed) ↦ rw (failed, replied) e
  ]

  meet-rows : (fs : List Fate) (p : Pg) → (meet fs (reading query) p).1.rows ≡ p.rows
  unfolding meet forget
  meet-rows [] p = replied-rows p p refl
  meet-rows (works ∷ fs) p = replied-rows p (record p { fates = fs }) refl
  meet-rows (refused e ∷ fs) p = refl
  meet-rows (lost e ∷ fs) p = replied-rows p (record p { fates = fs }) refl

  pub reading-rows : (p : Pg) → (send (reading query) p).1.rows ≡ p.rows
  unfolding send
  reading-rows p = meet-rows p.fates p

-- Equal rows show the same notifications.
pub rows-Same :
    (p p' : Pg)
    → p'.rows ≡ p.rows
    → IsDistinct p.rows
    → IsDistinct p'.rows × Same (view p) (view p')
rows-Same p p' e d = (rw e d, λ j. rw e refl)
