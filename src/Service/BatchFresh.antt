-- ===== src/Service/BatchFresh.antt =====
-- The notifications of a batch of internal/service/notification_service.go, once they are stored.
use event_driven_arch.Common.{
  ℕ, ◌+◌, ◌<◌, String, ◌≡◌, ◌≢◌, sym, ap, ◌∙◌, List, [], ◌∷◌, none, some, arith, All,
}
use event_driven_arch.Domain.Entities.{Time, Notification, CreateNotificationRequest}
use event_driven_arch.Repository.Contract.{View, IsInserted, AddedAll}
use event_driven_arch.Repository.Contract.Laws.{IsInserted-trans}
use event_driven_arch.Runtime.Machine.{AreNew}
use event_driven_arch.Runtime.Sound.{KeepsMessages}
use event_driven_arch.Runtime.Stored.{Added-AreNew, AddedAll-KeepsMessages}
use event_driven_arch.Service.Batches.{AllBuilt}

-- Ids of `uuid.New()` for the items: no two are the same.
abbrev pub AreDistinct : (ℕ → String) → Type 0
AreDistinct ids = (i j : ℕ) → ids i ≡ ids j → i ≡ j

-- No notification after item `j` has the id of item `j`.
AllBuilt-others :
    (batch_id : String) (now : Time) (ids : ℕ → String) (j i : ℕ)
    (reqs : List CreateNotificationRequest) (ns : List Notification)
    → AreDistinct ids
    → j < i
    → AllBuilt batch_id now ids i reqs ns
    → All (λ m. m.id ≢ ids j) ns
AllBuilt-others batch_id now ids j i [] [] distinct less h = tt
AllBuilt-others batch_id now ids j i (req ∷ reqs) (n ∷ ns) distinct less (fit, built, rest) = (
  λ e. (let same : i ≡ j = distinct i j (sym built.id ∙ e) in absurd (omega arith)),
  AllBuilt-others batch_id now ids j (i + 1) reqs ns distinct (omega arith) rest,
)
AllBuilt-others batch_id now ids j i [] (n ∷ ns) distinct less h = absurd h
AllBuilt-others batch_id now ids j i (req ∷ reqs) [] distinct less h = absurd h

pub AllBuilt-AreNew :
    (batch_id : String) (now : Time) (ids : ℕ → String) (i : ℕ)
    (reqs : List CreateNotificationRequest) (ns : List Notification) (v : View)
    → AreDistinct ids
    → ((j : ℕ) → v (ids j) ≡ none)
    → AllBuilt batch_id now ids i reqs ns
    → AreNew ns v
AllBuilt-AreNew batch_id now ids i [] [] v distinct free h = tt
AllBuilt-AreNew batch_id now ids i (req ∷ reqs) (n ∷ ns) v distinct free (fit, built, rest) = (
  ap v built.id ∙ free i,
  rw built.id (AllBuilt-others batch_id now ids i (i + 1) reqs ns distinct (omega arith) rest),
  AllBuilt-AreNew batch_id now ids (i + 1) reqs ns v distinct free rest,
)
AllBuilt-AreNew batch_id now ids i [] (n ∷ ns) v distinct free h = absurd h
AllBuilt-AreNew batch_id now ids i (req ∷ reqs) [] v distinct free h = absurd h

-- The notification is stored, as the same message, with its times to the microsecond.
abbrev pub IsStored : View → Notification → Type 0
IsStored v n = (n' : Notification) × (v n.id ≡ some n') × IsInserted n n'

pub KeepsMessages-IsStored :
    (v v' : View) (n : Notification) → KeepsMessages v v' → IsStored v n → IsStored v' n
KeepsMessages-IsStored v v' n keeps (m, at, same) =
    let (k, at', again) = keeps n.id m at in (k, at', IsInserted-trans n m k same again)

pub AddedAll-IsStored :
    (Q : Notification → View → Type 0) (ns : List Notification) (v v' : View)
    → AreNew ns v
    → AddedAll Q ns v v'
    → All (IsStored v') ns
AddedAll-IsStored Q [] v v' new same = tt
AddedAll-IsStored Q (n ∷ ns) v v' (free, others, new) (u, added, q, rest) =
    let later = Added-AreNew n ns v u added others new in
    let (m, at, stored) = added.stored in
    (
      KeepsMessages-IsStored u v' n (AddedAll-KeepsMessages Q ns u v' later rest) (m, at, stored.0),
      AddedAll-IsStored Q ns u v' later rest,
    )
