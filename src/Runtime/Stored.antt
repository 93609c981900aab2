-- ===== src/Runtime/Stored.antt =====
-- What a batch that is stored does to the facts and to the stored notifications.
use event_driven_arch.Common.{◌≢◌, inl, inr, ◌∙◌, List, [], ◌∷◌, ok, err, All}
use event_driven_arch.Domain.Errors.{Result}
use event_driven_arch.Domain.Entities.{Notification}
use event_driven_arch.Repository.Contract.{View, Added, AddedAll, CreatedAll}
use event_driven_arch.Repository.Contract.Laws.{IsSameMessage-trans}
use event_driven_arch.Runtime.Facts.{Accepts, IsNew}
use event_driven_arch.Runtime.Machine.{AreNew}
use event_driven_arch.Runtime.Sound.{
  IsSound, KeepsMessages, Same-KeepsMessages, Added-KeepsMessages, Same-IsSound,
}
use event_driven_arch.Runtime.Writes.{Added-IsSound}

pub KeepsMessages-trans : {u v w : View} → KeepsMessages u v → KeepsMessages v w → KeepsMessages u w
KeepsMessages-trans first second id n at =
    let (m, there, same) = first id n at in
    let (k, still, again) = second id m there in (k, still, IsSameMessage-trans n m k same again)

-- The ids of the others are new after one of them is stored.
pub Added-AreNew :
    (n : Notification) (ns : List Notification) (v u : View)
    → Added n v u
    → All (λ m. m.id ≢ n.id) ns
    → AreNew ns v
    → AreNew ns u
Added-AreNew n [] v u added others new = tt
Added-AreNew n (m ∷ ns) v u added (other, others) (free, differ, new) =
    (added.elsewhere m.id other ∙ free, differ, Added-AreNew n ns v u added others new)

pub AddedAll-KeepsMessages :
    (Q : Notification → View → Type 0) (ns : List Notification) (v v' : View)
    → AreNew ns v
    → AddedAll Q ns v v'
    → KeepsMessages v v'
AddedAll-KeepsMessages Q [] v v' new same = Same-KeepsMessages same
AddedAll-KeepsMessages Q (n ∷ ns) v v' (free, others, new) (u, added, q, rest) =
    KeepsMessages-trans (Added-KeepsMessages n v u free added)
      (AddedAll-KeepsMessages Q ns u v' (Added-AreNew n ns v u added others new) rest)

AddedAll-IsSound :
    (Q : Notification → View → Type 0) (ns : List Notification) (v v' : View) (accepts : Accepts)
    → All IsNew ns
    → AddedAll Q ns v v'
    → IsSound v accepts
    → IsSound v' accepts
AddedAll-IsSound Q [] v v' accepts fit same sound = Same-IsSound same sound
AddedAll-IsSound Q (n ∷ ns) v v' accepts (fit, fits) (u, added, q, rest) sound =
    AddedAll-IsSound Q ns u v' accepts fits rest (Added-IsSound n v u accepts fit added sound)

pub batch-KeepsMessages :
    {A : Type 0} (ns : List Notification) (v v' : View) (r : Result A)
    → AreNew ns v
    → CreatedAll ns v v' r
    → KeepsMessages v v'
batch-KeepsMessages ns v v' (ok _) new added = AddedAll-KeepsMessages _ ns v v' new added
batch-KeepsMessages ns v v' (err e) new (inl same) = Same-KeepsMessages same
batch-KeepsMessages ns v v' (err e) new (inr added) = AddedAll-KeepsMessages _ ns v v' new added

pub batch-IsSound :
    {A : Type 0} (ns : List Notification) (v v' : View) (accepts : Accepts) (r : Result A)
    → All IsNew ns
    → CreatedAll ns v v' r
    → IsSound v accepts
    → IsSound v' accepts
batch-IsSound ns v v' accepts (ok _) fits added sound =
    AddedAll-IsSound _ ns v v' accepts fits added sound
batch-IsSound ns v v' accepts (err e) fits (inl same) sound = Same-IsSound same sound
batch-IsSound ns v v' accepts (err e) fits (inr added) sound =
    AddedAll-IsSound _ ns v v' accepts fits added sound
