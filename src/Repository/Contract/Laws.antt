-- ===== src/Repository/Contract/Laws.antt =====
-- How the effects of the contract compose.
use event_driven_arch.Common.{
  String, ◌≡◌, ◌⊎◌, inl, inr, ◌∙◌, refl, ap, Option, none, some, ok, err, str_eq, eq_iff, arith,
  Bool-cases,
}
use event_driven_arch.Domain.Errors.{Result, wrap}
use event_driven_arch.Common.Int.{pos, negsuc}
use event_driven_arch.Domain.Entities.{Time, Notification}
use event_driven_arch.Repository.{to_micros, map_micros}
use event_driven_arch.Repository.Contract.{
  View, Same, IsSameMessage, IsInserted, Change, Changed, Wrote, Added, Created,
}

pub Same-trans : {u v w : View} → Same u v → Same v w → Same u w
Same-trans p q = λ j. q j ∙ p j

pub IsSameMessage-refl : (n : Notification) → IsSameMessage n n
IsSameMessage-refl n = record {
  id = refl;
  batch_id = refl;
  channel = refl;
  recipient = refl;
  content = refl;
  priority = refl;
  idempotency_key = refl;
  max_retries = refl;
  scheduled_at = refl;
  created_at = refl;
}

pub IsSameMessage-trans :
    (n m k : Notification) → IsSameMessage n m → IsSameMessage m k → IsSameMessage n k
IsSameMessage-trans n m k p q = record {
  id = q.id ∙ p.id;
  batch_id = q.batch_id ∙ p.batch_id;
  channel = q.channel ∙ p.channel;
  recipient = q.recipient ∙ p.recipient;
  content = q.content ∙ p.content;
  priority = q.priority ∙ p.priority;
  idempotency_key = q.idempotency_key ∙ p.idempotency_key;
  max_retries = q.max_retries ∙ p.max_retries;
  scheduled_at = q.scheduled_at ∙ p.scheduled_at;
  created_at = q.created_at ∙ p.created_at;
}

pub to_micros-twice : (t : Time) → to_micros (to_micros t) ≡ to_micros t
to_micros-twice (pos n) = ap pos (omega arith)
to_micros-twice (negsuc n) = ap negsuc (omega arith)

pub map_micros-twice : (o : Option Time) → map_micros (map_micros o) ≡ map_micros o
map_micros-twice none = refl
map_micros-twice (some t) = ap some (to_micros-twice t)

pub IsInserted-trans : (n m k : Notification) → IsInserted n m → IsSameMessage m k → IsInserted n k
IsInserted-trans n m k p q = record {
  id = q.id ∙ p.id;
  batch_id = q.batch_id ∙ p.batch_id;
  channel = q.channel ∙ p.channel;
  recipient = q.recipient ∙ p.recipient;
  content = q.content ∙ p.content;
  priority = q.priority ∙ p.priority;
  idempotency_key = q.idempotency_key ∙ p.idempotency_key;
  max_retries = q.max_retries ∙ p.max_retries;
  scheduled_at = ap map_micros q.scheduled_at ∙ p.scheduled_at;
  created_at = ap to_micros q.created_at ∙ p.created_at;
}

pub Same-Added : (n : Notification) {u v w : View} → Same u v → Added n v w → Added n u w
Same-Added n p a = record { stored = a.stored; elsewhere = λ j other. a.elsewhere j other ∙ p j }

-- The text that is put round an error says nothing of the effect.
pub wrap-Created :
    {A : Type 0} (text : String) (n : Notification) (v v' : View) (r : Result A)
    → Created n v v' r
    → Created n v v' (wrap text r)
wrap-Created text n v v' (ok a) h = h
wrap-Created text n v v' (err e) h = h

pub Same-failed :
    (n : Notification) {u v w : View} → Same u v → Same v w ⊎ Added n v w → Same u w ⊎ Added n u w
Same-failed n p (inl q) = inl (Same-trans p q)
Same-failed n p (inr a) = inr (Same-Added n p a)

-- A change finds the notification that is there.
pub Changed-at :
    (C : Change) (id : String) (v v' : View) {n : Notification}
    → Changed C id v v'
    → v id ≡ some n
    → (n' : Notification) × (v' id ≡ some n') × C n n'
Changed-at C id v v' ch at = rw at at ch.here

-- What holds of every notification that a change makes of one with a property holds again.
pub Changed-keeps :
    (P : Notification → Type 0) (C : Change) (id : String) (v v' : View)
    → Changed C id v v'
    → ((n n' : Notification) → C n n' → P n → P n')
    → ((j : String) × (n : Notification) × (v j ≡ some n) × P n)
    → (j : String) × (n : Notification) × (v' j ≡ some n) × P n
Changed-keeps P C id v v' ch keep (j, n, at, p) = elim (Bool-cases (str_eq j id)) [
  | inl same ↦
      let (n', at', change) = Changed-at C id v v' ch (rw (← (eq_iff j id).0 same) at) in
      (id, n', at', keep n n' change p)
  | inr other ↦ (j, n, ch.elsewhere j (ground (arith, eq_iff j id)) ∙ at, p)
]

pub Same-Changed :
    (C : Change) (id : String) {u v w : View} → Same u v → Changed C id v w → Changed C id u w
Same-Changed C id p ch = record {
  here = rw (← p id) ch.here;
  elsewhere = λ j other. ch.elsewhere j other ∙ p j;
}

pub Same-Wrote :
    {A : Type 0} (C : Change) (id : String) (u v w : View) (r : Result A)
    → Same u v
    → Wrote C id v w r
    → Wrote C id u w r
Same-Wrote C id u v w (ok _) p ch = Same-Changed C id p ch
Same-Wrote C id u v w (err _) p (inl q) = inl (Same-trans p q)
Same-Wrote C id u v w (err _) p (inr ch) = inr (Same-Changed C id p ch)

-- The effect of a write whose error the caller only logs.
pub Wrote-either :
    {A : Type 0} (C : Change) (id : String) (v v' : View) (r : Result A)
    → Wrote C id v v' r
    → Same v v' ⊎ Changed C id v v'
Wrote-either C id v v' (ok _) ch = inr ch
Wrote-either C id v v' (err _) either = either

pub Same-either :
    (C : Change) (id : String) {u v w : View}
    → Same u v
    → Same v w ⊎ Changed C id v w
    → Same u w ⊎ Changed C id u w
Same-either C id p (inl q) = inl (Same-trans p q)
Same-either C id p (inr ch) = inr (Same-Changed C id p ch)
