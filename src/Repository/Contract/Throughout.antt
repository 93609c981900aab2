-- ===== src/Repository/Contract/Throughout.antt =====
-- Properties of all the notifications that a repository stores, and what keeps them.
use event_driven_arch.Common.{
  ◌≤◌, String, ◌≡◌, ◌⊎◌, inl, inr, Option, none, some, arith, refl, sym, ◌∙◌, str_eq, eq_iff,
  Bool-cases,
}
use event_driven_arch.Domain.Entities.{Notification}
use event_driven_arch.Repository.Contract.{View, Same, Change, Changed, ChangedCell, Stored, Added}

-- Every stored notification has the property.
abbrev pub Throughout : (Notification → Type 0) → View → Type 0
Throughout P v = (j : String) (n : Notification) → v j ≡ some n → P n

-- No more attempts are counted than there may be.
abbrev pub IsWithin : Notification → Type 0
IsWithin n = n.retry_count ≤ n.max_retries

Cell-keeps :
    (P : Notification → Type 0) (C : Change) (o o' : Option Notification)
    → ((n n' : Notification) → o ≡ some n → C n n' → P n → P n')
    → ChangedCell C o o'
    → ((n : Notification) → o ≡ some n → P n)
    → (n' : Notification) → o' ≡ some n'
    → P n'
Cell-keeps P C none o' keep gone all n' at = absurd (cc)
Cell-keeps P C (some n) o' keep (m, is, change) all n' at =
    let same : m ≡ n' = cc in rw (← same) (keep n m refl change (all n refl))

Changed-Throughout :
    (P : Notification → Type 0) (C : Change) (id : String) (v v' : View)
    → ((n n' : Notification) → v id ≡ some n → C n n' → P n → P n')
    → Changed C id v v'
    → Throughout P v
    → Throughout P v'
Changed-Throughout P C id v v' keep ch all j n at = elim (Bool-cases (str_eq j id)) [
  | inl hit ↦ Cell-keeps P C (v id) (v' id) keep ch.here (all id) n (rw (← (eq_iff j id).0 hit) at)
  | inr miss ↦ all j n (sym (ch.elsewhere j (ground (arith, eq_iff j id))) ∙ at)
]

pub either-Throughout :
    (P : Notification → Type 0) (C : Change) (id : String) (v v' : View)
    → ((n n' : Notification) → v id ≡ some n → C n n' → P n → P n')
    → Same v v' ⊎ Changed C id v v'
    → Throughout P v
    → Throughout P v'
either-Throughout P C id v v' keep (inl same) all = λ j n at. all j n (sym (same j) ∙ at)
either-Throughout P C id v v' keep (inr ch) all = Changed-Throughout P C id v v' keep ch all

-- A notification stored under a new id is one more that must have the property.
pub Added-Throughout :
    (P : Notification → Type 0) (n : Notification) (v v' : View)
    → ((n' : Notification) → Stored n n' → P n')
    → Added n v v'
    → Throughout P v
    → Throughout P v'
Added-Throughout P n v v' keep added all j m at = elim (Bool-cases (str_eq j n.id)) [
  | inl hit ↦
      let (n', here, same) = added.stored in
      let there : v' n.id ≡ some m = rw (← (eq_iff j n.id).0 hit) at in
      let eq : n' ≡ m = cc in rw (← eq) (keep n' same)
  | inr miss ↦ all j m (sym (added.elsewhere j (ground (arith, eq_iff j n.id))) ∙ at)
]
