-- ===== src/Runtime/Sound.antt =====
-- What the writes that a call may make do to the facts and to the stored notifications.
use event_driven_arch.Common.{
  String, ◌≡◌, ◌⊎◌, inl, inr, refl, sym, ap, ◌∙◌, List, [], ◌∷◌, ◌++◌, none, some, arith, ok, err,
  All, str_eq, eq_iff, Bool-cases,
}
use event_driven_arch.Domain.Errors.{Err}
use event_driven_arch.Domain.Entities.{cancelled, Notification}
use event_driven_arch.Domain.Validation.{IsProper}
use event_driven_arch.Repository.Contract.{
  View, Same, IsSameMessage, Change, Changed, Becomes, BecomesSent, BecomesFailed, BecomesRetried,
  Added, Write, Effect,
}
use event_driven_arch.Repository.Contract.Laws.{Wrote-either, Changed-at, IsSameMessage-refl}
use event_driven_arch.Repository.Contract.Throughout.{Throughout, IsWithin}
use event_driven_arch.Runtime.Machine.{IsFreshWrite}
use event_driven_arch.Runtime.Facts.{In, Fact, Accepts, Holds, IsAccounted}

-- The stored notifications are sound: they may be delivered, their attempts are within their limits, and those that count as
-- sent were accepted by the provider.
pub record IsSound (v : View) (accepts : Accepts) : Type 0 where
  pub proper : Throughout IsProper v
  pub within : Throughout IsWithin v
  pub accounted : Throughout (IsAccounted accepts) v

-- A notification is found under its own id.
abbrev pub IsKeyed : View → Type 0
IsKeyed v = (id : String) (n : Notification) → v id ≡ some n → n.id ≡ id

pub In-Holds :
    (v : View) (accepts : Accepts) (facts : List Fact) (f : Fact)
    → All (Holds v accepts) facts
    → In f facts
    → Holds v accepts f
In-Holds v accepts [] f all h = absurd h
In-Holds v accepts (g ∷ facts) f all (inl same) = rw same all.0
In-Holds v accepts (g ∷ facts) f all (inr more) = In-Holds v accepts facts f all.1 more

pub In-append : {A : Type 0} (x : A) (xs ys : List A) → In x xs → In x (xs ++ ys)
In-append x (y ∷ xs) ys (inl same) = inl same
In-append x (y ∷ xs) ys (inr more) = inr (In-append x xs ys more)
In-append x [] ys h = absurd h

pub In-last : {A : Type 0} (x : A) (xs : List A) → In x (xs ++ x ∷ [])
In-last x [] = inl refl
In-last x (y ∷ xs) = inr (In-last x xs)

pub Same-IsSound :
    {v v' : View} {accepts : Accepts} → Same v v' → IsSound v accepts → IsSound v' accepts
Same-IsSound same sound = record {
  proper = λ j n at. sound.proper j n (sym (same j) ∙ at);
  within = λ j n at. sound.within j n (sym (same j) ∙ at);
  accounted = λ j n at. sound.accounted j n (sym (same j) ∙ at);
}

-- A notification that is stored in a view is stored in a later one, as the same message.
abbrev pub KeepsMessages : View → View → Type 0
KeepsMessages v v' =
    (id : String) (n : Notification)
    → v id ≡ some n
    → (n' : Notification) × (v' id ≡ some n') × IsSameMessage n n'

either-KeepsMessages :
    (C : Change) (id : String) (v v' : View)
    → ((n n' : Notification) → C n n' → IsSameMessage n n')
    → Same v v' ⊎ Changed C id v v'
    → KeepsMessages v v'
either-KeepsMessages C id v v' same_message (inl same) j n at =
    (n, same j ∙ at, IsSameMessage-refl n)
either-KeepsMessages C id v v' same_message (inr ch) j n at = elim (Bool-cases (str_eq j id)) [
  | inl hit ↦
      let e = (eq_iff j id).0 hit in
      let (n', here, change) = Changed-at C id v v' ch (ap v (sym e) ∙ at) in
      (n', ap v' e ∙ here, same_message n n' change)
  | inr miss ↦ (n, ch.elsewhere j (ground (arith, eq_iff j id)) ∙ at, IsSameMessage-refl n)
]

pub Added-KeepsMessages :
    (m : Notification) (v v' : View) → v m.id ≡ none → Added m v v' → KeepsMessages v v'
Added-KeepsMessages m v v' fresh added j n at = elim (Bool-cases (str_eq j m.id)) [
  | inl hit ↦ let here : v m.id ≡ some n = ap v (sym ((eq_iff j m.id).0 hit)) ∙ at in absurd (cc)
  | inr miss ↦ (n, added.elsewhere j (ground (arith, eq_iff j m.id)) ∙ at, IsSameMessage-refl n)
]

pub Same-KeepsMessages : {v v' : View} → Same v v' → KeepsMessages v v'
Same-KeepsMessages same j n at = (n, same j ∙ at, IsSameMessage-refl n)

pub write-KeepsMessages :
    (x : Write) (v v' : View) (r : Err) → IsFreshWrite x v → Effect x v v' r → KeepsMessages v v'
write-KeepsMessages (Write.create n) v v' (ok _) fresh added =
    Added-KeepsMessages n v v' fresh added
write-KeepsMessages (Write.create n) v v' (err e) fresh (inl same) =
    λ j m at. (m, same j ∙ at, IsSameMessage-refl m)
write-KeepsMessages (Write.create n) v v' (err e) fresh (inr added) =
    Added-KeepsMessages n v v' fresh added
write-KeepsMessages (Write.update_status id status) v v' r fresh effect =
    either-KeepsMessages (Becomes status) id v v' (λ n n' h. h.0)
      (Wrote-either (Becomes status) id v v' r effect)
write-KeepsMessages (Write.mark_sent id msg_id at) v v' r fresh effect =
    either-KeepsMessages (BecomesSent msg_id at) id v v' (λ n n' h. h.0)
      (Wrote-either (BecomesSent msg_id at) id v v' r effect)
write-KeepsMessages (Write.mark_failed id text) v v' r fresh effect =
    either-KeepsMessages (BecomesFailed text) id v v' (λ n n' h. h.0)
      (Wrote-either (BecomesFailed text) id v v' r effect)
write-KeepsMessages (Write.schedule_retry id count at text) v v' r fresh effect =
    either-KeepsMessages (BecomesRetried count at text) id v v' (λ n n' h. h.0)
      (Wrote-either (BecomesRetried count at text) id v v' r effect)
write-KeepsMessages (Write.cancel id) v v' r fresh effect =
    either-KeepsMessages (Becomes cancelled) id v v' (λ n n' h. h.0)
      (Wrote-either (Becomes cancelled) id v v' r effect)
write-KeepsMessages (Write.update_batch_counts id) v v' r fresh same =
    λ j n at. (n, same j ∙ at, IsSameMessage-refl n)
