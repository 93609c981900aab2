-- ===== src/Runtime/Writes.antt =====
-- The writes that a call may make keep the stored notifications sound.
use event_driven_arch.Common.{
  ℕ, ◌≤◌, String, ◌≡◌, ◌≢◌, ◌⊎◌, inl, inr, sym, ap, ◌∙◌, List, some, arith, ok, err, All,
}
use event_driven_arch.Domain.Errors.{Err}
use event_driven_arch.Domain.Entities.{Status, Time, sent, cancelled, Notification}
use event_driven_arch.Domain.Validation.{IsProper}
use event_driven_arch.Repository.Contract.{
  View, Same, IsSameMessage, IsInserted, Change, Changed, Becomes, BecomesSent, BecomesFailed,
  BecomesRetried, Added, Write, Effect,
}
use event_driven_arch.Repository.Contract.Laws.{Wrote-either}
use event_driven_arch.Repository.Contract.Throughout.{IsWithin, either-Throughout, Added-Throughout}
use event_driven_arch.Runtime.Facts.{
  In, Fact, limit, accept, Accepts, Holds, IsAccounted, IsNew, Allowed,
}
use event_driven_arch.Runtime.Sound.{IsSound, Same-IsSound, IsKeyed, In-Holds}

-- What a change at an id makes of a sound notification.
abbrev Keeps : Accepts → Change → Notification → Type 0
Keeps accepts C n =
    (n' : Notification)
    → C n n'
    → (IsWithin n → IsWithin n')
      × (IsAccounted accepts n → IsAccounted accepts n')
      × IsSameMessage n n'

IsProper-same : (n n' : Notification) → IsSameMessage n n' → IsProper n → IsProper n'
IsProper-same n n' same (channel, priority, addressed, worded, short) = (
  rw same.channel channel,
  rw same.priority priority,
  rw same.recipient addressed,
  rw same.content worded,
  rw same.content short,
)

IsProper-inserted : (n n' : Notification) → IsInserted n n' → IsProper n → IsProper n'
IsProper-inserted n n' same (channel, priority, addressed, worded, short) = (
  rw same.channel channel,
  rw same.priority priority,
  rw same.recipient addressed,
  rw same.content worded,
  rw same.content short,
)

either-IsSound :
    (C : Change) (id : String) (v v' : View) (accepts : Accepts)
    → ((n : Notification) → v id ≡ some n → Keeps accepts C n)
    → Same v v' ⊎ Changed C id v v'
    → IsSound v accepts
    → IsSound v' accepts
either-IsSound C id v v' accepts keep effect sound = record {
  proper =
      either-Throughout IsProper C id v v'
        (λ n n' at change. IsProper-same n n' (keep n at n' change).2) effect sound.proper;
  within =
      either-Throughout IsWithin C id v v' (λ n n' at change. (keep n at n' change).0) effect
        sound.within;
  accounted =
      either-Throughout (IsAccounted accepts) C id v v' (λ n n' at change. (keep n at n' change).1)
        effect sound.accounted;
}

pub Added-IsSound :
    (n : Notification) (v v' : View) (accepts : Accepts)
    → IsNew n
    → Added n v v'
    → IsSound v accepts
    → IsSound v' accepts
Added-IsSound n v v' accepts (within, unsent, proper) added sound = record {
  proper =
      Added-Throughout IsProper n v v' (λ n' h. IsProper-inserted n n' h.0 proper) added
        sound.proper;
  within = Added-Throughout IsWithin n v v' (λ n' h. ground arith) added sound.within;
  accounted =
      Added-Throughout (IsAccounted accepts) n v v' (λ n' h q. absurd (unsent (sym h.1 ∙ q))) added
        sound.accounted;
}

status-Keeps :
    (accepts : Accepts) (s : Status) (n : Notification) → s ≢ sent → Keeps accepts (Becomes s) n
status-Keeps accepts s n unsent n' change =
    (λ h. ground arith, λ _ q. absurd (unsent (sym change.1 ∙ q)), change.0)

sent-Keeps :
    (accepts : Accepts) (msg_id : String) (at : Time) (n : Notification)
    → In (n.id, msg_id) accepts
    → Keeps accepts (BecomesSent msg_id at) n
sent-Keeps accepts msg_id at n there n' change =
    (λ h. ground arith, λ _ q. (msg_id, change.2, rw change.0.id there), change.0)

failed-Keeps :
    (accepts : Accepts) (text : String) (n : Notification) → Keeps accepts (BecomesFailed text) n
failed-Keeps accepts text n n' change =
    (λ h. ground arith, λ _ q. absurd (cc (change.1, q)), change.0)

retried-Keeps :
    (accepts : Accepts) (count : ℕ) (at : Time) (text : String) (n : Notification)
    → count ≤ n.max_retries
    → Keeps accepts (BecomesRetried count at text) n
retried-Keeps accepts count at text n left n' change =
    (λ h. ground arith, λ _ q. absurd (cc (change.1, q)), change.0)

-- A write that is allowed under facts that hold keeps the stored notifications sound.
pub write-IsSound :
    (x : Write) (v v' : View) (accepts : Accepts) (facts : List Fact) (r : Err)
    → IsKeyed v
    → Allowed facts x
    → All (Holds v accepts) facts
    → Effect x v v' r
    → IsSound v accepts
    → IsSound v' accepts
write-IsSound (Write.create n) v v' accepts facts (ok _) keyed new hold added sound =
    Added-IsSound n v v' accepts new added sound
write-IsSound (Write.create n) v v' accepts facts (err e) keyed new hold (inl same) sound =
    Same-IsSound same sound
write-IsSound (Write.create n) v v' accepts facts (err e) keyed new hold (inr added) sound =
    Added-IsSound n v v' accepts new added sound
write-IsSound (Write.update_status id s) v v' accepts facts r keyed unsent hold effect sound =
    either-IsSound (Becomes s) id v v' accepts (λ n at. status-Keeps accepts s n unsent)
      (Wrote-either (Becomes s) id v v' r effect) sound
write-IsSound (Write.mark_sent id msg_id t) v v' accepts facts r keyed known hold effect sound =
    let there : In (id, msg_id) accepts = In-Holds v accepts facts (accept id msg_id) hold known in
    either-IsSound (BecomesSent msg_id t) id v v' accepts
      (λ n at. sent-Keeps accepts msg_id t n (rw (keyed id n at) there))
      (Wrote-either (BecomesSent msg_id t) id v v' r effect) sound
write-IsSound (Write.mark_failed id text) v v' accepts facts r keyed _ hold effect sound =
    either-IsSound (BecomesFailed text) id v v' accepts (λ n at. failed-Keeps accepts text n)
      (Wrote-either (BecomesFailed text) id v v' r effect) sound
write-IsSound (Write.schedule_retry id count t text) v v' accepts facts r keyed (most, left, known)
      hold effect sound =
    let (m, here, limited) = In-Holds v accepts facts (limit id most) hold known in
    either-IsSound (BecomesRetried count t text) id v v' accepts
      (λ n at.
        let same : m ≡ n = cc in
        retried-Keeps accepts count t text n
          (let e : m.max_retries ≡ n.max_retries = ap (λ x. x.max_retries) same in omega arith))
      (Wrote-either (BecomesRetried count t text) id v v' r effect) sound
write-IsSound (Write.cancel id) v v' accepts facts r keyed _ hold effect sound =
    either-IsSound (Becomes cancelled) id v v' accepts
      (λ n at. status-Keeps accepts cancelled n (λ q. cc))
      (Wrote-either (Becomes cancelled) id v v' r effect) sound
write-IsSound (Write.update_batch_counts id) v v' accepts facts r keyed _ hold same sound =
    Same-IsSound same sound
