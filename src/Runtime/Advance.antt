-- ===== src/Runtime/Advance.antt =====
-- One request of one call: what it leaves sound, what stays known, and what the rest may rely on.
use event_driven_arch.Common.{
  Option, none, some, String, ◌≡◌, refl, ap, ◌∙◌, List, [], ◌∷◌, ◌++◌, some, ok, err, All,
  append-nil,
}
use event_driven_arch.Domain.Errors.{Err, Result}
use event_driven_arch.Domain.Entities.{Notification, Batch}
use event_driven_arch.Queue
use event_driven_arch.Repository.{NotificationRepository}
use event_driven_arch.Repository.Contract.{View, Same, Found, Write, call, IsRepository}
use event_driven_arch.Worker.{SendResponse, Surroundings}
use event_driven_arch.Runtime.{
  Code, resumed, return, panic, write, write_batch, get, get_by_key, find_retries, find_scheduled,
  put, wait, send, clock, measure, go, Shared, advance, after_send,
}
use event_driven_arch.Runtime.Facts.{In, Fact, limit, accept, Accepts, Holds, Safe}
use event_driven_arch.Runtime.Machine.{AreNew, IsFresh}
use event_driven_arch.Runtime.Sound.{
  IsSound, Same-IsSound, Same-KeepsMessages, In-append, In-last, KeepsMessages, write-KeepsMessages,
}
use event_driven_arch.Runtime.Writes.{write-IsSound}
use event_driven_arch.Runtime.Stored.{batch-KeepsMessages, batch-IsSound}

-- The stored messages and the provider's answers are there later too.
pub record Later (v : View) (accepts : Accepts) (v' : View) (accepts' : Accepts) : Type 0 where
  pub messages : KeepsMessages v v'
  pub accepted : (x : String × String) → In x accepts → In x accepts'

pub Later-Holds :
    {v v' : View} {accepts accepts' : Accepts}
    → Later v accepts v' accepts'
    → (facts : List Fact) → All (Holds v accepts) facts
    → All (Holds v' accepts') facts
Later-Holds later [] hold = tt
Later-Holds later (limit id most ∷ facts) ((n, at, same), hold) =
    let (n', at', kept) = later.messages id n at in
    ((n', at', kept.max_retries ∙ same), Later-Holds later facts hold)
Later-Holds later (accept id msg_id ∷ facts) (there, hold) =
    (later.accepted (id, msg_id) there, Later-Holds later facts hold)

pub Same-Later : {v v' : View} (accepts : Accepts) → Same v v' → Later v accepts v' accepts
Same-Later accepts same = record { messages = Same-KeepsMessages same; accepted = λ x there. there }

more-IsSound : (v : View) (accepts more : Accepts) → IsSound v accepts → IsSound v (accepts ++ more)
more-IsSound v accepts more sound = record {
  proper = sound.proper;
  within = sound.within;
  accounted = λ j n at q.
      let (msg_id, stored, there) = sound.accounted j n at q in
      (msg_id, stored, In-append _ accepts more there);
}

resumed-Safe :
    {A : Type 0} (r : Option Err) (k : Err → Code A) (facts : List Fact)
    → ((e : Err) → Safe facts (k e))
    → Safe facts (resumed r k)
unfolding resumed
resumed-Safe none k facts safe = tt
resumed-Safe (some e) k facts safe = safe e

module _ {S : Type 0} (repo : NotificationRepository S) (c : IsRepository repo) where
  open c use {
    view, IsValid, keyed, writes, writes_batch, gets, gets_by_key, finds_retries, finds_scheduled,
  }

  -- The database is valid and the stored notifications are sound.
  abbrev pub IsHealthy : Shared S → Type 0
  IsHealthy s = IsValid s.db × IsSound (view s.db) s.accepts

  abbrev pub HoldIn : Shared S → List Fact → Type 0
  HoldIn s facts = All (Holds (view s.db) s.accepts) facts

  abbrev pub Follows : Shared S → Shared S → Type 0
  Follows s s' = Later (view s.db) s.accepts (view s'.db) s'.accepts

  -- What one request leaves behind.
  abbrev pub Advanced : {A : Type 0} → Shared S → Code A × Shared S → Type 0
  Advanced s (k, s') =
      IsHealthy s' × Follows s s' × ((facts : List Fact) × HoldIn s' facts × Safe facts k)

  -- A request that leaves the notifications as they were.
  Same-Advanced :
      {A : Type 0} (s s' : Shared S) (k : Code A) (facts : List Fact)
      → IsHealthy s
      → HoldIn s facts
      → IsValid s'.db
      → Same (view s.db) (view s'.db)
      → s'.accepts ≡ s.accepts
      → Safe facts k
      → Advanced s (k, s')
  Same-Advanced s s' k facts (valid, sound) hold valid' same e safe =
      let later : Follows s s' = rw e (Same-Later s.accepts same) in
      ((valid', rw e (Same-IsSound same sound)), later, (facts, Later-Holds later facts hold, safe))

  write-Advanced :
      {A : Type 0} (x : Write) (k : Err → Code A) (s : Shared S) (facts : List Fact)
      → IsHealthy s
      → IsFresh (write x k) (view s.db)
      → HoldIn s facts
      → Safe facts (write x k)
      → let (r, db) = call repo x s.db in Advanced s (k r, record s { db = db })
  write-Advanced x k s facts (valid, sound) fresh hold (allowed, safe) =
      let (valid', effect) = writes x s.db valid in
      let later : Later (view s.db) s.accepts (view (call repo x s.db).1) s.accepts = record {
        messages = write-KeepsMessages x (view s.db) _ _ fresh effect;
        accepted = λ y there. there;
      } in
      (
        (
          valid',
          write-IsSound x (view s.db) _ s.accepts facts _ (λ id n at. keyed s.db id n valid at)
              allowed hold effect sound,
        ),
        later,
        (facts, Later-Holds later facts hold, safe _),
      )

  batch-Advanced :
      {A : Type 0} (id : String) (ns : List Notification) (k : Result Batch → Code A) (s : Shared S)
      (facts : List Fact)
      → IsHealthy s
      → AreNew ns (view s.db)
      → HoldIn s facts
      → Safe facts (write_batch id ns k)
      → let (r, db) = repo.create_batch id ns s.db in Advanced s (k r, record s { db = db })
  batch-Advanced id ns k s facts (valid, sound) new hold (fits, safe) =
      let (valid', effect) = writes_batch id ns s.db valid in
      let later : Later (view s.db) s.accepts (view (repo.create_batch id ns s.db).1) s.accepts =
        record {
          messages = batch-KeepsMessages ns (view s.db) _ _ new effect;
          accepted = λ y there. there;
        } in
      (
        (valid', batch-IsSound ns (view s.db) _ s.accepts _ fits effect sound),
        later,
        (facts, Later-Holds later facts hold, safe _),
      )

  got-Advanced :
      {A : Type 0} (id : String) (k : Result Notification → Code A) (s : Shared S)
      (facts : List Fact) (r : Result Notification) (db : S)
      → IsHealthy s
      → HoldIn s facts
      → Safe facts (get id k)
      → IsValid db × Same (view s.db) (view db) × Found id (view s.db) r
      → Advanced s (k r, record s { db = db })
  got-Advanced id k s facts (err e) db healthy hold (found, missed) (valid', same, _) =
      Same-Advanced s (record s { db = db }) (k (err e)) facts healthy hold valid' same refl
        (missed e)
  got-Advanced id k s facts (ok n) db healthy hold (found, missed) (valid', same, at) =
      let shown : view s.db n.id ≡ some n = ap (view s.db) (keyed s.db id n healthy.0 at) ∙ at in
      Same-Advanced s (record s { db = db }) (k (ok n)) (limit n.id n.max_retries ∷ facts) healthy
        ((n, shown, refl), hold) valid' same refl (found n)

  sent-Advanced :
      {A : Type 0} (n : Notification) (k : Result SendResponse → Code A) (s : Shared S)
      (facts : List Fact) (r : Result SendResponse)
      → IsHealthy s
      → HoldIn s facts
      → Safe facts (send n k)
      → Advanced s (k r, after_send n r s)
  sent-Advanced n k s facts (err e) healthy hold (good, bad) =
      Same-Advanced s (after_send n (err e) s) (k (err e)) facts healthy hold healthy.0 (λ j. refl)
        (append-nil s.accepts) (bad e)
  sent-Advanced n k s facts (ok resp) (valid, sound) hold (good, bad) =
      let x : String × String = (n.id, resp.message_id) in
      let later : Later (view s.db) s.accepts (view s.db) (s.accepts ++ x ∷ []) = record {
        messages = Same-KeepsMessages (λ j. refl);
        accepted = λ y there. In-append y s.accepts (x ∷ []) there;
      } in
      (
        (valid, more-IsSound (view s.db) s.accepts (x ∷ []) sound),
        later,
        (
          accept n.id resp.message_id ∷ facts,
          (In-last x s.accepts, Later-Holds later facts hold),
          good resp,
        ),
      )

  -- A request of a call that is safe, in a healthy state, leaves the state healthy and the rest safe.
  pub advance-Advanced :
      {A : Type 0} (w : Surroundings) (k : Code A) (s : Shared S) (facts : List Fact)
      → IsHealthy s
      → IsFresh k (view s.db)
      → HoldIn s facts
      → Safe facts k
      → Advanced s (advance repo w k s)
  unfolding advance
  advance-Advanced w (return a) s facts healthy fresh hold safe =
      Same-Advanced s s (return a) facts healthy hold healthy.0 (λ j. refl) refl safe
  advance-Advanced {A} w panic s facts healthy fresh hold safe =
      Same-Advanced {A = A} s s panic facts healthy hold healthy.0 (λ j. refl) refl safe
  advance-Advanced w (write x k) s facts healthy fresh hold safe =
      write-Advanced x k s facts healthy fresh hold safe
  advance-Advanced w (write_batch id ns k) s facts healthy fresh hold safe =
      batch-Advanced id ns k s facts healthy fresh hold safe
  advance-Advanced w (get id k) s facts healthy fresh hold safe =
      got-Advanced id k s facts _ _ healthy hold safe (gets id s.db healthy.0)
  advance-Advanced w (get_by_key key k) s facts healthy fresh hold safe =
      let (valid', same, _) = gets_by_key key s.db healthy.0 in
      Same-Advanced s (record s { db = (repo.get_by_idempotency_key key s.db).1 })
        (k (repo.get_by_idempotency_key key s.db).0) facts healthy hold valid' same refl (safe _)
  advance-Advanced w (find_retries k) s facts healthy fresh hold safe =
      let (valid', same, _) = finds_retries s.db healthy.0 in
      Same-Advanced s (record s { db = (repo.find_due_retries s.db).1 })
        (k (repo.find_due_retries s.db).0) facts healthy hold valid' same refl (safe _)
  advance-Advanced w (find_scheduled k) s facts healthy fresh hold safe =
      let (valid', same, _) = finds_scheduled s.db healthy.0 in
      Same-Advanced s (record s { db = (repo.find_due_scheduled s.db).1 })
        (k (repo.find_due_scheduled s.db).0) facts healthy hold valid' same refl (safe _)
  advance-Advanced w (put item k) s facts healthy fresh hold safe =
      Same-Advanced s (record s { queue = (Queue.enqueue item s.queue).1 })
        (k (Queue.enqueue item s.queue).0) facts healthy hold healthy.0 (λ j. refl) refl (safe _)
  advance-Advanced w (wait channel k) s facts healthy fresh hold safe =
      Same-Advanced s s (resumed (w.wait channel) k) facts healthy hold healthy.0 (λ j. refl) refl
        (resumed-Safe (w.wait channel) k facts safe)
  advance-Advanced w (send n k) s facts healthy fresh hold safe =
      sent-Advanced n k s facts (w.send n) healthy hold safe
  advance-Advanced w (clock k) s facts healthy fresh hold safe =
      Same-Advanced s s (k (w.now, w.elapsed)) facts healthy hold healthy.0 (λ j. refl) refl
        (safe _)
  advance-Advanced w (measure m k) s facts healthy fresh hold safe =
      Same-Advanced s (record s { metrics = s.metrics ++ m ∷ [] }) k facts healthy hold healthy.0
        (λ j. refl) refl safe
  advance-Advanced w (go batches k) s facts healthy fresh hold safe =
      Same-Advanced s (record s { jobs = s.jobs ++ batches }) k facts healthy hold healthy.0
        (λ j. refl) refl safe
