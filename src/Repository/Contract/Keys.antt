-- ===== src/Repository/Contract/Keys.antt =====
-- Idempotency keys: what a repository does about one that is in use, and what follows.
use event_driven_arch.Common.{
  String, ◌≡◌, ◌≢◌, ◌⊎◌, inl, inr, refl, sym, ap, ◌∙◌, List, [], ◌∷◌, Option, none, some, arith,
  str_eq, eq_iff, Bool-cases,
}
use event_driven_arch.Domain.Entities.{cancelled, Notification}
use event_driven_arch.Repository.{NotificationRepository}
use event_driven_arch.Repository.Contract.{
  View, Same, IsSameMessage, Change, Changed, ChangedCell, Becomes, BecomesSent, BecomesFailed,
  BecomesRetried, Added, AddedAll, Write, call, IsRepository,
}
use event_driven_arch.Repository.Contract.Laws.{Wrote-either}

-- No stored notification has the key.
abbrev pub IsFree : Option String → View → Type 0
IsFree none v = Unit {0}
IsFree (some key) v = (j : String) (m : Notification) → v j ≡ some m → m.idempotency_key ≢ some key

-- No two stored notifications have the same key.
abbrev pub HasUniqueKeys : View → Type 0
HasUniqueKeys v =
    (i j : String) (n m : Notification) (key : String)
    → v i ≡ some n
    → v j ≡ some m
    → n.idempotency_key ≡ some key
    → m.idempotency_key ≡ some key
    → i ≡ j

-- A repository whose `Create` and `CreateBatch` store nothing under a key that is in use.
pub record RefusesUsedKeys {S : Type 0} (repo : NotificationRepository S) (c : IsRepository repo)
    : Type 0 where
  pub creates :
      (n : Notification) (s : S)
      → c.IsValid s
      → let s' = (repo.create n s).1 in
        Same (c.view s) (c.view s')
        ⊎ (Added n (c.view s) (c.view s') × IsFree n.idempotency_key (c.view s))
  pub creates_batch :
      (id : String) (ns : List Notification) (s : S)
      → c.IsValid s
      → let s' = (repo.create_batch id ns s).1 in
        Same (c.view s) (c.view s')
        ⊎ AddedAll (λ n v. IsFree n.idempotency_key v) ns (c.view s) (c.view s')

-- Where a notification comes from that is stored after a change.
cell-before :
    (C : Change) (o o' : Option Notification) (n' : Notification)
    → ((n m : Notification) → C n m → IsSameMessage n m)
    → ChangedCell C o o'
    → o' ≡ some n'
    → (n : Notification) × (o ≡ some n) × (n'.idempotency_key ≡ n.idempotency_key)
cell-before C none o' n' same h at = absurd (cc)
cell-before C (some n) o' n' same (m, is, change) at =
    let e : n' ≡ m = ground arith in (n, refl, rw e (same n m change).idempotency_key)

Changed-before :
    (C : Change) (id : String) (v v' : View) (j : String) (n' : Notification)
    → ((n m : Notification) → C n m → IsSameMessage n m)
    → Same v v' ⊎ Changed C id v v'
    → v' j ≡ some n'
    → (n : Notification) × (v j ≡ some n) × (n'.idempotency_key ≡ n.idempotency_key)
Changed-before C id v v' j n' same (inl kept) at = (n', sym (kept j) ∙ at, refl)
Changed-before C id v v' j n' same (inr ch) at = elim (Bool-cases (str_eq j id)) [
  | inl hit ↦
      let e = (eq_iff j id).0 hit in
      let (n, there, key) = cell-before C (v id) (v' id) n' same ch.here (sym (ap v' e) ∙ at) in
      (n, ap v e ∙ there, key)
  | inr miss ↦ (n', sym (ch.elsewhere j (ground (arith, eq_iff j id))) ∙ at, refl)
]

either-HasUniqueKeys :
    (C : Change) (id : String) (v v' : View)
    → ((n m : Notification) → C n m → IsSameMessage n m)
    → Same v v' ⊎ Changed C id v v'
    → HasUniqueKeys v
    → HasUniqueKeys v'
either-HasUniqueKeys C id v v' same either unique i j n m key at_i at_j key_i key_j =
    let (n₀, was_i, kept_i) = Changed-before C id v v' i n same either at_i in
    let (m₀, was_j, kept_j) = Changed-before C id v v' j m same either at_j in
    unique i j n₀ m₀ key was_i was_j (sym kept_i ∙ key_i) (sym kept_j ∙ key_j)

pub Same-HasUniqueKeys : {v v' : View} → Same v v' → HasUniqueKeys v → HasUniqueKeys v'
Same-HasUniqueKeys same unique i j n m key at_i at_j key_i key_j =
    unique i j n m key (sym (same i) ∙ at_i) (sym (same j) ∙ at_j) key_i key_j

-- A notification of the view after an insertion is the inserted one, or one from before.
Added-before :
    (n : Notification) (v v' : View)
    → Added n v v'
    → (j : String) (m : Notification) → v' j ≡ some m
    → ((j ≡ n.id) × (m.idempotency_key ≡ n.idempotency_key)) ⊎ (v j ≡ some m)
Added-before n v v' added j m at = elim (Bool-cases (str_eq j n.id)) [
  | inl hit ↦
      let e = (eq_iff j n.id).0 hit in
      let (m', is, same) = added.stored in
      let same_m : m ≡ m' = ground (arith, at, is, ap v' e) in
      inl (e, rw same_m same.0.idempotency_key)
  | inr miss ↦ inr (sym (added.elsewhere j (ground (arith, eq_iff j n.id))) ∙ at)
]

free_key :
    (o : Option String) (v : View) (key : String)
    → IsFree o v
    → o ≡ some key
    → (j : String) (m : Notification) → v j ≡ some m
    → m.idempotency_key ≢ some key
free_key none v key free e j m at = absurd (cc)
free_key (some k) v key free e j m at =
    let same : k ≡ key = ground arith in rw (← same) (free j m at)

Added-HasUniqueKeys :
    (n : Notification) (v v' : View)
    → Added n v v'
    → IsFree n.idempotency_key v
    → HasUniqueKeys v
    → HasUniqueKeys v'
Added-HasUniqueKeys n v v' added free unique i j a b key at_i at_j key_i key_j =
    elim (Added-before n v v' added i a at_i) [
      | inl (is_i, same_i) ↦ elim (Added-before n v v' added j b at_j) [
        | inl (is_j, same_j) ↦ is_i ∙ sym is_j
        | inr old_j ↦
            absurd (free_key n.idempotency_key v key free (sym same_i ∙ key_i) j b old_j key_j)
      ]
      | inr old_i ↦ elim (Added-before n v v' added j b at_j) [
        | inl (is_j, same_j) ↦
            absurd (free_key n.idempotency_key v key free (sym same_j ∙ key_j) i a old_i key_i)
        | inr old_j ↦ unique i j a b key old_i old_j key_i key_j
      ]
    ]

AddedAll-HasUniqueKeys :
    (ns : List Notification) (v v' : View)
    → AddedAll (λ n u. IsFree n.idempotency_key u) ns v v'
    → HasUniqueKeys v
    → HasUniqueKeys v'
AddedAll-HasUniqueKeys [] v v' same unique = Same-HasUniqueKeys same unique
AddedAll-HasUniqueKeys (n ∷ ns) v v' (u, added, free, rest) unique =
    AddedAll-HasUniqueKeys ns u v' rest (Added-HasUniqueKeys n v u added free unique)

module _ {S : Type 0} (repo : NotificationRepository S) (c : IsRepository repo)
    (refuses : RefusesUsedKeys repo c) where
  open c use {view, IsValid, writes}

  -- No write of such a repository makes two stored notifications have one key.
  pub write-HasUniqueKeys :
      (x : Write) (s : S)
      → IsValid s
      → HasUniqueKeys (view s)
      → HasUniqueKeys (view (call repo x s).1)
  write-HasUniqueKeys (Write.create n) s valid unique = elim (refuses.creates n s valid) [
    | inl same ↦ Same-HasUniqueKeys same unique
    | inr (added, free) ↦ Added-HasUniqueKeys n (view s) _ added free unique
  ]
  write-HasUniqueKeys (Write.update_status id status) s valid unique =
      either-HasUniqueKeys (Becomes status) id (view s) _ (λ n m h. h.0)
        (Wrote-either (Becomes status) id (view s) _ _
          (writes (Write.update_status id status) s valid).1)
        unique
  write-HasUniqueKeys (Write.mark_sent id msg_id at) s valid unique =
      either-HasUniqueKeys (BecomesSent msg_id at) id (view s) _ (λ n m h. h.0)
        (Wrote-either (BecomesSent msg_id at) id (view s) _ _
          (writes (Write.mark_sent id msg_id at) s valid).1)
        unique
  write-HasUniqueKeys (Write.mark_failed id text) s valid unique =
      either-HasUniqueKeys (BecomesFailed text) id (view s) _ (λ n m h. h.0)
        (Wrote-either (BecomesFailed text) id (view s) _ _
          (writes (Write.mark_failed id text) s valid).1)
        unique
  write-HasUniqueKeys (Write.schedule_retry id count at text) s valid unique =
      either-HasUniqueKeys (BecomesRetried count at text) id (view s) _ (λ n m h. h.0)
        (Wrote-either (BecomesRetried count at text) id (view s) _ _
          (writes (Write.schedule_retry id count at text) s valid).1)
        unique
  write-HasUniqueKeys (Write.cancel id) s valid unique =
      either-HasUniqueKeys (Becomes cancelled) id (view s) _ (λ n m h. h.0)
        (Wrote-either (Becomes cancelled) id (view s) _ _ (writes (Write.cancel id) s valid).1)
        unique
  write-HasUniqueKeys (Write.update_batch_counts id) s valid unique =
      Same-HasUniqueKeys (writes (Write.update_batch_counts id) s valid).1 unique

  -- Nor does a batch.
  pub batch-HasUniqueKeys :
      (id : String) (ns : List Notification) (s : S)
      → IsValid s
      → HasUniqueKeys (view s)
      → HasUniqueKeys (view (repo.create_batch id ns s).1)
  batch-HasUniqueKeys id ns s valid unique = elim (refuses.creates_batch id ns s valid) [
    | inl same ↦ Same-HasUniqueKeys same unique
    | inr added ↦ AddedAll-HasUniqueKeys ns (view s) _ added unique
  ]
