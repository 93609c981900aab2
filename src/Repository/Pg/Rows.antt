-- ===== src/Repository/Pg/Rows.antt =====
-- The table of notifications, its rows by id, and an update of one of them.
use event_driven_arch.Common.{
  String, ◌≡◌, ◌≢◌, ◌↔◌, inl, inr, refl, true, false, List, [], ◌∷◌, Option, none, some, arith,
  eq_iff, eq_refl, select, head?, All, All-map, any, Option-cases,
}
use event_driven_arch.Domain.Entities.{Notification}
use event_driven_arch.Repository.Contract.{View, Change, Changed, Wrote, Added, Stored}
use event_driven_arch.Repository.Contract.Laws.{to_micros-twice, map_micros-twice}
use event_driven_arch.Repository.Pg.{
  has_id, has_key, touched, update_rows, update_by_id, update, plain, points_to, inserted,
}
use event_driven_arch.Repository.Pg.Statements.{Pg, Fate, works, refused, lost, send, meet, writing}

-- The row with an id.
abbrev pub row : String → List Notification → Option Notification
row id rows = head? (select (has_id id) rows)

abbrev pub view : Pg → View
view p id = row id p.rows

-- The primary key.
abbrev pub IsDistinct : List Notification → Type 0
IsDistinct [] = Unit {0}
IsDistinct (n ∷ ns) = (row n.id ns ≡ none) × IsDistinct ns

module _ (id : String) (f : Notification → Notification)
    (keep : (n : Notification) → (f n).id ≡ n.id) where
  row-update_some :
      (rows : List Notification) (n : Notification)
      → row id rows ≡ some n
      → row id (update_rows id f rows) ≡ some (f n)
  unfolding update_rows
  row-update_some [] n e = cc
  row-update_some (m ∷ rows) n e =
      ground (arith, keep m, eq_iff m.id id, eq_iff (f m).id id, row-update_some rows n)

  row-update_none :
      (j : String) (rows : List Notification)
      → row j rows ≡ none
      → row j (update_rows id f rows) ≡ none
  unfolding update_rows
  row-update_none j [] e = refl
  row-update_none j (m ∷ rows) e =
      ground (arith, keep m, eq_iff m.id j, eq_iff (f m).id j, row-update_none j rows)

  row-update_ne :
      (j : String) (rows : List Notification) → j ≢ id → row j (update_rows id f rows) ≡ row j rows
  unfolding update_rows
  row-update_ne j [] h = refl
  row-update_ne j (m ∷ rows) h =
      ground
        (arith, keep m, eq_iff m.id j, eq_iff m.id id, eq_iff (f m).id j, row-update_ne j rows h)

  update_rows-IsDistinct :
      (rows : List Notification) → IsDistinct rows → IsDistinct (update_rows id f rows)
  unfolding update_rows
  update_rows-IsDistinct [] d = tt
  update_rows-IsDistinct (m ∷ rows) d = ground (
    arith,
    keep m,
    row-update_none m.id rows,
    row-update_none (f m).id rows,
    update_rows-IsDistinct rows d.1,
  )

  update_rows-Changed :
      (C : Change) (rows rows' : List Notification)
      → rows' ≡ update_rows id f rows
      → ((n : Notification) → C n (f n))
      → Changed C id (λ j. row j rows) (λ j. row j rows')
  update_rows-Changed C rows rows' e each = record {
    here = elim (Option-cases (row id rows)) [
      | inl missing ↦ rw (e, missing, row-update_none id rows missing)
      | inr (n, found) ↦ rw (e, found, row-update_some rows n found) (f n, refl, each n)
    ];
    elsewhere = λ j other. rw e (row-update_ne j rows other);
  }

-- One update by id, whatever its fate.
pub update-writes :
    (C : Change) (id : String) (f : Notification → Notification) (p : Pg)
    → ((n : Notification) → C n (touched p.now f n))
    → ((n : Notification) → (f n).id ≡ n.id)
    → IsDistinct p.rows
    → let (result, p') = update id f p in IsDistinct p'.rows × Wrote C id (view p) (view p') result
unfolding update plain update_by_id send
update-writes C id f p each keep d = fates p.fates
  where
    after : IsDistinct (update_rows id (touched p.now f) p.rows)
    after = update_rows-IsDistinct id (touched p.now f) keep p.rows d

    changed :
        Changed C id (λ j. row j p.rows) (λ j. row j (update_rows id (touched p.now f) p.rows))
    changed = update_rows-Changed id (touched p.now f) keep C p.rows _ refl each

    fates :
        (fs : List Fate)
        → let (r, p') = meet fs (writing (update_by_id id f)) p in
          IsDistinct p'.rows × Wrote C id (view p) (view p') (plain r)
    fates [] = (after, changed)
    fates (works ∷ fs) = (after, changed)
    fates (refused e ∷ fs) = (d, inl (λ j. refl))
    fates (lost e ∷ fs) = (after, inr changed)

pub points_to_iff : (o : Option String) (key : String) → (points_to o key ≡ true) ↔ (o ≡ some key)
points_to_iff none key = ground arith
points_to_iff (some k) key = ground (arith, eq_iff k key)

-- The first row with a key, if ids are distinct.
pub keyed-row :
    (key : String) (rows : List Notification) (n : Notification)
    → IsDistinct rows
    → head? (select (has_key key) rows) ≡ some n
    → (row n.id rows ≡ some n) × (n.idempotency_key ≡ some key)
keyed-row key [] n d e = cc
keyed-row key (m ∷ rows) n d e =
    ground (arith, points_to_iff m.idempotency_key key, eq_iff m.id n.id, keyed-row key rows n d.1)

pub unkeyed-row :
    (key : String) (rows : List Notification) (j : String) (n : Notification)
    → head? (select (has_key key) rows) ≡ none
    → row j rows ≡ some n
    → n.idempotency_key ≢ some key
unkeyed-row key [] j n h e = cc
unkeyed-row key (m ∷ rows) j n h e =
    ground (arith, points_to_iff m.idempotency_key key, unkeyed-row key rows j n)

pub row-id :
    (id : String) (rows : List Notification) (n : Notification) → row id rows ≡ some n → n.id ≡ id
row-id id [] n e = cc
row-id id (m ∷ rows) n e = ground (arith, eq_iff m.id id, row-id id rows n)

-- Every row of a table with distinct ids is the one that its id shows.
pub rows-shown :
    (rows : List Notification) → IsDistinct rows → All (λ n. row n.id rows ≡ some n) rows
rows-shown [] d = tt
rows-shown (m ∷ rows) d = (
  rw (eq_refl m.id) refl,
  All-map _ _ rows (λ n shown. ground (arith, eq_iff m.id n.id)) (rows-shown rows d.1),
)

pub any-row :
    (id : String) (rows : List Notification) → any (has_id id) rows ≡ false → row id rows ≡ none
any-row id [] h = refl
any-row id (m ∷ rows) h = ground (arith, any-row id rows)

inserted-Stored : (n : Notification) → Stored n (inserted n)
unfolding inserted
inserted-Stored n = (
  record {
    id = refl;
    batch_id = refl;
    channel = refl;
    recipient = refl;
    content = refl;
    priority = refl;
    idempotency_key = refl;
    max_retries = refl;
    scheduled_at = map_micros-twice n.scheduled_at;
    created_at = to_micros-twice n.created_at;
  },
  refl,
  refl,
)

pub insert-Added :
    (n : Notification) (rows : List Notification)
    → Added n (λ j. row j rows) (λ j. row j (inserted n ∷ rows))
unfolding inserted
insert-Added n rows = record {
  stored = (inserted n, rw (eq_refl n.id) refl, inserted-Stored n);
  elsewhere = λ j other. ground (arith, eq_iff n.id j);
}
