-- ===== src/Queue/Dequeue.antt =====
-- What `Dequeue` promises: high items first, and when it waits.
use event_driven_arch.Common.{
  ◌≡◌, ◌↔◌, ◌⊎◌, inl, inr, Bool, true, false, List, [], ◌∷◌, Option, none, some, arith, List-cases,
}
use event_driven_arch.Queue.{
  Item, PriorityQueue, Lane, high, normal, low, lane, Case, from, ctx_done, dequeue, poll_high,
  select,
}
use event_driven_arch.Queue.Buffered.{try_recv}

-- A call takes the head of a lane.
abbrev pub Takes : Lane → PriorityQueue → Item → PriorityQueue → Type 0
Takes high q item q' =
    (q.high.waiting ≡ item ∷ q'.high.waiting)
    × (q'.high.capacity ≡ q.high.capacity)
    × (q'.normal ≡ q.normal)
    × (q'.low ≡ q.low)
Takes normal q item q' =
    (q.normal.waiting ≡ item ∷ q'.normal.waiting)
    × (q'.normal.capacity ≡ q.normal.capacity)
    × (q'.high ≡ q.high)
    × (q'.low ≡ q.low)
Takes low q item q' =
    (q.low.waiting ≡ item ∷ q'.low.waiting)
    × (q'.low.capacity ≡ q.low.capacity)
    × (q'.high ≡ q.high)
    × (q'.normal ≡ q.normal)

select_cases :
    (c : Case) (done : Bool) (q : PriorityQueue) (r : Option Item) (q' : PriorityQueue)
    → select c done q ≡ some (r, q')
    → ((l : Lane) × (item : Item) × (r ≡ some item) × Takes l q item q')
      ⊎ ((r ≡ none) × (done ≡ true) × (q' ≡ q))
unfolding select try_recv
select_cases (from high) done q r q' e = elim (List-cases q.high.waiting) [
  | inl empty ↦ absurd (ground arith)
  | inr (item, rest, found) ↦ inl (high, item, ground arith, ground arith)
]
select_cases (from normal) done q r q' e = elim (List-cases q.normal.waiting) [
  | inl empty ↦ absurd (ground arith)
  | inr (item, rest, found) ↦ inl (normal, item, ground arith, ground arith)
]
select_cases (from low) done q r q' e = elim (List-cases q.low.waiting) [
  | inl empty ↦ absurd (ground arith)
  | inr (item, rest, found) ↦ inl (low, item, ground arith, ground arith)
]
select_cases ctx_done done q r q' e = inr (ground arith)

select-none_iff :
    (l : Lane) (done : Bool) (q : PriorityQueue)
    → (select (from l) done q ≡ none) ↔ ((lane l q).waiting ≡ [])
unfolding select try_recv
select-none_iff high done q = ground arith
select-none_iff normal done q = ground arith
select-none_iff low done q = ground arith

module _ (others : PriorityQueue → PriorityQueue) (c : Case) (done : Bool) (q : PriorityQueue) where
  -- While a high item waits, `Dequeue` returns the oldest one, whatever case the second select
  -- would take, whatever else waits, and whether or not the context is cancelled.
  pub dequeue-high_first :
      (item : Item) (rest : List Item)
      → q.high.waiting ≡ item ∷ rest
      → (q' : PriorityQueue) × (dequeue others c done q ≡ some (some item, q'))
        × Takes high q item q'
  unfolding dequeue poll_high try_recv
  dequeue-high_first item rest e =
      (record q { high = record q.high { waiting = rest } }, ground arith, ground arith)

  -- An item of a lower lane is returned only if no high item waited when the call began; it is the
  -- oldest of its lane. `(Item{}, false)` is returned only under a cancelled context, and leaves
  -- the queue as the other goroutines left it.
  pub dequeue_cases :
      (r : Option Item) (q' : PriorityQueue)
      → dequeue others c done q ≡ some (r, q')
      → ((item : Item) × (r ≡ some item) × Takes high q item q')
        ⊎ ((q.high.waiting ≡ [])
            × (((l : Lane) × (item : Item) × (r ≡ some item) × Takes l (others q) item q')
                ⊎ ((r ≡ none) × (done ≡ true) × (q' ≡ others q))))
  unfolding dequeue poll_high try_recv
  dequeue_cases r q' e = elim (List-cases q.high.waiting) [
    | inr (item, rest, found) ↦ inl (item, ground arith, ground arith)
    | inl empty ↦ inr (empty, select_cases c done (others q) r q' (ground arith))
  ]

-- `Dequeue` waits, no case being ready, exactly when no high item waited at its start, every lane
-- is empty at the second select, and the context is not cancelled.
pub dequeue_waits_iff :
    (others : PriorityQueue → PriorityQueue) (done : Bool) (q : PriorityQueue)
    → ((c : Case) → dequeue others c done q ≡ none)
      ↔ ((q.high.waiting ≡ []) × ((l : Lane) → (lane l (others q)).waiting ≡ []) × (done ≡ false))
unfolding dequeue poll_high try_recv select
dequeue_waits_iff others done q = (
  λ h.
      let empty : q.high.waiting ≡ [] = ground (arith, h ctx_done) in
      (
        empty,
        λ l. (select-none_iff l done (others q)).0 (ground (arith, h (from l))),
        ground (arith, h ctx_done),
      ),
  λ h c. waits c h,
)
  where
    waits :
        (c : Case)
        → (q.high.waiting ≡ []) × ((l : Lane) → (lane l (others q)).waiting ≡ []) × (done ≡ false)
        → dequeue others c done q ≡ none
    waits (from l) h = ground (arith, (select-none_iff l done (others q)).1 (h.1 l))
    waits ctx_done h = ground arith
