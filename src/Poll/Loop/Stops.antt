-- ===== src/Poll/Loop/Stops.antt =====
-- What the loops of the two background workers leave when they return.
use event_driven_arch.Common.{ℕ, zero, suc, ◌≡◌, inl, inr, refl, ◌∙◌, List, ◌∷◌, false, arith, sym}
use event_driven_arch.Common.Int.{pos, leb_ℤ}
use event_driven_arch.Domain.Entities.{Duration, Notification}
use event_driven_arch.Repository.{NotificationRepository}
use event_driven_arch.Repository.Contract.{View, IsRetriable, IsScheduled, IsRepository}
use event_driven_arch.Service.{System}
use event_driven_arch.Poll.{poll_retries, poll_scheduled}
use event_driven_arch.Poll.Laws.{
  Requeued, Becomes-trans, poll_retries-Ticked, poll_scheduled-Ticked,
}
use event_driven_arch.Poll.Loop.{
  Signal, tick, ctx_done, Ended, stopped, loop, with_ticker, run_retries, run_scheduled,
}

Requeued-trans :
    (P : Notification → Type 0) (u v w : View) → Requeued P u v → Requeued P v w → Requeued P u w
Requeued-trans P u v w first second j = elim (first j) [
  | inl kept ↦ elim (second j) [
    | inl same ↦ inl (same ∙ kept)
    | inr (n, n', was, is, p, became) ↦ inr (n, n', sym kept ∙ was, is, p, became)
  ]
  | inr (n, m, was, mid, p, became) ↦ elim (second j) [
    | inl same ↦ inr (n, m, was, same ∙ mid, p, became)
    | inr (m', k, mid', is, p', became') ↦
        inr (n, k, was, is, p, Becomes-trans n m k became (ground arith))
  ]
]

-- `n` ticks, and then the end of the context, before anything else.
abbrev pub ticks_then_done : ℕ → List Signal → List Signal
ticks_then_done zero rest = ctx_done ∷ rest
ticks_then_done (suc n) rest = tick ∷ ticks_then_done n rest

module _ {S : Type 0} (repo : NotificationRepository S) (R : IsRepository repo) where
  -- The loop returned from the state `s`, and what it left.
  abbrev pub Stopped : (Notification → Type 0) → System S → Ended S → Type 0
  Stopped P s ended =
      (s' : System S) × (ended ≡ stopped s')
      × R.IsValid s'.db
      × Requeued P (R.view s.db) (R.view s'.db)

  -- A tick that keeps the database valid and only requeues.
  abbrev Ticks : (Notification → Type 0) → (System S → System S) → Type 0
  Ticks P poll =
      (s : System S)
      → R.IsValid s.db
      → R.IsValid (poll s).db × Requeued P (R.view s.db) (R.view (poll s).db)

  loop-Stopped :
      (P : Notification → Type 0) (poll : System S → System S)
      → Ticks P poll
      → (n : ℕ) (rest : List Signal) (s : System S) → R.IsValid s.db
      → Stopped P s (loop poll (ticks_then_done n rest) s)
  unfolding loop
  loop-Stopped P poll ticks zero rest s valid = (s, refl, valid, λ j. inl refl)
  loop-Stopped P poll ticks (suc n) rest s valid =
      let (valid', moved) = ticks s valid in
      let (s', ends, valid2, moved2) = loop-Stopped P poll ticks n rest (poll s) valid' in
      (s', ends, valid2, Requeued-trans P _ _ _ moved moved2)

  with_ticker-Stopped :
      (P : Notification → Type 0) (poll : System S → System S) (interval : Duration)
      → Ticks P poll
      → (n : ℕ) (rest : List Signal) (s : System S) → leb_ℤ interval (pos 0) ≡ false
      → R.IsValid s.db
      → Stopped P s (with_ticker (leb_ℤ interval (pos 0)) poll (ticks_then_done n rest) s)
  unfolding with_ticker
  with_ticker-Stopped P poll interval ticks n rest s positive valid =
      rw positive (loop-Stopped P poll ticks n rest s valid)

  -- Over any repository that meets the contract: with a positive interval, the loops of the retry
  -- worker and of the scheduler return when the context is cancelled after any number of ticks. A
  -- stored notification is then as it was, or it had failed with an attempt left (was scheduled)
  -- and is queued, with its retry count and its next time as they were.
  pub runs-Stopped :
      (interval : Duration) (n : ℕ) (rest : List Signal) (s : System S)
      → leb_ℤ interval (pos 0) ≡ false
      → R.IsValid s.db
      → Stopped IsRetriable s (run_retries repo interval (ticks_then_done n rest) s)
        × Stopped IsScheduled s (run_scheduled repo interval (ticks_then_done n rest) s)
  unfolding run_retries run_scheduled
  runs-Stopped interval n rest s positive valid = (
    with_ticker-Stopped IsRetriable (poll_retries repo) interval
        (λ t v. let (v', moved, _, _) = poll_retries-Ticked repo R t v in (v', moved)) n rest s
        positive valid,
    with_ticker-Stopped IsScheduled (poll_scheduled repo) interval
        (λ t v. let (v', moved, _, _) = poll_scheduled-Ticked repo R t v in (v', moved)) n rest s
        positive valid,
  )
