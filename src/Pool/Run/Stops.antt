-- ===== src/Pool/Run/Stops.antt =====
-- What the workers of internal/worker/pool.go owe as they start, as they run, and after the context is
-- cancelled.
use event_driven_arch.Common.{
  ℕ, Bool, zero, suc, ◌+◌, ◌*◌, ◌≤◌, ◌≡◌, ◌≢◌, ◌⊎◌, inl, inr, refl, true, List, [], ◌∷◌, ◌++◌,
  String, arith, length, length-append, All, Option-cases, ap, ◌∙◌,
}
use event_driven_arch.Domain.Errors.{Error}
use event_driven_arch.Pool.{PoolWorker}
use event_driven_arch.Pool.Run
use event_driven_arch.Pool.Run.{
  Phase, free, busy, returned, Crew, CrewStep, take_high, take, request, next, leave, launch,
  launch_all, start, meanwhile, Runs, Closing, IsWaitOver,
}
use event_driven_arch.Pool.Run.Budget.{
  Owes, AllOwe, still, remaining, IsManned, budget, CrewStep-Spent, length-replace,
}
use event_driven_arch.Queue.{ctx_done, poll_high, select}
use event_driven_arch.Repository.{NotificationRepository}
use event_driven_arch.Runtime
use event_driven_arch.Runtime.{Code, return, Shared}
use event_driven_arch.Runtime.Bounds.{Within}
use event_driven_arch.Runtime.Ends.{IsRequest, IsUnlimited}
use event_driven_arch.Worker.{Surroundings}

abbrev pub HasDelay : PoolWorker → Type 0
HasDelay w = w.backoff ≢ []

AllOwe-snoc :
    (xs : List Phase) (w : PoolWorker) (m : ℕ)
    → w.backoff ≢ []
    → AllOwe m xs
    → AllOwe (m + 1) (xs ++ free w ∷ [])
AllOwe-snoc [] w m some_delay owes = (1, 0, omega arith, (refl, some_delay), refl)
AllOwe-snoc (x ∷ xs) w m some_delay (a, b, e, owed, owes) =
    (a, b + 1, omega arith, owed, AllOwe-snoc xs w b some_delay owes)

remaining-snoc :
    (xs : List Phase) (w : PoolWorker) → remaining (xs ++ free w ∷ []) ≡ remaining xs + 1
remaining-snoc [] w = refl
remaining-snoc (x ∷ xs) w = omega (arith, remaining-snoc xs w)

zero-cases : (n : ℕ) → (n ≡ 0) ⊎ (n ≢ 0)
zero-cases zero = inl refl
zero-cases (suc n) = inr (λ e. omega arith)

-- No worker owes more than ten steps.
pub AllOwe-bound : (xs : List Phase) (m : ℕ) → AllOwe m xs → m ≤ 10 * length xs
AllOwe-bound [] m owes = omega arith
AllOwe-bound (free w ∷ xs) m (a, b, e, owed, owes) =
    let one = owed.0 in omega (arith, AllOwe-bound xs b owes)
AllOwe-bound (busy w k ∷ xs) m (a, b, e, (d, is, most, within, some_delay), owes) =
    omega (arith, AllOwe-bound xs b owes)
AllOwe-bound (returned ∷ xs) m (a, b, e, owed, owes) = omega (arith, AllOwe-bound xs b owes)

-- A worker that has not returned.
remaining-some :
    (xs : List Phase) (m : ℕ)
    → AllOwe m xs
    → remaining xs ≢ 0
    → (before : List Phase) × (x : Phase) × (after : List Phase) × (xs ≡ before ++ x ∷ after)
      × ((a : ℕ) × Owes a x)
      × (still x ≡ 1)
remaining-some [] m owes some_left = absurd (some_left refl)
remaining-some (free w ∷ xs) m (a, b, e, owed, owes) some_left =
    ([], free w, xs, refl, (a, owed), refl)
remaining-some (busy w k ∷ xs) m (a, b, e, owed, owes) some_left =
    ([], busy w k, xs, refl, (a, owed), refl)
remaining-some (returned ∷ xs) m (a, b, e, owed, owes) some_left =
    let (before, x, after, at, owes_x, open_x) =
      remaining-some xs b owes (λ e. some_left (omega arith)) in
    (returned ∷ before, x, after, ap (◌∷◌ returned) at, owes_x, open_x)

-- Code that does not panic makes a request, or it has returned.
Within-split :
    (P : Type 0) (n : ℕ) (k : Code (Unit {0})) → Within P n k → (k ≡ return tt) ⊎ IsRequest k
Within-split P n (return a) within = inl refl
Within-split P n Runtime.panic within = absurd within
Within-split P n (Runtime.write x k) within = inr tt
Within-split P n (Runtime.write_batch id ns k) within = inr tt
Within-split P n (Runtime.get id k) within = inr tt
Within-split P n (Runtime.get_by_key key k) within = inr tt
Within-split P n (Runtime.find_retries k) within = inr tt
Within-split P n (Runtime.find_scheduled k) within = inr tt
Within-split P n (Runtime.put item k) within = inr tt
Within-split P n (Runtime.wait channel k) within = inr tt
Within-split P n (Runtime.send m k) within = inr tt
Within-split P n (Runtime.clock k) within = inr tt
Within-split P n (Runtime.measure m k) within = inr tt
Within-split P n (Runtime.go batches k) within = inr tt

module _ {S : Type 0} (repo : NotificationRepository S) (error_text : Error → String) where
  -- A worker is about to panic: it asks for a token of a channel for which the limiter has no entry.
  abbrev pub Panics : Surroundings → Crew S → Type 0
  Panics around p =
      (before : List Phase) × (after : List Phase) × (w : PoolWorker) × (k : Code (Unit {0}))
      × (p.phases ≡ before ++ busy w k ∷ after)
      × IsUnlimited around k

  Unlimited-cases :
      (around : Surroundings) (k : Code (Unit {0}))
      → IsUnlimited around k ⊎ (¬ IsUnlimited around k)
  Unlimited-cases around (Runtime.wait channel k) = elim (Option-cases (around.wait channel)) [
    | inl unlimited ↦ inl unlimited
    | inr (r, limited) ↦ inr (λ e. cc)
  ]
  Unlimited-cases around _ = inr (λ e. e)

  -- While a worker has not returned, one of them can go on, or is about to panic.
  can_go_on :
      (around : Surroundings) (p : Crew S)
      → IsManned p
      → p.counter ≢ 0
      → ((p' : Crew S) × CrewStep repo error_text true p p') ⊎ Panics around p
  unfolding select
  can_go_on around p m some_left =
      let (before, x, after, at, owes, open_x) =
        remaining-some p.phases m.owed m.owes (λ e. some_left (m.counted ∙ e)) in
      step before after x at owes open_x
    where
      step :
          (before after : List Phase) (x : Phase)
          → p.phases ≡ before ++ x ∷ after
          → ((a : ℕ) × Owes a x)
          → still x ≡ 1
          → ((p' : Crew S) × CrewStep repo error_text true p p') ⊎ Panics around p
      step before after (free w) at owes e = elim (Option-cases (poll_high p.shared.queue)) [
        | inl empty ↦ inl (_, leave before after w ctx_done p.shared.queue at refl)
        | inr ((item, q), taken) ↦ inl (_, take_high before after w item q at taken)
      ]
      step before after (busy w k) at (a, (d, is, most, within, some_delay)) e =
          elim (Within-split ⊥ d k within) [
            | inl done ↦ inl (_, next before after w (rw (← done) at))
            | inr asks ↦ elim (Unlimited-cases around k) [
              | inl unlimited ↦ inr (before, after, w, k, at, unlimited)
              | inr limited ↦ inl (_, request around before after w k at asks limited)
            ]
          ]
      step before after returned at owes e = absurd (omega arith)

  pub can_go_on_or_over :
      (around : Surroundings) (p : Crew S)
      → IsManned p
      → IsWaitOver p ⊎ ((p' : Crew S) × CrewStep repo error_text true p p') ⊎ Panics around p
  can_go_on_or_over around p m = elim (zero-cases p.counter) [
    | inl over ↦ inl over
    | inr some_left ↦ inr (can_go_on around p m some_left)
  ]

  CrewStep-length :
      (done : Bool) (p p' : Crew S)
      → CrewStep repo error_text done p p'
      → length p'.phases ≡ length p.phases
  CrewStep-length done p _ (take_high before after w item q at taken) =
      rw at (length-replace before after (free w) _)
  CrewStep-length done p _ (take before after w k item q at taken) =
      rw at (length-replace before after (free w) _)
  CrewStep-length done p _ (request around before after w k at asks limited) =
      rw at (length-replace before after (busy w k) _)
  CrewStep-length done p _ (next before after w at) =
      rw at (length-replace before after (busy w (return tt)) _)
  CrewStep-length done p _ (leave before after w k q at left) =
      rw at (length-replace before after (free w) _)

  -- The crew is manned, and no worker is lost.
  abbrev pub IsCrew : ℕ → Crew S → Type 0
  IsCrew count p = IsManned p × (length p.phases ≡ count)

  meanwhile-IsManned :
      (p : Crew S) (others : Shared S → Shared S)
      → IsManned p
      → IsManned (meanwhile repo error_text p others)
  meanwhile-IsManned p others m = record { owed = m.owed; owes = m.owes; counted = m.counted }

  launch_all-IsCrew :
      (workers : List PoolWorker) (p : Crew S) (count : ℕ)
      → All HasDelay workers
      → IsCrew count p
      → IsCrew (count + length workers) (launch_all workers p)
  unfolding launch_all launch
  launch_all-IsCrew [] p count delays (m, e) = (m, omega arith)
  launch_all-IsCrew (w ∷ ws) p count (some_delay, delays) (m, e) =
      let (m', e') = launch_all-IsCrew ws (launch w p) (count + 1) delays (
        record {
          owed = m.owed + 1;
          owes = AllOwe-snoc p.phases w m.owed some_delay m.owes;
          counted = let c = m.counted in omega (arith, remaining-snoc p.phases w);
        },
        length-append p.phases (free w ∷ []) ∙ omega arith,
      ) in
      (m', omega arith)

  pub start-IsCrew :
      (workers : List PoolWorker) (s : Shared S)
      → All HasDelay workers
      → IsCrew (length workers) (start workers s)
  unfolding start
  start-IsCrew workers s delays =
      let (m, e) =
        launch_all-IsCrew workers _ 0 delays
          (record { owed = 0; owes = refl; counted = refl }, refl) in
      (m, omega arith)

  pub Runs-IsCrew :
      (count : ℕ) (p p' : Crew S) → Runs repo error_text p p' → IsCrew count p → IsCrew count p'
  Runs-IsCrew count p _ Run.here crew = crew
  Runs-IsCrew count p p'' (Run.later done others runs step) crew =
      let (m, e) = Runs-IsCrew count p _ runs crew in
      let (m', spent) =
        CrewStep-Spent repo error_text done _ p'' (meanwhile-IsManned _ others m) step in
      (m', CrewStep-length done _ p'' step ∙ e)

  -- What is left after a run of so many steps.
  pub Closing-Spent :
      (p : Crew S) (n : ℕ) (p' : Crew S) (m : IsManned p)
      → Closing repo error_text p n p'
      → (m' : IsManned p') × (n + budget p' m' ≤ budget p m)
  unfolding meanwhile-IsManned
  Closing-Spent p _ _ m Run.here = (m, omega arith)
  Closing-Spent p _ p'' m (Run.later others closing fewer step) =
      let (m', spent) = Closing-Spent p _ _ m closing in
      let (m2, less) =
        CrewStep-Spent repo error_text true _ p'' (meanwhile-IsManned _ others m') step in
      (m2, omega arith)
