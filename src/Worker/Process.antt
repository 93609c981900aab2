-- ===== src/Worker/Process.antt =====
-- What one call of `process` leaves behind.
use event_driven_arch.Common.{
  String, ◌≡◌, ◌≢◌, ◌⊎◌, inl, inr, Bool, true, false, List, [], ◌∷◌, ◌++◌, Option, none, some,
  arith, ok, err, refl,
}
use event_driven_arch.Domain.Errors.{Err, Error, Result, errors_is, not_found}
use event_driven_arch.Domain.Entities.{Duration, processing, cancelled, Notification}
use event_driven_arch.Queue.{Item}
use event_driven_arch.Repository.{NotificationRepository}
use event_driven_arch.Repository.Contract.{
  View, Same, Changed, Becomes, BecomesSent, Wrote, Found, Write, IsRepository,
}
use event_driven_arch.Repository.Contract.Laws.{Same-Wrote}
use event_driven_arch.Worker.{
  SendResponse, Surroundings, World, on_sent, on_failed, is_cancelled, spawned, count_failure,
  count_sent, after_send, deliver, marked_processing, unless_cancelled, fetched, process,
}
use event_driven_arch.Worker.Failure.{Rejected, Same-Rejected, handle_failure-Rejected}

module _ {S : Type 0} where
  -- The call reached neither the provider nor a hook.
  abbrev pub IsQuiet : World S → World S → Type 0
  IsQuiet s s' = (s'.sends ≡ s.sends) × (s'.metrics ≡ s.metrics) × (s'.jobs ≡ s.jobs)

-- The status was updated, and the limiter granted a token.
abbrev pub HasStarted : Surroundings → Err → Notification → Type 0
HasStarted w marked n = (marked ≡ ok tt) × (w.wait n.channel ≡ some (ok tt))

module _ (backoff : List Duration) (w : Surroundings) where
  -- The ways in which a call for the notification `n` ends, from the view `v`; `marked` is the answer
  -- to the update of its status to `processing`.
  pub data Processed {S : Type 0} (view : S → View) (n : Notification) (v : View) (marked : Err)
      (s s' : World S) : Type 0 where
    skipped :
        n.status ≡ cancelled → Same v (view s'.db) → IsQuiet s s' → Processed view n v marked s s'
    unmarked :
        (e : Error)
        → marked ≡ err e
        → is_cancelled n.status ≡ false
        → Same v (view s'.db) ⊎ Changed (Becomes processing) n.id v (view s'.db)
        → IsQuiet s s'
        → Processed view n v marked s s'
    stopped :
        (e : Error)
        → is_cancelled n.status ≡ false
        → w.wait n.channel ≡ some (err e)
        → marked ≡ ok tt
        → Changed (Becomes processing) n.id v (view s'.db)
        → IsQuiet s s'
        → Processed view n v marked s s'
    delivered :
        (u : View) (resp : SendResponse)
        → HasStarted w marked n
        → is_cancelled n.status ≡ false
        → w.send n ≡ ok resp
        → Changed (Becomes processing) n.id v u
        → Changed (BecomesSent resp.message_id w.now) n.id u (view s'.db)
        → s'.sends ≡ s.sends ++ n ∷ []
        → s'.metrics ≡ s.metrics ++ on_sent n.channel w.elapsed ∷ []
        → s'.jobs ≡ s.jobs ++ spawned n.batch_id
        → Processed view n v marked s s'
    unrecorded :
        (u : View) (resp : SendResponse)
        → HasStarted w marked n
        → is_cancelled n.status ≡ false
        → w.send n ≡ ok resp
        → Changed (Becomes processing) n.id v u
        → Same u (view s'.db) ⊎ Changed (BecomesSent resp.message_id w.now) n.id u (view s'.db)
        → s'.sends ≡ s.sends ++ n ∷ []
        → s'.metrics ≡ s.metrics
        → s'.jobs ≡ s.jobs
        → Processed view n v marked s s'
    rejected :
        (u : View) (e : Error)
        → HasStarted w marked n
        → is_cancelled n.status ≡ false
        → w.send n ≡ err e
        → Changed (Becomes processing) n.id v u
        → Rejected backoff w n e u (view s'.db)
        → s'.sends ≡ s.sends ++ n ∷ []
        → s'.metrics ≡ s.metrics ++ on_failed n.channel ∷ []
        → s'.jobs ≡ s.jobs
        → Processed view n v marked s s'

module _ {S : Type 0} (repo : NotificationRepository S) (c : IsRepository repo)
    (backoff : List Duration) (w : Surroundings) where
  open c use {view, IsValid, keyed, writes, gets}

  -- The answer to the update of the status, after the lookup.
  abbrev pub marking : String → Notification → World S → Err
  marking id n s = (repo.update_status n.id processing (repo.get_by_id id s.db).1).0

  -- The limiter has no entry for the channel, which is a panic.
  abbrev pub Panics : Notification → Err → Option (World S) → Type 0
  Panics n started o =
      (o ≡ none) × (w.wait n.channel ≡ none) × (is_cancelled n.status ≡ false) × (started ≡ ok tt)

  -- A call ends in one of those ways, or in that panic.
  abbrev pub Ends : Notification → View → Err → World S → Option (World S) → Type 0
  Ends n v started s o =
      ((s' : World S) × (o ≡ some s') × IsValid s'.db × Processed backoff w view n v started s s')
      ⊎ Panics n started o

  count_sent-Ends :
      (n : Notification) (u v : View) (started : Err) (s t : World S) (resp : SendResponse)
      (r : Err) (db : S)
      → HasStarted w started n
      → is_cancelled n.status ≡ false
      → w.send n ≡ ok resp
      → Changed (Becomes processing) n.id v u
      → t.sends ≡ s.sends ++ n ∷ []
      → t.metrics ≡ s.metrics
      → t.jobs ≡ s.jobs
      → IsValid db × Wrote (BecomesSent resp.message_id w.now) n.id u (view db) r
      → Ends n v started s (some (count_sent repo backoff w n t (r, db)))
  unfolding count_sent
  count_sent-Ends n u v st s t resp (ok _) db go live sent marked es em ej (valid, wrote) =
      inl (_, refl, valid, delivered u resp go live sent marked wrote es (cc) (cc))
  count_sent-Ends n u v st s t resp (err _) db go live sent marked es em ej (valid, wrote) =
      inl (_, refl, valid, unrecorded u resp go live sent marked wrote es em ej)

  count_failure-Ends :
      (n : Notification) (u v : View) (started : Err) (s t : World S) (e : Error) (o : Option S)
      → HasStarted w started n
      → is_cancelled n.status ≡ false
      → w.send n ≡ err e
      → Changed (Becomes processing) n.id v u
      → t.sends ≡ s.sends ++ n ∷ []
      → t.metrics ≡ s.metrics
      → t.jobs ≡ s.jobs
      → (db : S) × (o ≡ some db) × IsValid db × Rejected backoff w n e u (view db)
      → Ends n v started s (count_failure repo backoff n t o)
  unfolding count_failure
  count_failure-Ends n u v st s t e none go live sent marked es em ej (db, panics, _, _) =
      absurd (cc)
  count_failure-Ends n u v st s t e (some db') go live sent marked es em ej
        (db, at, valid, effect) =
      let same : db' ≡ db = cc in
      inl (_, refl, rw same valid, rejected u e go live sent marked (rw same effect) es (cc) ej)

  after_send-Ends :
      (n : Notification) (u v : View) (started : Err) (s t : World S) (r : Result SendResponse)
      → HasStarted w started n
      → backoff ≢ []
      → IsValid t.db
      → is_cancelled n.status ≡ false
      → w.send n ≡ r
      → Changed (Becomes processing) n.id v u
      → Same u (view t.db)
      → t.sends ≡ s.sends ++ n ∷ []
      → t.metrics ≡ s.metrics
      → t.jobs ≡ s.jobs
      → Ends n v started s (after_send repo backoff w n r t)
  unfolding after_send
  after_send-Ends n u v st s t (ok resp) go some_delay valid live answer marked same es em ej =
      let (valid', wrote) = writes (Write.mark_sent n.id resp.message_id w.now) t.db valid in
      count_sent-Ends n u v st s t resp _ _ go live answer marked es em ej
        (valid', Same-Wrote _ n.id u _ _ _ same wrote)
  after_send-Ends n u v st s t (err e) go some_delay valid live answer marked same es em ej =
      let (db, at, valid', effect) =
        handle_failure-Rejected repo c backoff w n e t.db some_delay valid in
      count_failure-Ends n u v st s t e _ go live answer marked es em ej
        (db, at, valid', Same-Rejected backoff w n e same effect)

  deliver-Ends :
      (n : Notification) (v : View) (started : Err) (s t : World S) (r : Option Err)
      → started ≡ ok tt
      → backoff ≢ []
      → IsValid t.db
      → is_cancelled n.status ≡ false
      → w.wait n.channel ≡ r
      → Changed (Becomes processing) n.id v (view t.db)
      → IsQuiet s t
      → Ends n v started s (deliver repo backoff w n r t)
  unfolding deliver
  deliver-Ends n v st s t none go some_delay valid live waited marked quiet =
      inr (refl, waited, live, go)
  deliver-Ends n v st s t (some (err e)) go some_delay valid live waited marked quiet =
      inl (t, refl, valid, stopped e live waited go marked quiet)
  deliver-Ends n v st s t (some (ok _)) go some_delay valid live waited marked (es, em, ej) =
      after_send-Ends n (view t.db) v st s _ (w.send n) (go, waited) some_delay valid live refl
        marked (λ j. refl) (cc) em ej

  marked_processing-Ends :
      (n : Notification) (v : View) (s t : World S) (r : Err) (db : S)
      → backoff ≢ []
      → is_cancelled n.status ≡ false
      → IsQuiet s t
      → IsValid db × Wrote (Becomes processing) n.id v (view db) r
      → Ends n v r s (marked_processing repo backoff w n t (r, db))
  unfolding marked_processing
  marked_processing-Ends n v s t (err e) db some_delay live quiet (valid, wrote) =
      inl (_, refl, valid, unmarked e refl live wrote quiet)
  marked_processing-Ends n v s t (ok _) db some_delay live quiet (valid, wrote) =
      deliver-Ends n v (ok tt) s _ (w.wait n.channel) refl some_delay valid live refl wrote quiet

  unless_cancelled-Ends :
      (b : Bool) (n : Notification) (v : View) (s t : World S)
      → backoff ≢ []
      → is_cancelled n.status ≡ b
      → IsQuiet s t
      → IsValid t.db
      → Same v (view t.db)
      → Ends n v
          (repo.update_status n.id processing t.db).0
          s
          (unless_cancelled repo backoff b w n t)
  unfolding unless_cancelled
  unless_cancelled-Ends true n v s t some_delay dead quiet valid same =
      inl (t, refl, valid, skipped (ground arith) same quiet)
  unless_cancelled-Ends false n v s t some_delay live quiet valid same =
      let (valid', wrote) = writes (Write.update_status n.id processing) t.db valid in
      marked_processing-Ends n v s t _ _ some_delay live quiet
        (valid', Same-Wrote _ n.id v _ _ _ same wrote)

  -- The notification that the lookup found, and how the call ended for it; or that the lookup failed.
  abbrev pub Handled : String → World S → World S → Type 0
  Handled id s s' =
      ((n : Notification) × ((repo.get_by_id id s.db).0 ≡ ok n)
        × (view s.db id ≡ some n)
        × Processed backoff w view n (view s.db) (marking id n s) s s')
      ⊎ ((e : Error) × ((repo.get_by_id id s.db).0 ≡ err e)
          × ((errors_is e not_found ≡ true) → view s.db id ≡ none)
          × Same (view s.db) (view s'.db)
          × IsQuiet s s')

  -- The call found a notification for whose channel there is no limiter.
  abbrev pub FoundUnlimited : String → World S → Type 0
  FoundUnlimited id s =
      (n : Notification) × ((repo.get_by_id id s.db).0 ≡ ok n)
      × (view s.db id ≡ some n)
      × (is_cancelled n.status ≡ false)
      × (marking id n s ≡ ok tt)
      × (w.wait n.channel ≡ none)

  abbrev pub Outcome : String → World S → Option (World S) → Type 0
  Outcome id s o =
      ((s' : World S) × (o ≡ some s') × IsValid s'.db × Handled id s s')
      ⊎ ((o ≡ none) × FoundUnlimited id s)

  fetched-Outcome :
      (id : String) (s : World S) (r : Result Notification)
      → backoff ≢ []
      → (repo.get_by_id id s.db).0 ≡ r
      → IsValid (repo.get_by_id id s.db).1
        × Same (view s.db) (view (repo.get_by_id id s.db).1)
        × Found id (view s.db) r
      → Outcome id s (fetched repo backoff w s (r, (repo.get_by_id id s.db).1))
  unfolding fetched
  fetched-Outcome id s (err e) some_delay is (valid, same, missing) =
      inl (_, refl, valid, inr (e, is, missing, same, (refl, refl, refl)))
  fetched-Outcome id s (ok n) some_delay is (valid, same, found) =
      elim (unless_cancelled-Ends (is_cancelled n.status) n (view s.db) s _ some_delay refl
        (refl, refl, refl) valid same) [
          | inl (s', at, valid', ended) ↦ inl (s', at, valid', inl (n, is, found, ended))
          | inr (panics, unlimited, live, started) ↦
              inr (panics, (n, is, found, live, started, unlimited))
        ]

  pub process-Handled :
      (item : Item) (s : World S)
      → backoff ≢ []
      → IsValid s.db
      → Outcome item.notification_id s (process repo backoff w item s)
  unfolding process
  process-Handled item s some_delay valid =
      fetched-Outcome item.notification_id s _ some_delay refl
        (gets item.notification_id s.db valid)
