-- ===== src/Relayer/Service/Stranded/Forever.antt =====
-- No event but a restart frees a stranded job.
use midnight_referendum_app.Base.{
  ℕ, zero, suc, ◌≡◌, refl, sym, ap, ◌∙◌, subst, Bool, true, false, Option, none, some, List, [],
  ◌∷◌, ◌++◌, arith, any, Option-cases, inl, inr,
}
use midnight_referendum_app.Base.Text.{Text, codes}
use midnight_referendum_app.Base.Maps.{get, values}
use midnight_referendum_app.Relayer.Types.{authorized, validated, Job, Reservation}
use midnight_referendum_app.Relayer.Store.{
  Store, Result, ok, conflict, invalid, reserve_dust, create_or_get, consume_capability,
  get_by_idempotency_key, is_other_lease,
}
use midnight_referendum_app.Relayer.Store.Holds.{create_or_get-Holds}
use midnight_referendum_app.Relayer.Store.Advance.{consume_capability-jobs}
use midnight_referendum_app.Relayer.Service.State.{
  Service, Wallet, idle, reserving, Transient, Answers, Admission, Asker, timer, reader,
  receipt_reader, Call, creating, checking, consuming, replaying, reading, reconciling, resolving,
  confirming, refusing, rereading, starting, Resolved, receipt, lagging, contract_mismatch,
  indexer_refused, outage, Timer, reconcile_later, run_later,
}
use midnight_referendum_app.Relayer.Service.Wallet.{wallet_step}
use midnight_referendum_app.Relayer.Service.Calls.{
  call_step, admit, created, checked, consumed, answer, read, reconciled, resolved,
}
use midnight_referendum_app.Relayer.Service.Events.{
  Event, request, ask, begin, wallet, call, fire, restart, take_at, begin_wallet, proceed, fired,
  step, run_events,
}
use midnight_referendum_app.Relayer.Service.Stranded.{
  IsStranded, is_starting, Calm, calm, stored, after_transition-IsStranded, wallet-IsStranded,
}

admit-Calm :
    (id : Text) (a : Admission) (job : Job) (fresh : Bool) (s : Service)
    → Calm id s (admit a job fresh s)
unfolding admit
admit-Calm id a job fresh s = ground arith

created-IsStranded :
    (id : Text) (a : Admission) (s : Service) (r : Result ((Job × Bool) × Store))
    → IsStranded id s
    → create_or_get a.input s.store ≡ r
    → IsStranded id (created a s r)
unfolding created
created-IsStranded id a s (ok ((job, fresh), t)) h e =
    calm id (record s { store = t }) _
      (stored id s t h (create_or_get-Holds id a.input s.store job fresh t e)) (ground arith)
created-IsStranded id a s conflict h e =
    calm id s _ h (record { store = refl; wallet = λ w. w; calls = λ c. c })
created-IsStranded id a s invalid h e =
    calm id s _ h (record { store = refl; wallet = λ w. w; calls = λ c. c })

checked-Calm :
    (id : Text) (a : Admission) (job : Job) (fresh : Bool) (s : Service) (by_key : Option Job)
    → Calm id s (checked a job fresh s by_key)
unfolding checked
checked-Calm id a job fresh s by_key = ground (arith, admit-Calm id a job fresh s)

consumed-IsStranded :
    (id : Text) (a : Admission) (job : Job) (fresh : Bool) (s : Service) (r : Reservation)
    (p : Bool × Store)
    → IsStranded id s
    → p ≡ consume_capability r s.store
    → IsStranded id (consumed a job fresh s p)
unfolding consumed
consumed-IsStranded id a job fresh s r (done, t) h e =
    let same : t.jobs ≡ s.store.jobs =
      ap (λ (q : Bool × Store). q.1.jobs) e ∙ consume_capability-jobs r s.store in
    calm id (record s { store = t }) _ (stored id s t h (λ old found _. rw same found))
      (ground (arith, admit-Calm id a job fresh (record s { store = t })))

answer-Calm :
    (id : Text) (asker : Asker) (job : Option Job) (s : Service) → Calm id s (answer asker job s)
unfolding answer
answer-Calm id timer job s = ground arith
answer-Calm id reader none s = ground arith
answer-Calm id reader (some job) s = ground arith
answer-Calm id receipt_reader none s = ground arith
answer-Calm id receipt_reader (some job) s = ground arith

read-Calm :
    (id : Text) (asker : Asker) (i : Text) (s : Service) (job : Option Job)
    → Calm id s (read asker i s job)
unfolding read
read-Calm id timer i s none = answer-Calm id timer none s
read-Calm id reader i s none = answer-Calm id reader none s
read-Calm id receipt_reader i s none = answer-Calm id receipt_reader none s
read-Calm id timer i s (some job) = ground arith
read-Calm id reader i s (some job) = ground arith
read-Calm id receipt_reader i s (some job) = ground arith

reconciled-Calm :
    (id : Text) (asker : Asker) (i : Text) (s : Service) (job : Option Job)
    → Calm id s (reconciled asker i s job)
unfolding reconciled
reconciled-Calm id asker i s none = ground arith
reconciled-Calm id asker i s (some job) = ground arith

resolved-Calm :
    (id : Text) (asker : Asker) (job : Job) (s : Service) (r : Resolved)
    → Calm id s (resolved asker job s r)
unfolding resolved
resolved-Calm id asker job s (receipt v) = ground arith
resolved-Calm id asker job s contract_mismatch = ground arith
resolved-Calm id asker job s indexer_refused = ground arith
resolved-Calm id asker job s lagging = ground arith
resolved-Calm id asker job s outage = ground arith

call-IsStranded :
    (id : Text) (a : Answers) (s : Service) (c : Call)
    → IsStranded id s
    → is_starting c ≡ false
    → IsStranded id (call_step a s c)
unfolding call_step
call-IsStranded id a s (creating admission) h e = created-IsStranded id admission s _ h refl
call-IsStranded id a s (checking admission job fresh) h e = calm id s _ h (
    checked-Calm id admission job fresh s
      (get_by_idempotency_key admission.input.idempotency_key s.store))
call-IsStranded id a s (consuming admission job fresh) h e =
    consumed-IsStranded id admission job fresh s _ _ h refl
call-IsStranded id a s (replaying admission job) h e =
    after_transition-IsStranded id job.id (authorized ∷ []) _ a.now s h refl _ _ _ refl
      (λ u. record { store = refl; wallet = λ w. w; calls = λ c. c })
      (λ u. record { store = refl; wallet = λ w. w; calls = λ c. c })
call-IsStranded id a s (reading asker i) h e =
    calm id s _ h (read-Calm id asker i s (get s.store.jobs i))
call-IsStranded id a s (reconciling asker i) h e =
    calm id s _ h (reconciled-Calm id asker i s (get s.store.jobs i))
call-IsStranded id a s (resolving asker job) h e =
    calm id s _ h (resolved-Calm id asker job s a.resolved)
call-IsStranded id a s (confirming asker i v) h e =
    after_transition-IsStranded id i _ _ a.now s h refl _ _ _ refl
      (λ u. record { store = refl; wallet = λ w. w; calls = λ c. c })
      (λ u. record { store = refl; wallet = λ w. w; calls = λ c. c })
call-IsStranded id a s (refusing asker i code) h e =
    after_transition-IsStranded id i _ _ a.now s h refl _ _ _ refl
      (λ u. record { store = refl; wallet = λ w. w; calls = λ c. c })
      (λ u. record { store = refl; wallet = λ w. w; calls = λ c. c })
call-IsStranded id a s (rereading asker i) h e =
    calm id s _ h (answer-Calm id asker (get s.store.jobs i) s)
call-IsStranded id a s (starting jobs) h e = cc

-- Taking one call out of those in flight.
take_at-any :
    (n : ℕ) (cs : List Call) (c : Call) (rest : List Call)
    → any is_starting cs ≡ false
    → take_at n cs ≡ some (c, rest)
    → (is_starting c ≡ false) × (any is_starting rest ≡ false)
take_at-any n [] c rest h e = absurd (ground arith)
take_at-any zero (d ∷ cs) c rest h e = ground arith
take_at-any (suc n) (d ∷ cs) c rest h e = elim (Option-cases (take_at n cs)) [
  | inl missing ↦ absurd (ground arith)
  | inr ((c', rest'), found) ↦ ground (arith, take_at-any n cs c' rest' (ground arith) found)
]

proceed-IsStranded :
    (id : Text) (n : ℕ) (a : Answers) (s : Service)
    → IsStranded id s
    → IsStranded id (proceed a s (take_at n s.calls))
unfolding proceed
proceed-IsStranded id n a s h = elim (Option-cases (take_at n s.calls)) [
  | inl missing ↦ rw missing h
  | inr ((c, rest), found) ↦
      let (quiet, others) = take_at-any n s.calls c rest h.calls found in
      rw found (
        call-IsStranded id a (record s { calls = rest }) c
          (record {
            job = h.job;
            found = h.found;
            waits = h.waits;
            wallet = h.wallet;
            calls = others;
          })
          quiet)
]

fired-Calm : (id : Text) (s : Service) (t : Option (Timer × List Timer)) → Calm id s (fired s t)
unfolding fired
fired-Calm id s none = ground arith
fired-Calm id s (some (reconcile_later i, timers)) = ground arith
fired-Calm id s (some (run_later i, timers)) = ground arith

begin_wallet-Calm :
    (id : Text) (s : Service) (w : Wallet) (queue : List Text) → Calm id s (begin_wallet s w queue)
unfolding begin_wallet
begin_wallet-Calm id s idle [] = ground arith
begin_wallet-Calm id s idle (i ∷ queue) = ground arith
begin_wallet-Calm id s _ queue = ground arith

abbrev pub is_restart : Event → Bool
is_restart restart = true
is_restart _ = false

module _ (transaction_id : Text → Option Text) (id : Text) where
  step-IsStranded :
      (e : Event) (s : Service)
      → is_restart e ≡ false
      → IsStranded id s
      → IsStranded id (step transaction_id e s)
  unfolding step
  step-IsStranded (request a) s r h =
      calm id s _ h (record { store = refl; wallet = λ w. w; calls = λ c. c })
  step-IsStranded (ask asker i) s r h =
      calm id s _ h (record { store = refl; wallet = λ w. w; calls = λ c. c })
  step-IsStranded begin s r h = calm id s _ h (begin_wallet-Calm id s s.wallet s.queue)
  step-IsStranded (wallet a) s r h = wallet-IsStranded transaction_id id a s s.wallet h refl
  step-IsStranded (call n a) s r h = proceed-IsStranded id n a s h
  step-IsStranded (fire n) s r h = calm id s _ h (fired-Calm id s (take_at n s.timers))
  step-IsStranded restart s r h = cc

  run_events-IsStranded :
      (es : List Event) (s : Service)
      → any is_restart es ≡ false
      → IsStranded id s
      → IsStranded id (run_events transaction_id es s)
  unfolding run_events
  run_events-IsStranded [] s r h = h
  run_events-IsStranded (e ∷ es) s r h =
      run_events-IsStranded es (step transaction_id e s) (ground arith)
        (step-IsStranded e s (ground arith) h)

  refused :
      (a : Answers) (p : Transient) (s : Service) (job : Job)
      → get s.store.jobs id ≡ some job
      → job.status ≡ validated
      → any is_starting s.calls ≡ false
      → any (is_other_lease id) (values s.store.jobs) ≡ true
      → IsStranded id (wallet_step transaction_id a s (reserving id p))
  unfolding wallet_step reserve_dust
  refused a p s job found waits calls busy =
      let refuse : reserve_dust id (id ++ codes ":" ++ a.fresh_id) a.now s.store ≡ (none, s.store) =
        ground arith in
      rw refuse (record { job = job; found = found; waits = waits; wallet = refl; calls = calls })

  -- A job whose stage asks for the DUST lease while another job holds it stays validated in every
  -- run that follows without a restart, whatever retries, timers, requests and indexer answers come:
  -- the stage that `scheduleRun` starts again takes up authorized jobs only.
  pub refused_reservation_strands :
      (a : Answers) (p : Transient) (es : List Event) (s : Service) (job : Job)
      → s.wallet ≡ reserving id p
      → get s.store.jobs id ≡ some job
      → job.status ≡ validated
      → any is_starting s.calls ≡ false
      → any (is_other_lease id) (values s.store.jobs) ≡ true
      → any is_restart es ≡ false
      → IsStranded id (run_events transaction_id (wallet a ∷ es) s)
  unfolding run_events step
  refused_reservation_strands a p es s job at found waits calls busy quiet =
      run_events-IsStranded es (wallet_step transaction_id a s s.wallet) quiet (
        subst (λ w. IsStranded id (wallet_step transaction_id a s w)) (sym at)
          (refused a p s job found waits calls busy))
