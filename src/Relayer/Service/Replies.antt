-- ===== src/Relayer/Service/Replies.antt =====
-- What a step of a call in flight does to the store and to the submissions.
use midnight_referendum_app.Base.{
  ◌≡◌, refl, Bool, ◌&&◌, Option, none, some, List, [], ◌∷◌, arith, Bool-cases, inl, inr, subst, sym,
  ap,
}
use midnight_referendum_app.Base.Text.{Text}
use midnight_referendum_app.Base.Maps.{get}
use midnight_referendum_app.Relayer.Types.{Job, Reservation}
use midnight_referendum_app.Relayer.Store.{
  Store, Result, ok, conflict, invalid, create_or_get, consume_capability, get_by_idempotency_key,
}
use midnight_referendum_app.Relayer.Service.State.{
  Service, Answers, Admission, Asker, timer, reader, receipt_reader, Call, creating, checking,
  consuming, replaying, reading, reconciling, resolving, confirming, refusing, rereading, starting,
  Resolved, receipt, lagging, contract_mismatch, indexer_refused, outage, is_submitted,
  has_transaction,
}
use midnight_referendum_app.Relayer.Service.Calls.{
  call_step, admit, created, checked, consumed, answer, read, reconciled, resolved, recover,
  next_start,
}
use midnight_referendum_app.Relayer.Service.Moves.{replay, confirm, refuse, recover as recovers}
use midnight_referendum_app.Relayer.Service.Effects.{
  StoreStep, stays, creates, consumes, ServiceStep, quiet, Keeps, quiet_if, Keeps-ServiceStep,
  after_transition-quiet,
}

pub admit-Keeps :
    (a : Admission) (job : Job) (fresh : Bool) (s : Service) → Keeps s (admit a job fresh s)
unfolding admit
admit-Keeps a job fresh s = ground arith

pub created-step :
    (a : Admission) (s : Service) (r : Result ((Job × Bool) × Store))
    → create_or_get a.input s.store ≡ r
    → ServiceStep s (created a s r)
unfolding created
created-step a s (ok ((job, fresh), t)) e =
    quiet_if s (record s { store = t }) _ (creates a.input job fresh e) refl (ground arith)
created-step a s conflict e = quiet stays refl
created-step a s invalid e = quiet stays refl

pub checked-Keeps :
    (a : Admission) (job : Job) (fresh : Bool) (s : Service) (by_key : Option Job)
    → Keeps s (checked a job fresh s by_key)
unfolding checked
checked-Keeps a job fresh s by_key = ground (arith, admit-Keeps a job fresh s)

pub consumed-step :
    (a : Admission) (job : Job) (fresh : Bool) (s : Service) (r : Reservation) (p : Bool × Store)
    → p ≡ consume_capability r s.store
    → ServiceStep s (consumed a job fresh s p)
unfolding consumed
consumed-step a job fresh s r (done, t) e =
    quiet_if s (record s { store = t }) _
      (subst (StoreStep s.store) (ap (λ (q : Bool × Store). q.1) (sym e)) (consumes r)) refl
      (ground (arith, admit-Keeps a job fresh (record s { store = t })))

pub answer-Keeps : (asker : Asker) (job : Option Job) (s : Service) → Keeps s (answer asker job s)
unfolding answer
answer-Keeps timer job s = ground arith
answer-Keeps reader none s = ground arith
answer-Keeps reader (some job) s = ground arith
answer-Keeps receipt_reader none s = ground arith
answer-Keeps receipt_reader (some job) s = ground arith

pub read-Keeps :
    (asker : Asker) (id : Text) (s : Service) (job : Option Job) → Keeps s (read asker id s job)
unfolding read
read-Keeps timer id s none = answer-Keeps timer none s
read-Keeps reader id s none = answer-Keeps reader none s
read-Keeps receipt_reader id s none = answer-Keeps receipt_reader none s
read-Keeps timer id s (some job) = ground arith
read-Keeps reader id s (some job) = ground arith
read-Keeps receipt_reader id s (some job) = ground arith

pub reconciled-Keeps :
    (asker : Asker) (id : Text) (s : Service) (job : Option Job)
    → Keeps s (reconciled asker id s job)
unfolding reconciled
reconciled-Keeps asker id s none = ground arith
reconciled-Keeps asker id s (some job) = ground arith

pub resolved-Keeps :
    (asker : Asker) (job : Job) (s : Service) (r : Resolved) → Keeps s (resolved asker job s r)
unfolding resolved
resolved-Keeps asker job s (receipt v) = ground arith
resolved-Keeps asker job s contract_mismatch = ground arith
resolved-Keeps asker job s indexer_refused = ground arith
resolved-Keeps asker job s lagging = ground arith
resolved-Keeps asker job s outage = ground arith

pub recover-step : (jobs : List Job) (a : Answers) (s : Service) → ServiceStep s (recover jobs a s)
unfolding recover
recover-step [] a s = quiet stays refl
recover-step (job ∷ jobs) a s = elim (Bool-cases (is_submitted job.status && has_transaction job)) [
  | inl sent ↦ rw sent (quiet stays refl)
  | inr unsent ↦ rw unsent (
      after_transition-quiet recovers job.id a.now s _ (next_start jobs) (λ u. u) refl
        (λ u. record { store = refl; submissions = refl })
        (λ u. record { store = refl; submissions = refl }))
]

pub call-ServiceStep : (a : Answers) (s : Service) (c : Call) → ServiceStep s (call_step a s c)
unfolding call_step
call-ServiceStep a s (creating admission) = created-step admission s _ refl
call-ServiceStep a s (checking admission job fresh) = Keeps-ServiceStep s _ (
    checked-Keeps admission job fresh s
      (get_by_idempotency_key admission.input.idempotency_key s.store))
call-ServiceStep a s (consuming admission job fresh) = consumed-step admission job fresh s _ _ refl
call-ServiceStep a s (replaying admission job) =
    after_transition-quiet replay job.id a.now s _ _ _ refl
      (λ u. record { store = refl; submissions = refl })
      (λ u. record { store = refl; submissions = refl })
call-ServiceStep a s (reading asker id) =
    Keeps-ServiceStep s _ (read-Keeps asker id s (get s.store.jobs id))
call-ServiceStep a s (reconciling asker id) =
    Keeps-ServiceStep s _ (reconciled-Keeps asker id s (get s.store.jobs id))
call-ServiceStep a s (resolving asker job) =
    Keeps-ServiceStep s _ (resolved-Keeps asker job s a.resolved)
call-ServiceStep a s (confirming asker id v) =
    after_transition-quiet (confirm v) id a.now s _ _ _ refl
      (λ u. record { store = refl; submissions = refl })
      (λ u. record { store = refl; submissions = refl })
call-ServiceStep a s (refusing asker id code) =
    after_transition-quiet (refuse code) id a.now s _ _ _ refl
      (λ u. record { store = refl; submissions = refl })
      (λ u. record { store = refl; submissions = refl })
call-ServiceStep a s (rereading asker id) =
    Keeps-ServiceStep s _ (answer-Keeps asker (get s.store.jobs id) s)
call-ServiceStep a s (starting jobs) = recover-step jobs a s
