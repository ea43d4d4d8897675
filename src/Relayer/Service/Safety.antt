-- ===== src/Relayer/Service/Safety.antt =====
-- Safety of the action service in every run: one lease, jobs that only advance, one submission.
use mathlib.Core.Option.{some-injective}
use midnight_referendum_app.Base.{
  ◌≤◌, ◌≡◌, refl, sym, ◌∙◌, subst, true, false, Option, some, List, [], ◌∷◌, arith, All, Bool-cases,
  inl, inr,
}
use midnight_referendum_app.Base.Text.{Text, text_eq, text_eq_iff, includes}
use midnight_referendum_app.Base.Maps.{get, get-set}
use midnight_referendum_app.Relayer.Types.{finalized, submitted, Job}
use midnight_referendum_app.Relayer.Store.{
  Store, ok, transition, consume_capability, patched, status_in,
}
use midnight_referendum_app.Relayer.Store.Invariant.{
  IsValid, transition_cases, transition-IsValid, reserve_dust-IsValid,
}
use midnight_referendum_app.Relayer.Store.Create.{create_or_get-IsValid}
use midnight_referendum_app.Relayer.Store.Advance.{
  stage, Advances, Grows, Grows-refl, Grows-trans, Grows-of_jobs, transition-Grows,
  reserve_dust-Grows, create_or_get-Grows, consume_capability-jobs,
}
use midnight_referendum_app.Relayer.Service.State.{Service, empty_service}
use midnight_referendum_app.Relayer.Service.Wallet.{set_status}
use midnight_referendum_app.Relayer.Service.Events.{Event, step, run_events}
use midnight_referendum_app.Relayer.Service.Moves.{claim, Move-IsForward, Move-EntersNoLease}
use midnight_referendum_app.Relayer.Service.Effects.{
  StoreStep, stays, creates, reserves, consumes, moves, ServiceStep, quiet, submits,
}
use midnight_referendum_app.Relayer.Service.Steps.{step-ServiceStep}

IsValid-of_jobs : (s t : Store) → t.jobs ≡ s.jobs → IsValid s → IsValid t
IsValid-of_jobs s t e v = record {
  keyed = rw e v.keyed;
  distinct = rw e v.distinct;
  journaled = rw e v.journaled;
  lease = rw e v.lease;
}

StoreStep-IsValid : {s t : Store} → StoreStep s t → IsValid s → IsValid t
StoreStep-IsValid stays v = v
StoreStep-IsValid {s} {t} (creates input job fresh e) v =
    create_or_get-IsValid input s job fresh t v e
StoreStep-IsValid (reserves id reservation_id now) v =
    reserve_dust-IsValid id reservation_id now _ v
StoreStep-IsValid {s} (consumes r) v =
    IsValid-of_jobs s (consume_capability r s).1 (consume_capability-jobs r s) v
StoreStep-IsValid {s} {t} (moves {expected} {patch} m id now result e) v =
    transition-IsValid id expected patch now s result t (Move-EntersNoLease m) v e

StoreStep-Grows : {s t : Store} → StoreStep s t → Grows s t
StoreStep-Grows {s} stays = Grows-refl s
StoreStep-Grows {s} {t} (creates input job fresh e) = create_or_get-Grows input s job fresh t e
StoreStep-Grows {s} (reserves id reservation_id now) = reserve_dust-Grows id reservation_id now s
StoreStep-Grows {s} (consumes r) =
    Grows-of_jobs s (consume_capability r s).1 (consume_capability-jobs r s)
StoreStep-Grows {s} {t} (moves {expected} {patch} m id now result e) =
    transition-Grows id expected patch now s result t (Move-IsForward m) e

-- The step on the store, whatever became of the submissions.
pub store_step : {s t : Service} → ServiceStep s t → StoreStep s.store t.store
store_step (quiet st _) = st
store_step (submits id now job e _) = moves claim id now (some job) e

-- A job that was submitted, or that is past its submission.
abbrev pub IsSubmitted : Store → Text → Type 0
IsSubmitted store id = (job : Job) × (get store.jobs id ≡ some job) × (4 ≤ stage job.status)

abbrev pub Unique : List Text → Type 0
Unique [] = Unit
Unique (x ∷ xs) = (includes xs x ≡ false) × Unique xs

pub record IsOnce (s : Service) : Type 0 where
  pub past : All (IsSubmitted s.store) s.submissions
  pub unique : Unique s.submissions

IsSubmitted-Grows : (s t : Store) (id : Text) → Grows s t → IsSubmitted s id → IsSubmitted t id
IsSubmitted-Grows s t id g (job, found, late) =
    let (job', found', a) = g id job found in (job', found', omega (arith, a.forward))

past-Grows :
    (s t : Store) (ids : List Text) → Grows s t → All (IsSubmitted s) ids → All (IsSubmitted t) ids
past-Grows s t [] g h = tt
past-Grows s t (id ∷ ids) g (here, h) = (IsSubmitted-Grows s t id g here, past-Grows s t ids g h)

All-includes :
    (P : Text → Type 0) (ids : List Text) (id : Text) → All P ids → includes ids id ≡ true → P id
All-includes P [] id h e = cc
All-includes P (j ∷ ids) id (here, h) e = elim (Bool-cases (text_eq j id)) [
  | inl hit ↦ subst P ((text_eq_iff j id).0 hit) here
  | inr miss ↦ All-includes P ids id h (rw miss at e)
]

-- What the claim that precedes a submission found and left.
claim_lem :
    (id now : Text) (job : Job) (s t : Store)
    → transition id (finalized ∷ []) (set_status submitted) now s ≡ ok (some job, t)
    → (¬ IsSubmitted s id) × IsSubmitted t id
claim_lem id now job s t e =
    elim (transition_cases id (finalized ∷ []) (set_status submitted) now s (some job) t e) [
      | inl (missed, _) ↦ absurd (ground arith)
      | inr (old, receipt, expects, _, _, w) ↦ (
        λ sub.
            let same : old ≡ sub.0 = some-injective old sub.0 (sym w.found ∙ sub.1) in
            let late : 4 ≤ stage old.status =
              subst (λ (j : Job). 4 ≤ stage j.status) (sym same) sub.2 in
            not_late old expects late,
        (
          patched old (set_status submitted) receipt now,
          rw (
            w.jobs,
            get-set s.jobs id id (patched old (set_status submitted) receipt now),
            (text_eq_iff id id).1 refl,
          ),
          omega arith,
        ),
      )
    ]
  where
    not_late : (old : Job) → status_in (finalized ∷ []) old.status ≡ true → 4 ≤ stage old.status → ⊥
    not_late old h l = ground arith

ServiceStep-IsOnce : {s t : Service} → ServiceStep s t → IsOnce s → IsOnce t
ServiceStep-IsOnce {s} {t} (quiet st e) o = record {
  past = rw e (past-Grows s.store t.store s.submissions (StoreStep-Grows st) o.past);
  unique = rw e o.unique;
}
ServiceStep-IsOnce {s} {t} (submits id now job e f) o =
    let (before, after) = claim_lem id now job s.store t.store e in
    let fresh : includes s.submissions id ≡ false = elim (Bool-cases (includes s.submissions id)) [
      | inl hit ↦ absurd (before (All-includes (IsSubmitted s.store) s.submissions id o.past hit))
      | inr miss ↦ miss
    ] in
    record {
      past = rw f (
        after,
        past-Grows s.store t.store s.submissions (StoreStep-Grows (moves claim id now (some job) e))
            o.past,
      );
      unique = rw f (fresh, o.unique);
    }

-- The service as a process finds it on a persisted store.
abbrev pub booted : Store → Service
booted store = record empty_service { store = store }

module _ (transaction_id : Text → Option Text) where
  run_events-IsOnce :
      (es : List Event) (s : Service) → IsOnce s → IsOnce (run_events transaction_id es s)
  unfolding run_events
  run_events-IsOnce [] s o = o
  run_events-IsOnce (e ∷ es) s o =
      run_events-IsOnce es (step transaction_id e s)
        (ServiceStep-IsOnce (step-ServiceStep transaction_id e s) o)

  -- Whatever the order of requests, wallet steps, timers, indexer answers and restarts: no action is
  -- submitted twice, and every action that was submitted is stored as submitted or past it.
  pub run_events-Unique :
      (es : List Event) (store : Store)
      → (Unique (run_events transaction_id es (booted store)).submissions)
        × (All
            (IsSubmitted (run_events transaction_id es (booted store)).store)
            (run_events transaction_id es (booted store)).submissions)
  run_events-Unique es store =
      let o = run_events-IsOnce es (booted store) (record { past = tt; unique = tt }) in
      (o.unique, o.past)

  -- A run keeps the store valid: keys, idempotency keys and request hashes stay distinct, each
  -- journal ends with its job's status, and at most one job holds the DUST lease.
  pub run_events-IsValid :
      (es : List Event) (s : Service)
      → IsValid s.store
      → IsValid (run_events transaction_id es s).store
  unfolding run_events
  run_events-IsValid [] s v = v
  run_events-IsValid (e ∷ es) s v =
      run_events-IsValid es (step transaction_id e s)
        (StoreStep-IsValid (store_step (step-ServiceStep transaction_id e s)) v)

  run_events-Grows :
      (es : List Event) (s : Service) → Grows s.store (run_events transaction_id es s).store
  unfolding run_events
  run_events-Grows [] s = Grows-refl s.store
  run_events-Grows (e ∷ es) s =
      Grows-trans s.store (step transaction_id e s).store
        (run_events transaction_id es (step transaction_id e s)).store
        (StoreStep-Grows (store_step (step-ServiceStep transaction_id e s)))
        (run_events-Grows es (step transaction_id e s))

  -- A run loses no job, and a job only advances: its request never changes, its status never goes
  -- back, its journal is only appended to, and once it is final its record is frozen.
  pub run_events-Advances :
      (es : List Event) (s : Service) (id : Text) (job : Job)
      → get s.store.jobs id ≡ some job
      → (job' : Job) × (get (run_events transaction_id es s).store.jobs id ≡ some job')
        × Advances job job'
  run_events-Advances es s id job found = run_events-Grows es s id job found
