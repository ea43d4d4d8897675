-- ===== src/Relayer/Service/Stranded.antt =====
-- A job whose DUST reservation was refused: `scheduleRun` runs its stage again, which looks for an
-- authorized job and finds a validated one.
pub mod Forever
use mathlib.Core.Option.{some-injective}
use mathlib.Core.Bool.{false≢true}
use midnight_referendum_app.Base.{
  ℕ, zero, suc, ◌≡◌, refl, sym, ap, ◌∙◌, subst, ◌≢◌, Bool, true, false, not, ◌&&◌, ◌||◌, Option,
  none, some, List, [], ◌∷◌, ◌++◌, arith, any, is_some, if◌then◌else◌, Bool-cases, Option-cases,
  inl, inr,
}
use midnight_referendum_app.Base.Text.{Text, text_eq, text_eq_iff, codes, includes}
use midnight_referendum_app.Base.Maps.{Map, get, set, get-set}
use midnight_referendum_app.Relayer.Types.{
  Status, authorized, validated, dust_reserved, finalized, submitted, Job, NewJob, Patch,
  Reservation, status_eq, truthy,
}
use midnight_referendum_app.Relayer.Store.{
  Store, Result, ok, conflict, invalid, transition, status_in, patched, reserve_dust, reserved_job,
  create_or_get, consume_capability, get_by_idempotency_key,
}
use midnight_referendum_app.Relayer.Store.Holds.{
  Holds, transition-Holds, transition-apart, reserve_dust-Holds, create_or_get-Holds,
}
use midnight_referendum_app.Relayer.Store.Advance.{consume_capability-jobs, create_or_get-Grows}
use midnight_referendum_app.Relayer.Service.State.{
  Service, Wallet, idle, loading, validating, reserving, balancing, rejecting, finalizing, claiming,
  submitting, settling, Settlement, pending_with, unknown, mismatched, Transient, Answers,
  Admission, Asker, timer, reader, receipt_reader, Call, creating, checking, consuming, replaying,
  reading, reconciling, resolving, confirming, refusing, rereading, starting, Resolved, receipt,
  lagging, contract_mismatch, indexer_refused, outage, Timer, reconcile_later, run_later, run,
  is_submitted, has_transaction,
}
use midnight_referendum_app.Relayer.Service.Wallet.{
  wallet_step, loaded, moved, moved_on, reserved, balanced, settlement, settle, settled, set_status,
  fail_with,
}
use midnight_referendum_app.Relayer.Service.Calls.{
  call_step, admit, created, checked, consumed, after_transition, answer, read, reconciled,
  resolved, recover,
}
use midnight_referendum_app.Relayer.Service.Events.{
  Event, request, ask, begin, wallet, call, fire, restart, take_at, begin_wallet, proceed, fired,
  step, run_events,
}

abbrev pub is_reserving : Text → Wallet → Bool
is_reserving id (reserving i p) = text_eq i id
is_reserving id _ = false

abbrev pub is_starting : Call → Bool
is_starting (starting jobs) = true
is_starting _ = false

-- The job is validated, its stage is not about to reserve, and no recovery is under way.
pub record IsStranded (id : Text) (s : Service) : Type 0 where
  pub job : Job
  pub found : get s.store.jobs id ≡ some job
  pub waits : job.status ≡ validated
  pub wallet : is_reserving id s.wallet ≡ false
  pub calls : any is_starting s.calls ≡ false

-- Code that keeps away from the store, from a reservation of `id` and from a recovery.
record Calm (id : Text) (u v : Service) : Type 0 where
  store : v.store ≡ u.store
  wallet : is_reserving id u.wallet ≡ false → is_reserving id v.wallet ≡ false
  calls : any is_starting u.calls ≡ false → any is_starting v.calls ≡ false

calm : (id : Text) (u v : Service) → IsStranded id u → Calm id u v → IsStranded id v
calm id u v h c = record {
  job = h.job;
  found = rw c.store h.found;
  waits = h.waits;
  wallet = c.wallet h.wallet;
  calls = c.calls h.calls;
}

stored :
    (id : Text) (s : Service) (t : Store)
    → IsStranded id s
    → Holds id s.store t
    → IsStranded id (record s { store = t })
stored id s t h k = record {
  job = h.job;
  found = k h.job h.found h.waits;
  waits = h.waits;
  wallet = h.wallet;
  calls = h.calls;
}

module _ (id i : Text) (expected : List Status) (patch : Patch) (now : Text) (s : Service)
    (h : IsStranded id s) (other : status_in expected validated ≡ false) where
  moved-IsStranded :
      (r : Result (Option Job × Store)) (next : Service → Service)
      → transition i expected patch now s.store ≡ r
      → ((u : Service) → text_eq i id ≡ false → Calm id u (next u))
      → IsStranded id (moved i s r next)
  unfolding moved
  moved-IsStranded (ok (none, t)) next e k =
      calm id (record s { store = t }) _
        (stored id s t h (transition-Holds id i expected patch now s.store none t other e))
        (record { store = refl; wallet = λ _. refl; calls = λ c. c })
  moved-IsStranded (ok (some new, t)) next e k =
      calm id (record s { store = t }) _
        (stored id s t h (transition-Holds id i expected patch now s.store (some new) t other e))
        (k _ (transition-apart id i expected patch now s.store new h.job t other e h.found h.waits))
  moved-IsStranded conflict next e k =
      calm id s _ h (record { store = refl; wallet = λ _. refl; calls = λ c. c })
  moved-IsStranded invalid next e k =
      calm id s _ h (record { store = refl; wallet = λ _. refl; calls = λ c. c })

  moved_on-IsStranded :
      (r : Result (Option Job × Store)) (next : Service → Service)
      → transition i expected patch now s.store ≡ r
      → ((u : Service) → Calm id u (next u))
      → IsStranded id (moved_on i s r next)
  unfolding moved_on
  moved_on-IsStranded (ok (result, t)) next e k =
      calm id (record s { store = t }) _
        (stored id s t h (transition-Holds id i expected patch now s.store result t other e)) (k _)
  moved_on-IsStranded conflict next e k =
      calm id s _ h (record { store = refl; wallet = λ _. refl; calls = λ c. c })
  moved_on-IsStranded invalid next e k =
      calm id s _ h (record { store = refl; wallet = λ _. refl; calls = λ c. c })

  after_transition-IsStranded :
      (r : Result (Option Job × Store)) (next thrown_by : Service → Service)
      → transition i expected patch now s.store ≡ r
      → ((u : Service) → Calm id u (next u))
      → ((u : Service) → Calm id u (thrown_by u))
      → IsStranded id (after_transition s r next thrown_by)
  unfolding after_transition
  after_transition-IsStranded (ok (result, t)) next thrown_by e k l =
      calm id (record s { store = t }) _
        (stored id s t h (transition-Holds id i expected patch now s.store result t other e)) (k _)
  after_transition-IsStranded conflict next thrown_by e k l = calm id s _ h (l s)
  after_transition-IsStranded invalid next thrown_by e k l = calm id s _ h (l s)

settled-Calm : (id i : Text) (outcome : Settlement) (u : Service) → Calm id u (settled i outcome u)
settled-Calm id i (pending_with tx) u = record { store = refl; wallet = λ _. refl; calls = λ c. c }
settled-Calm id i unknown u = record { store = refl; wallet = λ _. refl; calls = λ c. c }
settled-Calm id i mismatched u = record { store = refl; wallet = λ _. refl; calls = λ c. c }

settlement-other : (outcome : Settlement) → status_in (submitted ∷ []) validated ≡ false
settlement-other outcome = refl

reserved-IsStranded :
    (id i reservation_id now : Text) (p : Transient) (s : Service) (r : Option Job × Store)
    → IsStranded id s
    → text_eq i id ≡ false
    → r ≡ reserve_dust i reservation_id now s.store
    → IsStranded id (reserved i p s r)
unfolding reserved
reserved-IsStranded id i reservation_id now p s (o, t) h apart e =
    let holds : Holds id s.store t =
      subst (Holds id s.store) (ap (λ (q : Option Job × Store). q.1) (sym e))
        (reserve_dust-Holds id i reservation_id now s.store apart) in
    let h' = stored id s t h holds in
    elim (Option-cases o) [
      | inl missing ↦ rw missing (
          calm id (record s { store = t }) _ h'
            (record { store = refl; wallet = λ _. refl; calls = λ c. c }))
      | inr (job, done) ↦ rw done (
          calm id (record s { store = t }) _ h'
            (record { store = refl; wallet = λ _. refl; calls = λ c. c }))
    ]

loaded-Calm :
    (id i : Text) (s : Service) (o : Option Job) (p : Option Transient) → Calm id s (loaded i s o p)
unfolding loaded
loaded-Calm id i s none p = ground arith
loaded-Calm id i s (some job) none = ground arith
loaded-Calm id i s (some job) (some p) = ground arith

balanced-Calm :
    (transaction_id : Text → Option Text) (id i : Text) (p : Transient) (s : Service)
    (o : Option Text)
    → Calm id s (balanced transaction_id i p s o)
unfolding balanced
balanced-Calm transaction_id id i p s none = ground arith
balanced-Calm transaction_id id i p s (some tx) = ground arith

wallet-IsStranded :
    (transaction_id : Text → Option Text) (id : Text) (a : Answers) (s : Service) (w : Wallet)
    → IsStranded id s
    → s.wallet ≡ w
    → IsStranded id (wallet_step transaction_id a s w)
unfolding wallet_step
wallet-IsStranded transaction_id id a s idle h e = h
wallet-IsStranded transaction_id id a s (loading i) h e =
    calm id s _ h (loaded-Calm id i s (get s.store.jobs i) (get s.transient i))
wallet-IsStranded transaction_id id a s (validating i p) h e =
    moved-IsStranded id i (authorized ∷ []) (set_status validated) a.now s h refl _ _ refl
      λ u apart. record { store = refl; wallet = λ _. apart; calls = λ c. c }
wallet-IsStranded transaction_id id a s (reserving i p) h e =
    reserved-IsStranded id i _ a.now p s _ h (subst (λ x. is_reserving id x ≡ false) e h.wallet)
      refl
wallet-IsStranded transaction_id id a s (balancing i p) h e =
    calm id s _ h (balanced-Calm transaction_id id i p s a.balanced)
wallet-IsStranded transaction_id id a s (rejecting i) h e =
    moved_on-IsStranded id i (dust_reserved ∷ []) _ a.now s h refl _ _ refl
      λ u. record { store = refl; wallet = λ _. refl; calls = λ c. c }
wallet-IsStranded transaction_id id a s (finalizing i tx derived) h e =
    moved_on-IsStranded id i (dust_reserved ∷ []) _ a.now s h refl _ _ refl
      λ u. record { store = refl; wallet = λ _. refl; calls = λ c. c }
wallet-IsStranded transaction_id id a s (claiming i tx derived) h e =
    moved-IsStranded id i (finalized ∷ []) (set_status submitted) a.now s h refl _ _ refl
      λ u apart. record { store = refl; wallet = λ _. refl; calls = λ c. c }
wallet-IsStranded transaction_id id a s (submitting i tx derived) h e =
    calm id s _ h (record { store = refl; wallet = λ _. refl; calls = λ c. c })
wallet-IsStranded transaction_id id a s (settling i outcome) h e =
    moved_on-IsStranded id i (submitted ∷ []) _ a.now s h refl _ _ refl (settled-Calm id i outcome)
