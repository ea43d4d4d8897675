-- ===== src/Relayer/Service/Receipts.antt =====
-- Only a confirmation writes a receipt, and what it writes is public.
use mathlib.Core.Bool.{false≢true}
use midnight_referendum_app.Base.{
  ◌≡◌, refl, sym, ap, ◌∙◌, subst, true, false, Option, none, some, List, [], ◌∷◌, arith, is_some,
  Option-cases, inl, inr,
}
use midnight_referendum_app.Base.Text.{Text}
use midnight_referendum_app.Base.Json.{Value}
use midnight_referendum_app.Receipts.{CanonicalReceipt, sanitize_canonical_receipt}
use midnight_referendum_app.Receipts.Laws.{IsPublic, sanitize-IsPublic}
use midnight_referendum_app.Relayer.Types.{Status, Job, Patch, confirmed, status_eq}
use midnight_referendum_app.Relayer.Store.{
  Store, new_job, patched, clean_receipt, receipt_input, reserved_job,
}
use midnight_referendum_app.Relayer.Store.Keys.{Each, Each-set, Each-get}
use midnight_referendum_app.Relayer.Store.Invariant.{transition_cases, reserve_dust_cases}
use midnight_referendum_app.Relayer.Store.Create.{create_or_get_cases}
use midnight_referendum_app.Relayer.Store.Advance.{is_final, consume_capability-jobs}
use midnight_referendum_app.Relayer.Service.State.{Service}
use midnight_referendum_app.Relayer.Service.Events.{Event, step, run_events}
use midnight_referendum_app.Relayer.Service.Moves.{
  Move-IsForward, ConfirmsWithReceipt, Move-ConfirmsWithReceipt,
}
use midnight_referendum_app.Relayer.Service.Effects.{
  StoreStep, stays, creates, reserves, consumes, moves,
}
use midnight_referendum_app.Relayer.Service.Steps.{step-ServiceStep}
use midnight_referendum_app.Relayer.Service.Safety.{store_step}

-- No receipt, or one that the guard accepts.
abbrev pub IsPublicReceipt : Option CanonicalReceipt → Type 0
IsPublicReceipt none = Unit
IsPublicReceipt (some r) = IsPublic r

-- A job has a receipt exactly if it is confirmed, and then a public one.
pub record IsProven (job : Job) : Type 0 where
  pub exact : is_some job.receipt ≡ status_eq job.status confirmed
  pub public : IsPublicReceipt job.receipt

clean_receipt-IsPublic :
    (v : Value) (r : CanonicalReceipt) → clean_receipt (some v) ≡ some (some r) → IsPublic r
clean_receipt-IsPublic v r e = elim (Option-cases (sanitize_canonical_receipt v)) [
  | inl refused ↦ absurd (ground arith)
  | inr (r', clean) ↦ sanitize-IsPublic v r (clean ∙ ground arith)
]

clean_receipt-some :
    (v : Value) (o : Option CanonicalReceipt) → clean_receipt (some v) ≡ some o → is_some o ≡ true
clean_receipt-some v o e = ground arith

open_none :
    (o : Option CanonicalReceipt) (status : Status)
    → is_some o ≡ status_eq status confirmed
    → is_final status ≡ false
    → o ≡ none
open_none o status e f = ground arith

clean_given :
    (given : Option Value) (receipt : Option CanonicalReceipt)
    → clean_receipt (receipt_input none given) ≡ some receipt
    → (is_some given ≡ is_some receipt) × IsPublicReceipt receipt
clean_given none none e = (refl, tt)
clean_given none (some r) e = absurd (ground arith)
clean_given (some v) none e = absurd (false≢true (clean_receipt-some v none e))
clean_given (some v) (some r) e = (refl, clean_receipt-IsPublic v r e)

patched-IsProven :
    (job : Job) (patch : Patch) (receipt : Option CanonicalReceipt) (now : Text)
    → is_final job.status ≡ false
    → ConfirmsWithReceipt patch
    → clean_receipt (receipt_input job.receipt patch.receipt) ≡ some receipt
    → IsProven job
    → IsProven (patched job patch receipt now)
patched-IsProven job patch receipt now unfinished confirms clean p =
    let bare : job.receipt ≡ none = open_none job.receipt job.status p.exact unfinished in
    let (same, public) =
      clean_given patch.receipt receipt
        (subst (λ o. clean_receipt (receipt_input o patch.receipt) ≡ some receipt) bare clean) in
    record { exact = sym same ∙ confirms job; public = public }

StoreStep-IsProven : {s t : Store} → StoreStep s t → Each IsProven s.jobs → Each IsProven t.jobs
StoreStep-IsProven stays h = h
StoreStep-IsProven {s} {t} (creates input job fresh e) h =
    elim (create_or_get_cases input s job fresh t e) [
      | inl (_, same, _, _) ↦ rw same h
      | inr (_, _, _, jobs, _) ↦ rw jobs (
          Each-set IsProven s.jobs input.id (new_job input) h
            (record { exact = refl; public = tt }))
    ]
StoreStep-IsProven {s} (reserves id reservation_id now) h =
    elim (reserve_dust_cases id reservation_id now s) [
      | inl (_, same) ↦ rw same h
      | inr (job, ready, _, _, w) ↦
          let p = Each-get IsProven s.jobs id job h w.found in
          let bare : job.receipt ≡ none =
            open_none job.receipt job.status p.exact (ap is_final ready) in
          rw w.jobs (
            Each-set IsProven s.jobs id (reserved_job job reservation_id now) h
              (record { exact = ap is_some bare; public = p.public }))
    ]
StoreStep-IsProven {s} (consumes r) h = rw (consume_capability-jobs r s) h
StoreStep-IsProven {s} {t} (moves {expected} {patch} m id now result e) h =
    elim (transition_cases id expected patch now s result t e) [
      | inl (_, same) ↦ rw same h
      | inr (job, receipt, expects, clean, _, w) ↦ rw w.jobs (
          Each-set IsProven s.jobs id (patched job patch receipt now) h (
            patched-IsProven job patch receipt now (Move-IsForward m job expects).0
              (Move-ConfirmsWithReceipt m) clean (Each-get IsProven s.jobs id job h w.found)))
    ]

-- In every run, exactly the confirmed jobs have a receipt, and each receipt has passed the guard:
-- its texts are not empty and its block height is a safe integer.
pub run_events-IsProven :
    (transaction_id : Text → Option Text) (es : List Event) (s : Service)
    → Each IsProven s.store.jobs
    → Each IsProven (run_events transaction_id es s).store.jobs
unfolding run_events
run_events-IsProven transaction_id [] s h = h
run_events-IsProven transaction_id (e ∷ es) s h =
    run_events-IsProven transaction_id es (step transaction_id e s)
      (StoreStep-IsProven (store_step (step-ServiceStep transaction_id e s)) h)
