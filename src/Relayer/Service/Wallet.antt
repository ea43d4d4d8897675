-- ===== src/Relayer/Service/Wallet.antt =====
-- V2ActionService.runWalletStage, one awaited call at a time.
use midnight_referendum_app.Base.{Option, none, some, [], ◌∷◌, ◌++◌, if◌then◌else◌}
use midnight_referendum_app.Base.Text.{Text, text_eq, codes}
use midnight_referendum_app.Base.Maps.{get, set, delete}
use midnight_referendum_app.Relayer.Types.{
  Status, authorized, validated, dust_reserved, finalized, submitted, indexer_pending, failed,
  recovery_required, ErrorCode, transaction_rejected, submission_unknown, submission_id_mismatch,
  Job, Patch, empty_patch, status_eq, truthy,
}
use midnight_referendum_app.Relayer.Store.{
  Store, Result, ok, conflict, invalid, transition, reserve_dust, is_id,
}
use midnight_referendum_app.Relayer.Service.State.{
  Service, Wallet, idle, loading, validating, reserving, balancing, rejecting, finalizing, claiming,
  submitting, settling, Settlement, pending_with, unknown, mismatched, Transient, Answers,
  run_later, reconcile_later, schedule, finish,
}

abbrev pub set_status : Status → Patch
set_status status = record empty_patch { status = some status }

abbrev pub fail_with : ErrorCode → Patch
fail_with code = record (set_status failed) { error_code = some code }

-- The `status: 'finalized'` patch, with the derived id where there is one.
abbrev pub finalized_patch : Option Text → Patch
finalized_patch derived = record (set_status finalized) { transaction_id = truthy derived }

abbrev pub pending_patch : Text → Patch
pending_patch id = record (set_status indexer_pending) { transaction_id = some id }

abbrev pub unknown_patch : Patch
unknown_patch = record (set_status recovery_required) { error_code = some submission_unknown }

-- After `store.get(id)`.
unfoldable pub loaded : Text → Service → Option Job → Option Transient → Service
loaded id s none pending = finish id s
loaded id s (some job) none = finish id s
loaded id s (some job) (some pending) =
    if status_eq job.status authorized
    then record s { wallet = validating id pending }
    else finish id s

-- Continues with the job that a transition returned, or ends where the state lost a race. A throw
-- ends the stage as well.
unfoldable pub moved : Text → Service → Result (Option Job × Store) → (Service → Service) → Service
moved id s (ok (none, store)) next = finish id (record s { store = store })
moved id s (ok (some job, store)) next = next (record s { store = store })
moved id s conflict next = finish id s
moved id s invalid next = finish id s

-- Continues whatever a transition returned.
unfoldable pub moved_on :
    Text → Service → Result (Option Job × Store) → (Service → Service) → Service
moved_on id s (ok (result, store)) next = next (record s { store = store })
moved_on id s conflict next = finish id s
moved_on id s invalid next = finish id s

unfoldable pub reserved : Text → Transient → Service → Option Job × Store → Service
reserved id pending s (none, store) =
    finish id (schedule (run_later id) (record s { store = store }))
reserved id pending s (some job, store) = record s { store = store; wallet = balancing id pending }

unfoldable pub balanced : (Text → Option Text) → Text → Transient → Service → Option Text → Service
balanced transaction_id id pending s none = record s {
  transient = delete s.transient id;
  wallet = rejecting id;
}
balanced transaction_id id pending s (some tx) = record s {
  transient = set s.transient id (record pending { finalized = some tx });
  wallet = finalizing id tx (transaction_id tx);
}

-- `requireTransactionId(await submit(…))`; `none` is a throw of either.
abbrev pub submitted_id : Option Text → Option Text
submitted_id none = none
submitted_id (some id) = if is_id id then some id else none

unfoldable pub settlement : Option Text → Option Text → Settlement
settlement none none = unknown
settlement none (some derived) = pending_with derived
settlement (some id) none = pending_with id
settlement (some id) (some derived) = if text_eq id derived then pending_with id else mismatched

-- The last transition of the stage.
abbrev pub settlement_patch : Settlement → Patch
settlement_patch (pending_with id) = pending_patch id
settlement_patch unknown = unknown_patch
settlement_patch mismatched = fail_with submission_id_mismatch

abbrev pub settle : Text → Service → Settlement → Service
settle id s outcome = record s { transient = delete s.transient id; wallet = settling id outcome }

-- A reconciliation follows where there is a transaction to look for.
abbrev pub settled : Text → Settlement → Service → Service
settled id (pending_with _) s = finish id (schedule (reconcile_later id) s)
settled id unknown s = finish id s
settled id mismatched s = finish id s

-- One awaited call of the stage. `transaction_id` is `executor.transactionId`.
unfoldable pub wallet_step : (Text → Option Text) → Answers → Service → Wallet → Service
unfolding loaded moved moved_on reserved balanced settlement
wallet_step transaction_id a s idle = s
wallet_step transaction_id a s (loading id) = loaded id s (get s.store.jobs id) (get s.transient id)
wallet_step transaction_id a s (validating id pending) =
    moved id s (transition id (authorized ∷ []) (set_status validated) a.now s.store)
      λ s'. record s' { wallet = reserving id pending }
wallet_step transaction_id a s (reserving id pending) =
    reserved id pending s (reserve_dust id (id ++ codes ":" ++ a.fresh_id) a.now s.store)
wallet_step transaction_id a s (balancing id pending) =
    balanced transaction_id id pending s a.balanced
wallet_step transaction_id a s (rejecting id) =
    moved_on id s
      (transition id (dust_reserved ∷ []) (fail_with transaction_rejected) a.now s.store)
      (finish id)
wallet_step transaction_id a s (finalizing id tx derived) =
    moved_on id s (transition id (dust_reserved ∷ []) (finalized_patch derived) a.now s.store)
      λ s'. record s' { wallet = claiming id tx derived }
wallet_step transaction_id a s (claiming id tx derived) =
    moved id s (transition id (finalized ∷ []) (set_status submitted) a.now s.store)
      λ s'. record s' { wallet = submitting id tx derived; submissions = id ∷ s'.submissions }
wallet_step transaction_id a s (submitting id tx derived) =
    settle id s (settlement (submitted_id a.submitted) (truthy derived))
wallet_step transaction_id a s (settling id outcome) =
    moved_on id s (transition id (submitted ∷ []) (settlement_patch outcome) a.now s.store)
      (settled id outcome)
