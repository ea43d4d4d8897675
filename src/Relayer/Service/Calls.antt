-- ===== src/Relayer/Service/Calls.antt =====
-- V2ActionService.accept (from `createOrGet` on), get, getReceipt, reconcile and start, one awaited
-- call at a time.
use midnight_referendum_app.Base.{
  Bool, false, not, ◌&&◌, ◌||◌, Option, none, some, List, [], ◌∷◌, if◌then◌else◌,
}
use midnight_referendum_app.Base.Text.{Text, text_eq, includes}
use midnight_referendum_app.Base.Json.{Value}
use midnight_referendum_app.Base.Maps.{get, set}
use midnight_referendum_app.Relayer.Types.{
  Status, authorized, validated, dust_reserved, finalized, submitted, indexer_pending, confirmed,
  failed, recovery_required, idempotency_conflict, capability_replayed, indexer_contract_mismatch,
  indexer_rejected, recovery_needed, Job, NewJob, Patch, status_eq, public_job, Reservation,
}
use midnight_referendum_app.Relayer.Store.{
  Store, Result, ok, conflict, invalid, create_or_get, get_by_idempotency_key, consume_capability,
  transition,
}
use midnight_referendum_app.Relayer.Service.State.{
  Service, Answers, Admission, Asker, timer, reader, receipt_reader, Call, creating, checking,
  consuming, replaying, reading, reconciling, resolving, confirming, refusing, rereading, starting,
  accepted, rejected, thrown, job_found, receipt_found, Resolved, receipt, lagging,
  contract_mismatch, indexer_refused, outage, reconcile_later, run, schedule, reply, await_call,
  is_submitted, has_transaction,
}
use midnight_referendum_app.Relayer.Service.Wallet.{set_status, fail_with}

abbrev pub reservation : Admission → Reservation
reservation a = record {
  digest = a.input.capability_digest;
  action_id = a.input.id;
  idempotency_key = a.input.idempotency_key;
  request_hash = a.input.request_hash;
  network = a.input.network;
  contract_address = a.input.contract_address;
  circuit = a.input.circuit;
  action = a.input.action;
  expires_at = a.expires_at;
}

-- `existingByKey && (…)`
abbrev pub is_foreign : NewJob → Option Job → Bool
is_foreign input none = false
is_foreign input (some job) =
    not (text_eq job.request_hash input.request_hash)
    || not (text_eq job.capability_digest input.capability_digest)

abbrev pub attach : Admission → Job → Service → Service
attach a existing s = record s {
  transient = set s.transient existing.id (record { unbound = a.tx; finalized = none });
}

-- The end of `accept`, without an await: the bytes are attached, the stage or a reconciliation is
-- started, and the caller is answered.
unfoldable pub admit : Admission → Job → Bool → Service → Service
unfolding run
admit a existing created s =
    let attached =
      if status_eq existing.status authorized || created then attach a existing s else s in
    let started =
      if status_eq existing.status authorized && not (includes s.running existing.id)
      then run existing.id attached
      else (if is_submitted existing.status && has_transaction existing
          then schedule (reconcile_later existing.id) attached
          else attached) in
    reply (accepted (public_job existing)) started

unfoldable pub created : Admission → Service → Result ((Job × Bool) × Store) → Service
created a s (ok ((job, fresh), store)) =
    let s' = record s { store = store } in
    if text_eq job.request_hash a.input.request_hash
    then await_call (checking a job fresh) s'
    else reply (rejected idempotency_conflict) s'
created a s conflict = reply (rejected idempotency_conflict) s
created a s invalid = reply thrown s

unfoldable pub checked : Admission → Job → Bool → Service → Option Job → Service
checked a job fresh s by_key =
    if is_foreign a.input by_key
    then reply (rejected idempotency_conflict) s
    else (if fresh || text_eq job.capability_digest a.input.capability_digest
        then await_call (consuming a job fresh) s
        else admit a job fresh s)

unfoldable pub consumed : Admission → Job → Bool → Service → Bool × Store → Service
consumed a job fresh s (done, store) =
    let s' = record s { store = store } in
    if fresh && not done then await_call (replaying a job) s' else admit a job fresh s'

-- After a transition whose result is not read; `thrown_by` runs where it throws.
unfoldable pub after_transition :
    Service → Result (Option Job × Store) → (Service → Service) → (Service → Service) → Service
after_transition s (ok (result, store)) next thrown_by = next (record s { store = store })
after_transition s conflict next thrown_by = thrown_by s
after_transition s invalid next thrown_by = thrown_by s

-- What the asker is answered with: nothing, the job, or the receipt of a confirmed job.
unfoldable pub answer : Asker → Option Job → Service → Service
answer timer job s = s
answer reader none s = reply (job_found none) s
answer reader (some job) s = reply (job_found (some (public_job job))) s
answer receipt_reader none s = reply (receipt_found none) s
answer receipt_reader (some job) s =
    reply (receipt_found (if status_eq job.status confirmed then job.receipt else none)) s

-- The first read of `get` and `getReceipt`: a reconciliation where one is due.
unfoldable pub read : Asker → Text → Service → Option Job → Service
read asker id s none = answer asker none s
read timer id s (some job) = await_call (reconciling timer id) s
read reader id s (some job) =
    if is_submitted job.status && has_transaction job
    then await_call (reconciling reader id) s
    else await_call (rereading reader id) s
read receipt_reader id s (some job) =
    if not (status_eq job.status confirmed) && has_transaction job
    then await_call (reconciling receipt_reader id) s
    else await_call (rereading receipt_reader id) s

-- The first part of `reconcile`.
unfoldable pub reconciled : Asker → Text → Service → Option Job → Service
reconciled asker id s none = await_call (rereading asker id) s
reconciled asker id s (some job) =
    if status_eq job.status confirmed || status_eq job.status failed || not (has_transaction job)
    then await_call (rereading asker id) s
    else await_call (resolving asker job) s

unfoldable pub resolved : Asker → Job → Service → Resolved → Service
resolved asker job s (receipt v) = await_call (confirming asker job.id v) s
resolved asker job s contract_mismatch =
    await_call (refusing asker job.id indexer_contract_mismatch) s
resolved asker job s indexer_refused = await_call (refusing asker job.id indexer_rejected) s
resolved asker job s lagging =
    await_call (rereading asker job.id) (schedule (reconcile_later job.id) s)
resolved asker job s outage =
    await_call (rereading asker job.id) (schedule (reconcile_later job.id) s)

abbrev pub confirmed_patch : Value → Patch
confirmed_patch v = record (set_status confirmed) { receipt = some v }

abbrev pub recovery_patch : Patch
recovery_patch = record (set_status recovery_required) { error_code = some recovery_needed }

abbrev pub awaiting_indexer : List Status
awaiting_indexer = submitted ∷ indexer_pending ∷ []

abbrev pub before_submission : List Status
before_submission = authorized ∷ validated ∷ dust_reserved ∷ finalized ∷ []

abbrev pub next_start : List Job → Service → Service
next_start jobs s = await_call (starting jobs) s

-- One round of the loop of `start`.
unfoldable pub recover : List Job → Answers → Service → Service
unfolding after_transition
recover [] a s = s
recover (job ∷ jobs) a s =
    if is_submitted job.status && has_transaction job
    then next_start jobs (schedule (reconcile_later job.id) s)
    else after_transition s (transition job.id before_submission recovery_patch a.now s.store)
        (next_start jobs) (λ s'. s')

unfoldable pub call_step : Answers → Service → Call → Service
unfolding created checked consumed after_transition read reconciled resolved recover answer
call_step a s (creating admission) = created admission s (create_or_get admission.input s.store)
call_step a s (checking admission job fresh) =
    checked admission job fresh s (get_by_idempotency_key admission.input.idempotency_key s.store)
call_step a s (consuming admission job fresh) =
    consumed admission job fresh s (consume_capability (reservation admission) s.store)
call_step a s (replaying admission job) =
    after_transition s
      (transition job.id (authorized ∷ []) (fail_with capability_replayed) a.now s.store)
      (reply (rejected capability_replayed)) (reply thrown)
call_step a s (reading asker id) = read asker id s (get s.store.jobs id)
call_step a s (reconciling asker id) = reconciled asker id s (get s.store.jobs id)
call_step a s (resolving asker job) = resolved asker job s a.resolved
call_step a s (confirming asker id v) =
    after_transition s (transition id awaiting_indexer (confirmed_patch v) a.now s.store)
      (await_call (rereading asker id))
      (λ s'. await_call (rereading asker id) (schedule (reconcile_later id) s'))
call_step a s (refusing asker id code) =
    after_transition s (transition id awaiting_indexer (fail_with code) a.now s.store)
      (await_call (rereading asker id)) (reply thrown)
call_step a s (rereading asker id) = answer asker (get s.store.jobs id) s
call_step a s (starting jobs) = recover jobs a s
